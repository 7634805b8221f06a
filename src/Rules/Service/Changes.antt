-- ===== src/Rules/Service/Changes.antt =====
-- What may happen to the rules and to their history, one step at a time, as a specification of its own.
use manbaa_backend.Base.{
  suc, String, ◌≡◌, ◌≢◌, ◌⊎◌, inl, inr, refl, sym, ◌∙◌, true, false, not, ◌&&◌, ◌||◌, Option, none,
  some, [], ◌∷◌, ◌++◌, arith, eq_iff, Bool-cases, Option-cases, find-none, Has,
}
use manbaa_backend.Exec.{ok, err, conflict}
use manbaa_backend.Json.{Fields}
use manbaa_backend.Rules.Types.{Rule, Effect}
use manbaa_backend.Rules.Conflict.{is_contradictable, contradicts, same_slot}
use manbaa_backend.Rules.Service.{
  Env, State, version_of, ensure_in, ensure_no_conflict, excluded, opponent, pool_of,
  conflict_event, as_stored,
}

module _ (env : Env) where
  -- No other active rule in the same place contradicts the rule, if it is active and of a type that can be
  -- contradicted.
  unfoldable pub IsUncontested : Rule → State env → Type 0
  IsUncontested c s =
      c.is_active ≡ true
      → is_contradictable c.rule_type ≡ true
      → (j : String) (b : Rule) → env.rules.get j s.rules ≡ some b
      → j ≢ c.id
      → b.is_active ≡ true
      → same_slot c b ≡ true
      → contradicts env.language c b ≡ false

  -- Nothing happens, a rule is made, or a rule is changed: then its old version is kept, and it is written
  -- under the next number. The condition is the rule's own or the one that the call brings, if it brings one.
  pub data RuleStep (given : Option (Option Fields)) (s t : State env) : Type 0 where
    silent : t.rules ≡ s.rules → t.versions ≡ s.versions → RuleStep given s t
    made :
        (r : Rule)
        → env.rules.get r.id s.rules ≡ none
        → IsUncontested r s
        → given ≡ some r.condition
        → t.rules ≡ env.rules.save (as_stored env r) s.rules
        → t.versions ≡ s.versions
        → RuleStep given s t
    changed :
        (r next : Rule) (user_id : String)
        → env.rules.get r.id s.rules ≡ some r
        → next.id ≡ r.id
        → next.version ≡ suc r.version
        → IsUncontested next s
        → (next.condition ≡ r.condition) ⊎ (given ≡ some next.condition)
        → t.rules ≡ env.rules.save (as_stored env next) s.rules
        → t.versions ≡ s.versions ++ version_of env r user_id ∷ []
        → RuleStep given s t

  excluded_other : (c b : Rule) → b.id ≢ c.id → excluded env (some c.id) b ≡ false
  excluded_other c b other = ground (arith, other, eq_iff b.id c.id)

  -- The check either throws, after its message, or finds the rule uncontested and changes nothing.
  pub ensure_cases :
      (c : Rule) (exclude : Option String) (s : State env)
      → (exclude ≡ none) ⊎ (exclude ≡ some c.id)
      → ((e : Effect) × (ensure_no_conflict env c exclude s
            ≡ (err (conflict "RULE_CONFLICT"), record s { effects = s.effects ++ e ∷ [] })))
        ⊎ (IsUncontested c s × (ensure_no_conflict env c exclude s ≡ (ok tt, s)))
  unfolding ensure_no_conflict ensure_in IsUncontested
  ensure_cases c exclude s who =
      elim (Bool-cases (not c.is_active || not (is_contradictable c.rule_type))) [
        | inl idle ↦ inr (
          (λ active contradictable j b there other on slot.
              absurd (ground (arith, idle, active, contradictable))),
          ground arith,
        )
        | inr careful ↦ elim (Option-cases (opponent env c exclude (pool_of env c s))) [
          | inr (r, found) ↦ inl (conflict_event env c r, ground arith)
          | inl free ↦ inr (
            (λ active contradictable j b there other on slot.
                let listed : Has b (pool_of env c s) =
                  env.rules_listing.select_complete (λ r. r.is_active && same_slot c r) s.rules j b
                    there (rw (on, slot) refl) in
                let fits =
                  find-none (λ r. not (excluded env exclude r) && contradicts env.language c r)
                    (pool_of env c s) b free listed in
                let id_b : b.id ≡ j = sym (env.rule_key b) ∙ env.rules.key-get j s.rules b there in
                let apart : excluded env exclude b ≡ false = elim who [
                  | inl none_given ↦ rw none_given refl
                  | inr own ↦ rw own (excluded_other c b (λ same. other (sym id_b ∙ same)))
                ] in
                rw apart at fits),
            ground arith,
          )
        ]
      ]
