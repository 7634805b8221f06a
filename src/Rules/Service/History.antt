-- ===== src/Rules/Service/History.antt =====
-- The numbers of the versions of a rule.
use manbaa_backend.Base.{
  Option, suc, String, ◌≡◌, ◌⊎◌, ◌<◌, inl, inr, sym, ap, ◌∙◌, none, some, [], ◌∷◌, ◌++◌, ◌==◌,
  arith, eq_iff, eq_refl, Bool-cases, subst, Has, Has-append,
}
use manbaa_backend.Repository.{Put, save-Put}
use manbaa_backend.Rules.Types.{Rule, RuleVersion}
use manbaa_backend.Json.{Fields}
use manbaa_backend.Rules.Service.{Env, State, version_of, as_stored}
use manbaa_backend.Rules.Service.Changes.{RuleStep, silent, made, changed}

module _ (env : Env) where
  -- A version that is kept is older than its rule, which is stored, and no two versions of a rule that
  -- differ have one number.
  pub record IsRecorded (s : State env) : Type 0 where
    pub older :
        (v : RuleVersion)
        → Has v s.versions
        → (r : Rule) × (env.rules.get v.rule_id s.rules ≡ some r) × (v.version < r.version)
    pub unique :
        (v w : RuleVersion)
        → Has v s.versions
        → Has w s.versions
        → v.rule_id ≡ w.rule_id
        → v.version ≡ w.version
        → v ≡ w

  module _ (s t : State env) (recorded : IsRecorded s) where
    made-IsRecorded :
        (r : Rule)
        → env.rules.get r.id s.rules ≡ none
        → Put env.rules r.id r s.rules t.rules
        → t.versions ≡ s.versions
        → IsRecorded t
    made-IsRecorded r new put same = record {
      older = λ v h.
          let (x, there, less) = recorded.older v (subst (Has v) same h) in
          (x, ground (arith, put v.rule_id, eq_iff r.id v.rule_id), less);
      unique = λ v w h h'. recorded.unique v w (subst (Has v) same h) (subst (Has w) same h');
    }

    module _ (r next : Rule) (user_id : String) (there : env.rules.get r.id s.rules ≡ some r)
        (number : next.version ≡ suc r.version) (put : Put env.rules r.id next s.rules t.rules)
        (kept : t.versions ≡ s.versions ++ version_of env r user_id ∷ []) where
      old : RuleVersion
      old = version_of env r user_id

      split : (v : RuleVersion) → Has v t.versions → Has v s.versions ⊎ (old ≡ v)
      unfolding old
      split v h =
          elim (Has-append s.versions (version_of env r user_id ∷ []) v (subst (Has v) kept h)) [
            | inl before ↦ inl before
            | inr last ↦ elim last [ inl same ↦ inr same | inr past ↦ absurd past ]
          ]

      now : env.rules.get r.id t.rules ≡ some next
      now = ground (arith, put r.id, eq_refl r.id)

      -- A version from before has not the number of the one that is added.
      clash : (v : RuleVersion) → Has v s.versions → v.rule_id ≡ r.id → v.version ≡ r.version → ⊥
      clash v h same equal =
          let (x, found, less) = recorded.older v h in
          let at_r : env.rules.get r.id s.rules ≡ some x =
            ap (λ k. env.rules.get k s.rules) (sym same) ∙ found in
          ground arith

      changed-IsRecorded : IsRecorded t
      unfolding old
      changed-IsRecorded = record {
        older = λ v h. elim (split v h) [
          | inr added ↦
              subst
                (λ (x : RuleVersion).
                  (y : Rule) × (env.rules.get x.rule_id t.rules ≡ some y) × (x.version < y.version))
                added (next, now, omega (arith, number))
          | inl before ↦
              let (x, found, less) = recorded.older v before in
              elim (Bool-cases (r.id == v.rule_id)) [
                | inl hit ↦
                    let same : r ≡ x = ground (arith, eq_iff r.id v.rule_id) in
                    (next, ground (arith, put v.rule_id), ground (arith, same))
                | inr other ↦ (x, ground (arith, put v.rule_id), less)
              ]
        ];
        unique = λ v w h h' same equal. elim (split v h) [
          | inl before ↦ elim (split w h') [
            | inl before' ↦ recorded.unique v w before before' same equal
            | inr added' ↦ absurd (
                clash v before (same ∙ ap (λ (x : RuleVersion). x.rule_id) (sym added'))
                  (equal ∙ ap (λ (x : RuleVersion). x.version) (sym added')))
          ]
          | inr added ↦ elim (split w h') [
            | inl before' ↦ absurd (
                clash w before' (sym same ∙ ap (λ (x : RuleVersion). x.rule_id) (sym added))
                  (sym equal ∙ ap (λ (x : RuleVersion). x.version) (sym added)))
            | inr added' ↦ sym added ∙ added'
          ]
        ];
      }

    pub RuleStep-IsRecorded :
        {given : Option (Option Fields)} → RuleStep env given s t → IsRecorded t
    RuleStep-IsRecorded (silent same same') = record {
      older = λ v h.
          let (x, there, less) = recorded.older v (subst (Has v) same' h) in
          (x, ap (env.rules.get v.rule_id) same ∙ there, less);
      unique = λ v w h h'. recorded.unique v w (subst (Has v) same' h) (subst (Has w) same' h');
    }
    RuleStep-IsRecorded (made r new free from saved same) =
        made-IsRecorded (as_stored env r) new
          (save-Put env.rules r.id (as_stored env r) s.rules t.rules
            (env.rule_key (as_stored env r)) saved)
          same
    RuleStep-IsRecorded (changed r next user_id there same_id number free from saved kept) =
        changed-IsRecorded r (as_stored env next) user_id there number
          (save-Put env.rules r.id (as_stored env next) s.rules t.rules
            (env.rule_key (as_stored env next) ∙ same_id) saved)
          kept
