-- ===== src/Rules/Service/Import.antt =====
-- `importRules`, `buildImportedRule` and `getCachedActiveRules` of src/modules/rules/rules.service.ts.
use manbaa_backend.Base.{
  ℕ, String, ◌≡◌, ◌⊎◌, inl, inr, refl, sym, ap, ◌∙◌, true, not, ◌&&◌, ◌||◌, ◌+◌, Option, none, some,
  List, [], ◌∷◌, ◌++◌, ◌==◌, ltb, or_else, map, arith, Bool-cases, Option-cases, if◌then◌else◌,
}
use manbaa_backend.Exec.{Failure, Result-cases, Exec, ok, err, ◌>>=◌, ◌>>◌, pure, modify}
use manbaa_backend.Session.Types.{RequestUser}
use manbaa_backend.Rules.Types.{Rule, RuleBundleRuleDto, RuleEvent, Effect}
use manbaa_backend.Rules.Conflict.{is_contradictable}
use manbaa_backend.Rules.Service.{
  Env, State, emit, invalidate, assert_rule_manager, assert_scope_consistency, ensure_in, rule_of,
  opponent, as_stored,
}
use manbaa_backend.Rules.Service.Steps.{manager_cases, scope_cases}

module _ (env : Env) where
  abbrev pub active_rules : String → State env → List Rule
  active_rules org_id s = env.rules_listing.select (λ r. r.org_id == org_id && r.is_active) s.rules

  abbrev pub remembered : ℕ → String → State env → State env
  remembered now org_id s = record s {
    cache = λ o. if org_id == o then some (now + 60000, active_rules org_id s) else s.cache o;
  }

  -- The cached rules, if the entry has not expired; else they are read and kept for 60 seconds.
  unfoldable pub get_cached_active_rules : ℕ → String → Exec (State env) (List Rule)
  get_cached_active_rules now org_id s = elim (s.cache org_id) [
    | none ↦ (ok (active_rules org_id s), remembered now org_id s)
    | some (expires_at, kept) ↦
        if ltb now expires_at
        then (ok kept, s)
        else (ok (active_rules org_id s), remembered now org_id s)
  ]

  abbrev pub imported_rule : String → RuleBundleRuleDto → RequestUser → Rule
  imported_rule uuid item caller =
      rule_of env uuid item.rule (or_else item.version 1) (or_else item.is_active true) caller

  -- The loop of `importRules`. The ids are those that the database makes when the rules are saved.
  unfoldable pub stage :
      List (String × RuleBundleRuleDto)
      → List Rule
      → List Rule
      → RequestUser
      → Exec (State env) (List Rule)
  stage [] active staged caller = pure staged
  stage ((uuid, item) ∷ items) active staged caller =
      let candidate = imported_rule uuid item caller in
      let rest = stage items active (staged ++ candidate ∷ []) caller in
      assert_scope_consistency env item.rule.scope item.rule.workflow_id item.rule.target_agent
        caller.org_id
      >> ensure_in env candidate none (active ++ staged)
      >> rest

  abbrev pub save_all : List Rule → env.rules.Store → env.rules.Store
  save_all [] rules = rules
  save_all (r ∷ rs) rules = save_all rs (env.rules.save (as_stored env r) rules)

  unfoldable pub import_rules :
      ℕ → List (String × RuleBundleRuleDto) → RequestUser → Exec (State env) (List Rule)
  unfolding get_cached_active_rules stage
  import_rules now items caller = do
    assert_rule_manager env caller
    active ← get_cached_active_rules now caller.org_id
    staged ← stage items active [] caller
    modify (λ s. record s { rules = save_all staged s.rules })
    emit env (Effect.audit none caller.id RuleEvent.rule_imported "")
    invalidate env caller.org_id
    pure staged

  ensure_rules :
      (c : Rule) (exclude : Option String) (pool : List Rule) (s : State env)
      → ((ensure_in env c exclude pool s).1.rules ≡ s.rules)
        × ((ensure_in env c exclude pool s).1.versions ≡ s.versions)
  unfolding ensure_in
  ensure_rules c exclude pool s =
      elim (Bool-cases (not c.is_active || not (is_contradictable c.rule_type))) [
        | inl idle ↦ rw idle (refl, refl)
        | inr careful ↦ elim (Option-cases (opponent env c exclude pool)) [
          | inl free ↦ rw (careful, free) (refl, refl)
          | inr (r, found) ↦ rw (careful, found) (refl, refl)
        ]
      ]

  -- The loop writes no rule. If it comes to its end, the rules have the ids in the order of the items.
  stage_rules :
      (items : List (String × RuleBundleRuleDto)) (active staged : List Rule) (caller : RequestUser)
      (s : State env)
      → ((stage items active staged caller s).1.rules ≡ s.rules)
        × ((stage items active staged caller s).1.versions ≡ s.versions)
  unfolding stage
  stage_rules [] active staged caller s = (refl, refl)
  stage_rules ((uuid, item) ∷ items) active staged caller s =
      let candidate = imported_rule uuid item caller in
      elim (scope_cases env item.rule.scope item.rule.workflow_id item.rule.target_agent
        caller.org_id s) [
          | inl (e, refused) ↦ rw refused (refl, refl)
          | inr fine ↦
              let (same, same') = ensure_rules candidate none (active ++ staged) s in
              elim (Result-cases (ensure_in env candidate none (active ++ staged) s).0) [
                | inr (e, failed) ↦ rw (fine, failed) (same, same')
                | inl (u, passed) ↦
                    let s' = (ensure_in env candidate none (active ++ staged) s).1 in
                    let rest = stage_rules items active (staged ++ candidate ∷ []) caller s' in
                    rw (fine, passed) (rest.0 ∙ same, rest.1 ∙ same')
              ]
        ]

  cached_rules :
      (now : ℕ) (org_id : String) (s : State env)
      → (rules : List Rule) × (u : State env) × (get_cached_active_rules now org_id s
          ≡ (ok rules, u))
        × (u.rules ≡ s.rules)
        × (u.versions ≡ s.versions)
  unfolding get_cached_active_rules
  cached_rules now org_id s = elim (Option-cases (s.cache org_id)) [
    | inl missing ↦ (active_rules org_id s, remembered now org_id s, ground arith, refl, refl)
    | inr (entry, there) ↦ elim (Bool-cases (ltb now entry.0)) [
      | inl valid ↦ (entry.1, s, ground arith, refl, refl)
      | inr expired ↦ (active_rules org_id s, remembered now org_id s, ground arith, refl, refl)
    ]
  ]

  -- The ids of rules, and what follows them.
  ids_then : List Rule → List String → List String
  ids_then [] tail = tail
  ids_then (r ∷ rs) tail = r.id ∷ ids_then rs tail

  ids_then-append :
      (rs : List Rule) (r : Rule) (tail : List String)
      → ids_then (rs ++ r ∷ []) tail ≡ ids_then rs (r.id ∷ tail)
  unfolding ids_then
  ids_then-append [] r tail = refl
  ids_then-append (x ∷ rs) r tail = ap (λ xs. x.id ∷ xs) (ids_then-append rs r tail)

  ids_then-map : (rs : List Rule) → ids_then rs [] ≡ map (λ (r : Rule). r.id) rs
  unfolding ids_then
  ids_then-map [] = refl
  ids_then-map (x ∷ rs) = ap (λ xs. x.id ∷ xs) (ids_then-map rs)

  abbrev pub ids_of : List (String × RuleBundleRuleDto) → List String
  ids_of items = map (λ (item : String × RuleBundleRuleDto). item.0) items

  stage_ids :
      (items : List (String × RuleBundleRuleDto)) (active staged saved : List Rule)
      (caller : RequestUser) (s : State env)
      → (stage items active staged caller s).0 ≡ ok saved
      → ids_then saved [] ≡ ids_then staged (ids_of items)
  unfolding stage
  stage_ids [] active staged saved caller s h = ap (λ rs. ids_then rs []) (ground (arith, h))
  stage_ids ((uuid, item) ∷ items) active staged saved caller s h =
      let candidate = imported_rule uuid item caller in
      elim (scope_cases env item.rule.scope item.rule.workflow_id item.rule.target_agent
        caller.org_id s) [
          | inl (e, refused) ↦ absurd (ground (arith, (rw refused at h)))
          | inr fine ↦ elim (Result-cases (ensure_in env candidate none (active ++ staged) s).0) [
            | inr (e, failed) ↦ absurd (ground (arith, (rw (fine, failed) at h)))
            | inl (u, passed) ↦
                stage_ids items active (staged ++ candidate ∷ []) saved caller
                  (ensure_in env candidate none (active ++ staged) s).1 (rw (fine, passed) at h)
                ∙ ids_then-append staged candidate (ids_of items)
          ]
        ]

  -- An import is all or nothing: either it throws and no rule is written, or every rule of the bundle is
  -- stored, in its order and under the ids that the database makes; no version is written.
  pub import_all :
      (now : ℕ) (items : List (String × RuleBundleRuleDto)) (caller : RequestUser) (s : State env)
      → (((e : Failure) × ((import_rules now items caller s).0 ≡ err e)
            × ((import_rules now items caller s).1.rules ≡ s.rules))
          ⊎ ((saved : List Rule) × ((import_rules now items caller s).0 ≡ ok saved)
              × (map (λ (r : Rule). r.id) saved ≡ ids_of items)
              × ((import_rules now items caller s).1.rules ≡ save_all saved s.rules)))
        × ((import_rules now items caller s).1.versions ≡ s.versions)
  unfolding import_rules ids_then
  import_all now items caller s = elim (manager_cases env caller s) [
    | inl (e, refused) ↦ (inl (e, rw refused refl, rw refused refl), rw refused refl)
    | inr (_, _, granted) ↦
        let (active, u, read, same, same') = cached_rules now caller.org_id s in
        let (kept, kept') = stage_rules items active [] caller u in
        elim (Result-cases (stage items active [] caller u).0) [
          | inr (e, failed) ↦ (
            inl (e, rw (granted, read, failed) refl, rw (granted, read, failed) (kept ∙ same)),
            rw (granted, read, failed) (kept' ∙ same'),
          )
          | inl (saved, staged) ↦ (
            inr (
              saved,
              rw (granted, read, staged) refl,
              sym (ids_then-map saved) ∙ stage_ids items active [] saved caller u staged,
              rw (granted, read, staged) (ap (save_all saved) (kept ∙ same)),
            ),
            rw (granted, read, staged) (kept' ∙ same'),
          )
        ]
  ]
