-- ===== src/Rules/Service/Steps.antt =====
-- Each method of src/modules/rules/rules.service.ts on one rule as a step of the history.
use manbaa_backend.Base.{
  suc, String, ◌≡◌, ◌⊎◌, inl, inr, refl, sym, ap, ◌∙◌, Bool, true, false, not, ◌&&◌, or_else,
  Option, none, some, ◌==◌, arith, Bool-cases, Option-cases, keep-some, if◌then◌else◌,
}
use manbaa_backend.Exec.{Failure, Exec, ok, err, bad_request, not_found, forbidden, pure, ◌>>◌}
use manbaa_backend.Json.{Fields}
use manbaa_backend.Repository.{find_one}
use manbaa_backend.Session.Types.{RequestUser}
use manbaa_backend.Rules.Types.{RuleScope, Rule, CreateRuleDto, UpdateRuleDto, RuleEvent}
use manbaa_backend.Rules.Conflict.{has_type_specific_conflict}
use manbaa_backend.Rules.Service.{
  Env, State, given, is_org, is_workflow, is_agent, workflow_known, is_rule_manager,
  assert_rule_manager, assert_scope_consistency, find_rule_or_throw, ensure_no_conflict, rule_of,
  record_change, create_rule, changed_rule, has_changes, update_event, update_rule, activate,
  deactivate, soft_delete,
}
use manbaa_backend.Rules.Service.Changes.{
  RuleStep, silent, made, changed, IsUncontested, ensure_cases,
}

module _ (env : Env) where
  pub manager_cases :
      (caller : RequestUser) (s : State env)
      → ((e : Failure) × (assert_rule_manager env caller s ≡ (err e, s)))
        ⊎ (((caller.org_id == "") ≡ false)
            × (is_rule_manager caller ≡ true)
            × (assert_rule_manager env caller s ≡ (ok tt, s)))
  unfolding assert_rule_manager
  manager_cases caller s = elim (Bool-cases (caller.org_id == "")) [
    | inl homeless ↦ inl (forbidden "Organization scope is required", ground arith)
    | inr at_home ↦ elim (Bool-cases (is_rule_manager caller)) [
      | inl manager ↦ inr (at_home, manager, ground arith)
      | inr other ↦ inl (forbidden "Admin or Business Analyst role is required", ground arith)
    ]
  ]

  pub found_cases :
      (id org_id : String) (s : State env)
      → (find_rule_or_throw env id org_id s ≡ (err (not_found "Rule not found"), s))
        ⊎ ((r : Rule) × (env.rules.get id s.rules ≡ some r)
            × ((r.org_id == org_id) ≡ true)
            × (env.rules.get r.id s.rules ≡ some r)
            × (find_rule_or_throw env id org_id s ≡ (ok r, s)))
  unfolding find_rule_or_throw
  found_cases id org_id s =
      elim (Option-cases (find_one env.rules id (λ r. r.org_id == org_id) s.rules)) [
        | inl missing ↦ inl (ground arith)
        | inr (r, found) ↦
            let (there, ours) =
              keep-some (λ x. x.org_id == org_id) (env.rules.get id s.rules) r found in
            let same : r.id ≡ id = sym (env.rule_key r) ∙ env.rules.key-get id s.rules r there in
            inr (r, there, ours, ap (λ k. env.rules.get k s.rules) same ∙ there, ground arith)
      ]

  pub scope_cases :
      (scope : RuleScope) (workflow_id target_agent : Option String) (org_id : String)
      (s : State env)
      → ((e : Failure) × (assert_scope_consistency env scope workflow_id target_agent org_id s
            ≡ (err e, s)))
        ⊎ (assert_scope_consistency env scope workflow_id target_agent org_id s ≡ (ok tt, s))
  unfolding assert_scope_consistency
  scope_cases scope workflow_id target_agent org_id s =
      elim (Bool-cases (not (is_workflow env scope && not (given workflow_id)))) [
        | inr e ↦ inl (bad_request "workflow_id is required for WORKFLOW scoped rules", rw e refl)
        | inl e ↦ elim (Bool-cases (not (is_org env scope && given workflow_id))) [
          | inr e' ↦
              inl (bad_request "workflow_id must be omitted for ORG scoped rules", rw (e, e') refl)
          | inl e' ↦ elim (Bool-cases (not (is_agent env scope && not (given target_agent)))) [
            | inr e2 ↦
                inl (
                  bad_request "target_agent is required for AGENT scoped rules",
                  rw (e, e', e2) refl,
                )
            | inl e2 ↦ elim (Bool-cases (workflow_known env workflow_id org_id s)) [
              | inr e3 ↦ inl (not_found "Workflow not found", rw (e, e', e2, e3) refl)
              | inl e3 ↦ inr (rw (e, e', e2, e3) refl)
            ]
          ]
        ]
      ]

  -- What is stored when a rule is changed without a conflict.
  change-RuleStep :
      {given : Option (Option Fields)} (r next : Rule) (event : RuleEvent) (caller : RequestUser)
      (s : State env)
      → env.rules.get r.id s.rules ≡ some r
      → next.id ≡ r.id
      → (next.condition ≡ r.condition) ⊎ (given ≡ some next.condition)
      → IsUncontested env (record next { version = suc r.version }) s
      → RuleStep env given s (record_change env r next event caller s).1
  unfolding record_change
  change-RuleStep r next event caller s there same from free =
      changed r (record next { version = suc r.version }) caller.id there same refl free from refl
        refl

  -- A rule that is switched off contradicts nothing.
  idle-IsUncontested : (r : Rule) (s : State env) → r.is_active ≡ false → IsUncontested env r s
  unfolding IsUncontested
  idle-IsUncontested r s off on kind j b there apart on' slot = absurd (ground (arith, off, on))

  off-RuleStep :
      {given : Option (Option Fields)} (r : Rule) (event : RuleEvent) (caller : RequestUser)
      (s : State env)
      → env.rules.get r.id s.rules ≡ some r
      → RuleStep env given s (record_change env r (record r { is_active = false }) event caller s).1
  off-RuleStep r event caller s there =
      change-RuleStep r (record r { is_active = false }) event caller s there refl (inl refl)
        (idle-IsUncontested (record r { is_active = false; version = suc r.version }) s refl)

  branch-RuleStep :
      {given : Option (Option Fields)} {A : Type 0} (b : Bool) (m n : Exec (State env) A)
      (s : State env)
      → (b ≡ true → RuleStep env given s (m s).1)
      → (b ≡ false → RuleStep env given s (n s).1)
      → RuleStep env given s ((if b then m else n) s).1
  branch-RuleStep true m n s on off = on refl
  branch-RuleStep false m n s on off = off refl

  pub deactivate-RuleStep :
      {given : Option (Option Fields)} (id : String) (caller : RequestUser) (s : State env)
      → RuleStep env given s (deactivate env id caller s).1
  unfolding deactivate
  deactivate-RuleStep id caller s = elim (manager_cases caller s) [
    | inl (e, refused) ↦ rw refused (silent refl refl)
    | inr (_, _, granted) ↦ elim (found_cases id caller.org_id s) [
      | inl missing ↦ rw (granted, missing) (silent refl refl)
      | inr (r, _, _, there, found) ↦
          rw (granted, found)
            (branch-RuleStep r.is_active _ _ s
              (λ on. off-RuleStep r RuleEvent.rule_deactivated caller s there)
              (λ off. silent refl refl))
    ]
  ]

  pub delete-RuleStep :
      {given : Option (Option Fields)} (id : String) (caller : RequestUser) (s : State env)
      → RuleStep env given s (soft_delete env id caller s).1
  unfolding soft_delete
  delete-RuleStep id caller s = elim (manager_cases caller s) [
    | inl (e, refused) ↦ rw refused (silent refl refl)
    | inr (_, _, granted) ↦ elim (found_cases id caller.org_id s) [
      | inl missing ↦ rw (granted, missing) (silent refl refl)
      | inr (r, _, _, there, found) ↦
          rw (granted, found)
            (branch-RuleStep r.is_active _ _ s
              (λ on. off-RuleStep r RuleEvent.rule_deleted caller s there)
              (λ off. silent refl refl))
    ]
  ]

  -- A change that is checked first.
  checked-RuleStep :
      {given : Option (Option Fields)} (r next : Rule) (event : RuleEvent) (caller : RequestUser)
      (s : State env)
      → env.rules.get r.id s.rules ≡ some r
      → next.id ≡ r.id
      → (next.condition ≡ r.condition) ⊎ (given ≡ some next.condition)
      → RuleStep env given s
          ((ensure_no_conflict env next (some r.id) >> record_change env r next event caller) s).1
  unfolding IsUncontested has_type_specific_conflict
  checked-RuleStep r next event caller s there same from =
      elim (ensure_cases env next (some r.id) s (inr (ap some (sym same)))) [
        | inl (e, refused) ↦ rw refused (silent refl refl)
        | inr (free, fine) ↦
            rw fine (change-RuleStep r next event caller s there same from (numbered free))
      ]
    where
      numbered :
          IsUncontested env next s → IsUncontested env (record next { version = suc r.version }) s
      numbered free = free

  pub activate-RuleStep :
      {given : Option (Option Fields)} (id : String) (caller : RequestUser) (s : State env)
      → RuleStep env given s (activate env id caller s).1
  unfolding activate
  activate-RuleStep id caller s = elim (manager_cases caller s) [
    | inl (e, refused) ↦ rw refused (silent refl refl)
    | inr (_, _, granted) ↦ elim (found_cases id caller.org_id s) [
      | inl missing ↦ rw (granted, missing) (silent refl refl)
      | inr (r, _, _, there, found) ↦
          rw (granted, found)
            (branch-RuleStep r.is_active _ _ s (λ on. silent refl refl)
              (λ off.
                checked-RuleStep r (record r { is_active = true }) RuleEvent.rule_activated caller s
                  there refl (inl refl)))
    ]
  ]

  -- A change that is checked if the rule will be active.
  guarded-RuleStep :
      {given : Option (Option Fields)} (active : Bool) (r next : Rule) (event : RuleEvent)
      (caller : RequestUser) (s : State env)
      → env.rules.get r.id s.rules ≡ some r
      → next.id ≡ r.id
      → (next.condition ≡ r.condition) ⊎ (given ≡ some next.condition)
      → (active ≡ false → next.is_active ≡ false)
      → RuleStep env given s
          (((if active then ensure_no_conflict env next (some r.id) else pure tt)
              >> record_change env r next event caller)
            s).1
  guarded-RuleStep true r next event caller s there same from off =
      checked-RuleStep r next event caller s there same from
  guarded-RuleStep false r next event caller s there same from off =
      change-RuleStep r next event caller s there same from
        (idle-IsUncontested (record next { version = suc r.version }) s (off refl))

  condition_from :
      (given : Option (Option Fields)) (c : Option Fields)
      → (or_else given c ≡ c) ⊎ (given ≡ some (or_else given c))
  condition_from none c = inl refl
  condition_from (some x) c = inr refl

  pub update-RuleStep :
      (id : String) (dto : UpdateRuleDto) (caller : RequestUser) (s : State env)
      → RuleStep env dto.condition s (update_rule env id dto caller s).1
  unfolding update_rule
  update-RuleStep id dto caller s = elim (manager_cases caller s) [
    | inl (e, refused) ↦ rw refused (silent refl refl)
    | inr (_, _, granted) ↦ elim (found_cases id caller.org_id s) [
      | inl missing ↦ rw (granted, missing) (silent refl refl)
      | inr (r, _, _, there, found) ↦
          rw (granted, found)
            (branch-RuleStep (has_changes env r (changed_rule env dto r)) _ _ s
              (λ changes.
                guarded-RuleStep (changed_rule env dto r).is_active r (changed_rule env dto r)
                  (update_event env dto r (changed_rule env dto r)) caller s there refl
                  (condition_from dto.condition r.condition) (λ off. off))
              (λ same. silent refl refl))
    ]
  ]

  pub create-RuleStep :
      (uuid : String) (dto : CreateRuleDto) (caller : RequestUser) (s : State env)
      → env.rules.get uuid s.rules ≡ none
      → RuleStep env (some dto.condition) s (create_rule env uuid dto caller s).1
  unfolding create_rule
  create-RuleStep uuid dto caller s new = elim (manager_cases caller s) [
    | inl (e, refused) ↦ rw refused (silent refl refl)
    | inr (_, _, granted) ↦
        elim (scope_cases dto.scope dto.workflow_id dto.target_agent caller.org_id s) [
          | inl (e, refused) ↦ rw (granted, refused) (silent refl refl)
          | inr fine ↦
              let candidate = rule_of env uuid dto 1 true caller in
              elim (ensure_cases env candidate none s (inl refl)) [
                | inl (e, refused) ↦ rw (granted, fine, refused) (silent refl refl)
                | inr (free, passed) ↦
                    rw (granted, fine, passed) (made candidate new free refl refl refl)
              ]
        ]
  ]
