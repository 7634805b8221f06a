-- ===== src/Rules/Service/Refusals.antt =====
-- What the methods of src/modules/rules/rules.service.ts refuse.
use manbaa_backend.Base.{String, ◌≡◌, inl, inr, refl, ap, true, false, none, some, ◌==◌, arith}
use manbaa_backend.Exec.{ok, err, not_found, conflict}
use manbaa_backend.Session.Types.{RequestUser}
use manbaa_backend.Rules.Types.{Rule, CreateRuleDto, UpdateRuleDto}
use manbaa_backend.Rules.Conflict.{is_contradictable, contradicts, same_slot}
use manbaa_backend.Rules.Service.{
  Env, State, is_rule_manager, assert_rule_manager, assert_scope_consistency, rule_of, create_rule,
  update_rule, activate, deactivate, soft_delete,
}
use manbaa_backend.Rules.Service.Changes.{IsUncontested, ensure_cases}
use manbaa_backend.Rules.Service.Commands.{
  Command, create, update, switch_on, switch_off, delete, execute,
}
use manbaa_backend.Rules.Service.Steps.{manager_cases, found_cases}

module _ (env : Env) where
  -- A caller who is neither an admin nor a business analyst changes nothing, whatever is called for.
  pub unmanaged_call :
      (command : Command env) (caller : RequestUser) (s : State env)
      → is_rule_manager caller ≡ false
      → execute env command caller s ≡ s
  unfolding execute create_rule update_rule activate deactivate soft_delete
  unmanaged_call command caller s other = elim (manager_cases env caller s) [
    | inr (_, manager, _) ↦ absurd (ground (arith, manager, other))
    | inl (e, refused) ↦ elim command as (λ k. execute env k caller s ≡ s) [
      | create uuid dto ↦ rw (refused, execute) refl
      | update id dto ↦ rw (refused, execute) refl
      | switch_on id ↦ rw (refused, execute) refl
      | switch_off id ↦ rw (refused, execute) refl
      | delete id ↦ rw (refused, execute) refl
    ]
  ]

  -- A rule of another organisation is not found by a manager, and the four methods that change a rule leave
  -- everything as it was.
  pub foreign_rule :
      (id : String) (dto : UpdateRuleDto) (caller : RequestUser) (s : State env) (r : Rule)
      → env.rules.get id s.rules ≡ some r
      → (r.org_id == caller.org_id) ≡ false
      → assert_rule_manager env caller s ≡ (ok tt, s)
      → (update_rule env id dto caller s ≡ (err (not_found "Rule not found"), s))
        × (activate env id caller s ≡ (err (not_found "Rule not found"), s))
        × (deactivate env id caller s ≡ (err (not_found "Rule not found"), s))
        × (soft_delete env id caller s ≡ (err (not_found "Rule not found"), s))
  unfolding update_rule activate deactivate soft_delete
  foreign_rule id dto caller s r there foreign granted = elim (found_cases env id caller.org_id s) [
    | inr (r', there', ours, _, _) ↦ absurd (ground (arith, there, there', ours, foreign))
    | inl missing ↦ (
      rw (granted, missing) refl,
      rw (granted, missing) refl,
      rw (granted, missing) refl,
      rw (granted, missing) refl,
    )
  ]

  -- A new rule is refused with RULE_CONFLICT, and no rule and no version is written, if an active rule in its
  -- place contradicts it and is of a type that can be contradicted.
  pub contested_rule :
      (uuid : String) (dto : CreateRuleDto) (caller : RequestUser) (s : State env) (j : String)
      (b : Rule)
      → assert_rule_manager env caller s ≡ (ok tt, s)
      → assert_scope_consistency env dto.scope dto.workflow_id dto.target_agent caller.org_id s
        ≡ (ok tt, s)
      → env.rules.get uuid s.rules ≡ none
      → env.rules.get j s.rules ≡ some b
      → b.is_active ≡ true
      → is_contradictable dto.kind ≡ true
      → same_slot (rule_of env uuid dto 1 true caller) b ≡ true
      → contradicts env.language (rule_of env uuid dto 1 true caller) b ≡ true
      → ((create_rule env uuid dto caller s).0 ≡ err (conflict "RULE_CONFLICT"))
        × ((create_rule env uuid dto caller s).1.rules ≡ s.rules)
        × ((create_rule env uuid dto caller s).1.versions ≡ s.versions)
  unfolding create_rule IsUncontested
  contested_rule uuid dto caller s j b granted fine new there on kind slot against =
      let candidate = rule_of env uuid dto 1 true caller in
      elim (ensure_cases env candidate none s (inl refl)) [
        | inl (e, refused) ↦ (
          rw (granted, fine, refused) refl,
          rw (granted, fine, refused) refl,
          rw (granted, fine, refused) refl,
        )
        | inr (free, _) ↦
            let apart : (j ≡ uuid) → ⊥ =
              λ same. ground (arith, ap (λ k. env.rules.get k s.rules) same) in
            let no_clash = free refl kind j b there apart on slot in absurd (cc)
      ]
