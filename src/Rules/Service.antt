-- ===== src/Rules/Service.antt =====
-- src/modules/rules/rules.service.ts: the methods that change the rules.
pub mod Changes
pub mod Consistency
pub mod History
pub mod Steps
pub mod Commands
mod Refusals
mod Import
mod Tests
use manbaa_backend.Base.{
  ℕ, suc, String, ◌≡◌, Bool, true, false, not, ◌&&◌, ◌||◌, Option, none, some, List, [], ◌∷◌, ◌++◌,
  ◌==◌, or_else, find, is_some, if◌then◌else◌, eqb, map,
}
use manbaa_backend.Exec.{
  Failure, Exec, bad_request, not_found, forbidden, conflict, ◌>>=◌, ◌>>◌, pure, raise, gets,
  require, modify, guard,
}
use manbaa_backend.Json.{Json, null, obj, Fields}
use manbaa_backend.Repository.{Repository, find_one}
use manbaa_backend.Repository.Listing.{Listing}
use manbaa_backend.Session.Types.{RequestUser}
use manbaa_backend.Rules.Types.{
  RuleScope, Rule, RuleVersion, Workflow, CreateRuleDto, UpdateRuleDto, RuleEvent, rule_created,
  rule_updated, rule_activated, rule_deactivated, rule_deleted, Effect,
}
use manbaa_backend.Rules.Conflict.{Language, deep_equal, is_contradictable, contradicts, same_slot}

pub record Env : Type 1 where
  pub rules : Repository Rule
  pub rule_key : (r : Rule) → rules.key r ≡ r.id
  pub rules_listing : Listing rules
  pub workflows : Repository Workflow
  pub language : Language
  -- What a `jsonb` column gives back for an object: the same properties, in the column's own order, which it
  -- keeps when it is stored again.
  pub in_jsonb : Fields → Fields
  pub in_jsonb_again : (fs : Fields) → in_jsonb (in_jsonb fs) ≡ in_jsonb fs

-- `!!text` of a column that may be `null`.
abbrev pub given : Option String → Bool
given none = false
given (some s) = not (s == "")

abbrev condition_json : Option Fields → Json
condition_json none = null
condition_json (some fs) = obj fs

abbrev pub is_rule_manager : RequestUser → Bool
is_rule_manager caller = caller.role == "admin" || caller.role == "business_analyst"

module _ (env : Env) where
  -- The versions are the rows in the order in which they were inserted; `cache` is `activeRuleCache`, an entry
  -- with the time at which it expires.
  pub record State : Type 0 where
    pub rules : env.rules.Store
    pub versions : List RuleVersion
    pub workflows : env.workflows.Store
    pub cache : String → Option (ℕ × List Rule)
    pub effects : List Effect

  abbrev pub emit : Effect → Exec State Unit
  emit e = modify λ s. record s { effects = s.effects ++ e ∷ [] }

  abbrev pub in_column : Option Fields → Option Fields
  in_column none = none
  in_column (some fs) = some (env.in_jsonb fs)

  -- The row as it is read after it was saved.
  abbrev pub as_stored : Rule → Rule
  as_stored r = record r { condition = in_column r.condition }

  abbrev pub save_rule : Rule → Exec State Unit
  save_rule r = modify λ s. record s { rules = env.rules.save (as_stored r) s.rules }

  -- `invalidateOrgRuleCache`
  abbrev pub invalidate : String → Exec State Unit
  invalidate org_id = modify λ s. record s { cache = λ o. if org_id == o then none else s.cache o }

  pub assert_rule_manager : RequestUser → Exec State Unit
  assert_rule_manager caller = do
    guard (not (caller.org_id == "")) (forbidden "Organization scope is required")
    guard (is_rule_manager caller) (forbidden "Admin or Business Analyst role is required")

  pub find_rule_or_throw : String → String → Exec State Rule
  find_rule_or_throw id org_id = do
    found ← gets (λ s. find_one env.rules id (λ r. r.org_id == org_id) s.rules)
    require found (not_found "Rule not found")

  abbrev is_org : RuleScope → Bool
  is_org RuleScope.org = true
  is_org _ = false

  abbrev is_workflow : RuleScope → Bool
  is_workflow RuleScope.workflow = true
  is_workflow _ = false

  abbrev is_agent : RuleScope → Bool
  is_agent RuleScope.agent = true
  is_agent _ = false

  -- `if (workflowId) { … }` of `assertScopeConsistency`.
  abbrev workflow_known : Option String → String → State → Bool
  workflow_known none org_id s = true
  workflow_known (some w) org_id s =
      w == "" || is_some (find_one env.workflows w (λ x. x.org_id == org_id) s.workflows)

  pub assert_scope_consistency :
      RuleScope → Option String → Option String → String → Exec State Unit
  assert_scope_consistency scope workflow_id target_agent org_id = do
    guard (not (is_workflow scope && not (given workflow_id)))
        (bad_request "workflow_id is required for WORKFLOW scoped rules")
    guard (not (is_org scope && given workflow_id))
        (bad_request "workflow_id must be omitted for ORG scoped rules")
    guard (not (is_agent scope && not (given target_agent)))
        (bad_request "target_agent is required for AGENT scoped rules")
    known ← gets (workflow_known workflow_id org_id)
    guard known (not_found "Workflow not found")

  -- `excludeRuleId && existingRule.id === excludeRuleId`
  abbrev pub excluded : Option String → Rule → Bool
  excluded none r = false
  excluded (some id) r = not (id == "") && r.id == id

  -- `emitConflictEvent`
  abbrev pub conflict_event : Rule → Rule → Effect
  conflict_event candidate existing =
      if given candidate.workflow_id
      then Effect.conflict_in_workflow (or_else candidate.workflow_id "") existing.id candidate.name
      else Effect.conflict_in_org candidate.org_id existing.id candidate.name

  abbrev pub opponent : Rule → Option String → List Rule → Option Rule
  opponent candidate exclude pool =
      find (λ r. not (excluded exclude r) && contradicts env.language candidate r) pool

  -- `ensureNoConflict` on the rules that are given.
  pub ensure_in : Rule → Option String → List Rule → Exec State Unit
  ensure_in candidate exclude pool =
      if not candidate.is_active || not (is_contradictable candidate.rule_type)
      then pure tt
      else elim (opponent candidate exclude pool) [
        | none ↦ pure tt
        | some existing ↦
            emit (conflict_event candidate existing) >> raise (conflict "RULE_CONFLICT")
      ]

  -- The active rules that stand in the same place.
  abbrev pub pool_of : Rule → State → List Rule
  pool_of candidate s = env.rules_listing.select (λ r. r.is_active && same_slot candidate r) s.rules

  pub ensure_no_conflict : Rule → Option String → Exec State Unit
  unfolding ensure_in
  ensure_no_conflict candidate exclude = do
    pool ← gets (pool_of candidate)
    ensure_in candidate exclude pool

  abbrev pub rule_of : String → CreateRuleDto → ℕ → Bool → RequestUser → Rule
  rule_of uuid dto version is_active caller = record {
    id = uuid;
    org_id = caller.org_id;
    workflow_id = dto.workflow_id;
    name = env.language.trim dto.name;
    description = elim dto.description [ none ↦ none | some text ↦ some (env.language.trim text) ];
    rule_type = dto.kind;
    scope = dto.scope;
    target_agent = dto.target_agent;
    condition = dto.condition;
    instruction = env.language.trim dto.instruction;
    priority = or_else dto.priority 100;
    version = version;
    is_active = is_active;
    created_by = caller.id;
  }

  abbrev pub version_of : Rule → String → RuleVersion
  version_of r user_id = record {
    rule_id = r.id;
    version = r.version;
    instruction = r.instruction;
    condition = in_column r.condition;
    priority = r.priority;
    is_active = r.is_active;
    changed_by = user_id;
  }

  abbrev pub snapshot_rule_version : Rule → String → Exec State Unit
  snapshot_rule_version r user_id =
      modify λ s. record s { versions = s.versions ++ version_of r user_id ∷ [] }

  -- A change of a rule is stored: the old version is kept, and the new one is written under the next number.
  unfoldable pub record_change : Rule → Rule → RuleEvent → RequestUser → Exec State Rule
  record_change before changed event caller = do
    snapshot_rule_version before caller.id
    let saved : Rule = record changed { version = suc before.version }
    save_rule saved
    emit (Effect.audit saved.workflow_id caller.id event saved.id)
    invalidate caller.org_id
    pure saved

  unfoldable pub create_rule : String → CreateRuleDto → RequestUser → Exec State Rule
  create_rule uuid dto caller = do
    assert_rule_manager caller
    assert_scope_consistency dto.scope dto.workflow_id dto.target_agent caller.org_id
    let candidate = rule_of uuid dto 1 true caller
    ensure_no_conflict candidate none
    save_rule candidate
    emit (Effect.audit candidate.workflow_id caller.id RuleEvent.rule_created candidate.id)
    invalidate caller.org_id
    pure candidate

  abbrev pub changed_rule : UpdateRuleDto → Rule → Rule
  changed_rule dto r = record r {
    instruction = elim dto.instruction [
      | none ↦ r.instruction
      | some text ↦ env.language.trim text
    ];
    condition = or_else dto.condition r.condition;
    priority = or_else dto.priority r.priority;
    is_active = or_else dto.is_active r.is_active;
  }

  abbrev same_bool : Bool → Bool → Bool
  same_bool true b = b
  same_bool false b = not b

  -- `hasChanges`, and `requiresVersionSnapshot`, which is the same.
  abbrev pub has_changes : Rule → Rule → Bool
  has_changes r next =
      not (next.instruction == r.instruction)
      || (not (deep_equal env.language (condition_json next.condition) (condition_json r.condition))
          || (not (eqb next.priority r.priority) || not (same_bool next.is_active r.is_active)))

  abbrev pub update_event : UpdateRuleDto → Rule → Rule → RuleEvent
  update_event dto r next =
      if not (same_bool next.is_active r.is_active)
        && (not (given dto.instruction)
            && (not (is_some dto.priority) && not (is_some dto.condition)))
      then (if next.is_active then RuleEvent.rule_activated else RuleEvent.rule_deactivated)
      else RuleEvent.rule_updated

  unfoldable pub update_rule : String → UpdateRuleDto → RequestUser → Exec State Rule
  unfolding record_change
  update_rule id dto caller = do
    assert_rule_manager caller
    r ← find_rule_or_throw id caller.org_id
    let next = changed_rule dto r
    let change = record_change r next (update_event dto r next) caller
    let checked = if next.is_active then ensure_no_conflict next (some r.id) else pure tt
    if has_changes r next then checked >> change else pure r

  unfoldable pub activate : String → RequestUser → Exec State Rule
  unfolding record_change
  activate id caller = do
    assert_rule_manager caller
    r ← find_rule_or_throw id caller.org_id
    let next : Rule = record r { is_active = true }
    let change = record_change r next RuleEvent.rule_activated caller
    if r.is_active then pure r else (ensure_no_conflict next (some r.id) >> change)

  unfoldable pub deactivate : String → RequestUser → Exec State Rule
  unfolding record_change
  deactivate id caller = do
    assert_rule_manager caller
    r ← find_rule_or_throw id caller.org_id
    let next : Rule = record r { is_active = false }
    if r.is_active then record_change r next RuleEvent.rule_deactivated caller else pure r

  unfoldable pub soft_delete : String → RequestUser → Exec State Unit
  unfolding record_change
  soft_delete id caller = do
    assert_rule_manager caller
    r ← find_rule_or_throw id caller.org_id
    let next : Rule = record r { is_active = false }
    let change = record_change r next RuleEvent.rule_deleted caller >> pure tt
    let noted =
        emit (Effect.audit r.workflow_id caller.id RuleEvent.rule_deleted r.id)
        >> invalidate caller.org_id
    if r.is_active then change else noted
