-- ===== src/Rules/Types.antt =====
-- Rows of src/modules/rules/entities, without their time stamps, and the requests of dto/rules.dto.ts.
use manbaa_backend.Base.{ℕ, String, Bool, Option}
use manbaa_backend.Json.{Fields}

pub data RuleType : Type 0 where
  extraction actor_mapping structural_constraint : RuleType
  validation naming_convention prompt_injection : RuleType

pub data RuleScope : Type 0 where
  org workflow agent : RuleScope

-- The values of the two enums.
abbrev pub type_text : RuleType → String
type_text extraction = "EXTRACTION"
type_text actor_mapping = "ACTOR_MAPPING"
type_text structural_constraint = "STRUCTURAL_CONSTRAINT"
type_text validation = "VALIDATION"
type_text naming_convention = "NAMING_CONVENTION"
type_text prompt_injection = "PROMPT_INJECTION"

abbrev pub scope_text : RuleScope → String
scope_text org = "ORG"
scope_text workflow = "WORKFLOW"
scope_text agent = "AGENT"

-- `targetAgent` is the text of an `AgentType`.
pub record Rule : Type 0 where
  pub id : String
  pub org_id : String
  pub workflow_id : Option String
  pub name : String
  pub description : Option String
  pub rule_type : RuleType
  pub scope : RuleScope
  pub target_agent : Option String
  pub condition : Option Fields
  pub instruction : String
  pub priority : ℕ
  pub version : ℕ
  pub is_active : Bool
  pub created_by : String

pub record RuleVersion : Type 0 where
  pub rule_id : String
  pub version : ℕ
  pub instruction : String
  pub condition : Option Fields
  pub priority : ℕ
  pub is_active : Bool
  pub changed_by : String

-- What the service reads of a row of `workflow`.
pub record Workflow : Type 0 where
  pub id : String
  pub org_id : String

pub record CreateRuleDto : Type 0 where
  pub name : String
  pub description : Option String
  pub kind : RuleType
  pub scope : RuleScope
  pub workflow_id : Option String
  pub target_agent : Option String
  pub condition : Option Fields
  pub instruction : String
  pub priority : Option ℕ

-- The condition is left out, `null` or an object.
pub record UpdateRuleDto : Type 0 where
  pub instruction : Option String
  pub condition : Option (Option Fields)
  pub priority : Option ℕ
  pub is_active : Option Bool

pub record RuleBundleRuleDto : Type 0 where
  pub rule : CreateRuleDto
  pub version : Option ℕ
  pub is_active : Option Bool

pub data RuleEvent : Type 0 where
  rule_created rule_updated rule_activated rule_deactivated rule_deleted rule_imported : RuleEvent

-- The audit log with the workflow, the actor, the event and the rules it is about; and
-- `rules.conflict.detected` for the room of the workflow or of the organisation, with the rule that is
-- there and the name of the one that comes in.
pub data Effect : Type 0 where
  audit : Option String → String → RuleEvent → String → Effect
  conflict_in_workflow conflict_in_org : String → String → String → Effect
