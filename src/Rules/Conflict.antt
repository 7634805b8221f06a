-- ===== src/Rules/Conflict.antt =====
-- When two rules contradict each other: `conditionsOverlap`, `hasTypeSpecificConflict` and `pickFirstValue` of
-- src/modules/rules/rules.service.ts.
pub mod Symmetry
use manbaa_backend.Base.{
  ℕ, String, Bool, true, false, not, ◌&&◌, ◌||◌, Option, none, some, List, [], ◌∷◌, ◌==◌, or_else,
  any, if◌then◌else◌,
}
use manbaa_backend.Json.{Json, null, str, obj, Fields, field, end, get, keys}
use manbaa_backend.Rules.Types.{
  RuleType, actor_mapping, structural_constraint, type_text, scope_text, Rule,
}

-- `trim` and `JSON.stringify` of the language.
pub record Language : Type 0 where
  pub trim : String → String
  pub stringify : Json → String

-- `CONTRADICTABLE_RULE_TYPES`
abbrev pub is_contradictable : RuleType → Bool
is_contradictable RuleType.actor_mapping = true
is_contradictable RuleType.structural_constraint = true
is_contradictable _ = false

-- A column that may be `null` against a value that may be: `IsNull()` where it is.
abbrev pub same_column : Option String → Option String → Bool
same_column none none = true
same_column (some a) (some b) = a == b
same_column _ _ = false

-- The keys from which `hasTypeSpecificConflict` reads what a rule is about, and what it says of it.
abbrev pub subject_keys : RuleType → List String
subject_keys RuleType.actor_mapping = "source_label" ∷ "source" ∷ "actor" ∷ "alias" ∷ []
subject_keys RuleType.structural_constraint = "structure" ∷ "pattern" ∷ "element" ∷ []
subject_keys _ = []

abbrev pub claim_keys : RuleType → List String
claim_keys RuleType.actor_mapping = "canonical" ∷ "canonical_actor" ∷ "target" ∷ "mapped_actor" ∷ []
claim_keys RuleType.structural_constraint = "mode" ∷ "constraint" ∷ "requirement" ∷ []
claim_keys _ = []

module _ (language : Language) where
  -- `deepEqual`
  abbrev pub deep_equal : Json → Json → Bool
  deep_equal a b = language.stringify a == language.stringify b

  -- Both objects have the key, with equal values.
  abbrev pub agree_on : Fields → Fields → String → Bool
  agree_on left right key = elim (get key left) [
    | none ↦ false
    | some a ↦ elim (get key right) [ none ↦ false | some b ↦ deep_equal a b ]
  ]

  unfoldable pub conditions_overlap : Option Fields → Option Fields → Bool
  conditions_overlap none none = true
  conditions_overlap (some left) (some right) = any (agree_on left right) (keys left)
  conditions_overlap _ _ = false

  -- A text that is not blank, trimmed.
  abbrev pub filled : Option Json → Option String
  filled (some (str s)) = if language.trim s == "" then none else some (language.trim s)
  filled _ = none

  unfoldable pub pick_first_value : Option Fields → List String → Option String
  pick_first_value none wanted = none
  pick_first_value (some condition) [] = none
  pick_first_value (some condition) (key ∷ wanted) =
      let rest = pick_first_value (some condition) wanted in
      elim (filled (get key condition)) [ none ↦ rest | some value ↦ some value ]

  -- What is decided where both rules name one subject and say something of it.
  abbrev pub opposed : Option String → Option String → Option String → Option String → Option Bool
  opposed (some subject) (some subject') (some claim) (some claim') =
      if subject == subject' then some (not (claim == claim')) else none
  opposed _ _ _ _ = none

  unfoldable pub has_type_specific_conflict : Rule → Rule → Bool
  unfolding pick_first_value
  has_type_specific_conflict candidate existing =
      let subjects = subject_keys candidate.rule_type in
      let claims = claim_keys candidate.rule_type in
      or_else
        (opposed (pick_first_value candidate.condition subjects)
          (pick_first_value existing.condition subjects)
          (pick_first_value candidate.condition claims)
          (pick_first_value existing.condition claims))
        (not (language.trim candidate.instruction == language.trim existing.instruction))

  -- The test of `ensureNoConflict`.
  abbrev pub contradicts : Rule → Rule → Bool
  contradicts candidate existing =
      conditions_overlap candidate.condition existing.condition
      && has_type_specific_conflict candidate existing

-- The `where` of the query of `ensureNoConflict`.
abbrev pub same_slot : Rule → Rule → Bool
same_slot candidate r =
    r.org_id == candidate.org_id
    && (type_text r.rule_type == type_text candidate.rule_type
        && (scope_text r.scope == scope_text candidate.scope
            && (same_column r.target_agent candidate.target_agent
                && same_column r.workflow_id candidate.workflow_id)))
