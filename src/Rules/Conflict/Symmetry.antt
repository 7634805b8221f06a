-- ===== src/Rules/Conflict/Symmetry.antt =====
-- Contradiction does not depend on which rule came first.
use manbaa_backend.Base.{
  String, ◌≡◌, inl, inr, refl, sym, ap, ◌∙◌, true, Option, none, some, List, [], ◌∷◌, ◌==◌, any,
  if◌then◌else◌, arith, eq_iff, Bool-cases, Option-cases, Has, &&_true,
}
use manbaa_backend.Json.{Json, Fields, field, end, get, keys}
use manbaa_backend.Rules.Types.{RuleType, type_text, scope_text, Rule}
use manbaa_backend.Rules.Conflict.{
  Language, same_column, agree_on, conditions_overlap, pick_first_value, opposed,
  has_type_specific_conflict, contradicts, same_slot, subject_keys, claim_keys,
}

pub eq_sym : (a b : String) → (a == b) ≡ (b == a)
eq_sym a b = elim (Bool-cases (a == b)) [
  | inl same ↦ same ∙ sym ((eq_iff b a).1 (sym ((eq_iff a b).0 same)))
  | inr other ↦ elim (Bool-cases (b == a)) [
    | inl same ↦ absurd (ground (arith, eq_iff a b, eq_iff b a))
    | inr other' ↦ other ∙ sym other'
  ]
]

type_of : String → RuleType
type_of text =
    if text == "EXTRACTION"
    then RuleType.extraction
    else if text == "ACTOR_MAPPING"
    then RuleType.actor_mapping
    else if text == "STRUCTURAL_CONSTRAINT"
    then RuleType.structural_constraint
    else if text == "VALIDATION"
    then RuleType.validation
    else if text == "NAMING_CONVENTION"
    then RuleType.naming_convention
    else RuleType.prompt_injection

type_of-type_text : (a : RuleType) → type_of (type_text a) ≡ a
unfolding type_of
type_of-type_text RuleType.extraction = refl
type_of-type_text RuleType.actor_mapping = refl
type_of-type_text RuleType.structural_constraint = refl
type_of-type_text RuleType.validation = refl
type_of-type_text RuleType.naming_convention = refl
type_of-type_text RuleType.prompt_injection = refl

pub type_text_inj : (a b : RuleType) → type_text a ≡ type_text b → a ≡ b
type_text_inj a b same = sym (type_of-type_text a) ∙ (ap type_of same ∙ type_of-type_text b)

pub same_column_sym : (a b : Option String) → same_column a b ≡ same_column b a
same_column_sym none none = refl
same_column_sym none (some b) = refl
same_column_sym (some a) none = refl
same_column_sym (some a) (some b) = eq_sym a b

module _ (language : Language) where
  any_of_agree :
      (left right : Fields) (wanted : List String) (k : String)
      → Has k wanted
      → agree_on language left right k ≡ true
      → any (agree_on language left right) wanted ≡ true
  any_of_agree left right [] k h e = absurd h
  any_of_agree left right (x ∷ wanted) k (inl same) e = ground (arith, same, e)
  any_of_agree left right (x ∷ wanted) k (inr h) e =
      ground (arith, any_of_agree left right wanted k h e)

  agree_of_any :
      (left right : Fields) (wanted : List String)
      → any (agree_on language left right) wanted ≡ true
      → (k : String) × (agree_on language left right k ≡ true)
  agree_of_any left right [] h = cc
  agree_of_any left right (x ∷ wanted) h = elim (Bool-cases (agree_on language left right x)) [
    | inl yes_x ↦ (x, yes_x)
    | inr no_x ↦ agree_of_any left right wanted (rw no_x at h)
  ]

  Has-keys : (fs : Fields) (k : String) (v : Json) → get k fs ≡ some v → Has k (keys fs)
  Has-keys end k v h = absurd (ground (arith, h))
  Has-keys (field l x fs) k v h = elim (Bool-cases (l == k)) [
    | inl same ↦ inl ((eq_iff l k).0 same)
    | inr other ↦ inr (Has-keys fs k v (rw other at h))
  ]

  agree-swap :
      (left right : Fields) (k : String)
      → agree_on language left right k ≡ true
      → (agree_on language right left k ≡ true) × Has k (keys right)
  agree-swap left right k h = elim (Option-cases (get k left)) [
    | inl missing ↦ absurd (ground (arith, h))
    | inr (a, here) ↦ elim (Option-cases (get k right)) [
      | inl missing ↦ absurd (ground (arith, h))
      | inr (b, there) ↦ (
        ground (arith, h, eq_sym (language.stringify a) (language.stringify b)),
        Has-keys right k b there,
      )
    ]
  ]

  pub overlap_sym :
      (left right : Option Fields)
      → conditions_overlap language left right ≡ true
      → conditions_overlap language right left ≡ true
  unfolding conditions_overlap
  overlap_sym none none h = refl
  overlap_sym none (some r) h = cc
  overlap_sym (some l) none h = cc
  overlap_sym (some l) (some r) h =
      let (k, agree) = agree_of_any l r (keys l) h in
      let (agree', there) = agree-swap l r k agree in any_of_agree r l (keys r) k there agree'

  opposed_sym :
      (s s' c c' : Option String) → opposed language s s' c c' ≡ opposed language s' s c' c
  opposed_sym none none c c' = refl
  opposed_sym none (some b) c c' = elim c' [ none ↦ refl | some y ↦ refl ]
  opposed_sym (some a) none c c' = elim c [ none ↦ refl | some x ↦ refl ]
  opposed_sym (some a) (some b) none none = refl
  opposed_sym (some a) (some b) none (some y) = refl
  opposed_sym (some a) (some b) (some x) none = refl
  opposed_sym (some a) (some b) (some x) (some y) = rw (eq_sym a b, eq_sym x y) refl

  specific_sym :
      (a b : Rule)
      → a.rule_type ≡ b.rule_type
      → has_type_specific_conflict language a b ≡ has_type_specific_conflict language b a
  unfolding has_type_specific_conflict
  specific_sym a b same = rw same (
      rw
        (
          opposed_sym (pick_first_value language a.condition (subject_keys b.rule_type))
              (pick_first_value language b.condition (subject_keys b.rule_type))
              (pick_first_value language a.condition (claim_keys b.rule_type))
              (pick_first_value language b.condition (claim_keys b.rule_type)),
          eq_sym (language.trim a.instruction) (language.trim b.instruction),
        )
        refl)

  pub contradicts_sym :
      (a b : Rule)
      → a.rule_type ≡ b.rule_type
      → contradicts language a b ≡ true
      → contradicts language b a ≡ true
  contradicts_sym a b same h =
      let (overlap, specific) = &&_true _ _ h in
      let there = overlap_sym a.condition b.condition overlap in
      rw there (sym (specific_sym a b same) ∙ specific)

pub same_slot_sym : (a b : Rule) → same_slot a b ≡ true → same_slot b a ≡ true
same_slot_sym a b h = ground (
  arith,
  h,
  eq_sym a.org_id b.org_id,
  eq_sym (type_text a.rule_type) (type_text b.rule_type),
  eq_sym (scope_text a.scope) (scope_text b.scope),
  same_column_sym a.target_agent b.target_agent,
  same_column_sym a.workflow_id b.workflow_id,
)
