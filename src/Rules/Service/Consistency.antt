-- ===== src/Rules/Service/Consistency.antt =====
-- No two active rules in one place contradict each other.
use manbaa_backend.Base.{
  refl, Option, none, String, ◌≡◌, ◌≢◌, inl, inr, sym, ap, ◌∙◌, true, false, some, ◌==◌, arith,
  eq_iff, Bool-cases, &&_true, not_false, subst,
}
use manbaa_backend.Repository.{Put, save-Put}
use manbaa_backend.Json.{Fields}
use manbaa_backend.Rules.Types.{Rule, type_text}
use manbaa_backend.Rules.Conflict.{is_contradictable, contradicts, same_slot}
use manbaa_backend.Rules.Conflict.Symmetry.{same_slot_sym, contradicts_sym, type_text_inj}
use manbaa_backend.Rules.Service.{Env, State, in_column, as_stored}
use manbaa_backend.Rules.Service.Changes.{IsUncontested, RuleStep, silent, made, changed}

-- Rules in one place are of one type.
slot_type : (a b : Rule) → same_slot a b ≡ true → a.rule_type ≡ b.rule_type
slot_type a b h =
    let rest = &&_true (b.org_id == a.org_id) _ h in
    let typed = &&_true (type_text b.rule_type == type_text a.rule_type) _ rest.1 in
    type_text_inj a.rule_type b.rule_type
      (sym ((eq_iff (type_text b.rule_type) (type_text a.rule_type)).0 typed.0))

module _ (env : Env) where
  unfoldable pub IsConsistent : State env → Type 0
  IsConsistent s =
      (i j : String) (a b : Rule)
      → env.rules.get i s.rules ≡ some a
      → env.rules.get j s.rules ≡ some b
      → i ≢ j
      → a.is_active ≡ true
      → b.is_active ≡ true
      → is_contradictable a.rule_type ≡ true
      → same_slot a b ≡ true
      → contradicts env.language a b ≡ false

  -- Every condition is one that the column gives back as it is.
  unfoldable pub IsStored : State env → Type 0
  IsStored s =
      (j : String) (r : Rule)
      → env.rules.get j s.rules ≡ some r
      → in_column env r.condition ≡ r.condition

  in_column_again : (c : Option Fields) → in_column env (in_column env c) ≡ in_column env c
  in_column_again none = refl
  in_column_again (some fs) = ap some (env.in_jsonb_again fs)

  Put-IsStored :
      (c : Rule) (s t : State env)
      → Put env.rules c.id (as_stored env c) s.rules t.rules
      → IsStored s
      → IsStored t
  unfolding IsStored
  Put-IsStored c s t put all j r h = elim (Bool-cases (c.id == j)) [
    | inl hit ↦
        let same : as_stored env c ≡ r = ground (arith, put j) in
        subst (λ (x : Rule). in_column env x.condition ≡ x.condition) same
          (in_column_again c.condition)
    | inr miss ↦ all j r (ground (arith, put j))
  ]

  pub RuleStep-IsStored :
      {given : Option (Option Fields)} (s t : State env)
      → IsStored s
      → RuleStep env given s t
      → IsStored t
  unfolding IsStored
  RuleStep-IsStored s t all (silent same same') =
      λ j r h. all j r (ap (env.rules.get j) (sym same) ∙ h)
  RuleStep-IsStored s t all (made r new free from saved same) =
      Put-IsStored r s t
        (save-Put env.rules r.id (as_stored env r) s.rules t.rules (env.rule_key (as_stored env r))
          saved)
        all
  RuleStep-IsStored s t all (changed r next user_id there same_id number free from saved kept) =
      Put-IsStored next s t
        (save-Put env.rules next.id (as_stored env next) s.rules t.rules
          (env.rule_key (as_stored env next)) saved)
        all

  as_stored_same : (r : Rule) → in_column env r.condition ≡ r.condition → as_stored env r ≡ r
  as_stored_same r e = ap (λ c. record r { condition = c }) e

  -- A condition that the call brings is in the order of the column.
  abbrev pub IsOrdered : Option (Option Fields) → Type 0
  IsOrdered none = Unit
  IsOrdered (some c) = in_column env c ≡ c

  ordered :
      (given : Option (Option Fields)) (c : Option Fields)
      → IsOrdered given
      → given ≡ some c
      → in_column env c ≡ c
  ordered given c h e = subst IsOrdered e h

  module _ (s t : State env) (consistent : IsConsistent s) where
    Put-IsConsistent :
        (c : Rule) → IsUncontested env c s → Put env.rules c.id c s.rules t.rules → IsConsistent t
    unfolding IsConsistent IsUncontested
    Put-IsConsistent c free put i j a b ha hb apart on on' kind slot =
        elim (Bool-cases (c.id == i)) [
          | inl at_i ↦
              let same : c ≡ a = ground (arith, put i) in
              let here = (eq_iff c.id i).0 at_i in
              let other : (c.id == j) ≡ false =
                not_false (c.id == j) (λ hit. apart (sym here ∙ (eq_iff c.id j).0 hit)) in
              let there : env.rules.get j s.rules ≡ some b = ground (arith, put j, other) in
              subst (λ x. contradicts env.language x b ≡ false) same
                (free (rw same on) (rw same kind) j b there (λ e. apart (sym here ∙ sym e)) on'
                  (rw same slot))
          | inr off_i ↦ elim (Bool-cases (c.id == j)) [
            | inl at_j ↦
                let same : c ≡ b = ground (arith, put j) in
                let here = (eq_iff c.id j).0 at_j in
                let there : env.rules.get i s.rules ≡ some a = ground (arith, put i) in
                let typed = slot_type a b slot in
                let free' =
                  free (rw same on') (rw (same, sym typed) kind) i a there (λ e. apart (e ∙ here))
                    on (rw same (same_slot_sym a b slot)) in
                not_false (contradicts env.language a b) (λ against.
                  let back : contradicts env.language c a ≡ true =
                    rw same (contradicts_sym env.language a b typed against) in
                  cc)
            | inr off_j ↦
                consistent i j a b (ground (arith, put i)) (ground (arith, put j)) apart on on' kind
                  slot
          ]
        ]

    saved-IsConsistent :
        (c : Rule)
        → in_column env c.condition ≡ c.condition
        → IsUncontested env c s
        → t.rules ≡ env.rules.save (as_stored env c) s.rules
        → IsConsistent t
    saved-IsConsistent c plain free saved = Put-IsConsistent c free (
        save-Put env.rules c.id c s.rules t.rules (env.rule_key c)
          (saved ∙ ap (λ x. env.rules.save x s.rules) (as_stored_same c plain)))

    pub RuleStep-IsConsistent :
        {given : Option (Option Fields)}
        → IsOrdered given
        → IsStored s
        → RuleStep env given s t
        → IsConsistent t
    unfolding IsConsistent IsStored
    RuleStep-IsConsistent {given} plain all (silent same same') = λ i j a b ha hb.
        consistent i j a b (ap (env.rules.get i) (sym same) ∙ ha)
          (ap (env.rules.get j) (sym same) ∙ hb)
    RuleStep-IsConsistent {given} plain all (made r new free from saved same) =
        saved-IsConsistent r (ordered given r.condition plain from) free saved
    RuleStep-IsConsistent {given} plain all
          (changed r next user_id there same_id number free from saved kept) =
        saved-IsConsistent next
          (elim from [
            | inl own ↦ subst (λ c. in_column env c ≡ c) (sym own) (all r.id r there)
            | inr brought ↦ ordered given next.condition plain brought
          ])
          free saved
