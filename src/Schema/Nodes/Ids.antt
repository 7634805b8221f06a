-- ===== src/Schema/Nodes/Ids.antt =====
-- The ids of the nodes that a walk without errors has met.
use manbaa_backend.Base.{
  ℕ, suc, String, ◌≡◌, refl, sym, ap, ◌∙◌, subst, inl, inr, ◌+◌, false, Option, none, some, List,
  [], ◌∷◌, ◌++◌, length, length-append, arith, ltb, Bool-cases, ◌==◌, eq_iff, if◌then◌else◌,
}
use manbaa_backend.Json.{
  Json, null, bool, num, str, arr, obj, Items, nil, item, Fields, end, field, get, keys, text,
}
use manbaa_backend.Schema.Types.{Trail, key, at, Patterns}
use manbaa_backend.Schema.Nodes.{
  Walk, report, prohibited_keys, seen_in, check_id, check_node, validate_component_node,
  validate_children, validate_child_list, validate_items,
}

pub cons_nil : {A : Type 0} {x : A} {xs : List A} → (x ∷ xs) ≡ [] → ⊥
cons_nil h = cc

pub nothing_added : {A : Type 0} (xs ys : List A) → (xs ++ ys) ≡ [] → (xs ≡ []) × (ys ≡ [])
nothing_added [] ys h = (refl, h)
nothing_added (x ∷ xs) ys h = cc

-- No text stands twice in the list.
abbrev pub IsDistinct : List String → Type 0
IsDistinct [] = Unit
IsDistinct (x ∷ xs) = (seen_in xs x ≡ false) × IsDistinct xs

-- The ids of a node and its descendants, in the order in which they stand.
mutual
  pub node_ids : Json → List String
  node_ids (obj fs) = elim (text (get "id" fs)) [
    | none ↦ child_ids fs
    | some id ↦ id ∷ child_ids fs
  ]
  node_ids _ = []

  pub child_ids : Fields → List String
  child_ids end = []
  child_ids (field k v fs) =
      let here = list_ids v in let rest = child_ids fs in if k == "children" then here else rest

  pub list_ids : Json → List String
  list_ids (arr xs) = item_ids xs
  list_ids _ = []

  pub item_ids : Items → List String
  item_ids nil = []
  item_ids (item v xs) = node_ids v ++ item_ids xs

-- There was no error in `w`; a node for each of these ids was counted, and the ids were added to those
-- of `w`, no one twice.
pub record Met (ids : List String) (w w' : Walk) : Type 0 where
  pub before : w.errors ≡ []
  pub seen : w'.seen ≡ w.seen ++ ids
  pub nodes : w'.nodes ≡ w.nodes + length ids
  pub distinct : IsDistinct w.seen → IsDistinct w'.seen

other_end :
    (xs : List String) (x y : String)
    → seen_in xs y ≡ false
    → (y == x) ≡ false
    → seen_in (xs ++ x ∷ []) y ≡ false
other_end [] x y h other = ground (arith, eq_iff x y, eq_iff y x)
other_end (z ∷ xs) x y h other = ground (arith, other_end xs x y)

snoc-IsDistinct :
    (xs : List String) (x : String)
    → seen_in xs x ≡ false
    → IsDistinct xs
    → IsDistinct (xs ++ x ∷ [])
snoc-IsDistinct [] x h d = (refl, tt)
snoc-IsDistinct (y ∷ xs) x h d =
    (other_end xs x y d.0 (ground arith), snoc-IsDistinct xs x (ground arith) d.1)

check_id-Met :
    (o : Option String) (path : Trail) (w : Walk)
    → (check_id o path w).errors ≡ []
    → (id : String) × (o ≡ some id)
      × (seen_in w.seen id ≡ false)
      × (w.errors ≡ [])
      × ((check_id o path w).seen ≡ w.seen ++ id ∷ [])
      × ((check_id o path w).nodes ≡ w.nodes)
unfolding check_id
check_id-Met none path w h = absurd (cons_nil (nothing_added w.errors _ h).1)
check_id-Met (some id) path w h = elim (Bool-cases (seen_in w.seen id)) [
  | inl twice ↦ absurd (cons_nil (nothing_added w.errors _ (rw twice at h)).1)
  | inr new ↦ (id, refl, new, rw new at h, rw new refl, rw new refl)
]

check_node-Met :
    (patterns : Patterns) (fs : Fields) (path : Trail) (w : Walk)
    → (check_node patterns fs path w).errors ≡ []
    → (id : String) × (text (get "id" fs) ≡ some id)
      × Met (id ∷ []) w (check_node patterns fs path w)
unfolding check_node
check_node-Met patterns fs path w h =
    let clean = report (prohibited_keys (keys fs) (λ k. key k ∷ path)) w in
    let named = check_id (text (get "id" fs)) path clean in
    let (id, there, new, before, seen, nodes) =
      check_id-Met (text (get "id" fs)) path clean
        (nothing_added named.errors _ (nothing_added (named.errors ++ _) _ h).0).0 in
    (
      id,
      there,
      record {
        before = (nothing_added w.errors _ before).0;
        seen = seen;
        nodes = omega (arith, nodes);
        distinct = λ d. subst IsDistinct (sym seen) (snoc-IsDistinct w.seen id new d);
      },
    )

pub append_nil : (xs : List String) → (xs ++ []) ≡ xs
append_nil [] = refl
append_nil (x ∷ xs) = ap (λ ys. x ∷ ys) (append_nil xs)

append_assoc : (xs ys zs : List String) → ((xs ++ ys) ++ zs) ≡ (xs ++ (ys ++ zs))
append_assoc [] ys zs = refl
append_assoc (x ∷ xs) ys zs = ap (λ r. x ∷ r) (append_assoc xs ys zs)

pub chain :
    (ids more : List String) (w w' w'' : Walk)
    → (w'.errors ≡ [] → Met ids w w')
    → Met more w' w''
    → Met (ids ++ more) w w''
chain ids more w w' w'' f m =
    let first = f m.before in
    record {
      before = first.before;
      seen = m.seen ∙ (ap (λ s. s ++ more) first.seen ∙ append_assoc w.seen ids more);
      nodes = omega (arith, first.nodes, m.nodes, length-append ids more);
      distinct = λ d. m.distinct (first.distinct d);
    }

-- Without an error, the walk over a node adds the ids of the node and its descendants.
mutual
  unfolding validate_component_node validate_children validate_child_list validate_items node_ids
      child_ids list_ids item_ids

  pub node-Met :
      (patterns : Patterns) (v : Json) (path : Trail) (depth : ℕ) (w : Walk)
      → (validate_component_node patterns v path depth w).errors ≡ []
      → Met (node_ids v) w (validate_component_node patterns v path depth w)
  node-Met patterns (obj fs) path depth w h = elim (Bool-cases (ltb 20 depth)) [
    | inl deep ↦ absurd (cons_nil (nothing_added w.errors _ (rw deep at h)).1)
    | inr fine ↦
        let node = check_node patterns fs path w in
        let rest = children-Met patterns fs path depth node (rw fine at h) in
        let (id, there, first) = check_node-Met patterns fs path w rest.before in
        let ids : node_ids (obj fs) ≡ id ∷ child_ids fs =
          ap
            (λ (o : Option String). elim o as (λ x. List String) [
              | none ↦ child_ids fs
              | some x ↦ x ∷ child_ids fs
            ])
            there in
        let all_met =
          chain (id ∷ []) (child_ids fs) w node (validate_children patterns fs path depth node)
            (λ b. first) rest in
        rw fine (
          subst (λ (xs : List String). Met xs w (validate_children patterns fs path depth node))
            (sym ids) all_met)
  ]
  node-Met patterns (arr xs) path depth w h = elim (Bool-cases (ltb 20 depth)) [
    | inl deep ↦ absurd (cons_nil (nothing_added w.errors _ (rw deep at h)).1)
    | inr fine ↦ let (id, there, first) = check_node-Met patterns end path w (rw fine at h) in cc
  ]
  node-Met patterns null path depth w h = absurd (cons_nil (nothing_added w.errors _ h).1)
  node-Met patterns (bool b) path depth w h = absurd (cons_nil (nothing_added w.errors _ h).1)
  node-Met patterns (num n) path depth w h = absurd (cons_nil (nothing_added w.errors _ h).1)
  node-Met patterns (str s) path depth w h = absurd (cons_nil (nothing_added w.errors _ h).1)

  children-Met :
      (patterns : Patterns) (fs : Fields) (path : Trail) (depth : ℕ) (w : Walk)
      → (validate_children patterns fs path depth w).errors ≡ []
      → Met (child_ids fs) w (validate_children patterns fs path depth w)
  children-Met patterns end path depth w h = record {
    before = h;
    seen = sym (append_nil w.seen);
    nodes = omega arith;
    distinct = λ d. d;
  }
  children-Met patterns (field k v fs) path depth w h = elim (Bool-cases (k == "children")) [
    | inl hit ↦ rw hit (child_list-Met patterns v (key "children" ∷ path) depth w (rw hit at h))
    | inr other ↦ rw other (children-Met patterns fs path depth w (rw other at h))
  ]

  child_list-Met :
      (patterns : Patterns) (v : Json) (path : Trail) (depth : ℕ) (w : Walk)
      → (validate_child_list patterns v path depth w).errors ≡ []
      → Met (list_ids v) w (validate_child_list patterns v path depth w)
  child_list-Met patterns (arr xs) path depth w h = items-Met patterns xs 0 path (suc depth) w h
  child_list-Met patterns null path depth w h = absurd (cons_nil (nothing_added w.errors _ h).1)
  child_list-Met patterns (bool b) path depth w h = absurd (cons_nil (nothing_added w.errors _ h).1)
  child_list-Met patterns (num n) path depth w h = absurd (cons_nil (nothing_added w.errors _ h).1)
  child_list-Met patterns (str s) path depth w h = absurd (cons_nil (nothing_added w.errors _ h).1)
  child_list-Met patterns (obj fs) path depth w h = absurd (cons_nil (nothing_added w.errors _ h).1)

  items-Met :
      (patterns : Patterns) (xs : Items) (i : ℕ) (path : Trail) (depth : ℕ) (w : Walk)
      → (validate_items patterns xs i path depth w).errors ≡ []
      → Met (item_ids xs) w (validate_items patterns xs i path depth w)
  items-Met patterns nil i path depth w h = record {
    before = h;
    seen = sym (append_nil w.seen);
    nodes = omega arith;
    distinct = λ d. d;
  }
  items-Met patterns (item v xs) i path depth w h =
      let first = validate_component_node patterns v (at i ∷ path) depth w in
      chain (node_ids v) (item_ids xs) w first (validate_items patterns xs (suc i) path depth first)
        (node-Met patterns v (at i ∷ path) depth w)
        (items-Met patterns xs (suc i) path depth first h)
