-- ===== src/Schema/Validate/Limits.antt =====
-- What a schema without errors keeps to.
use manbaa_backend.Base.{
  ℕ, suc, String, ◌≡◌, refl, sym, ap, ◌∙◌, subst, inl, inr, ◌≤◌, ◌+◌, Bool, true, false, not,
  Option, none, some, List, [], ◌∷◌, ◌++◌, length, arith, ltb, is_some, Bool-cases,
}
use manbaa_backend.Json.{Json, arr, obj, Items, nil, item, Fields, get, keys, text, truthy}
use manbaa_backend.Schema.Types.{
  Code, page_name_required, pages_max_exceeded, Trail, key, at, ValidationError, Patterns,
  object_of, error_if,
}
use manbaa_backend.Schema.Nodes.{Walk, report, seen_in, prohibited_keys}
use manbaa_backend.Schema.Nodes.Ids.{
  cons_nil, nothing_added, append_nil, IsDistinct, node_ids, Met, chain, node-Met,
}
use manbaa_backend.Schema.Validate.{
  PageWalk, note, check_page_id, check_route, check_root, check_page, check_page_list, check_pages,
  count_items, as_str, validate_application_schema,
}

-- The ids of the nodes of a page.
abbrev pub root_ids : Option Json → List String
root_ids none = []
root_ids (some root) = node_ids root

abbrev pub page_ids : Option Fields → List String
page_ids none = []
page_ids (some fs) = root_ids (get "root" fs)

-- The ids of the nodes of all pages.
abbrev pub pages_ids : Items → List String
pages_ids nil = []
pages_ids (item page pages) = page_ids (object_of (some page)) ++ pages_ids pages

-- At most errors were added.
record Kept (w w' : Walk) : Type 0 where
  errors : w'.errors ≡ [] → w.errors ≡ []
  seen : w'.seen ≡ w.seen
  nodes : w'.nodes ≡ w.nodes

report-Kept : (more : List ValidationError) (w : Walk) → Kept w (report more w)
report-Kept more w = record {
  errors = λ h. (nothing_added w.errors more h).0;
  seen = refl;
  nodes = refl;
}

Kept-trans : (a b c : Walk) → Kept a b → Kept b c → Kept a c
Kept-trans a b c p q = record {
  errors = λ h. p.errors (q.errors h);
  seen = q.seen ∙ p.seen;
  nodes = q.nodes ∙ p.nodes;
}

check_page_id-Kept :
    (o : Option String) (path : Trail) (w : PageWalk) → Kept w.walk (check_page_id o path w).walk
unfolding check_page_id
check_page_id-Kept none path w = report-Kept _ w.walk
check_page_id-Kept (some id) path w = elim (Bool-cases (seen_in w.page_ids id)) [
  | inl twice ↦ rw twice (report-Kept _ w.walk)
  | inr new ↦ rw new (record { errors = λ h. h; seen = refl; nodes = refl })
]

check_route-Kept :
    (o : Option String) (path : Trail) (w : PageWalk) → Kept w.walk (check_route o path w).walk
unfolding check_route
check_route-Kept none path w = report-Kept _ w.walk
check_route-Kept (some route) path w = elim (Bool-cases (seen_in w.routes route)) [
  | inl twice ↦ rw twice (
      Kept-trans w.walk (report _ w.walk) _ (report-Kept _ w.walk)
        (report-Kept _ (report _ w.walk)))
  | inr new ↦ rw new (report-Kept _ w.walk)
]

after_Kept : (ids : List String) (a b c : Walk) → Kept a b → Met ids b c → Met ids a c
after_Kept ids a b c p m = record {
  before = p.errors m.before;
  seen = m.seen ∙ ap (λ s. s ++ ids) p.seen;
  nodes = m.nodes ∙ ap (λ n. n + length ids) p.nodes;
  distinct = λ d. m.distinct (subst IsDistinct (sym p.seen) d);
}

module _ (patterns : Patterns) where
  check_root-Met :
      (o : Option Json) (path : Trail) (w : PageWalk)
      → (check_root patterns o path w).walk.errors ≡ []
      → Met (root_ids o) w.walk (check_root patterns o path w).walk
  unfolding check_root
  check_root-Met none path w h = absurd (cons_nil (nothing_added w.walk.errors _ h).1)
  check_root-Met (some root) path w h = elim (Bool-cases (truthy root)) [
    | inl there ↦ rw there (node-Met patterns root (key "root" ∷ path) 0 w.walk (rw there at h))
    | inr missing ↦ absurd (cons_nil (nothing_added w.walk.errors _ (rw missing at h)).1)
  ]

  check_page-Met :
      (o : Option Fields) (path : Trail) (w : PageWalk)
      → (check_page patterns o path w).walk.errors ≡ []
      → Met (page_ids o) w.walk (check_page patterns o path w).walk
  unfolding check_page
  check_page-Met none path w h = absurd (cons_nil (nothing_added w.walk.errors _ h).1)
  check_page-Met (some fs) path w h =
      let clean = note (prohibited_keys (keys fs) (λ k. key k ∷ path)) w in
      let numbered = check_page_id (text (get "id" fs)) path clean in
      let named =
        note
          (error_if (not (is_some (as_str (get "name" fs)))) page_name_required (key "name" ∷ path))
          numbered in
      let routed = check_route (as_str (get "route" fs)) path named in
      after_Kept (root_ids (get "root" fs)) w.walk routed.walk
        (check_root patterns (get "root" fs) path routed).walk
        (Kept-trans w.walk clean.walk routed.walk (report-Kept _ w.walk) (
          Kept-trans clean.walk numbered.walk routed.walk
            (check_page_id-Kept (text (get "id" fs)) path clean)
            (Kept-trans numbered.walk named.walk routed.walk (report-Kept _ numbered.walk)
              (check_route-Kept (as_str (get "route" fs)) path named))))
        (check_root-Met (get "root" fs) path routed h)

  check_page_list-Met :
      (pages : Items) (i : ℕ) (w : PageWalk)
      → (check_page_list patterns pages i w).walk.errors ≡ []
      → Met (pages_ids pages) w.walk (check_page_list patterns pages i w).walk
  unfolding check_page_list
  check_page_list-Met nil i w h = record {
    before = h;
    seen = sym (append_nil w.walk.seen);
    nodes = omega arith;
    distinct = λ d. d;
  }
  check_page_list-Met (item page pages) i w h =
      let first = check_page patterns (object_of (some page)) (at i ∷ key "pages" ∷ []) w in
      chain (page_ids (object_of (some page))) (pages_ids pages) w.walk first.walk
        (check_page_list patterns pages (suc i) first).walk
        (check_page-Met (object_of (some page)) (at i ∷ key "pages" ∷ []) w)
        (check_page_list-Met pages (suc i) first h)

  no_error : (b : Bool) (c : Code) (path : Trail) → error_if b c path ≡ [] → b ≡ false
  no_error true c path h = absurd (cons_nil h)
  no_error false c path h = refl

  pages_lem :
      (pages : Items) (errors : List ValidationError)
      → check_pages patterns (some (arr pages)) errors ≡ []
      → (count_items pages ≤ 200) × (length (pages_ids pages) ≤ 5000) × IsDistinct (pages_ids pages)
  unfolding check_pages
  pages_lem pages errors h =
      let first =
        errors ++ error_if (ltb 200 (count_items pages)) pages_max_exceeded (key "pages" ∷ []) in
      let start : PageWalk = record {
        walk = record { errors = first; seen = []; nodes = 0 };
        page_ids = [];
        routes = [];
      } in
      let last = check_page_list patterns pages 0 start in
      let (walked, few) = nothing_added last.walk.errors _ h in
      let met = check_page_list-Met pages 0 start walked in
      let few_pages =
        no_error (ltb 200 (count_items pages)) _ _ (nothing_added errors _ met.before).1 in
      let few_nodes = no_error (ltb 5000 last.walk.nodes) _ _ few in
      let counted = met.nodes in
      (ground arith, ground arith, subst IsDistinct met.seen (met.distinct tt))

  -- A schema that passes the validator has at most 200 pages with at most 5000 nodes between them, and
  -- no two nodes, of whatever pages, have the same id.
  pub valid_nodes :
      (fs : Fields) (pages : Items)
      → get "pages" fs ≡ some (arr pages)
      → validate_application_schema patterns (obj fs) ≡ []
      → (count_items pages ≤ 200) × (length (pages_ids pages) ≤ 5000) × IsDistinct (pages_ids pages)
  unfolding validate_application_schema
  valid_nodes fs pages there h = pages_lem pages _ (rw there at h)
