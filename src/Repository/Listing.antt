-- ===== src/Repository/Listing.antt =====
-- Two more operations of a repository, for the services that use them: `find` and `remove`.
use manbaa_backend.Base.{
  String, ◌≡◌, refl, inl, inr, Bool, true, false, not, none, some, List, [], ◌∷◌, any, All, Has,
  arith, eq_iff, ◌==◌, if◌then◌else◌, Bool-cases, ◌∙◌,
}
use manbaa_backend.Repository.{Repository}
use manbaa_backend.Repository.Assoc.{assoc, get}

-- `find({ where })`. The order of the rows is the database's.
pub record Listing {Row : Type 0} (t : Repository Row) : Type 0 where
  pub select : (Row → Bool) → t.Store → List Row
  pub select_sound :
      (p : Row → Bool) (s : t.Store)
      → All (λ r. (p r ≡ true) × (t.get (t.key r) s ≡ some r)) (select p s)
  pub select_complete :
      (p : Row → Bool) (s : t.Store) (j : String) (r : Row)
      → t.get j s ≡ some r
      → p r ≡ true
      → Has r (select p s)

-- `remove(row)`, by its key.
pub record Removing {Row : Type 0} (t : Repository Row) : Type 0 where
  pub remove : String → t.Store → t.Store
  pub get-remove :
      (i j : String) (s : t.Store) → t.get j (remove i s) ≡ (if i == j then none else t.get j s)

-- Both for the tables that are lists.
module _ {Row : Type 0} (key : Row → String) where
  abbrev is_first : List String → Row → Bool
  is_first seen r = not (any (λ k. k == key r) seen)

  abbrev pick : (Row → Bool) → List String → List Row → List Row
  pick p seen [] = []
  pick p seen (r ∷ rows) =
      let rest = pick p (key r ∷ seen) rows in
      if is_first seen r then (if p r then r ∷ rest else rest) else rest

  abbrev drop_key : String → List Row → List Row
  drop_key i [] = []
  drop_key i (r ∷ rows) = let rest = drop_key i rows in if key r == i then rest else r ∷ rest

  pub get-drop_key :
      (i j : String) (rows : List Row)
      → get key j (drop_key i rows) ≡ (if i == j then none else get key j rows)
  get-drop_key i j [] = ground arith
  get-drop_key i j (r ∷ rows) =
      ground (arith, get-drop_key i j rows, eq_iff (key r) i, eq_iff (key r) j, eq_iff i j)

  abbrev pub removing : Removing (assoc key)
  removing = record { remove = drop_key; get-remove = get-drop_key }

  pub pick_sound :
      (p : Row → Bool) (all rows : List Row) (seen : List String)
      → ((j : String) → any (λ k. k == j) seen ≡ false → get key j all ≡ get key j rows)
      → All (λ r. (p r ≡ true) × (get key (key r) all ≡ some r)) (pick p seen rows)
  pick_sound p all [] seen same = tt
  pick_sound p all (r ∷ rows) seen same =
      let rest = pick_sound p all rows (key r ∷ seen) (λ j h. same_rest j h) in
      elim (Bool-cases (any (λ k. k == key r) seen)) [
        | inl old ↦ rw old rest
        | inr new ↦ elim (Bool-cases (p r)) [
          | inl fits ↦ rw (new, fits) ((fits, same (key r) new ∙ first), rest)
          | inr other ↦ rw (new, other) rest
        ]
      ]
    where
      first : get key (key r) (r ∷ rows) ≡ some r
      first = ground (arith, eq_iff (key r) (key r))

      same_rest :
          (j : String) → any (λ k. k == j) (key r ∷ seen) ≡ false → get key j all ≡ get key j rows
      same_rest j h = ground (arith, same j)

  listed :
      (p : Row → Bool) (x r : Row) (rest : List Row) (first : Bool)
      → Has r rest
      → Has r (if first then (if p x then x ∷ rest else rest) else rest)
  listed p x r rest false h = h
  listed p x r rest true h = elim (Bool-cases (p x)) [
    | inl yes_x ↦ rw yes_x (inr h)
    | inr no_x ↦ rw no_x h
  ]

  pub pick_complete :
      (p : Row → Bool) (rows : List Row) (seen : List String) (j : String) (r : Row)
      → get key j rows ≡ some r
      → any (λ k. k == j) seen ≡ false
      → p r ≡ true
      → Has r (pick p seen rows)
  pick_complete p [] seen j r there new fits = cc
  pick_complete p (x ∷ rows) seen j r there new fits = elim (Bool-cases (key x == j)) [
    | inl hit ↦
        let same : x ≡ r = ground arith in
        let here : key x ≡ j = (eq_iff (key x) j).0 hit in
        let first : any (λ k. k == key x) seen ≡ false = rw here new in
        let fits' : p x ≡ true = rw same fits in rw (first, fits') (inl same)
    | inr other ↦
        listed p x r (pick p (key x ∷ seen) rows) (is_first seen x)
          (pick_complete p rows (key x ∷ seen) j r (ground arith) (ground arith) fits)
  ]

  abbrev pub listing : Listing (assoc key)
  listing = record {
    select = λ p rows. pick p [] rows;
    select_sound = λ p rows. pick_sound p rows rows [] (λ j h. refl);
    select_complete = λ p rows j r there fits. pick_complete p rows [] j r there refl fits;
  }
