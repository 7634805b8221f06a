-- ===== src/Repository/Assoc.antt =====
-- A table as a list of rows, in which the first row of a key counts: the laws can hold.
use manbaa_backend.Base.{
  String, ◌≡◌, refl, Bool, true, false, Option, none, some, List, [], ◌∷◌, arith, eq_iff, keep,
  ◌==◌, if◌then◌else◌,
}
use manbaa_backend.Repository.{Repository}

module _ {Row : Type 0} (key : Row → String) where
  abbrev pub get : String → List Row → Option Row
  get j [] = none
  get j (r ∷ rs) = let rest = get j rs in if key r == j then some r else rest

  abbrev scan : (Row → Bool) → List Row → List Row → Option Row
  scan p rows [] = none
  scan p rows (r ∷ rs) =
      let rest = scan p rows rs in
      elim (keep p (get (key r) rows)) [ none ↦ rest | some r' ↦ some r' ]

  pub key-get : (j : String) (rows : List Row) (r : Row) → get j rows ≡ some r → key r ≡ j
  key-get j [] r h = ground arith
  key-get j (x ∷ rows) r h = ground (arith, eq_iff (key x) j, key-get j rows r)

  pub scan_sound :
      (p : Row → Bool) (rows rs : List Row) (r : Row)
      → scan p rows rs ≡ some r
      → (p r ≡ true) × (get (key r) rows ≡ some r)
  scan_sound p rows [] r h = ground arith
  scan_sound p rows (x ∷ rs) r h = ground (arith, scan_sound p rows rs r, key-get (key x) rows r)

  pub scan_complete :
      (p : Row → Bool) (rows rs : List Row) (j : String) (r s : Row)
      → scan p rows rs ≡ none
      → get j rows ≡ some r
      → get j rs ≡ some s
      → p r ≡ false
  scan_complete p rows [] j r s h g g' = ground arith
  scan_complete p rows (x ∷ rs) j r s h g g' =
      ground (arith, scan_complete p rows rs j r s, eq_iff (key x) j)

  abbrev pub assoc : Repository Row
  assoc = record {
    Store = List Row;
    key = key;
    get = get;
    find_where = λ p rows. scan p rows rows;
    save = λ r rows. r ∷ rows;
    get-save = λ r rows j. refl;
    key-get = key-get;
    find_where_sound = λ p rows. scan_sound p rows rows;
    find_where_complete = λ p rows j r h g. scan_complete p rows rows j r r h g g;
  }
