-- ===== src/Repository.antt =====
-- A TypeORM repository, which is not part of this code: what the services use of it, as a parameter.
pub mod Assoc
pub mod Listing
use manbaa_backend.Base.{
  String, ap, ◌∙◌, ◌≡◌, Bool, true, false, Option, none, some, keep, ◌==◌, if◌then◌else◌,
}

-- Rows with a text as primary key. `get` is `findOne` by the primary key alone, and `find_where` is
-- `findOne` by other columns. The laws say that `save` writes the row of its key and no other, that
-- a row which is found has the key or the columns that were asked for, and that no row is missed.
pub record Repository (Row : Type 0) : Type 1 where
  pub Store : Type 0
  pub key : Row → String
  pub get : String → Store → Option Row
  pub find_where : (Row → Bool) → Store → Option Row
  pub save : Row → Store → Store
  pub get-save :
      (r : Row) (s : Store) (j : String)
      → get j (save r s) ≡ (if key r == j then some r else get j s)
  pub key-get : (j : String) (s : Store) (r : Row) → get j s ≡ some r → key r ≡ j
  pub find_where_sound :
      (p : Row → Bool) (s : Store) (r : Row)
      → find_where p s ≡ some r
      → (p r ≡ true) × (get (key r) s ≡ some r)
  pub find_where_complete :
      (p : Row → Bool) (s : Store) (j : String) (r : Row)
      → find_where p s ≡ none
      → get j s ≡ some r
      → p r ≡ false

-- `findOne({ where: { id, … } })`: the row with this primary key, if the other columns agree.
abbrev pub find_one :
    {Row : Type 0} (t : Repository Row) → String → (Row → Bool) → t.Store → Option Row
find_one t id p s = keep p (t.get id s)

-- One row was written, under the id `j`.
abbrev pub Put : {Row : Type 0} (t : Repository Row) → String → Row → t.Store → t.Store → Type 0
Put t j r before after = (k : String) → t.get k after ≡ (if j == k then some r else t.get k before)

-- Rows whose key is the field `id`.
pub save-Put :
    {Row : Type 0} (t : Repository Row) (id : String) (r : Row) (before after : t.Store)
    → t.key r ≡ id
    → after ≡ t.save r before
    → Put t id r before after
save-Put t id r before after key saved k =
    ap (t.get k) saved
    ∙ (t.get-save r before k ∙ ap (λ i. if i == k then some r else t.get k before) key)
