-- ===== src/Filter/Numeric/Mirror.antt =====
-- The operations on the buckets of one field in a table of many: they do to the rows of the field what
-- they do to a table of those rows alone, and leave the rows of other fields.
use endee.Prelude.{
  ℕ, ◌-◌, ◌≡◌, refl, sym, ap, subst, ◌∙◌, inl, inr, Bool, true, false, Option, none, some,
  some-injective, List, [], ◌∷◌, leb, if◌then◌else◌, Bool-cases, Option-cases,
}
use endee.Roaring.{Roaring}
use endee.Mdbx.Cursor.{Row, same_key, put_row, del_row, get_row, sorted_rows, OrderedTable}
use endee.Mdbx.Cursor.Places.{same_key-≡}
use endee.Mdbx.Cursor.Blocks.{
  starts_with, block, IsSorted, put_row-IsSorted, del_row-IsSorted, block-put_row,
  block-put_row_other, block-del_row, block-del_row_other,
}
use endee.Filter.Bucket.{max_delta}
use endee.Filter.Numeric.{prefix_of, parse_bucket_key_val, find_row, target_row}
use endee.Filter.Numeric.Rows.{past}
use endee.Filter.Numeric.Floor.{accept, accept-find_row}

abbrev pub Apart : List ℕ → List ℕ → Type 0
Apart p q = (k : List ℕ) → starts_with p k ≡ true → starts_with q k ≡ false

pub get_row-block :
    (p k : List ℕ) (rows : List Row)
    → starts_with p k ≡ true
    → get_row (block p rows) k ≡ get_row rows k
get_row-block p k [] h = refl
get_row-block p k (r ∷ rows) h = elim (Bool-cases (starts_with p r.0)) [
  | inl inside ↦ rw (inside, get_row-block p k rows h) refl
  | inr out ↦
      let other : same_key r.0 k ≡ false = elim (Bool-cases (same_key r.0 k)) [
        | inl hit ↦ absurd (
            both (starts_with p k) h
              (subst (λ x. starts_with p x ≡ false) (same_key-≡ r.0 k hit) out))
        | inr miss ↦ miss
      ] in
      rw (out, other) (get_row-block p k rows h)
]
  where
    both : (c : Bool) → c ≡ true → c ≡ false → ⊥
    both true h k = cc
    both false h k = cc

-- A search result is of the field.
pub accept-inside :
    (field : List ℕ) (v : ℕ) (o : Option Row) (r : Row)
    → accept field v o ≡ some r
    → (o ≡ some r) × (starts_with (prefix_of field) r.0 ≡ true)
accept-inside field v none r e = absurd (cc)
accept-inside field v (some q) r e = elim (Bool-cases (starts_with (prefix_of field) q.0)) [
  | inl inside ↦ elim (Bool-cases (leb (parse_bucket_key_val q.0) v)) [
    | inl reached ↦
        let at : q ≡ r = some-injective q r (sym (rw (inside, reached) refl) ∙ e) in
        (ap some at, subst (λ x. starts_with (prefix_of field) x.0 ≡ true) at inside)
    | inr past ↦ absurd (no_row r (sym (rw (inside, past) refl) ∙ e))
  ]
  | inr out ↦ absurd (no_row r (sym (rw out refl) ∙ e))
]
  where
    no_row : (r : Row) → none ≡ some r → ⊥
    no_row r h = cc

module _ (R : Roaring) (T : OrderedTable) (field : List ℕ) where
  abbrev pub mine : T.Db → List Row
  mine db = block (prefix_of field) (T.rows db)

  -- A table after some writes under the keys of the field.
  pub record Follows (db db' : T.Db) (rows : List Row) : Type 0 where
    pub sorted : IsSorted (T.rows db')
    pub same : block (prefix_of field) (T.rows db') ≡ rows
    pub others :
        (q : List ℕ) → Apart (prefix_of field) q → block q (T.rows db') ≡ block q (T.rows db)

  abbrev pub Mirrors : T.Db → Option T.Db → Option (List Row) → Type 0
  Mirrors db none none = Unit {0}
  Mirrors db none (some rows) = ⊥
  Mirrors db (some db') none = ⊥
  Mirrors db (some db') (some rows) = Follows db db' rows

  pub follow_none : (db : T.Db) → IsSorted (T.rows db) → Follows db db (mine db)
  follow_none db s = record { sorted = s; same = refl; others = λ q a. refl }

  pub follow_put :
      (first db : T.Db) (rows : List Row) (k w : List ℕ)
      → starts_with (prefix_of field) k ≡ true
      → Follows first db rows
      → Follows first (T.put db k w) (put_row k w rows)
  follow_put first db rows k w h f = record {
    sorted = subst IsSorted (sym (T.rows-put db k w)) (put_row-IsSorted k w (T.rows db) f.sorted);
    same =
        ap (λ x. block (prefix_of field) x) (T.rows-put db k w)
        ∙ block-put_row (prefix_of field) k w (T.rows db) h f.sorted
        ∙ ap (λ x. put_row k w x) f.same;
    others = λ q a.
        ap (λ x. block q x) (T.rows-put db k w)
        ∙ block-put_row_other q k w (T.rows db) (a k h)
        ∙ f.others q a;
  }

  pub follow_del :
      (first db : T.Db) (rows : List Row) (k : List ℕ)
      → starts_with (prefix_of field) k ≡ true
      → Follows first db rows
      → Follows first (T.del db k) (del_row k rows)
  follow_del first db rows k h f = record {
    sorted = subst IsSorted (sym (T.rows-del db k)) (del_row-IsSorted k (T.rows db) f.sorted);
    same =
        ap (λ x. block (prefix_of field) x) (T.rows-del db k)
        ∙ block-del_row (prefix_of field) k (T.rows db)
        ∙ ap (λ x. del_row k x) f.same;
    others = λ q a.
        ap (λ x. block q x) (T.rows-del db k)
        ∙ block-del_row_other q k (T.rows db) (a k h)
        ∙ f.others q a;
  }

  -- The distance that a bucket may have from the number.
  unfoldable pub near_row : ℕ → Option Row → Option Row
  near_row v none = none
  near_row v (some r) = if leb (v - parse_bucket_key_val r.0) max_delta then some r else none

  pub target_row-accept :
      (S : OrderedTable) (rows : List Row) (v : ℕ)
      → target_row R S rows field v ≡ near_row v (accept field v (find_row rows field v))
  unfolding target_row near_row
  target_row-accept S rows v = elim (Option-cases (find_row rows field v)) [
    | inl e ↦ rw (target_row, e) refl
    | inr (r, e) ↦ elim (Bool-cases (starts_with (prefix_of field) r.0)) [
      | inl inside ↦ elim (Bool-cases (leb (parse_bucket_key_val r.0) v)) [
        | inl reached ↦ rw (target_row, e, inside, reached) refl
        | inr past ↦ rw (target_row, e, inside, past) refl
      ]
      | inr out ↦ rw (target_row, e, out) refl
    ]
  ]

  pub target_row-mine :
      (db : T.Db) (v : ℕ)
      → IsSorted (T.rows db)
      → target_row R T (T.rows db) field v ≡ target_row R sorted_rows (mine db) field v
  target_row-mine db v s =
      target_row-accept T (T.rows db) v
      ∙ ap (λ o. near_row v o) (accept-find_row field v (T.rows db) s)
      ∙ sym (target_row-accept sorted_rows (mine db) v)
