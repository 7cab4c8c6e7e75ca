-- ===== src/Filter/Numeric/Forward.antt =====
-- The forward table of the numeric index: the value of each identifier of a field.
use endee.Prelude.{
  ℕ, ◌^◌, ◌<◌, ◌≡◌, refl, ap, ◌∙◌, inl, inr, none, some, List, ◌==◌, if◌then◌else◌, Bool-cases,
  take, le_bytes, of_le_bytes, of_le_bytes-le_bytes,
}
use endee.Roaring.{Roaring}
use endee.Mdbx.Cursor.{get_row, OrderedTable}
use endee.Mdbx.Cursor.Places.{get_row-put_row, get_row-del_row}
use endee.Filter.Numeric.{make_forward_key, forward_value}
use endee.Filter.Numeric.Keys.{same_key-make_forward_key}

module _ (R : Roaring) (T : OrderedTable) (field : List ℕ) where
  pub forward-put :
      (db : T.Db) (i v j : ℕ)
      → i < 2 ^ 32
      → v < 2 ^ 32
      → j < 2 ^ 32
      → forward_value R T (T.put db (make_forward_key field i) (le_bytes 4 v)) field j
        ≡ (if i == j then some v else forward_value R T db field j)
  unfolding forward_value
  forward-put db i v j hi hv hj =
      let key = make_forward_key field i in
      let read : get_row (T.rows (T.put db key (le_bytes 4 v))) (make_forward_key field j) ≡ (
          if i == j then some (le_bytes 4 v) else get_row (T.rows db) (make_forward_key field j)) =
        ap (λ x. get_row x (make_forward_key field j)) (T.rows-put db key (le_bytes 4 v))
        ∙ get_row-put_row key (le_bytes 4 v) (T.rows db) (make_forward_key field j)
        ∙ ap
            (λ c. if c then some (le_bytes 4 v) else get_row (T.rows db) (make_forward_key field j))
            (same_key-make_forward_key field i j hi hj) in
      let back : of_le_bytes (take 4 (le_bytes 4 v)) ≡ v = of_le_bytes-le_bytes 4 v hv in
      elim (Bool-cases (i == j)) [
        | inl same ↦ rw (forward_value, read, same) (ap some back)
        | inr other ↦ rw (forward_value, read, other) refl
      ]

  pub forward-del :
      (db : T.Db) (i j : ℕ)
      → i < 2 ^ 32
      → j < 2 ^ 32
      → forward_value R T (T.del db (make_forward_key field i)) field j
        ≡ (if i == j then none else forward_value R T db field j)
  unfolding forward_value
  forward-del db i j hi hj =
      let key = make_forward_key field i in
      let read : get_row (T.rows (T.del db key)) (make_forward_key field j)
          ≡ (if i == j then none else get_row (T.rows db) (make_forward_key field j)) =
        ap (λ x. get_row x (make_forward_key field j)) (T.rows-del db key)
        ∙ get_row-del_row key (T.rows db) (make_forward_key field j)
        ∙ ap (λ c. if c then none else get_row (T.rows db) (make_forward_key field j))
            (same_key-make_forward_key field i j hi hj) in
      elim (Bool-cases (i == j)) [
        | inl same ↦ rw (forward_value, read, same) refl
        | inr other ↦ rw (forward_value, read, other) refl
      ]

  pub forward-empty : (j : ℕ) → forward_value R T T.empty field j ≡ none
  unfolding forward_value
  forward-empty j = rw (T.rows-empty, forward_value) refl
