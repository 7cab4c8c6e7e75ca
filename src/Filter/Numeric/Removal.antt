-- ===== src/Filter/Numeric/Removal.antt =====
-- `remove_from_buckets` takes an identifier's number out of the buckets, and leaves the others.
use endee.Prelude.{
  ℕ, ◌^◌, ◌≤◌, ◌<◌, ◌≡◌, refl, sym, ap, subst, ◌∙◌, inl, inr, Bool, true, not, Option, some, List,
  [], ◌∷◌, ◌++◌, arith, ◌==◌, if◌then◌else◌, le→ltb, Bool-cases, All, All-map,
}
use endee.Roaring.{Roaring}
use endee.Mdbx.Cursor.{put_row, del_row, OrderedTable}
use endee.Filter.Bucket.{
  Bucket, remove as remove_id, is_empty as is_empty_bucket, deserialize, serialize, ok,
}
use endee.Filter.Bucket.Lookup.{value_of}
use endee.Filter.Numeric.{make_bucket_key, find_row, of_result, save, remove_from_buckets}
use endee.Filter.Numeric.Keys.{starts_with-make_bucket_key}
use endee.Filter.Numeric.Field.{is_at, has, IsField, small_bases, IsField-right, place}
use endee.Filter.Numeric.Stored.{clean, clean-IsStored, deserialize_stored}
use endee.Filter.Numeric.Rows.{row_of, rows_of, start_of, find_row-some}
use endee.Filter.Numeric.Contents.{has_above, has-replace}
use endee.Filter.Numeric.Writes.{rows_at, write_here, erase_here}
use endee.Filter.Numeric.Removes.{
  remove-Removes, Without, around_absent, Without-one, removed_true, remaining, remaining-has,
  remaining-IsField, Removes,
}

module _ (R : Roaring) (T : OrderedTable) (field : List ℕ) where
  -- How a table of buckets comes out of an operation.
  pub record Gives (n : ℕ) (o : Option T.Db) (cs : List (Bucket R)) : Type 0 where
    pub db : T.Db
    pub done : o ≡ some db
    pub table : T.rows db ≡ rows_of R field cs
    pub valid : IsField R n cs

  remove_run :
      (db : T.Db) (b : Bucket R) (v id : ℕ)
      → find_row (T.rows db) field v ≡ some (row_of R field b)
      → b.base_value < 2 ^ 32
      → b.base_value ≤ v
      → deserialize R (serialize R b) b.base_value ≡ ok (clean R b)
      → remove_from_buckets R T db field v id
        ≡ some (
            if not (remove_id R (clean R b) id).0
            then db
            else if is_empty_bucket R (remove_id R (clean R b) id).1
            then T.del db (make_bucket_key field b.base_value)
            else save R T db (make_bucket_key field b.base_value) (remove_id R (clean R b) id).1)
  unfolding remove_from_buckets of_result
  remove_run db b v id row small low read =
      rw
        (
          row,
          starts_with-make_bucket_key field b.base_value,
          start_of R field b small,
          le→ltb v b.base_value low,
          read,
          remove_from_buckets,
          of_result,
        )
        refl

  remaining-Gives :
      (db : T.Db) (n : ℕ) (pre : List (Bucket R)) (b : Bucket R) (post : List (Bucket R)) (id : ℕ)
      (r : Bool × Bucket R)
      → T.rows db ≡ rows_of R field (pre ++ (b ∷ post))
      → IsField R n (pre ++ (b ∷ post))
      → All (λ a. a.base_value < b.base_value) pre
      → All (λ c. b.base_value < c.base_value) post
      → Removes R n (clean R b) id r
      → r.0 ≡ true
      → Gives n
          (some (
            if not r.0
            then db
            else if is_empty_bucket R r.1
            then T.del db (make_bucket_key field b.base_value)
            else save R T db (make_bucket_key field b.base_value) r.1))
          (pre ++ (remaining R r.1 ++ post))
  unfolding remaining
  remaining-Gives db n pre b post id r rows f below above rm found =
      let from = IsField-right R n pre (b ∷ post) f in
      let key = make_bucket_key field b.base_value in
      let valid = remaining-IsField R n pre b post id r f rm in
      elim (Bool-cases (is_empty_bucket R r.1)) [
        | inl none_left ↦ record {
          db = T.del db key;
          done = rw (found, none_left) refl;
          table =
              T.rows-del db key
              ∙ ap (λ x. del_row key x) rows
              ∙ erase_here R field pre b post from.0.small_base below
                  (small_bases R n post from.1.1) above
              ∙ rw none_left refl;
          valid = valid;
        }
        | inr some_left ↦ record {
          db = save R T db key r.1;
          done = rw (found, some_left) refl;
          table =
              T.rows-put db key (serialize R r.1)
              ∙ ap (λ x. put_row key (serialize R r.1) x) rows
              ∙ write_here R field pre b r.1 post from.0.small_base rm.base below
              ∙ rw some_left refl;
          valid = valid;
        }
      ]

  remove_at_place :
      (db : T.Db) (n : ℕ) (pre : List (Bucket R)) (b : Bucket R) (post : List (Bucket R)) (id v : ℕ)
      → n < 2 ^ 16
      → v < 2 ^ 32
      → T.rows db ≡ rows_of R field (pre ++ (b ∷ post))
      → IsField R n (pre ++ (b ∷ post))
      → ((w : ℕ) → has R (pre ++ (b ∷ post)) id w ≡ (v == w))
      → b.base_value ≤ v
      → All (λ a. a.base_value < b.base_value) pre
      → All (λ c. v < c.base_value) post
      → (cs : List (Bucket R)) × (Gives n (remove_from_buckets R T db field v id) cs
          × Without R (pre ++ (b ∷ post)) id cs)
  remove_at_place db n pre b post id v hn hv rows f only low below above =
      let from = IsField-right R n pre (b ∷ post) f in
      let apart = around_absent R n pre b post id v f low above only in
      let has_it : is_at (value_of R b id) v ≡ true =
        ground (arith, sym (has-replace R pre (b ∷ []) post id v) ∙ only v, apart v) in
      let r = remove_id R (clean R b) id in
      let rm : Removes R n (clean R b) id r =
        remove-Removes R n (clean R b) id (clean-IsStored R n b from.0) in
      let row : find_row (T.rows db) field v ≡ some (row_of R field b) =
        ap (λ x. find_row x field v) (rows ∙ rows_at R field pre b post)
        ∙ find_row-some R field v pre b post hv (small_bases R n post from.1.1) below low above in
      let run =
        remove_run db b v id row from.0.small_base low (deserialize_stored R n b hn from.0) in
      let behind : All (λ c. b.base_value < c.base_value) post =
        All-map (λ c. v < c.base_value) (λ c. b.base_value < c.base_value)
          (λ c h. omega (arith, h, low)) post above in
      let gives =
        remaining-Gives db n pre b post id r rows f below behind rm
          (removed_true R n b id v r rm has_it) in
      (
        pre ++ (remaining R r.1 ++ post),
        (
          record {
            db = gives.db;
            done = run ∙ gives.done;
            table = gives.table;
            valid = gives.valid;
          },
          Without-one R pre b (remaining R r.1) post id apart (remaining-has R n b id r rm),
        ),
      )

  -- A number is taken out of the table of a field, and nothing else changes.
  pub remove_from_buckets_lem :
      (db : T.Db) (n : ℕ) (bs : List (Bucket R)) (id v : ℕ)
      → T.rows db ≡ rows_of R field bs
      → n < 2 ^ 16
      → IsField R n bs
      → v < 2 ^ 32
      → ((w : ℕ) → has R bs id w ≡ (v == w))
      → (cs : List (Bucket R)) × (Gives n (remove_from_buckets R T db field v id) cs
          × Without R bs id cs)
  remove_from_buckets_lem db n bs id v rows hn f hv only = elim (place R n v bs f) [
    | inl above ↦ absurd (ground (arith, only v, has_above R bs id v above))
    | inr p ↦
        let f' : IsField R n (p.pre ++ (p.here ∷ p.post)) = subst (λ x. IsField R n x) p.parts f in
        let only' = subst (λ x. (w : ℕ) → has R x id w ≡ (v == w)) p.parts only in
        let (cs, (gives, without)) =
          remove_at_place db n p.pre p.here p.post id v hn hv
            (rows ∙ ap (λ x. rows_of R field x) p.parts) f' only' p.low p.before p.after in
        (cs, (gives, subst (λ x. Without R x id cs) (sym p.parts) without))
  ]
