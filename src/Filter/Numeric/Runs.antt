-- ===== src/Filter/Numeric/Runs.antt =====
-- The branches of `add_to_buckets`, one by one: what each returns.
use endee.Prelude.{
  ℕ, ◌+◌, ◌-◌, ◌^◌, ◌≤◌, ◌<◌, ◌≡◌, refl, true, false, ◌&&◌, none, some, List, arith, leb, ◌==◌,
  ==_refl, length,
}
use endee.Roaring.{Roaring}
use endee.Mdbx.Cursor.{Row, get_row, OrderedTable}
use endee.Filter.Bucket.{max_size, max_delta, empty_bucket, add, serialize, deserialize, ok, Bucket}
use endee.Filter.Numeric.{
  make_bucket_key, parse_bucket_key_val, find_row, split_index, of_result, split, save, target_row,
  add_to_full, add_to_buckets,
}
use endee.Filter.Numeric.Keys.{starts_with-make_bucket_key}
use endee.Filter.Numeric.Stored.{clean}
use endee.Filter.Numeric.Rows.{row_of, start_of}

module _ (R : Roaring) (T : OrderedTable) (field : List ℕ) where
  pub target_none :
      (rows : List Row) (v : ℕ) → find_row rows field v ≡ none → target_row R T rows field v ≡ none
  unfolding target_row
  target_none rows v e = rw (e, target_row) refl

  pub target_far :
      (rows : List Row) (b : Bucket R) (v : ℕ)
      → find_row rows field v ≡ some (row_of R field b)
      → b.base_value < 2 ^ 32
      → b.base_value + max_delta < v
      → target_row R T rows field v ≡ none
  unfolding target_row
  target_far rows b v e small far =
      let near : (leb b.base_value v && leb (v - b.base_value) max_delta) ≡ false = ground arith in
      rw
        (
          e,
          starts_with-make_bucket_key field b.base_value,
          start_of R field b small,
          near,
          target_row,
        )
        refl

  pub target_near :
      (rows : List Row) (b : Bucket R) (v : ℕ)
      → find_row rows field v ≡ some (row_of R field b)
      → b.base_value < 2 ^ 32
      → b.base_value ≤ v
      → v ≤ b.base_value + max_delta
      → target_row R T rows field v ≡ some (row_of R field b)
  unfolding target_row
  target_near rows b v e small low near =
      let inside : (leb b.base_value v && leb (v - b.base_value) max_delta) ≡ true = ground arith in
      rw
        (
          e,
          starts_with-make_bucket_key field b.base_value,
          start_of R field b small,
          inside,
          target_row,
        )
        refl

  pub run_new :
      (db : T.Db) (v id : ℕ) (b' : Bucket R)
      → target_row R T (T.rows db) field v ≡ none
      → add R (empty_bucket R v) v id ≡ ok b'
      → add_to_buckets R T db field v id ≡ some (save R T db (make_bucket_key field v) b')
  unfolding add_to_buckets of_result
  run_new db v id b' target done = rw (target, done, add_to_buckets, of_result) refl

  -- The bucket at the place, read from the table.
  pub record Reads (db : T.Db) (b : Bucket R) (v : ℕ) : Type 0 where
    pub target : target_row R T (T.rows db) field v ≡ some (row_of R field b)
    pub row : get_row (T.rows db) (make_bucket_key field b.base_value) ≡ some (serialize R b)
    pub start : parse_bucket_key_val (make_bucket_key field b.base_value) ≡ b.base_value
    pub back : deserialize R (serialize R b) b.base_value ≡ ok (clean R b)

  pub run_room :
      (db : T.Db) (b : Bucket R) (v id : ℕ) (b' : Bucket R)
      → Reads db b v
      → leb max_size (length b.ids) ≡ false
      → add R (clean R b) v id ≡ ok b'
      → add_to_buckets R T db field v id
        ≡ some (save R T db (make_bucket_key field b.base_value) b')
  unfolding add_to_buckets of_result
  run_room db b v id b' r room done =
      rw (r.target, r.row, r.start, r.back, room, done, add_to_buckets, of_result) refl

  pub run_full :
      (db : T.Db) (b : Bucket R) (v id : ℕ)
      → Reads db b v
      → leb max_size (length b.ids) ≡ true
      → add_to_buckets R T db field v id
        ≡ add_to_full R T db field (make_bucket_key field b.base_value) (clean R b) v id
  unfolding add_to_buckets of_result
  run_full db b v id r full =
      rw (r.target, r.row, r.start, r.back, full, add_to_buckets, of_result) refl

  pub full_kept :
      (db : T.Db) (key : List ℕ) (b : Bucket R) (v id : ℕ) (b' : Bucket R)
      → split_index b.deltas ≡ length b.deltas
      → add R b v id ≡ ok b'
      → add_to_full R T db field key b v id ≡ some (save R T db key b')
  unfolding add_to_full of_result
  full_kept db key b v id b' e done =
      rw (e, ==_refl (length b.deltas), done, add_to_full, of_result) refl

  pub full_right :
      (db : T.Db) (key : List ℕ) (b l r : Bucket R) (v id : ℕ) (r' : Bucket R)
      → split_index b.deltas < length b.deltas
      → split R b (split_index b.deltas) ≡ some (l, r)
      → r.base_value ≤ v
      → add R r v id ≡ ok r'
      → add_to_full R T db field key b v id
        ≡ some (save R T (save R T db key l) (make_bucket_key field r.base_value) r')
  unfolding add_to_full of_result
  full_right db key b l r v id r' inside halves reached done =
      let cut : (split_index b.deltas == length b.deltas) ≡ false = ground arith in
      let way : leb r.base_value v ≡ true = ground arith in
      rw (cut, halves, way, done, add_to_full, of_result) refl

  pub full_left :
      (db : T.Db) (key : List ℕ) (b l r : Bucket R) (v id : ℕ) (l' : Bucket R)
      → split_index b.deltas < length b.deltas
      → split R b (split_index b.deltas) ≡ some (l, r)
      → v < r.base_value
      → add R l v id ≡ ok l'
      → add_to_full R T db field key b v id
        ≡ some (save R T (save R T db key l') (make_bucket_key field r.base_value) r)
  unfolding add_to_full of_result
  full_left db key b l r v id l' inside halves under done =
      let cut : (split_index b.deltas == length b.deltas) ≡ false = ground arith in
      let way : leb r.base_value v ≡ false = ground arith in
      rw (cut, halves, way, done, add_to_full, of_result) refl
