-- ===== src/Filter/Numeric/Among.antt =====
-- A range query on a table with the buckets of several fields: the scan starts in the field and stops
-- behind it.
use mathlib.Core.List.{append_assoc, append-nil}
use endee.Prelude.{
  ℕ, ◌^◌, ◌<◌, ◌≡◌, refl, sym, ap, subst, ◌∙◌, inl, inr, true, false, not, ◌||◌, none, some,
  some-injective, List, [], ◌∷◌, ◌++◌, arith, ltb, ◌==◌, if◌then◌else◌, ltb→lt, lt→ltb, le→ltb,
  Bool-cases, Option-cases, length, All, All-append,
}
use endee.Roaring.{Roaring}
use endee.Mdbx.Cursor.{Row, lex_lt, last_row, set_range, prev_row, rows_after}
use endee.Mdbx.Cursor.Places.{lex_lt_self, lex_lt-flip, last_row-last, rows_after-at}
use endee.Mdbx.Cursor.Joined.{or_else, last_row-append, last_row-All}
use endee.Mdbx.Cursor.Blocks.{starts_with, IsSorted, LowFor, HighFor, HighFor-starts_with}
use endee.Filter.Bucket.{serialize, deserialize, Bucket}
use endee.Filter.Numeric.{prefix_of, make_bucket_key, parse_bucket_key_val, of_result}
use endee.Filter.Numeric.Keys.{starts_with-make_bucket_key}
use endee.Filter.Numeric.Range.{start_rows, collect_bucket, scan}
use endee.Filter.Numeric.Field.{All-at, All-left, hits, IsField}
use endee.Filter.Numeric.Stored.{
  clean, clean-IsStored, value_of-clean, deserialize_stored, serialize_long,
}
use endee.Filter.Numeric.Rows.{
  row_of, rows_of, rows_of-AllBelow, rows_of-AllAbove, past, start_of, set_range_rest,
  prev_row_rest, set_range_here,
}
use endee.Filter.Numeric.Scan.{collect_bucket-contains}
use endee.Filter.Numeric.Collected.{hits-above, bases_after, scan-hits}
use endee.Filter.Numeric.Calls.{after}
use endee.Filter.Numeric.Floor.{
  low_below, high_above, prev_row_whole, prev_row_end, set_range_whole,
}

module _ (R : Roaring) (field : List ℕ) where
  pub scan-append :
      (xs after : List Row) (lo hi : ℕ) (acc : R.Bitmap)
      → All (HighFor (prefix_of field)) after
      → scan R field lo hi acc (xs ++ after) ≡ scan R field lo hi acc xs
  unfolding scan
  scan-append [] [] lo hi acc high = refl
  scan-append [] (a ∷ after) lo hi acc high =
      rw (HighFor-starts_with (prefix_of field) a high.0, scan) refl
  scan-append (x ∷ xs) after lo hi acc high =
      elim (Bool-cases
        (not (starts_with (prefix_of field) x.0) || ltb hi (parse_bucket_key_val x.0))) [
          | inl stop ↦ rw (scan, stop) refl
          | inr go ↦
              elim (Option-cases (of_result (deserialize R x.1 (parse_bucket_key_val x.0)))) [
                | inl e ↦ rw (scan, go, e) refl
                | inr (b, e) ↦
                    rw (scan, go, e)
                      (scan-append xs after lo hi
                        (if length b.ids == 0 then acc else collect_bucket R b lo hi acc) high)
              ]
        ]

  -- The first bucket of the field is looked at twice where the rows before it are of another field.
  pub scan_twice :
      (n : ℕ) (c : Bucket R) (cs : List (Bucket R)) (lo hi : ℕ)
      → n < 2 ^ 16
      → IsField R n (c ∷ cs)
      → (result : R.Bitmap) × ((scan R field lo hi R.empty
              (row_of R field c ∷ rows_of R field (c ∷ cs))
            ≡ some result)
          × ((id : ℕ) → R.contains result id ≡ hits R (c ∷ cs) lo hi id))
  unfolding scan of_result
  scan_twice n c cs lo hi hn f = elim (Bool-cases (ltb hi c.base_value)) [
    | inl past ↦
        let over : hi < c.base_value = ltb→lt hi c.base_value past in
        (
          R.empty,
          (
            rw
                (
                  starts_with-make_bucket_key field c.base_value,
                  start_of R field c f.0.small_base,
                  past,
                  scan,
                )
                refl,
            λ id.
                R.contains-empty id
                ∙ sym (
                    hits-above R (c ∷ cs) lo hi id
                      (over, bases_after R c cs hi (omega arith) f.1.0)),
          ),
        )
    | inr near ↦
        let next : R.Bitmap =
          if length c.ids == 0 then R.empty else collect_bucket R (clean R c) lo hi R.empty in
        let (result, (done, collected)) = scan-hits R field n (c ∷ cs) lo hi next hn f in
        (
          result,
          (
            rw
                (
                  starts_with-make_bucket_key field c.base_value,
                  start_of R field c f.0.small_base,
                  near,
                  deserialize_stored R n c hn f.0,
                  scan,
                  of_result,
                )
                done,
            λ id. collected id ∙ elim (Bool-cases (length c.ids == 0)) [
              | inl none_there ↦ rw (none_there, R.contains-empty id) refl
              | inr some_there ↦
                  rw
                    (
                      some_there,
                      collect_bucket-contains R (clean R c) lo hi R.empty id
                          (clean-IsStored R n c f.0).valid some_there,
                      R.contains-empty id,
                      value_of-clean R c id,
                    )
                    (ground arith)
            ],
          ),
        )
  ]

  module _ (v : ℕ) (before : List Row) (hv : v < 2 ^ 32)
      (low : All (LowFor (prefix_of field)) before) where
    abbrev pub block_at : List (Bucket R) → Bucket R → List (Bucket R) → List Row
    block_at pre b post = rows_of R field pre ++ (row_of R field b ∷ rows_of R field post)

    -- The rows behind a bucket.
    pub behind_bucket :
        (after : List Row) (pre : List (Bucket R)) (b : Bucket R) (post : List (Bucket R))
        → All (HighFor (prefix_of field)) after
        → b.base_value < 2 ^ 32
        → All (λ c. c.base_value < 2 ^ 32) post
        → All (λ a. a.base_value < b.base_value) pre
        → All (λ c. b.base_value < c.base_value) post
        → rows_after (before ++ (block_at pre b post ++ after)) (make_bucket_key field b.base_value)
          ≡ rows_of R field post ++ after
    behind_bucket after pre b post high hb small below above =
        let key = make_bucket_key field b.base_value in
        let inside = starts_with-make_bucket_key field b.base_value in
        ap (λ x. rows_after (before ++ x) key)
          (append_assoc (rows_of R field pre) (row_of R field b ∷ rows_of R field post) after)
        ∙ ap (λ x. rows_after x key)
            (sym (
              append_assoc before (rows_of R field pre)
                (row_of R field b ∷ (rows_of R field post ++ after))))
        ∙ rows_after-at (before ++ rows_of R field pre) key (serialize R b)
            (rows_of R field post ++ after)
            (All-append (λ r. lex_lt r.0 key ≡ true) before (rows_of R field pre)
              (low_below (prefix_of field) key before inside low)
              (rows_of-AllBelow R field b.base_value pre hb below))
            (All-append (λ r. lex_lt key r.0 ≡ true) (rows_of R field post) after
              (rows_of-AllAbove R field b.base_value post hb small above)
              (high_above (prefix_of field) key after inside high))

    -- The scan starts at the place of the lower end: the bucket that starts there, or the one before it.
    pub start_rows-here :
        (after : List Row) (pre : List (Bucket R)) (b : Bucket R) (post : List (Bucket R))
        → All (λ r. starts_with (prefix_of field) r.0 ≡ true) (block_at pre b post)
        → All (λ a. a.base_value < b.base_value) pre
        → b.base_value ≡ v
        → rows_after (before ++ (block_at pre b post ++ after)) (make_bucket_key field b.base_value)
          ≡ rows_of R field post ++ after
        → start_rows (before ++ (block_at pre b post ++ after)) field v
          ≡ row_of R field b ∷ (rows_of R field post ++ after)
    unfolding start_rows
    start_rows-here after pre b post inside below e rest =
        let found : set_range (block_at pre b post) (make_bucket_key field v)
            ≡ some (row_of R field b) =
          subst
            (λ x.
              set_range (block_at pre b post) (make_bucket_key field x) ≡ some (row_of R field b))
            e (set_range_here R field pre b post (omega arith) below) in
        let found' : set_range (before ++ (block_at pre b post ++ after)) (make_bucket_key field v)
            ≡ some (row_of R field b) =
          set_range_whole field v before (block_at pre b post) inside low after ∙ rw found refl in
        rw
          (
            found',
            starts_with-make_bucket_key field b.base_value,
            start_of R field b (omega arith),
            le→ltb v b.base_value (omega arith),
            start_rows,
          )
          (ap (◌∷◌ (row_of R field b)) rest)

    pub start_rows-less :
        (after : List Row) (pre : List (Bucket R)) (b : Bucket R) (post : List (Bucket R))
        → All (HighFor (prefix_of field)) after
        → All (λ r. starts_with (prefix_of field) r.0 ≡ true) (block_at pre b post)
        → All (λ c. c.base_value < 2 ^ 32) post
        → All (λ a. a.base_value < b.base_value) pre
        → b.base_value < v
        → All (λ c. v < c.base_value) post
        → rows_after (before ++ (block_at pre b post ++ after)) (make_bucket_key field b.base_value)
          ≡ rows_of R field post ++ after
        → start_rows (before ++ (block_at pre b post ++ after)) field v
          ≡ row_of R field b ∷ (rows_of R field post ++ after)
    unfolding start_rows
    start_rows-less [] pre b [] high inside small below lower above rest =
        let k = make_bucket_key field v in
        let xs = block_at pre b [] in
        let found : set_range (before ++ (xs ++ [])) k ≡ none =
          set_range_whole field v before xs inside low []
          ∙ ap (λ o. or_else o none) (set_range_rest R field v pre b [] hv below lower) in
        let end : last_row (before ++ (xs ++ [])) ≡ some (row_of R field b) =
          ap (λ x. last_row (before ++ x)) (append-nil xs)
          ∙ last_row-append before xs
          ∙ ap (λ o. or_else o (last_row before))
              (last_row-last (rows_of R field pre) (row_of R field b)) in
        rw
          (
            found,
            end,
            starts_with-make_bucket_key field b.base_value,
            serialize_long R b,
            start_rows,
          )
          (ap (◌∷◌ (row_of R field b)) rest)
    start_rows-less (a ∷ tail) pre b [] high inside small below lower above rest =
        let k = make_bucket_key field v in
        let xs = block_at pre b [] in
        let reached : lex_lt a.0 k ≡ false =
          lex_lt-flip k a.0 (high.0 k (starts_with-make_bucket_key field v)) in
        let found : set_range (before ++ (xs ++ (a ∷ tail))) k ≡ some a =
          set_range_whole field v before xs inside low (a ∷ tail)
          ∙ ap (λ o. or_else o (set_range (a ∷ tail) k))
              (set_range_rest R field v pre b [] hv below lower)
          ∙ rw reached refl in
        let prev : prev_row (before ++ (xs ++ (a ∷ tail))) a.0 ≡ some (row_of R field b) =
          prev_row_end field v before xs inside low a tail high.0
          ∙ ap (λ o. or_else o (last_row before))
              (last_row-last (rows_of R field pre) (row_of R field b)) in
        rw
          (
            found,
            HighFor-starts_with (prefix_of field) a high.0,
            prev,
            starts_with-make_bucket_key field b.base_value,
            start_rows,
          )
          (ap (◌∷◌ (row_of R field b)) rest)
    start_rows-less after pre b (c ∷ cs) high inside small below lower above rest =
        let k = make_bucket_key field v in
        let xs = block_at pre b (c ∷ cs) in
        let found : set_range (before ++ (xs ++ after)) k ≡ some (row_of R field c) =
          set_range_whole field v before xs inside low after
          ∙ ap (λ o. or_else o (set_range after k))
              (set_range_rest R field v pre b (c ∷ cs) hv below lower)
          ∙ rw (past R field v c hv small.0 (omega (arith, above.0))) refl in
        let prev : prev_row (before ++ (xs ++ after)) (make_bucket_key field c.base_value)
            ≡ some (row_of R field b) =
          prev_row_whole field v before xs inside low after (make_bucket_key field c.base_value)
            (starts_with-make_bucket_key field c.base_value) high
          ∙ ap (λ o. or_else o (last_row before))
              (prev_row_rest R field pre b c cs small.0 below (omega (arith, above.0))) in
        rw
          (
            found,
            starts_with-make_bucket_key field c.base_value,
            start_of R field c small.0,
            lt→ltb v c.base_value above.0,
            prev,
            starts_with-make_bucket_key field b.base_value,
            start_rows,
          )
          (ap (◌∷◌ (row_of R field b)) rest)

pub rows_after_last :
    (before : List Row) (p y : Row) (ys : List Row)
    → IsSorted (before ++ (y ∷ ys))
    → last_row before ≡ some p
    → rows_after (before ++ (y ∷ ys)) p.0 ≡ y ∷ ys
rows_after_last [] p y ys s e = absurd (cc)
rows_after_last (x ∷ before) p y ys s e = elim (Option-cases (last_row before)) [
  | inl none_left ↦
      let at : x ≡ p = some-injective x p (sym (rw none_left refl) ∙ e) in
      let empty : before ≡ [] = no_rows before none_left in
      let first : lex_lt x.0 y.0 ≡ true = All-at (λ r. lex_lt x.0 r.0 ≡ true) before y ys s.0 in
      subst (λ r. rows_after (x ∷ (before ++ (y ∷ ys))) r.0 ≡ y ∷ ys) at
        (rw (lex_lt_self x.0, empty, first) refl)
  | inr (q, found) ↦
      let at : q ≡ p = some-injective q p (sym (rw found refl) ∙ e) in
      let up : lex_lt x.0 q.0 ≡ true =
        last_row-All (λ r. lex_lt x.0 r.0 ≡ true) before q
          (All-left (λ r. lex_lt x.0 r.0 ≡ true) before (y ∷ ys) s.0) found in
      subst (λ r. rows_after (x ∷ (before ++ (y ∷ ys))) r.0 ≡ y ∷ ys) at
        (rw (lex_lt-flip x.0 q.0 up) (rows_after_last before q y ys s.1 found))
]
  where
    no_rows : (rows : List Row) → last_row rows ≡ none → rows ≡ []
    no_rows [] h = refl
    no_rows (r ∷ rows) h = absurd (some_last rows r h)
      where
        some_last : (rows : List Row) (r : Row) → last_row (r ∷ rows) ≡ none → ⊥
        some_last rows r h = elim (Option-cases (last_row rows)) [
          | inl e ↦ no_none r (sym (rw e refl) ∙ h)
          | inr (q, e) ↦ no_none q (sym (rw e refl) ∙ h)
        ]
          where
            no_none : (r : Row) → some r ≡ none → ⊥
            no_none r h = cc
