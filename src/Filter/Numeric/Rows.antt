-- ===== src/Filter/Numeric/Rows.antt =====
-- The table when its rows are the buckets of a field: which bucket the moves of the cursor find.
use mathlib.Core.List.{append_assoc}
use endee.Prelude.{
  ℕ, ◌^◌, ◌≤◌, ◌<◌, ◌≡◌, refl, sym, ap, subst, ◌∙◌, true, false, none, some, List, [], ◌∷◌, ◌++◌,
  map, arith, ℕ_discrete, lt→ltb, le→ltb, All, All-append, All-map,
}
use endee.Roaring.{Roaring}
use endee.Mdbx.Cursor.{Row, lex_lt, set_range, prev_row}
use endee.Mdbx.Cursor.Places.{
  lex_lt_self, AllBelow, AllAbove, set_range-below, last_row-last, prev_row-below,
}
use endee.Filter.Bucket.{serialize, Bucket}
use endee.Filter.Numeric.{make_bucket_key, parse_bucket_key_val, find_row}
use endee.Filter.Numeric.Keys.{
  parse_bucket_key_val-make_bucket_key, lex_lt-make_bucket_key, starts_with-make_bucket_key,
}

module _ (R : Roaring) (field : List ℕ) where
  abbrev pub row_of : Bucket R → Row
  row_of b = (make_bucket_key field b.base_value, serialize R b)

  abbrev pub rows_of : List (Bucket R) → List Row
  rows_of bs = map row_of bs

  pub rows_of-AllBelow :
      (v : ℕ) (bs : List (Bucket R))
      → v < 2 ^ 32
      → All (λ b. b.base_value < v) bs
      → AllBelow (rows_of bs) (make_bucket_key field v)
  rows_of-AllBelow v [] hv h = tt
  rows_of-AllBelow v (b ∷ bs) hv h = (
    lex_lt-make_bucket_key field b.base_value v (omega (arith, h.0)) hv ∙ lt→ltb b.base_value v h.0,
    rows_of-AllBelow v bs hv h.1,
  )

  pub rows_of-AllAbove :
      (v : ℕ) (bs : List (Bucket R))
      → v < 2 ^ 32
      → All (λ b. b.base_value < 2 ^ 32) bs
      → All (λ b. v < b.base_value) bs
      → AllAbove (rows_of bs) (make_bucket_key field v)
  rows_of-AllAbove v [] hv small h = tt
  rows_of-AllAbove v (b ∷ bs) hv small h = (
    lex_lt-make_bucket_key field v b.base_value hv small.0 ∙ lt→ltb v b.base_value h.0,
    rows_of-AllAbove v bs hv small.1 h.1,
  )

  pub past :
      (v : ℕ) (c : Bucket R)
      → v < 2 ^ 32
      → c.base_value < 2 ^ 32
      → v ≤ c.base_value
      → lex_lt (make_bucket_key field c.base_value) (make_bucket_key field v) ≡ false
  past v c hv hc h = lex_lt-make_bucket_key field c.base_value v hc hv ∙ le→ltb c.base_value v h

  pub start_of :
      (b : Bucket R)
      → b.base_value < 2 ^ 32
      → parse_bucket_key_val (make_bucket_key field b.base_value) ≡ b.base_value
  start_of b h = parse_bucket_key_val-make_bucket_key field b.base_value h

  -- Where all buckets start behind the number, none is found.
  pub find_row-none :
      (v : ℕ) (bs : List (Bucket R))
      → v < 2 ^ 32
      → All (λ b. b.base_value < 2 ^ 32) bs
      → All (λ b. v < b.base_value) bs
      → find_row (rows_of bs) field v ≡ none
  unfolding find_row
  find_row-none v [] hv small h = refl
  find_row-none v (c ∷ cs) hv small h =
      rw
        (
          past v c hv small.0 (omega (arith, h.0)),
          starts_with-make_bucket_key field c.base_value,
          start_of c small.0,
          lt→ltb v c.base_value h.0,
          lex_lt_self (make_bucket_key field c.base_value),
          find_row,
        )
        refl

  -- The part of a table up to a bucket, and what the cursor finds behind it.
  abbrev upto : List (Bucket R) → Bucket R → List Row
  upto pre b = rows_of pre ++ (row_of b ∷ [])

  upto-AllBelow :
      (v : ℕ) (pre : List (Bucket R)) (b : Bucket R)
      → v < 2 ^ 32
      → All (λ a. a.base_value < b.base_value) pre
      → b.base_value < v
      → AllBelow (upto pre b) (make_bucket_key field v)
  upto-AllBelow v pre b hv below low =
      All-append (λ r. lex_lt r.0 (make_bucket_key field v) ≡ true) (rows_of pre) (row_of b ∷ [])
        (rows_of-AllBelow v pre hv (
          All-map (λ a. a.base_value < b.base_value) (λ a. a.base_value < v)
            (λ a h. omega (arith, h, low)) pre below))
        (rows_of-AllBelow v (b ∷ []) hv (low, tt))

  regroup :
      (pre : List (Bucket R)) (b : Bucket R) (post : List (Bucket R))
      → rows_of pre ++ (row_of b ∷ rows_of post) ≡ upto pre b ++ rows_of post
  regroup pre b post = sym (append_assoc (rows_of pre) (row_of b ∷ []) (rows_of post))

  -- From a number behind the start of the bucket `SET_RANGE` finds the first bucket of the rest, if
  -- the rest starts behind the number, and `PREV` goes back to the bucket.
  pub set_range_rest :
      (v : ℕ) (pre : List (Bucket R)) (b : Bucket R) (post : List (Bucket R))
      → v < 2 ^ 32
      → All (λ a. a.base_value < b.base_value) pre
      → b.base_value < v
      → set_range (rows_of pre ++ (row_of b ∷ rows_of post)) (make_bucket_key field v)
        ≡ set_range (rows_of post) (make_bucket_key field v)
  set_range_rest v pre b post hv below low =
      ap (λ rows. set_range rows (make_bucket_key field v)) (regroup pre b post)
      ∙ set_range-below (upto pre b) (rows_of post) (make_bucket_key field v)
          (upto-AllBelow v pre b hv below low)

  pub prev_row_rest :
      (pre : List (Bucket R)) (b c : Bucket R) (post : List (Bucket R))
      → c.base_value < 2 ^ 32
      → All (λ a. a.base_value < b.base_value) pre
      → b.base_value < c.base_value
      → prev_row
          (rows_of pre ++ (row_of b ∷ rows_of (c ∷ post)))
          (make_bucket_key field c.base_value)
        ≡ some (row_of b)
  prev_row_rest pre b c post hc below low =
      ap (λ rows. prev_row rows (make_bucket_key field c.base_value)) (regroup pre b (c ∷ post))
      ∙ prev_row-below (upto pre b) (row_of c) (rows_of post) (make_bucket_key field c.base_value)
          (upto-AllBelow c.base_value pre b hc below low)
          (lex_lt_self (make_bucket_key field c.base_value))
      ∙ last_row-last (rows_of pre) (row_of b)

  pub set_range_here :
      (pre : List (Bucket R)) (b : Bucket R) (post : List (Bucket R))
      → b.base_value < 2 ^ 32
      → All (λ a. a.base_value < b.base_value) pre
      → set_range (rows_of pre ++ (row_of b ∷ rows_of post)) (make_bucket_key field b.base_value)
        ≡ some (row_of b)
  set_range_here pre b post hb below =
      set_range-below (rows_of pre) (row_of b ∷ rows_of post) (make_bucket_key field b.base_value)
        (rows_of-AllBelow b.base_value pre hb below)
      ∙ rw (lex_lt_self (make_bucket_key field b.base_value)) refl

  -- Otherwise the last of them that starts at the number or below.
  pub find_row-some :
      (v : ℕ) (pre : List (Bucket R)) (b : Bucket R) (post : List (Bucket R))
      → v < 2 ^ 32
      → All (λ c. c.base_value < 2 ^ 32) post
      → All (λ a. a.base_value < b.base_value) pre
      → b.base_value ≤ v
      → All (λ c. v < c.base_value) post
      → find_row (rows_of pre ++ (row_of b ∷ rows_of post)) field v ≡ some (row_of b)
  unfolding find_row
  find_row-some v pre b post hv small below low above = elim (ℕ_discrete b.base_value v) [
    | yes e ↦
        let found : set_range (rows_of pre ++ (row_of b ∷ rows_of post)) (make_bucket_key field v)
            ≡ some (row_of b) =
          subst
            (λ x.
              set_range (rows_of pre ++ (row_of b ∷ rows_of post)) (make_bucket_key field x)
              ≡ some (row_of b))
            e (set_range_here pre b post (omega arith) below) in
        rw
          (
            found,
            starts_with-make_bucket_key field b.base_value,
            start_of b (omega arith),
            le→ltb v b.base_value low,
            find_row,
          )
          refl
    | no less ↦
        let rest = set_range_rest v pre b post hv below (omega arith) in
        behind post small above rest
  ]
    where
      behind :
          (post : List (Bucket R))
          → All (λ c. c.base_value < 2 ^ 32) post
          → All (λ c. v < c.base_value) post
          → set_range (rows_of pre ++ (row_of b ∷ rows_of post)) (make_bucket_key field v)
            ≡ set_range (rows_of post) (make_bucket_key field v)
          → find_row (rows_of pre ++ (row_of b ∷ rows_of post)) field v ≡ some (row_of b)
      behind [] small above rest = rw (rest, find_row) (last_row-last (rows_of pre) (row_of b))
      behind (c ∷ post) small above rest =
          let found : set_range (rows_of pre ++ (row_of b ∷ rows_of (c ∷ post)))
                (make_bucket_key field v)
              ≡ some (row_of c) =
            rest ∙ rw (past v c hv small.0 (omega (arith, above.0))) refl in
          rw
            (
              found,
              starts_with-make_bucket_key field c.base_value,
              start_of c small.0,
              lt→ltb v c.base_value above.0,
              find_row,
            )
            (prev_row_rest pre b c post small.0 below (omega (arith, above.0)))
