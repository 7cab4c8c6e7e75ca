-- ===== src/Filter/Numeric/Writes.antt =====
-- A bucket written to the table of a field, or erased from it: which buckets the table then has.
use endee.Prelude.{ℕ, ◌^◌, ◌<◌, ◌≡◌, sym, ap, ◌∙◌, some, List, ◌∷◌, ◌++◌, All}
use endee.Roaring.{Roaring}
use endee.Mdbx.Cursor.{Row, put_row, del_row, get_row}
use endee.Mdbx.Cursor.Places.{get_row-at, put_row-new, put_row-at, del_row-at}
use endee.Filter.Bucket.{serialize, Bucket}
use endee.Filter.Numeric.{make_bucket_key}
use endee.Filter.Numeric.Stored.{map-append}
use endee.Filter.Numeric.Rows.{row_of, rows_of, rows_of-AllBelow, rows_of-AllAbove}

module _ (R : Roaring) (field : List ℕ) where
  abbrev table_of : List (Bucket R) → List Row
  table_of bs = rows_of R field bs

  abbrev key_of : Bucket R → List ℕ
  key_of b = make_bucket_key field b.base_value

  pub rows_at :
      (pre : List (Bucket R)) (b : Bucket R) (post : List (Bucket R))
      → table_of (pre ++ (b ∷ post)) ≡ table_of pre ++ (row_of R field b ∷ table_of post)
  rows_at pre b post = map-append (row_of R field) pre (b ∷ post)

  pub write_here :
      (pre : List (Bucket R)) (b b' : Bucket R) (post : List (Bucket R))
      → b.base_value < 2 ^ 32
      → b'.base_value ≡ b.base_value
      → All (λ a. a.base_value < b.base_value) pre
      → put_row (key_of b) (serialize R b') (table_of (pre ++ (b ∷ post)))
        ≡ table_of (pre ++ (b' ∷ post))
  write_here pre b b' post hb same below =
      ap (λ x. put_row (key_of b) (serialize R b') x) (rows_at pre b post)
      ∙ put_row-at (table_of pre) (key_of b) (serialize R b) (serialize R b') (table_of post)
          (rows_of-AllBelow R field b.base_value pre hb below)
      ∙ ap (λ x. table_of pre ++ ((make_bucket_key field x, serialize R b') ∷ table_of post))
          (sym same)
      ∙ sym (rows_at pre b' post)

  pub erase_here :
      (pre : List (Bucket R)) (b : Bucket R) (post : List (Bucket R))
      → b.base_value < 2 ^ 32
      → All (λ a. a.base_value < b.base_value) pre
      → All (λ c. c.base_value < 2 ^ 32) post
      → All (λ c. b.base_value < c.base_value) post
      → del_row (key_of b) (table_of (pre ++ (b ∷ post))) ≡ table_of (pre ++ post)
  erase_here pre b post hb below small above =
      ap (λ x. del_row (key_of b) x) (rows_at pre b post)
      ∙ del_row-at (table_of pre) (key_of b) (serialize R b) (table_of post)
          (rows_of-AllBelow R field b.base_value pre hb below)
          (rows_of-AllAbove R field b.base_value post hb small above)
      ∙ sym (map-append (row_of R field) pre post)

  -- A new bucket between those that start below it and those that start above.
  pub write_between :
      (pre : List (Bucket R)) (c : Bucket R) (post : List (Bucket R))
      → c.base_value < 2 ^ 32
      → All (λ a. a.base_value < c.base_value) pre
      → All (λ d. d.base_value < 2 ^ 32) post
      → All (λ d. c.base_value < d.base_value) post
      → put_row (key_of c) (serialize R c) (table_of (pre ++ post)) ≡ table_of (pre ++ (c ∷ post))
  write_between pre c post hc below small above =
      ap (λ x. put_row (key_of c) (serialize R c) x) (map-append (row_of R field) pre post)
      ∙ put_row-new (table_of pre) (key_of c) (serialize R c) (table_of post)
          (rows_of-AllBelow R field c.base_value pre hc below)
          (rows_of-AllAbove R field c.base_value post hc small above)
      ∙ sym (rows_at pre c post)

  pub read_here :
      (pre : List (Bucket R)) (b : Bucket R) (post : List (Bucket R))
      → b.base_value < 2 ^ 32
      → All (λ a. a.base_value < b.base_value) pre
      → get_row (table_of (pre ++ (b ∷ post))) (key_of b) ≡ some (serialize R b)
  read_here pre b post hb below =
      ap (λ x. get_row x (key_of b)) (rows_at pre b post)
      ∙ get_row-at (table_of pre) (key_of b) (serialize R b) (table_of post)
          (rows_of-AllBelow R field b.base_value pre hb below)
