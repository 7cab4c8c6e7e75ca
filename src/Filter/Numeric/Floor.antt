-- ===== src/Filter/Numeric/Floor.antt =====
-- In a table with the buckets of several fields the search for a bucket of one field finds what it
-- finds in the table of that field alone.
use mathlib.Core.List.{append_assoc, append-nil}
use endee.Prelude.{
  ℕ, ◌≡◌, refl, sym, ap, ◌∙◌, inl, inr, true, false, ◌&&◌, Option, none, some, List, [], ◌∷◌, ◌++◌,
  ltb, leb, if◌then◌else◌, Bool-cases, Option-cases, All, All-append, All-map,
}
use endee.Mdbx.Cursor.{Row, lex_lt, last_row, set_range, prev_row}
use endee.Mdbx.Cursor.Places.{
  lex_lt_self, lex_lt-flip, AllBelow, AllAbove, set_range-below, prev_row-below,
}
use endee.Mdbx.Cursor.Joined.{
  or_else, set_range-append, last_row-append, prev_row-append, prev_row-append_above, last_row-All,
  set_range-All,
}
use endee.Mdbx.Cursor.Blocks.{
  starts_with, block, IsSorted, lex_lt_trans, starts_with-append, LowFor, HighFor,
  HighFor-starts_with, IsSorted-Parts, LowFor-starts_with, block-starts_with,
}
use endee.Filter.Numeric.{prefix_of, make_bucket_key, parse_bucket_key_val, find_row}
use endee.Filter.Numeric.Keys.{starts_with-make_bucket_key}
use endee.Filter.Numeric.Rows.{past}
use endee.Filter.Numeric.Calls.{after}

-- The bucket that is found is of the field and starts at the number or below.
abbrev pub accept : List ℕ → ℕ → Option Row → Option Row
accept field v none = none
accept field v (some r) =
    if starts_with (prefix_of field) r.0 && leb (parse_bucket_key_val r.0) v then some r else none

low_refused :
    (field : List ℕ) (v : ℕ) (before : List Row)
    → All (LowFor (prefix_of field)) before
    → accept field v (last_row before) ≡ none
low_refused field v before low = elim (Option-cases (last_row before)) [
  | inl e ↦ rw e refl
  | inr (r, e) ↦
      let out =
        LowFor-starts_with (prefix_of field) r
          (last_row-All (LowFor (prefix_of field)) before r low e) in
      rw (e, out) refl
]

accept-or_else :
    (field : List ℕ) (v : ℕ) (o p : Option Row)
    → accept field v p ≡ none
    → accept field v (or_else o p) ≡ accept field v o
accept-or_else field v none p e = e
accept-or_else field v (some r) p e = refl

pub low_below :
    (p k : List ℕ) (before : List Row)
    → starts_with p k ≡ true
    → All (LowFor p) before
    → AllBelow before k
low_below p k before h low = All-map (LowFor p) (λ r. lex_lt r.0 k ≡ true) (λ r l. l k h) before low

pub high_above :
    (p k : List ℕ) (after : List Row)
    → starts_with p k ≡ true
    → All (HighFor p) after
    → AllAbove after k
high_above p k after h high =
    All-map (HighFor p) (λ r. lex_lt k r.0 ≡ true) (λ r l. l k h) after high

block_below :
    (p : List ℕ) (xs : List Row) (a : Row)
    → All (λ r. starts_with p r.0 ≡ true) xs
    → HighFor p a
    → AllBelow xs a.0
block_below p xs a inside h =
    All-map (λ r. starts_with p r.0 ≡ true) (λ r. lex_lt r.0 a.0 ≡ true) (λ r s. h r.0 s) xs inside

low_below_high :
    (p : List ℕ) (before : List Row) (a : Row)
    → All (LowFor p) before
    → HighFor p a
    → AllBelow before a.0
low_below_high p before a low h =
    All-map (LowFor p) (λ r. lex_lt r.0 a.0 ≡ true)
      (λ r l.
        lex_lt_trans r.0 (p ++ []) a.0 (l (p ++ []) (starts_with-append p []))
          (h (p ++ []) (starts_with-append p [])))
      before low

module _ (field : List ℕ) (v : ℕ) (before xs : List Row)
    (inside : All (λ r. starts_with (prefix_of field) r.0 ≡ true) xs)
    (low : All (LowFor (prefix_of field)) before) where
  -- The row before one of the block, in the whole table.
  pub prev_row_whole :
      (after : List Row) (k : List ℕ)
      → starts_with (prefix_of field) k ≡ true
      → All (HighFor (prefix_of field)) after
      → prev_row (before ++ (xs ++ after)) k ≡ or_else (prev_row xs k) (last_row before)
  prev_row_whole after k h high =
      prev_row-append before (xs ++ after) k (low_below (prefix_of field) k before h low)
      ∙ ap (λ o. or_else o (last_row before))
          (prev_row-append_above xs after k (high_above (prefix_of field) k after h high))

  -- The row before the first one behind the block.
  pub prev_row_end :
      (a : Row) (rest : List Row)
      → HighFor (prefix_of field) a
      → prev_row (before ++ (xs ++ (a ∷ rest))) a.0 ≡ or_else (last_row xs) (last_row before)
  prev_row_end a rest h =
      let below : AllBelow (before ++ xs) a.0 =
        All-append (λ r. lex_lt r.0 a.0 ≡ true) before xs
          (low_below_high (prefix_of field) before a low h)
          (block_below (prefix_of field) xs a inside h) in
      ap (λ rows. prev_row rows a.0) (sym (append_assoc before xs (a ∷ rest)))
      ∙ prev_row-below (before ++ xs) a rest a.0 below (lex_lt_self a.0)
      ∙ last_row-append before xs

  pub set_range_whole :
      (after : List Row)
      → set_range (before ++ (xs ++ after)) (make_bucket_key field v)
        ≡ or_else
            (set_range xs (make_bucket_key field v))
            (set_range after (make_bucket_key field v))
  set_range_whole after =
      set_range-below before (xs ++ after) (make_bucket_key field v) (
        low_below (prefix_of field) (make_bucket_key field v) before
          (starts_with-make_bucket_key field v) low)
      ∙ set_range-append xs after (make_bucket_key field v)

  -- The rows behind the block are not looked at.
  floor_found :
      (after : List Row) (r : Row)
      → All (HighFor (prefix_of field)) after
      → set_range xs (make_bucket_key field v) ≡ some r
      → accept field v (find_row (before ++ (xs ++ after)) field v)
        ≡ accept field v (find_row xs field v)
  unfolding find_row
  floor_found after r high e =
      let within : starts_with (prefix_of field) r.0 ≡ true =
        set_range-All (λ x. starts_with (prefix_of field) x.0 ≡ true) xs (make_bucket_key field v) r
          inside e in
      let found : set_range (before ++ (xs ++ after)) (make_bucket_key field v) ≡ some r =
        set_range_whole after ∙ rw e refl in
      elim (Bool-cases (ltb v (parse_bucket_key_val r.0))) [
        | inl past ↦
            rw (found, e, within, past, find_row, prev_row_whole after r.0 within high)
              (accept-or_else field v (prev_row xs r.0) (last_row before)
                (low_refused field v before low))
        | inr reached ↦ rw (found, e, within, reached, find_row) refl
      ]

  floor_end :
      (after : List Row)
      → All (HighFor (prefix_of field)) after
      → set_range xs (make_bucket_key field v) ≡ none
      → accept field v (find_row (before ++ (xs ++ after)) field v)
        ≡ accept field v (find_row xs field v)
  unfolding find_row
  floor_end [] high e =
      let found : set_range (before ++ (xs ++ [])) (make_bucket_key field v) ≡ none =
        set_range_whole [] ∙ rw e refl in
      let end : last_row (before ++ (xs ++ [])) ≡ or_else (last_row xs) (last_row before) =
        ap (λ x. last_row (before ++ x)) (append-nil xs) ∙ last_row-append before xs in
      rw (found, e, find_row, end)
        (accept-or_else field v (last_row xs) (last_row before) (low_refused field v before low))
  floor_end (a ∷ rest) high e =
      let above : lex_lt a.0 (make_bucket_key field v) ≡ false =
        lex_lt-flip (make_bucket_key field v) a.0
          (high.0 (make_bucket_key field v) (starts_with-make_bucket_key field v)) in
      let found : set_range (before ++ (xs ++ (a ∷ rest))) (make_bucket_key field v) ≡ some a =
        set_range_whole (a ∷ rest) ∙ rw (e, above) refl in
      rw
        (
          found,
          e,
          HighFor-starts_with (prefix_of field) a high.0,
          find_row,
          prev_row_end a rest high.0,
        )
        (accept-or_else field v (last_row xs) (last_row before) (low_refused field v before low))

-- The search in a sorted table and the search among the rows of the field.
pub accept-find_row :
    (field : List ℕ) (v : ℕ) (rows : List Row)
    → IsSorted rows
    → accept field v (find_row rows field v)
      ≡ accept field v (find_row (block (prefix_of field) rows) field v)
accept-find_row field v rows s =
    let p = prefix_of field in
    let parts = IsSorted-Parts p rows s in
    let xs = block p rows in
    ap (λ x. accept field v (find_row x field v)) parts.parts
    ∙ (elim (Option-cases (set_range xs (make_bucket_key field v))) [
      | inl e ↦
          floor_end field v parts.before xs (block-starts_with p rows) parts.low parts.after
            parts.high e
      | inr (r, e) ↦
          floor_found field v parts.before xs (block-starts_with p rows) parts.low parts.after r
            parts.high e
    ])
