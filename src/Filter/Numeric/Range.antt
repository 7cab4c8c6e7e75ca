-- ===== src/Filter/Numeric/Range.antt =====
-- `NumericIndex::range` of src/filter/numeric_index.hpp.
use endee.Prelude.{
  ℕ, ◌+◌, ◌-◌, not, ◌&&◌, ◌||◌, Option, none, some, List, [], ◌∷◌, ltb, leb, ◌==◌, if◌then◌else◌,
  length, u32,
}
use endee.Roaring.{Roaring}
use endee.Mdbx.Cursor.{Row, last_row, set_range, prev_row, rows_after, OrderedTable}
use endee.Filter.Bucket.{get_value, deserialize, Bucket}
use endee.Mdbx.Cursor.Blocks.{starts_with}
use endee.Filter.Numeric.{prefix_of, make_bucket_key, parse_bucket_key_val, of_result, NumericIndex}

-- The row where the scan starts, and the rows that the cursor gives behind it.
unfoldable pub start_rows : List Row → List ℕ → ℕ → List Row
start_rows rows field min_val =
    let inside = starts_with (prefix_of field) in
    elim (set_range rows (make_bucket_key field min_val)) [
      | some r ↦
          if not (inside r.0) || ltb min_val (parse_bucket_key_val r.0)
          then elim (prev_row rows r.0) [
            | none ↦ r ∷ rows_after rows r.0
            | some p ↦ if inside p.0 then p ∷ rows_after rows p.0 else r ∷ rows_after rows p.0
          ]
          else r ∷ rows_after rows r.0
      | none ↦ elim (last_row rows) [
        | none ↦ []
        | some r ↦ if not (length r.1 == 0) && inside r.0 then r ∷ rows_after rows r.0 else []
      ]
    ]

module _ (R : Roaring) where
  -- The entries of a bucket that overlaps the range in part.
  unfoldable pub add_matching : Bucket R → ℕ → ℕ → R.Bitmap → List ℕ → List ℕ → R.Bitmap
  add_matching b min_val max_val result [] is = result
  add_matching b min_val max_val result (d ∷ ds) [] = result
  add_matching b min_val max_val result (d ∷ ds) (i ∷ is) =
      let v = u32 (b.base_value + d) in
      add_matching b min_val max_val
        (if leb min_val v && leb v max_val then R.add result i else result) ds is

  unfoldable pub collect_bucket : Bucket R → ℕ → ℕ → R.Bitmap → R.Bitmap
  collect_bucket b min_val max_val result =
      if leb min_val (get_value R b 0) && leb (get_value R b (length b.ids - 1)) max_val
      then R.union result b.summary_bitmap
      else add_matching b min_val max_val result b.deltas b.ids

  -- The loop over the rows.
  unfoldable pub scan : List ℕ → ℕ → ℕ → R.Bitmap → List Row → Option R.Bitmap
  scan field min_val max_val result [] = some result
  scan field min_val max_val result (r ∷ rows) =
      let base = parse_bucket_key_val r.0 in
      if not (starts_with (prefix_of field) r.0) || ltb max_val base
      then some result
      else elim (of_result (deserialize R r.1 base)) [
        | none ↦ none
        | some b ↦
            scan field min_val max_val
              (if length b.ids == 0 then result else collect_bucket b min_val max_val result) rows
      ]

  unfoldable pub range : (T : OrderedTable) → NumericIndex T → List ℕ → ℕ → ℕ → Option R.Bitmap
  range T ix field min_val max_val =
      scan field min_val max_val R.empty (start_rows (T.rows ix.inverted_dbi) field min_val)
