-- ===== src/Filter/Numeric.antt =====
-- `NumericIndex` of src/filter/numeric_index.hpp: for each field the values of its identifiers, and
-- buckets of neighbouring values. A string is its bytes. A transaction is one step; where the code
-- throws it is aborted, which is `none` here. What `MDBX_NEXT` gives after an `MDBX_PREV` that found
-- nothing is the row behind the one where the cursor was.
pub mod Keys
pub mod Range
pub mod Field
pub mod Stored
pub mod Rows
pub mod Scan
pub mod Collected
pub mod Halves
pub mod Adds
pub mod Cut
pub mod Moves
pub mod Split
pub mod Contents
pub mod Writes
pub mod Removes
pub mod Removal
pub mod Inserts
pub mod Joins
pub mod Runs
pub mod Changes
pub mod Addition
pub mod Values
pub mod Forward
pub mod Calls
pub mod Agrees
pub mod Floor
pub mod Mirror
pub mod Sims
pub mod Views
pub mod Among
pub mod Whole
pub mod Fields
mod Tests
use mathlib.Core.List.{reverse}
use endee.Prelude.{
  ℕ, zero, suc, ◌+◌, ◌-◌, ◌/◌, ◌%◌, ◌^◌, min, max, ap, Bool, false, not, ◌&&◌, ◌||◌, Option, none,
  some, List, [], ◌∷◌, ◌++◌, map, ltb, leb, ◌==◌, if◌then◌else◌, is_empty, length, get_or, set,
  take, drop, u32, le_bytes, of_le_bytes,
}
use endee.Roaring.{Roaring}
use endee.Mdbx.Cursor.{Row, get_row, last_row, set_range, prev_row, OrderedTable}
use endee.Mdbx.Cursor.Blocks.{starts_with}
use endee.Filter.Bucket.{
  add as add_value, remove as remove_id, is_empty as is_empty_bucket, Bucket, Result, ok, err,
  max_size, max_delta, empty_bucket, get_value, serialize, deserialize,
}

-- The digits of `std::to_string`; a number of `fuel` digits is below 10 ^ fuel.
unfoldable pub digits : ℕ → ℕ → List ℕ
digits zero n = []
digits (suc fuel) n =
    let rest = digits fuel (n / 10) in
    if ltb n 10 then (48 + n) ∷ [] else rest ++ ((48 + n % 10) ∷ [])

unfoldable pub to_string : ℕ → List ℕ
to_string n = digits 20 n

-- `field + ":"`
abbrev pub prefix_of : List ℕ → List ℕ
prefix_of field = field ++ (58 ∷ [])

unfoldable pub make_forward_key : List ℕ → ℕ → List ℕ
make_forward_key field id = prefix_of field ++ to_string id

-- The bytes of `__builtin_bswap32`, highest first.
unfoldable pub be_bytes : ℕ → List ℕ
be_bytes v = reverse (le_bytes 4 v)

unfoldable pub make_bucket_key : List ℕ → ℕ → List ℕ
make_bucket_key field start_val = prefix_of field ++ be_bytes start_val

unfoldable pub parse_bucket_key_val : List ℕ → ℕ
parse_bucket_key_val key =
    if ltb (length key) 4 then 0 else of_le_bytes (reverse (drop (length key - 4) key))

-- The moves of the cursor to the bucket that covers a value, if there is one.
unfoldable pub find_row : List Row → List ℕ → ℕ → Option Row
find_row rows field value = elim (set_range rows (make_bucket_key field value)) [
  | none ↦ last_row rows
  | some r ↦
      if not (starts_with (prefix_of field) r.0) || ltb value (parse_bucket_key_val r.0)
      then prev_row rows r.0
      else some r
]

-- The index where a full bucket is split. Values that are equal stay together.
unfoldable pub probe_right : ℕ → List ℕ → ℕ
probe_right prev [] = 0
probe_right prev (d ∷ ds) = let rest = probe_right d ds in if d == prev then suc rest else 0

unfoldable pub probe_left : List ℕ → ℕ → ℕ
probe_left deltas zero = 0
probe_left deltas (suc n) =
    let rest = probe_left deltas n in
    if get_or deltas (suc n) 0 == get_or deltas n 0 then rest else suc n

unfoldable pub split_index : List ℕ → ℕ
split_index deltas =
    let mid_idx = length deltas / 2 in
    let right = mid_idx + probe_right (get_or deltas (mid_idx - 1) 0) (drop mid_idx deltas) in
    if ltb right (length deltas)
    then right
    else let left = probe_left deltas mid_idx in if ltb 0 left then left else length deltas

unfoldable pub of_result : {A : Type 0} → Result A → Option A
of_result (ok a) = some a
of_result (err e) = none

module _ (R : Roaring) where
  -- The entries behind the index, moved one by one, and the bitmap of those before it.
  unfoldable pub move_entries : ℕ → Bucket R → List ℕ → List ℕ → Option (Bucket R)
  move_entries base right_b [] ids = some right_b
  move_entries base right_b (d ∷ ds) [] = some right_b
  move_entries base right_b (d ∷ ds) (i ∷ is) =
      elim (of_result (add_value R right_b (u32 (base + d)) i)) [
        | none ↦ none
        | some right_b' ↦ move_entries base right_b' ds is
      ]

  unfoldable pub rebuild_bitmap : R.Bitmap → List ℕ → R.Bitmap
  rebuild_bitmap bitmap [] = bitmap
  rebuild_bitmap bitmap (i ∷ is) = rebuild_bitmap (R.add bitmap i) is

  -- The two halves of a bucket.
  unfoldable pub split : Bucket R → ℕ → Option (Bucket R × Bucket R)
  split b mid_idx =
      elim (move_entries b.base_value
        (empty_bucket R (u32 (b.base_value + get_or b.deltas mid_idx 0))) (drop mid_idx b.deltas)
        (drop mid_idx b.ids)) [
          | none ↦ none
          | some right_b ↦ some (
            record b {
              deltas = take mid_idx b.deltas;
              ids = take mid_idx b.ids;
              summary_bitmap = rebuild_bitmap R.empty (take mid_idx b.ids);
            },
            right_b,
          )
        ]

module _ (R : Roaring) (T : OrderedTable) where
  abbrev pub save : T.Db → List ℕ → Bucket R → T.Db
  save db key b = T.put db key (serialize R b)

  unfoldable pub remove_from_buckets : T.Db → List ℕ → ℕ → ℕ → Option T.Db
  remove_from_buckets db field value id = elim (find_row (T.rows db) field value) [
    | none ↦ some db
    | some r ↦
        let base = parse_bucket_key_val r.0 in
        if not (starts_with (prefix_of field) r.0) || ltb value base
        then some db
        else elim (of_result (deserialize R r.1 base)) [
          | none ↦ none
          | some b ↦
              let (removed, b') = remove_id R b id in
              some (
                if not removed
                then db
                else if is_empty_bucket R b'
                then T.del db r.0
                else save db r.0 b')
        ]
  ]

  -- The row of the bucket that is to hold a value, if there is one.
  unfoldable pub target_row : List Row → List ℕ → ℕ → Option Row
  target_row rows field value = elim (find_row rows field value) [
    | none ↦ none
    | some r ↦
        let base = parse_bucket_key_val r.0 in
        if starts_with (prefix_of field) r.0 && (leb base value && leb (value - base) max_delta)
        then some r
        else none
  ]

  unfoldable pub add_to_full : T.Db → List ℕ → List ℕ → Bucket R → ℕ → ℕ → Option T.Db
  add_to_full db field target_key b value id =
      let mid_idx = split_index b.deltas in
      if mid_idx == length b.deltas
      then elim (of_result (add_value R b value id)) [
        | none ↦ none
        | some b' ↦ some (save db target_key b')
      ]
      else elim (split R b mid_idx) [
        | none ↦ none
        | some (left, right_b) ↦
            let right_key = make_bucket_key field right_b.base_value in
            if leb right_b.base_value value
            then elim (of_result (add_value R right_b value id)) [
              | none ↦ none
              | some right' ↦ some (save (save db target_key left) right_key right')
            ]
            else elim (of_result (add_value R left value id)) [
              | none ↦ none
              | some left' ↦ some (save (save db target_key left') right_key right_b)
            ]
      ]

  unfoldable pub add_to_buckets : T.Db → List ℕ → ℕ → ℕ → Option T.Db
  add_to_buckets db field value id = elim (target_row (T.rows db) field value) [
    | none ↦ elim (of_result (add_value R (empty_bucket R value) value id)) [
      | none ↦ none
      | some b ↦ some (save db (make_bucket_key field value) b)
    ]
    | some r ↦ elim (get_row (T.rows db) r.0) [
      | none ↦ none
      | some data' ↦ elim (of_result (deserialize R data' (parse_bucket_key_val r.0))) [
        | none ↦ none
        | some b ↦
            if leb max_size (length b.ids)
            then add_to_full db field r.0 b value id
            else elim (of_result (add_value R b value id)) [
              | none ↦ none
              | some b' ↦ some (save db r.0 b')
            ]
      ]
    ]
  ]

pub record NumericIndex (T : OrderedTable) : Type 0 where
  pub forward_dbi : T.Db
  pub inverted_dbi : T.Db

module _ (R : Roaring) (T : OrderedTable) where
  -- The value that the forward table has.
  unfoldable pub forward_value : T.Db → List ℕ → ℕ → Option ℕ
  forward_value db field id = elim (get_row (T.rows db) (make_forward_key field id)) [
    | none ↦ none
    | some bytes ↦ some (of_le_bytes (take 4 bytes))
  ]

  -- `put_internal` behind the test of the old value.
  unfoldable pub put_value : NumericIndex T → T.Db → List ℕ → ℕ → ℕ → Option (NumericIndex T)
  put_value ix inverted field id value = elim (add_to_buckets R T inverted field value id) [
    | none ↦ none
    | some inverted' ↦ some (record {
      forward_dbi = T.put ix.forward_dbi (make_forward_key field id) (le_bytes 4 value);
      inverted_dbi = inverted';
    })
  ]

  unfoldable pub put : NumericIndex T → List ℕ → ℕ → ℕ → Option (NumericIndex T)
  put ix field id value = elim (forward_value ix.forward_dbi field id) [
    | none ↦ put_value ix ix.inverted_dbi field id value
    | some old_val ↦
        if old_val == value
        then some ix
        else elim (remove_from_buckets R T ix.inverted_dbi field old_val id) [
          | none ↦ none
          | some inverted ↦ put_value ix inverted field id value
        ]
  ]

  unfoldable pub remove : NumericIndex T → List ℕ → ℕ → Option (NumericIndex T)
  remove ix field id = elim (forward_value ix.forward_dbi field id) [
    | none ↦ some ix
    | some old_val ↦ elim (remove_from_buckets R T ix.inverted_dbi field old_val id) [
      | none ↦ none
      | some inverted ↦ some (record {
        forward_dbi = T.del ix.forward_dbi (make_forward_key field id);
        inverted_dbi = inverted;
      })
    ]
  ]

  unfoldable pub check_range : NumericIndex T → List ℕ → ℕ → ℕ → ℕ → Bool
  check_range ix field id min_val max_val = elim (forward_value ix.forward_dbi field id) [
    | none ↦ false
    | some val ↦ leb min_val val && leb val max_val
  ]
