-- ===== src/Filter/Bucket.antt =====
-- src/filter/numeric_index.hpp: one bucket of a numeric field, its values as 16-bit distances
-- from the base, sorted, beside the identifiers that have them.
pub mod Lookup
pub mod Bytes
mod Tests
use endee.Prelude.{
  ℕ, zero, suc, ◌+◌, ◌-◌, ◌*◌, ◌/◌, max, ap, Bool, true, false, not, Option, none, some, List, [],
  ◌∷◌, ◌++◌, map, ltb, leb, ◌==◌, if◌then◌else◌, length, get_or, take, drop, insert_at, erase_at,
  u16, u32, le_bytes, of_le_bytes,
}
use endee.Roaring.{Roaring}

-- The exceptions that bucket code throws.
pub data BucketError : Type 0 where
  value_below_base delta_overflow invalid_bitmap_size truncated_count truncated_data : BucketError

pub data Result (A : Type 0) : Type 0 where
  ok : A → Result A
  err : BucketError → Result A

abbrev pub max_size : ℕ
max_size = 1024

abbrev pub max_delta : ℕ
max_delta = 65535

pub record Bucket (R : Roaring) : Type 0 where
  pub base_value : ℕ
  pub deltas : List ℕ
  pub ids : List ℕ
  pub summary_bitmap : R.Bitmap
  pub is_dirty : Bool

-- `std::lower_bound` on a sorted vector: the index of the first element that is not below `x`.
unfoldable pub lower_bound : List ℕ → ℕ → ℕ
lower_bound [] x = 0
lower_bound (d ∷ ds) x = if ltb d x then suc (lower_bound ds x) else 0

-- The index of the first occurrence, which `remove` scans for.
unfoldable pub index_of : List ℕ → ℕ → Option ℕ
index_of [] id = none
index_of (i ∷ is) id =
    if i == id then some 0 else (elim (index_of is id) [ none ↦ none | some k ↦ some (suc k) ])

unfoldable pub write_words : ℕ → List ℕ → List ℕ
write_words w [] = []
write_words w (x ∷ xs) = le_bytes w x ++ write_words w xs

-- `memcpy` of `n` words of `w` bytes.
unfoldable pub read_words : ℕ → ℕ → List ℕ → List ℕ
read_words w zero bytes = []
read_words w (suc n) bytes = of_le_bytes (take w bytes) ∷ read_words w n (drop w bytes)

module _ (R : Roaring) where
  unfoldable pub empty_bucket : ℕ → Bucket R
  empty_bucket base_val = record {
    base_value = base_val;
    deltas = [];
    ids = [];
    summary_bitmap = R.empty;
    is_dirty = false;
  }

  unfoldable pub get_value : Bucket R → ℕ → ℕ
  get_value b index = u32 (b.base_value + get_or b.deltas index 0)

  -- The writes of `add`, at the place that keeps the deltas sorted.
  unfoldable pub insert_entry : Bucket R → ℕ → ℕ → Bucket R
  insert_entry b delta id =
      let index = lower_bound b.deltas delta in
      record b {
        deltas = insert_at index delta b.deltas;
        ids = insert_at index id b.ids;
        summary_bitmap = R.add b.summary_bitmap id;
        is_dirty = true;
      }

  unfoldable pub add : Bucket R → ℕ → ℕ → Result (Bucket R)
  add b val id =
      if ltb val b.base_value
      then err value_below_base
      else if ltb max_delta (val - b.base_value)
      then err delta_overflow
      else ok (insert_entry b (u16 (val - b.base_value)) id)

  unfoldable pub remove : Bucket R → ℕ → Bool × Bucket R
  remove b id = elim (index_of b.ids id) [
    | none ↦ (false, b)
    | some i ↦ (
      true,
      record b {
        deltas = erase_at i b.deltas;
        ids = erase_at i b.ids;
        summary_bitmap = R.remove b.summary_bitmap id;
        is_dirty = true;
      },
    )
  ]

  unfoldable pub serialize : Bucket R → List ℕ
  serialize b =
      let bitmap = R.write b.summary_bitmap in
      let count = u16 (length b.ids) in
      le_bytes 4 (u32 (length bitmap))
      ++ (bitmap
          ++ (le_bytes 2 count
              ++ (write_words 2 (take count b.deltas) ++ write_words 4 (take count b.ids))))

  -- The part behind the bitmap.
  unfoldable pub deserialize_entries : Bucket R → List ℕ → Result (Bucket R)
  deserialize_entries b data' =
      if ltb (length data') 2
      then err truncated_count
      else let count = of_le_bytes (take 2 data') in
        let rest = drop 2 data' in
        if count == 0
        then ok b
        else if ltb (length rest) (count * 2 + count * 4)
        then err truncated_data
        else ok (record b {
          deltas = read_words 2 count rest;
          ids = read_words 4 count (drop (count * 2) rest);
        })

  unfoldable pub deserialize : List ℕ → ℕ → Result (Bucket R)
  unfolding deserialize_entries empty_bucket
  deserialize data' base_val =
      if ltb (length data') 6
      then ok (empty_bucket base_val)
      else let bm_size = of_le_bytes (take 4 data') in
        let rest = drop 4 data' in
        if ltb (length rest) bm_size
        then err invalid_bitmap_size
        else if bm_size == 0
        then deserialize_entries (empty_bucket base_val) rest
        else deserialize_entries (record (empty_bucket base_val) { summary_bitmap = R.read rest })
            (drop bm_size rest)

  unfoldable pub read_summary_bitmap : List ℕ → R.Bitmap
  read_summary_bitmap data' =
      if of_le_bytes (take 4 data') == 0 then R.empty else R.read (drop 4 data')

  unfoldable pub is_full : Bucket R → Bool
  is_full b = leb max_size (length b.ids)

  unfoldable pub is_empty : Bucket R → Bool
  is_empty b = length b.ids == 0
