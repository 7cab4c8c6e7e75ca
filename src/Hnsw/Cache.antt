-- ===== src/Hnsw/Cache.antt =====
-- src/hnsw/vector_cache.h: a direct-mapped cache of vectors, where an entry survives as many
-- conflicting insertions as it has lives.
-- A vector is its bytes, `data_size_` of them. A cache with no slots is one whose arrays are null. The stripe locks that the
-- callers hold are not modelled: each operation is one step.
pub mod Eviction
pub mod Bits
pub mod Lookup
mod Tests
use endee.Prelude.{
  ℕ, zero, suc, ◌+◌, ◌-◌, ◌*◌, ◌/◌, ◌^◌, ◌<◌, min, bit_and, ap, not, ◌||◌, Option, none, some, List,
  [], map, ltb, ◌==◌, if◌then◌else◌, get_elem?, set, replicate, u64,
}

abbrev pub invalid_id : ℕ
invalid_id = 2 ^ 32 - 1

abbrev pub slot_life_invalid : ℕ
slot_life_invalid = 0

abbrev pub slot_life_cold : ℕ
slot_life_cold = 1

abbrev pub slot_life_warm : ℕ
slot_life_warm = 2

abbrev pub slot_life_hot : ℕ
slot_life_hot = 3

abbrev pub Bytes : Type 0
Bytes = List ℕ

pub record Slot : Type 0 where
  pub stored_id : ℕ
  pub content : Bytes
  pub life : ℕ

pub record VectorCache : Type 0 where
  pub cache_bits : ℕ
  pub slots : List Slot

-- `(1ULL << bits) < target`, with the shift in 64 bits.
unfoldable pub count_bits : ℕ → ℕ → ℕ → ℕ
count_bits zero bits target = bits
count_bits (suc fuel) bits target =
    let more = count_bits fuel (bits + 1) target in if ltb (2 ^ bits) target then more else bits

-- The target is below 2 ^ 64 / 100, so 64 rounds are enough.
unfoldable pub calculate_cache_bits : ℕ → ℕ → ℕ → ℕ
calculate_cache_bits min_bits element_count cache_percent =
    if element_count == 0 || cache_percent == 0
    then 0
    else let target_elements = u64 (element_count * cache_percent) / 100 in
      let cache_bits = count_bits 64 0 target_elements in
      if ltb cache_bits min_bits then min_bits else cache_bits

-- `blank` is what the allocated memory holds. The shift is that of a 32-bit int, so that 31 bits and
-- more have no defined size: `none`.
unfoldable pub init : Bytes → ℕ → Option VectorCache
init blank cache_bits =
    if cache_bits == 0
    then some (record { cache_bits = 0; slots = [] })
    else if ltb cache_bits 31
    then some (record {
      cache_bits = cache_bits;
      slots =
          replicate (2 ^ cache_bits)
            (record { stored_id = invalid_id; content = blank; life = slot_life_invalid });
    })
    else none

unfoldable pub get_cache_index : VectorCache → ℕ → ℕ
get_cache_index c internal_id = bit_and internal_id (2 ^ c.cache_bits - 1)

abbrev pub slot_at : VectorCache → ℕ → Option (Slot)
slot_at c internal_id = get_elem? c.slots (get_cache_index c internal_id)

abbrev pub set_slot : VectorCache → ℕ → Slot → VectorCache
set_slot c internal_id s = record c { slots = set c.slots (get_cache_index c internal_id) s }

-- The entry, and the cache with the slot made hot.
unfoldable pub get_pointer : VectorCache → ℕ → Option Bytes × VectorCache
get_pointer c internal_id = elim (slot_at c internal_id) [
  | none ↦ (none, c)
  | some s ↦
      if s.life == slot_life_invalid
      then (none, c)
      else if s.stored_id == internal_id
      then (some s.content, set_slot c internal_id (record s { life = slot_life_hot }))
      else (none, c)
]

unfoldable pub insert_slot : Slot → ℕ → Bytes → Slot
insert_slot s internal_id x =
    if s.stored_id == internal_id
    then record s { content = x; life = slot_life_hot }
    else if s.life == slot_life_hot
    then record s { life = slot_life_warm }
    else if s.life == slot_life_warm
    then record s { life = slot_life_cold }
    else record { stored_id = internal_id; content = x; life = slot_life_warm }

unfoldable pub insert : VectorCache → ℕ → Bytes → VectorCache
insert c internal_id x = elim (slot_at c internal_id) [
  | none ↦ c
  | some s ↦ set_slot c internal_id (insert_slot s internal_id x)
]

unfoldable pub update : VectorCache → ℕ → Bytes → VectorCache
update c internal_id x = elim (slot_at c internal_id) [
  | none ↦ c
  | some s ↦
      if s.stored_id == internal_id
      then set_slot c internal_id (record s { content = x; life = 1 })
      else c
]

unfoldable pub invalidate_slot : VectorCache → ℕ → VectorCache
invalidate_slot c internal_id = elim (slot_at c internal_id) [
  | none ↦ c
  | some s ↦
      if s.stored_id == internal_id
      then set_slot c internal_id (record s { life = slot_life_invalid })
      else c
]
