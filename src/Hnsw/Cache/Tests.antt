-- ===== src/Hnsw/Cache/Tests.antt =====
-- The cache at concrete inputs.
use endee.Prelude.{
  ℕ, ◌-◌, ◌*◌, ◌/◌, ◌^◌, ◌≤◌, ◌<◌, ◌≡◌, refl, ◌⊎◌, true, Option, none, List, [], ◌∷◌, arith,
  replicate,
}
use endee.Hnsw.Cache.{
  invalid_id, slot_life_invalid, slot_life_hot, Bytes, count_bits, calculate_cache_bits, init, Slot,
  VectorCache,
}
use endee.Hnsw.Cache.Eviction.{insert_all, insert_all_survives}
use endee.Hnsw.Cache.Bits.{calculate_cache_bits_bounds}
use endee.Hnsw.Cache.Lookup.{fetch, run, store_all, fetch-run, Call, fetches, writes}

abbrev resident : Slot
resident = record { stored_id = 5; content = 1 ∷ []; life = slot_life_hot }

abbrev rivals : List (ℕ × Bytes)
rivals = (9, 2 ∷ []) ∷ ((13, 3 ∷ []) ∷ [])

insert_all_survives_example : insert_all resident rivals ≡ record resident { life = 1 }
insert_all_survives_example =
    insert_all_survives resident rivals (omega arith) (omega arith) (omega arith)

calculate_cache_bits_bounds_example :
    (1_000_000 * 15 / 100 ≤ 2 ^ calculate_cache_bits 17 1_000_000 15)
    × (17 ≤ calculate_cache_bits 17 1_000_000 15)
    × ((calculate_cache_bits 17 1_000_000 15 ≡ 17)
        ⊎ (2 ^ (calculate_cache_bits 17 1_000_000 15 - 1) < 1_000_000 * 15 / 100))
calculate_cache_bits_bounds_example =
    calculate_cache_bits_bounds 17 1_000_000 15 (omega arith) (omega arith) (omega arith)

default_bits : calculate_cache_bits 17 1_000_000 15 ≡ 18
unfolding calculate_cache_bits count_bits
default_bits = refl

abbrev no_vectors : ℕ → Option Bytes
no_vectors i = none

abbrev history : List Call
history = writes 1 (10 ∷ []) ∷ (fetches 1 true ∷ (writes 5 (50 ∷ []) ∷ (writes 1 (11 ∷ []) ∷ [])))

abbrev four_slots : VectorCache
four_slots = record {
  cache_bits = 2;
  slots = replicate 4 (record { stored_id = invalid_id; content = []; life = slot_life_invalid });
}

fetch-run_example :
    (fetch (run (record { cache = four_slots; storage = no_vectors }) history) 1 true).0
    ≡ store_all no_vectors history 1
unfolding init
fetch-run_example = fetch-run [] 2 four_slots no_vectors history 1 true refl
