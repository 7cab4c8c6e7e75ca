-- ===== src/Hnsw/Cache/Lookup.antt =====
-- A cache in front of the vectors it caches: `getDataByInternalId` of src/hnsw/hnswalg.h at layer
-- 0, and the invalidation of `addPoint` there. The fetch from storage and the insertion behind
-- it are one step, so no write falls between them.
use endee.Prelude.{
  ℕ, zero, suc, ◌%◌, ◌^◌, ◌≡◌, refl, sym, ap, subst, subst₂, ◌∙◌, ◌≢◌, ◌⊎◌, inl, inr, Bool, Option,
  none, some, some-injective, List, [], ◌∷◌, arith, ltb, ◌==◌, if◌then◌else◌, Bool-cases,
  Option-cases, get_elem?, set, replicate,
}
use endee.Prelude.Bits.{bit_and_mask}
use endee.Hnsw.Cache.{
  invalid_id, slot_life_invalid, slot_life_hot, Bytes, init, get_cache_index, slot_at, set_slot,
  get_pointer, insert_slot, insert, invalidate_slot, Slot, VectorCache,
}

-- `storage` is `vector_fetcher_`: the vector of a node, or a failure.
pub record Cached : Type 0 where
  pub cache : VectorCache
  pub storage : ℕ → Option Bytes

-- `owns_lock` tells whether the write lock could be taken for the insertion.
unfoldable pub fetch : Cached → ℕ → Bool → Option Bytes × Cached
fetch s internal_id owns_lock =
    let (found, cache) = get_pointer s.cache internal_id in
    elim found [
      | some x ↦ (some x, record s { cache = cache })
      | none ↦ elim (s.storage internal_id) [
        | none ↦ (none, record s { cache = cache })
        | some x ↦
            (some x, record s { cache = if owns_lock then insert cache internal_id x else cache })
      ]
    ]

abbrev store_at : (ℕ → Option Bytes) → ℕ → Bytes → ℕ → Option Bytes
store_at storage i x j = if i == j then some x else storage j

-- A vector is stored anew, and its slot invalidated.
unfoldable pub write : Cached → ℕ → Bytes → Cached
write s internal_id x = record {
  cache = invalidate_slot s.cache internal_id;
  storage = store_at s.storage internal_id x;
}

pub data Call : Type 0 where
  fetches : ℕ → Bool → Call
  writes : ℕ → Bytes → Call

unfoldable pub step : Cached → Call → Cached
step s (fetches i owns_lock) = (fetch s i owns_lock).1
step s (writes i x) = write s i x

unfoldable pub run : Cached → List (Call) → Cached
run s [] = s
run s (c ∷ cs) = run (step s c) cs

abbrev slot_of : VectorCache → ℕ → ℕ
slot_of c i = i % 2 ^ c.cache_bits

get_cache_index_lem : (c : VectorCache) (i : ℕ) → get_cache_index c i ≡ slot_of c i
unfolding get_cache_index
get_cache_index_lem c i = bit_and_mask c.cache_bits i

-- A slot that is alive holds the stored vector of a node that maps to it.
abbrev IsCurrent : ℕ → (ℕ → Option Bytes) → ℕ → Slot → Type 0
IsCurrent bits storage k s =
    (s.life ≡ 0) ⊎ ((storage s.stored_id ≡ some s.content) × (s.stored_id % 2 ^ bits ≡ k))

abbrev pub IsCoherent : Cached → Type 0
IsCoherent s =
    (k : ℕ) (e : Slot)
    → get_elem? s.cache.slots k ≡ some e
    → IsCurrent s.cache.cache_bits s.storage k e

get_elem?-set_cases :
    (xs : List (Slot)) (i k : ℕ) (v e : Slot)
    → get_elem? (set xs i v) k ≡ some e
    → ((i ≡ k) × (e ≡ v)) ⊎ ((i ≢ k) × (get_elem? xs k ≡ some e))
get_elem?-set_cases [] i k v e h = absurd (cc)
get_elem?-set_cases (x ∷ xs) zero zero v e h = inl (refl, sym (some-injective _ _ h))
get_elem?-set_cases (x ∷ xs) zero (suc k) v e h = inr (omega arith, h)
get_elem?-set_cases (x ∷ xs) (suc i) zero v e h = inr (omega arith, h)
get_elem?-set_cases (x ∷ xs) (suc i) (suc k) v e h = elim (get_elem?-set_cases xs i k v e h) [
  | inl (p, q) ↦ inl (ap suc p, q)
  | inr (p, q) ↦ inr (omega arith, q)
]

set_slot-IsCoherent :
    (s : Cached) (i : ℕ) (v : Slot)
    → IsCoherent s
    → IsCurrent s.cache.cache_bits s.storage (get_cache_index s.cache i) v
    → IsCoherent (record s { cache = set_slot s.cache i v })
set_slot-IsCoherent s i v coherent current k e h =
    elim (get_elem?-set_cases s.cache.slots (get_cache_index s.cache i) k v e h) [
      | inl (p, q) ↦ subst₂ (IsCurrent s.cache.cache_bits s.storage) p (sym q) current
      | inr (_, q) ↦ coherent k e q
    ]

-- A hit is the vector in storage.
get_pointer_hit :
    (s : Cached) (i : ℕ) (x : Bytes)
    → IsCoherent s
    → (get_pointer s.cache i).0 ≡ some x
    → s.storage i ≡ some x
unfolding get_pointer
get_pointer_hit s i x coherent hit = elim (Option-cases (slot_at s.cache i)) [
  | inl e ↦ absurd (cc)
  | inr (v, e) ↦ ground (arith, coherent (get_cache_index s.cache i) v e)
]

get_pointer-IsCoherent :
    (s : Cached) (i : ℕ)
    → IsCoherent s
    → IsCoherent (record s { cache = (get_pointer s.cache i).1 })
unfolding get_pointer
get_pointer-IsCoherent s i coherent = elim (Option-cases (slot_at s.cache i)) [
  | inl e ↦ rw (e, get_pointer) coherent
  | inr (v, e) ↦ elim (Bool-cases (v.life == slot_life_invalid)) [
    | inl dead ↦ rw (e, get_pointer, dead) coherent
    | inr alive ↦ elim (Bool-cases (v.stored_id == i)) [
      | inl same ↦
          rw (e, get_pointer, alive, same)
            (set_slot-IsCoherent s i (record v { life = slot_life_hot }) coherent
              (ground (arith, coherent (get_cache_index s.cache i) v e)))
      | inr other ↦ rw (e, get_pointer, alive, other) coherent
    ]
  ]
]

insert-IsCoherent :
    (s : Cached) (i : ℕ) (x : Bytes)
    → IsCoherent s
    → s.storage i ≡ some x
    → IsCoherent (record s { cache = insert s.cache i x })
unfolding insert insert_slot
insert-IsCoherent s i x coherent stored = elim (Option-cases (slot_at s.cache i)) [
  | inl e ↦ rw (e, insert) coherent
  | inr (v, e) ↦
      rw (e, insert)
        (set_slot-IsCoherent s i (insert_slot v i x) coherent
          (ground (arith, coherent (get_cache_index s.cache i) v e, get_cache_index_lem s.cache i)))
]

store_at-IsCurrent :
    (bits : ℕ) (storage : ℕ → Option Bytes) (k i : ℕ) (x : Bytes) (e : Slot)
    → IsCurrent bits storage k e
    → i ≢ e.stored_id
    → IsCurrent bits (store_at storage i x) k e
store_at-IsCurrent bits storage k i x e current other = ground arith

-- What stands in a slot after an invalidation is dead, or stood there and is not node `i`.
invalidate_slot_cases :
    (c : VectorCache) (i k : ℕ) (e : Slot)
    → get_elem? (invalidate_slot c i).slots k ≡ some e
    → (e.life ≡ 0) ⊎ ((get_elem? c.slots k ≡ some e) × (get_cache_index c i ≡ k → e.stored_id ≢ i))
unfolding invalidate_slot
invalidate_slot_cases c i k e h = elim (Option-cases (slot_at c i)) [
  | inl empty ↦
      let at_k : get_elem? c.slots k ≡ some e = rw (empty, invalidate_slot) at h in
      inr (at_k, λ p q. absurd (none≢some (sym empty ∙ ap (get_elem? c.slots) p ∙ at_k)))
  | inr (v, found) ↦ elim (Bool-cases (v.stored_id == i)) [
    | inl same ↦
        elim (get_elem?-set_cases c.slots (get_cache_index c i) k
          (record v { life = slot_life_invalid }) e (rw (found, invalidate_slot, same) at h)) [
            | inl (p, q) ↦ inl (ap (λ t. t.life) q)
            | inr (p, q) ↦ inr (q, λ r. absurd (p r))
          ]
    | inr other ↦
        let at_k : get_elem? c.slots k ≡ some e = rw (found, invalidate_slot, other) at h in
        inr (at_k, λ p q. ground (arith, found ∙ refl, ap (get_elem? c.slots) p, at_k))
  ]
]
  where
    none≢some : {e : Slot} → ◌≡◌ {A = Option Slot} none (some e) → ⊥
    none≢some h = cc

cache_bits-invalidate_slot :
    (c : VectorCache) (i : ℕ) → (invalidate_slot c i).cache_bits ≡ c.cache_bits
unfolding invalidate_slot
cache_bits-invalidate_slot c i = ground arith

write-IsCoherent : (s : Cached) (i : ℕ) (x : Bytes) → IsCoherent s → IsCoherent (write s i x)
unfolding write
write-IsCoherent s i x coherent k e h =
    rw (cache_bits-invalidate_slot s.cache i) (elim (invalidate_slot_cases s.cache i k e h) [
      | inl dead ↦ inl dead
      | inr (at_k, other) ↦ elim (coherent k e at_k) [
        | inl dead ↦ inl dead
        | inr (stored, index) ↦ inr (ground (arith, get_cache_index_lem s.cache i, other), index)
      ]
    ])

fetch-IsCoherent :
    (s : Cached) (i : ℕ) (owns_lock : Bool) → IsCoherent s → IsCoherent (fetch s i owns_lock).1
unfolding fetch
fetch-IsCoherent s i owns_lock coherent = elim (Option-cases (get_pointer s.cache i).0) [
  | inr (x, hit) ↦ rw (hit, fetch) (get_pointer-IsCoherent s i coherent)
  | inl miss ↦ elim (Option-cases (s.storage i)) [
    | inl absent ↦ rw (miss, fetch, absent) (get_pointer-IsCoherent s i coherent)
    | inr (x, stored) ↦ elim (Bool-cases owns_lock) [
      | inl owned ↦
          rw (miss, fetch, stored, owned)
            (insert-IsCoherent (record s { cache = (get_pointer s.cache i).1 }) i x
              (get_pointer-IsCoherent s i coherent) stored)
      | inr busy ↦ rw (miss, fetch, stored, busy) (get_pointer-IsCoherent s i coherent)
    ]
  ]
]

-- A fetch gives what storage holds, from the cache or not.
pub fetch_lem :
    (s : Cached) (i : ℕ) (owns_lock : Bool) → IsCoherent s → (fetch s i owns_lock).0 ≡ s.storage i
unfolding fetch
fetch_lem s i owns_lock coherent = elim (Option-cases (get_pointer s.cache i).0) [
  | inr (x, hit) ↦ rw (hit, fetch) (sym (get_pointer_hit s i x coherent hit))
  | inl miss ↦ ground arith
]

storage-fetch :
    (s : Cached) (i : ℕ) (owns_lock : Bool) → (fetch s i owns_lock).1.storage ≡ s.storage
unfolding fetch
storage-fetch s i owns_lock = ground arith

-- Storage alone, with no cache.
unfoldable pub store_all : (ℕ → Option Bytes) → List Call → ℕ → Option Bytes
store_all storage [] = storage
store_all storage (fetches i owns_lock ∷ cs) = store_all storage cs
store_all storage (writes i x ∷ cs) = store_all (store_at storage i x) cs

step-IsCoherent : (s : Cached) (c : Call) → IsCoherent s → IsCoherent (step s c)
unfolding step
step-IsCoherent s (writes i x) coherent = write-IsCoherent s i x coherent
step-IsCoherent s (fetches i owns_lock) coherent = fetch-IsCoherent s i owns_lock coherent

run-IsCoherent : (s : Cached) (cs : List Call) → IsCoherent s → IsCoherent (run s cs)
unfolding run
run-IsCoherent s [] coherent = coherent
run-IsCoherent s (c ∷ cs) coherent = run-IsCoherent (step s c) cs (step-IsCoherent s c coherent)

storage-run : (s : Cached) (cs : List Call) → (run s cs).storage ≡ store_all s.storage cs
unfolding run step store_all write
storage-run s [] = refl
storage-run s (fetches i owns_lock ∷ cs) =
    storage-run (fetch s i owns_lock).1 cs ∙ ap (λ f. store_all f cs) (storage-fetch s i owns_lock)
storage-run s (writes i x ∷ cs) = storage-run (write s i x) cs

get_elem?-replicate : (n k : ℕ) (v e : Slot) → get_elem? (replicate n v) k ≡ some e → e ≡ v
get_elem?-replicate zero k v e h = absurd (cc)
get_elem?-replicate (suc n) zero v e h = sym (some-injective _ _ h)
get_elem?-replicate (suc n) (suc k) v e h = get_elem?-replicate n k v e h

init-IsCoherent :
    (blank : Bytes) (cache_bits : ℕ) (c : VectorCache) (storage : ℕ → Option Bytes)
    → init blank cache_bits ≡ some c
    → IsCoherent (record { cache = c; storage = storage })
unfolding init
init-IsCoherent blank cache_bits c storage made k e h = elim (Bool-cases (cache_bits == 0)) [
  | inl null ↦
      let same : record { cache_bits = 0; slots = [] } ≡ c =
        some-injective _ _ (rw (null, init) at made) in
      absurd (none_lem (subst (λ (d : VectorCache). get_elem? d.slots k ≡ some e) (sym same) h))
  | inr sized ↦ elim (Bool-cases (ltb cache_bits 31)) [
    | inr large ↦ absurd (no_cache (rw (sized, large, init) at made))
    | inl small ↦
        let blank_slot : Slot = record {
          stored_id = invalid_id;
          content = blank;
          life = slot_life_invalid;
        } in
        let same : record { cache_bits = cache_bits; slots = replicate (2 ^ cache_bits) blank_slot }
            ≡ c =
          some-injective _ _ (rw (sized, small, init) at made) in
        inl (
          ground (
            arith,
            get_elem?-replicate (2 ^ cache_bits) k blank_slot e
                (subst (λ (d : VectorCache). get_elem? d.slots k ≡ some e) (sym same) h),
          ))
  ]
]
  where
    none_lem : {f : Slot} → ◌≡◌ {A = Option Slot} none (some f) → ⊥
    none_lem p = cc

    no_cache : {d : VectorCache} → ◌≡◌ {A = Option VectorCache} none (some d) → ⊥
    no_cache p = cc

-- From the empty cache that `init` makes, whatever vectors were fetched and stored before, a fetch
-- gives the vector that was stored last, as if there were no cache.
pub fetch-run :
    (blank : Bytes) (cache_bits : ℕ) (c : VectorCache) (storage : ℕ → Option Bytes) (cs : List Call)
    (i : ℕ) (owns_lock : Bool)
    → init blank cache_bits ≡ some c
    → (fetch (run (record { cache = c; storage = storage }) cs) i owns_lock).0
      ≡ store_all storage cs i
fetch-run blank cache_bits c storage cs i owns_lock made =
    fetch_lem _ i owns_lock (run-IsCoherent _ cs (init-IsCoherent blank cache_bits c storage made))
    ∙ ap (λ f. f i) (storage-run _ cs)
