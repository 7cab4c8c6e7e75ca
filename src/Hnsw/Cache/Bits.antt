-- ===== src/Hnsw/Cache/Bits.antt =====
-- The size of the cache: `calculateCacheBits`.
use endee.Prelude.{
  ℕ, zero, suc, ◌+◌, ◌-◌, ◌*◌, ◌/◌, ◌^◌, ◌≤◌, ◌<◌, ◌≡◌, refl, ◌⊎◌, inl, inr, arith, ltb, ltb→lt,
  ltb→le, Bool-cases,
}
use endee.Hnsw.Cache.{count_bits, calculate_cache_bits}
use native.Mathlib.Nat.{add-zero, mod-eq_of_lt, pow-le-pow_right}

-- Rounds enough to reach the target, started where one bit less was too few.
count_bits_lem :
    (fuel bits target : ℕ)
    → target ≤ 2 ^ (bits + fuel)
    → (bits ≡ 0) ⊎ (2 ^ (bits - 1) < target)
    → (target ≤ 2 ^ count_bits fuel bits target)
      × ((count_bits fuel bits target ≡ 0) ⊎ (2 ^ (count_bits fuel bits target - 1) < target))
unfolding count_bits
count_bits_lem zero bits target h least = (rw (add-zero bits) at h, least)
count_bits_lem (suc fuel) bits target h least = elim (Bool-cases (ltb (2 ^ bits) target)) [
  | inl more ↦ rw more (
      count_bits_lem fuel (bits + 1) target
        (let e : bits + suc fuel ≡ bits + 1 + fuel = omega arith in rw e at h)
        (inr (let e : bits + 1 - 1 ≡ bits = omega arith in rw e (ltb→lt _ _ more))))
  | inr enough ↦ rw enough (ltb→le _ _ enough, least)
]

-- For a positive share of a number of elements whose product fits 64 bits, the cache has slots
-- for the share, and no more bits than that takes or than the minimum asks.
pub calculate_cache_bits_bounds :
    (min_bits element_count cache_percent : ℕ)
    → 0 < element_count
    → 0 < cache_percent
    → element_count * cache_percent < 2 ^ 64
    → let bits = calculate_cache_bits min_bits element_count cache_percent in
      (element_count * cache_percent / 100 ≤ 2 ^ bits)
      × (min_bits ≤ bits)
      × ((bits ≡ min_bits) ⊎ (2 ^ (bits - 1) < element_count * cache_percent / 100))
unfolding calculate_cache_bits
calculate_cache_bits_bounds min_bits element_count cache_percent he hp fits = ground (
  arith,
  mod-eq_of_lt {n = element_count * cache_percent} {m = 2 ^ 64} fits,
  count_bits_lem 64 0 (element_count * cache_percent / 100) (omega arith) (inl refl),
  pow-le-pow_right {n = 2} (omega arith) {i = count_bits 64 0 (element_count * cache_percent / 100)}
      {j = min_bits},
)
