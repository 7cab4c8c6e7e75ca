-- ===== src/Filter/Sortable/Ints.antt =====
-- Keys of integers.
use endee.Prelude.{ℕ, ◌+◌, ◌-◌, ◌%◌, ◌^◌, ◌≤◌, ◌<◌, ◌≡◌, ◌↔◌, arith, ltb, if◌then◌else◌}
use endee.Prelude.Bits.{bit_xor_top}
use endee.Prelude.Int.{◌≤ℤ◌, ℤ, pos, negsuc}
use endee.Filter.Sortable.{int_to_sortable, sortable_to_int}

-- The number that an `int32_t` pattern stands for.
abbrev pub signed32 : ℕ → ℤ
signed32 w = if ltb w (2 ^ 31) then pos w else negsuc (2 ^ 32 - w - 1)

pub int_to_sortable_sum : (w : ℕ) → w < 2 ^ 32 → int_to_sortable w ≡ (w + 2 ^ 31) % 2 ^ 32
unfolding int_to_sortable
int_to_sortable_sum w h = bit_xor_top 31 w h

-- Decoding undoes encoding, on every 32-bit pattern.
pub sortable_to_int-int_to_sortable : (w : ℕ) → w < 2 ^ 32 → sortable_to_int (int_to_sortable w) ≡ w
unfolding sortable_to_int
sortable_to_int-int_to_sortable w h =
    rw (int_to_sortable_sum w h, bit_xor_top 31 ((w + 2 ^ 31) % 2 ^ 32) (omega arith)) (omega arith)

-- The keys of integers are ordered as the integers are, and as unsigned words fit 32 bits.
pub int_to_sortable_order :
    (v w : ℕ)
    → v < 2 ^ 32
    → w < 2 ^ 32
    → (int_to_sortable v < 2 ^ 32)
      × ((signed32 v ≤ℤ signed32 w) ↔ (int_to_sortable v ≤ int_to_sortable w))
int_to_sortable_order v w hv hw =
    rw (int_to_sortable_sum v hv, int_to_sortable_sum w hw) (ground arith)
