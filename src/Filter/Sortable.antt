-- ===== src/Filter/Sortable.antt =====
-- src/filter/numeric_index.hpp: keys whose unsigned order is the order of the numbers.
-- A `float` and an `int32_t` are their 32-bit patterns.
pub mod Floats
pub mod Ints
pub mod Mixed
mod Tests
use endee.Prelude.{ℕ, ◌+◌, ◌-◌, ◌/◌, ◌^◌, bit_or, bit_xor, ltb, if◌then◌else◌, u32}

-- `int32_t(i) >> 31`: the sign bit in all places.
abbrev sign_fill : ℕ → ℕ
sign_fill i = if ltb i (2 ^ 31) then 0 else 2 ^ 32 - 1

unfoldable pub float_to_sortable : ℕ → ℕ
float_to_sortable i = bit_xor i (bit_or (sign_fill i) 0x8000_0000)

unfoldable pub sortable_to_float : ℕ → ℕ
sortable_to_float i = bit_xor i (bit_or (u32 (i / 2 ^ 31 + 2 ^ 32 - 1)) 0x8000_0000)

unfoldable pub int_to_sortable : ℕ → ℕ
int_to_sortable i = bit_xor i 0x8000_0000

unfoldable pub sortable_to_int : ℕ → ℕ
sortable_to_int i = bit_xor i 0x8000_0000
