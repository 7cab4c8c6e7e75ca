-- ===== src/Sparse/Vector/Half.antt =====
-- The 16-bit floats of src/sparse/sparse_vector.hpp.
use endee.Prelude.{
  ℕ, ◌+◌, ◌-◌, ◌*◌, ◌/◌, ◌%◌, ◌^◌, ◌≤◌, ◌<◌, bit_or, ◌≡◌, ap, ◌∙◌, true, false, arith, leb, ◌==◌,
}
use endee.Prelude.Bits.{bit_or_fields}
use endee.Sparse.Vector.{float_to_fp16, float_of, fp16_to_float}

-- Not zero, not denormal, not infinite and not a NaN.
abbrev pub IsNormalHalf : ℕ → Type 0
IsNormalHalf h = (h < 2 ^ 16) × (0 < h / 2 ^ 10 % 32) × (h / 2 ^ 10 % 32 < 31)

float_of_lem :
    (s e f : ℕ)
    → e < 2 ^ 8
    → f < 2 ^ 10
    → float_of (s * 2 ^ 31) e f ≡ s * 2 ^ 31 + e * 2 ^ 23 + f * 2 ^ 13
float_of_lem s e f he hf =
    let upper : bit_or (s * 2 ^ 31) (e * 2 ^ 23) ≡ (s * 2 ^ 8 + e) * 2 ^ 23 =
      bit_or_fields 31 s (e * 2 ^ 23) (omega arith) ∙ omega arith in
    ap (λ t. bit_or t (f * 2 ^ 13)) upper
    ∙ bit_or_fields 23 (s * 2 ^ 8 + e) (f * 2 ^ 13) (omega arith)
    ∙ omega arith

half_of_lem :
    (s e f : ℕ)
    → e < 2 ^ 5
    → f < 2 ^ 10
    → bit_or (bit_or (s * 2 ^ 15) (e * 2 ^ 10)) f ≡ s * 2 ^ 15 + e * 2 ^ 10 + f
half_of_lem s e f he hf =
    let upper : bit_or (s * 2 ^ 15) (e * 2 ^ 10) ≡ (s * 2 ^ 5 + e) * 2 ^ 10 =
      bit_or_fields 15 s (e * 2 ^ 10) (omega arith) ∙ omega arith in
    ap (λ t. bit_or t f) upper ∙ bit_or_fields 10 (s * 2 ^ 5 + e) f hf ∙ omega arith

-- The float with the same sign, fraction and power of two.
fp16_to_float_normal :
    (h : ℕ)
    → IsNormalHalf h
    → fp16_to_float h ≡ h / 2 ^ 15 * 2 ^ 31 + (h / 2 ^ 10 % 32 + 112) * 2 ^ 23 + h % 1024 * 2 ^ 13
unfolding fp16_to_float
fp16_to_float_normal h n =
    let not_zero : (h / 2 ^ 10 % 32 == 0) ≡ false = ground (arith, n.1) in
    let not_top : (h / 2 ^ 10 % 32 == 31) ≡ false = ground (arith, n.2) in
    rw (not_zero, fp16_to_float, not_top)
      (float_of_lem (h / 2 ^ 15) (h / 2 ^ 10 % 32 + 112) (h % 1024) (omega (arith, n.2))
        (omega arith))

half_of_float :
    (f s e r : ℕ)
    → f / 2 ^ 31 ≡ s
    → f / 2 ^ 23 % 256 ≡ e + 112
    → f / 2 ^ 13 % 1024 ≡ r
    → 0 < e
    → e < 31
    → float_to_fp16 f ≡ s * 2 ^ 15 + e * 2 ^ 10 + r
unfolding float_to_fp16
half_of_float f s e r hs he hr low high =
    let exp : (f / 2 ^ 23 % 256 + 2 ^ 32 - 127 + 15) % 2 ^ 32 ≡ e = omega arith in
    let not_zero : (e == 0) ≡ false = ground arith in
    let not_top : leb 31 e ≡ false = ground arith in
    rw (exp, float_to_fp16, hs, hr, not_zero, not_top)
      (half_of_lem s e r (omega arith) (omega arith))

-- A normal 16-bit float comes back from the float that it stands for.
pub float_to_fp16-fp16_to_float : (h : ℕ) → IsNormalHalf h → float_to_fp16 (fp16_to_float h) ≡ h
float_to_fp16-fp16_to_float h n =
    let s : ℕ = h / 2 ^ 15 in
    let e : ℕ = h / 2 ^ 10 % 32 in
    let r : ℕ = h % 1024 in
    let float : ℕ = s * 2 ^ 31 + (e + 112) * 2 ^ 23 + r * 2 ^ 13 in
    ap float_to_fp16 (fp16_to_float_normal h n)
    ∙ half_of_float float s e r (omega (arith, n)) (omega (arith, n)) (omega arith) n.1 n.2
    ∙ omega (arith, n)

-- A float below 2 ^ -15 in magnitude, 0 included, becomes the infinity of its sign.
pub float_to_fp16_small :
    (f : ℕ) → f < 2 ^ 32 → f / 2 ^ 23 % 256 < 112 → float_to_fp16 f ≡ f / 2 ^ 31 * 2 ^ 15 + 0x7c00
unfolding float_to_fp16
float_to_fp16_small f h small =
    let exp : 31 ≤ (f / 2 ^ 23 % 256 + 2 ^ 32 - 127 + 15) % 2 ^ 32 = omega arith in
    let not_zero : ((f / 2 ^ 23 % 256 + 2 ^ 32 - 127 + 15) % 2 ^ 32 == 0) ≡ false = ground arith in
    let top : leb 31 ((f / 2 ^ 23 % 256 + 2 ^ 32 - 127 + 15) % 2 ^ 32) ≡ true = ground arith in
    rw (not_zero, float_to_fp16, top) (bit_or_fields 15 (f / 2 ^ 31) 0x7c00 (omega arith))
