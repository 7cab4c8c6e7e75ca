-- ===== src/Filter/Sortable/Floats.antt =====
-- Keys of floats.
use native.Mathlib.Nat.{pow-suc, mul-le-mul_right, one-le-pow, le_trans, le_refl}
use endee.Prelude.{
  ℕ, zero, suc, ◌+◌, ◌-◌, ◌*◌, ◌/◌, ◌%◌, ◌^◌, ◌≤◌, ◌<◌, ◌≡◌, refl, ap, subst, ◌≢◌, ◌↔◌, ◌⊎◌, inl,
  inr, false, arith, dec_lt, ltb, ◌==◌, if◌then◌else◌, ltb→lt, lt→ltb, ltb→le, le→ltb, ==_iff,
  Bool-cases,
}
use endee.Prelude.Bits.{bit_xor_ones, bit_xor_top}
use endee.Prelude.Int.{neg_ℕ, ◌≤ℤ◌, parts-neg_ℕ, ℤ, pos}
use endee.Filter.Sortable.{float_to_sortable, sortable_to_float}

pub float_to_sortable_pos : (i : ℕ) → i < 2 ^ 31 → float_to_sortable i ≡ i + 2 ^ 31
unfolding float_to_sortable
float_to_sortable_pos i h =
    rw (lt→ltb i (2 ^ 31) h) (rw (bit_xor_top 31 i (omega arith)) (omega arith))

pub float_to_sortable_neg : (i : ℕ) → 2 ^ 31 ≤ i → i < 2 ^ 32 → float_to_sortable i ≡ 2 ^ 32 - 1 - i
unfolding float_to_sortable
float_to_sortable_neg i h k = rw (le→ltb i (2 ^ 31) h) (bit_xor_ones 32 i k)

pub sortable_to_float_high : (i : ℕ) → 2 ^ 31 ≤ i → i < 2 ^ 32 → sortable_to_float i ≡ i - 2 ^ 31
unfolding sortable_to_float
sortable_to_float_high i h k =
    let one : i / 2 ^ 31 ≡ 1 = omega arith in rw one (rw (bit_xor_top 31 i k) (omega arith))

pub sortable_to_float_low : (i : ℕ) → i < 2 ^ 31 → sortable_to_float i ≡ 2 ^ 32 - 1 - i
unfolding sortable_to_float
sortable_to_float_low i h =
    let none_left : i / 2 ^ 31 ≡ 0 = omega arith in rw none_left (bit_xor_ones 32 i (omega arith))

-- Decoding undoes encoding, on every 32-bit pattern, NaNs included.
pub sortable_to_float-float_to_sortable :
    (i : ℕ) → i < 2 ^ 32 → sortable_to_float (float_to_sortable i) ≡ i
sortable_to_float-float_to_sortable i h = elim (Bool-cases (ltb i (2 ^ 31))) [
  | inl low ↦
      let lt = ltb→lt _ _ low in
      rw
        (
          float_to_sortable_pos i lt,
          sortable_to_float_high (i + 2 ^ 31) (omega arith) (omega arith),
        )
        (omega arith)
  | inr high ↦
      let le = ltb→le _ _ high in
      rw (float_to_sortable_neg i le h, sortable_to_float_low (2 ^ 32 - 1 - i) (omega arith))
        (omega arith)
]

-- The magnitude that IEEE 754 gives a pattern below the infinities, times 2 ^ 150: an exponent
-- field of 0 is a subnormal number, any other adds the hidden bit.
abbrev pub scaled : ℕ → ℕ → ℕ
scaled zero f = f * 2
scaled (suc e) f = (2 ^ 23 + f) * 2 ^ suc e

unfoldable pub magnitude : ℕ → ℕ
magnitude m = scaled (m / 2 ^ 23) (m % 2 ^ 23)

abbrev pub float_value : ℕ → ℤ
float_value i = if ltb i (2 ^ 31) then pos (magnitude i) else neg_ℕ (magnitude (i - 2 ^ 31))

abbrev pub IsFinite : ℕ → Type 0
IsFinite i = (i < 2 ^ 32) × (i % 2 ^ 31 < 255 * 2 ^ 23)

scaled_same : (e f g : ℕ) → f < g → scaled e f < scaled e g
scaled_same zero f g h = omega arith
scaled_same (suc e) f g h =
    omega (arith, one-le-pow (suc e) 2 (omega arith), mul-le-mul_right (2 ^ suc e) h)

scaled_step : (e f g : ℕ) → f < 2 ^ 23 → scaled e f < scaled (suc e) g
scaled_step zero f g h = omega arith
scaled_step (suc e) f g h = omega (
  arith,
  pow-suc 2 (suc e),
  one-le-pow (suc e) 2 (omega arith),
  mul-le-mul_right (2 ^ suc e) h,
  ap (λ t. g * t) (pow-suc 2 (suc e)),
)

scaled_steps : (k e f g : ℕ) → f < 2 ^ 23 → scaled e f < scaled (suc (k + e)) g
scaled_steps zero e f g h = let same : zero + e ≡ e = omega arith in rw same (scaled_step e f g h)
scaled_steps (suc k) e f g h =
    let next : suc k + e ≡ suc (k + e) = omega arith in
    rw next
      (le_trans (scaled_steps k e f 0 h) (lt→le (scaled_step (suc (k + e)) 0 g (omega arith))))
  where
    lt→le : {a b : ℕ} → a < b → a ≤ b
    lt→le h = omega arith

magnitude_mono : (m n : ℕ) → m < n → magnitude m < magnitude n
unfolding magnitude
magnitude_mono m n h = elim (Bool-cases (m / 2 ^ 23 == n / 2 ^ 23)) [
  | inl same ↦
      let e = (==_iff (m / 2 ^ 23) (n / 2 ^ 23)).0 same in
      subst (λ t. scaled (m / 2 ^ 23) (m % 2 ^ 23) < scaled t (n % 2 ^ 23)) e
        (scaled_same (m / 2 ^ 23) (m % 2 ^ 23) (n % 2 ^ 23) (omega arith))
  | inr below ↦
      let gap : suc (n / 2 ^ 23 - suc (m / 2 ^ 23) + m / 2 ^ 23) ≡ n / 2 ^ 23 =
        omega (arith, apart (m / 2 ^ 23) (n / 2 ^ 23) below) in
      subst (λ t. scaled (m / 2 ^ 23) (m % 2 ^ 23) < scaled t (n % 2 ^ 23)) gap
        (scaled_steps (n / 2 ^ 23 - suc (m / 2 ^ 23)) (m / 2 ^ 23) (m % 2 ^ 23) (n % 2 ^ 23)
          (omega arith))
]
  where
    apart : (a b : ℕ) → (a == b) ≡ false → a ≢ b
    apart a b e = ground arith

magnitude_order : (m n : ℕ) → (magnitude m ≤ magnitude n) ↔ (m ≤ n)
magnitude_order m n = (
  λ h. elim (dec_lt n m) [
    | yes over ↦ absurd (omega (arith, magnitude_mono n m over))
    | no under ↦ omega arith
  ],
  λ h. elim (dec_lt m n) [
    | yes below ↦ omega (arith, magnitude_mono m n below)
    | no above ↦ let same : m ≡ n = omega arith in rw same (le_refl (magnitude n))
  ],
)

magnitude-zero : magnitude 0 ≡ 0
unfolding magnitude
magnitude-zero = refl

-- The keys of finite floats are ordered as the floats are, but that the key of -0 is below the
-- key of +0; and each key fits 32 bits.
pub float_to_sortable_order :
    (i j : ℕ)
    → IsFinite i
    → IsFinite j
    → (i % 2 ^ 31 ≢ 0) ⊎ (j % 2 ^ 31 ≢ 0)
    → (float_to_sortable i < 2 ^ 32)
      × ((float_value i ≤ℤ float_value j) ↔ (float_to_sortable i ≤ float_to_sortable j))
float_to_sortable_order i j hi hj nonzero = elim (Bool-cases (ltb i (2 ^ 31))) [
  | inl i_pos ↦
      let a = ltb→lt _ _ i_pos in
      elim (Bool-cases (ltb j (2 ^ 31))) [
        | inl j_pos ↦
            let b = ltb→lt _ _ j_pos in
            rw (i_pos, j_pos, float_to_sortable_pos i a, float_to_sortable_pos j b)
              (ground (arith, magnitude_order i j))
        | inr j_neg ↦
            let b = ltb→le _ _ j_neg in
            rw (i_pos, j_neg, float_to_sortable_pos i a, float_to_sortable_neg j b hj.0)
              (ground (
                arith,
                parts-neg_ℕ (magnitude (j - 2 ^ 31)),
                magnitude_order i 0,
                magnitude_order (j - 2 ^ 31) 0,
                magnitude-zero,
              ))
      ]
  | inr i_neg ↦
      let a = ltb→le _ _ i_neg in
      elim (Bool-cases (ltb j (2 ^ 31))) [
        | inl j_pos ↦
            let b = ltb→lt _ _ j_pos in
            rw (i_neg, j_pos, float_to_sortable_neg i a hi.0, float_to_sortable_pos j b)
              (ground (arith, parts-neg_ℕ (magnitude (i - 2 ^ 31))))
        | inr j_neg ↦
            let b = ltb→le _ _ j_neg in
            rw (i_neg, j_neg, float_to_sortable_neg i a hi.0, float_to_sortable_neg j b hj.0)
              (ground (
                arith,
                parts-neg_ℕ (magnitude (i - 2 ^ 31)),
                parts-neg_ℕ (magnitude (j - 2 ^ 31)),
                magnitude_order (j - 2 ^ 31) (i - 2 ^ 31),
              ))
      ]
]
