-- ===== src/Prelude/Bits.antt =====
-- `&`, `|` and `^` on words, as arithmetic at every width.
use Prim.Native.Nat.{
  ℕ, zero, suc, ◌+◌, ◌-◌, ◌*◌, ◌/◌, ◌%◌, ◌^◌, ◌≤◌, ◌<◌, min, max, bit_and, bit_or, bit_xor, digits,
  bitwise, differ, bit_and-bitwise, bit_or-bitwise, bit_xor-bitwise,
}
use mathlib.Core.Path.{◌≡◌, refl, ap, ◌∙◌}
use native.Mathlib.Omega.{arith}
use native.Mathlib.Nat.{
  pow-suc, one-le-pow, mod-lt, mod-eq_of_lt, mod-add-div', add-mul-mod_self_right,
}

-- The recursion that these operations mean runs on fuel; any fuel from `a` on gives one result.
module _ (z : ℕ → ℕ) (f : ℕ → ℕ → ℕ) where
  enough_fuel : (n k a b : ℕ) → a ≤ n → a ≤ k → digits z f n a b ≡ digits z f k a b
  enough_fuel zero zero zero b p q = refl
  enough_fuel zero (suc k) zero b p q = refl
  enough_fuel (suc n) zero zero b p q = refl
  enough_fuel (suc n) (suc k) zero b p q = refl
  enough_fuel zero k (suc a) b p q = absurd (omega arith)
  enough_fuel (suc n) zero (suc a) b p q = absurd (omega arith)
  enough_fuel (suc n) (suc k) (suc a) b p q =
      ap (λ t. t * 2 + f (suc a % 2) (b % 2))
        (enough_fuel n k (suc a / 2) (b / 2) (omega arith) (omega arith))

  lowest_digit :
      (a b : ℕ)
      → bitwise z f (suc a) b ≡ bitwise z f (suc a / 2) (b / 2) * 2 + f (suc a % 2) (b % 2)
  lowest_digit a b =
      ap (λ t. t * 2 + f (suc a % 2) (b % 2))
        (enough_fuel a (suc a / 2) (suc a / 2) (b / 2) (omega arith) (omega arith))

bit_and_digit : (a b : ℕ) → bit_and a b ≡ bit_and (a / 2) (b / 2) * 2 + min (a % 2) (b % 2)
bit_and_digit zero b = rw (bit_and-bitwise 0 b, bit_and-bitwise 0 (b / 2)) (omega arith)
bit_and_digit (suc a) b =
    rw (bit_and-bitwise (suc a) b, bit_and-bitwise (suc a / 2) (b / 2))
      (lowest_digit (λ t. 0) min a b)

bit_or_digit : (a b : ℕ) → bit_or a b ≡ bit_or (a / 2) (b / 2) * 2 + max (a % 2) (b % 2)
bit_or_digit zero b = rw (bit_or-bitwise 0 b, bit_or-bitwise 0 (b / 2)) (omega arith)
bit_or_digit (suc a) b =
    rw (bit_or-bitwise (suc a) b, bit_or-bitwise (suc a / 2) (b / 2))
      (lowest_digit (λ t. t) max a b)

differ_bits : (x y : ℕ) → x < 2 → y < 2 → differ x y ≡ (x + y) % 2
differ_bits zero y h k = omega arith
differ_bits (suc zero) zero h k = refl
differ_bits (suc zero) (suc y) h k = omega arith
differ_bits (suc (suc x)) y h k = absurd (omega arith)

bit_xor_digit : (a b : ℕ) → bit_xor a b ≡ bit_xor (a / 2) (b / 2) * 2 + (a % 2 + b % 2) % 2
bit_xor_digit zero b = rw (bit_xor-bitwise 0 b, bit_xor-bitwise 0 (b / 2)) (omega arith)
bit_xor_digit (suc a) b =
    rw
      (
        bit_xor-bitwise (suc a) b,
        bit_xor-bitwise (suc a / 2) (b / 2),
        ← differ_bits (suc a % 2) (b % 2) (omega arith) (omega arith),
      )
      (lowest_digit (λ t. t) differ a b)

-- Against zero, by the number of digits.
bit_and-zero : (n a : ℕ) → a ≤ n → bit_and a 0 ≡ 0
bit_and-zero n zero h = refl
bit_and-zero zero (suc a) h = absurd (omega arith)
bit_and-zero (suc n) (suc a) h =
    omega (arith, bit_and_digit (suc a) 0, bit_and-zero n (suc a / 2) (omega arith))

bit_or-zero : (n a : ℕ) → a ≤ n → bit_or a 0 ≡ a
bit_or-zero n zero h = refl
bit_or-zero zero (suc a) h = absurd (omega arith)
bit_or-zero (suc n) (suc a) h =
    omega (arith, bit_or_digit (suc a) 0, bit_or-zero n (suc a / 2) (omega arith))

bit_xor-zero : (n a : ℕ) → a ≤ n → bit_xor a 0 ≡ a
bit_xor-zero n zero h = refl
bit_xor-zero zero (suc a) h = absurd (omega arith)
bit_xor-zero (suc n) (suc a) h =
    omega (arith, bit_xor_digit (suc a) 0, bit_xor-zero n (suc a / 2) (omega arith))

half_ones : (k : ℕ) → (2 ^ suc k - 1) / 2 ≡ 2 ^ k - 1
half_ones k = omega (arith, pow-suc 2 k, one-le-pow k 2)

half_pow : (k : ℕ) → 2 ^ suc k / 2 ≡ 2 ^ k
half_pow k = omega (arith, pow-suc 2 k)

double_mod : (a p : ℕ) → 0 < p → a % (p * 2) ≡ a / 2 % p * 2 + a % 2
double_mod a p h =
    ap (λ t. t % (p * 2)) split
    ∙ add-mul-mod_self_right (a / 2 % p * 2 + a % 2) (a / 2 / p) (p * 2)
    ∙ mod-eq_of_lt (omega (arith, mod-lt (a / 2) h))
  where
    split : a ≡ a / 2 % p * 2 + a % 2 + a / 2 / p * (p * 2)
    split = omega (arith, mod-add-div' (a / 2) p)

-- A mask of `k` ones keeps the low `k` digits.
pub bit_and_mask : (k a : ℕ) → bit_and a (2 ^ k - 1) ≡ a % 2 ^ k
bit_and_mask zero a = omega (arith, bit_and-zero a a (omega arith))
bit_and_mask (suc k) a =
    rw (bit_and_digit a (2 ^ suc k - 1), half_ones k, bit_and_mask k (a / 2), pow-suc 2 k)
      (omega
        (arith, one-le-pow k 2 (omega arith), double_mod a (2 ^ k) (one-le-pow k 2 (omega arith))))

-- `^` with `k` ones is the distance to the highest word of `k` digits.
pub bit_xor_ones : (k a : ℕ) → a < 2 ^ k → bit_xor a (2 ^ k - 1) ≡ 2 ^ k - 1 - a
bit_xor_ones zero a h = omega (arith, bit_xor-zero a a (omega arith))
bit_xor_ones (suc k) a h =
    rw
      (
        bit_xor_digit a (2 ^ suc k - 1),
        half_ones k,
        bit_xor_ones k (a / 2) (omega (arith, pow-suc 2 k)),
      )
      (omega (arith, pow-suc 2 k, one-le-pow k 2))

-- `^` with the top digit adds it, modulo the word.
pub bit_xor_top : (k a : ℕ) → a < 2 ^ suc k → bit_xor a (2 ^ k) ≡ (a + 2 ^ k) % 2 ^ suc k
bit_xor_top zero a h = omega (arith, bit_xor_digit a 1, bit_xor-zero (a / 2) (a / 2) (omega arith))
bit_xor_top (suc k) a h =
    rw
      (
        bit_xor_digit a (2 ^ suc k),
        half_pow k,
        bit_xor_top k (a / 2) (omega (arith, pow-suc 2 (suc k))),
        pow-suc 2 (suc k),
        double_mod (a + 2 ^ suc k) (2 ^ suc k) (one-le-pow (suc k) 2 (omega arith)),
        half_sum,
      )
      (omega (arith, pow-suc 2 k))
  where
    half_sum : (a + 2 ^ suc k) / 2 ≡ a / 2 + 2 ^ k
    half_sum = omega (arith, pow-suc 2 k)

-- `|` of a word's high digits with its low ones.
pub bit_or_fields : (k q r : ℕ) → r < 2 ^ k → bit_or (q * 2 ^ k) r ≡ q * 2 ^ k + r
bit_or_fields zero q r h =
    let none_left : r ≡ 0 = omega arith in
    rw none_left (omega (arith, bit_or-zero (q * 1) (q * 1) (omega arith)))
bit_or_fields (suc k) q r h =
    rw
      (
        bit_or_digit (q * 2 ^ suc k) r,
        half_high,
        bit_or_fields k q (r / 2) (omega (arith, pow-suc 2 k)),
        pow-suc 2 k,
      )
      (omega arith)
  where
    half_high : q * 2 ^ suc k / 2 ≡ q * 2 ^ k
    half_high = rw (pow-suc 2 k) (omega arith)
