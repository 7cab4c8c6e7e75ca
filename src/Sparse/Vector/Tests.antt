-- ===== src/Sparse/Vector/Tests.antt =====
-- Sparse vectors at concrete inputs.
use endee.Prelude.{ℕ, ◌≡◌, refl, List, [], ◌∷◌, arith}
use endee.Sparse.Vector.{float_to_fp16, normalise, fp16_to_float, pack, unpack, ok}
use endee.Sparse.Vector.Half.{float_to_fp16_small}
use endee.Sparse.Vector.Packing.{of_halves, unpack-pack}

-- 0.0 becomes the positive infinity.
float_to_fp16_small_example : float_to_fp16 0 ≡ 0x7c00
float_to_fp16_small_example = float_to_fp16_small 0 (omega arith) (omega arith)

-- The 16-bit pattern of 2 ^ -15 is read as 2 ^ -25.
denormal : fp16_to_float 0x0200 ≡ 0x3300_0000
unfolding fp16_to_float normalise
denormal = refl

unpack-pack_example :
    (bytes : List ℕ) × (pack (of_halves (3 ∷ (70000 ∷ [])) (0x3800 ∷ (0xbc00 ∷ []))) ≡ ok bytes)
    × (unpack bytes ≡ ok (of_halves (3 ∷ (70000 ∷ [])) (0x3800 ∷ (0xbc00 ∷ []))))
unpack-pack_example =
    unpack-pack (3 ∷ (70000 ∷ [])) (0x3800 ∷ (0xbc00 ∷ [])) refl (omega arith) (omega arith)
      ((omega arith, omega arith, omega arith), ((omega arith, omega arith, omega arith), tt))
