-- ===== src/Sparse/Vector/Packing.antt =====
-- A sparse vector packed and read back.
use endee.Prelude.{
  ℕ, zero, suc, ◌*◌, ◌%◌, ◌^◌, ◌<◌, ◌≡◌, refl, sym, ap, ap₂, ◌∙◌, true, List, [], ◌∷◌, ◌++◌, map,
  arith, ◌==◌, ==_iff, length, take, All, length-append, length-map, le_bytes, of_le_bytes-le_bytes,
}
use endee.Filter.Bucket.Bytes.{length-write_words, drop_words, read_words_exact, read_first_words}
use endee.Sparse.Vector.{float_to_fp16, fp16_to_float, pack, unpack, SparseVector, ok}
use endee.Filter.Bucket.{write_words}
use endee.Sparse.Vector.Half.{IsNormalHalf, float_to_fp16-fp16_to_float}

abbrev pub of_halves : List ℕ → List ℕ → SparseVector
of_halves indices halves = record { indices = indices; values = map fp16_to_float halves }

abbrev packed : List ℕ → List ℕ → List ℕ
packed indices halves =
    le_bytes 2 (length indices) ++ (write_words 4 indices ++ write_words 2 halves)

take_whole : (n : ℕ) (xs : List ℕ) → n ≡ length xs → take n xs ≡ xs
take_whole zero [] e = refl
take_whole (suc n) [] e = refl
take_whole zero (x ∷ xs) e = absurd (omega arith)
take_whole (suc n) (x ∷ xs) e = ap (λ l. x ∷ l) (take_whole n xs (omega arith))

map-halves :
    (halves : List ℕ)
    → All IsNormalHalf halves
    → map float_to_fp16 (map fp16_to_float halves) ≡ halves
map-halves [] h = refl
map-halves (x ∷ xs) h = ap₂ ◌∷◌ (float_to_fp16-fp16_to_float x h.0) (map-halves xs h.1)

All-IsNormalHalf : (halves : List ℕ) → All IsNormalHalf halves → All (λ x. x < 256 ^ 2) halves
All-IsNormalHalf [] h = tt
All-IsNormalHalf (x ∷ xs) h = (omega (arith, h.0), All-IsNormalHalf xs h.1)

pack_lem :
    (indices halves : List ℕ)
    → length indices ≡ length halves
    → length indices < 2 ^ 16
    → All IsNormalHalf halves
    → pack (of_halves indices halves) ≡ ok (packed indices halves)
unfolding pack
pack_lem indices halves same small normal =
    let values : List ℕ = map fp16_to_float halves in
    let count : length indices ≡ length values = same ∙ sym (length-map fp16_to_float halves) in
    let equal : (length indices == length values) ≡ true =
      (==_iff (length indices) (length values)).1 count in
    let cast : length indices % 2 ^ 16 ≡ length indices = omega arith in
    rw
      (
        equal,
        cast,
        take_whole (length indices) indices refl,
        take_whole (length indices) values count,
        map-halves halves normal,
      )
      refl

unpack_lem :
    (indices halves : List ℕ)
    → length indices ≡ length halves
    → length indices < 2 ^ 16
    → All (λ i. i < 2 ^ 32) indices
    → All (λ h. h < 2 ^ 16) halves
    → unpack (packed indices halves) ≡ ok (of_halves indices halves)
unfolding unpack
unpack_lem indices halves same small fit fit' =
    let n : ℕ = length indices in
    ground (
      arith,
      of_le_bytes-le_bytes 2 n small,
      length-append (write_words 4 indices) (write_words 2 halves),
      length-write_words 4 indices,
      length-write_words 2 halves,
      drop_words 4 (n * 4) indices (write_words 2 halves),
      read_words_exact 2 n halves same fit',
      read_first_words 4 n indices (write_words 2 halves) refl fit,
    )

-- A vector of up to 65535 terms whose values are normal 16-bit floats is the one that is read back
-- from its packed bytes.
pub unpack-pack :
    (indices halves : List ℕ)
    → length indices ≡ length halves
    → length indices < 2 ^ 16
    → All (λ i. i < 2 ^ 32) indices
    → All IsNormalHalf halves
    → (bytes : List ℕ) × (pack (of_halves indices halves) ≡ ok bytes)
      × (unpack bytes ≡ ok (of_halves indices halves))
unpack-pack indices halves same small fit normal = (
  packed indices halves,
  pack_lem indices halves same small normal,
  unpack_lem indices halves same small fit (All-IsNormalHalf halves normal),
)
