-- ===== src/Sparse/Vector.antt =====
-- src/sparse/sparse_vector.hpp: a sparse vector and its packed form. A `float` is its 32-bit pattern,
-- and a 16-bit float its 16-bit pattern.
pub mod Half
pub mod Packing
mod Tests
use endee.Prelude.{
  ℕ, zero, suc, ◌+◌, ◌-◌, ◌*◌, ◌/◌, ◌%◌, ◌^◌, ◌<◌, bit_or, ap, not, List, ◌++◌, map, ltb, leb, ◌==◌,
  if◌then◌else◌, length, take, drop, u16, u32, le_bytes, of_le_bytes,
}
use endee.Filter.Bucket.{write_words, read_words}

pub record SparseVector : Type 0 where
  pub indices : List ℕ
  pub values : List ℕ

-- `exp <= 0` on an unsigned number is `exp == 0`.
unfoldable pub float_to_fp16 : ℕ → ℕ
float_to_fp16 f =
    let sign = f / 2 ^ 31 * 2 ^ 15 in
    let exp = u32 (f / 2 ^ 23 % 256 + 2 ^ 32 - 127 + 15) in
    let frac = f / 2 ^ 13 % 1024 in
    if exp == 0
    then sign
    else if leb 31 exp
    then bit_or sign 0x7c00
    else bit_or (bit_or sign (exp * 2 ^ 10)) frac

-- The loop over a number that is not normal: ten rounds bring its top bit to its place.
unfoldable pub normalise : ℕ → ℕ → ℕ → ℕ × ℕ
normalise zero exp frac = (exp, frac)
normalise (suc fuel) exp frac =
    let rest = normalise fuel (exp - 1) (frac * 2) in
    if frac / 1024 % 2 == 0 then rest else (exp, frac)

abbrev pub float_of : ℕ → ℕ → ℕ → ℕ
float_of sign exp frac = bit_or (bit_or sign (exp * 2 ^ 23)) (frac * 2 ^ 13)

unfoldable pub fp16_to_float : ℕ → ℕ
fp16_to_float h =
    let sign = h / 2 ^ 15 * 2 ^ 31 in
    let exp = h / 2 ^ 10 % 32 in
    let frac = h % 1024 in
    if exp == 0
    then (let (exp', frac') = normalise 10 (127 - 15 + 1 - 10) frac in
        if frac == 0 then sign else float_of sign exp' (frac' % 1024))
    else if exp == 31
    then float_of sign 255 frac
    else float_of sign (exp + 112) frac

pub data PackError : Type 0 where
  insufficient_size size_mismatch length_mismatch : PackError

pub data Result (A : Type 0) : Type 0 where
  ok : A → Result A
  err : PackError → Result A

unfoldable pub pack : SparseVector → Result (List ℕ)
pack v =
    if not (length v.indices == length v.values)
    then err length_mismatch
    else let nr_nonzero = u16 (length v.indices) in
      ok (
        le_bytes 2 nr_nonzero
        ++ (write_words 4 (take nr_nonzero v.indices)
            ++ write_words 2 (map float_to_fp16 (take nr_nonzero v.values))))

-- The constructor from packed bytes.
unfoldable pub unpack : List ℕ → Result SparseVector
unpack packed =
    if ltb (length packed) 2
    then err insufficient_size
    else let nr_nonzero = of_le_bytes (take 2 packed) in
      let rest = drop 2 packed in
      if length packed == 2 + nr_nonzero * 6
      then ok (record {
        indices = read_words 4 nr_nonzero rest;
        values = map fp16_to_float (read_words 2 nr_nonzero (drop (nr_nonzero * 4) rest));
      })
      else err size_mismatch
