-- ===== src/Filter/Numeric/Stored.antt =====
-- A bucket of the numeric index written to a row and read back.
use endee.Prelude.{
  ℕ, zero, suc, ◌+◌, ◌%◌, ◌^◌, ◌≤◌, ◌<◌, ◌≡◌, refl, ap, ap₂, ◌∙◌, false, List, [], ◌∷◌, ◌++◌, map,
  arith, ◌==◌, is_empty, length, take, All, All-map,
}
use endee.Roaring.{Roaring}
use endee.Filter.Bucket.{max_delta, serialize, deserialize, ok, Bucket}
use endee.Filter.Bucket.Lookup.{value_of}
use endee.Filter.Bucket.Bytes.{deserialize-serialize}
use endee.Filter.Numeric.Field.{IsStored}

pub map-append {ℓ κ} :
    {A : Type ℓ} {B : Type κ} (f : A → B) (xs ys : List A) → map f (xs ++ ys) ≡ map f xs ++ map f ys
map-append f [] ys = refl
map-append f (x ∷ xs) ys = ap (◌∷◌ (f x)) (map-append f xs ys)

pub take_all {ℓ} : {A : Type ℓ} (n : ℕ) (xs : List A) → length xs ≤ n → take n xs ≡ xs
take_all zero [] h = refl
take_all zero (x ∷ xs) h = absurd (omega arith)
take_all (suc n) [] h = refl
take_all (suc n) (x ∷ xs) h = ap (◌∷◌ x) (take_all n xs (omega arith))

module _ (R : Roaring) where
  -- A bucket as it is read back: not dirty.
  abbrev pub clean : Bucket R → Bucket R
  clean b = record b { is_dirty = false }

  pub clean-IsStored : (n : ℕ) (b : Bucket R) → IsStored R n b → IsStored R n (clean b)
  clean-IsStored n b s = record {
    valid = record {
      same_length = s.valid.same_length;
      sorted = s.valid.sorted;
      fits = s.valid.fits;
      distinct = s.valid.distinct;
      summary = s.valid.summary;
    };
    few = s.few;
    few_bits = s.few_bits;
    small_ids = s.small_ids;
    small_base = s.small_base;
  }

  pub value_of-clean : (b : Bucket R) (id : ℕ) → value_of R (clean b) id ≡ value_of R b id
  unfolding value_of
  value_of-clean b id = refl

  pub deserialize_stored :
      (n : ℕ) (b : Bucket R)
      → n < 2 ^ 16
      → IsStored R n b
      → deserialize R (serialize R b) b.base_value ≡ ok (clean b)
  deserialize_stored n b hn s =
      let count : length b.ids % 65536 ≡ length b.ids = omega (arith, s.few) in
      let near : All (λ d. d < 2 ^ 16) b.deltas =
        All-map (λ d. (d ≤ max_delta) × (b.base_value + d < 2 ^ 32)) (λ d. d < 2 ^ 16)
          (λ d h. omega (arith, h.0)) b.deltas s.valid.fits in
      let filled : 0 < length (R.write b.summary_bitmap) =
        nonempty (R.write b.summary_bitmap) (R.write-nonempty b.summary_bitmap) in
      let whole =
        deserialize-serialize R b b.base_value s.valid.same_length near s.small_ids filled
          (R.write_short b.summary_bitmap (omega (arith, s.few_bits))) in
      let ds : take (length b.ids % 65536) b.deltas ≡ b.deltas =
        take_all (length b.ids % 65536) b.deltas (omega (arith, s.valid.same_length)) in
      let is : take (length b.ids % 65536) b.ids ≡ b.ids =
        take_all (length b.ids % 65536) b.ids (omega arith) in
      whole ∙ ap₂ (λ x y. ok (record b { deltas = x; ids = y; is_dirty = false })) ds is
    where
      nonempty : (xs : List ℕ) → is_empty xs ≡ false → 0 < length xs
      nonempty [] h = absurd (cc)
      nonempty (x ∷ xs) h = omega arith

  pub serialize_long : (b : Bucket R) → (length (serialize R b) == 0) ≡ false
  unfolding serialize
  serialize_long b = ground arith
