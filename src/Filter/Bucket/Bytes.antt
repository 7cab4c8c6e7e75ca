-- ===== src/Filter/Bucket/Bytes.antt =====
-- A bucket written to the database and read back.
use mathlib.Core.List.{append_assoc, append-nil}
use native.Mathlib.Nat.{mod-eq_of_lt, mod-le}
use endee.Prelude.{
  ℕ, zero, suc, ◌*◌, ◌%◌, ◌^◌, ◌<◌, ◌≡◌, refl, sym, subst, ◌∙◌, false, List, [], ◌∷◌, ◌++◌, arith,
  length, take, drop, All, length-append, length-take, take-append, drop-append, u16, u32, le_bytes,
  length-le_bytes, of_le_bytes-le_bytes,
}
use endee.Roaring.{Roaring}
use endee.Filter.Bucket.{
  write_words, read_words, serialize, deserialize_entries, deserialize, ok, Bucket,
}

pub length-write_words : (w : ℕ) (xs : List ℕ) → length (write_words w xs) ≡ w * length xs
unfolding write_words
length-write_words w [] = omega arith
length-write_words w (x ∷ xs) = omega (
  arith,
  length-append (le_bytes w x) (write_words w xs),
  length-le_bytes w x,
  length-write_words w xs,
)

take-le_bytes : (w x : ℕ) (rest : List ℕ) → take w (le_bytes w x ++ rest) ≡ le_bytes w x
take-le_bytes w x rest =
    subst (λ n. take n (le_bytes w x ++ rest) ≡ le_bytes w x) (length-le_bytes w x)
      (take-append (le_bytes w x) rest)

drop-le_bytes : (w x : ℕ) (rest : List ℕ) → drop w (le_bytes w x ++ rest) ≡ rest
drop-le_bytes w x rest =
    subst (λ n. drop n (le_bytes w x ++ rest) ≡ rest) (length-le_bytes w x)
      (drop-append (le_bytes w x) rest)

pub read_words-write_words :
    (w : ℕ) (xs rest : List ℕ)
    → All (λ x. x < 256 ^ w) xs
    → read_words w (length xs) (write_words w xs ++ rest) ≡ xs
unfolding read_words write_words
read_words-write_words w [] rest h = refl
read_words-write_words w (x ∷ xs) rest h =
    rw (append_assoc (le_bytes w x) (write_words w xs) rest) (
      rw (
        take-le_bytes w x (write_words w xs ++ rest),
        drop-le_bytes w x (write_words w xs ++ rest),
        of_le_bytes-le_bytes w x h.0,
        read_words-write_words w xs rest h.1,
      ))

pub All-take {ℓ κ} :
    {A : Type ℓ} (P : A → Type κ) (n : ℕ) (xs : List A) → All P xs → All P (take n xs)
All-take P zero xs h = tt
All-take P (suc n) [] h = tt
All-take P (suc n) (x ∷ xs) h = (h.0, All-take P n xs h.1)

pub drop_words :
    (w n : ℕ) (xs rest : List ℕ) → n ≡ w * length xs → drop n (write_words w xs ++ rest) ≡ rest
drop_words w n xs rest e =
    rw (e ∙ sym (length-write_words w xs)) (drop-append (write_words w xs) rest)

pub read_words_exact :
    (w n : ℕ) (xs : List ℕ)
    → n ≡ length xs
    → All (λ x. x < 256 ^ w) xs
    → read_words w n (write_words w xs) ≡ xs
read_words_exact w n xs e h = rw e (
    subst (λ ys. read_words w (length xs) ys ≡ xs) (append-nil (write_words w xs))
      (read_words-write_words w xs [] h))

pub read_first_words :
    (w n : ℕ) (xs rest : List ℕ)
    → n ≡ length xs
    → All (λ x. x < 256 ^ w) xs
    → read_words w n (write_words w xs ++ rest) ≡ xs
read_first_words w n xs rest e h = rw e (read_words-write_words w xs rest h)

module _ (R : Roaring) where
  abbrev entries_of : ℕ → R.Bitmap → List ℕ → List ℕ → Bucket R
  entries_of base bitmap deltas ids = record {
    base_value = base;
    deltas = deltas;
    ids = ids;
    summary_bitmap = bitmap;
    is_dirty = false;
  }

  deserialize_entries_lem :
      (base : ℕ) (bitmap : R.Bitmap) (count : ℕ) (deltas ids : List ℕ)
      → count < 2 ^ 16
      → count ≡ length deltas
      → count ≡ length ids
      → All (λ d. d < 256 ^ 2) deltas
      → All (λ i. i < 256 ^ 4) ids
      → deserialize_entries R
          (entries_of base bitmap [] [])
          (le_bytes 2 count ++ (write_words 2 deltas ++ write_words 4 ids))
        ≡ ok (entries_of base bitmap deltas ids)
  unfolding deserialize_entries write_words
  deserialize_entries_lem base bitmap zero [] [] small ed ei hd hi = ground arith
  deserialize_entries_lem base bitmap zero [] (i ∷ ids) small ed ei hd hi = absurd (omega arith)
  deserialize_entries_lem base bitmap zero (d ∷ deltas) ids small ed ei hd hi = absurd (omega arith)
  deserialize_entries_lem base bitmap (suc n) deltas ids small ed ei hd hi = ground (
    arith,
    of_le_bytes-le_bytes 2 (suc n) small,
    length-append (write_words 2 deltas) (write_words 4 ids),
    length-write_words 2 deltas,
    length-write_words 4 ids,
    drop_words 2 (suc n * 2) deltas (write_words 4 ids),
    read_words_exact 4 (suc n) ids ei hi,
    read_first_words 2 (suc n) deltas (write_words 4 ids) ed hd,
    ed,
  )

  -- Reading back what was written gives the bucket, as not dirty; but of its entries only as many
  -- as the 16-bit count says, the number of entries modulo 65536.
  pub deserialize-serialize :
      (b : Bucket R) (base : ℕ)
      → length b.deltas ≡ length b.ids
      → All (λ d. d < 2 ^ 16) b.deltas
      → All (λ i. i < 2 ^ 32) b.ids
      → 0 < length (R.write b.summary_bitmap)
      → length (R.write b.summary_bitmap) < 2 ^ 32
      → deserialize R (serialize R b) base
        ≡ ok (record {
          base_value = base;
          deltas = take (length b.ids % 65536) b.deltas;
          ids = take (length b.ids % 65536) b.ids;
          summary_bitmap = b.summary_bitmap;
          is_dirty = false;
        })
  unfolding deserialize serialize
  deserialize-serialize b base same hd hi some_bytes few_bytes =
      let bitmap = R.write b.summary_bitmap in
      let count = u16 (length b.ids) in
      let tail =
        le_bytes 2 count
        ++ (write_words 2 (take count b.deltas) ++ write_words 4 (take count b.ids)) in
      let whole : u32 (length bitmap) ≡ length bitmap = mod-eq_of_lt few_bytes in
      ground (
        arith,
        whole,
        of_le_bytes-le_bytes 4 (u32 (length bitmap)) (omega arith),
        length-append bitmap tail,
        R.read-write b.summary_bitmap tail,
        drop-append bitmap tail,
        deserialize_entries_lem base b.summary_bitmap count (take count b.deltas) (take count b.ids)
            (omega arith)
            (omega (arith, length-take {0} count b.deltas, mod-le (length b.ids) (2 ^ 16)))
            (omega (arith, length-take {0} count b.ids, mod-le (length b.ids) (2 ^ 16)))
            (All-take (λ d. d < 2 ^ 16) count b.deltas hd)
            (All-take (λ i. i < 2 ^ 32) count b.ids hi),
      )
