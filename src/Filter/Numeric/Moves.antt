-- ===== src/Filter/Numeric/Moves.antt =====
-- The entries that a split moves to the right half, and the bitmap that it builds for the left.
use endee.Prelude.{
  ℕ, suc, ◌+◌, ◌^◌, ◌≤◌, ◌<◌, ◌≡◌, refl, sym, subst, ◌∙◌, inl, inr, Bool, true, false, ◌||◌, Option,
  none, some, List, [], ◌∷◌, arith, ◌==◌, if◌then◌else◌, ==_iff, Bool-cases, any_eq, Distinct,
  length, All, u32,
}
use endee.Roaring.{Roaring}
use endee.Filter.Bucket.{max_delta, add, ok, Bucket}
use endee.Filter.Bucket.Lookup.{find_delta, find_delta-none, value_of}
use endee.Filter.Numeric.{of_result, move_entries, rebuild_bitmap}
use endee.Filter.Numeric.Field.{IsStored}
use endee.Filter.Numeric.Adds.{add-IsStored}

abbrev pub moved : ℕ → Option ℕ → Option ℕ → Option ℕ
moved base none old = old
moved base (some d) old = some (base + d)

-- One entry moved: who is still to move, and what has been.
pub still_new :
    (old now : ℕ → Option ℕ) (i val : ℕ) (is : List ℕ)
    → ((j : ℕ) → now j ≡ (if i == j then some val else old j))
    → any_eq i is ≡ false
    → ((j : ℕ) → any_eq j (i ∷ is) ≡ true → old j ≡ none)
    → (j : ℕ) → any_eq j is ≡ true
    → now j ≡ none
still_new old now i val is values apart new j h = elim (Bool-cases (i == j)) [
  | inl same ↦
      let at : i ≡ j = (==_iff i j).0 same in
      absurd (both (any_eq i is) (subst (λ x. any_eq x is ≡ true) (sym at) h) apart)
  | inr other ↦ values j ∙ rw other (new j (rw (other, h) refl))
]
  where
    both : (c : Bool) → c ≡ true → c ≡ false → ⊥
    both true h k = cc
    both false h k = cc

pub moved_step :
    (old now : ℕ → Option ℕ) (base i d : ℕ) (is ds : List ℕ)
    → ((j : ℕ) → now j ≡ (if i == j then some (base + d) else old j))
    → any_eq i is ≡ false
    → (j : ℕ)
    → moved base (find_delta is ds j) (now j)
      ≡ moved base (if i == j then some d else find_delta is ds j) (old j)
moved_step old now base i d is ds values apart j = elim (Bool-cases (i == j)) [
  | inl same ↦
      let at : i ≡ j = (==_iff i j).0 same in
      let gone = find_delta-none is ds j (subst (λ x. any_eq x is ≡ false) at apart) in
      rw (values j, same, gone) refl
  | inr other ↦ rw (values j, other) refl
]

module _ (R : Roaring) where
  pub rebuild_bitmap-contains :
      (bm : R.Bitmap) (is : List ℕ) (j : ℕ)
      → R.contains (rebuild_bitmap R bm is) j ≡ (R.contains bm j || any_eq j is)
  unfolding rebuild_bitmap
  rebuild_bitmap-contains bm [] j = ground arith
  rebuild_bitmap-contains bm (i ∷ is) j =
      rebuild_bitmap-contains (R.add bm i) is j ∙ rw (R.contains-add bm i j) (ground arith)

  pub rebuild_bitmap-size :
      (bm : R.Bitmap) (is : List ℕ) → R.size (rebuild_bitmap R bm is) ≤ R.size bm + length is
  unfolding rebuild_bitmap
  rebuild_bitmap-size bm [] = omega arith
  rebuild_bitmap-size bm (i ∷ is) =
      omega (arith, rebuild_bitmap-size (R.add bm i) is, R.size-add bm i)

  pub move_entries_step :
      (base d i : ℕ) (ds is : List ℕ) (b b' : Bucket R)
      → u32 (base + d) ≡ base + d
      → add R b (base + d) i ≡ ok b'
      → move_entries R base b (d ∷ ds) (i ∷ is) ≡ move_entries R base b' ds is
  unfolding move_entries of_result
  move_entries_step base d i ds is b b' exact done = rw (exact, done, move_entries, of_result) refl

  -- The entries moved into a bucket.
  pub move_entries_lem :
      (n base lo : ℕ) (ds is : List ℕ) (b : Bucket R)
      → IsStored R n b
      → b.base_value ≡ lo
      → length ds ≡ length is
      → Distinct is
      → All (λ i. i < 2 ^ 32) is
      → All (λ d. (lo ≤ base + d) × ((base + d ≤ lo + max_delta) × (base + d < 2 ^ 32))) ds
      → ((j : ℕ) → any_eq j is ≡ true → value_of R b j ≡ none)
      → (b' : Bucket R) × ((move_entries R base b ds is ≡ some b')
          × (IsStored R (n + length is) b'
              × ((b'.base_value ≡ lo)
                  × ((j : ℕ)
                      → value_of R b' j ≡ moved base (find_delta is ds j) (value_of R b j)))))
  unfolding move_entries find_delta of_result
  move_entries_lem n base lo [] [] b s at e distinct small near new =
      (b, (refl, (subst (λ k. IsStored R k b) (omega arith) s, (at, λ j. refl))))
  move_entries_lem n base lo [] (i ∷ is) b s at e distinct small near new = absurd (omega arith)
  move_entries_lem n base lo (d ∷ ds) [] b s at e distinct small near new = absurd (omega arith)
  move_entries_lem n base lo (d ∷ ds) (i ∷ is) b s at e distinct small near new =
      let exact : u32 (base + d) ≡ base + d = omega (arith, near.0.1.1) in
      let (b', (done, (s', (same, values)))) =
        add-IsStored R n b (base + d) i s (new i (ground arith)) (omega (arith, near.0.0))
          (omega (arith, near.0.1.0)) near.0.1.1 small.0 in
      let still = still_new (value_of R b) (value_of R b') i (base + d) is values distinct.0 new in
      let (b'', (moved_all, (s'', (same', values')))) =
        move_entries_lem (suc n) base lo ds is b' s' (same ∙ at) (omega arith) distinct.1 small.1
          near.1 still in
      (
        b'',
        (
          move_entries_step base d i ds is b b' exact done ∙ moved_all,
          (
            subst (λ k. IsStored R k b'') (omega arith) s'',
            (
              same',
              λ j.
                  values' j
                  ∙ moved_step (value_of R b) (value_of R b') base i d is ds values distinct.0 j,
            ),
          ),
        ),
      )
