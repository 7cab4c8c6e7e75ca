-- ===== src/Filter/Numeric/Contents.antt =====
-- What the changes of the buckets do to what a field has: `remove_from_buckets` takes one identifier
-- out and `add_to_buckets` adds one, and the buckets stay in order.
use endee.Prelude.{
  ℕ, ◌+◌, ◌≤◌, ◌<◌, ◌≡◌, refl, sym, ap, ◌∙◌, inl, inr, false, ◌||◌, none, some, some-injective,
  List, [], ◌∷◌, ◌++◌, arith, Option-cases, All,
}
use endee.Roaring.{Roaring}
use endee.Filter.Bucket.{Bucket}
use endee.Filter.Bucket.Lookup.{find_delta, value_of}
use endee.Filter.Numeric.Field.{All-at, has, IsField, has-append, Precedes}

module _ (R : Roaring) where
  -- No bucket has the identifier.
  abbrev pub Absent : ℕ → List (Bucket R) → Type 0
  Absent id bs = All (λ b. value_of R b id ≡ none) bs

  pub has-Absent :
      (bs : List (Bucket R)) (id : ℕ) → ((v : ℕ) → has R bs id v ≡ false) → Absent id bs
  has-Absent [] id h = tt
  has-Absent (b ∷ bs) id h = (
    elim (Option-cases (value_of R b id)) [ inl e ↦ e | inr (v, e) ↦ absurd (here v e (h v)) ],
    has-Absent bs id (λ v. ground (arith, h v)),
  )
    where
      here : (v : ℕ) → value_of R b id ≡ some v → has R (b ∷ bs) id v ≡ false → ⊥
      here v e h = absurd (ground (arith, e, h))

  -- An identifier's only number is in the bucket at its place.
  pub has_below :
      (n : ℕ) (pre : List (Bucket R)) (b : Bucket R) (post : List (Bucket R)) (id v : ℕ)
      → IsField R n (pre ++ (b ∷ post))
      → b.base_value ≤ v
      → has R pre id v ≡ false
  has_below n [] b post id v f low = refl
  has_below n (a ∷ pre) b post id v f low =
      rw (has_below n pre b post id v f.1.1 low) (elim (Option-cases (value_of R a id)) [
        | inl e ↦ rw e refl
        | inr (w, e) ↦ rw e (ground (arith, (All-at (Precedes R a) pre b post f.1.0).values id w e))
      ])

  pub value_reached : (b : Bucket R) (id v : ℕ) → value_of R b id ≡ some v → b.base_value ≤ v
  unfolding value_of
  value_reached b id v e = elim (Option-cases (find_delta b.ids b.deltas id)) [
    | inl none_there ↦ absurd (cc)
    | inr (d, found) ↦
        omega (arith, some-injective (b.base_value + d) v (sym (rw (found, value_of) refl) ∙ e))
  ]

  pub has_above :
      (bs : List (Bucket R)) (id v : ℕ) → All (λ c. v < c.base_value) bs → has R bs id v ≡ false
  has_above [] id v h = refl
  has_above (c ∷ cs) id v h = rw (has_above cs id v h.1) (elim (Option-cases (value_of R c id)) [
    | inl e ↦ rw e refl
    | inr (w, e) ↦ rw e (ground (arith, value_reached c id w e, h.0))
  ])

  pub has-replace :
      (pre cs post : List (Bucket R)) (j w : ℕ)
      → has R (pre ++ (cs ++ post)) j w ≡ (has R pre j w || (has R cs j w || has R post j w))
  has-replace pre cs post j w =
      has-append R pre (cs ++ post) j w ∙ ap (λ x. has R pre j w || x) (has-append R cs post j w)

  -- A bucket that has only numbers of another, from the same start, stands where that one stood.
  pub Precedes-part :
      (b b' c : Bucket R)
      → b'.base_value ≡ b.base_value
      → ((j v : ℕ) → value_of R b' j ≡ some v → v < c.base_value)
      → Precedes R b c
      → Precedes R b' c
  Precedes-part b b' c at values p = record { bases = omega (arith, p.bases); values = values }
