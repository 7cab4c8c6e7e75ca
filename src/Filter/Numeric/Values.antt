-- ===== src/Filter/Numeric/Values.antt =====
-- Buckets that have the numbers of a map: a range among them is a range of the map.
use endee.Prelude.{
  ℕ, ◌≡◌, refl, sym, subst, ◌∙◌, inl, inr, Bool, true, false, Option, none, some, List, [], ◌∷◌,
  arith, ◌==◌, ==_iff, ==_refl, Bool-cases, Option-cases,
}
use endee.Roaring.{Roaring}
use endee.Filter.Bucket.{Bucket}
use endee.Filter.Bucket.Lookup.{value_of}
use endee.Filter.Numeric.Field.{is_at, in_range, is_in_range, has, hits}

module _ (R : Roaring) where
  hits-has :
      (bs : List (Bucket R)) (lo hi id w : ℕ)
      → has R bs id w ≡ true
      → in_range lo hi w ≡ true
      → hits R bs lo hi id ≡ true
  hits-has [] lo hi id w h k = absurd (cc)
  hits-has (b ∷ bs) lo hi id w h k = elim (Option-cases (value_of R b id)) [
    | inl e ↦ rw e (hits-has bs lo hi id w (sym (rw e refl) ∙ h) k)
    | inr (x, e) ↦ elim (Bool-cases (x == w)) [
      | inl same ↦ rw e (ground (arith, k))
      | inr other ↦
          let rest : has R bs id w ≡ true = sym (rw (e, other) refl) ∙ h in
          rw (e, hits-has bs lo hi id w rest k) (ground arith)
    ]
  ]

  hits-witness :
      (bs : List (Bucket R)) (lo hi id : ℕ)
      → hits R bs lo hi id ≡ true
      → (w : ℕ) × ((has R bs id w ≡ true) × (in_range lo hi w ≡ true))
  hits-witness [] lo hi id h = absurd (cc)
  hits-witness (b ∷ bs) lo hi id h = elim (Bool-cases (is_in_range lo hi (value_of R b id))) [
    | inl inside ↦ first (value_of R b id) inside refl
    | inr out ↦
        let rest : hits R bs lo hi id ≡ true = sym (rw out refl) ∙ h in
        let (w, (there, k)) = hits-witness bs lo hi id rest in (w, (ground (arith, there), k))
  ]
    where
      first :
          (o : Option ℕ)
          → is_in_range lo hi o ≡ true
          → value_of R b id ≡ o
          → (w : ℕ) × ((has R (b ∷ bs) id w ≡ true) × (in_range lo hi w ≡ true))
      first none k e = absurd (cc)
      first (some w) k e = (w, (rw e (ground arith), k))

  -- Buckets that have the numbers of a map answer a range as the map does.
  pub hits-values :
      (bs : List (Bucket R)) (lo hi id : ℕ) (o : Option ℕ)
      → ((w : ℕ) → has R bs id w ≡ is_at o w)
      → hits R bs lo hi id ≡ is_in_range lo hi o
  hits-values bs lo hi id none reads = elim (Bool-cases (hits R bs lo hi id)) [
    | inl hit ↦
        let (w, (there, k)) = hits-witness bs lo hi id hit in
        absurd (ground (arith, there, reads w))
    | inr miss ↦ miss
  ]
  hits-values bs lo hi id (some v) reads = elim (Bool-cases (in_range lo hi v)) [
    | inl inside ↦ hits-has bs lo hi id v (reads v ∙ ==_refl v) inside ∙ sym inside
    | inr out ↦ elim (Bool-cases (hits R bs lo hi id)) [
      | inl hit ↦
          let (w, (there, k)) = hits-witness bs lo hi id hit in
          let at : v ≡ w = (==_iff v w).0 (sym (reads w) ∙ there) in
          absurd (both (in_range lo hi w) k (subst (λ x. in_range lo hi x ≡ false) at out))
      | inr miss ↦ miss ∙ sym out
    ]
  ]
    where
      both : (c : Bool) → c ≡ true → c ≡ false → ⊥
      both true h k = cc
      both false h k = cc
