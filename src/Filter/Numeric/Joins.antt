-- ===== src/Filter/Numeric/Joins.antt =====
-- A number more in a bucket that is cut in two: it goes to the half whose values are around it.
use endee.Prelude.{
  ℕ, suc, ◌≤◌, ◌<◌, ◌≡◌, refl, sym, ap, subst, ◌∙◌, inl, inr, ◌||◌, Option, none, some,
  some-injective, List, [], ◌∷◌, arith, ltb, ◌==◌, if◌then◌else◌, ltb→lt, ==_iff, Bool-cases, All,
  All-map,
}
use endee.Roaring.{Roaring}
use endee.Filter.Bucket.{Bucket}
use endee.Filter.Bucket.Lookup.{value_of}
use endee.Filter.Numeric.Field.{is_at, IsStored-more, IsStored, Precedes}
use endee.Filter.Numeric.Cut.{below_part, above_part}
use endee.Filter.Numeric.Split.{SplitsInto}
use endee.Filter.Numeric.Contents.{Precedes-part}
use endee.Filter.Numeric.Inserts.{added_below, Joined}

module _ (R : Roaring) where
  below_part-some : (m w : ℕ) (o : Option ℕ) → below_part m o ≡ some w → (w < m) × (o ≡ some w)
  below_part-some m w none e = absurd (cc)
  below_part-some m w (some x) e = elim (Bool-cases (ltb x m)) [
    | inl low ↦
        let at : x ≡ w = some-injective x w (sym (rw low refl) ∙ e) in
        (omega (arith, ltb→lt x m low), ap some at)
    | inr high ↦ absurd (no_value (sym (rw high refl) ∙ e))
  ]
    where
      no_value : none ≡ some w → ⊥
      no_value h = cc

  above_part-some : (m w : ℕ) (o : Option ℕ) → above_part m o ≡ some w → o ≡ some w
  above_part-some m w none e = absurd (cc)
  above_part-some m w (some x) e = elim (Bool-cases (ltb x m)) [
    | inl low ↦ absurd (no_value (sym (rw low refl) ∙ e))
    | inr high ↦ sym (rw high refl) ∙ e
  ]
    where
      no_value : none ≡ some w → ⊥
      no_value h = cc

  parts_together :
      (m w : ℕ) (o : Option ℕ) → (is_at (below_part m o) w || is_at (above_part m o) w) ≡ is_at o w
  parts_together m w none = refl
  parts_together m w (some x) = ground arith

  orders_part :
      (b c : Bucket R) (post : List (Bucket R))
      → All (Precedes R b) post
      → ((d : Bucket R) → Precedes R b d → Precedes R c d)
      → All (Precedes R c) post
  orders_part b c post orders f = All-map (Precedes R b) (Precedes R c) f post orders

  left_below :
      (n : ℕ) (b l r : Bucket R)
      → SplitsInto R n b l r
      → (j w : ℕ) → value_of R l j ≡ some w
      → (w < r.base_value) × (value_of R b j ≡ some w)
  left_below n b l r s j w e =
      below_part-some r.base_value w (value_of R b j) (sym (s.left_values j) ∙ e)

  right_from :
      (n : ℕ) (b l r : Bucket R)
      → SplitsInto R n b l r
      → (j w : ℕ) → value_of R r j ≡ some w
      → value_of R b j ≡ some w
  right_from n b l r s j w e =
      above_part-some r.base_value w (value_of R b j) (sym (s.right_values j) ∙ e)

  post_after :
      (n : ℕ) (b l r : Bucket R) (d : Bucket R) (j : ℕ) (w : ℕ)
      → SplitsInto R n b l r
      → value_of R r j ≡ some w
      → Precedes R b d
      → w < d.base_value
  post_after n b l r d j w s e p = p.values j w (right_from n b l r s j w e)

  -- The number goes to the right half.
  pub right-Joined :
      (n : ℕ) (b l r r' : Bucket R) (id v : ℕ) (post : List (Bucket R))
      → SplitsInto R n b l r
      → IsStored R (suc n) r'
      → r'.base_value ≡ r.base_value
      → ((j : ℕ) → value_of R r' j ≡ (if id == j then some v else value_of R r j))
      → value_of R b id ≡ none
      → r.base_value ≤ v
      → All (Precedes R b) post
      → All (λ c. (v < c.base_value) × (r.base_value < c.base_value)) post
      → Joined R n b id v post (l ∷ (r' ∷ []))
  right-Joined n b l r r' id v post s stored base values absent reached orders above = record {
    field_valid = (
      IsStored-more R n (suc n) l (omega arith) s.left_stored,
      (
        (
          record {
            bases = omega (arith, s.left_base, s.right_base, base);
            values = λ j w e. omega (arith, (left_below n b l r s j w e).0, base);
          },
          tt,
        ),
        (stored, (tt, tt)),
      ),
    );
    starts = (omega (arith, s.left_base), (omega (arith, s.right_base, base), tt));
    order = (
      orders_part b l post orders (λ d p.
          Precedes-part R b l d s.left_base (λ j w e. p.values j w (left_below n b l r s j w e).1)
            p),
      (behind post orders above, tt),
    );
    here = λ j w. elim (Bool-cases (id == j)) [
      | inl same ↦
          let at : id ≡ j = (==_iff id j).0 same in
          let gone : value_of R b j ≡ none = subst (λ x. value_of R b x ≡ none) at absent in
          rw (s.left_values j, gone, values j, same) (ground arith)
      | inr other ↦
          rw (s.left_values j, values j, other, s.right_values j)
            (ground (arith, parts_together r.base_value w (value_of R b j)))
    ];
  }
    where
      behind :
          (cs : List (Bucket R))
          → All (Precedes R b) cs
          → All (λ c. (v < c.base_value) × (r.base_value < c.base_value)) cs
          → All (Precedes R r') cs
      behind [] p h = tt
      behind (c ∷ cs) p h = (
        record {
          bases = omega (arith, base, h.0.1);
          values =
              added_below R r r' id v c.base_value values h.0.0
                (λ j w e. post_after n b l r c j w s e p.0);
        },
        behind cs p.1 h.1,
      )

  -- The number goes to the left half.
  pub left-Joined :
      (n : ℕ) (b l l' r : Bucket R) (id v : ℕ) (post : List (Bucket R))
      → SplitsInto R n b l r
      → IsStored R (suc n) l'
      → l'.base_value ≡ l.base_value
      → ((j : ℕ) → value_of R l' j ≡ (if id == j then some v else value_of R l j))
      → value_of R b id ≡ none
      → v < r.base_value
      → All (Precedes R b) post
      → All (λ c. (v < c.base_value) × (r.base_value < c.base_value)) post
      → Joined R n b id v post (l' ∷ (r ∷ []))
  left-Joined n b l l' r id v post s stored base values absent under orders above = record {
    field_valid = (
      stored,
      (
        (
          record {
            bases = omega (arith, s.left_base, s.right_base, base);
            values =
                added_below R l l' id v r.base_value values under
                  (λ j w e. (left_below n b l r s j w e).0);
          },
          tt,
        ),
        (IsStored-more R n (suc n) r (omega arith) s.right_stored, (tt, tt)),
      ),
    );
    starts = (omega (arith, s.left_base, base), (omega (arith, s.right_base), tt));
    order = (left_behind post orders above, (right_behind post orders above, tt));
    here = λ j w. elim (Bool-cases (id == j)) [
      | inl same ↦
          let at : id ≡ j = (==_iff id j).0 same in
          let gone : value_of R b j ≡ none = subst (λ x. value_of R b x ≡ none) at absent in
          rw (s.right_values j, gone, values j, same) (ground arith)
      | inr other ↦
          rw (values j, other, s.left_values j, s.right_values j)
            (ground (arith, parts_together r.base_value w (value_of R b j)))
    ];
  }
    where
      left_behind :
          (cs : List (Bucket R))
          → All (Precedes R b) cs
          → All (λ c. (v < c.base_value) × (r.base_value < c.base_value)) cs
          → All (Precedes R l') cs
      left_behind [] p h = tt
      left_behind (c ∷ cs) p h = (
        record {
          bases = omega (arith, base, s.left_base, p.0.bases);
          values =
              added_below R l l' id v c.base_value values h.0.0
                (λ j w e. p.0.values j w (left_below n b l r s j w e).1);
        },
        left_behind cs p.1 h.1,
      )

      right_behind :
          (cs : List (Bucket R))
          → All (Precedes R b) cs
          → All (λ c. (v < c.base_value) × (r.base_value < c.base_value)) cs
          → All (Precedes R r) cs
      right_behind [] p h = tt
      right_behind (c ∷ cs) p h = (
        record { bases = h.0.1; values = λ j w e. post_after n b l r c j w s e p.0 },
        right_behind cs p.1 h.1,
      )
