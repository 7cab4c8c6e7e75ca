-- ===== src/Filter/Numeric/Inserts.antt =====
-- A number more among the buckets of a field: the bucket that takes it, alone, beside the others or as
-- two halves, in the place of the one that was there.
use endee.Prelude.{
  ℕ, suc, ◌+◌, ◌^◌, ◌≤◌, ◌<◌, ◌≡◌, refl, sym, subst, ◌∙◌, inl, inr, false, ◌||◌, none, some,
  some-injective, List, [], ◌∷◌, ◌++◌, arith, ◌==◌, if◌then◌else◌, ==_iff, Bool-cases, Option-cases,
  All, All-map,
}
use endee.Roaring.{Roaring}
use endee.Filter.Bucket.{max_delta, Bucket}
use endee.Filter.Bucket.Lookup.{find_delta, value_of, IsBucket}
use endee.Filter.Numeric.Field.{is_at, has, IsField, IsStored-more, IsStored, Precedes}
use endee.Filter.Numeric.Scan.{find_delta-All}
use endee.Filter.Numeric.Contents.{has-replace, Precedes-part}

module _ (R : Roaring) where
  -- One number more, of an identifier that had none.
  abbrev pub With : List (Bucket R) → ℕ → ℕ → List (Bucket R) → Type 0
  With bs id val cs = (j w : ℕ) → has R cs j w ≡ (if id == j then val == w else has R bs j w)

  pub With-one :
      (pre : List (Bucket R)) (b : Bucket R) (cs post : List (Bucket R)) (id v : ℕ)
      → ((w : ℕ) → has R (pre ++ (b ∷ post)) id w ≡ false)
      → ((j w : ℕ) → has R cs j w ≡ (if id == j then v == w else is_at (value_of R b j) w))
      → With (pre ++ (b ∷ post)) id v (pre ++ (cs ++ post))
  With-one pre b cs post id v absent here j w =
      let parts = has-replace R pre (b ∷ []) post in
      has-replace R pre cs post j w
      ∙ rw (here j w, parts j w)
          (elim (Bool-cases (id == j)) [
            | inl same ↦
                let at : id ≡ j = (==_iff id j).0 same in
                let nowhere : (has R pre j w || (has R (b ∷ []) j w || has R post j w)) ≡ false =
                  sym (parts j w)
                  ∙ subst (λ x. has R (pre ++ (b ∷ post)) x w ≡ false) at (absent w) in
                rw same (ground (arith, nowhere))
            | inr other ↦ rw other (ground arith)
          ])

  -- The numbers of a bucket are below a bound when those of another are, and the one that was added.
  pub added_below :
      (b b' : Bucket R) (id v m : ℕ)
      → ((j : ℕ) → value_of R b' j ≡ (if id == j then some v else value_of R b j))
      → v < m
      → ((j w : ℕ) → value_of R b j ≡ some w → w < m)
      → (j w : ℕ) → value_of R b' j ≡ some w
      → w < m
  added_below b b' id v m values low old j w e = elim (Bool-cases (id == j)) [
    | inl same ↦ omega (arith, some-injective v w (sym (values j ∙ rw same refl) ∙ e))
    | inr other ↦ old j w (sym (values j ∙ rw other refl) ∙ e)
  ]

  pub added_has :
      (b b' : Bucket R) (id v : ℕ)
      → ((j : ℕ) → value_of R b' j ≡ (if id == j then some v else value_of R b j))
      → (j w : ℕ)
      → is_at (value_of R b' j) w ≡ (if id == j then v == w else is_at (value_of R b j) w)
  added_has b b' id v values j w =
      rw (values j)
        (elim (Bool-cases (id == j)) [ inl same ↦ rw same refl | inr other ↦ rw other refl ])

  -- The bucket at the place of a number, with that number added.
  pub record Joined (n : ℕ) (b : Bucket R) (id v : ℕ) (post cs : List (Bucket R)) : Type 0 where
    pub field_valid : IsField R (suc n) cs
    pub starts : All (λ c. b.base_value ≤ c.base_value) cs
    pub order : All (λ c. All (Precedes R c) post) cs
    pub here : (j w : ℕ) → has R cs j w ≡ (if id == j then v == w else is_at (value_of R b j) w)

  pub add_one-Joined :
      (n : ℕ) (b b' : Bucket R) (id v : ℕ) (post : List (Bucket R))
      → IsStored R (suc n) b'
      → b'.base_value ≡ b.base_value
      → ((j : ℕ) → value_of R b' j ≡ (if id == j then some v else value_of R b j))
      → All (Precedes R b) post
      → All (λ c. v < c.base_value) post
      → Joined n b id v post (b' ∷ [])
  add_one-Joined n b b' id v post s base values orders above = record {
    field_valid = (s, (tt, tt));
    starts = (omega (arith, base), tt);
    order = (both post orders above, tt);
    here = λ j w. ground (arith, added_has b b' id v values j w);
  }
    where
      both :
          (cs : List (Bucket R))
          → All (Precedes R b) cs
          → All (λ c. v < c.base_value) cs
          → All (Precedes R b') cs
      both [] p h = tt
      both (c ∷ cs) p h = (
        Precedes-part R b b' c base (added_below b b' id v c.base_value values h.0 p.0.values) p.0,
        both cs p.1 h.1,
      )

  -- A bucket of its own for a number too far from the start of the one at its place.
  value_near :
      (b : Bucket R) (j w : ℕ)
      → IsBucket R b
      → value_of R b j ≡ some w
      → w ≤ b.base_value + max_delta
  unfolding value_of
  value_near b j w v e = elim (Option-cases (find_delta b.ids b.deltas j)) [
    | inl none_there ↦ absurd (cc)
    | inr (d, found) ↦
        let near =
          find_delta-All (λ x. (x ≤ max_delta) × (b.base_value + x < 2 ^ 32)) b.ids b.deltas j d
            v.fits found in
        omega
          (arith, near.0, some-injective (b.base_value + d) w (sym (rw (found, value_of) refl) ∙ e))
  ]

  pub record IsNew (n : ℕ) (id v : ℕ) (b : Bucket R) : Type 0 where
    pub stored : IsStored R (suc n) b
    pub base : b.base_value ≡ v
    pub values : (j : ℕ) → value_of R b j ≡ (if id == j then some v else none)

  new_below :
      (n : ℕ) (id v m : ℕ) (b : Bucket R)
      → IsNew n id v b
      → v < m
      → (j w : ℕ) → value_of R b j ≡ some w
      → w < m
  new_below n id v m b new low j w e = elim (Bool-cases (id == j)) [
    | inl same ↦ omega (arith, some-injective v w (sym (new.values j ∙ rw same refl) ∙ e))
    | inr other ↦ absurd (no_value (sym (new.values j ∙ rw other refl) ∙ e))
  ]
    where
      no_value : none ≡ some w → ⊥
      no_value h = cc

  pub new-Precedes :
      (n : ℕ) (id v : ℕ) (b : Bucket R) (post : List (Bucket R))
      → IsNew n id v b
      → All (λ c. v < c.base_value) post
      → All (Precedes R b) post
  new-Precedes n id v b post new above =
      All-map (λ c. v < c.base_value) (Precedes R b)
        (λ c h. record {
          bases = omega (arith, h, new.base);
          values = new_below n id v c.base_value b new h;
        })
        post above

  pub new-Joined :
      (n : ℕ) (b b' : Bucket R) (id v : ℕ) (post : List (Bucket R))
      → IsStored R n b
      → IsNew n id v b'
      → value_of R b id ≡ none
      → b.base_value + max_delta < v
      → All (Precedes R b) post
      → All (λ c. v < c.base_value) post
      → Joined n b id v post (b ∷ (b' ∷ []))
  new-Joined n b b' id v post s new absent far orders above = record {
    field_valid = (
      IsStored-more R n (suc n) b (omega arith) s,
      (
        (
          record {
            bases = omega (arith, far, new.base);
            values = λ j w e. omega (arith, value_near b j w s.valid e, far, new.base);
          },
          tt,
        ),
        (new.stored, (tt, tt)),
      ),
    );
    starts = (omega arith, (omega (arith, far, new.base), tt));
    order = (orders, (new-Precedes n id v b' post new above, tt));
    here = λ j w. elim (Bool-cases (id == j)) [
      | inl same ↦
          let at : id ≡ j = (==_iff id j).0 same in
          let gone : value_of R b j ≡ none = subst (λ x. value_of R b x ≡ none) at absent in
          rw (gone, new.values j, same) (ground arith)
      | inr other ↦ rw (new.values j, other) (ground arith)
    ];
  }
