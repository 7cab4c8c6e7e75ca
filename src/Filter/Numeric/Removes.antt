-- ===== src/Filter/Numeric/Removes.antt =====
-- What `remove` makes of the bucket at the place of a number, and of the buckets around it.
use endee.Prelude.{
  ℕ, zero, suc, ◌^◌, ◌≤◌, ◌<◌, ◌≡◌, refl, sym, ap, subst, ◌∙◌, inl, inr, Bool, true, false, not,
  ◌&&◌, ◌||◌, Option, none, some, List, [], ◌∷◌, ◌++◌, arith, ◌==◌, if◌then◌else◌, ==_iff,
  Bool-cases, Option-cases, any_eq, length, erase_at, All, All-erase_at, All-map, List-cases,
}
use endee.Roaring.{member, Roaring}
use endee.Filter.Bucket.{Bucket, remove as remove_id, index_of, is_empty as is_empty_bucket}
use endee.Filter.Bucket.Lookup.{find_delta, find_delta-none, value_of, remove_lem}
use endee.Filter.Numeric.Field.{
  is_at, has, IsField, IsField-right, IsField-replace, IsStored, Precedes,
}
use endee.Filter.Numeric.Stored.{clean, value_of-clean}
use endee.Filter.Numeric.Contents.{has_below, has_above, has-replace, Precedes-part}

pub length-erase_at_le {ℓ} : {A : Type ℓ} (k : ℕ) (xs : List A) → length (erase_at k xs) ≤ length xs
length-erase_at_le k [] = omega arith
length-erase_at_le zero (x ∷ xs) = omega arith
length-erase_at_le (suc k) (x ∷ xs) = omega (arith, length-erase_at_le {ℓ} k xs)

module _ (R : Roaring) where
  pub remove_counts :
      (b : Bucket R) (id : ℕ)
      → All (λ i. i < 2 ^ 32) b.ids
      → (length (remove_id R b id).1.ids ≤ length b.ids)
        × ((R.size (remove_id R b id).1.summary_bitmap ≤ R.size b.summary_bitmap)
            × All (λ i. i < 2 ^ 32) (remove_id R b id).1.ids)
  unfolding remove_id
  remove_counts b id small = elim (Option-cases (index_of b.ids id)) [
    | inl e ↦ rw (e, remove_id) (omega arith, (omega arith, small))
    | inr (k, e) ↦
        rw (e, remove_id)
          (
            length-erase_at_le {0} k b.ids,
            (R.size-remove b.summary_bitmap id, All-erase_at (λ i. i < 2 ^ 32) k b.ids small),
          )
  ]

  -- What a removal makes of a bucket that the index keeps.
  pub record Removes (n : ℕ) (b : Bucket R) (id : ℕ) (r : Bool × Bucket R) : Type 0 where
    pub stored : IsStored R n r.1
    pub base : r.1.base_value ≡ b.base_value
    pub found : r.0 ≡ any_eq id b.ids
    pub values : (j : ℕ) → value_of R r.1 j ≡ (if id == j then none else value_of R b j)

  pub remove-Removes :
      (n : ℕ) (b : Bucket R) (id : ℕ) → IsStored R n b → Removes n b id (remove_id R b id)
  remove-Removes n b id s =
      let (valid, found, same_base, members, values) = remove_lem R b id s.valid in
      let (few, (few_bits, small)) = remove_counts b id s.small_ids in
      record {
        stored = record {
          valid = valid;
          few = omega (arith, few, s.few);
          few_bits = omega (arith, few_bits, s.few_bits);
          small_ids = small;
          small_base = omega (arith, same_base, s.small_base);
        };
        base = same_base;
        found = found;
        values = values;
      }

  pub empty_has :
      (b : Bucket R) (j w : ℕ) → is_empty_bucket R b ≡ true → is_at (value_of R b j) w ≡ false
  unfolding is_empty_bucket value_of find_delta
  empty_has b j w h = elim (List-cases b.ids) [
    | inl e ↦ rw (value_of, e, find_delta) refl
    | inr (i, is, e) ↦ absurd (ground arith)
  ]

  -- One identifier less.
  abbrev pub Without : List (Bucket R) → ℕ → List (Bucket R) → Type 0
  Without bs id cs = (j w : ℕ) → has R cs j w ≡ (not (id == j) && has R bs j w)

  -- The buckets around the place keep their numbers; the identifier has none among them.
  pub around_absent :
      (n : ℕ) (pre : List (Bucket R)) (b : Bucket R) (post : List (Bucket R)) (id v : ℕ)
      → IsField R n (pre ++ (b ∷ post))
      → b.base_value ≤ v
      → All (λ c. v < c.base_value) post
      → ((w : ℕ) → has R (pre ++ (b ∷ post)) id w ≡ (v == w))
      → (w : ℕ) → (has R pre id w ≡ false) × (has R post id w ≡ false)
  around_absent n pre b post id v f low above only w = elim (Bool-cases (v == w)) [
    | inl same ↦
        let at : v ≡ w = (==_iff v w).0 same in
        (
          subst (λ x. has R pre id x ≡ false) at (has_below R n pre b post id v f low),
          subst (λ x. has R post id x ≡ false) at (has_above R post id v above),
        )
    | inr other ↦
        let nowhere : (has R pre id w || (has R (b ∷ []) id w || has R post id w)) ≡ false =
          sym (has-replace R pre (b ∷ []) post id w) ∙ only w ∙ other in
        (ground (arith, nowhere), ground (arith, nowhere))
  ]

  pub Without-one :
      (pre : List (Bucket R)) (b : Bucket R) (cs post : List (Bucket R)) (id : ℕ)
      → ((w : ℕ) → (has R pre id w ≡ false) × (has R post id w ≡ false))
      → ((j w : ℕ) → has R cs j w ≡ (not (id == j) && is_at (value_of R b j) w))
      → Without (pre ++ (b ∷ post)) id (pre ++ (cs ++ post))
  Without-one pre b cs post id apart here j w =
      has-replace R pre cs post j w
      ∙ rw (here j w, has-replace R pre (b ∷ []) post j w)
          (elim (Bool-cases (id == j)) [
            | inl same ↦
                let at : id ≡ j = (==_iff id j).0 same in
                rw
                  (
                    same,
                    subst (λ x. has R pre x w ≡ false) at (apart w).0,
                    subst (λ x. has R post x w ≡ false) at (apart w).1,
                  )
                  refl
            | inr other ↦ rw other (ground arith)
          ])

  pub removed_true :
      (n : ℕ) (b : Bucket R) (id v : ℕ) (r : Bool × Bucket R)
      → Removes n (clean R b) id r
      → is_at (value_of R b id) v ≡ true
      → r.0 ≡ true
  unfolding value_of
  removed_true n b id v r rm h = elim (Bool-cases (any_eq id b.ids)) [
    | inl member ↦ rm.found ∙ member
    | inr absent ↦
        let gone : is_at (value_of R b id) v ≡ false =
          rw (value_of, find_delta-none b.ids b.deltas id absent) refl in
        absurd (ground (arith, gone, h))
  ]

  -- The buckets without the identifier: the one at the place is smaller, or gone.
  unfoldable pub remaining : Bucket R → List (Bucket R)
  remaining b' = if is_empty_bucket R b' then [] else b' ∷ []

  pub remaining-has :
      (n : ℕ) (b : Bucket R) (id : ℕ) (r : Bool × Bucket R)
      → Removes n (clean R b) id r
      → (j w : ℕ) → has R (remaining r.1) j w ≡ (not (id == j) && is_at (value_of R b j) w)
  unfolding remaining
  remaining-has n b id r rm j w =
      let whole : is_at (value_of R r.1 j) w ≡ (not (id == j) && is_at (value_of R b j) w) =
        rw (rm.values j, value_of-clean R b j)
          (elim (Bool-cases (id == j)) [ inl same ↦ rw same refl | inr other ↦ rw other refl ]) in
      elim (Bool-cases (is_empty_bucket R r.1)) [
        | inl none_left ↦ rw none_left (sym (empty_has r.1 j w none_left) ∙ whole)
        | inr some_left ↦ rw some_left (ground (arith, whole))
      ]

  pub remaining-IsField :
      (n : ℕ) (pre : List (Bucket R)) (b : Bucket R) (post : List (Bucket R)) (id : ℕ)
      (r : Bool × Bucket R)
      → IsField R n (pre ++ (b ∷ post))
      → Removes n (clean R b) id r
      → IsField R n (pre ++ (remaining r.1 ++ post))
  unfolding remaining
  remaining-IsField n pre b post id r f rm =
      let at_place = IsField-right R n pre (b ∷ post) f in
      let order : All (Precedes R r.1) post =
        All-map (Precedes R b) (Precedes R r.1)
          (λ c p.
            Precedes-part R b r.1 c rm.base
              (λ j v e. kept (p.values j v) (id == j) (
                sym (rm.values j ∙ ap (λ o. if id == j then none else o) (value_of-clean R b j))
                ∙ e))
              p)
          post at_place.1.0 in
      elim (Bool-cases (is_empty_bucket R r.1)) [
        | inl none_left ↦ rw none_left (IsField-replace R n pre b post [] f tt tt tt)
        | inr some_left ↦ rw some_left (
            IsField-replace R n pre b post (r.1 ∷ []) f (rm.stored, (tt, tt))
              (omega (arith, rm.base), tt) (order, tt))
      ]
    where
      kept :
          {v m : ℕ} {o : Option ℕ}
          → (o ≡ some v → v < m)
          → (c : Bool) → (if c then none else o) ≡ some v
          → v < m
      kept h true e = absurd (cc)
      kept h false e = h e
