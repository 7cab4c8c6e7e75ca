-- ===== src/Filter/Numeric/Adds.antt =====
-- An identifier added to a bucket that the index keeps: what the bucket holds, and its size.
use endee.Prelude.{
  ℕ, suc, ◌+◌, ◌-◌, ◌^◌, ◌≤◌, ◌<◌, ◌≡◌, refl, sym, subst, ◌∙◌, inl, inr, false, none, some, arith,
  ltb, ◌==◌, if◌then◌else◌, Bool-cases, any_eq, length, All, All-insert_at, length-insert_at, u16,
}
use endee.Roaring.{member, Roaring}
use endee.Filter.Bucket.{max_delta, lower_bound, insert_entry, add, Result, ok, err, Bucket}
use endee.Filter.Bucket.Lookup.{value_of, add_lem, IsBucket}
use endee.Filter.Numeric.Field.{IsStored}
use endee.Filter.Numeric.Scan.{find_delta-member}

Counts : (R : Roaring) → Bucket R → ℕ → Result (Bucket R) → Type 0
Counts R b id (err e) = Unit {0}
Counts R b id (ok b') =
    (length b'.ids ≡ suc (length b.ids))
    × ((R.size b'.summary_bitmap ≤ R.size b.summary_bitmap + 1)
        × (All (λ i. i < 2 ^ 32) b.ids → id < 2 ^ 32 → All (λ i. i < 2 ^ 32) b'.ids))

module _ (R : Roaring) where
  add-Counts : (b : Bucket R) (val id : ℕ) → Counts R b id (add R b val id)
  unfolding add insert_entry Counts
  add-Counts b val id = elim (Bool-cases (ltb val b.base_value)) [
    | inl low ↦ rw low tt
    | inr reached ↦ elim (Bool-cases (ltb max_delta (val - b.base_value))) [
      | inl far ↦ rw (reached, far) tt
      | inr near ↦
          let k = lower_bound b.deltas (u16 (val - b.base_value)) in
          rw (reached, near)
            (
              length-insert_at {0} k id b.ids,
              (
                R.size-add b.summary_bitmap id,
                λ all small. All-insert_at (λ i. i < 2 ^ 32) k id b.ids small all,
              ),
            )
    ]
  ]

  pub value_of-new :
      (b : Bucket R) (id : ℕ) → IsBucket R b → value_of R b id ≡ none → any_eq id b.ids ≡ false
  unfolding value_of
  value_of-new b id v e = elim (Bool-cases (any_eq id b.ids)) [
    | inl member ↦
        let (d, found) = find_delta-member b.ids b.deltas id v.same_length member in
        absurd (none-some (b.base_value + d) (sym e ∙ rw (found, value_of) refl))
    | inr absent ↦ absent
  ]
    where
      none-some : (w : ℕ) → none ≡ some w → ⊥
      none-some w h = cc

  pub add-IsStored :
      (n : ℕ) (b : Bucket R) (val id : ℕ)
      → IsStored R n b
      → value_of R b id ≡ none
      → b.base_value ≤ val
      → val ≤ b.base_value + max_delta
      → val < 2 ^ 32
      → id < 2 ^ 32
      → (b' : Bucket R) × ((add R b val id ≡ ok b')
          × (IsStored R (suc n) b'
              × ((b'.base_value ≡ b.base_value)
                  × ((j : ℕ) → value_of R b' j ≡ (if id == j then some val else value_of R b j)))))
  unfolding Counts
  add-IsStored n b val id s new low near small small_id =
      let (b', done, adds) =
        add_lem R b val id s.valid (value_of-new b id s.valid new) low near small in
      let counts : Counts R b id (ok b') =
        subst (λ x. Counts R b id x) done (add-Counts b val id) in
      (
        b',
        (
          done,
          (
            record {
              valid = adds.valid;
              few = omega (arith, counts.0, s.few);
              few_bits = omega (arith, counts.1.0, s.few_bits);
              small_ids = counts.1.1 s.small_ids small_id;
              small_base = omega (arith, adds.same_base, s.small_base);
            },
            (adds.same_base, adds.values),
          ),
        ),
      )
