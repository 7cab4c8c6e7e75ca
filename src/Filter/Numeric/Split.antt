-- ===== src/Filter/Numeric/Split.antt =====
-- The split of a full bucket: what the two halves hold.
use endee.Prelude.{
  ℕ, suc, ◌+◌, ◌-◌, ◌^◌, ◌≤◌, ◌<◌, ◌≡◌, refl, sym, ap, subst, ◌∙◌, inl, inr, true, false, Option,
  none, some, List, [], ◌∷◌, arith, ltb, Bool-cases, Option-cases, length, get_or, take, drop, All,
  length-take, length-drop, u32,
}
use endee.Roaring.{Roaring}
use endee.Filter.Bucket.{max_delta, empty_bucket, Bucket}
use endee.Filter.Bucket.Lookup.{find_delta, value_of, empty_bucket-IsBucket, IsBucket}
use endee.Filter.Bucket.Bytes.{All-take}
use endee.Filter.Numeric.{move_entries, rebuild_bitmap, split}
use endee.Filter.Numeric.Field.{IsStored-more, IsStored}
use endee.Filter.Numeric.Scan.{All-get_or}
use endee.Filter.Numeric.Halves.{Cuts}
use endee.Filter.Numeric.Cut.{
  below_part, above_part, Distinct-take, Distinct-drop, All-drop, Sorted-take, take_below,
  drop_above, find_delta-take, find_delta-drop, value_of-bound,
}
use endee.Filter.Numeric.Moves.{
  moved, rebuild_bitmap-contains, rebuild_bitmap-size, move_entries_lem,
}

module _ (R : Roaring) where
  -- The halves of a bucket cut at an index where the values rise.
  pub record SplitsInto (n : ℕ) (b l r : Bucket R) : Type 0 where
    pub left_stored : IsStored R n l
    pub right_stored : IsStored R n r
    pub left_base : l.base_value ≡ b.base_value
    pub right_base : b.base_value < r.base_value
    pub right_inside : (c : ℕ) → ((j w : ℕ) → value_of R b j ≡ some w → w < c) → r.base_value < c
    pub left_values : (j : ℕ) → value_of R l j ≡ below_part r.base_value (value_of R b j)
    pub right_values : (j : ℕ) → value_of R r j ≡ above_part r.base_value (value_of R b j)

  left_IsStored :
      (n : ℕ) (b : Bucket R) (k : ℕ)
      → IsStored R n b
      → k ≤ length b.ids
      → IsStored R n (record b {
        deltas = take k b.deltas;
        ids = take k b.ids;
        summary_bitmap = rebuild_bitmap R R.empty (take k b.ids);
      })
  left_IsStored n b k s h =
      let count : length (take k b.ids) ≤ n = omega (arith, length-take {0} k b.ids, s.few) in
      record {
        valid = record {
          same_length =
              omega
                (arith, length-take {0} k b.ids, length-take {0} k b.deltas, s.valid.same_length);
          sorted = Sorted-take 0 k b.deltas s.valid.sorted;
          fits =
              All-take (λ d. (d ≤ max_delta) × (b.base_value + d < 2 ^ 32)) k b.deltas s.valid.fits;
          distinct = Distinct-take k b.ids s.valid.distinct;
          summary = λ j.
              rebuild_bitmap-contains R R.empty (take k b.ids) j ∙ rw (R.contains-empty j) refl;
        };
        few = count;
        few_bits = omega (arith, rebuild_bitmap-size R R.empty (take k b.ids), R.size-empty, count);
        small_ids = All-take (λ i. i < 2 ^ 32) k b.ids s.small_ids;
        small_base = s.small_base;
      }

  pub empty_bucket-IsStored : (base : ℕ) → base < 2 ^ 32 → IsStored R 0 (empty_bucket R base)
  unfolding empty_bucket
  empty_bucket-IsStored base h = record {
    valid = empty_bucket-IsBucket R base;
    few = omega arith;
    few_bits = omega (arith, R.size-empty);
    small_ids = tt;
    small_base = h;
  }

  left_value :
      (b l : Bucket R) (m j : ℕ)
      → l.base_value ≡ b.base_value
      → find_delta l.ids l.deltas j ≡ below_part m (find_delta b.ids b.deltas j)
      → value_of R l j ≡ below_part (b.base_value + m) (value_of R b j)
  unfolding value_of
  left_value b l m j at e = elim (Option-cases (find_delta b.ids b.deltas j)) [
    | inl none_there ↦ rw (value_of, e, none_there) refl
    | inr (d, found) ↦ elim (Bool-cases (ltb d m)) [
      | inl low ↦
          let still : ltb (b.base_value + d) (b.base_value + m) ≡ true = ground arith in
          rw (value_of, e, found, low, still, at) refl
      | inr high ↦
          let still : ltb (b.base_value + d) (b.base_value + m) ≡ false = ground arith in
          rw (value_of, e, found, high, still) refl
    ]
  ]

  right_value :
      (b : Bucket R) (m j : ℕ) (o old : Option ℕ)
      → o ≡ above_part m (find_delta b.ids b.deltas j)
      → old ≡ none
      → moved b.base_value o old ≡ above_part (b.base_value + m) (value_of R b j)
  unfolding value_of
  right_value b m j o old e fresh = elim (Option-cases (find_delta b.ids b.deltas j)) [
    | inl none_there ↦ rw (value_of, e, none_there, fresh) refl
    | inr (d, found) ↦ elim (Bool-cases (ltb d m)) [
      | inl low ↦
          let still : ltb (b.base_value + d) (b.base_value + m) ≡ true = ground arith in
          rw (value_of, e, found, low, still, fresh) refl
      | inr high ↦
          let still : ltb (b.base_value + d) (b.base_value + m) ≡ false = ground arith in
          rw (value_of, e, found, high, still) refl
    ]
  ]

  split_run :
      (b : Bucket R) (k base : ℕ) (r : Bucket R)
      → u32 (b.base_value + get_or b.deltas k 0) ≡ base
      → move_entries R b.base_value (empty_bucket R base) (drop k b.deltas) (drop k b.ids) ≡ some r
      → split R b k
        ≡ some (
          record b {
            deltas = take k b.deltas;
            ids = take k b.ids;
            summary_bitmap = rebuild_bitmap R R.empty (take k b.ids);
          },
          r,
        )
  unfolding split
  split_run b k base r e h = rw (e, h, split) refl

  pub empty_value : (base j : ℕ) → value_of R (empty_bucket R base) j ≡ none
  unfolding value_of empty_bucket find_delta
  empty_value base j = refl

  pub empty_base : (base : ℕ) → (empty_bucket R base).base_value ≡ base
  unfolding empty_bucket
  empty_base base = refl

  -- The left half keeps the values below the start of the right one, which has the rest.
  pub split_lem :
      (n : ℕ) (b : Bucket R) (k : ℕ)
      → IsStored R n b
      → Cuts b.deltas k
      → (l : Bucket R) × ((r : Bucket R) × ((split R b k ≡ some (l, r)) × SplitsInto n b l r))
  split_lem n b k s c =
      let m = get_or b.deltas k 0 in
      let base = b.base_value + m in
      let at =
        All-get_or (λ d. (d ≤ max_delta) × (b.base_value + d < 2 ^ 32)) b.deltas k 0 c.some_right
          s.valid.fits in
      let low : All (λ d. d < m) (take k b.deltas) =
        subst (λ x. All (λ d. d < m) (take x b.deltas)) {x = suc (k - 1)} (omega arith)
          (take_below 0 m (k - 1) b.deltas s.valid.sorted (omega arith) c.rises) in
      let high : All (λ d. m ≤ d) (drop k b.deltas) =
        drop_above 0 k b.deltas s.valid.sorted c.some_right in
      let near =
        All-near b.base_value m (drop k b.deltas) high
          (All-drop (λ d. (d ≤ max_delta) × (b.base_value + d < 2 ^ 32)) k b.deltas s.valid.fits) in
      let few : length (drop k b.ids) ≤ n = omega (arith, length-drop {0} k b.ids, s.few) in
      let (r, (moved_all, (stored, (r_base, values)))) =
        move_entries_lem R 0 b.base_value base (drop k b.deltas) (drop k b.ids)
          (empty_bucket R base) (empty_bucket-IsStored base at.1) (empty_base base)
          (omega (arith, length-drop {0} k b.ids, length-drop {0} k b.deltas, s.valid.same_length))
          (Distinct-drop k b.ids s.valid.distinct) (All-drop (λ i. i < 2 ^ 32) k b.ids s.small_ids)
          near (λ j h. empty_value base j) in
      let left : Bucket R = record b {
        deltas = take k b.deltas;
        ids = take k b.ids;
        summary_bitmap = rebuild_bitmap R R.empty (take k b.ids);
      } in
      (
        left,
        (
          r,
          (
            split_run b k base r (omega (arith, at.1)) moved_all,
            record {
              left_stored = left_IsStored n b k s (omega (arith, s.valid.same_length));
              right_stored = IsStored-more R (0 + length (drop k b.ids)) n r (omega arith) stored;
              left_base = refl;
              right_base = omega (arith, r_base, c.rises);
              right_inside = λ m bound.
                  omega (arith, r_base, value_of-bound R b k m s.valid c.some_right bound);
              left_values = λ j.
                  left_value b left m j refl
                    (find_delta-take m k b.ids b.deltas j s.valid.same_length low high)
                  ∙ ap (λ x. below_part x (value_of R b j)) (sym r_base);
              right_values = λ j.
                  values j
                  ∙ right_value b m j (find_delta (drop k b.ids) (drop k b.deltas) j)
                      (value_of R (empty_bucket R base) j)
                      (find_delta-drop m k b.ids b.deltas j s.valid.same_length s.valid.distinct low
                        high)
                      (empty_value base j)
                  ∙ ap (λ x. above_part x (value_of R b j)) (sym r_base);
            },
          ),
        ),
      )
    where
      All-near :
          (base m : ℕ) (ds : List ℕ)
          → All (λ d. m ≤ d) ds
          → All (λ d. (d ≤ max_delta) × (base + d < 2 ^ 32)) ds
          → All
              (λ d.
                (base + m ≤ base + d) × ((base + d ≤ base + m + max_delta) × (base + d < 2 ^ 32)))
              ds
      All-near base m [] h f = tt
      All-near base m (d ∷ ds) h f =
          ((omega (arith, h.0), (omega (arith, f.0.0), f.0.1)), All-near base m ds h.1 f.1)

  -- A stored bucket cut where its distances rise is split: the left half keeps its start and the
  -- values below the start of the right half, which has the others; both are sorted buckets.
  pub split-parts :
      (n : ℕ) (b : Bucket R) (k : ℕ)
      → IsStored R n b
      → Cuts b.deltas k
      → (l : Bucket R) × ((r : Bucket R) × ((split R b k ≡ some (l, r))
            × ((IsBucket R l × IsBucket R r)
                × (((l.base_value ≡ b.base_value) × (b.base_value < r.base_value))
                    × ((j : ℕ)
                        → (value_of R l j ≡ below_part r.base_value (value_of R b j))
                          × (value_of R r j ≡ above_part r.base_value (value_of R b j)))))))
  split-parts n b k s c =
      let (l, (r, (done, sp))) = split_lem n b k s c in
      (
        l,
        (
          r,
          (
            done,
            (
              (sp.left_stored.valid, sp.right_stored.valid),
              ((sp.left_base, sp.right_base), λ j. (sp.left_values j, sp.right_values j)),
            ),
          ),
        ),
      )
