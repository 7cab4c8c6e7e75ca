-- ===== src/Filter/Bucket/Lookup.antt =====
-- The identifiers of a bucket and their values, under `add` and `remove`.
use endee.Prelude.{
  ℕ, zero, suc, ◌+◌, ◌-◌, ◌^◌, ◌≤◌, ◌<◌, ◌≡◌, refl, sym, subst, inl, inr, true, false, not, ◌&&◌,
  ◌||◌, Option, none, some, some-injective, List, [], ◌∷◌, arith, ◌==◌, if◌then◌else◌, le→ltb,
  ==_iff, Bool-cases, Option-cases, any_eq, Distinct, Sorted, length, insert_at, erase_at, All,
  any_eq-insert_at, Distinct-insert_at, All-insert_at, All-erase_at, length-insert_at,
  length-erase_at, u16,
}
use endee.Roaring.{Roaring}
use endee.Filter.Bucket.{
  max_delta, lower_bound, index_of, empty_bucket, insert_entry, add, remove, value_below_base,
  delta_overflow, ok, err, Bucket,
}

-- The distance that stands beside an identifier.
unfoldable pub find_delta : List ℕ → List ℕ → ℕ → Option ℕ
find_delta [] ds j = none
find_delta (i ∷ is) [] j = none
find_delta (i ∷ is) (d ∷ ds) j = if i == j then some d else find_delta is ds j

find_delta-insert_at :
    (k i d : ℕ) (is ds : List ℕ) (j : ℕ)
    → length ds ≡ length is
    → any_eq i is ≡ false
    → find_delta (insert_at k i is) (insert_at k d ds) j
      ≡ (if i == j then some d else find_delta is ds j)
unfolding find_delta
find_delta-insert_at zero i d is ds j e new = refl
find_delta-insert_at (suc k) i d [] [] j e new = refl
find_delta-insert_at (suc k) i d [] (d' ∷ ds) j e new = absurd (omega arith)
find_delta-insert_at (suc k) i d (i' ∷ is) [] j e new = absurd (omega arith)
find_delta-insert_at (suc k) i d (i' ∷ is) (d' ∷ ds) j e new =
    ground (arith, find_delta-insert_at k i d is ds j)

pub find_delta-none : (is ds : List ℕ) (j : ℕ) → any_eq j is ≡ false → find_delta is ds j ≡ none
unfolding find_delta
find_delta-none [] ds j h = refl
find_delta-none (i ∷ is) [] j h = refl
find_delta-none (i ∷ is) (d ∷ ds) j h = ground (arith, find_delta-none is ds j)

-- What `remove` finds, and what it leaves.
index_of-none : (is : List ℕ) (i : ℕ) → index_of is i ≡ none → any_eq i is ≡ false
unfolding index_of
index_of-none [] i h = refl
index_of-none (x ∷ is) i h = ground (arith, index_of-none is i)

pub record Erases (is ds : List ℕ) (i k : ℕ) : Type 0 where
  pub within : k < length is
  pub found : any_eq i is ≡ true
  pub others : (j : ℕ) → any_eq j (erase_at k is) ≡ (not (i == j) && any_eq j is)
  pub values :
      (j : ℕ)
      → find_delta (erase_at k is) (erase_at k ds) j ≡ (if i == j then none else find_delta is ds j)
  pub distinct : Distinct (erase_at k is)

index_of-Erases :
    (is ds : List ℕ) (i k : ℕ)
    → length ds ≡ length is
    → Distinct is
    → index_of is i ≡ some k
    → Erases is ds i k
unfolding index_of find_delta
index_of-Erases [] ds i k e d h = absurd (cc)
index_of-Erases (x ∷ is) [] i k e d h = absurd (omega arith)
index_of-Erases (x ∷ is) (y ∷ ds) i k e d h = elim (Bool-cases (x == i)) [
  | inl hit ↦
      let at : x ≡ i = (==_iff x i).0 hit in
      let first : k ≡ 0 = ground (arith, some-injective 0 k) in
      rw first (record {
        within = omega arith;
        found = ground arith;
        others = λ j. ground (arith, d.0);
        values = λ j. ground (arith, d.0, find_delta-none is ds i);
        distinct = d.1;
      })
  | inr miss ↦ elim (Option-cases (index_of is i)) [
    | inl absent ↦ absurd (ground arith)
    | inr (k', at) ↦
        let rest = index_of-Erases is ds i k' (omega arith) d.1 at in
        let next : k ≡ suc k' = ground (arith, some-injective (suc k') k) in
        rw next (record {
          within = omega (arith, rest.within);
          found = ground (arith, rest.found);
          others = λ j. ground (arith, rest.others j);
          values = λ j. ground (arith, rest.values j);
          distinct = ground (arith, rest.distinct, rest.others x);
        })
  ]
]

Sorted-erase_at : (lo k : ℕ) (ds : List ℕ) → Sorted lo ds → Sorted lo (erase_at k ds)
Sorted-erase_at lo k [] s = tt
Sorted-erase_at lo zero (d ∷ ds) s = Sorted-from lo d ds s.0 s.1
  where
    Sorted-from : (lo hi : ℕ) (ds : List ℕ) → lo ≤ hi → Sorted hi ds → Sorted lo ds
    Sorted-from lo hi [] h s = tt
    Sorted-from lo hi (d ∷ ds) h s = (omega arith, s.1)
Sorted-erase_at lo (suc k) (d ∷ ds) s = (s.0, Sorted-erase_at d k ds s.1)

-- Inserted at `lower_bound` a value keeps the order.
Sorted-insert_at :
    (lo x : ℕ) (ds : List ℕ) → lo ≤ x → Sorted lo ds → Sorted lo (insert_at (lower_bound ds x) x ds)
unfolding lower_bound
Sorted-insert_at lo x [] h s = (h, tt)
Sorted-insert_at lo x (d ∷ ds) h s = ground (arith, Sorted-insert_at d x ds)

module _ (R : Roaring) where
  pub record IsBucket (b : Bucket R) : Type 0 where
    pub same_length : length b.deltas ≡ length b.ids
    pub sorted : Sorted 0 b.deltas
    pub fits : All (λ d. (d ≤ max_delta) × (b.base_value + d < 2 ^ 32)) b.deltas
    pub distinct : Distinct b.ids
    pub summary : (j : ℕ) → R.contains b.summary_bitmap j ≡ any_eq j b.ids

  -- The value of an identifier, if the bucket has it.
  unfoldable pub value_of : Bucket R → ℕ → Option ℕ
  value_of b j = elim (find_delta b.ids b.deltas j) [
    | none ↦ none
    | some d ↦ some (b.base_value + d)
  ]

  pub empty_bucket-IsBucket : (base : ℕ) → IsBucket (empty_bucket R base)
  unfolding empty_bucket
  empty_bucket-IsBucket base = record {
    same_length = refl;
    sorted = tt;
    fits = tt;
    distinct = tt;
    summary = R.contains-empty;
  }

  -- What adding an identifier with a value makes of a bucket.
  pub record Adds (b : Bucket R) (val id : ℕ) (b' : Bucket R) : Type 0 where
    pub valid : IsBucket b'
    pub same_base : b'.base_value ≡ b.base_value
    pub members : (j : ℕ) → any_eq j b'.ids ≡ (id == j || any_eq j b.ids)
    pub values : (j : ℕ) → value_of b' j ≡ (if id == j then some val else value_of b j)

  insert_entry-Adds :
      (b : Bucket R) (d id : ℕ)
      → IsBucket b
      → any_eq id b.ids ≡ false
      → d ≤ max_delta
      → b.base_value + d < 2 ^ 32
      → Adds b (b.base_value + d) id (insert_entry R b d id)
  unfolding insert_entry value_of
  insert_entry-Adds b d id v new near small =
      let k : ℕ = lower_bound b.deltas d in
      record {
        valid = record {
          same_length = omega (
            arith,
            v.same_length,
            length-insert_at {0} k d b.deltas,
            length-insert_at {0} k id b.ids,
          );
          sorted = Sorted-insert_at 0 d b.deltas (omega arith) v.sorted;
          fits =
              All-insert_at (λ x. (x ≤ max_delta) × (b.base_value + x < 2 ^ 32)) k d b.deltas
                (near, small) v.fits;
          distinct = Distinct-insert_at k id b.ids new v.distinct;
          summary = λ j. ground (
            arith,
            R.contains-add b.summary_bitmap id j,
            v.summary j,
            any_eq-insert_at k id j b.ids,
          );
        };
        same_base = refl;
        members = λ j. any_eq-insert_at k id j b.ids;
        values =
            λ j. ground (arith, find_delta-insert_at k id d b.ids b.deltas j v.same_length new);
      }

  -- A new identifier with a value in the bucket's range is added, and nothing else changes.
  pub add_lem :
      (b : Bucket R) (val id : ℕ)
      → IsBucket b
      → any_eq id b.ids ≡ false
      → b.base_value ≤ val
      → val ≤ b.base_value + max_delta
      → val < 2 ^ 32
      → (b' : Bucket R) × (add R b val id ≡ ok b') × Adds b val id b'
  unfolding add
  add_lem b val id v new low near small =
      let d : ℕ = val - b.base_value in
      let whole : b.base_value + d ≡ val = omega arith in
      let cast : u16 d ≡ d = omega arith in
      (
        insert_entry R b d id,
        rw (le→ltb val b.base_value low, le→ltb max_delta d (omega arith), cast),
        subst (λ t. Adds b t id (insert_entry R b d id)) whole
            (insert_entry-Adds b d id v new (omega arith) (omega arith)),
      )

  -- Out of the bucket's range `add` throws.
  pub add_refuses :
      (b : Bucket R) (val id : ℕ)
      → (val < b.base_value → add R b val id ≡ err value_below_base)
        × (b.base_value + max_delta < val → add R b val id ≡ err delta_overflow)
  unfolding add
  add_refuses b val id = (λ h. ground arith, λ h. ground arith)

  -- `remove` takes an identifier out, with its value and no other, and tells whether it was there.
  pub remove_lem :
      (b : Bucket R) (id : ℕ)
      → IsBucket b
      → IsBucket (remove R b id).1
        × ((remove R b id).0 ≡ any_eq id b.ids)
        × ((remove R b id).1.base_value ≡ b.base_value)
        × ((j : ℕ) → any_eq j (remove R b id).1.ids ≡ (not (id == j) && any_eq j b.ids))
        × ((j : ℕ) → value_of (remove R b id).1 j ≡ (if id == j then none else value_of b j))
  unfolding remove value_of
  remove_lem b id v = elim (Option-cases (index_of b.ids id)) [
    | inl absent ↦
        let gone = index_of-none b.ids id absent in
        rw (absent, remove)
          (
            v,
            sym gone,
            refl,
            λ j. ground (arith, gone),
            λ j. ground (arith, gone, find_delta-none b.ids b.deltas id),
          )
    | inr (k, at) ↦
        let e = index_of-Erases b.ids b.deltas id k v.same_length v.distinct at in
        rw (at, remove)
          (
            record {
              same_length = omega (
                arith,
                v.same_length,
                e.within,
                length-erase_at {0} k b.deltas,
                length-erase_at {0} k b.ids,
              );
              sorted = Sorted-erase_at 0 k b.deltas v.sorted;
              fits =
                  All-erase_at (λ x. (x ≤ max_delta) × (b.base_value + x < 2 ^ 32)) k b.deltas
                    v.fits;
              distinct = e.distinct;
              summary = λ j.
                  ground (arith, R.contains-remove b.summary_bitmap id j, v.summary j, e.others j);
            },
            sym e.found,
            refl,
            e.others,
            λ j. ground (arith, e.values j),
          )
  ]
