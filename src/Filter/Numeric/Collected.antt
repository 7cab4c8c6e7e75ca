-- ===== src/Filter/Numeric/Collected.antt =====
-- What the scan over the buckets of a field collects.
use endee.Prelude.{
  ℕ, ◌^◌, ◌≤◌, ◌<◌, ◌≡◌, refl, ◌∙◌, inl, inr, true, false, ◌||◌, some, List, [], ◌∷◌, ◌++◌, arith,
  ltb, ◌==◌, if◌then◌else◌, ltb→lt, Bool-cases, Option-cases, length, All, All-map, List-cases,
}
use endee.Roaring.{Roaring}
use endee.Filter.Bucket.{Bucket}
use endee.Filter.Bucket.Lookup.{find_delta, value_of}
use endee.Filter.Numeric.{of_result}
use endee.Filter.Numeric.Keys.{starts_with-make_bucket_key}
use endee.Filter.Numeric.Range.{collect_bucket, scan}
use endee.Filter.Numeric.Field.{is_in_range, All-at, hits, IsField, Precedes}
use endee.Filter.Numeric.Stored.{clean, clean-IsStored, value_of-clean, deserialize_stored}
use endee.Filter.Numeric.Rows.{rows_of, past, start_of}
use endee.Filter.Numeric.Scan.{value_of_in_range, collect_bucket-contains}

module _ (R : Roaring) where
  pub above_none :
      (b : Bucket R) (lo hi id : ℕ)
      → hi < b.base_value
      → is_in_range lo hi (value_of R b id) ≡ false
  above_none b lo hi id h =
      value_of_in_range R b lo hi id ∙ (elim (Option-cases (find_delta b.ids b.deltas id)) [
        | inl e ↦ rw e refl
        | inr (d, e) ↦ rw e (ground arith)
      ])

  pub hits-above :
      (bs : List (Bucket R)) (lo hi id : ℕ)
      → All (λ b. hi < b.base_value) bs
      → hits R bs lo hi id ≡ false
  hits-above [] lo hi id h = refl
  hits-above (b ∷ bs) lo hi id h = rw (above_none b lo hi id h.0) (hits-above bs lo hi id h.1)

  pub below_none :
      (b c : Bucket R) (lo hi id : ℕ)
      → Precedes R b c
      → c.base_value ≤ lo
      → is_in_range lo hi (value_of R b id) ≡ false
  below_none b c lo hi id p h = elim (Option-cases (value_of R b id)) [
    | inl e ↦ rw e refl
    | inr (v, e) ↦ rw e (ground (arith, p.values id v e))
  ]

  -- The buckets before the place of the lower end have nothing in the range.
  pub hits-before :
      (n : ℕ) (pre : List (Bucket R)) (b : Bucket R) (post : List (Bucket R)) (lo hi id : ℕ)
      → IsField R n (pre ++ (b ∷ post))
      → b.base_value ≤ lo
      → hits R (pre ++ (b ∷ post)) lo hi id ≡ hits R (b ∷ post) lo hi id
  hits-before n [] b post lo hi id f h = refl
  hits-before n (a ∷ pre) b post lo hi id f h =
      rw (below_none a b lo hi id (All-at (Precedes R a) pre b post f.1.0) h)
        (hits-before n pre b post lo hi id f.1.1 h)

  pub bases_after :
      (b : Bucket R) (bs : List (Bucket R)) (v : ℕ)
      → v ≤ b.base_value
      → All (Precedes R b) bs
      → All (λ c. v < c.base_value) bs
  bases_after b bs v h orders =
      All-map (Precedes R b) (λ c. v < c.base_value) (λ c p. omega (arith, h, p.bases)) bs orders

  pub no_ids :
      (b : Bucket R) (lo hi id : ℕ)
      → (length b.ids == 0) ≡ true
      → is_in_range lo hi (value_of R b id) ≡ false
  unfolding find_delta
  no_ids b lo hi id h =
      value_of_in_range R b lo hi id
      ∙ elim (List-cases b.ids) [ inl e ↦ rw e refl | inr (i, is, e) ↦ absurd (ground arith) ]

module _ (R : Roaring) (field : List ℕ) where
  abbrev pub Collects : R.Bitmap → List (Bucket R) → ℕ → ℕ → R.Bitmap → Type 0
  Collects acc bs lo hi result =
      (id : ℕ) → R.contains result id ≡ (R.contains acc id || hits R bs lo hi id)

  pub scan-hits :
      (n : ℕ) (bs : List (Bucket R)) (lo hi : ℕ) (acc : R.Bitmap)
      → n < 2 ^ 16
      → IsField R n bs
      → (result : R.Bitmap) × ((scan R field lo hi acc (rows_of R field bs) ≡ some result)
          × Collects acc bs lo hi result)
  unfolding scan of_result
  scan-hits n [] lo hi acc hn f = (acc, (refl, λ id. ground arith))
  scan-hits n (b ∷ bs) lo hi acc hn f = elim (Bool-cases (ltb hi b.base_value)) [
    | inl past ↦
        let over : hi < b.base_value = ltb→lt hi b.base_value past in
        (
          acc,
          (
            rw
                (
                  starts_with-make_bucket_key field b.base_value,
                  start_of R field b f.0.small_base,
                  past,
                  scan,
                )
                refl,
            λ id.
                rw
                  (hits-above R (b ∷ bs) lo hi id (over, bases_after R b bs hi (omega arith) f.1.0))
                  (ground arith),
          ),
        )
    | inr near ↦
        let next : R.Bitmap =
          if length b.ids == 0 then acc else collect_bucket R (clean R b) lo hi acc in
        let (result, (done, collected)) = scan-hits n bs lo hi next hn f.1.1 in
        (
          result,
          (
            rw
                (
                  starts_with-make_bucket_key field b.base_value,
                  start_of R field b f.0.small_base,
                  near,
                  deserialize_stored R n b hn f.0,
                  scan,
                  of_result,
                )
                done,
            λ id. collected id ∙ elim (Bool-cases (length b.ids == 0)) [
              | inl none_there ↦ rw (none_there, no_ids R b lo hi id none_there) refl
              | inr some_there ↦
                  rw
                    (
                      some_there,
                      collect_bucket-contains R (clean R b) lo hi acc id
                          (clean-IsStored R n b f.0).valid some_there,
                      value_of-clean R b id,
                    )
                    (ground arith)
            ],
          ),
        )
  ]
