-- ===== src/Filter/Numeric/Scan.antt =====
-- What the scan of a range collects: from one bucket, from a field's buckets, and where it starts.
use endee.Prelude.{
  ℕ, zero, suc, ◌+◌, ◌-◌, ◌^◌, ◌≤◌, ◌<◌, ◌≡◌, refl, sym, subst, ◌∙◌, inl, inr, Bool, true, false,
  ◌&&◌, ◌||◌, Option, none, some, some-injective, List, [], ◌∷◌, arith, leb, ◌==◌, if◌then◌else◌,
  ==_iff, Bool-cases, Option-cases, any_eq, Distinct, Sorted, length, get_or, All, All-map, u32,
}
use endee.Roaring.{member, Roaring}
use endee.Filter.Bucket.{max_delta, get_value, Bucket}
use endee.Filter.Bucket.Lookup.{find_delta, find_delta-none, value_of, IsBucket}
use endee.Filter.Numeric.Range.{add_matching, collect_bucket}
use endee.Filter.Numeric.Field.{in_range, is_in_range}

pub find_delta-All :
    (P : ℕ → Type 0) (is ds : List ℕ) (id d : ℕ) → All P ds → find_delta is ds id ≡ some d → P d
unfolding find_delta
find_delta-All P [] ds id d h e = absurd (cc)
find_delta-All P (i ∷ is) [] id d h e = absurd (cc)
find_delta-All P (i ∷ is) (x ∷ ds) id d h e = elim (Bool-cases (i == id)) [
  | inl hit ↦ let same : x ≡ d = some-injective x d (sym (rw hit refl) ∙ e) in subst P same h.0
  | inr miss ↦ find_delta-All P is ds id d h.1 (sym (rw miss refl) ∙ e)
]

pub find_delta-member :
    (is ds : List ℕ) (id : ℕ)
    → length ds ≡ length is
    → any_eq id is ≡ true
    → (d : ℕ) × (find_delta is ds id ≡ some d)
unfolding find_delta
find_delta-member [] ds id e h = absurd (cc)
find_delta-member (i ∷ is) [] id e h = absurd (omega arith)
find_delta-member (i ∷ is) (d ∷ ds) id e h = elim (Bool-cases (i == id)) [
  | inl hit ↦ (d, rw hit refl)
  | inr miss ↦
      let (d', found) = find_delta-member is ds id (omega arith) (ground arith) in
      (d', rw miss found)
]

pub Sorted-first : (lo : ℕ) (ds : List ℕ) → Sorted lo ds → All (λ d. lo ≤ d) ds
Sorted-first lo [] s = tt
Sorted-first lo (d ∷ ds) s = (
  s.0,
  All-map (λ x. d ≤ x) (λ x. lo ≤ x) (λ x h. omega (arith, h, s.0)) ds (Sorted-first d ds s.1),
)

Sorted-last : (lo : ℕ) (ds : List ℕ) → Sorted lo ds → All (λ d. d ≤ get_or ds (length ds - 1) 0) ds
Sorted-last lo [] s = tt
Sorted-last lo (d ∷ []) s = (omega arith, tt)
Sorted-last lo (d ∷ (x ∷ ds)) s =
    let long : length (d ∷ (x ∷ ds)) - 1 ≡ suc (length ds) = omega arith in
    let short : length (x ∷ ds) - 1 ≡ length ds = omega arith in
    let rest : All (λ y. y ≤ get_or (x ∷ ds) (length ds) 0) (x ∷ ds) =
      subst (λ n. All (λ y. y ≤ get_or (x ∷ ds) n 0) (x ∷ ds)) short (Sorted-last d (x ∷ ds) s.1) in
    subst (λ n. All (λ y. y ≤ get_or (d ∷ (x ∷ ds)) n 0) (d ∷ (x ∷ ds))) (sym long)
      (omega (arith, s.1.0, rest.0), rest)

pub All-get_or {ℓ κ} :
    {A : Type ℓ} (P : A → Type κ) (xs : List A) (i : ℕ) (z : A)
    → i < length xs
    → All P xs
    → P (get_or xs i z)
All-get_or P [] i z h all = absurd (omega arith)
All-get_or P (x ∷ xs) zero z h all = all.0
All-get_or P (x ∷ xs) (suc i) z h all = All-get_or P xs i z (omega arith) all.1

first_below : (ds : List ℕ) → Sorted 0 ds → All (λ d. get_or ds 0 0 ≤ d) ds
first_below [] s = tt
first_below (d ∷ ds) s = (omega arith, Sorted-first d ds s.1)

-- Whether the number at a distance from the base is in the range.
abbrev pub at_in_range : ℕ → ℕ → ℕ → Option ℕ → Bool
at_in_range base lo hi none = false
at_in_range base lo hi (some d) = in_range lo hi (base + d)

module _ (R : Roaring) where
  contains-if :
      (c : Bool) (acc : R.Bitmap) (i id : ℕ)
      → R.contains (if c then R.add acc i else acc) id ≡ (R.contains acc id || c && i == id)
  contains-if true acc i id = R.contains-add acc i id ∙ ground arith
  contains-if false acc i id = ground arith

  pub value_of_in_range :
      (b : Bucket R) (lo hi id : ℕ)
      → is_in_range lo hi (value_of R b id)
        ≡ at_in_range b.base_value lo hi (find_delta b.ids b.deltas id)
  unfolding value_of
  value_of_in_range b lo hi id = elim (Option-cases (find_delta b.ids b.deltas id)) [
    | inl e ↦ rw (e, value_of) refl
    | inr (d, e) ↦ rw (e, value_of) refl
  ]

  add_matching-contains :
      (b : Bucket R) (lo hi : ℕ) (acc : R.Bitmap) (ds is : List ℕ) (id : ℕ)
      → length ds ≡ length is
      → Distinct is
      → All (λ d. (d ≤ max_delta) × (b.base_value + d < 2 ^ 32)) ds
      → R.contains (add_matching R b lo hi acc ds is) id
        ≡ (R.contains acc id || at_in_range b.base_value lo hi (find_delta is ds id))
  unfolding add_matching find_delta
  add_matching-contains b lo hi acc [] [] id e distinct fits = ground arith
  add_matching-contains b lo hi acc [] (i ∷ is) id e distinct fits = absurd (omega arith)
  add_matching-contains b lo hi acc (d ∷ ds) [] id e distinct fits = absurd (omega arith)
  add_matching-contains b lo hi acc (d ∷ ds) (i ∷ is) id e distinct fits =
      let v = u32 (b.base_value + d) in
      let exact : v ≡ b.base_value + d = omega (arith, fits.0.1) in
      let now : R.Bitmap = if leb lo v && leb v hi then R.add acc i else acc in
      let rest = add_matching-contains b lo hi now ds is id (omega arith) distinct.1 fits.1 in
      let first : R.contains now id ≡ (R.contains acc id || in_range lo hi v && i == id) =
        contains-if (leb lo v && leb v hi) acc i id in
      rest
      ∙ rw first (elim (Bool-cases (i == id)) [
        | inl same ↦
            let e : i ≡ id = (==_iff i id).0 same in
            let gone : find_delta is ds id ≡ none =
              find_delta-none is ds id (subst (λ j. any_eq j is ≡ false) e distinct.0) in
            rw (same, gone, exact) (ground arith)
        | inr other ↦ rw other (ground arith)
      ])

  -- Between the first number of a bucket and its last there are all of them.
  members_in_range :
      (b : Bucket R) (lo hi id : ℕ)
      → IsBucket R b
      → (length b.ids == 0) ≡ false
      → (leb lo (get_value R b 0) && leb (get_value R b (length b.ids - 1)) hi) ≡ true
      → any_eq id b.ids ≡ at_in_range b.base_value lo hi (find_delta b.ids b.deltas id)
  unfolding get_value
  members_in_range b lo hi id v some_ids whole = elim (Bool-cases (any_eq id b.ids)) [
    | inl member ↦
        let (d, found) = find_delta-member b.ids b.deltas id v.same_length member in
        let count : length b.ids - 1 ≡ length b.deltas - 1 = omega (arith, v.same_length) in
        let first : get_or b.deltas 0 0 ≤ d =
          find_delta-All (λ x. get_or b.deltas 0 0 ≤ x) b.ids b.deltas id d
            (first_below b.deltas v.sorted) found in
        let last : d ≤ get_or b.deltas (length b.deltas - 1) 0 =
          find_delta-All (λ x. x ≤ get_or b.deltas (length b.deltas - 1) 0) b.ids b.deltas id d
            (Sorted-last 0 b.deltas v.sorted) found in
        let end =
          All-get_or (λ x. (x ≤ max_delta) × (b.base_value + x < 2 ^ 32)) b.deltas
            (length b.deltas - 1) 0 (ground (arith, v.same_length)) v.fits in
        let inside =
          subst
            (λ n.
              (leb lo (u32 (b.base_value + get_or b.deltas 0 0))
                && leb (u32 (b.base_value + get_or b.deltas n 0)) hi)
              ≡ true)
            count whole in
        rw (member, found) (sym (ground (arith, first, last, end.1, inside)))
    | inr absent ↦ rw (absent, find_delta-none b.ids b.deltas id absent) refl
  ]

  -- From a sorted bucket that is not empty the identifiers with a number in the range are added to
  -- those collected before, and no other.
  pub collect_bucket-contains :
      (b : Bucket R) (lo hi : ℕ) (acc : R.Bitmap) (id : ℕ)
      → IsBucket R b
      → (length b.ids == 0) ≡ false
      → R.contains (collect_bucket R b lo hi acc) id
        ≡ (R.contains acc id || is_in_range lo hi (value_of R b id))
  unfolding collect_bucket get_value
  collect_bucket-contains b lo hi acc id v some_ids =
      rw (value_of_in_range b lo hi id)
        (elim (Bool-cases (leb lo (get_value R b 0) && leb (get_value R b (length b.ids - 1)) hi)) [
          | inl whole ↦ rw whole (
              R.contains-union acc b.summary_bitmap id
              ∙ rw (v.summary id, members_in_range b lo hi id v some_ids whole) refl)
          | inr part ↦
              rw part (
                add_matching-contains b lo hi acc b.deltas b.ids id v.same_length v.distinct v.fits)
        ])
