-- ===== src/Filter/Numeric/Halves.antt =====
-- Where a full bucket is cut: never between two equal values.
use endee.Prelude.{
  ℕ, zero, suc, ◌+◌, ◌-◌, ◌/◌, ◌≤◌, ◌<◌, ◌≡◌, refl, sym, ap, ◌∙◌, ◌≢◌, ◌⊎◌, inl, inr, List, [], ◌∷◌,
  arith, ℕ_discrete, ltb, ◌==◌, ltb→lt, lt→ltb, ==_iff, Bool-cases, Sorted, length, get_or, drop,
  length-drop,
}
use endee.Filter.Numeric.{probe_right, probe_left, split_index}
use endee.Filter.Numeric.Rows.{past}

get_or-drop : (n i : ℕ) (xs : List ℕ) → get_or (drop n xs) i 0 ≡ get_or xs (n + i) 0
get_or-drop n i xs = go n xs
  where
    go : (n : ℕ) (xs : List ℕ) → get_or (drop n xs) i 0 ≡ get_or xs (n + i) 0
    go zero xs = ap (λ k. get_or xs k 0) (omega arith)
    go (suc n) [] = refl
    go (suc n) (x ∷ xs) =
        let next : suc n + i ≡ suc (n + i) = omega arith in
        go n xs ∙ sym (ap (λ k. get_or (x ∷ xs) k 0) next)

pub Sorted-get_or_first :
    (lo i : ℕ) (ds : List ℕ) → Sorted lo ds → i < length ds → lo ≤ get_or ds i 0
Sorted-get_or_first lo i [] s h = absurd (omega arith)
Sorted-get_or_first lo zero (d ∷ ds) s h = s.0
Sorted-get_or_first lo (suc i) (d ∷ ds) s h =
    omega (arith, s.0, Sorted-get_or_first d i ds s.1 (omega arith))

Sorted-get_or :
    (lo i j : ℕ) (ds : List ℕ)
    → Sorted lo ds
    → i ≤ j
    → j < length ds
    → get_or ds i 0 ≤ get_or ds j 0
Sorted-get_or lo i j [] s h k = absurd (omega arith)
Sorted-get_or lo zero zero (d ∷ ds) s h k = omega arith
Sorted-get_or lo zero (suc j) (d ∷ ds) s h k = Sorted-get_or_first d j ds s.1 (omega arith)
Sorted-get_or lo (suc i) zero (d ∷ ds) s h k = absurd (omega arith)
Sorted-get_or lo (suc i) (suc j) (d ∷ ds) s h k =
    Sorted-get_or d i j ds s.1 (omega arith) (omega arith)

-- The probe to the right goes over the values that are equal to the one before the middle.
probe_right-step :
    (prev d : ℕ) (xs : List ℕ) (k : ℕ)
    → probe_right prev (d ∷ xs) ≡ suc k
    → (d ≡ prev) × (probe_right d xs ≡ k)
unfolding probe_right
probe_right-step prev d xs k h = elim (Bool-cases (d == prev)) [
  | inl same ↦
      let count : probe_right prev (d ∷ xs) ≡ suc (probe_right d xs) = rw same refl in
      ((==_iff d prev).0 same, omega (arith, h, count))
  | inr other ↦
      let count : probe_right prev (d ∷ xs) ≡ 0 = rw other refl in absurd (omega (arith, h, count))
]

probe_right-equal :
    (prev : ℕ) (xs : List ℕ) (k : ℕ) → probe_right prev xs ≡ suc k → get_or xs k 0 ≡ prev
unfolding probe_right
probe_right-equal prev [] k h = absurd (omega arith)
probe_right-equal prev (d ∷ xs) zero h = (probe_right-step prev d xs 0 h).0
probe_right-equal prev (d ∷ xs) (suc k) h =
    let (same, count) = probe_right-step prev d xs (suc k) h in
    probe_right-equal d xs k count ∙ same

probe_right-stops :
    (prev : ℕ) (xs : List ℕ)
    → probe_right prev xs < length xs
    → get_or xs (probe_right prev xs) 0 ≢ prev
unfolding probe_right
probe_right-stops prev [] h = absurd (omega arith)
probe_right-stops prev (d ∷ xs) h = elim (Bool-cases (d == prev)) [
  | inl same ↦
      let e : d ≡ prev = (==_iff d prev).0 same in
      let count : probe_right prev (d ∷ xs) ≡ suc (probe_right d xs) = rw same refl in
      let fewer : probe_right d xs < length xs = omega (arith, h, count) in
      rw same (λ at. probe_right-stops d xs fewer (at ∙ sym e))
  | inr other ↦ rw other (λ at. absurd (ground arith))
]

-- The probe to the left stops where two values differ, or at the front.
abbrev StopsLeft : List ℕ → ℕ → ℕ → Type 0
StopsLeft ds n k = (k ≡ 0) ⊎ ((0 < k) × ((k ≤ n) × (get_or ds k 0 ≢ get_or ds (k - 1) 0)))

probe_left-stops : (ds : List ℕ) (n : ℕ) → StopsLeft ds n (probe_left ds n)
unfolding probe_left
probe_left-stops ds zero = inl refl
probe_left-stops ds (suc n) = elim (Bool-cases (get_or ds (suc n) 0 == get_or ds n 0)) [
  | inl same ↦ rw same (elim (probe_left-stops ds n) [
    | inl front ↦ inl front
    | inr (some_left, (few, differ)) ↦ inr (some_left, (omega arith, differ))
  ])
  | inr other ↦
      let before : suc n - 1 ≡ n = omega arith in
      rw other (
        inr (
          omega arith,
          (
            omega arith,
            λ at. absurd (ground (arith, sym (ap (λ k. get_or ds k 0) before) ∙ sym at)),
          ),
        ))
]

pub record Cuts (ds : List ℕ) (k : ℕ) : Type 0 where
  pub some_left : 0 < k
  pub some_right : k < length ds
  pub rises : get_or ds (k - 1) 0 < get_or ds k 0

Cuts-differ :
    (ds : List ℕ) (k : ℕ)
    → Sorted 0 ds
    → 0 < k
    → k < length ds
    → get_or ds k 0 ≢ get_or ds (k - 1) 0
    → Cuts ds k
Cuts-differ ds k s low high differ = record {
  some_left = low;
  some_right = high;
  rises =
      let order : get_or ds (k - 1) 0 ≤ get_or ds k 0 =
        Sorted-get_or 0 (k - 1) k ds s (omega arith) high in
      elim (ℕ_discrete (get_or ds k 0) (get_or ds (k - 1) 0)) [
        | yes same ↦ absurd (differ same)
        | no other ↦ omega (arith, order)
      ];
}

-- Two sorted distances at least are cut inside, where the one behind the cut is larger than the one
-- before it, or they are not cut; the index is then their number.
pub split_index-Cuts :
    (ds : List ℕ)
    → Sorted 0 ds
    → 2 ≤ length ds
    → (split_index ds ≡ length ds) ⊎ Cuts ds (split_index ds)
unfolding split_index
split_index-Cuts ds s two =
    let mid = length ds / 2 in
    let prev = get_or ds (mid - 1) 0 in
    let c = probe_right prev (drop mid ds) in
    let middle : 0 < mid = omega arith in
    elim (Bool-cases (ltb (mid + c) (length ds))) [
      | inl inside ↦
          let within : mid + c < length ds = ltb→lt (mid + c) (length ds) inside in
          let stop : get_or (drop mid ds) c 0 ≢ prev =
            probe_right-stops prev (drop mid ds) (omega (arith, length-drop {0} mid ds)) in
          let last : get_or ds (mid + c - 1) 0 ≡ prev = last_equal mid c refl middle in
          rw inside (
            inr (
              Cuts-differ ds (mid + c) s (omega arith) within
                (λ at. stop (get_or-drop mid c ds ∙ at ∙ last))))
      | inr past ↦ rw past (elim (probe_left-stops ds mid) [
        | inl front ↦ rw front (inl refl)
        | inr (some_left, (few, differ)) ↦
            rw (lt→ltb 0 (probe_left ds mid) some_left)
              (inr (Cuts-differ ds (probe_left ds mid) s some_left (omega arith) differ))
      ])
    ]
  where
    last_equal :
        (mid c : ℕ)
        → probe_right (get_or ds (mid - 1) 0) (drop mid ds) ≡ c
        → 0 < mid
        → get_or ds (mid + c - 1) 0 ≡ get_or ds (mid - 1) 0
    last_equal mid zero e low = ap (λ k. get_or ds k 0) (omega arith)
    last_equal mid (suc c) e low =
        let at : mid + suc c - 1 ≡ mid + c = omega arith in
        ap (λ k. get_or ds k 0) at
        ∙ sym (get_or-drop mid c ds)
        ∙ probe_right-equal (get_or ds (mid - 1) 0) (drop mid ds) c e
