-- ===== src/Filter/Numeric/Cut.antt =====
-- The entries of a bucket in two parts, cut at an index where the distances rise.
-- The part of the values below a bound, and the rest.
use endee.Prelude.{
  ℕ, zero, suc, ◌+◌, ◌≤◌, ◌<◌, ◌≡◌, refl, subst, inl, inr, false, Option, none, some, List, [], ◌∷◌,
  arith, ltb, ◌==◌, if◌then◌else◌, ==_iff, ==_refl, Bool-cases, Option-cases, any_eq, Distinct,
  Sorted, length, get_or, take, drop, All,
}
use endee.Roaring.{Roaring}
use endee.Filter.Bucket.{Bucket}
use endee.Filter.Bucket.Lookup.{find_delta, find_delta-none, value_of, IsBucket}
use endee.Filter.Numeric.Scan.{find_delta-All, Sorted-first}
use endee.Filter.Numeric.Halves.{Sorted-get_or_first}

abbrev pub below_part : ℕ → Option ℕ → Option ℕ
below_part m none = none
below_part m (some v) = if ltb v m then some v else none

abbrev pub above_part : ℕ → Option ℕ → Option ℕ
above_part m none = none
above_part m (some v) = if ltb v m then none else some v

pub any_eq-take : (k j : ℕ) (is : List ℕ) → any_eq j is ≡ false → any_eq j (take k is) ≡ false
any_eq-take zero j is h = refl
any_eq-take (suc k) j [] h = refl
any_eq-take (suc k) j (i ∷ is) h = ground (arith, any_eq-take k j is)

pub any_eq-drop : (k j : ℕ) (is : List ℕ) → any_eq j is ≡ false → any_eq j (drop k is) ≡ false
any_eq-drop zero j is h = h
any_eq-drop (suc k) j [] h = refl
any_eq-drop (suc k) j (i ∷ is) h = any_eq-drop k j is (ground arith)

pub Distinct-take : (k : ℕ) (is : List ℕ) → Distinct is → Distinct (take k is)
Distinct-take zero is d = tt
Distinct-take (suc k) [] d = tt
Distinct-take (suc k) (i ∷ is) d = (any_eq-take k i is d.0, Distinct-take k is d.1)

pub Distinct-drop : (k : ℕ) (is : List ℕ) → Distinct is → Distinct (drop k is)
Distinct-drop zero is d = d
Distinct-drop (suc k) [] d = tt
Distinct-drop (suc k) (i ∷ is) d = Distinct-drop k is d.1

pub All-drop {ℓ κ} :
    {A : Type ℓ} (P : A → Type κ) (k : ℕ) (xs : List A) → All P xs → All P (drop k xs)
All-drop P zero xs h = h
All-drop P (suc k) [] h = tt
All-drop P (suc k) (x ∷ xs) h = All-drop P k xs h.1

pub Sorted-take : (lo k : ℕ) (ds : List ℕ) → Sorted lo ds → Sorted lo (take k ds)
Sorted-take lo zero ds s = tt
Sorted-take lo (suc k) [] s = tt
Sorted-take lo (suc k) (d ∷ ds) s = (s.0, Sorted-take d k ds s.1)

-- The distances up to a cut, and those behind it.
pub take_below :
    (lo m k : ℕ) (ds : List ℕ)
    → Sorted lo ds
    → k < length ds
    → get_or ds k 0 < m
    → All (λ d. d < m) (take (suc k) ds)
take_below lo m k [] s h low = absurd (omega arith)
take_below lo m zero (d ∷ ds) s h low = (low, tt)
take_below lo m (suc k) (d ∷ ds) s h low = (
  omega (arith, Sorted-get_or_first d k ds s.1 (omega arith)),
  take_below d m k ds s.1 (omega arith) low,
)

pub drop_above :
    (lo k : ℕ) (ds : List ℕ)
    → Sorted lo ds
    → k < length ds
    → All (λ d. get_or ds k 0 ≤ d) (drop k ds)
drop_above lo k [] s h = absurd (omega arith)
drop_above lo zero (d ∷ ds) s h = (omega arith, Sorted-first d ds s.1)
drop_above lo (suc k) (d ∷ ds) s h = drop_above d k ds s.1 (omega arith)

pub find_delta-take :
    (m k : ℕ) (is ds : List ℕ) (j : ℕ)
    → length ds ≡ length is
    → All (λ d. d < m) (take k ds)
    → All (λ d. m ≤ d) (drop k ds)
    → find_delta (take k is) (take k ds) j ≡ below_part m (find_delta is ds j)
unfolding find_delta
find_delta-take m zero is ds j e low high = elim (Option-cases (find_delta is ds j)) [
  | inl none_there ↦ rw none_there refl
  | inr (d, found) ↦
      let far : m ≤ d = find_delta-All (λ x. m ≤ x) is ds j d high found in rw found (ground arith)
]
find_delta-take m (suc k) [] ds j e low high = refl
find_delta-take m (suc k) (i ∷ is) [] j e low high = refl
find_delta-take m (suc k) (i ∷ is) (d ∷ ds) j e low high = elim (Bool-cases (i == j)) [
  | inl same ↦ rw same (ground (arith, low.0))
  | inr other ↦ rw other (find_delta-take m k is ds j (omega arith) low.1 high)
]

pub find_delta-drop :
    (m k : ℕ) (is ds : List ℕ) (j : ℕ)
    → length ds ≡ length is
    → Distinct is
    → All (λ d. d < m) (take k ds)
    → All (λ d. m ≤ d) (drop k ds)
    → find_delta (drop k is) (drop k ds) j ≡ above_part m (find_delta is ds j)
unfolding find_delta
find_delta-drop m zero is ds j e distinct low high = elim (Option-cases (find_delta is ds j)) [
  | inl none_there ↦ rw none_there refl
  | inr (d, found) ↦
      let far : m ≤ d = find_delta-All (λ x. m ≤ x) is ds j d high found in rw found (ground arith)
]
find_delta-drop m (suc k) [] ds j e distinct low high = refl
find_delta-drop m (suc k) (i ∷ is) [] j e distinct low high = absurd (omega arith)
find_delta-drop m (suc k) (i ∷ is) (d ∷ ds) j e distinct low high = elim (Bool-cases (i == j)) [
  | inl same ↦
      let at : i ≡ j = (==_iff i j).0 same in
      let gone =
        find_delta-none (drop k is) (drop k ds) j
          (any_eq-drop k j is (subst (λ x. any_eq x is ≡ false) at distinct.0)) in
      rw (same, gone) (ground (arith, low.0))
  | inr other ↦ rw other (find_delta-drop m k is ds j (omega arith) distinct.1 low.1 high)
]

find_delta_at :
    (k : ℕ) (is ds : List ℕ)
    → length ds ≡ length is
    → Distinct is
    → k < length is
    → find_delta is ds (get_or is k 0) ≡ some (get_or ds k 0)
unfolding find_delta
find_delta_at k [] ds e distinct h = absurd (omega arith)
find_delta_at k (i ∷ is) [] e distinct h = absurd (omega arith)
find_delta_at zero (i ∷ is) (d ∷ ds) e distinct h = rw (==_refl i) refl
find_delta_at (suc k) (i ∷ is) (d ∷ ds) e distinct h =
    rw (differs is k (omega arith) distinct.0)
      (find_delta_at k is ds (omega arith) distinct.1 (omega arith))
  where
    differs :
        (is : List ℕ) (k : ℕ) → k < length is → any_eq i is ≡ false → (i == get_or is k 0) ≡ false
    differs [] k h apart = absurd (omega arith)
    differs (x ∷ is) zero h apart = ground arith
    differs (x ∷ is) (suc k) h apart = differs is k (omega arith) (ground arith)

-- A bound of all the values of a bucket is one of each entry.
pub value_of-bound :
    (R : Roaring) (b : Bucket R) (k c : ℕ)
    → IsBucket R b
    → k < length b.deltas
    → ((j w : ℕ) → value_of R b j ≡ some w → w < c)
    → b.base_value + get_or b.deltas k 0 < c
unfolding value_of
value_of-bound R b k c v h bound =
    let found =
      find_delta_at k b.ids b.deltas v.same_length v.distinct (omega (arith, v.same_length)) in
    bound (get_or b.ids k 0) (b.base_value + get_or b.deltas k 0) (rw (found, value_of) refl)
