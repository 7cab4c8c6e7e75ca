-- ===== src/Hnsw/Search/Order.antt =====
-- The queues of a search as sorted lists.
use mathlib.Core.List.{reverse, reverse_aux}
use endee.Prelude.{
  ℕ, suc, ◌+◌, ◌≤◌, ◌≡◌, refl, inl, inr, List, [], ◌∷◌, arith, ltb, ltb→lt, ltb→le, le→ltb,
  Bool-cases, length, All,
}
use endee.Hnsw.Search.{push_candidate, push_top, trim}

abbrev pub IsAscending : List (ℕ × ℕ) → Type 0
IsAscending [] = Unit {0}
IsAscending (p ∷ ps) = All (λ r. p.0 ≤ r.0) ps × IsAscending ps

abbrev pub IsDescending : List (ℕ × ℕ) → Type 0
IsDescending [] = Unit {0}
IsDescending (p ∷ ps) = All (λ r. r.0 ≤ p.0) ps × IsDescending ps

pub All-push_candidate :
    (P : ℕ × ℕ → Type 0) (p : ℕ × ℕ) (q : List (ℕ × ℕ)) → P p → All P q → All P (push_candidate p q)
unfolding push_candidate
All-push_candidate P p [] h a = (h, tt)
All-push_candidate P p (r ∷ q) h a = elim (Bool-cases (ltb p.0 r.0)) [
  | inl below ↦ rw (below, push_candidate) (a.0, All-push_candidate P p q h a.1)
  | inr above ↦ rw (above, push_candidate) (h, a)
]

All-push_top :
    (P : ℕ × ℕ → Type 0) (p : ℕ × ℕ) (q : List (ℕ × ℕ)) → P p → All P q → All P (push_top p q)
unfolding push_top
All-push_top P p [] h a = (h, tt)
All-push_top P p (r ∷ q) h a = elim (Bool-cases (ltb r.0 p.0)) [
  | inl below ↦ rw (below, push_top) (a.0, All-push_top P p q h a.1)
  | inr above ↦ rw (above, push_top) (h, a)
]

length-push_top : (p : ℕ × ℕ) (q : List (ℕ × ℕ)) → length (push_top p q) ≡ suc (length q)
unfolding push_top
length-push_top p [] = refl
length-push_top p (r ∷ q) = ground (arith, length-push_top p q)

All-ge : (a b : ℕ) (ps : List (ℕ × ℕ)) → a ≤ b → All (λ r. b ≤ r.0) ps → All (λ r. a ≤ r.0) ps
All-ge a b [] h k = tt
All-ge a b (p ∷ ps) h k = (omega (arith, k.0), All-ge a b ps h k.1)

push_top-IsAscending : (p : ℕ × ℕ) (q : List (ℕ × ℕ)) → IsAscending q → IsAscending (push_top p q)
unfolding push_top
push_top-IsAscending p [] a = (tt, tt)
push_top-IsAscending p (r ∷ q) a = elim (Bool-cases (ltb r.0 p.0)) [
  | inl below ↦
      rw (below, push_top)
        (
          All-push_top (λ t. r.0 ≤ t.0) p q (omega (arith, ltb→lt r.0 p.0 below)) a.0,
          push_top-IsAscending p q a.1,
        )
  | inr above ↦
      let up : p.0 ≤ r.0 = ltb→le r.0 p.0 above in
      rw (above, push_top) ((up, All-ge p.0 r.0 q up a.0), a)
]

-- The `ef` most similar pairs seen so far.
pub record IsBest (P : ℕ × ℕ → Type 0) (ef : ℕ) (top : List (ℕ × ℕ)) : Type 0 where
  pub each : All P top
  pub ascending : IsAscending top
  pub few : length top ≤ ef

pub trim-IsBest :
    (P : ℕ × ℕ → Type 0) (ef : ℕ) (top : List (ℕ × ℕ)) → IsBest P ef top → IsBest P ef (trim ef top)
unfolding trim
trim-IsBest P ef top b = rw (le→ltb ef (length top) b.few) b

trim_cut :
    (P : ℕ × ℕ → Type 0) (ef : ℕ) (l : List (ℕ × ℕ))
    → All P l
    → IsAscending l
    → length l ≤ suc ef
    → IsBest P ef (trim ef l)
unfolding trim
trim_cut P ef [] a s n =
    trim-IsBest P ef [] (record { each = tt; ascending = tt; few = omega arith })
trim_cut P ef (p ∷ ps) a s n = elim (Bool-cases (ltb ef (suc (length ps)))) [
  | inl over ↦ rw (over, trim) (record { each = a.1; ascending = s.1; few = omega arith })
  | inr fits ↦
      rw (fits, trim) (record { each = a; ascending = s; few = ltb→le ef (suc (length ps)) fits })
]

pub trim-push_top-IsBest :
    (P : ℕ × ℕ → Type 0) (ef : ℕ) (p : ℕ × ℕ) (top : List (ℕ × ℕ))
    → P p
    → IsBest P ef top
    → IsBest P ef (trim ef (push_top p top))
trim-push_top-IsBest P ef p top h b =
    trim_cut P ef (push_top p top) (All-push_top P p top h b.each)
      (push_top-IsAscending p top b.ascending) (omega (arith, length-push_top p top, b.few))

Descending-reverse_aux :
    (ps acc : List (ℕ × ℕ))
    → IsAscending ps
    → IsDescending acc
    → All (λ p. All (λ r. r.0 ≤ p.0) acc) ps
    → IsDescending (reverse_aux ps acc)
Descending-reverse_aux [] acc a d k = d
Descending-reverse_aux (p ∷ ps) acc a d k =
    Descending-reverse_aux ps (p ∷ acc) a.1 (k.0, d) (above p acc ps a.0 k.1)
  where
    above :
        (p : ℕ × ℕ) (acc ps : List (ℕ × ℕ))
        → All (λ r. p.0 ≤ r.0) ps
        → All (λ t. All (λ r. r.0 ≤ t.0) acc) ps
        → All (λ t. All (λ r. r.0 ≤ t.0) (p ∷ acc)) ps
    above p acc [] h k = tt
    above p acc (t ∷ ps) h k = ((h.0, k.0), above p acc ps h.1 k.1)

All-nothing : (ps : List (ℕ × ℕ)) → All (λ p. All (λ (r : ℕ × ℕ). r.0 ≤ p.0) []) ps
All-nothing [] = tt
All-nothing (p ∷ ps) = (tt, All-nothing ps)

pub reverse-IsDescending : (ps : List (ℕ × ℕ)) → IsAscending ps → IsDescending (reverse ps)
reverse-IsDescending ps a = Descending-reverse_aux ps [] a tt (All-nothing ps)

All-reverse_aux :
    (P : ℕ × ℕ → Type 0) (ps acc : List (ℕ × ℕ)) → All P ps → All P acc → All P (reverse_aux ps acc)
All-reverse_aux P [] acc h k = k
All-reverse_aux P (p ∷ ps) acc h k = All-reverse_aux P ps (p ∷ acc) h.1 (h.0, k)

pub All-reverse : (P : ℕ × ℕ → Type 0) (ps : List (ℕ × ℕ)) → All P ps → All P (reverse ps)
All-reverse P ps h = All-reverse_aux P ps [] h tt

length-reverse_aux : (ps acc : List (ℕ × ℕ)) → length (reverse_aux ps acc) ≡ length ps + length acc
length-reverse_aux [] acc = omega arith
length-reverse_aux (p ∷ ps) acc = omega (arith, length-reverse_aux ps (p ∷ acc))

pub length-reverse : (ps : List (ℕ × ℕ)) → length (reverse ps) ≡ length ps
length-reverse ps = omega (arith, length-reverse_aux ps [])
