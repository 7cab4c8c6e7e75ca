-- ===== src/Hnsw/Remove/Lists.antt =====
-- The lists that `removeAllConnections2` of src/hnsw/hnswalg.h works on.
use mathlib.Core.List.{reverse, reverse_aux}
use endee.Prelude.{
  ℕ, zero, suc, ◌/◌, ◌≤◌, ◌≡◌, refl, ap, ◌∙◌, inl, inr, false, not, ◌&&◌, ◌||◌, List, [], ◌∷◌,
  arith, ltb, leb, ◌==◌, Bool-cases, any_eq, length, take, All,
}
use endee.Hnsw.Graph.{Graph}
use endee.Hnsw.Remove.{
  keep_others, level_neighbors, insert_id, sort_ids, unique_after, unique, zip, end_pairs,
}

module _ (P : ℕ → Type 0) where
  pub All-keep_others : (i : ℕ) (js : List ℕ) → All P js → All P (keep_others i js)
  unfolding keep_others
  All-keep_others i [] h = tt
  All-keep_others i (j ∷ js) h = elim (Bool-cases (j == i)) [
    | inl gone ↦ rw (gone, keep_others) (All-keep_others i js h.1)
    | inr kept ↦ rw (kept, keep_others) (h.0, All-keep_others i js h.1)
  ]

  All-insert_id : (i : ℕ) (js : List ℕ) → P i → All P js → All P (insert_id i js)
  unfolding insert_id
  All-insert_id i [] h k = (h, tt)
  All-insert_id i (j ∷ js) h k = elim (Bool-cases (ltb j i)) [
    | inl above ↦ rw (above, insert_id) (k.0, All-insert_id i js h k.1)
    | inr below ↦ rw (below, insert_id) (h, k)
  ]

  All-sort_ids : (is : List ℕ) → All P is → All P (sort_ids is)
  unfolding sort_ids
  All-sort_ids [] h = tt
  All-sort_ids (i ∷ is) h = All-insert_id i (sort_ids is) h.0 (All-sort_ids is h.1)

  All-unique_after : (i : ℕ) (js : List ℕ) → All P js → All P (unique_after i js)
  unfolding unique_after
  All-unique_after i [] h = tt
  All-unique_after i (j ∷ js) h = elim (Bool-cases (i == j)) [
    | inl twice ↦ rw (twice, unique_after) (All-unique_after j js h.1)
    | inr once ↦ rw (once, unique_after) (h.0, All-unique_after j js h.1)
  ]

  pub All-unique : (is : List ℕ) → All P is → All P (unique is)
  unfolding unique
  All-unique [] h = tt
  All-unique (i ∷ is) h = (h.0, All-unique_after i is h.1)

  pub All-unique-sort_ids : (is : List ℕ) → All P is → All P (unique (sort_ids is))
  All-unique-sort_ids is h = All-unique (sort_ids is) (All-sort_ids is h)

  All-reverse_aux : (xs acc : List ℕ) → All P xs → All P acc → All P (reverse_aux xs acc)
  All-reverse_aux [] acc h k = k
  All-reverse_aux (x ∷ xs) acc h k = All-reverse_aux xs (x ∷ acc) h.1 (h.0, k)

  All-zip : (xs ys : List ℕ) → All P xs → All P ys → All (λ (p : ℕ × ℕ). P p.0 × P p.1) (zip xs ys)
  All-zip [] ys h k = tt
  All-zip (x ∷ xs) [] h k = tt
  All-zip (x ∷ xs) (y ∷ ys) h k = ((h.0, k.0), All-zip xs ys h.1 k.1)

  All-take : (n : ℕ) (Q : ℕ × ℕ → Type 0) (ps : List (ℕ × ℕ)) → All Q ps → All Q (take n ps)
  All-take zero Q ps h = tt
  All-take (suc n) Q [] h = tt
  All-take (suc n) Q (p ∷ ps) h = (h.0, All-take n Q ps h.1)

  pub All-end_pairs : (ns : List ℕ) → All P ns → All (λ p. P p.0 × P p.1) (end_pairs ns)
  unfolding end_pairs
  All-end_pairs ns h =
      All-take (length ns / 2) (λ p. P p.0 × P p.1) (zip ns (reverse ns))
        (All-zip ns (reverse ns) h (All-reverse_aux ns [] h tt))

pub length-keep_others : (i : ℕ) (js : List ℕ) → length (keep_others i js) ≤ length js
unfolding keep_others
length-keep_others i [] = omega arith
length-keep_others i (j ∷ js) = ground (arith, length-keep_others i js)

pub any_eq-keep_others : (i : ℕ) (js : List ℕ) → any_eq i (keep_others i js) ≡ false
unfolding keep_others
any_eq-keep_others i [] = refl
any_eq-keep_others i (j ∷ js) = ground (arith, any_eq-keep_others i js)

pub any_eq-insert_id : (k i : ℕ) (js : List ℕ) → any_eq k (insert_id i js) ≡ (i == k || any_eq k js)
unfolding insert_id
any_eq-insert_id k i [] = refl
any_eq-insert_id k i (j ∷ js) = ground (arith, any_eq-insert_id k i js)

pub any_eq-sort_ids : (k : ℕ) (is : List ℕ) → any_eq k (sort_ids is) ≡ any_eq k is
unfolding sort_ids
any_eq-sort_ids k [] = refl
any_eq-sort_ids k (i ∷ is) =
    any_eq-insert_id k i (sort_ids is) ∙ ap (λ b. i == k || b) (any_eq-sort_ids k is)

any_eq-unique_after :
    (k i : ℕ) (js : List ℕ) → (i == k || any_eq k (unique_after i js)) ≡ (i == k || any_eq k js)
unfolding unique_after
any_eq-unique_after k i [] = refl
any_eq-unique_after k i (j ∷ js) = ground (arith, any_eq-unique_after k j js)

pub any_eq-unique : (k : ℕ) (is : List ℕ) → any_eq k (unique is) ≡ any_eq k is
unfolding unique
any_eq-unique k [] = refl
any_eq-unique k (i ∷ is) = any_eq-unique_after k i is

pub any_eq-level_neighbors :
    (g : Graph) (i k : ℕ) (js : List ℕ)
    → any_eq k (level_neighbors g i js)
      ≡ (any_eq k js && not (leb g.cur_elements_count k || k == i))
unfolding level_neighbors
any_eq-level_neighbors g i k [] = refl
any_eq-level_neighbors g i k (j ∷ js) = ground (arith, any_eq-level_neighbors g i k js)
