-- ===== src/Hnsw/Bruteforce/Subset.antt =====
-- `searchKnnSubset` of src/hnsw/bruteforce.h. A distance is its rank among the distances, a natural
-- number, so a distance that is not a number is left out; the space's distance function is a
-- parameter. A priority queue is the list of its pairs, the greatest first.
use mathlib.Core.List.{reverse}
use endee.Prelude.{ℕ, Bool, ◌&&◌, ◌||◌, List, [], ◌∷◌, ltb, ◌==◌, if◌then◌else◌, is_empty, length}

-- `std::pair` compares the distance first.
abbrev pub pair_lt : ℕ × ℕ → ℕ × ℕ → Bool
pair_lt (d, l) (d', l') = ltb d d' || d == d' && ltb l l'

unfoldable pub emplace : ℕ × ℕ → List (ℕ × ℕ) → List (ℕ × ℕ)
emplace p [] = p ∷ []
emplace p (r ∷ q) = if pair_lt p r then r ∷ emplace p q else p ∷ (r ∷ q)

-- One vector is put in the queue of the best `k`, or not. `k` is not 0, so a full queue has a top.
unfoldable pub offer : ℕ → ℕ → ℕ → List (ℕ × ℕ) → List (ℕ × ℕ)
offer k distance label [] = emplace (distance, label) []
offer k distance label (top ∷ q) =
    if ltb (length (top ∷ q)) k
    then emplace (distance, label) (top ∷ q)
    else if ltb distance top.0
    then emplace (distance, label) q
    else top ∷ q

unfoldable pub collect : (List ℕ → ℕ) → ℕ → List (ℕ × List ℕ) → List (ℕ × ℕ) → List (ℕ × ℕ)
collect distance_func k [] q = q
collect distance_func k ((label, vec_bytes) ∷ rest) q =
    collect distance_func k rest (offer k (distance_func vec_bytes) label q)

-- The queue is emptied from its top, and the list turned round.
unfoldable pub search_knn_subset : (List ℕ → ℕ) → List (ℕ × List ℕ) → ℕ → List (ℕ × ℕ)
search_knn_subset distance_func vector_subset k =
    if is_empty vector_subset || k == 0
    then []
    else reverse (collect distance_func k vector_subset [])
