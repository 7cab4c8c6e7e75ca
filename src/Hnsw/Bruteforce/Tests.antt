-- ===== src/Hnsw/Bruteforce/Tests.antt =====
-- The brute-force table at concrete inputs.
use endee.Prelude.{
  ℕ, zero, suc, ◌<◌, ◌≡◌, refl, none, some, List, [], ◌∷◌, map, arith, get_or, replicate,
}
use endee.Hnsw.Bruteforce.{new_search, enter, add_point, remove_point, Item, BruteforceSearch}
use endee.Hnsw.Bruteforce.Subset.{emplace, offer, collect, search_knn_subset}
use endee.Hnsw.Bruteforce.Nearest.{insert_desc, sort_onto, search_knn_subset_lem}
use endee.Hnsw.Bruteforce.Places.{
  label_at, remove_point_lem, searched, add_point-remove_point_last, IsIndex, Removes,
}

abbrev blank : Item
blank = record { label = 0; vector = [] }

abbrev fresh : BruteforceSearch
fresh = new_search (replicate 3 blank)

abbrev pair : BruteforceSearch
pair = record {
  items =
      record { label = 7; vector = 1 ∷ [] }
      ∷ (record { label = 8; vector = 2 ∷ [] } ∷ (blank ∷ []));
  max_elements = 3;
  cur_element_count = 2;
  dict_external_to_internal = enter (enter (λ l. none) 7 0) 8 1;
}

two_added :
    (s : BruteforceSearch) × (add_point fresh (1 ∷ []) 7 ≡ some s)
    × (add_point s (2 ∷ []) 8 ≡ some pair)
unfolding add_point new_search
two_added = (_, refl, refl)

pair-placed : (l i : ℕ) → pair.dict_external_to_internal l ≡ some i → label_at pair.items i ≡ some l
pair-placed l zero h = ground arith
pair-placed l (suc zero) h = ground arith
pair-placed l (suc (suc i)) h = absurd (ground arith)

pair-labelled :
    (i l : ℕ) → i < 2 → label_at pair.items i ≡ some l → pair.dict_external_to_internal l ≡ some i
pair-labelled zero l h p = ground arith
pair-labelled (suc zero) l h p = ground arith
pair-labelled (suc (suc i)) l h p = absurd (omega arith)

pair-IsIndex : IsIndex pair
pair-IsIndex = record {
  room = refl;
  within = omega arith;
  used = λ l i h. ground arith;
  placed = pair-placed;
  labelled = pair-labelled;
}

remove_point_lem_example : Removes pair 7 (remove_point pair 7)
remove_point_lem_example = remove_point_lem pair 7 0 pair-IsIndex refl (omega arith)

add_point-remove_point_last_example :
    (s' : BruteforceSearch) × (add_point (remove_point pair 8) (4 ∷ []) 8 ≡ some s')
    × (searched s' ≡ record { label = 7; vector = 1 ∷ [] } ∷ [])
add_point-remove_point_last_example =
    add_point-remove_point_last pair (4 ∷ []) 8 1 pair-IsIndex refl refl

-- The first byte is the distance.
abbrev first_byte : List ℕ → ℕ
first_byte v = get_or v 0 0

abbrev four : List (ℕ × List ℕ)
four = (1, 5 ∷ []) ∷ ((2, 3 ∷ []) ∷ ((3, 9 ∷ []) ∷ ((4, 3 ∷ []) ∷ [])))

two_nearest : search_knn_subset first_byte four 2 ≡ (3, 2) ∷ ((3, 4) ∷ [])
unfolding search_knn_subset collect offer emplace
two_nearest = refl

search_knn_subset_lem_example : map (λ r. r.0) (search_knn_subset first_byte four 2) ≡ 3 ∷ (3 ∷ [])
unfolding sort_onto insert_desc
search_knn_subset_lem_example = search_knn_subset_lem first_byte four 2
