-- ===== src/Hnsw/Knn/Tests.antt =====
-- A search through two layers at a concrete input.
use endee.Prelude.{
  ℕ, ◌-◌, ◌≤◌, ◌≡◌, refl, ◌⊎◌, none, some, List, [], ◌∷◌, ◌==◌, if◌then◌else◌, length, get_or,
  replicate, All,
}
use endee.Hnsw.Visited.{mark, is_visited, VisitedList}
use endee.Hnsw.Graph.{Bytes, get_data}
use endee.Hnsw.Search.{push_candidate, push_top, trim, top_sim}
use endee.Hnsw.Search.Loop.{round, search_base_layer}
use endee.Hnsw.Search.Order.{IsDescending}
use endee.Hnsw.Knn.{sim_of, walk, find_entry, knn_query, search_knn, HierarchicalNsw}
use endee.Hnsw.Knn.Walk.{Best, walk_returns}
use endee.Hnsw.Knn.Answers.{search_knn_lem, IsHit, IsTop}

-- Nodes 0, 2 and 3 stand in layer 1, in a row; layer 0 has node 1 between 0 and 2.
abbrev layers : ℕ → ℕ → List ℕ
layers l i =
    if l == 0
    then get_or ((1 ∷ []) ∷ ((0 ∷ (2 ∷ [])) ∷ ((1 ∷ (3 ∷ [])) ∷ ((2 ∷ []) ∷ [])))) i []
    else get_or ((2 ∷ []) ∷ ([] ∷ ((0 ∷ (3 ∷ [])) ∷ ((2 ∷ []) ∷ [])))) i []

abbrev closeness : Bytes → Bytes → ℕ
closeness x y = 100 - (get_or x 0 0 - get_or y 0 0) - (get_or y 0 0 - get_or x 0 0)

abbrev layered : HierarchicalNsw
layered = record {
  graph = record {
    max_elements = 4;
    cur_elements_count = 4;
    m = 16;
    m0 = 32;
    links = layers;
    upper = λ i. if i == 1 then none else some (i ∷ []);
    stored = λ i. some (i ∷ []);
    is_marked_deleted = λ i. i == 3;
    external_label = λ i. i;
    sim_func = closeness;
  };
  entry_point = 0;
  max_level = 1;
  deleted_elements_count = 1;
  ef_construction = 2;
  label_lookup = some 0 ∷ (some 1 ∷ (some 2 ∷ (some 3 ∷ [])));
  levels = λ i. if i == 1 then 0 else 1;
}

abbrev all_new : VisitedList
all_new = record { cur_v = 1; mass = replicate 4 0 }

-- The walk goes from 0 over 2 to 3, which is deleted.
hits : search_knn layered none all_new (4 ∷ []) 2 2 0 ≡ some ((98, 2) ∷ ((97, 1) ∷ []))
unfolding search_knn is_visited mark push_candidate push_top round top_sim trim get_data
hits = refl

walk_returns_example :
    (t : ℕ × ℕ) × (walk layered.graph (4 ∷ []) 5 1 (96, 0) ≡ some t)
    × (96 ≤ t.0)
    × (t.0 ≡ sim_of layered.graph (4 ∷ []) t.1)
    × All (Best layered.graph (4 ∷ []) t.0) (layers 1 t.1)
unfolding sim_of
walk_returns_example = walk_returns layered.graph (4 ∷ []) 1 (96, 0) refl

search_knn_lem_example :
    (found : List (ℕ × ℕ)) × (search_knn layered none all_new (4 ∷ []) 2 2 0 ≡ some found)
    × (length found ≤ 2)
    × IsDescending found
    × All (IsHit layered.graph (knn_query layered none (4 ∷ []) 2 0)) found
    × (((found ≡ []) × ((◌≡◌ {A = ℕ} 4 0) ⊎ (find_entry layered (4 ∷ []) ≡ some none)))
        ⊎ ((ep : ℕ) × (base : List (ℕ × ℕ)) × (visited' : VisitedList) × (find_entry layered
                (4 ∷ [])
              ≡ some (some ep))
            × (search_base_layer layered.graph
                  (knn_query layered none (4 ∷ []) 2 0)
                  all_new
                  (ep ∷ [])
                ≡ some (base, visited'))
            × IsTop layered.graph 2 base found))
search_knn_lem_example = search_knn_lem layered none all_new (4 ∷ []) 2 2 0 refl
