-- ===== src/Hnsw/Search/Tests.antt =====
-- A search at a concrete input.
use endee.Prelude.{
  ℕ, ◌+◌, ◌-◌, ◌≤◌, ◌≡◌, refl, true, false, Option, none, some, List, [], ◌∷◌, ◌==◌, if◌then◌else◌,
  length, get_or, replicate, All,
}
use endee.Hnsw.Visited.{mark, is_visited, VisitedList}
use endee.Hnsw.Graph.{Bytes, get_data, Graph}
use endee.Hnsw.Search.{
  push_candidate, push_top, trim, top_sim, is_allowed, mark_node, enter_point, enter_points, start,
  is_wanted, offer_allowed, Query,
}
use endee.Hnsw.Search.Expand.{
  collect, fetch_batch, consider_refused, consider_allowed, expand_base, expand,
}
use endee.Hnsw.Search.Loop.{round, loop, search_base_layer}
use endee.Hnsw.Search.Returns.{search_base_layer_returns}
use endee.Hnsw.Search.Order.{IsDescending}
use endee.Hnsw.Search.Sound.{IsAnswer}
use endee.Hnsw.Search.Answers.{search_base_layer_lem}

-- 0 - 1 - 2 - 3 in a row, node 2 deleted, and node 4 apart.
abbrev row_links : ℕ → ℕ → List ℕ
row_links l i =
    if i == 0
    then 1 ∷ []
    else if i == 1
    then 0 ∷ (2 ∷ (3 ∷ []))
    else if i == 2
    then 1 ∷ []
    else if i == 3
    then 1 ∷ []
    else []

-- Node `i` stands at place `i` of a line.
abbrev place : ℕ → Option Bytes
place i = some (i ∷ [])

abbrev closeness : Bytes → Bytes → ℕ
closeness x y = 100 - (get_or x 0 0 - get_or y 0 0) - (get_or y 0 0 - get_or x 0 0)

abbrev row_graph : Graph
row_graph = record {
  max_elements = 5;
  cur_elements_count = 5;
  m = 16;
  m0 = 32;
  links = row_links;
  upper = λ i. none;
  stored = place;
  is_marked_deleted = λ i. i == 2;
  external_label = λ i. 10 + i;
  sim_func = closeness;
}

abbrev near_three : Query
near_three = record {
  data_point = 3 ∷ [];
  layer = 0;
  ef = 2;
  filter = none;
  filter_boost_percentage = 0;
  is_insert = false;
  has_deletions = true;
}

abbrev fresh_list : VisitedList
fresh_list = record { cur_v = 1; mass = replicate 5 0 }

found_pairs :
    search_base_layer row_graph near_three fresh_list (0 ∷ [])
    ≡ some ((100, 3) ∷ ((98, 1) ∷ []), record { cur_v = 1; mass = 1 ∷ (1 ∷ (1 ∷ (1 ∷ (0 ∷ [])))) })
unfolding search_base_layer loop round expand expand_base collect fetch_batch consider_refused
    consider_allowed offer_allowed is_wanted is_allowed start enter_points enter_point mark_node
    get_data push_candidate push_top trim top_sim mark is_visited
found_pairs = refl

search_base_layer_returns_example :
    (found : List (ℕ × ℕ)) × (visited' : VisitedList) × (search_base_layer row_graph near_three
        fresh_list
        (0 ∷ [])
      ≡ some (found, visited'))
    × (length visited'.mass ≡ 5)
search_base_layer_returns_example =
    search_base_layer_returns row_graph near_three fresh_list (0 ∷ []) refl

search_base_layer_lem_example :
    (found : List (ℕ × ℕ)) × (visited' : VisitedList) × (search_base_layer row_graph near_three
        fresh_list
        (0 ∷ [])
      ≡ some (found, visited'))
    × (length found ≤ 2)
    × IsDescending found
    × All (IsAnswer row_graph near_three (0 ∷ [])) found
search_base_layer_lem_example = search_base_layer_lem row_graph near_three (0 ∷ []) fresh_list refl
