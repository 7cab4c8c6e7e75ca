-- ===== src/Hnsw/Knn.antt =====
-- `searchKnn` of src/hnsw/hnswalg.h: a greedy walk through the upper layers, then the search of
-- layer 0.
pub mod Walk
pub mod Answers
mod Tests
use endee.Prelude.{
  ℕ, zero, suc, ◌-◌, ◌/◌, max, ap, Bool, true, false, not, ◌&&◌, Option, none, some, List, [], ◌∷◌,
  map, ltb, leb, ◌==◌, if◌then◌else◌, is_some, take,
}
use endee.Hnsw.Visited.{VisitedList}
use endee.Hnsw.Graph.{Bytes, Graph, step}
use endee.Hnsw.Search.{start, Query}
use endee.Hnsw.Search.Loop.{search_base_layer}

-- `label_lookup` is the vector labelLookup_: the node of each label, and none for INVALID_ID. It is read
-- and written without a test of the label, which is undefined behaviour beyond its end. `levels` holds
-- what the blocks of the upper layers say.
pub record HierarchicalNsw : Type 0 where
  pub graph : Graph
  pub entry_point : ℕ
  pub max_level : ℕ
  pub deleted_elements_count : ℕ
  pub ef_construction : ℕ
  pub label_lookup : List (Option ℕ)
  pub levels : ℕ → ℕ

module _ (g : Graph) (query_data : Bytes) where
  unfoldable pub sim_of : ℕ → ℕ
  sim_of i = elim (g.upper i) [ none ↦ 0 | some x ↦ g.sim_func query_data x ]

  -- Whether a neighbour is a node with data in the upper layers that is more similar than `cur_sim`.
  unfoldable pub is_better : ℕ → ℕ → Bool
  unfolding sim_of
  is_better cur_sim candidate =
      not (leb g.cur_elements_count candidate)
      && (is_some (g.upper candidate) && ltb cur_sim (sim_of candidate))

  -- The neighbours of a node: the best pair so far, and whether it changed.
  unfoldable pub improve : Bool → ℕ × ℕ → List ℕ → Bool × (ℕ × ℕ)
  unfolding is_better sim_of
  improve changed best [] = (changed, best)
  improve changed best (i ∷ is) =
      let better = is_better best.0 i in
      improve (if better then true else changed) (if better then (sim_of i, i) else best) is

  -- `while(changed)` at one level.
  unfoldable pub walk : ℕ → ℕ → ℕ × ℕ → Option (ℕ × ℕ)
  unfolding improve
  walk zero level best = none
  walk (suc fuel) level best =
      let (changed, best') = improve false best (g.links level best.1) in
      elim changed [ true ↦ walk fuel level best' | false ↦ some best' ]

  -- The levels from `level` down to 1. Every step of the walk at one level leaves a node behind for
  -- good.
  unfoldable pub walk_down : ℕ → ℕ × ℕ → Option (ℕ × ℕ)
  unfolding walk
  walk_down zero best = some best
  walk_down (suc level) best = elim (walk (suc g.cur_elements_count) (suc level) best) [
    | none ↦ none
    | some best' ↦ walk_down level best'
  ]

-- The first `k` pairs, with the labels of their nodes.
unfoldable pub label_pairs : Graph → ℕ → List (ℕ × ℕ) → List (ℕ × ℕ)
label_pairs g k ps = map (λ p. (p.0, g.external_label p.1)) (take k ps)

module _ (h : HierarchicalNsw) where
  -- The node where the search of layer 0 starts, and none where the entry point has no data.
  unfoldable pub find_entry : Bytes → Option (Option ℕ)
  unfolding walk_down
  find_entry query_data =
      if ltb 0 h.max_level
      then elim (h.graph.upper h.entry_point) [
        | none ↦ some none
        | some ep_data ↦
            elim (walk_down h.graph query_data h.max_level
              (h.graph.sim_func query_data ep_data, h.entry_point)) [
                | none ↦ none
                | some best ↦ some (some best.1)
              ]
      ]
      else some (some h.entry_point)

module _ (h : HierarchicalNsw) (is_id_allowed : Option (ℕ → Bool)) where
  abbrev pub knn_query : Bytes → ℕ → ℕ → Query
  knn_query query_data ef filter_boost_percentage = record {
    data_point = query_data;
    layer = 0;
    ef = ef;
    filter = is_id_allowed;
    filter_boost_percentage = filter_boost_percentage;
    is_insert = false;
    has_deletions = ltb 0 h.deleted_elements_count;
  }

  unfoldable pub search_knn : VisitedList → Bytes → ℕ → ℕ → ℕ → Option (List (ℕ × ℕ))
  unfolding find_entry search_base_layer label_pairs
  search_knn visited query_data k ef filter_boost_percentage =
      if h.graph.cur_elements_count == 0 then some [] else elim (find_entry h query_data) [
        | none ↦ none
        | some none ↦ some []
        | some (some ep) ↦
            elim (search_base_layer h.graph
              (knn_query query_data (max ef k) filter_boost_percentage) visited (ep ∷ [])) [
                | none ↦ none
                | some (found, visited') ↦ some (label_pairs h.graph k found)
              ]
      ]
