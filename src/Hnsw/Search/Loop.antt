-- ===== src/Hnsw/Search/Loop.antt =====
-- The loop of `searchBaseLayer` of src/hnsw/hnswalg.h over its queue.
use mathlib.Core.List.{reverse}
use endee.Prelude.{
  ℕ, zero, suc, ◌+◌, Bool, true, false, ◌&&◌, Option, none, some, List, [], ◌∷◌, ltb, leb,
  if◌then◌else◌, is_empty, length,
}
use endee.Hnsw.Visited.{VisitedList}
use endee.Hnsw.Graph.{Graph}
use endee.Hnsw.Search.{start, Search, Query}
use endee.Hnsw.Search.Expand.{expand}

pub data Outcome : Type 0 where
  done : Search → Outcome
  out_of_fuel : Outcome

module _ (g : Graph) (q : Query) where
  -- One round of the loop over the queue: the search after it, and whether the loop goes on.
  unfoldable pub round : Search → ℕ × ℕ → List (ℕ × ℕ) → Bool × Search
  unfolding expand
  round s (sim, current_id) rest =
      let popped = record s { candidate_set = rest } in
      let count = s.below_threshold_count + 1 in
      if leb g.max_elements current_id
      then (true, popped)
      else if ltb sim s.lower_bound && leb q.ef (length s.top_candidates)
      then if ltb (if q.is_insert then 16 else 8) count
        then (false, record s { below_threshold_count = count })
        else (true, expand g q (record popped { below_threshold_count = count }) current_id)
      else (true, expand g q (record popped { below_threshold_count = 0 }) current_id)

  unfoldable pub loop : ℕ → Search → Outcome
  loop zero s = if is_empty s.candidate_set then done s else out_of_fuel
  loop (suc fuel) s = elim s.candidate_set [
    | [] ↦ done s
    | p ∷ rest ↦
        let (goes_on, s') = round s p rest in elim goes_on [ true ↦ loop fuel s' | false ↦ done s' ]
  ]

  -- The visited list comes from the pool, after `reset`. Every round takes a node from the queue, and a
  -- node enters it once at most.
  unfoldable pub search_base_layer : VisitedList → List ℕ → Option (List (ℕ × ℕ) × VisitedList)
  unfolding start loop
  search_base_layer visited ep_ids = elim (loop g.max_elements (start g q visited ep_ids)) [
    | done s ↦ some (reverse s.top_candidates, s.visited)
    | out_of_fuel ↦ none
  ]
