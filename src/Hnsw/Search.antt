-- ===== src/Hnsw/Search.antt =====
-- `searchBaseLayer` of src/hnsw/hnswalg.h. The queues are lists with their tops first; which of two
-- pairs of equal similarity comes first is not fixed by the queues of the standard library, and
-- here it is the one that came last.
pub mod Expand
pub mod Loop
pub mod Ends
pub mod Returns
pub mod Order
pub mod Sound
pub mod Near
pub mod Answers
mod Tests
use endee.Prelude.{
  ℕ, ◌+◌, ◌-◌, ◌*◌, ◌/◌, ◌%◌, ◌<◌, max, ap, Bool, true, not, ◌&&◌, ◌||◌, Option, none, some, List,
  [], ◌∷◌, ltb, leb, if◌then◌else◌, length, set, drop, u32, u64,
}
use endee.Hnsw.Visited.{mark, is_visited, VisitedList}
use endee.Hnsw.Graph.{Bytes, get_data, Graph, enter}

-- `candidate_set`, the most similar pair first.
unfoldable pub push_candidate : ℕ × ℕ → List (ℕ × ℕ) → List (ℕ × ℕ)
push_candidate p [] = p ∷ []
push_candidate p (r ∷ q) = if ltb p.0 r.0 then r ∷ push_candidate p q else p ∷ (r ∷ q)

-- `top_candidates`, the least similar pair first.
unfoldable pub push_top : ℕ × ℕ → List (ℕ × ℕ) → List (ℕ × ℕ)
push_top p [] = p ∷ []
push_top p (r ∷ q) = if ltb r.0 p.0 then r ∷ push_top p q else p ∷ (r ∷ q)

-- `if(top_candidates.size() > ef) top_candidates.pop()`
unfoldable pub trim : ℕ → List (ℕ × ℕ) → List (ℕ × ℕ)
trim ef top = if ltb ef (length top) then drop 1 top else top

unfoldable pub top_sim : ℕ → List (ℕ × ℕ) → ℕ
top_sim lower_bound [] = lower_bound
top_sim lower_bound (p ∷ top) = p.0

pub record Search : Type 0 where
  pub visited : VisitedList
  pub candidate_set : List (ℕ × ℕ)
  pub top_candidates : List (ℕ × ℕ)
  pub lower_bound : ℕ
  pub below_threshold_count : ℕ
  pub dist_computations : ℕ

abbrev pub empty_search : VisitedList → Search
empty_search v = record {
  visited = v;
  candidate_set = [];
  top_candidates = [];
  lower_bound = 0;
  below_threshold_count = 0;
  dist_computations = 0;
}

-- The arguments of one search. `filter` looks at external labels; none is the null pointer.
pub record Query : Type 0 where
  pub data_point : Bytes
  pub layer : ℕ
  pub ef : ℕ
  pub filter : Option (ℕ → Bool)
  pub filter_boost_percentage : ℕ
  pub is_insert : Bool
  pub has_deletions : Bool

module _ (g : Graph) (q : Query) where
  unfoldable pub is_allowed : ℕ → Bool
  is_allowed i = elim q.filter [ none ↦ true | some f ↦ f (g.external_label i) ]

  -- `has_deletions && isMarkedDeleted(id)`
  abbrev pub is_hidden : ℕ → Bool
  is_hidden i = q.has_deletions && g.is_marked_deleted i

  unfoldable pub fatigue_base : ℕ
  fatigue_base =
      let base = u64 (q.ef * g.m) in
      elim q.filter [
        | none ↦ base
        | some _ ↦
            if ltb 0 q.filter_boost_percentage
            then u64 (base * (100 + q.filter_boost_percentage)) / 100
            else base
      ]

  -- Whether a node that the filter refuses is passed over.
  unfoldable pub is_fatigued : ℕ → ℕ → Bool
  unfolding fatigue_base
  is_fatigued dist_computations i =
      let fatigue_tail = u64 (fatigue_base * 5) in
      let excess = dist_computations - fatigue_base in
      ltb fatigue_base dist_computations
      && (leb fatigue_tail excess
          || ltb (u32 (i * 104729) % 256) (u64 (excess * 255) / fatigue_tail))

  unfoldable pub mark_node : Search → ℕ → Search
  mark_node s i = record s { visited = mark s.visited i }

  -- One entry point.
  unfoldable pub enter_point : Search → ℕ → Search
  unfolding is_allowed mark_node
  enter_point s ep =
      if leb g.max_elements ep || is_visited s.visited ep
      then s
      else let s' = mark_node s ep in
        let lowest = record s' { candidate_set = push_candidate (0, ep) s.candidate_set } in
        if is_hidden ep then lowest else elim (get_data g q.layer ep) [
          | none ↦ lowest
          | some x ↦
              let pair : ℕ × ℕ = (g.sim_func q.data_point x, ep) in
              record s' {
                candidate_set = push_candidate pair s.candidate_set;
                top_candidates =
                    trim q.ef
                      (if is_allowed ep then push_top pair s.top_candidates else s.top_candidates);
                dist_computations = s.dist_computations + 1;
              }
        ]

  unfoldable pub enter_points : Search → List ℕ → Search
  unfolding enter_point
  enter_points s [] = s
  enter_points s (ep ∷ eps) = enter_points (enter_point s ep) eps

  unfoldable pub start : VisitedList → List ℕ → Search
  unfolding enter_points
  start visited ep_ids =
      let s = enter_points (empty_search visited) ep_ids in
      record s { lower_bound = top_sim s.lower_bound s.top_candidates }

  -- `top_candidates.size() < ef || sim > lowerBound`
  unfoldable pub is_wanted : Search → ℕ → Bool
  is_wanted s sim = ltb (length s.top_candidates) q.ef || ltb s.lower_bound sim

  -- A neighbour that the filter refuses.
  unfoldable pub offer_refused : Search → ℕ → Bytes → Search
  unfolding is_fatigued is_wanted
  offer_refused s i x =
      if is_fatigued s.dist_computations i
      then s
      else let sim = g.sim_func q.data_point x in
        record s {
          dist_computations = s.dist_computations + 1;
          candidate_set =
              if is_wanted s sim then push_candidate (sim, i) s.candidate_set else s.candidate_set;
        }

  -- A neighbour that it lets pass.
  unfoldable pub offer_allowed : Search → ℕ → Bytes → Search
  unfolding is_wanted
  offer_allowed s i x =
      let sim = g.sim_func q.data_point x in
      let s' = record s { dist_computations = s.dist_computations + 1 } in
      if not (is_wanted s sim)
      then s'
      else let candidates = push_candidate (sim, i) s.candidate_set in
        if is_hidden i
        then record s' { candidate_set = candidates }
        else let top = trim q.ef (push_top (sim, i) s.top_candidates) in
          record s' {
            candidate_set = candidates;
            top_candidates = top;
            lower_bound = top_sim s.lower_bound top;
          }
