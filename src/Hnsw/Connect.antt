-- ===== src/Hnsw/Connect.antt =====
-- `getNeighborsByHeuristic2` and `mutuallyConnectNewElement` of src/hnsw/hnswalg.h. Sorting is
-- insertion; which of two candidates of equal similarity comes first is left open by std::sort.
pub mod Selected
pub mod Bounds
pub mod Frame
pub mod Closest
pub mod Diverse
mod Tests
use endee.Prelude.{
  ℕ, ◌+◌, ◌-◌, ◌*◌, ◌/◌, max, ap, Bool, true, false, not, ◌&&◌, none, some, List, [], ◌∷◌, ◌++◌,
  map, ltb, leb, ◌==◌, if◌then◌else◌, length, set,
}
use endee.Hnsw.Graph.{Bytes, get_data, Graph}
use endee.Hnsw.Links.{max_degree, set_links}
use endee.Hnsw.Search.{push_candidate}

-- `result`, the vectors of its members, and `fill_back_ids`.
pub record Selection : Type 0 where
  pub result : List (ℕ × ℕ)
  pub selected_vecs : List Bytes
  pub fill_back_ids : List (ℕ × ℕ)

module _ (g : Graph) where
  -- No selected vector is more similar to the candidate than the new element is.
  unfoldable pub is_good : List Bytes → ℕ → Bytes → Bool
  is_good [] sim cand_vec = true
  is_good (x ∷ xs) sim cand_vec = not (ltb sim (g.sim_func x cand_vec)) && is_good xs sim cand_vec

  unfoldable pub select_one : ℕ → Selection → ℕ × ℕ → Selection
  unfolding is_good
  select_one level s candidate = elim (get_data g level candidate.1) [
    | none ↦ s
    | some cand_vec ↦
        if is_good s.selected_vecs candidate.0 cand_vec
        then record s {
          result = s.result ++ candidate ∷ [];
          selected_vecs = s.selected_vecs ++ cand_vec ∷ [];
        }
        else record s { fill_back_ids = s.fill_back_ids ++ candidate ∷ [] }
  ]

  unfoldable pub select : ℕ → ℕ → Selection → List (ℕ × ℕ) → Selection
  unfolding select_one
  select cur_m level s [] = s
  select cur_m level s (candidate ∷ candidates) = elim (length s.result == cur_m) [
    | true ↦ s
    | false ↦ select cur_m level (select_one level s candidate) candidates
  ]

unfoldable pub fill_back : ℕ → List (ℕ × ℕ) → List (ℕ × ℕ) → List (ℕ × ℕ)
fill_back target result [] = result
fill_back target result (p ∷ ps) = elim (leb target (length result)) [
  | true ↦ result
  | false ↦ fill_back target (result ++ p ∷ []) ps
]

-- settings::BACKFILL_BUFFER is 4.
unfoldable pub target_backfill_size : ℕ → ℕ → ℕ
target_backfill_size cur_m level =
    let current_backfill_buffer = if level == 0 then 4 * 2 else 4 in
    if ltb current_backfill_buffer cur_m then cur_m - current_backfill_buffer else 0

abbrev pub no_selection : Selection
no_selection = record { result = []; selected_vecs = []; fill_back_ids = [] }

unfoldable pub get_neighbors_by_heuristic2 : Graph → List (ℕ × ℕ) → ℕ → ℕ → List (ℕ × ℕ)
unfolding select fill_back target_backfill_size
get_neighbors_by_heuristic2 g candidates_sorted cur_m level =
    if leb (length candidates_sorted) cur_m
    then candidates_sorted
    else let s = select g cur_m level no_selection candidates_sorted in
      fill_back (target_backfill_size cur_m level) s.result s.fill_back_ids

-- The most similar first.
unfoldable pub sort_candidates : List (ℕ × ℕ) → List (ℕ × ℕ)
unfolding push_candidate
sort_candidates [] = []
sort_candidates (p ∷ ps) = push_candidate p (sort_candidates ps)

abbrev pub ids_of : List (ℕ × ℕ) → List ℕ
ids_of ps = map (λ p. p.1) ps

module _ (g : Graph) (data_point : Bytes) (cur_c level : ℕ) where
  -- The neighbours of a neighbour, with their similarities to it.
  unfoldable pub weigh : Bytes → List ℕ → List (ℕ × ℕ)
  weigh neighbor_data [] = []
  weigh neighbor_data (j ∷ js) =
      let rest = weigh neighbor_data js in
      elim (get_data g level j) [ none ↦ rest | some x ↦ (g.sim_func neighbor_data x, j) ∷ rest ]

  -- The new list of one neighbour.
  unfoldable pub links_with : ℕ → List ℕ → List ℕ
  unfolding weigh sort_candidates get_neighbors_by_heuristic2 max_degree
  links_with neighbor ids =
      if ltb (length ids) (max_degree g level)
      then ids ++ cur_c ∷ []
      else elim (get_data g level neighbor) [
        | none ↦ ids
        | some neighbor_data ↦ ids_of (
            get_neighbors_by_heuristic2 g
              (sort_candidates
                ((g.sim_func neighbor_data data_point, cur_c) ∷ weigh neighbor_data ids))
              (max_degree g level) level)
      ]

-- Step 3 of `mutuallyConnectNewElement`, for one neighbour and for all of them.
unfoldable pub link_back : Bytes → ℕ → ℕ → Graph → ℕ → Graph
unfolding links_with set_links
link_back data_point cur_c level g neighbor =
    if neighbor == cur_c
    then g
    else set_links g level neighbor
        (links_with g data_point cur_c level neighbor (g.links level neighbor))

unfoldable pub link_back_each : Bytes → ℕ → ℕ → Graph → List ℕ → Graph
unfolding link_back
link_back_each data_point cur_c level g [] = g
link_back_each data_point cur_c level g (neighbor ∷ neighbors) =
    link_back_each data_point cur_c level (link_back data_point cur_c level g neighbor) neighbors

-- The graph afterwards, and the next entry point: 0 where nothing is selected, a node that may lack
-- the level below.
unfoldable pub mutually_connect_new_element : Graph → Bytes → ℕ → List (ℕ × ℕ) → ℕ → Graph × ℕ
unfolding get_neighbors_by_heuristic2 max_degree set_links link_back_each
mutually_connect_new_element g data_point cur_c sorted_candidates level =
    let selected = get_neighbors_by_heuristic2 g sorted_candidates (max_degree g level) level in
    elim selected [
      | [] ↦ (g, 0)
      | closest ∷ others ↦
          let ids = ids_of (closest ∷ others) in
          (link_back_each data_point cur_c level (set_links g level cur_c ids) ids, closest.1)
    ]
