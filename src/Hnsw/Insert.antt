-- ===== src/Hnsw/Insert.antt =====
-- `addPoint` of src/hnsw/hnswalg.h, for a new element and for one that is written again. The level of a
-- new element is an argument, which the code draws at random.
pub mod First
pub mod Climb
pub mod Joins
pub mod Linked
pub mod Intact
pub mod Answers
pub mod Update
mod Tests
use endee.Prelude.{
  ℕ, zero, suc, ◌+◌, ◌-◌, ◌/◌, ◌^◌, ◌<◌, min, max, ap, Bool, true, false, not, ◌&&◌, ◌||◌, Option,
  none, some, List, [], ◌∷◌, ltb, leb, ◌==◌, if◌then◌else◌, is_some, length, get_elem?, set, take,
  u64,
}
use endee.Hnsw.Visited.{reset, mark, VisitedList}
use endee.Hnsw.Graph.{Bytes, Graph}
use endee.Hnsw.Search.{start, Query}
use endee.Hnsw.Search.Loop.{search_base_layer}
use endee.Hnsw.Connect.{mutually_connect_new_element}
use endee.Hnsw.Remove.{remove_all_connections2}
use endee.Hnsw.Knn.{sim_of, HierarchicalNsw}

unfoldable pub get_element_level : HierarchicalNsw → ℕ → ℕ
get_element_level h i = elim (h.graph.upper i) [ none ↦ 0 | some x ↦ h.levels i ]

module _ (g : Graph) (datapoint : Bytes) where
  -- The neighbours of the current node, without a test of their numbers.
  unfoldable pub climb_neighbors : Bool → ℕ × ℕ → List ℕ → Bool × (ℕ × ℕ)
  unfolding sim_of
  climb_neighbors changed best [] = (changed, best)
  climb_neighbors changed best (i ∷ is) =
      let sim = sim_of g datapoint i in
      let nearer = is_some (g.upper i) && ltb best.0 sim in
      climb_neighbors (if nearer then true else changed) (if nearer then (sim, i) else best) is

  -- `while(changed)` at one level.
  unfoldable pub climb : ℕ → ℕ → ℕ → Option ℕ
  unfolding climb_neighbors
  climb zero level curr_obj = none
  climb (suc fuel) level curr_obj = elim (g.upper curr_obj) [
    | none ↦ some curr_obj
    | some curr_data ↦
        let (changed, best) =
          climb_neighbors false (g.sim_func datapoint curr_data, curr_obj)
            (g.links level curr_obj) in
        elim changed [ true ↦ climb fuel level best.1 | false ↦ some best.1 ]
  ]

  -- The levels from one down to that above `cur_level`.
  unfoldable pub climb_down : ℕ → ℕ → ℕ → Option ℕ
  unfolding climb
  climb_down cur_level zero curr_obj = some curr_obj
  climb_down cur_level (suc level) curr_obj = elim (leb (suc level) cur_level) [
    | true ↦ some curr_obj
    | false ↦ elim (climb (suc g.cur_elements_count) (suc level) curr_obj) [
      | none ↦ none
      | some curr_obj' ↦ climb_down cur_level level curr_obj'
    ]
  ]

-- A graph on which the new element is being connected.
pub record Joining : Type 0 where
  pub graph : Graph
  pub curr_obj : ℕ
  pub visited : VisitedList

module _ (ef_construction : ℕ) (has_deletions : Bool) (datapoint : Bytes) (cur_c : ℕ) where
  abbrev pub insert_query : ℕ → Query
  insert_query level = record {
    data_point = datapoint;
    layer = level;
    ef = ef_construction;
    filter = none;
    filter_boost_percentage = 0;
    is_insert = true;
    has_deletions = has_deletions;
  }

  -- One level. The visited list goes back to the pool and is taken again.
  unfoldable pub connect_level : ℕ → Joining → Option Joining
  unfolding search_base_layer mutually_connect_new_element reset
  connect_level level s =
      elim (search_base_layer s.graph (insert_query level) (reset s.visited) (s.curr_obj ∷ [])) [
        | none ↦ none
        | some (sorted_candidates, visited') ↦
            let (graph', next) =
              mutually_connect_new_element s.graph datapoint cur_c sorted_candidates level in
            some (record { graph = graph'; curr_obj = next; visited = visited' })
      ]

  unfoldable pub connect_down : ℕ → Joining → Option Joining
  unfolding connect_level
  connect_down zero s = connect_level 0 s
  connect_down (suc level) s = elim (connect_level (suc level) s) [
    | none ↦ none
    | some s' ↦ connect_down level s'
  ]

-- A neighbour of the entry point to start from instead.
unfoldable pub first_seed : Graph → ℕ → List ℕ → Option ℕ
first_seed g search_id [] = none
first_seed g search_id (i ∷ is) =
    let rest = first_seed g search_id is in
    if i == search_id || leb g.cur_elements_count i || g.is_marked_deleted i then rest else some i

unfoldable pub find_seed : Graph → ℕ → ℕ → Option ℕ
unfolding first_seed
find_seed g search_id zero = first_seed g search_id (g.links 0 search_id)
find_seed g search_id (suc level) = elim (first_seed g search_id (g.links (suc level) search_id)) [
  | some i ↦ some i
  | none ↦ find_seed g search_id level
]

abbrev pub start_from : HierarchicalNsw → Option ℕ → ℕ
start_from h none = h.entry_point
start_from h (some i) = i

-- The end of `addPoint`: the connected graph, and the new entry point where the element is higher.
unfoldable pub settle : HierarchicalNsw → ℕ → ℕ → Graph → HierarchicalNsw
settle h cur_c cur_level graph' =
    if ltb h.max_level cur_level
    then record h { graph = graph'; entry_point = cur_c; max_level = cur_level }
    else record h { graph = graph' }

-- An element that is stored and has no links, at its place in the graph.
unfoldable pub connect_element :
    HierarchicalNsw → VisitedList → Bytes → ℕ → ℕ → Option ℕ → Option HierarchicalNsw
unfolding get_element_level climb_down connect_down settle
connect_element h visited datapoint cur_c cur_level update_seed =
    if cur_c == 0
    then some h
    else let curr_obj = start_from h update_seed in
      let start_search_level = min h.max_level (get_element_level h curr_obj) in
      elim (climb_down h.graph datapoint cur_level start_search_level curr_obj) [
        | none ↦ none
        | some closest ↦
            elim (connect_down h.ef_construction (ltb 0 h.deleted_elements_count) datapoint cur_c
              (min cur_level start_search_level)
              (record { graph = h.graph; curr_obj = closest; visited = visited })) [
                | none ↦ none
                | some s ↦ some (settle h cur_c cur_level s.graph)
              ]
      ]

abbrev pub put_at : {A : Type 0} → (ℕ → A) → ℕ → A → ℕ → A
put_at f i a j = if j == i then a else f j

-- `addPoint<true>` up to the connection, with a label that labelLookup_ has. The flag of deletion is left as the memory holds it.
unfoldable pub store_new : HierarchicalNsw → Bytes → ℕ → ℕ → HierarchicalNsw
store_new h datapoint label cur_level =
    let g = h.graph in
    let cur_c = g.cur_elements_count in
    record h {
      label_lookup = set h.label_lookup label (some cur_c);
      levels = if ltb 0 cur_level then put_at h.levels cur_c cur_level else h.levels;
      graph = record g {
        cur_elements_count = cur_c + 1;
        external_label = put_at g.external_label cur_c label;
        links = λ l i. if i == cur_c && leb l cur_level then [] else g.links l i;
        upper = if ltb 0 cur_level then put_at g.upper cur_c (some datapoint) else g.upper;
      };
    }

-- `addPoint<false>` up to the connection.
unfoldable pub unmark_deleted : HierarchicalNsw → ℕ → HierarchicalNsw
unmark_deleted h i =
    if h.graph.is_marked_deleted i
    then record h {
      graph = record h.graph { is_marked_deleted = put_at h.graph.is_marked_deleted i false };
      deleted_elements_count = u64 (h.deleted_elements_count + (2 ^ 64 - 1));
    }
    else h

unfoldable pub store_again : HierarchicalNsw → Bytes → ℕ → ℕ → HierarchicalNsw
unfolding remove_all_connections2
store_again h datapoint search_id cur_level =
    let g = remove_all_connections2 h.graph search_id cur_level in
    record h {
      graph = record g {
        upper = if ltb 0 cur_level then put_at g.upper search_id (some datapoint) else g.upper;
      };
    }

-- `markDelete`: the inner `none` is the exception where the label is not found, and the outer one the
-- undefined behaviour of a label beyond labelLookup_.
unfoldable pub mark_delete : HierarchicalNsw → ℕ → Option (Option HierarchicalNsw)
mark_delete h label = elim (get_elem? h.label_lookup label) [
  | none ↦ none
  | some none ↦ some none
  | some (some i) ↦ some (
      some (record h {
        graph = record h.graph { is_marked_deleted = put_at h.graph.is_marked_deleted i true };
        deleted_elements_count = u64 (h.deleted_elements_count + 1);
      }))
]

-- `out_of_bounds` is the undefined behaviour of a label beyond labelLookup_.
pub data Insertion : Type 0 where
  inserted : HierarchicalNsw → Insertion
  too_many_elements : Insertion
  label_not_found : Insertion
  out_of_bounds : Insertion
  no_fuel : Insertion

unfoldable pub of_connected : Option HierarchicalNsw → Insertion
of_connected none = no_fuel
of_connected (some h) = inserted h

unfoldable pub add_point_new : HierarchicalNsw → VisitedList → Bytes → ℕ → ℕ → Insertion
unfolding store_new connect_element of_connected
add_point_new h visited datapoint label cur_level =
    if leb h.graph.max_elements h.graph.cur_elements_count
    then too_many_elements
    else if leb (length h.label_lookup) label
    then out_of_bounds
    else of_connected (
        connect_element (store_new h datapoint label cur_level) visited datapoint
          h.graph.cur_elements_count cur_level none)

unfoldable pub update_point : HierarchicalNsw → VisitedList → Bytes → ℕ → Insertion
unfolding unmark_deleted get_element_level find_seed store_again connect_element of_connected
update_point h visited datapoint label = elim (get_elem? h.label_lookup label) [
  | none ↦ out_of_bounds
  | some none ↦ label_not_found
  | some (some search_id) ↦
      let shown = unmark_deleted h search_id in
      let cur_level = get_element_level shown search_id in
      let update_seed =
        if search_id == h.entry_point then find_seed shown.graph search_id cur_level else none in
      of_connected (
        connect_element (store_again shown datapoint search_id cur_level) visited datapoint
          search_id cur_level update_seed)
]
