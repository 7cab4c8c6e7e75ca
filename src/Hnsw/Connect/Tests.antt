-- ===== src/Hnsw/Connect/Tests.antt =====
-- A node that is connected at a concrete input.
use endee.Prelude.{
  ℕ, zero, suc, ◌-◌, ◌≤◌, ◌<◌, ◌≡◌, refl, inl, inr, false, none, some, List, [], ◌∷◌, ◌++◌, arith,
  ◌==◌, if◌then◌else◌, Bool-cases, length, get_or, All,
}
use endee.Hnsw.Graph.{Bytes, get_data, Graph}
use endee.Hnsw.Links.{max_degree, IsWellFormed}
use endee.Hnsw.Connect.{
  target_backfill_size, get_neighbors_by_heuristic2, ids_of, mutually_connect_new_element,
}
use endee.Hnsw.Connect.Bounds.{mutually_connect_new_element-IsWellFormed}
use endee.Hnsw.Connect.Frame.{IsExtended, mutually_connect_new_element_others}
use endee.Hnsw.Connect.Closest.{HasHead, mutually_connect_new_element_own}
use endee.Hnsw.Connect.Diverse.{IsDiverse, get_neighbors_by_heuristic2-IsDiverse}

-- Nodes on a line, with room for two links each; the list of node 2 is full.
abbrev table : List (List ℕ)
table = (1 ∷ (2 ∷ [])) ∷ ((0 ∷ []) ∷ ((0 ∷ (1 ∷ [])) ∷ []))

abbrev closeness : Bytes → Bytes → ℕ
closeness x y = 100 - (get_or x 0 0 - get_or y 0 0) - (get_or y 0 0 - get_or x 0 0)

abbrev line_graph : Graph
line_graph = record {
  max_elements = 5;
  cur_elements_count = 4;
  m = 2;
  m0 = 2;
  links = λ l i. if l == 0 then get_or table i [] else [];
  upper = λ i. none;
  stored = λ i. some (i ∷ []);
  is_marked_deleted = λ i. false;
  external_label = λ i. i;
  sim_func = closeness;
}

line_graph-IsWellFormed : IsWellFormed line_graph
unfolding max_degree
line_graph-IsWellFormed l i = elim (Bool-cases (l == 0)) [
  | inl base ↦ rw base (rows i)
  | inr upper ↦ rw upper (omega arith, tt)
]
  where
    rows : (i : ℕ) → (length (get_or table i []) ≤ 2) × All (λ j. j < 4) (get_or table i [])
    rows zero = (omega arith, (omega arith, (omega arith, tt)))
    rows (suc zero) = (omega arith, (omega arith, tt))
    rows (suc (suc zero)) = (omega arith, (omega arith, (omega arith, tt)))
    rows (suc (suc (suc i))) = (omega arith, tt)

abbrev found : List (ℕ × ℕ)
found = (99, 2) ∷ ((98, 1) ∷ ((97, 0) ∷ []))

-- Node 3 comes in: it takes node 2 only, whose list loses node 0 for it.
lists_after :
    let g = (mutually_connect_new_element line_graph (3 ∷ []) 3 found 0).0 in
    (g.links 0 3 ≡ 2 ∷ []) × (g.links 0 2 ≡ 3 ∷ (1 ∷ []))
unfolding mutually_connect_new_element get_data
lists_after = (refl, refl)

mutually_connect_new_element-IsWellFormed_example :
    IsWellFormed (mutually_connect_new_element line_graph (3 ∷ []) 3 found 0).0
mutually_connect_new_element-IsWellFormed_example =
    mutually_connect_new_element-IsWellFormed (3 ∷ []) 3 0 line_graph found (omega arith)
      (omega arith, (omega arith, (omega arith, tt))) line_graph-IsWellFormed

mutually_connect_new_element_others_example :
    IsExtended line_graph
      (ids_of (get_neighbors_by_heuristic2 line_graph found (max_degree line_graph 0) 0))
      3
      0
      0
      2
      ((mutually_connect_new_element line_graph (3 ∷ []) 3 found 0).0.links 0 2)
mutually_connect_new_element_others_example =
    mutually_connect_new_element_others line_graph (3 ∷ []) 3 found 0 0 2 refl

mutually_connect_new_element_own_example :
    let selected = get_neighbors_by_heuristic2 line_graph found (max_degree line_graph 0) 0 in
    let connected = mutually_connect_new_element line_graph (3 ∷ []) 3 found 0 in
    (connected.0.links 0 3 ≡ ids_of selected) × HasHead (99, 2) selected × (connected.1 ≡ 2)
unfolding get_data max_degree
mutually_connect_new_element_own_example =
    mutually_connect_new_element_own line_graph (3 ∷ []) 3 (99, 2) ((98, 1) ∷ ((97, 0) ∷ [])) 0
      (2 ∷ []) refl (omega arith)

get_neighbors_by_heuristic2-IsDiverse_example :
    (kept : List (ℕ × ℕ)) × (filled : List (ℕ × ℕ)) × (get_neighbors_by_heuristic2 line_graph found
        2 0
      ≡ kept ++ filled)
    × IsDiverse line_graph 0 kept
    × (length filled ≤ target_backfill_size 2 0 - length kept)
get_neighbors_by_heuristic2-IsDiverse_example =
    get_neighbors_by_heuristic2-IsDiverse line_graph found 2 0 (omega arith)
