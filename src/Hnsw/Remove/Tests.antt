-- ===== src/Hnsw/Remove/Tests.antt =====
-- A node that is disconnected at a concrete input.
use endee.Prelude.{
  ℕ, ◌≡◌, refl, false, none, some, List, [], ◌∷◌, arith, ◌==◌, if◌then◌else◌, any_eq, get_or,
}
use endee.Hnsw.Graph.{Graph}
use endee.Hnsw.Remove.{remove_all_connections2}
use endee.Hnsw.Remove.Gone.{remove_all_connections2_lem}

-- Node 0 in the middle of a star.
abbrev star : List (List ℕ)
star = (3 ∷ (1 ∷ (2 ∷ []))) ∷ ((0 ∷ []) ∷ ((0 ∷ []) ∷ ((0 ∷ []) ∷ [])))

abbrev star_graph : Graph
star_graph = record {
  max_elements = 5;
  cur_elements_count = 4;
  m = 2;
  m0 = 4;
  links = λ l i. if l == 0 then get_or star i [] else [];
  upper = λ i. none;
  stored = λ i. some (i ∷ []);
  is_marked_deleted = λ i. false;
  external_label = λ i. i;
  sim_func = λ x y. 0;
}

-- Nodes 1 and 3 are linked, node 2 in the middle is left alone.
lists_after :
    let g = remove_all_connections2 star_graph 0 0 in
    (g.links 0 1 ≡ 3 ∷ []) × (g.links 0 2 ≡ []) × (g.links 0 3 ≡ 1 ∷ [])
unfolding remove_all_connections2
lists_after = (refl, refl, refl)

remove_all_connections2_lem_example :
    ((remove_all_connections2 star_graph 0 0).links 0 0 ≡ [])
    × (any_eq 0 ((remove_all_connections2 star_graph 0 0).links 0 3) ≡ false)
remove_all_connections2_lem_example =
    remove_all_connections2_lem star_graph 0 0 0 3 (omega arith) (omega arith) refl
