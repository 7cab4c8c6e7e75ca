-- ===== src/Hnsw/Insert/Tests.antt =====
-- Elements that are added and written again at a concrete input.
use endee.Prelude.{
  ℕ, zero, suc, ◌-◌, ◌≤◌, ◌<◌, ◌≡◌, refl, ◌⊎◌, inl, inr, false, none, some, List, [], ◌∷◌, arith,
  ◌==◌, if◌then◌else◌, ==_iff, Bool-cases, any_eq, length, get_or, replicate, All,
}
use endee.Hnsw.Visited.{VisitedList}
use endee.Hnsw.Graph.{Bytes}
use endee.Hnsw.Links.{max_degree, SameSizes}
use endee.Hnsw.Knn.{HierarchicalNsw}
use endee.Hnsw.Insert.{
  get_element_level, store_new, unmark_deleted, add_point_new, update_point, inserted,
}
use endee.Hnsw.Insert.Intact.{IsIntact, IsConnected}
use endee.Hnsw.Insert.Answers.{add_point_new_lem, HasLists}
use endee.Hnsw.Insert.First.{update_point_first}
use endee.Hnsw.Insert.Update.{update_seed_of, bare_index, update_point_lem}

-- Two nodes that are linked, with room for a third.
abbrev pair_rows : List (List ℕ)
pair_rows = (1 ∷ []) ∷ ((0 ∷ []) ∷ [])

abbrev closeness : Bytes → Bytes → ℕ
closeness x y = 100 - (get_or x 0 0 - get_or y 0 0) - (get_or y 0 0 - get_or x 0 0)

abbrev pair_index : HierarchicalNsw
pair_index = record {
  graph = record {
    max_elements = 3;
    cur_elements_count = 2;
    m = 1;
    m0 = 2;
    links = λ l i. if l == 0 then get_or pair_rows i [] else [];
    upper = λ i. none;
    stored = λ i. some (i ∷ []);
    is_marked_deleted = λ i. false;
    external_label = λ i. i;
    sim_func = closeness;
  };
  entry_point = 0;
  max_level = 0;
  deleted_elements_count = 0;
  ef_construction = 2;
  label_lookup = some 0 ∷ (some 1 ∷ (none ∷ []));
  levels = λ i. 0;
}

abbrev unseen : VisitedList
unseen = record { cur_v = 1; mass = replicate 3 0 }

pair_index-IsIntact : IsIntact pair_index
unfolding max_degree
pair_index-IsIntact = record {
  well_formed = λ l i. elim (Bool-cases (l == 0)) [
    | inl base ↦ rw base (rows i)
    | inr upper ↦ rw upper (omega arith, tt)
  ];
  entered = omega arith;
  labelled = refl;
}
  where
    rows : (i : ℕ) → (length (get_or pair_rows i []) ≤ 2) × All (λ j. j < 2) (get_or pair_rows i [])
    rows zero = (omega arith, (omega arith, tt))
    rows (suc zero) = (omega arith, (omega arith, tt))
    rows (suc (suc i)) = (omega arith, tt)

pair_index-HasLists : HasLists pair_index 0
unfolding get_element_level
pair_index-HasLists = record {
  linked = λ l i. elim (Bool-cases (l == 0)) [
    | inl base ↦
        let bottom : l ≡ 0 = (==_iff l 0).0 base in rw bottom (All-every (get_or pair_rows i []))
    | inr upper ↦ rw upper tt
  ];
  first = omega arith;
}
  where
    All-every : (js : List ℕ) → All (λ j. 0 ≤ get_element_level pair_index j) js
    All-every [] = tt
    All-every (j ∷ js) = (omega arith, All-every js)

add_point_new_lem_example :
    (h' : HierarchicalNsw) × (add_point_new pair_index unseen (2 ∷ []) 2 0 ≡ inserted h')
    × IsIntact h'
    × (h'.graph.cur_elements_count ≡ 3)
    × (h'.graph.max_elements ≡ 3)
    × (h'.label_lookup ≡ some 0 ∷ (some 1 ∷ (some 2 ∷ [])))
    × (h'.graph.external_label 2 ≡ 2)
    × (h'.graph.upper 2 ≡ none)
    × ((◌≡◌ {A = ℕ} 2 0)
        ⊎ IsConnected (store_new pair_index (2 ∷ []) 2 0) unseen (2 ∷ []) 2 0 none h'.graph)
add_point_new_lem_example =
    add_point_new_lem pair_index unseen (2 ∷ []) 2 0 pair_index-IsIntact refl (omega arith)
      (omega arith) pair_index-HasLists

update_point_lem_example :
    (h' : HierarchicalNsw) × (update_point pair_index unseen (1 ∷ []) 1 ≡ inserted h')
    × IsIntact h'
    × SameSizes pair_index.graph h'.graph
    × (h'.label_lookup ≡ pair_index.label_lookup)
    × (h'.graph.is_marked_deleted 1 ≡ false)
    × (h'.graph.upper 1 ≡ none)
    × ((◌≡◌ {A = ℕ} 1 0)
        ⊎ IsConnected
            (bare_index pair_index (1 ∷ []) 1)
            unseen
            (1 ∷ [])
            1
            (get_element_level (unmark_deleted pair_index 1) 1)
            (update_seed_of pair_index 1)
            h'.graph)
unfolding get_element_level unmark_deleted
update_point_lem_example =
    update_point_lem pair_index unseen (1 ∷ []) 1 1 pair_index-IsIntact refl refl (omega arith)
      pair_index-HasLists

-- Node 0 loses its only link, and the entry point with it.
update_point_first_example :
    (h' : HierarchicalNsw) × (update_point pair_index unseen (0 ∷ []) 0 ≡ inserted h')
    × (h'.graph.links 0 0 ≡ [])
    × (any_eq 0 (h'.graph.links 0 1) ≡ false)
update_point_first_example =
    update_point_first pair_index unseen (0 ∷ []) 0 0 1 refl (omega arith) (omega arith) refl
