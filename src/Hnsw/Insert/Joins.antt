-- ===== src/Hnsw/Insert/Joins.antt =====
-- The levels of `addPoint` in src/hnsw/hnswalg.h, where a search is followed by a connection.
use endee.Prelude.{
  ℕ, ◌<◌, ◌≡◌, refl, sym, ap, subst, ◌∙◌, inl, inr, Bool, true, Option, none, some, List, [], ◌∷◌,
  arith, ◌==◌, ==_iff, Bool-cases, any_eq, length, All, length-replicate, List-cases,
}
use endee.Hnsw.Visited.{reset, VisitedList}
use endee.Hnsw.Graph.{Bytes, Graph, Reach, enter, step}
use endee.Hnsw.Links.{max_degree, set_links, SameSizes, IsWellFormed}
use endee.Hnsw.Search.{Query}
use endee.Hnsw.Search.Loop.{search_base_layer}
use endee.Hnsw.Search.Sound.{IsAnswer}
use endee.Hnsw.Search.Returns.{search_base_layer_returns}
use endee.Hnsw.Search.Answers.{search_base_layer_lem}
use endee.Hnsw.Connect.{
  get_neighbors_by_heuristic2, ids_of, link_back, link_back_each, mutually_connect_new_element,
}
use endee.Hnsw.Connect.Bounds.{selected_lem, mutually_connect_new_element-IsWellFormed}
use endee.Hnsw.Insert.{insert_query, connect_level, Joining}

All-at : (P : ℕ → Type 0) (i : ℕ) (is : List ℕ) → any_eq i is ≡ true → All P is → P i
All-at P i [] m h = absurd (ground (arith, m))
All-at P i (j ∷ is) m h = elim (Bool-cases (j == i)) [
  | inl here ↦ subst P ((==_iff j i).0 here) h.0
  | inr there ↦ All-at P i is (ground (arith, m, there)) h.1
]

-- Links lead from nodes to nodes.
Reach-inside :
    (g : Graph) (layer : ℕ) (eps : List ℕ) (i : ℕ)
    → IsWellFormed g
    → All (λ j. j < g.cur_elements_count) eps
    → Reach g layer eps i
    → i < g.cur_elements_count
Reach-inside g layer eps i w h (enter m) = All-at (λ j. j < g.cur_elements_count) i eps m h
Reach-inside g layer eps i w h (step {u} r m) =
    All-at (λ j. j < g.cur_elements_count) i (g.links layer u) m (w layer u).1

All-answers :
    (g : Graph) (q : Query) (eps : List ℕ) (ps : List (ℕ × ℕ))
    → IsWellFormed g
    → All (λ j. j < g.cur_elements_count) eps
    → All (IsAnswer g q eps) ps
    → All (λ p. p.1 < g.cur_elements_count) ps
All-answers g q eps [] w h k = tt
All-answers g q eps (p ∷ ps) w h k =
    (Reach-inside g q.layer eps p.1 w h k.0.reached, All-answers g q eps ps w h k.1)

link_back_each-SameSizes :
    (data_point : Bytes) (cur_c level : ℕ) (g : Graph) (neighbors : List ℕ)
    → SameSizes g (link_back_each data_point cur_c level g neighbors)
unfolding link_back_each link_back set_links
link_back_each-SameSizes data_point cur_c level g [] = (refl, refl)
link_back_each-SameSizes data_point cur_c level g (n ∷ ns) =
    let (a, b) =
      link_back_each-SameSizes data_point cur_c level (link_back data_point cur_c level g n) ns in
    let (c, d) = once in (a ∙ c, b ∙ d)
  where
    once : SameSizes g (link_back data_point cur_c level g n)
    once = elim (Bool-cases (n == cur_c)) [
      | inl own ↦ rw (own, link_back) (refl, refl)
      | inr other ↦ rw (other, link_back) (refl, refl)
    ]

-- The next entry point is a node, and the graph has the same sizes.
mutually_connect_new_element_next :
    (g : Graph) (data_point : Bytes) (cur_c level : ℕ) (candidates : List (ℕ × ℕ))
    → 0 < g.cur_elements_count
    → All (λ p. p.1 < g.cur_elements_count) candidates
    → let connected = mutually_connect_new_element g data_point cur_c candidates level in
      (connected.1 < g.cur_elements_count) × SameSizes g connected.0
unfolding mutually_connect_new_element set_links
mutually_connect_new_element_next g data_point cur_c level candidates some_nodes h =
    let selected = get_neighbors_by_heuristic2 g candidates (max_degree g level) level in
    let new =
      selected_lem (λ j. j < g.cur_elements_count) g candidates (max_degree g level) level h in
    elim (List-cases selected) [
      | inl nothing ↦ rw (nothing, mutually_connect_new_element) (some_nodes, (refl, refl))
      | inr (p, ps, e) ↦
          let ids = ids_of (p ∷ ps) in
          let inside = subst (λ qs. All (λ j. j < g.cur_elements_count) (ids_of qs)) e new.1 in
          rw (e, mutually_connect_new_element)
            (
              inside.0,
              link_back_each-SameSizes data_point cur_c level (set_links g level cur_c ids) ids,
            )
    ]

-- A graph between two levels.
pub record IsJoining (n max_elements : ℕ) (s : Joining) : Type 0 where
  pub well_formed : IsWellFormed s.graph
  pub count : s.graph.cur_elements_count ≡ n
  pub room : s.graph.max_elements ≡ max_elements
  pub inside : s.curr_obj < n
  pub listed : length s.visited.mass ≡ max_elements

length-reset : (v : VisitedList) → length (reset v).mass ≡ length v.mass
unfolding reset
length-reset v = ground (arith, length-replicate {A = ℕ} (length v.mass) 0)

listed_after :
    (g : Graph) (q : Query) (v : VisitedList) (eps : List ℕ) (found : List (ℕ × ℕ))
    (v' : VisitedList)
    → search_base_layer g q v eps ≡ some (found, v')
    → length v.mass ≡ g.max_elements
    → length v'.mass ≡ g.max_elements
listed_after g q v eps found v' e size =
    let (found₂, v₂, returns, size₂) = search_base_layer_returns g q v eps size in
    let same : some (found, v') ≡ some (found₂, v₂) = sym e ∙ returns in
    ap (λ (o : Option (List (ℕ × ℕ) × VisitedList)). elim o [ none ↦ 0 | some p ↦ length p.1.mass ])
      same
    ∙ size₂

module _ (ef_construction : ℕ) (has_deletions : Bool) (datapoint : Bytes) (cur_c n max_elements : ℕ)
    (new : cur_c < n) where
  pub connect_level_returns :
      (level : ℕ) (s : Joining)
      → IsJoining n max_elements s
      → (s' : Joining) × (connect_level ef_construction has_deletions datapoint cur_c level s
          ≡ some s')
        × IsJoining n max_elements s'
        × ((found : List (ℕ × ℕ)) × (visited' : VisitedList) × (search_base_layer s.graph
                (insert_query ef_construction has_deletions datapoint cur_c level)
                (reset s.visited)
                (s.curr_obj ∷ [])
              ≡ some (found, visited'))
            × (s'.graph ≡ (mutually_connect_new_element s.graph datapoint cur_c found level).0))
  unfolding connect_level
  connect_level_returns level s h =
      let g = s.graph in
      let q = insert_query ef_construction has_deletions datapoint cur_c level in
      let eps = s.curr_obj ∷ [] in
      let v = reset s.visited in
      let size : length v.mass ≡ g.max_elements = length-reset s.visited ∙ h.listed ∙ sym h.room in
      let (found, visited', returns, few, sorted, answers) = search_base_layer_lem g q eps v size in
      let up = λ (i : ℕ). subst (λ k. i < k) (sym h.count) in
      let candidates =
        All-answers g q eps found h.well_formed (up s.curr_obj h.inside, tt) answers in
      let (next, (count', room')) =
        mutually_connect_new_element_next g datapoint cur_c level found
          (omega (arith, up cur_c new)) candidates in
      let connected = mutually_connect_new_element g datapoint cur_c found level in
      let joined : Joining = record {
        graph = connected.0;
        curr_obj = connected.1;
        visited = visited';
      } in
      (
        joined,
        rw (returns, connect_level) refl,
        record {
          well_formed =
              mutually_connect_new_element-IsWellFormed datapoint cur_c level g found (up cur_c new)
                candidates h.well_formed;
          count = count' ∙ h.count;
          room = room' ∙ h.room;
          inside =
              subst (λ k. (mutually_connect_new_element g datapoint cur_c found level).1 < k)
                h.count next;
          listed = listed_after g q v eps found visited' returns size ∙ h.room;
        },
        (found, visited', returns, refl),
      )
