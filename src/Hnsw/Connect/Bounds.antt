-- ===== src/Hnsw/Connect/Bounds.antt =====
-- The link lists that `mutuallyConnectNewElement` of src/hnsw/hnswalg.h writes.
use endee.Prelude.{
  ℕ, ◌≤◌, ◌<◌, ◌≡◌, refl, subst, inl, inr, List, [], ◌∷◌, arith, ltb, ◌==◌, Bool-cases,
  Option-cases, length, All, length-append, All-append, length-map, List-cases,
}
use endee.Hnsw.Graph.{Bytes, get_data, Graph}
use endee.Hnsw.Links.{max_degree, set_links, IsFitting, IsWellFormed, set_links-IsWellFormed}
use endee.Hnsw.Search.Order.{All-push_candidate}
use endee.Hnsw.Connect.{
  get_neighbors_by_heuristic2, sort_candidates, ids_of, weigh, links_with, link_back,
  link_back_each, mutually_connect_new_element,
}
use endee.Hnsw.Connect.Selected.{get_neighbors_by_heuristic2_lem}

All-ids_of : (P : ℕ → Type 0) (ps : List (ℕ × ℕ)) → All (λ p. P p.1) ps → All P (ids_of ps)
All-ids_of P [] h = tt
All-ids_of P (p ∷ ps) h = (h.0, All-ids_of P ps h.1)

All-sort_candidates :
    (P : ℕ × ℕ → Type 0) (ps : List (ℕ × ℕ)) → All P ps → All P (sort_candidates ps)
unfolding sort_candidates
All-sort_candidates P [] h = tt
All-sort_candidates P (p ∷ ps) h =
    All-push_candidate P p (sort_candidates ps) h.0 (All-sort_candidates P ps h.1)

module _ (P : ℕ → Type 0) (g : Graph) where
  All-weigh :
      (x : Bytes) (cur_c level : ℕ) (data_point : Bytes) (js : List ℕ)
      → All P js
      → All (λ (p : ℕ × ℕ). P p.1) (weigh g data_point cur_c level x js)
  unfolding weigh
  All-weigh x cur_c level data_point [] h = tt
  All-weigh x cur_c level data_point (j ∷ js) h = elim (Option-cases (get_data g level j)) [
    | inl missing ↦ rw (missing, weigh) (All-weigh x cur_c level data_point js h.1)
    | inr (y, found) ↦ rw (found, weigh) (h.0, All-weigh x cur_c level data_point js h.1)
  ]

  pub selected_lem :
      (ps : List (ℕ × ℕ)) (cur_m level : ℕ)
      → All (λ p. P p.1) ps
      → (length (ids_of (get_neighbors_by_heuristic2 g ps cur_m level)) ≤ cur_m)
        × All P (ids_of (get_neighbors_by_heuristic2 g ps cur_m level))
  selected_lem ps cur_m level h =
      let selected = get_neighbors_by_heuristic2 g ps cur_m level in
      let k = get_neighbors_by_heuristic2_lem (λ p. P p.1) g ps cur_m level h in
      (omega (arith, length-map (λ (p : ℕ × ℕ). p.1) selected, k.0), All-ids_of P selected k.1)

  -- The new list of a neighbour fits, and holds old links and the new element only.
  pub links_with_lem :
      (data_point : Bytes) (cur_c level neighbor : ℕ) (ids : List ℕ)
      → P cur_c
      → All P ids
      → (length ids ≤ max_degree g level
          → length (links_with g data_point cur_c level neighbor ids) ≤ max_degree g level)
        × All P (links_with g data_point cur_c level neighbor ids)
  unfolding links_with
  links_with_lem data_point cur_c level neighbor ids h k =
      elim (Bool-cases (ltb (length ids) (max_degree g level))) [
        | inl room ↦
            rw (room, links_with)
              (
                λ n. ground (arith, length-append ids (cur_c ∷ [])),
                All-append P ids (cur_c ∷ []) k (h, tt),
              )
        | inr full ↦ elim (Option-cases (get_data g level neighbor)) [
          | inl missing ↦ rw (full, links_with, missing) (λ n. n, k)
          | inr (x, found) ↦
              let new = selected_lem _ (max_degree g level) level (
                All-sort_candidates (λ p. P p.1)
                  ((g.sim_func x data_point, cur_c) ∷ weigh g data_point cur_c level x ids)
                  (h, All-weigh x cur_c level data_point ids k)) in
              rw (full, links_with, found) (λ n. new.0, new.1)
        ]
      ]

module _ (data_point : Bytes) (cur_c level : ℕ) where
  link_back-IsWellFormed :
      (g : Graph) (neighbor : ℕ)
      → cur_c < g.cur_elements_count
      → IsWellFormed g
      → IsWellFormed (link_back data_point cur_c level g neighbor)
  unfolding link_back
  link_back-IsWellFormed g neighbor h w = elim (Bool-cases (neighbor == cur_c)) [
    | inl own ↦ rw (own, link_back) w
    | inr other ↦
        let old = w level neighbor in
        let new =
          links_with_lem (λ j. j < g.cur_elements_count) g data_point cur_c level neighbor
            (g.links level neighbor) h old.1 in
        rw (other, link_back) (set_links-IsWellFormed g level neighbor _ (new.0 old.0, new.1) w)
  ]

  cur_elements_count-link_back :
      (g : Graph) (neighbor : ℕ)
      → (link_back data_point cur_c level g neighbor).cur_elements_count ≡ g.cur_elements_count
  unfolding link_back set_links
  cur_elements_count-link_back g neighbor = elim (Bool-cases (neighbor == cur_c)) [
    | inl own ↦ rw (own, link_back) refl
    | inr other ↦ rw (other, link_back) refl
  ]

  link_back_each-IsWellFormed :
      (g : Graph) (neighbors : List ℕ)
      → cur_c < g.cur_elements_count
      → IsWellFormed g
      → IsWellFormed (link_back_each data_point cur_c level g neighbors)
  unfolding link_back_each
  link_back_each-IsWellFormed g [] h w = w
  link_back_each-IsWellFormed g (n ∷ ns) h w =
      link_back_each-IsWellFormed (link_back data_point cur_c level g n) ns
        (rw (cur_elements_count-link_back g n) h) (link_back-IsWellFormed g n h w)

  -- Connecting an element keeps every link list within its room, M above layer 0 and M0 at it, with
  -- entries below the element count, when the element and the candidates are below it.
  pub mutually_connect_new_element-IsWellFormed :
      (g : Graph) (candidates : List (ℕ × ℕ))
      → cur_c < g.cur_elements_count
      → All (λ p. p.1 < g.cur_elements_count) candidates
      → IsWellFormed g
      → IsWellFormed (mutually_connect_new_element g data_point cur_c candidates level).0
  unfolding mutually_connect_new_element set_links
  mutually_connect_new_element-IsWellFormed g candidates h k w =
      let selected = get_neighbors_by_heuristic2 g candidates (max_degree g level) level in
      let new =
        selected_lem (λ j. j < g.cur_elements_count) g candidates (max_degree g level) level k in
      elim (List-cases selected) [
        | inl nothing ↦ rw (nothing, mutually_connect_new_element) w
        | inr (p, ps, e) ↦
            rw (e, mutually_connect_new_element)
              (link_back_each-IsWellFormed (set_links g level cur_c (ids_of (p ∷ ps)))
                (ids_of (p ∷ ps)) h
                (set_links-IsWellFormed g level cur_c (ids_of (p ∷ ps))
                  (subst (λ qs. IsFitting g level (ids_of qs)) e new) w))
      ]
