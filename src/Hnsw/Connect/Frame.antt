-- ===== src/Hnsw/Connect/Frame.antt =====
-- Which link lists `mutuallyConnectNewElement` of src/hnsw/hnswalg.h changes, and how.
use endee.Prelude.{
  ℕ, ◌≡◌, refl, sym, subst, subst₂, ◌⊎◌, inl, inr, true, false, ◌&&◌, ◌||◌, List, [], ◌∷◌, arith,
  ◌==◌, ==_refl, Bool-cases, any_eq, All, List-cases,
}
use endee.Hnsw.Graph.{Bytes, Graph}
use endee.Hnsw.Links.{max_degree, set_links, set_links_here, set_links_elsewhere}
use endee.Hnsw.Search.Near.{All-members}
use endee.Hnsw.Connect.{
  get_neighbors_by_heuristic2, ids_of, link_back, link_back_each, mutually_connect_new_element,
}
use endee.Hnsw.Connect.Bounds.{links_with_lem}

-- A list that is as it was, or one at the level that belongs to one of these nodes and holds the new
-- element and old links only.
abbrev pub IsExtended : Graph → List ℕ → ℕ → ℕ → ℕ → ℕ → List ℕ → Type 0
IsExtended g picked cur_c level l j ids =
    (ids ≡ g.links l j)
    ⊎ ((l ≡ level)
        × (any_eq j picked ≡ true)
        × All (λ v. (v == cur_c || any_eq v (g.links l j)) ≡ true) ids)

module _ (data_point : Bytes) (cur_c level : ℕ) (g₀ : Graph) (picked : List ℕ) (l j : ℕ)
    (away : (l == level && j == cur_c) ≡ false) where
  abbrev Old : ℕ → Type 0
  Old v = (v == cur_c || any_eq v (g₀.links l j)) ≡ true

  link_back-IsExtended :
      (g : Graph) (neighbor : ℕ)
      → any_eq neighbor picked ≡ true
      → IsExtended g₀ picked cur_c level l j (g.links l j)
      → IsExtended g₀ picked cur_c level l j
          ((link_back data_point cur_c level g neighbor).links l j)
  unfolding link_back
  link_back-IsExtended g neighbor m k = elim (Bool-cases (neighbor == cur_c)) [
    | inl own ↦ rw (own, link_back) k
    | inr other ↦ elim (Bool-cases (l == level && j == neighbor)) [
      | inr elsewhere ↦
          rw (other, link_back, set_links_elsewhere g level neighbor l j _ elsewhere) k
      | inl here ↦
          let same_level : l ≡ level = ground arith in
          let same : j ≡ neighbor = ground arith in
          let old : All Old (g.links level neighbor) =
            subst₂ (λ a b. All Old (g.links a b)) same_level same (olds k) in
          let new =
            (links_with_lem Old g data_point cur_c level neighbor (g.links level neighbor)
              (ground (arith, ==_refl cur_c)) old).1 in
          rw (other, link_back)
            (inr (
              same_level,
              rw same m,
              subst (All Old) (sym (set_links_here g level neighbor l j _ here)) new,
            ))
    ]
  ]
    where
      olds : IsExtended g₀ picked cur_c level l j (g.links l j) → All Old (g.links l j)
      olds (inl e) = rw e (All-members Old (g₀.links l j) (λ v h. ground (arith, h)))
      olds (inr h) = h.2

  pub link_back_each-IsExtended :
      (g : Graph) (neighbors : List ℕ)
      → All (λ n. any_eq n picked ≡ true) neighbors
      → IsExtended g₀ picked cur_c level l j (g.links l j)
      → IsExtended g₀ picked cur_c level l j
          ((link_back_each data_point cur_c level g neighbors).links l j)
  unfolding link_back_each
  link_back_each-IsExtended g [] h k = k
  link_back_each-IsExtended g (n ∷ ns) h k =
      link_back_each-IsExtended (link_back data_point cur_c level g n) ns h.1
        (link_back-IsExtended g n h.0 k)

-- Connecting an element leaves every other link list as it was, but for those of the nodes that were
-- selected, at the same level, which then hold the element and links that they had before only.
pub mutually_connect_new_element_others :
    (g : Graph) (data_point : Bytes) (cur_c : ℕ) (candidates : List (ℕ × ℕ)) (level l j : ℕ)
    → (l == level && j == cur_c) ≡ false
    → IsExtended g
        (ids_of (get_neighbors_by_heuristic2 g candidates (max_degree g level) level))
        cur_c
        level
        l
        j
        ((mutually_connect_new_element g data_point cur_c candidates level).0.links l j)
unfolding mutually_connect_new_element
mutually_connect_new_element_others g data_point cur_c candidates level l j away =
    let selected = get_neighbors_by_heuristic2 g candidates (max_degree g level) level in
    elim (List-cases selected) [
      | inl nothing ↦ rw (nothing, mutually_connect_new_element) (inl refl)
      | inr (p, ps, e) ↦
          let ids = ids_of (p ∷ ps) in
          rw (e, mutually_connect_new_element)
            (link_back_each-IsExtended data_point cur_c level g ids l j away
              (set_links g level cur_c ids) ids
              (All-members (λ n. any_eq n ids ≡ true) ids (λ n m. m))
              (inl (set_links_elsewhere g level cur_c l j ids away)))
    ]
