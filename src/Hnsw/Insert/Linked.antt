-- ===== src/Hnsw/Insert/Linked.antt =====
-- What `addPoint` of src/hnsw/hnswalg.h links an element to at level 0.
use endee.Prelude.{
  ℕ, zero, suc, ◌<◌, ◌≡◌, refl, sym, ap, subst, ◌∙◌, inl, inr, Bool, some, List, [], ◌∷◌, arith,
  ◌==◌, Bool-cases, List-cases,
}
use endee.Hnsw.Visited.{reset, VisitedList}
use endee.Hnsw.Graph.{Bytes, Graph}
use endee.Hnsw.Links.{
  max_degree, set_links, SameNodes, SameNodes-trans, set_links_at, set_links_elsewhere,
}
use endee.Hnsw.Search.Loop.{search_base_layer}
use endee.Hnsw.Connect.{
  get_neighbors_by_heuristic2, ids_of, link_back, link_back_each, mutually_connect_new_element,
}
use endee.Hnsw.Connect.Closest.{link_back_each_own}
use endee.Hnsw.Insert.{insert_query, connect_level, connect_down, Joining}
use endee.Hnsw.Insert.Joins.{connect_level_returns, IsJoining}

link_back-SameNodes :
    (data_point : Bytes) (cur_c level : ℕ) (g : Graph) (n : ℕ)
    → SameNodes g (link_back data_point cur_c level g n)
unfolding link_back set_links
link_back-SameNodes data_point cur_c level g n = elim (Bool-cases (n == cur_c)) [
  | inl own ↦ rw (own, link_back) refl
  | inr other ↦ rw (other, link_back) refl
]

link_back_each-SameNodes :
    (data_point : Bytes) (cur_c level : ℕ) (g : Graph) (ns : List ℕ)
    → SameNodes g (link_back_each data_point cur_c level g ns)
unfolding link_back_each
link_back_each-SameNodes data_point cur_c level g [] = refl
link_back_each-SameNodes data_point cur_c level g (n ∷ ns) =
    SameNodes-trans g (link_back data_point cur_c level g n) _
      (link_back-SameNodes data_point cur_c level g n)
      (link_back_each-SameNodes data_point cur_c level (link_back data_point cur_c level g n) ns)

link_back_each_base :
    (data_point : Bytes) (cur_c level : ℕ) (g : Graph) (ns : List ℕ) (j : ℕ)
    → (link_back_each data_point cur_c (suc level) g ns).links 0 j ≡ g.links 0 j
unfolding link_back_each link_back
link_back_each_base data_point cur_c level g [] j = refl
link_back_each_base data_point cur_c level g (n ∷ ns) j =
    link_back_each_base data_point cur_c level (link_back data_point cur_c (suc level) g n) ns j
    ∙ once
  where
    once : (link_back data_point cur_c (suc level) g n).links 0 j ≡ g.links 0 j
    once = elim (Bool-cases (n == cur_c)) [
      | inl own ↦ rw (own, link_back) refl
      | inr other ↦ rw (other, link_back) (set_links_elsewhere g (suc level) n 0 j _ (ground arith))
    ]

module _ (g : Graph) (data_point : Bytes) (cur_c : ℕ) (candidates : List (ℕ × ℕ)) (level : ℕ) where
  mutually_connect_new_element-SameNodes :
      SameNodes g (mutually_connect_new_element g data_point cur_c candidates level).0
  unfolding mutually_connect_new_element set_links
  mutually_connect_new_element-SameNodes =
      elim (List-cases (get_neighbors_by_heuristic2 g candidates (max_degree g level) level)) [
        | inl nothing ↦ rw (nothing, mutually_connect_new_element) refl
        | inr (p, ps, e) ↦
            rw (e, mutually_connect_new_element)
              (SameNodes-trans g (set_links g level cur_c (ids_of (p ∷ ps))) _ refl (
                link_back_each-SameNodes data_point cur_c level
                  (set_links g level cur_c (ids_of (p ∷ ps))) (ids_of (p ∷ ps))))
      ]

  -- The own list of an element that had no links.
  mutually_connect_new_element_chosen :
      g.links level cur_c ≡ []
      → (mutually_connect_new_element g data_point cur_c candidates level).0.links level cur_c
        ≡ ids_of (get_neighbors_by_heuristic2 g candidates (max_degree g level) level)
  unfolding mutually_connect_new_element
  mutually_connect_new_element_chosen bare =
      elim (List-cases (get_neighbors_by_heuristic2 g candidates (max_degree g level) level)) [
        | inl nothing ↦ rw (nothing, mutually_connect_new_element) bare
        | inr (p, ps, e) ↦
            let ids = ids_of (p ∷ ps) in
            rw (e, mutually_connect_new_element)
              (link_back_each_own data_point cur_c level (set_links g level cur_c ids) ids
                ∙ set_links_at g level cur_c ids)
      ]

mutually_connect_new_element_base :
    (g : Graph) (data_point : Bytes) (cur_c : ℕ) (candidates : List (ℕ × ℕ)) (level j : ℕ)
    → (mutually_connect_new_element g data_point cur_c candidates (suc level)).0.links 0 j
      ≡ g.links 0 j
unfolding mutually_connect_new_element
mutually_connect_new_element_base g data_point cur_c candidates level j =
    elim (List-cases
      (get_neighbors_by_heuristic2 g candidates (max_degree g (suc level)) (suc level))) [
        | inl nothing ↦ rw (nothing, mutually_connect_new_element) refl
        | inr (p, ps, e) ↦
            let ids = ids_of (p ∷ ps) in
            rw (e, mutually_connect_new_element)
              (link_back_each_base data_point cur_c level (set_links g (suc level) cur_c ids) ids j
                ∙ set_links_elsewhere g (suc level) cur_c 0 j ids (ground arith))
      ]

-- The levels above 0 lead from one state to the other.
pub data Descends (ef_construction : ℕ) (has_deletions : Bool) (datapoint : Bytes) (cur_c : ℕ)
    : ℕ → Joining → Joining → Type 0 where
  base : {s : Joining} → Descends ef_construction has_deletions datapoint cur_c 0 s s
  down :
      {level : ℕ} {s s' t : Joining}
      → connect_level ef_construction has_deletions datapoint cur_c (suc level) s ≡ some s'
      → Descends ef_construction has_deletions datapoint cur_c level s' t
      → Descends ef_construction has_deletions datapoint cur_c (suc level) s t

module _ (ef_construction : ℕ) (has_deletions : Bool) (datapoint : Bytes) (cur_c : ℕ) where
  -- The element's list at level 0 in `g'` is the selection from what the search of level 0 finds, in
  -- the state to which the levels above lead from `s`. These leave the links of level 0 alone.
  pub record IsLinked (level : ℕ) (s : Joining) (g' : Graph) : Type 0 where
    pub last : Joining
    pub descends : Descends ef_construction has_deletions datapoint cur_c level s last
    pub kept : (j : ℕ) → last.graph.links 0 j ≡ s.graph.links 0 j
    pub found : List (ℕ × ℕ)
    pub visited' : VisitedList
    pub searched :
        search_base_layer last.graph
          (insert_query ef_construction has_deletions datapoint cur_c 0)
          (reset last.visited)
          (last.curr_obj ∷ [])
        ≡ some (found, visited')
    pub linked :
        g'.links 0 cur_c
        ≡ ids_of (get_neighbors_by_heuristic2 last.graph found (max_degree last.graph 0) 0)
    pub nodes : SameNodes s.graph g'

  module _ (n max_elements : ℕ) (new : cur_c < n) where
    pub connect_down_returns :
        (level : ℕ) (s : Joining)
        → IsJoining n max_elements s
        → s.graph.links 0 cur_c ≡ []
        → (s' : Joining) × (connect_down ef_construction has_deletions datapoint cur_c level s
            ≡ some s')
          × IsJoining n max_elements s'
          × IsLinked level s s'.graph
    unfolding connect_down
    connect_down_returns zero s h bare =
        let (s', returns, h', (found, visited', searched, same)) =
          connect_level_returns ef_construction has_deletions datapoint cur_c n max_elements new 0 s
            h in
        (
          s',
          returns,
          h',
          record {
            last = s;
            descends = base;
            kept = λ j. refl;
            found = found;
            visited' = visited';
            searched = searched;
            linked =
                ap (λ (g : Graph). g.links 0 cur_c) same
                ∙ mutually_connect_new_element_chosen s.graph datapoint cur_c found 0 bare;
            nodes =
                subst (SameNodes s.graph) (sym same)
                  (mutually_connect_new_element-SameNodes s.graph datapoint cur_c found 0);
          },
        )
    connect_down_returns (suc level) s h bare =
        let (s', returns, h', (found, visited', searched, same)) =
          connect_level_returns ef_construction has_deletions datapoint cur_c n max_elements new
            (suc level) s h in
        let kept = λ (j : ℕ).
          ap (λ (g : Graph). g.links 0 j) same
          ∙ mutually_connect_new_element_base s.graph datapoint cur_c found level j in
        let (s'', returns', h'', k) = connect_down_returns level s' h' (kept cur_c ∙ bare) in
        (
          s'',
          rw (returns, connect_down) returns',
          h'',
          record {
            last = k.last;
            descends = down returns k.descends;
            kept = λ j. k.kept j ∙ kept j;
            found = k.found;
            visited' = k.visited';
            searched = k.searched;
            linked = k.linked;
            nodes =
                SameNodes-trans s.graph s'.graph s''.graph
                  (subst (SameNodes s.graph) (sym same) (
                    mutually_connect_new_element-SameNodes s.graph datapoint cur_c found
                      (suc level)))
                  k.nodes;
          },
        )
