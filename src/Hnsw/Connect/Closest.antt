-- ===== src/Hnsw/Connect/Closest.antt =====
-- The first of the nodes that `getNeighborsByHeuristic2` of src/hnsw/hnswalg.h selects.
use endee.Prelude.{
  ℕ, suc, ◌<◌, ◌≡◌, refl, ap, ◌∙◌, inl, inr, false, some, List, [], ◌∷◌, ◌++◌, arith, leb, ◌==◌,
  Bool-cases, Option-cases, length,
}
use endee.Hnsw.Graph.{Bytes, get_data, Graph}
use endee.Hnsw.Links.{max_degree, set_links, set_links_at, set_links_elsewhere}
use endee.Hnsw.Connect.{
  is_good, select_one, select, fill_back, target_backfill_size, no_selection,
  get_neighbors_by_heuristic2, ids_of, link_back, link_back_each, mutually_connect_new_element,
  Selection,
}

abbrev pub HasHead : ℕ × ℕ → List (ℕ × ℕ) → Type 0
HasHead p ps = (rest : List (ℕ × ℕ)) × (ps ≡ p ∷ rest)

HasHead-snoc : (p r : ℕ × ℕ) (ps : List (ℕ × ℕ)) → HasHead p ps → HasHead p (ps ++ r ∷ [])
HasHead-snoc p r ps (rest, e) = (rest ++ r ∷ [], ap (λ l. l ++ r ∷ []) e)

module _ (g : Graph) (p : ℕ × ℕ) where
  select_one-HasHead :
      (level : ℕ) (s : Selection) (r : ℕ × ℕ)
      → HasHead p s.result
      → HasHead p (select_one g level s r).result
  unfolding select_one
  select_one-HasHead level s r h = elim (Option-cases (get_data g level r.1)) [
    | inl missing ↦ rw (missing, select_one) h
    | inr (x, found) ↦ elim (Bool-cases (is_good g s.selected_vecs r.0 x)) [
      | inl good ↦ rw (found, select_one, good) (HasHead-snoc p r s.result h)
      | inr bad ↦ rw (found, select_one, bad) h
    ]
  ]

  select-HasHead :
      (cur_m level : ℕ) (s : Selection) (ps : List (ℕ × ℕ))
      → HasHead p s.result
      → HasHead p (select g cur_m level s ps).result
  unfolding select
  select-HasHead cur_m level s [] h = h
  select-HasHead cur_m level s (r ∷ ps) h = elim (Bool-cases (length s.result == cur_m)) [
    | inl full ↦ rw (full, select) h
    | inr room ↦
        rw (room, select)
          (select-HasHead cur_m level (select_one g level s r) ps (select_one-HasHead level s r h))
  ]

  fill_back-HasHead :
      (target : ℕ) (result ps : List (ℕ × ℕ))
      → HasHead p result
      → HasHead p (fill_back target result ps)
  unfolding fill_back
  fill_back-HasHead target result [] h = h
  fill_back-HasHead target result (r ∷ ps) h = elim (Bool-cases (leb target (length result))) [
    | inl enough ↦ rw (enough, fill_back) h
    | inr short ↦
        rw (short, fill_back)
          (fill_back-HasHead target (result ++ r ∷ []) ps (HasHead-snoc p r result h))
  ]

  select_first :
      (cur_m level : ℕ) (x : Bytes) (ps : List (ℕ × ℕ))
      → get_data g level p.1 ≡ some x
      → 0 < cur_m
      → HasHead p (select g cur_m level no_selection (p ∷ ps)).result
  unfolding select select_one is_good
  select_first cur_m level x ps found h =
      let none_yet : (0 == cur_m) ≡ false = ground arith in
      rw (none_yet, select)
        (select-HasHead cur_m level (select_one g level no_selection p) ps
          (rw (found, select_one) ([], refl)))

  pub get_neighbors_by_heuristic2_closest :
      (ps : List (ℕ × ℕ)) (cur_m level : ℕ) (x : Bytes)
      → get_data g level p.1 ≡ some x
      → 0 < cur_m
      → HasHead p (get_neighbors_by_heuristic2 g (p ∷ ps) cur_m level)
  unfolding get_neighbors_by_heuristic2
  get_neighbors_by_heuristic2_closest ps cur_m level x found h =
      elim (Bool-cases (leb (suc (length ps)) cur_m)) [
        | inl few ↦ rw (few, get_neighbors_by_heuristic2) (ps, refl)
        | inr many ↦
            let s = select g cur_m level no_selection (p ∷ ps) in
            rw (many, get_neighbors_by_heuristic2)
              (fill_back-HasHead (target_backfill_size cur_m level) s.result s.fill_back_ids
                (select_first cur_m level x ps found h))
      ]

pub link_back_each_own :
    (data_point : Bytes) (cur_c level : ℕ) (g : Graph) (neighbors : List ℕ)
    → (link_back_each data_point cur_c level g neighbors).links level cur_c ≡ g.links level cur_c
unfolding link_back_each link_back
link_back_each_own data_point cur_c level g [] = refl
link_back_each_own data_point cur_c level g (n ∷ ns) =
    link_back_each_own data_point cur_c level (link_back data_point cur_c level g n) ns ∙ kept
  where
    kept : (link_back data_point cur_c level g n).links level cur_c ≡ g.links level cur_c
    kept = elim (Bool-cases (n == cur_c)) [
      | inl own ↦ rw (own, link_back) refl
      | inr other ↦
          rw (other, link_back) (set_links_elsewhere g level n level cur_c _ (ground arith))
    ]

-- Connecting an element when the vector of its closest candidate can be fetched: its own list holds
-- the selected nodes, of which that candidate is the first and the next entry point.
pub mutually_connect_new_element_own :
    (g : Graph) (data_point : Bytes) (cur_c : ℕ) (p : ℕ × ℕ) (ps : List (ℕ × ℕ)) (level : ℕ)
    (x : Bytes)
    → get_data g level p.1 ≡ some x
    → 0 < max_degree g level
    → let selected = get_neighbors_by_heuristic2 g (p ∷ ps) (max_degree g level) level in
      let connected = mutually_connect_new_element g data_point cur_c (p ∷ ps) level in
      (connected.0.links level cur_c ≡ ids_of selected) × HasHead p selected × (connected.1 ≡ p.1)
unfolding mutually_connect_new_element
mutually_connect_new_element_own g data_point cur_c p ps level x found room =
    let (rest, e) =
      get_neighbors_by_heuristic2_closest g p ps (max_degree g level) level x found room in
    let ids = ids_of (p ∷ rest) in
    rw (e, mutually_connect_new_element)
      (
        link_back_each_own data_point cur_c level (set_links g level cur_c ids) ids
            ∙ set_links_at g level cur_c ids,
        (rest, refl),
        refl,
      )
