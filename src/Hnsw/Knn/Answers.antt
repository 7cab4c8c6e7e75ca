-- ===== src/Hnsw/Knn/Answers.antt =====
-- What `searchKnn` of src/hnsw/hnswalg.h returns.
use endee.Prelude.{
  ℕ, zero, suc, ◌≤◌, min, max, ◌≡◌, refl, sym, ◌⊎◌, inl, inr, Bool, true, false, Option, none, some,
  List, [], ◌∷◌, ◌++◌, map, arith, ltb, ◌==◌, ==_iff, Bool-cases, Option-cases, length, take, drop,
  All, length-take, take-append-drop, length-map,
}
use endee.Hnsw.Visited.{VisitedList}
use endee.Hnsw.Graph.{Bytes, get_data, Graph}
use endee.Hnsw.Search.{is_allowed, is_hidden, Query}
use endee.Hnsw.Search.Loop.{search_base_layer}
use endee.Hnsw.Search.Order.{IsDescending}
use endee.Hnsw.Search.Sound.{IsAnswer}
use endee.Hnsw.Search.Answers.{search_base_layer_lem}
use endee.Hnsw.Knn.{sim_of, label_pairs, find_entry, knn_query, search_knn, HierarchicalNsw}
use endee.Hnsw.Knn.Walk.{walk_down_returns}

-- The label of a node that the filter allows, not marked as deleted where the index counts
-- deletions, with its similarity to the query.
pub record IsHit (g : Graph) (q : Query) (p : ℕ × ℕ) : Type 0 where
  node : ℕ
  label : p.1 ≡ g.external_label node
  shown : is_hidden g q node ≡ false
  allowed : is_allowed g q node ≡ true
  vector : Bytes
  fetched : get_data g 0 node ≡ some vector
  similar : p.0 ≡ g.sim_func q.data_point vector

module _ (g : Graph) where
  All-label_pairs :
      (P Q : ℕ × ℕ → Type 0) (k : ℕ) (ps : List (ℕ × ℕ))
      → ((p : ℕ × ℕ) → P p → Q (p.0, g.external_label p.1))
      → All P ps
      → All Q (label_pairs g k ps)
  unfolding label_pairs
  All-label_pairs P Q zero ps f h = tt
  All-label_pairs P Q (suc k) [] f h = tt
  All-label_pairs P Q (suc k) (p ∷ ps) f h = (f p h.0, All-label_pairs P Q k ps f h.1)

  label_pairs-IsDescending :
      (k : ℕ) (ps : List (ℕ × ℕ)) → IsDescending ps → IsDescending (label_pairs g k ps)
  unfolding label_pairs
  label_pairs-IsDescending zero ps h = tt
  label_pairs-IsDescending (suc k) [] h = tt
  label_pairs-IsDescending (suc k) (p ∷ ps) h = (
    All-label_pairs (λ r. r.0 ≤ p.0) (λ r. r.0 ≤ p.0) k ps (λ r low. low) h.0,
    label_pairs-IsDescending k ps h.1,
  )

  -- The pairs after the first `k` are no more similar than what these become.
  drop-worse :
      (p : ℕ × ℕ) (k : ℕ) (ps found : List (ℕ × ℕ))
      → All (λ r. r.0 ≤ p.0) ps
      → All (λ r. All (λ c. r.0 ≤ c.0) found) (drop k ps)
      → All (λ r. (r.0 ≤ p.0) × All (λ c. r.0 ≤ c.0) found) (drop k ps)
  drop-worse p zero [] found low h = tt
  drop-worse p zero (r ∷ ps) found low h = ((low.0, h.0), drop-worse p zero ps found low.1 h.1)
  drop-worse p (suc k) [] found low h = tt
  drop-worse p (suc k) (r ∷ ps) found low h = drop-worse p k ps found low.1 h

  drop-label_pairs :
      (k : ℕ) (ps : List (ℕ × ℕ))
      → IsDescending ps
      → All (λ r. All (λ c. r.0 ≤ c.0) (label_pairs g k ps)) (drop k ps)
  unfolding label_pairs
  drop-label_pairs zero [] h = tt
  drop-label_pairs zero (p ∷ ps) h = (tt, drop-label_pairs zero ps h.1)
  drop-label_pairs (suc k) [] h = tt
  drop-label_pairs (suc k) (p ∷ ps) h =
      drop-worse p k ps (label_pairs g k ps) h.0 (drop-label_pairs k ps h.1)

  length-label_pairs : (k : ℕ) (ps : List (ℕ × ℕ)) → length (label_pairs g k ps) ≡ min k (length ps)
  unfolding label_pairs
  length-label_pairs k ps = omega (
    arith,
    length-map {B = ℕ × ℕ} (λ (p : ℕ × ℕ). (p.0, g.external_label p.1)) (take k ps),
    length-take k ps,
  )

-- The pairs of the layer-0 search `base`, as the result of a search for `k` shows them: the pairs
-- `chosen`, as many as there are up to `k`, with the labels of their nodes; none of the others is
-- more similar than any of these.
pub record IsTop (g : Graph) (k : ℕ) (base found : List (ℕ × ℕ)) : Type 0 where
  pub chosen : List (ℕ × ℕ)
  pub others : List (ℕ × ℕ)
  pub split : base ≡ chosen ++ others
  pub labelled : found ≡ map (λ p. (p.0, g.external_label p.1)) chosen
  pub size : length found ≡ min k (length base)
  pub worse : All (λ r. All (λ p. r.0 ≤ p.0) found) others

label_pairs-IsTop :
    (g : Graph) (k : ℕ) (ps : List (ℕ × ℕ)) → IsDescending ps → IsTop g k ps (label_pairs g k ps)
unfolding label_pairs
label_pairs-IsTop g k ps h = record {
  chosen = take k ps;
  others = drop k ps;
  split = sym (take-append-drop k ps);
  labelled = refl;
  size = length-label_pairs g k ps;
  worse = drop-label_pairs g k ps h;
}

module _ (h : HierarchicalNsw) where
  find_entry_cases :
      (query_data : Bytes)
      → (find_entry h query_data ≡ some none)
        ⊎ ((ep : ℕ) × (find_entry h query_data ≡ some (some ep)))
  unfolding find_entry sim_of
  find_entry_cases query_data = elim (Bool-cases (ltb 0 h.max_level)) [
    | inr flat ↦ inr (h.entry_point, rw (flat, find_entry) refl)
    | inl tall ↦ elim (Option-cases (h.graph.upper h.entry_point)) [
      | inl missing ↦ inl (rw (tall, missing, find_entry) refl)
      | inr (x, found) ↦
          let (t, returns, _, _) =
            walk_down_returns h.graph query_data h.max_level
              (h.graph.sim_func query_data x, h.entry_point) (rw (found, sim_of) refl) in
          inr (t.1, rw (tall, found, find_entry, returns) refl)
    ]
  ]

-- Where the visited list has an entry for every node, a search returns: k pairs at most, the most
-- similar first, each the label of a node that the filter allows and that is not marked as deleted,
-- where the index counts deletions, with the similarity of its vector to the query. Either nothing
-- is found, since the index is empty or its entry point has no data in the upper layers, or the
-- search of layer 0 from the entry that the upper layers give returns some pairs, and what is found
-- are the k most similar of these, all of them where there are fewer.
pub search_knn_lem :
    (h : HierarchicalNsw) (filter : Option (ℕ → Bool)) (visited : VisitedList) (query_data : Bytes)
    (k ef filter_boost_percentage : ℕ)
    → length visited.mass ≡ h.graph.max_elements
    → (found : List (ℕ × ℕ)) × (search_knn h filter visited query_data k ef filter_boost_percentage
        ≡ some found)
      × (length found ≤ k)
      × IsDescending found
      × All (IsHit h.graph (knn_query h filter query_data (max ef k) filter_boost_percentage)) found
      × (((found ≡ []) × ((h.graph.cur_elements_count ≡ 0) ⊎ (find_entry h query_data ≡ some none)))
          ⊎ ((ep : ℕ) × (base : List (ℕ × ℕ)) × (visited' : VisitedList) × (find_entry h query_data
                ≡ some (some ep))
              × (search_base_layer h.graph
                    (knn_query h filter query_data (max ef k) filter_boost_percentage)
                    visited
                    (ep ∷ [])
                  ≡ some (base, visited'))
              × IsTop h.graph k base found))
unfolding search_knn
search_knn_lem h filter visited query_data k ef filter_boost_percentage size =
    elim (Bool-cases (h.graph.cur_elements_count == 0)) [
      | inl empty ↦ (
        [],
        rw (empty, search_knn) refl,
        omega arith,
        tt,
        tt,
        inl (refl, inl ((==_iff h.graph.cur_elements_count 0).0 empty)),
      )
      | inr some_nodes ↦ elim (find_entry_cases h query_data) [
        | inl absent ↦ (
          [],
          rw (some_nodes, search_knn, absent) refl,
          omega arith,
          tt,
          tt,
          inl (refl, inr absent),
        )
        | inr (ep, entered) ↦
            let q = knn_query h filter query_data (max ef k) filter_boost_percentage in
            let (base, visited', returns, few, sorted, answers) =
              search_base_layer_lem h.graph q (ep ∷ []) visited size in
            (
              label_pairs h.graph k base,
              rw (some_nodes, search_knn, entered, returns) refl,
              omega (arith, length-label_pairs h.graph k base),
              label_pairs-IsDescending h.graph k base sorted,
              All-label_pairs h.graph (IsAnswer h.graph q (ep ∷ [])) (IsHit h.graph q) k base
                  (λ p a. record {
                    node = p.1;
                    label = refl;
                    shown = a.shown;
                    allowed = a.allowed;
                    vector = a.vector;
                    fetched = a.fetched;
                    similar = a.similar;
                  })
                  answers,
              inr (ep, base, visited', entered, returns, label_pairs-IsTop h.graph k base sorted),
            )
      ]
    ]
