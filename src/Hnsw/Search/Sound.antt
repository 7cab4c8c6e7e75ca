-- ===== src/Hnsw/Search/Sound.antt =====
-- What `searchBaseLayer` of src/hnsw/hnswalg.h finds.
use endee.Prelude.{
  ℕ, ◌<◌, ◌≡◌, refl, sym, subst, inl, inr, true, false, some, List, [], ◌∷◌, Bool-cases, All,
}
use endee.Hnsw.Graph.{Bytes, get_data, Graph, Reach}
use endee.Hnsw.Search.{
  push_candidate, is_allowed, is_hidden, is_fatigued, is_wanted, offer_refused, offer_allowed,
  Search, Query,
}
use endee.Hnsw.Search.Expand.{consider_refused, consider_allowed}
use endee.Hnsw.Search.Order.{All-push_candidate, trim-push_top-IsBest, IsBest}

module _ (g : Graph) (q : Query) (eps : List ℕ) where
  -- A node that links lead to from the entry points and that the filter allows, with its
  -- similarity; not marked as deleted, where the query has `has_deletions`.
  pub record IsAnswer (p : ℕ × ℕ) : Type 0 where
    pub reached : Reach g q.layer eps p.1
    pub inside : p.1 < g.max_elements
    pub shown : is_hidden g q p.1 ≡ false
    pub allowed : is_allowed g q p.1 ≡ true
    pub vector : Bytes
    pub fetched : get_data g q.layer p.1 ≡ some vector
    pub similar : p.0 ≡ g.sim_func q.data_point vector

  pub record IsSound (s : Search) : Type 0 where
    pub waiting : All (λ p. Reach g q.layer eps p.1) s.candidate_set
    pub best : IsBest IsAnswer q.ef s.top_candidates

  -- What is known of a neighbour before its vector is looked at.
  pub record IsNear (i : ℕ) : Type 0 where
    pub reached : Reach g q.layer eps i
    pub inside : i < g.max_elements
    pub shown : is_hidden g q i ≡ false

  pub push-IsSound :
      (s : Search) (t : Search) (sim i : ℕ)
      → IsSound s
      → Reach g q.layer eps i
      → t.candidate_set ≡ push_candidate (sim, i) s.candidate_set
      → t.top_candidates ≡ s.top_candidates
      → IsSound t
  push-IsSound s t sim i h r e e' = record {
    waiting =
        subst (All (λ p. Reach g q.layer eps p.1)) (sym e)
          (All-push_candidate (λ p. Reach g q.layer eps p.1) (sim, i) s.candidate_set r h.waiting);
    best = subst (IsBest IsAnswer q.ef) (sym e') h.best;
  }

  pub offer_refused-IsSound :
      (s : Search) (i : ℕ) (x : Bytes)
      → IsSound s
      → Reach g q.layer eps i
      → IsSound (offer_refused g q s i x)
  unfolding offer_refused
  offer_refused-IsSound s i x h r = elim (Bool-cases (is_fatigued g q s.dist_computations i)) [
    | inl tired ↦ rw (tired, offer_refused) h
    | inr fresh ↦ elim (Bool-cases (is_wanted g q s (g.sim_func q.data_point x))) [
      | inl wanted ↦ rw (fresh, offer_refused, wanted) (push-IsSound s _ _ i h r refl refl)
      | inr unwanted ↦
          rw (fresh, offer_refused, unwanted) (record { waiting = h.waiting; best = h.best })
    ]
  ]

  pub offer_allowed-IsSound :
      (s : Search) (i : ℕ) (x : Bytes)
      → IsSound s
      → IsNear i
      → is_allowed g q i ≡ true
      → get_data g q.layer i ≡ some x
      → IsSound (offer_allowed g q s i x)
  unfolding offer_allowed
  offer_allowed-IsSound s i x h near allowed fetched =
      let p : ℕ × ℕ = (g.sim_func q.data_point x, i) in
      elim (Bool-cases (is_wanted g q s p.0)) [
        | inr unwanted ↦
            rw (unwanted, offer_allowed) (record { waiting = h.waiting; best = h.best })
        | inl wanted ↦
            rw (wanted, offer_allowed, near.shown)
              (record {
                waiting =
                    All-push_candidate (λ p. Reach g q.layer eps p.1) p s.candidate_set near.reached
                      h.waiting;
                best =
                    trim-push_top-IsBest IsAnswer q.ef p s.top_candidates
                      (record {
                        reached = near.reached;
                        inside = near.inside;
                        shown = near.shown;
                        allowed = allowed;
                        vector = x;
                        fetched = fetched;
                        similar = refl;
                      })
                      h.best;
              })
      ]

  pub consider_allowed-IsSound :
      (s : Search) (l : List (ℕ × Bytes))
      → IsSound s
      → All (λ r. IsNear r.0 × (get_data g q.layer r.0 ≡ some r.1)) l
      → IsSound (consider_allowed g q s l)
  unfolding consider_allowed
  consider_allowed-IsSound s [] h a = h
  consider_allowed-IsSound s ((i, x) ∷ l) h a = elim (Bool-cases (is_allowed g q i)) [
    | inl passed ↦
        rw (passed, consider_allowed)
          (consider_allowed-IsSound (offer_allowed g q s i x) l
            (offer_allowed-IsSound s i x h a.0.0 passed a.0.1) a.1)
    | inr refused ↦ rw (refused, consider_allowed) (consider_allowed-IsSound s l h a.1)
  ]

  pub consider_refused-IsSound :
      (s : Search) (l : List (ℕ × Bytes))
      → IsSound s
      → All (λ r. IsNear r.0 × (get_data g q.layer r.0 ≡ some r.1)) l
      → IsSound (consider_refused g q s l)
  unfolding consider_refused
  consider_refused-IsSound s [] h a = h
  consider_refused-IsSound s ((i, x) ∷ l) h a = elim (Bool-cases (is_allowed g q i)) [
    | inl passed ↦ rw (passed, consider_refused) (consider_refused-IsSound s l h a.1)
    | inr refused ↦
        rw (refused, consider_refused)
          (consider_refused-IsSound (offer_refused g q s i x) l
            (offer_refused-IsSound s i x h a.0.0.reached) a.1)
  ]
