-- ===== src/Hnsw/Search/Near.antt =====
-- The neighbours of a node that a search of src/hnsw/hnswalg.h reached.
use endee.Prelude.{
  ℕ, ◌≡◌, refl, sym, subst, inl, inr, true, false, ◌||◌, some, List, [], ◌∷◌, arith, leb, ◌==◌,
  ==_iff, ==_refl, Bool-cases, Option-cases, any_eq, All,
}
use endee.Hnsw.Visited.{mark, is_visited, VisitedList}
use endee.Hnsw.Graph.{Bytes, get_data, Graph, Reach, step}
use endee.Hnsw.Search.{is_allowed, is_hidden, mark_node, Search, Query}
use endee.Hnsw.Search.Expand.{
  consider_upper, consider_all, collect, fetch_batch, consider_refused, expand_base, expand,
}
use endee.Hnsw.Search.Sound.{
  offer_refused-IsSound, offer_allowed-IsSound, consider_allowed-IsSound, consider_refused-IsSound,
  IsSound, IsNear,
}

-- What holds of every element of a list.
pub All-members : (P : ℕ → Type 0) (xs : List ℕ) → ((i : ℕ) → any_eq i xs ≡ true → P i) → All P xs
All-members P [] h = tt
All-members P (x ∷ xs) h =
    (h x (ground (arith, ==_refl x)), All-members P xs (λ i m. h i (ground (arith, m))))

module _ (g : Graph) (q : Query) (eps : List ℕ) where
  near :
      (i : ℕ)
      → Reach g q.layer eps i
      → (leb g.max_elements i) ≡ false
      → is_hidden g q i ≡ false
      → IsNear g q eps i
  near i r inside shown = record { reached = r; inside = ground arith; shown = shown }

  marked-IsSound : (s : Search) (i : ℕ) → IsSound g q eps s → IsSound g q eps (mark_node g q s i)
  unfolding mark_node
  marked-IsSound s i h = record { waiting = h.waiting; best = h.best }

  consider_upper-IsSound :
      (s : Search) (i : ℕ)
      → (q.layer == 0) ≡ false
      → IsSound g q eps s
      → Reach g q.layer eps i
      → IsSound g q eps (consider_upper g q s i)
  unfolding consider_upper get_data
  consider_upper-IsSound s i above h r =
      elim (Bool-cases (leb g.max_elements i || is_visited s.visited i)) [
        | inl skipped ↦ rw (skipped, consider_upper) h
        | inr new ↦ elim (Bool-cases (is_hidden g q i)) [
          | inl hidden ↦ rw (new, consider_upper, hidden) (marked-IsSound s i h)
          | inr shown ↦ elim (Option-cases (g.upper i)) [
            | inl absent ↦ rw (new, consider_upper, shown, absent) (marked-IsSound s i h)
            | inr (x, e) ↦ elim (Bool-cases (is_allowed g q i)) [
              | inl passed ↦
                  rw (new, consider_upper, shown, e, passed)
                    (offer_allowed-IsSound g q eps (mark_node g q s i) i x (marked-IsSound s i h)
                      (near i r (ground arith) shown) passed (rw (e, get_data) refl))
              | inr refused ↦
                  rw (new, consider_upper, shown, e, refused)
                    (offer_refused-IsSound g q eps (mark_node g q s i) i x (marked-IsSound s i h) r)
            ]
          ]
        ]
      ]

  consider_all-IsSound :
      (s : Search) (is : List ℕ)
      → (q.layer == 0) ≡ false
      → IsSound g q eps s
      → All (Reach g q.layer eps) is
      → IsSound g q eps (consider_all g q s is)
  unfolding consider_all
  consider_all-IsSound s [] above h r = h
  consider_all-IsSound s (i ∷ is) above h r =
      consider_all-IsSound (consider_upper g q s i) is above
        (consider_upper-IsSound s i above h r.0) r.1

  collect-IsNear :
      (v : VisitedList) (is : List ℕ)
      → All (Reach g q.layer eps) is
      → All (IsNear g q eps) (collect g q v is).1
  unfolding collect
  collect-IsNear v [] r = tt
  collect-IsNear v (i ∷ is) r = elim (Bool-cases (leb g.max_elements i || is_visited v i)) [
    | inl skipped ↦ rw skipped (collect-IsNear v is r.1)
    | inr new ↦ elim (Bool-cases (is_hidden g q i)) [
      | inl hidden ↦ rw (new, hidden) (collect-IsNear (mark v i) is r.1)
      | inr shown ↦
          rw (new, shown) (near i r.0 (ground arith) shown, collect-IsNear (mark v i) is r.1)
    ]
  ]

  fetch_batch_lem :
      (is : List ℕ)
      → All (IsNear g q eps) is
      → All (λ r. IsNear g q eps r.0 × (get_data g 0 r.0 ≡ some r.1)) (fetch_batch g q is)
  unfolding fetch_batch
  fetch_batch_lem [] a = tt
  fetch_batch_lem (i ∷ is) a = elim (Option-cases (get_data g 0 i)) [
    | inl absent ↦ rw (absent, fetch_batch) (fetch_batch_lem is a.1)
    | inr (x, e) ↦ rw (e, fetch_batch) ((a.0, e), fetch_batch_lem is a.1)
  ]

  expand_base-IsSound :
      (s : Search) (ids : List ℕ)
      → q.layer ≡ 0
      → IsSound g q eps s
      → All (Reach g q.layer eps) ids
      → IsSound g q eps (expand_base g q s ids)
  unfolding expand_base
  expand_base-IsSound s ids base h r =
      let c = collect g q s.visited ids in
      let fetched : List (ℕ × Bytes) = fetch_batch g q c.1 in
      let known =
        subst (λ l. All (λ r. IsNear g q eps r.0 × (get_data g l r.0 ≡ some r.1)) fetched)
          (sym base) (fetch_batch_lem c.1 (collect-IsNear s.visited ids r)) in
      let s' : Search = record s { visited = c.0 } in
      consider_allowed-IsSound g q eps (consider_refused g q s' fetched) fetched
        (consider_refused-IsSound g q eps s' fetched (record { waiting = h.waiting; best = h.best })
          known)
        known

  -- The neighbours of a node that was reached.
  neighbours : (u : ℕ) → Reach g q.layer eps u → All (Reach g q.layer eps) (g.links q.layer u)
  neighbours u r = All-members (Reach g q.layer eps) (g.links q.layer u) (λ v m. step r m)

  pub expand-IsSound :
      (s : Search) (i : ℕ)
      → IsSound g q eps s
      → Reach g q.layer eps i
      → IsSound g q eps (expand g q s i)
  unfolding expand
  expand-IsSound s i h r = elim (Bool-cases (q.layer == 0)) [
    | inl base ↦
        let zero_layer : q.layer ≡ 0 = (==_iff q.layer 0).0 base in
        rw (base, expand)
          (expand_base-IsSound s (g.links 0 i) zero_layer h
            (subst (λ l. All (Reach g q.layer eps) (g.links l i)) zero_layer (neighbours i r)))
    | inr above ↦ elim (Option-cases (g.upper i)) [
      | inl absent ↦ rw (above, expand, absent) h
      | inr (x, e) ↦
          rw (above, expand, e)
            (consider_all-IsSound s (g.links q.layer i) above h (neighbours i r))
    ]
  ]
