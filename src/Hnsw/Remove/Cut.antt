-- ===== src/Hnsw/Remove/Cut.antt =====
-- The links of a node after `removeAllConnections2` of src/hnsw/hnswalg.h.
use endee.Prelude.{
  ℕ, ◌≡◌, refl, subst, subst₂, ◌∙◌, inl, inr, true, false, not, ◌&&◌, ◌||◌, List, [], ◌∷◌, ◌++◌,
  arith, leb, ◌==◌, Bool-cases, any_eq, length, All, any_eq-append, u32,
}
use endee.Hnsw.Graph.{Graph}
use endee.Hnsw.Links.{max_degree, set_links, set_links_elsewhere}
use endee.Hnsw.Remove.Lists.{any_eq-keep_others}
use endee.Hnsw.Remove.{keep_others, level_neighbors, connect_pair, connect_pairs, unlink_each}

connect_pair_elsewhere :
    (level : ℕ) (g : Graph) (p : ℕ × ℕ) (l j : ℕ)
    → (l == level && (j == p.0 || j == p.1)) ≡ false
    → (connect_pair level g p).links l j ≡ g.links l j
unfolding connect_pair set_links
connect_pair_elsewhere level g (left, right) l j away = ground arith

module _ (internal_id level : ℕ) where
  abbrev pub Other : ℕ → Type 0
  Other k = (k == internal_id) ≡ false

  abbrev pub IsUnlinked : Graph → ℕ → ℕ → Type 0
  IsUnlinked g l j = any_eq internal_id (g.links l j) ≡ false

  pub All-level_neighbors : (g : Graph) (js : List ℕ) → All Other (level_neighbors g internal_id js)
  unfolding level_neighbors
  All-level_neighbors g [] = tt
  All-level_neighbors g (j ∷ js) =
      elim (Bool-cases (leb g.cur_elements_count j || j == internal_id)) [
        | inl skipped ↦ rw (skipped, level_neighbors) (All-level_neighbors g js)
        | inr taken ↦ rw (taken, level_neighbors) (ground arith, All-level_neighbors g js)
      ]

  set_links-IsUnlinked :
      (g : Graph) (i l j : ℕ) (ids : List ℕ)
      → (IsUnlinked g level i → any_eq internal_id ids ≡ false)
      → IsUnlinked g l j
      → IsUnlinked (set_links g level i ids) l j
  unfolding set_links
  set_links-IsUnlinked g i l j ids h k = elim (Bool-cases (l == level && j == i)) [
    | inr away ↦ rw away k
    | inl here ↦
        let same_level : l ≡ level = ground arith in
        let same : j ≡ i = ground arith in rw here (h (subst₂ (IsUnlinked g) same_level same k))
  ]

  any_eq-snoc :
      (ids : List ℕ) (k : ℕ)
      → Other k
      → any_eq internal_id ids ≡ false
      → any_eq internal_id (ids ++ k ∷ []) ≡ false
  any_eq-snoc ids k h u = ground (arith, any_eq-append internal_id ids (k ∷ []))

  connect_pair-IsUnlinked :
      (g : Graph) (p : ℕ × ℕ) (l j : ℕ)
      → Other p.0 × Other p.1
      → IsUnlinked g l j
      → IsUnlinked (connect_pair level g p) l j
  unfolding connect_pair set_links
  connect_pair-IsUnlinked g (left, right) l j h u =
      let ll_left = g.links level left in
      let ll_right = g.links level right in
      let degree = u32 (max_degree g level) in
      let outside =
        left == right || leb g.cur_elements_count left || leb g.cur_elements_count right in
      elim (Bool-cases outside) [
        | inl out ↦ rw (out, connect_pair) u
        | inr in_ ↦ elim (Bool-cases (any_eq right ll_left || any_eq left ll_right)) [
          | inl linked ↦ rw (in_, linked, connect_pair) u
          | inr apart ↦
              elim (Bool-cases (leb degree (length ll_left) || leb degree (length ll_right))) [
                | inl full ↦ rw (in_, apart, full, connect_pair) u
                | inr room ↦
                    rw (in_, apart, room, connect_pair)
                      (set_links-IsUnlinked (set_links g level left (ll_left ++ right ∷ [])) right l
                        j (ll_right ++ left ∷ [])
                        (λ k. any_eq-snoc ll_right left h.0 (
                          subst (λ ids. any_eq internal_id ids ≡ false)
                            (set_links_elsewhere g level left level right _ (ground arith)) k))
                        (set_links-IsUnlinked g left l j (ll_left ++ right ∷ [])
                          (any_eq-snoc ll_left right h.1) u))
              ]
        ]
      ]

  pub connect_pairs-IsUnlinked :
      (g : Graph) (ps : List (ℕ × ℕ)) (l j : ℕ)
      → All (λ p. Other p.0 × Other p.1) ps
      → IsUnlinked g l j
      → IsUnlinked (connect_pairs level g ps) l j
  unfolding connect_pairs
  connect_pairs-IsUnlinked g [] l j h u = u
  connect_pairs-IsUnlinked g (p ∷ ps) l j h u =
      connect_pairs-IsUnlinked (connect_pair level g p) ps l j h.1
        (connect_pair-IsUnlinked g p l j h.0 u)

  pub connect_pairs_own :
      (g : Graph) (ps : List (ℕ × ℕ))
      → All (λ p. Other p.0 × Other p.1) ps
      → (connect_pairs level g ps).links level internal_id ≡ g.links level internal_id
  unfolding connect_pairs
  connect_pairs_own g [] h = refl
  connect_pairs_own g (p ∷ ps) h =
      connect_pairs_own (connect_pair level g p) ps h.1
      ∙ connect_pair_elsewhere level g p level internal_id (ground (arith, h.0))

  pub connect_pairs_elsewhere :
      (g : Graph) (ps : List (ℕ × ℕ)) (l j : ℕ)
      → (l == level) ≡ false
      → (connect_pairs level g ps).links l j ≡ g.links l j
  unfolding connect_pairs
  connect_pairs_elsewhere g [] l j away = refl
  connect_pairs_elsewhere g (p ∷ ps) l j away =
      connect_pairs_elsewhere (connect_pair level g p) ps l j away
      ∙ connect_pair_elsewhere level g p l j (rw away refl)

  -- `unlink_each`: nodes of the list lose their link, and no node gets one.
  pub unlink_each-IsUnlinked :
      (g : Graph) (js : List ℕ) (l j : ℕ)
      → (l == level && any_eq j js || not (any_eq internal_id (g.links l j))) ≡ true
      → IsUnlinked (unlink_each internal_id level g js) l j
  unfolding unlink_each set_links
  unlink_each-IsUnlinked g [] l j h = ground arith
  unlink_each-IsUnlinked g (k ∷ js) l j h =
      unlink_each-IsUnlinked (set_links g level k (keep_others internal_id (g.links level k))) js l
        j (ground (arith, h, any_eq-keep_others internal_id (g.links level k)))

  pub unlink_each_own :
      (g : Graph) (js : List ℕ)
      → All Other js
      → (unlink_each internal_id level g js).links level internal_id ≡ g.links level internal_id
  unfolding unlink_each
  unlink_each_own g [] h = refl
  unlink_each_own g (j ∷ js) h =
      let ids = keep_others internal_id (g.links level j) in
      unlink_each_own (set_links g level j ids) js h.1
      ∙ set_links_elsewhere g level j level internal_id ids (ground (arith, h.0))

  pub unlink_each_elsewhere :
      (g : Graph) (js : List ℕ) (l j : ℕ)
      → (l == level) ≡ false
      → (unlink_each internal_id level g js).links l j ≡ g.links l j
  unfolding unlink_each
  unlink_each_elsewhere g [] l j away = refl
  unlink_each_elsewhere g (k ∷ js) l j away =
      let ids = keep_others internal_id (g.links level k) in
      unlink_each_elsewhere (set_links g level k ids) js l j away
      ∙ set_links_elsewhere g level k l j ids (rw away refl)
