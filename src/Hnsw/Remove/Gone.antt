-- ===== src/Hnsw/Remove/Gone.antt =====
-- A node that `removeAllConnections2` of src/hnsw/hnswalg.h has disconnected.
use endee.Prelude.{
  ℕ, zero, suc, ◌≤◌, ◌<◌, ◌≡◌, refl, sym, ap, subst, ◌∙◌, inl, inr, true, false, not, ◌&&◌, ◌||◌,
  List, [], ◌∷◌, arith, leb, ◌==◌, ==_iff, ==_refl, Bool-cases, any_eq, length, All, u32,
}
use endee.Hnsw.Graph.{Graph}
use endee.Hnsw.Links.{
  max_degree, set_links, SameSizes, SameNodes, SameNodes-trans, set_links_at, set_links_elsewhere,
}
use endee.Hnsw.Remove.{
  keep_others, level_neighbors, sort_ids, unique, connect_pair, end_pairs, connect_pairs,
  unlink_each, remove_at, remove_all_connections2,
}
use endee.Hnsw.Remove.Lists.{
  All-unique-sort_ids, All-end_pairs, any_eq-sort_ids, any_eq-unique, any_eq-level_neighbors,
}
use endee.Hnsw.Remove.Cut.{
  IsUnlinked, All-level_neighbors, connect_pairs-IsUnlinked, connect_pairs_own,
  connect_pairs_elsewhere, unlink_each-IsUnlinked, unlink_each_own, unlink_each_elsewhere,
}

module _ (internal_id : ℕ) (g : Graph) (level : ℕ) where
  -- The neighbours of the node, and what becomes of the graph when they are unlinked.
  abbrev near : List ℕ
  near = unique (sort_ids (level_neighbors g internal_id (g.links level internal_id)))

  abbrev emptied : Graph
  emptied = set_links g level internal_id []

  abbrev unlinked : Graph
  unlinked = unlink_each internal_id level emptied near

  others : All (λ k. (k == internal_id) ≡ false) near
  others =
      All-unique-sort_ids _ _ (All-level_neighbors internal_id level g (g.links level internal_id))

  pairs_others :
      All
        (λ (p : ℕ × ℕ). ((p.0 == internal_id) ≡ false) × ((p.1 == internal_id) ≡ false))
        (end_pairs near)
  pairs_others = All-end_pairs (λ k. (k == internal_id) ≡ false) near others

  remove_at_own : (remove_at internal_id g level).links level internal_id ≡ []
  unfolding remove_at
  remove_at_own =
      connect_pairs_own internal_id level unlinked (end_pairs near) pairs_others
      ∙ unlink_each_own internal_id level emptied near others
      ∙ set_links_at g level internal_id []

  remove_at_elsewhere :
      (l j : ℕ) → (l == level) ≡ false → (remove_at internal_id g level).links l j ≡ g.links l j
  unfolding remove_at
  remove_at_elsewhere l j away =
      connect_pairs_elsewhere internal_id level unlinked (end_pairs near) l j away
      ∙ unlink_each_elsewhere internal_id level emptied near l j away
      ∙ set_links_elsewhere g level internal_id l j [] (rw away refl)

  any_eq-near :
      (j : ℕ)
      → any_eq j near ≡ (
          any_eq j (g.links level internal_id)
          && not (leb g.cur_elements_count j || j == internal_id))
  any_eq-near j =
      any_eq-unique j (sort_ids (level_neighbors g internal_id (g.links level internal_id)))
      ∙ any_eq-sort_ids j (level_neighbors g internal_id (g.links level internal_id))
      ∙ any_eq-level_neighbors g internal_id j (g.links level internal_id)

  remove_at-IsUnlinked :
      (j : ℕ)
      → j < g.cur_elements_count
      → (any_eq j (g.links level internal_id) || not (any_eq internal_id (g.links level j))) ≡ true
      → IsUnlinked internal_id level (remove_at internal_id g level) level j
  unfolding remove_at
  remove_at-IsUnlinked j inside h = elim (Bool-cases (j == internal_id)) [
    | inl own ↦
        let same : j ≡ internal_id = (==_iff j internal_id).0 own in rw (same, remove_at_own) refl
    | inr other ↦
        connect_pairs-IsUnlinked internal_id level unlinked (end_pairs near) level j pairs_others (
          unlink_each-IsUnlinked internal_id level emptied near level j (
            rw (set_links_elsewhere g level internal_id level j [] (ground (arith, other)))
              (ground (arith, any_eq-near j, ==_refl level, h, other))))
  ]

connect_pair-SameNodes : (level : ℕ) (g : Graph) (p : ℕ × ℕ) → SameNodes g (connect_pair level g p)
unfolding connect_pair set_links
connect_pair-SameNodes level g (left, right) =
    let ll_left = g.links level left in
    let ll_right = g.links level right in
    let n = g.cur_elements_count in
    let degree = u32 (max_degree g level) in
    elim (Bool-cases (left == right || leb n left || leb n right)) [
      | inl skipped ↦ rw (skipped, connect_pair) refl
      | inr pair ↦ elim (Bool-cases (any_eq right ll_left || any_eq left ll_right)) [
        | inl linked ↦ rw (pair, connect_pair, linked) refl
        | inr apart ↦
            elim (Bool-cases (leb degree (length ll_left) || leb degree (length ll_right))) [
              | inl full ↦ rw (pair, connect_pair, apart, full) refl
              | inr free ↦ rw (pair, connect_pair, apart, free) refl
            ]
      ]
    ]

connect_pairs-SameNodes :
    (level : ℕ) (g : Graph) (ps : List (ℕ × ℕ)) → SameNodes g (connect_pairs level g ps)
unfolding connect_pairs
connect_pairs-SameNodes level g [] = refl
connect_pairs-SameNodes level g (p ∷ ps) =
    SameNodes-trans g (connect_pair level g p) _ (connect_pair-SameNodes level g p)
      (connect_pairs-SameNodes level (connect_pair level g p) ps)

unlink_each-SameNodes :
    (internal_id level : ℕ) (g : Graph) (js : List ℕ)
    → SameNodes g (unlink_each internal_id level g js)
unfolding unlink_each set_links
unlink_each-SameNodes internal_id level g [] = refl
unlink_each-SameNodes internal_id level g (j ∷ js) =
    let cut = set_links g level j (keep_others internal_id (g.links level j)) in
    SameNodes-trans g cut _ refl (unlink_each-SameNodes internal_id level cut js)

remove_at-SameNodes :
    (internal_id : ℕ) (g : Graph) (level : ℕ) → SameNodes g (remove_at internal_id g level)
unfolding remove_at set_links
remove_at-SameNodes internal_id g level =
    let ns = near internal_id g level in
    SameNodes-trans g (unlinked internal_id g level) _
      (SameNodes-trans g (emptied internal_id g level) _ refl
        (unlink_each-SameNodes internal_id level (emptied internal_id g level) ns))
      (connect_pairs-SameNodes level (unlinked internal_id g level) (end_pairs ns))

pub remove_all_connections2-SameNodes :
    (g : Graph) (internal_id elem_level : ℕ)
    → SameNodes g (remove_all_connections2 g internal_id elem_level)
unfolding remove_all_connections2
remove_all_connections2-SameNodes g internal_id zero = remove_at-SameNodes internal_id g 0
remove_all_connections2-SameNodes g internal_id (suc level) =
    SameNodes-trans g (remove_all_connections2 g internal_id level) _
      (remove_all_connections2-SameNodes g internal_id level)
      (remove_at-SameNodes internal_id (remove_all_connections2 g internal_id level) (suc level))

pub remove_all_connections2-SameSizes :
    (g : Graph) (internal_id elem_level : ℕ)
    → SameSizes g (remove_all_connections2 g internal_id elem_level)
remove_all_connections2-SameSizes g internal_id elem_level =
    let same = remove_all_connections2-SameNodes g internal_id elem_level in
    (ap (λ (x : Graph). x.cur_elements_count) same, ap (λ (x : Graph). x.max_elements) same)

-- Levels above those that are disconnected stay as they are.
remove_above :
    (g : Graph) (internal_id elem_level l j : ℕ)
    → elem_level < l
    → (remove_all_connections2 g internal_id elem_level).links l j ≡ g.links l j
unfolding remove_all_connections2
remove_above g internal_id zero l j h = remove_at_elsewhere internal_id g 0 l j (ground arith)
remove_above g internal_id (suc level) l j h =
    remove_at_elsewhere internal_id (remove_all_connections2 g internal_id level) (suc level) l j
      (ground arith)
    ∙ remove_above g internal_id level l j (omega arith)

-- At every level up to that of the node, after it was disconnected its own list is empty, and a node
-- that was its neighbour or had no link to it has no link to it.
pub remove_all_connections2_lem :
    (g : Graph) (internal_id elem_level l j : ℕ)
    → l ≤ elem_level
    → j < g.cur_elements_count
    → (any_eq j (g.links l internal_id) || not (any_eq internal_id (g.links l j))) ≡ true
    → ((remove_all_connections2 g internal_id elem_level).links l internal_id ≡ [])
      × (any_eq internal_id ((remove_all_connections2 g internal_id elem_level).links l j) ≡ false)
unfolding remove_all_connections2
remove_all_connections2_lem g internal_id zero l j low inside h =
    let bottom : l ≡ 0 = omega arith in
    rw bottom (
      remove_at_own internal_id g 0,
      remove_at-IsUnlinked internal_id g 0 j inside (
          subst
            (λ k.
              (any_eq j (g.links k internal_id) || not (any_eq internal_id (g.links k j))) ≡ true)
            bottom h),
    )
remove_all_connections2_lem g internal_id (suc level) l j low inside h =
    let g' = remove_all_connections2 g internal_id level in
    elim (Bool-cases (l == suc level)) [
      | inl top ↦
          let same : l ≡ suc level = (==_iff l (suc level)).0 top in
          let kept = λ (k : ℕ). remove_above g internal_id level l k (omega arith) in
          let linked : (any_eq j (g'.links l internal_id)
                || not (any_eq internal_id (g'.links l j)))
              ≡ true =
            rw (kept internal_id, kept j) h in
          let inside' : j < g'.cur_elements_count =
            rw (remove_all_connections2-SameSizes g internal_id level).0 inside in
          subst
            (λ k.
              ((remove_at internal_id g' (suc level)).links k internal_id ≡ [])
              × (any_eq internal_id ((remove_at internal_id g' (suc level)).links k j) ≡ false))
            (sym same)
            (
              remove_at_own internal_id g' (suc level),
              remove_at-IsUnlinked internal_id g' (suc level) j inside' (
                  subst
                    (λ k.
                      (any_eq j (g'.links k internal_id) || not (any_eq internal_id (g'.links k j)))
                      ≡ true)
                    same linked),
            )
      | inr below ↦
          let (own, gone) =
            remove_all_connections2_lem g internal_id level l j (ground arith) inside h in
          let kept = λ (k : ℕ). remove_at_elsewhere internal_id g' (suc level) l k below in
          (kept internal_id ∙ own, ap (any_eq internal_id) (kept j) ∙ gone)
    ]
