-- ===== src/Hnsw/Remove/Bounds.antt =====
-- The link lists stay within their rooms under `removeAllConnections2` of src/hnsw/hnswalg.h.
use endee.Prelude.{
  ℕ, zero, suc, ◌≤◌, ◌<◌, ◌≡◌, inl, inr, false, ◌||◌, List, [], ◌∷◌, ◌++◌, arith, leb, ◌==◌,
  Bool-cases, any_eq, length, All, length-append, All-append, u32,
}
use endee.Hnsw.Graph.{Graph}
use endee.Hnsw.Links.{max_degree, set_links, IsFitting, IsWellFormed, set_links-IsWellFormed}
use endee.Hnsw.Remove.{
  keep_others, level_neighbors, sort_ids, unique, connect_pair, end_pairs, connect_pairs,
  unlink_each, remove_at, remove_all_connections2,
}
use endee.Hnsw.Remove.Lists.{All-keep_others, length-keep_others}

u32_le : (n k : ℕ) → leb (u32 n) k ≡ false → suc k ≤ n
u32_le n k h = ground arith

connect_pair-IsWellFormed :
    (level : ℕ) (g : Graph) (p : ℕ × ℕ) → IsWellFormed g → IsWellFormed (connect_pair level g p)
unfolding connect_pair set_links
connect_pair-IsWellFormed level g (left, right) w =
    let ll_left = g.links level left in
    let ll_right = g.links level right in
    let degree = u32 (max_degree g level) in
    let outside =
      left == right || leb g.cur_elements_count left || leb g.cur_elements_count right in
    elim (Bool-cases outside) [
      | inl out ↦ rw (out, connect_pair) w
      | inr in_ ↦ elim (Bool-cases (any_eq right ll_left || any_eq left ll_right)) [
        | inl linked ↦ rw (in_, linked, connect_pair) w
        | inr apart ↦
            elim (Bool-cases (leb degree (length ll_left) || leb degree (length ll_right))) [
              | inl full ↦ rw (in_, apart, full, connect_pair) w
              | inr room ↦
                  let g' = set_links g level left (ll_left ++ right ∷ []) in
                  rw (in_, apart, room, connect_pair)
                    (set_links-IsWellFormed g' level right (ll_right ++ left ∷ [])
                      (more left ll_right (ground arith) (ground arith) (w level right).1)
                      (set_links-IsWellFormed g level left (ll_left ++ right ∷ [])
                        (more right ll_left (ground arith) (ground arith) (w level left).1) w))
            ]
      ]
    ]
  where
    more :
        (j : ℕ) (ids : List ℕ)
        → leb g.cur_elements_count j ≡ false
        → leb (u32 (max_degree g level)) (length ids) ≡ false
        → All (λ k. k < g.cur_elements_count) ids
        → IsFitting g level (ids ++ j ∷ [])
    more j ids inside room h = (
      omega (arith, length-append ids (j ∷ []), u32_le (max_degree g level) (length ids) room),
      All-append (λ k. k < g.cur_elements_count) ids (j ∷ []) h (ground arith, tt),
    )

connect_pairs-IsWellFormed :
    (level : ℕ) (g : Graph) (ps : List (ℕ × ℕ))
    → IsWellFormed g
    → IsWellFormed (connect_pairs level g ps)
unfolding connect_pairs
connect_pairs-IsWellFormed level g [] w = w
connect_pairs-IsWellFormed level g (p ∷ ps) w =
    connect_pairs-IsWellFormed level (connect_pair level g p) ps
      (connect_pair-IsWellFormed level g p w)

unlink_each-IsWellFormed :
    (internal_id level : ℕ) (g : Graph) (js : List ℕ)
    → IsWellFormed g
    → IsWellFormed (unlink_each internal_id level g js)
unfolding unlink_each
unlink_each-IsWellFormed internal_id level g [] w = w
unlink_each-IsWellFormed internal_id level g (j ∷ js) w =
    let ids = g.links level j in
    let (few, inside) = w level j in
    unlink_each-IsWellFormed internal_id level (set_links g level j (keep_others internal_id ids))
      js
      (set_links-IsWellFormed g level j (keep_others internal_id ids)
        (
          omega (arith, length-keep_others internal_id ids, few),
          All-keep_others (λ k. k < g.cur_elements_count) internal_id ids inside,
        )
        w)

remove_at-IsWellFormed :
    (internal_id : ℕ) (g : Graph) (level : ℕ)
    → IsWellFormed g
    → IsWellFormed (remove_at internal_id g level)
unfolding remove_at
remove_at-IsWellFormed internal_id g level w =
    let ns = unique (sort_ids (level_neighbors g internal_id (g.links level internal_id))) in
    connect_pairs-IsWellFormed level _ (end_pairs ns) (
      unlink_each-IsWellFormed internal_id level (set_links g level internal_id []) ns
        (set_links-IsWellFormed g level internal_id [] (omega arith, tt) w))

-- Disconnecting a node and linking its neighbours in pairs keeps every link list within its room,
-- with entries below the element count.
pub remove_all_connections2-IsWellFormed :
    (g : Graph) (internal_id elem_level : ℕ)
    → IsWellFormed g
    → IsWellFormed (remove_all_connections2 g internal_id elem_level)
unfolding remove_all_connections2
remove_all_connections2-IsWellFormed g internal_id zero w = remove_at-IsWellFormed internal_id g 0 w
remove_all_connections2-IsWellFormed g internal_id (suc level) w =
    remove_at-IsWellFormed internal_id (remove_all_connections2 g internal_id level) (suc level)
      (remove_all_connections2-IsWellFormed g internal_id level w)
