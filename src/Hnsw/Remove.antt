-- ===== src/Hnsw/Remove.antt =====
-- `removeAllConnections2` of src/hnsw/hnswalg.h: a node is taken out of the lists of its neighbours,
-- which are then linked to each other in pairs. std::sort is insertion.
pub mod Lists
pub mod Bounds
pub mod Cut
pub mod Gone
mod Tests
use mathlib.Core.List.{reverse}
use endee.Prelude.{
  ℕ, zero, suc, ◌+◌, ◌-◌, ◌/◌, max, ap, not, ◌||◌, List, [], ◌∷◌, ◌++◌, ltb, leb, ◌==◌,
  if◌then◌else◌, any_eq, length, set, take, All, u32,
}
use endee.Hnsw.Graph.{Graph}
use endee.Hnsw.Links.{max_degree, set_links}

-- The loop that keeps what is not the target.
unfoldable pub keep_others : ℕ → List ℕ → List ℕ
keep_others internal_id [] = []
keep_others internal_id (j ∷ js) =
    let rest = keep_others internal_id js in if j == internal_id then rest else j ∷ rest

-- `level_neighbors` before it is sorted.
unfoldable pub level_neighbors : Graph → ℕ → List ℕ → List ℕ
level_neighbors g internal_id [] = []
level_neighbors g internal_id (j ∷ js) =
    let rest = level_neighbors g internal_id js in
    if leb g.cur_elements_count j || j == internal_id then rest else j ∷ rest

unfoldable pub insert_id : ℕ → List ℕ → List ℕ
insert_id i [] = i ∷ []
insert_id i (j ∷ js) = if ltb j i then j ∷ insert_id i js else i ∷ (j ∷ js)

unfoldable pub sort_ids : List ℕ → List ℕ
unfolding insert_id
sort_ids [] = []
sort_ids (i ∷ is) = insert_id i (sort_ids is)

-- std::unique with the erase behind it, after an element that was kept.
unfoldable pub unique_after : ℕ → List ℕ → List ℕ
unique_after i [] = []
unique_after i (j ∷ js) = let rest = unique_after j js in if i == j then rest else j ∷ rest

unfoldable pub unique : List ℕ → List ℕ
unfolding unique_after
unique [] = []
unique (i ∷ is) = i ∷ unique_after i is

-- `connectPair`. The comparison converts the degree to 32 bits.
unfoldable pub connect_pair : ℕ → Graph → ℕ × ℕ → Graph
unfolding max_degree set_links
connect_pair level g (left, right) =
    let ll_left = g.links level left in
    let ll_right = g.links level right in
    let degree = u32 (max_degree g level) in
    if left == right || leb g.cur_elements_count left || leb g.cur_elements_count right
    then g
    else if any_eq right ll_left || any_eq left ll_right
    then g
    else if leb degree (length ll_left) || leb degree (length ll_right)
    then g
    else set_links (set_links g level left (ll_left ++ right ∷ [])) level right
        (ll_right ++ left ∷ [])

abbrev pub zip : List ℕ → List ℕ → List (ℕ × ℕ)
zip [] ys = []
zip (x ∷ xs) [] = []
zip (x ∷ xs) (y ∷ ys) = (x, y) ∷ zip xs ys

-- The pairs that `left` and `right` go through: the first with the last, and so on to the middle.
unfoldable pub end_pairs : List ℕ → List (ℕ × ℕ)
end_pairs ns = take (length ns / 2) (zip ns (reverse ns))

unfoldable pub connect_pairs : ℕ → Graph → List (ℕ × ℕ) → Graph
unfolding connect_pair
connect_pairs level g [] = g
connect_pairs level g (p ∷ ps) = connect_pairs level (connect_pair level g p) ps

unfoldable pub unlink_each : ℕ → ℕ → Graph → List ℕ → Graph
unfolding keep_others set_links
unlink_each internal_id level g [] = g
unlink_each internal_id level g (j ∷ js) =
    unlink_each internal_id level (set_links g level j (keep_others internal_id (g.links level j)))
      js

-- One level.
unfoldable pub remove_at : ℕ → Graph → ℕ → Graph
unfolding level_neighbors sort_ids unique unlink_each end_pairs connect_pairs
remove_at internal_id g level =
    let ns = unique (sort_ids (level_neighbors g internal_id (g.links level internal_id))) in
    connect_pairs level (unlink_each internal_id level (set_links g level internal_id []) ns)
      (end_pairs ns)

-- The levels up to `elem_level`.
unfoldable pub remove_all_connections2 : Graph → ℕ → ℕ → Graph
unfolding remove_at
remove_all_connections2 g internal_id zero = remove_at internal_id g 0
remove_all_connections2 g internal_id (suc level) =
    remove_at internal_id (remove_all_connections2 g internal_id level) (suc level)
