-- ===== src/Hnsw/Insert/First.antt =====
-- What `addPoint` of src/hnsw/hnswalg.h does to node 0 when its element is written again.
use endee.Prelude.{
  ℕ, ◌≤◌, ◌<◌, ◌≡◌, refl, inl, inr, true, false, some, [], arith, Bool-cases, any_eq, get_elem?,
}
use endee.Hnsw.Visited.{VisitedList}
use endee.Hnsw.Graph.{Bytes}
use endee.Hnsw.Remove.Gone.{remove_all_connections2_lem}
use endee.Hnsw.Knn.{HierarchicalNsw}
use endee.Hnsw.Insert.{
  get_element_level, connect_element, unmark_deleted, store_again, of_connected, update_point,
  inserted,
}

pub get_element_level-unmark_deleted :
    (h : HierarchicalNsw) (i j : ℕ)
    → get_element_level (unmark_deleted h i) j ≡ get_element_level h j
unfolding get_element_level unmark_deleted
get_element_level-unmark_deleted h i j = elim (Bool-cases (h.graph.is_marked_deleted i)) [
  | inl marked ↦ rw (marked, unmark_deleted) refl
  | inr shown ↦ rw (shown, unmark_deleted) refl
]

pub count-unmark_deleted :
    (h : HierarchicalNsw) (i : ℕ)
    → (unmark_deleted h i).graph.cur_elements_count ≡ h.graph.cur_elements_count
unfolding unmark_deleted
count-unmark_deleted h i = elim (Bool-cases (h.graph.is_marked_deleted i)) [
  | inl marked ↦ rw (marked, unmark_deleted) refl
  | inr shown ↦ rw (shown, unmark_deleted) refl
]

pub links-unmark_deleted :
    (h : HierarchicalNsw) (i : ℕ) → (unmark_deleted h i).graph.links ≡ h.graph.links
unfolding unmark_deleted
links-unmark_deleted h i = elim (Bool-cases (h.graph.is_marked_deleted i)) [
  | inl marked ↦ rw (marked, unmark_deleted) refl
  | inr shown ↦ rw (shown, unmark_deleted) refl
]

-- Writing the element of node 0 again succeeds and leaves the node without links at each of its levels,
-- and no neighbour that it had with a link to it.
pub update_point_first :
    (h : HierarchicalNsw) (visited : VisitedList) (datapoint : Bytes) (label level j : ℕ)
    → get_elem? h.label_lookup label ≡ some (some 0)
    → level ≤ get_element_level h 0
    → j < h.graph.cur_elements_count
    → any_eq j (h.graph.links level 0) ≡ true
    → (h' : HierarchicalNsw) × (update_point h visited datapoint label ≡ inserted h')
      × (h'.graph.links level 0 ≡ [])
      × (any_eq 0 (h'.graph.links level j) ≡ false)
unfolding update_point connect_element of_connected store_again
update_point_first h visited datapoint label level j known low inside near =
    let shown = unmark_deleted h 0 in
    let top = get_element_level shown 0 in
    let (own, gone) =
      remove_all_connections2_lem shown.graph 0 top level j
        (rw (get_element_level-unmark_deleted h 0 0) low) (rw (count-unmark_deleted h 0) inside)
        (rw (links-unmark_deleted h 0) (ground (arith, near))) in
    (store_again shown datapoint 0 top, rw (known, update_point) refl, own, gone)
