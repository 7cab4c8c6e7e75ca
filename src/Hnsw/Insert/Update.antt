-- ===== src/Hnsw/Insert/Update.antt =====
-- `addPoint<false>` of src/hnsw/hnswalg.h succeeds and keeps the graph in order.
use endee.Prelude.{
  ℕ, zero, suc, ◌<◌, ◌≡◌, refl, sym, ap, subst, ◌∙◌, ◌⊎◌, inl, inr, false, ◌||◌, Option, none, some,
  List, [], ◌∷◌, arith, ltb, leb, ◌==◌, if◌then◌else◌, ==_refl, Bool-cases, Option-cases, any_eq,
  length, get_elem?,
}
use endee.Hnsw.Visited.{VisitedList}
use endee.Hnsw.Graph.{Bytes, Graph}
use endee.Hnsw.Links.{max_degree, SameSizes, IsWellFormed}
use endee.Hnsw.Remove.Bounds.{remove_all_connections2-IsWellFormed}
use endee.Hnsw.Remove.Gone.{
  remove_all_connections2-SameNodes, remove_all_connections2-SameSizes, remove_all_connections2_lem,
}
use endee.Hnsw.Knn.{HierarchicalNsw}
use endee.Hnsw.Insert.{
  get_element_level, first_seed, find_seed, unmark_deleted, store_again, of_connected, update_point,
  inserted,
}
use endee.Hnsw.Insert.First.{count-unmark_deleted}
use endee.Hnsw.Insert.Intact.{SeedInside, connect_element_returns, IsIntact, IsConnected}
use endee.Hnsw.Insert.Answers.{HasLists}

first_seed-inside :
    (g : Graph) (search_id : ℕ) (is : List ℕ)
    → SeedInside g.cur_elements_count (first_seed g search_id is)
unfolding first_seed
first_seed-inside g search_id [] = tt
first_seed-inside g search_id (i ∷ is) =
    elim (Bool-cases (i == search_id || leb g.cur_elements_count i || g.is_marked_deleted i)) [
      | inl skipped ↦ rw (skipped, first_seed) (first_seed-inside g search_id is)
      | inr taken ↦ rw (taken, first_seed) (ground arith)
    ]

find_seed-inside :
    (g : Graph) (search_id level : ℕ)
    → SeedInside g.cur_elements_count (find_seed g search_id level)
unfolding find_seed
find_seed-inside g search_id zero = first_seed-inside g search_id (g.links 0 search_id)
find_seed-inside g search_id (suc level) =
    let ids = g.links (suc level) search_id in
    elim (Option-cases (first_seed g search_id ids)) [
      | inl missing ↦ rw (missing, find_seed) (find_seed-inside g search_id level)
      | inr (i, found) ↦
          rw (found, find_seed)
            (subst (SeedInside g.cur_elements_count) found (first_seed-inside g search_id ids))
    ]

-- What unmarking keeps.
record IsShown (h : HierarchicalNsw) (i : ℕ) (h' : HierarchicalNsw) : Type 0 where
  well_formed : IsWellFormed h'.graph
  sizes : SameSizes h.graph h'.graph
  entry : h'.entry_point ≡ h.entry_point
  labels : h'.label_lookup ≡ h.label_lookup
  unmarked : h'.graph.is_marked_deleted i ≡ false

unmark_deleted-IsShown :
    (h : HierarchicalNsw) (i : ℕ) → IsWellFormed h.graph → IsShown h i (unmark_deleted h i)
unfolding unmark_deleted max_degree
unmark_deleted-IsShown h i w = elim (Bool-cases (h.graph.is_marked_deleted i)) [
  | inl marked ↦
      rw (marked, unmark_deleted)
        (record {
          well_formed = w;
          sizes = (refl, refl);
          entry = refl;
          labels = refl;
          unmarked = ground (arith, ==_refl i);
        })
  | inr shown ↦
      rw (shown, unmark_deleted)
        (record {
          well_formed = w;
          sizes = (refl, refl);
          entry = refl;
          labels = refl;
          unmarked = shown;
        })
]

-- The node from which the climb starts when node `i` is written again.
abbrev pub update_seed_of : HierarchicalNsw → ℕ → Option ℕ
update_seed_of h i =
    let shown = unmark_deleted h i in
    if i == h.entry_point then find_seed shown.graph i (get_element_level shown i) else none

-- The index without the old links of node `i`, from which it is connected again.
abbrev pub bare_index : HierarchicalNsw → Bytes → ℕ → HierarchicalNsw
bare_index h datapoint i =
    let shown = unmark_deleted h i in store_again shown datapoint i (get_element_level shown i)

bare_index_links :
    (h : HierarchicalNsw) (datapoint : Bytes) (i : ℕ)
    → i < h.graph.cur_elements_count
    → (bare_index h datapoint i).graph.links 0 i ≡ []
unfolding store_again
bare_index_links h datapoint i inside =
    let shown = unmark_deleted h i in
    (remove_all_connections2_lem shown.graph i (get_element_level shown i) 0 i (omega arith)
      (rw (count-unmark_deleted h i) inside)
      (elim (Bool-cases (any_eq i (shown.graph.links 0 i))) [
        | inl own ↦ rw own refl
        | inr other ↦ rw other refl
      ])).0

-- What `update_point` makes of the graph of the model, where every node has a list at every level.
pub update_point_returns :
    (h : HierarchicalNsw) (visited : VisitedList) (datapoint : Bytes) (label i : ℕ)
    → IsIntact h
    → length visited.mass ≡ h.graph.max_elements
    → get_elem? h.label_lookup label ≡ some (some i)
    → i < h.graph.cur_elements_count
    → (h' : HierarchicalNsw) × (update_point h visited datapoint label ≡ inserted h')
      × IsIntact h'
      × SameSizes h.graph h'.graph
      × (h'.label_lookup ≡ h.label_lookup)
      × (h'.graph.is_marked_deleted i ≡ false)
      × (h'.graph.upper i ≡ (
          if ltb 0 (get_element_level (unmark_deleted h i) i)
          then some datapoint
          else (unmark_deleted h i).graph.upper i))
      × ((i ≡ 0)
          ⊎ IsConnected
              (bare_index h datapoint i)
              visited
              datapoint
              i
              (get_element_level (unmark_deleted h i) i)
              (update_seed_of h i)
              h'.graph)
unfolding update_point of_connected store_again max_degree
update_point_returns h visited datapoint label i intact size known inside =
    let shown = unmark_deleted h i in
    let k = unmark_deleted-IsShown h i intact.well_formed in
    let top = get_element_level shown i in
    let stored = store_again shown datapoint i top in
    let cut = remove_all_connections2-SameSizes shown.graph i top in
    let count : stored.graph.cur_elements_count ≡ h.graph.cur_elements_count = cut.0 ∙ k.sizes.0 in
    let room : stored.graph.max_elements ≡ h.graph.max_elements = cut.1 ∙ k.sizes.1 in
    let seed = update_seed_of h i in
    let seeded : SeedInside shown.graph.cur_elements_count seed =
      elim (Bool-cases (i == h.entry_point)) [
        | inl own ↦ rw own (find_seed-inside shown.graph i top)
        | inr other ↦ rw other tt
      ] in
    let (h', returns, intact', sizes, labels, nodes, connected) =
      connect_element_returns stored visited datapoint i top seed
        (remove_all_connections2-IsWellFormed shown.graph i top k.well_formed)
        (omega (arith, intact.entered, k.entry, count, inside)) (omega (arith, count, inside))
        (subst (λ n. SeedInside n seed) (sym cut.0) seeded) (size ∙ sym room)
        (ap length k.labels ∙ intact.labelled ∙ sym room) (bare_index_links h datapoint i inside) in
    let same = remove_all_connections2-SameNodes shown.graph i top in
    (
      h',
      rw (known, update_point, returns) refl,
      intact',
      (sizes.0 ∙ count, sizes.1 ∙ room),
      labels ∙ k.labels,
      ap (λ (g : Graph). g.is_marked_deleted i) nodes
          ∙ ap (λ (g : Graph). g.is_marked_deleted i) same
          ∙ k.unmarked,
      ap (λ (g : Graph). g.upper i) nodes
          ∙ ground (arith, ==_refl i, ap (λ (g : Graph). g.upper i) same),
      connected,
    )

-- Writing an element again, under a label that labelLookup_ has and that leads to a node, succeeds in an
-- index in order where no list is read that a node lacks. Afterwards the sizes and the labels are the same, and the mark of deletion is gone
-- from the node; where the node has upper levels, it carries the new vector. The link lists fit and
-- hold nodes only, and the entry point is a node. Unless the node is node 0, its links at level 0 are
-- those that are selected from what the search of level 0 for the new vector finds, from where the
-- levels above lead to in the graph from which the node's links were removed.
pub update_point_lem :
    (h : HierarchicalNsw) (visited : VisitedList) (datapoint : Bytes) (label i : ℕ)
    → IsIntact h
    → length visited.mass ≡ h.graph.max_elements
    → get_elem? h.label_lookup label ≡ some (some i)
    → i < h.graph.cur_elements_count
    → HasLists h (get_element_level h i)
    → (h' : HierarchicalNsw) × (update_point h visited datapoint label ≡ inserted h')
      × IsIntact h'
      × SameSizes h.graph h'.graph
      × (h'.label_lookup ≡ h.label_lookup)
      × (h'.graph.is_marked_deleted i ≡ false)
      × (h'.graph.upper i ≡ (
          if ltb 0 (get_element_level (unmark_deleted h i) i)
          then some datapoint
          else (unmark_deleted h i).graph.upper i))
      × ((i ≡ 0)
          ⊎ IsConnected
              (bare_index h datapoint i)
              visited
              datapoint
              i
              (get_element_level (unmark_deleted h i) i)
              (update_seed_of h i)
              h'.graph)
update_point_lem h visited datapoint label i intact size known inside lists =
    update_point_returns h visited datapoint label i intact size known inside
