-- ===== src/Hnsw/Insert/Answers.antt =====
-- `addPoint` of src/hnsw/hnswalg.h succeeds and keeps the graph in order.
use endee.Prelude.{
  ℕ, ◌+◌, ◌≤◌, ◌<◌, min, ◌≡◌, refl, ap, ◌∙◌, ◌⊎◌, inl, inr, false, ◌&&◌, none, some, arith, ltb,
  leb, ◌==◌, if◌then◌else◌, ==_refl, Bool-cases, length, set, All, length-set, All-map,
}
use endee.Hnsw.Visited.{VisitedList}
use endee.Hnsw.Graph.{Bytes, Graph}
use endee.Hnsw.Links.{max_degree, IsWellFormed}
use endee.Hnsw.Knn.{HierarchicalNsw}
use endee.Hnsw.Insert.{get_element_level, store_new, of_connected, add_point_new, inserted}
use endee.Hnsw.Insert.Intact.{connect_element_returns, IsIntact, IsConnected}

store_new-IsWellFormed :
    (h : HierarchicalNsw) (datapoint : Bytes) (label cur_level : ℕ)
    → IsWellFormed h.graph
    → IsWellFormed (store_new h datapoint label cur_level).graph
unfolding store_new max_degree
store_new-IsWellFormed h datapoint label cur_level w l i =
    elim (Bool-cases (i == h.graph.cur_elements_count && leb l cur_level)) [
      | inl new ↦ rw new (omega arith, tt)
      | inr old ↦ rw old (
        (w l i).0,
        All-map (λ j. j < h.graph.cur_elements_count) (λ j. j < h.graph.cur_elements_count + 1)
            (λ j inside. omega (arith, inside)) (h.graph.links l i) (w l i).1,
      )
    ]

-- What `add_point_new` makes of the graph of the model, where every node has a list at every level.
pub add_point_new_returns :
    (h : HierarchicalNsw) (visited : VisitedList) (datapoint : Bytes) (label cur_level : ℕ)
    → IsIntact h
    → length visited.mass ≡ h.graph.max_elements
    → h.graph.cur_elements_count < h.graph.max_elements
    → label < h.graph.max_elements
    → (h' : HierarchicalNsw) × (add_point_new h visited datapoint label cur_level ≡ inserted h')
      × IsIntact h'
      × (h'.graph.cur_elements_count ≡ h.graph.cur_elements_count + 1)
      × (h'.graph.max_elements ≡ h.graph.max_elements)
      × (h'.label_lookup ≡ set h.label_lookup label (some h.graph.cur_elements_count))
      × (h'.graph.external_label h.graph.cur_elements_count ≡ label)
      × (h'.graph.upper h.graph.cur_elements_count
          ≡ (if ltb 0 cur_level then some datapoint else h.graph.upper h.graph.cur_elements_count))
      × ((h.graph.cur_elements_count ≡ 0)
          ⊎ IsConnected
              (store_new h datapoint label cur_level)
              visited
              datapoint
              h.graph.cur_elements_count
              cur_level
              none
              h'.graph)
unfolding add_point_new of_connected store_new
add_point_new_returns h visited datapoint label cur_level intact size room known =
    let n = h.graph.cur_elements_count in
    let stored = store_new h datapoint label cur_level in
    let (h', returns, intact', sizes, labels, nodes, connected) =
      connect_element_returns stored visited datapoint n cur_level none
        (store_new-IsWellFormed h datapoint label cur_level intact.well_formed)
        (omega (arith, intact.entered)) (omega arith) tt size
        (length-set h.label_lookup label (some n) ∙ intact.labelled) (ground (arith, ==_refl n)) in
    let fits : leb h.graph.max_elements n ≡ false = ground (arith, room) in
    let listed : leb (length h.label_lookup) label ≡ false =
      ground (arith, known, intact.labelled) in
    (
      h',
      rw (fits, add_point_new, listed, returns) refl,
      intact',
      sizes.0,
      sizes.1,
      labels,
      ap (λ (g : Graph). g.external_label n) nodes ∙ ground (arith, ==_refl n),
      ap (λ (g : Graph). g.upper n) nodes ∙ ground (arith, ==_refl n),
      connected,
    )

-- `addPoint` at a level reads no list that a node lacks: a link of a level leads to a node that has the
-- level, and so has node 0 all those to be joined, where the joining goes on if nothing is selected.
pub record HasLists (h : HierarchicalNsw) (cur_level : ℕ) : Type 0 where
  pub linked : (l i : ℕ) → All (λ j. l ≤ get_element_level h j) (h.graph.links l i)
  pub first : min cur_level h.max_level ≤ get_element_level h 0

-- Adding an element to an index in order that has room, with a label that labelLookup_ has and where
-- no list is read that a node lacks, succeeds.
-- Afterwards the element count is one more, the label leads to the new node, and every other label
-- where it did; the node carries the label, and the vector too where it has upper levels; the link
-- lists fit and hold nodes only, and the entry point is a node. Unless the node is the first one, its
-- links at level 0 are those that are selected from what the search of level 0 for the vector finds,
-- from where the levels above lead to, and before which no other link of level 0 is changed.
pub add_point_new_lem :
    (h : HierarchicalNsw) (visited : VisitedList) (datapoint : Bytes) (label cur_level : ℕ)
    → IsIntact h
    → length visited.mass ≡ h.graph.max_elements
    → h.graph.cur_elements_count < h.graph.max_elements
    → label < h.graph.max_elements
    → HasLists h cur_level
    → (h' : HierarchicalNsw) × (add_point_new h visited datapoint label cur_level ≡ inserted h')
      × IsIntact h'
      × (h'.graph.cur_elements_count ≡ h.graph.cur_elements_count + 1)
      × (h'.graph.max_elements ≡ h.graph.max_elements)
      × (h'.label_lookup ≡ set h.label_lookup label (some h.graph.cur_elements_count))
      × (h'.graph.external_label h.graph.cur_elements_count ≡ label)
      × (h'.graph.upper h.graph.cur_elements_count
          ≡ (if ltb 0 cur_level then some datapoint else h.graph.upper h.graph.cur_elements_count))
      × ((h.graph.cur_elements_count ≡ 0)
          ⊎ IsConnected
              (store_new h datapoint label cur_level)
              visited
              datapoint
              h.graph.cur_elements_count
              cur_level
              none
              h'.graph)
add_point_new_lem h visited datapoint label cur_level intact size room known lists =
    add_point_new_returns h visited datapoint label cur_level intact size room known
