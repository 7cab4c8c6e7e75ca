-- ===== src/Hnsw/Insert/Intact.antt =====
-- The order of an index of src/hnsw/hnswalg.h, which the end of `addPoint` keeps.
use endee.Prelude.{
  ℕ, ◌<◌, min, max, ◌≡◌, refl, sym, subst, ◌∙◌, ◌⊎◌, inl, inr, Option, none, some, [], arith, ltb,
  ◌==◌, ==_iff, Bool-cases, length,
}
use endee.Hnsw.Visited.{VisitedList}
use endee.Hnsw.Graph.{Bytes, Graph}
use endee.Hnsw.Links.{SameSizes, SameNodes, IsWellFormed}
use endee.Hnsw.Knn.{HierarchicalNsw}
use endee.Hnsw.Insert.{get_element_level, climb_down, start_from, settle, connect_element}
use endee.Hnsw.Insert.Climb.{climb_down_returns}
use endee.Hnsw.Insert.Linked.{connect_down_returns, IsLinked}

-- The link lists fit, the entry point is a node, or 0 in an empty graph, and labelLookup_ has an entry
-- for every place.
pub record IsIntact (h : HierarchicalNsw) : Type 0 where
  pub well_formed : IsWellFormed h.graph
  pub entered : h.entry_point < max 1 h.graph.cur_elements_count
  pub labelled : length h.label_lookup ≡ h.graph.max_elements

abbrev pub SeedInside : ℕ → Option ℕ → Type 0
SeedInside n none = Unit {0}
SeedInside n (some i) = i < n

start_from-inside :
    (h : HierarchicalNsw) (n : ℕ) (seed : Option ℕ)
    → h.entry_point < n
    → SeedInside n seed
    → start_from h seed < n
start_from-inside h n none entry s = entry
start_from-inside h n (some i) entry s = s

settle_lem :
    (h : HierarchicalNsw) (cur_c cur_level : ℕ) (g : Graph)
    → IsWellFormed g
    → h.entry_point < g.cur_elements_count
    → cur_c < g.cur_elements_count
    → g.cur_elements_count ≡ h.graph.cur_elements_count
    → g.max_elements ≡ h.graph.max_elements
    → length h.label_lookup ≡ h.graph.max_elements
    → IsIntact (settle h cur_c cur_level g)
      × SameSizes h.graph (settle h cur_c cur_level g).graph
      × ((settle h cur_c cur_level g).label_lookup ≡ h.label_lookup)
      × ((settle h cur_c cur_level g).graph ≡ g)
unfolding settle
settle_lem h cur_c cur_level g w entry new count room labelled =
    elim (Bool-cases (ltb h.max_level cur_level)) [
      | inl higher ↦
          rw (higher, settle)
            (
              record {
                well_formed = w;
                entered = omega (arith, new);
                labelled = labelled ∙ sym room;
              },
              (count, room),
              refl,
              refl,
            )
      | inr same ↦
          rw (same, settle)
            (
              record {
                well_formed = w;
                entered = omega (arith, entry);
                labelled = labelled ∙ sym room;
              },
              (count, room),
              refl,
              refl,
            )
    ]

-- How an element other than node 0 is connected: the climb ends at a node, and from there the levels
-- are joined down to 0.
pub record IsConnected (h : HierarchicalNsw) (visited : VisitedList) (datapoint : Bytes)
    (cur_c cur_level : ℕ) (update_seed : Option ℕ) (g' : Graph) : Type 0 where
  pub closest : ℕ
  pub climbed :
      climb_down h.graph datapoint cur_level
        (min h.max_level (get_element_level h (start_from h update_seed)))
        (start_from h update_seed)
      ≡ some closest
  pub joined :
      IsLinked h.ef_construction
        (ltb 0 h.deleted_elements_count)
        datapoint
        cur_c
        (min cur_level (min h.max_level (get_element_level h (start_from h update_seed))))
        (record { graph = h.graph; curr_obj = closest; visited = visited })
        g'

pub connect_element_returns :
    (h : HierarchicalNsw) (visited : VisitedList) (datapoint : Bytes) (cur_c cur_level : ℕ)
    (update_seed : Option ℕ)
    → IsWellFormed h.graph
    → h.entry_point < h.graph.cur_elements_count
    → cur_c < h.graph.cur_elements_count
    → SeedInside h.graph.cur_elements_count update_seed
    → length visited.mass ≡ h.graph.max_elements
    → length h.label_lookup ≡ h.graph.max_elements
    → h.graph.links 0 cur_c ≡ []
    → (h' : HierarchicalNsw) × (connect_element h visited datapoint cur_c cur_level update_seed
        ≡ some h')
      × IsIntact h'
      × SameSizes h.graph h'.graph
      × (h'.label_lookup ≡ h.label_lookup)
      × SameNodes h.graph h'.graph
      × ((cur_c ≡ 0) ⊎ IsConnected h visited datapoint cur_c cur_level update_seed h'.graph)
unfolding connect_element
connect_element_returns h visited datapoint cur_c cur_level update_seed w entry new seeded size
      labelled bare =
    elim (Bool-cases (cur_c == 0)) [
      | inl first ↦ (
        h,
        rw (first, connect_element) refl,
        record { well_formed = w; entered = omega arith; labelled = labelled },
        (refl, refl),
        refl,
        refl,
        inl ((==_iff cur_c 0).0 first),
      )
      | inr later ↦
          let n = h.graph.cur_elements_count in
          let curr_obj = start_from h update_seed in
          let start_search_level = min h.max_level (get_element_level h curr_obj) in
          let (closest, climbs, inside) =
            climb_down_returns h.graph datapoint cur_level start_search_level curr_obj w
              (start_from-inside h n update_seed entry seeded) in
          let (s, joins, k, joined) =
            connect_down_returns h.ef_construction (ltb 0 h.deleted_elements_count) datapoint cur_c
              n h.graph.max_elements new (min cur_level start_search_level)
              (record { graph = h.graph; curr_obj = closest; visited = visited })
              (record {
                well_formed = w;
                count = refl;
                room = refl;
                inside = inside;
                listed = size;
              })
              bare in
          let (intact, sizes, labels, same) =
            settle_lem h cur_c cur_level s.graph k.well_formed (omega (arith, entry, k.count))
              (omega (arith, new, k.count)) k.count k.room labelled in
          (
            settle h cur_c cur_level s.graph,
            rw (later, connect_element, climbs, joins) refl,
            intact,
            sizes,
            labels,
            subst (SameNodes h.graph) (sym same) joined.nodes,
            inr (
                subst (IsConnected h visited datapoint cur_c cur_level update_seed) (sym same)
                  (record { closest = closest; climbed = climbs; joined = joined })),
          )
    ]
