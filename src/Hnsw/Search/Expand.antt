-- ===== src/Hnsw/Search/Expand.antt =====
-- The neighbours of one node in `searchBaseLayer` of src/hnsw/hnswalg.h.
use endee.Prelude.{ℕ, ◌||◌, none, some, List, [], ◌∷◌, leb, ◌==◌, if◌then◌else◌}
use endee.Hnsw.Visited.{mark, is_visited, VisitedList}
use endee.Hnsw.Graph.{Bytes, get_data, Graph}
use endee.Hnsw.Search.{
  is_allowed, is_hidden, mark_node, offer_refused, offer_allowed, Search, Query,
}

module _ (g : Graph) (q : Query) where
  -- Above layer 0 the neighbours are taken one after the other.
  unfoldable pub consider_upper : Search → ℕ → Search
  unfolding mark_node is_allowed offer_refused offer_allowed
  consider_upper s i =
      if leb g.max_elements i || is_visited s.visited i
      then s
      else let s' = mark_node g q s i in
        if is_hidden g q i then s' else elim (g.upper i) [
          | none ↦ s'
          | some x ↦ if is_allowed g q i then offer_allowed g q s' i x else offer_refused g q s' i x
        ]

  unfoldable pub consider_all : Search → List ℕ → Search
  unfolding consider_upper
  consider_all s [] = s
  consider_all s (i ∷ is) = consider_all (consider_upper s i) is

  -- At layer 0 they are first collected, with their marks.
  unfoldable pub collect : VisitedList → List ℕ → VisitedList × List ℕ
  collect v [] = (v, [])
  collect v (i ∷ is) =
      let skipped = leb g.max_elements i || is_visited v i in
      let (v', ids) = collect (if skipped then v else mark v i) is in
      (v', if skipped || is_hidden g q i then ids else i ∷ ids)

  -- Those whose vector could be fetched.
  unfoldable pub fetch_batch : List ℕ → List (ℕ × Bytes)
  fetch_batch [] = []
  fetch_batch (i ∷ is) = elim (get_data g 0 i) [
    | none ↦ fetch_batch is
    | some x ↦ (i, x) ∷ fetch_batch is
  ]

  -- The refused ones are looked at before the others.
  unfoldable pub consider_refused : Search → List (ℕ × Bytes) → Search
  unfolding is_allowed offer_refused
  consider_refused s [] = s
  consider_refused s ((i, x) ∷ rest) =
      consider_refused (if is_allowed g q i then s else offer_refused g q s i x) rest

  unfoldable pub consider_allowed : Search → List (ℕ × Bytes) → Search
  unfolding is_allowed offer_allowed
  consider_allowed s [] = s
  consider_allowed s ((i, x) ∷ rest) =
      consider_allowed (if is_allowed g q i then offer_allowed g q s i x else s) rest

  unfoldable pub expand_base : Search → List ℕ → Search
  unfolding collect fetch_batch consider_refused consider_allowed
  expand_base s ids =
      let (visited, valid_ids) = collect s.visited ids in
      let fetched = fetch_batch valid_ids in
      consider_allowed (consider_refused (record s { visited = visited }) fetched) fetched

  -- The neighbours of a node that was taken from the queue.
  unfoldable pub expand : Search → ℕ → Search
  unfolding expand_base consider_all
  expand s current_id =
      if q.layer == 0 then expand_base s (g.links 0 current_id) else elim (g.upper current_id) [
        | none ↦ s
        | some _ ↦ consider_all s (g.links q.layer current_id)
      ]
