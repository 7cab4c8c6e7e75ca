-- ===== src/Hnsw/Search/Returns.antt =====
-- The loop of `searchBaseLayer` of src/hnsw/hnswalg.h returns.
use mathlib.Core.List.{reverse}
use endee.Prelude.{
  ℕ, zero, suc, ◌+◌, ◌≤◌, ◌<◌, ◌≡◌, refl, ap, ◌∙◌, inl, inr, Bool, true, false, ◌&&◌, ◌||◌, some,
  List, [], ◌∷◌, arith, ltb, leb, if◌then◌else◌, Bool-cases, Option-cases, length, List-cases,
}
use endee.Hnsw.Visited.{is_visited, VisitedList}
use endee.Hnsw.Graph.{get_data, Graph}
use endee.Hnsw.Search.{
  push_candidate, empty_search, is_hidden, mark_node, enter_point, enter_points, start, Search,
  Query,
}
use endee.Hnsw.Search.Expand.{expand}
use endee.Hnsw.Search.Loop.{round, loop, search_base_layer, done}
use endee.Hnsw.Search.Ends.{
  count_unmarked-le, length-push_candidate, work, Narrows-mark, expand-Narrows, Pushes, Narrows,
}

module _ (g : Graph) (q : Query) where
  entered-Pushes :
      (s : Search) (ep sim : ℕ) (top : List (ℕ × ℕ)) (n : ℕ)
      → Pushes 1 (mark_node g q s ep) (record (mark_node g q s ep) {
        candidate_set = push_candidate (sim, ep) s.candidate_set;
        top_candidates = top;
        dist_computations = n;
      })
  unfolding mark_node
  entered-Pushes s ep sim top n = record {
    same = refl;
    pushed = omega (arith, length-push_candidate (sim, ep) s.candidate_set);
  }

  enter_point-Narrows :
      (s : Search) (ep : ℕ)
      → length s.visited.mass ≡ g.max_elements
      → Narrows g q s (enter_point g q s ep)
  unfolding enter_point
  enter_point-Narrows s ep size =
      elim (Bool-cases (leb g.max_elements ep || is_visited s.visited ep)) [
        | inl skipped ↦ rw (skipped, enter_point) (record { size = size; narrower = omega arith })
        | inr new ↦ elim (Bool-cases (is_hidden g q ep)) [
          | inl hidden ↦
              rw (new, enter_point, hidden)
                (Narrows-mark g q s ep _ size new (entered-Pushes s ep 0 _ _))
          | inr shown ↦ elim (Option-cases (get_data g q.layer ep)) [
            | inl absent ↦
                rw (new, enter_point, shown, absent)
                  (Narrows-mark g q s ep _ size new (entered-Pushes s ep 0 _ _))
            | inr (x, e) ↦
                rw (new, enter_point, shown, e)
                  (Narrows-mark g q s ep _ size new (entered-Pushes s ep _ _ _))
          ]
        ]
      ]

  enter_points-Narrows :
      (s : Search) (eps : List ℕ)
      → length s.visited.mass ≡ g.max_elements
      → Narrows g q s (enter_points g q s eps)
  unfolding enter_points
  enter_points-Narrows s [] size = record { size = size; narrower = omega arith }
  enter_points-Narrows s (i ∷ is) size = omega (
    arith,
    enter_point-Narrows s i size,
    enter_points-Narrows (enter_point g q s i) is (enter_point-Narrows s i size).size,
  )

  -- A round takes one node from the queue.
  round-Narrows :
      (s : Search) (p : ℕ × ℕ) (rest : List (ℕ × ℕ))
      → length s.visited.mass ≡ g.max_elements
      → s.candidate_set ≡ p ∷ rest
      → (round g q s p rest).0 ≡ true
      → (length (round g q s p rest).1.visited.mass ≡ g.max_elements)
        × (work g q (round g q s p rest).1 < work g q s)
  unfolding round
  round-Narrows s (sim, i) rest size e on = elim (Bool-cases (leb g.max_elements i)) [
    | inl outside ↦ rw (outside, round) (size, omega (arith, ap length e))
    | inr inside ↦ elim (Bool-cases (ltb sim s.lower_bound && leb q.ef (length s.top_candidates))) [
      | inr above ↦
          rw (inside, round, above)
            (expanded (record s { candidate_set = rest; below_threshold_count = 0 }) size
              (omega (arith, ap length e)))
      | inl below ↦
          elim (Bool-cases (ltb (if q.is_insert then 16 else 8) (s.below_threshold_count + 1))) [
            | inl stop ↦ absurd (false≢true (rw (inside, round, below, stop) at on))
            | inr further ↦
                rw (inside, round, below, further)
                  (expanded
                    (record s {
                      candidate_set = rest;
                      below_threshold_count = s.below_threshold_count + 1;
                    })
                    size (omega (arith, ap length e)))
          ]
    ]
  ]
    where
      false≢true : ◌≡◌ {A = Bool} false true → ⊥
      false≢true h = cc

      expanded :
          (t : Search)
          → length t.visited.mass ≡ g.max_elements
          → work g q t < work g q s
          → (length (expand g q t i).visited.mass ≡ g.max_elements)
            × (work g q (expand g q t i) < work g q s)
      expanded t size' less =
          let n = expand-Narrows g q t i size' in (n.size, omega (arith, n.narrower))

  pub loop_empty : (fuel : ℕ) (s : Search) → s.candidate_set ≡ [] → loop g q fuel s ≡ done s
  unfolding loop
  loop_empty zero s e = simp (e, loop)
  loop_empty (suc fuel) s e = simp (e, loop)

  pub loop_stops :
      (fuel : ℕ) (s : Search) (p : ℕ × ℕ) (rest : List (ℕ × ℕ))
      → s.candidate_set ≡ p ∷ rest
      → (round g q s p rest).0 ≡ false
      → loop g q (suc fuel) s ≡ done (round g q s p rest).1
  unfolding loop
  loop_stops fuel s p rest e stops = simp (e, loop, stops)

  pub loop_goes_on :
      (fuel : ℕ) (s : Search) (p : ℕ × ℕ) (rest : List (ℕ × ℕ))
      → s.candidate_set ≡ p ∷ rest
      → (round g q s p rest).0 ≡ true
      → loop g q (suc fuel) s ≡ loop g q fuel (round g q s p rest).1
  unfolding loop
  loop_goes_on fuel s p rest e on = simp (e, loop, on)

  round_size :
      (s : Search) (p : ℕ × ℕ) (rest : List (ℕ × ℕ))
      → length s.visited.mass ≡ g.max_elements
      → length (round g q s p rest).1.visited.mass ≡ g.max_elements
  unfolding round
  round_size s (sim, i) rest size =
      let expanded = λ (n : ℕ).
        (expand-Narrows g q (record s { candidate_set = rest; below_threshold_count = n }) i
          size).size in
      size-if (leb g.max_elements i) _ _ size (
        size-if (ltb sim s.lower_bound && leb q.ef (length s.top_candidates)) _ _
          (size-if (ltb (if q.is_insert then 16 else 8) (s.below_threshold_count + 1)) _ _ size
            (expanded (s.below_threshold_count + 1)))
          (expanded 0))
    where
      size-if :
          (b : Bool) (x y : Bool × Search)
          → length x.1.visited.mass ≡ g.max_elements
          → length y.1.visited.mass ≡ g.max_elements
          → length (if b then x else y).1.visited.mass ≡ g.max_elements
      size-if true x y h k = h
      size-if false x y h k = k

  loop_ends :
      (fuel : ℕ) (s : Search)
      → length s.visited.mass ≡ g.max_elements
      → work g q s ≤ fuel
      → (t : Search) × (loop g q fuel s ≡ done t) × (length t.visited.mass ≡ g.max_elements)
  loop_ends zero s size h = elim (List-cases s.candidate_set) [
    | inl none_left ↦ (s, loop_empty zero s none_left, size)
    | inr (p, rest, e) ↦ absurd (omega (arith, ap length e))
  ]
  loop_ends (suc fuel) s size h = elim (List-cases s.candidate_set) [
    | inl none_left ↦ (s, loop_empty (suc fuel) s none_left, size)
    | inr (p, rest, e) ↦ elim (Bool-cases (round g q s p rest).0) [
      | inr stops ↦
          ((round g q s p rest).1, loop_stops fuel s p rest e stops, round_size s p rest size)
      | inl on ↦
          let (size', less) = round-Narrows s p rest size e on in
          let (t, ends, size'') = loop_ends fuel (round g q s p rest).1 size' (omega arith) in
          (t, loop_goes_on fuel s p rest e on ∙ ends, size'')
    ]
  ]

  pub search_ends :
      (visited : VisitedList) (ep_ids : List ℕ)
      → length visited.mass ≡ g.max_elements
      → (t : Search) × (loop g q g.max_elements (start g q visited ep_ids) ≡ done t)
        × (length t.visited.mass ≡ g.max_elements)
  unfolding start
  search_ends visited ep_ids size =
      let entered = enter_points-Narrows (empty_search visited) ep_ids size in
      loop_ends g.max_elements (start g q visited ep_ids) entered.size
        (omega (arith, entered.narrower, count_unmarked-le visited.cur_v visited.mass))

  -- Where the visited list has an entry for every node, a search returns, whatever the links are: its
  -- queue is empty, or is left, within `max_elements` rounds. The visited list that it gives
  -- back still has an entry for every node.
  pub search_base_layer_returns :
      (visited : VisitedList) (ep_ids : List ℕ)
      → length visited.mass ≡ g.max_elements
      → (found : List (ℕ × ℕ)) × (visited' : VisitedList) × (search_base_layer g q visited ep_ids
          ≡ some (found, visited'))
        × (length visited'.mass ≡ g.max_elements)
  unfolding search_base_layer
  search_base_layer_returns visited ep_ids size =
      let (t, ends, size') = search_ends visited ep_ids size in
      (reverse t.top_candidates, t.visited, simp (ends, search_base_layer), size')
