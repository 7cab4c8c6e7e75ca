-- ===== src/Hnsw/Search/Answers.antt =====
-- What `searchBaseLayer` of src/hnsw/hnswalg.h returns.
use mathlib.Core.List.{reverse}
use endee.Prelude.{
  ℕ, zero, suc, ◌+◌, ◌≤◌, ◌≡◌, refl, sym, subst, inl, inr, Bool, true, false, ◌&&◌, ◌||◌, some,
  List, [], ◌∷◌, arith, ltb, leb, if◌then◌else◌, Bool-cases, Option-cases, any_eq, length, All,
  List-cases,
}
use endee.Hnsw.Visited.{is_visited, VisitedList}
use endee.Hnsw.Graph.{get_data, Graph, Reach, enter}
use endee.Hnsw.Search.{
  push_candidate, empty_search, is_allowed, is_hidden, mark_node, enter_point, enter_points, start,
  Search, Query,
}
use endee.Hnsw.Search.Loop.{round, loop, search_base_layer, Outcome, done, out_of_fuel}
use endee.Hnsw.Search.Returns.{loop_empty, loop_stops, loop_goes_on, search_ends}
use endee.Hnsw.Search.Order.{
  IsDescending, All-push_candidate, trim-IsBest, trim-push_top-IsBest, reverse-IsDescending,
  All-reverse, length-reverse, IsBest,
}
use endee.Hnsw.Search.Sound.{IsAnswer, IsSound}
use endee.Hnsw.Search.Near.{All-members, expand-IsSound}

module _ (g : Graph) (q : Query) (eps : List ℕ) where
  IsSound-if :
      (b : Bool) (x y : Bool × Search)
      → IsSound g q eps x.1
      → IsSound g q eps y.1
      → IsSound g q eps (if b then x else y).1
  IsSound-if true x y h k = h
  IsSound-if false x y h k = k

  round-IsSound :
      (s : Search) (p : ℕ × ℕ) (rest : List (ℕ × ℕ))
      → s.candidate_set ≡ p ∷ rest
      → IsSound g q eps s
      → IsSound g q eps (round g q s p rest).1
  unfolding round
  round-IsSound s (sim, i) rest e h =
      let (r, waiting) = subst (All (λ p. Reach g q.layer eps p.1)) e h.waiting in
      let popped = λ (n : ℕ).
        expand-IsSound g q eps (record s { candidate_set = rest; below_threshold_count = n }) i
          (record { waiting = waiting; best = h.best }) r in
      IsSound-if (leb g.max_elements i) _ _ (record { waiting = waiting; best = h.best })
        (IsSound-if (ltb sim s.lower_bound && leb q.ef (length s.top_candidates)) _ _
          (IsSound-if (ltb (if q.is_insert then 16 else 8) (s.below_threshold_count + 1)) _ _
            (record { waiting = h.waiting; best = h.best }) (popped (s.below_threshold_count + 1)))
          (popped 0))

  abbrev IsFine : Outcome → Type 0
  IsFine (done t) = IsSound g q eps t
  IsFine out_of_fuel = Unit {0}

  loop-IsFine : (fuel : ℕ) (s : Search) → IsSound g q eps s → IsFine (loop g q fuel s)
  unfolding loop
  loop-IsFine zero s h = elim (List-cases s.candidate_set) [
    | inl none_left ↦ subst IsFine (sym (loop_empty g q zero s none_left)) h
    | inr (p, rest, e) ↦ rw e tt
  ]
  loop-IsFine (suc fuel) s h = elim (List-cases s.candidate_set) [
    | inl none_left ↦ subst IsFine (sym (loop_empty g q (suc fuel) s none_left)) h
    | inr (p, rest, e) ↦
        let kept = round-IsSound s p rest e h in
        elim (Bool-cases (round g q s p rest).0) [
          | inl on ↦
              subst IsFine (sym (loop_goes_on g q fuel s p rest e on))
                (loop-IsFine fuel (round g q s p rest).1 kept)
          | inr stops ↦ subst IsFine (sym (loop_stops g q fuel s p rest e stops)) kept
        ]
  ]

  enter_point-IsSound :
      (s : Search) (ep : ℕ)
      → any_eq ep eps ≡ true
      → IsSound g q eps s
      → IsSound g q eps (enter_point g q s ep)
  unfolding enter_point
  enter_point-IsSound s ep m h =
      elim (Bool-cases (leb g.max_elements ep || is_visited s.visited ep)) [
        | inl skipped ↦ rw (skipped, enter_point) h
        | inr new ↦ elim (Bool-cases (is_hidden g q ep)) [
          | inl hidden ↦ rw (new, enter_point, hidden) (pushed 0 s.top_candidates _ h.best)
          | inr shown ↦ elim (Option-cases (get_data g q.layer ep)) [
            | inl absent ↦ rw (new, enter_point, shown, absent) (pushed 0 s.top_candidates _ h.best)
            | inr (x, e) ↦
                let sim : ℕ = g.sim_func q.data_point x in
                elim (Bool-cases (is_allowed g q ep)) [
                  | inr refused ↦
                      rw (new, enter_point, shown, e, refused)
                        (pushed sim _ _
                          (trim-IsBest (IsAnswer g q eps) q.ef s.top_candidates h.best))
                  | inl passed ↦
                      rw (new, enter_point, shown, e, passed)
                        (pushed sim _ _ (
                          trim-push_top-IsBest (IsAnswer g q eps) q.ef (sim, ep) s.top_candidates
                            (record {
                              reached = enter m;
                              inside = ground arith;
                              shown = shown;
                              allowed = passed;
                              vector = x;
                              fetched = e;
                              similar = refl;
                            })
                            h.best))
                ]
          ]
        ]
      ]
    where
      pushed :
          (sim : ℕ) (top : List (ℕ × ℕ)) (n : ℕ)
          → IsBest (IsAnswer g q eps) q.ef top
          → IsSound g q eps (record (mark_node g q s ep) {
            candidate_set = push_candidate (sim, ep) s.candidate_set;
            top_candidates = top;
            dist_computations = n;
          })
      pushed sim top n b = record {
        waiting =
            All-push_candidate (λ p. Reach g q.layer eps p.1) (sim, ep) s.candidate_set (enter m)
              h.waiting;
        best = b;
      }

  enter_points-IsSound :
      (s : Search) (is : List ℕ)
      → All (λ i. any_eq i eps ≡ true) is
      → IsSound g q eps s
      → IsSound g q eps (enter_points g q s is)
  unfolding enter_points
  enter_points-IsSound s [] a h = h
  enter_points-IsSound s (i ∷ is) a h =
      enter_points-IsSound (enter_point g q s i) is a.1 (enter_point-IsSound s i a.0 h)

  start-IsSound : (v : VisitedList) → IsSound g q eps (start g q v eps)
  unfolding start
  start-IsSound v =
      let s =
        enter_points-IsSound (empty_search v) eps
          (All-members (λ i. any_eq i eps ≡ true) eps (λ i m. m))
          (record {
            waiting = tt;
            best = record { each = tt; ascending = tt; few = omega arith };
          }) in
      record { waiting = s.waiting; best = s.best }

  -- Where the visited list has an entry for every node, a search returns at most `ef` pairs, the most
  -- similar first; each is a node that links lead to from the entry points and that the filter
  -- allows, with the similarity of its vector. It is not marked as deleted, where the query has
  -- `has_deletions`; without it, the marks are not looked at.
  pub search_base_layer_lem :
      (visited : VisitedList)
      → length visited.mass ≡ g.max_elements
      → (found : List (ℕ × ℕ)) × (visited' : VisitedList) × (search_base_layer g q visited eps
          ≡ some (found, visited'))
        × (length found ≤ q.ef)
        × IsDescending found
        × All (IsAnswer g q eps) found
  unfolding search_base_layer
  search_base_layer_lem visited size =
      let (t, ends, _) = search_ends g q visited eps size in
      let sound =
        subst IsFine ends
          (loop-IsFine g.max_elements (start g q visited eps) (start-IsSound visited)) in
      (
        reverse t.top_candidates,
        t.visited,
        simp (ends, search_base_layer),
        omega (arith, length-reverse t.top_candidates, sound.best.few),
        reverse-IsDescending t.top_candidates sound.best.ascending,
        All-reverse (IsAnswer g q eps) t.top_candidates sound.best.each,
      )
