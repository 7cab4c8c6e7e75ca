-- ===== src/Hnsw/Insert/Climb.antt =====
-- The walk of `addPoint` in src/hnsw/hnswalg.h to the node next to a new element.
use endee.Prelude.{
  ℕ, zero, suc, ◌<◌, ◌≡◌, refl, sym, ap, subst, ◌∙◌, inl, inr, Bool, true, false, ◌&&◌, some, List,
  [], ◌∷◌, arith, ltb, leb, if◌then◌else◌, Bool-cases, is_some, Option-cases, All,
}
use endee.Hnsw.Graph.{Bytes, Graph}
use endee.Hnsw.Links.{IsWellFormed}
use endee.Hnsw.Knn.{sim_of, is_better, improve}
use endee.Hnsw.Knn.Walk.{
  Better, Best, count_better, Better_inside, Best-own, count_le, count_drop, improve_lem,
}
use endee.Hnsw.Insert.{climb_neighbors, climb, climb_down}

module _ (g : Graph) (datapoint : Bytes) where
  -- Where the neighbours are nodes, the walk is that of a search.
  climb_neighbors-improve :
      (changed : Bool) (best : ℕ × ℕ) (is : List ℕ)
      → All (λ i. i < g.cur_elements_count) is
      → climb_neighbors g datapoint changed best is ≡ improve g datapoint changed best is
  unfolding climb_neighbors improve is_better
  climb_neighbors-improve changed best [] h = refl
  climb_neighbors-improve changed best (i ∷ is) h =
      let inside : leb g.cur_elements_count i ≡ false = ground (arith, h.0) in
      let sim = sim_of g datapoint i in
      let nearer = is_some (g.upper i) && ltb best.0 sim in
      rw (inside, climb_neighbors, improve)
        (climb_neighbors-improve (if nearer then true else changed)
          (if nearer then (sim, i) else best) is h.1)

  Better-stands : (sim i : ℕ) → Better g datapoint sim i → (x : Bytes) × (g.upper i ≡ some x)
  unfolding is_better
  Better-stands sim i h = elim (Option-cases (g.upper i)) [
    | inr found ↦ found
    | inl missing ↦ absurd (ground (arith, h, missing))
  ]

  sim_of_found :
      (i : ℕ) (x : Bytes) → g.upper i ≡ some x → sim_of g datapoint i ≡ g.sim_func datapoint x
  unfolding sim_of
  sim_of_found i x found = rw (found, sim_of) refl

  climb_lem :
      (w : IsWellFormed g) (fuel level i : ℕ) (x : Bytes)
      → g.upper i ≡ some x
      → count_better g datapoint g.cur_elements_count (sim_of g datapoint i) < fuel
      → i < g.cur_elements_count
      → (t : ℕ) × (climb g datapoint fuel level i ≡ some t) × (t < g.cur_elements_count)
  unfolding climb
  climb_lem w zero level i x found h inside = absurd (omega arith)
  climb_lem w (suc fuel) level i x found h inside =
      let best : ℕ × ℕ = (g.sim_func datapoint x, i) in
      let ids = g.links level i in
      let r = improve g datapoint false best ids in
      let k = improve_lem g datapoint false best ids in
      let walks = climb_neighbors-improve false best ids (w level i).1 in
      let few =
        subst (λ n. count_better g datapoint g.cur_elements_count n < suc fuel)
          (sim_of_found i x found) h in
      elim k.step [
        | inl e ↦ (
          i,
          rw (found, climb, ap (λ (t : Bool × (ℕ × ℕ)). t.0) (walks ∙ e))
              (ap (λ (t : Bool × (ℕ × ℕ)). some t.1.1) (walks ∙ e)),
          inside,
        )
        | inr (on, b, e) ↦
            let inside' = (Better_inside g datapoint best.0 r.1.1 b).0 in
            let (y, found') = Better-stands best.0 r.1.1 b in
            let best_now =
              subst (λ n. Best g datapoint n r.1.1) (sym e) (Best-own g datapoint r.1.1) in
            let fewer =
              count_drop g datapoint g.cur_elements_count best.0 r.1.0 r.1.1 k.up inside' b
                best_now in
            let (t, returns, inside'') =
              climb_lem w fuel level r.1.1 y found'
                (subst (λ n. count_better g datapoint g.cur_elements_count n < fuel) e
                  (omega (arith, fewer, few)))
                inside' in
            (
              t,
              rw (found, climb, ap (λ (p : Bool × (ℕ × ℕ)). p.0) walks ∙ on)
                  (subst (λ (p : Bool × (ℕ × ℕ)). climb g datapoint fuel level p.1.1 ≡ some t)
                    (sym walks) returns),
              inside'',
            )
      ]

  pub climb_returns :
      (level i : ℕ)
      → IsWellFormed g
      → i < g.cur_elements_count
      → (t : ℕ) × (climb g datapoint (suc g.cur_elements_count) level i ≡ some t)
        × (t < g.cur_elements_count)
  unfolding climb
  climb_returns level i w inside = elim (Option-cases (g.upper i)) [
    | inl missing ↦ (i, rw (missing, climb) refl, inside)
    | inr (x, found) ↦
        climb_lem w (suc g.cur_elements_count) level i x found
          (omega (arith, count_le g datapoint g.cur_elements_count (sim_of g datapoint i))) inside
  ]

  pub climb_down_returns :
      (cur_level level i : ℕ)
      → IsWellFormed g
      → i < g.cur_elements_count
      → (t : ℕ) × (climb_down g datapoint cur_level level i ≡ some t) × (t < g.cur_elements_count)
  unfolding climb_down
  climb_down_returns cur_level zero i w inside = (i, refl, inside)
  climb_down_returns cur_level (suc level) i w inside =
      elim (Bool-cases (leb (suc level) cur_level)) [
        | inl low ↦ (i, rw (low, climb_down) refl, inside)
        | inr high ↦
            let (t, returns, inside') = climb_returns (suc level) i w inside in
            let (t', returns', inside'') = climb_down_returns cur_level level t w inside' in
            (t', rw (high, climb_down, returns) returns', inside'')
      ]
