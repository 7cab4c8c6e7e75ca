-- ===== src/Hnsw/Knn/Walk.antt =====
-- The greedy walk of `searchKnn` of src/hnsw/hnswalg.h ends at a node with no better neighbour.
use endee.Prelude.{
  ℕ, zero, suc, ◌+◌, ◌≤◌, ◌<◌, ◌≡◌, refl, ap, subst, ◌⊎◌, inl, inr, Bool, true, false, some, List,
  [], ◌∷◌, arith, ◌==◌, if◌then◌else◌, ==_iff, Bool-cases, All,
}
use endee.Hnsw.Graph.{Bytes, Graph}
use endee.Hnsw.Knn.{sim_of, is_better, improve, walk, walk_down}

module _ (g : Graph) (query_data : Bytes) where
  abbrev pub Better : ℕ → ℕ → Type 0
  Better sim i = is_better g query_data sim i ≡ true

  abbrev pub Best : ℕ → ℕ → Type 0
  Best sim i = is_better g query_data sim i ≡ false

  -- How many of the first `n` nodes are better.
  abbrev pub count_better : ℕ → ℕ → ℕ
  count_better zero sim = 0
  count_better (suc n) sim = count_better n sim + (if is_better g query_data sim n then 1 else 0)

  pub Better_inside :
      (sim i : ℕ) → Better sim i → (i < g.cur_elements_count) × (sim < sim_of g query_data i)
  unfolding is_better
  Better_inside sim i h = (ground (arith, h), ground (arith, h))

  pub Best-own : (i : ℕ) → Best (sim_of g query_data i) i
  unfolding is_better
  Best-own i = ground arith

  Best-mono : (sim sim' i : ℕ) → sim ≤ sim' → Best sim i → Best sim' i
  unfolding is_better
  Best-mono sim sim' i up h = ground (arith, h)

  Better-mono : (sim sim' i : ℕ) → sim ≤ sim' → Better sim' i → Better sim i
  unfolding is_better
  Better-mono sim sim' i up h = ground (arith, h)

  pub count_le : (n sim : ℕ) → count_better n sim ≤ n
  count_le zero sim = omega arith
  count_le (suc n) sim = ground (arith, count_le n sim)

  count_mono : (n sim sim' : ℕ) → sim ≤ sim' → count_better n sim' ≤ count_better n sim
  count_mono zero sim sim' up = omega arith
  count_mono (suc n) sim sim' up = elim (Bool-cases (is_better g query_data sim' n)) [
    | inl better ↦
        rw (better, Better-mono sim sim' n up better) (omega (arith, count_mono n sim sim' up))
    | inr best ↦ rw best (ground (arith, count_mono n sim sim' up))
  ]

  pub count_drop :
      (n sim sim' j : ℕ)
      → sim ≤ sim'
      → j < n
      → Better sim j
      → Best sim' j
      → count_better n sim' < count_better n sim
  count_drop zero sim sim' j up inside h k = absurd (omega arith)
  count_drop (suc n) sim sim' j up inside h k = elim (Bool-cases (j == n)) [
    | inl last ↦
        let same : j ≡ n = (==_iff j n).0 last in
        rw (subst (Better sim) same h, subst (Best sim') same k)
          (omega (arith, count_mono n sim sim' up))
    | inr before ↦
        let rest = count_drop n sim sim' j up (ground (arith, before, inside)) h k in
        elim (Bool-cases (is_better g query_data sim' n)) [
          | inl better ↦ rw (better, Better-mono sim sim' n up better) (omega (arith, rest))
          | inr best ↦ rw best (ground (arith, rest))
        ]
  ]

  -- What the neighbours do to the best pair.
  pub record IsImproved (changed : Bool) (best : ℕ × ℕ) (is : List ℕ) (r : Bool × (ℕ × ℕ))
      : Type 0 where
    pub up : best.0 ≤ r.1.0
    pub done : All (Best r.1.0) is
    pub step :
        (r ≡ (changed, best))
        ⊎ ((r.0 ≡ true) × (Better best.0 r.1.1) × (r.1.0 ≡ sim_of g query_data r.1.1))

  pub improve_lem :
      (changed : Bool) (best : ℕ × ℕ) (is : List ℕ)
      → IsImproved changed best is (improve g query_data changed best is)
  unfolding improve
  improve_lem changed best [] = record { up = omega arith; done = tt; step = inl refl }
  improve_lem changed best (i ∷ is) = elim (Bool-cases (is_better g query_data best.0 i)) [
    | inr no_better ↦
        let r = improve_lem changed best is in
        rw (no_better, improve)
          (record {
            up = r.up;
            done = (Best-mono best.0 _ i r.up no_better, r.done);
            step = r.step;
          })
    | inl better ↦
        let r = improve_lem true (sim_of g query_data i, i) is in
        let over = (Better_inside best.0 i better).1 in
        rw (better, improve)
          (record {
            up = omega (arith, over, r.up);
            done = (Best-mono (sim_of g query_data i) _ i r.up (Best-own i), r.done);
            step = elim r.step [
              | inl e ↦ inr (rw e (refl, better, refl))
              | inr (on, b, e) ↦ inr (on, Better-mono best.0 _ _ (omega (arith, over)) b, e)
            ];
          })
  ]

  walk_lem :
      (fuel level : ℕ) (best : ℕ × ℕ)
      → count_better g.cur_elements_count best.0 < fuel
      → best.0 ≡ sim_of g query_data best.1
      → (t : ℕ × ℕ) × (walk g query_data fuel level best ≡ some t)
        × (best.0 ≤ t.0)
        × (t.0 ≡ sim_of g query_data t.1)
        × All (Best t.0) (g.links level t.1)
  unfolding walk
  walk_lem zero level best h own = absurd (omega arith)
  walk_lem (suc fuel) level best h own =
      let r = improve g query_data false best (g.links level best.1) in
      let k = improve_lem false best (g.links level best.1) in
      elim k.step [
        | inl e ↦ (
          best,
          rw (ap (λ (x : Bool × (ℕ × ℕ)). x.0) e, walk)
              (ap some (ap (λ (x : Bool × (ℕ × ℕ)). x.1) e)),
          omega arith,
          own,
          subst (λ (x : Bool × (ℕ × ℕ)). All (Best x.1.0) (g.links level best.1)) e k.done,
        )
        | inr (on, b, e) ↦
            let inside = (Better_inside best.0 r.1.1 b).0 in
            let fewer =
              count_drop g.cur_elements_count best.0 r.1.0 r.1.1 k.up inside b
                (rw e (Best-own r.1.1)) in
            let (t, returns, up, same, done) = walk_lem fuel level r.1 (omega (arith, fewer)) e in
            (t, rw (on, walk) returns, omega (arith, k.up, up), same, done)
      ]

  -- The greedy walk through the links of one level, begun at a node with its similarity to the query,
  -- ends after a round for every node and one more at most. It ends at a node with that node's own
  -- similarity, no less similar than the first, of which no neighbour is more similar.
  pub walk_returns :
      (level : ℕ) (best : ℕ × ℕ)
      → best.0 ≡ sim_of g query_data best.1
      → (t : ℕ × ℕ) × (walk g query_data (suc g.cur_elements_count) level best ≡ some t)
        × (best.0 ≤ t.0)
        × (t.0 ≡ sim_of g query_data t.1)
        × All (Best t.0) (g.links level t.1)
  walk_returns level best own =
      walk_lem (suc g.cur_elements_count) level best
        (omega (arith, count_le g.cur_elements_count best.0)) own

  pub walk_down_returns :
      (level : ℕ) (best : ℕ × ℕ)
      → best.0 ≡ sim_of g query_data best.1
      → (t : ℕ × ℕ) × (walk_down g query_data level best ≡ some t)
        × (best.0 ≤ t.0)
        × (t.0 ≡ sim_of g query_data t.1)
  unfolding walk_down
  walk_down_returns zero best own = (best, refl, omega arith, own)
  walk_down_returns (suc level) best own =
      let (t, returns, up, same, done) = walk_returns (suc level) best own in
      let (t', returns', up', same') = walk_down_returns level t same in
      (t', rw (returns, walk_down) returns', omega (arith, up, up'), same')
