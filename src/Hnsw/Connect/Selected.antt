-- ===== src/Hnsw/Connect/Selected.antt =====
-- What `getNeighborsByHeuristic2` of src/hnsw/hnswalg.h selects.
use endee.Prelude.{
  ℕ, ◌≤◌, ◌<◌, inl, inr, List, [], ◌∷◌, ◌++◌, arith, leb, ◌==◌, leb→le, Bool-cases, Option-cases,
  length, All, length-append, All-append,
}
use endee.Hnsw.Graph.{get_data, Graph}
use endee.Hnsw.Connect.{
  is_good, select_one, select, fill_back, target_backfill_size, no_selection,
  get_neighbors_by_heuristic2, Selection,
}

module _ (P : ℕ × ℕ → Type 0) (g : Graph) where
  -- A selection under way, with what is known of each candidate.
  record IsPart (cur_m : ℕ) (s : Selection) : Type 0 where
    chosen : All P s.result
    left : All P s.fill_back_ids
    few : length s.result ≤ cur_m

  All-snoc : (p : ℕ × ℕ) (ps : List (ℕ × ℕ)) → P p → All P ps → All P (ps ++ p ∷ [])
  All-snoc p ps h a = All-append P ps (p ∷ []) a (h, tt)

  select_one-IsPart :
      (cur_m level : ℕ) (s : Selection) (p : ℕ × ℕ)
      → P p
      → length s.result < cur_m
      → IsPart cur_m s
      → IsPart cur_m (select_one g level s p)
  unfolding select_one
  select_one-IsPart cur_m level s p h room k = elim (Option-cases (get_data g level p.1)) [
    | inl missing ↦ rw (missing, select_one) k
    | inr (x, found) ↦ elim (Bool-cases (is_good g s.selected_vecs p.0 x)) [
      | inl good ↦
          rw (found, select_one, good)
            (record {
              chosen = All-snoc p s.result h k.chosen;
              left = k.left;
              few = omega (arith, length-append s.result (p ∷ []));
            })
      | inr bad ↦
          rw (found, select_one, bad)
            (record { chosen = k.chosen; left = All-snoc p s.fill_back_ids h k.left; few = k.few })
    ]
  ]

  select-IsPart :
      (cur_m level : ℕ) (s : Selection) (ps : List (ℕ × ℕ))
      → All P ps
      → IsPart cur_m s
      → IsPart cur_m (select g cur_m level s ps)
  unfolding select
  select-IsPart cur_m level s [] h k = k
  select-IsPart cur_m level s (p ∷ ps) h k = elim (Bool-cases (length s.result == cur_m)) [
    | inl full ↦ rw (full, select) k
    | inr open_ ↦
        rw (open_, select)
          (select-IsPart cur_m level (select_one g level s p) ps h.1
            (select_one-IsPart cur_m level s p h.0 (ground (arith, k.few)) k))
  ]

  fill_back_lem :
      (target cur_m : ℕ) (result ps : List (ℕ × ℕ))
      → target ≤ cur_m
      → length result ≤ cur_m
      → All P result
      → All P ps
      → (length (fill_back target result ps) ≤ cur_m) × All P (fill_back target result ps)
  unfolding fill_back
  fill_back_lem target cur_m result [] t n h k = (n, h)
  fill_back_lem target cur_m result (p ∷ ps) t n h k =
      elim (Bool-cases (leb target (length result))) [
        | inl enough ↦ rw (enough, fill_back) (n, h)
        | inr short ↦
            rw (short, fill_back)
              (fill_back_lem target cur_m (result ++ p ∷ []) ps t
                (ground (arith, length-append result (p ∷ []))) (All-snoc p result k.0 h) k.1)
      ]

  target_backfill_size_le : (cur_m level : ℕ) → target_backfill_size cur_m level ≤ cur_m
  unfolding target_backfill_size
  target_backfill_size_le cur_m level = ground arith

  -- The heuristic selects as many candidates as a list has room for at most, and only candidates.
  pub get_neighbors_by_heuristic2_lem :
      (ps : List (ℕ × ℕ)) (cur_m level : ℕ)
      → All P ps
      → (length (get_neighbors_by_heuristic2 g ps cur_m level) ≤ cur_m)
        × All P (get_neighbors_by_heuristic2 g ps cur_m level)
  unfolding get_neighbors_by_heuristic2
  get_neighbors_by_heuristic2_lem ps cur_m level h = elim (Bool-cases (leb (length ps) cur_m)) [
    | inl few ↦ rw (few, get_neighbors_by_heuristic2) (leb→le (length ps) cur_m few, h)
    | inr many ↦
        let s = select g cur_m level no_selection ps in
        let part : IsPart cur_m s =
          select-IsPart cur_m level no_selection ps h
            (record { chosen = tt; left = tt; few = omega arith }) in
        rw (many, get_neighbors_by_heuristic2)
          (fill_back_lem (target_backfill_size cur_m level) cur_m s.result s.fill_back_ids
            (target_backfill_size_le cur_m level) part.few part.chosen part.left)
  ]
