-- ===== src/Hnsw/Connect/Diverse.antt =====
-- The spread of the nodes that `getNeighborsByHeuristic2` of src/hnsw/hnswalg.h selects.
use mathlib.Core.List.{append-nil, append_assoc}
use endee.Prelude.{
  ℕ, ◌-◌, ◌≤◌, ◌<◌, ◌≡◌, sym, ◌∙◌, inl, inr, Bool, true, false, none, some, List, [], ◌∷◌, ◌++◌,
  arith, ltb, leb, ◌==◌, Bool-cases, Option-cases, length, All, length-append, All-append,
}
use endee.Hnsw.Graph.{Bytes, get_data, Graph}
use endee.Hnsw.Connect.{
  is_good, select_one, select, fill_back, target_backfill_size, no_selection,
  get_neighbors_by_heuristic2, Selection,
}

-- Whether the second candidate, with its similarity to the new element, is more similar to the first.
abbrev pub is_closer : Graph → ℕ → ℕ × ℕ → ℕ × ℕ → Bool
is_closer g level p r = elim (get_data g level p.1) [
  | none ↦ false
  | some x ↦ elim (get_data g level r.1) [ none ↦ false | some y ↦ ltb r.0 (g.sim_func x y) ]
]

-- No member is more similar to one before it than to the new element.
abbrev pub IsDiverse : Graph → ℕ → List (ℕ × ℕ) → Type 0
IsDiverse g level [] = Unit {0}
IsDiverse g level (p ∷ ps) = All (λ r. is_closer g level p r ≡ false) ps × IsDiverse g level ps

module _ (g : Graph) (level : ℕ) where
  IsDiverse-snoc :
      (ps : List (ℕ × ℕ)) (r : ℕ × ℕ)
      → IsDiverse g level ps
      → All (λ p. is_closer g level p r ≡ false) ps
      → IsDiverse g level (ps ++ r ∷ [])
  IsDiverse-snoc [] r d h = (tt, tt)
  IsDiverse-snoc (p ∷ ps) r d h = (
    All-append (λ t. is_closer g level p t ≡ false) ps (r ∷ []) d.0 (h.0, tt),
    IsDiverse-snoc ps r d.1 h.1,
  )

  -- The cached vectors are those of the members.
  abbrev IsCached : List (ℕ × ℕ) → List Bytes → Type 0
  IsCached [] [] = Unit {0}
  IsCached [] (x ∷ xs) = ⊥
  IsCached (p ∷ ps) [] = ⊥
  IsCached (p ∷ ps) (x ∷ xs) = (get_data g level p.1 ≡ some x) × IsCached ps xs

  IsCached-snoc :
      (ps : List (ℕ × ℕ)) (xs : List Bytes) (p : ℕ × ℕ) (x : Bytes)
      → IsCached ps xs
      → get_data g level p.1 ≡ some x
      → IsCached (ps ++ p ∷ []) (xs ++ x ∷ [])
  IsCached-snoc [] [] p x c h = (h, tt)
  IsCached-snoc [] (y ∷ ys) p x c h = absurd c
  IsCached-snoc (r ∷ ps) [] p x c h = absurd c
  IsCached-snoc (r ∷ ps) (y ∷ ys) p x c h = (c.0, IsCached-snoc ps ys p x c.1 h)

  is_good_apart :
      (ps : List (ℕ × ℕ)) (xs : List Bytes) (r : ℕ × ℕ) (y : Bytes)
      → IsCached ps xs
      → get_data g level r.1 ≡ some y
      → is_good g xs r.0 y ≡ true
      → All (λ p. is_closer g level p r ≡ false) ps
  unfolding is_good
  is_good_apart [] [] r y c found h = tt
  is_good_apart [] (x ∷ xs) r y c found h = absurd c
  is_good_apart (p ∷ ps) [] r y c found h = absurd c
  is_good_apart (p ∷ ps) (x ∷ xs) r y c found h = (
    rw (c.0, found, is_closer) (ground (arith, h)),
    is_good_apart ps xs r y c.1 found (ground (arith, h)),
  )

  record IsSpread (s : Selection) : Type 0 where
    diverse : IsDiverse g level s.result
    cached : IsCached s.result s.selected_vecs

  select_one-IsSpread : (s : Selection) (r : ℕ × ℕ) → IsSpread s → IsSpread (select_one g level s r)
  unfolding select_one
  select_one-IsSpread s r h = elim (Option-cases (get_data g level r.1)) [
    | inl missing ↦ rw (missing, select_one) h
    | inr (y, found) ↦ elim (Bool-cases (is_good g s.selected_vecs r.0 y)) [
      | inl good ↦
          rw (found, select_one, good)
            (record {
              diverse =
                  IsDiverse-snoc s.result r h.diverse
                    (is_good_apart s.result s.selected_vecs r y h.cached found good);
              cached = IsCached-snoc s.result s.selected_vecs r y h.cached found;
            })
      | inr bad ↦ rw (found, select_one, bad) (record { diverse = h.diverse; cached = h.cached })
    ]
  ]

  select-IsSpread :
      (cur_m : ℕ) (s : Selection) (ps : List (ℕ × ℕ))
      → IsSpread s
      → IsSpread (select g cur_m level s ps)
  unfolding select
  select-IsSpread cur_m s [] h = h
  select-IsSpread cur_m s (r ∷ ps) h = elim (Bool-cases (length s.result == cur_m)) [
    | inl full ↦ rw (full, select) h
    | inr room ↦
        rw (room, select)
          (select-IsSpread cur_m (select_one g level s r) ps (select_one-IsSpread s r h))
  ]

fill_back_some :
    (target : ℕ) (result ps : List (ℕ × ℕ))
    → (filled : List (ℕ × ℕ)) × (fill_back target result ps ≡ result ++ filled)
      × (length filled ≤ target - length result)
unfolding fill_back
fill_back_some target result [] = ([], sym (append-nil result), omega arith)
fill_back_some target result (p ∷ ps) = elim (Bool-cases (leb target (length result))) [
  | inl enough ↦ rw (enough, fill_back) ([], sym (append-nil result), omega arith)
  | inr short ↦
      let (filled, e, n) = fill_back_some target (result ++ p ∷ []) ps in
      rw (short, fill_back)
        (
          p ∷ filled,
          e ∙ append_assoc result (p ∷ []) filled,
          ground (arith, length-append result (p ∷ [])),
        )
]

-- When a list has no room for all candidates, those taken into it are ones of which none is more
-- similar to one before it than to the new element, and behind them as many others at most as
-- these are fewer than the target of the backfill.
pub get_neighbors_by_heuristic2-IsDiverse :
    (g : Graph) (ps : List (ℕ × ℕ)) (cur_m level : ℕ)
    → cur_m < length ps
    → (kept : List (ℕ × ℕ)) × (filled : List (ℕ × ℕ)) × (get_neighbors_by_heuristic2 g ps cur_m
          level
        ≡ kept ++ filled)
      × IsDiverse g level kept
      × (length filled ≤ target_backfill_size cur_m level - length kept)
unfolding get_neighbors_by_heuristic2
get_neighbors_by_heuristic2-IsDiverse g ps cur_m level many =
    let s = select g cur_m level no_selection ps in
    let (filled, e, n) =
      fill_back_some (target_backfill_size cur_m level) s.result s.fill_back_ids in
    let over : leb (length ps) cur_m ≡ false = ground arith in
    (
      s.result,
      filled,
      rw (over, get_neighbors_by_heuristic2) e,
      (select-IsSpread g level cur_m no_selection ps
          (record { diverse = tt; cached = tt })).diverse,
      n,
    )
