-- ===== src/Core/Recovery/Lost.antt =====
-- What `recoverFromWAL` of src/core/ndd.hpp makes of the log that a crash leaves.
use mathlib.Core.List.{append-nil}
use endee.Prelude.{
  ℕ, zero, suc, ◌+◌, ◌-◌, ◌*◌, ◌^◌, ◌≤◌, ◌<◌, ◌≡◌, refl, sym, ap, subst, subst₂, ◌∙◌, ◌⊎◌, inl, inr,
  true, Option, none, some, List, [], ◌∷◌, arith, ltb, Bool-cases, length, All, u64,
}
use endee.Mdbx.{Table}
use endee.Hnsw.Visited.{VisitedList}
use endee.Hnsw.Graph.{Bytes}
use endee.Hnsw.Links.{max_degree}
use endee.Hnsw.Knn.{HierarchicalNsw}
use endee.Hnsw.Insert.Intact.{IsIntact}
use endee.IdMapper.{reclaim_failed_ids}
use endee.Wal.{is_add, has_entries, log, clear, read_entries, WalEntry, Wal, entries, bad_alloc}
use endee.Wal.Parse.{IsEntry}
use endee.Wal.RoundTrip.{has_add, before_add, Holds, read_entries-log}
use endee.Core.Recovery.{
  resize, resize_index, save_index_internal, recover_from_wal, Recovery, recovered, thrown,
}
use endee.Core.Recovery.Safe.{missing, IsSafe}
use endee.Core.Recovery.Answers.{recover_entries_lem}

missing-before_add :
    (get_vector : ℕ → Bytes) (es : List WalEntry) → missing get_vector (before_add es) ≡ []
unfolding before_add
missing-before_add get_vector [] = refl
missing-before_add get_vector (e ∷ es) = elim (Bool-cases (is_add e.op_type)) [
  | inl add ↦ rw (add, before_add) refl
  | inr no_add ↦ rw (no_add, before_add) (ground (arith, no_add, missing-before_add get_vector es))
]

length-before_add : (es : List WalEntry) → length (before_add es) ≤ length es
unfolding before_add
length-before_add [] = omega arith
length-before_add (e ∷ es) = ground (arith, length-before_add es)

length-resize : (n : ℕ) (lookup : List (Option ℕ)) → length (resize n lookup) ≡ n
unfolding resize
length-resize zero lookup = refl
length-resize (suc n) [] = ap suc (length-resize n [])
length-resize (suc n) (o ∷ lookup) = ap suc (length-resize n lookup)

log_nothing : (w : Wal) → log w [] ≡ w
unfolding log
log_nothing w = ground arith

read_back :
    (max_len : ℕ) (w : Wal) (es : List WalEntry)
    → Holds w es
    → All IsEntry es
    → 5 * length es < 2 ^ 40
    → (read_entries max_len w.file ≡ entries (before_add es))
      ⊎ ((read_entries max_len w.file ≡ bad_alloc) × (has_add es ≡ true))
read_back max_len w es holds good short =
    subst₂
      (λ (v : Wal) l.
        (read_entries max_len v.file ≡ entries (before_add l))
        ⊎ ((read_entries max_len v.file ≡ bad_alloc) × (has_add l ≡ true)))
      (log_nothing w) (append-nil es)
      (read_entries-log max_len w es [] holds (subst (All IsEntry) (sym (append-nil es)) good)
        (subst (λ l. 5 * length l < 2 ^ 40) (sym (append-nil es)) short))

reclaim_nothing :
    (T : Table) (db : T.Db) (ids : List ℕ) → ids ≡ [] → reclaim_failed_ids T db ids ≡ db
unfolding reclaim_failed_ids
reclaim_nothing T db ids e = rw e refl

resize_index-IsIntact :
    (h : HierarchicalNsw) (n : ℕ)
    → IsIntact h
    → let resized : HierarchicalNsw = elim (resize_index h n) [ none ↦ h | some h' ↦ h' ] in
      IsIntact resized
unfolding resize_index max_degree
resize_index-IsIntact h n k = elim (Bool-cases (ltb n h.graph.cur_elements_count)) [
  | inl small ↦ rw (small, resize_index) k
  | inr large ↦
      rw (large, resize_index)
        (record {
          well_formed = k.well_formed;
          entered = k.entered;
          labelled = length-resize n h.label_lookup;
        })
]

save_index_internal-IsIntact :
    (trigger increment : ℕ) (h : HierarchicalNsw) (w : Wal)
    → IsIntact h
    → IsIntact (save_index_internal trigger increment h w).0
unfolding save_index_internal
save_index_internal-IsIntact trigger increment h w k =
    let left = u64 (h.graph.max_elements + (2 ^ 64 - h.graph.cur_elements_count)) in
    elim (Bool-cases (ltb left trigger)) [
      | inl few ↦
          rw (few, save_index_internal)
            (resize_index-IsIntact h (u64 (h.graph.max_elements + increment)) k)
      | inr many ↦ rw (many, save_index_internal) k
    ]

saved_log :
    (trigger increment : ℕ) (h : HierarchicalNsw) (w : Wal) {D : Type 0} (db : D)
    → recovered
        (save_index_internal trigger increment h w).0
        (save_index_internal trigger increment h w).1
        db
      ≡ recovered (save_index_internal trigger increment h w).0 (clear w) db
unfolding save_index_internal
saved_log trigger increment h w db = refl

-- Recovery from a log of well-formed entries, shorter than 2 ^ 40 bytes, on an index in order that has
-- room for them and a place in labelLookup_ for the identifiers before the first addition: the exception of `readEntries` comes through, and then an addition was logged; or the
-- graph ends in order, the log is empty, and the identifier map is as it was.
pub recover_from_wal_lem :
    (T : Table) (trigger increment max_len : ℕ) (get_vector : ℕ → Bytes) (level_of : ℕ → ℕ)
    (visited : VisitedList) (alg : HierarchicalNsw) (w : Wal) (db : T.Db) (es : List WalEntry)
    → IsSafe (length visited.mass) alg
    → alg.graph.cur_elements_count + length es ≤ length visited.mass
    → All (λ e. e.numeric_id < length visited.mass) (before_add es)
    → Holds w es
    → All IsEntry es
    → 5 * length es < 2 ^ 40
    → has_entries w ≡ true
    → ((recover_from_wal T trigger increment max_len get_vector level_of visited alg w db ≡ thrown)
        × (has_add es ≡ true))
      ⊎ ((alg' : HierarchicalNsw) × (recover_from_wal T trigger increment max_len get_vector
              level_of visited alg w db
            ≡ recovered alg' (clear w) db)
          × IsIntact alg')
unfolding recover_from_wal
recover_from_wal_lem T trigger increment max_len get_vector level_of visited alg w db es safe fits
      listed holds good short waiting =
    elim (read_back max_len w es holds good short) [
      | inr (refused, add) ↦ inl (rw (waiting, recover_from_wal, refused) refl, add)
      | inl back ↦
          let run : Recovery = record { alg = alg; failed_vector_add_ids = [] } in
          let (s, returns, safe', _, _, failed) =
            recover_entries_lem get_vector level_of visited (length visited.mass) refl run
              (before_add es) safe (omega (arith, fits, length-before_add es)) listed in
          let kept =
            reclaim_nothing T db s.failed_vector_add_ids
              (failed ∙ missing-before_add get_vector es) in
          inr (
            (save_index_internal trigger increment s.alg w).0,
            rw (waiting, recover_from_wal, back, returns, kept)
                (saved_log trigger increment s.alg w db),
            save_index_internal-IsIntact trigger increment s.alg w safe'.intact,
          )
    ]
