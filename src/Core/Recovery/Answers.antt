-- ===== src/Core/Recovery/Answers.antt =====
-- What `recoverFromWAL` of src/core/ndd.hpp leaves behind.
use mathlib.Core.List.{append-nil, append_assoc}
use endee.Prelude.{
  ℕ, ◌+◌, ◌≤◌, ◌<◌, ◌≡◌, refl, sym, ap, ap₂, subst₂, ◌∙◌, inl, inr, true, false, some, List, [],
  ◌∷◌, ◌++◌, arith, Bool-cases, Option-cases, is_empty, length, All, length-append, get_elem?-some,
  u64,
}
use endee.Hnsw.Visited.{VisitedList}
use endee.Hnsw.Graph.{Bytes}
use endee.Hnsw.Links.{max_degree}
use endee.Hnsw.Knn.{HierarchicalNsw}
use endee.Hnsw.Insert.{put_at, mark_delete, update_point}
use endee.Hnsw.Insert.Intact.{SeedInside}
use endee.Hnsw.Insert.Answers.{add_point_new_returns}
use endee.Hnsw.Insert.Update.{update_point_returns}
use endee.Wal.{is_add, WalOperationType, vector_add, vector_delete, vector_update, other, WalEntry}
use endee.Core.Recovery.{
  fail, recover_add, recover_update, recover_delete, recover_entry, recover_entries, Recovery,
}
use endee.Core.Recovery.Safe.{
  All-SeedInside-set, SeedInside-at, labelled_from, labelled_from-append, missing, stored,
  missing-cons, stored-cons, length-stored, IsSafe,
}

module _ (get_vector : ℕ → Bytes) (level_of : ℕ → ℕ) (visited : VisitedList) (m : ℕ)
    (size : length visited.mass ≡ m) where
  -- What one entry does to the index.
  record IsStep (s : Recovery) (e : WalEntry) (s' : Recovery) : Type 0 where
    safe : IsSafe m s'.alg
    count :
        s'.alg.graph.cur_elements_count
        ≡ s.alg.graph.cur_elements_count + length (stored get_vector (e ∷ []))
    failed : s'.failed_vector_add_ids ≡ s.failed_vector_add_ids ++ missing get_vector (e ∷ [])
    labels :
        s'.alg.label_lookup
        ≡ labelled_from s.alg.graph.cur_elements_count
            (stored get_vector (e ∷ []))
            s.alg.label_lookup

  recover_add_lem :
      (s : Recovery) (id : ℕ)
      → IsSafe m s.alg
      → s.alg.graph.cur_elements_count < m
      → id < m
      → (s' : Recovery) × (recover_add get_vector level_of visited s id ≡ some s')
        × IsStep s (record { op_type = vector_add; numeric_id = id }) s'
  unfolding recover_add is_add
  recover_add_lem s id h below listed = elim (Bool-cases (is_empty (get_vector id))) [
    | inl absent ↦ (
      fail get_vector level_of visited s id,
      rw (absent, recover_add) refl,
      record {
        safe = h;
        count = rw absent (omega arith);
        failed = rw absent refl;
        labels = rw absent refl;
      },
    )
    | inr present ↦
        let (h', returns, intact, count, room, labels, _, _, _) =
          add_point_new_returns s.alg visited (get_vector id) id (level_of id) h.intact
            (size ∙ sym h.room) (omega (arith, below, h.room)) (omega (arith, listed, h.room)) in
        (
          record s { alg = h' },
          rw (present, recover_add, returns) refl,
          record {
            safe = record {
              intact = intact;
              room = room ∙ h.room;
              looked =
                  subst₂ (λ k lookup. All (SeedInside k) lookup) (sym count) (sym labels)
                    (All-SeedInside-set s.alg.graph.cur_elements_count id s.alg.label_lookup
                      h.looked);
            };
            count = rw present count;
            failed = rw present (sym (append-nil s.failed_vector_add_ids));
            labels = rw present labels;
          },
        )
  ]

  -- An entry that adds no element.
  same-IsStep :
      (s : Recovery) (e : WalEntry) (h' : HierarchicalNsw)
      → is_add e.op_type ≡ false
      → IsSafe m h'
      → h'.graph.cur_elements_count ≡ s.alg.graph.cur_elements_count
      → h'.label_lookup ≡ s.alg.label_lookup
      → IsStep s e (record s { alg = h' })
  same-IsStep s e h' no_add h count labels = record {
    safe = h;
    count = rw no_add (omega (arith, count));
    failed = rw no_add (sym (append-nil s.failed_vector_add_ids));
    labels = rw no_add labels;
  }

  recover_update_lem :
      (s : Recovery) (id : ℕ)
      → IsSafe m s.alg
      → id < m
      → (s' : Recovery) × (recover_update get_vector level_of visited s id ≡ some s')
        × IsStep s (record { op_type = vector_update; numeric_id = id }) s'
  unfolding recover_update update_point is_add
  recover_update_lem s id h listed = elim (Bool-cases (is_empty (get_vector id))) [
    | inl absent ↦ (s, rw (absent, recover_update) refl, same-IsStep s _ s.alg refl h refl refl)
    | inr present ↦
        let (o, found) =
          get_elem?-some s.alg.label_lookup id (omega (arith, listed, h.room, h.intact.labelled)) in
        elim (Option-cases o) [
          | inl unknown ↦ (
            s,
            rw (present, recover_update, found, unknown) refl,
            same-IsStep s _ s.alg refl h refl refl,
          )
          | inr (i, known) ↦
              let at = found ∙ ap some known in
              let (h', returns, intact, sizes, labels, _, _, _) =
                update_point_returns s.alg visited (get_vector id) id i h.intact (size ∙ sym h.room)
                  at
                  (SeedInside-at s.alg.graph.cur_elements_count id s.alg.label_lookup (some i)
                    h.looked at) in
              (
                record s { alg = h' },
                rw (present, recover_update, returns) refl,
                same-IsStep s _ h' refl
                    (record {
                      intact = intact;
                      room = sizes.1 ∙ h.room;
                      looked =
                          subst₂ (λ k lookup. All (SeedInside k) lookup) (sym sizes.0) (sym labels)
                            h.looked;
                    })
                    sizes.0 labels,
              )
        ]
  ]

  abbrev marked : HierarchicalNsw → ℕ → HierarchicalNsw
  marked h i = record h {
    graph = record h.graph { is_marked_deleted = put_at h.graph.is_marked_deleted i true };
    deleted_elements_count = u64 (h.deleted_elements_count + 1);
  }

  recover_delete_lem :
      (s : Recovery) (id : ℕ)
      → IsSafe m s.alg
      → id < m
      → (s' : Recovery) × (recover_delete get_vector level_of visited s id ≡ some s')
        × IsStep s (record { op_type = vector_delete; numeric_id = id }) s'
  unfolding recover_delete mark_delete max_degree is_add
  recover_delete_lem s id h listed =
      let (o, found) =
        get_elem?-some s.alg.label_lookup id (omega (arith, listed, h.room, h.intact.labelled)) in
      elim (Option-cases o) [
        | inl unknown ↦ (
          s,
          rw (recover_delete, mark_delete, found, unknown) refl,
          same-IsStep s _ s.alg refl h refl refl,
        )
        | inr (i, known) ↦ (
          record s { alg = marked s.alg i },
          rw (recover_delete, mark_delete, found, known) refl,
          same-IsStep s _ (marked s.alg i) refl
              (record {
                intact = record {
                  well_formed = h.intact.well_formed;
                  entered = h.intact.entered;
                  labelled = h.intact.labelled;
                };
                room = h.room;
                looked = h.looked;
              })
              refl refl,
        )
      ]

  recover_entry_lem :
      (s : Recovery) (op : WalOperationType) (id : ℕ)
      → IsSafe m s.alg
      → s.alg.graph.cur_elements_count < m
      → id < m
      → let e : WalEntry = record { op_type = op; numeric_id = id } in
        (s' : Recovery) × (recover_entry get_vector level_of visited s e ≡ some s') × IsStep s e s'
  unfolding recover_entry is_add
  recover_entry_lem s vector_add id h below listed = recover_add_lem s id h below listed
  recover_entry_lem s vector_update id h below listed = recover_update_lem s id h listed
  recover_entry_lem s vector_delete id h below listed = recover_delete_lem s id h listed
  recover_entry_lem s (other op) id h below listed = (
    s,
    refl,
    same-IsStep s (record { op_type = other op; numeric_id = id }) s.alg refl h refl refl,
  )

  -- Running a log on an index in order that has room for its entries, and whose labelLookup_ has its
  -- identifiers, comes to an end with an index in order. Every addition whose vector is stored has
  -- become a node of its own, in the order of the log after the nodes there were, and its label leads
  -- to its last one; the other labels lead where they did. The identifiers of the additions whose
  -- vectors are not stored are put on the list, in the order of the log.
  pub recover_entries_lem :
      (s : Recovery) (es : List WalEntry)
      → IsSafe m s.alg
      → s.alg.graph.cur_elements_count + length es ≤ m
      → All (λ e. e.numeric_id < m) es
      → (s' : Recovery) × (recover_entries get_vector level_of visited s es ≡ some s')
        × IsSafe m s'.alg
        × (s'.alg.graph.cur_elements_count
            ≡ s.alg.graph.cur_elements_count + length (stored get_vector es))
        × (s'.alg.label_lookup
            ≡ labelled_from s.alg.graph.cur_elements_count
                (stored get_vector es)
                s.alg.label_lookup)
        × (s'.failed_vector_add_ids ≡ s.failed_vector_add_ids ++ missing get_vector es)
  unfolding recover_entries
  recover_entries_lem s [] h fits listed =
      (s, refl, h, omega arith, refl, sym (append-nil s.failed_vector_add_ids))
  recover_entries_lem s (e ∷ es) h fits listed =
      let (s₁, returns, k) = recover_entry_lem s e.op_type e.numeric_id h (omega arith) listed.0 in
      let (s₂, returns', h', count, labels, failed) =
        recover_entries_lem s₁ es k.safe (omega (arith, k.count, length-stored get_vector e))
          listed.1 in
      let n = s.alg.graph.cur_elements_count in
      (
        s₂,
        rw (returns, recover_entries) returns',
        h',
        omega (
          arith,
          count,
          k.count,
          ap length (stored-cons get_vector e es),
          length-append (stored get_vector (e ∷ [])) (stored get_vector es),
        ),
        labels
            ∙ ap₂ (λ i lookup. labelled_from i (stored get_vector es) lookup) k.count k.labels
            ∙ sym (
                labelled_from-append n (stored get_vector (e ∷ [])) (stored get_vector es)
                  s.alg.label_lookup)
            ∙ ap (λ ids. labelled_from n ids s.alg.label_lookup)
                (sym (stored-cons get_vector e es)),
        failed
            ∙ ap (λ l. l ++ missing get_vector es) k.failed
            ∙ append_assoc s.failed_vector_add_ids (missing get_vector (e ∷ []))
                (missing get_vector es)
            ∙ ap (λ l. s.failed_vector_add_ids ++ l) (sym (missing-cons get_vector e es)),
      )
