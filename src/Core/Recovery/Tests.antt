-- ===== src/Core/Recovery/Tests.antt =====
-- A recovery at a concrete input.
use endee.Prelude.{
  ℕ, ◌≡◌, refl, ◌⊎◌, true, false, none, some, List, [], ◌∷◌, arith, ◌==◌, if◌then◌else◌, replicate,
}
use endee.Mdbx.{rows_table}
use endee.Hnsw.Visited.{VisitedList}
use endee.Hnsw.Graph.{Bytes}
use endee.Hnsw.Knn.{HierarchicalNsw}
use endee.Hnsw.Insert.Intact.{IsIntact}
use endee.Wal.{is_add, has_entries, write_entries, clear, vector_add, WalEntry, Wal}
use endee.Wal.RoundTrip.{has_add, before_add}
use endee.Core.Recovery.{recover_entries, recover_from_wal, Recovery, recovered, thrown}
use endee.Core.Recovery.Safe.{IsSafe}
use endee.Core.Recovery.Answers.{recover_entries_lem}
use endee.Core.Recovery.Lost.{recover_from_wal_lem}

abbrev no_links : HierarchicalNsw
no_links = record {
  graph = record {
    max_elements = 3;
    cur_elements_count = 0;
    m = 1;
    m0 = 2;
    links = λ l i. [];
    upper = λ i. none;
    stored = λ i. some (i ∷ []);
    is_marked_deleted = λ i. false;
    external_label = λ i. i;
    sim_func = λ x y. 0;
  };
  entry_point = 0;
  max_level = 0;
  deleted_elements_count = 0;
  ef_construction = 2;
  label_lookup = none ∷ (none ∷ (none ∷ []));
  levels = λ i. 0;
}

abbrev three_places : VisitedList
three_places = record { cur_v = 1; mass = replicate 3 0 }

no_links-IsSafe : IsSafe 3 no_links
no_links-IsSafe = record {
  intact = record {
    well_formed = λ l i. (omega arith, tt);
    entered = omega arith;
    labelled = refl;
  };
  room = refl;
  looked = (tt, (tt, (tt, tt)));
}

-- The vector of identifier 1 was stored before the crash, that of 2 was not.
abbrev stored_vector : ℕ → Bytes
stored_vector id = if id == 1 then 1 ∷ [] else []

abbrev crashed : List WalEntry
crashed =
    record { op_type = vector_add; numeric_id = 1 }
    ∷ (record { op_type = vector_add; numeric_id = 2 } ∷ [])

recover_entries_lem_example :
    (s' : Recovery) × (recover_entries stored_vector
        (λ id. 0)
        three_places
        (record { alg = no_links; failed_vector_add_ids = [] })
        crashed
      ≡ some s')
    × IsSafe 3 s'.alg
    × (s'.alg.graph.cur_elements_count ≡ 1)
    × (s'.alg.label_lookup ≡ none ∷ (some 0 ∷ (none ∷ [])))
    × (s'.failed_vector_add_ids ≡ 2 ∷ [])
unfolding is_add
recover_entries_lem_example =
    recover_entries_lem stored_vector (λ id. 0) three_places 3 refl
      (record { alg = no_links; failed_vector_add_ids = [] }) crashed no_links-IsSafe (omega arith)
      (omega arith, (omega arith, tt))

abbrev left_log : Wal
left_log = record { file = write_entries crashed; enabled = true; entry_count = 1 }

recover_from_wal_lem_example :
    ((recover_from_wal rows_table 0 0 1000 stored_vector (λ id. 0) three_places no_links left_log []
        ≡ thrown)
      × (has_add crashed ≡ true))
    ⊎ ((alg' : HierarchicalNsw) × (recover_from_wal rows_table 0 0 1000 stored_vector
            (λ id. 0)
            three_places
            no_links
            left_log
            []
          ≡ recovered alg' (clear left_log) [])
        × IsIntact alg')
unfolding has_entries before_add is_add
recover_from_wal_lem_example =
    recover_from_wal_lem rows_table 0 0 1000 stored_vector (λ id. 0) three_places no_links left_log
      [] crashed no_links-IsSafe (omega arith) tt (refl, refl)
      ((tt, omega arith), ((tt, omega arith), tt)) (omega arith) refl
