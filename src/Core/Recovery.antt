-- ===== src/Core/Recovery.antt =====
-- `recoverFromWAL` of src/core/ndd.hpp: the log of an index is run again on its graph. `get_vector` is
-- that of the vector storage, empty where there is none; `level_of` gives the level that is drawn for
-- an identifier; `visited` is the list of the pool that the searches share. What a
-- write does at a level that a node lacks is left out here as in Hnsw/Graph.
pub mod Safe
pub mod Answers
pub mod Lost
mod Tests
use endee.Prelude.{
  ℕ, zero, suc, ◌+◌, ◌-◌, ◌/◌, ◌^◌, max, ap, not, Option, none, some, List, [], ◌∷◌, ◌++◌, ltb,
  if◌then◌else◌, is_empty, set, u64,
}
use endee.Hnsw.Visited.{mark, VisitedList}
use endee.Hnsw.Graph.{Bytes}
use endee.Hnsw.Knn.{HierarchicalNsw}
use endee.Hnsw.Insert.{
  mark_delete, add_point_new, update_point, inserted, too_many_elements, label_not_found,
  out_of_bounds, no_fuel,
}
use endee.Mdbx.{row, Table}
use endee.IdMapper.{reclaim_failed_ids}
use endee.Wal.{
  has_entries, log, clear, read, read_entries, vector_add, vector_delete, vector_update, other,
  WalEntry, Wal, entries, bad_alloc, out_of_fuel,
}

pub record Recovery : Type 0 where
  pub alg : HierarchicalNsw
  pub failed_vector_add_ids : List ℕ

module _ (get_vector : ℕ → Bytes) (level_of : ℕ → ℕ) (visited : VisitedList) where
  abbrev pub fail : Recovery → ℕ → Recovery
  fail s id = record s { failed_vector_add_ids = s.failed_vector_add_ids ++ id ∷ [] }

  -- An exception of an addition puts the identifier on the list, and one of another operation is
  -- passed over. `none` is a run that does not come back: an identifier beyond labelLookup_, or a
  -- search without an end.
  unfoldable pub recover_add : Recovery → ℕ → Option Recovery
  unfolding add_point_new
  recover_add s id =
      if is_empty (get_vector id)
      then some (fail s id)
      else elim (add_point_new s.alg visited (get_vector id) id (level_of id)) [
        | inserted h ↦ some (record s { alg = h })
        | too_many_elements ↦ some (fail s id)
        | label_not_found ↦ some s
        | out_of_bounds ↦ none
        | no_fuel ↦ none
      ]

  unfoldable pub recover_update : Recovery → ℕ → Option Recovery
  unfolding update_point
  recover_update s id =
      if is_empty (get_vector id)
      then some s
      else elim (update_point s.alg visited (get_vector id) id) [
        | inserted h ↦ some (record s { alg = h })
        | too_many_elements ↦ some s
        | label_not_found ↦ some s
        | out_of_bounds ↦ none
        | no_fuel ↦ none
      ]

  unfoldable pub recover_delete : Recovery → ℕ → Option Recovery
  unfolding mark_delete
  recover_delete s id = elim (mark_delete s.alg id) [
    | none ↦ none
    | some none ↦ some s
    | some (some h) ↦ some (record s { alg = h })
  ]

  unfoldable pub recover_entry : Recovery → WalEntry → Option Recovery
  unfolding recover_add recover_update recover_delete
  recover_entry s e = elim e.op_type [
    | vector_add ↦ recover_add s e.numeric_id
    | vector_update ↦ recover_update s e.numeric_id
    | vector_delete ↦ recover_delete s e.numeric_id
    | other op ↦ some s
  ]

  unfoldable pub recover_entries : Recovery → List WalEntry → Option Recovery
  unfolding recover_entry
  recover_entries s [] = some s
  recover_entries s (e ∷ es) = elim (recover_entry s e) [
    | none ↦ none
    | some s' ↦ recover_entries s' es
  ]

-- `resize` of labelLookup_, filled up with INVALID_ID.
unfoldable pub resize : ℕ → List (Option ℕ) → List (Option ℕ)
resize zero lookup = []
resize (suc n) [] = none ∷ resize n []
resize (suc n) (o ∷ lookup) = o ∷ resize n lookup

-- `resizeIndex` of src/hnsw/hnswalg.h, which throws where the elements would not fit.
unfoldable pub resize_index : HierarchicalNsw → ℕ → Option HierarchicalNsw
unfolding resize
resize_index h new_max_elements =
    if ltb new_max_elements h.graph.cur_elements_count
    then none
    else some (record h {
      label_lookup = resize new_max_elements h.label_lookup;
      graph = record h.graph { max_elements = new_max_elements };
    })

-- `saveIndexInternal` without the files: more room, and an empty log. `trigger` and `increment` are
-- MAX_ELEMENTS_INCREMENT_TRIGGER and MAX_ELEMENTS_INCREMENT of src/utils/settings.hpp.
unfoldable pub save_index_internal : ℕ → ℕ → HierarchicalNsw → Wal → HierarchicalNsw × Wal
unfolding resize_index clear
save_index_internal trigger increment h w =
    let g = h.graph in
    let remaining_capacity = u64 (g.max_elements + (2 ^ 64 - g.cur_elements_count)) in
    let resized : HierarchicalNsw =
      if ltb remaining_capacity trigger
      then elim (resize_index h (u64 (g.max_elements + increment))) [ none ↦ h | some h' ↦ h' ]
      else h in
    (resized, clear w)

-- `thrown` is an exception of `readEntries`; `no_result` is a run that does not come back.
pub data RecoverOutcome (Db : Type 0) : Type 0 where
  recovered : HierarchicalNsw → Wal → Db → RecoverOutcome Db
  thrown no_result : RecoverOutcome Db

module _ (T : Table) (trigger increment max_len : ℕ) where
  unfoldable pub recover_from_wal :
      (ℕ → Bytes) → (ℕ → ℕ) → VisitedList → HierarchicalNsw → Wal → T.Db → RecoverOutcome T.Db
  unfolding recover_entries read_entries has_entries reclaim_failed_ids save_index_internal
  recover_from_wal get_vector level_of visited alg w db =
      if not (has_entries w) then recovered alg w db else elim (read_entries max_len w.file) [
        | bad_alloc ↦ thrown
        | out_of_fuel ↦ no_result
        | entries es ↦
            elim (recover_entries get_vector level_of visited
              (record { alg = alg; failed_vector_add_ids = [] }) es) [
                | none ↦ no_result
                | some s ↦
                    let (saved, cleared) = save_index_internal trigger increment s.alg w in
                    recovered saved cleared (reclaim_failed_ids T db s.failed_vector_add_ids)
              ]
      ]
