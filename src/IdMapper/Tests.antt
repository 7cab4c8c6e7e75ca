-- ===== src/IdMapper/Tests.antt =====
-- The identifier map at concrete inputs.
use Prim.Native.String.{String}
use endee.Prelude.{
  ℕ, ◌≤◌, ◌<◌, ◌≡◌, refl, Bool, true, false, none, some, List, [], ◌∷◌, ◌++◌, map, arith, Distinct,
  length, All,
}
use endee.Mdbx.{Rows, row, rows_table}
use endee.IdMapper.{
  next_id_key, deleted_ids_key, iota, count_unassigned, assign_deleted, results, nonzero, get_id,
  next_id, get_next_ids, deleted_list, get_deleted_ids, lookup_ids, try_write, log_ids, write_batch,
  assign_batch, create_ids_batch, delete_points, Faults, Mapper,
}
use endee.IdMapper.Keys.{IsStored}
use endee.IdMapper.Batch.{
  no_faults, create_ids_batch_returns, create_ids_batch_keeps, create_ids_batch_fails,
}
use endee.IdMapper.Numbers.{get_next_ids_lem, get_deleted_ids_lem}
use endee.IdMapper.Delete.{delete_points_lem}

-- Numbers 1 and 2 are mapped, and 3 and 4 are free for reuse.
abbrev start : Rows
start =
    (next_id_key, 5 ∷ [])
    ∷ ((deleted_ids_key, 3 ∷ (4 ∷ [])) ∷ (("apple", 1 ∷ []) ∷ (("pear", 2 ∷ []) ∷ [])))

abbrev mapper : Mapper rows_table
mapper = record { db = start; wal = none }

abbrev batch : List String
batch = "pear" ∷ ("fig" ∷ ("plum" ∷ ("kiwi" ∷ [])))

returned_ids :
    (create_ids_batch rows_table true no_faults mapper batch).0
    ≡ some ((2, false) ∷ ((3, false) ∷ ((4, false) ∷ ((5, true) ∷ []))))
unfolding create_ids_batch assign_batch write_batch lookup_ids count_unassigned assign_deleted
    get_deleted_ids get_next_ids next_id iota log_ids try_write results
returned_ids = refl

create_ids_batch_returns_example :
    (rows : List (ℕ × Bool)) × ((create_ids_batch rows_table true no_faults mapper batch).0
      ≡ some rows)
    × (map (get_id rows_table (create_ids_batch rows_table true no_faults mapper batch).1.db) batch
        ≡ map (λ r. r.0) rows)
    × All (IsStored rows_table (create_ids_batch rows_table true no_faults mapper batch).1.db) batch
unfolding deleted_list
create_ids_batch_returns_example =
    create_ids_batch_returns rows_table true mapper batch (refl, (refl, (refl, (refl, tt))))
      ((refl, refl), ((refl, refl), ((refl, refl), ((refl, refl), tt)))) (omega arith)

create_ids_batch_keeps_example :
    get_id rows_table (create_ids_batch rows_table true no_faults mapper batch).1.db "pear" ≡ 2
unfolding deleted_list get_id
create_ids_batch_keeps_example =
    create_ids_batch_keeps rows_table true mapper batch "pear" (refl, (refl, (refl, (refl, tt))))
      ((refl, refl), ((refl, refl), ((refl, refl), ((refl, refl), tt)))) (omega arith) (refl, refl)
      refl

abbrev disk_full : Faults
disk_full = record { lookup_fails = false; next_ids_fails = false; write_fails = true }

create_ids_batch_fails_example :
    row (create_ids_batch rows_table true disk_full mapper batch).1.db "fig" ≡ none
unfolding create_ids_batch assign_batch write_batch lookup_ids count_unassigned assign_deleted
    get_deleted_ids get_next_ids next_id iota log_ids
create_ids_batch_fails_example =
    create_ids_batch_fails rows_table true disk_full mapper batch "fig" refl (refl, refl)

delete_points_lem_example :
    ((delete_points rows_table start ("pear" ∷ ("fig" ∷ []))).0 ≡ 2 ∷ (0 ∷ []))
    × (deleted_list rows_table (delete_points rows_table start ("pear" ∷ ("fig" ∷ []))).1
        ≡ 3 ∷ (4 ∷ (2 ∷ [])))
    × (row (delete_points rows_table start ("pear" ∷ ("fig" ∷ []))).1 "apple" ≡ some (1 ∷ []))
unfolding get_id deleted_list nonzero
delete_points_lem_example =
    delete_points_lem rows_table start ("pear" ∷ ("fig" ∷ [])) "apple" (refl, (refl, tt))
      ((refl, refl), ((refl, refl), tt)) refl

get_next_ids_lem_example :
    Distinct (get_next_ids rows_table start 2).0
    × All (λ i. (5 ≤ i) × (i < 7)) (get_next_ids rows_table start 2).0
    × (next_id rows_table (get_next_ids rows_table start 2).1 ≡ 7)
unfolding next_id
get_next_ids_lem_example = get_next_ids_lem rows_table start 2 (omega arith)

get_deleted_ids_lem_example :
    ((get_deleted_ids rows_table start 1).0
        ++ deleted_list rows_table (get_deleted_ids rows_table start 1).1
      ≡ 3 ∷ (4 ∷ []))
    × (length (get_deleted_ids rows_table start 1).0 ≡ 1)
unfolding deleted_list
get_deleted_ids_lem_example = get_deleted_ids_lem rows_table start 1
