-- ===== src/Wal/Tests.antt =====
-- The log at concrete inputs.
use endee.Prelude.{◌≡◌, refl, ◌⊎◌, true, [], ◌∷◌, arith, ltb, length}
use endee.Wal.{
  to_byte, of_byte, is_add, open_wal, has_entries, entry_bytes, write_entries, log, read,
  read_string, read_entry, read_loop, read_entries, vector_add, vector_delete, vector_update,
  WalEntry, Wal, entries, bad_alloc,
}
use endee.Wal.RoundTrip.{has_add, before_add, Holds, read_entries-log}
use endee.Wal.State.{run, logged, run-open_wal-IsCounted, logs, clears}

abbrev deleted : WalEntry
deleted = record { op_type = vector_delete; numeric_id = 7 }

abbrev updated : WalEntry
updated = record { op_type = vector_update; numeric_id = 70_000 }

abbrev added : WalEntry
added = record { op_type = vector_add; numeric_id = 9 }

abbrev opened : Wal
opened = record { file = []; enabled = true; entry_count = 0 }

opened-Holds : Holds opened []
unfolding write_entries
opened-Holds = (refl, refl)

logged_bytes : (log opened (updated ∷ [])).file ≡ 3 ∷ 112 ∷ 17 ∷ 1 ∷ 0 ∷ []
unfolding log write_entries entry_bytes to_byte
logged_bytes = refl

-- An addition between a deletion and an update: what follows it is lost.
read_entries-log_example :
    (read_entries 1000 (log opened (deleted ∷ (added ∷ (updated ∷ [])))).file
      ≡ entries (before_add (deleted ∷ (added ∷ (updated ∷ [])))))
    ⊎ ((read_entries 1000 (log opened (deleted ∷ (added ∷ (updated ∷ [])))).file ≡ bad_alloc)
        × (has_add (deleted ∷ (added ∷ (updated ∷ []))) ≡ true))
read_entries-log_example =
    read_entries-log 1000 opened [] (deleted ∷ (added ∷ (updated ∷ []))) opened-Holds (omega arith)
      (omega arith)

addition_lost : read_entries 1000 (log opened (added ∷ [])).file ≡ entries []
unfolding read_entries read_loop read_entry read_string read log write_entries entry_bytes to_byte
    of_byte is_add
addition_lost = refl

two_more_throw :
    read_entries 1000 (log opened (added ∷ (deleted ∷ (updated ∷ [])))).file ≡ bad_alloc
unfolding read_entries read_loop read_entry read_string read log write_entries entry_bytes to_byte
    of_byte is_add
two_more_throw = refl

run-open_wal-IsCounted_example :
    has_entries (run opened (logs (deleted ∷ []) ∷ (clears ∷ [])))
    ≡ ltb 0 (length (run opened (logs (deleted ∷ []) ∷ (clears ∷ []))).file)
unfolding open_wal logged
run-open_wal-IsCounted_example =
    run-open_wal-IsCounted [] opened (logs (deleted ∷ []) ∷ (clears ∷ [])) refl (omega arith)
