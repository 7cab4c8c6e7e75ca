-- ===== src/Wal/State.antt =====
-- The entry counter, by which recovery decides whether to read the log.
use endee.Prelude.{
  ℕ, ◌+◌, ◌^◌, ◌≤◌, ◌<◌, ◌≡◌, refl, true, some, List, [], ◌∷◌, ◌++◌, arith, ltb, length,
  length-append,
}
use endee.Wal.{
  open_wal, has_entries, entry_bytes, write_entries, log, clear, disable, enable, WalEntry, Wal,
}

-- `hasEntries` tells whether the file holds bytes.
abbrev pub IsCounted : Wal → Type 0
IsCounted w = has_entries w ≡ ltb 0 (length w.file)

pub data Call : Type 0 where
  logs : List WalEntry → Call
  clears disables enables : Call

unfoldable pub step : Wal → Call → Wal
step w (logs es) = log w es
step w clears = clear w
step w disables = disable w
step w enables = enable w

unfoldable pub run : Wal → List Call → Wal
run w [] = w
run w (c ∷ cs) = run (step w c) cs

-- How many entries a history hands to `log`.
unfoldable pub logged : List Call → ℕ
logged [] = 0
logged (logs es ∷ cs) = length es + logged cs
logged (c ∷ cs) = logged cs

log-IsCounted :
    (w : Wal) (es : List WalEntry)
    → IsCounted w
    → w.entry_count + length es < 2 ^ 64
    → IsCounted (log w es)
unfolding has_entries log write_entries entry_bytes
log-IsCounted w [] h k = ground arith
log-IsCounted w (e ∷ es) h k =
    ground (arith, length-append w.file (entry_bytes e ++ write_entries es))

entry_count-step :
    (w : Wal) (c : Call) (cs : List Call)
    → w.entry_count + logged (c ∷ cs) < 2 ^ 64
    → (step w c).entry_count + logged cs < 2 ^ 64
unfolding step log clear disable enable logged
entry_count-step w (logs es) cs h = ground arith
entry_count-step w clears cs h = omega arith
entry_count-step w disables cs h = h
entry_count-step w enables cs h = h

step-IsCounted :
    (w : Wal) (c : Call) (cs : List Call)
    → IsCounted w
    → w.entry_count + logged (c ∷ cs) < 2 ^ 64
    → IsCounted (step w c)
unfolding step clear disable enable has_entries logged
step-IsCounted w (logs es) cs v h = log-IsCounted w es v (omega arith)
step-IsCounted w clears cs v h = refl
step-IsCounted w disables cs v h = v
step-IsCounted w enables cs v h = v

run-IsCounted :
    (w : Wal) (cs : List Call)
    → IsCounted w
    → w.entry_count + logged cs < 2 ^ 64
    → IsCounted (run w cs)
unfolding run
run-IsCounted w [] v h = v
run-IsCounted w (c ∷ cs) v h =
    run-IsCounted (step w c) cs (step-IsCounted w c cs v h) (entry_count-step w c cs h)

open_wal-IsCounted :
    (file : List ℕ) (w : Wal)
    → open_wal true file ≡ some w
    → IsCounted w × (w.entry_count ≤ 1) × (w.file ≡ file)
unfolding open_wal has_entries
open_wal-IsCounted file w h = ground arith

-- After any history of calls on a log just opened that logs fewer than 2 ^ 64 - 1 entries,
-- `hasEntries` is true exactly when the file holds bytes.
pub run-open_wal-IsCounted :
    (file : List ℕ) (w : Wal) (cs : List Call)
    → open_wal true file ≡ some w
    → logged cs + 1 < 2 ^ 64
    → has_entries (run w cs) ≡ ltb 0 (length (run w cs).file)
run-open_wal-IsCounted file w cs opened few =
    let start = open_wal-IsCounted file w opened in run-IsCounted w cs start.0 (omega arith)
