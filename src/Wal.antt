-- ===== src/Wal.antt =====
-- src/storage/wal.hpp: the write-ahead log of one index.
-- The file is the list of its bytes. `std::ofstream` is taken to write what it is given; the
-- largest string that `resize` can allocate is a parameter of `read_entries`.
pub mod Parse
pub mod RoundTrip
pub mod State
mod Tests
use endee.Prelude.{
  ℕ, zero, suc, ◌+◌, ◌-◌, ◌/◌, max, Bool, true, false, not, ◌||◌, Option, none, some, List, [], ◌∷◌,
  ◌++◌, ltb, leb, ◌==◌, if◌then◌else◌, is_empty, length, set, take, drop, u64, le_bytes,
  of_le_bytes,
}

-- `other` holds what a `static_cast` makes of a byte that names no operation.
pub data WalOperationType : Type 0 where
  vector_add vector_delete vector_update : WalOperationType
  other : ℕ → WalOperationType

pub record WalEntry : Type 0 where
  pub op_type : WalOperationType
  pub numeric_id : ℕ

unfoldable pub to_byte : WalOperationType → ℕ
to_byte vector_add = 1
to_byte vector_delete = 2
to_byte vector_update = 3
to_byte (other b) = b

unfoldable pub of_byte : ℕ → WalOperationType
of_byte b =
    if b == 1
    then vector_add
    else if b == 2
    then vector_delete
    else if b == 3
    then vector_update
    else other b

unfoldable pub is_add : WalOperationType → Bool
is_add vector_add = true
is_add vector_delete = false
is_add vector_update = false
is_add (other b) = false

pub record Wal : Type 0 where
  pub file : List ℕ
  pub enabled : Bool
  pub entry_count : ℕ

-- The constructor; `opened` tells whether the file could be opened. `none` is its exception.
unfoldable pub open_wal : Bool → List ℕ → Option Wal
open_wal opened file =
    if opened
    then some
        (record { file = file; enabled = true; entry_count = if ltb 0 (length file) then 1 else 0 })
    else none

unfoldable pub has_entries : Wal → Bool
has_entries w = ltb 0 w.entry_count

unfoldable pub entry_bytes : WalEntry → List ℕ
entry_bytes e = to_byte e.op_type ∷ le_bytes 4 e.numeric_id

unfoldable pub write_entries : List WalEntry → List ℕ
write_entries [] = []
write_entries (e ∷ es) = entry_bytes e ++ write_entries es

unfoldable pub log : Wal → List WalEntry → Wal
log w entries = if not w.enabled || is_empty entries then w else record w {
  file = w.file ++ write_entries entries;
  entry_count = u64 (w.entry_count + length entries);
}

unfoldable pub clear : Wal → Wal
clear w = record w { file = []; entry_count = 0 }

unfoldable pub disable : Wal → Wal
disable w = record w { enabled = false }

unfoldable pub enable : Wal → Wal
enable w = record w { enabled = true }

-- What `readEntries` returns, or the exception of `string_id.resize`.
pub data ReadResult : Type 0 where
  entries : List WalEntry → ReadResult
  bad_alloc out_of_fuel : ReadResult

-- `infile.read` of `n` bytes; `none` when it sets `eof`.
unfoldable pub read : ℕ → List ℕ → Option (List ℕ × List ℕ)
read n file = if leb n (length file) then some (take n file, drop n file) else none

-- The string that is read behind a VECTOR_ADD: `none` when `eof` ends the loop.
pub data StringRead : Type 0 where
  at_eof too_long : StringRead
  past : List ℕ → StringRead

unfoldable pub read_string : ℕ → List ℕ → StringRead
read_string max_len file = elim (read 8 file) [
  | none ↦ at_eof
  | some (len, file') ↦
      if ltb max_len (of_le_bytes len)
      then too_long
      else elim (read (of_le_bytes len) file') [ none ↦ at_eof | some (_, rest) ↦ past rest ]
]

-- The operation and the identifier, before the test for VECTOR_ADD.
unfoldable pub read_entry : List ℕ → Option (WalEntry × List ℕ)
read_entry file = elim (read 1 file) [
  | none ↦ none
  | some (op, file') ↦ elim (read 4 file') [
    | none ↦ none
    | some (id, rest) ↦
        some (record { op_type = of_byte (of_le_bytes op); numeric_id = of_le_bytes id }, rest)
  ]
]

-- One round takes five bytes at least.
unfoldable pub read_loop : ℕ → ℕ → List ℕ → List WalEntry → ReadResult
read_loop max_len zero file acc = out_of_fuel
read_loop max_len (suc fuel) file acc = elim (read_entry file) [
  | none ↦ entries acc
  | some (e, rest) ↦ elim (is_add e.op_type) [
    | false ↦ read_loop max_len fuel rest (acc ++ e ∷ [])
    | true ↦ elim (read_string max_len rest) [
      | at_eof ↦ entries acc
      | too_long ↦ bad_alloc
      | past rest' ↦ read_loop max_len fuel rest' (acc ++ e ∷ [])
    ]
  ]
]

unfoldable pub read_entries : ℕ → List ℕ → ReadResult
read_entries max_len file = read_loop max_len (suc (length file)) file []
