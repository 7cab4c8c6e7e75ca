-- ===== src/Wal/Parse.antt =====
-- What one round of `readEntries` makes of the bytes that `log` writes.
use endee.Prelude.{
  ℕ, ◌*◌, ◌^◌, ◌≤◌, ◌<◌, ◌≡◌, refl, List, [], ◌∷◌, ◌++◌, some, none, arith, length, le_bytes,
  of_le_bytes, length-append, of_le_bytes-le_bytes, take-append, drop-append,
}
use endee.Wal.{
  WalOperationType, vector_add, vector_delete, vector_update, other, WalEntry, to_byte, of_byte,
  entry_bytes, write_entries, read, read_entry,
}

abbrev pub IsNamed : WalOperationType → Type 0
IsNamed (other b) = ⊥
IsNamed _ = Unit {0}

-- The operation is one of the three, and the identifier fits its four bytes.
abbrev pub IsEntry : WalEntry → Type 0
IsEntry e = IsNamed e.op_type × (e.numeric_id < 2 ^ 32)

of_byte-to_byte :
    (op : WalOperationType) → IsNamed op → of_byte (of_le_bytes (to_byte op ∷ [])) ≡ op
unfolding to_byte of_byte
of_byte-to_byte vector_add h = refl
of_byte-to_byte vector_delete h = refl
of_byte-to_byte vector_update h = refl
of_byte-to_byte (other b) h = absurd h

pub to_byte_bounds : (op : WalOperationType) → IsNamed op → (1 ≤ to_byte op) × (to_byte op < 4)
unfolding to_byte
to_byte_bounds vector_add h = omega arith
to_byte_bounds vector_delete h = omega arith
to_byte_bounds vector_update h = omega arith
to_byte_bounds (other b) h = absurd h

-- A read of as many bytes as stand in front takes just those.
pub read-append : (xs ys : List ℕ) → read (length xs) (xs ++ ys) ≡ some (xs, ys)
unfolding read
read-append xs ys = rw (take-append xs ys, drop-append xs ys) (ground (arith, length-append xs ys))

pub read_short : (n : ℕ) (xs : List ℕ) → length xs < n → read n xs ≡ none
unfolding read
read_short n xs h = ground arith

pub length-entry_bytes : (e : WalEntry) → length (entry_bytes e) ≡ 5
unfolding entry_bytes
length-entry_bytes e = refl

pub length-write_entries : (es : List WalEntry) → length (write_entries es) ≡ 5 * length es
unfolding write_entries
length-write_entries [] = omega arith
length-write_entries (e ∷ es) = omega (
  arith,
  length-append (entry_bytes e) (write_entries es),
  length-entry_bytes e,
  length-write_entries es,
)

-- One entry comes back as it was written.
pub read_entry-entry_bytes :
    (e : WalEntry) (rest : List ℕ) → IsEntry e → read_entry (entry_bytes e ++ rest) ≡ some (e, rest)
unfolding read_entry entry_bytes
read_entry-entry_bytes e rest h = ground (
  arith,
  read-append (to_byte e.op_type ∷ []) (le_bytes 4 e.numeric_id ++ rest),
  read-append (le_bytes 4 e.numeric_id) rest,
  of_le_bytes-le_bytes 4 e.numeric_id (omega arith),
  of_byte-to_byte e.op_type h.0,
)
