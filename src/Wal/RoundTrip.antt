-- ===== src/Wal/RoundTrip.antt =====
-- What `readEntries` recovers of what `log` wrote.
use mathlib.Core.List.{append_assoc, append-nil}
use endee.Prelude.{
  ℕ, zero, suc, ◌*◌, ◌^◌, ◌<◌, ◌≡◌, refl, sym, ◌⊎◌, inl, inr, Bool, true, false, ◌||◌, none, List,
  [], ◌∷◌, ◌++◌, arith, ltb, if◌then◌else◌, Bool-cases, length, take, drop, All, of_le_bytes,
}
use endee.Wal.{
  is_add, entry_bytes, write_entries, log, read_string, read_entry, read_loop, read_entries,
  WalEntry, Wal, entries, bad_alloc, at_eof, too_long,
}
use endee.Wal.Parse.{
  IsEntry, to_byte_bounds, read-append, read_short, length-write_entries, read_entry-entry_bytes,
}

unfoldable pub has_add : List WalEntry → Bool
has_add [] = false
has_add (e ∷ es) = is_add e.op_type || has_add es

-- The entries in front of the first VECTOR_ADD.
unfoldable pub before_add : List WalEntry → List WalEntry
before_add [] = []
before_add (e ∷ es) = if is_add e.op_type then [] else e ∷ before_add es

-- A round that meets another operation keeps the entry and goes on behind it.
read_loop_step :
    (max_len fuel : ℕ) (e : WalEntry) (rest : List ℕ) (acc : List WalEntry)
    → IsEntry e
    → is_add e.op_type ≡ false
    → read_loop max_len (suc fuel) (entry_bytes e ++ rest) acc
      ≡ read_loop max_len fuel rest (acc ++ e ∷ [])
unfolding read_loop
read_loop_step max_len fuel e rest acc h no_add =
    rw (read_entry-entry_bytes e rest h, no_add, read_loop)

-- A length that the bytes left cannot have.
read_string_huge :
    (max_len : ℕ) (len rest : List ℕ)
    → length len ≡ 8
    → length rest < of_le_bytes len
    → (read_string max_len (len ++ rest) ≡ at_eof) ⊎ (read_string max_len (len ++ rest) ≡ too_long)
unfolding read_string
read_string_huge max_len len rest e h = elim (Bool-cases (ltb max_len (of_le_bytes len))) [
  | inl over ↦ inr (rw (← e, read-append len rest, read_string) (rw over))
  | inr fits ↦
      inl (
        rw (← e, read-append len rest, read_string)
          (rw (fits, read_short (of_le_bytes len) rest h)))
]

-- Behind a VECTOR_ADD a length of eight bytes is read, which `log` never wrote: fewer bytes are
-- left, or the length is 2 ^ 40 at least.
read_string-write_entries :
    (max_len : ℕ) (es : List WalEntry)
    → All IsEntry es
    → 5 * length es < 2 ^ 40
    → (read_string max_len (write_entries es) ≡ at_eof)
      ⊎ (read_string max_len (write_entries es) ≡ too_long)
unfolding read_string write_entries entry_bytes
read_string-write_entries max_len [] h short = inl (rw (read_short 8 [] (omega arith), read_string))
read_string-write_entries max_len (e ∷ []) h short =
    inl (rw (read_short 8 (write_entries (e ∷ [])) (omega arith), read_string))
read_string-write_entries max_len (e ∷ (e' ∷ es)) h short =
    read_string_huge max_len (take 8 (write_entries (e ∷ (e' ∷ es))))
      (drop 8 (write_entries (e ∷ (e' ∷ es)))) refl
      (omega (arith, to_byte_bounds e'.op_type h.1.0.0, length-write_entries es))

read_loop_add :
    (max_len fuel : ℕ) (e : WalEntry) (es acc : List WalEntry)
    → IsEntry e
    → All IsEntry es
    → 5 * length es < 2 ^ 40
    → is_add e.op_type ≡ true
    → (read_loop max_len (suc fuel) (entry_bytes e ++ write_entries es) acc ≡ entries acc)
      ⊎ (read_loop max_len (suc fuel) (entry_bytes e ++ write_entries es) acc ≡ bad_alloc)
unfolding read_loop
read_loop_add max_len fuel e es acc h hs short add =
    elim (read_string-write_entries max_len es hs short) [
      | inl x ↦ inl (rw (read_entry-entry_bytes e (write_entries es) h, add, x, read_loop))
      | inr x ↦ inr (rw (read_entry-entry_bytes e (write_entries es) h, add, x, read_loop))
    ]

read_entry_empty : read_entry [] ≡ none
unfolding read_entry
read_entry_empty = rw (read_short 1 [] (omega arith), read_entry)

read_loop-write_entries :
    (max_len fuel : ℕ) (es acc : List WalEntry)
    → All IsEntry es
    → 5 * length es < 2 ^ 40
    → length es < fuel
    → (read_loop max_len fuel (write_entries es) acc ≡ entries (acc ++ before_add es))
      ⊎ ((read_loop max_len fuel (write_entries es) acc ≡ bad_alloc) × (has_add es ≡ true))
unfolding write_entries before_add has_add read_loop
read_loop-write_entries max_len zero es acc h short fuel_enough = absurd (omega arith)
read_loop-write_entries max_len (suc fuel) [] acc h short fuel_enough =
    inl (rw (read_entry_empty, append-nil acc, read_loop))
read_loop-write_entries max_len (suc fuel) (e ∷ es) acc h short fuel_enough =
    elim (Bool-cases (is_add e.op_type)) [
      | inl add ↦ elim (read_loop_add max_len fuel e es acc h.0 h.1 (omega arith) add) [
        | inl x ↦ inl (rw (add, append-nil acc) x)
        | inr x ↦ inr (x, rw add)
      ]
      | inr no_add ↦
          rw (read_loop_step max_len fuel e (write_entries es) acc h.0 no_add, no_add)
            (rw (append_assoc acc (e ∷ []) (before_add es)) at (
              read_loop-write_entries max_len fuel es (acc ++ e ∷ []) h.1 (omega arith)
                (omega arith)))
    ]

before_add_all : (es : List WalEntry) → has_add es ≡ false → before_add es ≡ es
unfolding has_add before_add
before_add_all [] h = refl
before_add_all (e ∷ es) h = ground (arith, before_add_all es)

write_entries-append :
    (es fs : List WalEntry) → write_entries (es ++ fs) ≡ write_entries es ++ write_entries fs
unfolding write_entries
write_entries-append [] fs = refl
write_entries-append (e ∷ es) fs =
    rw (write_entries-append es fs)
      (sym (append_assoc (entry_bytes e) (write_entries es) (write_entries fs)))

-- The file of an enabled log holds the entries `es`, in order.
abbrev pub Holds : Wal → List WalEntry → Type 0
Holds w es = (w.enabled ≡ true) × (w.file ≡ write_entries es)

pub log-Holds : (w : Wal) (old es : List WalEntry) → Holds w old → Holds (log w es) (old ++ es)
unfolding log write_entries
log-Holds w old [] h = ground (arith, append-nil old)
log-Holds w old (e ∷ es) h = ground (arith, write_entries-append old (e ∷ es))

-- Reading back a log of well-formed entries, shorter than 2 ^ 40 bytes, gives the entries in
-- front of its first VECTOR_ADD; or `resize` throws, and then a VECTOR_ADD was logged.
pub read_entries-log :
    (max_len : ℕ) (w : Wal) (old es : List WalEntry)
    → Holds w old
    → All IsEntry (old ++ es)
    → 5 * length (old ++ es) < 2 ^ 40
    → (read_entries max_len (log w es).file ≡ entries (before_add (old ++ es)))
      ⊎ ((read_entries max_len (log w es).file ≡ bad_alloc) × (has_add (old ++ es) ≡ true))
unfolding read_entries
read_entries-log max_len w old es holds h short = rw ((log-Holds w old es holds).1) (
    read_loop-write_entries max_len (suc (length (write_entries (old ++ es)))) (old ++ es) [] h
      short (omega (arith, length-write_entries (old ++ es))))

-- A log of well-formed deletions and updates, shorter than 2 ^ 40 bytes, reads back as all that
-- was logged, in order, whatever the allocator allows.
pub read_entries-log_no_add :
    (max_len : ℕ) (w : Wal) (old es : List WalEntry)
    → Holds w old
    → All IsEntry (old ++ es)
    → 5 * length (old ++ es) < 2 ^ 40
    → has_add (old ++ es) ≡ false
    → read_entries max_len (log w es).file ≡ entries (old ++ es)
read_entries-log_no_add max_len w old es holds h short no_add =
    elim (read_entries-log max_len w old es holds h short) [
      | inl x ↦ rw (before_add_all (old ++ es) no_add) at x
      | inr x ↦ absurd (cc (x.1))
    ]
