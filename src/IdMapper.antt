-- ===== src/IdMapper.antt =====
-- src/storage/id_mapper.hpp: the map from the users' string identifiers to numbers, in one table
-- that also holds the next number and the numbers free for reuse.
-- Each transaction is one step. `Faults` says which of the transactions of `create_ids_batch`
-- fail; those of the other operations do not.
pub mod Keys
pub mod Delete
pub mod Assign
pub mod Write
pub mod Batch
pub mod Numbers
mod Tests
use Prim.Native.String.{String}
use endee.Prelude.{
  ℕ, zero, suc, ◌+◌, ◌-◌, ◌*◌, ◌/◌, min, max, ap, Bool, true, false, not, ◌&&◌, Option, none, some,
  List, [], ◌∷◌, ◌++◌, map, ltb, ◌==◌, if◌then◌else◌, is_empty, length, get_or, take, drop, u32,
}
use endee.Mdbx.{Table}
use endee.Wal.{log, read, vector_add, other, WalEntry, Wal, entries}

abbrev pub next_id_key : String
next_id_key = "__next_id_px7b39lw__"

abbrev pub deleted_ids_key : String
deleted_ids_key = "__deleted_ids_px7b39lw__"

pub record IdTuple : Type 0 where
  pub str_id : String
  pub numeric_id : ℕ
  pub is_new : Bool
  pub is_reused : Bool

pub record Faults : Type 0 where
  pub lookup_fails : Bool
  pub next_ids_fails : Bool
  pub write_fails : Bool

-- `*(idInt*)data.iov_base`
abbrev pub first_word : List ℕ → ℕ
first_word v = get_or v 0 0

-- `std::iota` on 32-bit numbers.
unfoldable pub iota : ℕ → ℕ → List ℕ
iota zero n = []
iota (suc size) n = n ∷ iota size (u32 (n + 1))

unfoldable pub count_unassigned : List IdTuple → ℕ
count_unassigned [] = 0
count_unassigned (t ∷ ts) =
    if t.numeric_id == 0 then suc (count_unassigned ts) else count_unassigned ts

-- Numbers free for reuse go to new entries, in order; the rest of the numbers is given back.
unfoldable pub assign_deleted : List IdTuple → List ℕ → List IdTuple × List ℕ
assign_deleted [] free = ([], free)
assign_deleted (t ∷ ts) [] = (t ∷ ts, [])
assign_deleted (t ∷ ts) (i ∷ free) = elim (t.numeric_id == 0 && t.is_new) [
  | true ↦
      let (rest, left) = assign_deleted ts free in
      (record t { numeric_id = i; is_reused = true } ∷ rest, left)
  | false ↦ let (rest, left) = assign_deleted ts (i ∷ free) in (t ∷ rest, left)
]

-- Whether an entry waits to be written under a number that it has already.
abbrev pub is_assigned : IdTuple → Bool
is_assigned t = t.is_new && not (t.numeric_id == 0)

unfoldable pub reused_entries : List IdTuple → List WalEntry
reused_entries [] = []
reused_entries (t ∷ ts) =
    if is_assigned t
    then record { op_type = vector_add; numeric_id = t.numeric_id } ∷ reused_entries ts
    else reused_entries ts

unfoldable pub fresh_entries : List ℕ → List WalEntry
fresh_entries [] = []
fresh_entries (i ∷ is) = record { op_type = vector_add; numeric_id = i } ∷ fresh_entries is

unfoldable pub results : List IdTuple → List (ℕ × Bool)
results [] = []
results (t ∷ ts) = (t.numeric_id, if t.is_reused then false else t.is_new) ∷ results ts

unfoldable pub nonzero : List ℕ → List ℕ
nonzero [] = []
nonzero (i ∷ is) = if i == 0 then nonzero is else i ∷ nonzero is

abbrev keep {ℓ} : {A : Type ℓ} → IdTuple → Option (List IdTuple × A) → Option (List IdTuple × A)
keep t none = none
keep t (some (us, db)) = some (t ∷ us, db)

module _ (T : Table) where
  -- The next number on a new table.
  unfoldable pub init_next_id : T.Db → T.Db
  init_next_id db = T.put db next_id_key (1 ∷ [])

  unfoldable pub get_id : T.Db → String → ℕ
  get_id db str_id = elim (T.get db str_id) [ none ↦ 0 | some v ↦ first_word v ]

  unfoldable pub get_count : T.Db → ℕ
  get_count db = T.entries db - 1

  unfoldable pub next_id : T.Db → ℕ
  next_id db = elim (T.get db next_id_key) [ none ↦ 0 | some v ↦ first_word v ]

  unfoldable pub get_next_ids : T.Db → ℕ → List ℕ × T.Db
  unfolding next_id
  get_next_ids db size =
      (iota size (next_id db), T.put db next_id_key (u32 (next_id db + size) ∷ []))

  unfoldable pub deleted_list : T.Db → List ℕ
  deleted_list db = elim (T.get db deleted_ids_key) [ none ↦ [] | some v ↦ v ]

  unfoldable pub get_deleted_ids : T.Db → ℕ → List ℕ × T.Db
  get_deleted_ids db max_count = elim (T.get db deleted_ids_key) [
    | none ↦ ([], db)
    | some raw ↦
        let count = min max_count (length raw) in
        (
          take count raw,
          if ltb count (length raw)
              then T.put db deleted_ids_key (drop count raw)
              else T.del db deleted_ids_key,
        )
  ]

  unfoldable pub lookup_ids : T.Db → List String → List IdTuple
  lookup_ids db [] = []
  lookup_ids db (k ∷ ks) = elim (T.get db k) [
    | none ↦
        record { str_id = k; numeric_id = 0; is_new = true; is_reused = false } ∷ lookup_ids db ks
    | some v ↦
        record { str_id = k; numeric_id = first_word v; is_new = false; is_reused = false }
        ∷ lookup_ids db ks
  ]

  -- `none` is MDBX_PROBLEM: an entry is left with no number.
  unfoldable pub try_write : T.Db → List IdTuple → List ℕ → Option (List IdTuple × T.Db)
  try_write db [] new_ids = some ([], db)
  try_write db (t ∷ ts) new_ids = elim (is_assigned t) [
    | true ↦ keep t (try_write (T.put db t.str_id (t.numeric_id ∷ [])) ts new_ids)
    | false ↦ elim (t.numeric_id == 0) [
      | false ↦ keep t (try_write db ts new_ids)
      | true ↦ elim new_ids [
        | [] ↦ none
        | i ∷ is ↦ keep (record t { numeric_id = i }) (try_write (T.put db t.str_id (i ∷ [])) ts is)
      ]
    ]
  ]

  -- The table and the log. Without a log `wal_ptr` is null.
  pub record Mapper : Type 0 where
    pub db : T.Db
    pub wal : Option Wal

  unfoldable pub log_ids : Option Wal → List IdTuple → List ℕ → Option Wal
  log_ids none tuples new_ids = none
  log_ids (some w) tuples new_ids = some (log w (reused_entries tuples ++ fresh_entries new_ids))

  -- New numbers, the log and the write transaction. What was committed before an exception, `none`,
  -- stands.
  unfoldable pub write_batch :
      Faults → Option Wal → T.Db → List IdTuple → ℕ → Option (List (ℕ × Bool)) × Mapper
  write_batch faults wal db tuples fresh =
      if faults.next_ids_fails && ltb 0 fresh
      then (none, record { db = db; wal = wal })
      else let (new_ids, db') = if ltb 0 fresh then get_next_ids db fresh else ([], db) in
        let wal' = log_ids wal tuples new_ids in
        if faults.write_fails
        then (none, record { db = db'; wal = wal' })
        else elim (try_write db' tuples new_ids) [
          | none ↦ (none, record { db = db'; wal = wal' })
          | some (written, db'') ↦ (some (results written), record { db = db''; wal = wal' })
        ]

  -- The entries are given the numbers that were free for reuse.
  unfoldable pub assign_batch :
      Faults → Option Wal → T.Db → List IdTuple → List ℕ → Option (List (ℕ × Bool)) × Mapper
  assign_batch faults wal db tuples free =
      let needed = count_unassigned tuples in
      let (assigned, left) = assign_deleted tuples free in
      if needed == 0
      then (some (results assigned), record { db = db; wal = wal })
      else write_batch faults wal db assigned (needed - (length free - length left))

  unfoldable pub create_ids_batch :
      Bool → Faults → Mapper → List String → Option (List (ℕ × Bool)) × Mapper
  create_ids_batch use_deleted_ids faults s str_ids =
      if is_empty str_ids
      then (some [], s)
      else if faults.lookup_fails
      then (none, s)
      else let tuples = lookup_ids s.db str_ids in
        let (free, db) =
          if use_deleted_ids then get_deleted_ids s.db (count_unassigned tuples) else ([], s.db) in
        assign_batch faults s.wal db tuples free

  unfoldable pub delete_all : T.Db → List String → List ℕ × T.Db
  delete_all db [] = ([], db)
  delete_all db (k ∷ ks) = elim (T.get db k) [
    | none ↦ let (rest, db') = delete_all db ks in (0 ∷ rest, db')
    | some v ↦ let (rest, db') = delete_all (T.del db k) ks in (first_word v ∷ rest, db')
  ]

  unfoldable pub delete_points : T.Db → List String → List ℕ × T.Db
  unfolding delete_all deleted_list
  delete_points db external_ids =
      let (deleted, db') = delete_all db external_ids in
      if is_empty deleted
      then ([], db')
      else (deleted, T.put db' deleted_ids_key (deleted_list db' ++ nonzero deleted))

  unfoldable pub reclaim_failed_ids : T.Db → List ℕ → T.Db
  unfolding deleted_list
  reclaim_failed_ids db ids =
      if is_empty ids then db else T.put db deleted_ids_key (deleted_list db ++ ids)
