-- ===== src/IdMapper/Assign.antt =====
-- The entries of a batch: what is looked up for them, and the numbers that they are given, free
-- ones and new ones, in `create_ids_batch` of src/storage/id_mapper.hpp.
use Prim.Native.String.{String}
use endee.Prelude.{
  ℕ, zero, suc, ◌+◌, ◌≤◌, ◌≡◌, refl, ap, ◌≢◌, inl, inr, List, [], ◌∷◌, map, arith, if◌then◌else◌,
  Option-cases, length, All, u32,
}
use endee.Mdbx.{Table}
use endee.IdMapper.{iota, count_unassigned, assign_deleted, results, get_id, lookup_ids, IdTuple}
use endee.IdMapper.Keys.{get_id_lem}

abbrev pub strings : List IdTuple → List String
strings ts = map (λ t. t.str_id) ts

abbrev pub numbers : List IdTuple → List ℕ
numbers ts = map (λ t. t.numeric_id) ts

abbrev pub IsNonzero : ℕ → Type 0
IsNonzero i = i ≢ 0

-- What a table holds for an entry: nothing for a new one, and else its number.
abbrev pub IsSettled : (T : Table) → T.Db → IdTuple → Type 0
IsSettled T db t = get_id T db t.str_id ≡ (if t.is_new then 0 else t.numeric_id)

pub numbers-results : (ts : List IdTuple) → map (λ r. r.0) (results ts) ≡ numbers ts
unfolding results
numbers-results [] = refl
numbers-results (t ∷ ts) = ap (λ l. t.numeric_id ∷ l) (numbers-results ts)

pub length-iota : (size n : ℕ) → length (iota size n) ≡ size
unfolding iota
length-iota zero n = refl
length-iota (suc size) n = ap suc (length-iota size (u32 (n + 1)))

-- Free numbers that are not 0 leave that many entries fewer without a number.
pub count_unassigned-assign_deleted :
    (ts : List IdTuple) (free : List ℕ)
    → All IsNonzero free
    → count_unassigned (assign_deleted ts free).0 + length free
      ≡ count_unassigned ts + length (assign_deleted ts free).1
unfolding assign_deleted count_unassigned
count_unassigned-assign_deleted [] free h = refl
count_unassigned-assign_deleted (t ∷ ts) [] h = refl
count_unassigned-assign_deleted (t ∷ ts) (i ∷ free) h = ground (
  arith,
  count_unassigned-assign_deleted ts free h.1,
  count_unassigned-assign_deleted ts (i ∷ free) h,
)

pub left-assign_deleted :
    (ts : List IdTuple) (free : List ℕ) → length (assign_deleted ts free).1 ≤ length free
unfolding assign_deleted
left-assign_deleted [] free = omega arith
left-assign_deleted (t ∷ ts) [] = omega arith
left-assign_deleted (t ∷ ts) (i ∷ free) =
    ground (arith, left-assign_deleted ts free, left-assign_deleted ts (i ∷ free))

pub strings-assign_deleted :
    (ts : List IdTuple) (free : List ℕ) → strings (assign_deleted ts free).0 ≡ strings ts
unfolding assign_deleted
strings-assign_deleted [] free = refl
strings-assign_deleted (t ∷ ts) [] = refl
strings-assign_deleted (t ∷ ts) (i ∷ free) =
    ground (arith, strings-assign_deleted ts free, strings-assign_deleted ts (i ∷ free))

pub assign_deleted_none :
    (ts : List IdTuple) (free : List ℕ) → count_unassigned ts ≡ 0 → (assign_deleted ts free).0 ≡ ts
unfolding assign_deleted count_unassigned
assign_deleted_none [] free h = refl
assign_deleted_none (t ∷ ts) [] h = refl
assign_deleted_none (t ∷ ts) (i ∷ free) h = ground (arith, assign_deleted_none ts (i ∷ free))

module _ (T : Table) where
  pub IsSettled-assign_deleted :
      (db : T.Db) (ts : List IdTuple) (free : List ℕ)
      → All (IsSettled T db) ts
      → All (IsSettled T db) (assign_deleted ts free).0
  unfolding assign_deleted
  IsSettled-assign_deleted db [] free h = tt
  IsSettled-assign_deleted db (t ∷ ts) [] h = h
  IsSettled-assign_deleted db (t ∷ ts) (i ∷ free) h = ground (
    arith,
    h.0,
    IsSettled-assign_deleted db ts free h.1,
    IsSettled-assign_deleted db ts (i ∷ free) h.1,
  )

  pub strings-lookup_ids : (db : T.Db) (ks : List String) → strings (lookup_ids T db ks) ≡ ks
  unfolding lookup_ids
  strings-lookup_ids db [] = refl
  strings-lookup_ids db (k ∷ ks) = ground (arith, strings-lookup_ids db ks)

  pub numbers-lookup_ids :
      (db : T.Db) (ks : List String) → numbers (lookup_ids T db ks) ≡ map (get_id T db) ks
  unfolding lookup_ids
  numbers-lookup_ids db [] = refl
  numbers-lookup_ids db (k ∷ ks) = ground (arith, numbers-lookup_ids db ks, get_id_lem T db k)

  pub IsSettled-lookup_ids :
      (db : T.Db) (ks : List String) → All (IsSettled T db) (lookup_ids T db ks)
  unfolding lookup_ids
  IsSettled-lookup_ids db [] = tt
  IsSettled-lookup_ids db (k ∷ ks) = elim (Option-cases (T.get db k)) [
    | inl absent ↦
        rw (absent, lookup_ids)
          (ground (arith, absent, get_id_lem T db k), IsSettled-lookup_ids db ks)
    | inr (v, e) ↦
        rw (e, lookup_ids) (ground (arith, e, get_id_lem T db k), IsSettled-lookup_ids db ks)
  ]
