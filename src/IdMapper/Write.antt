-- ===== src/IdMapper/Write.antt =====
-- The write transaction of `create_ids_batch` of src/storage/id_mapper.hpp, `try_write`.
use text.Mathlib.TextEquality.{eq_iff}
use Prim.Native.String.{String}
use endee.Prelude.{
  ℕ, ◌≤◌, ◌≡◌, refl, ap₂, inl, inr, true, false, some, List, [], ◌∷◌, map, arith, ◌==◌, Bool-cases,
  length, All,
}
use endee.Mdbx.{Table}
use endee.IdMapper.{count_unassigned, is_assigned, get_id, try_write, IdTuple}
use endee.IdMapper.Keys.{has, DistinctKeys, get_id_lem, IsStored, IsStored-get_id}
use endee.IdMapper.Assign.{strings, numbers, IsNonzero, IsSettled}

module _ (T : Table) where
  -- A write that succeeds maps every string to the number of its entry.
  pub record Writes (db : T.Db) (ts : List IdTuple) (new_ids : List ℕ) : Type 0 where
    pub written : List IdTuple
    pub after : T.Db
    pub succeeds : try_write T db ts new_ids ≡ some (written, after)
    pub mapped : map (get_id T after) (strings ts) ≡ numbers written
    pub stored : All (IsStored T after) (strings ts)
    pub others : (j : String) → has j (strings ts) ≡ false → T.get after j ≡ T.get db j
    pub kept : (j : String) → IsNonzero (get_id T db j) → get_id T after j ≡ get_id T db j

  IsSettled-put :
      (db : T.Db) (k : String) (v : List ℕ) (ts : List IdTuple)
      → has k (strings ts) ≡ false
      → All (IsSettled T db) ts
      → All (IsSettled T (T.put db k v)) ts
  IsSettled-put db k v [] new h = tt
  IsSettled-put db k v (t ∷ ts) new h = (
    ground (
      arith,
      h.0,
      get_id_lem T db t.str_id,
      get_id_lem T (T.put db k v) t.str_id,
      T.get-put db k v t.str_id,
      eq_iff t.str_id k,
      eq_iff k t.str_id,
    ),
    IsSettled-put db k v ts (ground arith) h.1,
  )

  -- One entry written under number `i`.
  Writes-put :
      (db : T.Db) (t : IdTuple) (i : ℕ) (ts : List IdTuple) (new_ids rest : List ℕ)
      → has t.str_id (strings ts) ≡ false
      → get_id T db t.str_id ≡ 0
      → (w : Writes (T.put db t.str_id (i ∷ [])) ts rest)
      → try_write T db (t ∷ ts) new_ids ≡ some (record t { numeric_id = i } ∷ w.written, w.after)
      → Writes db (t ∷ ts) new_ids
  Writes-put db t i ts new_ids rest new unset w e = record {
    written = record t { numeric_id = i } ∷ w.written;
    after = w.after;
    succeeds = e;
    mapped =
        ap₂ ◌∷◌
          (ground (
            arith,
            get_id_lem T w.after t.str_id,
            w.others t.str_id new,
            T.get-put db t.str_id (i ∷ []) t.str_id,
            eq_iff t.str_id t.str_id,
          ))
          w.mapped;
    stored = (
      ground (
        arith,
        w.others t.str_id new,
        T.get-put db t.str_id (i ∷ []) t.str_id,
        eq_iff t.str_id t.str_id,
      ),
      w.stored,
    );
    others = λ j h. ground (arith, w.others j, T.get-put db t.str_id (i ∷ []) j);
    kept = λ j h. ground (
      arith,
      w.kept j,
      T.get-put db t.str_id (i ∷ []) j,
      eq_iff t.str_id j,
      get_id_lem T db j,
      get_id_lem T (T.put db t.str_id (i ∷ [])) j,
    );
  }

  -- An entry without a number takes the first of the new ones.
  Writes-numberless :
      (db : T.Db) (t : IdTuple) (ts : List IdTuple) (new_ids : List ℕ)
      → has t.str_id (strings ts) ≡ false
      → get_id T db t.str_id ≡ 0
      → count_unassigned (t ∷ ts) ≤ length new_ids
      → (t.numeric_id == 0) ≡ true
      → ((i : ℕ) (is : List ℕ)
          → count_unassigned ts ≤ length is
          → Writes (T.put db t.str_id (i ∷ [])) ts is)
      → Writes db (t ∷ ts) new_ids
  unfolding try_write count_unassigned
  Writes-numberless db t ts [] new unset enough z rest = absurd (ground arith)
  Writes-numberless db t ts (i ∷ is) new unset enough z rest =
      let w = rest i is (ground arith) in
      Writes-put db t i ts (i ∷ is) is new unset w (
        let waiting : is_assigned t ≡ false = ground arith in
        rw (waiting, try_write, z, w.succeeds) refl)

  pub try_write_lem :
      (db : T.Db) (ts : List IdTuple) (new_ids : List ℕ)
      → DistinctKeys (strings ts)
      → All (IsSettled T db) ts
      → count_unassigned ts ≤ length new_ids
      → Writes db ts new_ids
  unfolding try_write count_unassigned
  try_write_lem db [] new_ids d h enough = record {
    written = [];
    after = db;
    succeeds = refl;
    mapped = refl;
    stored = tt;
    others = λ j h. refl;
    kept = λ j h. refl;
  }
  try_write_lem db (t ∷ ts) new_ids d h enough = elim (Bool-cases (is_assigned t)) [
    | inl assigned ↦
        let w =
          try_write_lem (T.put db t.str_id (t.numeric_id ∷ [])) ts new_ids d.1
            (IsSettled-put db t.str_id (t.numeric_id ∷ []) ts d.0 h.1) (ground arith) in
        Writes-put db t t.numeric_id ts new_ids new_ids d.0 (ground (arith, h.0)) w
          (rw (assigned, try_write, w.succeeds) refl)
    | inr waiting ↦ elim (Bool-cases (t.numeric_id == 0)) [
      | inr numbered ↦
          let w = try_write_lem db ts new_ids d.1 h.1 (ground arith) in
          record {
            written = t ∷ w.written;
            after = w.after;
            succeeds = rw (waiting, try_write, numbered, w.succeeds) refl;
            mapped =
                ap₂ ◌∷◌
                  (ground (
                    arith,
                    h.0,
                    w.others t.str_id d.0,
                    get_id_lem T db t.str_id,
                    get_id_lem T w.after t.str_id,
                  ))
                  w.mapped;
            stored = (
              rw (w.others t.str_id d.0)
                  (IsStored-get_id T db t.str_id (λ e. ground (arith, h.0, e))),
              w.stored,
            );
            others = λ j h. ground (arith, w.others j);
            kept = w.kept;
          }
      | inl zero_number ↦
          Writes-numberless db t ts new_ids d.0 (ground (arith, h.0)) enough zero_number
            (λ i is more.
              try_write_lem (T.put db t.str_id (i ∷ [])) ts is d.1
                (IsSettled-put db t.str_id (i ∷ []) ts d.0 h.1) more)
    ]
  ]
