-- ===== src/IdMapper/Batch.antt =====
-- `create_ids_batch` of src/storage/id_mapper.hpp, as a whole.
use Prim.Native.String.{String}
use endee.Prelude.{
  ℕ, zero, suc, ◌-◌, min, ◌≡◌, refl, sym, ap, ap₂, subst, ◌∙◌, inl, inr, Bool, true, false, ◌&&◌,
  Option, none, some, List, [], ◌∷◌, map, arith, ltb, ◌==◌, if◌then◌else◌, ltb→le, ==_iff,
  Bool-cases, Option-cases, length, take, drop, All,
}
use endee.Mdbx.{Table}
use endee.Wal.{Wal}
use endee.IdMapper.{
  next_id_key, deleted_ids_key, count_unassigned, assign_deleted, results, get_id, next_id,
  get_next_ids, deleted_list, get_deleted_ids, lookup_ids, write_batch, assign_batch,
  create_ids_batch, IdTuple, Faults, Mapper,
}
use endee.IdMapper.Keys.{has, DistinctKeys, IsUserKey, get_id_lem, IsStored, get-put_other}
use endee.IdMapper.Assign.{
  strings, numbers, IsNonzero, IsSettled, numbers-results, length-iota,
  count_unassigned-assign_deleted, left-assign_deleted, strings-assign_deleted, assign_deleted_none,
  IsSettled-assign_deleted, strings-lookup_ids, numbers-lookup_ids, IsSettled-lookup_ids,
}
use endee.IdMapper.Write.{try_write_lem, Writes}

abbrev pub no_faults : Faults
no_faults = record { lookup_fails = false; next_ids_fails = false; write_fails = false }

module _ (T : Table) where
  -- One table holds under the users' keys what another one does.
  abbrev pub SameUsers : T.Db → T.Db → Type 0
  SameUsers db db' = (j : String) → IsUserKey j → T.get db' j ≡ T.get db j

  get_deleted_ids-SameUsers : (db : T.Db) (n : ℕ) → SameUsers db (get_deleted_ids T db n).1
  unfolding get_deleted_ids
  get_deleted_ids-SameUsers db n j user = elim (Option-cases (T.get db deleted_ids_key)) [
    | inl absent ↦ ground (arith, absent)
    | inr (v, e) ↦ ground (
      arith,
      e,
      T.get-put db deleted_ids_key (drop (min n (length v)) v) j,
      T.get-del db deleted_ids_key j,
      user.1,
    )
  ]

  get_next_ids-SameUsers : (db : T.Db) (n : ℕ) → SameUsers db (get_next_ids T db n).1
  unfolding get_next_ids
  get_next_ids-SameUsers db n j user = get-put_other T db next_id_key j _ user.0

  length-get_next_ids : (db : T.Db) (n : ℕ) → length (get_next_ids T db n).0 ≡ n
  unfolding get_next_ids
  length-get_next_ids db n = length-iota n (next_id T db)

  All-take : (n : ℕ) (xs : List ℕ) → All IsNonzero xs → All IsNonzero (take n xs)
  All-take zero xs h = tt
  All-take (suc n) [] h = tt
  All-take (suc n) (x ∷ xs) h = (h.0, All-take n xs h.1)

  get_deleted_ids-IsNonzero :
      (db : T.Db) (n : ℕ)
      → All IsNonzero (deleted_list T db)
      → All IsNonzero (get_deleted_ids T db n).0
  unfolding get_deleted_ids deleted_list
  get_deleted_ids-IsNonzero db n h = elim (Option-cases (T.get db deleted_ids_key)) [
    | inl absent ↦ rw (absent, get_deleted_ids) tt
    | inr (v, e) ↦
        rw (e, get_deleted_ids) (All-take (min n (length v)) v (rw (e, deleted_list) at h))
  ]

  IsSettled-SameUsers :
      (db db' : T.Db) (ts : List IdTuple)
      → SameUsers db db'
      → All IsUserKey (strings ts)
      → All (IsSettled T db) ts
      → All (IsSettled T db') ts
  IsSettled-SameUsers db db' [] same user h = tt
  IsSettled-SameUsers db db' (t ∷ ts) same user h = (
    ground (arith, h.0, same t.str_id user.0, get_id_lem T db t.str_id, get_id_lem T db' t.str_id),
    IsSettled-SameUsers db db' ts same user.1 h.1,
  )

  -- What giving numbers to the entries of some keys makes of a table.
  pub record Creates (db : T.Db) (ks : List String) (out : Option (List (ℕ × Bool)) × Mapper T)
      : Type 0 where
    pub rows : List (ℕ × Bool)
    pub returned : out.0 ≡ some rows
    pub mapped : map (get_id T out.1.db) ks ≡ map (λ r. r.0) rows
    pub stored : All (IsStored T out.1.db) ks
    pub others : (j : String) → IsUserKey j → has j ks ≡ false → T.get out.1.db j ≡ T.get db j
    pub kept :
        (j : String) → IsUserKey j → IsNonzero (get_id T db j) → get_id T out.1.db j ≡ get_id T db j

  get_id-SameUsers :
      (db db' : T.Db) (j : String) → SameUsers db db' → IsUserKey j → get_id T db' j ≡ get_id T db j
  get_id-SameUsers db db' j same user =
      ground (arith, same j user, get_id_lem T db j, get_id_lem T db' j)

  Creates-SameUsers :
      (db db' : T.Db) (ks : List String) (out : Option (List (ℕ × Bool)) × Mapper T)
      → SameUsers db db'
      → Creates db' ks out
      → Creates db ks out
  Creates-SameUsers db db' ks out same c = record {
    rows = c.rows;
    returned = c.returned;
    mapped = c.mapped;
    stored = c.stored;
    others = λ j user new. c.others j user new ∙ same j user;
    kept = λ j user h. ground (arith, c.kept j user, get_id-SameUsers db db' j same user);
  }

  Writes-Creates :
      (wal : Option Wal) (db : T.Db) (ts : List IdTuple) (new_ids : List ℕ)
      → (w : Writes T db ts new_ids)
      → Creates db (strings ts) (some (results w.written), record { db = w.after; wal = wal })
  Writes-Creates wal db ts new_ids w = record {
    rows = results w.written;
    returned = refl;
    mapped = w.mapped ∙ sym (numbers-results w.written);
    stored = w.stored;
    others = λ j user new. w.others j new;
    kept = λ j user h. w.kept j h;
  }

  write_batch_lem :
      (wal : Option Wal) (db : T.Db) (ts : List IdTuple)
      → DistinctKeys (strings ts)
      → All IsUserKey (strings ts)
      → All (IsSettled T db) ts
      → Creates db (strings ts) (write_batch T no_faults wal db ts (count_unassigned ts))
  unfolding write_batch
  write_batch_lem wal db ts d user h = elim (Bool-cases (ltb 0 (count_unassigned ts))) [
    | inl some_fresh ↦
        let same = get_next_ids-SameUsers db (count_unassigned ts) in
        let next = get_next_ids T db (count_unassigned ts) in
        let w =
          try_write_lem T next.1 ts next.0 d (IsSettled-SameUsers db next.1 ts same user h)
            (omega (arith, length-get_next_ids db (count_unassigned ts))) in
        rw (some_fresh, write_batch, w.succeeds)
          (Creates-SameUsers db next.1 (strings ts) _ same (Writes-Creates _ next.1 ts next.0 w))
    | inr none_fresh ↦
        let w =
          try_write_lem T db ts [] d h (omega (arith, ltb→le 0 (count_unassigned ts) none_fresh)) in
        rw (none_fresh, write_batch, w.succeeds) (Writes-Creates _ db ts [] w)
  ]

  map-get_id-SameUsers :
      (db db' : T.Db) (ks : List String)
      → SameUsers db db'
      → All IsUserKey ks
      → map (get_id T db') ks ≡ map (get_id T db) ks
  map-get_id-SameUsers db db' [] same user = refl
  map-get_id-SameUsers db db' (k ∷ ks) same user =
      ap₂ ◌∷◌ (get_id-SameUsers db db' k same user.0) (map-get_id-SameUsers db db' ks same user.1)

  lookup_ids-IsStored :
      (db db' : T.Db) (ks : List String)
      → SameUsers db db'
      → All IsUserKey ks
      → count_unassigned (lookup_ids T db ks) ≡ 0
      → All (IsStored T db') ks
  unfolding lookup_ids count_unassigned
  lookup_ids-IsStored db db' [] same user h = tt
  lookup_ids-IsStored db db' (k ∷ ks) same user h = elim (Option-cases (T.get db k)) [
    | inl absent ↦ absurd (ground (arith, absent, h))
    | inr (v, e) ↦ (
      rw (same k user.0, e) refl,
      lookup_ids-IsStored db db' ks same user.1 (ground (arith, e, h)),
    )
  ]

  assign_batch_lem :
      (wal : Option Wal) (db db' : T.Db) (ks : List String) (free : List ℕ)
      → SameUsers db db'
      → DistinctKeys ks
      → All IsUserKey ks
      → All IsNonzero free
      → Creates db ks (assign_batch T no_faults wal db' (lookup_ids T db ks) free)
  unfolding assign_batch
  assign_batch_lem wal db db' ks free same d user nonzero_free =
      let ts = lookup_ids T db ks in
      let assigned = (assign_deleted ts free).0 in
      let same_strings : strings assigned ≡ ks =
        strings-assign_deleted ts free ∙ strings-lookup_ids T db ks in
      elim (Bool-cases (count_unassigned ts == 0)) [
        | inl none_needed ↦
            rw (none_needed, assign_batch)
              (record {
                rows = results assigned;
                returned = refl;
                mapped =
                    map-get_id-SameUsers db db' ks same user
                    ∙ sym (numbers-lookup_ids T db ks)
                    ∙ ap numbers (
                        sym (
                          assign_deleted_none ts free
                            ((==_iff (count_unassigned ts) 0).0 none_needed)))
                    ∙ sym (numbers-results assigned);
                stored =
                    lookup_ids-IsStored db db' ks same user
                      ((==_iff (count_unassigned ts) 0).0 none_needed);
                others = λ j user new. same j user;
                kept = λ j user h. get_id-SameUsers db db' j same user;
              })
        | inr some_needed ↦
            let fresh : count_unassigned ts - (length free - length (assign_deleted ts free).1)
                ≡ count_unassigned assigned =
              omega (
                arith,
                count_unassigned-assign_deleted ts free nonzero_free,
                left-assign_deleted ts free,
              ) in
            rw (some_needed, assign_batch, fresh)
              (Creates-SameUsers db db' ks _ same (
                subst
                  (λ l.
                    Creates db' l
                      (write_batch T no_faults wal db' assigned (count_unassigned assigned)))
                  same_strings
                  (write_batch_lem wal db' assigned (subst DistinctKeys (sym same_strings) d)
                    (subst (All IsUserKey) (sym same_strings) user)
                    (IsSettled-SameUsers db db' assigned same
                      (subst (All IsUserKey) (sym same_strings) user)
                      (IsSettled-assign_deleted T db ts free (IsSettled-lookup_ids T db ks))))))
      ]

  create_ids_batch_lem :
      (use_deleted_ids : Bool) (s : Mapper T) (ks : List String)
      → DistinctKeys ks
      → All IsUserKey ks
      → All IsNonzero (deleted_list T s.db)
      → Creates s.db ks (create_ids_batch T use_deleted_ids no_faults s ks)
  unfolding create_ids_batch
  create_ids_batch_lem use_deleted_ids s [] d user h = record {
    rows = [];
    returned = refl;
    mapped = refl;
    stored = tt;
    others = λ j user new. refl;
    kept = λ j user h. refl;
  }
  create_ids_batch_lem false s (k ∷ ks) d user h =
      assign_batch_lem s.wal s.db s.db (k ∷ ks) [] (λ j user. refl) d user tt
  create_ids_batch_lem true s (k ∷ ks) d user h =
      let n = count_unassigned (lookup_ids T s.db (k ∷ ks)) in
      assign_batch_lem s.wal s.db (get_deleted_ids T s.db n).1 (k ∷ ks) (get_deleted_ids T s.db n).0
        (get_deleted_ids-SameUsers s.db n) d user (get_deleted_ids-IsNonzero s.db n h)

  -- Without faults, a batch of distinct user keys gets a number for every key, as long as no number
  -- that is free for reuse is 0: afterwards the table has an entry for every key of the batch, and the
  -- number that is returned for the key is the one of its entry.
  pub create_ids_batch_returns :
      (use_deleted_ids : Bool) (s : Mapper T) (ks : List String)
      → DistinctKeys ks
      → All IsUserKey ks
      → All IsNonzero (deleted_list T s.db)
      → (rows : List (ℕ × Bool)) × ((create_ids_batch T use_deleted_ids no_faults s ks).0
          ≡ some rows)
        × (map (get_id T (create_ids_batch T use_deleted_ids no_faults s ks).1.db) ks
            ≡ map (λ r. r.0) rows)
        × All (IsStored T (create_ids_batch T use_deleted_ids no_faults s ks).1.db) ks
  create_ids_batch_returns use_deleted_ids s ks d user h =
      let c = create_ids_batch_lem use_deleted_ids s ks d user h in
      (c.rows, c.returned, c.mapped, c.stored)

  -- Without faults, and if no number that is free for reuse is 0, a batch of distinct user keys
  -- changes the number of a user key only if the key is in the batch and had none.
  pub create_ids_batch_keeps :
      (use_deleted_ids : Bool) (s : Mapper T) (ks : List String) (j : String)
      → DistinctKeys ks
      → All IsUserKey ks
      → All IsNonzero (deleted_list T s.db)
      → IsUserKey j
      → (has j ks && get_id T s.db j == 0) ≡ false
      → get_id T (create_ids_batch T use_deleted_ids no_faults s ks).1.db j ≡ get_id T s.db j
  create_ids_batch_keeps use_deleted_ids s ks j d user h own old =
      let c = create_ids_batch_lem use_deleted_ids s ks d user h in
      let after = (create_ids_batch T use_deleted_ids no_faults s ks).1.db in
      ground (arith, c.others j own, c.kept j own, get_id_lem T s.db j, get_id_lem T after j)

  write_batch_fails :
      (faults : Faults) (wal : Option Wal) (db : T.Db) (ts : List IdTuple) (fresh : ℕ)
      → (write_batch T faults wal db ts fresh).0 ≡ none
      → SameUsers db (write_batch T faults wal db ts fresh).1.db
  unfolding write_batch
  write_batch_fails faults wal db ts fresh h j user =
      ground (arith, get_next_ids-SameUsers db fresh j user)

  -- An exception leaves the user keys of a table as they were.
  abbrev IsHarmless : T.Db → Option (List (ℕ × Bool)) × Mapper T → Type 0
  IsHarmless db out = out.0 ≡ none → SameUsers db out.1.db

  IsHarmless-if :
      (db : T.Db) (b : Bool) (out out' : Option (List (ℕ × Bool)) × Mapper T)
      → IsHarmless db out
      → IsHarmless db out'
      → IsHarmless db (if b then out else out')
  IsHarmless-if db true out out' h h' = h
  IsHarmless-if db false out out' h h' = h'

  assign_batch_fails :
      (faults : Faults) (wal : Option Wal) (db : T.Db) (ts : List IdTuple) (free : List ℕ)
      → IsHarmless db (assign_batch T faults wal db ts free)
  unfolding assign_batch
  assign_batch_fails faults wal db ts free =
      IsHarmless-if db (count_unassigned ts == 0) _ _ (λ h j user. refl)
        (write_batch_fails faults wal db _ _)

  -- Whatever fails, a batch that ends in an exception leaves every user key as it was.
  pub create_ids_batch_fails :
      (use_deleted_ids : Bool) (faults : Faults) (s : Mapper T) (ks : List String) (j : String)
      → (create_ids_batch T use_deleted_ids faults s ks).0 ≡ none
      → IsUserKey j
      → T.get (create_ids_batch T use_deleted_ids faults s ks).1.db j ≡ T.get s.db j
  unfolding create_ids_batch
  create_ids_batch_fails use_deleted_ids faults s [] j h user = refl
  create_ids_batch_fails false faults s (k ∷ ks) j h user =
      IsHarmless-if s.db faults.lookup_fails _ _ (λ h j user. refl)
        (assign_batch_fails faults s.wal s.db (lookup_ids T s.db (k ∷ ks)) []) h j user
  create_ids_batch_fails true faults s (k ∷ ks) j h user =
      let n = count_unassigned (lookup_ids T s.db (k ∷ ks)) in
      IsHarmless-if s.db faults.lookup_fails _ _ (λ h j user. refl)
        (λ h j user.
          assign_batch_fails faults s.wal (get_deleted_ids T s.db n).1 (lookup_ids T s.db (k ∷ ks))
            (get_deleted_ids T s.db n).0 h j user
          ∙ get_deleted_ids-SameUsers s.db n j user)
        h j user
