-- ===== src/IdMapper/Numbers.antt =====
-- New numbers and numbers free for reuse, `get_next_ids` and `getDeletedIds` of
-- src/storage/id_mapper.hpp.
use text.Mathlib.TextEquality.{eq_iff}
use endee.Prelude.{
  ℕ, zero, suc, ◌+◌, ◌%◌, ◌^◌, ◌≤◌, ◌<◌, min, ◌≡◌, refl, sym, ap, ◌∙◌, inl, inr, false, List, [],
  ◌∷◌, ◌++◌, arith, ltb, ltb→le, Bool-cases, Option-cases, any_eq, Distinct, length, take, drop,
  All, length-take, take-append-drop, drop_beyond, u32,
}
use endee.Mdbx.{Table}
use endee.IdMapper.{
  next_id_key, deleted_ids_key, iota, next_id, get_next_ids, deleted_list, get_deleted_ids,
}
use endee.IdMapper.Keys.{get_or_nil, number_of, get-put_self, deleted_list_lem, deleted_list-put}

iota-between :
    (size m lo hi : ℕ)
    → lo ≤ m
    → m + size ≤ hi
    → hi < 2 ^ 32
    → All (λ i. (lo ≤ i) × (i < hi)) (iota size m)
unfolding iota
iota-between zero m lo hi low h small = tt
iota-between (suc size) m lo hi low h small =
    let next : (m + 1) % 2 ^ 32 ≡ m + 1 = omega arith in
    rw next ((low, omega arith), iota-between size (m + 1) lo hi (omega arith) (omega arith) small)

any_eq-below :
    (i : ℕ) (xs : List ℕ) (hi : ℕ) → All (λ j. (suc i ≤ j) × (j < hi)) xs → any_eq i xs ≡ false
any_eq-below i [] hi h = refl
any_eq-below i (x ∷ xs) hi h = ground (arith, h.0, any_eq-below i xs hi h.1)

iota-Distinct : (size n : ℕ) → n + size < 2 ^ 32 → Distinct (iota size n)
unfolding iota
iota-Distinct zero n h = tt
iota-Distinct (suc size) n h =
    let next : (n + 1) % 2 ^ 32 ≡ n + 1 = omega arith in
    rw next (
      any_eq-below n (iota size (n + 1)) (n + suc size)
          (iota-between size (n + 1) (suc n) (n + suc size) (omega arith) (omega arith) h),
      iota-Distinct size (n + 1) (omega arith),
    )

module _ (T : Table) where
  next_id_lem : (db : T.Db) → next_id T db ≡ number_of (T.get db next_id_key)
  unfolding next_id
  next_id_lem db = ground arith

  -- As long as the next number stays below 2 ^ 32, new numbers are distinct, none of them is below the
  -- next number before or reaches the one after, which is higher by their count.
  pub get_next_ids_lem :
      (db : T.Db) (size : ℕ)
      → next_id T db + size < 2 ^ 32
      → Distinct (get_next_ids T db size).0
        × All (λ i. (next_id T db ≤ i) × (i < next_id T db + size)) (get_next_ids T db size).0
        × (next_id T (get_next_ids T db size).1 ≡ next_id T db + size)
  unfolding get_next_ids
  get_next_ids_lem db size small = (
    iota-Distinct size (next_id T db) small,
    iota-between size (next_id T db) (next_id T db) (next_id T db + size) (omega arith)
        (omega arith) small,
    next_id_lem (T.put db next_id_key (u32 (next_id T db + size) ∷ []))
        ∙ ap number_of (get-put_self T db next_id_key (u32 (next_id T db + size) ∷ []))
        ∙ omega arith,
  )

  deleted_list-del : (db : T.Db) → deleted_list T (T.del db deleted_ids_key) ≡ []
  deleted_list-del db = ground (
    arith,
    deleted_list_lem T (T.del db deleted_ids_key),
    T.get-del db deleted_ids_key deleted_ids_key,
    eq_iff deleted_ids_key deleted_ids_key,
  )

  -- The numbers taken for reuse are the first ones of the free numbers, up to as many as were asked
  -- for, and the others stay free.
  pub get_deleted_ids_lem :
      (db : T.Db) (n : ℕ)
      → ((get_deleted_ids T db n).0 ++ deleted_list T (get_deleted_ids T db n).1
          ≡ deleted_list T db)
        × (length (get_deleted_ids T db n).0 ≡ min n (length (deleted_list T db)))
  unfolding get_deleted_ids
  get_deleted_ids_lem db n = elim (Option-cases (T.get db deleted_ids_key)) [
    | inl absent ↦
        let nothing : deleted_list T db ≡ [] = deleted_list_lem T db ∙ ap get_or_nil absent in
        rw (absent, get_deleted_ids) (refl, rw nothing (omega arith))
    | inr (v, e) ↦
        let free : deleted_list T db ≡ v = deleted_list_lem T db ∙ ap get_or_nil e in
        let count : ℕ = min n (length v) in
        elim (Bool-cases (ltb count (length v))) [
          | inl some_left ↦
              rw (e, get_deleted_ids, some_left)
                (
                  ap (λ l. take count v ++ l) (deleted_list-put T db (drop count v))
                      ∙ take-append-drop count v
                      ∙ sym free,
                  length-take count v ∙ rw free (omega arith),
                )
          | inr none_left ↦
              rw (e, get_deleted_ids, none_left)
                (
                  ap (λ l. take count v ++ l)
                        (deleted_list-del db
                          ∙ sym (drop_beyond count v (ltb→le count (length v) none_left)))
                      ∙ take-append-drop count v
                      ∙ sym free,
                  length-take count v ∙ rw free (omega arith),
                )
        ]
  ]
