-- ===== src/IdMapper/Delete.antt =====
-- `deletePoints` of src/storage/id_mapper.hpp: what it makes of the map, and the numbers it frees.
use text.Mathlib.Text.{◌==◌ as str_eq}
use text.Mathlib.TextEquality.{eq_iff}
use mathlib.Core.List.{append-nil}
use Prim.Native.String.{String}
use endee.Prelude.{
  ◌≡◌, refl, sym, ap, ap₂, ◌∙◌, inl, inr, false, none, List, [], ◌∷◌, ◌++◌, map, arith,
  if◌then◌else◌, Option-cases, is_empty, All,
}
use endee.Mdbx.{Table}
use endee.IdMapper.{deleted_ids_key, nonzero, get_id, deleted_list, delete_all, delete_points}
use endee.IdMapper.Keys.{
  has, DistinctKeys, IsUserKey, get_id_lem, get-put_other, deleted_list_lem, deleted_list-put,
}

module _ (T : Table) where
  get-delete_all :
      (db : T.Db) (ks : List String) (j : String)
      → T.get (delete_all T db ks).1 j ≡ (if has j ks then none else T.get db j)
  unfolding delete_all
  get-delete_all db [] j = refl
  get-delete_all db (k ∷ ks) j = elim (Option-cases (T.get db k)) [
    | inl absent ↦
        rw (absent, delete_all) (ground (arith, get-delete_all db ks j, eq_iff k j, absent))
    | inr (v, e) ↦
        rw (e, delete_all) (ground (arith, get-delete_all (T.del db k) ks j, T.get-del db k j))
  ]

  numbers-del :
      (db : T.Db) (k : String) (ks : List String)
      → has k ks ≡ false
      → map (get_id T (T.del db k)) ks ≡ map (get_id T db) ks
  numbers-del db k [] new = refl
  numbers-del db k (i ∷ ks) new = ap₂ ◌∷◌ same (numbers-del db k ks (ground arith))
    where
      same : get_id T (T.del db k) i ≡ get_id T db i
      same = ground (
        arith,
        get_id_lem T (T.del db k) i,
        get_id_lem T db i,
        T.get-del db k i,
        eq_iff i k,
        eq_iff k i,
      )

  numbers-delete_all :
      (db : T.Db) (ks : List String)
      → DistinctKeys ks
      → (delete_all T db ks).0 ≡ map (get_id T db) ks
  unfolding delete_all get_id
  numbers-delete_all db [] d = refl
  numbers-delete_all db (k ∷ ks) d = elim (Option-cases (T.get db k)) [
    | inl absent ↦ ground (arith, absent, numbers-delete_all db ks d.1)
    | inr (v, e) ↦
        ground (arith, e, numbers-delete_all (T.del db k) ks d.1, numbers-del db k ks d.0)
  ]

  is_empty-delete_all :
      (db : T.Db) (k : String) (ks : List String) → is_empty (delete_all T db (k ∷ ks)).0 ≡ false
  unfolding delete_all
  is_empty-delete_all db k ks = ground arith

  has-deleted_ids_key : (ks : List String) → All IsUserKey ks → has deleted_ids_key ks ≡ false
  has-deleted_ids_key [] user = refl
  has-deleted_ids_key (k ∷ ks) user =
      ground
        (arith, eq_iff k deleted_ids_key, eq_iff deleted_ids_key k, has-deleted_ids_key ks user.1)

  deleted_list-delete_all :
      (db : T.Db) (ks : List String)
      → All IsUserKey ks
      → deleted_list T (delete_all T db ks).1 ≡ deleted_list T db
  deleted_list-delete_all db ks user = ground (
    arith,
    deleted_list_lem T db,
    deleted_list_lem T (delete_all T db ks).1,
    get-delete_all db ks deleted_ids_key,
    has-deleted_ids_key ks user,
  )

  -- Deleting distinct user keys gives the number of each, 0 for one that is not mapped, unmaps
  -- them, changes no other key `j` but that of the list of free numbers, and appends the numbers
  -- that were in use to this list.
  pub delete_points_lem :
      (db : T.Db) (ks : List String) (j : String)
      → DistinctKeys ks
      → All IsUserKey ks
      → str_eq deleted_ids_key j ≡ false
      → ((delete_points T db ks).0 ≡ map (get_id T db) ks)
        × (deleted_list T (delete_points T db ks).1
            ≡ deleted_list T db ++ nonzero (map (get_id T db) ks))
        × (T.get (delete_points T db ks).1 j ≡ (if has j ks then none else T.get db j))
  unfolding delete_points nonzero
  delete_points_lem db [] j d user own = (refl, sym (append-nil (deleted_list T db)), refl)
  delete_points_lem db (k ∷ ks) j d user own = rw (is_empty-delete_all db k ks) (
    numbers-delete_all db (k ∷ ks) d,
    deleted_list-put T _ _
        ∙ ap₂ ◌++◌ (deleted_list-delete_all db (k ∷ ks) user)
            (ap nonzero (numbers-delete_all db (k ∷ ks) d)),
    get-put_other T _ deleted_ids_key j _ own ∙ get-delete_all db (k ∷ ks) j,
  )
