-- ===== src/IdMapper/Keys.antt =====
-- The keys of the identifier map: those of users, and the two that it keeps for itself.
use text.Mathlib.Text.{◌==◌ as str_eq}
use text.Mathlib.TextEquality.{eq_iff}
use Prim.Native.String.{String}
use endee.Prelude.{
  ℕ, ◌≡◌, refl, ap, ◌∙◌, ◌≢◌, inl, inr, Bool, true, false, ◌||◌, Option, none, some, List, [], ◌∷◌,
  arith, is_some, Option-cases,
}
use endee.Mdbx.{Table}
use endee.IdMapper.{next_id_key, deleted_ids_key, first_word, get_id, deleted_list}

-- Whether `j` is among the keys.
abbrev pub has : String → List String → Bool
has j [] = false
has j (k ∷ ks) = str_eq k j || has j ks

abbrev pub DistinctKeys : List String → Type 0
DistinctKeys [] = Unit {0}
DistinctKeys (k ∷ ks) = (has k ks ≡ false) × DistinctKeys ks

-- A key that no user may give is neither of the map's own.
abbrev pub IsUserKey : String → Type 0
IsUserKey k = (str_eq next_id_key k ≡ false) × (str_eq deleted_ids_key k ≡ false)

abbrev pub get_or_nil : Option (List ℕ) → List ℕ
get_or_nil none = []
get_or_nil (some v) = v

abbrev pub number_of : Option (List ℕ) → ℕ
number_of none = 0
number_of (some v) = first_word v

module _ (T : Table) where
  pub get_id_lem : (db : T.Db) (k : String) → get_id T db k ≡ number_of (T.get db k)
  unfolding get_id
  get_id_lem db k = ground arith

  -- The table has an entry for a key.
  abbrev pub IsStored : T.Db → String → Type 0
  IsStored db k = is_some (T.get db k) ≡ true

  pub IsStored-get_id : (db : T.Db) (k : String) → get_id T db k ≢ 0 → IsStored db k
  unfolding get_id
  IsStored-get_id db k h = elim (Option-cases (T.get db k)) [
    | inl absent ↦ absurd (h (rw (absent, get_id) refl))
    | inr (v, e) ↦ rw e refl
  ]

  pub get-put_self : (db : T.Db) (k : String) (v : List ℕ) → T.get (T.put db k v) k ≡ some v
  get-put_self db k v = ground (arith, T.get-put db k v k, eq_iff k k)

  pub get-put_other :
      (db : T.Db) (k j : String) (v : List ℕ)
      → str_eq k j ≡ false
      → T.get (T.put db k v) j ≡ T.get db j
  get-put_other db k j v h = ground (arith, T.get-put db k v j)

  pub deleted_list_lem : (db : T.Db) → deleted_list T db ≡ get_or_nil (T.get db deleted_ids_key)
  unfolding deleted_list
  deleted_list_lem db = ground arith

  pub deleted_list-put : (db : T.Db) (v : List ℕ) → deleted_list T (T.put db deleted_ids_key v) ≡ v
  deleted_list-put db v =
      deleted_list_lem (T.put db deleted_ids_key v)
      ∙ ap get_or_nil (get-put_self db deleted_ids_key v)
