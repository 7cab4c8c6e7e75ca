-- ===== src/Mdbx.antt =====
-- third_party/mdbx, as the code uses it: one table from strings to values. The library is a
-- parameter, with the behaviour that its documentation gives. A value is a list of numbers, its
-- bytes, or the 32-bit identifiers that its bytes hold.
pub mod Cursor
use text.Mathlib.Text.{◌==◌ as str_eq}
use Prim.Native.String.{String}
use text.Mathlib.TextEquality.{eq_iff}
use endee.Prelude.{
  ℕ, ◌+◌, ◌≡◌, refl, Option, none, some, List, [], ◌∷◌, arith, if◌then◌else◌, is_some,
}

pub record Table : Type 1 where
  pub Db : Type 0
  pub get : Db → String → Option (List ℕ)
  pub put : Db → String → List ℕ → Db
  pub del : Db → String → Db
  -- `ms_entries` of `mdbx_dbi_stat`.
  pub entries : Db → ℕ
  pub get-put :
      (db : Db) (k : String) (v : List ℕ) (j : String)
      → get (put db k v) j ≡ (if str_eq k j then some v else get db j)
  pub get-del :
      (db : Db) (k j : String) → get (del db k) j ≡ (if str_eq k j then none else get db j)
  pub entries-put :
      (db : Db) (k : String) (v : List ℕ)
      → entries (put db k v) ≡ (if is_some (get db k) then entries db else entries db + 1)
  pub entries-del :
      (db : Db) (k : String)
      → (if is_some (get db k) then entries (del db k) + 1 else entries (del db k)) ≡ entries db

-- A list of rows with distinct keys: the parameter can be met.
abbrev pub Rows : Type 0
Rows = List (String × List ℕ)

abbrev pub row : Rows → String → Option (List ℕ)
row [] j = none
row ((k, v) ∷ rows) j = if str_eq k j then some v else row rows j

abbrev pub drop_rows : Rows → String → Rows
drop_rows [] j = []
drop_rows ((k, v) ∷ rows) j = if str_eq k j then drop_rows rows j else (k, v) ∷ drop_rows rows j

abbrev pub count_keys : Rows → ℕ
count_keys [] = 0
count_keys ((k, v) ∷ rows) = if is_some (row rows k) then count_keys rows else count_keys rows + 1

pub row-drop_rows :
    (rows : Rows) (k j : String)
    → row (drop_rows rows k) j ≡ (if str_eq k j then none else row rows j)
row-drop_rows [] k j = ground arith
row-drop_rows ((i, v) ∷ rows) k j =
    ground (arith, eq_iff i k, eq_iff i j, eq_iff k j, row-drop_rows rows k j)

pub count_keys-drop_rows :
    (rows : Rows) (k : String)
    → (if is_some (row rows k)
        then count_keys (drop_rows rows k) + 1
        else count_keys (drop_rows rows k))
      ≡ count_keys rows
count_keys-drop_rows [] k = refl
count_keys-drop_rows ((i, v) ∷ rows) k =
    ground (arith, eq_iff i k, eq_iff k i, row-drop_rows rows k i, count_keys-drop_rows rows k)

abbrev pub rows_table : Table
rows_table = record {
  Db = Rows;
  get = row;
  put = λ db k v. (k, v) ∷ db;
  del = drop_rows;
  entries = count_keys;
  get-put = λ db k v j. refl;
  get-del = row-drop_rows;
  entries-put = λ db k v. refl;
  entries-del = count_keys-drop_rows;
}
