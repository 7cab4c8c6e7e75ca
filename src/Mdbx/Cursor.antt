-- ===== src/Mdbx/Cursor.antt =====
-- third_party/mdbx: a table that a cursor goes through. The rows are in the order of their keys as
-- bytes, the shorter of two keys first where one begins the other; the operations of a cursor are what
-- the documentation says of the rows. A cursor stands at a row, which its key tells.
pub mod Places
pub mod Joined
pub mod Blocks
use endee.Prelude.{
  ℕ, ◌-◌, ◌/◌, ◌≡◌, refl, Bool, true, false, ◌&&◌, ◌||◌, Option, none, some, List, [], ◌∷◌, ltb,
  ◌==◌, if◌then◌else◌, set,
}

abbrev pub Row : Type 0
Row = List ℕ × List ℕ

abbrev pub lex_lt : List ℕ → List ℕ → Bool
lex_lt xs [] = false
lex_lt [] (y ∷ ys) = true
lex_lt (x ∷ xs) (y ∷ ys) = ltb x y || (x == y && lex_lt xs ys)

abbrev pub same_key : List ℕ → List ℕ → Bool
same_key [] [] = true
same_key [] (y ∷ ys) = false
same_key (x ∷ xs) [] = false
same_key (x ∷ xs) (y ∷ ys) = x == y && same_key xs ys

abbrev pub put_row : List ℕ → List ℕ → List Row → List Row
put_row k v [] = (k, v) ∷ []
put_row k v ((j, w) ∷ rows) =
    if lex_lt j k
    then (j, w) ∷ put_row k v rows
    else if lex_lt k j
    then (k, v) ∷ ((j, w) ∷ rows)
    else (k, v) ∷ rows

abbrev pub del_row : List ℕ → List Row → List Row
del_row k [] = []
del_row k ((j, w) ∷ rows) = if same_key j k then del_row k rows else (j, w) ∷ del_row k rows

abbrev pub get_row : List Row → List ℕ → Option (List ℕ)
get_row [] k = none
get_row ((j, w) ∷ rows) k = if same_key j k then some w else get_row rows k

-- MDBX_LAST, MDBX_SET_RANGE, MDBX_PREV and, with all rows behind it, MDBX_NEXT.
abbrev pub last_row : List Row → Option Row
last_row [] = none
last_row (r ∷ rows) = elim (last_row rows) [ none ↦ some r | some q ↦ some q ]

abbrev pub set_range : List Row → List ℕ → Option Row
set_range [] k = none
set_range (r ∷ rows) k = if lex_lt r.0 k then set_range rows k else some r

abbrev pub prev_row : List Row → List ℕ → Option Row
prev_row [] k = none
prev_row (r ∷ rows) k =
    let rest = prev_row rows k in
    if lex_lt r.0 k then (elim rest [ none ↦ some r | some q ↦ some q ]) else none

abbrev pub rows_after : List Row → List ℕ → List Row
rows_after [] k = []
rows_after (r ∷ rows) k = if lex_lt k r.0 then r ∷ rows else rows_after rows k

pub record OrderedTable : Type 1 where
  pub Db : Type 0
  pub empty : Db
  pub rows : Db → List Row
  pub put : Db → List ℕ → List ℕ → Db
  pub del : Db → List ℕ → Db
  pub rows-empty : rows empty ≡ []
  pub rows-put : (db : Db) (k v : List ℕ) → rows (put db k v) ≡ put_row k v (rows db)
  pub rows-del : (db : Db) (k : List ℕ) → rows (del db k) ≡ del_row k (rows db)

-- The rows themselves: the parameter can be met.
abbrev pub sorted_rows : OrderedTable
sorted_rows = record {
  Db = List Row;
  empty = [];
  rows = λ db. db;
  put = λ db k v. put_row k v db;
  del = λ db k. del_row k db;
  rows-empty = refl;
  rows-put = λ db k v. refl;
  rows-del = λ db k. refl;
}
