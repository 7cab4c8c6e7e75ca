-- ===== src/Mdbx/Cursor/Places.antt =====
-- A table in two parts, the rows before a key and those behind it: where each move of a cursor ends
-- and what a write or an erasure changes.
use endee.Prelude.{
  ℕ, ◌≡◌, refl, subst, ◌∙◌, inl, inr, true, false, none, some, List, [], ◌∷◌, ◌++◌, arith,
  if◌then◌else◌, Bool-cases, All,
}
use endee.Mdbx.Cursor.{
  Row, lex_lt, same_key, put_row, del_row, get_row, last_row, set_range, prev_row, rows_after,
}

pub lex_lt_self : (k : List ℕ) → lex_lt k k ≡ false
lex_lt_self [] = refl
lex_lt_self (x ∷ k) = ground (arith, lex_lt_self k)

pub lex_lt-flip : (j k : List ℕ) → lex_lt j k ≡ true → lex_lt k j ≡ false
lex_lt-flip j [] h = absurd (cc)
lex_lt-flip [] (y ∷ k) h = refl
lex_lt-flip (x ∷ j) (y ∷ k) h = ground (arith, lex_lt-flip j k)

pub same_key_self : (k : List ℕ) → same_key k k ≡ true
same_key_self [] = refl
same_key_self (x ∷ k) = ground (arith, same_key_self k)

pub lex_lt-same_key : (j k : List ℕ) → lex_lt j k ≡ true → same_key j k ≡ false
lex_lt-same_key j [] h = absurd (cc)
lex_lt-same_key [] (y ∷ k) h = refl
lex_lt-same_key (x ∷ j) (y ∷ k) h = ground (arith, lex_lt-same_key j k)

lex_lt-same_key_flip : (j k : List ℕ) → lex_lt k j ≡ true → same_key j k ≡ false
lex_lt-same_key_flip [] k h = absurd (cc)
lex_lt-same_key_flip (x ∷ j) [] h = refl
lex_lt-same_key_flip (x ∷ j) (y ∷ k) h = ground (arith, lex_lt-same_key_flip j k)

abbrev pub AllBelow : List Row → List ℕ → Type 0
AllBelow rows k = All (λ r. lex_lt r.0 k ≡ true) rows

abbrev pub AllAbove : List Row → List ℕ → Type 0
AllAbove rows k = All (λ r. lex_lt k r.0 ≡ true) rows

pub set_range-below :
    (pre rest : List Row) (k : List ℕ)
    → AllBelow pre k
    → set_range (pre ++ rest) k ≡ set_range rest k
set_range-below [] rest k h = refl
set_range-below (a ∷ pre) rest k h = rw h.0 (set_range-below pre rest k h.1)

pub last_row-last : (pre : List Row) (r : Row) → last_row (pre ++ (r ∷ [])) ≡ some r
last_row-last [] r = refl
last_row-last (a ∷ pre) r = rw (last_row-last pre r) refl

-- The rows from the key on: the first of them is not below it.
pub prev_row-below :
    (pre : List Row) (r : Row) (rest : List Row) (k : List ℕ)
    → AllBelow pre k
    → lex_lt r.0 k ≡ false
    → prev_row (pre ++ (r ∷ rest)) k ≡ last_row pre
prev_row-below [] r rest k h e = rw e refl
prev_row-below (a ∷ pre) r rest k h e = rw (h.0, prev_row-below pre r rest k h.1 e) refl

pub rows_after-below :
    (pre : List Row) (r : Row) (rest : List Row) (k : List ℕ)
    → AllBelow pre k
    → lex_lt k r.0 ≡ true
    → rows_after (pre ++ (r ∷ rest)) k ≡ r ∷ rest
rows_after-below [] r rest k h e = rw e refl
rows_after-below (a ∷ pre) r rest k h e =
    rw (lex_lt-flip a.0 k h.0) (rows_after-below pre r rest k h.1 e)

rows_after-above : (rest : List Row) (k : List ℕ) → AllAbove rest k → rows_after rest k ≡ rest
rows_after-above [] k h = refl
rows_after-above (r ∷ rest) k h = rw h.0 refl

pub rows_after-at :
    (pre : List Row) (k v : List ℕ) (rest : List Row)
    → AllBelow pre k
    → AllAbove rest k
    → rows_after (pre ++ ((k, v) ∷ rest)) k ≡ rest
rows_after-at [] k v rest h e = rw (lex_lt_self k) (rows_after-above rest k e)
rows_after-at (a ∷ pre) k v rest h e = rw (lex_lt-flip a.0 k h.0) (rows_after-at pre k v rest h.1 e)

pub get_row-at :
    (pre : List Row) (k v : List ℕ) (rest : List Row)
    → AllBelow pre k
    → get_row (pre ++ ((k, v) ∷ rest)) k ≡ some v
get_row-at [] k v rest h = rw (same_key_self k) refl
get_row-at (a ∷ pre) k v rest h = rw (lex_lt-same_key a.0 k h.0) (get_row-at pre k v rest h.1)

put_row-above :
    (k v : List ℕ) (rest : List Row) → AllAbove rest k → put_row k v rest ≡ (k, v) ∷ rest
put_row-above k v [] h = refl
put_row-above k v (r ∷ rest) h = rw (lex_lt-flip k r.0 h.0, h.0) refl

pub put_row-new :
    (pre : List Row) (k v : List ℕ) (rest : List Row)
    → AllBelow pre k
    → AllAbove rest k
    → put_row k v (pre ++ rest) ≡ pre ++ ((k, v) ∷ rest)
put_row-new [] k v rest h e = put_row-above k v rest e
put_row-new (a ∷ pre) k v rest h e = rw (h.0, put_row-new pre k v rest h.1 e) refl

pub put_row-at :
    (pre : List Row) (k v w : List ℕ) (rest : List Row)
    → AllBelow pre k
    → put_row k w (pre ++ ((k, v) ∷ rest)) ≡ pre ++ ((k, w) ∷ rest)
put_row-at [] k v w rest h = rw (lex_lt_self k) refl
put_row-at (a ∷ pre) k v w rest h = rw (h.0, put_row-at pre k v w rest h.1) refl

del_row-above : (k : List ℕ) (rest : List Row) → AllAbove rest k → del_row k rest ≡ rest
del_row-above k [] h = refl
del_row-above k (r ∷ rest) h = rw (lex_lt-same_key_flip r.0 k h.0, del_row-above k rest h.1) refl

pub del_row-at :
    (pre : List Row) (k v : List ℕ) (rest : List Row)
    → AllBelow pre k
    → AllAbove rest k
    → del_row k (pre ++ ((k, v) ∷ rest)) ≡ pre ++ rest
del_row-at [] k v rest h e = rw (same_key_self k) (del_row-above k rest e)
del_row-at (a ∷ pre) k v rest h e =
    rw (lex_lt-same_key a.0 k h.0, del_row-at pre k v rest h.1 e) refl

pub same_key-≡ : (j k : List ℕ) → same_key j k ≡ true → j ≡ k
same_key-≡ [] [] h = refl
same_key-≡ [] (y ∷ k) h = absurd (cc)
same_key-≡ (x ∷ j) [] h = absurd (cc)
same_key-≡ (x ∷ j) (y ∷ k) h = ground (arith, same_key-≡ j k)

pub lex_lt-tie : (j k : List ℕ) → lex_lt j k ≡ false → lex_lt k j ≡ false → j ≡ k
lex_lt-tie [] [] h e = refl
lex_lt-tie [] (y ∷ k) h e = absurd (cc)
lex_lt-tie (x ∷ j) [] h e = absurd (cc)
lex_lt-tie (x ∷ j) (y ∷ k) h e = ground (arith, lex_lt-tie j k)

same_key-flip : (j k : List ℕ) → same_key j k ≡ same_key k j
same_key-flip [] [] = refl
same_key-flip [] (y ∷ k) = refl
same_key-flip (x ∷ j) [] = refl
same_key-flip (x ∷ j) (y ∷ k) = ground (arith, same_key-flip j k)

-- A table by its keys: what is read after a write and after an erasure.
pub get_row-put_row :
    (k v : List ℕ) (rows : List Row) (j : List ℕ)
    → get_row (put_row k v rows) j ≡ (if same_key k j then some v else get_row rows j)
get_row-put_row k v [] j = refl
get_row-put_row k v (r ∷ rows) j = elim (Bool-cases (lex_lt r.0 k)) [
  | inl low ↦ elim (Bool-cases (same_key r.0 j)) [
    | inl hit ↦
        let e : r.0 ≡ j = same_key-≡ r.0 j hit in
        let miss : same_key k j ≡ false =
          subst (λ x. same_key k x ≡ false) e (lex_lt-same_key_flip k r.0 low) in
        rw (low, hit, miss) refl
    | inr miss ↦ rw (low, miss) (get_row-put_row k v rows j)
  ]
  | inr past ↦ elim (Bool-cases (lex_lt k r.0)) [
    | inl high ↦ rw (past, high) refl
    | inr equal ↦
        let e : r.0 ≡ k = lex_lt-tie r.0 k past equal in
        elim (Bool-cases (same_key k j)) [
          | inl hit ↦ rw (past, equal, hit) refl
          | inr miss ↦ rw (past, equal, e, miss) refl
        ]
  ]
]

pub get_row-del_row :
    (k : List ℕ) (rows : List Row) (j : List ℕ)
    → get_row (del_row k rows) j ≡ (if same_key k j then none else get_row rows j)
get_row-del_row k [] j = ground arith
get_row-del_row k (r ∷ rows) j = elim (Bool-cases (same_key r.0 k)) [
  | inl gone ↦
      let e : r.0 ≡ k = same_key-≡ r.0 k gone in
      rw (gone, get_row-del_row k rows j, e) (ground arith)
  | inr kept ↦ elim (Bool-cases (same_key r.0 j)) [
    | inl hit ↦
        let e : r.0 ≡ j = same_key-≡ r.0 j hit in
        let miss : same_key k j ≡ false =
          subst (λ x. same_key k x ≡ false) e (same_key-flip k r.0 ∙ kept) in
        rw (kept, hit, miss) refl
    | inr miss ↦ rw (kept, miss) (get_row-del_row k rows j)
  ]
]
