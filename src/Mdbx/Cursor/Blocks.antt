-- ===== src/Mdbx/Cursor/Blocks.antt =====
-- The rows of a sorted table whose keys begin with a prefix: they stand together, and writes behind
-- another prefix leave them.
use endee.Prelude.{
  ℕ, ◌≡◌, refl, sym, ap, ap₂, subst, inl, inr, Bool, true, false, ◌&&◌, List, [], ◌∷◌, ◌++◌, arith,
  ◌==◌, if◌then◌else◌, Bool-cases, All,
}
use endee.Mdbx.Cursor.{Row, lex_lt, same_key, put_row, del_row}
use endee.Mdbx.Cursor.Places.{lex_lt_self, AllAbove, put_row-new, same_key-≡, lex_lt-tie}

-- `key.rfind(prefix, 0) == 0`
abbrev pub starts_with : List ℕ → List ℕ → Bool
starts_with [] key = true
starts_with (p ∷ ps) [] = false
starts_with (p ∷ ps) (k ∷ ks) = p == k && starts_with ps ks

abbrev pub block : List ℕ → List Row → List Row
block p [] = []
block p (r ∷ rows) = if starts_with p r.0 then r ∷ block p rows else block p rows

abbrev pub IsSorted : List Row → Type 0
IsSorted [] = Unit {0}
IsSorted (r ∷ rows) = AllAbove rows r.0 × IsSorted rows

pub lex_lt_trans : (i j k : List ℕ) → lex_lt i j ≡ true → lex_lt j k ≡ true → lex_lt i k ≡ true
lex_lt_trans i j [] h e = absurd (cc)
lex_lt_trans i [] (z ∷ k) h e = absurd (cc)
lex_lt_trans [] (y ∷ j) (z ∷ k) h e = refl
lex_lt_trans (x ∷ i) (y ∷ j) (z ∷ k) h e = ground (arith, lex_lt_trans i j k)

pub starts_with-append : (p e : List ℕ) → starts_with p (p ++ e) ≡ true
starts_with-append [] e = refl
starts_with-append (x ∷ p) e = ground (arith, starts_with-append p e)

prefix-rest : (p k : List ℕ) → starts_with p k ≡ true → (e : List ℕ) × (k ≡ p ++ e)
prefix-rest [] k h = (k, refl)
prefix-rest (x ∷ p) [] h = absurd (cc)
prefix-rest (x ∷ p) (y ∷ k) h =
    let (e, rest) = prefix-rest p k (ground (arith, h)) in
    let at : x ≡ y = ground (arith, h) in (e, ap₂ ◌∷◌ (sym at) rest)

below_prefix : (k p e : List ℕ) → lex_lt k p ≡ true → lex_lt k (p ++ e) ≡ true
below_prefix k [] e h = absurd (cc)
below_prefix [] (y ∷ p) e h = refl
below_prefix (x ∷ k) (y ∷ p) e h = ground (arith, below_prefix k p e)

above_prefix :
    (k p e : List ℕ) → lex_lt k p ≡ false → starts_with p k ≡ false → lex_lt (p ++ e) k ≡ true
above_prefix k [] e h n = absurd (cc)
above_prefix [] (y ∷ p) e h n = absurd (cc)
above_prefix (x ∷ k) (y ∷ p) e h n = ground (arith, above_prefix k p e)

prefix_not_below : (p e : List ℕ) → lex_lt (p ++ e) p ≡ false
prefix_not_below [] e = refl
prefix_not_below (x ∷ p) e = ground (arith, prefix_not_below p e)

abbrev pub LowFor : List ℕ → Row → Type 0
LowFor p r = (k : List ℕ) → starts_with p k ≡ true → lex_lt r.0 k ≡ true

abbrev pub HighFor : List ℕ → Row → Type 0
HighFor p r = (k : List ℕ) → starts_with p k ≡ true → lex_lt k r.0 ≡ true

AllAbove-trans :
    (i j : List ℕ) (rows : List Row) → lex_lt i j ≡ true → AllAbove rows j → AllAbove rows i
AllAbove-trans i j [] h a = tt
AllAbove-trans i j (r ∷ rows) h a = (lex_lt_trans i j r.0 h a.0, AllAbove-trans i j rows h a.1)

AllAbove-put_row :
    (i k w : List ℕ) (rows : List Row)
    → lex_lt i k ≡ true
    → AllAbove rows i
    → AllAbove (put_row k w rows) i
AllAbove-put_row i k w [] h a = (h, tt)
AllAbove-put_row i k w (r ∷ rows) h a = elim (Bool-cases (lex_lt r.0 k)) [
  | inl low ↦ rw low (a.0, AllAbove-put_row i k w rows h a.1)
  | inr past ↦ elim (Bool-cases (lex_lt k r.0)) [
    | inl high ↦ rw (past, high) (h, a)
    | inr equal ↦ rw (past, equal) (h, a.1)
  ]
]

pub put_row-IsSorted :
    (k w : List ℕ) (rows : List Row) → IsSorted rows → IsSorted (put_row k w rows)
put_row-IsSorted k w [] s = (tt, tt)
put_row-IsSorted k w (r ∷ rows) s = elim (Bool-cases (lex_lt r.0 k)) [
  | inl low ↦ rw low (AllAbove-put_row r.0 k w rows low s.0, put_row-IsSorted k w rows s.1)
  | inr past ↦ elim (Bool-cases (lex_lt k r.0)) [
    | inl high ↦ rw (past, high) ((high, AllAbove-trans k r.0 rows high s.0), s)
    | inr equal ↦
        let at : r.0 ≡ k = lex_lt-tie r.0 k past equal in
        rw (past, equal) (subst (λ x. AllAbove rows x) at s.0, s.1)
  ]
]

AllAbove-del_row : (i k : List ℕ) (rows : List Row) → AllAbove rows i → AllAbove (del_row k rows) i
AllAbove-del_row i k [] a = tt
AllAbove-del_row i k (r ∷ rows) a = elim (Bool-cases (same_key r.0 k)) [
  | inl gone ↦ rw gone (AllAbove-del_row i k rows a.1)
  | inr kept ↦ rw kept (a.0, AllAbove-del_row i k rows a.1)
]

pub del_row-IsSorted : (k : List ℕ) (rows : List Row) → IsSorted rows → IsSorted (del_row k rows)
del_row-IsSorted k [] s = tt
del_row-IsSorted k (r ∷ rows) s = elim (Bool-cases (same_key r.0 k)) [
  | inl gone ↦ rw gone (del_row-IsSorted k rows s.1)
  | inr kept ↦ rw kept (AllAbove-del_row r.0 k rows s.0, del_row-IsSorted k rows s.1)
]

block-AllAbove : (p i : List ℕ) (rows : List Row) → AllAbove rows i → AllAbove (block p rows) i
block-AllAbove p i [] a = tt
block-AllAbove p i (r ∷ rows) a = elim (Bool-cases (starts_with p r.0)) [
  | inl inside ↦ rw inside (a.0, block-AllAbove p i rows a.1)
  | inr out ↦ rw out (block-AllAbove p i rows a.1)
]

-- A write under the prefix is one of the block, a write elsewhere leaves the block.
pub block-put_row :
    (p k w : List ℕ) (rows : List Row)
    → starts_with p k ≡ true
    → IsSorted rows
    → block p (put_row k w rows) ≡ put_row k w (block p rows)
block-put_row p k w [] h s = rw h refl
block-put_row p k w (r ∷ rows) h s = elim (Bool-cases (lex_lt r.0 k)) [
  | inl low ↦ elim (Bool-cases (starts_with p r.0)) [
    | inl inside ↦ rw (low, inside, low, block-put_row p k w rows h s.1) refl
    | inr out ↦ rw (low, out, block-put_row p k w rows h s.1) refl
  ]
  | inr past ↦ elim (Bool-cases (lex_lt k r.0)) [
    | inl high ↦ elim (Bool-cases (starts_with p r.0)) [
      | inl inside ↦ rw (past, high, h, inside, past, high) refl
      | inr out ↦
          let above = block-AllAbove p k rows (AllAbove-trans k r.0 rows high s.0) in
          rw (past, high, h, out) (sym (put_row-new [] k w (block p rows) tt above))
    ]
    | inr equal ↦
        let at : r.0 ≡ k = lex_lt-tie r.0 k past equal in
        let inside : starts_with p r.0 ≡ true = subst (λ x. starts_with p x ≡ true) (sym at) h in
        rw (past, equal, h, inside, past, equal) refl
  ]
]

pub block-put_row_other :
    (p k w : List ℕ) (rows : List Row)
    → starts_with p k ≡ false
    → block p (put_row k w rows) ≡ block p rows
block-put_row_other p k w [] h = rw h refl
block-put_row_other p k w (r ∷ rows) h = elim (Bool-cases (lex_lt r.0 k)) [
  | inl low ↦ elim (Bool-cases (starts_with p r.0)) [
    | inl inside ↦ rw (low, inside, block-put_row_other p k w rows h) refl
    | inr out ↦ rw (low, out, block-put_row_other p k w rows h) refl
  ]
  | inr past ↦ elim (Bool-cases (lex_lt k r.0)) [
    | inl high ↦ rw (past, high, h) refl
    | inr equal ↦
        let at : r.0 ≡ k = lex_lt-tie r.0 k past equal in
        let out : starts_with p r.0 ≡ false = subst (λ x. starts_with p x ≡ false) (sym at) h in
        rw (past, equal, h, out) refl
  ]
]

pub block-del_row :
    (p k : List ℕ) (rows : List Row) → block p (del_row k rows) ≡ del_row k (block p rows)
block-del_row p k [] = refl
block-del_row p k (r ∷ rows) = elim (Bool-cases (same_key r.0 k)) [
  | inl gone ↦ elim (Bool-cases (starts_with p r.0)) [
    | inl inside ↦ rw (gone, inside, gone, block-del_row p k rows) refl
    | inr out ↦ rw (gone, out, block-del_row p k rows) refl
  ]
  | inr kept ↦ elim (Bool-cases (starts_with p r.0)) [
    | inl inside ↦ rw (kept, inside, kept, block-del_row p k rows) refl
    | inr out ↦ rw (kept, out, block-del_row p k rows) refl
  ]
]

pub block-del_row_other :
    (p k : List ℕ) (rows : List Row)
    → starts_with p k ≡ false
    → block p (del_row k rows) ≡ block p rows
block-del_row_other p k [] h = refl
block-del_row_other p k (r ∷ rows) h = elim (Bool-cases (same_key r.0 k)) [
  | inl gone ↦
      let at : r.0 ≡ k = same_key-≡ r.0 k gone in
      let out : starts_with p r.0 ≡ false = subst (λ x. starts_with p x ≡ false) (sym at) h in
      rw (gone, out, block-del_row_other p k rows h) refl
  | inr kept ↦ elim (Bool-cases (starts_with p r.0)) [
    | inl inside ↦ rw (kept, inside, block-del_row_other p k rows h) refl
    | inr out ↦ rw (kept, out, block-del_row_other p k rows h) refl
  ]
]

-- The rows before the block and those behind it.
pub record Parts (p : List ℕ) (rows : List Row) : Type 0 where
  pub before : List Row
  pub after : List Row
  pub parts : rows ≡ before ++ (block p rows ++ after)
  pub low : All (LowFor p) before
  pub high : All (HighFor p) after

pub HighFor-starts_with : (p : List ℕ) (r : Row) → HighFor p r → starts_with p r.0 ≡ false
HighFor-starts_with p r h = elim (Bool-cases (starts_with p r.0)) [
  | inl inside ↦ absurd (ground (arith, h r.0 inside, lex_lt_self r.0))
  | inr out ↦ out
]

HighFor-block : (p : List ℕ) (rows : List Row) → All (HighFor p) rows → block p rows ≡ []
HighFor-block p [] h = refl
HighFor-block p (r ∷ rows) h = rw (HighFor-starts_with p r h.0) (HighFor-block p rows h.1)

high_from :
    (p : List ℕ) (r : Row) (rows : List Row)
    → HighFor p r
    → AllAbove rows r.0
    → All (HighFor p) rows
high_from p r [] h a = tt
high_from p r (x ∷ rows) h a = (λ k s. lex_lt_trans k r.0 x.0 (h k s) a.0, high_from p r rows h a.1)

Parts-from :
    (p : List ℕ) (rows : List Row)
    → IsSorted rows
    → All (λ r. lex_lt r.0 p ≡ false) rows
    → (after : List Row) × ((rows ≡ block p rows ++ after) × All (HighFor p) after)
Parts-from p [] s n = ([], (refl, tt))
Parts-from p (r ∷ rows) s n = elim (Bool-cases (starts_with p r.0)) [
  | inl inside ↦
      let (after, (parts, high)) = Parts-from p rows s.1 n.1 in
      (after, (rw inside (ap (◌∷◌ r) parts), high))
  | inr out ↦
      let high : HighFor p r = λ k begins.
        let (e, at) = prefix-rest p k begins in
        subst (λ x. lex_lt x r.0 ≡ true) (sym at) (above_prefix r.0 p e n.0 out) in
      let all : All (HighFor p) (r ∷ rows) = (high, high_from p r rows high s.0) in
      (r ∷ rows, (rw out (ap (λ x. x ++ (r ∷ rows)) (sym (HighFor-block p rows all.1))), all))
]

not_below_from :
    (p : List ℕ) (r : Row) (rows : List Row)
    → lex_lt r.0 p ≡ false
    → AllAbove rows r.0
    → All (λ x. lex_lt x.0 p ≡ false) rows
not_below_from p r [] h a = tt
not_below_from p r (x ∷ rows) h a = (
  elim (Bool-cases (lex_lt x.0 p)) [
    | inl under ↦ absurd (ground (arith, lex_lt_trans r.0 x.0 p a.0 under, h))
    | inr reached ↦ reached
  ],
  not_below_from p r rows h a.1,
)

pub IsSorted-Parts : (p : List ℕ) (rows : List Row) → IsSorted rows → Parts p rows
IsSorted-Parts p [] s = record { before = []; after = []; parts = refl; low = tt; high = tt }
IsSorted-Parts p (r ∷ rows) s = elim (Bool-cases (lex_lt r.0 p)) [
  | inl under ↦
      let rest = IsSorted-Parts p rows s.1 in
      let below : LowFor p r = λ k begins.
        let (e, at) = prefix-rest p k begins in
        subst (λ x. lex_lt r.0 x ≡ true) (sym at) (below_prefix r.0 p e under) in
      let out : starts_with p r.0 ≡ false = elim (Bool-cases (starts_with p r.0)) [
        | inl inside ↦ absurd (ground (arith, below r.0 inside, lex_lt_self r.0))
        | inr out ↦ out
      ] in
      record {
        before = r ∷ rest.before;
        after = rest.after;
        parts = rw out (ap (◌∷◌ r) rest.parts);
        low = (below, rest.low);
        high = rest.high;
      }
  | inr reached ↦
      let (after, (parts, high)) =
        Parts-from p (r ∷ rows) s (reached, not_below_from p r rows reached s.0) in
      record { before = []; after = after; parts = parts; low = tt; high = high }
]

pub LowFor-starts_with : (p : List ℕ) (r : Row) → LowFor p r → starts_with p r.0 ≡ false
LowFor-starts_with p r h = elim (Bool-cases (starts_with p r.0)) [
  | inl inside ↦ absurd (ground (arith, h r.0 inside, lex_lt_self r.0))
  | inr out ↦ out
]

pub block-starts_with :
    (p : List ℕ) (rows : List Row) → All (λ r. starts_with p r.0 ≡ true) (block p rows)
block-starts_with p [] = tt
block-starts_with p (r ∷ rows) = elim (Bool-cases (starts_with p r.0)) [
  | inl inside ↦ rw inside (inside, block-starts_with p rows)
  | inr out ↦ rw out (block-starts_with p rows)
]
