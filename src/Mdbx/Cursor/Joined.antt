-- ===== src/Mdbx/Cursor/Joined.antt =====
-- The moves of a cursor in a table of two parts.
use endee.Prelude.{
  ℕ, ◌≡◌, refl, sym, subst, ◌∙◌, inl, inr, Option, none, some, some-injective, List, [], ◌∷◌, ◌++◌,
  Bool-cases, Option-cases, All,
}
use endee.Mdbx.Cursor.{Row, lex_lt, last_row, set_range, prev_row}
use endee.Mdbx.Cursor.Places.{lex_lt-flip, AllBelow, AllAbove}

abbrev pub or_else : Option Row → Option Row → Option Row
or_else none o = o
or_else (some r) o = some r

pub set_range-append :
    (xs ys : List Row) (k : List ℕ)
    → set_range (xs ++ ys) k ≡ or_else (set_range xs k) (set_range ys k)
set_range-append [] ys k = refl
set_range-append (x ∷ xs) ys k = elim (Bool-cases (lex_lt x.0 k)) [
  | inl low ↦ rw low (set_range-append xs ys k)
  | inr reached ↦ rw reached refl
]

pub last_row-append : (xs ys : List Row) → last_row (xs ++ ys) ≡ or_else (last_row ys) (last_row xs)
last_row-append [] ys = elim (Option-cases (last_row ys)) [
  | inl e ↦ rw e refl
  | inr (r, e) ↦ rw e refl
]
last_row-append (x ∷ xs) ys = elim (Option-cases (last_row ys)) [
  | inl e ↦ rw (last_row-append xs ys, e) refl
  | inr (r, e) ↦ rw (last_row-append xs ys, e) refl
]

pub prev_row-append :
    (xs ys : List Row) (k : List ℕ)
    → AllBelow xs k
    → prev_row (xs ++ ys) k ≡ or_else (prev_row ys k) (last_row xs)
prev_row-append [] ys k h = elim (Option-cases (prev_row ys k)) [
  | inl e ↦ rw e refl
  | inr (r, e) ↦ rw e refl
]
prev_row-append (x ∷ xs) ys k h = elim (Option-cases (prev_row ys k)) [
  | inl e ↦ rw (h.0, prev_row-append xs ys k h.1, e) refl
  | inr (r, e) ↦ rw (h.0, prev_row-append xs ys k h.1, e) refl
]

prev_row-above : (ys : List Row) (k : List ℕ) → AllAbove ys k → prev_row ys k ≡ none
prev_row-above [] k a = refl
prev_row-above (y ∷ ys) k a = rw (lex_lt-flip k y.0 a.0) refl

pub prev_row-append_above :
    (xs ys : List Row) (k : List ℕ) → AllAbove ys k → prev_row (xs ++ ys) k ≡ prev_row xs k
prev_row-append_above [] ys k a = prev_row-above ys k a
prev_row-append_above (x ∷ xs) ys k a = rw (prev_row-append_above xs ys k a) refl

-- What a move finds is a row of the table.
pub last_row-All :
    (P : Row → Type 0) (rows : List Row) (r : Row) → All P rows → last_row rows ≡ some r → P r
last_row-All P [] r h e = absurd (cc)
last_row-All P (x ∷ rows) r h e = elim (Option-cases (last_row rows)) [
  | inl none_left ↦ subst P (some-injective x r (sym (rw none_left refl) ∙ e)) h.0
  | inr (q, found) ↦ last_row-All P rows r h.1 (found ∙ sym (rw found refl) ∙ e)
]

pub set_range-All :
    (P : Row → Type 0) (rows : List Row) (k : List ℕ) (r : Row)
    → All P rows
    → set_range rows k ≡ some r
    → P r
set_range-All P [] k r h e = absurd (cc)
set_range-All P (x ∷ rows) k r h e = elim (Bool-cases (lex_lt x.0 k)) [
  | inl low ↦ set_range-All P rows k r h.1 (sym (rw low refl) ∙ e)
  | inr reached ↦ subst P (some-injective x r (sym (rw reached refl) ∙ e)) h.0
]
