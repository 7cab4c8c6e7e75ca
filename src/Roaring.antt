-- ===== src/Roaring.antt =====
-- third_party/roaring_bitmap, as the code uses it: a set of identifiers and its bytes. The library
-- itself is a parameter, with the behaviour that its documentation gives.
use endee.Prelude.{
  ℕ, ◌+◌, ◌^◌, ◌≤◌, ◌<◌, ◌≡◌, refl, inl, inr, Bool, false, not, ◌&&◌, ◌||◌, List, [], ◌∷◌, ◌++◌,
  arith, ◌==◌, if◌then◌else◌, ==_iff, Bool-cases, is_empty, length, take, take-append,
}

pub record Roaring : Type 1 where
  pub Bitmap : Type 0
  pub empty : Bitmap
  pub add : Bitmap → ℕ → Bitmap
  pub remove : Bitmap → ℕ → Bitmap
  pub contains : Bitmap → ℕ → Bool
  -- `|=` and `&=`.
  pub union : Bitmap → Bitmap → Bitmap
  pub inter : Bitmap → Bitmap → Bitmap
  -- `write` after `runOptimize`; its length is `getSizeInBytes`.
  pub write : Bitmap → List ℕ
  pub read : List ℕ → Bitmap
  -- `cardinality`.
  pub size : Bitmap → ℕ
  pub contains-empty : (i : ℕ) → contains empty i ≡ false
  pub contains-add : (b : Bitmap) (i j : ℕ) → contains (add b i) j ≡ (i == j || contains b j)
  pub contains-remove :
      (b : Bitmap) (i j : ℕ) → contains (remove b i) j ≡ (not (i == j) && contains b j)
  pub contains-union :
      (a b : Bitmap) (i : ℕ) → contains (union a b) i ≡ (contains a i || contains b i)
  pub contains-inter :
      (a b : Bitmap) (i : ℕ) → contains (inter a b) i ≡ (contains a i && contains b i)
  pub write-nonempty : (b : Bitmap) → is_empty (write b) ≡ false
  pub size-empty : size empty ≡ 0
  pub size-add : (b : Bitmap) (i : ℕ) → size (add b i) ≤ size b + 1
  pub size-remove : (b : Bitmap) (i : ℕ) → size (remove b i) ≤ size b
  -- A bitmap takes a few bytes for each identifier at most.
  pub write_short : (b : Bitmap) → size b < 2 ^ 16 → length (write b) < 2 ^ 32
  pub read-write : (b : Bitmap) (rest : List ℕ) → read (write b ++ rest) ≡ b

-- Sets as lists, written behind their length: the parameter can be met.
abbrev pub member : List ℕ → ℕ → Bool
member [] j = false
member (i ∷ is) j = i == j || member is j

abbrev pub drop_all : List ℕ → ℕ → List ℕ
drop_all [] i = []
drop_all (x ∷ xs) i = if x == i then drop_all xs i else x ∷ drop_all xs i

abbrev pub common : List ℕ → List ℕ → List ℕ
common [] ys = []
common (x ∷ xs) ys = if member ys x then x ∷ common xs ys else common xs ys

abbrev pub read_list : List ℕ → List ℕ
read_list [] = []
read_list (n ∷ xs) = take n xs

pub member-drop_all :
    (xs : List ℕ) (i j : ℕ) → member (drop_all xs i) j ≡ (not (i == j) && member xs j)
member-drop_all [] i j = ground arith
member-drop_all (x ∷ xs) i j = ground (arith, member-drop_all xs i j)

pub member-append : (xs ys : List ℕ) (i : ℕ) → member (xs ++ ys) i ≡ (member xs i || member ys i)
member-append [] ys i = refl
member-append (x ∷ xs) ys i = ground (arith, member-append xs ys i)

pub member-common :
    (xs ys : List ℕ) (i : ℕ) → member (common xs ys) i ≡ (member xs i && member ys i)
member-common [] ys i = refl
member-common (x ∷ xs) ys i = elim (Bool-cases (x == i)) [
  | inl same ↦ let e = (==_iff x i).0 same in rw e (ground (arith, member-common xs ys i))
  | inr other ↦ ground (arith, member-common xs ys i)
]

pub length-drop_all : (xs : List ℕ) (i : ℕ) → length (drop_all xs i) ≤ length xs
length-drop_all [] i = omega arith
length-drop_all (x ∷ xs) i = ground (arith, length-drop_all xs i)

abbrev pub lists : Roaring
lists = record {
  Bitmap = List ℕ;
  empty = [];
  add = λ b i. i ∷ b;
  remove = drop_all;
  contains = member;
  union = λ a b. a ++ b;
  inter = common;
  write = λ b. length b ∷ b;
  read = read_list;
  size = length;
  contains-empty = λ i. refl;
  contains-add = λ b i j. refl;
  contains-remove = member-drop_all;
  contains-union = member-append;
  contains-inter = member-common;
  write-nonempty = λ b. refl;
  size-empty = refl;
  size-add = λ b i. omega arith;
  size-remove = length-drop_all;
  write_short = λ b h. omega arith;
  read-write = take-append;
}
