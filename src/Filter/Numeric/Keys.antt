-- ===== src/Filter/Numeric/Keys.antt =====
-- The keys of the numeric index: those of the buckets are in the order of their values, and those of
-- the forward table tell identifiers and fields apart.
use mathlib.Core.List.{reverse}
use native.Mathlib.Nat.{pow-suc}
use endee.Prelude.{
  ℕ, zero, suc, ◌+◌, ◌-◌, ◌*◌, ◌/◌, ◌%◌, ◌^◌, ◌<◌, ◌≡◌, refl, sym, ap, ◌∙◌, inl, inr, Bool, true,
  false, ◌&&◌, ◌||◌, List, [], ◌∷◌, ◌++◌, arith, ltb, ◌==◌, ==_iff, Bool-cases, length,
  length-append, drop-append, of_le_bytes,
}
use endee.Mdbx.Cursor.{lex_lt, same_key}
use endee.Mdbx.Cursor.Places.{same_key_self, same_key-≡}
use endee.Mdbx.Cursor.Blocks.{starts_with, starts_with-append}
use endee.Filter.Numeric.{
  digits, to_string, prefix_of, make_forward_key, be_bytes, make_bucket_key, parse_bucket_key_val,
}

lex_lt-append : (p xs ys : List ℕ) → lex_lt (p ++ xs) (p ++ ys) ≡ lex_lt xs ys
lex_lt-append [] xs ys = refl
lex_lt-append (x ∷ p) xs ys = ground (arith, lex_lt-append p xs ys)

-- Four bytes, the highest first.
be_bytes-bytes :
    (v : ℕ)
    → be_bytes v
      ≡ v / 256 / 256 / 256 % 256 ∷ (v / 256 / 256 % 256 ∷ (v / 256 % 256 ∷ (v % 256 ∷ [])))
unfolding be_bytes
be_bytes-bytes v = refl

-- The order of two numbers by their last byte and what stands before it.
lex_step :
    (a b : ℕ) (x : Bool)
    → (ltb (a / 256) (b / 256)
        || (a / 256 == b / 256 && (ltb (a % 256) (b % 256) || (a % 256 == b % 256 && x))))
      ≡ (ltb a b || (a == b && x))
lex_step a b x = ground arith

top_byte : (a : ℕ) → a < 2 ^ 32 → a / 256 / 256 / 256 % 256 ≡ a / 256 / 256 / 256
top_byte a h = omega arith

lex_lt-be_bytes : (a b : ℕ) → a < 2 ^ 32 → b < 2 ^ 32 → lex_lt (be_bytes a) (be_bytes b) ≡ ltb a b
lex_lt-be_bytes a b ha hb =
    rw (be_bytes-bytes a, be_bytes-bytes b, top_byte a ha, top_byte b hb)
      (rw
        (
          lex_step (a / 256 / 256) (b / 256 / 256) (
              ltb (a / 256 % 256) (b / 256 % 256)
              || (a / 256 % 256 == b / 256 % 256
                  && (ltb (a % 256) (b % 256) || (a % 256 == b % 256 && false)))),
          lex_step (a / 256) (b / 256) (ltb (a % 256) (b % 256) || (a % 256 == b % 256 && false)),
          lex_step a b false,
        )
        (ground arith))

pub length-be_bytes : (v : ℕ) → length (be_bytes v) ≡ 4
length-be_bytes v = rw (be_bytes-bytes v) refl

of_le_bytes-be_bytes : (v : ℕ) → v < 2 ^ 32 → of_le_bytes (reverse (be_bytes v)) ≡ v
of_le_bytes-be_bytes v h = rw (be_bytes-bytes v) (omega arith)

-- A number below 2 ^ 32 is read back from the key of its bucket.
pub parse_bucket_key_val-make_bucket_key :
    (field : List ℕ) (v : ℕ) → v < 2 ^ 32 → parse_bucket_key_val (make_bucket_key field v) ≡ v
unfolding parse_bucket_key_val make_bucket_key
parse_bucket_key_val-make_bucket_key field v h =
    let p = prefix_of field in
    let size : length (p ++ be_bytes v) ≡ length p + 4 =
      length-append p (be_bytes v) ∙ ap (λ n. length p + n) (length-be_bytes v) in
    let start : length (p ++ be_bytes v) - 4 ≡ length p = omega (arith, size) in
    let long : ltb (length (p ++ be_bytes v)) 4 ≡ false = ground (arith, size) in
    rw (long, start, drop-append p (be_bytes v)) (of_le_bytes-be_bytes v h)

-- The keys of the buckets of one field are in the order of the numbers that the buckets start at.
pub lex_lt-make_bucket_key :
    (field : List ℕ) (a b : ℕ)
    → a < 2 ^ 32
    → b < 2 ^ 32
    → lex_lt (make_bucket_key field a) (make_bucket_key field b) ≡ ltb a b
unfolding make_bucket_key
lex_lt-make_bucket_key field a b ha hb =
    lex_lt-append (prefix_of field) (be_bytes a) (be_bytes b) ∙ lex_lt-be_bytes a b ha hb

pub starts_with-make_bucket_key :
    (field : List ℕ) (v : ℕ) → starts_with (prefix_of field) (make_bucket_key field v) ≡ true
unfolding make_bucket_key
starts_with-make_bucket_key field v = starts_with-append (prefix_of field) (be_bytes v)

-- What the digits of a number say.
abbrev of_digits : List ℕ → ℕ → ℕ
of_digits [] acc = acc
of_digits (c ∷ cs) acc = of_digits cs (acc * 10 + (c - 48))

of_digits-append :
    (xs ys : List ℕ) (acc : ℕ) → of_digits (xs ++ ys) acc ≡ of_digits ys (of_digits xs acc)
of_digits-append [] ys acc = refl
of_digits-append (x ∷ xs) ys acc = of_digits-append xs ys (acc * 10 + (x - 48))

of_digits-digits : (fuel n : ℕ) → n < 10 ^ fuel → of_digits (digits fuel n) 0 ≡ n
unfolding digits
of_digits-digits zero n h = omega arith
of_digits-digits (suc fuel) n h =
    let rest : of_digits (digits fuel (n / 10)) 0 ≡ n / 10 =
      of_digits-digits fuel (n / 10) (omega (arith, pow-suc 10 fuel)) in
    ground (arith, of_digits-append (digits fuel (n / 10)) ((48 + n % 10) ∷ []) 0, rest)

append_cancel : (p xs ys : List ℕ) → p ++ xs ≡ p ++ ys → xs ≡ ys
append_cancel [] xs ys e = e
append_cancel (x ∷ p) xs ys e = append_cancel p xs ys (cc)

-- Two identifiers of a field have two keys.
pub same_key-make_forward_key :
    (field : List ℕ) (i j : ℕ)
    → i < 2 ^ 32
    → j < 2 ^ 32
    → same_key (make_forward_key field i) (make_forward_key field j) ≡ (i == j)
unfolding make_forward_key to_string
same_key-make_forward_key field i j hi hj = elim (Bool-cases (i == j)) [
  | inl same ↦
      let e : i ≡ j = (==_iff i j).0 same in rw (same, e) (same_key_self (make_forward_key field j))
  | inr other ↦ elim (Bool-cases (same_key (make_forward_key field i) (make_forward_key field j))) [
    | inl hit ↦
        let keys : digits 20 i ≡ digits 20 j =
          append_cancel (prefix_of field) (digits 20 i) (digits 20 j)
            (same_key-≡ (make_forward_key field i) (make_forward_key field j) hit) in
        let e : i ≡ j =
          sym (of_digits-digits 20 i (omega arith))
          ∙ ap (λ ds. of_digits ds 0) keys
          ∙ of_digits-digits 20 j (omega arith) in
        absurd (ground arith)
    | inr miss ↦ miss ∙ sym other
  ]
]
