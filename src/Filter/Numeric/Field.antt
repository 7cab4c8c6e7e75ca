-- ===== src/Filter/Numeric/Field.antt =====
-- The buckets of one field as the numeric index means them: what each holds, their order, the place
-- of a number among them, and what they hold together.
use endee.Prelude.{
  ℕ, suc, ◌^◌, ◌≤◌, ◌<◌, ◌≡◌, refl, ap, subst, ◌⊎◌, inl, inr, Bool, false, ◌&&◌, ◌||◌, Option, none,
  some, List, [], ◌∷◌, ◌++◌, arith, ltb, leb, ◌==◌, ltb→lt, ltb→le, Bool-cases, length, All,
  All-append, All-map,
}
use endee.Roaring.{Roaring}
use endee.Filter.Bucket.{Bucket}
use endee.Filter.Bucket.Lookup.{value_of, IsBucket}

abbrev pub is_at : Option ℕ → ℕ → Bool
is_at none v = false
is_at (some w) v = w == v

abbrev pub in_range : ℕ → ℕ → ℕ → Bool
in_range lo hi v = leb lo v && leb v hi

abbrev pub is_in_range : ℕ → ℕ → Option ℕ → Bool
is_in_range lo hi none = false
is_in_range lo hi (some v) = in_range lo hi v

pub All-at {ℓ κ} :
    {A : Type ℓ} (P : A → Type κ) (xs : List A) (y : A) (ys : List A) → All P (xs ++ (y ∷ ys)) → P y
All-at P [] y ys h = h.0
All-at P (x ∷ xs) y ys h = All-at P xs y ys h.1

pub All-left {ℓ κ} : {A : Type ℓ} (P : A → Type κ) (xs ys : List A) → All P (xs ++ ys) → All P xs
All-left P [] ys h = tt
All-left P (x ∷ xs) ys h = (h.0, All-left P xs ys h.1)

pub All-right {ℓ κ} : {A : Type ℓ} (P : A → Type κ) (xs ys : List A) → All P (xs ++ ys) → All P ys
All-right P [] ys h = h
All-right P (x ∷ xs) ys h = All-right P xs ys h.1

module _ (R : Roaring) where
  -- Whether an identifier has a number, and whether it has one of a range.
  abbrev pub has : List (Bucket R) → ℕ → ℕ → Bool
  has [] id v = false
  has (b ∷ bs) id v = is_at (value_of R b id) v || has bs id v

  abbrev pub hits : List (Bucket R) → ℕ → ℕ → ℕ → Bool
  hits [] lo hi id = false
  hits (b ∷ bs) lo hi id = is_in_range lo hi (value_of R b id) || hits bs lo hi id

  -- A bucket with no more than `n` entries, in its bitmap too.
  pub record IsStored (n : ℕ) (b : Bucket R) : Type 0 where
    pub valid : IsBucket R b
    pub few : length b.ids ≤ n
    pub few_bits : R.size b.summary_bitmap ≤ n
    pub small_ids : All (λ i. i < 2 ^ 32) b.ids
    pub small_base : b.base_value < 2 ^ 32

  -- All that the first bucket holds is below the start of the second.
  pub record Precedes (b c : Bucket R) : Type 0 where
    pub bases : b.base_value < c.base_value
    pub values : (j v : ℕ) → value_of R b j ≡ some v → v < c.base_value

  abbrev pub IsField : ℕ → List (Bucket R) → Type 0
  IsField n [] = Unit {0}
  IsField n (b ∷ bs) = IsStored n b × (All (Precedes b) bs × IsField n bs)

  pub has-append :
      (bs cs : List (Bucket R)) (id v : ℕ) → has (bs ++ cs) id v ≡ (has bs id v || has cs id v)
  has-append [] cs id v = refl
  has-append (b ∷ bs) cs id v = ground (arith, has-append bs cs id v)

  pub hits-append :
      (bs cs : List (Bucket R)) (lo hi id : ℕ)
      → hits (bs ++ cs) lo hi id ≡ (hits bs lo hi id || hits cs lo hi id)
  hits-append [] cs lo hi id = refl
  hits-append (b ∷ bs) cs lo hi id = ground (arith, hits-append bs cs lo hi id)

  pub IsStored-more : (n m : ℕ) (b : Bucket R) → n ≤ m → IsStored n b → IsStored m b
  IsStored-more n m b h s = record {
    valid = s.valid;
    few = omega (arith, s.few);
    few_bits = omega (arith, s.few_bits);
    small_ids = s.small_ids;
    small_base = s.small_base;
  }

  pub IsField-more : (n : ℕ) (bs : List (Bucket R)) → IsField n bs → IsField (suc n) bs
  IsField-more n [] f = tt
  IsField-more n (b ∷ bs) f =
      (IsStored-more n (suc n) b (omega arith) f.0, (f.1.0, IsField-more n bs f.1.1))

  pub IsField-IsStored : (n : ℕ) (bs : List (Bucket R)) → IsField n bs → All (IsStored n) bs
  IsField-IsStored n [] f = tt
  IsField-IsStored n (b ∷ bs) f = (f.0, IsField-IsStored n bs f.1.1)

  pub small_bases :
      (n : ℕ) (bs : List (Bucket R)) → IsField n bs → All (λ b. b.base_value < 2 ^ 32) bs
  small_bases n bs f =
      All-map (IsStored n) (λ b. b.base_value < 2 ^ 32) (λ b s. s.small_base) bs
        (IsField-IsStored n bs f)

  pub IsField-right : (n : ℕ) (bs cs : List (Bucket R)) → IsField n (bs ++ cs) → IsField n cs
  IsField-right n [] cs f = f
  IsField-right n (b ∷ bs) cs f = IsField-right n bs cs f.1.1

  -- The place of a number: the last bucket that starts at it or below.
  pub record Place (v : ℕ) (bs : List (Bucket R)) : Type 0 where
    pub pre : List (Bucket R)
    pub here : Bucket R
    pub post : List (Bucket R)
    pub parts : bs ≡ pre ++ (here ∷ post)
    pub low : here.base_value ≤ v
    pub before : All (λ b. b.base_value < here.base_value) pre
    pub after : All (λ c. v < c.base_value) post

  pub place :
      (n v : ℕ) (bs : List (Bucket R)) → IsField n bs → All (λ c. v < c.base_value) bs ⊎ Place v bs
  place n v [] f = inl tt
  place n v (b ∷ bs) f = elim (place n v bs f.1.1) [
    | inl above ↦ elim (Bool-cases (ltb v b.base_value)) [
      | inl under ↦ inl (ltb→lt v b.base_value under, above)
      | inr reached ↦ inr (record {
        pre = [];
        here = b;
        post = bs;
        parts = refl;
        low = ltb→le v b.base_value reached;
        before = tt;
        after = above;
      })
    ]
    | inr p ↦
        let orders : All (Precedes b) (p.pre ++ (p.here ∷ p.post)) =
          subst (λ x. All (Precedes b) x) p.parts f.1.0 in
        inr (record {
          pre = b ∷ p.pre;
          here = p.here;
          post = p.post;
          parts = ap (◌∷◌ b) p.parts;
          low = p.low;
          before = ((All-at (Precedes b) p.pre p.here p.post orders).bases, p.before);
          after = p.after;
        })
  ]

  -- Some buckets in the place of one.
  pub IsField-replace :
      (n : ℕ) (pre : List (Bucket R)) (b : Bucket R) (post cs : List (Bucket R))
      → IsField n (pre ++ (b ∷ post))
      → IsField n cs
      → All (λ c. b.base_value ≤ c.base_value) cs
      → All (λ c. All (Precedes c) post) cs
      → IsField n (pre ++ (cs ++ post))
  IsField-replace n [] b post cs f g low order = join cs g order
    where
      join :
          (cs : List (Bucket R))
          → IsField n cs
          → All (λ c. All (Precedes c) post) cs
          → IsField n (cs ++ post)
      join [] g order = f.1.1
      join (c ∷ cs) g order =
          (g.0, (All-append (Precedes c) cs post g.1.0 order.0, join cs g.1.1 order.1))
  IsField-replace n (a ∷ pre) b post cs f g low order = (
    f.0,
    (
      All-append (Precedes a) pre (cs ++ post) (All-left (Precedes a) pre (b ∷ post) f.1.0) (
          All-append (Precedes a) cs post (raise (All-at (Precedes a) pre b post f.1.0) cs low)
            (All-right (Precedes a) pre (b ∷ post) f.1.0).1),
      IsField-replace n pre b post cs f.1.1 g low order,
    ),
  )
    where
      raise :
          Precedes a b
          → (cs : List (Bucket R)) → All (λ c. b.base_value ≤ c.base_value) cs
          → All (Precedes a) cs
      raise h [] low = tt
      raise h (c ∷ cs) low = (
        record {
          bases = omega (arith, h.bases, low.0);
          values = λ j v e. omega (arith, h.values j v e, low.0);
        },
        raise h cs low.1,
      )
