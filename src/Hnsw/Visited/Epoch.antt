-- ===== src/Hnsw/Visited/Epoch.antt =====
-- A list after `reset` marks nothing, also where the epoch wraps.
use endee.Prelude.{
  ℕ, zero, suc, ◌+◌, ◌^◌, ◌≤◌, ◌<◌, ◌≡◌, subst, ◌≢◌, inl, inr, false, ◌||◌, some, some-injective,
  List, [], ◌∷◌, arith, ◌==◌, Bool-cases, Option-cases, length, get_elem?, set, replicate, All,
  get_elem?-set_self, get_elem?-set_ne, All-map, u16,
}
use endee.Hnsw.Visited.{new_list, reset, mark, is_visited, VisitedList}

-- No entry is ahead of the epoch, which fits its 16 bits.
pub record IsBehind (v : VisitedList) : Type 0 where
  pub fits : v.cur_v < 2 ^ 16
  pub behind : All (λ t. t ≤ v.cur_v) v.mass

-- What memory of unsigned shorts holds, whatever it is.
abbrev pub IsMemory : List ℕ → Type 0
IsMemory memory = All (λ t. t < 2 ^ 16) memory

pub new_list-IsBehind : (memory : List ℕ) → IsMemory memory → IsBehind (new_list memory)
unfolding new_list
new_list-IsBehind memory h = record {
  fits = omega arith;
  behind = All-map (λ t. t < 2 ^ 16) (λ t. t ≤ 65535) (λ t k. omega arith) memory h;
}

All-replicate : (n : ℕ) → All (λ t. t < 1) (replicate n 0)
All-replicate zero = tt
All-replicate (suc n) = (omega arith, All-replicate n)

All-set : (P : ℕ → Type 0) (xs : List ℕ) (i v : ℕ) → P v → All P xs → All P (set xs i v)
All-set P [] i v h k = tt
All-set P (x ∷ xs) zero v h k = (h, k.1)
All-set P (x ∷ xs) (suc i) v h k = (k.0, All-set P xs i v h k.1)

All-get_elem? : (P : ℕ → Type 0) (xs : List ℕ) (i t : ℕ) → All P xs → get_elem? xs i ≡ some t → P t
All-get_elem? P [] i t k e = absurd (cc)
All-get_elem? P (x ∷ xs) zero t k e = subst P (some-injective _ _ e) k.0
All-get_elem? P (x ∷ xs) (suc i) t k e = All-get_elem? P xs i t k.1 e

-- After `reset` every entry is strictly behind.
pub record IsFresh (v : VisitedList) : Type 0 where
  pub fits : v.cur_v < 2 ^ 16
  pub before : All (λ t. t < v.cur_v) v.mass

pub reset-IsFresh : (v : VisitedList) → IsBehind v → IsFresh (reset v)
unfolding reset
reset-IsFresh v h = elim (Bool-cases (u16 (v.cur_v + 1) == 0)) [
  | inl wraps ↦ rw wraps (record { fits = omega arith; before = All-replicate (length v.mass) })
  | inr on ↦ rw on (record {
    fits = omega arith;
    before =
        All-map (λ t. t ≤ v.cur_v) (λ t. t < u16 (v.cur_v + 1))
          (λ t k. omega (arith, h.fits, nonzero v.cur_v on)) v.mass h.behind;
  })
]
  where
    nonzero : (c : ℕ) → (u16 (c + 1) == 0) ≡ false → u16 (c + 1) ≢ 0
    nonzero c e = ground arith

pub IsFresh-IsBehind : (v : VisitedList) → IsFresh v → IsBehind v
IsFresh-IsBehind v h = record {
  fits = h.fits;
  behind = All-map (λ t. t < v.cur_v) (λ t. t ≤ v.cur_v) (λ t k. omega arith) v.mass h.before;
}

pub mark-IsBehind : (v : VisitedList) (i : ℕ) → IsBehind v → IsBehind (mark v i)
unfolding mark
mark-IsBehind v i h = record {
  fits = h.fits;
  behind = All-set (λ t. t ≤ v.cur_v) v.mass i v.cur_v (omega arith) h.behind;
}

pub is_visited-IsFresh : (v : VisitedList) (i : ℕ) → IsFresh v → is_visited v i ≡ false
unfolding is_visited
is_visited-IsFresh v i h = elim (Option-cases (get_elem? v.mass i)) [
  | inl e ↦ rw (e, is_visited)
  | inr (t, e) ↦
      let below = All-get_elem? (λ x. x < v.cur_v) v.mass i t h.before e in
      rw (e, is_visited) (ground (arith, below))
]

-- A mark shows at its own node and nowhere else.
pub is_visited-mark :
    (v : VisitedList) (i j : ℕ)
    → i < length v.mass
    → is_visited (mark v i) j ≡ (i == j || is_visited v j)
unfolding is_visited mark
is_visited-mark v i j h =
    ground (arith, get_elem?-set_self v.mass i v.cur_v h, get_elem?-set_ne v.mass i j v.cur_v)
