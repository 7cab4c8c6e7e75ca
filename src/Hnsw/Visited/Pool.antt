-- ===== src/Hnsw/Visited/Pool.antt =====
-- Searches that take lists from one pool, mark nodes and give the lists back, in any order.
use endee.Prelude.{
  ℕ, zero, suc, ◌<◌, ◌≡◌, subst, ◌∙◌, inl, inr, none, some, some-injective, List, [], ◌∷◌, arith,
  Option-cases, any_eq, length, get_elem?, erase_at, All, length-set, length-replicate,
}
use endee.Hnsw.Visited.{
  new_list, reset, mark, is_visited, VisitedListPool, get_free_visited_list, release_visited_list,
  VisitedList,
}
use endee.Hnsw.Visited.Epoch.{
  IsMemory, new_list-IsBehind, reset-IsFresh, IsFresh-IsBehind, mark-IsBehind, is_visited-IsFresh,
  is_visited-mark, IsBehind,
}

-- A list that a search holds, with the nodes it has marked since it took the list.
pub record Held : Type 0 where
  pub list : VisitedList
  pub seen : List ℕ

pub record System : Type 0 where
  pub pool : VisitedListPool
  pub held : List Held

pub data Call : Type 0 where
  takes : List ℕ → Call
  marks : ℕ → ℕ → Call
  gives_back : ℕ → Call

abbrev mark_held : Held → ℕ → Held
mark_held h i = record { list = mark h.list i; seen = i ∷ h.seen }

update_held : List Held → ℕ → ℕ → List Held
update_held [] k i = []
update_held (h ∷ hs) zero i = mark_held h i ∷ hs
update_held (h ∷ hs) (suc k) i = h ∷ update_held hs k i

-- `takes memory` finds that memory if the pool is empty; a call that names no held list does
-- nothing.
unfoldable pub step : System → Call → System
unfolding update_held
step s (takes memory) =
    let (v, rest) = get_free_visited_list s.pool memory in
    record { pool = rest; held = record { list = v; seen = [] } ∷ s.held }
step s (marks k i) = record s { held = update_held s.held k i }
step s (gives_back k) = elim (get_elem? s.held k) [
  | none ↦ s
  | some h ↦ record { pool = release_visited_list s.pool h.list; held = erase_at k s.held }
]

unfoldable pub run : System → List Call → System
run s [] = s
run s (c ∷ cs) = run (step s c) cs

module _ (n : ℕ) where
  -- Memory for `n` entries, and nodes below `n`.
  abbrev pub IsCall : Call → Type 0
  IsCall (takes memory) = IsMemory memory × (length memory ≡ n)
  IsCall (marks k i) = i < n
  IsCall (gives_back k) = Unit {0}

  abbrev IsPooled : VisitedList → Type 0
  IsPooled v = IsBehind v × (length v.mass ≡ n)

  abbrev pub IsExact : Held → Type 0
  IsExact h = IsPooled h.list × ((j : ℕ) → is_visited h.list j ≡ any_eq j h.seen)

  abbrev pub IsSound : System → Type 0
  IsSound s = All IsPooled s.pool × All IsExact s.held

  length-reset : (v : VisitedList) → length (reset v).mass ≡ length v.mass
  unfolding reset
  length-reset v = ground (arith, length-replicate {A = ℕ} (length v.mass) 0)

  reset-IsExact : (v : VisitedList) → IsPooled v → IsExact (record { list = reset v; seen = [] })
  reset-IsExact v h =
      let fresh = reset-IsFresh v h.0 in
      (
        (IsFresh-IsBehind (reset v) fresh, length-reset v ∙ h.1),
        λ j. is_visited-IsFresh (reset v) j fresh,
      )

  get_free-IsExact :
      (pool : VisitedListPool) (memory : List ℕ)
      → All IsPooled pool
      → IsMemory memory
      → length memory ≡ n
      → IsExact (record { list = (get_free_visited_list pool memory).0; seen = [] })
        × All IsPooled (get_free_visited_list pool memory).1
  unfolding get_free_visited_list
  get_free-IsExact [] memory p m e =
      (reset-IsExact (new_list memory) (new_list-IsBehind memory m, unfold new_list in e), tt)
  get_free-IsExact (v ∷ pool) memory p m e = (reset-IsExact v p.0, p.1)

  mark_held-IsExact : (h : Held) (i : ℕ) → i < n → IsExact h → IsExact (mark_held h i)
  mark_held-IsExact h i lt e = (
    (mark-IsBehind h.list i e.0.0, unfold mark in length-set h.list.mass i h.list.cur_v ∙ e.0.1),
    λ j. rw (is_visited-mark h.list i j (rw (e.0.1) lt), e.1 j),
  )

  update_held-IsExact :
      (hs : List Held) (k i : ℕ) → i < n → All IsExact hs → All IsExact (update_held hs k i)
  unfolding update_held
  update_held-IsExact [] k i lt h = tt
  update_held-IsExact (h ∷ hs) zero i lt e = (mark_held-IsExact h i lt e.0, e.1)
  update_held-IsExact (h ∷ hs) (suc k) i lt e = (e.0, update_held-IsExact hs k i lt e.1)

  All-erase_at : (k : ℕ) (hs : List Held) → All IsExact hs → All IsExact (erase_at k hs)
  All-erase_at k [] e = tt
  All-erase_at zero (h ∷ hs) e = e.1
  All-erase_at (suc k) (h ∷ hs) e = (e.0, All-erase_at k hs e.1)

  All-get_held :
      (hs : List Held) (k : ℕ) (h : Held) → All IsExact hs → get_elem? hs k ≡ some h → IsExact h
  All-get_held [] k h e g = absurd (cc)
  All-get_held (x ∷ hs) zero h e g = subst IsExact (some-injective _ _ g) e.0
  All-get_held (x ∷ hs) (suc k) h e g = All-get_held hs k h e.1 g

  pub step-IsSound : (s : System) (c : Call) → IsCall c → IsSound s → IsSound (step s c)
  unfolding step release_visited_list
  step-IsSound s (takes memory) v h =
      let got = get_free-IsExact s.pool memory h.0 v.0 v.1 in (got.1, (got.0, h.1))
  step-IsSound s (marks k i) v h = (h.0, update_held-IsExact s.held k i v h.1)
  step-IsSound s (gives_back k) v h = elim (Option-cases (get_elem? s.held k)) [
    | inl e ↦ rw (e, step) h
    | inr (x, e) ↦
        rw (e, step) (((All-get_held s.held k x h.1 e).0, h.0), All-erase_at k s.held h.1)
  ]

  pub run-IsSound : (s : System) (cs : List Call) → All IsCall cs → IsSound s → IsSound (run s cs)
  unfolding run
  run-IsSound s [] v h = h
  run-IsSound s (c ∷ cs) v h = run-IsSound (step s c) cs v.1 (step-IsSound s c v.0 h)

-- `VisitedListPool(initmaxpools, n)`: a list for each stretch of memory.
unfoldable pub init : List (List ℕ) → System
init [] = record { pool = []; held = [] }
init (memory ∷ rest) = record (init rest) { pool = new_list memory ∷ (init rest).pool }

init-IsSound :
    (n : ℕ) (memories : List (List ℕ))
    → All (λ m. IsMemory m × (length m ≡ n)) memories
    → IsSound n (init memories)
unfolding init
init-IsSound n [] h = (tt, tt)
init-IsSound n (memory ∷ rest) h =
    let tail = init-IsSound n rest h.1 in
    (((new_list-IsBehind memory h.0.0, unfold new_list in h.0.1), tail.0), tail.1)

-- Whatever garbage the lists of the pool were allocated over, and however searches take, mark
-- and give back lists, a search sees as visited exactly the nodes that it marked itself since it
-- took its list, across any number of wraps of the 16-bit epoch.
pub is_visited-run :
    (n : ℕ) (memories : List (List ℕ)) (cs : List Call) (k j : ℕ) (h : Held)
    → All (λ m. IsMemory m × (length m ≡ n)) memories
    → All (IsCall n) cs
    → get_elem? (run (init memories) cs).held k ≡ some h
    → is_visited h.list j ≡ any_eq j h.seen
is_visited-run n memories cs k j h m v e =
    let sound = run-IsSound n (init memories) cs v (init-IsSound n memories m) in
    (All-get_held n (run (init memories) cs).held k h sound.1 e).1 j
