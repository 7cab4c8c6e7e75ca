-- ===== src/Hnsw/Search/Ends.antt =====
-- `searchBaseLayer` of src/hnsw/hnswalg.h ends: a node enters the queue only with a new mark.
use endee.Prelude.{
  ℕ, zero, suc, ◌+◌, ◌≤◌, ◌<◌, ◌≡◌, refl, ap, ◌∙◌, inl, inr, false, ◌||◌, List, [], ◌∷◌, arith, leb,
  ◌==◌, if◌then◌else◌, ==_refl, Bool-cases, Option-cases, length, set, length-set,
}
use endee.Hnsw.Visited.{mark, is_visited, VisitedList}
use endee.Hnsw.Graph.{Bytes, Graph}
use endee.Hnsw.Search.{
  push_candidate, is_allowed, is_hidden, mark_node, offer_refused, offer_allowed, Search, Query,
}
use endee.Hnsw.Search.Expand.{
  consider_upper, consider_all, collect, fetch_batch, consider_refused, consider_allowed,
  expand_base, expand,
}

-- The entries that are not at the epoch.
unfoldable pub count_unmarked : ℕ → List ℕ → ℕ
count_unmarked cur [] = 0
count_unmarked cur (t ∷ ts) =
    if t == cur then count_unmarked cur ts else suc (count_unmarked cur ts)

abbrev pub unvisited : VisitedList → ℕ
unvisited v = count_unmarked v.cur_v v.mass

count_unmarked-set :
    (cur : ℕ) (ts : List ℕ) (i : ℕ)
    → i < length ts
    → is_visited (record { cur_v = cur; mass = ts }) i ≡ false
    → suc (count_unmarked cur (set ts i cur)) ≡ count_unmarked cur ts
unfolding count_unmarked is_visited
count_unmarked-set cur [] i h e = absurd (omega arith)
count_unmarked-set cur (t ∷ ts) zero h e = ground (arith, ==_refl cur)
count_unmarked-set cur (t ∷ ts) (suc i) h e =
    ground (arith, count_unmarked-set cur ts i (omega arith) e)

pub count_unmarked-le : (cur : ℕ) (ts : List ℕ) → count_unmarked cur ts ≤ length ts
unfolding count_unmarked
count_unmarked-le cur [] = omega arith
count_unmarked-le cur (t ∷ ts) = ground (arith, count_unmarked-le cur ts)

unvisited-mark :
    (v : VisitedList) (i : ℕ)
    → i < length v.mass
    → is_visited v i ≡ false
    → suc (unvisited (mark v i)) ≡ unvisited v
unfolding mark
unvisited-mark v i h e = count_unmarked-set v.cur_v v.mass i h e

length-mark : (v : VisitedList) (i : ℕ) → length (mark v i).mass ≡ length v.mass
unfolding mark
length-mark v i = length-set v.mass i v.cur_v

pub length-push_candidate :
    (p : ℕ × ℕ) (q : List (ℕ × ℕ)) → length (push_candidate p q) ≡ suc (length q)
unfolding push_candidate
length-push_candidate p [] = refl
length-push_candidate p (r ∷ q) = ground (arith, length-push_candidate p q)

-- A part of the search that works on a list of `n` nodes.
pub record Pushes (n : ℕ) (s s' : Search) : Type 0 where
  pub same : s'.visited ≡ s.visited
  pub pushed : length s'.candidate_set ≤ n + length s.candidate_set

module _ (g : Graph) (q : Query) where
  offer_refused-Pushes : (s : Search) (i : ℕ) (x : Bytes) → Pushes 1 s (offer_refused g q s i x)
  unfolding offer_refused
  offer_refused-Pushes s i x =
      ground (arith, length-push_candidate (g.sim_func q.data_point x, i) s.candidate_set)

  offer_allowed-Pushes : (s : Search) (i : ℕ) (x : Bytes) → Pushes 1 s (offer_allowed g q s i x)
  unfolding offer_allowed
  offer_allowed-Pushes s i x =
      ground (arith, length-push_candidate (g.sim_func q.data_point x, i) s.candidate_set)

  unfoldable count_allowed : List (ℕ × Bytes) → ℕ
  count_allowed [] = 0
  count_allowed ((i, x) ∷ rest) =
      if is_allowed g q i then suc (count_allowed rest) else count_allowed rest

  consider_allowed-Pushes :
      (s : Search) (l : List (ℕ × Bytes)) → Pushes (count_allowed l) s (consider_allowed g q s l)
  unfolding consider_allowed count_allowed
  consider_allowed-Pushes s [] = ground arith
  consider_allowed-Pushes s ((i, x) ∷ l) = elim (Bool-cases (is_allowed g q i)) [
    | inl passed ↦
        ground
          (arith, offer_allowed-Pushes s i x, consider_allowed-Pushes (offer_allowed g q s i x) l)
    | inr refused ↦ ground (arith, consider_allowed-Pushes s l)
  ]

  consider_refused_lem :
      (s : Search) (l : List (ℕ × Bytes))
      → ((consider_refused g q s l).visited ≡ s.visited)
        × (length (consider_refused g q s l).candidate_set + count_allowed l
            ≤ length l + length s.candidate_set)
  unfolding consider_refused count_allowed
  consider_refused_lem s [] = ground arith
  consider_refused_lem s ((i, x) ∷ l) = elim (Bool-cases (is_allowed g q i)) [
    | inl passed ↦ ground (arith, consider_refused_lem s l)
    | inr refused ↦
        ground (arith, offer_refused-Pushes s i x, consider_refused_lem (offer_refused g q s i x) l)
  ]

  new_mark :
      (v : VisitedList) (i : ℕ)
      → length v.mass ≡ g.max_elements
      → (leb g.max_elements i || is_visited v i) ≡ false
      → (length (mark v i).mass ≡ g.max_elements) × (suc (unvisited (mark v i)) ≡ unvisited v)
  new_mark v i size new = (length-mark v i ∙ size, unvisited-mark v i (ground arith) (ground arith))

  collect_lem :
      (v : VisitedList) (is : List ℕ)
      → length v.mass ≡ g.max_elements
      → (length (collect g q v is).0.mass ≡ g.max_elements)
        × (unvisited (collect g q v is).0 + length (collect g q v is).1 ≤ unvisited v)
  unfolding collect
  collect_lem v [] size = (size, omega arith)
  collect_lem v (i ∷ is) size = elim (Bool-cases (leb g.max_elements i || is_visited v i)) [
    | inl skipped ↦ rw skipped (collect_lem v is size)
    | inr new ↦
        let (size', one) = new_mark v i size new in
        let rest = collect_lem (mark v i) is size' in rw new (rest.0, ground (arith, rest.1, one))
  ]

  length-fetch_batch : (is : List ℕ) → length (fetch_batch g q is) ≤ length is
  unfolding fetch_batch
  length-fetch_batch [] = omega arith
  length-fetch_batch (i ∷ is) = ground (arith, length-fetch_batch is)

  -- The nodes without a mark and those in the queue.
  abbrev pub work : Search → ℕ
  work s = unvisited s.visited + length s.candidate_set

  pub record Narrows (s s' : Search) : Type 0 where
    pub size : length s'.visited.mass ≡ g.max_elements
    pub narrower : work s' ≤ work s

  same-Pushes : (s : Search) → Pushes 1 s s
  same-Pushes s = record { same = refl; pushed = omega arith }

  -- A node that gets its mark enters the queue once at most.
  pub Narrows-mark :
      (s : Search) (i : ℕ) (t : Search)
      → length s.visited.mass ≡ g.max_elements
      → (leb g.max_elements i || is_visited s.visited i) ≡ false
      → Pushes 1 (mark_node g q s i) t
      → Narrows s t
  unfolding mark_node
  Narrows-mark s i t size new p =
      let (size', one) = new_mark s.visited i size new in
      record {
        size = ap (λ v. length v.mass) p.same ∙ size';
        narrower = omega (arith, ap unvisited p.same, p.pushed, one);
      }

  consider_upper-Narrows :
      (s : Search) (i : ℕ)
      → length s.visited.mass ≡ g.max_elements
      → Narrows s (consider_upper g q s i)
  unfolding consider_upper mark_node
  consider_upper-Narrows s i size =
      elim (Bool-cases (leb g.max_elements i || is_visited s.visited i)) [
        | inl skipped ↦
            rw (skipped, consider_upper) (record { size = size; narrower = omega arith })
        | inr new ↦ elim (Bool-cases (is_hidden g q i)) [
          | inl hidden ↦
              rw (new, consider_upper, hidden)
                (Narrows-mark s i (mark_node g q s i) size new (same-Pushes _))
          | inr shown ↦ elim (Option-cases (g.upper i)) [
            | inl absent ↦
                rw (new, consider_upper, shown, absent)
                  (Narrows-mark s i (mark_node g q s i) size new (same-Pushes _))
            | inr (x, e) ↦ elim (Bool-cases (is_allowed g q i)) [
              | inl passed ↦
                  rw (new, consider_upper, shown, e, passed)
                    (Narrows-mark s i _ size new (offer_allowed-Pushes (mark_node g q s i) i x))
              | inr refused ↦
                  rw (new, consider_upper, shown, e, refused)
                    (Narrows-mark s i _ size new (offer_refused-Pushes (mark_node g q s i) i x))
            ]
          ]
        ]
      ]

  consider_all-Narrows :
      (s : Search) (is : List ℕ)
      → length s.visited.mass ≡ g.max_elements
      → Narrows s (consider_all g q s is)
  unfolding consider_all
  consider_all-Narrows s [] size = record { size = size; narrower = omega arith }
  consider_all-Narrows s (i ∷ is) size = omega (
    arith,
    consider_upper-Narrows s i size,
    consider_all-Narrows (consider_upper g q s i) is (consider_upper-Narrows s i size).size,
  )

  expand_base-Narrows :
      (s : Search) (is : List ℕ)
      → length s.visited.mass ≡ g.max_elements
      → Narrows s (expand_base g q s is)
  unfolding expand_base
  expand_base-Narrows s is size =
      let c = collect g q s.visited is in
      let s' : Search = record s { visited = c.0 } in
      let fetched : List (ℕ × Bytes) = fetch_batch g q c.1 in
      let (same, count) = consider_refused_lem s' fetched in
      let last = consider_allowed-Pushes (consider_refused g q s' fetched) fetched in
      let (size', fewer) = collect_lem s.visited is size in
      let kept : (expand_base g q s is).visited ≡ c.0 = last.same ∙ same in
      record {
        size = ap (λ v. length v.mass) kept ∙ size';
        narrower =
            omega (arith, ap unvisited kept, last.pushed, count, fewer, length-fetch_batch c.1);
      }

  pub expand-Narrows :
      (s : Search) (i : ℕ) → length s.visited.mass ≡ g.max_elements → Narrows s (expand g q s i)
  unfolding expand
  expand-Narrows s i size = elim (Bool-cases (q.layer == 0)) [
    | inl base ↦ rw base (expand_base-Narrows s (g.links 0 i) size)
    | inr above ↦ elim (Option-cases (g.upper i)) [
      | inl absent ↦ rw (above, expand, absent) (record { size = size; narrower = omega arith })
      | inr (x, e) ↦ rw (above, expand, e) (consider_all-Narrows s (g.links q.layer i) size)
    ]
  ]
