-- ===== src/Core/Recovery/Safe.antt =====
-- `recoverFromWAL` of src/core/ndd.hpp: what it relies on, and which entries of a log add elements.
use endee.Prelude.{
  ℕ, zero, suc, ◌+◌, ◌≤◌, ◌≡◌, ap, subst, ◌∙◌, not, ◌&&◌, Option, none, some, List, [], ◌∷◌, ◌++◌,
  arith, if◌then◌else◌, is_empty, length, get_elem?, set, All,
}
use endee.Hnsw.Graph.{Bytes}
use endee.Hnsw.Knn.{HierarchicalNsw}
use endee.Hnsw.Insert.Intact.{SeedInside, IsIntact}
use endee.Wal.{is_add, WalEntry}

-- An index in order with room for `m` elements, whose labels lead to nodes.
pub record IsSafe (m : ℕ) (h : HierarchicalNsw) : Type 0 where
  pub intact : IsIntact h
  pub room : h.graph.max_elements ≡ m
  pub looked : All (SeedInside h.graph.cur_elements_count) h.label_lookup

pub All-SeedInside-set :
    (n id : ℕ) (lookup : List (Option ℕ))
    → All (SeedInside n) lookup
    → All (SeedInside (n + 1)) (set lookup id (some n))
All-SeedInside-set n id [] h = tt
All-SeedInside-set n zero (o ∷ lookup) h = (omega arith, All-more n lookup h.1)
  where
    All-more : (n : ℕ) (os : List (Option ℕ)) → All (SeedInside n) os → All (SeedInside (n + 1)) os
    All-more n [] h = tt
    All-more n (none ∷ os) h = (tt, All-more n os h.1)
    All-more n (some i ∷ os) h = (omega (arith, h.0), All-more n os h.1)
All-SeedInside-set n (suc id) (none ∷ lookup) h = (tt, All-SeedInside-set n id lookup h.1)
All-SeedInside-set n (suc id) (some i ∷ lookup) h =
    (omega (arith, h.0), All-SeedInside-set n id lookup h.1)

pub SeedInside-at :
    (n id : ℕ) (lookup : List (Option ℕ)) (o : Option ℕ)
    → All (SeedInside n) lookup
    → get_elem? lookup id ≡ some o
    → SeedInside n o
SeedInside-at n id [] o h e = absurd (ground (arith, e))
SeedInside-at n zero (p ∷ lookup) o h e =
    subst (SeedInside n) (ap (λ (x : Option (Option ℕ)). elim x [ none ↦ p | some q ↦ q ]) e) h.0
SeedInside-at n (suc id) (p ∷ lookup) o h e = SeedInside-at n id lookup o h.1 e

-- The lookup after new nodes were given to labels, from node `n` on.
abbrev pub labelled_from : ℕ → List ℕ → List (Option ℕ) → List (Option ℕ)
labelled_from n [] lookup = lookup
labelled_from n (id ∷ ids) lookup = labelled_from (n + 1) ids (set lookup id (some n))

pub labelled_from-append :
    (n : ℕ) (ids ids' : List ℕ) (lookup : List (Option ℕ))
    → labelled_from n (ids ++ ids') lookup
      ≡ labelled_from (n + length ids) ids' (labelled_from n ids lookup)
labelled_from-append n [] ids' lookup = ap (λ k. labelled_from k ids' lookup) (omega arith)
labelled_from-append n (id ∷ ids) ids' lookup =
    labelled_from-append (n + 1) ids ids' (set lookup id (some n))
    ∙ ap (λ k. labelled_from k ids' (labelled_from (n + 1) ids (set lookup id (some n))))
        (omega arith)

module _ (get_vector : ℕ → Bytes) where
  -- The additions without a vector.
  abbrev pub missing : List WalEntry → List ℕ
  missing [] = []
  missing (e ∷ es) =
      let rest = missing es in
      if is_add e.op_type && is_empty (get_vector e.numeric_id) then e.numeric_id ∷ rest else rest

  -- The additions with a vector.
  abbrev pub stored : List WalEntry → List ℕ
  stored [] = []
  stored (e ∷ es) =
      let rest = stored es in
      if is_add e.op_type && not (is_empty (get_vector e.numeric_id))
      then e.numeric_id ∷ rest
      else rest

  pub missing-cons :
      (e : WalEntry) (es : List WalEntry) → missing (e ∷ es) ≡ missing (e ∷ []) ++ missing es
  missing-cons e es = ground arith

  pub stored-cons :
      (e : WalEntry) (es : List WalEntry) → stored (e ∷ es) ≡ stored (e ∷ []) ++ stored es
  stored-cons e es = ground arith

  pub length-stored : (e : WalEntry) → length (stored (e ∷ [])) ≤ 1
  length-stored e = ground arith
