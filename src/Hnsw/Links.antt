-- ===== src/Hnsw/Links.antt =====
-- src/hnsw/hnswalg.h: the link lists of the graph and how they are written. A list is kept with the
-- count that `getListCount` reads, which stays below 2^32.
use endee.Prelude.{
  ℕ, ◌≤◌, ◌<◌, ◌≡◌, refl, ap, subst, ◌∙◌, inl, inr, true, false, ◌&&◌, List, arith, ◌==◌,
  if◌then◌else◌, ==_refl, Bool-cases, length, All,
}
use endee.Hnsw.Graph.{Graph}

-- `level ? M_ : M0_`, the room of one list.
unfoldable pub max_degree : Graph → ℕ → ℕ
max_degree g level = if level == 0 then g.m0 else g.m

-- The entries of one list and its count.
unfoldable pub set_links : Graph → ℕ → ℕ → List ℕ → Graph
set_links g level i ids = record g {
  links = λ l j. if l == level && j == i then ids else g.links l j;
}

-- The sizes of two graphs are the same.
abbrev pub SameSizes : Graph → Graph → Type 0
SameSizes g g' = (g'.cur_elements_count ≡ g.cur_elements_count) × (g'.max_elements ≡ g.max_elements)

-- The graphs differ in their links at most.
abbrev pub SameNodes : Graph → Graph → Type 0
SameNodes g g' = g' ≡ record g { links = g'.links }

pub SameNodes-trans : (g g' g'' : Graph) → SameNodes g g' → SameNodes g' g'' → SameNodes g g''
SameNodes-trans g g' g'' h k = k ∙ ap (λ (x : Graph). record x { links = g''.links }) h

-- One list: it fits its room, and its entries are nodes.
abbrev pub IsFitting : Graph → ℕ → List ℕ → Type 0
IsFitting g level ids = (length ids ≤ max_degree g level) × All (λ j. j < g.cur_elements_count) ids

abbrev pub IsWellFormed : Graph → Type 0
IsWellFormed g = (level i : ℕ) → IsFitting g level (g.links level i)

pub set_links-IsWellFormed :
    (g : Graph) (level i : ℕ) (ids : List ℕ)
    → IsFitting g level ids
    → IsWellFormed g
    → IsWellFormed (set_links g level i ids)
unfolding set_links max_degree
set_links-IsWellFormed g level i ids h w l j = elim (Bool-cases (l == level && j == i)) [
  | inl here ↦
      let same : level ≡ l = ground arith in rw here (subst (λ k. IsFitting g k ids) same h)
  | inr away ↦ rw away (w l j)
]

pub set_links_here :
    (g : Graph) (level i l j : ℕ) (ids : List ℕ)
    → (l == level && j == i) ≡ true
    → (set_links g level i ids).links l j ≡ ids
unfolding set_links
set_links_here g level i l j ids here = rw here refl

pub set_links_at :
    (g : Graph) (level i : ℕ) (ids : List ℕ) → (set_links g level i ids).links level i ≡ ids
set_links_at g level i ids =
    set_links_here g level i level i ids (ground (arith, ==_refl level, ==_refl i))

pub set_links_elsewhere :
    (g : Graph) (level i l j : ℕ) (ids : List ℕ)
    → (l == level && j == i) ≡ false
    → (set_links g level i ids).links l j ≡ g.links l j
unfolding set_links
set_links_elsewhere g level i l j ids away = rw away refl
