-- ===== src/Hnsw/Visited.antt =====
-- src/hnsw/visited_list_pool.h: which nodes a search has seen, by a 16-bit epoch per list, and
-- the pool of such lists that searches share.
-- The memory of a new list is what the allocator left there, an argument here.
pub mod Epoch
pub mod Pool
mod Tests
use endee.Prelude.{
  ℕ, suc, ◌+◌, ◌-◌, ◌/◌, ◌^◌, Bool, false, none, some, List, [], ◌∷◌, ◌==◌, if◌then◌else◌, length,
  get_elem?, set, replicate, u16,
}

pub record VisitedList : Type 0 where
  pub cur_v : ℕ
  pub mass : List ℕ

-- `curV = -1` on an unsigned short.
unfoldable pub new_list : List ℕ → VisitedList
new_list memory = record { cur_v = 2 ^ 16 - 1; mass = memory }

unfoldable pub reset : VisitedList → VisitedList
reset v =
    let cur = u16 (v.cur_v + 1) in
    if cur == 0
    then record { cur_v = 1; mass = replicate (length v.mass) 0 }
    else record v { cur_v = cur }

-- What a search does with the list: `mass[id] = curV` and `mass[id] == curV`.
unfoldable pub mark : VisitedList → ℕ → VisitedList
mark v i = record v { mass = set v.mass i v.cur_v }

unfoldable pub is_visited : VisitedList → ℕ → Bool
is_visited v i = elim (get_elem? v.mass i) [ none ↦ false | some t ↦ t == v.cur_v ]

-- The deque, its front first.
abbrev pub VisitedListPool : Type 0
VisitedListPool = List VisitedList

unfoldable pub get_free_visited_list : VisitedListPool → List ℕ → VisitedList × VisitedListPool
get_free_visited_list [] memory = (reset (new_list memory), [])
get_free_visited_list (v ∷ pool) memory = (reset v, pool)

unfoldable pub release_visited_list : VisitedListPool → VisitedList → VisitedListPool
release_visited_list pool v = v ∷ pool
