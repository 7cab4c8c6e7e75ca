-- ===== src/Hnsw/Bruteforce.antt =====
-- src/hnsw/bruteforce.h: the table of vectors that is searched in full, with the map from labels to
-- their places. A vector is the list of its bytes.
pub mod Places
pub mod Subset
pub mod Nearest
mod Tests
use endee.Prelude.{
  ℕ, ◌+◌, ◌-◌, ◌/◌, max, ap, not, Option, none, some, List, map, leb, ◌==◌, if◌then◌else◌, length,
  get_elem?, set,
}

pub record Item : Type 0 where
  pub label : ℕ
  pub vector : List ℕ

pub record BruteforceSearch : Type 0 where
  pub items : List Item
  pub max_elements : ℕ
  pub cur_element_count : ℕ
  pub dict_external_to_internal : ℕ → Option ℕ

-- `memory` is what the allocation holds.
unfoldable pub new_search : List Item → BruteforceSearch
new_search memory = record {
  items = memory;
  max_elements = length memory;
  cur_element_count = 0;
  dict_external_to_internal = λ label. none;
}

-- `dict[label] = i` and `dict.erase(label)`.
abbrev pub enter : (ℕ → Option ℕ) → ℕ → ℕ → ℕ → Option ℕ
enter dict label i j = if label == j then some i else dict j

abbrev pub erase : (ℕ → Option ℕ) → ℕ → ℕ → Option ℕ
erase dict label j = if label == j then none else dict j

-- `none` is the exception when the table is full.
unfoldable pub add_point : BruteforceSearch → List ℕ → ℕ → Option BruteforceSearch
add_point s datapoint label = elim (s.dict_external_to_internal label) [
  | some idx ↦
      some (record s { items = set s.items idx (record { label = label; vector = datapoint }) })
  | none ↦
      if leb s.max_elements s.cur_element_count
      then none
      else some (record s {
        items = set s.items s.cur_element_count (record { label = label; vector = datapoint });
        cur_element_count = s.cur_element_count + 1;
        dict_external_to_internal = enter s.dict_external_to_internal label s.cur_element_count;
      })
]

-- The place of the erased entry is read after `erase`, as if the entry were still there. A table with
-- an entry is not empty, so there is a last item.
unfoldable pub remove_point : BruteforceSearch → ℕ → BruteforceSearch
remove_point s cur_external = elim (s.dict_external_to_internal cur_external) [
  | none ↦ s
  | some cur_c ↦ elim (get_elem? s.items (s.cur_element_count - 1)) [
    | none ↦ s
    | some last ↦ record s {
      items = set s.items cur_c last;
      cur_element_count = s.cur_element_count - 1;
      dict_external_to_internal =
          enter (erase s.dict_external_to_internal cur_external) last.label cur_c;
    }
  ]
]
