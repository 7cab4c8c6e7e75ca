-- ===== src/Hnsw/Graph.antt =====
-- src/hnsw/hnswalg.h: what `HierarchicalNSW` keeps of the nodes and their links. A similarity is its
-- rank among the similarities, a natural number, and the lowest one is 0; the function that
-- computes it is a parameter.
use endee.Prelude.{ℕ, ◌≡◌, Bool, true, Option, none, some, List, ◌==◌, if◌then◌else◌, any_eq}

abbrev pub Bytes : Type 0
Bytes = List ℕ

-- `links l i` is the list of node `i` at level `l`, the first `getListCount` entries. Where the node
-- lacks the level, `get_linklist` goes behind its block: the list is then what memory holds there, and
-- what else a write there changes is left out. `upper` is what
-- `getUpperLayerDataPtr` finds. `stored` is what the cache and the fetcher give for a node, which
-- Hnsw/Cache is about.
pub record Graph : Type 0 where
  pub max_elements : ℕ
  pub cur_elements_count : ℕ
  pub m : ℕ
  pub m0 : ℕ
  pub links : ℕ → ℕ → List ℕ
  pub upper : ℕ → Option Bytes
  pub stored : ℕ → Option Bytes
  pub is_marked_deleted : ℕ → Bool
  pub external_label : ℕ → ℕ
  pub sim_func : Bytes → Bytes → ℕ

-- `getDataByInternalId` at layer 0, and `getUpperLayerDataPtr` above it.
unfoldable pub get_data : Graph → ℕ → ℕ → Option Bytes
get_data g layer i = elim (g.upper i) [
  | some x ↦ some x
  | none ↦ if layer == 0 then g.stored i else none
]

-- The walks along links of one layer, from the entry points.
pub data Reach (g : Graph) (layer : ℕ) (eps : List ℕ) : ℕ → Type 0 where
  enter : {i : ℕ} → any_eq i eps ≡ true → Reach g layer eps i
  step : {u v : ℕ} → Reach g layer eps u → any_eq v (g.links layer u) ≡ true → Reach g layer eps v
