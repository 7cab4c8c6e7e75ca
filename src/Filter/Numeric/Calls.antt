-- ===== src/Filter/Numeric/Calls.antt =====
-- Calls of the numeric index one after another, and what they mean: a map of identifiers to numbers.
use endee.Prelude.{ℕ, ◌^◌, ◌<◌, Option, none, some, List, ◌==◌, if◌then◌else◌}
use endee.Roaring.{Roaring}
use endee.Mdbx.Cursor.{OrderedTable}
use endee.Filter.Numeric.{put as put_number, remove as remove_number, NumericIndex}

pub data Call : Type 0 where
  put_call : ℕ → ℕ → Call
  remove_call : ℕ → Call

-- What the calls mean: a map that each of them changes at its identifier.
unfoldable pub after : (ℕ → Option ℕ) → Call → ℕ → Option ℕ
after vals (put_call id v) j = if id == j then some v else vals j
after vals (remove_call id) j = if id == j then none else vals j

abbrev pub IsSmall : Call → Type 0
IsSmall (put_call id v) = (id < 2 ^ 32) × (v < 2 ^ 32)
IsSmall (remove_call id) = id < 2 ^ 32

module _ (R : Roaring) (T : OrderedTable) (field : List ℕ) where
  unfoldable pub call : NumericIndex T → Call → Option (NumericIndex T)
  call ix (put_call id v) = put_number R T ix field id v
  call ix (remove_call id) = remove_number R T ix field id

module _ (T : OrderedTable) where
  abbrev pub empty_index : NumericIndex T
  empty_index = record { forward_dbi = T.empty; inverted_dbi = T.empty }
