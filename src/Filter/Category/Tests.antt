-- ===== src/Filter/Category/Tests.antt =====
-- The category index at concrete inputs.
use endee.Prelude.{◌≡◌, refl, false, some, List, [], ◌∷◌}
use endee.Mdbx.{Rows, rows_table}
use endee.Roaring.{lists}
use endee.Filter.Category.{format_filter_key, get_bitmap_internal, contains}
use endee.Filter.Category.Sets.{
  apply, apply_calls, run, contains-run, Call, adds, removes, adds_batch,
}

-- A colon in a name: two pairs of a field and a value share one key.
shared_key : format_filter_key "a" "b:c" ≡ format_filter_key "a:b" "c"
unfolding format_filter_key
shared_key = refl

abbrev calls : List Call
calls =
    adds "city" "Paris" 7
    ∷ (adds_batch "city" "Paris" (8 ∷ (9 ∷ []))
        ∷ (removes "city" "Paris" 8 ∷ (adds "city" "Rome" 8 ∷ [])))

abbrev no_rows : Rows
no_rows = []

contains-run_example :
    (db' : Rows) × (run lists rows_table no_rows calls ≡ some db')
    × (contains lists rows_table db' "city" "Paris" 8 ≡ false)
unfolding apply_calls apply format_filter_key get_bitmap_internal
contains-run_example = contains-run lists rows_table no_rows calls "city" "Paris" 8
