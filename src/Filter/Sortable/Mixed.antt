-- ===== src/Filter/Sortable/Mixed.antt =====
-- A numeric field takes integers and floats, each by its own key.
use endee.Prelude.{ℕ, ◌≤◌, ◌<◌, arith}
use endee.Filter.Sortable.{float_to_sortable, int_to_sortable}
use endee.Filter.Sortable.Ints.{int_to_sortable_sum}
use endee.Filter.Sortable.Floats.{float_to_sortable_pos}

-- The key of every float from 1 on, the infinity included, is above the key of every integer
-- from 0 up to 1065353215: a range between such integers never holds such a float.
pub int_to_sortable-lt-float_to_sortable :
    (n f : ℕ)
    → n < 0x3f80_0000
    → 0x3f80_0000 ≤ f
    → f ≤ 0x7f80_0000
    → int_to_sortable n < float_to_sortable f
int_to_sortable-lt-float_to_sortable n f hn hf top =
    rw (int_to_sortable_sum n (omega arith), float_to_sortable_pos f (omega arith)) (omega arith)
