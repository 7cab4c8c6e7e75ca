-- ===== src/Filter/Sortable/Tests.antt =====
-- Keys at concrete numbers.
use endee.Prelude.{◌^◌, ◌≤◌, ◌<◌, ◌≡◌, refl, ◌↔◌, inl, arith}
use endee.Prelude.Int.{◌≤ℤ◌}
use endee.Filter.Sortable.{float_to_sortable, int_to_sortable}
use endee.Filter.Sortable.Floats.{float_value, float_to_sortable_order}
use endee.Filter.Sortable.Mixed.{int_to_sortable-lt-float_to_sortable}

-- 5 and 5.0, and the two zeros.
keys :
    (int_to_sortable 5 ≡ 0x8000_0005)
    × (float_to_sortable 0x40a0_0000 ≡ 0xc0a0_0000)
    × (float_to_sortable 0x8000_0000 ≡ 0x7fff_ffff)
    × (float_to_sortable 0 ≡ 0x8000_0000)
unfolding int_to_sortable float_to_sortable
keys = (refl, refl, refl, refl)

float_to_sortable_order_example :
    (float_to_sortable 0xc0a0_0000 < 2 ^ 32)
    × ((float_value 0xc0a0_0000 ≤ℤ float_value 0x3f80_0000)
        ↔ (float_to_sortable 0xc0a0_0000 ≤ float_to_sortable 0x3f80_0000))
float_to_sortable_order_example =
    float_to_sortable_order 0xc0a0_0000 0x3f80_0000 (omega arith) (omega arith) (inl (omega arith))

int_to_sortable-lt-float_to_sortable_example : int_to_sortable 10 < float_to_sortable 0x40a0_0000
int_to_sortable-lt-float_to_sortable_example =
    int_to_sortable-lt-float_to_sortable 10 0x40a0_0000 (omega arith) (omega arith) (omega arith)
