-- ===== src/Filter/Bucket/Tests.antt =====
-- A bucket at concrete inputs.
use endee.Prelude.{ℕ, ◌≡◌, refl, true, false, [], ◌∷◌, arith, any_eq}
use endee.Roaring.{lists}
use endee.Filter.Bucket.{lower_bound, insert_entry, add, serialize, deserialize, ok, Bucket}
use endee.Filter.Bucket.Lookup.{IsBucket}
use endee.Filter.Bucket.Bytes.{deserialize-serialize}

abbrev pair : Bucket lists
pair = record {
  base_value = 100;
  deltas = 0 ∷ (7 ∷ []);
  ids = 4 ∷ (2 ∷ []);
  summary_bitmap = 2 ∷ (4 ∷ []);
  is_dirty = false;
}

pair-summary : (j : ℕ) → lists.contains pair.summary_bitmap j ≡ any_eq j pair.ids
pair-summary j = ground arith

pair-IsBucket : IsBucket lists pair
pair-IsBucket = record {
  same_length = refl;
  sorted = omega arith;
  fits = omega arith;
  distinct = (refl, (refl, tt));
  summary = pair-summary;
}

sorted_place :
    add lists pair 103 9
    ≡ ok (record pair {
      deltas = 0 ∷ (3 ∷ (7 ∷ []));
      ids = 4 ∷ (9 ∷ (2 ∷ []));
      summary_bitmap = 9 ∷ (2 ∷ (4 ∷ []));
      is_dirty = true;
    })
unfolding add insert_entry lower_bound
sorted_place = refl

deserialize-serialize_example : deserialize lists (serialize lists pair) 100 ≡ ok pair
deserialize-serialize_example =
    deserialize-serialize lists pair 100 refl (omega arith) (omega arith) (omega arith)
      (omega arith)
