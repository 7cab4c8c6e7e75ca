-- ===== src/Filter/Numeric/Tests.antt =====
-- The numeric index at concrete inputs.
use endee.Prelude.{ℕ, ◌<◌, ◌≡◌, refl, ◌⊎◌, false, Option, none, some, List, [], ◌∷◌, arith, any_eq}
use endee.Mdbx.Cursor.{sorted_rows}
use endee.Roaring.{lists}
use endee.Filter.Bucket.{
  add, insert_entry, lower_bound, remove as remove_id, index_of, empty_bucket, serialize,
  write_words, deserialize, deserialize_entries, read_words, is_empty as is_empty_bucket, get_value,
  Bucket,
}
use endee.Filter.Bucket.Lookup.{value_of, IsBucket}
use endee.Filter.Numeric.{
  put as put_number, remove as remove_number, forward_value, make_forward_key, to_string, digits,
  put_value, remove_from_buckets, add_to_buckets, target_row, find_row, make_bucket_key, be_bytes,
  parse_bucket_key_val, of_result, probe_right, probe_left, split_index, split, check_range,
  NumericIndex,
}
use endee.Filter.Numeric.Range.{start_rows, add_matching, collect_bucket, scan, range}
use endee.Filter.Numeric.Field.{is_in_range, IsStored}
use endee.Filter.Numeric.Scan.{collect_bucket-contains}
use endee.Filter.Numeric.Halves.{split_index-Cuts, Cuts}
use endee.Filter.Numeric.Cut.{below_part, above_part}
use endee.Filter.Numeric.Split.{split-parts}
use endee.Filter.Numeric.Calls.{call, empty_index, Call, put_call, remove_call}
use endee.Filter.Numeric.Fields.{values_in, run_all, run_all-range, run_all-check_range}

-- The bytes of "age" and "cost".
abbrev age : List ℕ
age = 97 ∷ (103 ∷ (101 ∷ []))

abbrev cost : List ℕ
cost = 99 ∷ (111 ∷ (115 ∷ (116 ∷ [])))

abbrev few_calls : List (List ℕ × Call)
few_calls =
    (age, put_call 3 10)
    ∷ ((age, put_call 4 20)
        ∷ ((cost, put_call 4 30)
            ∷ ((age, put_call 5 70000) ∷ ((age, put_call 3 30) ∷ ((age, remove_call 4) ∷ [])))))

abbrev full_deltas : List ℕ
full_deltas = 0 ∷ (7 ∷ (7 ∷ (9 ∷ [])))

abbrev four : Bucket lists
four = record {
  base_value = 100;
  deltas = full_deltas;
  ids = 4 ∷ (2 ∷ (5 ∷ (6 ∷ [])));
  summary_bitmap = 6 ∷ (5 ∷ (2 ∷ (4 ∷ [])));
  is_dirty = false;
}

four-summary : (j : ℕ) → lists.contains four.summary_bitmap j ≡ any_eq j four.ids
four-summary j = ground arith

four-IsBucket : IsBucket lists four
four-IsBucket = record {
  same_length = refl;
  sorted = omega arith;
  fits = omega arith;
  distinct = (refl, (refl, (refl, (refl, tt))));
  summary = four-summary;
}

four-IsStored : IsStored lists 4 four
four-IsStored = record {
  valid = four-IsBucket;
  few = omega arith;
  few_bits = omega arith;
  small_ids = omega arith;
  small_base = omega arith;
}

four-Cuts : Cuts full_deltas 1
four-Cuts = record { some_left = omega arith; some_right = omega arith; rises = omega arith }

-- The middle is between two values that are equal; the cut moves behind them.
cut_behind : split_index full_deltas ≡ 3
unfolding split_index probe_right probe_left
cut_behind = refl

split_index-Cuts_example :
    (split_index full_deltas ≡ 4) ⊎ Cuts full_deltas (split_index full_deltas)
split_index-Cuts_example = split_index-Cuts full_deltas (omega arith) (omega arith)

split-parts_example :
    (l : Bucket lists) × ((r : Bucket lists) × ((split lists four 1 ≡ some (l, r))
        × ((IsBucket lists l × IsBucket lists r)
            × (((l.base_value ≡ 100) × (100 < r.base_value))
                × ((j : ℕ)
                    → (value_of lists l j ≡ below_part r.base_value (value_of lists four j))
                      × (value_of lists r j ≡ above_part r.base_value (value_of lists four j)))))))
split-parts_example = split-parts lists 4 four 1 four-IsStored four-Cuts

collect_bucket-contains_example :
    lists.contains (collect_bucket lists four 101 108 []) 5
    ≡ is_in_range 101 108 (value_of lists four 5)
collect_bucket-contains_example = collect_bucket-contains lists four 101 108 [] 5 four-IsBucket refl

run_all-range_example :
    (ix : NumericIndex sorted_rows) × ((run_all lists sorted_rows
          (empty_index sorted_rows)
          few_calls
        ≡ some ix)
      × ((result : lists.Bitmap) × ((range lists sorted_rows ix age 25 90000 ≡ some result)
            × ((id : ℕ)
                → lists.contains result id
                  ≡ is_in_range 25 90000 (values_in (λ g j. none) few_calls age id)))))
run_all-range_example =
    run_all-range lists sorted_rows few_calls age 25 90000 (omega arith) (ground arith)
      (ground arith) (omega arith)

run_all-check_range_example :
    (ix : NumericIndex sorted_rows) × ((run_all lists sorted_rows
          (empty_index sorted_rows)
          few_calls
        ≡ some ix)
      × (check_range lists sorted_rows ix age 3 25 90000
          ≡ is_in_range 25 90000 (values_in (λ g j. none) few_calls age 3)))
run_all-check_range_example =
    run_all-check_range lists sorted_rows few_calls age 3 25 90000 (omega arith) (ground arith)
      (ground arith) (omega arith)

-- Number 4 is taken out again, and 3 has its second value.
abbrev answer : Option (NumericIndex sorted_rows) → Option (List ℕ)
answer none = none
answer (some ix) = range lists sorted_rows ix age 25 90000

found_two :
    answer (run_all lists sorted_rows (empty_index sorted_rows) few_calls) ≡ some (3 ∷ (5 ∷ []))
unfolding run_all call put_number remove_number forward_value make_forward_key to_string digits
    put_value remove_from_buckets add_to_buckets target_row find_row make_bucket_key be_bytes
    parse_bucket_key_val of_result add insert_entry lower_bound remove_id index_of empty_bucket
    serialize write_words deserialize deserialize_entries read_words is_empty_bucket start_rows scan
    collect_bucket get_value add_matching range
found_two = refl
