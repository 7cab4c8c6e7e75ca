-- ===== src/Filter/Numeric/Fields.antt =====
-- The numeric index over calls for several fields: a range query of one field finds what the calls for
-- that field say.
use endee.Prelude.{
  ℕ, suc, ◌+◌, ◌^◌, ◌<◌, ◌≡◌, refl, sym, ap, subst, ◌∙◌, inl, inr, Option, none, some, List, [],
  ◌∷◌, arith, if◌then◌else◌, Bool-cases, length, All,
}
use endee.Roaring.{Roaring}
use endee.Mdbx.Cursor.{same_key, sorted_rows, OrderedTable}
use endee.Mdbx.Cursor.Places.{same_key-≡}
use endee.Mdbx.Cursor.Blocks.{block, IsSorted}
use endee.Filter.Numeric.{prefix_of, forward_value, check_range, NumericIndex}
use endee.Filter.Numeric.Range.{range}
use endee.Filter.Numeric.Field.{is_in_range, IsField-more}
use endee.Filter.Numeric.Values.{hits-values}
use endee.Filter.Numeric.Forward.{forward-empty}
use endee.Filter.Numeric.Calls.{after, IsSmall, call, empty_index, Call, put_call, remove_call}
use endee.Filter.Numeric.Agrees.{put-Agrees, remove-Agrees, Agrees}
use endee.Filter.Numeric.Mirror.{Apart}
use endee.Filter.Numeric.Views.{
  IsColonFree, prefix_of-Apart, view, forward_view, put-Steps, remove-Steps, Steps,
}
use endee.Filter.Numeric.Whole.{range-whole}

abbrev pub SmallCall : List ℕ × Call → Type 0
SmallCall c = IsColonFree c.0 × IsSmall c.1

-- One map for each field, of which a call changes that of its own.
unfoldable pub after_in : (List ℕ → ℕ → Option ℕ) → List ℕ × Call → List ℕ → ℕ → Option ℕ
after_in vals c g = if same_key c.0 g then after (vals g) c.1 else vals g

unfoldable pub values_in : (List ℕ → ℕ → Option ℕ) → List (List ℕ × Call) → List ℕ → ℕ → Option ℕ
values_in vals [] = vals
values_in vals (c ∷ cs) = values_in (after_in vals c) cs

module _ (R : Roaring) (T : OrderedTable) where
  unfoldable pub run_all : NumericIndex T → List (List ℕ × Call) → Option (NumericIndex T)
  run_all ix [] = some ix
  run_all ix (c ∷ cs) = elim (call R T c.0 ix c.1) [ none ↦ none | some ix' ↦ run_all ix' cs ]

  -- Every field's view has the numbers of the field's map.
  record Holds (n : ℕ) (vals : List ℕ → ℕ → Option ℕ) (ix : NumericIndex T) : Type 0 where
    sorted : IsSorted (T.rows ix.inverted_dbi)
    each : (g : List ℕ) → IsColonFree g → Agrees R sorted_rows g n (vals g) (view R T g ix)

  own-Agrees :
      (f : List ℕ) (n : ℕ) (vals : ℕ → Option ℕ) (ix ix' : NumericIndex T)
      (jx : NumericIndex sorted_rows)
      → Steps R T f ix ix' jx
      → Agrees R sorted_rows f n vals jx
      → Agrees R sorted_rows f n vals (view R T f ix')
  own-Agrees f n vals ix ix' jx s a = record {
    buckets = a.buckets;
    table = s.inverted_same ∙ a.table;
    valid = a.valid;
    reads = a.reads;
    forward = λ j hj. ap (λ x. forward_value R sorted_rows x f j) s.forward_same ∙ a.forward j hj;
    small = a.small;
  }

  other-Agrees :
      (f g : List ℕ) (n : ℕ) (vals : ℕ → Option ℕ) (ix ix' : NumericIndex T)
      (jx : NumericIndex sorted_rows)
      → Apart (prefix_of f) (prefix_of g)
      → Steps R T f ix ix' jx
      → Agrees R sorted_rows g n vals (view R T g ix)
      → Agrees R sorted_rows g (suc n) vals (view R T g ix')
  other-Agrees f g n vals ix ix' jx apart s a = record {
    buckets = a.buckets;
    table = s.others_inverted (prefix_of g) apart ∙ a.table;
    valid = IsField-more R n a.buckets a.valid;
    reads = a.reads;
    forward = λ j hj.
        forward_view R T g ix'.forward_dbi g j
        ∙ s.others_forward g j apart
        ∙ sym (forward_view R T g ix.forward_dbi g j)
        ∙ a.forward j hj;
    small = a.small;
  }

  Steps-Holds :
      (f : List ℕ) (c : Call) (n : ℕ) (vals : List ℕ → ℕ → Option ℕ) (ix ix' : NumericIndex T)
      (jx : NumericIndex sorted_rows)
      → IsColonFree f
      → Holds n vals ix
      → Steps R T f ix ix' jx
      → Agrees R sorted_rows f (suc n) (after (vals f) c) jx
      → Holds (suc n) (after_in vals (f, c)) ix'
  unfolding after_in
  Steps-Holds f c n vals ix ix' jx free h s a = record {
    sorted = s.sorted;
    each = λ g free_g. elim (Bool-cases (same_key f g)) [
      | inl same ↦
          let at : f ≡ g = same_key-≡ f g same in
          rw (same, after_in)
            (subst (λ x. Agrees R sorted_rows x (suc n) (after (vals x) c) (view R T x ix')) at
              (own-Agrees f (suc n) (after (vals f) c) ix ix' jx s a))
      | inr other ↦
          rw (other, after_in)
            (other-Agrees f g n (vals g) ix ix' jx (prefix_of-Apart f g free free_g other) s
              (h.each g free_g))
    ];
  }

  call-Holds :
      (n : ℕ) (vals : List ℕ → ℕ → Option ℕ) (ix : NumericIndex T) (c : List ℕ × Call)
      → n < 2 ^ 16
      → SmallCall c
      → Holds n vals ix
      → (ix' : NumericIndex T) × ((call R T c.0 ix c.1 ≡ some ix')
          × Holds (suc n) (after_in vals c) ix')
  unfolding call
  call-Holds n vals ix (f, put_call id v) hn small h =
      let (jx, (done, a)) =
        put-Agrees R sorted_rows f n (vals f) (view R T f ix) id v hn small.1.0 small.1.1
          (h.each f small.0) in
      let (ix', (done', s)) = put-Steps R T f ix id v jx h.sorted done in
      (ix', (done', Steps-Holds f (put_call id v) n vals ix ix' jx small.0 h s a))
  call-Holds n vals ix (f, remove_call id) hn small h =
      let (jx, (done, a)) =
        remove-Agrees R sorted_rows f n (vals f) (view R T f ix) id hn small.1 (h.each f small.0) in
      let (ix', (done', s)) = remove-Steps R T f ix id jx h.sorted done in
      (ix', (done', Steps-Holds f (remove_call id) n vals ix ix' jx small.0 h s a))

  run_all-Holds :
      (n : ℕ) (vals : List ℕ → ℕ → Option ℕ) (ix : NumericIndex T) (cs : List (List ℕ × Call))
      → n + length cs < 2 ^ 16
      → All SmallCall cs
      → Holds n vals ix
      → (ix' : NumericIndex T) × ((run_all ix cs ≡ some ix')
          × Holds (n + length cs) (values_in vals cs) ix')
  unfolding run_all values_in
  run_all-Holds n vals ix [] hn small h = (ix, (refl, subst (λ k. Holds k vals ix) (omega arith) h))
  run_all-Holds n vals ix (c ∷ cs) hn small h =
      let (next, (done, h')) = call-Holds n vals ix c (omega arith) small.0 h in
      let (ix', (rest, h'')) =
        run_all-Holds (suc n) (after_in vals c) next cs (omega arith) small.1 h' in
      (
        ix',
        (
          rw (done, run_all) rest,
          subst (λ k. Holds k (values_in (after_in vals c) cs) ix') (omega arith) h'',
        ),
      )

  empty-Holds : Holds 0 (λ g j. none) (empty_index T)
  empty-Holds = record {
    sorted = subst IsSorted (sym T.rows-empty) tt;
    each = λ g free. record {
      buckets = [];
      table = ap (λ x. block (prefix_of g) x) T.rows-empty;
      valid = tt;
      reads = λ j w. refl;
      forward = λ j hj. forward_view R T g T.empty g j ∙ forward-empty R T g j;
      small = λ j w e. absurd (cc);
    };
  }

  -- Every sequence of fewer than 65536 calls, for fields without a colon in their names and with
  -- identifiers and values below 2 ^ 32, returns; and then each range query of a field returns the
  -- identifiers whose number in that field is in the range.
  pub run_all-range :
      (cs : List (List ℕ × Call)) (field : List ℕ) (lo hi : ℕ)
      → length cs < 2 ^ 16
      → All SmallCall cs
      → IsColonFree field
      → lo < 2 ^ 32
      → (ix : NumericIndex T) × ((run_all (empty_index T) cs ≡ some ix)
          × ((result : R.Bitmap) × ((range R T ix field lo hi ≡ some result)
                × ((id : ℕ)
                    → R.contains result id
                      ≡ is_in_range lo hi (values_in (λ g j. none) cs field id)))))
  run_all-range cs field lo hi few small free hlo =
      let (ix, (done, h)) =
        run_all-Holds 0 (λ g j. none) (empty_index T) cs (omega (arith, few)) small empty-Holds in
      let a = h.each field free in
      let (result, (found, collected)) =
        range-whole R field T ix (0 + length cs) a.buckets lo hi h.sorted a.table
          (omega (arith, few)) a.valid hlo in
      (
        ix,
        (
          done,
          (
            result,
            (
              found,
              λ id.
                  collected id
                  ∙ hits-values R a.buckets lo hi id (values_in (λ g j. none) cs field id)
                      (a.reads id),
            ),
          ),
        ),
      )

  -- After fewer than 65536 calls, for fields without a colon in their names and with identifiers and
  -- values below 2 ^ 32, the test of an identifier below 2 ^ 32 says whether its number in a field
  -- without a colon is in the range.
  pub run_all-check_range :
      (cs : List (List ℕ × Call)) (field : List ℕ) (id lo hi : ℕ)
      → length cs < 2 ^ 16
      → All SmallCall cs
      → IsColonFree field
      → id < 2 ^ 32
      → (ix : NumericIndex T) × ((run_all (empty_index T) cs ≡ some ix)
          × (check_range R T ix field id lo hi
              ≡ is_in_range lo hi (values_in (λ g j. none) cs field id)))
  unfolding check_range
  run_all-check_range cs field id lo hi few small free hid =
      let (ix, (done, h)) =
        run_all-Holds 0 (λ g j. none) (empty_index T) cs (omega (arith, few)) small empty-Holds in
      let a = h.each field free in
      (
        ix,
        (
          done,
          check ix (values_in (λ g j. none) cs field id)
              (sym (forward_view R T field ix.forward_dbi field id) ∙ a.forward id hid),
        ),
      )
    where
      check :
          (ix : NumericIndex T) (o : Option ℕ)
          → forward_value R T ix.forward_dbi field id ≡ o
          → check_range R T ix field id lo hi ≡ is_in_range lo hi o
      check ix none e = rw (e, check_range) refl
      check ix (some v) e = rw (e, check_range) refl
