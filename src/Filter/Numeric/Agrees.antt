-- ===== src/Filter/Numeric/Agrees.antt =====
-- The tables hold the numbers of a map, and each operation keeps that so.
use endee.Prelude.{
  ℕ, suc, ◌^◌, ◌<◌, ◌≡◌, refl, sym, ap, subst, ◌∙◌, inl, inr, false, not, ◌&&◌, Option, none, some,
  some-injective, List, arith, ◌==◌, if◌then◌else◌, ==_iff, ==_refl, Bool-cases, Option-cases,
  le_bytes,
}
use endee.Roaring.{Roaring}
use endee.Mdbx.Cursor.{OrderedTable}
use endee.Filter.Bucket.{Bucket}
use endee.Filter.Numeric.{
  put as put_number, remove as remove_number, NumericIndex, forward_value, make_forward_key,
  put_value, remove_from_buckets,
}
use endee.Filter.Numeric.Field.{is_at, has, IsField, IsField-more}
use endee.Filter.Numeric.Rows.{rows_of}
use endee.Filter.Numeric.Removal.{remove_from_buckets_lem, Gives}
use endee.Filter.Numeric.Addition.{add_to_buckets_lem}
use endee.Filter.Numeric.Forward.{forward-put, forward-del}
use endee.Filter.Numeric.Calls.{after, put_call, remove_call}

module _ (R : Roaring) (T : OrderedTable) (field : List ℕ) where
  -- The tables hold the numbers of a map: the forward table under its keys, the buckets in order.
  pub record Agrees (n : ℕ) (vals : ℕ → Option ℕ) (ix : NumericIndex T) : Type 0 where
    pub buckets : List (Bucket R)
    pub table : T.rows ix.inverted_dbi ≡ rows_of R field buckets
    pub valid : IsField R n buckets
    pub reads : (j w : ℕ) → has R buckets j w ≡ is_at (vals j) w
    pub forward : (j : ℕ) → j < 2 ^ 32 → forward_value R T ix.forward_dbi field j ≡ vals j
    pub small : (j w : ℕ) → vals j ≡ some w → w < 2 ^ 32

  pub put_value-Agrees :
      (n : ℕ) (vals : ℕ → Option ℕ) (ix : NumericIndex T) (inverted : T.Db) (bs : List (Bucket R))
      (id v : ℕ)
      → n < 2 ^ 16
      → id < 2 ^ 32
      → v < 2 ^ 32
      → T.rows inverted ≡ rows_of R field bs
      → IsField R n bs
      → ((j w : ℕ) → has R bs j w ≡ (not (id == j) && is_at (vals j) w))
      → ((j : ℕ) → j < 2 ^ 32 → forward_value R T ix.forward_dbi field j ≡ vals j)
      → ((j w : ℕ) → vals j ≡ some w → w < 2 ^ 32)
      → (ix' : NumericIndex T) × ((put_value R T ix inverted field id v ≡ some ix')
          × Agrees (suc n) (after vals (put_call id v)) ix')
  unfolding put_value after
  put_value-Agrees n vals ix inverted bs id v hn hid hv rows f others fwd sm =
      let absent : (w : ℕ) → has R bs id w ≡ false = λ w. others id w ∙ rw (==_refl id) refl in
      let (cs, (gives, one_more)) =
        add_to_buckets_lem R T field inverted n bs id v rows hn f hv hid absent in
      (
        record {
          forward_dbi = T.put ix.forward_dbi (make_forward_key field id) (le_bytes 4 v);
          inverted_dbi = gives.db;
        },
        (
          rw (gives.done, put_value) refl,
          record {
            buckets = cs;
            table = gives.table;
            valid = gives.valid;
            reads = λ j w. one_more j w ∙ elim (Bool-cases (id == j)) [
              | inl same ↦ rw (same, after) refl
              | inr other ↦ rw (other, after) (others j w ∙ rw other refl)
            ];
            forward = λ j hj.
                forward-put R T field ix.forward_dbi id v j hid hv hj
                ∙ ap (λ o. if id == j then some v else o) (fwd j hj);
            small = λ j w e. elim (Bool-cases (id == j)) [
              | inl same ↦ omega (arith, some-injective v w (sym (rw (same, after) refl) ∙ e))
              | inr other ↦ sm j w (sym (rw (other, after) refl) ∙ e)
            ];
          },
        ),
      )

  pub Agrees-more :
      (n : ℕ) (vals : ℕ → Option ℕ) (ix : NumericIndex T)
      → Agrees n vals ix
      → Agrees (suc n) vals ix
  Agrees-more n vals ix a = record {
    buckets = a.buckets;
    table = a.table;
    valid = IsField-more R n a.buckets a.valid;
    reads = a.reads;
    forward = a.forward;
    small = a.small;
  }

  -- What `remove_from_buckets` leaves when an identifier has a number.
  pub removed :
      (n : ℕ) (vals : ℕ → Option ℕ) (ix : NumericIndex T) (id old : ℕ)
      → n < 2 ^ 16
      → Agrees n vals ix
      → vals id ≡ some old
      → (cs : List (Bucket R)) × (Gives R T field n
            (remove_from_buckets R T ix.inverted_dbi field old id)
            cs
          × ((j w : ℕ) → has R cs j w ≡ (not (id == j) && is_at (vals j) w)))
  removed n vals ix id old hn a e =
      let only : (w : ℕ) → has R a.buckets id w ≡ (old == w) = λ w. a.reads id w ∙ rw e refl in
      let (cs, (gives, without)) =
        remove_from_buckets_lem R T field ix.inverted_dbi n a.buckets id old a.table hn a.valid
          (a.small id old e) only in
      (cs, (gives, λ j w. without j w ∙ ap (λ x. not (id == j) && x) (a.reads j w)))

  pub Agrees-same :
      (n : ℕ) (vals vals' : ℕ → Option ℕ) (ix : NumericIndex T)
      → ((j : ℕ) → vals j ≡ vals' j)
      → Agrees n vals ix
      → Agrees (suc n) vals' ix
  Agrees-same n vals vals' ix same a = record {
    buckets = a.buckets;
    table = a.table;
    valid = IsField-more R n a.buckets a.valid;
    reads = λ j w. a.reads j w ∙ ap (λ o. is_at o w) (same j);
    forward = λ j hj. a.forward j hj ∙ same j;
    small = λ j w e. a.small j w (same j ∙ e);
  }

  -- An identifier without a number has no entry to take out.
  pub without_none :
      (vals : ℕ → Option ℕ) (id j w : ℕ)
      → vals id ≡ none
      → is_at (vals j) w ≡ (not (id == j) && is_at (vals j) w)
  without_none vals id j w e = elim (Bool-cases (id == j)) [
    | inl same ↦
        let at : id ≡ j = (==_iff id j).0 same in
        let gone : vals j ≡ none = subst (λ x. vals x ≡ none) at e in rw (same, gone) refl
    | inr other ↦ rw other refl
  ]

  -- Storing a number for an identifier.
  pub put-Agrees :
      (n : ℕ) (vals : ℕ → Option ℕ) (ix : NumericIndex T) (id v : ℕ)
      → n < 2 ^ 16
      → id < 2 ^ 32
      → v < 2 ^ 32
      → Agrees n vals ix
      → (ix' : NumericIndex T) × ((put_number R T ix field id v ≡ some ix')
          × Agrees (suc n) (after vals (put_call id v)) ix')
  unfolding put_number after
  put-Agrees n vals ix id v hn hid hv a = elim (Option-cases (vals id)) [
    | inl e ↦
        let start = a.forward id hid ∙ e in
        let (ix', (done, agrees)) =
          put_value-Agrees n vals ix ix.inverted_dbi a.buckets id v hn hid hv a.table a.valid
            (λ j w. a.reads j w ∙ without_none vals id j w e) a.forward a.small in
        (ix', (rw (start, put_number) done, agrees))
    | inr (old, e) ↦
        let start = a.forward id hid ∙ e in
        elim (Bool-cases (old == v)) [
          | inl same ↦
              let at : old ≡ v = (==_iff old v).0 same in
              (
                ix,
                (
                  rw (start, same, put_number) refl,
                  Agrees-same n vals (after vals (put_call id v)) ix
                      (λ j. elim (Bool-cases (id == j)) [
                        | inl hit ↦
                            rw (hit, after) (ap vals (sym ((==_iff id j).0 hit)) ∙ e ∙ ap some at)
                        | inr miss ↦ rw (miss, after) refl
                      ])
                      a,
                ),
              )
          | inr other ↦
              let (cs, (gives, others)) = removed n vals ix id old hn a e in
              let (ix', (done, agrees)) =
                put_value-Agrees n vals ix gives.db cs id v hn hid hv gives.table gives.valid others
                  a.forward a.small in
              (ix', (rw (start, other, gives.done, put_number) done, agrees))
        ]
  ]

  -- Taking an identifier out.
  pub remove-Agrees :
      (n : ℕ) (vals : ℕ → Option ℕ) (ix : NumericIndex T) (id : ℕ)
      → n < 2 ^ 16
      → id < 2 ^ 32
      → Agrees n vals ix
      → (ix' : NumericIndex T) × ((remove_number R T ix field id ≡ some ix')
          × Agrees (suc n) (after vals (remove_call id)) ix')
  unfolding remove_number after
  remove-Agrees n vals ix id hn hid a = elim (Option-cases (vals id)) [
    | inl e ↦
        let start = a.forward id hid ∙ e in
        (
          ix,
          (
            rw (start, remove_number) refl,
            Agrees-same n vals (after vals (remove_call id)) ix
                (λ j. elim (Bool-cases (id == j)) [
                  | inl hit ↦ rw (hit, after) (ap vals (sym ((==_iff id j).0 hit)) ∙ e)
                  | inr miss ↦ rw (miss, after) refl
                ])
                a,
          ),
        )
    | inr (old, e) ↦
        let start = a.forward id hid ∙ e in
        let (cs, (gives, others)) = removed n vals ix id old hn a e in
        (
          record {
            forward_dbi = T.del ix.forward_dbi (make_forward_key field id);
            inverted_dbi = gives.db;
          },
          (
            rw (start, gives.done, remove_number) refl,
            record {
              buckets = cs;
              table = gives.table;
              valid = IsField-more R n cs gives.valid;
              reads = λ j w. others j w ∙ elim (Bool-cases (id == j)) [
                | inl hit ↦ rw (hit, after) refl
                | inr miss ↦ rw (miss, after) refl
              ];
              forward = λ j hj.
                  forward-del R T field ix.forward_dbi id j hid hj
                  ∙ ap (λ o. if id == j then none else o) (a.forward j hj);
              small = λ j w h. elim (Bool-cases (id == j)) [
                | inl hit ↦ absurd (no_value (sym (rw (hit, after) refl) ∙ h))
                | inr miss ↦ a.small j w (sym (rw (miss, after) refl) ∙ h)
              ];
            },
          ),
        )
  ]
    where
      no_value : {w : ℕ} → none ≡ some w → ⊥
      no_value h = cc
