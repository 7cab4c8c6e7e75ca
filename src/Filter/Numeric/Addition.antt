-- ===== src/Filter/Numeric/Addition.antt =====
-- `add_to_buckets` gives an identifier its number in the buckets, and leaves the others.
use endee.Prelude.{
  ℕ, suc, ◌+◌, ◌^◌, ◌<◌, ◌≡◌, refl, sym, ap, subst, ◌∙◌, inl, inr, false, none, List, [], ◌∷◌, ◌++◌,
  arith, leb, ◌==◌, leb→le, ==_iff, Bool-cases, All, All-map,
}
use endee.Roaring.{Roaring}
use endee.Mdbx.Cursor.{put_row, OrderedTable}
use endee.Filter.Bucket.{max_delta, serialize, Bucket}
use endee.Filter.Bucket.Lookup.{value_of}
use endee.Filter.Numeric.{make_bucket_key, find_row, save, target_row, add_to_buckets}
use endee.Filter.Numeric.Field.{
  All-at, has, IsField, IsField-more, small_bases, IsField-right, place, IsField-replace,
}
use endee.Filter.Numeric.Rows.{rows_of, find_row-none}
use endee.Filter.Numeric.Contents.{has-Absent}
use endee.Filter.Numeric.Writes.{write_between}
use endee.Filter.Numeric.Removal.{Gives}
use endee.Filter.Numeric.Inserts.{With, With-one, new-Precedes}
use endee.Filter.Numeric.Runs.{target_none, run_new}
use endee.Filter.Numeric.Changes.{IsNew-bucket, Changed-far, Changed-near, Changed}

module _ (R : Roaring) (T : OrderedTable) (field : List ℕ) where
  first_place :
      (db : T.Db) (n : ℕ) (bs : List (Bucket R)) (id v : ℕ)
      → v < 2 ^ 32
      → id < 2 ^ 32
      → T.rows db ≡ rows_of R field bs
      → IsField R n bs
      → All (λ c. v < c.base_value) bs
      → ((w : ℕ) → has R bs id w ≡ false)
      → (cs : List (Bucket R)) × (Gives R T field (suc n) (add_to_buckets R T db field v id) cs
          × With R bs id v cs)
  first_place db n bs id v hv hid rows f above absent =
      let (b', (done, new)) = IsNew-bucket R n v id hv hid in
      let key = make_bucket_key field v in
      let small = small_bases R n bs f in
      let higher : All (λ c. b'.base_value < c.base_value) bs =
        All-map (λ c. v < c.base_value) (λ c. b'.base_value < c.base_value)
          (λ c h. omega (arith, h, new.base)) bs above in
      let target : target_row R T (T.rows db) field v ≡ none =
        target_none R T field (T.rows db) v
          (ap (λ x. find_row x field v) rows ∙ find_row-none R field v bs hv small above) in
      (
        b' ∷ bs,
        (
          record {
            db = save R T db key b';
            done = run_new R T field db v id b' target done;
            table =
                T.rows-put db key (serialize R b')
                ∙ ap (λ x. put_row key (serialize R b') x) rows
                ∙ ap (λ x. put_row (make_bucket_key field x) (serialize R b') (rows_of R field bs))
                    (sym new.base)
                ∙ write_between R field [] b' bs new.stored.small_base tt small higher;
            valid = (new.stored, (new-Precedes R n id v b' bs new above, IsField-more R n bs f));
          },
          λ j w. elim (Bool-cases (id == j)) [
            | inl same ↦
                let at : id ≡ j = (==_iff id j).0 same in
                let gone : has R bs j w ≡ false = subst (λ x. has R bs x w ≡ false) at (absent w) in
                rw (new.values j, same, gone) (ground arith)
            | inr other ↦ rw (new.values j, other) refl
          ],
        ),
      )

  -- An identifier without a number is given one below 2 ^ 32, and nothing else changes.
  pub add_to_buckets_lem :
      (db : T.Db) (n : ℕ) (bs : List (Bucket R)) (id v : ℕ)
      → T.rows db ≡ rows_of R field bs
      → n < 2 ^ 16
      → IsField R n bs
      → v < 2 ^ 32
      → id < 2 ^ 32
      → ((w : ℕ) → has R bs id w ≡ false)
      → (cs : List (Bucket R)) × (Gives R T field (suc n) (add_to_buckets R T db field v id) cs
          × With R bs id v cs)
  add_to_buckets_lem db n bs id v rows hn f hv hid absent = elim (place R n v bs f) [
    | inl above ↦ first_place db n bs id v hv hid rows f above absent
    | inr p ↦
        let f' : IsField R n (p.pre ++ (p.here ∷ p.post)) = subst (λ x. IsField R n x) p.parts f in
        let absent' = subst (λ x. (w : ℕ) → has R x id w ≡ false) p.parts absent in
        let rows' = rows ∙ ap (λ x. rows_of R field x) p.parts in
        let from = IsField-right R n p.pre (p.here ∷ p.post) f' in
        let gone =
          All-at (λ b. value_of R b id ≡ none) p.pre p.here p.post
            (has-Absent R (p.pre ++ (p.here ∷ p.post)) id absent') in
        let small = small_bases R n p.post from.1.1 in
        let c : Changed R T field n db p.pre p.here p.post id v =
          elim (Bool-cases (leb v (p.here.base_value + max_delta))) [
            | inl near ↦
                Changed-near R T field db n p.pre p.here p.post id v hn hv hid rows' from.0 from.1.0
                  small gone p.low p.before p.after (leb→le v (p.here.base_value + max_delta) near)
            | inr far ↦
                Changed-far R T field db n p.pre p.here p.post id v hn hv hid rows' from.0 from.1.0
                  small gone p.low p.before p.after (ground arith)
          ] in
        (
          p.pre ++ (c.cs ++ p.post),
          (
            record {
              db = c.out;
              done = c.done;
              table = c.table;
              valid =
                  IsField-replace R (suc n) p.pre p.here p.post c.cs
                    (IsField-more R n (p.pre ++ (p.here ∷ p.post)) f') c.joined.field_valid
                    c.joined.starts c.joined.order;
            },
            subst (λ x. With R x id v (p.pre ++ (c.cs ++ p.post))) (sym p.parts)
                (With-one R p.pre p.here c.cs p.post id v absent' c.joined.here),
          ),
        )
  ]
