-- ===== src/Filter/Numeric/Whole.antt =====
-- A range query on a sorted table finds, among the rows of all fields, the buckets of its own.
use mathlib.Core.List.{append-nil}
use endee.Prelude.{
  ℕ, ◌^◌, ◌≤◌, ◌<◌, ◌≡◌, refl, sym, ap, subst, ◌∙◌, ◌⊎◌, inl, inr, true, false, not, ◌&&◌, Option,
  none, some, List, [], ◌∷◌, ◌++◌, arith, ℕ_discrete, ◌==◌, lt→ltb, Option-cases, length, All,
  All-map,
}
use endee.Roaring.{Roaring}
use endee.Mdbx.Cursor.{Row, lex_lt, last_row, set_range, prev_row, rows_after, OrderedTable}
use endee.Mdbx.Cursor.Places.{lex_lt_self, lex_lt-flip}
use endee.Mdbx.Cursor.Joined.{last_row-All}
use endee.Mdbx.Cursor.Blocks.{
  starts_with, block, IsSorted, LowFor, HighFor, HighFor-starts_with, IsSorted-Parts,
  LowFor-starts_with, block-starts_with,
}
use endee.Filter.Bucket.{Bucket}
use endee.Filter.Numeric.{prefix_of, make_bucket_key, NumericIndex}
use endee.Filter.Numeric.Keys.{starts_with-make_bucket_key}
use endee.Filter.Numeric.Range.{start_rows, scan, range}
use endee.Filter.Numeric.Field.{hits, IsField, small_bases, IsField-right, place}
use endee.Filter.Numeric.Rows.{row_of, rows_of, past, start_of}
use endee.Filter.Numeric.Collected.{hits-before, bases_after, scan-hits}
use endee.Filter.Numeric.Writes.{rows_at}
use endee.Filter.Numeric.Calls.{after}
use endee.Filter.Numeric.Floor.{prev_row_whole, prev_row_end, set_range_whole}
use endee.Filter.Numeric.Among.{
  scan-append, scan_twice, behind_bucket, start_rows-here, start_rows-less, rows_after_last,
}

module _ (R : Roaring) (field : List ℕ) where
  abbrev pub Finds : List (Bucket R) → ℕ → ℕ → Option R.Bitmap → Type 0
  Finds bs lo hi o =
      (result : R.Bitmap) × ((o ≡ some result)
        × ((id : ℕ) → R.contains result id ≡ hits R bs lo hi id))

  Finds-from :
      (n : ℕ) (bs : List (Bucket R)) (after : List Row) (lo hi : ℕ)
      → n < 2 ^ 16
      → IsField R n bs
      → All (HighFor (prefix_of field)) after
      → Finds bs lo hi (scan R field lo hi R.empty (rows_of R field bs ++ after))
  Finds-from n bs after lo hi hn f high =
      let (result, (done, collected)) = scan-hits R field n bs lo hi R.empty hn f in
      (
        result,
        (
          scan-append R field (rows_of R field bs) after lo hi R.empty high ∙ done,
          λ id. collected id ∙ rw (R.contains-empty id) refl,
        ),
      )

  -- No bucket of the field.
  Finds-none :
      (lo hi : ℕ) (rows : List Row)
      → (rows ≡ []
          ⊎ ((r : Row) × ((rest : List Row) × ((rows ≡ r ∷ rest)
                  × (starts_with (prefix_of field) r.0 ≡ false)))))
      → Finds [] lo hi (scan R field lo hi R.empty rows)
  unfolding scan
  Finds-none lo hi rows (inl e) = (R.empty, (rw (e, scan) refl, λ id. R.contains-empty id))
  Finds-none lo hi rows (inr (r, (rest, (e, out)))) =
      (R.empty, (rw (e, scan, out) refl, λ id. R.contains-empty id))

  module _ (before : List Row) (lo : ℕ) (hlo : lo < 2 ^ 32)
      (low : All (LowFor (prefix_of field)) before) where
    abbrev OutOf : List Row → Type 0
    OutOf rows =
        (rows ≡ [])
        ⊎ ((r : Row) × ((rest : List Row) × ((rows ≡ r ∷ rest)
                × (starts_with (prefix_of field) r.0 ≡ false))))

    low_out : (p : Row) → last_row before ≡ some p → starts_with (prefix_of field) p.0 ≡ false
    low_out p e =
        LowFor-starts_with (prefix_of field) p
          (last_row-All (LowFor (prefix_of field)) before p low e)

    start_rows-none :
        (after : List Row)
        → All (HighFor (prefix_of field)) after
        → OutOf (start_rows (before ++ after) field lo)
    unfolding start_rows
    start_rows-none [] high =
        let k = make_bucket_key field lo in
        let found : set_range (before ++ []) k ≡ none =
          set_range_whole field lo before [] tt low [] in
        let end : last_row (before ++ []) ≡ last_row before = ap last_row (append-nil before) in
        elim (Option-cases (last_row before)) [
          | inl e ↦ rw (found, end, e, start_rows) (inl refl)
          | inr (p, e) ↦
              let out : (not (length p.1 == 0) && starts_with (prefix_of field) p.0) ≡ false =
                rw (low_out p e) (ground arith) in
              rw (found, end, e, out, start_rows) (inl refl)
        ]
    start_rows-none (a ∷ tail) high =
        let k = make_bucket_key field lo in
        let out = HighFor-starts_with (prefix_of field) a high.0 in
        let reached : lex_lt a.0 k ≡ false =
          lex_lt-flip k a.0 (high.0 k (starts_with-make_bucket_key field lo)) in
        let found : set_range (before ++ (a ∷ tail)) k ≡ some a =
          set_range_whole field lo before [] tt low (a ∷ tail) ∙ rw reached refl in
        let prev : prev_row (before ++ (a ∷ tail)) a.0 ≡ last_row before =
          prev_row_end field lo before [] tt low a tail high.0 in
        elim (Option-cases (last_row before)) [
          | inl e ↦
              rw (found, out, prev, e, start_rows)
                (inr (a, (rows_after (before ++ (a ∷ tail)) a.0, (refl, out))))
          | inr (p, e) ↦
              rw (found, out, prev, e, low_out p e, start_rows)
                (inr (a, (rows_after (before ++ (a ∷ tail)) p.0, (refl, out))))
        ]

    -- All buckets start above the lower end: the scan starts at the first.
    Finds-first :
        (n : ℕ) (bs : List (Bucket R)) (after : List Row) (hi : ℕ)
        → n < 2 ^ 16
        → IsField R n bs
        → All (λ b. lo < b.base_value) bs
        → All (λ r. starts_with (prefix_of field) r.0 ≡ true) (rows_of R field bs)
        → All (HighFor (prefix_of field)) after
        → IsSorted (before ++ (rows_of R field bs ++ after))
        → Finds bs lo hi (
            scan R field lo hi R.empty
              (start_rows (before ++ (rows_of R field bs ++ after)) field lo))
    unfolding start_rows
    Finds-first n [] after hi hn f above inside high s =
        Finds-none lo hi (start_rows (before ++ after) field lo) (start_rows-none after high)
    Finds-first n (c ∷ cs) after hi hn f above inside high s =
        let xs = rows_of R field (c ∷ cs) in
        let key = make_bucket_key field c.base_value in
        let found : set_range (before ++ (xs ++ after)) (make_bucket_key field lo)
            ≡ some (row_of R field c) =
          set_range_whole field lo before xs inside low after
          ∙ rw (past R field lo c hlo f.0.small_base (omega (arith, above.0))) refl in
        let prev : prev_row (before ++ (xs ++ after)) key ≡ last_row before =
          prev_row_whole field lo before xs inside low after key
            (starts_with-make_bucket_key field c.base_value) high
          ∙ rw (lex_lt_self key) refl in
        elim (Option-cases (last_row before)) [
          | inl e ↦
              let rest =
                behind_bucket R field lo before hlo low after [] c cs high f.0.small_base
                  (small_bases R n cs f.1.1) tt
                  (bases_after R c cs c.base_value (omega arith) f.1.0) in
              rw
                (
                  found,
                  starts_with-make_bucket_key field c.base_value,
                  start_of R field c f.0.small_base,
                  lt→ltb lo c.base_value above.0,
                  prev,
                  e,
                  start_rows,
                  rest,
                )
                (Finds-from n (c ∷ cs) after lo hi hn f high)
          | inr (p, e) ↦
              let rest =
                rows_after_last before p (row_of R field c) (rows_of R field cs ++ after) s e in
              let (result, (done, collected)) = scan_twice R field n c cs lo hi hn f in
              rw
                (
                  found,
                  starts_with-make_bucket_key field c.base_value,
                  start_of R field c f.0.small_base,
                  lt→ltb lo c.base_value above.0,
                  prev,
                  e,
                  low_out p e,
                  start_rows,
                  rest,
                )
                (
                  result,
                  (
                    scan-append R field (row_of R field c ∷ rows_of R field (c ∷ cs)) after lo hi
                          R.empty high
                        ∙ done,
                    collected,
                  ),
                )
        ]

  Finds-place :
      (n : ℕ) (before : List Row) (pre : List (Bucket R)) (b : Bucket R) (post : List (Bucket R))
      (after : List Row) (lo hi : ℕ)
      → n < 2 ^ 16
      → lo < 2 ^ 32
      → IsField R n (pre ++ (b ∷ post))
      → All (LowFor (prefix_of field)) before
      → All (HighFor (prefix_of field)) after
      → All (λ r. starts_with (prefix_of field) r.0 ≡ true) (rows_of R field (pre ++ (b ∷ post)))
      → b.base_value ≤ lo
      → All (λ a. a.base_value < b.base_value) pre
      → All (λ c. lo < c.base_value) post
      → Finds (pre ++ (b ∷ post)) lo hi (
          scan R field lo hi R.empty
            (start_rows (before ++ (rows_of R field (pre ++ (b ∷ post)) ++ after)) field lo))
  Finds-place n before pre b post after lo hi hn hlo f low high inside lower below above =
      let from = IsField-right R n pre (b ∷ post) f in
      let small = small_bases R n post from.1.1 in
      let shape = rows_at R field pre b post in
      let inside' =
        subst (λ x. All (λ r. starts_with (prefix_of field) r.0 ≡ true) x) shape inside in
      let base_above : All (λ c. b.base_value < c.base_value) post =
        All-map (λ c. lo < c.base_value) (λ c. b.base_value < c.base_value)
          (λ c h. omega (arith, h, lower)) post above in
      let rest =
        behind_bucket R field lo before hlo low after pre b post high from.0.small_base small below
          base_above in
      let start : start_rows (before ++ (rows_of R field (pre ++ (b ∷ post)) ++ after)) field lo
          ≡ rows_of R field (b ∷ post) ++ after =
        ap (λ x. start_rows (before ++ (x ++ after)) field lo) shape
        ∙ (elim (ℕ_discrete b.base_value lo) [
          | yes e ↦ start_rows-here R field lo before hlo low after pre b post inside' below e rest
          | no less ↦
              start_rows-less R field lo before hlo low after pre b post high inside' small below
                (omega (arith, lower)) above rest
        ]) in
      let (result, (done, collected)) = Finds-from n (b ∷ post) after lo hi hn from high in
      (
        result,
        (
          ap (λ x. scan R field lo hi R.empty x) start ∙ done,
          λ id. collected id ∙ sym (hits-before R n pre b post lo hi id f lower),
        ),
      )

  pub range-whole :
      (T : OrderedTable) (ix : NumericIndex T) (n : ℕ) (bs : List (Bucket R)) (lo hi : ℕ)
      → IsSorted (T.rows ix.inverted_dbi)
      → block (prefix_of field) (T.rows ix.inverted_dbi) ≡ rows_of R field bs
      → n < 2 ^ 16
      → IsField R n bs
      → lo < 2 ^ 32
      → Finds bs lo hi (range R T ix field lo hi)
  unfolding range
  range-whole T ix n bs lo hi s same hn f hlo =
      let rows = T.rows ix.inverted_dbi in
      let p = prefix_of field in
      let parts = IsSorted-Parts p rows s in
      let shape : rows ≡ parts.before ++ (rows_of R field bs ++ parts.after) =
        parts.parts ∙ ap (λ x. parts.before ++ (x ++ parts.after)) same in
      let inside : All (λ r. starts_with p r.0 ≡ true) (rows_of R field bs) =
        subst (λ x. All (λ r. starts_with p r.0 ≡ true) x) same (block-starts_with p rows) in
      subst (λ x. Finds bs lo hi (scan R field lo hi R.empty (start_rows x field lo))) (sym shape)
        (elim (place R n lo bs f) [
          | inl above ↦
              Finds-first parts.before lo hlo parts.low n bs parts.after hi hn f above inside
                parts.high (subst IsSorted shape s)
          | inr q ↦
              let f' : IsField R n (q.pre ++ (q.here ∷ q.post)) =
                subst (λ x. IsField R n x) q.parts f in
              let inside' =
                subst (λ x. All (λ r. starts_with p r.0 ≡ true) (rows_of R field x)) q.parts
                  inside in
              subst
                (λ x. Finds x lo hi (
                  scan R field lo hi R.empty
                    (start_rows (parts.before ++ (rows_of R field x ++ parts.after)) field lo)))
                (sym q.parts)
                (Finds-place n parts.before q.pre q.here q.post parts.after lo hi hn hlo f'
                  parts.low parts.high inside' q.low q.before q.after)
        ])
