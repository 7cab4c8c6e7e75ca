-- ===== src/Filter/Numeric/Sims.antt =====
-- `remove_from_buckets` and `add_to_buckets` in a table of many fields, followed in the table of one.
use endee.Prelude.{
  ℕ, ◌-◌, ◌≡◌, refl, sym, ap, subst₂, ◌∙◌, inl, inr, true, false, not, Option, none, some, List,
  arith, ltb, leb, ◌==◌, if◌then◌else◌, Bool-cases, Option-cases, length,
}
use endee.Roaring.{Roaring}
use endee.Mdbx.Cursor.{Row, put_row, get_row, sorted_rows, OrderedTable}
use endee.Mdbx.Cursor.Blocks.{starts_with, IsSorted}
use endee.Filter.Bucket.{
  Bucket, add, remove as remove_id, is_empty as is_empty_bucket, empty_bucket, deserialize,
  serialize, max_size, max_delta,
}
use endee.Filter.Numeric.{
  prefix_of, make_bucket_key, parse_bucket_key_val, find_row, split_index, of_result, split, save,
  remove_from_buckets, target_row, add_to_full, add_to_buckets,
}
use endee.Filter.Numeric.Keys.{starts_with-make_bucket_key}
use endee.Filter.Numeric.Rows.{past}
use endee.Filter.Numeric.Floor.{accept, accept-find_row}
use endee.Filter.Numeric.Mirror.{
  get_row-block, accept-inside, mine, Mirrors, follow_none, follow_put, follow_del, near_row,
  target_row-accept, target_row-mine,
}

module _ (R : Roaring) (T : OrderedTable) (field : List ℕ) where
  remove_found : (S : OrderedTable) → S.Db → ℕ → Option Row → Option S.Db
  remove_found S db id none = some db
  remove_found S db id (some r) = elim (of_result (deserialize R r.1 (parse_bucket_key_val r.0))) [
    | none ↦ none
    | some b ↦ some (
        if not (remove_id R b id).0
        then db
        else if is_empty_bucket R (remove_id R b id).1
        then S.del db r.0
        else save R S db r.0 (remove_id R b id).1)
  ]

  remove-accept :
      (S : OrderedTable) (db : S.Db) (v id : ℕ)
      → remove_from_buckets R S db field v id
        ≡ remove_found S db id (accept field v (find_row (S.rows db) field v))
  unfolding remove_from_buckets remove_found
  remove-accept S db v id = elim (Option-cases (find_row (S.rows db) field v)) [
    | inl e ↦ rw (remove_from_buckets, e) refl
    | inr (r, e) ↦ elim (Bool-cases (starts_with (prefix_of field) r.0)) [
      | inl inside ↦ elim (Bool-cases (leb (parse_bucket_key_val r.0) v)) [
        | inl reached ↦
            let far : ltb v (parse_bucket_key_val r.0) ≡ false = ground arith in
            rw (remove_from_buckets, e, inside, reached, far) refl
        | inr past ↦
            let far : ltb v (parse_bucket_key_val r.0) ≡ true = ground arith in
            rw (remove_from_buckets, e, inside, past, far) refl
      ]
      | inr out ↦ rw (remove_from_buckets, e, out) refl
    ]
  ]

  remove_found-Mirrors :
      (db : T.Db) (id : ℕ) (o : Option Row)
      → IsSorted (T.rows db)
      → ((r : Row) → o ≡ some r → starts_with (prefix_of field) r.0 ≡ true)
      → Mirrors R T field db
          (remove_found T db id o)
          (remove_found sorted_rows (mine R T field db) id o)
  unfolding remove_found
  remove_found-Mirrors db id none s inside = follow_none R T field db s
  remove_found-Mirrors db id (some r) s inside =
      elim (Option-cases (of_result (deserialize R r.1 (parse_bucket_key_val r.0)))) [
        | inl e ↦ rw (remove_found, e) tt
        | inr (b, e) ↦ elim (Bool-cases (remove_id R b id).0) [
          | inr absent ↦ rw (remove_found, e, absent) (follow_none R T field db s)
          | inl hit ↦ elim (Bool-cases (is_empty_bucket R (remove_id R b id).1)) [
            | inl none_left ↦
                rw (remove_found, e, hit, none_left)
                  (follow_del R T field db db (mine R T field db) r.0 (inside r refl)
                    (follow_none R T field db s))
            | inr some_left ↦
                rw (remove_found, e, hit, some_left)
                  (follow_put R T field db db (mine R T field db) r.0
                    (serialize R (remove_id R b id).1) (inside r refl) (follow_none R T field db s))
          ]
        ]
      ]

  pub remove_from_buckets-Mirrors :
      (db : T.Db) (v id : ℕ)
      → IsSorted (T.rows db)
      → Mirrors R T field db
          (remove_from_buckets R T db field v id)
          (remove_from_buckets R sorted_rows (mine R T field db) field v id)
  remove_from_buckets-Mirrors db v id s =
      let found = accept field v (find_row (T.rows db) field v) in
      let left : remove_from_buckets R T db field v id ≡ remove_found T db id found =
        remove-accept T db v id in
      let right : remove_from_buckets R sorted_rows (mine R T field db) field v id
          ≡ remove_found sorted_rows (mine R T field db) id found =
        remove-accept sorted_rows (mine R T field db) v id
        ∙ ap (λ o. remove_found sorted_rows (mine R T field db) id o)
            (sym (accept-find_row field v (T.rows db) s)) in
      subst₂ (λ x y. Mirrors R T field db x y) (sym left) (sym right)
        (remove_found-Mirrors db id found s
          (λ r e. (accept-inside field v (find_row (T.rows db) field v) r e).1))

  add_to_full-Mirrors :
      (db : T.Db) (key : List ℕ) (b : Bucket R) (v id : ℕ)
      → IsSorted (T.rows db)
      → starts_with (prefix_of field) key ≡ true
      → Mirrors R T field db
          (add_to_full R T db field key b v id)
          (add_to_full R sorted_rows (mine R T field db) field key b v id)
  unfolding add_to_full
  add_to_full-Mirrors db key b v id s h =
      let rows = mine R T field db in
      let start = follow_none R T field db s in
      elim (Bool-cases (split_index b.deltas == length b.deltas)) [
        | inl uncut ↦ elim (Option-cases (of_result (add R b v id))) [
          | inl e ↦ rw (add_to_full, uncut, e) tt
          | inr (b', e) ↦
              rw (add_to_full, uncut, e)
                (follow_put R T field db db rows key (serialize R b') h start)
        ]
        | inr cut ↦ elim (Option-cases (split R b (split_index b.deltas))) [
          | inl e ↦ rw (add_to_full, cut, e) tt
          | inr (halves, e) ↦
              let l = halves.0 in
              let r = halves.1 in
              let key' = make_bucket_key field r.base_value in
              let inside = starts_with-make_bucket_key field r.base_value in
              elim (Bool-cases (leb r.base_value v)) [
                | inl reached ↦ elim (Option-cases (of_result (add R r v id))) [
                  | inl e' ↦ rw (add_to_full, cut, e, reached, e') tt
                  | inr (r', e') ↦
                      rw (add_to_full, cut, e, reached, e')
                        (follow_put R T field db (T.put db key (serialize R l))
                          (put_row key (serialize R l) rows) key' (serialize R r') inside
                          (follow_put R T field db db rows key (serialize R l) h start))
                ]
                | inr under ↦ elim (Option-cases (of_result (add R l v id))) [
                  | inl e' ↦ rw (add_to_full, cut, e, under, e') tt
                  | inr (l', e') ↦
                      rw (add_to_full, cut, e, under, e')
                        (follow_put R T field db (T.put db key (serialize R l'))
                          (put_row key (serialize R l') rows) key' (serialize R r) inside
                          (follow_put R T field db db rows key (serialize R l') h start))
                ]
              ]
        ]
      ]

  target_inside :
      (rows : List Row) (v : ℕ) (r : Row)
      → target_row R T rows field v ≡ some r
      → starts_with (prefix_of field) r.0 ≡ true
  unfolding near_row
  target_inside rows v r e =
      let o = accept field v (find_row rows field v) in
      (accept-inside field v (find_row rows field v) r
        (near_row-some v r o (sym (target_row-accept R T field T rows v) ∙ e))).1
    where
      near_row-some :
          (v : ℕ) (r : Row) (o : Option Row) → near_row R T field v o ≡ some r → o ≡ some r
      near_row-some v r none h = h
      near_row-some v r (some q) h =
          elim (Bool-cases (leb (v - parse_bucket_key_val q.0) max_delta)) [
            | inl near ↦ sym (rw near refl) ∙ h
            | inr far ↦ absurd (far_row r (sym (rw far refl) ∙ h))
          ]
        where
          far_row : (r : Row) → none ≡ some r → ⊥
          far_row r h = cc

  pub add_to_buckets-Mirrors :
      (db : T.Db) (v id : ℕ)
      → IsSorted (T.rows db)
      → Mirrors R T field db
          (add_to_buckets R T db field v id)
          (add_to_buckets R sorted_rows (mine R T field db) field v id)
  unfolding add_to_buckets
  add_to_buckets-Mirrors db v id s =
      let rows = mine R T field db in
      let start = follow_none R T field db s in
      let target = target_row-mine R T field db v s in
      elim (Option-cases (target_row R T (T.rows db) field v)) [
        | inl e ↦
            let e' : target_row R sorted_rows rows field v ≡ none = sym target ∙ e in
            elim (Option-cases (of_result (add R (empty_bucket R v) v id))) [
              | inl refused ↦ rw (add_to_buckets, e, e', refused) tt
              | inr (b, added) ↦
                  rw (add_to_buckets, e, e', added)
                    (follow_put R T field db db rows (make_bucket_key field v) (serialize R b)
                      (starts_with-make_bucket_key field v) start)
            ]
        | inr (r, e) ↦
            let e' : target_row R sorted_rows rows field v ≡ some r = sym target ∙ e in
            let inside = target_inside (T.rows db) v r e in
            let same_row : get_row rows r.0 ≡ get_row (T.rows db) r.0 =
              get_row-block (prefix_of field) r.0 (T.rows db) inside in
            elim (Option-cases (get_row (T.rows db) r.0)) [
              | inl lost ↦ rw (add_to_buckets, e, e', same_row, lost) tt
              | inr (bytes, row) ↦
                  elim (Option-cases (of_result (deserialize R bytes (parse_bucket_key_val r.0)))) [
                    | inl broken ↦ rw (add_to_buckets, e, e', same_row, row, broken) tt
                    | inr (b, read) ↦ elim (Bool-cases (leb max_size (length b.ids))) [
                      | inl full ↦
                          rw (add_to_buckets, e, e', same_row, row, read, full)
                            (add_to_full-Mirrors db r.0 b v id s inside)
                      | inr room ↦ elim (Option-cases (of_result (add R b v id))) [
                        | inl refused ↦
                            rw (add_to_buckets, e, e', same_row, row, read, room, refused) tt
                        | inr (b', added) ↦
                            rw (add_to_buckets, e, e', same_row, row, read, room, added)
                              (follow_put R T field db db rows r.0 (serialize R b') inside start)
                      ]
                    ]
                  ]
            ]
      ]
