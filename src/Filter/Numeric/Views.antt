-- ===== src/Filter/Numeric/Views.antt =====
-- An index of many fields as one of its fields sees it: `put` and `remove` for the field are those of
-- the view, and the views of other fields stay.
use endee.Prelude.{
  ℕ, ◌≡◌, refl, sym, ap, subst, ◌∙◌, inl, inr, true, false, Option, none, some, some-injective,
  List, [], ◌∷◌, arith, ◌==◌, Bool-cases, Option-cases, All, le_bytes,
}
use endee.Roaring.{Roaring}
use endee.Mdbx.Cursor.{Row, same_key, put_row, del_row, get_row, sorted_rows, OrderedTable}
use endee.Mdbx.Cursor.Places.{same_key-≡, get_row-put_row, get_row-del_row}
use endee.Mdbx.Cursor.Blocks.{starts_with, block, IsSorted, starts_with-append}
use endee.Filter.Numeric.{
  put as put_number, remove as remove_number, NumericIndex, forward_value, make_forward_key,
  to_string, put_value, prefix_of, remove_from_buckets, add_to_buckets,
}
use endee.Filter.Numeric.Mirror.{Apart, mine, Mirrors, follow_none, Follows}
use endee.Filter.Numeric.Sims.{remove_from_buckets-Mirrors, add_to_buckets-Mirrors}

-- No colon in the name of a field.
abbrev pub IsColonFree : List ℕ → Type 0
IsColonFree field = All (λ c. (c == 58) ≡ false) field

pub prefix_of-Apart :
    (f g : List ℕ)
    → IsColonFree f
    → IsColonFree g
    → same_key f g ≡ false
    → Apart (prefix_of f) (prefix_of g)
prefix_of-Apart [] [] hf hg n k h = absurd (cc)
prefix_of-Apart [] (y ∷ g) hf hg n [] h = absurd (cc)
prefix_of-Apart [] (y ∷ g) hf hg n (z ∷ k) h = ground (arith, hg.0)
prefix_of-Apart (x ∷ f) g hf hg n [] h = absurd (cc)
prefix_of-Apart (x ∷ f) [] hf hg n (z ∷ k) h = ground (arith, hf.0)
prefix_of-Apart (x ∷ f) (y ∷ g) hf hg n (z ∷ k) h = elim (Bool-cases (x == y)) [
  | inl same ↦
      let rest : starts_with (prefix_of g) k ≡ false =
        prefix_of-Apart f g hf.1 hg.1 (sym (rw same refl) ∙ n) k (ground (arith, h)) in
      rw rest (ground arith)
  | inr other ↦ ground (arith, h)
]

starts_with-make_forward_key :
    (f : List ℕ) (i : ℕ) → starts_with (prefix_of f) (make_forward_key f i) ≡ true
unfolding make_forward_key
starts_with-make_forward_key f i = starts_with-append (prefix_of f) (to_string i)

forward_keys_differ :
    (f g : List ℕ) (i j : ℕ)
    → Apart (prefix_of f) (prefix_of g)
    → same_key (make_forward_key f i) (make_forward_key g j) ≡ false
forward_keys_differ f g i j a =
    elim (Bool-cases (same_key (make_forward_key f i) (make_forward_key g j))) [
      | inl hit ↦
          let at = same_key-≡ (make_forward_key f i) (make_forward_key g j) hit in
          let out : starts_with (prefix_of g) (make_forward_key g j) ≡ false =
            subst (λ k. starts_with (prefix_of g) k ≡ false) at
              (a (make_forward_key f i) (starts_with-make_forward_key f i)) in
          absurd (ground (arith, out, starts_with-make_forward_key g j))
      | inr miss ↦ miss
    ]

module _ (R : Roaring) (T : OrderedTable) (field : List ℕ) where
  abbrev pub view : NumericIndex T → NumericIndex sorted_rows
  view ix = record {
    forward_dbi = T.rows ix.forward_dbi;
    inverted_dbi = block (prefix_of field) (T.rows ix.inverted_dbi);
  }

  -- What a change for the field does to the index, beside the view of the field.
  pub record Steps (ix ix' : NumericIndex T) (jx : NumericIndex sorted_rows) : Type 0 where
    pub sorted : IsSorted (T.rows ix'.inverted_dbi)
    pub forward_same : T.rows ix'.forward_dbi ≡ jx.forward_dbi
    pub inverted_same : block (prefix_of field) (T.rows ix'.inverted_dbi) ≡ jx.inverted_dbi
    pub others_inverted :
        (q : List ℕ)
        → Apart (prefix_of field) q
        → block q (T.rows ix'.inverted_dbi) ≡ block q (T.rows ix.inverted_dbi)
    pub others_forward :
        (g : List ℕ) (j : ℕ)
        → Apart (prefix_of field) (prefix_of g)
        → forward_value R T ix'.forward_dbi g j ≡ forward_value R T ix.forward_dbi g j

  pub forward_view :
      (db : T.Db) (g : List ℕ) (j : ℕ)
      → forward_value R sorted_rows (T.rows db) g j ≡ forward_value R T db g j
  unfolding forward_value
  forward_view db g j = refl

  forward-put_other :
      (db : T.Db) (g : List ℕ) (i j : ℕ) (w : List ℕ)
      → Apart (prefix_of field) (prefix_of g)
      → forward_value R T (T.put db (make_forward_key field i) w) g j ≡ forward_value R T db g j
  unfolding forward_value
  forward-put_other db g i j w a =
      let read : get_row (T.rows (T.put db (make_forward_key field i) w)) (make_forward_key g j)
          ≡ get_row (T.rows db) (make_forward_key g j) =
        ap (λ x. get_row x (make_forward_key g j)) (T.rows-put db (make_forward_key field i) w)
        ∙ get_row-put_row (make_forward_key field i) w (T.rows db) (make_forward_key g j)
        ∙ rw (forward_keys_differ field g i j a) refl in
      rw (forward_value, read) refl

  forward-del_other :
      (db : T.Db) (g : List ℕ) (i j : ℕ)
      → Apart (prefix_of field) (prefix_of g)
      → forward_value R T (T.del db (make_forward_key field i)) g j ≡ forward_value R T db g j
  unfolding forward_value
  forward-del_other db g i j a =
      let read : get_row (T.rows (T.del db (make_forward_key field i))) (make_forward_key g j)
          ≡ get_row (T.rows db) (make_forward_key g j) =
        ap (λ x. get_row x (make_forward_key g j)) (T.rows-del db (make_forward_key field i))
        ∙ get_row-del_row (make_forward_key field i) (T.rows db) (make_forward_key g j)
        ∙ rw (forward_keys_differ field g i j a) refl in
      rw (forward_value, read) refl

  Follows-from :
      (db : T.Db) (o : Option T.Db) (o' : Option (List Row)) (rows : List Row)
      → Mirrors R T field db o o'
      → o' ≡ some rows
      → (db' : T.Db) × ((o ≡ some db') × Follows R T field db db' rows)
  Follows-from db none none rows m e = absurd (cc)
  Follows-from db none (some x) rows m e = absurd m
  Follows-from db (some db') none rows m e = absurd m
  Follows-from db (some db') (some x) rows m e =
      (db', (refl, subst (λ y. Follows R T field db db' y) (some-injective x rows e) m))

  -- `put_internal` behind the test of the old value.
  put_value-Steps :
      (ix : NumericIndex T) (inverted : T.Db) (rows : List Row) (id v : ℕ)
      (jx : NumericIndex sorted_rows)
      → Follows R T field ix.inverted_dbi inverted rows
      → put_value R sorted_rows (view ix) rows field id v ≡ some jx
      → (ix' : NumericIndex T) × ((put_value R T ix inverted field id v ≡ some ix')
          × Steps ix ix' jx)
  unfolding put_value
  put_value-Steps ix inverted rows id v jx f e =
      let key = make_forward_key field id in
      elim (Option-cases (add_to_buckets R sorted_rows rows field v id)) [
        | inl refused ↦ absurd (no_index (sym (rw (put_value, refused) refl) ∙ e))
        | inr (rows', added) ↦
            let mirrors = add_to_buckets-Mirrors R T field inverted v id f.sorted in
            let mine_added : add_to_buckets R sorted_rows (mine R T field inverted) field v id
                ≡ some rows' =
              ap (λ x. add_to_buckets R sorted_rows x field v id) f.same ∙ added in
            let (db, (done, f')) =
              Follows-from inverted (add_to_buckets R T inverted field v id)
                (add_to_buckets R sorted_rows (mine R T field inverted) field v id) rows' mirrors
                mine_added in
            let next : NumericIndex sorted_rows = record {
              forward_dbi = put_row key (le_bytes 4 v) (T.rows ix.forward_dbi);
              inverted_dbi = rows';
            } in
            let at : next ≡ jx = some-injective next jx (sym (rw (put_value, added) refl) ∙ e) in
            (
              record { forward_dbi = T.put ix.forward_dbi key (le_bytes 4 v); inverted_dbi = db },
              (
                rw (put_value, done) refl,
                subst
                    (λ x.
                      Steps ix
                        (record {
                          forward_dbi = T.put ix.forward_dbi key (le_bytes 4 v);
                          inverted_dbi = db;
                        })
                        x)
                    at
                    (record {
                      sorted = f'.sorted;
                      forward_same = T.rows-put ix.forward_dbi key (le_bytes 4 v);
                      inverted_same = f'.same;
                      others_inverted = λ q a. f'.others q a ∙ f.others q a;
                      others_forward =
                          λ g j a. forward-put_other ix.forward_dbi g id j (le_bytes 4 v) a;
                    }),
              ),
            )
      ]
    where
      no_index : none ≡ some jx → ⊥
      no_index h = cc

  Steps-none : (ix : NumericIndex T) → IsSorted (T.rows ix.inverted_dbi) → Steps ix ix (view ix)
  Steps-none ix s = record {
    sorted = s;
    forward_same = refl;
    inverted_same = refl;
    others_inverted = λ q a. refl;
    others_forward = λ g j a. refl;
  }

  removed_from :
      (ix : NumericIndex T) (old id : ℕ) (rows : List Row)
      → IsSorted (T.rows ix.inverted_dbi)
      → remove_from_buckets R sorted_rows (mine R T field ix.inverted_dbi) field old id ≡ some rows
      → (db : T.Db) × ((remove_from_buckets R T ix.inverted_dbi field old id ≡ some db)
          × Follows R T field ix.inverted_dbi db rows)
  removed_from ix old id rows s e =
      Follows-from ix.inverted_dbi (remove_from_buckets R T ix.inverted_dbi field old id)
        (remove_from_buckets R sorted_rows (mine R T field ix.inverted_dbi) field old id) rows
        (remove_from_buckets-Mirrors R T field ix.inverted_dbi old id s) e

  pub put-Steps :
      (ix : NumericIndex T) (id v : ℕ) (jx : NumericIndex sorted_rows)
      → IsSorted (T.rows ix.inverted_dbi)
      → put_number R sorted_rows (view ix) field id v ≡ some jx
      → (ix' : NumericIndex T) × ((put_number R T ix field id v ≡ some ix') × Steps ix ix' jx)
  unfolding put_number
  put-Steps ix id v jx s e =
      let seen = forward_view ix.forward_dbi field id in
      elim (Option-cases (forward_value R T ix.forward_dbi field id)) [
        | inl absent ↦
            let absent' = seen ∙ absent in
            let run : put_value R sorted_rows (view ix) (mine R T field ix.inverted_dbi) field id v
                ≡ some jx =
              sym (rw (put_number, absent') refl) ∙ e in
            let (ix', (done, steps)) =
              put_value-Steps ix ix.inverted_dbi (mine R T field ix.inverted_dbi) id v jx
                (follow_none R T field ix.inverted_dbi s) run in
            (ix', (rw (put_number, absent) done, steps))
        | inr (old, there) ↦
            let there' = seen ∙ there in
            elim (Bool-cases (old == v)) [
              | inl same ↦
                  let at : view ix ≡ jx =
                    some-injective (view ix) jx (sym (rw (put_number, there', same) refl) ∙ e) in
                  (
                    ix,
                    (
                      rw (put_number, there, same) refl,
                      subst (λ x. Steps ix ix x) at (Steps-none ix s),
                    ),
                  )
              | inr other ↦
                  elim (Option-cases (
                    remove_from_buckets R sorted_rows (mine R T field ix.inverted_dbi) field old
                      id)) [
                        | inl lost ↦
                            absurd (no_index (sym (rw (put_number, there', other, lost) refl) ∙ e))
                        | inr (rows, taken) ↦
                            let (db, (done, f)) = removed_from ix old id rows s taken in
                            let run : put_value R sorted_rows (view ix) rows field id v ≡ some jx =
                              sym (rw (put_number, there', other, taken) refl) ∙ e in
                            let (ix', (done', steps)) = put_value-Steps ix db rows id v jx f run in
                            (ix', (rw (put_number, there, other, done) done', steps))
                      ]
            ]
      ]
    where
      no_index : none ≡ some jx → ⊥
      no_index h = cc

  pub remove-Steps :
      (ix : NumericIndex T) (id : ℕ) (jx : NumericIndex sorted_rows)
      → IsSorted (T.rows ix.inverted_dbi)
      → remove_number R sorted_rows (view ix) field id ≡ some jx
      → (ix' : NumericIndex T) × ((remove_number R T ix field id ≡ some ix') × Steps ix ix' jx)
  unfolding remove_number
  remove-Steps ix id jx s e =
      let seen = forward_view ix.forward_dbi field id in
      let key = make_forward_key field id in
      elim (Option-cases (forward_value R T ix.forward_dbi field id)) [
        | inl absent ↦
            let absent' = seen ∙ absent in
            let at : view ix ≡ jx =
              some-injective (view ix) jx (sym (rw (remove_number, absent') refl) ∙ e) in
            (ix, (rw (remove_number, absent) refl, subst (λ x. Steps ix ix x) at (Steps-none ix s)))
        | inr (old, there) ↦
            let there' = seen ∙ there in
            elim (Option-cases
              (remove_from_buckets R sorted_rows (mine R T field ix.inverted_dbi) field old id)) [
                | inl lost ↦ absurd (no_index (sym (rw (remove_number, there', lost) refl) ∙ e))
                | inr (rows, taken) ↦
                    let (db, (done, f)) = removed_from ix old id rows s taken in
                    let next : NumericIndex sorted_rows = record {
                      forward_dbi = del_row key (T.rows ix.forward_dbi);
                      inverted_dbi = rows;
                    } in
                    let at : next ≡ jx =
                      some-injective next jx (sym (rw (remove_number, there', taken) refl) ∙ e) in
                    let after_it : NumericIndex T = record {
                      forward_dbi = T.del ix.forward_dbi key;
                      inverted_dbi = db;
                    } in
                    (
                      after_it,
                      (
                        rw (remove_number, there, done) refl,
                        subst (λ x. Steps ix after_it x) at
                            (record {
                              sorted = f.sorted;
                              forward_same = T.rows-del ix.forward_dbi key;
                              inverted_same = f.same;
                              others_inverted = f.others;
                              others_forward = λ g j a. forward-del_other ix.forward_dbi g id j a;
                            }),
                      ),
                    )
              ]
      ]
    where
      no_index : none ≡ some jx → ⊥
      no_index h = cc
