-- ===== src/Filter/Numeric/Changes.antt =====
-- What `add_to_buckets` makes of the bucket at the place of a number, branch by branch.
use mathlib.Core.List.{append_assoc}
use endee.Prelude.{
  ℕ, suc, ◌+◌, ◌^◌, ◌≤◌, ◌<◌, ◌≡◌, sym, ap, ◌∙◌, inl, inr, true, false, none, some, List, [], ◌∷◌,
  ◌++◌, arith, ltb, leb, ◌==◌, if◌then◌else◌, ltb→lt, ltb→le, Bool-cases, length, All, All-append,
  All-map,
}
use endee.Roaring.{Roaring}
use endee.Mdbx.Cursor.{put_row, get_row, OrderedTable}
use endee.Filter.Bucket.{max_size, max_delta, empty_bucket, add, serialize, ok, Bucket}
use endee.Filter.Bucket.Lookup.{value_of}
use endee.Filter.Numeric.{make_bucket_key, find_row, split_index, split, save, add_to_buckets}
use endee.Filter.Numeric.Field.{IsStored-more, IsStored, Precedes}
use endee.Filter.Numeric.Stored.{clean, clean-IsStored, value_of-clean, deserialize_stored}
use endee.Filter.Numeric.Rows.{row_of, rows_of, start_of, find_row-some}
use endee.Filter.Numeric.Halves.{split_index-Cuts}
use endee.Filter.Numeric.Adds.{add-IsStored}
use endee.Filter.Numeric.Cut.{below_part, above_part}
use endee.Filter.Numeric.Split.{
  empty_bucket-IsStored, empty_value, empty_base, split_lem, SplitsInto,
}
use endee.Filter.Numeric.Writes.{rows_at, write_here, write_between, read_here}
use endee.Filter.Numeric.Inserts.{add_one-Joined, new-Joined, Joined, IsNew}
use endee.Filter.Numeric.Joins.{right-Joined, left-Joined}
use endee.Filter.Numeric.Runs.{
  target_far, target_near, run_new, run_room, run_full, full_kept, full_right, full_left, Reads,
}

module _ (R : Roaring) where
  pub IsNew-bucket :
      (n v id : ℕ)
      → v < 2 ^ 32
      → id < 2 ^ 32
      → (b : Bucket R) × ((add R (empty_bucket R v) v id ≡ ok b) × IsNew R n id v b)
  IsNew-bucket n v id hv hid =
      let (b, (done, (s, (base, values)))) =
        add-IsStored R 0 (empty_bucket R v) v id (empty_bucket-IsStored R v hv) (empty_value R v id)
          (omega (arith, empty_base R v)) (omega (arith, empty_base R v)) hv hid in
      (
        b,
        (
          done,
          record {
            stored = IsStored-more R 1 (suc n) b (omega arith) s;
            base = base ∙ empty_base R v;
            values = λ j. values j ∙ ap (λ o. if id == j then some v else o) (empty_value R v j);
          },
        ),
      )

  pub bases_behind :
      (b : Bucket R) (v : ℕ) (post : List (Bucket R))
      → b.base_value ≤ v
      → All (λ c. v < c.base_value) post
      → All (λ c. b.base_value < c.base_value) post
  bases_behind b v post low above =
      All-map (λ c. v < c.base_value) (λ c. b.base_value < c.base_value)
        (λ c h. omega (arith, h, low)) post above

  pub behind_right :
      (n : ℕ) (b l r : Bucket R) (v : ℕ) (post : List (Bucket R))
      → SplitsInto R n b l r
      → All (Precedes R b) post
      → All (λ c. v < c.base_value) post
      → All (λ c. (v < c.base_value) × (r.base_value < c.base_value)) post
  behind_right n b l r v [] s orders above = tt
  behind_right n b l r v (c ∷ post) s orders above = (
    (above.0, s.right_inside c.base_value orders.0.values),
    behind_right n b l r v post s orders.1 above.1,
  )

module _ (R : Roaring) (T : OrderedTable) (field : List ℕ) where
  -- The tables that two writes leave, the second behind the first.
  pub write_two :
      (db : T.Db) (pre : List (Bucket R)) (b l r : Bucket R) (post : List (Bucket R))
      → T.rows db ≡ rows_of R field (pre ++ (b ∷ post))
      → b.base_value < 2 ^ 32
      → r.base_value < 2 ^ 32
      → l.base_value ≡ b.base_value
      → b.base_value < r.base_value
      → All (λ a. a.base_value < b.base_value) pre
      → All (λ c. c.base_value < 2 ^ 32) post
      → All (λ c. r.base_value < c.base_value) post
      → T.rows (
          save R T
            (save R T db (make_bucket_key field b.base_value) l)
            (make_bucket_key field r.base_value)
            r)
        ≡ rows_of R field (pre ++ (l ∷ (r ∷ post)))
  write_two db pre b l r post rows hb hr same up below small above =
      let first = save R T db (make_bucket_key field b.base_value) l in
      let key = make_bucket_key field r.base_value in
      let one : T.rows first ≡ rows_of R field (pre ++ (l ∷ post)) =
        T.rows-put db (make_bucket_key field b.base_value) (serialize R l)
        ∙ ap (λ x. put_row (make_bucket_key field b.base_value) (serialize R l) x) rows
        ∙ write_here R field pre b l post hb same below in
      let lower : All (λ a. a.base_value < r.base_value) (pre ++ (l ∷ [])) =
        All-append (λ a. a.base_value < r.base_value) pre (l ∷ [])
          (All-map (λ a. a.base_value < b.base_value) (λ a. a.base_value < r.base_value)
            (λ a h. omega (arith, h, up)) pre below)
          (omega (arith, same, up), tt) in
      T.rows-put first key (serialize R r)
      ∙ ap (λ x. put_row key (serialize R r) x)
          (one ∙ ap (λ x. rows_of R field x) (sym (append_assoc pre (l ∷ []) post)))
      ∙ write_between R field (pre ++ (l ∷ [])) r post hr lower small above
      ∙ ap (λ x. rows_of R field x) (append_assoc pre (l ∷ []) (r ∷ post))

  -- What comes of the bucket at the place.
  pub record Changed (n : ℕ) (db : T.Db) (pre : List (Bucket R)) (b : Bucket R)
      (post : List (Bucket R)) (id v : ℕ) : Type 0 where
    pub cs : List (Bucket R)
    pub out : T.Db
    pub done : add_to_buckets R T db field v id ≡ some out
    pub table : T.rows out ≡ rows_of R field (pre ++ (cs ++ post))
    pub joined : Joined R n b id v post cs

  module _ (db : T.Db) (n : ℕ) (pre : List (Bucket R)) (b : Bucket R) (post : List (Bucket R))
      (id v : ℕ) (hn : n < 2 ^ 16) (hv : v < 2 ^ 32) (hid : id < 2 ^ 32)
      (rows : T.rows db ≡ rows_of R field (pre ++ (b ∷ post))) (s : IsStored R n b)
      (orders : All (Precedes R b) post) (small : All (λ c. c.base_value < 2 ^ 32) post)
      (absent : value_of R b id ≡ none) (low : b.base_value ≤ v)
      (below : All (λ a. a.base_value < b.base_value) pre)
      (above : All (λ c. v < c.base_value) post) where
    found_row : find_row (T.rows db) field v ≡ some (row_of R field b)
    found_row =
        ap (λ x. find_row x field v) (rows ∙ rows_at R field pre b post)
        ∙ find_row-some R field v pre b post hv small below low above

    pub Changed-far : b.base_value + max_delta < v → Changed n db pre b post id v
    Changed-far far =
        let (b', (done, new)) = IsNew-bucket R n v id hv hid in
        let key = make_bucket_key field v in
        let lower : All (λ a. a.base_value < b'.base_value) (pre ++ (b ∷ [])) =
          All-append (λ a. a.base_value < b'.base_value) pre (b ∷ [])
            (All-map (λ a. a.base_value < b.base_value) (λ a. a.base_value < b'.base_value)
              (λ a h. omega (arith, h, low, new.base, far)) pre below)
            (omega (arith, new.base, far), tt) in
        let higher : All (λ c. b'.base_value < c.base_value) post =
          All-map (λ c. v < c.base_value) (λ c. b'.base_value < c.base_value)
            (λ c h. omega (arith, h, new.base)) post above in
        record {
          cs = b ∷ (b' ∷ []);
          out = save R T db key b';
          done =
              run_new R T field db v id b'
                (target_far R T field (T.rows db) b v found_row s.small_base far) done;
          table =
              T.rows-put db key (serialize R b')
              ∙ ap (λ x. put_row key (serialize R b') x)
                  (rows ∙ ap (λ x. rows_of R field x) (sym (append_assoc pre (b ∷ []) post)))
              ∙ ap
                  (λ x.
                    put_row (make_bucket_key field x) (serialize R b')
                      (rows_of R field ((pre ++ (b ∷ [])) ++ post)))
                  (sym new.base)
              ∙ write_between R field (pre ++ (b ∷ [])) b' post new.stored.small_base lower small
                  higher
              ∙ ap (λ x. rows_of R field x) (append_assoc pre (b ∷ []) (b' ∷ post));
          joined = new-Joined R n b b' id v post s new absent far orders above;
        }

    module _ (near : v ≤ b.base_value + max_delta) where
      reads : Reads R T field db b v
      reads = record {
        target = target_near R T field (T.rows db) b v found_row s.small_base low near;
        row =
            ap (λ x. get_row x (make_bucket_key field b.base_value)) rows
            ∙ read_here R field pre b post s.small_base below;
        start = start_of R field b s.small_base;
        back = deserialize_stored R n b hn s;
      }

      -- The bucket itself with the number added, written back.
      Changed-in_place :
          (b' : Bucket R)
          → add_to_buckets R T db field v id
            ≡ some (save R T db (make_bucket_key field b.base_value) b')
          → IsStored R (suc n) b'
          → b'.base_value ≡ b.base_value
          → ((j : ℕ) → value_of R b' j ≡ (if id == j then some v else value_of R (clean R b) j))
          → Changed n db pre b post id v
      Changed-in_place b' done stored base values =
          let key = make_bucket_key field b.base_value in
          record {
            cs = b' ∷ [];
            out = save R T db key b';
            done = done;
            table =
                T.rows-put db key (serialize R b')
                ∙ ap (λ x. put_row key (serialize R b') x) rows
                ∙ write_here R field pre b b' post s.small_base base below;
            joined =
                add_one-Joined R n b b' id v post stored base
                  (λ j. values j ∙ ap (λ o. if id == j then some v else o) (value_of-clean R b j))
                  orders above;
          }

      Changed-room : leb max_size (length b.ids) ≡ false → Changed n db pre b post id v
      Changed-room room =
          let (b', (done, (stored, (base, values)))) =
            add-IsStored R n (clean R b) v id (clean-IsStored R n b s)
              (value_of-clean R b id ∙ absent) low near hv hid in
          Changed-in_place b' (run_room R T field db b v id b' reads room done) stored base values

      Changed-kept :
          leb max_size (length b.ids) ≡ true
          → split_index b.deltas ≡ length b.deltas
          → Changed n db pre b post id v
      Changed-kept full uncut =
          let (b', (done, (stored, (base, values)))) =
            add-IsStored R n (clean R b) v id (clean-IsStored R n b s)
              (value_of-clean R b id ∙ absent) low near hv hid in
          Changed-in_place b'
            (run_full R T field db b v id reads full
              ∙ full_kept R T field db (make_bucket_key field b.base_value) (clean R b) v id b'
                  uncut done)
            stored base values

      Changed-right :
          (l r : Bucket R)
          → leb max_size (length b.ids) ≡ true
          → split_index b.deltas < length b.deltas
          → split R (clean R b) (split_index b.deltas) ≡ some (l, r)
          → SplitsInto R n b l r
          → r.base_value ≤ v
          → Changed n db pre b post id v
      Changed-right l r full inside halves sp reached =
          let behind = behind_right R n b l r v post sp orders above in
          let (r', (done, (stored, (base, values)))) =
            add-IsStored R n r v id sp.right_stored
              (sp.right_values id ∙ ap (λ o. above_part r.base_value o) absent) reached
              (omega (arith, near, sp.right_base)) hv hid in
          record {
            cs = l ∷ (r' ∷ []);
            out =
                save R T (save R T db (make_bucket_key field b.base_value) l)
                  (make_bucket_key field r.base_value) r';
            done =
                run_full R T field db b v id reads full
                ∙ full_right R T field db (make_bucket_key field b.base_value) (clean R b) l r v id
                    r' inside halves reached done;
            table =
                ap
                  (λ x. T.rows (
                    save R T (save R T db (make_bucket_key field b.base_value) l)
                      (make_bucket_key field x) r'))
                  (sym base)
                ∙ write_two db pre b l r' post rows s.small_base stored.small_base sp.left_base
                    (omega (arith, sp.right_base, base)) below small
                    (All-map (λ c. (v < c.base_value) × (r.base_value < c.base_value))
                      (λ c. r'.base_value < c.base_value) (λ c h. omega (arith, h.1, base)) post
                      behind);
            joined =
                right-Joined R n b l r r' id v post sp stored base values absent reached orders
                  behind;
          }

      Changed-left :
          (l r : Bucket R)
          → leb max_size (length b.ids) ≡ true
          → split_index b.deltas < length b.deltas
          → split R (clean R b) (split_index b.deltas) ≡ some (l, r)
          → SplitsInto R n b l r
          → v < r.base_value
          → Changed n db pre b post id v
      Changed-left l r full inside halves sp under =
          let behind = behind_right R n b l r v post sp orders above in
          let (l', (done, (stored, (base, values)))) =
            add-IsStored R n l v id sp.left_stored
              (sp.left_values id ∙ ap (λ o. below_part r.base_value o) absent)
              (omega (arith, low, sp.left_base)) (omega (arith, near, sp.left_base)) hv hid in
          record {
            cs = l' ∷ (r ∷ []);
            out =
                save R T (save R T db (make_bucket_key field b.base_value) l')
                  (make_bucket_key field r.base_value) r;
            done =
                run_full R T field db b v id reads full
                ∙ full_left R T field db (make_bucket_key field b.base_value) (clean R b) l r v id
                    l' inside halves under done;
            table =
                write_two db pre b l' r post rows s.small_base sp.right_stored.small_base
                  (base ∙ sp.left_base) sp.right_base below small
                  (All-map (λ c. (v < c.base_value) × (r.base_value < c.base_value))
                    (λ c. r.base_value < c.base_value) (λ c h. h.1) post behind);
            joined =
                left-Joined R n b l l' r id v post sp stored base values absent under orders behind;
          }

      unclean : (l r : Bucket R) → SplitsInto R n (clean R b) l r → SplitsInto R n b l r
      unclean l r sp = record {
        left_stored = sp.left_stored;
        right_stored = sp.right_stored;
        left_base = sp.left_base;
        right_base = sp.right_base;
        right_inside = λ c h. sp.right_inside c (λ j w e. h j w (sym (value_of-clean R b j) ∙ e));
        left_values =
            λ j. sp.left_values j ∙ ap (λ o. below_part r.base_value o) (value_of-clean R b j);
        right_values =
            λ j. sp.right_values j ∙ ap (λ o. above_part r.base_value o) (value_of-clean R b j);
      }

      pub Changed-near : Changed n db pre b post id v
      Changed-near = elim (Bool-cases (leb max_size (length b.ids))) [
        | inr room ↦ Changed-room room
        | inl full ↦
            elim (split_index-Cuts b.deltas s.valid.sorted
              (ground (arith, s.valid.same_length, full))) [
                | inl uncut ↦ Changed-kept full uncut
                | inr c ↦
                    let (l, (r, (halves, sp'))) =
                      split_lem R n (clean R b) (split_index b.deltas) (clean-IsStored R n b s) c in
                    let sp = unclean l r sp' in
                    elim (Bool-cases (ltb v r.base_value)) [
                      | inl under ↦
                          Changed-left l r full c.some_right halves sp (ltb→lt v r.base_value under)
                      | inr reached ↦
                          Changed-right l r full c.some_right halves sp
                            (ltb→le v r.base_value reached)
                    ]
              ]
      ]
