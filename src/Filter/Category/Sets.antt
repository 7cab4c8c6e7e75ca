-- ===== src/Filter/Category/Sets.antt =====
-- The category index as sets: what sequences of its calls make of them.
use text.Mathlib.Text.{◌==◌ as str_eq}
use text.Mathlib.TextEquality.{eq_iff}
use mathlib.Core.List.{append-nil}
use mathlib.Core.Path.{fun_ext}
use Prim.Native.String.{String}
use endee.Prelude.{
  ℕ, ◌≡◌, refl, sym, ap, ◌∙◌, Bool, not, ◌&&◌, ◌||◌, Option, none, some, List, [], ◌∷◌, arith, ◌==◌,
  if◌then◌else◌, any_eq,
}
use endee.Mdbx.{Table}
use endee.Roaring.{Roaring}
use endee.Filter.Category.{
  format_filter_key, get_bitmap_internal, store_bitmap_internal, get_bitmap, contains, add, remove,
  add_ids, add_batch,
}

pub data Call : Type 0 where
  adds removes : String → String → ℕ → Call
  adds_batch : String → String → List ℕ → Call

-- One set per key, given by its members.
abbrev pub Sets : Type 0
Sets = String → ℕ → Bool

-- What a call does to the sets.
unfoldable pub apply : Sets → Call → Sets
apply sets (adds field value id) k j =
    if str_eq (format_filter_key field value) k then id == j || sets k j else sets k j
apply sets (removes field value id) k j =
    if str_eq (format_filter_key field value) k then not (id == j) && sets k j else sets k j
apply sets (adds_batch field value ids) k j =
    if str_eq (format_filter_key field value) k then any_eq j ids || sets k j else sets k j

unfoldable pub apply_calls : Sets → List Call → Sets
apply_calls sets [] = sets
apply_calls sets (c ∷ cs) = apply_calls (apply sets c) cs

module _ (R : Roaring) (T : Table) where
  unfoldable pub step : T.Db → Call → Option T.Db
  step db (adds field value id) = add R T db field value id
  step db (removes field value id) = remove R T db field value id
  step db (adds_batch field value ids) = add_batch R T db field value ids

  unfoldable pub run : T.Db → List Call → Option T.Db
  run db [] = some db
  run db (c ∷ cs) = elim (step db c) [ none ↦ none | some db' ↦ run db' cs ]

  -- The sets that a table holds.
  abbrev pub sets_of : T.Db → Sets
  sets_of db k j = R.contains (get_bitmap_internal R T db k) j

  read-write_nil : (b : R.Bitmap) → R.read (R.write b) ≡ b
  read-write_nil b = ap R.read (sym (append-nil (R.write b))) ∙ R.read-write b []

  store_lem :
      (db : T.Db) (k : String) (b : R.Bitmap)
      → store_bitmap_internal R T db k b ≡ some (T.put db k (R.write b))
  unfolding store_bitmap_internal
  store_lem db k b = ground (arith, R.write-nonempty b)

  sets_of-put :
      (db : T.Db) (k i : String) (b : R.Bitmap) (j : ℕ)
      → sets_of (T.put db k (R.write b)) i j
        ≡ (if str_eq k i then R.contains b j else sets_of db i j)
  unfolding get_bitmap_internal
  sets_of-put db k i b j =
      ground (arith, T.get-put db k (R.write b) i, R.write-nonempty b, read-write_nil b)

  contains-add_ids :
      (b : R.Bitmap) (ids : List ℕ) (j : ℕ)
      → R.contains (add_ids R T b ids) j ≡ (any_eq j ids || R.contains b j)
  unfolding add_ids
  contains-add_ids b [] j = refl
  contains-add_ids b (i ∷ ids) j =
      ground (arith, contains-add_ids (R.add b i) ids j, R.contains-add b i j)

  -- A call succeeds, and does to the sets what `apply` says.
  record Does (db : T.Db) (c : Call) : Type 0 where
    after : T.Db
    succeeds : step db c ≡ some after
    same : (k : String) (j : ℕ) → sets_of after k j ≡ apply (sets_of db) c k j

  step_lem : (db : T.Db) (c : Call) → Does db c
  unfolding step apply add remove add_batch
  step_lem db (adds field value id) =
      let k = format_filter_key field value in
      let b = get_bitmap_internal R T db k in
      record {
        after = T.put db k (R.write (R.add b id));
        succeeds = store_lem db k (R.add b id);
        same = λ i j.
            ground (arith, sets_of-put db k i (R.add b id) j, R.contains-add b id j, eq_iff k i);
      }
  step_lem db (removes field value id) =
      let k = format_filter_key field value in
      let b = get_bitmap_internal R T db k in
      record {
        after = T.put db k (R.write (R.remove b id));
        succeeds = store_lem db k (R.remove b id);
        same = λ i j.
            ground
              (arith, sets_of-put db k i (R.remove b id) j, R.contains-remove b id j, eq_iff k i);
      }
  step_lem db (adds_batch field value []) = record {
    after = db;
    succeeds = refl;
    same = λ i j. ground arith;
  }
  step_lem db (adds_batch field value (id ∷ ids)) =
      let k = format_filter_key field value in
      let b = get_bitmap_internal R T db k in
      record {
        after = T.put db k (R.write (add_ids R T b (id ∷ ids)));
        succeeds = store_lem db k (add_ids R T b (id ∷ ids));
        same = λ i j. ground (
          arith,
          sets_of-put db k i (add_ids R T b (id ∷ ids)) j,
          contains-add_ids b (id ∷ ids) j,
          eq_iff k i,
        );
      }

  -- After any calls on a table, none of which fails, `contains` answers as the sets do that the calls
  -- make of those that the table held.
  pub contains-run :
      (db : T.Db) (cs : List Call) (field value : String) (j : ℕ)
      → (db' : T.Db) × (run db cs ≡ some db')
        × (contains R T db' field value j
            ≡ apply_calls (sets_of db) cs (format_filter_key field value) j)
  unfolding run apply_calls contains get_bitmap
  contains-run db [] field value j = (db, refl, refl)
  contains-run db (c ∷ cs) field value j =
      let d = step_lem db c in
      let (db', e, h) = contains-run d.after cs field value j in
      let sets = fun_ext (λ k. fun_ext (d.same k)) in
      (
        db',
        rw (d.succeeds, run) e,
        h ∙ ap (λ s. apply_calls s cs (format_filter_key field value) j) sets,
      )
