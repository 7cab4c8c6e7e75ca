-- ===== src/Filter/Category.antt =====
-- src/filter/category_index.hpp: for each field and value the set of the identifiers that have it.
-- Each transaction is one step, and none of them fails.
pub mod Sets
mod Tests
use Prim.Native.String.{String, ◌++◌ as str_append}
use endee.Prelude.{
  ℕ, ◌-◌, ◌/◌, ap, Bool, Option, none, some, List, [], ◌∷◌, map, if◌then◌else◌, is_empty, set,
}
use endee.Mdbx.{Table}
use endee.Roaring.{Roaring}

unfoldable pub format_filter_key : String → String → String
format_filter_key field value = str_append (str_append field ":") value

module _ (R : Roaring) (T : Table) where
  unfoldable pub get_bitmap_internal : T.Db → String → R.Bitmap
  get_bitmap_internal db filter_key = elim (T.get db filter_key) [
    | none ↦ R.empty
    | some bytes ↦ if is_empty bytes then R.empty else R.read bytes
  ]

  -- `none` is the exception for a bitmap of no bytes.
  unfoldable pub store_bitmap_internal : T.Db → String → R.Bitmap → Option T.Db
  store_bitmap_internal db filter_key bitmap =
      if is_empty (R.write bitmap) then none else some (T.put db filter_key (R.write bitmap))

  unfoldable pub get_bitmap : T.Db → String → String → R.Bitmap
  get_bitmap db field value = get_bitmap_internal db (format_filter_key field value)

  unfoldable pub contains : T.Db → String → String → ℕ → Bool
  contains db field value id = R.contains (get_bitmap db field value) id

  unfoldable pub add : T.Db → String → String → ℕ → Option T.Db
  add db field value id =
      let filter_key = format_filter_key field value in
      store_bitmap_internal db filter_key (R.add (get_bitmap_internal db filter_key) id)

  unfoldable pub remove : T.Db → String → String → ℕ → Option T.Db
  remove db field value id =
      let filter_key = format_filter_key field value in
      store_bitmap_internal db filter_key (R.remove (get_bitmap_internal db filter_key) id)

  unfoldable pub add_ids : R.Bitmap → List ℕ → R.Bitmap
  add_ids bitmap [] = bitmap
  add_ids bitmap (id ∷ ids) = add_ids (R.add bitmap id) ids

  unfoldable pub add_batch_by_key : T.Db → String → List ℕ → Option T.Db
  add_batch_by_key db key ids =
      if is_empty ids
      then some db
      else store_bitmap_internal db key (add_ids (get_bitmap_internal db key) ids)

  unfoldable pub add_batch : T.Db → String → String → List ℕ → Option T.Db
  add_batch db field value ids =
      if is_empty ids
      then some db
      else let filter_key = format_filter_key field value in
        store_bitmap_internal db filter_key (add_ids (get_bitmap_internal db filter_key) ids)
