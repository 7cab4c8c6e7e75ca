-- ===== src/Hnsw/Bruteforce/Places.antt =====
-- The places of labels in the brute-force table, under `addPoint` and `removePoint`.
use endee.Prelude.{
  ℕ, zero, suc, ◌+◌, ◌-◌, ◌≤◌, ◌<◌, ◌≡◌, refl, ap, ◌∙◌, inl, inr, true, false, ◌||◌, Option, none,
  some, List, [], ◌∷◌, arith, ltb, leb, ◌==◌, if◌then◌else◌, is_some, Option-cases, length,
  get_elem?, set, take, length-set, get_elem?-set, get_elem?-some,
}
use endee.Hnsw.Bruteforce.{
  new_search, enter, erase, add_point, remove_point, Item, BruteforceSearch,
}

abbrev label_in : Option Item → Option ℕ
label_in none = none
label_in (some e) = some e.label

abbrev vector_in : Option Item → Option (List ℕ)
vector_in none = none
vector_in (some e) = some e.vector

abbrev pub label_at : List Item → ℕ → Option ℕ
label_at items i = label_in (get_elem? items i)

abbrev pub vector_at : List Item → ℕ → Option (List ℕ)
vector_at items i = vector_in (get_elem? items i)

-- The labels and the places in use stand for each other.
pub record IsIndex (s : BruteforceSearch) : Type 0 where
  pub room : length s.items ≡ s.max_elements
  pub within : s.cur_element_count ≤ s.max_elements
  pub used : (l i : ℕ) → s.dict_external_to_internal l ≡ some i → i < s.cur_element_count
  pub placed : (l i : ℕ) → s.dict_external_to_internal l ≡ some i → label_at s.items i ≡ some l
  pub labelled :
      (i l : ℕ)
      → i < s.cur_element_count
      → label_at s.items i ≡ some l
      → s.dict_external_to_internal l ≡ some i

-- The vector of a label.
unfoldable pub vector_of : BruteforceSearch → ℕ → Option (List ℕ)
vector_of s label = elim (s.dict_external_to_internal label) [
  | none ↦ none
  | some i ↦ vector_at s.items i
]

label_at-set :
    (items : List Item) (i k : ℕ) (e : Item)
    → i < length items
    → label_at (set items i e) k ≡ (if i == k then some e.label else label_at items k)
label_at-set items i k e h = ground (arith, get_elem?-set items i k e h)

vector_at-set :
    (items : List Item) (i k : ℕ) (e : Item)
    → i < length items
    → vector_at (set items i e) k ≡ (if i == k then some e.vector else vector_at items k)
vector_at-set items i k e h = ground (arith, get_elem?-set items i k e h)

pub new_search-IsIndex : (memory : List Item) → IsIndex (new_search memory)
unfolding new_search
new_search-IsIndex memory = record {
  room = refl;
  within = omega arith;
  used = λ l i h. absurd (ground arith);
  placed = λ l i h. absurd (ground arith);
  labelled = λ i l h p. absurd (omega arith);
}

pub record Adds (s : BruteforceSearch) (datapoint : List ℕ) (label : ℕ) (s' : BruteforceSearch)
    : Type 0 where
  pub valid : IsIndex s'
  pub vectors : (j : ℕ) → vector_of s' j ≡ (if label == j then some datapoint else vector_of s j)

add_known :
    (s : BruteforceSearch) (x : List ℕ) (label idx : ℕ)
    → IsIndex s
    → s.dict_external_to_internal label ≡ some idx
    → Adds s x label (record s { items = set s.items idx (record { label = label; vector = x }) })
unfolding vector_of
add_known s x label idx v e =
    let new : Item = record { label = label; vector = x } in
    let inside : idx < length s.items = omega (arith, v.used label idx e, v.within, v.room) in
    record {
      valid = record {
        room = length-set s.items idx new ∙ v.room;
        within = v.within;
        used = v.used;
        placed = λ l i h.
            ground (arith, label_at-set s.items idx i new inside, v.placed l i, v.placed label idx);
        labelled = λ i l h p. ground (arith, label_at-set s.items idx i new inside, v.labelled i l);
      };
      vectors = λ j. elim (Option-cases (s.dict_external_to_internal j)) [
        | inl absent ↦ ground (arith, absent)
        | inr (i, at) ↦
            ground
              (arith, at, vector_at-set s.items idx i new inside, v.placed j i, v.placed label idx)
      ];
    }

add_new :
    (s : BruteforceSearch) (x : List ℕ) (label : ℕ)
    → IsIndex s
    → s.dict_external_to_internal label ≡ none
    → s.cur_element_count < s.max_elements
    → Adds s x label (record s {
      items = set s.items s.cur_element_count (record { label = label; vector = x });
      cur_element_count = s.cur_element_count + 1;
      dict_external_to_internal = enter s.dict_external_to_internal label s.cur_element_count;
    })
unfolding vector_of
add_new s x label v e below =
    let new : Item = record { label = label; vector = x } in
    let n : ℕ = s.cur_element_count in
    let inside : n < length s.items = omega (arith, v.room) in
    record {
      valid = record {
        room = length-set s.items n new ∙ v.room;
        within = omega arith;
        used = λ l i h. ground (arith, v.used l i);
        placed =
            λ l i h. ground (arith, label_at-set s.items n i new inside, v.placed l i, v.used l i);
        labelled = λ i l h p. ground (arith, label_at-set s.items n i new inside, v.labelled i l);
      };
      vectors = λ j. elim (Option-cases (s.dict_external_to_internal j)) [
        | inl absent ↦ ground (arith, absent, vector_at-set s.items n n new inside)
        | inr (i, at) ↦ ground (arith, at, vector_at-set s.items n i new inside, v.used j i)
      ];
    }

-- A point is added to an index that knows its label or has room, and no other label changes.
pub add_point_lem :
    (s : BruteforceSearch) (x : List ℕ) (label : ℕ)
    → IsIndex s
    → (is_some (s.dict_external_to_internal label) || ltb s.cur_element_count s.max_elements) ≡ true
    → (s' : BruteforceSearch) × (add_point s x label ≡ some s') × Adds s x label s'
unfolding add_point
add_point_lem s x label v room = elim (Option-cases (s.dict_external_to_internal label)) [
  | inr (idx, e) ↦ (_, rw (e, add_point) refl, add_known s x label idx v e)
  | inl e ↦
      let below : s.cur_element_count < s.max_elements = ground (arith, e) in
      let not_full : leb s.max_elements s.cur_element_count ≡ false = ground arith in
      (_, rw (e, add_point, not_full) refl, add_new s x label v e below)
]

pub record Removes (s : BruteforceSearch) (label : ℕ) (s' : BruteforceSearch) : Type 0 where
  pub valid : IsIndex s'
  pub vectors : (j : ℕ) → vector_of s' j ≡ (if label == j then none else vector_of s j)

moved :
    (s : BruteforceSearch) (label i : ℕ) (last : Item)
    → IsIndex s
    → s.dict_external_to_internal label ≡ some i
    → suc i < s.cur_element_count
    → get_elem? s.items (s.cur_element_count - 1) ≡ some last
    → Removes s label (record s {
      items = set s.items i last;
      cur_element_count = s.cur_element_count - 1;
      dict_external_to_internal = enter (erase s.dict_external_to_internal label) last.label i;
    })
unfolding vector_of
moved s label i last v e inner at_last =
    let n : ℕ = s.cur_element_count - 1 in
    let inside : i < length s.items = omega (arith, v.within, v.room) in
    let last_label : label_at s.items n ≡ some last.label = ap label_in at_last in
    let last_vector : vector_at s.items n ≡ some last.vector = ap vector_in at_last in
    let last_place : s.dict_external_to_internal last.label ≡ some n =
      v.labelled n last.label (omega arith) last_label in
    record {
      valid = record {
        room = length-set s.items i last ∙ v.room;
        within = omega (arith, v.within);
        used = λ l k h. ground (arith, v.used l k, v.labelled n l, v.placed l k);
        placed = λ l k h.
            ground (arith, label_at-set s.items i k last inside, v.placed l k, v.placed label i);
        labelled = λ k l h p.
            ground (arith, label_at-set s.items i k last inside, v.labelled k l, v.placed label i);
      };
      vectors = λ j. elim (Option-cases (s.dict_external_to_internal j)) [
        | inl absent ↦ ground (arith, absent)
        | inr (k, at) ↦ ground (
          arith,
          at,
          vector_at-set s.items i k last inside,
          vector_at-set s.items i i last inside,
          v.placed j k,
          v.placed label i,
        )
      ];
    }

-- The last item of an index that knows a label.
last_item :
    (s : BruteforceSearch) (label i : ℕ)
    → IsIndex s
    → s.dict_external_to_internal label ≡ some i
    → (last : Item) × (get_elem? s.items (s.cur_element_count - 1) ≡ some last)
last_item s label i v e =
    get_elem?-some s.items (s.cur_element_count - 1)
      (omega (arith, v.used label i e, v.within, v.room))

-- Removing a label whose place is not the last one leaves an index without it, and with every other.
pub remove_point_lem :
    (s : BruteforceSearch) (label i : ℕ)
    → IsIndex s
    → s.dict_external_to_internal label ≡ some i
    → suc i < s.cur_element_count
    → Removes s label (remove_point s label)
unfolding remove_point
remove_point_lem s label i v e inner =
    let (last, at_last) = last_item s label i v e in
    rw (e, remove_point, at_last) (moved s label i last v e inner at_last)

-- The items that a search goes through.
unfoldable pub searched : BruteforceSearch → List Item
searched s = take s.cur_element_count s.items

take-set : (xs : List Item) (n i : ℕ) (e : Item) → n ≤ i → take n (set xs i e) ≡ take n xs
take-set xs zero i e h = refl
take-set [] (suc n) i e h = refl
take-set (x ∷ xs) (suc n) zero e h = absurd (omega arith)
take-set (x ∷ xs) (suc n) (suc i) e h = ap (λ l. x ∷ l) (take-set xs n i e (omega arith))

add_point_known :
    (s : BruteforceSearch) (x : List ℕ) (label i : ℕ)
    → s.dict_external_to_internal label ≡ some i
    → add_point s x label
      ≡ some (record s { items = set s.items i (record { label = label; vector = x }) })
unfolding add_point
add_point_known s x label i e = rw (e, add_point) refl

-- What is left of the entry of the last place.
remove_point_last :
    (s : BruteforceSearch) (label i : ℕ)
    → IsIndex s
    → s.dict_external_to_internal label ≡ some i
    → suc i ≡ s.cur_element_count
    → ((remove_point s label).dict_external_to_internal label ≡ some i)
      × ((remove_point s label).cur_element_count ≡ i)
      × (take i (remove_point s label).items ≡ take i s.items)
unfolding remove_point
remove_point_last s label i v e is_last =
    let (last, at_last) = last_item s label i v e in
    let same_place : s.cur_element_count - 1 ≡ i = omega arith in
    let own : last.label ≡ label =
      ground (arith, v.placed label i e, ap label_in at_last, same_place) in
    rw (e, remove_point, at_last)
      (ground (arith, own), same_place, take-set s.items i i last (omega arith))

-- When the label of the last place is removed, its entry comes back for a place that is no longer in
-- use: a point that is added under the label again is not among the items that are searched.
pub add_point-remove_point_last :
    (s : BruteforceSearch) (x : List ℕ) (label i : ℕ)
    → IsIndex s
    → s.dict_external_to_internal label ≡ some i
    → suc i ≡ s.cur_element_count
    → (s' : BruteforceSearch) × (add_point (remove_point s label) x label ≡ some s')
      × (searched s' ≡ take i s.items)
unfolding searched
add_point-remove_point_last s x label i v e is_last =
    let (entry, count, kept) = remove_point_last s label i v e is_last in
    (
      _,
      add_point_known (remove_point s label) x label i entry,
      ap (λ n. take n (set (remove_point s label).items i (record { label = label; vector = x })))
            count
          ∙ take-set (remove_point s label).items i i _ (omega arith)
          ∙ kept,
    )
