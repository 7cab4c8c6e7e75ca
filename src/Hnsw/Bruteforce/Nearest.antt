-- ===== src/Hnsw/Bruteforce/Nearest.antt =====
-- `searchKnnSubset` against a sort of all distances.
use mathlib.Core.List.{reverse, reverse_aux}
use endee.Prelude.{
  ℕ, zero, suc, ◌+◌, ◌-◌, ◌≤◌, ◌<◌, ◌≡◌, refl, sym, ap, subst, ◌∙◌, inl, inr, false, List, [], ◌∷◌,
  map, arith, ltb, ◌==◌, if◌then◌else◌, ltb→lt, lt→ltb, ltb→le, Bool-cases, length, drop, All,
  length-drop, length-map, drop_beyond,
}
use endee.Hnsw.Bruteforce.Subset.{emplace, offer, collect, search_knn_subset}

unfoldable pub insert_desc : ℕ → List ℕ → List ℕ
insert_desc x [] = x ∷ []
insert_desc x (y ∷ ys) = if ltb x y then y ∷ insert_desc x ys else x ∷ (y ∷ ys)

-- Insertion sort onto a list that is sorted from the greatest down.
unfoldable pub sort_onto : List ℕ → List ℕ → List ℕ
sort_onto [] ys = ys
sort_onto (x ∷ xs) ys = sort_onto xs (insert_desc x ys)

abbrev IsDescending : List ℕ → Type 0
IsDescending [] = Unit {0}
IsDescending (x ∷ xs) = All (λ y. y ≤ x) xs × IsDescending xs

All-insert_desc :
    (b x : ℕ) (ys : List ℕ) → x ≤ b → All (λ y. y ≤ b) ys → All (λ y. y ≤ b) (insert_desc x ys)
unfolding insert_desc
All-insert_desc b x [] h a = (h, tt)
All-insert_desc b x (y ∷ ys) h a = ground (arith, All-insert_desc b x ys h a.1)

All-mono : (b c : ℕ) (ys : List ℕ) → b ≤ c → All (λ y. y ≤ b) ys → All (λ y. y ≤ c) ys
All-mono b c [] h a = tt
All-mono b c (y ∷ ys) h a = (omega (arith, a.0), All-mono b c ys h a.1)

insert_desc-IsDescending : (x : ℕ) (ys : List ℕ) → IsDescending ys → IsDescending (insert_desc x ys)
unfolding insert_desc
insert_desc-IsDescending x [] d = (tt, tt)
insert_desc-IsDescending x (y ∷ ys) d = elim (Bool-cases (ltb x y)) [
  | inl below ↦
      rw (below, insert_desc)
        (
          All-insert_desc y x ys (omega (arith, ltb→lt x y below)) d.0,
          insert_desc-IsDescending x ys d.1,
        )
  | inr above ↦
      let up : y ≤ x = ltb→le x y above in rw (above, insert_desc) ((up, All-mono y x ys up d.0), d)
]

insert_desc_front : (x : ℕ) (ys : List ℕ) → All (λ y. y ≤ x) ys → insert_desc x ys ≡ x ∷ ys
unfolding insert_desc
insert_desc_front x [] a = refl
insert_desc_front x (y ∷ ys) a = ground (arith, a.0)

length-insert_desc : (x : ℕ) (ys : List ℕ) → length (insert_desc x ys) ≡ suc (length ys)
unfolding insert_desc
length-insert_desc x [] = refl
length-insert_desc x (y ∷ ys) = ground (arith, length-insert_desc x ys)

All-drop : (m b : ℕ) (ys : List ℕ) → All (λ y. y ≤ b) ys → All (λ y. y ≤ b) (drop m ys)
All-drop zero b ys a = a
All-drop (suc m) b [] a = tt
All-drop (suc m) b (y ∷ ys) a = All-drop m b ys a.1

drop-IsDescending : (m : ℕ) (ys : List ℕ) → IsDescending ys → IsDescending (drop m ys)
drop-IsDescending zero ys d = d
drop-IsDescending (suc m) [] d = tt
drop-IsDescending (suc m) (y ∷ ys) d = drop-IsDescending m ys d.1

-- Dropping the greatest commutes with insertion.
drop-insert_desc :
    (m x : ℕ) (ys : List ℕ)
    → IsDescending ys
    → m ≤ length ys
    → drop (suc m) (insert_desc x ys) ≡ drop 1 (insert_desc x (drop m ys))
unfolding insert_desc
drop-insert_desc zero x ys d h = refl
drop-insert_desc (suc m) x [] d h = absurd (omega arith)
drop-insert_desc (suc m) x (y ∷ ys) d h = elim (Bool-cases (ltb x y)) [
  | inl below ↦ rw (below, insert_desc) (drop-insert_desc m x ys d.1 (omega arith))
  | inr above ↦
      let least = All-drop m x ys (All-mono y x ys (ltb→le x y above) d.0) in
      rw (above, insert_desc) (sym (ap (drop 1) (insert_desc_front x (drop m ys) least)))
]

map-emplace :
    (p : ℕ × ℕ) (q : List (ℕ × ℕ))
    → IsDescending (map (λ r. r.0) q)
    → map (λ r. r.0) (emplace p q) ≡ insert_desc p.0 (map (λ r. r.0) q)
unfolding emplace insert_desc
map-emplace p [] d = refl
map-emplace (x, l) ((y, m) ∷ q) d =
    ground (arith, map-emplace (x, l) q d.1, insert_desc_front x (map (λ r. r.0) q))

-- A queue that has room takes a pair, and a full one the pair in place of its top, if it is nearer.
offer_room :
    (k d l : ℕ) (q : List (ℕ × ℕ))
    → length q < k
    → IsDescending (map (λ r. r.0) q)
    → map (λ r. r.0) (offer k d l q) ≡ insert_desc d (map (λ r. r.0) q)
unfolding offer
offer_room k d l [] room h = map-emplace (d, l) [] tt
offer_room k d l (top ∷ q) room h =
    rw (lt→ltb (suc (length q)) k room) (map-emplace (d, l) (top ∷ q) h)

offer_full :
    (k d l : ℕ) (top : ℕ × ℕ) (q : List (ℕ × ℕ))
    → k ≤ length (top ∷ q)
    → IsDescending (map (λ r. r.0) (top ∷ q))
    → map (λ r. r.0) (offer k d l (top ∷ q)) ≡ drop 1 (insert_desc d (map (λ r. r.0) (top ∷ q)))
unfolding offer insert_desc
offer_full k d l top q full h = ground (arith, map-emplace (d, l) q h.1)

offer_nearer :
    (k d l : ℕ) (q : List (ℕ × ℕ)) (ys : List ℕ)
    → 0 < k
    → k ≤ length q
    → k ≤ length ys
    → IsDescending ys
    → map (λ r. r.0) q ≡ drop (length ys - k) ys
    → map (λ r. r.0) (offer k d l q) ≡ drop (suc (length ys - k)) (insert_desc d ys)
offer_nearer k d l [] ys pos full enough desc e = absurd (omega arith)
offer_nearer k d l (top ∷ q) ys pos full enough desc e =
    offer_full k d l top q full (subst IsDescending (sym e) (drop-IsDescending _ ys desc))
    ∙ ap (λ t. drop 1 (insert_desc d t)) e
    ∙ sym (drop-insert_desc (length ys - k) d ys desc (omega arith))

-- The queue holds the `k` least distances of those seen so far.
offer_lem :
    (k d l : ℕ) (q : List (ℕ × ℕ)) (ys : List ℕ)
    → 0 < k
    → IsDescending ys
    → map (λ r. r.0) q ≡ drop (length ys - k) ys
    → map (λ r. r.0) (offer k d l q) ≡ drop (length (insert_desc d ys) - k) (insert_desc d ys)
offer_lem k d l q ys pos desc e =
    let size : length q ≡ length ys - (length ys - k) =
      sym (length-map (λ r. r.0) q) ∙ ap length e ∙ length-drop (length ys - k) ys in
    let grown = length-insert_desc d ys in
    elim (Bool-cases (ltb (length ys) k)) [
      | inl room ↦
          let below : length ys < k = ltb→lt (length ys) k room in
          let none_over : length ys - k ≡ 0 = omega arith in
          let whole : map (λ r. r.0) q ≡ ys = e ∙ ap (λ m. drop m ys) none_over in
          let still : length (insert_desc d ys) - k ≡ 0 = omega arith in
          offer_room k d l q (omega arith) (subst IsDescending (sym whole) desc)
          ∙ ap (insert_desc d) whole
          ∙ sym (ap (λ m. drop m (insert_desc d ys)) still)
      | inr full ↦
          let enough : k ≤ length ys = ltb→le (length ys) k full in
          let next : length (insert_desc d ys) - k ≡ suc (length ys - k) = omega arith in
          offer_nearer k d l q ys pos (omega arith) enough desc e
          ∙ sym (ap (λ m. drop m (insert_desc d ys)) next)
    ]

abbrev distances : (List ℕ → ℕ) → List (ℕ × List ℕ) → List ℕ
distances distance_func vectors = map (λ v. distance_func v.1) vectors

collect_lem :
    (f : List ℕ → ℕ) (k : ℕ) (xs : List (ℕ × List ℕ)) (q : List (ℕ × ℕ)) (ys : List ℕ)
    → 0 < k
    → IsDescending ys
    → map (λ r. r.0) q ≡ drop (length ys - k) ys
    → map (λ r. r.0) (collect f k xs q)
      ≡ drop (length (sort_onto (distances f xs) ys) - k) (sort_onto (distances f xs) ys)
unfolding collect sort_onto
collect_lem f k [] q ys pos desc e = e
collect_lem f k ((l, v) ∷ xs) q ys pos desc e =
    collect_lem f k xs (offer k (f v) l q) (insert_desc (f v) ys) pos
      (insert_desc-IsDescending (f v) ys desc) (offer_lem k (f v) l q ys pos desc e)

length-sort_onto : (xs ys : List ℕ) → length (sort_onto xs ys) ≡ length xs + length ys
unfolding sort_onto
length-sort_onto [] ys = omega arith
length-sort_onto (x ∷ xs) ys =
    omega (arith, length-sort_onto xs (insert_desc x ys), length-insert_desc x ys)

map-reverse_aux :
    (q r : List (ℕ × ℕ))
    → map (λ p. p.0) (reverse_aux q r) ≡ reverse_aux (map (λ p. p.0) q) (map (λ p. p.0) r)
map-reverse_aux [] r = refl
map-reverse_aux (p ∷ q) r = map-reverse_aux q (p ∷ r)

-- The distances that `searchKnnSubset` returns are the `k` least of all, in ascending order: when all
-- distances are sorted from the greatest down, and all but the last `k` are dropped, these in
-- reverse.
pub search_knn_subset_lem :
    (f : List ℕ → ℕ) (vectors : List (ℕ × List ℕ)) (k : ℕ)
    → map (λ r. r.0) (search_knn_subset f vectors k)
      ≡ reverse (drop (length vectors - k) (sort_onto (map (λ v. f v.1) vectors) []))
unfolding search_knn_subset
search_knn_subset_lem f [] k =
    sym (ap reverse (drop_beyond (0 - k) (sort_onto [] []) (omega (arith, length-sort_onto [] []))))
search_knn_subset_lem f (v ∷ vs) zero =
    let ds = distances f (v ∷ vs) in
    sym (
      ap reverse (
        drop_beyond (suc (length vs) - 0) (sort_onto ds [])
          (omega (arith, length-sort_onto ds [], length-map (λ v. f v.1) (v ∷ vs)))))
search_knn_subset_lem f (v ∷ vs) (suc k) =
    let ds = distances f (v ∷ vs) in
    let count : length (sort_onto ds []) ≡ suc (length vs) =
      omega (arith, length-sort_onto ds [], length-map (λ v. f v.1) (v ∷ vs)) in
    let some_wanted : (suc k == 0) ≡ false = ground arith in
    rw some_wanted (
      map-reverse_aux (collect f (suc k) (v ∷ vs) []) []
      ∙ ap reverse (
          collect_lem f (suc k) (v ∷ vs) [] [] (omega arith) tt
            (sym (drop_beyond (0 - suc k) [] (omega arith))))
      ∙ ap (λ n. reverse (drop (n - suc k) (sort_onto ds []))) count)
