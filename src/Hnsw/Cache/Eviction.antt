-- ===== src/Hnsw/Cache/Eviction.antt =====
-- How long an entry lasts against insertions of other identifiers into its slot.
use endee.Prelude.{ℕ, ◌+◌, ◌-◌, ◌≤◌, ◌<◌, ◌≡◌, refl, ◌≢◌, List, [], ◌∷◌, ◌++◌, arith, length, All}
use endee.Hnsw.Cache.{slot_life_warm, slot_life_hot, Bytes, insert_slot, Slot}

-- The slot after insertions, oldest first.
unfoldable pub insert_all : Slot → List (ℕ × Bytes) → Slot
insert_all s [] = s
insert_all s ((i, x) ∷ ixs) = insert_all (insert_slot s i x) ixs

abbrev pub IsOther : Slot → ℕ × Bytes → Type 0
IsOther s ix = s.stored_id ≢ ix.0

insert_slot_conflict :
    (s : Slot) (i : ℕ) (x : Bytes)
    → s.stored_id ≢ i
    → 1 < s.life
    → s.life ≤ 3
    → insert_slot s i x ≡ record s { life = s.life - 1 }
unfolding insert_slot
insert_slot_conflict s i x other many few = ground arith

-- An entry keeps its slot, and its vector, against fewer conflicting insertions than it has
-- lives, and loses a life to each.
pub insert_all_survives :
    (s : Slot) (ixs : List (ℕ × Bytes))
    → All (IsOther s) ixs
    → length ixs < s.life
    → s.life ≤ slot_life_hot
    → insert_all s ixs ≡ record s { life = s.life - length ixs }
unfolding insert_all
insert_all_survives s [] other few life = ground arith
insert_all_survives s ((i, x) ∷ ixs) other few life =
    rw (insert_slot_conflict s i x other.0 (omega arith) (omega arith)) (
      ground (
        arith,
        insert_all_survives (record s { life = s.life - 1 }) ixs other.1 (omega arith)
            (omega arith),
      ))

insert_all-append :
    (s : Slot) (ixs jxs : List (ℕ × Bytes))
    → insert_all s (ixs ++ jxs) ≡ insert_all (insert_all s ixs) jxs
unfolding insert_all
insert_all-append s [] jxs = refl
insert_all-append s (ix ∷ ixs) jxs = insert_all-append (insert_slot s ix.0 ix.1) ixs jxs

last_insertion :
    (s : Slot) (i : ℕ) (x : Bytes) (n : ℕ)
    → s.stored_id ≢ i
    → n + 1 ≡ s.life
    → insert_all (record s { life = s.life - n }) ((i, x) ∷ [])
      ≡ record { stored_id = i; content = x; life = slot_life_warm }
unfolding insert_all insert_slot
last_insertion s i x n new few = ground arith

-- The insertion after those takes the slot, with a warm life.
pub insert_all_replaces :
    (s : Slot) (ixs : List (ℕ × Bytes)) (i : ℕ) (x : Bytes)
    → All (IsOther s) ixs
    → s.stored_id ≢ i
    → length ixs + 1 ≡ s.life
    → s.life ≤ slot_life_hot
    → insert_all s (ixs ++ (i, x) ∷ [])
      ≡ record { stored_id = i; content = x; life = slot_life_warm }
insert_all_replaces s ixs i x other new few life =
    rw (insert_all-append s ixs ((i, x) ∷ []), insert_all_survives s ixs other (omega arith) life)
      (last_insertion s i x (length ixs) new few)
