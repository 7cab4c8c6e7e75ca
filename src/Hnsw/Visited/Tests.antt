-- ===== src/Hnsw/Visited/Tests.antt =====
-- One search over a pool of one list whose memory is garbage.
use endee.Prelude.{ℕ, ◌≡◌, refl, some, List, [], ◌∷◌, arith, any_eq, get_elem?}
use endee.Hnsw.Visited.{
  new_list, reset, mark, is_visited, get_free_visited_list, release_visited_list,
}
use endee.Hnsw.Visited.Pool.{step, run, init, is_visited-run, Held, Call, takes, marks, gives_back}

abbrev garbage : List ℕ
garbage = 7 ∷ 0 ∷ 65_535 ∷ []

abbrev calls : List Call
calls = takes garbage ∷ (marks 0 2 ∷ (gives_back 0 ∷ (takes garbage ∷ (marks 0 1 ∷ []))))

abbrev in_hand : Held
in_hand = record { list = record { cur_v = 2; mass = 0 ∷ 2 ∷ 1 ∷ [] }; seen = 1 ∷ [] }

holds_one : get_elem? (run (init (garbage ∷ [])) calls).held 0 ≡ some in_hand
unfolding run step init new_list get_free_visited_list release_visited_list reset mark
holds_one = refl

is_visited-run_example : is_visited in_hand.list 2 ≡ any_eq 2 in_hand.seen
is_visited-run_example =
    is_visited-run 3 (garbage ∷ []) calls 0 2 in_hand (omega arith) (omega arith) holds_one
