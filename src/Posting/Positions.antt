-- ===== src/Posting/Positions.antt =====
-- Word positions: `add_word_pos` of src/word_info.h stores deltas, and `near_node::eval` and
-- `not_near_node::eval` of src/query_node.cpp add them up again.
use swishxx.Common.{ℕ, ◌+◌, ◌%◌, ◌^◌, ◌≤◌, ◌<◌, ◌≡◌, arith, List, [], ◌∷◌}
use swishxx.Posting.{to_unsigned, add_word_pos}

-- The deltas of a word that occurs at these positions, in this order.
unfoldable pub add_all : List ℕ → List ℕ → List ℕ
unfolding add_word_pos
add_all ds [] = ds
add_all ds (p ∷ ps) = add_all (add_word_pos ds p) ps

-- `pos[i] += file[i]->pos_deltas_[ pdi[i] ]`, on unsigned ints.
abbrev pub sums : ℕ → List ℕ → List ℕ
sums p [] = p ∷ []
sums p (d ∷ ds) = p ∷ sums ((p + to_unsigned d) % 2 ^ 32) ds

-- Every position that the loop over the deltas goes through.
unfoldable pub positions : List ℕ → List ℕ
positions [] = []
positions (d ∷ ds) = sums (to_unsigned d) ds

-- One or two occurrences are found where they were.
pub positions_two :
    (p q : ℕ) → p ≤ q → q < 2 ^ 15 → positions (add_all [] (p ∷ q ∷ [])) ≡ p ∷ q ∷ []
unfolding positions add_all
positions_two p q h l = ground arith

-- The third one is not: of a word at positions p, q and r, in order and below 2 ^ 15, the delta of r is
-- taken from the last delta and not from the last position, so that the word is found at p, q and
-- r + p.
pub positions_third :
    (p q r : ℕ)
    → p ≤ q
    → q ≤ r
    → r < 2 ^ 15
    → positions (add_all [] (p ∷ q ∷ r ∷ [])) ≡ p ∷ q ∷ (r + p) ∷ []
unfolding positions add_all
positions_third p q r h1 h2 l = ground arith
