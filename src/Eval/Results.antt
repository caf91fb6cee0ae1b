-- ===== src/Eval/Results.antt =====
-- src/query.h: `search_results`, an ordered map from a file's index to its rank. An int is its 32-bit
-- pattern; a sum of ints is taken modulo 2 ^ 32.
use swishxx.Common.{
  ℕ, ◌+◌, ◌-◌, ◌/◌, ◌%◌, ◌^◌, List, [], ◌∷◌, Option, none, some, ltb, ◌==◌, if◌then◌else◌,
}

abbrev pub SearchResults : Type 0
SearchResults = List (ℕ × ℕ)

abbrev pub rank_int : ℕ → ℕ
rank_int n = n % 2 ^ 32

unfoldable pub find : SearchResults → ℕ → Option ℕ
find [] k = none
find (p ∷ ps) k = if p.0 == k then some p.1 else find ps k

-- `results[ k ] = v`
unfoldable pub set : SearchResults → ℕ → ℕ → SearchResults
set [] k v = (k, v) ∷ []
set (p ∷ ps) k v =
    let rest = set ps k v in
    if k == p.0 then (k, v) ∷ ps else if ltb k p.0 then (k, v) ∷ p ∷ ps else p ∷ rest

-- What `results[ k ]` is for a key that may be new.
abbrev pub rank_of : Option ℕ → ℕ
rank_of none = 0
rank_of (some v) = v

-- `results[ k ] += rank`
unfoldable pub add : SearchResults → ℕ → ℕ → SearchResults
unfolding find set
add results k rank = set results k (rank_int (rank_of (find results k) + rank))

-- A quotient of an int by a small positive one: it is rounded to zero.
unfoldable pub int_div : ℕ → ℕ → ℕ
int_div v n = if ltb v (2 ^ 31) then v / n else (2 ^ 32 - (2 ^ 32 - v) / n) % 2 ^ 32
