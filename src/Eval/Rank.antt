-- ===== src/Eval/Rank.antt =====
-- The rank that `and_node::eval` gives, told by the children alone.
use swishxx.Common.{
  ℕ, zero, suc, ◌+◌, ◌%◌, ◌^◌, ◌<◌, ◌≡◌, refl, sym, ap, ◌∙◌, arith, List, [], ◌∷◌, Option, none,
  some, ◌⊎◌, inl, inr, length, get_elem?, All, Option-cases,
}
use swishxx.Eval.Results.{SearchResults, find, int_div, rank_int}
use swishxx.Eval.Laws.{IsMap}
use swishxx.Eval.And.{sum_at, and_results-sum_at}
use swishxx.Eval.{and_sum, and_results, last_of, but_last}

abbrev pub sum : List ℕ → ℕ
sum [] = 0
sum (v ∷ vs) = v + sum vs

-- A child that has not the file keeps it out, wherever the child stands.
and_sum-missing :
    (k v j : ℕ) (cs : List SearchResults) (d : SearchResults)
    → get_elem? cs j ≡ some d
    → find d k ≡ none
    → and_sum k v cs ≡ none
unfolding and_sum
and_sum-missing k v j [] d e n = cc e
and_sum-missing k v zero (c ∷ cs) d e n = let own : c ≡ d = cc e in rw (own, n, and_sum) refl
and_sum-missing k v (suc j) (c ∷ cs) d e n = elim (Option-cases (find c k)) [
  | inl m ↦ rw (m, and_sum) refl
  | inr (w, m) ↦ rw (m, and_sum) (and_sum-missing k (rank_int (v + w)) j cs d e n)
]

last_or_but :
    (c : SearchResults) (cs : List SearchResults) (j : ℕ) (d : SearchResults)
    → get_elem? (c ∷ cs) j ≡ some d
    → (d ≡ last_of c cs) ⊎ ((i : ℕ) × (get_elem? (but_last c cs) i ≡ some d))
last_or_but c [] zero d e = inl cc
last_or_but c [] (suc j) d e = cc e
last_or_but c (b ∷ bs) zero d e = inr (0, e)
last_or_but c (b ∷ bs) (suc j) d e = elim (last_or_but b bs j d e) [
  | inl same ↦ inl same
  | inr (i, there) ↦ inr (suc i, there)
]

sum_at-missing :
    (k j : ℕ) (o : Option ℕ) (cs : List SearchResults) (d : SearchResults)
    → get_elem? cs j ≡ some d
    → find d k ≡ none
    → sum_at k o cs ≡ none
sum_at-missing k j none cs d e n = refl
sum_at-missing k j (some v) cs d e n = and_sum-missing k v j cs d e n

-- The ranks of the children at a file that all of them have.
abbrev pub AreRanks : ℕ → List SearchResults → List ℕ → Type 0
AreRanks k [] [] = Unit
AreRanks k [] (v ∷ vs) = ⊥
AreRanks k (c ∷ cs) [] = ⊥
AreRanks k (c ∷ cs) (v ∷ vs) = (find c k ≡ some v) × (v < 2 ^ 32) × AreRanks k cs vs

and_sum-AreRanks :
    (k v : ℕ) (cs : List SearchResults) (vs : List ℕ)
    → v < 2 ^ 32
    → AreRanks k cs vs
    → and_sum k v cs ≡ some ((v + sum vs) % 2 ^ 32)
unfolding and_sum
and_sum-AreRanks k v [] [] l h = ap some (omega arith)
and_sum-AreRanks k v [] (w ∷ vs) l h = absurd h
and_sum-AreRanks k v (c ∷ cs) [] l h = absurd h
and_sum-AreRanks k v (c ∷ cs) (w ∷ vs) l (e, small, h) =
    rw (e, and_sum)
      (and_sum-AreRanks k ((v + w) % 2 ^ 32) cs vs (omega arith) h ∙ ap some (omega arith))

-- The last of them, and the others, have the same sum.
last_rank :
    (k : ℕ) (c : SearchResults) (cs : List SearchResults) (vs : List ℕ)
    → AreRanks k (c ∷ cs) vs
    → (v : ℕ) × (ws : List ℕ) × (find (last_of c cs) k ≡ some v)
      × (v < 2 ^ 32)
      × AreRanks k (but_last c cs) ws
      × (v + sum ws ≡ sum vs)
last_rank k c cs [] h = absurd h
last_rank k c [] (v ∷ []) (e, small, h) = (v, [], e, small, h, refl)
last_rank k c [] (v ∷ w ∷ vs) (e, small, h) = absurd h
last_rank k c (d ∷ ds) (v ∷ vs) (e, small, h) =
    let (u, ws, found, low, rest, total) = last_rank k d ds vs h in
    (u, v ∷ ws, found, low, (e, small, rest), omega (arith, total))

-- Of children whose results are maps, one at least, "and" leaves out a file that any of them has not found. A file that
-- all have found gets the sum of their ranks, as an int, divided by one more than the number of children.
pub and_results-find :
    (c : SearchResults) (cs : List SearchResults) (rs : SearchResults) (i : ℕ)
    → All IsMap (c ∷ cs)
    → ((j : ℕ) (d : SearchResults)
        → get_elem? (c ∷ cs) j ≡ some d
        → find d i ≡ none
        → find (and_results (c ∷ cs) rs) i ≡ none)
      × ((vs : List ℕ)
          → AreRanks i (c ∷ cs) vs
          → find (and_results (c ∷ cs) rs) i
            ≡ some (int_div (sum vs % 2 ^ 32) (suc (length (c ∷ cs)))))
and_results-find c cs rs i h = (missing, ranked)
  where
    none_there :
        (j : ℕ) (d : SearchResults)
        → get_elem? (c ∷ cs) j ≡ some d
        → find d i ≡ none
        → sum_at i (find (last_of c cs) i) (but_last c cs) ≡ none
    none_there j d e n = elim (last_or_but c cs j d e) [
      | inl same ↦ rw (sym same, n) refl
      | inr (k, there) ↦ sum_at-missing i k _ (but_last c cs) d there n
    ]

    missing :
        (j : ℕ) (d : SearchResults)
        → get_elem? (c ∷ cs) j ≡ some d
        → find d i ≡ none
        → find (and_results (c ∷ cs) rs) i ≡ none
    missing j d e n = rw (and_results-sum_at c cs rs i h, none_there j d e n) refl

    ranked :
        (vs : List ℕ)
        → AreRanks i (c ∷ cs) vs
        → find (and_results (c ∷ cs) rs) i
          ≡ some (int_div (sum vs % 2 ^ 32) (suc (length (c ∷ cs))))
    ranked vs r =
        let (v, ws, found, low, rest, total) = last_rank i c cs vs r in
        rw
          (
            and_results-sum_at c cs rs i h,
            found,
            and_sum-AreRanks i v (but_last c cs) ws low rest,
            total,
          )
          refl
