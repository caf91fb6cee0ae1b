-- ===== src/Eval/And.antt =====
-- What "and" finds.
use swishxx.Common.{
  ℕ, zero, suc, ◌+◌, ◌*◌, ◌/◌, ◌^◌, ◌≤◌, ◌<◌, ◌≡◌, refl, sym, ap, arith, true, List, [], ◌∷◌,
  Option, none, some, ltb, ◌==◌, if◌then◌else◌, Bool-cases, inl, inr, length, All,
}
use swishxx.Eval.Results.{SearchResults, find, rank_int, int_div}
use swishxx.Eval.Laws.{IsMap, IsMapFrom, IsMapFrom-weaken, find-nil, find-cons, find-below}
use swishxx.Eval.{and_sum, and_filter, divide_all, and_results, last_of, but_last}

-- The sum at a file that a result has.
abbrev pub sum_at : ℕ → Option ℕ → List SearchResults → Option ℕ
sum_at k none cs = none
sum_at k (some v) cs = and_sum k v cs

abbrev keep : ℕ → Option ℕ → SearchResults → SearchResults
keep k o rest = elim o [ none ↦ rest | some v ↦ (k, v) ∷ rest ]

keep-IsMapFrom :
    (lo k : ℕ) (o : Option ℕ) (rest : SearchResults)
    → lo ≤ k
    → IsMapFrom (suc k) rest
    → IsMapFrom lo (keep k o rest)
keep-IsMapFrom lo k none rest l h = IsMapFrom-weaken lo (suc k) rest (omega arith) h
keep-IsMapFrom lo k (some v) rest l h = (l, h)

pub and_filter-IsMapFrom :
    (lo : ℕ) (rs : SearchResults) (cs : List SearchResults)
    → IsMapFrom lo rs
    → IsMapFrom lo (and_filter rs cs)
unfolding and_filter
and_filter-IsMapFrom lo [] cs h = tt
and_filter-IsMapFrom lo (p ∷ rs) cs (l, h) =
    keep-IsMapFrom lo p.0 (and_sum p.0 p.1 cs) (and_filter rs cs) l
      (and_filter-IsMapFrom (suc p.0) rs cs h)

find-keep :
    (k i : ℕ) (o : Option ℕ) (rest : SearchResults)
    → find rest k ≡ none
    → find (keep k o rest) i ≡ (if k == i then o else find rest i)
find-keep k i none rest h = elim (Bool-cases (k == i)) [
  | inl y ↦ let e : k ≡ i = ground arith in rw (y, sym e, h) refl
  | inr n ↦ rw n refl
]
find-keep k i (some v) rest h = find-cons (k, v) rest i

-- A result stays if every other child has it, with the sum of the ranks.
pub and_filter-find :
    (lo : ℕ) (rs : SearchResults) (cs : List SearchResults) (i : ℕ)
    → IsMapFrom lo rs
    → find (and_filter rs cs) i ≡ sum_at i (find rs i) cs
unfolding and_filter
and_filter-find lo [] cs i h = rw (find-nil i) refl
and_filter-find lo (p ∷ rs) cs i (l, h) =
    let new =
      find-below (and_filter rs cs) (suc p.0) p.0 (and_filter-IsMapFrom (suc p.0) rs cs h)
        (omega arith) in
    rw (find-keep p.0 i (and_sum p.0 p.1 cs) (and_filter rs cs) new, find-cons p rs i)
      (elim (Bool-cases (p.0 == i)) [
        | inl y ↦ let e : p.0 ≡ i = ground arith in rw (y, e) refl
        | inr n ↦ rw n (and_filter-find (suc p.0) rs cs i h)
      ])

abbrev pub div_option : ℕ → Option ℕ → Option ℕ
div_option n none = none
div_option n (some v) = some (int_div v n)

divide_all-find :
    (n : ℕ) (rs : SearchResults) (i : ℕ) → find (divide_all n rs) i ≡ div_option n (find rs i)
unfolding divide_all
divide_all-find n [] i = rw (find-nil i) refl
divide_all-find n (p ∷ rs) i =
    rw (find-cons (p.0, int_div p.1 n) (divide_all n rs) i, find-cons p rs i)
      (elim (Bool-cases (p.0 == i)) [ inl y ↦ rw y refl | inr m ↦ rw m (divide_all-find n rs i) ])

pub divide_all-IsMapFrom :
    (n lo : ℕ) (rs : SearchResults) → IsMapFrom lo rs → IsMapFrom lo (divide_all n rs)
unfolding divide_all
divide_all-IsMapFrom n lo [] h = tt
divide_all-IsMapFrom n lo (p ∷ rs) (l, h) = (l, divide_all-IsMapFrom n (suc p.0) rs h)

last_of-IsMap :
    (c : SearchResults) (cs : List SearchResults) → IsMap c → All IsMap cs → IsMap (last_of c cs)
last_of-IsMap c [] h hs = h
last_of-IsMap c (d ∷ ds) h hs = last_of-IsMap d ds hs.0 hs.1

pub and_results-IsMap :
    (cs : List SearchResults) (rs : SearchResults)
    → All IsMap cs
    → IsMap rs
    → IsMap (and_results cs rs)
unfolding and_results
and_results-IsMap [] rs hs h = h
and_results-IsMap (c ∷ cs) rs hs h =
    divide_all-IsMapFrom (suc (length (c ∷ cs))) 0 (and_filter (last_of c cs) (but_last c cs))
      (and_filter-IsMapFrom 0 (last_of c cs) (but_last c cs) (last_of-IsMap c cs hs.0 hs.1))

-- Of children whose results are maps, one at least, "and" finds what the sum of the ranks is at the last child's
-- results, divided by one more than the number of children.
pub and_results-sum_at :
    (c : SearchResults) (cs : List SearchResults) (rs : SearchResults) (i : ℕ)
    → All IsMap (c ∷ cs)
    → find (and_results (c ∷ cs) rs) i
      ≡ div_option (suc (suc (length cs))) (sum_at i (find (last_of c cs) i) (but_last c cs))
unfolding and_results
and_results-sum_at c cs rs i (h, hs) =
    rw
      (
        divide_all-find (suc (suc (length cs))) (and_filter (last_of c cs) (but_last c cs)) i,
        and_filter-find 0 (last_of c cs) (but_last c cs) i (last_of-IsMap c cs h hs),
      )
      refl

-- `n` children that find the same file at the same rank.
abbrev pub copies : ℕ → SearchResults → List SearchResults
copies zero c = []
copies (suc n) c = c ∷ copies n c

and_sum-copies :
    (k r v n : ℕ) → v + n * r < 2 ^ 31 → and_sum k v (copies n ((k, r) ∷ [])) ≡ some (v + n * r)
unfolding and_sum
and_sum-copies k r v zero h = ap some (omega arith)
and_sum-copies k r v (suc n) h =
    let own : (k == k) ≡ true = ground arith in
    let found : find ((k, r) ∷ []) k ≡ some r = rw (find-cons (k, r) [] k, own) refl in
    let step : rank_int (v + r) ≡ v + r = ground arith in
    let total : v + suc n * r ≡ v + r + n * r = grind arith in
    rw (found, and_sum) (rw (step, total) (and_sum-copies k r (v + r) n (rw (sym total) h)))

last_of-copies : (c : SearchResults) (n : ℕ) → last_of c (copies n c) ≡ c
last_of-copies c zero = refl
last_of-copies c (suc n) = last_of-copies c n

but_last-copies : (c : SearchResults) (n : ℕ) → but_last c (copies n c) ≡ copies n c
but_last-copies c zero = refl
but_last-copies c (suc n) = rw (but_last-copies c n) refl

length-copies : (c : SearchResults) (n : ℕ) → length (copies n c) ≡ n
length-copies c zero = refl
length-copies c (suc n) = ap suc (length-copies c n)

-- Two or more words of the same rank in a file do not give it that rank: `copies (suc n)` of the results
-- of one, of rank `r`, make `suc n` children with sum `r + n * r`, which is divided by `n + 2`, if the sum is
-- an int.
pub and_results-copies :
    (k r n : ℕ) (rs : SearchResults)
    → r + n * r < 2 ^ 31
    → and_results (copies (suc n) ((k, r) ∷ [])) rs ≡ (k, (r + n * r) / suc (suc n)) ∷ []
unfolding and_results and_filter divide_all int_div
and_results-copies k r n rs h =
    let below : ltb (r + n * r) (2 ^ 31) ≡ true = ground arith in
    rw
      (
        last_of-copies ((k, r) ∷ []) n,
        but_last-copies ((k, r) ∷ []) n,
        length-copies ((k, r) ∷ []) n,
      )
      (rw (and_sum-copies k r r n h, and_filter) (rw (below, int_div) refl))
