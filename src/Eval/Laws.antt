-- ===== src/Eval/Laws.antt =====
-- The map of results: it stays in the order of its keys, and what "or" and "not" put into it.
use swishxx.Common.{
  ℕ, zero, suc, ◌+◌, ◌≤◌, ◌<◌, ◌≡◌, refl, arith, Bool, true, false, ◌&&◌, [], ◌∷◌, Option, none,
  some, ltb, leb, ◌==◌, if◌then◌else◌, Bool-cases, inl, inr,
}
use swishxx.Eval.Results.{SearchResults, find, set, add, rank_of, rank_int}
use swishxx.Eval.{or_merge, not_files}

pub find-set :
    (rs : SearchResults) (k v i : ℕ) → find (set rs k v) i ≡ (if k == i then some v else find rs i)
unfolding find set
find-set [] k v i = refl
find-set (p ∷ rs) k v i = let ih = find-set rs k v i in ground arith

pub find-add :
    (rs : SearchResults) (k v i : ℕ)
    → find (add rs k v) i
      ≡ (if k == i then some (rank_int (rank_of (find rs k) + v)) else find rs i)
unfolding add
find-add rs k v i = find-set rs k (rank_int (rank_of (find rs k) + v)) i

-- The keys are in order, each once, and none is below the bound.
abbrev pub IsMapFrom : ℕ → SearchResults → Type 0
IsMapFrom lo [] = Unit
IsMapFrom lo (p ∷ ps) = (lo ≤ p.0) × IsMapFrom (suc p.0) ps

abbrev pub IsMap : SearchResults → Type 0
IsMap rs = IsMapFrom 0 rs

pub IsMapFrom-weaken :
    (lo hi : ℕ) (rs : SearchResults) → lo ≤ hi → IsMapFrom hi rs → IsMapFrom lo rs
IsMapFrom-weaken lo hi [] l h = tt
IsMapFrom-weaken lo hi (p ∷ ps) l h = (omega arith, h.1)

pub find-below : (rs : SearchResults) (lo k : ℕ) → IsMapFrom lo rs → k < lo → find rs k ≡ none
unfolding find
find-below [] lo k h l = refl
find-below (p ∷ ps) lo k h l = let ih = find-below ps (suc p.0) k h.1 (omega arith) in ground arith

pub set-IsMapFrom :
    (rs : SearchResults) (lo k v : ℕ) → lo ≤ k → IsMapFrom lo rs → IsMapFrom lo (set rs k v)
unfolding set
set-IsMapFrom [] lo k v l h = (l, tt)
set-IsMapFrom (p ∷ ps) lo k v l h = elim (Bool-cases (k == p.0)) [
  | inl y ↦ rw (y, set) (l, IsMapFrom-weaken (suc k) (suc p.0) ps (ground arith) h.1)
  | inr n ↦ elim (Bool-cases (ltb k p.0)) [
    | inl y ↦ rw (n, y, set) (l, (ground arith, h.1))
    | inr m ↦ rw (n, m, set) (h.0, set-IsMapFrom ps (suc p.0) k v (ground arith) h.1)
  ]
]

pub add-IsMap : (rs : SearchResults) (k v : ℕ) → IsMap rs → IsMap (add rs k v)
unfolding add
add-IsMap rs k v h = set-IsMapFrom rs 0 k (rank_int (rank_of (find rs k) + v)) (omega arith) h

-- The rank of a file that either side finds: both ranks, added up.
abbrev pub or_rank : Option ℕ → Option ℕ → Option ℕ
or_rank l none = l
or_rank l (some w) = some (rank_int (rank_of l + w))

pub find-nil : (i : ℕ) → find [] i ≡ none
unfolding find
find-nil i = refl

pub find-cons :
    (p : ℕ × ℕ) (ps : SearchResults) (i : ℕ)
    → find (p ∷ ps) i ≡ (if p.0 == i then some p.1 else find ps i)
unfolding find
find-cons p ps i = refl

-- A file that one side finds keeps its rank, and one that both find has the sum.
pub or_merge-find :
    (l r : SearchResults) (lo i : ℕ)
    → IsMapFrom lo r
    → find (or_merge l r) i ≡ or_rank (find l i) (find r i)
unfolding or_merge
or_merge-find l [] lo i h = rw (find-nil i) refl
or_merge-find l (p ∷ r) lo i h =
    rw (or_merge-find (add l p.0 p.1) r (suc p.0) i h.1, find-add l p.0 p.1 i, find-cons p r i)
      (elim (Bool-cases (p.0 == i)) [
        | inl y ↦
            let e : p.0 ≡ i = ground arith in
            rw (y, find-below r (suc p.0) i h.1 (omega arith), e) refl
        | inr n ↦ rw n refl
      ])

-- What "not" does at one file.
abbrev pub not_rank : Bool → Option ℕ → Option ℕ → Option ℕ
not_rank in_files (some w) old = old
not_rank in_files none old = if in_files then some 100 else old

not_rank-false : (o old : Option ℕ) → not_rank false o old ≡ old
not_rank-false none old = refl
not_rank-false (some w) old = refl

abbrev in_range : ℕ → ℕ → ℕ → Bool
in_range n i k = leb i k && ltb k (i + n)

-- The turn of the file `i`.
abbrev turn : ℕ → Option ℕ → SearchResults → SearchResults
turn i o rs = elim o [ none ↦ set rs i 100 | some v ↦ rs ]

turn-at :
    (i k : ℕ) (o : Option ℕ) (rs : SearchResults)
    → (i == k) ≡ true
    → find (turn i o rs) k ≡ not_rank true o (find rs k)
turn-at i k none rs y = rw (find-set rs i 100 k, y) refl
turn-at i k (some v) rs y = refl

turn-elsewhere :
    (i k : ℕ) (o : Option ℕ) (rs : SearchResults)
    → (i == k) ≡ false
    → find (turn i o rs) k ≡ find rs k
turn-elsewhere i k none rs n = rw (find-set rs i 100 k, n) refl
turn-elsewhere i k (some v) rs n = refl

-- The turn, and the range of the files behind it.
not_turn :
    (n i k : ℕ) (child rs : SearchResults)
    → not_rank (in_range n (suc i) k) (find child k) (find (turn i (find child i) rs) k)
      ≡ not_rank (in_range (suc n) i k) (find child k) (find rs k)
not_turn n i k child rs = elim (Bool-cases (i == k)) [
  | inl y ↦
      let e : i ≡ k = ground arith in
      let out : in_range n (suc i) k ≡ false = ground arith in
      let within : in_range (suc n) i k ≡ true = ground arith in
      rw (out, within, not_rank-false, turn-at i k (find child i) rs y, e) refl
  | inr m ↦
      let same : in_range n (suc i) k ≡ in_range (suc n) i k = ground arith in
      rw (same, turn-elsewhere i k (find child i) rs m) refl
]

pub not_files-find :
    (n i : ℕ) (child rs : SearchResults) (k : ℕ)
    → find (not_files n i child rs) k
      ≡ not_rank (leb i k && ltb k (i + n)) (find child k) (find rs k)
unfolding not_files
not_files-find zero i child rs k =
    let out : in_range 0 i k ≡ false = ground arith in rw (out, not_rank-false) refl
not_files-find (suc n) i child rs k =
    rw (not_files-find n (suc i) child (turn i (find child i) rs) k) (not_turn n i k child rs)
