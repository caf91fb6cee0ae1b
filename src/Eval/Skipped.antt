-- ===== src/Eval/Skipped.antt =====
-- How `not_near_node::eval` goes on behind a file of the left word that the right word does not have.
use swishxx.Common.{
  ℕ, ◌+◌, ◌<◌, ◌≡◌, refl, arith, Bool, true, false, List, [], ◌∷◌, some, ltb, ◌==◌, if◌then◌else◌,
  Bool-cases, inl, inr, All,
}
use swishxx.Posting.{File, has_meta_id}
use swishxx.Eval.Results.{SearchResults, find, add, rank_of, rank_int}
use swishxx.Eval.Laws.{find-add}
use swishxx.Eval.NearFiles.{not_near_files, catch_up, step_file, found_near}

catch_up-ahead :
    (i : ℕ) (f1 : File) (l1 : List File) → i < f1.index → catch_up i (f1 ∷ l1) ≡ f1 ∷ l1
unfolding catch_up
catch_up-ahead i f1 l1 h = let b : ltb f1.index i ≡ false = ground arith in rw b refl

found_near-ahead :
    (near m1 : ℕ) (f0 f1 : File) (l1 : List File)
    → f0.index < f1.index
    → found_near near m1 f0 (f1 ∷ l1) ≡ false
unfolding found_near
found_near-ahead near m1 f0 f1 l1 h =
    let b : (f0.index == f1.index) ≡ false = ground arith in rw b refl

-- Lists of files that are all behind the one of the left word: there is nothing to compare it with.
catch_up-behind : (i : ℕ) (l1 : List File) → All (λ f. i < f.index) l1 → catch_up i l1 ≡ l1
unfolding catch_up
catch_up-behind i [] h = refl
catch_up-behind i (f1 ∷ l1) h = catch_up-ahead i f1 l1 h.0

found_near-behind :
    (near m1 : ℕ) (f0 : File) (l1 : List File)
    → All (λ f. f0.index < f.index) l1
    → found_near near m1 f0 l1 ≡ false
unfolding found_near
found_near-behind near m1 f0 [] h = refl
found_near-behind near m1 f0 (f1 ∷ l1) h = found_near-ahead near m1 f0 f1 l1 h.0

-- The file is a result.
abbrev pub IsResult : SearchResults → ℕ → Type 0
IsResult rs k = (rank : ℕ) × (find rs k ≡ some rank)

add-IsResult : (rs : SearchResults) (j r k : ℕ) → IsResult rs k → IsResult (add rs j r) k
add-IsResult rs j r k (v, e) = elim (Bool-cases (j == k)) [
  | inl y ↦ (rank_int (rank_of (find rs j) + r), rw (find-add rs j r k, y) refl)
  | inr n ↦ (v, rw (find-add rs j r k, n) e)
]

add-own : (rs : SearchResults) (k r : ℕ) → IsResult (add rs k r) k
add-own rs k r =
    let own : (k == k) ≡ true = ground arith in
    (rank_int (rank_of (find rs k) + r), rw (find-add rs k r k, own) refl)

if_IsResult :
    (b : Bool) (rs ss : SearchResults) (k : ℕ)
    → IsResult rs k
    → IsResult ss k
    → IsResult (if b then rs else ss) k
if_IsResult true rs ss k r s = r
if_IsResult false rs ss k r s = s

-- The loop takes no result away.
not_near_files-IsResult :
    (near m0 m1 k : ℕ) (l0 l1 : List File) (rs : SearchResults)
    → IsResult rs k
    → IsResult (not_near_files near m0 m1 l0 l1 rs) k
unfolding not_near_files
not_near_files-IsResult near m0 m1 k [] l1 rs h = h
not_near_files-IsResult near m0 m1 k (f0 ∷ l0) l1 rs h =
    not_near_files-IsResult near m0 m1 k l0 _ _
      (if_IsResult _ _ rs k (add-IsResult rs f0.index f0.rank k h) h)

-- One round at a file of the left word, with the meta ID, that stands before all the files left of the right word.
alone_round :
    (near m0 m1 : ℕ) (f0 : File) (l0 l1 : List File) (rs : SearchResults)
    → has_meta_id f0 m0 ≡ true
    → All (λ f. f0.index < f.index) l1
    → (l1' : List File) × (not_near_files near m0 m1 (f0 ∷ l0) l1 rs
        ≡ not_near_files near m0 m1 l0 l1' (add rs f0.index f0.rank))
unfolding not_near_files
alone_round near m0 m1 f0 l0 l1 rs m h = (
  step_file l1,
  rw (m, catch_up-behind f0.index l1 h, found_near-behind near m1 f0 l1 h, not_near_files) refl,
)

-- The left word has two files, each with the meta ID, one behind the other in its list; the right word, whose files
-- are in order, has none as early as the first, but has the second: then that common file is a result of "not near",
-- wherever the two words stand in it.
pub not_near_files_skips :
    (near m0 m1 : ℕ) (f0 g f1 : File) (l0 l1 : List File) (rs : SearchResults)
    → has_meta_id f0 m0 ≡ true
    → has_meta_id g m0 ≡ true
    → f0.index < f1.index
    → g.index ≡ f1.index
    → All (λ f. f1.index < f.index) l1
    → IsResult (not_near_files near m0 m1 (f0 ∷ g ∷ l0) (f1 ∷ l1) rs) g.index
unfolding not_near_files
not_near_files_skips near m0 m1 f0 g f1 l0 l1 rs m n h same behind =
    let later : All (λ f. g.index < f.index) l1 = rw same behind in
    let (l1', e) = alone_round near m0 m1 g l0 l1 (add rs f0.index f0.rank) n later in
    rw (m, catch_up-ahead f0.index f1 l1 h, found_near-ahead near m1 f0 f1 l1 h, not_near_files)
      (rw e (
        not_near_files-IsResult near m0 m1 g.index l0 l1' _
          (add-own (add rs f0.index f0.rank) g.index g.rank)))
