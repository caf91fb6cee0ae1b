-- ===== src/Eval/NearFiles.antt =====
-- src/query_node.cpp: the loops over the files of two words in `near_node::eval` and `not_near_node::eval`.
use swishxx.Common.{
  ℕ, zero, suc, ◌+◌, ◌%◌, ◌^◌, ◌/◌, Bool, true, false, not, ◌&&◌, ◌||◌, List, [], ◌∷◌, ltb, ◌==◌,
  if◌then◌else◌,
}
use swishxx.Posting.{File, has_meta_id}
use swishxx.Eval.Results.{SearchResults, set, add}
use swishxx.Eval.Near.{is_near}

-- `(file[0]->rank_ + file[1]->rank_) / 2`, on unsigned ints.
abbrev pub mean_rank : File → File → ℕ
mean_rank f0 f1 = (f0.rank + f1.rank) % 2 ^ 32 / 2

-- The loop of `near_node::eval`; each round goes on in one list at least.
unfoldable pub near_files : ℕ → ℕ → ℕ → ℕ → List File → List File → SearchResults → SearchResults
unfolding is_near
near_files near m0 m1 zero l0 l1 results = results
near_files near m0 m1 (suc fuel) [] l1 results = results
near_files near m0 m1 (suc fuel) (f0 ∷ l0) [] results = results
near_files near m0 m1 (suc fuel) (f0 ∷ l0) (f1 ∷ l1) results =
    elim (ltb f0.index f1.index || not (has_meta_id f0 m0)) [
      | true ↦ near_files near m0 m1 fuel l0 (f1 ∷ l1) results
      | false ↦ (elim (ltb f1.index f0.index || not (has_meta_id f1 m1)) [
        | true ↦ near_files near m0 m1 fuel (f0 ∷ l0) l1 results
        | false ↦
            near_files near m0 m1 fuel l0 l1
              (if is_near near f0 f1 then set results f0.index (mean_rank f0 f1) else results)
      ])
    ]

-- "Make file[1]'s index "catch up" to file[0]'s."
unfoldable pub catch_up : ℕ → List File → List File
catch_up index [] = []
catch_up index (f1 ∷ l1) =
    let rest = catch_up index l1 in if ltb f1.index index then rest else f1 ∷ l1

-- `if ( file[1] != list1.end() ) ++file[1];`
abbrev pub step_file : List File → List File
step_file [] = []
step_file (f1 ∷ l1) = l1

-- Whether `goto found_near` is taken.
unfoldable pub found_near : ℕ → ℕ → File → List File → Bool
unfolding is_near
found_near near m1 f0 [] = false
found_near near m1 f0 (f1 ∷ l1) = f0.index == f1.index && (has_meta_id f1 m1 && is_near near f0 f1)

-- The loop of `not_near_node::eval`.
unfoldable pub not_near_files : ℕ → ℕ → ℕ → List File → List File → SearchResults → SearchResults
unfolding catch_up found_near
not_near_files near m0 m1 [] l1 results = results
not_near_files near m0 m1 (f0 ∷ l0) l1 results =
    let l1' = if has_meta_id f0 m0 then catch_up f0.index l1 else l1 in
    not_near_files near m0 m1 l0 (step_file l1') (
      if has_meta_id f0 m0 && not (found_near near m1 f0 l1')
      then add results f0.index f0.rank
      else results)
