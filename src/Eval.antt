-- ===== src/Eval.antt =====
-- src/query_node.cpp: what the nodes of a query find. Visiting a tree and distributing "near" over it
-- are left out: they go by the identity of nodes. The lists of files are those of src/file_list.cpp, read from
-- the index; `near` is the setting `words_near`.
pub mod Results
pub mod Near
pub mod NearFiles
pub mod Nearness
pub mod Laws
pub mod And
pub mod Rank
pub mod Ordered
pub mod Skipped
pub mod Join
pub mod Boolean
pub mod Semantics
pub mod Parts
pub mod Refines
use swishxx.Common.{
  ℕ, zero, suc, ◌+◌, ◌%◌, ◌^◌, ◌/◌, Bool, true, false, not, ◌&&◌, ◌||◌, List, [], ◌∷◌, Option, none,
  some, ltb, ◌==◌, if◌then◌else◌, length,
}
use swishxx.Posting.{File, has_meta_id}
use swishxx.Query.{Index, is_too_frequent, meta_id_none}
use swishxx.Query.Node.{
  Node, Nodes, empty_node, and_node, near_node, not_near_node, not_node, or_node, word_node, nil,
  cons,
}
use Results.{SearchResults, find, set, add, int_div, rank_int}
use NearFiles.{near_files, not_near_files}

-- `word_node::eval`: the loop over the files of a word, and the loop over the words.
unfoldable pub word_files : ℕ → List File → SearchResults → SearchResults
word_files meta_id [] results = results
word_files meta_id (f ∷ fs) results =
    word_files meta_id fs (if has_meta_id f meta_id then add results f.index f.rank else results)

unfoldable pub word_eval : Index → ℕ → List (List File) → SearchResults → SearchResults
unfolding word_files
word_eval idx meta_id [] results = results
word_eval idx meta_id (files ∷ range) results =
    word_eval idx meta_id range
      (if is_too_frequent idx (length files) then results else word_files meta_id files results)

-- `or_node::eval`, behind its two calls of `eval`.
unfoldable pub or_merge : SearchResults → SearchResults → SearchResults
or_merge left [] = left
or_merge left (p ∷ right) = or_merge (add left p.0 p.1) right

-- `not_node::eval`: the loop over the `n` files from `i` on.
unfoldable pub not_files : ℕ → ℕ → SearchResults → SearchResults → SearchResults
not_files zero i child results = results
not_files (suc n) i child results =
    not_files n (suc i) child (elim (find child i) [ none ↦ set results i 100 | some v ↦ results ])

-- `and_node::eval`: the rank of one result and the other children's; `none` if it is erased.
unfoldable pub and_sum : ℕ → ℕ → List SearchResults → Option ℕ
and_sum k v [] = some v
and_sum k v (c ∷ cs) = elim (find c k) [ none ↦ none | some w ↦ and_sum k (rank_int (v + w)) cs ]

unfoldable pub and_filter : SearchResults → List SearchResults → SearchResults
unfolding and_sum
and_filter [] cs = []
and_filter (p ∷ results) cs =
    let rest = and_filter results cs in
    elim (and_sum p.0 p.1 cs) [ none ↦ rest | some v ↦ (p.0, v) ∷ rest ]

-- `result.second /= num_ands` for all results.
unfoldable pub divide_all : ℕ → SearchResults → SearchResults
divide_all n [] = []
divide_all n (p ∷ results) = (p.0, int_div p.1 n) ∷ divide_all n results

-- `child_results.back()`, and what `pop_back` leaves; the second argument is the first element.
abbrev pub last_of : SearchResults → List SearchResults → SearchResults
last_of c [] = c
last_of c (d ∷ ds) = last_of d ds

abbrev pub but_last : SearchResults → List SearchResults → List SearchResults
but_last c [] = []
but_last c (d ∷ ds) = c ∷ but_last d ds

-- What follows the loop over the children; the parser makes no `and_node` without children.
unfoldable pub and_results : List SearchResults → SearchResults → SearchResults
unfolding and_filter divide_all
and_results [] results = results
and_results (c ∷ cs) results =
    divide_all (suc (length (c ∷ cs))) (and_filter (last_of c cs) (but_last c cs))

-- `near_node::eval` on two words, each with its range and its meta ID.
abbrev pub meta_differ : ℕ → ℕ → Bool
meta_differ m0 m1 = not (m0 == meta_id_none) && (not (m1 == meta_id_none) && not (m0 == m1))

unfoldable pub near_right :
    Index → ℕ → ℕ → ℕ → List File → List (List File) → SearchResults → SearchResults
near_right idx near m0 m1 list0 [] results = results
near_right idx near m0 m1 list0 (list1 ∷ range1) results = near_right idx near m0 m1 list0 range1 (
    if is_too_frequent idx (length list1)
    then results
    else near_files near m0 m1 (suc (length list0 + length list1)) list0 list1 results)

unfoldable pub near_words :
    Index → ℕ → ℕ → ℕ → List (List File) → List (List File) → SearchResults → SearchResults
unfolding near_right
near_words idx near m0 m1 [] range1 results = results
near_words idx near m0 m1 (list0 ∷ range0) range1 results =
    near_words idx near m0 m1 range0 range1 (
      if is_too_frequent idx (length list0)
      then results
      else near_right idx near m0 m1 list0 range1 results)

-- `not_near_node::eval` on two words.
unfoldable pub not_near_right :
    ℕ → ℕ → ℕ → List File → List (List File) → SearchResults → SearchResults
not_near_right near m0 m1 list0 [] results = results
not_near_right near m0 m1 list0 (list1 ∷ range1) results =
    not_near_right near m0 m1 list0 range1 (not_near_files near m0 m1 list0 list1 results)

unfoldable pub not_near_words :
    Index → ℕ → ℕ → ℕ → List (List File) → List (List File) → SearchResults → SearchResults
unfolding not_near_right
not_near_words idx near m0 m1 [] range1 results = results
not_near_words idx near m0 m1 (list0 ∷ range0) range1 results =
    not_near_words idx near m0 m1 range0 range1 (
      if is_too_frequent idx (length list0)
      then results
      else not_near_right near m0 m1 list0 range1 results)

-- The two `dynamic_cast`s of `near_node::eval`.
unfoldable pub near_eval : Index → ℕ → Node → Node → SearchResults → SearchResults
unfolding near_words
near_eval idx near (word_node w0 range0 m0) (word_node w1 range1 m1) results =
    if meta_differ m0 m1 then results else near_words idx near m0 m1 range0 range1 results
near_eval idx near _ _ results = results

-- The two of `not_near_node::eval`: without a word on the right it does what `word_node::eval` does.
unfoldable pub not_near_eval : Index → ℕ → Node → Node → SearchResults → SearchResults
unfolding not_near_words word_eval
not_near_eval idx near (word_node w0 range0 m0) (word_node w1 range1 m1) results =
    not_near_words idx near m0 m1 range0 range1 results
not_near_eval idx near (word_node w0 range0 m0) _ results = word_eval idx m0 range0 results
not_near_eval idx near _ _ results = results

unfoldable mutual
  unfolding word_eval or_merge not_files and_results near_eval not_near_eval

  -- The virtual functions `eval`.
  pub eval : Index → ℕ → Node → SearchResults → SearchResults
  eval idx near empty_node results = results
  eval idx near (and_node ns) results = elim (eval_children idx near ns) [
    | none ↦ results
    | some cs ↦ and_results cs results
  ]
  eval idx near (near_node l r) results = near_eval idx near l r results
  eval idx near (not_near_node l r) results = not_near_eval idx near l r results
  eval idx near (not_node n) results = not_files idx.num_files 0 (eval idx near n []) results
  eval idx near (or_node l r) results = or_merge (eval idx near l results) (eval idx near r [])
  eval idx near (word_node w range meta_id) results = word_eval idx meta_id range results

  -- The loop over the children of an "and": `none` for the return at a child that finds nothing.
  pub eval_children : Index → ℕ → Nodes → Option (List SearchResults)
  eval_children idx near nil = some []
  eval_children idx near (cons n ns) =
      let rest = eval_children idx near ns in
      elim (eval idx near n []) [
        | [] ↦ none
        | p ∷ ps ↦ (elim rest [ none ↦ none | some cs ↦ some ((p ∷ ps) ∷ cs) ])
      ]
