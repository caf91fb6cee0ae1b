-- ===== src/Eval/Ordered.antt =====
-- Whatever a query is, its results are a map: the files in order, each of them once.
use swishxx.Common.{
  ℕ, zero, suc, ◌+◌, arith, Bool, true, false, not, ◌||◌, List, [], ◌∷◌, Option, none, some, ltb,
  if◌then◌else◌, Bool-cases, inl, inr, length, All,
}
use swishxx.Posting.{File, has_meta_id}
use swishxx.Query.{Index, is_too_frequent}
use swishxx.Query.Node.{
  Node, Nodes, empty_node, and_node, near_node, not_near_node, not_node, or_node, word_node, nil,
  cons,
}
use swishxx.Eval.Results.{SearchResults, find, set, add}
use swishxx.Eval.Near.{is_near}
use swishxx.Eval.NearFiles.{near_files, not_near_files, mean_rank}
use swishxx.Eval.Laws.{IsMap, set-IsMapFrom, add-IsMap}
use swishxx.Eval.And.{and_results-IsMap}
use swishxx.Eval.{
  word_files, word_eval, or_merge, not_files, and_results, near_right, near_words, not_near_right,
  not_near_words, near_eval, not_near_eval, meta_differ, eval, eval_children,
}

if_IsMap : (b : Bool) (r s : SearchResults) → IsMap r → IsMap s → IsMap (if b then r else s)
if_IsMap true r s hr hs = hr
if_IsMap false r s hr hs = hs

set-IsMap : (rs : SearchResults) (k v : ℕ) → IsMap rs → IsMap (set rs k v)
set-IsMap rs k v h = set-IsMapFrom rs 0 k v (omega arith) h

word_files-IsMap :
    (m : ℕ) (fs : List File) (rs : SearchResults) → IsMap rs → IsMap (word_files m fs rs)
unfolding word_files
word_files-IsMap m [] rs h = h
word_files-IsMap m (f ∷ fs) rs h =
    word_files-IsMap m fs _ (if_IsMap (has_meta_id f m) _ rs (add-IsMap rs f.index f.rank h) h)

word_eval-IsMap :
    (idx : Index) (m : ℕ) (range : List (List File)) (rs : SearchResults)
    → IsMap rs
    → IsMap (word_eval idx m range rs)
unfolding word_eval
word_eval-IsMap idx m [] rs h = h
word_eval-IsMap idx m (files ∷ range) rs h =
    word_eval-IsMap idx m range _
      (if_IsMap (is_too_frequent idx (length files)) rs _ h (word_files-IsMap m files rs h))

or_merge-IsMap : (l r : SearchResults) → IsMap l → IsMap (or_merge l r)
unfolding or_merge
or_merge-IsMap l [] h = h
or_merge-IsMap l (p ∷ r) h = or_merge-IsMap (add l p.0 p.1) r (add-IsMap l p.0 p.1 h)

turn-IsMap :
    (i : ℕ) (o : Option ℕ) (rs : SearchResults)
    → IsMap rs
    → IsMap (elim o [ none ↦ set rs i 100 | some v ↦ rs ])
turn-IsMap i none rs h = set-IsMap rs i 100 h
turn-IsMap i (some v) rs h = h

not_files-IsMap : (n i : ℕ) (child rs : SearchResults) → IsMap rs → IsMap (not_files n i child rs)
unfolding not_files
not_files-IsMap zero i child rs h = h
not_files-IsMap (suc n) i child rs h =
    not_files-IsMap n (suc i) child _ (turn-IsMap i (find child i) rs h)

near_files-IsMap :
    (near m0 m1 fuel : ℕ) (l0 l1 : List File) (rs : SearchResults)
    → IsMap rs
    → IsMap (near_files near m0 m1 fuel l0 l1 rs)
unfolding near_files
near_files-IsMap near m0 m1 zero l0 l1 rs h = h
near_files-IsMap near m0 m1 (suc fuel) [] l1 rs h = h
near_files-IsMap near m0 m1 (suc fuel) (f0 ∷ l0) [] rs h = h
near_files-IsMap near m0 m1 (suc fuel) (f0 ∷ l0) (f1 ∷ l1) rs h =
    elim (Bool-cases (ltb f0.index f1.index || not (has_meta_id f0 m0))) [
      | inl y ↦ rw (y, near_files) (near_files-IsMap near m0 m1 fuel l0 (f1 ∷ l1) rs h)
      | inr n ↦ elim (Bool-cases (ltb f1.index f0.index || not (has_meta_id f1 m1))) [
        | inl y ↦ rw (n, y, near_files) (near_files-IsMap near m0 m1 fuel (f0 ∷ l0) l1 rs h)
        | inr m ↦
            rw (n, m, near_files)
              (near_files-IsMap near m0 m1 fuel l0 l1 _
                (if_IsMap (is_near near f0 f1) _ rs (set-IsMap rs f0.index (mean_rank f0 f1) h) h))
      ]
    ]

not_near_files-IsMap :
    (near m0 m1 : ℕ) (l0 l1 : List File) (rs : SearchResults)
    → IsMap rs
    → IsMap (not_near_files near m0 m1 l0 l1 rs)
unfolding not_near_files
not_near_files-IsMap near m0 m1 [] l1 rs h = h
not_near_files-IsMap near m0 m1 (f0 ∷ l0) l1 rs h =
    not_near_files-IsMap near m0 m1 l0 _ _ (if_IsMap _ _ rs (add-IsMap rs f0.index f0.rank h) h)

near_right-IsMap :
    (idx : Index) (near m0 m1 : ℕ) (l0 : List File) (range1 : List (List File)) (rs : SearchResults)
    → IsMap rs
    → IsMap (near_right idx near m0 m1 l0 range1 rs)
unfolding near_right
near_right-IsMap idx near m0 m1 l0 [] rs h = h
near_right-IsMap idx near m0 m1 l0 (l1 ∷ range1) rs h =
    near_right-IsMap idx near m0 m1 l0 range1 _ (
      if_IsMap (is_too_frequent idx (length l1)) rs _ h
        (near_files-IsMap near m0 m1 (suc (length l0 + length l1)) l0 l1 rs h))

near_words-IsMap :
    (idx : Index) (near m0 m1 : ℕ) (range0 range1 : List (List File)) (rs : SearchResults)
    → IsMap rs
    → IsMap (near_words idx near m0 m1 range0 range1 rs)
unfolding near_words
near_words-IsMap idx near m0 m1 [] range1 rs h = h
near_words-IsMap idx near m0 m1 (l0 ∷ range0) range1 rs h =
    near_words-IsMap idx near m0 m1 range0 range1 _ (
      if_IsMap (is_too_frequent idx (length l0)) rs _ h
        (near_right-IsMap idx near m0 m1 l0 range1 rs h))

not_near_right-IsMap :
    (near m0 m1 : ℕ) (l0 : List File) (range1 : List (List File)) (rs : SearchResults)
    → IsMap rs
    → IsMap (not_near_right near m0 m1 l0 range1 rs)
unfolding not_near_right
not_near_right-IsMap near m0 m1 l0 [] rs h = h
not_near_right-IsMap near m0 m1 l0 (l1 ∷ range1) rs h =
    not_near_right-IsMap near m0 m1 l0 range1 _ (not_near_files-IsMap near m0 m1 l0 l1 rs h)

not_near_words-IsMap :
    (idx : Index) (near m0 m1 : ℕ) (range0 range1 : List (List File)) (rs : SearchResults)
    → IsMap rs
    → IsMap (not_near_words idx near m0 m1 range0 range1 rs)
unfolding not_near_words
not_near_words-IsMap idx near m0 m1 [] range1 rs h = h
not_near_words-IsMap idx near m0 m1 (l0 ∷ range0) range1 rs h =
    not_near_words-IsMap idx near m0 m1 range0 range1 _ (
      if_IsMap (is_too_frequent idx (length l0)) rs _ h
        (not_near_right-IsMap near m0 m1 l0 range1 rs h))

near_eval-IsMap :
    (idx : Index) (near : ℕ) (l r : Node) (rs : SearchResults)
    → IsMap rs
    → IsMap (near_eval idx near l r rs)
unfolding near_eval
near_eval-IsMap idx near (word_node w0 range0 m0) (word_node w1 range1 m1) rs h =
    if_IsMap (meta_differ m0 m1) rs _ h (near_words-IsMap idx near m0 m1 range0 range1 rs h)
near_eval-IsMap idx near _ _ rs h = h

not_near_eval-IsMap :
    (idx : Index) (near : ℕ) (l r : Node) (rs : SearchResults)
    → IsMap rs
    → IsMap (not_near_eval idx near l r rs)
unfolding not_near_eval
not_near_eval-IsMap idx near (word_node w0 range0 m0) (word_node w1 range1 m1) rs h =
    not_near_words-IsMap idx near m0 m1 range0 range1 rs h
not_near_eval-IsMap idx near (word_node w0 range0 m0) _ rs h = word_eval-IsMap idx m0 range0 rs h
not_near_eval-IsMap idx near _ _ rs h = h

-- What the children of an "and" find, if none finds nothing.
abbrev pub AreMaps : Option (List SearchResults) → Type 0
AreMaps none = Unit
AreMaps (some cs) = All IsMap cs

and_branch :
    (o : Option (List SearchResults)) (rs : SearchResults)
    → AreMaps o
    → IsMap rs
    → IsMap (elim o [ none ↦ rs | some cs ↦ and_results cs rs ])
and_branch none rs hs h = h
and_branch (some cs) rs hs h = and_results-IsMap cs rs hs h

-- One more child.
child_branch :
    (c : SearchResults) (rest : Option (List SearchResults))
    → IsMap c
    → AreMaps rest
    → AreMaps (elim c [
      | [] ↦ none
      | p ∷ ps ↦ (elim rest [ none ↦ none | some cs ↦ some ((p ∷ ps) ∷ cs) ])
    ])
child_branch [] rest h hs = tt
child_branch (p ∷ ps) none h hs = tt
child_branch (p ∷ ps) (some cs) h hs = (h, hs)

mutual
  unfolding eval eval_children

  ordered :
      (idx : Index) (near : ℕ) (n : Node) (rs : SearchResults)
      → IsMap rs
      → IsMap (eval idx near n rs)
  ordered idx near empty_node rs h = h
  ordered idx near (and_node ns) rs h =
      and_branch (eval_children idx near ns) rs (children_ordered idx near ns) h
  ordered idx near (near_node l r) rs h = near_eval-IsMap idx near l r rs h
  ordered idx near (not_near_node l r) rs h = not_near_eval-IsMap idx near l r rs h
  ordered idx near (not_node n) rs h = not_files-IsMap idx.num_files 0 (eval idx near n []) rs h
  ordered idx near (or_node l r) rs h =
      or_merge-IsMap (eval idx near l rs) (eval idx near r []) (ordered idx near l rs h)
  ordered idx near (word_node w range m) rs h = word_eval-IsMap idx m range rs h

  pub children_ordered : (idx : Index) (near : ℕ) (ns : Nodes) → AreMaps (eval_children idx near ns)
  children_ordered idx near nil = tt
  children_ordered idx near (cons n ns) =
      child_branch (eval idx near n []) (eval_children idx near ns) (ordered idx near n [] tt)
        (children_ordered idx near ns)

-- Evaluating a node in a map of results gives a map: every file at most once, in order.
pub eval-IsMap :
    (idx : Index) (near : ℕ) (n : Node) (rs : SearchResults) → IsMap rs → IsMap (eval idx near n rs)
eval-IsMap idx near n rs h = ordered idx near n rs h
