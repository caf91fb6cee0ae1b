-- ===== src/Eval/Refines.antt =====
-- `eval` finds the files that a query is meant to find.
use swishxx.Common.{
  ℕ, suc, ◌+◌, ◌≡◌, refl, sym, ◌∙◌, arith, Bool, true, false, not, ◌&&◌, ◌||◌, List, [], ◌∷◌,
  Option, none, some, ltb, leb, length, All, Option-cases, inl, inr, and_false,
}
use swishxx.Query.{Index}
use swishxx.Query.Node.{
  Node, Nodes, empty_node, and_node, near_node, not_near_node, not_node, or_node, word_node, nil,
  cons,
}
use swishxx.Eval.Results.{SearchResults, find, rank_int}
use swishxx.Eval.Laws.{IsMap, or_rank, not_rank, find-nil}
use swishxx.Eval.Ordered.{AreMaps, children_ordered}
use swishxx.Eval.And.{and_results-sum_at, div_option, sum_at}
use swishxx.Eval.Boolean.{eval-or_node, eval-not_node}
use swishxx.Eval.Parts.{has-word_eval, has-near_eval}
use swishxx.Eval.Semantics.{is_some, has, finds, finds_all, IsPlain, ArePlain}
use swishxx.Eval.{and_sum, and_results, last_of, but_last, eval, eval_children}

-- All the results have the file.
abbrev all_have : List SearchResults → ℕ → Bool
all_have [] i = true
all_have (c ∷ cs) i = has c i && all_have cs i

-- All the children find the file; `none` is for a child that finds nothing.
abbrev children_have : Option (List SearchResults) → ℕ → Bool
children_have none i = false
children_have (some cs) i = all_have cs i

has-nil : (i : ℕ) → has [] i ≡ false
unfolding has
has-nil i = rw (find-nil i) refl

is_some-div_option : (n : ℕ) (o : Option ℕ) → is_some (div_option n o) ≡ is_some o
is_some-div_option n none = refl
is_some-div_option n (some v) = refl

is_some-and_sum : (k v : ℕ) (cs : List SearchResults) → is_some (and_sum k v cs) ≡ all_have cs k
unfolding and_sum has
is_some-and_sum k v [] = refl
is_some-and_sum k v (c ∷ cs) = elim (Option-cases (find c k)) [
  | inl e ↦ rw (e, and_sum) refl
  | inr (w, e) ↦ rw (e, and_sum) (is_some-and_sum k (rank_int (v + w)) cs)
]

is_some-sum_at :
    (k : ℕ) (o : Option ℕ) (cs : List SearchResults)
    → is_some (sum_at k o cs) ≡ (is_some o && all_have cs k)
is_some-sum_at k none cs = refl
is_some-sum_at k (some v) cs = is_some-and_sum k v cs

all_have-last_of :
    (c : SearchResults) (cs : List SearchResults) (i : ℕ)
    → (has (last_of c cs) i && all_have (but_last c cs) i) ≡ all_have (c ∷ cs) i
all_have-last_of c [] i = refl
all_have-last_of c (d ∷ ds) i = turn (has (last_of d ds) i) (has c i) _ _ (all_have-last_of d ds i)
  where
    turn : (l b r t : Bool) → (l && r) ≡ t → (l && (b && r)) ≡ (b && t)
    turn true true r t e = e
    turn true false r t e = refl
    turn false true r t e = e
    turn false false r t e = refl

has-and_results :
    (c : SearchResults) (cs : List SearchResults) (i : ℕ)
    → All IsMap (c ∷ cs)
    → has (and_results (c ∷ cs) []) i ≡ all_have (c ∷ cs) i
unfolding has
has-and_results c cs i h =
    rw
      (
        and_results-sum_at c cs [] i h,
        is_some-div_option (suc (suc (length cs))) _,
        is_some-sum_at i _ (but_last c cs),
      )
      (all_have-last_of c cs i)

is_some-or_rank : (l r : Option ℕ) → is_some (or_rank l r) ≡ (is_some l || is_some r)
is_some-or_rank none none = refl
is_some-or_rank (some v) none = refl
is_some-or_rank none (some w) = refl
is_some-or_rank (some v) (some w) = refl

is_some-not_rank : (b : Bool) (o : Option ℕ) → is_some (not_rank b o none) ≡ (b && not (is_some o))
is_some-not_rank true none = refl
is_some-not_rank false none = refl
is_some-not_rank true (some v) = refl
is_some-not_rank false (some v) = refl

-- One more child of an "and".
abbrev one_more : SearchResults → Option (List SearchResults) → Option (List SearchResults)
one_more c rest = elim c [
  | [] ↦ none
  | p ∷ ps ↦ (elim rest [ none ↦ none | some cs ↦ some ((p ∷ ps) ∷ cs) ])
]

children_have-one_more :
    (c : SearchResults) (rest : Option (List SearchResults)) (i : ℕ)
    → children_have (one_more c rest) i ≡ (has c i && children_have rest i)
children_have-one_more [] rest i = rw (has-nil i) refl
children_have-one_more (p ∷ ps) none i = sym (and_false (has (p ∷ ps) i))
children_have-one_more (p ∷ ps) (some cs) i = refl

abbrev outcome : Option (List SearchResults) → SearchResults
outcome o = elim o [ none ↦ [] | some cs ↦ and_results cs [] ]

has-one_more :
    (c : SearchResults) (rest : Option (List SearchResults)) (i : ℕ)
    → AreMaps (one_more c rest)
    → has (outcome (one_more c rest)) i ≡ children_have (one_more c rest) i
has-one_more [] rest i h = has-nil i
has-one_more (p ∷ ps) none i h = has-nil i
has-one_more (p ∷ ps) (some cs) i h = has-and_results (p ∷ ps) cs i h

and_nil : (i : ℕ) → has (and_results [] []) i ≡ false
unfolding and_results
and_nil i = has-nil i

has-not_node :
    (idx : Index) (near : ℕ) (n : Node) (i : ℕ)
    → has (eval idx near (not_node n) []) i
      ≡ (ltb i idx.num_files && not (has (eval idx near n []) i))
unfolding has
has-not_node idx near n i =
    let same : (leb 0 i && ltb i (0 + idx.num_files)) ≡ ltb i idx.num_files = ground arith in
    rw (eval-not_node idx near n [] i, find-nil i, same)
      (is_some-not_rank _ (find (eval idx near n []) i))

has-or_node :
    (idx : Index) (near : ℕ) (l r : Node) (i : ℕ)
    → has (eval idx near (or_node l r) []) i
      ≡ (has (eval idx near l []) i || has (eval idx near r []) i)
unfolding has
has-or_node idx near l r i =
    rw (eval-or_node idx near l r [] i, is_some-or_rank _ (find (eval idx near r []) i)) refl

mutual
  unfolding eval eval_children finds finds_all IsPlain ArePlain

  found :
      (idx : Index) (near : ℕ) (n : Node) (i : ℕ)
      → IsPlain n
      → has (eval idx near n []) i ≡ finds idx near n i
  found idx near empty_node i h = has-nil i
  found idx near (and_node nil) i h = and_nil i
  found idx near (and_node (cons n ns)) i h =
      has-one_more (eval idx near n []) (eval_children idx near ns) i
        (children_ordered idx near (cons n ns))
      ∙ all_found idx near (cons n ns) i h
  found idx near (near_node l r) i h = has-near_eval idx near l r [] i h.0 h.1 ∙ rw (has-nil i) refl
  found idx near (not_near_node l r) i h = elim h [ ]
  found idx near (not_node n) i h = has-not_node idx near n i ∙ rw (found idx near n i h) refl
  found idx near (or_node l r) i h =
      has-or_node idx near l r i ∙ rw (found idx near l i h.0, found idx near r i h.1) refl
  found idx near (word_node w range m) i h = has-word_eval idx m range [] i ∙ rw (has-nil i) refl

  all_found :
      (idx : Index) (near : ℕ) (ns : Nodes) (i : ℕ)
      → ArePlain ns
      → children_have (eval_children idx near ns) i ≡ finds_all idx near ns i
  all_found idx near nil i h = refl
  all_found idx near (cons n ns) i h =
      children_have-one_more (eval idx near n []) (eval_children idx near ns) i
      ∙ rw (found idx near n i h.0, all_found idx near ns i h.1) refl

-- A query without "not near", whose words below a "near" have their files in the order of the index,
-- finds just the files that it is meant to find: `finds` reads it as a test of one file.
pub eval-finds :
    (idx : Index) (near : ℕ) (n : Node) (i : ℕ)
    → IsPlain n
    → has (eval idx near n []) i ≡ finds idx near n i
eval-finds idx near n i h = found idx near n i h
