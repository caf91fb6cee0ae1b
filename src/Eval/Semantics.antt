-- ===== src/Eval/Semantics.antt =====
-- Which files a query is meant to find, and the parts of `eval` seen as tests of a file.
use swishxx.Common.{
  ℕ, suc, ◌+◌, ◌≡◌, refl, arith, Bool, true, false, not, ◌&&◌, ◌||◌, List, [], ◌∷◌, Option, none,
  some, ltb, ◌==◌, if◌then◌else◌, Bool-cases, inl, inr, length, All,
}
use swishxx.Posting.{File, has_meta_id}
use swishxx.Query.{Index, is_too_frequent}
use swishxx.Query.Node.{
  Node, Nodes, empty_node, and_node, near_node, not_near_node, not_node, or_node, word_node, nil,
  cons,
}
use swishxx.Eval.Results.{SearchResults, find, set, add}
use swishxx.Eval.NearFiles.{near_files}
use swishxx.Eval.Join.{AreFrom, lookup, matches, near_rank, near_files-find}
use swishxx.Eval.Laws.{find-set, find-add}
use swishxx.Eval.{meta_differ}

abbrev pub is_some : Option ℕ → Bool
is_some none = false
is_some (some v) = true

-- A file among the results.
unfoldable pub has : SearchResults → ℕ → Bool
has rs i = is_some (find rs i)

-- The file is in the list of a word, with its meta ID.
abbrev pub in_files : ℕ → List File → ℕ → Bool
in_files m [] i = false
in_files m (f ∷ fs) i = (has_meta_id f m && f.index == i) || in_files m fs i

abbrev pub finds_word : Index → ℕ → List (List File) → ℕ → Bool
finds_word idx m [] i = false
finds_word idx m (files ∷ range) i =
    (not (is_too_frequent idx (length files)) && in_files m files i) || finds_word idx m range i

-- Both words have the file, and are near each other there.
abbrev pub both_near : ℕ → ℕ → ℕ → Option File → Option File → Bool
both_near near m0 m1 none o1 = false
both_near near m0 m1 (some f0) none = false
both_near near m0 m1 (some f0) (some f1) = matches near m0 m1 f0 f1

abbrev pub near_some : Index → ℕ → ℕ → ℕ → List File → List (List File) → ℕ → Bool
near_some idx near m0 m1 list0 [] i = false
near_some idx near m0 m1 list0 (list1 ∷ range1) i =
    (not (is_too_frequent idx (length list1))
      && both_near near m0 m1 (lookup list0 i) (lookup list1 i))
    || near_some idx near m0 m1 list0 range1 i

abbrev pub near_any : Index → ℕ → ℕ → ℕ → List (List File) → List (List File) → ℕ → Bool
near_any idx near m0 m1 [] range1 i = false
near_any idx near m0 m1 (list0 ∷ range0) range1 i =
    (not (is_too_frequent idx (length list0)) && near_some idx near m0 m1 list0 range1 i)
    || near_any idx near m0 m1 range0 range1 i

abbrev pub finds_near : Index → ℕ → Node → Node → ℕ → Bool
finds_near idx near (word_node w0 range0 m0) (word_node w1 range1 m1) i =
    not (meta_differ m0 m1) && near_any idx near m0 m1 range0 range1 i
finds_near idx near _ _ i = false

abbrev pub is_cons : Nodes → Bool
is_cons nil = false
is_cons (cons n ns) = true

unfoldable mutual
  -- The files that a query is meant to find: for "and" those of all children, for "not" those of the index
  -- that the child does not find.
  pub finds : Index → ℕ → Node → ℕ → Bool
  finds idx near empty_node i = false
  finds idx near (and_node ns) i = is_cons ns && finds_all idx near ns i
  finds idx near (near_node l r) i = finds_near idx near l r i
  finds idx near (not_near_node l r) i = false
  finds idx near (not_node n) i = ltb i idx.num_files && not (finds idx near n i)
  finds idx near (or_node l r) i = finds idx near l i || finds idx near r i
  finds idx near (word_node w range m) i = finds_word idx m range i

  pub finds_all : Index → ℕ → Nodes → ℕ → Bool
  finds_all idx near nil i = true
  finds_all idx near (cons n ns) i = finds idx near n i && finds_all idx near ns i

-- The lists of files below a "near" are in the order of the index, and there is no "not near".
abbrev pub AreOrdered : Node → Type 0
AreOrdered (word_node w range m) = All (AreFrom 0) range
AreOrdered _ = Unit

unfoldable mutual
  pub IsPlain : Node → Type 0
  IsPlain empty_node = Unit
  IsPlain (and_node ns) = ArePlain ns
  IsPlain (near_node l r) = AreOrdered l × AreOrdered r
  IsPlain (not_near_node l r) = ⊥
  IsPlain (not_node n) = IsPlain n
  IsPlain (or_node l r) = IsPlain l × IsPlain r
  IsPlain (word_node w range m) = Unit

  pub ArePlain : Nodes → Type 0
  ArePlain nil = Unit
  ArePlain (cons n ns) = IsPlain n × ArePlain ns

pub has-set : (rs : SearchResults) (k v i : ℕ) → has (set rs k v) i ≡ (k == i || has rs i)
unfolding has
has-set rs k v i =
    rw (find-set rs k v i) (elim (Bool-cases (k == i)) [ inl y ↦ rw y refl | inr n ↦ rw n refl ])

pub has-add : (rs : SearchResults) (k v i : ℕ) → has (add rs k v) i ≡ (k == i || has rs i)
unfolding has
has-add rs k v i =
    rw (find-add rs k v i) (elim (Bool-cases (k == i)) [ inl y ↦ rw y refl | inr n ↦ rw n refl ])

is_some_if :
    (b : Bool) (v : ℕ) (old : Option ℕ) → is_some (if b then some v else old) ≡ (is_some old || b)
is_some_if true v none = refl
is_some_if true v (some w) = refl
is_some_if false v none = refl
is_some_if false v (some w) = refl

pub has-near_files :
    (near m0 m1 : ℕ) (l0 l1 : List File) (rs : SearchResults) (i : ℕ)
    → AreFrom 0 l0
    → AreFrom 0 l1
    → has (near_files near m0 m1 (suc (length l0 + length l1)) l0 l1 rs) i
      ≡ (has rs i || both_near near m0 m1 (lookup l0 i) (lookup l1 i))
unfolding has
has-near_files near m0 m1 l0 l1 rs i h0 h1 =
    rw (near_files-find near m0 m1 (suc (length l0 + length l1)) 0 0 l0 l1 rs i (omega arith) h0 h1)
      (go (lookup l0 i) (lookup l1 i) (find rs i))
  where
    go :
        (o0 o1 : Option File) (old : Option ℕ)
        → is_some (near_rank near m0 m1 o0 o1 old) ≡ (is_some old || both_near near m0 m1 o0 o1)
    go none o1 old = ground arith
    go (some f0) none old = ground arith
    go (some f0) (some f1) old = is_some_if (matches near m0 m1 f0 f1) _ old
