-- ===== src/Eval/Parts.antt =====
-- The loops of `eval` over words, as tests of a file.
use swishxx.Common.{
  ℕ, ◌≡◌, refl, sym, ◌∙◌, arith, Bool, true, false, not, ◌&&◌, ◌||◌, List, [], ◌∷◌, ◌==◌,
  if◌then◌else◌, length, All, or_false,
}
use swishxx.Posting.{File, has_meta_id}
use swishxx.Query.{Index, is_too_frequent}
use swishxx.Query.Node.{Node, word_node}
use swishxx.Eval.Results.{SearchResults, add}
use swishxx.Eval.Join.{AreFrom, lookup}
use swishxx.Eval.Semantics.{
  has, in_files, finds_word, both_near, near_some, near_any, finds_near, AreOrdered, has-add,
  has-near_files,
}
use swishxx.Eval.{word_files, word_eval, near_right, near_words, near_eval, meta_differ}

or_assoc : (a b c : Bool) → (a || (b || c)) ≡ ((a || b) || c)
or_assoc true b c = refl
or_assoc false b c = refl

-- A step that is taken only if a test holds.
has-if :
    (b c : Bool) (rs rs' : SearchResults) (i : ℕ)
    → has rs' i ≡ (has rs i || c)
    → has (if b then rs else rs') i ≡ (has rs i || (not b && c))
has-if true c rs rs' i h = sym (or_false (has rs i))
has-if false c rs rs' i h = h

has-word_files :
    (m : ℕ) (fs : List File) (rs : SearchResults) (i : ℕ)
    → has (word_files m fs rs) i ≡ (has rs i || in_files m fs i)
unfolding word_files
has-word_files m [] rs i = sym (or_false (has rs i))
has-word_files m (f ∷ fs) rs i =
    has-word_files m fs (if has_meta_id f m then add rs f.index f.rank else rs) i
    ∙ step (has_meta_id f m) refl
  where
    step :
        (b : Bool)
        → b ≡ b
        → (has (if b then add rs f.index f.rank else rs) i || in_files m fs i)
          ≡ (has rs i || ((b && f.index == i) || in_files m fs i))
    step true e = rw (has-add rs f.index f.rank i) (ground arith)
    step false e = refl

pub has-word_eval :
    (idx : Index) (m : ℕ) (range : List (List File)) (rs : SearchResults) (i : ℕ)
    → has (word_eval idx m range rs) i ≡ (has rs i || finds_word idx m range i)
unfolding word_eval
has-word_eval idx m [] rs i = sym (or_false (has rs i))
has-word_eval idx m (files ∷ range) rs i =
    rw
      (
        has-word_eval idx m range
            (if is_too_frequent idx (length files) then rs else word_files m files rs) i,
        has-if (is_too_frequent idx (length files)) (in_files m files i) rs (word_files m files rs)
            i (has-word_files m files rs i),
      )
      (sym (or_assoc (has rs i) _ (finds_word idx m range i)))

has-near_right :
    (idx : Index) (near m0 m1 : ℕ) (list0 : List File) (range1 : List (List File))
    (rs : SearchResults) (i : ℕ)
    → AreFrom 0 list0
    → All (AreFrom 0) range1
    → has (near_right idx near m0 m1 list0 range1 rs) i
      ≡ (has rs i || near_some idx near m0 m1 list0 range1 i)
unfolding near_right
has-near_right idx near m0 m1 list0 [] rs i h hs = sym (or_false (has rs i))
has-near_right idx near m0 m1 list0 (list1 ∷ range1) rs i h (h1, hs) =
    rw
      (
        has-near_right idx near m0 m1 list0 range1 _ i h hs,
        has-if (is_too_frequent idx (length list1))
            (both_near near m0 m1 (lookup list0 i) (lookup list1 i)) rs _ i
            (has-near_files near m0 m1 list0 list1 rs i h h1),
      )
      (sym (or_assoc (has rs i) _ (near_some idx near m0 m1 list0 range1 i)))

has-near_words :
    (idx : Index) (near m0 m1 : ℕ) (range0 range1 : List (List File)) (rs : SearchResults) (i : ℕ)
    → All (AreFrom 0) range0
    → All (AreFrom 0) range1
    → has (near_words idx near m0 m1 range0 range1 rs) i
      ≡ (has rs i || near_any idx near m0 m1 range0 range1 i)
unfolding near_words
has-near_words idx near m0 m1 [] range1 rs i h hs = sym (or_false (has rs i))
has-near_words idx near m0 m1 (list0 ∷ range0) range1 rs i (h, hs) h1 =
    rw
      (
        has-near_words idx near m0 m1 range0 range1 _ i hs h1,
        has-if (is_too_frequent idx (length list0)) (near_some idx near m0 m1 list0 range1 i) rs _ i
            (has-near_right idx near m0 m1 list0 range1 rs i h h1),
      )
      (sym (or_assoc (has rs i) _ (near_any idx near m0 m1 range0 range1 i)))

pub has-near_eval :
    (idx : Index) (near : ℕ) (l r : Node) (rs : SearchResults) (i : ℕ)
    → AreOrdered l
    → AreOrdered r
    → has (near_eval idx near l r rs) i ≡ (has rs i || finds_near idx near l r i)
unfolding near_eval
has-near_eval idx near (word_node w0 range0 m0) (word_node w1 range1 m1) rs i hl hr =
    has-if (meta_differ m0 m1) (near_any idx near m0 m1 range0 range1 i) rs _ i
      (has-near_words idx near m0 m1 range0 range1 rs i hl hr)
has-near_eval idx near _ _ rs i hl hr = sym (or_false (has rs i))
