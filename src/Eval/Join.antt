-- ===== src/Eval/Join.antt =====
-- The loop of `near_node::eval` over two lists of files compares the words in just the files that both have.
use swishxx.Common.{
  ℕ, zero, suc, ◌+◌, ◌≤◌, ◌<◌, ◌≡◌, refl, sym, arith, Bool, true, false, not, ◌&&◌, ◌||◌, List, [],
  ◌∷◌, Option, none, some, ltb, ◌==◌, if◌then◌else◌, Bool-cases, inl, inr, length,
}
use swishxx.Posting.{File, has_meta_id}
use swishxx.Eval.Results.{SearchResults, find, set}
use swishxx.Eval.Near.{is_near}
use swishxx.Eval.NearFiles.{near_files, mean_rank}
use swishxx.Eval.Laws.{find-set}

-- A list of files as the index has it: each file once, in order, and none before the bound.
abbrev pub AreFrom : ℕ → List File → Type 0
AreFrom lo [] = Unit
AreFrom lo (f ∷ fs) = (lo ≤ f.index) × AreFrom (suc f.index) fs

unfoldable pub lookup : List File → ℕ → Option File
lookup [] i = none
lookup (f ∷ fs) i = if f.index == i then some f else lookup fs i

lookup-nil : (i : ℕ) → lookup [] i ≡ none
unfolding lookup
lookup-nil i = refl

lookup-cons :
    (f : File) (fs : List File) (i : ℕ)
    → lookup (f ∷ fs) i ≡ (if f.index == i then some f else lookup fs i)
unfolding lookup
lookup-cons f fs i = refl

lookup-below : (fs : List File) (lo i : ℕ) → AreFrom lo fs → i < lo → lookup fs i ≡ none
unfolding lookup
lookup-below [] lo i h l = refl
lookup-below (f ∷ fs) lo i h l =
    let ih = lookup-below fs (suc f.index) i h.1 (omega arith) in ground arith

find-if :
    (b : Bool) (rs : SearchResults) (k v i : ℕ)
    → find (if b then set rs k v else rs) i
      ≡ (if k == i then (if b then some v else find rs i) else find rs i)
find-if true rs k v i = find-set rs k v i
find-if false rs k v i = ground arith

module _ (near m0 m1 : ℕ) where
  abbrev pub matches : File → File → Bool
  matches f0 f1 = has_meta_id f0 m0 && (has_meta_id f1 m1 && is_near near f0 f1)

  -- The rank of a file, by the entries of the two words for it.
  abbrev pub near_rank : Option File → Option File → Option ℕ → Option ℕ
  near_rank none o1 old = old
  near_rank (some f0) none old = old
  near_rank (some f0) (some f1) old = if matches f0 f1 then some (mean_rank f0 f1) else old

  near_rank-none : (o0 : Option File) (old : Option ℕ) → near_rank o0 none old ≡ old
  near_rank-none none old = refl
  near_rank-none (some f0) old = refl

  no_meta0 :
      (f0 : File) (o1 : Option File) (old : Option ℕ)
      → has_meta_id f0 m0 ≡ false
      → near_rank (some f0) o1 old ≡ old
  no_meta0 f0 none old h = refl
  no_meta0 f0 (some f1) old h = rw h refl

  no_meta1 :
      (f1 : File) (o0 : Option File) (old : Option ℕ)
      → has_meta_id f1 m1 ≡ false
      → near_rank o0 (some f1) old ≡ old
  no_meta1 f1 none old h = refl
  no_meta1 f1 (some f0) old h = elim (Bool-cases (has_meta_id f0 m0)) [
    | inl y ↦ rw (y, h) refl
    | inr n ↦ rw n refl
  ]

  -- A file that matches nothing can be left out.
  left_out0 :
      (f0 : File) (l0 : List File) (i : ℕ) (o1 : Option File) (old : Option ℕ)
      → AreFrom (suc f0.index) l0
      → ((f0.index == i) ≡ true → near_rank (some f0) o1 old ≡ old)
      → near_rank (lookup l0 i) o1 old ≡ near_rank (lookup (f0 ∷ l0) i) o1 old
  left_out0 f0 l0 i o1 old h k = rw (lookup-cons f0 l0 i) (elim (Bool-cases (f0.index == i)) [
    | inl y ↦ rw (y, lookup-below l0 (suc f0.index) i h (ground arith)) (sym (k y))
    | inr n ↦ rw n refl
  ])

  left_out1 :
      (f1 : File) (l1 : List File) (i : ℕ) (o0 : Option File) (old : Option ℕ)
      → AreFrom (suc f1.index) l1
      → ((f1.index == i) ≡ true → near_rank o0 (some f1) old ≡ old)
      → near_rank o0 (lookup l1 i) old ≡ near_rank o0 (lookup (f1 ∷ l1) i) old
  left_out1 f1 l1 i o0 old h k = rw (lookup-cons f1 l1 i) (elim (Bool-cases (f1.index == i)) [
    | inl y ↦
        rw (y, lookup-below l1 (suc f1.index) i h (ground arith), near_rank-none o0 old) (sym (k y))
    | inr n ↦ rw n refl
  ])

  -- Why a file is skipped: it comes before the other word's, or it is without the meta ID.
  skip0 :
      (f0 f1 : File) (l1 : List File) (i : ℕ) (old : Option ℕ)
      → AreFrom (suc f1.index) l1
      → (ltb f0.index f1.index || not (has_meta_id f0 m0)) ≡ true
      → (f0.index == i) ≡ true
      → near_rank (some f0) (lookup (f1 ∷ l1) i) old ≡ old
  skip0 f0 f1 l1 i old h t e = elim (Bool-cases (has_meta_id f0 m0)) [
    | inl y ↦ rw (lookup-below (f1 ∷ l1) f1.index i (omega arith, h) (ground arith)) refl
    | inr n ↦ no_meta0 f0 (lookup (f1 ∷ l1) i) old n
  ]

  skip1 :
      (f0 f1 : File) (l0 : List File) (i : ℕ) (old : Option ℕ)
      → AreFrom (suc f0.index) l0
      → (ltb f1.index f0.index || not (has_meta_id f1 m1)) ≡ true
      → (f1.index == i) ≡ true
      → near_rank (lookup (f0 ∷ l0) i) (some f1) old ≡ old
  skip1 f0 f1 l0 i old h t e = elim (Bool-cases (has_meta_id f1 m1)) [
    | inl y ↦ rw (lookup-below (f0 ∷ l0) f0.index i (omega arith, h) (ground arith)) refl
    | inr n ↦ no_meta1 f1 (lookup (f0 ∷ l0) i) old n
  ]

  -- The round in which the two words are in the same file.
  same_file :
      (f0 f1 : File) (l0 l1 : List File) (rs : SearchResults) (i : ℕ)
      → AreFrom (suc f0.index) l0
      → AreFrom (suc f1.index) l1
      → (ltb f0.index f1.index || not (has_meta_id f0 m0)) ≡ false
      → (ltb f1.index f0.index || not (has_meta_id f1 m1)) ≡ false
      → near_rank
          (lookup l0 i)
          (lookup l1 i)
          (find (if is_near near f0 f1 then set rs f0.index (mean_rank f0 f1) else rs) i)
        ≡ near_rank (lookup (f0 ∷ l0) i) (lookup (f1 ∷ l1) i) (find rs i)
  same_file f0 f1 l0 l1 rs i h0 h1 t0 t1 =
      let g0 : has_meta_id f0 m0 ≡ true = ground arith in
      let g1 : has_meta_id f1 m1 ≡ true = ground arith in
      let e : (f1.index == i) ≡ (f0.index == i) = ground arith in
      rw
        (
          find-if (is_near near f0 f1) rs f0.index (mean_rank f0 f1) i,
          lookup-cons f0 l0 i,
          lookup-cons f1 l1 i,
          e,
        )
        (elim (Bool-cases (f0.index == i)) [
          | inl y ↦ rw (y, lookup-below l0 (suc f0.index) i h0 (ground arith), g0, g1) refl
          | inr n ↦ rw n refl
        ])

  -- On two lists in the order of their files, with a round for each file and one more, the loop gives a
  -- file the mean of its ranks if both words have it, with their meta IDs, and are near each other there,
  -- and leaves its result as it was if not.
  pub near_files-find :
      (fuel lo0 lo1 : ℕ) (l0 l1 : List File) (rs : SearchResults) (i : ℕ)
      → length l0 + length l1 < fuel
      → AreFrom lo0 l0
      → AreFrom lo1 l1
      → find (near_files near m0 m1 fuel l0 l1 rs) i
        ≡ near_rank (lookup l0 i) (lookup l1 i) (find rs i)
  unfolding near_files
  near_files-find zero lo0 lo1 l0 l1 rs i l h0 h1 = absurd (omega arith)
  near_files-find (suc fuel) lo0 lo1 [] l1 rs i l h0 h1 = rw (lookup-nil i) refl
  near_files-find (suc fuel) lo0 lo1 (f0 ∷ l0) [] rs i l h0 h1 =
      rw (lookup-nil i, near_rank-none (lookup (f0 ∷ l0) i) (find rs i)) refl
  near_files-find (suc fuel) lo0 lo1 (f0 ∷ l0) (f1 ∷ l1) rs i l (b0, h0) (b1, h1) =
      elim (Bool-cases (ltb f0.index f1.index || not (has_meta_id f0 m0))) [
        | inl y ↦
            rw (y, near_files)
              (rw
                (near_files-find fuel (suc f0.index) lo1 l0 (f1 ∷ l1) rs i (omega arith) h0
                  (b1, h1))
                (left_out0 f0 l0 i (lookup (f1 ∷ l1) i) (find rs i) h0
                  (skip0 f0 f1 l1 i (find rs i) h1 y)))
        | inr n ↦ elim (Bool-cases (ltb f1.index f0.index || not (has_meta_id f1 m1))) [
          | inl y ↦
              rw (n, y, near_files)
                (rw
                  (near_files-find fuel lo0 (suc f1.index) (f0 ∷ l0) l1 rs i (omega arith) (b0, h0)
                    h1)
                  (left_out1 f1 l1 i (lookup (f0 ∷ l0) i) (find rs i) h1
                    (skip1 f0 f1 l0 i (find rs i) h0 y)))
          | inr m ↦
              rw (n, m, near_files)
                (rw
                  (near_files-find fuel (suc f0.index) (suc f1.index) l0 l1
                    (if is_near near f0 f1 then set rs f0.index (mean_rank f0 f1) else rs) i
                    (omega arith) h0 h1)
                  (same_file f0 f1 l0 l1 rs i h0 h1 n m))
        ]
      ]
