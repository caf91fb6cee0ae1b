-- ===== src/Merge.antt =====
-- `merge_indicies` of src/index.cpp: the merge of the words of partial indices, with the files of each word. What is
-- written for a word is its files, in order; their ranks are computed anew and are left out.
pub mod Least
pub mod Found
pub mod Total
pub mod Strings
use swishxx.Common.{
  ℕ, zero, suc, ◌+◌, ◌≡◌, ◌↔◌, Bool, true, false, List, [], ◌∷◌, ◌++◌, Option, none, some, ltb,
  if◌then◌else◌,
}

-- `strcmp` on words: less than 0, and 0.
pub record Words : Type 1 where
  pub Word : Type 0
  pub less : Word → Word → Bool
  pub same : Word → Word → Bool
  pub same_iff : (a b : Word) → (same a b ≡ true) ↔ (a ≡ b)
  pub less_irrefl : (a : Word) → less a a ≡ false
  pub less_trans : (a b c : Word) → less a b ≡ true → less b c ≡ true → less a c ≡ true
  pub less_total : (a b : Word) → less a b ≡ false → less b a ≡ false → a ≡ b

module _ (W : Words) (File : Type 0) where
  -- What is left of a partial index, from `word[j]` on: each word with its files.
  abbrev pub Index : Type 0
  Index = List (W.Word × List File)

  module _ (is_stop : W.Word → Bool) where
    unfoldable pub skip_stops : Index → Index
    skip_stops [] = []
    skip_stops (e ∷ es) = let rest = skip_stops es in if is_stop e.0 then rest else e ∷ es

    -- The loop for two indices that are not exhausted, which ends at the second; the flag is whether one was found.
    unfoldable pub settle : Bool → List Index → List Index
    unfolding skip_stops
    settle one [] = []
    settle one (x ∷ xs) =
        let with_one = settle true xs in
        let as_before = settle one xs in
        elim (skip_stops x) [
          | [] ↦ [] ∷ as_before
          | e ∷ es ↦ (e ∷ es) ∷ (if one then xs else with_one)
        ]

    -- What is copied from the index that is left.
    unfoldable pub kept_words : Index → Index
    kept_words [] = []
    kept_words (e ∷ es) = let rest = kept_words es in if is_stop e.0 then rest else e ∷ rest

    unfoldable pub remaining : List Index → Index
    unfolding kept_words
    remaining [] = []
    remaining (x ∷ xs) = kept_words x ++ remaining xs

  -- The indices that are not exhausted.
  abbrev pub live : List Index → ℕ
  live [] = 0
  live ([] ∷ xs) = live xs
  live ((e ∷ es) ∷ xs) = suc (live xs)

  -- The loop for the least word: `i` is the index of the least word so far, and `w` that word.
  unfoldable pub scan : ℕ → ℕ → W.Word → List Index → ℕ × W.Word
  scan j i w [] = (i, w)
  scan j i w ([] ∷ xs) = scan (suc j) i w xs
  scan j i w ((e ∷ es) ∷ xs) =
      let here = scan (suc j) j e.0 xs in
      let as_before = scan (suc j) i w xs in if W.less e.0 w then here else as_before

  unfoldable pub least : ℕ → List Index → Option (ℕ × W.Word)
  unfolding scan
  least j [] = none
  least j ([] ∷ xs) = least (suc j) xs
  least j ((e ∷ es) ∷ xs) = some (scan (suc j) j e.0 xs)

  -- The files of the word, in the indices from the first one on.
  abbrev pub head_files : W.Word → Index → List File
  head_files v [] = []
  head_files v (e ∷ es) = if W.same e.0 v then e.1 else []

  abbrev pub gather : W.Word → List Index → List File
  gather v [] = []
  gather v (x ∷ xs) = head_files v x ++ gather v xs

  abbrev pub gather_from : ℕ → W.Word → List Index → List File
  gather_from zero v xs = gather v xs
  gather_from (suc i) v [] = []
  gather_from (suc i) v (x ∷ xs) = gather_from i v xs

  -- `++word[j]` where the word is this one.
  abbrev pub next_word : W.Word → Index → Index
  next_word v [] = []
  next_word v (e ∷ es) = if W.same e.0 v then es else e ∷ es

  abbrev pub advance : W.Word → List Index → List Index
  advance v [] = []
  advance v (x ∷ xs) = next_word v x ∷ advance v xs

  abbrev pub advance_from : ℕ → W.Word → List Index → List Index
  advance_from zero v xs = advance v xs
  advance_from (suc i) v [] = []
  advance_from (suc i) v (x ∷ xs) = x ∷ advance_from i v xs

  module _ (is_stop : W.Word → Bool) where
    -- The words that are written, with their files.
    unfoldable pub merge_indicies : ℕ → List Index → Option Index
    unfolding settle remaining least
    merge_indicies zero xs = none
    merge_indicies (suc fuel) xs =
        let ys = settle is_stop false xs in
        elim (least 0 ys) [
          | none ↦ some (remaining is_stop ys)
          | some p ↦
              (let rest = merge_indicies fuel (advance_from p.0 p.1 ys) in
                if ltb (live ys) 2 then some (remaining is_stop ys) else (elim rest [
                  | none ↦ none
                  | some out ↦ some ((p.1, gather_from p.0 p.1 ys) ∷ out)
                ]))
        ]
