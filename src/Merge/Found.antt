-- ===== src/Merge/Found.antt =====
-- The merged index has the files of every word.
use swishxx.Common.{
  ℕ, ◌+◌, ◌≤◌, ◌<◌, ◌≡◌, refl, sym, ◌∙◌, arith, true, false, List, [], ◌∷◌, ◌++◌, if◌then◌else◌,
  Bool-cases, inl, inr, length, All,
}
use swishxx.Merge.Least.{NotLess, IsHead, Has}
use swishxx.Merge.{Words, Index, head_files, gather, next_word, advance}

module _ (W : Words) (File : Type 0) where
  -- The files of a word in an index: those of its first entry.
  abbrev pub found : W.Word → Index W File → List File
  found w [] = []
  found w (e ∷ es) = let rest = found w es in if W.same e.0 w then e.1 else rest

  abbrev pub found_all : W.Word → List (Index W File) → List File
  found_all w [] = []
  found_all w (x ∷ xs) = found w x ++ found_all w xs

  -- The words of an index are in order, each of them once.
  abbrev pub IsSorted : Index W File → Type 0
  IsSorted [] = Unit
  IsSorted (e ∷ es) = All (λ d. W.less e.0 d.0 ≡ true) es × IsSorted es

  found_above :
      (u v : W.Word) (es : Index W File)
      → W.less v u ≡ true
      → All (λ d. W.less u d.0 ≡ true) es
      → found v es ≡ []
  found_above u v [] l h = refl
  found_above u v (d ∷ es) l (h, hs) = elim (Bool-cases (W.same d.0 v)) [
    | inr n ↦ rw n (found_above u v es l hs)
    | inl y ↦ absurd (cc ((W.same_iff d.0 v).0 y, W.less_trans v u d.0 l h, W.less_irrefl v))
  ]

  head_files-found :
      (v : W.Word) (x : Index W File)
      → IsSorted x
      → NotLess W File v x
      → head_files W File v x ≡ found v x
  head_files-found v [] s n = refl
  head_files-found v (e ∷ es) (h, s) n = elim (Bool-cases (W.same e.0 v)) [
    | inl y ↦ rw y refl
    | inr m ↦ elim (Bool-cases (W.less v e.0)) [
      | inl l ↦ rw m (sym (found_above e.0 v es l h))
      | inr k ↦
          let e' : W.same e.0 v ≡ true = (W.same_iff e.0 v).1 (W.less_total e.0 v n k) in
          absurd (cc (e', m))
    ]
  ]

  pub gather-found_all :
      (v : W.Word) (xs : List (Index W File))
      → All IsSorted xs
      → All (NotLess W File v) xs
      → gather W File v xs ≡ found_all v xs
  gather-found_all v [] s n = refl
  gather-found_all v (x ∷ xs) (s, ss) (n, ns) =
      rw (head_files-found v x s n, gather-found_all v xs ss ns) refl

  -- Another word is left as it was.
  found-next_word :
      (v w : W.Word) (x : Index W File)
      → W.same v w ≡ false
      → found w (next_word W File v x) ≡ found w x
  found-next_word v w [] n = refl
  found-next_word v w (e ∷ es) n = elim (Bool-cases (W.same e.0 v)) [
    | inr m ↦ rw m refl
    | inl y ↦ elim (Bool-cases (W.same e.0 w)) [
      | inr k ↦ rw (y, k) refl
      | inl z ↦
          let eq : W.same v w ≡ true =
            (W.same_iff v w).1 (sym ((W.same_iff e.0 v).0 y) ∙ (W.same_iff e.0 w).0 z) in
          absurd (cc (eq, n))
    ]
  ]

  pub found_all-advance :
      (v w : W.Word) (xs : List (Index W File))
      → W.same v w ≡ false
      → found_all w (advance W File v xs) ≡ found_all w xs
  found_all-advance v w [] n = refl
  found_all-advance v w (x ∷ xs) n = rw (found-next_word v w x n, found_all-advance v w xs n) refl

  next_word-IsSorted :
      (v : W.Word) (x : Index W File) → IsSorted x → IsSorted (next_word W File v x)
  next_word-IsSorted v [] s = tt
  next_word-IsSorted v (e ∷ es) s = elim (Bool-cases (W.same e.0 v)) [
    | inl y ↦ rw y s.1
    | inr n ↦ rw n s
  ]

  pub advance-IsSorted :
      (v : W.Word) (xs : List (Index W File)) → All IsSorted xs → All IsSorted (advance W File v xs)
  advance-IsSorted v [] s = tt
  advance-IsSorted v (x ∷ xs) (s, ss) = (next_word-IsSorted v x s, advance-IsSorted v xs ss)

  -- The entries that are left.
  abbrev pub entries : List (Index W File) → ℕ
  entries [] = 0
  entries (x ∷ xs) = length x + entries xs

  next_word-le : (v : W.Word) (x : Index W File) → length (next_word W File v x) ≤ length x
  next_word-le v [] = omega arith
  next_word-le v (e ∷ es) = elim (Bool-cases (W.same e.0 v)) [
    | inl y ↦ rw y (omega arith)
    | inr n ↦ rw n (omega arith)
  ]

  advance-le : (v : W.Word) (xs : List (Index W File)) → entries (advance W File v xs) ≤ entries xs
  advance-le v [] = omega arith
  advance-le v (x ∷ xs) = omega (arith, next_word-le v x, advance-le v xs)

  head-lt :
      (v : W.Word) (x : Index W File) → IsHead W File v x → length (next_word W File v x) < length x
  head-lt v [] h = elim h [ ]
  head-lt v (e ∷ es) h = rw h (omega arith)

  pub advance-lt :
      (v : W.Word) (xs : List (Index W File))
      → Has W File v xs
      → entries (advance W File v xs) < entries xs
  advance-lt v [] h = elim h [ ]
  advance-lt v (x ∷ xs) (inl h) = omega (arith, head-lt v x h, advance-le v xs)
  advance-lt v (x ∷ xs) (inr h) = omega (arith, next_word-le v x, advance-lt v xs h)
