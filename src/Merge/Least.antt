-- ===== src/Merge/Least.antt =====
-- The loop finds the first of the least words.
use swishxx.Common.{
  ℕ, zero, suc, ◌≡◌, refl, ap, ◌∙◌, true, false, List, [], ◌∷◌, ◌++◌, some, Bool-cases, inl, inr,
  ◌⊎◌, length, length-snoc, All, All-append, append-nil, append_assoc,
}
use mathlib.Core.Path.{subst}
use swishxx.Merge.{Words, Index, scan, least, gather, gather_from, advance, advance_from}

module _ (W : Words) (File : Type 0) where
  abbrev pub NotHead : W.Word → Index W File → Type 0
  NotHead v [] = Unit
  NotHead v (e ∷ es) = W.same e.0 v ≡ false

  abbrev pub NotLess : W.Word → Index W File → Type 0
  NotLess v [] = Unit
  NotLess v (e ∷ es) = W.less e.0 v ≡ false

  abbrev pub IsHead : W.Word → Index W File → Type 0
  IsHead v [] = ⊥
  IsHead v (e ∷ es) = W.same e.0 v ≡ true

  -- The first `i` indices do not have the word in front.
  abbrev pub Skips : ℕ → W.Word → List (Index W File) → Type 0
  Skips zero v xs = Unit
  Skips (suc i) v [] = ⊥
  Skips (suc i) v (x ∷ xs) = NotHead v x × Skips i v xs

  abbrev pub Has : W.Word → List (Index W File) → Type 0
  Has v [] = ⊥
  Has v (x ∷ xs) = IsHead v x ⊎ Has v xs

  abbrev pub IsLeast : ℕ × W.Word → List (Index W File) → Type 0
  IsLeast p xs = Skips p.0 p.1 xs × (All (NotLess p.1) xs × Has p.1 xs)

  Skips-snoc :
      (i : ℕ) (v : W.Word) (xs : List (Index W File)) (x : Index W File)
      → Skips i v xs
      → Skips i v (xs ++ (x ∷ []))
  Skips-snoc zero v xs x h = tt
  Skips-snoc (suc i) v [] x h = elim h [ ]
  Skips-snoc (suc i) v (y ∷ xs) x (h, hs) = (h, Skips-snoc i v xs x hs)

  Has-snoc :
      (v : W.Word) (xs : List (Index W File)) (x : Index W File) → Has v xs → Has v (xs ++ (x ∷ []))
  Has-snoc v [] x h = elim h [ ]
  Has-snoc v (y ∷ xs) x (inl h) = inl h
  Has-snoc v (y ∷ xs) x (inr h) = inr (Has-snoc v xs x h)

  Has-last :
      (v : W.Word) (xs : List (Index W File)) (x : Index W File)
      → IsHead v x
      → Has v (xs ++ (x ∷ []))
  Has-last v [] x h = inl h
  Has-last v (y ∷ xs) x h = inr (Has-last v xs x h)

  same_refl : (v : W.Word) → W.same v v ≡ true
  same_refl v = (W.same_iff v v).1 refl

  -- A word in front of `v`, where `v` is less than `w` and the word is not.
  above :
      (u v w : W.Word)
      → W.less v w ≡ true
      → W.less u w ≡ false
      → (W.less u v ≡ false) × (W.same u v ≡ false)
  above u v w l n = (not_less (Bool-cases (W.less u v)), not_same (Bool-cases (W.same u v)))
    where
      not_less : (W.less u v ≡ true) ⊎ (W.less u v ≡ false) → W.less u v ≡ false
      not_less (inl y) = absurd (cc (W.less_trans u v w y l, n))
      not_less (inr m) = m

      not_same : (W.same u v ≡ true) ⊎ (W.same u v ≡ false) → W.same u v ≡ false
      not_same (inl y) = absurd (cc ((W.same_iff u v).0 y, l, n))
      not_same (inr m) = m

  pass_over :
      (v w : W.Word) (xs : List (Index W File))
      → W.less v w ≡ true
      → All (NotLess w) xs
      → Skips (length xs) v xs × All (NotLess v) xs
  pass_over v w [] l h = (tt, tt)
  pass_over v w ([] ∷ xs) l (h, hs) =
      let rest = pass_over v w xs l hs in ((tt, rest.0), (tt, rest.1))
  pass_over v w ((e ∷ es) ∷ xs) l (h, hs) =
      let rest = pass_over v w xs l hs in
      let up = above e.0 v w l h in ((up.1, rest.0), (up.0, rest.1))

  move_on :
      (i : ℕ) (w : W.Word) (front : List (Index W File)) (x : Index W File)
      (xs : List (Index W File))
      → IsLeast (scan W File (length (front ++ (x ∷ []))) i w xs) ((front ++ (x ∷ [])) ++ xs)
      → IsLeast (scan W File (suc (length front)) i w xs) (front ++ (x ∷ xs))
  move_on i w front x xs h =
      subst (λ n. IsLeast (scan W File n i w xs) (front ++ (x ∷ xs))) (length-snoc front x)
        (subst (λ ys. IsLeast (scan W File (length (front ++ (x ∷ []))) i w xs) ys)
          (append_assoc front (x ∷ []) xs) h)

  stays :
      (i : ℕ) (w : W.Word) (front : List (Index W File)) (x : Index W File)
      → IsLeast (i, w) front
      → NotLess w x
      → IsLeast (i, w) (front ++ (x ∷ []))
  stays i w front x (s, (l, h)) n = (
    Skips-snoc i w front x s,
    (All-append (NotLess w) front (x ∷ []) l (n, tt), Has-snoc w front x h),
  )

  changes :
      (i : ℕ) (w : W.Word) (front : List (Index W File)) (e : W.Word × List File)
      (es : Index W File)
      → IsLeast (i, w) front
      → W.less e.0 w ≡ true
      → IsLeast (length front, e.0) (front ++ ((e ∷ es) ∷ []))
  changes i w front e es (s, (l, h)) y =
      let passed = pass_over e.0 w front y l in
      (
        Skips-snoc (length front) e.0 front (e ∷ es) passed.0,
        (
          All-append (NotLess e.0) front ((e ∷ es) ∷ []) passed.1 (W.less_irrefl e.0, tt),
          Has-last e.0 front (e ∷ es) (same_refl e.0),
        ),
      )

  scan-IsLeast :
      (i : ℕ) (w : W.Word) (front xs : List (Index W File))
      → IsLeast (i, w) front
      → IsLeast (scan W File (length front) i w xs) (front ++ xs)
  unfolding scan
  scan-IsLeast i w front [] h = rw (append-nil front) h
  scan-IsLeast i w front ([] ∷ xs) h =
      move_on i w front [] xs (scan-IsLeast i w (front ++ ([] ∷ [])) xs (stays i w front [] h tt))
  scan-IsLeast i w front ((e ∷ es) ∷ xs) h = elim (Bool-cases (W.less e.0 w)) [
    | inl y ↦ rw y (
        move_on (length front) e.0 front (e ∷ es) xs (
          scan-IsLeast (length front) e.0 (front ++ ((e ∷ es) ∷ [])) xs
            (changes i w front e es h y)))
    | inr n ↦ rw n (
        move_on i w front (e ∷ es) xs
          (scan-IsLeast i w (front ++ ((e ∷ es) ∷ [])) xs (stays i w front (e ∷ es) h n)))
  ]

  Skips-over : (v : W.Word) (xs : List (Index W File)) → All (NotHead v) xs → Skips (length xs) v xs
  Skips-over v [] h = tt
  Skips-over v (x ∷ xs) (h, hs) = (h, Skips-over v xs hs)

  -- The indices in front are exhausted.
  least_from :
      (front xs : List (Index W File)) (p : ℕ × W.Word)
      → ((v : W.Word) → All (NotHead v) front × All (NotLess v) front)
      → least W File (length front) xs ≡ some p
      → IsLeast p (front ++ xs)
  unfolding least
  least_from front [] p k h = absurd (cc (h))
  least_from front ([] ∷ xs) p k h =
      subst (λ ys. IsLeast p ys) (append_assoc front ([] ∷ []) xs)
        (least_from (front ++ ([] ∷ [])) xs p
          (λ v. (
            All-append (NotHead v) front ([] ∷ []) (k v).0 (tt, tt),
            All-append (NotLess v) front ([] ∷ []) (k v).1 (tt, tt),
          ))
          (ap (λ n. least W File n xs) (length-snoc front []) ∙ h))
  least_from front ((e ∷ es) ∷ xs) p k h =
      subst (λ q. IsLeast q (front ++ ((e ∷ es) ∷ xs))) (cc (h))
        (move_on (length front) e.0 front (e ∷ es) xs (
          scan-IsLeast (length front) e.0 (front ++ ((e ∷ es) ∷ [])) xs (
            Skips-snoc (length front) e.0 front (e ∷ es) (Skips-over e.0 front (k e.0).0),
            (
              All-append (NotLess e.0) front ((e ∷ es) ∷ []) (k e.0).1 (W.less_irrefl e.0, tt),
              Has-last e.0 front (e ∷ es) (same_refl e.0),
            ),
          )))

  pub least-IsLeast :
      (xs : List (Index W File)) (p : ℕ × W.Word) → least W File 0 xs ≡ some p → IsLeast p xs
  least-IsLeast xs p h = least_from [] xs p (λ v. (tt, tt)) h

  pub gather_from-gather :
      (i : ℕ) (v : W.Word) (xs : List (Index W File))
      → Skips i v xs
      → gather_from W File i v xs ≡ gather W File v xs
  gather_from-gather zero v xs s = refl
  gather_from-gather (suc i) v [] s = elim s [ ]
  gather_from-gather (suc i) v ([] ∷ xs) (n, s) = gather_from-gather i v xs s
  gather_from-gather (suc i) v ((e ∷ es) ∷ xs) (n, s) = rw n (gather_from-gather i v xs s)

  pub advance_from-advance :
      (i : ℕ) (v : W.Word) (xs : List (Index W File))
      → Skips i v xs
      → advance_from W File i v xs ≡ advance W File v xs
  advance_from-advance zero v xs s = refl
  advance_from-advance (suc i) v [] s = elim s [ ]
  advance_from-advance (suc i) v ([] ∷ xs) (n, s) = rw (advance_from-advance i v xs s) refl
  advance_from-advance (suc i) v ((e ∷ es) ∷ xs) (n, s) =
      rw n (rw (advance_from-advance i v xs s) refl)
