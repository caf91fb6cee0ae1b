-- ===== src/Merge/Total.antt =====
-- The merge ends, with the files of every word that is not a stop word.
use swishxx.Common.{
  ℕ, zero, suc, ◌≤◌, ◌<◌, ◌≡◌, refl, sym, ap, ◌∙◌, arith, Bool, true, false, List, [], ◌∷◌, Option,
  none, some, if◌then◌else◌, ltb, Bool-cases, Option-cases, inl, inr, length, All, append-nil,
}
use mathlib.Core.Path.{subst}
use swishxx.Merge.Least.{IsLeast, least-IsLeast, gather_from-gather, advance_from-advance}
use swishxx.Merge.Found.{
  found, found_all, IsSorted, gather-found_all, found_all-advance, advance-IsSorted, entries,
  advance-lt,
}
use swishxx.Merge.{
  Words, Index, skip_stops, settle, kept_words, remaining, live, least, gather_from, advance,
  advance_from, merge_indicies,
}

module _ (W : Words) (File : Type 0) (is_stop : W.Word → Bool) where
  -- An entry of a stop word is not the one that is looked for.
  not_it : (u w : W.Word) → is_stop u ≡ true → is_stop w ≡ false → W.same u w ≡ false
  not_it u w s n = elim (Bool-cases (W.same u w)) [
    | inr m ↦ m
    | inl y ↦ absurd (cc ((W.same_iff u w).0 y, s, n))
  ]

  found-skip_stops :
      (w : W.Word) (x : Index W File)
      → is_stop w ≡ false
      → found W File w (skip_stops W File is_stop x) ≡ found W File w x
  unfolding skip_stops
  found-skip_stops w [] n = refl
  found-skip_stops w (e ∷ es) n = elim (Bool-cases (is_stop e.0)) [
    | inl y ↦ rw (y, not_it e.0 w y n) (found-skip_stops w es n)
    | inr m ↦ rw m refl
  ]

  found-kept_words :
      (w : W.Word) (x : Index W File)
      → is_stop w ≡ false
      → found W File w (kept_words W File is_stop x) ≡ found W File w x
  unfolding kept_words
  found-kept_words w [] n = refl
  found-kept_words w (e ∷ es) n = elim (Bool-cases (is_stop e.0)) [
    | inl y ↦ rw (y, not_it e.0 w y n) (found-kept_words w es n)
    | inr m ↦ rw m (rw (found-kept_words w es n) refl)
  ]

  skip_stops-IsSorted :
      (x : Index W File) → IsSorted W File x → IsSorted W File (skip_stops W File is_stop x)
  unfolding skip_stops
  skip_stops-IsSorted [] s = tt
  skip_stops-IsSorted (e ∷ es) s = elim (Bool-cases (is_stop e.0)) [
    | inl y ↦ rw y (skip_stops-IsSorted es s.1)
    | inr m ↦ rw m s
  ]

  skip_stops-le : (x : Index W File) → length (skip_stops W File is_stop x) ≤ length x
  unfolding skip_stops
  skip_stops-le [] = omega arith
  skip_stops-le (e ∷ es) = elim (Bool-cases (is_stop e.0)) [
    | inl y ↦ rw y (omega (arith, skip_stops-le es))
    | inr m ↦ rw m (omega arith)
  ]

  -- What `settle` keeps of the indices.
  abbrev Kept : List (Index W File) → List (Index W File) → Type 0
  Kept xs ys =
      ((w : W.Word) → is_stop w ≡ false → found_all W File w ys ≡ found_all W File w xs)
      × ((All (IsSorted W File) xs → All (IsSorted W File) ys)
          × (entries W File ys ≤ entries W File xs))

  cons-Kept :
      (x y : Index W File) (xs ys : List (Index W File))
      → skip_stops W File is_stop x ≡ y
      → Kept xs ys
      → Kept (x ∷ xs) (y ∷ ys)
  cons-Kept x y xs ys e (f, (s, l)) =
      let one = skip_stops-le x in
      let size : length y ≤ length x = subst (λ z. length z ≤ length x) e one in
      (
        λ w n. rw (sym e) (rw (found-skip_stops w x n, f w n) refl),
        (
          λ h. (subst (IsSorted W File) e (skip_stops-IsSorted x h.0), s h.1),
          omega (arith, size, l),
        ),
      )

  same-Kept : (xs : List (Index W File)) → Kept xs xs
  same-Kept xs = (λ w n. refl, (λ s. s, omega arith))

  settle-Kept : (one : Bool) (xs : List (Index W File)) → Kept xs (settle W File is_stop one xs)
  unfolding settle
  settle-Kept one [] = same-Kept []
  settle-Kept one (x ∷ xs) =
      go one (skip_stops W File is_stop x) refl (settle-Kept one xs) (settle-Kept true xs)
    where
      go :
          (one : Bool) (y : Index W File)
          → skip_stops W File is_stop x ≡ y
          → Kept xs (settle W File is_stop one xs)
          → Kept xs (settle W File is_stop true xs)
          → Kept (x ∷ xs) (elim y [
            | [] ↦ [] ∷ settle W File is_stop one xs
            | e ∷ es ↦ (e ∷ es) ∷ (if one then xs else settle W File is_stop true xs)
          ])
      go one [] q k k' = cons-Kept x [] xs (settle W File is_stop one xs) q k
      go true (e ∷ es) q k k' = cons-Kept x (e ∷ es) xs xs q (same-Kept xs)
      go false (e ∷ es) q k k' = cons-Kept x (e ∷ es) xs (settle W File is_stop true xs) q k'

  live_zero :
      (w : W.Word) (xs : List (Index W File))
      → live W File xs ≡ 0
      → (remaining W File is_stop xs ≡ []) × (found_all W File w xs ≡ [])
  unfolding remaining kept_words
  live_zero w [] h = (refl, refl)
  live_zero w ([] ∷ xs) h = live_zero w xs h
  live_zero w ((e ∷ es) ∷ xs) h = absurd (omega arith)

  -- With one index left at most, nothing is lost by copying it.
  found-remaining :
      (w : W.Word) (xs : List (Index W File))
      → is_stop w ≡ false
      → live W File xs < 2
      → found W File w (remaining W File is_stop xs) ≡ found_all W File w xs
  unfolding remaining kept_words
  found-remaining w [] n l = refl
  found-remaining w ([] ∷ xs) n l = found-remaining w xs n l
  found-remaining w ((e ∷ es) ∷ xs) n l =
      let none_left = live_zero w xs (omega arith) in
      rw (none_left.0, none_left.1)
        (rw (append-nil (kept_words W File is_stop (e ∷ es)), append-nil (found W File w (e ∷ es)))
          (found-kept_words w (e ∷ es) n))

  least-none : (j : ℕ) (xs : List (Index W File)) → least W File j xs ≡ none → live W File xs ≡ 0
  unfolding least
  least-none j [] h = refl
  least-none j ([] ∷ xs) h = least-none (suc j) xs h
  least-none j ((e ∷ es) ∷ xs) h = absurd (cc (h))

  -- What the merge of these indices is to give.
  abbrev pub IsMerged : List (Index W File) → Option (Index W File) → Type 0
  IsMerged xs r =
      (out : Index W File) × ((r ≡ some out)
        × ((w : W.Word) → is_stop w ≡ false → found W File w out ≡ found_all W File w xs))

  -- The word that is written, and the rest.
  found-cons :
      (v w : W.Word) (files : List File) (out : Index W File) (ys : List (Index W File))
      → files ≡ found_all W File v ys
      → (W.same v w ≡ false → found W File w out ≡ found_all W File w ys)
      → found W File w ((v, files) ∷ out) ≡ found_all W File w ys
  found-cons v w files out ys e k = elim (Bool-cases (W.same v w)) [
    | inl y ↦ rw y (e ∙ ap (λ u. found_all W File u ys) ((W.same_iff v w).0 y))
    | inr n ↦ rw n (k n)
  ]

  round :
      (fuel i : ℕ) (v : W.Word) (ys : List (Index W File))
      → All (IsSorted W File) ys
      → IsLeast W File (i, v) ys
      → entries W File ys ≤ fuel
      → ((zs : List (Index W File))
          → All (IsSorted W File) zs
          → entries W File zs < fuel
          → IsMerged zs (merge_indicies W File is_stop fuel zs))
      → IsMerged ys (elim (merge_indicies W File is_stop fuel (advance_from W File i v ys)) [
        | none ↦ none
        | some out ↦ some ((v, gather_from W File i v ys) ∷ out)
      ])
  round fuel i v ys s (skips, (n, has)) l k =
      let smaller = advance-lt W File v ys has in
      let (out, (e, f)) = k (advance W File v ys) (advance-IsSorted W File v ys s) (omega arith) in
      let here = gather_from-gather W File i v ys skips ∙ gather-found_all W File v ys s n in
      rw (advance_from-advance W File i v ys skips, e)
        (
          (v, gather_from W File i v ys) ∷ out,
          (
            refl,
            λ w m.
                found-cons v w (gather_from W File i v ys) out ys here
                  (λ d. f w m ∙ found_all-advance W File v w ys d),
          ),
        )

  -- The partial indices are merged, with a round for each of their entries and one more: if the words of each are
  -- in order, each once, then the merged index has for every word that is not a stop word the files that
  -- all the partial indices have for it, one index after the other.
  pub merge_indicies-IsMerged :
      (fuel : ℕ) (xs : List (Index W File))
      → All (IsSorted W File) xs
      → entries W File xs < fuel
      → IsMerged xs (merge_indicies W File is_stop fuel xs)
  unfolding merge_indicies
  merge_indicies-IsMerged zero xs s l = absurd (omega arith)
  merge_indicies-IsMerged (suc fuel) xs s l =
      let ys = settle W File is_stop false xs in
      let (same, (sorted, size)) = settle-Kept false xs in
      elim (Option-cases (least W File 0 ys)) [
        | inl e ↦
            let few = least-none 0 ys e in
            rw (e, merge_indicies)
              (
                remaining W File is_stop ys,
                (refl, λ w n. found-remaining w ys n (omega (arith, few)) ∙ same w n),
              )
        | inr (p, e) ↦
            rw (e, merge_indicies)
              (elim (Bool-cases (ltb (live W File ys) 2)) [
                | inl y ↦ rw y (
                  remaining W File is_stop ys,
                  (refl, λ w n. found-remaining w ys n (ground arith) ∙ same w n),
                )
                | inr m ↦
                    let (out, (r, f)) =
                      round fuel p.0 p.1 ys (sorted s) (least-IsLeast W File ys p e) (omega arith)
                        (λ zs t b. merge_indicies-IsMerged fuel zs t b) in
                    rw m (out, (r, λ w n. f w n ∙ same w n))
              ])
      ]
