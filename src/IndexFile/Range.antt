-- ===== src/IndexFile/Range.antt =====
-- The range that a binary search finds in a list in order, apart from how the list is stored: the entries that compare
-- equal to a word.
use swishxx.Common.Places.{all_at}
use swishxx.Common.{
  ℕ, zero, suc, ◌-◌, ◌<◌, ◌≤◌, ◌≡◌, refl, sym, ap, arith, Bool, true, false, not, ◌&&◌, and_false,
  List, [], ◌∷◌, some, if◌then◌else◌, Bool-cases, inl, inr, length, get_elem?, take, drop, All,
}

-- A strict weak order.
pub record IsWeakOrder (less : List ℕ → List ℕ → Bool) : Type 0 where
  pub asymmetric : (a b : List ℕ) → less a b ≡ true → less b a ≡ false
  pub below_down : (x y w : List ℕ) → less y x ≡ false → less y w ≡ true → less x w ≡ true
  pub above_up : (x y w : List ℕ) → less y x ≡ false → less w x ≡ true → less w y ≡ true

abbrev pub below : (List ℕ → List ℕ → Bool) → List ℕ → List ℕ → Bool
below less w v = less v w

abbrev pub not_above : (List ℕ → List ℕ → Bool) → List ℕ → List ℕ → Bool
not_above less w v = not (less w v)

module _ (less : List ℕ → List ℕ → Bool) {V : Type 0} where
  -- No entry is below one in front of it.
  abbrev pub IsInOrder : List (List ℕ × V) → Type 0
  IsInOrder [] = Unit
  IsInOrder (e ∷ es) = All (λ (f : List ℕ × V). less f.0 e.0 ≡ false) es × IsInOrder es

  -- The entries that compare equal to a word.
  unfoldable pub like : List ℕ → List (List ℕ × V) → List (List ℕ × V)
  like w [] = []
  like w (e ∷ es) =
      let rest = like w es in if not (less e.0 w) && not (less w e.0) then e ∷ rest else rest

  -- How many entries at the front pass a test.
  unfoldable pub passing : (List ℕ → Bool) → List (List ℕ × V) → ℕ
  passing p [] = 0
  passing p (e ∷ es) = let rest = passing p es in if p e.0 then suc rest else 0

  pub passing-le : (p : List ℕ → Bool) (es : List (List ℕ × V)) → passing p es ≤ length es
  unfolding passing
  passing-le p [] = omega arith
  passing-le p (e ∷ es) = ground (arith, passing-le p es)

  pub passing_before :
      (p : List ℕ → Bool) (es : List (List ℕ × V)) (i : ℕ) (e : List ℕ × V)
      → i < passing p es
      → get_elem? es i ≡ some e
      → p e.0 ≡ true
  unfolding passing
  passing_before p [] i e h g = cc g
  passing_before p (x ∷ es) zero e h g = elim (Bool-cases (p x.0)) [
    | inl y ↦ let same : x ≡ e = cc g in rw (← same) y
    | inr n ↦ let none_left = rw n at h in absurd (omega arith)
  ]
  passing_before p (x ∷ es) (suc i) e h g = elim (Bool-cases (p x.0)) [
    | inl y ↦ let more = rw y at h in passing_before p es i e (omega arith) g
    | inr n ↦ let none_left = rw n at h in absurd (omega arith)
  ]

  -- Behind them none passes a test that, if it holds of an entry, holds of those in front of it.
  pub passing_behind :
      (p : List ℕ → Bool)
      → ((x y : List ℕ) → less y x ≡ false → p y ≡ true → p x ≡ true)
      → (es : List (List ℕ × V)) (i : ℕ) (e : List ℕ × V) → IsInOrder es
      → passing p es ≤ i
      → get_elem? es i ≡ some e
      → p e.0 ≡ false
  unfolding passing
  passing_behind p down [] i e o h g = cc g
  passing_behind p down (x ∷ es) zero e (o, os) h g = elim (Bool-cases (p x.0)) [
    | inl y ↦ let more = rw y at h in absurd (omega arith)
    | inr n ↦ let same : x ≡ e = cc g in rw (← same) n
  ]
  passing_behind p down (x ∷ es) (suc i) e (o, os) h g = elim (Bool-cases (p x.0)) [
    | inl y ↦ let more = rw y at h in passing_behind p down es i e os (omega arith) g
    | inr n ↦ elim (Bool-cases (p e.0)) [
      | inl passes ↦ cc (down x.0 e.0 (all_at _ es i e o g) passes, n)
      | inr fails ↦ fails
    ]
  ]

  module _ (order : IsWeakOrder less) (w : List ℕ) where
    -- Behind one that is above the word there is none like it, and behind one that is not below it none is.
    none_like :
        (x : List ℕ × V) (es : List (List ℕ × V))
        → less w x.0 ≡ true
        → All (λ (f : List ℕ × V). less f.0 x.0 ≡ false) es
        → like w es ≡ []
    unfolding like
    none_like x [] a o = refl
    none_like x (e ∷ es) a (o, os) =
        let above = order.above_up x.0 e.0 w o a in
        rw (above, and_false (not (less e.0 w))) (none_like x es a os)

    none_below :
        (x : List ℕ × V) (es : List (List ℕ × V))
        → less x.0 w ≡ false
        → All (λ (f : List ℕ × V). less f.0 x.0 ≡ false) es
        → passing (below less w) es ≡ 0
    unfolding passing
    none_below x [] n o = refl
    none_below x (e ∷ es) n (o, os) = elim (Bool-cases (less e.0 w)) [
      | inl y ↦ cc (order.below_down x.0 e.0 w o y, n)
      | inr m ↦ rw m refl
    ]

    -- The entries between the two numbers are those that compare equal.
    pub passing-like :
        (es : List (List ℕ × V))
        → IsInOrder es
        → take
            (passing (not_above less w) es - passing (below less w) es)
            (drop (passing (below less w) es) es)
          ≡ like w es
    unfolding passing like
    passing-like [] o = refl
    passing-like (x ∷ es) (o, os) = elim (Bool-cases (less x.0 w)) [
      | inl b ↦
          let a : less w x.0 ≡ false = order.asymmetric x.0 w b in
          let one_less : suc (passing (not_above less w) es) - suc (passing (below less w) es)
              ≡ passing (not_above less w) es - passing (below less w) es =
            omega arith in
          rw (b, a) (rw one_less (passing-like es os))
      | inr n ↦ elim (Bool-cases (less w x.0)) [
        | inl a ↦ rw (n, a) (sym (none_like x es a o))
        | inr m ↦
            let none_left = none_below x es n o in
            let number = passing (not_above less w) es in
            let own : suc number - 0 ≡ suc number = omega arith in
            let less_none : number - 0 ≡ number = omega arith in
            let rest : take number es ≡ like w es =
              rw less_none at (rw none_left at (passing-like es os)) in
            rw (n, m) (rw own (ap (λ l. x ∷ l) rest))
      ]
    ]
