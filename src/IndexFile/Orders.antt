-- ===== src/IndexFile/Orders.antt =====
-- `strcmp`, and `strncmp` on a number of characters, as orders of the entries of an index.
use swishxx.Common.{
  ℕ, zero, suc, ◌≡◌, refl, arith, Bool, true, false, List, [], ◌∷◌, Bool-cases, inl, inr, take, All,
}
use swishxx.Merge.Strings.{str_less, str_less_trans, str_less_total}
use swishxx.IndexFile.Search.{less_n}
use swishxx.IndexFile.Sorted.{IsAscending, not_below}
use swishxx.IndexFile.Range.{IsWeakOrder, IsInOrder}

str_below_down : (x y w : List ℕ) → str_less y x ≡ false → str_less y w ≡ true → str_less x w ≡ true
str_below_down x y w o h = elim (Bool-cases (str_less x y)) [
  | inl l ↦ str_less_trans x y w l h
  | inr n ↦ let same = str_less_total x y n o in rw same h
]

str_above_up : (x y w : List ℕ) → str_less y x ≡ false → str_less w x ≡ true → str_less w y ≡ true
str_above_up x y w o h = elim (Bool-cases (str_less x y)) [
  | inl l ↦ str_less_trans w x y h l
  | inr n ↦ let same = str_less_total x y n o in rw (← same) h
]

pub str_less-IsWeakOrder : IsWeakOrder str_less
str_less-IsWeakOrder = record {
  asymmetric = not_below;
  below_down = str_below_down;
  above_up = str_above_up;
}

pub less_n-IsWeakOrder : (n : ℕ) → IsWeakOrder (less_n n)
unfolding less_n
less_n-IsWeakOrder n = record {
  asymmetric = λ a b. not_below (take n a) (take n b);
  below_down = λ x y w. str_below_down (take n x) (take n y) (take n w);
  above_up = λ x y w. str_above_up (take n x) (take n y) (take n w);
}

-- What is not below by all characters is not below by the first ones.
less_n-str_less : (n : ℕ) (a b : List ℕ) → less_n n a b ≡ true → str_less a b ≡ true
unfolding less_n str_less
less_n-str_less zero a b h = cc h
less_n-str_less (suc n) [] [] h = cc h
less_n-str_less (suc n) [] (y ∷ ys) h = refl
less_n-str_less (suc n) (x ∷ xs) [] h = cc h
less_n-str_less (suc n) (x ∷ xs) (y ∷ ys) h = ground (arith, less_n-str_less n xs ys)

module _ {V : Type 0} where
  all_not_below :
      (less : List ℕ → List ℕ → Bool)
      → ((a b : List ℕ) → less a b ≡ true → str_less a b ≡ true)
      → (x : List ℕ × V) (es : List (List ℕ × V))
      → All (λ (y : List ℕ × V). str_less x.0 y.0 ≡ true) es
      → All (λ (f : List ℕ × V). less f.0 x.0 ≡ false) es
  all_not_below less weaker x [] h = tt
  all_not_below less weaker x (y ∷ es) (h, hs) = (
    elim (Bool-cases (less y.0 x.0)) [
      | inl l ↦ cc (not_below x.0 y.0 h, weaker y.0 x.0 l)
      | inr n ↦ n
    ],
    all_not_below less weaker x es hs,
  )

  -- Ascending entries are in any order that is no finer.
  ascending-IsInOrder :
      (less : List ℕ → List ℕ → Bool)
      → ((a b : List ℕ) → less a b ≡ true → str_less a b ≡ true)
      → (es : List (List ℕ × V)) → IsAscending (λ e. e.0) es
      → IsInOrder less es
  ascending-IsInOrder less weaker [] h = tt
  ascending-IsInOrder less weaker (x ∷ es) (h, hs) =
      (all_not_below less weaker x es h, ascending-IsInOrder less weaker es hs)

  pub str_less-IsInOrder :
      (es : List (List ℕ × V)) → IsAscending (λ e. e.0) es → IsInOrder str_less es
  str_less-IsInOrder = ascending-IsInOrder str_less (λ a b h. h)

  pub less_n-IsInOrder :
      (n : ℕ) (es : List (List ℕ × V)) → IsAscending (λ e. e.0) es → IsInOrder (less_n n) es
  less_n-IsInOrder n = ascending-IsInOrder (less_n n) (less_n-str_less n)
