-- ===== src/Merge/Strings.antt =====
-- `strcmp` on strings without their nulls, which src/pjl/less.h makes the order of the maps and sets of words.
use swishxx.Common.{
  ℕ, ◌≡◌, refl, arith, Bool, true, false, ◌&&◌, ◌||◌, List, [], ◌∷◌, ltb, ◌==◌, ◌↔◌,
}
use swishxx.Stem.{list_eq}
use swishxx.Merge.{Words}

-- `strcmp( a, b ) < 0`
unfoldable pub str_less : List ℕ → List ℕ → Bool
str_less [] [] = false
str_less [] (y ∷ ys) = true
str_less (x ∷ xs) [] = false
str_less (x ∷ xs) (y ∷ ys) = let rest = str_less xs ys in ltb x y || (x == y && rest)

list_eq_refl : (a : List ℕ) → list_eq a a ≡ true
unfolding list_eq
list_eq_refl [] = refl
list_eq_refl (x ∷ xs) = ground (arith, list_eq_refl xs)

list_eq_eq : (a b : List ℕ) → list_eq a b ≡ true → a ≡ b
unfolding list_eq
list_eq_eq [] [] h = refl
list_eq_eq [] (y ∷ ys) h = cc h
list_eq_eq (x ∷ xs) [] h = cc h
list_eq_eq (x ∷ xs) (y ∷ ys) h =
    let rest : xs ≡ ys = list_eq_eq xs ys (ground arith) in
    let first : x ≡ y = ground arith in rw (first, rest) refl

pub list_eq_iff : (a b : List ℕ) → (list_eq a b ≡ true) ↔ (a ≡ b)
list_eq_iff a b = (list_eq_eq a b, λ e. rw e (list_eq_refl b))

pub str_less_irrefl : (a : List ℕ) → str_less a a ≡ false
unfolding str_less
str_less_irrefl [] = refl
str_less_irrefl (x ∷ xs) = ground (arith, str_less_irrefl xs)

pub str_less_trans :
    (a b c : List ℕ) → str_less a b ≡ true → str_less b c ≡ true → str_less a c ≡ true
unfolding str_less
str_less_trans [] [] [] h k = cc h
str_less_trans [] (y ∷ ys) [] h k = cc k
str_less_trans [] b (z ∷ zs) h k = refl
str_less_trans (x ∷ xs) [] c h k = cc h
str_less_trans (x ∷ xs) (y ∷ ys) [] h k = cc k
str_less_trans (x ∷ xs) (y ∷ ys) (z ∷ zs) h k = ground (arith, str_less_trans xs ys zs)

pub str_less_total : (a b : List ℕ) → str_less a b ≡ false → str_less b a ≡ false → a ≡ b
unfolding str_less
str_less_total [] [] h k = refl
str_less_total [] (y ∷ ys) h k = cc h
str_less_total (x ∷ xs) [] h k = cc k
str_less_total (x ∷ xs) (y ∷ ys) h k =
    let first : x ≡ y = ground arith in
    let rest : xs ≡ ys = str_less_total xs ys (ground arith) (ground arith) in rw (first, rest) refl

unfoldable pub strings : Words
strings = record {
  Word = List ℕ;
  less = str_less;
  same = list_eq;
  same_iff = list_eq_iff;
  less_irrefl = str_less_irrefl;
  less_trans = str_less_trans;
  less_total = str_less_total;
}
