-- ===== src/Filter/Search.antt =====
-- Searches and replacements behind a front part of a string.
use swishxx.Common.{
  ℕ, suc, ◌+◌, ◌≡◌, refl, sym, ap, ◌∙◌, arith, true, false, List, [], ◌∷◌, ◌++◌, none, some, length,
  drop, append-nil, append_assoc, take-length, drop-length,
}
use swishxx.Filter.{is_one_of, find_first_of, replace, pair_at}

pub find_here :
    (out : List ℕ) (cs : List ℕ) (c : ℕ) (rest : List ℕ)
    → is_one_of cs c ≡ true
    → find_first_of (out ++ (c ∷ rest)) cs (length out) ≡ some (length out)
unfolding find_first_of
find_here [] cs c rest h = rw h refl
find_here (d ∷ out) cs c rest h = rw (find_here out cs c rest h) refl

pub find_next :
    (out : List ℕ) (cs : List ℕ) (c : ℕ) (rest : List ℕ)
    → is_one_of cs c ≡ false
    → find_first_of (out ++ (c ∷ rest)) cs (length out)
      ≡ find_first_of (out ++ (c ∷ rest)) cs (suc (length out))
unfolding find_first_of
find_next [] cs c rest h = rw h refl
find_next (d ∷ out) cs c rest h = rw (find_next out cs c rest h) refl

pub find_end : (out cs : List ℕ) → find_first_of (out ++ []) cs (length out) ≡ none
unfolding find_first_of
find_end [] cs = refl
find_end (d ∷ out) cs = rw (find_end out cs) refl

pub pair_here :
    (out : List ℕ) (c d : ℕ) (rest : List ℕ)
    → pair_at (out ++ (c ∷ d ∷ rest)) (length out) ≡ some (c, d)
pair_here [] c d rest = refl
pair_here (e ∷ []) c d rest = refl
pair_here (e ∷ f ∷ out) c d rest = pair_here (f ∷ out) c d rest

pub pair_last : (out : List ℕ) (c : ℕ) → pair_at (out ++ (c ∷ [])) (length out) ≡ none
pair_last [] c = refl
pair_last (e ∷ []) c = refl
pair_last (e ∷ f ∷ out) c = pair_last (f ∷ out) c

drop-length_more : (out s : List ℕ) (n : ℕ) → drop (length out + n) (out ++ s) ≡ drop n s
drop-length_more [] s n = rw (let e : 0 + n ≡ n = omega arith in e) refl
drop-length_more (c ∷ out) s n =
    rw (let e : suc (length out) + n ≡ suc (length out + n) = omega arith in e)
      (drop-length_more out s n)

-- `front` is replaced by a text behind `out`.
pub replace_here :
    (out front s t : List ℕ)
    → replace (out ++ (front ++ s)) (length out) (length front) t ≡ (out ++ t) ++ s
replace_here out front s t =
    rw
      (
        take-length out (front ++ s),
        drop-length_more out (front ++ s) (length front),
        drop-length front s,
      )
      (sym (append_assoc out t s))

-- One more character is in front.
pub move_on : (out : List ℕ) (c : ℕ) (rest : List ℕ) → (out ++ (c ∷ [])) ++ rest ≡ out ++ (c ∷ rest)
move_on out c rest = append_assoc out (c ∷ []) rest

pub erase_here :
    (out : List ℕ) (c : ℕ) (s : List ℕ) → replace (out ++ (c ∷ s)) (length out) 1 [] ≡ out ++ s
erase_here out c s = replace_here out (c ∷ []) s [] ∙ ap (λ x. x ++ s) (append-nil out)
