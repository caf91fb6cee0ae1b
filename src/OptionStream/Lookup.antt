-- ===== src/OptionStream/Lookup.antt =====
-- Which specification a long option is matched with.
use swishxx.Common.{
  ℕ, ◌≡◌, refl, Bool, List, [], ◌∷◌, none, some, ◌==◌, if◌then◌else◌, Bool-cases, inl, inr, length,
}
use swishxx.OptionStream.Specs.{Spec}
use swishxx.OptionStream.{Match, not_found, many_found, found, is_prefix, match_long}

-- The options whose names start with the one that is given.
abbrev pub candidates : List ℕ → List Spec → List Spec
candidates name [] = []
candidates name (s ∷ specs) =
    let rest = candidates name specs in if is_prefix name s.long_name then s ∷ rest else rest

abbrev pub is_exact : List ℕ → Spec → Bool
is_exact name s = length s.long_name == length name

-- The choice after a first candidate, whose name is longer.
abbrev second_choice : List ℕ → Spec → List Spec → Match
second_choice name s [] = found s
second_choice name s (t ∷ ts) = if is_exact name t then found t else many_found

abbrev pub choice : List ℕ → List Spec → Match
choice name [] = not_found
choice name (s ∷ ts) = if is_exact name s then found s else second_choice name s ts

match_second :
    (specs : List Spec) (name : List ℕ) (s : Spec)
    → match_long specs name (some s) ≡ second_choice name s (candidates name specs)
unfolding match_long
match_second [] name s = refl
match_second (t ∷ specs) name s = elim (Bool-cases (is_prefix name t.long_name)) [
  | inr n ↦ rw (n, match_long) (match_second specs name s)
  | inl y ↦ elim (Bool-cases (is_exact name t)) [
    | inl e ↦ rw (y, e, match_long) refl
    | inr m ↦ rw (y, m, match_long) refl
  ]
]

-- A long name stands for the first of the options that it starts, if that one has just this name or is the
-- only one, and for the second one if that has just this name. It is ambiguous otherwise, even if a third
-- option has just this name, and not found if it starts no option.
pub match_long-candidates :
    (specs : List Spec) (name : List ℕ)
    → match_long specs name none ≡ choice name (candidates name specs)
unfolding match_long
match_long-candidates [] name = refl
match_long-candidates (s ∷ specs) name = elim (Bool-cases (is_prefix name s.long_name)) [
  | inr n ↦ rw (n, match_long) (match_long-candidates specs name)
  | inl y ↦ elim (Bool-cases (is_exact name s)) [
    | inl e ↦ rw (y, e, match_long) refl
    | inr m ↦ rw (y, m, match_long) (match_second specs name s)
  ]
]
