-- ===== src/Word/Match.antt =====
-- `move_if_match( char const*&, char const*, char const*, bool )` of src/word_util.cpp.
use swishxx.Common.{
  ℕ, ◌≡◌, ◌↔◌, refl, ap, arith, Bool, List, [], ◌∷◌, ◌++◌, Option, none, some, ◌==◌, if◌then◌else◌,
  Bool-cases, inl, inr, map,
}
use swishxx.Common.Ctype.{tolower}

abbrev pub fold : Bool → ℕ → ℕ
fold ignore_case d = if ignore_case then tolower d else d

-- The range from `c` up to `end`, and the string `s`: where `c` is left if the string matches.
unfoldable pub move_if_match : Bool → List ℕ → List ℕ → Option (List ℕ)
move_if_match ignore_case c [] = some c
move_if_match ignore_case [] (x ∷ s) = none
move_if_match ignore_case (d ∷ c) (x ∷ s) =
    let rest = move_if_match ignore_case c s in if x == fold ignore_case d then rest else none

-- A front of the range that is the string, up to case if case is ignored.
abbrev pub Begins : Bool → List ℕ → List ℕ → List ℕ → Type 0
Begins i c s rest = (front : List ℕ) × (c ≡ front ++ rest) × (map (fold i) front ≡ s)

move_if_match-Begins :
    (i : Bool) (c s rest : List ℕ) → move_if_match i c s ≡ some rest → Begins i c s rest
unfolding move_if_match
move_if_match-Begins i c [] rest e = ([], ground arith, refl)
move_if_match-Begins i [] (x ∷ s) rest e = absurd (ground arith)
move_if_match-Begins i (d ∷ c) (x ∷ s) rest e = elim (Bool-cases (x == fold i d)) [
  | inl same ↦
      let (front, split, m) = move_if_match-Begins i c s rest (rw (same, move_if_match) at e) in
      (d ∷ front, ap (◌∷◌ d) split, ground (arith, m))
  | inr other ↦ absurd (ground arith)
]

match_front :
    (i : Bool) (front rest : List ℕ)
    → move_if_match i (front ++ rest) (map (fold i) front) ≡ some rest
unfolding move_if_match
match_front i [] rest = refl
match_front i (d ∷ front) rest = ground (arith, match_front i front rest)

-- The string is matched exactly when the range begins with it, up to case if case is ignored, and then
-- `c` is left behind it.
pub move_if_match_iff :
    (i : Bool) (c s rest : List ℕ) → (move_if_match i c s ≡ some rest) ↔ Begins i c s rest
move_if_match_iff i c s rest =
    (move_if_match-Begins i c s rest, λ b. rw (b.1, ← b.2) (match_front i b.0 rest))
