-- ===== src/OptionStream/Checks.antt =====
-- The checks of the options given, at the end of the options.
use swishxx.Common.{
  ℕ, ◌≡◌, ◌↔◌, refl, Bool, true, false, List, [], ◌∷◌, ◌++◌, Option, none, some, ◌==◌,
  if◌then◌else◌, Bool-cases, inl, inr, All,
}
use swishxx.OptionStream.Specs.{
  Exclusion, no_names, arg_lone, short_names, Spec, Error, mutually_exclusive, gave_option,
  first_given, other_given, bad_opt, is_empty, is_given, check_mutually_exclusive, check_required,
}

-- The short names of the other options.
abbrev other_names : ℕ → List Spec → List ℕ
other_names c [] = []
other_names c (s ∷ specs) =
    let rest = other_names c specs in if s.short_name == c then rest else s.short_name ∷ rest

abbrev pub excluded : List Spec → ℕ → Exclusion → List ℕ
excluded all c no_names = []
excluded all c arg_lone = other_names c all
excluded all c (short_names cs) = cs

-- None of the options was given.
abbrev pub NoneGiven : List ℕ → List ℕ → Type 0
NoneGiven given cs = All (λ c. gave_option given c ≡ false) cs

first_given_iff : (given cs : List ℕ) → (first_given given cs ≡ none) ↔ NoneGiven given cs
first_given_iff given [] = (λ _. tt, λ _. refl)
first_given_iff given (c ∷ cs) = elim (Bool-cases (gave_option given c)) [
  | inl y ↦ rw y (λ e. absurd (cc (e)), λ h. absurd (cc (h.0)))
  | inr n ↦
      rw n (λ e. (refl, (first_given_iff given cs).0 e), λ h. (first_given_iff given cs).1 h.1)
]

other_given-first_given :
    (given : List ℕ) (c : ℕ) (specs : List Spec)
    → other_given given c specs ≡ first_given given (other_names c specs)
other_given-first_given given c [] = refl
other_given-first_given given c (s ∷ specs) = elim (Bool-cases (s.short_name == c)) [
  | inl y ↦ rw y (other_given-first_given given c specs)
  | inr n ↦ elim (Bool-cases (gave_option given s.short_name)) [
    | inl g ↦ rw (n, g) refl
    | inr m ↦ rw (n, m) (other_given-first_given given c specs)
  ]
]

bad_opt-excluded :
    (all : List Spec) (given : List ℕ) (c : ℕ) (e : Exclusion)
    → bad_opt all given c e ≡ first_given given (excluded all c e)
bad_opt-excluded all given c no_names = refl
bad_opt-excluded all given c arg_lone = other_given-first_given given c all
bad_opt-excluded all given c (short_names cs) = refl

-- An option that was given excludes none that was given.
abbrev pub Respects : List Spec → List ℕ → Spec → Type 0
Respects all given s =
    gave_option given s.short_name ≡ true
    → NoneGiven given (excluded all s.short_name s.me_short_names)

abbrev verdict : Bool → Option ℕ → ℕ → Option Error → Option Error
verdict b o c rest =
    if b then (elim o [ none ↦ rest | some bad ↦ some (mutually_exclusive c bad) ]) else rest

verdict_iff :
    (b : Bool) (o : Option ℕ) (c : ℕ) (rest : Option Error)
    → (verdict b o c rest ≡ none) ↔ ((b ≡ true → o ≡ none) × (rest ≡ none))
verdict_iff true none c rest = (λ e. (λ _. refl, e), λ h. h.1)
verdict_iff true (some bad) c rest = (λ e. absurd (cc (e)), λ h. absurd (cc (h.0 refl)))
verdict_iff false o c rest = (λ e. (λ g. absurd (cc (g)), e), λ h. h.1)

bad_opt_iff :
    (all : List Spec) (given : List ℕ) (c : ℕ) (e : Exclusion)
    → (bad_opt all given c e ≡ none) ↔ NoneGiven given (excluded all c e)
bad_opt_iff all given c e =
    rw (bad_opt-excluded all given c e) (first_given_iff given (excluded all c e))

-- The check of exclusive options finds no error just if none of the options given excludes another option given,
-- where a lone option excludes all the others.
pub check_mutually_exclusive_iff :
    (all specs : List Spec) (given : List ℕ)
    → (check_mutually_exclusive all specs given ≡ none) ↔ All (Respects all given) specs
unfolding check_mutually_exclusive
check_mutually_exclusive_iff all [] given = (λ _. tt, λ _. refl)
check_mutually_exclusive_iff all (s ∷ specs) given =
    let rest = check_mutually_exclusive_iff all specs given in
    let bad = bad_opt_iff all given s.short_name s.me_short_names in
    let turn =
      verdict_iff (gave_option given s.short_name) (bad_opt all given s.short_name s.me_short_names)
        s.short_name (check_mutually_exclusive all specs given) in
    (
      λ e. (λ g. bad.0 ((turn.0 e).0 g), rest.0 (turn.0 e).1),
      λ h. turn.1 (λ g. bad.1 (h.0 g), rest.1 h.1),
    )

-- The check of required options ends at the first option given that requires others and has one of them: what is
-- required by the options behind it is not looked at.
pub check_required_stops :
    (front back : List Spec) (s : Spec) (given : List ℕ)
    → gave_option given s.short_name ≡ true
    → is_given (first_given given s.req_short_names) ≡ true
    → check_required (front ++ (s ∷ back)) given ≡ check_required (front ++ (s ∷ [])) given
unfolding check_required
check_required_stops [] back s given g h = elim (Bool-cases (is_empty s.req_short_names)) [
  | inl y ↦ absurd (none_empty s.req_short_names y h)
  | inr n ↦ rw (g, n, h) refl
]
  where
    none_empty : (cs : List ℕ) → is_empty cs ≡ true → is_given (first_given given cs) ≡ true → ⊥
    none_empty [] y h = absurd (cc (h))
    none_empty (c ∷ cs) y h = absurd (cc (y))
check_required_stops (f ∷ front) back s given g h =
    let rest = check_required_stops front back s given g h in rw rest refl
