-- ===== src/OptionStream/Sound.antt =====
-- What is extracted: an option that fits its specification, the end, or an error.
use swishxx.Common.{
  ℕ, suc, ◌+◌, ◌<◌, ◌≤◌, ◌≡◌, refl, sym, ◌∙◌, arith, true, not, ◌||◌, List, [], ◌∷◌, ◌++◌, Option,
  none, some, ◌==◌, Bool-cases, Option-cases, inl, inr, ◌⊎◌, length, or_false,
}
use swishxx.OptionStream.Specs.{
  ArgType, arg_none, arg_req, arg_opt, Spec, Error, ambiguous, unrecognized, takes_no_argument,
  requires_argument, Stream, Extracted, gave_option,
}
use swishxx.OptionStream.Origin.{IsIn, find_short-IsIn, match_long-IsIn}
use swishxx.OptionStream.{
  the_end, option_error, has_text, is_required, check_arg, skip_to, set_next_c, next_argument,
  find_short, short_argument, short_option, Match, not_found, many_found, found, match_long,
  name_of, end_of, long_argument, long_option, start_option, from_argument, extract,
}

-- The characters that are left, with one more for each argument.
abbrev pub weight : List (List ℕ) → ℕ
weight [] = 0
weight (a ∷ arguments) = suc (length a) + weight arguments

unfoldable pub remaining : Stream → ℕ
remaining os = length os.next_c + weight os.arguments

-- An argument as the specification wants it.
abbrev pub Fits : ArgType → Option (List ℕ) → Type 0
Fits arg_none arg = arg ≡ none
Fits arg_req arg = has_text arg ≡ true
Fits arg_opt arg = Unit

abbrev pub IsOption : List Spec → ℕ → Option (List ℕ) → Type 0
IsOption specs c arg = (s : Spec) × (IsIn s specs × ((s.short_name ≡ c) × Fits s.arg_type arg))

-- What holds after an extraction from a stream with less than `bound` left and these errors.
abbrev pub IsSound : List Spec → ℕ → List Error → Option (ℕ × Option (List ℕ)) → Stream → Type 0
IsSound specs bound errors none os =
    (os.eof ≡ true) ⊎ ((e : Error) × (os.errors ≡ errors ++ (e ∷ [])))
IsSound specs bound errors (some (c, arg)) os =
    IsOption specs c arg
    × ((os.errors ≡ errors) × ((gave_option os.opts_given c ≡ true) × (remaining os < bound)))

abbrev Sound : List Spec → ℕ → List Error → Extracted → Type 0
Sound specs bound errors r = IsSound specs bound errors r.0 r.1

-- An option without an argument has none.
abbrev Allowed : ArgType → Option (List ℕ) → Type 0
Allowed arg_none arg = arg ≡ none
Allowed _ arg = Unit

fits :
    (t : ArgType) (arg : Option (List ℕ))
    → Allowed t arg
    → (has_text arg || not (is_required t)) ≡ true
    → Fits t arg
fits arg_none arg a h = a
fits arg_req arg a h = sym (or_false (has_text arg)) ∙ h
fits arg_opt arg a h = tt

option_error-Sound :
    (specs : List Spec) (bound : ℕ) (e : Error) (os : Stream)
    → Sound specs bound os.errors (option_error e os)
unfolding option_error
option_error-Sound specs bound e os = inr (e, refl)

the_end-Sound :
    (specs : List Spec) (bound : ℕ) (errors : List Error) (os : Stream)
    → Sound specs bound errors (the_end specs os)
unfolding the_end
the_end-Sound specs bound errors os = inl refl

given_now : (c : ℕ) (given : List ℕ) → gave_option (c ∷ given) c ≡ true
given_now c given = let own : (c == c) ≡ true = ground arith in rw own refl

check_arg-Sound :
    (specs : List Spec) (bound : ℕ) (s : Spec) (name : List ℕ) (arg : Option (List ℕ)) (os : Stream)
    → IsIn s specs
    → Allowed s.arg_type arg
    → remaining os < bound
    → Sound specs bound os.errors (check_arg s name arg os)
unfolding check_arg remaining
check_arg-Sound specs bound s name arg os m a l =
    elim (Bool-cases (has_text arg || not (is_required s.arg_type))) [
      | inl y ↦
          rw (y, check_arg)
            (
              (s, (m, (refl, fits s.arg_type arg a y))),
              (refl, (given_now s.short_name os.opts_given, l)),
            )
      | inr n ↦ rw (n, check_arg) (option_error-Sound specs bound (requires_argument name) os)
    ]

abbrev TakesArgument : ArgType → Type 0
TakesArgument arg_none = ⊥
TakesArgument _ = Unit

allowed : (t : ArgType) (arg : Option (List ℕ)) → TakesArgument t → Allowed t arg
allowed arg_none arg h = elim h [ ]
allowed arg_req arg h = tt
allowed arg_opt arg h = tt

next_argument-Sound :
    (specs : List Spec) (bound : ℕ) (s : Spec) (name : List ℕ) (arg : Option (List ℕ))
    (arguments : List (List ℕ)) (os : Stream)
    → IsIn s specs
    → TakesArgument s.arg_type
    → length os.next_c + weight arguments < bound
    → Sound specs bound os.errors (next_argument s name arg arguments os)
unfolding next_argument skip_to remaining
next_argument-Sound specs bound s name arg [] os m t l =
    check_arg-Sound specs bound s name arg (skip_to [] os) m (allowed s.arg_type arg t) l
next_argument-Sound specs bound s name arg (a ∷ arguments) os m t l =
    check_arg-Sound specs bound s name _ (skip_to arguments os) m (allowed s.arg_type _ t)
      (omega arith)

short_argument-Sound :
    (specs : List Spec) (bound : ℕ) (s : Spec) (t : ArgType) (cs : List ℕ) (os : Stream)
    → IsIn s specs
    → s.arg_type ≡ t
    → length cs + weight os.arguments < bound
    → Sound specs bound os.errors (short_argument s t cs os)
unfolding short_argument set_next_c remaining
short_argument-Sound specs bound s arg_none cs os m e l =
    check_arg-Sound specs bound s (s.short_name ∷ []) none (set_next_c cs os) m (rw e refl) l
short_argument-Sound specs bound s arg_req [] os m e l =
    next_argument-Sound specs bound s (s.short_name ∷ []) (some []) os.arguments (set_next_c [] os)
      m (rw e tt) l
short_argument-Sound specs bound s arg_opt [] os m e l =
    next_argument-Sound specs bound s (s.short_name ∷ []) (some []) os.arguments (set_next_c [] os)
      m (rw e tt) l
short_argument-Sound specs bound s arg_req (c ∷ cs) os m e l =
    check_arg-Sound specs bound s (s.short_name ∷ []) (some (c ∷ cs)) (set_next_c [] os) m (rw e tt)
      (omega arith)
short_argument-Sound specs bound s arg_opt (c ∷ cs) os m e l =
    check_arg-Sound specs bound s (s.short_name ∷ []) (some (c ∷ cs)) (set_next_c [] os) m (rw e tt)
      (omega arith)

short_option-Sound :
    (specs : List Spec) (bound c : ℕ) (cs : List ℕ) (os : Stream)
    → length cs + weight os.arguments < bound
    → Sound specs bound os.errors (short_option specs c cs os)
unfolding short_option
short_option-Sound specs bound c cs os l = elim (Option-cases (find_short specs c)) [
  | inl e ↦ rw (e, short_option) (option_error-Sound specs bound (unrecognized (c ∷ [])) os)
  | inr (s, e) ↦
      rw (e, short_option)
        (short_argument-Sound specs bound s s.arg_type cs os (find_short-IsIn specs c s e) refl l)
]

long_argument-Sound :
    (specs : List Spec) (bound : ℕ) (s : Spec) (t : ArgType) (end : List ℕ) (os : Stream)
    → IsIn s specs
    → s.arg_type ≡ t
    → length os.next_c + weight os.arguments < bound
    → Sound specs bound os.errors (long_argument s t end os)
unfolding long_argument remaining
long_argument-Sound specs bound s arg_none [] os m e l =
    check_arg-Sound specs bound s s.long_name none os m (rw e refl) l
long_argument-Sound specs bound s arg_none (c ∷ arg) os m e l =
    option_error-Sound specs bound (takes_no_argument s.long_name) os
long_argument-Sound specs bound s arg_req [] os m e l =
    next_argument-Sound specs bound s s.long_name none os.arguments os m (rw e tt) l
long_argument-Sound specs bound s arg_opt [] os m e l =
    next_argument-Sound specs bound s s.long_name none os.arguments os m (rw e tt) l
long_argument-Sound specs bound s arg_req (c ∷ arg) os m e l =
    check_arg-Sound specs bound s s.long_name (some arg) os m (rw e tt) l
long_argument-Sound specs bound s arg_opt (c ∷ arg) os m e l =
    check_arg-Sound specs bound s s.long_name (some arg) os m (rw e tt) l

Match-cases : (r : Match) → (r ≡ not_found) ⊎ ((r ≡ many_found) ⊎ ((s : Spec) × (r ≡ found s)))
Match-cases not_found = inl refl
Match-cases many_found = inr (inl refl)
Match-cases (found s) = inr (inr (s, refl))

long_option-Sound :
    (specs : List Spec) (bound : ℕ) (arg : List ℕ) (os : Stream)
    → length os.next_c + weight os.arguments < bound
    → Sound specs bound os.errors (long_option specs arg os)
unfolding long_option
long_option-Sound specs bound arg os l = elim (Match-cases (match_long specs (name_of arg) none)) [
  | inl e ↦ rw (e, long_option) (option_error-Sound specs bound (unrecognized (name_of arg)) os)
  | inr (inl e) ↦ rw (e, long_option) (option_error-Sound specs bound (ambiguous (name_of arg)) os)
  | inr (inr (s, e)) ↦
      rw (e, long_option)
        (long_argument-Sound specs bound s s.arg_type (end_of arg) os
          (match_long-IsIn specs (name_of arg) s e) refl l)
]

start_option-Sound :
    (specs : List Spec) (bound c d : ℕ) (cs : List ℕ) (os : Stream)
    → os.next_c ≡ []
    → length cs + weight os.arguments < bound
    → Sound specs bound os.errors (start_option specs c d cs os)
unfolding start_option the_end
start_option-Sound specs bound c d cs os n l = elim (Bool-cases (c == 45)) [
  | inr y ↦ rw (y, start_option) (the_end-Sound specs bound os.errors os)
  | inl y ↦ elim (Bool-cases (d == 45)) [
    | inr z ↦ rw (y, z, start_option) (short_option-Sound specs bound d cs os l)
    | inl z ↦ rw (y, z, start_option) (go cs l)
  ]
]
  where
    go :
        (cs : List ℕ)
        → length cs + weight os.arguments < bound
        → Sound specs bound os.errors (elim cs [
          | [] ↦ the_end specs (skip_to (elim os.arguments [ [] ↦ [] | a ∷ more ↦ more ]) os)
          | e ∷ es ↦ long_option specs (e ∷ es) os
        ])
    go [] l = inl refl
    go (e ∷ es) l = long_option-Sound specs bound (e ∷ es) os (rw n (omega arith))

from_argument-Sound :
    (specs : List Spec) (bound : ℕ) (arguments : List (List ℕ)) (os : Stream)
    → os.next_c ≡ []
    → weight arguments ≤ bound
    → Sound specs bound os.errors (from_argument specs arguments os)
unfolding from_argument skip_to the_end
from_argument-Sound specs bound [] os n l = inl refl
from_argument-Sound specs bound ([] ∷ arguments) os n l = inl refl
from_argument-Sound specs bound ((c ∷ []) ∷ arguments) os n l = inl refl
from_argument-Sound specs bound ((c ∷ d ∷ cs) ∷ arguments) os n l =
    start_option-Sound specs bound c d cs (skip_to arguments os) n (omega arith)

-- An extraction gives an option of the table with an argument that it takes, a text for one that it requires, notes
-- that it was given, and leaves less of the command line; or it comes to the end, or adds one error.
pub extract-IsSound :
    (specs : List Spec) (os : Stream)
    → IsSound specs (remaining os) os.errors (extract specs os).0 (extract specs os).1
unfolding extract remaining
extract-IsSound specs os = go os.next_c refl
  where
    go :
        (next : List ℕ)
        → os.next_c ≡ next
        → Sound specs (length next + weight os.arguments) os.errors (elim next [
          | [] ↦ from_argument specs os.arguments os
          | c ∷ cs ↦ short_option specs c cs os
        ])
    go [] e = from_argument-Sound specs (0 + weight os.arguments) os.arguments os e (omega arith)
    go (c ∷ cs) e =
        short_option-Sound specs (suc (length cs) + weight os.arguments) c cs os (omega arith)
