-- ===== src/OptionStream/Specs.antt =====
-- src/pjl/option_stream.h and src/pjl/option_stream.cpp: the specifications of options, the state of the stream and the
-- checks of the options given.
use swishxx.Common.{
  ℕ, Bool, true, false, not, ◌&&◌, ◌||◌, List, [], ◌∷◌, Option, none, some, ◌==◌, if◌then◌else◌,
}

pub data ArgType : Type 0 where
  arg_none arg_req arg_opt : ArgType

-- `me_short_names`: null, `arg_lone` or names.
pub data Exclusion : Type 0 where
  no_names arg_lone : Exclusion
  short_names : List ℕ → Exclusion

pub record Spec : Type 0 where
  pub long_name : List ℕ
  pub arg_type : ArgType
  pub short_name : ℕ
  pub me_short_names : Exclusion
  pub req_short_names : List ℕ

pub data Error : Type 0 where
  ambiguous unrecognized takes_no_argument requires_argument : List ℕ → Error
  mutually_exclusive : ℕ → ℕ → Error
  requires_option : ℕ → Error

-- `opts_given` has the short names whose flag is set; `failbit` is set just when there is an error.
pub record Stream : Type 0 where
  pub argi : ℕ
  pub arguments : List (List ℕ)
  pub next_c : List ℕ
  pub opts_given : List ℕ
  pub eof : Bool
  pub errors : List Error

-- The option: its short name and its argument; `none` if there was no option.
abbrev pub Extracted : Type 0
Extracted = Option (ℕ × Option (List ℕ)) × Stream

-- The constructor.
unfoldable pub initial : List (List ℕ) → Stream
initial arguments = record {
  argi = 0;
  arguments = arguments;
  next_c = [];
  opts_given = [];
  eof = false;
  errors = [];
}

abbrev pub gave_option : List ℕ → ℕ → Bool
gave_option [] c = false
gave_option (g ∷ given) c = g == c || gave_option given c

abbrev pub first_given : List ℕ → List ℕ → Option ℕ
first_given given [] = none
first_given given (c ∷ cs) =
    let rest = first_given given cs in if gave_option given c then some c else rest

abbrev pub other_given : List ℕ → ℕ → List Spec → Option ℕ
other_given given c [] = none
other_given given c (s ∷ specs) =
    let rest = other_given given c specs in
    if not (s.short_name == c) && gave_option given s.short_name then some s.short_name else rest

-- An option given that excludes `opt`, which was given.
abbrev pub bad_opt : List Spec → List ℕ → ℕ → Exclusion → Option ℕ
bad_opt all given c no_names = none
bad_opt all given c arg_lone = other_given given c all
bad_opt all given c (short_names cs) = first_given given cs

unfoldable pub check_mutually_exclusive : List Spec → List Spec → List ℕ → Option Error
check_mutually_exclusive all [] given = none
check_mutually_exclusive all (s ∷ specs) given =
    let rest = check_mutually_exclusive all specs given in
    if gave_option given s.short_name
    then (elim (bad_opt all given s.short_name s.me_short_names) [
      | none ↦ rest
      | some bad ↦ some (mutually_exclusive s.short_name bad)
    ])
    else rest

abbrev pub is_empty : List ℕ → Bool
is_empty [] = true
is_empty (c ∷ cs) = false

abbrev pub is_given : Option ℕ → Bool
is_given none = false
is_given (some c) = true

-- The function returns at the first option whose required option is given.
unfoldable pub check_required : List Spec → List ℕ → List Error
check_required [] given = []
check_required (s ∷ specs) given =
    let rest = check_required specs given in
    if gave_option given s.short_name && not (is_empty s.req_short_names)
    then (if is_given (first_given given s.req_short_names)
        then []
        else requires_option s.short_name ∷ rest)
    else rest

-- `the_end`, and an error.
abbrev pub checks : List Spec → List ℕ → List Error
checks specs given = elim (check_mutually_exclusive specs specs given) [
  | none ↦ check_required specs given
  | some e ↦ e ∷ []
]
