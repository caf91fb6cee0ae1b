-- ===== src/OptionStream.antt =====
-- src/pjl/option_stream.h and src/pjl/option_stream.cpp: the stream of a command line's options. A null pointer is
-- `none`, `next_c_` is the rest of its group, empty if it is null. The arguments are those behind
-- `argv_[argi_]`, so that `++argi_` drops one; messages are kept as values, without the text around the names.
pub mod Specs
pub mod Checks
pub mod Lookup
pub mod Origin
pub mod Sound
pub mod Loop
pub mod Optional
pub mod RoundTrip
use swishxx.Common.{
  ℕ, zero, suc, ◌+◌, Bool, true, false, not, ◌&&◌, ◌||◌, List, [], ◌∷◌, ◌++◌, Option, none, some,
  ◌==◌, if◌then◌else◌, length,
}
use Specs.{
  ArgType, arg_none, arg_req, arg_opt, Spec, Error, ambiguous, unrecognized, takes_no_argument,
  requires_argument, Stream, Extracted, is_empty, checks, check_mutually_exclusive, check_required,
}

unfoldable pub the_end : List Spec → Stream → Extracted
unfolding check_mutually_exclusive check_required
the_end specs os = (
  none,
  record {
    argi = os.argi;
    arguments = os.arguments;
    next_c = os.next_c;
    opts_given = os.opts_given;
    eof = true;
    errors = elim os.errors [ [] ↦ checks specs os.opts_given | e ∷ es ↦ e ∷ es ];
  },
)

unfoldable pub option_error : Error → Stream → Extracted
option_error e os = (
  none,
  record {
    argi = os.argi;
    arguments = os.arguments;
    next_c = os.next_c;
    opts_given = os.opts_given;
    eof = os.eof;
    errors = os.errors ++ (e ∷ []);
  },
)

abbrev pub has_text : Option (List ℕ) → Bool
has_text none = false
has_text (some cs) = not (is_empty cs)

abbrev pub is_required : ArgType → Bool
is_required arg_req = true
is_required _ = false

-- `check_arg`; `name` is the name that the option was given by.
unfoldable pub check_arg : Spec → List ℕ → Option (List ℕ) → Stream → Extracted
unfolding option_error
check_arg s name arg os =
    if has_text arg || not (is_required s.arg_type)
    then (
      some (s.short_name, arg),
      record {
        argi = os.argi;
        arguments = os.arguments;
        next_c = os.next_c;
        opts_given = s.short_name ∷ os.opts_given;
        eof = os.eof;
        errors = os.errors;
      },
    )
    else option_error (requires_argument name) os

-- `++os.argi_`, and the same with another `next_c_`.
unfoldable pub skip_to : List (List ℕ) → Stream → Stream
skip_to arguments os = record {
  argi = suc os.argi;
  arguments = arguments;
  next_c = os.next_c;
  opts_given = os.opts_given;
  eof = os.eof;
  errors = os.errors;
}

unfoldable pub set_next_c : List ℕ → Stream → Stream
set_next_c cs os = record {
  argi = os.argi;
  arguments = os.arguments;
  next_c = cs;
  opts_given = os.opts_given;
  eof = os.eof;
  errors = os.errors;
}

abbrev pub looks_like_option : List ℕ → Bool
looks_like_option [] = false
looks_like_option (c ∷ cs) = c == 45

-- `next`: the argument is in the next `argv_`, if there is one and it does not look like an option.
unfoldable pub next_argument : Spec → List ℕ → Option (List ℕ) → List (List ℕ) → Stream → Extracted
unfolding check_arg skip_to
next_argument s name arg [] os = check_arg s name arg (skip_to [] os)
next_argument s name arg (a ∷ arguments) os =
    check_arg s name (if looks_like_option a then none else some a) (skip_to arguments os)

abbrev pub find_short : List Spec → ℕ → Option Spec
find_short [] c = none
find_short (s ∷ specs) c =
    let rest = find_short specs c in if c == s.short_name then some s else rest

-- The argument of a short option: `cs` is what follows in the same `argv_`.
unfoldable pub short_argument : Spec → ArgType → List ℕ → Stream → Extracted
unfolding check_arg next_argument set_next_c
short_argument s arg_none cs os = check_arg s (s.short_name ∷ []) none (set_next_c cs os)
short_argument s _ [] os =
    next_argument s (s.short_name ∷ []) (some []) os.arguments (set_next_c [] os)
short_argument s _ (c ∷ cs) os = check_arg s (s.short_name ∷ []) (some (c ∷ cs)) (set_next_c [] os)

unfoldable pub short_option : List Spec → ℕ → List ℕ → Stream → Extracted
unfolding short_argument option_error
short_option specs c cs os = elim (find_short specs c) [
  | none ↦ option_error (unrecognized (c ∷ [])) os
  | some s ↦ short_argument s s.arg_type cs os
]

-- `strncmp` over the length of the name.
abbrev pub is_prefix : List ℕ → List ℕ → Bool
is_prefix [] ds = true
is_prefix (c ∷ cs) [] = false
is_prefix (c ∷ cs) (d ∷ ds) = c == d && is_prefix cs ds

-- The loop over the specifications, for a long option.
pub data Match : Type 0 where
  not_found many_found : Match
  found : Spec → Match

unfoldable pub match_long : List Spec → List ℕ → Option Spec → Match
match_long [] name none = not_found
match_long [] name (some s) = found s
match_long (s ∷ specs) name partial =
    let others = match_long specs name partial in
    let first = match_long specs name (some s) in
    if not (is_prefix name s.long_name)
    then others
    else if length s.long_name == length name
    then found s
    else (elim partial [ none ↦ first | some t ↦ many_found ])

-- The name up to the end or the first "=", and what is there.
abbrev pub name_of : List ℕ → List ℕ
name_of [] = []
name_of (c ∷ cs) = let rest = name_of cs in if c == 61 then [] else c ∷ rest

abbrev pub end_of : List ℕ → List ℕ
end_of [] = []
end_of (c ∷ cs) = let rest = end_of cs in if c == 61 then c ∷ cs else rest

-- The argument of a long option; `end` is empty, or starts with "=".
unfoldable pub long_argument : Spec → ArgType → List ℕ → Stream → Extracted
unfolding check_arg next_argument option_error
long_argument s arg_none [] os = check_arg s s.long_name none os
long_argument s arg_none (e ∷ arg) os = option_error (takes_no_argument s.long_name) os
long_argument s _ [] os = next_argument s s.long_name none os.arguments os
long_argument s _ (e ∷ arg) os = check_arg s s.long_name (some arg) os

unfoldable pub long_option : List Spec → List ℕ → Stream → Extracted
unfolding match_long long_argument option_error
long_option specs arg os = elim (match_long specs (name_of arg) none) [
  | many_found ↦ option_error (ambiguous (name_of arg)) os
  | not_found ↦ option_error (unrecognized (name_of arg)) os
  | found s ↦ long_argument s s.arg_type (end_of arg) os
]

-- The next `argv_`: its first two characters say what it is.
unfoldable pub start_option : List Spec → ℕ → ℕ → List ℕ → Stream → Extracted
unfolding the_end short_option long_option skip_to
start_option specs c d cs os =
    if not (c == 45)
    then the_end specs os
    else if not (d == 45)
    then short_option specs d cs os
    else (elim cs [
      | [] ↦ the_end specs (skip_to (elim os.arguments [ [] ↦ [] | a ∷ more ↦ more ]) os)
      | e ∷ es ↦ long_option specs (e ∷ es) os
    ])

unfoldable pub from_argument : List Spec → List (List ℕ) → Stream → Extracted
unfolding start_option the_end skip_to
from_argument specs [] os = the_end specs (skip_to [] os)
from_argument specs ([] ∷ arguments) os = the_end specs (skip_to arguments os)
from_argument specs ((c ∷ []) ∷ arguments) os = the_end specs (skip_to arguments os)
from_argument specs ((c ∷ d ∷ cs) ∷ arguments) os = start_option specs c d cs (skip_to arguments os)

-- `operator>>`
unfoldable pub extract : List Spec → Stream → Extracted
unfolding from_argument short_option
extract specs os = elim os.next_c [
  | [] ↦ from_argument specs os.arguments os
  | c ∷ cs ↦ short_option specs c cs os
]
