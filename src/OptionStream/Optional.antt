-- ===== src/OptionStream/Optional.antt =====
-- An optional argument that is not given.
use swishxx.Common.{ℕ, suc, ◌≡◌, refl, ap, ◌∙◌, true, false, List, [], ◌∷◌, none, some, ◌==◌}
use swishxx.OptionStream.Specs.{arg_opt, Spec, Stream}
use swishxx.OptionStream.{
  check_arg, skip_to, set_next_c, looks_like_option, next_argument, find_short, short_argument,
  short_option, start_option, from_argument, extract,
}
use swishxx.OptionStream.RoundTrip.{from_here}

-- The stream behind two arguments.
abbrev behind_two : Spec → List (List ℕ) → Stream → Stream
behind_two s more os = record {
  argi = suc (suc os.argi);
  arguments = more;
  next_c = [];
  opts_given = s.short_name ∷ os.opts_given;
  eof = os.eof;
  errors = os.errors;
}

optional :
    (s : Spec) (a : List ℕ) (more : List (List ℕ)) (os : Stream)
    → s.arg_type ≡ arg_opt
    → looks_like_option a ≡ true
    → short_argument s arg_opt [] (skip_to (a ∷ more) os)
      ≡ (some (s.short_name, none), behind_two s more os)
unfolding short_argument next_argument check_arg skip_to set_next_c
optional s a more os e h = rw (h, check_arg) (rw (e, check_arg) refl)

-- A short option that may take an argument, with an argument behind it that looks like an option, takes none; but
-- the stream goes on behind that argument, so the option in it is never read.
pub extract_skips :
    (specs : List Spec) (s : Spec) (c : ℕ) (a : List ℕ) (more : List (List ℕ)) (os : Stream)
    → os.next_c ≡ []
    → os.arguments ≡ (45 ∷ c ∷ []) ∷ a ∷ more
    → (c == 45) ≡ false
    → find_short specs c ≡ some s
    → s.arg_type ≡ arg_opt
    → looks_like_option a ≡ true
    → extract specs os ≡ (
      some (s.short_name, none),
      record {
        argi = suc (suc os.argi);
        arguments = more;
        next_c = [];
        opts_given = s.short_name ∷ os.opts_given;
        eof = os.eof;
        errors = os.errors;
      },
    )
unfolding from_argument start_option short_option
extract_skips specs s c a more os n args d f t h =
    from_here specs os ((45 ∷ c ∷ []) ∷ a ∷ more) _ n args (
      rw (d, start_option)
        (rw (f, short_option)
          (ap (λ x. short_argument s x [] (skip_to (a ∷ more) os)) t ∙ optional s a more os t h)))
