-- ===== src/Tests/OptionStream.antt =====
-- The stream of options, run and applied.
use swishxx.Common.{
  ℕ, ◌≡◌, ◌↔◌, refl, arith, ◌<◌, List, [], ◌∷◌, ◌++◌, none, some, true, codes, All, map,
}
use swishxx.OptionStream.Specs.{
  Spec, arg_none, arg_opt, arg_req, no_names, arg_lone, short_names, Stream, initial,
  check_mutually_exclusive,
}
use swishxx.OptionStream.{extract, match_long, many_found}
use swishxx.OptionStream.Lookup.{candidates, choice, match_long-candidates}
use swishxx.OptionStream.Checks.{Respects, check_mutually_exclusive_iff}
use swishxx.OptionStream.Sound.{remaining, IsSound, extract-IsSound}
use swishxx.OptionStream.Loop.{read_options, IsFinished, read_options-IsFinished}
use swishxx.OptionStream.RoundTrip.{Item, short, long, print, read_options-print}

abbrev help : Spec
help = record {
  long_name = codes "help";
  arg_type = arg_none;
  short_name = b'h';
  me_short_names = arg_lone;
  req_short_names = [];
}

abbrev verbose : Spec
verbose = record {
  long_name = codes "verbose";
  arg_type = arg_opt;
  short_name = b'v';
  me_short_names = no_names;
  req_short_names = b'f' ∷ [];
}

abbrev file : Spec
file = record {
  long_name = codes "file";
  arg_type = arg_req;
  short_name = b'f';
  me_short_names = short_names (b'h' ∷ []);
  req_short_names = [];
}

abbrev table : List Spec
table = help ∷ verbose ∷ file ∷ []

-- Two names that start with a third one hide it.
third_is_ambiguous :
    match_long
      (record file { long_name = codes "filename" }
        ∷ record file { long_name = codes "files" }
        ∷ file
        ∷ [])
      (codes "file")
      none
    ≡ many_found
unfolding match_long
third_is_ambiguous = refl

match_long-candidates_example :
    match_long table (codes "ver") none ≡ choice (codes "ver") (candidates (codes "ver") table)
match_long-candidates_example = match_long-candidates table (codes "ver")

check_mutually_exclusive_iff_example :
    (check_mutually_exclusive table table (b'f' ∷ b'h' ∷ []) ≡ none)
    ↔ All (Respects table (b'f' ∷ b'h' ∷ [])) table
check_mutually_exclusive_iff_example = check_mutually_exclusive_iff table table (b'f' ∷ b'h' ∷ [])

abbrev line : List (List ℕ)
line = codes "--file=x" ∷ codes "-v" ∷ codes "-h" ∷ []

extract-IsSound_example :
    IsSound table
      (remaining (initial line))
      []
      (extract table (initial line)).0
      (extract table (initial line)).1
unfolding initial
extract-IsSound_example = extract-IsSound table (initial line)

read_options-IsFinished_example : IsFinished table (read_options 100 table (initial line))
unfolding remaining initial
read_options-IsFinished_example = read_options-IsFinished 100 table (initial line) few
  where
    few : remaining (initial line) < 100
    few = omega arith

abbrev given : List Item
given =
    record { form = long; spec = file; arg = some (codes "x") }
    ∷ record { form = short; spec = verbose; arg = some (codes "2") }
    ∷ []

read_options-print_example :
    (os : Stream) × ((read_options 3 table (initial (map print given ++ (codes "operand" ∷ [])))
        ≡ some (map (λ i. (i.spec.short_name, i.arg)) given, os))
      × ((os.argi ≡ 3) × (os.eof ≡ true)))
unfolding match_long
read_options-print_example =
    read_options-print 3 table given (codes "operand" ∷ [])
      (((refl, (refl, omega arith)), tt), (((refl, refl), tt), tt)) refl (omega arith)
