-- ===== src/OptionStream/RoundTrip.antt =====
-- Options written to a command line, and read back.
use swishxx.Common.{
  ℕ, zero, suc, ◌+◌, ◌<◌, ◌≡◌, refl, ap, ◌∙◌, arith, Bool, true, false, not, ◌&&◌, List, [], ◌∷◌,
  ◌++◌, Option, none, some, ◌==◌, Bool-cases, inl, inr, length, map, All,
}
use mathlib.Core.Path.{subst}
use swishxx.OptionStream.Specs.{
  ArgType, arg_none, arg_req, arg_opt, Spec, Stream, Extracted, initial,
}
use swishxx.OptionStream.{
  the_end, check_arg, skip_to, set_next_c, looks_like_option, find_short, short_argument,
  short_option, match_long, found, name_of, end_of, long_argument, long_option, start_option,
  from_argument, extract,
}
use swishxx.OptionStream.Loop.{Read, good, read_options}

pub data Form : Type 0 where
  short long : Form

-- An option to be written: by which name, and with which argument.
pub record Item : Type 0 where
  pub form : Form
  pub spec : Spec
  pub arg : Option (List ℕ)

abbrev text_of : Option (List ℕ) → List ℕ
text_of none = []
text_of (some cs) = cs

abbrev after_name : Option (List ℕ) → List ℕ
after_name none = []
after_name (some cs) = 61 ∷ cs

abbrev print_as : Form → Spec → Option (List ℕ) → List ℕ
print_as short s arg = 45 ∷ s.short_name ∷ text_of arg
print_as long s arg = 45 ∷ 45 ∷ (s.long_name ++ after_name arg)

-- `-carg` or `--name=arg`, in one argument.
abbrev pub print : Item → List ℕ
print item = print_as item.form item.spec item.arg

-- A text for an option that takes an argument, and none for one that does not.
abbrev pub IsComplete : ArgType → Option (List ℕ) → Type 0
IsComplete arg_none none = Unit
IsComplete arg_none (some cs) = ⊥
IsComplete _ none = ⊥
IsComplete _ (some []) = ⊥
IsComplete _ (some (c ∷ cs)) = Unit

abbrev pub has_no_equals : List ℕ → Bool
has_no_equals [] = true
has_no_equals (c ∷ cs) = not (c == 61) && has_no_equals cs

abbrev pub IsKnown : List Spec → Form → Spec → Type 0
IsKnown specs short s = (find_short specs s.short_name ≡ some s) × ((s.short_name == 45) ≡ false)
IsKnown specs long s =
    (match_long specs s.long_name none ≡ found s)
    × ((has_no_equals s.long_name ≡ true) × (0 < length s.long_name))

-- The name that is used stands for the option, and the argument is complete.
abbrev pub IsWritable : List Spec → Item → Type 0
IsWritable specs item = IsKnown specs item.form item.spec × IsComplete item.spec.arg_type item.arg

abbrev given_of : Item → ℕ × Option (List ℕ)
given_of item = (item.spec.short_name, item.arg)

-- The stream behind an option.
abbrev after : Spec → List (List ℕ) → Stream → Stream
after s more os = record {
  argi = suc os.argi;
  arguments = more;
  next_c = [];
  opts_given = s.short_name ∷ os.opts_given;
  eof = os.eof;
  errors = os.errors;
}

name_of-append :
    (name : List ℕ) (arg : Option (List ℕ))
    → has_no_equals name ≡ true
    → (name_of (name ++ after_name arg) ≡ name) × (end_of (name ++ after_name arg) ≡ after_name arg)
name_of-append [] none h = (refl, refl)
name_of-append [] (some cs) h = (refl, refl)
name_of-append (c ∷ name) arg h = elim (Bool-cases (c == 61)) [
  | inl y ↦ absurd (ground arith)
  | inr n ↦
      let more : has_no_equals name ≡ true = ground arith in
      let rest = name_of-append name arg more in rw n (rw (rest.0, rest.1) (refl, refl))
]

short_step :
    (s : Spec) (t : ArgType) (arg : Option (List ℕ)) (more : List (List ℕ)) (os : Stream)
    → s.arg_type ≡ t
    → IsComplete t arg
    → short_argument s t (text_of arg) (skip_to more os)
      ≡ (some (s.short_name, arg), after s more os)
unfolding short_argument check_arg skip_to set_next_c
short_step s arg_none none more os e h = rw (e, check_arg) refl
short_step s arg_none (some cs) more os e h = elim h [ ]
short_step s arg_req none more os e h = elim h [ ]
short_step s arg_req (some []) more os e h = elim h [ ]
short_step s arg_req (some (c ∷ cs)) more os e h = refl
short_step s arg_opt none more os e h = elim h [ ]
short_step s arg_opt (some []) more os e h = elim h [ ]
short_step s arg_opt (some (c ∷ cs)) more os e h = refl

long_step :
    (s : Spec) (t : ArgType) (arg : Option (List ℕ)) (more : List (List ℕ)) (os : Stream)
    → os.next_c ≡ []
    → s.arg_type ≡ t
    → IsComplete t arg
    → long_argument s t (after_name arg) (skip_to more os)
      ≡ (some (s.short_name, arg), after s more os)
unfolding long_argument check_arg skip_to
long_step s arg_none none more os n e h = rw (e, check_arg) (rw n refl)
long_step s arg_none (some cs) more os n e h = elim h [ ]
long_step s arg_req none more os n e h = elim h [ ]
long_step s arg_req (some []) more os n e h = elim h [ ]
long_step s arg_req (some (c ∷ cs)) more os n e h = rw n refl
long_step s arg_opt none more os n e h = elim h [ ]
long_step s arg_opt (some []) more os n e h = elim h [ ]
long_step s arg_opt (some (c ∷ cs)) more os n e h = rw n refl

step :
    (specs : List Spec) (form : Form) (s : Spec) (arg : Option (List ℕ)) (more : List (List ℕ))
    (os : Stream)
    → os.next_c ≡ []
    → IsKnown specs form s
    → IsComplete s.arg_type arg
    → from_argument specs (print_as form s arg ∷ more) os
      ≡ (some (s.short_name, arg), after s more os)
unfolding from_argument start_option short_option long_option
step specs short s arg more os n (f, d) h =
    rw (d, start_option) (rw (f, short_option) (short_step s s.arg_type arg more os refl h))
step specs long s arg more os n (f, (d, l)) h = go s.long_name refl
  where
    go :
        (name : List ℕ)
        → s.long_name ≡ name
        → from_argument specs ((45 ∷ 45 ∷ (name ++ after_name arg)) ∷ more) os
          ≡ (some (s.short_name, arg), after s more os)
    go [] e = let none_left : length s.long_name ≡ 0 = rw e refl in absurd (omega arith)
    go (c ∷ name) e =
        let cut = name_of-append (c ∷ name) arg (subst (λ x. has_no_equals x ≡ true) e d) in
        let known : match_long specs (c ∷ name) none ≡ found s =
          subst (λ x. match_long specs x none ≡ found s) e f in
        rw (cut.0, long_option)
          (rw (known, long_option) (rw cut.1 (long_step s s.arg_type arg more os n refl h)))

-- What follows the options does not look like one.
abbrev pub AreOperands : List (List ℕ) → Type 0
AreOperands [] = Unit
AreOperands (a ∷ operands) = looks_like_option a ≡ false

from_operands :
    (specs : List Spec) (operands : List (List ℕ)) (os : Stream)
    → AreOperands operands
    → (os' : Stream) × ((from_argument specs operands os ≡ (none, os'))
        × ((os'.argi ≡ suc os.argi) × (os'.eof ≡ true)))
unfolding from_argument start_option the_end skip_to
from_operands specs [] os h = (_, (refl, (refl, refl)))
from_operands specs ([] ∷ operands) os h = (_, (refl, (refl, refl)))
from_operands specs ((c ∷ []) ∷ operands) os h = (_, (refl, (refl, refl)))
from_operands specs ((c ∷ d ∷ cs) ∷ operands) os h =
    ((the_end specs (skip_to operands os)).1, (rw (h, start_option) refl, (refl, refl)))

-- What the loop gives for a command line.
abbrev ReadBack : Option Read → List Item → ℕ → Type 0
ReadBack r items argi =
    (os' : Stream) × ((r ≡ some (map given_of items, os')) × ((os'.argi ≡ argi) × (os'.eof ≡ true)))

read_last :
    (fuel : ℕ) (specs : List Spec) (os os' : Stream)
    → extract specs os ≡ (none, os')
    → os'.eof ≡ true
    → read_options (suc fuel) specs os ≡ some ([], os')
unfolding read_options
read_last fuel specs os os' e q = rw e (rw q refl)

read_next :
    (fuel : ℕ) (specs : List Spec) (os os' : Stream) (o : ℕ × Option (List ℕ)) (r : Read)
    → extract specs os ≡ (some o, os')
    → good os' ≡ true
    → read_options fuel specs os' ≡ some r
    → read_options (suc fuel) specs os ≡ some (o ∷ r.0, r.1)
unfolding read_options
read_next fuel specs os os' o r e g h = rw e (rw (g, h) refl)

pub from_here :
    (specs : List Spec) (os : Stream) (arguments : List (List ℕ)) (r : Extracted)
    → os.next_c ≡ []
    → os.arguments ≡ arguments
    → from_argument specs arguments os ≡ r
    → extract specs os ≡ r
unfolding extract
from_here specs os arguments r n a h = go os.next_c n ∙ (ap (λ x. from_argument specs x os) a ∙ h)
  where
    go :
        (next : List ℕ)
        → next ≡ []
        → (elim next [
          | [] ↦ from_argument specs os.arguments os
          | c ∷ cs ↦ short_option specs c cs os
        ])
          ≡ from_argument specs os.arguments os
    go [] e = refl
    go (c ∷ cs) e = absurd (cc (e))

read_back :
    (fuel : ℕ) (specs : List Spec) (items : List Item) (operands : List (List ℕ)) (os : Stream)
    → os.next_c ≡ []
    → good os ≡ true
    → os.arguments ≡ map print items ++ operands
    → All (IsWritable specs) items
    → AreOperands operands
    → length items < fuel
    → ReadBack (read_options fuel specs os) items (suc (length items) + os.argi)
read_back zero specs items operands os n g a w o l = absurd (omega arith)
read_back (suc fuel) specs [] operands os n g a w o l =
    let (os', (e, (p, q))) = from_operands specs operands os o in
    let read = from_here specs os operands (none, os') n a e in
    (os', (read_last fuel specs os os' read q, (p ∙ omega arith, q)))
read_back (suc fuel) specs (item ∷ items) operands os n g a (w, ws) o l =
    let more = map print items ++ operands in
    let e = step specs item.form item.spec item.arg more os n w.0 w.1 in
    let read = from_here specs os (print item ∷ more) _ n a e in
    let (os', (rest, (p, q))) =
      read_back fuel specs items operands (after item.spec more os) refl g refl ws o
        (omega arith) in
    (
      os',
      (
        read_next fuel specs os (after item.spec more os) (given_of item) (map given_of items, os')
            read g rest,
        (p ∙ omega arith, q),
      ),
    )

-- Options of the table that are written to a command line, each with the argument that it takes, by a name that
-- stands for it, with operands behind that do not look like options, are read back, in order; `argi` is then the
-- place of the first operand.
pub read_options-print :
    (fuel : ℕ) (specs : List Spec) (items : List Item) (operands : List (List ℕ))
    → All (IsWritable specs) items
    → AreOperands operands
    → length items < fuel
    → (os' : Stream) × ((read_options fuel specs (initial (map print items ++ operands))
          ≡ some (map given_of items, os'))
        × ((os'.argi ≡ suc (length items)) × (os'.eof ≡ true)))
unfolding initial
read_options-print fuel specs items operands w o l =
    let (os', (e, (p, q))) =
      read_back fuel specs items operands (initial (map print items ++ operands)) refl refl refl w o
        l in
    (os', (e, (p ∙ omega arith, q)))
