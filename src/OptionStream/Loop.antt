-- ===== src/OptionStream/Loop.antt =====
-- The loop `while ( opt_in >> opt )` over a command line, as in src/search.cpp.
use swishxx.Common.{
  ℕ, zero, suc, ◌<◌, ◌≡◌, refl, arith, Bool, true, false, not, ◌&&◌, List, [], ◌∷◌, ◌++◌, Option,
  none, some, if◌then◌else◌, Bool-cases, inl, inr, All, and_false,
}
use swishxx.OptionStream.Specs.{Spec, Error, Stream}
use swishxx.OptionStream.{extract}
use swishxx.OptionStream.Sound.{remaining, IsOption, IsSound, extract-IsSound}

abbrev pub no_errors : List Error → Bool
no_errors [] = true
no_errors (e ∷ es) = false

-- `good`, the stream's test.
abbrev pub good : Stream → Bool
good os = not os.eof && no_errors os.errors

abbrev pub Read : Type 0
Read = List (ℕ × Option (List ℕ)) × Stream

-- The option in the loop's body.
abbrev pub the_option : Option (ℕ × Option (List ℕ)) → ℕ × Option (List ℕ)
the_option none = (0, none)
the_option (some o) = o

abbrev one_more : Option (ℕ × Option (List ℕ)) → Option Read → Option Read
one_more o none = none
one_more o (some r) = some (the_option o ∷ r.0, r.1)

-- The options that the body gets, and the stream behind the loop; `none` if the fuel ends.
unfoldable pub read_options : ℕ → List Spec → Stream → Option Read
read_options zero specs os = none
read_options (suc fuel) specs os =
    let r = extract specs os in
    let rest = read_options fuel specs r.1 in if good r.1 then one_more r.0 rest else some ([], r.1)

-- All the options fit the table, and the loop ended at the end of the options or at an error.
abbrev pub IsFinished : List Spec → Option Read → Type 0
IsFinished specs none = ⊥
IsFinished specs (some r) = All (λ o. IsOption specs o.0 o.1) r.0 × (good r.1 ≡ false)

no_errors-append : (es : List Error) (e : Error) → no_errors (es ++ (e ∷ [])) ≡ false
no_errors-append [] e = refl
no_errors-append (f ∷ es) e = refl

-- Without an option the stream is not good.
not_good :
    (specs : List Spec) (bound : ℕ) (errors : List Error) (os : Stream)
    → IsSound specs bound errors none os
    → good os ≡ false
not_good specs bound errors os (inl e) = rw e refl
not_good specs bound errors os (inr (e, h)) = rw (h, no_errors-append errors e) (and_false _)

one_more-IsFinished :
    (specs : List Spec) (c : ℕ) (arg : Option (List ℕ)) (rest : Option Read)
    → IsOption specs c arg
    → IsFinished specs rest
    → IsFinished specs (one_more (some (c, arg)) rest)
one_more-IsFinished specs c arg none h f = elim f [ ]
one_more-IsFinished specs c arg (some r) h f = ((h, f.0), f.1)

round :
    (fuel : ℕ) (specs : List Spec) (bound : ℕ) (errors : List Error)
    (o : Option (ℕ × Option (List ℕ))) (os : Stream)
    → IsSound specs bound errors o os
    → (remaining os < bound → IsFinished specs (read_options fuel specs os))
    → IsFinished specs (if good os then one_more o (read_options fuel specs os) else some ([], os))
round fuel specs bound errors none os h k =
    rw (not_good specs bound errors os h) (tt, not_good specs bound errors os h)
round fuel specs bound errors (some (c, arg)) os (h, (_, (_, l))) k = elim (Bool-cases (good os)) [
  | inl y ↦ rw y (one_more-IsFinished specs c arg _ h (k l))
  | inr n ↦ rw n (tt, n)
]

-- The loop over a command line ends: with a round for each character and argument that is left, and one more, it
-- has read options of the table, with the arguments that they take, and is at the end or at an error.
pub read_options-IsFinished :
    (fuel : ℕ) (specs : List Spec) (os : Stream)
    → remaining os < fuel
    → IsFinished specs (read_options fuel specs os)
unfolding read_options
read_options-IsFinished zero specs os l = absurd (omega arith)
read_options-IsFinished (suc fuel) specs os l =
    round fuel specs (remaining os) os.errors (extract specs os).0 (extract specs os).1
      (extract-IsSound specs os)
      (λ m. read_options-IsFinished fuel specs (extract specs os).1 (omega arith))
