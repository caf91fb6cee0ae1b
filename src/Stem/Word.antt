-- ===== src/Stem/Word.antt =====
-- `less_stem::no_stem` and `less_stem::stem_word` of src/stem_word.cpp, with no cache: a stem that is found
-- there was computed from the same word. `word_buf` has Word_Hard_Max_Size bytes, of src/swishxx-config.h.
use swishxx.Common.{
  ℕ, Bool, true, ◌&&◌, ◌||◌, List, [], ◌∷◌, Option, none, some, ltb, ◌==◌, if◌then◌else◌, within,
  length,
}
use swishxx.Stem.{Buffer, try_rule, replace_suffix}
use swishxx.Stem.Tables.{
  rules_1a, rules_1b, rules_1b1, rules_1c, rules_2, rules_3, rules_4, rules_5a, rules_5b,
}

unfoldable pub no_stem : List ℕ → List ℕ
no_stem word = word

-- `strspn( word, "abcdefghijklmnopqrstuvwxyz" ) < len`, negated.
unfoldable pub all_alphabetic : List ℕ → Bool
all_alphabetic [] = true
all_alphabetic (c ∷ cs) = within b'a' b'z' c && all_alphabetic cs

abbrev pub start : List ℕ → Buffer
start word = record { word = word; word_end = length word }

-- Step 1b, and step 1b1 behind two of its rules.
unfoldable pub step_1b : Buffer → Buffer
unfolding replace_suffix try_rule rules_1b rules_1b1
step_1b b =
    let (rule, b') = replace_suffix b rules_1b in
    if rule == 106 || rule == 107 then (replace_suffix b' rules_1b1).1 else b'

unfoldable pub steps : Buffer → Buffer
unfolding replace_suffix try_rule rules_1a step_1b rules_1c rules_2 rules_3 rules_4 rules_5a
    rules_5b
steps b =
    let b = (replace_suffix b rules_1a).1 in
    let b = step_1b b in
    let b = (replace_suffix b rules_1c).1 in
    let b = (replace_suffix b rules_2).1 in
    let b = (replace_suffix b rules_3).1 in
    let b = (replace_suffix b rules_4).1 in
    let b = (replace_suffix b rules_5a).1 in (replace_suffix b rules_5b).1

abbrev pub word_hard_max_size : ℕ
word_hard_max_size = 25

-- `none` if `strcpy` writes behind the end of `word_buf`, which is not defined.
unfoldable pub stem_word : List ℕ → Option (List ℕ)
unfolding all_alphabetic steps
stem_word word =
    if all_alphabetic word
    then (if ltb (length word) word_hard_max_size then some (steps (start word)).word else none)
    else some word
