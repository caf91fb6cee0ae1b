-- ===== src/Stem/Tables.antt =====
-- The tables of rules of `less_stem::stem_word` in src/stem_word.cpp, without the row of ID 0 that ends
-- each of them.
use Prim.Native.String.{String}
use swishxx.Common.{ℕ, List, [], ◌∷◌, codes}
use swishxx.Stem.{Rule, Condition, null, has_vowel, add_e, remove_e}

-- The columns in the source's order, `min_stem_size` with one added.
abbrev row : ℕ → String → String → ℕ → ℕ → ℕ → Condition → Rule
row id old new old_len new_len min cond = record {
  id = id;
  old_suffix = codes old;
  new_suffix = codes new;
  old_suffix_len = old_len;
  new_suffix_len = new_len;
  min_stem_size_suc = min;
  condition = cond;
}

unfoldable pub rules_1a : List Rule
rules_1a =
    row 101 "sses" "ss" 4 2 0 null
    ∷ row 102 "ies" "i" 3 1 0 null
    ∷ row 103 "ss" "ss" 2 2 0 null
    ∷ row 104 "s" "" 1 0 0 null
    ∷ []

unfoldable pub rules_1b : List Rule
rules_1b =
    row 105 "eed" "ee" 3 2 1 null
    ∷ row 106 "ed" "" 2 0 0 has_vowel
    ∷ row 107 "ing" "" 3 0 0 has_vowel
    ∷ []

unfoldable pub rules_1b1 : List Rule
rules_1b1 =
    row 108 "at" "ate" 2 3 0 null
    ∷ row 109 "bl" "ble" 2 3 0 null
    ∷ row 110 "iz" "ize" 2 3 0 null
    ∷ row 111 "bb" "b" 2 1 0 null
    ∷ row 112 "dd" "d" 2 1 0 null
    ∷ row 113 "ff" "f" 2 1 0 null
    ∷ row 114 "gg" "g" 2 1 0 null
    ∷ row 115 "mm" "m" 2 1 0 null
    ∷ row 116 "nn" "n" 2 1 0 null
    ∷ row 117 "pp" "p" 2 1 0 null
    ∷ row 118 "rr" "r" 2 1 0 null
    ∷ row 119 "tt" "t" 2 1 0 null
    ∷ row 120 "ww" "w" 2 1 0 null
    ∷ row 121 "xx" "x" 2 1 0 null
    ∷ row 122 "" "e" 0 1 0 add_e
    ∷ []

unfoldable pub rules_1c : List Rule
rules_1c = row 123 "y" "i" 1 1 0 has_vowel ∷ []

unfoldable pub rules_2 : List Rule
rules_2 =
    row 201 "ational" "ate" 7 3 1 null
    ∷ row 202 "tional" "tion" 6 4 1 null
    ∷ row 203 "enci" "ence" 4 4 1 null
    ∷ row 204 "anci" "ance" 4 4 1 null
    ∷ row 205 "izer" "ize" 4 3 1 null
    ∷ row 206 "abli" "able" 4 4 1 null
    ∷ row 207 "alli" "al" 4 2 1 null
    ∷ row 208 "entli" "ent" 5 3 1 null
    ∷ row 209 "eli" "e" 3 1 1 null
    ∷ row 210 "ousli" "ous" 5 3 1 null
    ∷ row 211 "ization" "ize" 7 3 1 null
    ∷ row 212 "ation" "ate" 5 3 1 null
    ∷ row 213 "ator" "ate" 4 3 1 null
    ∷ row 214 "alism" "al" 5 2 1 null
    ∷ row 215 "iveness" "ive" 7 3 1 null
    ∷ row 216 "fulnes" "ful" 6 3 1 null
    ∷ row 217 "ousness" "ous" 7 3 1 null
    ∷ row 218 "aliti" "al" 5 2 1 null
    ∷ row 219 "iviti" "ive" 5 3 1 null
    ∷ row 220 "biliti" "ble" 6 3 1 null
    ∷ []

unfoldable pub rules_3 : List Rule
rules_3 =
    row 301 "icate" "ic" 5 2 1 null
    ∷ row 302 "ative" "" 5 0 1 null
    ∷ row 303 "alize" "al" 5 2 1 null
    ∷ row 304 "iciti" "ic" 5 2 1 null
    ∷ row 305 "ical" "ic" 4 2 1 null
    ∷ row 308 "ful" "" 3 0 1 null
    ∷ row 309 "ness" "" 4 0 1 null
    ∷ []

unfoldable pub rules_4 : List Rule
rules_4 =
    row 401 "al" "" 2 0 2 null
    ∷ row 402 "ance" "" 4 0 2 null
    ∷ row 403 "ence" "" 4 0 2 null
    ∷ row 405 "er" "" 2 0 2 null
    ∷ row 406 "ic" "" 2 0 2 null
    ∷ row 407 "able" "" 4 0 2 null
    ∷ row 408 "ible" "" 4 0 2 null
    ∷ row 409 "ant" "" 3 0 2 null
    ∷ row 410 "ement" "" 5 0 2 null
    ∷ row 411 "ment" "" 4 0 2 null
    ∷ row 412 "ent" "" 3 0 2 null
    ∷ row 413 "sion" "s" 4 1 2 null
    ∷ row 414 "tion" "t" 4 1 2 null
    ∷ row 415 "ou" "" 2 0 2 null
    ∷ row 416 "ism" "" 3 0 2 null
    ∷ row 417 "ate" "" 3 0 2 null
    ∷ row 418 "iti" "" 3 0 2 null
    ∷ row 419 "ous" "" 3 0 2 null
    ∷ row 420 "ive" "" 3 0 2 null
    ∷ row 421 "ize" "" 3 0 2 null
    ∷ []

unfoldable pub rules_5a : List Rule
rules_5a = row 501 "e" "" 1 0 2 null ∷ row 502 "e" "" 1 0 0 remove_e ∷ []

unfoldable pub rules_5b : List Rule
rules_5b = row 503 "ll" "l" 2 1 2 null ∷ []
