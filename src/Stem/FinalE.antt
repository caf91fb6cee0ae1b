-- ===== src/Stem/FinalE.antt =====
-- Rules 501 and 502, which take a final e off. The condition of 502, `remove_e`, is meant to keep the e
-- behind a consonant, a vowel and a consonant; it is asked while `word_end` still counts the e.
use swishxx.Common.{
  ℕ, suc, ◌+◌, ◌-◌, ◌≡◌, arith, ◌∙◌, ◌&&◌, leb, ltb, if◌then◌else◌, append-nil, true, false, List,
  [], ◌∷◌, ◌++◌, none, some, length, length-append, take-length, drop-length, get_or-append_left,
  get_or-append_length,
}
use swishxx.Stem.Replace.{replace_suffix-none, replace_suffix-some}
use swishxx.Stem.{
  Rule, Condition, null, remove_e, word_size, ends_with_cvc, holds, try_rule, replace_suffix,
  list_eq,
}
use swishxx.Stem.Tables.{rules_5a}
use swishxx.Stem.Word.{start}

-- With a null for its last byte the chopped word does not end as `ends_with_cvc` asks, if the stem does.
chopped_e :
    (s : List ℕ)
    → ends_with_cvc s (length s) ≡ true
    → ends_with_cvc (s ++ (0 ∷ [])) (suc (length s)) ≡ false
unfolding ends_with_cvc
chopped_e s h =
    ground (arith, get_or-append_length s [] 0 0, get_or-append_left s (0 ∷ []) (length s - 1) 0)

abbrev rule_e : ℕ → ℕ → Condition → Rule
rule_e id min cond = record {
  id = id;
  old_suffix = b'e' ∷ [];
  new_suffix = [];
  old_suffix_len = 1;
  new_suffix_len = 0;
  min_stem_size_suc = min;
  condition = cond;
}

-- A rule that takes an e off, on a word that ends in one.
try_rule_e :
    (s : List ℕ) (id min : ℕ) (cond : Condition)
    → try_rule (start (s ++ (b'e' ∷ []))) (rule_e id min cond) ≡ (
        if leb min (word_size s) && holds cond (start (s ++ (b'e' ∷ []))) (length s)
        then some (start s)
        else none)
unfolding try_rule list_eq
try_rule_e s id min cond =
    let len : length (s ++ (b'e' ∷ [])) ≡ suc (length s) =
      omega (arith, length-append s (b'e' ∷ [])) in
    let at : length (s ++ (b'e' ∷ [])) - 1 ≡ length s = omega (arith, len) in
    let pos : ltb (length (s ++ (b'e' ∷ []))) 1 ≡ false = ground (arith, len) in
    let zero : length s + 0 ≡ length s = omega arith in
    rw (at, pos, drop-length s (b'e' ∷ []), take-length s (b'e' ∷ []), append-nil s, zero)

holds_remove_e :
    (s : List ℕ)
    → word_size s ≡ 1
    → ends_with_cvc s (length s) ≡ true
    → holds remove_e (start (s ++ (b'e' ∷ []))) (length s) ≡ true
unfolding holds
holds_remove_e s one cvc =
    let len : length (s ++ (b'e' ∷ [])) ≡ suc (length s) =
      omega (arith, length-append s (b'e' ∷ [])) in
    rw (len, take-length s (b'e' ∷ []), drop-length s (b'e' ∷ []), one, chopped_e s cvc)

-- Every stem of one pair that ends in a consonant, a vowel and a consonant other than w, x and y
-- loses the e behind it, though the condition of rule 502 is there to keep it.
pub rules_5a_cvc :
    (s : List ℕ)
    → word_size s ≡ 1
    → ends_with_cvc s (length s) ≡ true
    → replace_suffix (start (s ++ (b'e' ∷ []))) rules_5a ≡ (502, start s)
unfolding rules_5a
rules_5a_cvc s one cvc =
    replace_suffix-none _ (rule_e 501 2 null) _ (try_rule_e s 501 2 null ∙ rw one)
    ∙ replace_suffix-some _ (start s) (rule_e 502 0 remove_e) []
        (try_rule_e s 502 0 remove_e ∙ rw (one, holds_remove_e s one cvc))
