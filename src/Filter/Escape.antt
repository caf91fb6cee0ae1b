-- ===== src/Filter/Escape.antt =====
-- A file's name escaped for the shell, and back.
use swishxx.Common.{
  ℕ, length-snoc, zero, suc, ◌<◌, ◌≡◌, refl, sym, ◌∙◌, arith, Bool, true, false, List, [], ◌∷◌,
  ◌++◌, length, if◌then◌else◌, append_assoc, length-append, ◌≤◌, Bool-cases, inl, inr,
}
use mathlib.Core.Path.{subst}
use swishxx.Filter.{
  is_one_of, shell_filename_escape_chars, escape_loop, unescape_loop, escape_filename,
  unescape_filename,
}
use swishxx.Filter.Search.{find_here, find_next, find_end, replace_here, erase_here, move_on}

abbrev special : ℕ → Bool
special c = is_one_of shell_filename_escape_chars c

-- Each special character behind a backslash.
abbrev pub escaped : List ℕ → List ℕ
escaped [] = []
escaped (c ∷ s) = let rest = escaped s in if special c then 92 ∷ c ∷ rest else c ∷ rest

escape_skip :
    (fuel : ℕ) (out : List ℕ) (c : ℕ) (s : List ℕ)
    → special c ≡ false
    → escape_loop fuel (out ++ (c ∷ s)) (length out)
      ≡ escape_loop fuel ((out ++ (c ∷ [])) ++ s) (length (out ++ (c ∷ [])))
unfolding escape_loop
escape_skip zero out c s h = sym (move_on out c s)
escape_skip (suc fuel) out c s h =
    rw (move_on out c s, length-snoc out c)
      (rw (find_next out shell_filename_escape_chars c s h, escape_loop) refl)

escape_here :
    (fuel : ℕ) (out : List ℕ) (c : ℕ) (s : List ℕ)
    → special c ≡ true
    → escape_loop (suc fuel) (out ++ (c ∷ s)) (length out)
      ≡ escape_loop fuel ((out ++ (92 ∷ c ∷ [])) ++ s) (length (out ++ (92 ∷ c ∷ [])))
unfolding escape_loop
escape_here fuel out c s h =
    let put =
      replace_here out [] (c ∷ s) (92 ∷ [])
      ∙ append_assoc out (92 ∷ []) (c ∷ s)
      ∙ sym (append_assoc out (92 ∷ c ∷ []) s) in
    rw (find_here out shell_filename_escape_chars c s h, escape_loop)
      (rw (put, length-append out (92 ∷ c ∷ [])) refl)

escape_pass :
    (fuel : ℕ) (out s : List ℕ)
    → length s < fuel
    → escape_loop fuel (out ++ s) (length out) ≡ out ++ escaped s
unfolding escape_loop
escape_pass zero out s l = absurd (omega arith)
escape_pass (suc fuel) out [] l = rw (find_end out shell_filename_escape_chars, escape_loop) refl
escape_pass (suc fuel) out (c ∷ s) l = elim (Bool-cases (special c)) [
  | inl y ↦
      escape_here fuel out c s y
      ∙ (escape_pass fuel (out ++ (92 ∷ c ∷ [])) s (omega arith)
          ∙ rw (y, escaped) (append_assoc out (92 ∷ c ∷ []) (escaped s)))
  | inr n ↦
      escape_skip (suc fuel) out c s n
      ∙ (escape_pass (suc fuel) (out ++ (c ∷ [])) s (omega arith)
          ∙ rw (n, escaped) (move_on out c (escaped s)))
]

not_backslash : (c : ℕ) → special c ≡ false → is_one_of (92 ∷ []) c ≡ false
not_backslash c h = elim (Bool-cases (is_one_of (92 ∷ []) c)) [
  | inr n ↦ n
  | inl y ↦
      let e : c ≡ 92 = ground arith in absurd (no_special (subst (λ x. special x ≡ false) e h))
]
  where
    no_special : special 92 ≡ false → ⊥
    no_special h = absurd (cc (h))

unescape_skip :
    (fuel : ℕ) (out : List ℕ) (c : ℕ) (s : List ℕ)
    → is_one_of (92 ∷ []) c ≡ false
    → unescape_loop fuel (out ++ (c ∷ s)) (length out)
      ≡ unescape_loop fuel ((out ++ (c ∷ [])) ++ s) (length (out ++ (c ∷ [])))
unfolding unescape_loop
unescape_skip zero out c s h = sym (move_on out c s)
unescape_skip (suc fuel) out c s h =
    rw (move_on out c s, length-snoc out c) (rw (find_next out (92 ∷ []) c s h, unescape_loop) refl)

unescape_here :
    (fuel : ℕ) (out : List ℕ) (c : ℕ) (s : List ℕ)
    → unescape_loop (suc fuel) (out ++ (92 ∷ c ∷ s)) (length out)
      ≡ unescape_loop fuel ((out ++ (c ∷ [])) ++ s) (length (out ++ (c ∷ [])))
unfolding unescape_loop
unescape_here fuel out c s =
    let cut = erase_here out 92 (c ∷ s) ∙ sym (move_on out c s) in
    rw (find_here out (92 ∷ []) 92 (c ∷ s) refl, unescape_loop)
      (rw (cut, length-append out (c ∷ [])) refl)

unescape_pass :
    (fuel : ℕ) (out s : List ℕ)
    → length s < fuel
    → unescape_loop fuel (out ++ escaped s) (length out) ≡ out ++ s
unfolding unescape_loop
unescape_pass zero out s l = absurd (omega arith)
unescape_pass (suc fuel) out [] l = rw (find_end out (92 ∷ []), unescape_loop) refl
unescape_pass (suc fuel) out (c ∷ s) l = elim (Bool-cases (special c)) [
  | inl y ↦
      rw (y, escaped)
        (unescape_here fuel out c (escaped s)
          ∙ (unescape_pass fuel (out ++ (c ∷ [])) s (omega arith) ∙ move_on out c s))
  | inr n ↦
      rw (n, escaped)
        (unescape_skip (suc fuel) out c (escaped s) (not_backslash c n)
          ∙ (unescape_pass (suc fuel) (out ++ (c ∷ [])) s (omega arith) ∙ move_on out c s))
]

length-escaped : (s : List ℕ) → length s ≤ length (escaped s)
length-escaped [] = omega arith
length-escaped (c ∷ s) = elim (Bool-cases (special c)) [
  | inl y ↦ rw (y, escaped) (omega (arith, length-escaped s))
  | inr n ↦ rw (n, escaped) (omega (arith, length-escaped s))
]

-- Escaping puts a backslash in front of each special character and changes nothing else.
pub escape_filename-escaped : (s : List ℕ) → escape_filename s ≡ escaped s
unfolding escape_filename
escape_filename-escaped s = escape_pass (suc (length s)) [] s (omega arith)

-- A file's name that is escaped and unescaped is the name itself, whatever characters it has.
pub unescape_filename-escape_filename : (s : List ℕ) → unescape_filename (escape_filename s) ≡ s
unfolding unescape_filename
unescape_filename-escape_filename s =
    rw (escape_filename-escaped s)
      (unescape_pass (suc (length (escaped s))) [] s (omega (arith, length-escaped s)))
