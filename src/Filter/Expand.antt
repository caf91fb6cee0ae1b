-- ===== src/Filter/Expand.antt =====
-- The loop over the command is one pass over its template.
use swishxx.Common.{
  ℕ, length-snoc, zero, suc, ◌+◌, ◌<◌, ◌≡◌, refl, sym, ◌∙◌, arith, true, false, not, List, [], ◌∷◌,
  ◌++◌, Option, none, some, length, ◌==◌, if◌then◌else◌, append-nil, length-append, Bool-cases, inl,
  inr, ◌⊎◌,
}
use mathlib.Core.Path.{subst}
use swishxx.Filter.{
  is_one_of, percent_at, find_first_of, Value, text, throws, unchanged, value, Result, done, thrown,
  running, replace, substitute_loop, rfind, second_ext,
}
use swishxx.Filter.Search.{
  find_here, find_next, find_end, pair_here, pair_last, replace_here, erase_here, move_on,
}

-- What the template's rest adds to the command so far: no text that was put in is looked at again.
unfoldable pub expand : List ℕ → List ℕ → Option ℕ → List ℕ → Result
expand esc out target [] = done out target
expand esc out target (c ∷ []) = done (out ++ (c ∷ [])) target
expand esc out target (c ∷ d ∷ rest) =
    let plain = expand esc (out ++ (c ∷ [])) target (d ∷ rest) in
    let same = expand esc (out ++ (d ∷ [])) target rest in
    let at_sign = expand esc out (some (length out)) (d ∷ rest) in
    if not (is_one_of percent_at c)
    then plain
    else if c == d
    then same
    else if c == 64
    then at_sign
    else (elim (value esc d) [
      | text t ↦ expand esc (out ++ t) target rest
      | throws ↦ thrown
      | unchanged ↦ running
    ])

-- A character that is left as it is.
loop_skip :
    (fuel : ℕ) (esc out : List ℕ) (target : Option ℕ) (c : ℕ) (rest : List ℕ)
    → is_one_of percent_at c ≡ false
    → substitute_loop fuel esc (out ++ (c ∷ rest)) (length out) target
      ≡ substitute_loop fuel esc ((out ++ (c ∷ [])) ++ rest) (length (out ++ (c ∷ []))) target
unfolding substitute_loop
loop_skip zero esc out target c rest h = refl
loop_skip (suc fuel) esc out target c rest h =
    rw (move_on out c rest, length-snoc out c)
      (rw (find_next out percent_at c rest h, substitute_loop) refl)

Value-cases : (v : Value) → ((t : List ℕ) × (v ≡ text t)) ⊎ ((v ≡ throws) ⊎ (v ≡ unchanged))
Value-cases (text t) = inl (t, refl)
Value-cases throws = inr (inl refl)
Value-cases unchanged = inr (inr refl)

module _ (esc out : List ℕ) (target : Option ℕ) (c d : ℕ) (rest : List ℕ)
    (special : is_one_of percent_at c ≡ true) where
  abbrev command : List ℕ
  command = out ++ (c ∷ d ∷ rest)

  -- The round at a "%" or "@" with a character behind it.
  loop_special :
      (fuel : ℕ)
      → substitute_loop (suc fuel) esc command (length out) target ≡ elim (c == d) [
        | true ↦
            substitute_loop fuel esc (replace command (length out) 1 []) (length out + 1) target
        | false ↦ (elim (c == 64) [
          | true ↦
              substitute_loop fuel esc
                (replace command (length out) 1 [])
                (length out)
                (some (length out))
          | false ↦ (elim (value esc d) [
            | text t ↦
                substitute_loop fuel esc
                  (replace command (length out) 2 t)
                  (length out + length t)
                  target
            | throws ↦ thrown
            | unchanged ↦ substitute_loop fuel esc command (length out) target
          ])
        ])
      ]
  unfolding substitute_loop
  loop_special fuel =
      rw (find_here out percent_at c (d ∷ rest) special, substitute_loop)
        (rw (pair_here out c d rest) refl)

  stays :
      (fuel : ℕ)
      → (c == d) ≡ false
      → (c == 64) ≡ false
      → value esc d ≡ unchanged
      → substitute_loop fuel esc command (length out) target ≡ running
  unfolding substitute_loop
  stays zero n m e = refl
  stays (suc fuel) n m e = loop_special fuel ∙ rw (n, m, e) (stays fuel n m e)

loop_end :
    (fuel : ℕ) (esc out : List ℕ) (target : Option ℕ)
    → substitute_loop (suc fuel) esc (out ++ []) (length out) target ≡ done out target
unfolding substitute_loop
loop_end fuel esc out target =
    rw (find_end out percent_at, substitute_loop) (rw (append-nil out) refl)

-- The last character stays, whichever it is.
loop_last :
    (fuel : ℕ) (esc out : List ℕ) (target : Option ℕ) (c : ℕ)
    → substitute_loop (suc fuel) esc (out ++ (c ∷ [])) (length out) target
      ≡ done (out ++ (c ∷ [])) target
unfolding substitute_loop
loop_last fuel esc out target c = elim (Bool-cases (is_one_of percent_at c)) [
  | inl y ↦ rw (find_here out percent_at c [] y, substitute_loop) (rw (pair_last out c) refl)
  | inr n ↦ rw (find_next out percent_at c [] n ∙ none_behind out c, substitute_loop) refl
]
  where
    none_behind :
        (out : List ℕ) (c : ℕ)
        → find_first_of (out ++ (c ∷ [])) percent_at (suc (length out)) ≡ none
    none_behind out c =
        subst (λ x. find_first_of x percent_at (suc (length out)) ≡ none)
          (append-nil (out ++ (c ∷ [])))
          (subst (λ x. find_first_of ((out ++ (c ∷ [])) ++ []) percent_at x ≡ none)
            (length-snoc out c) (find_end (out ++ (c ∷ [])) percent_at))

expand_plain :
    (esc out : List ℕ) (target : Option ℕ) (c d : ℕ) (rest : List ℕ)
    → is_one_of percent_at c ≡ false
    → expand esc out target (c ∷ d ∷ rest) ≡ expand esc (out ++ (c ∷ [])) target (d ∷ rest)
unfolding expand
expand_plain esc out target c d rest n = rw (n, expand) refl

-- The loop at `out` for the text that a round leaves behind it.
abbrev Passes : ℕ → List ℕ → Type 0
Passes fuel rest =
    (esc out : List ℕ) (target : Option ℕ)
    → substitute_loop fuel esc (out ++ rest) (length out) target ≡ expand esc out target rest

-- The same, with the command and the position that a replacement gives.
Passes-at :
    (fuel : ℕ) (rest esc out command : List ℕ) (pos : ℕ) (target : Option ℕ)
    → Passes fuel rest
    → command ≡ out ++ rest
    → pos ≡ length out
    → substitute_loop fuel esc command pos target ≡ expand esc out target rest
Passes-at fuel rest esc out command pos target k e p = rw (e, p) (k esc out target)

special_round :
    (fuel : ℕ) (esc out : List ℕ) (target : Option ℕ) (c d : ℕ) (rest : List ℕ)
    → is_one_of percent_at c ≡ true
    → Passes fuel rest
    → Passes fuel (d ∷ rest)
    → substitute_loop (suc fuel) esc (out ++ (c ∷ d ∷ rest)) (length out) target
      ≡ expand esc out target (c ∷ d ∷ rest)
unfolding expand
special_round fuel esc out target c d rest y k k' =
    loop_special esc out target c d rest y fuel ∙ elim (Bool-cases (c == d)) [
      | inl e ↦
          rw (y, e, expand)
            (Passes-at fuel rest esc (out ++ (d ∷ [])) _ _ target k
              (erase_here out c (d ∷ rest) ∙ sym (move_on out d rest))
              (omega (arith, length-snoc out d)))
      | inr n ↦ elim (Bool-cases (c == 64)) [
        | inl a ↦
            rw (y, n, a, expand)
              (Passes-at fuel (d ∷ rest) esc out _ _ (some (length out)) k'
                (erase_here out c (d ∷ rest)) refl)
        | inr m ↦ elim (Value-cases (value esc d)) [
          | inl (t, v) ↦
              rw (y, n, m, v, expand)
                (Passes-at fuel rest esc (out ++ t) _ _ target k
                  (replace_here out (c ∷ d ∷ []) rest t) (sym (length-append out t)))
          | inr (inl v) ↦ rw (y, n, m, v, expand) refl
          | inr (inr v) ↦ rw (y, n, m, v, expand) (stays esc out target c d rest y fuel n m v)
        ]
      ]
    ]

pass : (fuel : ℕ) (rest : List ℕ) → length rest < fuel → Passes fuel rest
unfolding expand
pass zero rest l esc out target = absurd (omega arith)
pass (suc fuel) [] l esc out target = loop_end fuel esc out target
pass (suc fuel) (c ∷ []) l esc out target = loop_last fuel esc out target c
pass (suc fuel) (c ∷ d ∷ rest) l esc out target = elim (Bool-cases (is_one_of percent_at c)) [
  | inl y ↦
      special_round fuel esc out target c d rest y (pass fuel rest (omega arith))
        (pass fuel (d ∷ rest) (omega arith))
  | inr n ↦
      loop_skip (suc fuel) esc out target c (d ∷ rest) n
      ∙ (pass (suc fuel) (d ∷ rest) (omega arith) esc (out ++ (c ∷ [])) target
          ∙ sym (expand_plain esc out target c d rest n))
]

-- The loop over a command makes one pass over the template, with more rounds than characters: what it puts in for
-- the file's name is not looked at again, and it goes on for ever just where `expand` says so.
pub substitute_loop-expand :
    (fuel : ℕ) (esc template : List ℕ)
    → length template < fuel
    → substitute_loop fuel esc template 0 none ≡ expand esc [] none template
substitute_loop-expand fuel esc template l = pass fuel template l esc [] none

-- For a file without an extension, the loop never gets past "%E".
pub second_extension_never_ends :
    (fuel : ℕ) (esc out rest : List ℕ) (target : Option ℕ)
    → rfind esc 46 ≡ none
    → substitute_loop fuel esc (out ++ (37 ∷ 69 ∷ rest)) (length out) target ≡ running
unfolding value second_ext
second_extension_never_ends fuel esc out rest target e =
    stays esc out target 37 69 rest refl fuel refl refl (rw (e, second_ext) refl)
