-- ===== src/Filter/Target.antt =====
-- The name of the file that a filter makes.
use swishxx.Common.{
  ℕ, length-snoc, suc, ◌+◌, ◌≡◌, refl, sym, ap, ◌∙◌, true, false, List, [], ◌∷◌, ◌++◌, some, length,
  take, ◌==◌, append-nil, append_assoc, length-append, drop-length, All,
}
use swishxx.Filter.{
  is_one_of, shell_filename_delim_chars, find_first_of, is_escaped, target_end, unescape_filename,
  target_file_name,
}
use swishxx.Filter.Search.{find_here, find_next, move_on}

abbrev delims : List ℕ
delims = shell_filename_delim_chars

-- No delimiter in a name.
abbrev pub IsUndelimited : List ℕ → Type 0
IsUndelimited name = All (λ c. is_one_of shell_filename_delim_chars c ≡ false) name

find_behind :
    (out name : List ℕ) (d : ℕ) (back : List ℕ)
    → IsUndelimited name
    → is_one_of delims d ≡ true
    → find_first_of (out ++ (name ++ (d ∷ back))) delims (length out) ≡ some (length (out ++ name))
find_behind out [] d back h e =
    find_here out delims d back e ∙ ap (λ x. some (length x)) (sym (append-nil out))
find_behind out (c ∷ name) d back (h, hs) e =
    find_next out delims c (name ++ (d ∷ back)) h
    ∙ rw
        (
          sym (move_on out c (name ++ (d ∷ back))),
          sym (length-snoc out c),
          sym (move_on out c name),
        )
        (find_behind (out ++ (c ∷ [])) name d back hs e)

escaped_here :
    (out : List ℕ) (c : ℕ) (s : List ℕ) → is_escaped (out ++ (c ∷ s)) (suc (length out)) ≡ (c == 92)
escaped_here [] c s = refl
escaped_here (e ∷ out) c s = escaped_here out c s

-- If a delimiter ends the target's name in a command, which does not start with the name, the name is taken for as many characters more
-- as stand in front of it.
pub target_file_name_longer :
    (front init : List ℕ) (c d : ℕ) (back : List ℕ)
    → IsUndelimited (init ++ (c ∷ []))
    → (c == 92) ≡ false
    → is_one_of shell_filename_delim_chars d ≡ true
    → target_file_name (front ++ ((init ++ (c ∷ [])) ++ (d ∷ back))) (length front)
      ≡ unescape_filename
          (take (length front + length (init ++ (c ∷ []))) ((init ++ (c ∷ [])) ++ (d ∷ back)))
unfolding target_file_name target_end
target_file_name_longer front init c d back h n e =
    let name = init ++ (c ∷ []) in
    let found = find_behind front name d back h e in
    let stops : is_escaped (front ++ (name ++ (d ∷ back))) (length (front ++ name)) ≡ false =
      rw (move_on init c (d ∷ back), sym (append_assoc front init (c ∷ d ∷ back)))
        (rw (sym (append_assoc front init (c ∷ [])), length-snoc (front ++ init) c)
          (escaped_here (front ++ init) c (d ∷ back) ∙ n)) in
    rw (found, target_end)
      (rw (stops, drop-length front (name ++ (d ∷ back)), length-append front name) refl)
