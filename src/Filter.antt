-- ===== src/Filter.antt =====
-- src/filter.cpp: the command of a filter for a file, and the name of the file that it makes. Positions in a
-- string are numbers, and a search that finds nothing (`npos`) is `none`. The settings ShellFilenameEscapeChars and
-- ShellFilenameDelimChars are those of src/swishxx-config.h.
pub mod Search
pub mod Escape
pub mod Expand
pub mod Target
use swishxx.Common.{
  ℕ, zero, suc, ◌+◌, ◌-◌, Bool, true, false, not, ◌&&◌, ◌||◌, List, [], ◌∷◌, ◌++◌, Option, none,
  some, ◌==◌, if◌then◌else◌, length, take, drop, codes,
}

abbrev pub is_one_of : List ℕ → ℕ → Bool
is_one_of [] c = false
is_one_of (d ∷ ds) c = d == c || is_one_of ds c

abbrev pub shell_filename_escape_chars : List ℕ
shell_filename_escape_chars = codes " !\"#$&'()*/;<>?[\\]^`{|}~"

abbrev pub shell_filename_delim_chars : List ℕ
shell_filename_delim_chars = codes " \t&;<>|"

abbrev pub one_later : Option ℕ → Option ℕ
one_later none = none
one_later (some p) = some (suc p)

-- `find_first_of`, from a position on.
unfoldable pub find_first_of : List ℕ → List ℕ → ℕ → Option ℕ
find_first_of [] cs pos = none
find_first_of (d ∷ s) cs zero =
    let rest = find_first_of s cs zero in if is_one_of cs d then some 0 else one_later rest
find_first_of (d ∷ s) cs (suc pos) = one_later (find_first_of s cs pos)

-- `rfind`
unfoldable pub rfind : List ℕ → ℕ → Option ℕ
rfind [] c = none
rfind (d ∷ s) c = elim (rfind s c) [
  | none ↦ (if d == c then some 0 else none)
  | some p ↦ some (suc p)
]

-- `replace`, and with no text `erase`.
abbrev pub replace : List ℕ → ℕ → ℕ → List ℕ → List ℕ
replace s pos count text = take pos s ++ (text ++ drop (pos + count) s)

-- The loops of `escape_filename` and `unescape_filename`, from a position on.
unfoldable pub escape_loop : ℕ → List ℕ → ℕ → List ℕ
unfolding find_first_of
escape_loop zero s pos = s
escape_loop (suc fuel) s pos = elim (find_first_of s shell_filename_escape_chars pos) [
  | none ↦ s
  | some p ↦ escape_loop fuel (replace s p 0 (92 ∷ [])) (p + 2)
]

unfoldable pub unescape_loop : ℕ → List ℕ → ℕ → List ℕ
unfolding find_first_of
unescape_loop zero s pos = s
unescape_loop (suc fuel) s pos = elim (find_first_of s (92 ∷ []) pos) [
  | none ↦ s
  | some p ↦ unescape_loop fuel (replace s p 1 []) (p + 1)
]

-- Each round handles a character of its own.
unfoldable pub escape_filename : List ℕ → List ℕ
unfolding escape_loop
escape_filename s = escape_loop (suc (length s)) s 0

unfoldable pub unescape_filename : List ℕ → List ℕ
unfolding unescape_loop
unescape_filename s = unescape_loop (suc (length s)) s 0

unfoldable pub pjl_basename : List ℕ → List ℕ
unfolding rfind
pjl_basename s = elim (rfind s 47) [ none ↦ s | some slash ↦ drop (suc slash) s ]

-- The text for a "%": `throws` for `erase` behind the end of a string, `unchanged` for no replacement.
pub data Value : Type 0 where
  text : List ℕ → Value
  throws unchanged : Value

-- `no_ext`: without the last extension.
unfoldable pub no_ext : List ℕ → Value
unfolding rfind
no_ext s = elim (rfind s 46) [ none ↦ throws | some x ↦ text (take x s) ]

-- `ext.erase( 0, ext.rfind( '.' ) )`, which erases all without a ".".
unfoldable pub ext : List ℕ → List ℕ
unfolding rfind
ext s = elim (rfind s 46) [ none ↦ [] | some x ↦ drop x s ]

unfoldable pub second_ext : List ℕ → Value
unfolding rfind ext
second_ext s = elim (rfind s 46) [ none ↦ unchanged | some x ↦ text (ext (take x s)) ]

unfoldable pub value : List ℕ → ℕ → Value
unfolding pjl_basename no_ext ext second_ext
value esc d =
    if d == 98
    then text (pjl_basename esc)
    else if d == 66
    then no_ext (pjl_basename esc)
    else if d == 101
    then text (ext esc)
    else if d == 69
    then second_ext esc
    else if d == 102
    then text esc
    else if d == 70
    then no_ext esc
    else unchanged

-- What the loop over the command comes to: the command with the position of its target, an exception, or a
-- round that is still to come when the fuel ends.
pub data Result : Type 0 where
  done : List ℕ → Option ℕ → Result
  thrown running : Result

abbrev pub percent_at : List ℕ
percent_at = codes "%@"

-- The characters at `pos`, if another one follows.
abbrev pub pair_at : List ℕ → ℕ → Option (ℕ × ℕ)
pair_at [] pos = none
pair_at (c ∷ []) pos = none
pair_at (c ∷ d ∷ s) zero = some (c, d)
pair_at (c ∷ d ∷ s) (suc pos) = pair_at (d ∷ s) pos

unfoldable pub substitute_loop : ℕ → List ℕ → List ℕ → ℕ → Option ℕ → Result
unfolding find_first_of value
substitute_loop zero esc command pos target = running
substitute_loop (suc fuel) esc command pos target = elim (find_first_of command percent_at pos) [
  | none ↦ done command target
  | some p ↦ (elim (pair_at command p) [
    | none ↦ done command target
    | some q ↦ (elim (q.0 == q.1) [
      | true ↦ substitute_loop fuel esc (replace command p 1 []) (p + 1) target
      | false ↦ (elim (q.0 == 64) [
        | true ↦ substitute_loop fuel esc (replace command p 1 []) p (some p)
        | false ↦ (elim (value esc q.1) [
          | text t ↦ substitute_loop fuel esc (replace command p 2 t) (p + length t) target
          | throws ↦ thrown
          | unchanged ↦ substitute_loop fuel esc command p target
        ])
      ])
    ])
  ])
]

-- The character in front of a position is a backslash; at the first position the code reads outside of the
-- string, which is taken for another character here.
abbrev pub is_escaped : List ℕ → ℕ → Bool
is_escaped [] pos = false
is_escaped (c ∷ s) zero = false
is_escaped (c ∷ s) (suc zero) = c == 92
is_escaped (c ∷ s) (suc (suc pos)) = is_escaped s (suc pos)

-- The loop for the end of the target's name.
unfoldable pub target_end : ℕ → List ℕ → ℕ → Option ℕ
unfolding find_first_of
target_end zero command pos = none
target_end (suc fuel) command pos = elim (find_first_of command shell_filename_delim_chars pos) [
  | none ↦ none
  | some p ↦ (elim (is_escaped command p) [
    | true ↦ target_end fuel command (suc p)
    | false ↦ some p
  ])
]

-- `string( command_, target_pos, pos )`: the third argument counts characters.
unfoldable pub target_file_name : List ℕ → ℕ → List ℕ
unfolding target_end unescape_filename
target_file_name command target_pos =
    unescape_filename (elim (target_end (suc (length command)) command target_pos) [
      | none ↦ drop target_pos command
      | some pos ↦ take pos (drop target_pos command)
    ])
