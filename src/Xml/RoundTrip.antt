-- ===== src/Xml/RoundTrip.antt =====
-- The title that is written is character data, and is read as the title.
use swishxx.Common.{
  ℕ, zero, suc, ◌<◌, ◌≡◌, refl, sym, ◌∙◌, arith, true, false, List, [], ◌∷◌, ◌++◌, Option, none,
  some, ◌==◌, ==_iff, if◌then◌else◌, Bool-cases, Option-cases, inl, inr, length, codes,
  append_assoc, length-append, length-snoc,
}
use swishxx.Posting.{◌>>=◌}
use swishxx.Stem.{list_eq}
use swishxx.Filter.{find_first_of}
use swishxx.Filter.Search.{find_here, find_next, find_end, replace_here, move_on}
use swishxx.Xml.{replace_loop, escape, has_special, write_title}

module _ (c : ℕ) (text : List ℕ) where
  -- Each character that is the one is replaced.
  unfoldable pub replaced : List ℕ → List ℕ
  replaced [] = []
  replaced (d ∷ s) = let rest = replaced s in if c == d then text ++ rest else d ∷ rest

  replace_step :
      (fuel : ℕ) (out : List ℕ) (d : ℕ) (s : List ℕ)
      → (c == d) ≡ true
      → replace_loop c text (suc fuel) (out ++ (d ∷ s)) (length out)
        ≡ replace_loop c text fuel ((out ++ text) ++ s) (length (out ++ text))
  unfolding replace_loop
  replace_step fuel out d s h =
      rw (find_here out (c ∷ []) d s (rw h refl), replace_loop)
        (rw (replace_here out (d ∷ []) s text, length-append out text) refl)

  skip_step :
      (fuel : ℕ) (out : List ℕ) (d : ℕ) (s : List ℕ)
      → (c == d) ≡ false
      → replace_loop c text fuel (out ++ (d ∷ s)) (length out)
        ≡ replace_loop c text fuel ((out ++ (d ∷ [])) ++ s) (length (out ++ (d ∷ [])))
  unfolding replace_loop
  skip_step zero out d s h = sym (move_on out d s)
  skip_step (suc fuel) out d s h =
      rw (move_on out d s, length-snoc out d)
        (rw (find_next out (c ∷ []) d s (rw h refl), replace_loop) refl)

  replace_loop-replaced :
      (s out : List ℕ) (fuel : ℕ)
      → length s < fuel
      → replace_loop c text fuel (out ++ s) (length out) ≡ out ++ replaced s
  unfolding replace_loop replaced
  replace_loop-replaced s out zero l = absurd (omega arith)
  replace_loop-replaced [] out (suc fuel) l = rw (find_end out (c ∷ []), replace_loop) refl
  replace_loop-replaced (d ∷ s) out (suc fuel) l = elim (Bool-cases (c == d)) [
    | inl y ↦
        replace_step fuel out d s y
        ∙ (replace_loop-replaced s (out ++ text) fuel (omega arith)
            ∙ rw (y, replaced) (append_assoc out text (replaced s)))
    | inr n ↦
        skip_step (suc fuel) out d s n
        ∙ (replace_loop-replaced s (out ++ (d ∷ [])) (suc fuel) (omega arith)
            ∙ rw (n, replaced) (append_assoc out (d ∷ []) (replaced s)))
  ]

-- A reader of character data with references, by the grammar of XML: no "<" may stand there, and an "&" begins the
-- name of an entity, which a ";" ends; in a name, `reference` is what was read of it.
abbrev entity : List ℕ → Option ℕ
entity name =
    if list_eq name (codes "amp")
    then some b'&'
    else if list_eq name (codes "lt")
    then some b'<'
    else if list_eq name (codes "gt")
    then some b'>'
    else none

unfoldable pub char_data : Option (List ℕ) → List ℕ → Option (List ℕ)
unfolding list_eq
char_data none [] = some []
char_data (some reference) [] = none
char_data none (c ∷ s) =
    let rest = char_data none s in
    let named = char_data (some []) s in
    if b'<' == c then none else if b'&' == c then named else (rest >>= λ r. some (c ∷ r))
char_data (some reference) (c ∷ s) =
    let rest = char_data none s in
    let more = char_data (some (reference ++ (c ∷ []))) s in
    if b';' == c then (entity reference >>= λ e. rest >>= λ r. some (e ∷ r)) else more

ampersands : List ℕ → List ℕ
ampersands = replaced b'&' (codes "&amp;")

both : List ℕ → List ℕ
both s = replaced b'<' (codes "&lt;") (ampersands s)

escape-both : (s : List ℕ) → escape s ≡ both s
unfolding escape both ampersands
escape-both s =
    rw (replace_loop-replaced b'&' (codes "&amp;") s [] (suc (length s)) (omega arith)) (
      replace_loop-replaced b'<' (codes "&lt;") (replaced b'&' (codes "&amp;") s) [] _
        (omega arith))

char_data-both : (s : List ℕ) → char_data none (both s) ≡ some s
unfolding char_data both ampersands replaced list_eq
char_data-both [] = refl
char_data-both (d ∷ s) = elim (Bool-cases (b'&' == d)) [
  | inl y ↦ let same : b'&' ≡ d = (==_iff b'&' d).0 y in rw (← same, char_data-both s) refl
  | inr n ↦ elim (Bool-cases (b'<' == d)) [
    | inl y ↦ let same : b'<' ≡ d = (==_iff b'<' d).0 y in rw (← same, char_data-both s) refl
    | inr m ↦ rw (n, m) (rw (n, m, char_data-both s) refl)
  ]
]

-- A title without either character is character data as it is.
char_data-plain : (s : List ℕ) → find_first_of s (codes "&<") 0 ≡ none → char_data none s ≡ some s
unfolding char_data find_first_of
char_data-plain [] h = refl
char_data-plain (d ∷ s) h = elim (Bool-cases (b'&' == d)) [
  | inl y ↦ cc (rw y at h)
  | inr n ↦ elim (Bool-cases (b'<' == d)) [
    | inl y ↦ cc (rw (n, y) at h)
    | inr m ↦ elim (Option-cases (find_first_of s (codes "&<") 0)) [
      | inl e ↦ rw (n, m, char_data-plain s e) refl
      | inr (p, e) ↦ cc (rw (n, m, e) at h)
    ]
  ]
]

nothing_special : (s : List ℕ) → has_special s ≡ false → find_first_of s (codes "&<") 0 ≡ none
unfolding has_special
nothing_special s h = elim (Option-cases (find_first_of s (codes "&<") 0)) [
  | inl e ↦ e
  | inr (p, e) ↦ cc (rw (e, has_special) at h)
]

-- For every title, what is written between its tags is character data of XML, as far as "<" and "&" go, and the
-- title is what a reader reads there.
pub char_data-write_title : (title : List ℕ) → char_data none (write_title title) ≡ some title
unfolding write_title
char_data-write_title title = elim (Bool-cases (has_special title)) [
  | inl y ↦ rw (y, escape-both title) (char_data-both title)
  | inr n ↦ rw n (char_data-plain title (nothing_special title n))
]
