-- ===== src/Token/Stream.antt =====
-- How much of the stream a token takes, and what the stack of put-back tokens holds.
use swishxx.Common.{
  ℕ, ◌+◌, ◌-◌, ◌⊎◌, ◌≤◌, ◌<◌, ◌≡◌, refl, arith, Bool, true, false, List, [], ◌∷◌, some, inl, inr,
  if◌then◌else◌, length,
}
use swishxx.Token.{
  TokenType, tt_none, Token, Mode, idle, in_word, skipping, LexStep, next, done, lex_step, at_eof,
  putback, lex, word_step, other_step, word_token, TokenStream, get_from, get, put_back,
}

-- One for a token that was read from the characters, none for the end of the query.
abbrev pub type_weight : TokenType → ℕ
type_weight tt_none = 0
type_weight _ = 1

abbrev pub weight : Token → ℕ
weight t = type_weight t.type

abbrev pub weights : List Token → ℕ
weights [] = 0
weights (t ∷ ts) = weight t + weights ts

-- The characters left, and the tokens put back.
abbrev pub left : TokenStream → ℕ
left ts = length ts.chars + weights ts.stack

-- A mode whose characters make a token on their own.
abbrev open_word : Mode → ℕ
open_word (in_word w) = 1
open_word _ = 0

weight-le : (t : Token) → weight t ≤ 1
weight-le t = ground arith

putback-le : (x : ℕ) (xs : List ℕ) → length (putback x xs) ≤ 1 + length xs
putback-le x xs = ground arith

-- Outside a word nothing is put back.
idle_done : (x : ℕ) (t : Token) (back : Bool) → lex_step idle x ≡ done t back → back ≡ false
unfolding lex_step other_step word_step
idle_done x t back e = ground arith

skipping_done : (x : ℕ) (t : Token) (back : Bool) → lex_step skipping x ≡ done t back → ⊥
unfolding lex_step
skipping_done x t back e = ground arith

-- What is left when a token is done.
abbrev rest_of : Bool → ℕ → List ℕ → List ℕ
rest_of back x xs = if back then putback x xs else xs

rest_of-le : (back : Bool) (x : ℕ) (xs : List ℕ) → length (rest_of back x xs) ≤ 1 + length xs
rest_of-le true x xs = putback-le x xs
rest_of-le false x xs = omega arith

-- One step: a token takes a character, unless it is put back behind a word.
step_takes :
    (m : Mode) (x : ℕ) (xs : List ℕ) (t : Token) (back : Bool)
    → lex_step m x ≡ done t back
    → weight t + length (rest_of back x xs) ≤ open_word m + (1 + length xs)
step_takes idle x xs t back e = rw (idle_done x t back e) (omega (arith, weight-le t))
step_takes skipping x xs t back e = absurd (skipping_done x t back e)
step_takes (in_word w) x xs t back e = omega (arith, weight-le t, rest_of-le back x xs)

step_opens : (m m' : Mode) (x : ℕ) → lex_step m x ≡ next m' → open_word m' ≤ open_word m + 1
unfolding lex_step other_step word_step
step_opens idle m' x e = ground arith
step_opens skipping m' x e = ground arith
step_opens (in_word w) m' x e = ground arith

at_eof-weight : (m : Mode) → weight (at_eof m) ≤ open_word m
unfolding at_eof
at_eof-weight idle = omega arith
at_eof-weight skipping = omega arith
at_eof-weight (in_word w) = weight-le (word_token w)

LexStep-cases :
    (s : LexStep) → ((m : Mode) × (s ≡ next m)) ⊎ ((t : Token) × (back : Bool) × (s ≡ done t back))
LexStep-cases (next m) = inl (m, refl)
LexStep-cases (done t back) = inr (t, back, refl)

-- A token takes one character at least.
lex_takes :
    (m : Mode) (xs : List ℕ) → weight (lex m xs).0 + length (lex m xs).1 ≤ open_word m + length xs
unfolding lex
lex_takes m [] = omega (arith, at_eof-weight m)
lex_takes m (x ∷ xs) = elim (LexStep-cases (lex_step m x)) [
  | inl (m', e) ↦ rw (e, lex) (omega (arith, lex_takes m' xs, step_opens m m' x e))
  | inr (t, back, e) ↦ rw (e, lex) (omega (arith, step_takes m x xs t back e))
]

get_from_takes :
    (chars : List ℕ) (stack : List Token)
    → (weight (get_from chars stack).0 + left (get_from chars stack).1
        ≤ length chars + weights stack)
      × (length (get_from chars stack).1.stack ≡ length stack - 1)
unfolding get_from
get_from_takes chars [] = (omega (arith, lex_takes idle chars), omega arith)
get_from_takes chars (t ∷ stack) = omega arith

-- A token that is read takes its weight from the stream, and one place from the stack.
pub get_takes :
    (ts : TokenStream)
    → (weight (get ts).0 + left (get ts).1 ≤ left ts)
      × (length (get ts).1.stack ≡ length ts.stack - 1)
unfolding get
get_takes ts = get_from_takes ts.chars ts.stack

pub put_back_adds :
    (t : Token) (ts : TokenStream)
    → length ts.stack < 2
    → (ts' : TokenStream) × (put_back t ts ≡ some ts')
      × (left ts' ≡ weight t + left ts)
      × (length ts'.stack ≡ length ts.stack + 1)
unfolding put_back
put_back_adds t ts h = (record ts { stack = t ∷ ts.stack }, ground arith, omega arith, omega arith)
