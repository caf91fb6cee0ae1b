-- ===== src/Token.antt =====
-- src/token.h and src/token.cpp: the tokens of a query, and the stream that they come from.
pub mod Latin1
pub mod Stream
use swishxx.Common.{
  ℕ, suc, Bool, true, false, List, [], ◌∷◌, ◌++◌, Option, none, some, ltb, ◌==◌, if◌then◌else◌,
  codes, length, map,
}
use swishxx.Common.Ctype.{tolower}
use swishxx.Stem.{list_eq}
use swishxx.Word.{is_word_char}
use Latin1.{iso8859_1_to_ascii}

-- `token::type`
pub data TokenType : Type 0 where
  tt_none tt_and tt_equal tt_lparen tt_near tt_not_near tt_not tt_or tt_rparen : TokenType
  tt_word_star tt_word : TokenType

-- `buf_` and `lower_buf_` as strings; of a token that is no word they are never read.
pub record Token : Type 0 where
  pub type : TokenType
  pub str : List ℕ
  pub lower_str : List ℕ

abbrev pub word_hard_max_size : ℕ
word_hard_max_size = 25

abbrev pub symbol : TokenType → Token
symbol t = record { type = t; str = []; lower_str = [] }

-- A word with `type_` not set yet: an operator, or a word.
unfoldable pub word_type : List ℕ → TokenType
unfolding list_eq
word_type lower =
    if list_eq lower (codes "and")
    then tt_and
    else if list_eq lower (codes "or")
    then tt_or
    else if list_eq lower (codes "near")
    then tt_near
    else if list_eq lower (codes "not")
    then tt_not
    else tt_word

unfoldable pub word_token : List ℕ → Token
unfolding word_type tolower
word_token w = record { type = word_type (map tolower w); str = w; lower_str = map tolower w }

unfoldable pub word_star_token : List ℕ → Token
unfolding tolower
word_star_token w = record { type = tt_word_star; str = w; lower_str = map tolower w }

-- Where the loop over the characters is: outside a word, in one, or in the inner loop that skips the
-- rest of a word that is too long.
pub data Mode : Type 0 where
  idle : Mode
  in_word : List ℕ → Mode
  skipping : Mode

-- What the loop does at one character: goes on, or ends with a token; the flag is for `ts.putback`.
pub data LexStep : Type 0 where
  next : Mode → LexStep
  done : Token → Bool → LexStep

-- A character of a word, and any other one, `c` being converted to ASCII.
unfoldable pub word_step : Mode → ℕ → LexStep
word_step idle c = next (in_word (c ∷ []))
word_step (in_word w) c =
    if ltb (length w) word_hard_max_size then next (in_word (w ++ (c ∷ []))) else next skipping
word_step skipping c = next skipping

unfoldable pub other_step : Mode → ℕ → LexStep
other_step (in_word w) c =
    if c == b'*' then done (word_star_token w) false else done (word_token w) true
other_step _ c =
    if c == b'('
    then done (symbol tt_lparen) false
    else if c == b')'
    then done (symbol tt_rparen) false
    else if c == b'='
    then done (symbol tt_equal) false
    else next idle

unfoldable pub lex_step : Mode → ℕ → LexStep
lex_step skipping x = if is_word_char x then next skipping else next idle
lex_step m x =
    let c = iso8859_1_to_ascii x in if is_word_char c then word_step m c else other_step m c

-- The end of the characters.
unfoldable pub at_eof : Mode → Token
at_eof (in_word w) = word_token w
at_eof _ = symbol tt_none

-- `putback( c )` of the converted character: a read-only string stream takes back only the character
-- that it gave, and is bad from then on if it is asked for another.
abbrev pub putback : ℕ → List ℕ → List ℕ
putback x xs = if iso8859_1_to_ascii x == x then x ∷ xs else []

-- The token at the front of the characters, and the characters left.
unfoldable pub lex : Mode → List ℕ → Token × List ℕ
lex m [] = (at_eof m, [])
lex m (x ∷ xs) = elim (lex_step m x) [
  | next m' ↦ lex m' xs
  | done t back ↦ (t, if back then putback x xs else xs)
]

-- `token_stream`: the characters not read, and `stack_` up to `top_`, its top first.
pub record TokenStream : Type 0 where
  pub chars : List ℕ
  pub stack : List Token

-- The size of `stack_`.
abbrev pub max_put_back : ℕ
max_put_back = 2

unfoldable pub get_from : List ℕ → List Token → Token × TokenStream
get_from chars [] = let (t, rest) = lex idle chars in (t, record { chars = rest; stack = [] })
get_from chars (t ∷ stack) = (t, record { chars = chars; stack = stack })

-- `operator>>`
unfoldable pub get : TokenStream → Token × TokenStream
get ts = get_from ts.chars ts.stack

-- `put_back`; `none` for a write behind the end of `stack_`.
unfoldable pub put_back : Token → TokenStream → Option TokenStream
put_back t ts =
    if ltb (length ts.stack) max_put_back then some (record ts { stack = t ∷ ts.stack }) else none
