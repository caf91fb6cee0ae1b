-- ===== src/Charset/QuotedPrintable.antt =====
-- src/encodings/quoted_printable.cpp.
pub mod RoundTrip
use swishxx.Common.{
  ℕ, zero, suc, ◌+◌, ◌*◌, ◌-◌, ◌/◌, ◌%◌, ◌^◌, ◌<◌, ◌≤◌, ◌≡◌, ◌≢◌, refl, arith, Bool, true, false,
  not, List, [], ◌∷◌, ◌++◌, Option, none, some, ◌==◌, if◌then◌else◌, bit_or, Bool-cases, inl, inr,
  length,
}
use swishxx.Common.Bits.{or_16}
use swishxx.Common.Ctype.{is_xdigit, is_digit, toupper}
use swishxx.Charset.{Decoder}

-- The value of a hexadecimal digit.
unfoldable pub hex_value : ℕ → ℕ
unfolding is_digit toupper
hex_value h = if is_digit h then h - b'0' else toupper h - b'A' + 10

-- From the two hexadecimal digits on, `h1` being read.
unfoldable pub hex_pair : ℕ → Decoder
unfolding hex_value is_xdigit
hex_pair h1 [] = some (b' ', [])
hex_pair h1 (h2 ∷ bs) =
    if not (is_xdigit h1)
    then some (b' ', h2 ∷ bs)
    else if not (is_xdigit h2)
    then some (b' ', bs)
    else some (bit_or (16 * hex_value h1) (hex_value h2), bs)

-- Where the loop `while ( true )` is: at the byte behind a `=`, or behind a CR or a LF of a soft line break.
pub data Place : Type 0 where
  after_equals after_cr after_lf : Place

unfoldable pub quoted : Place → Decoder
unfolding hex_pair
quoted p [] = some (b' ', [])
quoted after_equals (h1 ∷ bs) = elim (h1 == 13) [
  | true ↦ quoted after_cr bs
  | false ↦ (elim (h1 == 10) [ true ↦ quoted after_lf bs | false ↦ hex_pair h1 bs ])
]
quoted after_cr (b ∷ bs) = elim (b == 10) [
  | true ↦ quoted after_lf bs
  | false ↦ (elim (b == b'=') [ true ↦ quoted after_equals bs | false ↦ some (b, bs) ])
]
quoted after_lf (b ∷ bs) = elim (b == b'=') [ true ↦ quoted after_equals bs | false ↦ some (b, bs) ]

unfoldable pub encoding_quoted_printable : Decoder
unfolding quoted
encoding_quoted_printable [] = none
encoding_quoted_printable (b ∷ bs) = if b == b'=' then quoted after_equals bs else some (b, bs)
