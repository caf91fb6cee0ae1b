-- ===== src/Charset/Utf16.antt =====
-- src/charsets/utf16.cpp. A `char` is signed, so that a byte above 127 fills a wider number with ones.
use swishxx.Common.{
  ℕ, ◌+◌, ◌*◌, ◌-◌, ◌%◌, ◌^◌, ◌<◌, ◌≡◌, refl, Bool, true, List, ◌∷◌, some, ltb, ◌==◌, ==_iff,
  if◌then◌else◌, bit_or,
}
use swishxx.Common.Bits.{passes_below, passes_below-each}
use swishxx.Token.Latin1.{iso8859_1_to_ascii}
use swishxx.Charset.{Decoder, unicode_to_ascii}

-- A char converted to 32 bits.
abbrev pub widen : ℕ → ℕ
widen b = if ltb b 128 then b else b + (2 ^ 32 - 2 ^ 8)

-- `(static_cast<ucs4>( hi ) << 8) | lo`
unfoldable pub unit : ℕ → ℕ → ℕ
unit hi lo = bit_or (widen hi * 256 % 2 ^ 32) (widen lo)

unfoldable pub charset_utf16be : Decoder
unfolding unit unicode_to_ascii
charset_utf16be (b0 ∷ b1 ∷ bs) = some (unicode_to_ascii (unit b0 b1), bs)
charset_utf16be bs = some (b' ', bs)

unfoldable pub charset_utf16le : Decoder
unfolding unit unicode_to_ascii
charset_utf16le (b0 ∷ b1 ∷ bs) = some (unicode_to_ascii (unit b1 b0), bs)
charset_utf16le bs = some (b' ', bs)

-- The character for a Latin-1 code.
abbrev pub latin : ℕ → ℕ
latin x = if ltb x 128 then unicode_to_ascii x else b' '

unit_is : ℕ → Bool
unit_is x = unicode_to_ascii (unit 0 x) == latin x

unit_all : passes_below unit_is 256 ≡ true
unfolding passes_below unit_is unit unicode_to_ascii iso8859_1_to_ascii
unit_all = refl

unit-latin : (x : ℕ) → x < 256 → unicode_to_ascii (unit 0 x) ≡ latin x
unfolding unit_is
unit-latin x h = (==_iff _ _).0 (passes_below-each unit_is 256 unit_all x h)

-- A Latin-1 character in UTF-16, in either order of its bytes, comes out only if it is ASCII: for any other
-- the low byte fills the number with ones, and the character is a space.
pub charset_utf16-latin :
    (x : ℕ) (rest : List ℕ)
    → x < 256
    → (charset_utf16be (0 ∷ x ∷ rest) ≡ some (latin x, rest))
      × (charset_utf16le (x ∷ 0 ∷ rest) ≡ some (latin x, rest))
unfolding charset_utf16be charset_utf16le
charset_utf16-latin x rest h = (rw (unit-latin x h) refl, rw (unit-latin x h) refl)
