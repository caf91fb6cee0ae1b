-- ===== src/Charset/Utf8.antt =====
-- src/charsets/utf8.cpp.
pub mod RoundTrip
use swishxx.Common.{
  ℕ, zero, suc, ◌+◌, ◌*◌, ◌-◌, ◌%◌, ◌^◌, Bool, true, false, List, [], ◌∷◌, Option, none, some, ltb,
  leb, ◌==◌, if◌then◌else◌, bit_and,
}
use swishxx.Charset.{Decoder, unicode_to_ascii}

-- `trailing_bytes_table`, by the ranges of its entries.
unfoldable pub trailing_bytes : ℕ → ℕ
trailing_bytes b =
    if ltb b 0xc0
    then 0
    else if ltb b 0xe0
    then 1
    else if ltb b 0xf0
    then 2
    else if ltb b 0xf8
    then 3
    else if ltb b 0xfc
    then 4
    else 5

-- `offset_table`
unfoldable pub offset : ℕ → ℕ
offset zero = 0
offset (suc zero) = 0x3080
offset (suc (suc zero)) = 0xe2080
offset (suc (suc (suc zero))) = 0x3c82080
offset (suc (suc (suc (suc zero)))) = 0xfa082080
offset _ = 0x82082080

-- The switch, from the case of the bytes that are left: `u` so far, a 32-bit number, and the byte at `c`.
unfoldable pub gather : ℕ → ℕ → ℕ → List ℕ → ℕ × List ℕ
gather zero u b bs = ((u + b) % 2 ^ 32, bs)
gather (suc n) u b [] = ((u + b) * 64 % 2 ^ 32, [])
gather (suc n) u b (b' ∷ bs) = gather n ((u + b) * 64 % 2 ^ 32) b' bs

-- `u -= offset_table[ trailing_bytes ]`, and the character.
abbrev pub converted : ℕ → ℕ × List ℕ → ℕ × List ℕ
converted n p = (unicode_to_ascii ((p.0 + (2 ^ 32 - offset n)) % 2 ^ 32), p.1)

-- At a byte with the bits 11 in front.
unfoldable pub at_first : ℕ → List ℕ → ℕ × List ℕ
unfolding trailing_bytes offset gather unicode_to_ascii
at_first b bs =
    if bit_and b 0xfe == 0xfe
    then (b' ', bs)
    else converted (trailing_bytes b) (gather (trailing_bytes b) 0 b bs)

-- The loop that skips to such a byte: it reads the byte before it asks for the end.
unfoldable pub sync : Decoder
unfolding at_first
sync [] = none
sync (b ∷ bs) = let rest = sync bs in if bit_and b 0xc0 == 0xc0 then some (at_first b bs) else rest

unfoldable pub charset_utf8 : Decoder
unfolding sync
charset_utf8 [] = none
charset_utf8 (b ∷ bs) = if leb b 127 then some (b, bs) else sync (b ∷ bs)
