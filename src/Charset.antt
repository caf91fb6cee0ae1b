-- ===== src/Charset.antt =====
-- src/charsets and src/encodings: the functions that decode one character from the bytes up to the end of a
-- range, and leave `c` behind it. A `char` is its byte, and is signed; `none` is a read of the byte at
-- `end`.
pub mod Utf8
pub mod Utf16
pub mod QuotedPrintable
pub mod Range
pub mod Loop
pub mod Advance
use swishxx.Common.{ℕ, List, Option, ltb, if◌then◌else◌}
use swishxx.Token.Latin1.{iso8859_1_to_ascii}

abbrev pub Decoder : Type 0
Decoder = List ℕ → Option (ℕ × List ℕ)

-- src/charsets/unicode.h
unfoldable pub unicode_to_ascii : ℕ → ℕ
unicode_to_ascii u = if ltb u 256 then iso8859_1_to_ascii u else b' '
