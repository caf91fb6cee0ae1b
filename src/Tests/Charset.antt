-- ===== src/Tests/Charset.antt =====
-- The decoders of src/charsets and src/encodings, run and applied.
use swishxx.Common.{◌≡◌, arith, ◌++◌, List, [], ◌∷◌, some, true, map}
use swishxx.Charset.Range.{begin}
use swishxx.Charset.Loop.{read_all, ended, unfinished}
use swishxx.Charset.Advance.{utf16_odd_unfinished}
use swishxx.Charset.Utf8.{charset_utf8}
use swishxx.Charset.Utf8.RoundTrip.{utf8, decoded, charset_utf8-utf8}
use swishxx.Charset.Utf16.{charset_utf16be}
use swishxx.Charset.QuotedPrintable.{encoding_quoted_printable}
use swishxx.Charset.QuotedPrintable.RoundTrip.{Item, literal, quoted_byte, print, read_all-print}

charset_utf8-utf8_example : charset_utf8 (utf8 0xe9 ++ (b'x' ∷ [])) ≡ some (decoded 0xe9, b'x' ∷ [])
charset_utf8-utf8_example = charset_utf8-utf8 0xe9 (b'x' ∷ []) (omega arith)

utf16_odd_unfinished_example : read_all charset_utf16be 100 (begin (0 ∷ b'x' ∷ 0 ∷ [])) ≡ unfinished
utf16_odd_unfinished_example = utf16_odd_unfinished 100 (0 ∷ b'x' ∷ 0 ∷ []) (omega arith)

abbrev items : List Item
items =
    record { breaks = []; form = literal; byte = b'a' }
    ∷ record { breaks = true ∷ []; form = quoted_byte; byte = 0xe9 }
    ∷ []

read_all-print_example :
    read_all encoding_quoted_printable 2 (begin (print items)) ≡ ended (map (λ i. i.byte) items)
read_all-print_example =
    read_all-print items 2 (λ e. absurd (omega (arith, e)), (omega arith, tt)) (omega arith)
