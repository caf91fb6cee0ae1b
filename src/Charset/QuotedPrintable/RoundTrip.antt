-- ===== src/Charset/QuotedPrintable/RoundTrip.antt =====
-- What `encoding_quoted_printable` makes of text that is well formed.
use swishxx.Common.{
  ℕ, zero, suc, ◌+◌, ◌*◌, ◌-◌, ◌/◌, ◌%◌, ◌<◌, ◌≤◌, ◌≡◌, ◌≢◌, refl, ap, sym, ◌∙◌, arith, Bool, true,
  false, List, [], ◌∷◌, ◌++◌, some, ◌==◌, ltb, if◌then◌else◌, Bool-cases, inl, inr, length, All,
  map,
}
use swishxx.Common.Bits.{or_16}
use swishxx.Common.Ctype.{is_xdigit, is_digit, toupper}
use swishxx.Charset.Range.{begin}
use swishxx.Charset.Loop.{ended, put, read_all, read_all-round, round}
use swishxx.Charset.QuotedPrintable.{
  hex_value, hex_pair, quoted, after_equals, after_lf, encoding_quoted_printable,
}

-- A character as it is, or as `=` and two digits.
pub data Form : Type 0 where
  literal quoted_byte : Form

-- Soft line breaks, CR LF or LF, and a character behind them.
pub record Item : Type 0 where
  pub breaks : List Bool
  pub form : Form
  pub byte : ℕ

abbrev pub IsItem : Item → Type 0
IsItem i = elim i.form [ literal ↦ i.byte ≢ b'=' | quoted_byte ↦ i.byte < 256 ]

abbrev pub digit : ℕ → ℕ
digit d = if ltb d 10 then d + b'0' else d - 10 + b'A'

abbrev pub print_form : Form → ℕ → List ℕ
print_form literal b = b ∷ []
print_form quoted_byte b = b'=' ∷ digit (b / 16) ∷ digit (b % 16) ∷ []

abbrev pub print_breaks : List Bool → List ℕ → List ℕ
print_breaks [] bs = bs
print_breaks (true ∷ crs) bs = b'=' ∷ 13 ∷ 10 ∷ print_breaks crs bs
print_breaks (false ∷ crs) bs = b'=' ∷ 10 ∷ print_breaks crs bs

unfoldable pub print : List Item → List ℕ
print [] = []
print (i ∷ is) = print_breaks i.breaks (print_form i.form i.byte ++ print is)

digit-is_xdigit : (d : ℕ) → d < 16 → is_xdigit (digit d) ≡ true
unfolding is_xdigit
digit-is_xdigit d h = ground arith

hex_value-digit : (d : ℕ) → d < 16 → hex_value (digit d) ≡ d
unfolding hex_value is_digit toupper
hex_value-digit d h = ground arith

hex_pair-digits :
    (b : ℕ) (rest : List ℕ)
    → b < 256
    → hex_pair (digit (b / 16)) (digit (b % 16) ∷ rest) ≡ some (b, rest)
unfolding hex_pair
hex_pair-digits b rest h =
    let hi : b / 16 < 16 = omega arith in
    let lo : b % 16 < 16 = omega arith in
    let whole : 16 * (b / 16) + b % 16 ≡ b = omega arith in
    rw
      (
        digit-is_xdigit (b / 16) hi,
        digit-is_xdigit (b % 16) lo,
        hex_value-digit (b / 16) hi,
        hex_value-digit (b % 16) lo,
        or_16 (b / 16) (b % 16) lo,
        whole,
      )
      refl

quoted-digits :
    (b : ℕ) (rest : List ℕ)
    → b < 256
    → quoted after_equals (digit (b / 16) ∷ digit (b % 16) ∷ rest) ≡ some (b, rest)
unfolding quoted
quoted-digits b rest h =
    let hi : b / 16 < 16 = omega arith in
    let cr : (digit (b / 16) == 13) ≡ false = ground arith in
    let lf : (digit (b / 16) == 10) ≡ false = ground arith in
    rw (cr, lf, quoted) (hex_pair-digits b rest h)

-- Behind a soft line break decoding starts afresh.
quoted-after_lf :
    (b : ℕ) (bs : List ℕ) → quoted after_lf (b ∷ bs) ≡ encoding_quoted_printable (b ∷ bs)
unfolding quoted encoding_quoted_printable
quoted-after_lf b bs = elim (Bool-cases (b == b'=')) [
  | inl y ↦ rw (y, quoted) refl
  | inr n ↦ rw (n, quoted) refl
]

-- Some byte stands behind the breaks.
breaks_front :
    (brs : List Bool) (b : ℕ) (bs : List ℕ)
    → (c : ℕ) × (cs : List ℕ) × (print_breaks brs (b ∷ bs) ≡ c ∷ cs)
breaks_front [] b bs = (b, bs, refl)
breaks_front (true ∷ brs) b bs = (b'=', 13 ∷ 10 ∷ print_breaks brs (b ∷ bs), refl)
breaks_front (false ∷ brs) b bs = (b'=', 10 ∷ print_breaks brs (b ∷ bs), refl)

-- Soft line breaks make no difference.
breaks_skipped :
    (brs : List Bool) (b : ℕ) (bs : List ℕ)
    → encoding_quoted_printable (print_breaks brs (b ∷ bs)) ≡ encoding_quoted_printable (b ∷ bs)
unfolding encoding_quoted_printable quoted
breaks_skipped [] b bs = refl
breaks_skipped (true ∷ brs) b bs =
    let (c, cs, e) = breaks_front brs b bs in
    (rw e (quoted-after_lf c cs)) ∙ (ap encoding_quoted_printable (sym e) ∙ breaks_skipped brs b bs)
breaks_skipped (false ∷ brs) b bs =
    let (c, cs, e) = breaks_front brs b bs in
    (rw e (quoted-after_lf c cs)) ∙ (ap encoding_quoted_printable (sym e) ∙ breaks_skipped brs b bs)

form_read :
    (f : Form) (b : ℕ) (rest : List ℕ)
    → IsItem (record { breaks = []; form = f; byte = b })
    → encoding_quoted_printable (print_form f b ++ rest) ≡ some (b, rest)
unfolding encoding_quoted_printable
form_read literal b rest h = elim (Bool-cases (b == b'=')) [
  | inl y ↦ absurd (h (ground arith))
  | inr n ↦ rw n refl
]
form_read quoted_byte b rest h = quoted-digits b rest h

item_read :
    (brs : List Bool) (f : Form) (b : ℕ) (rest : List ℕ)
    → IsItem (record { breaks = brs; form = f; byte = b })
    → encoding_quoted_printable (print_breaks brs (print_form f b ++ rest)) ≡ some (b, rest)
item_read brs literal b rest h = breaks_skipped brs b rest ∙ form_read literal b rest h
item_read brs quoted_byte b rest h =
    breaks_skipped brs b'=' (digit (b / 16) ∷ digit (b % 16) ∷ rest)
    ∙ form_read quoted_byte b rest h

-- One item is one round of the loop.
item_round :
    (brs : List Bool) (f : Form) (b fuel : ℕ) (rest : List ℕ)
    → IsItem (record { breaks = brs; form = f; byte = b })
    → read_all encoding_quoted_printable
        (suc fuel)
        (begin (print_breaks brs (print_form f b ++ rest)))
      ≡ put b (read_all encoding_quoted_printable fuel (begin rest))
item_round brs literal b fuel rest h =
    let (c, cs, e) = breaks_front brs b rest in
    rw e (
      read_all-round encoding_quoted_printable fuel c cs
      ∙ ap (round encoding_quoted_printable fuel)
          (ap encoding_quoted_printable (sym e) ∙ item_read brs literal b rest h))
item_round brs quoted_byte b fuel rest h =
    let (c, cs, e) = breaks_front brs b'=' (digit (b / 16) ∷ digit (b % 16) ∷ rest) in
    rw e (
      read_all-round encoding_quoted_printable fuel c cs
      ∙ ap (round encoding_quoted_printable fuel)
          (ap encoding_quoted_printable (sym e) ∙ item_read brs quoted_byte b rest h))

-- Quoted-printable text is read back: of characters other than `=` as they are, of bytes as `=` and two digits,
-- and of soft line breaks in front of either, the loop over the range gives the bytes, and comes to its end.
pub read_all-print :
    (is : List Item) (fuel : ℕ)
    → All IsItem is
    → length is ≤ fuel
    → read_all encoding_quoted_printable fuel (begin (print is)) ≡ ended (map (λ i. i.byte) is)
unfolding print read_all begin
read_all-print [] zero h l = refl
read_all-print [] (suc fuel) h l = refl
read_all-print (i ∷ is) zero h l = absurd (omega arith)
read_all-print (i ∷ is) (suc fuel) (h, hs) l =
    item_round i.breaks i.form i.byte fuel (print is) h
    ∙ ap (put i.byte) (read_all-print is fuel hs (omega arith))
