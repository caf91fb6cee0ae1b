-- ===== src/Charset/Utf8/RoundTrip.antt =====
-- What `charset_utf8` makes of text that is well formed.
use swishxx.Common.{
  ℕ, ◌+◌, ◌*◌, ◌-◌, ◌/◌, ◌%◌, ◌^◌, ◌≤◌, ◌<◌, ◌≡◌, refl, ap, ◌∙◌, arith, Bool-cases, inl, inr, Bool,
  true, false, List, [], ◌∷◌, ◌++◌, some, ltb, leb, ◌==◌, if◌then◌else◌, bit_and,
}
use mathlib.Core.Path.{subst}
use swishxx.Common.Bits.{passes_below, passes_below-each}
use swishxx.Charset.{unicode_to_ascii}
use swishxx.Charset.Utf8.{trailing_bytes, offset, gather, converted, at_first, sync, charset_utf8}

-- A trailing byte: the six bits of a number from a place on.
abbrev pub tail_byte : ℕ → ℕ
tail_byte n = 0x80 + n % 64

-- The code of a number below 2 ^ 21, in as few bytes as it needs.
unfoldable pub utf8 : ℕ → List ℕ
utf8 u =
    if ltb u 0x80
    then u ∷ []
    else if ltb u 0x800
    then (0xc0 + u / 64) ∷ tail_byte u ∷ []
    else if ltb u 0x10000
    then (0xe0 + u / 4096) ∷ tail_byte (u / 64) ∷ tail_byte u ∷ []
    else (0xf0 + u / 262144) ∷ tail_byte (u / 4096) ∷ tail_byte (u / 64) ∷ tail_byte u ∷ []

-- The bytes that may be the first of a code of two bytes or more.
abbrev first_ok : ℕ → Bool
first_ok k =
    if bit_and (0xc0 + k) 0xc0 == 0xc0
    then (if bit_and (0xc0 + k) 0xfe == 0xfe then false else true)
    else false

first_all : passes_below first_ok 0x38 ≡ true
unfolding passes_below
first_all = refl

split_and :
    (b c : Bool)
    → (if b then (if c then false else true) else false) ≡ true
    → (b ≡ true) × (c ≡ false)
split_and true false h = (refl, refl)
split_and true true h = absurd (cc h)
split_and false c h = absurd (cc h)

first_byte :
    (k : ℕ)
    → k < 0x38
    → ((bit_and (0xc0 + k) 0xc0 == 0xc0) ≡ true) × ((bit_and (0xc0 + k) 0xfe == 0xfe) ≡ false)
first_byte k h = split_and _ _ (passes_below-each first_ok 0x38 first_all k h)

first_in_range :
    (b : ℕ)
    → 0xc0 ≤ b
    → b < 0xf8
    → ((bit_and b 0xc0 == 0xc0) ≡ true) × ((bit_and b 0xfe == 0xfe) ≡ false)
first_in_range b lo hi =
    let e : 0xc0 + (b - 0xc0) ≡ b = omega arith in
    subst (λ x. ((bit_and x 0xc0 == 0xc0) ≡ true) × ((bit_and x 0xfe == 0xfe) ≡ false)) e
      (first_byte (b - 0xc0) (omega arith))

-- A code of two bytes or more starts with `at_first`, which goes by the number of trailing bytes.
starts :
    (b n : ℕ) (bs : List ℕ)
    → 0xc0 ≤ b
    → b < 0xf8
    → trailing_bytes b ≡ n
    → charset_utf8 (b ∷ bs) ≡ some (converted n (gather n 0 b bs))
unfolding charset_utf8 sync at_first
starts b n bs lo hi t =
    let (c, f) = first_in_range b lo hi in
    let big : leb b 127 ≡ false = ground arith in rw (big, c, f, t) refl

-- The numbers that the bytes of a code add up to.
two_bytes :
    (u : ℕ) (rest : List ℕ)
    → u < 0x800
    → converted 1 (gather 1 0 (0xc0 + u / 64) (tail_byte u ∷ rest)) ≡ (unicode_to_ascii u, rest)
unfolding gather offset
two_bytes u rest h =
    let e : ((0 + (0xc0 + u / 64)) * 64 % 2 ^ 32 + tail_byte u) % 2 ^ 32 + (2 ^ 32 - 0x3080)
        ≡ 2 ^ 32 + u =
      omega arith in
    let f : (2 ^ 32 + u) % 2 ^ 32 ≡ u = omega arith in rw (e, f) refl

three_bytes :
    (u : ℕ) (rest : List ℕ)
    → u < 0x10000
    → converted 2 (gather 2 0 (0xe0 + u / 4096) (tail_byte (u / 64) ∷ tail_byte u ∷ rest))
      ≡ (unicode_to_ascii u, rest)
unfolding gather offset
three_bytes u rest h =
    let a : (0 + (0xe0 + u / 4096)) * 64 % 2 ^ 32 ≡ (0xe0 + u / 4096) * 64 = omega arith in
    let b : ((0xe0 + u / 4096) * 64 + tail_byte (u / 64)) * 64 % 2 ^ 32 ≡ 0xe2000 + u / 64 * 64 =
      omega arith in
    let e : (0xe2000 + u / 64 * 64 + tail_byte u) % 2 ^ 32 + (2 ^ 32 - 0xe2080) ≡ 2 ^ 32 + u =
      omega arith in
    let f : (2 ^ 32 + u) % 2 ^ 32 ≡ u = omega arith in rw (a, b, e, f) refl

four_bytes :
    (u : ℕ) (rest : List ℕ)
    → u < 0x200000
    → converted 3 (
        gather 3 0
          (0xf0 + u / 262144)
          (tail_byte (u / 4096) ∷ tail_byte (u / 64) ∷ tail_byte u ∷ rest))
      ≡ (unicode_to_ascii u, rest)
unfolding gather offset
four_bytes u rest h =
    let a : (0 + (0xf0 + u / 262144)) * 64 % 2 ^ 32 ≡ (0xf0 + u / 262144) * 64 = omega arith in
    let b : ((0xf0 + u / 262144) * 64 + tail_byte (u / 4096)) * 64 % 2 ^ 32
        ≡ 0xf2000 + u / 4096 * 64 =
      omega arith in
    let c : (0xf2000 + u / 4096 * 64 + tail_byte (u / 64)) * 64 % 2 ^ 32 ≡ 0x3c82000 + u / 64 * 64 =
      omega arith in
    let e : (0x3c82000 + u / 64 * 64 + tail_byte u) % 2 ^ 32 + (2 ^ 32 - 0x3c82080) ≡ 2 ^ 32 + u =
      omega arith in
    let f : (2 ^ 32 + u) % 2 ^ 32 ≡ u = omega arith in rw (a, b, c, e, f) refl

-- The number of trailing bytes is read off the first one.
trailing_bytes_1 : (b : ℕ) → 0xc0 ≤ b → b < 0xe0 → trailing_bytes b ≡ 1
unfolding trailing_bytes
trailing_bytes_1 b lo hi = ground arith

trailing_bytes_2 : (b : ℕ) → 0xe0 ≤ b → b < 0xf0 → trailing_bytes b ≡ 2
unfolding trailing_bytes
trailing_bytes_2 b lo hi = ground arith

trailing_bytes_3 : (b : ℕ) → 0xf0 ≤ b → b < 0xf8 → trailing_bytes b ≡ 3
unfolding trailing_bytes
trailing_bytes_3 b lo hi = ground arith

-- What is returned for a character: in the ASCII range the byte itself.
abbrev pub decoded : ℕ → ℕ
decoded u = if ltb u 0x80 then u else unicode_to_ascii u

decode_ascii : (u : ℕ) (rest : List ℕ) → u < 0x80 → charset_utf8 (u ∷ rest) ≡ some (u, rest)
unfolding charset_utf8
decode_ascii u rest h = let b : leb u 127 ≡ true = ground arith in rw b refl

decode_2 :
    (u : ℕ) (rest : List ℕ)
    → u < 0x800
    → charset_utf8 ((0xc0 + u / 64) ∷ tail_byte u ∷ rest) ≡ some (unicode_to_ascii u, rest)
decode_2 u rest h =
    let b = 0xc0 + u / 64 in
    starts b 1 (tail_byte u ∷ rest) (omega arith) (omega arith)
      (trailing_bytes_1 b (omega arith) (omega arith))
    ∙ ap some (two_bytes u rest h)

decode_3 :
    (u : ℕ) (rest : List ℕ)
    → u < 0x10000
    → charset_utf8 ((0xe0 + u / 4096) ∷ tail_byte (u / 64) ∷ tail_byte u ∷ rest)
      ≡ some (unicode_to_ascii u, rest)
decode_3 u rest h =
    let b = 0xe0 + u / 4096 in
    starts b 2 (tail_byte (u / 64) ∷ tail_byte u ∷ rest) (omega arith) (omega arith)
      (trailing_bytes_2 b (omega arith) (omega arith))
    ∙ ap some (three_bytes u rest h)

decode_4 :
    (u : ℕ) (rest : List ℕ)
    → u < 0x200000
    → charset_utf8
        ((0xf0 + u / 262144) ∷ tail_byte (u / 4096) ∷ tail_byte (u / 64) ∷ tail_byte u ∷ rest)
      ≡ some (unicode_to_ascii u, rest)
decode_4 u rest h =
    let b = 0xf0 + u / 262144 in
    starts b 3 (tail_byte (u / 4096) ∷ tail_byte (u / 64) ∷ tail_byte u ∷ rest) (omega arith)
      (omega arith) (trailing_bytes_3 b (omega arith) (omega arith))
    ∙ ap some (four_bytes u rest h)

-- UTF-8 is read back: from the code of a number below 2 ^ 21, with any bytes behind it, comes the
-- character for that number, and `c` is left behind the code.
pub charset_utf8-utf8 :
    (u : ℕ) (rest : List ℕ) → u < 0x200000 → charset_utf8 (utf8 u ++ rest) ≡ some (decoded u, rest)
unfolding utf8
charset_utf8-utf8 u rest h = elim (Bool-cases (ltb u 0x80)) [
  | inl one ↦ rw one (decode_ascii u rest (ground arith))
  | inr n1 ↦ elim (Bool-cases (ltb u 0x800)) [
    | inl two ↦ rw (n1, two) (decode_2 u rest (ground arith))
    | inr n2 ↦ elim (Bool-cases (ltb u 0x10000)) [
      | inl three ↦ rw (n1, n2, three) (decode_3 u rest (ground arith))
      | inr n3 ↦ rw (n1, n2, n3) (decode_4 u rest h)
    ]
  ]
]
