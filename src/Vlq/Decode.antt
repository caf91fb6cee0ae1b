-- ===== src/Vlq/Decode.antt =====
-- `vlq::decode` reads back what `vlq::encode` wrote.
use swishxx.Common.{
  ℕ, zero, suc, ◌+◌, ◌*◌, ◌/◌, ◌%◌, ◌^◌, ◌≤◌, ◌<◌, bit_and, bit_or, ◌≡◌, ◌≢◌, refl, ap, ◌∙◌, arith,
  List, [], ◌∷◌, ◌++◌, some, ◌==◌, Bool-cases, inl, inr, length, append_assoc, get_or, ==_iff,
}
use swishxx.Common.Bits.{bit_and_127, bit_and_top, or_128}
use swishxx.Vlq.{IsValue, decode_loop, decode, encode}
use swishxx.Vlq.Encode.{upper, digits, encode-digits, length-digits}

shift : (n b : ℕ) → n < 2 ^ 57 → bit_or (n * 128 % 2 ^ 64) (bit_and b 0x7f) ≡ 128 * n + b % 128
shift n b h =
    let e : n * 128 % 2 ^ 64 ≡ 128 * n = omega arith in
    rw (e, bit_and_127 b) (or_128 n (b % 128) (omega arith))

-- One byte of the loop, inner and last.
inner :
    (n b : ℕ) (bs : List ℕ)
    → n < 2 ^ 57
    → b < 128
    → decode_loop n ((128 + b) ∷ bs) ≡ decode_loop (128 * n + b) bs
unfolding decode_loop
inner n b bs h hb =
    let e : bit_and (128 + b) 0x80 ≡ 128 = bit_and_top (128 + b) (omega arith) ∙ omega arith in
    let d : 128 * n + (128 + b) % 128 ≡ 128 * n + b = omega arith in
    rw (e, shift n (128 + b) h, d) refl

last :
    (n b : ℕ) (bs : List ℕ) → n < 2 ^ 57 → b < 128 → decode_loop n (b ∷ bs) ≡ some (128 * n + b, bs)
unfolding decode_loop
last n b bs h hb =
    let e : bit_and b 0x80 ≡ 0 = bit_and_top b (omega arith) ∙ omega arith in
    let d : 128 * n + b % 128 ≡ 128 * n + b = omega arith in rw (e, shift n b h, d) refl

decode_loop-upper :
    (k n : ℕ) (rest : List ℕ)
    → n < 128 ^ k
    → n < 2 ^ 64
    → decode_loop 0 (upper k n ++ rest) ≡ decode_loop n rest
unfolding upper
decode_loop-upper zero n rest h u = ap (λ m. decode_loop m rest) (omega arith)
decode_loop-upper (suc k) n rest h u = elim (Bool-cases (n == 0)) [
  | inl z ↦ rw z (ap (λ m. decode_loop m rest) (ground arith))
  | inr p ↦
      rw (p, append_assoc)
        (decode_loop-upper k (n / 128) ((128 + n % 128) ∷ rest) (omega arith) (omega arith)
          ∙ inner (n / 128) (n % 128) rest (omega arith) (omega arith)
          ∙ ap (λ m. decode_loop m rest) (omega arith))
]

pub decode-digits : (n : ℕ) (rest : List ℕ) → IsValue n → decode (digits n ++ rest) ≡ some (n, rest)
unfolding decode digits
decode-digits n rest h = rw append_assoc (
    decode_loop-upper 9 (n / 128) (n % 128 ∷ rest) (omega arith) (omega arith)
    ∙ last (n / 128) (n % 128) rest (omega arith) (omega arith)
    ∙ ap (λ m. some (m, rest)) (omega arith))

-- The first byte of a list; the stop marker where there is none.
abbrev pub first : List ℕ → ℕ
first bs = get_or bs 0 0x80

upper-zero : (k n : ℕ) → n ≡ 0 → upper k n ≡ []
unfolding upper
upper-zero zero n e = refl
upper-zero (suc k) n e = rw e

first-upper : (k n : ℕ) (rest : List ℕ) → n < 128 ^ k → n ≢ 0 → 0x80 < first (upper k n ++ rest)
unfolding upper
first-upper zero n rest h p = absurd (p (omega arith))
first-upper (suc k) n rest h p = elim (Bool-cases (n == 0)) [
  | inl z ↦ absurd (p ((==_iff n 0).0 z))
  | inr q ↦
      rw (q, append_assoc)
        (elim (Bool-cases (n / 128 == 0)) [
          | inl z ↦ rw (upper-zero k (n / 128) ((==_iff _ 0).0 z)) (ground arith)
          | inr more ↦
              first-upper k (n / 128) ((128 + n % 128) ∷ rest) (omega arith) (λ e. ground arith)
        ])
]

-- No code begins with the byte 0x80.
pub first-digits : (n : ℕ) (rest : List ℕ) → IsValue n → first (digits n ++ rest) ≢ 0x80
unfolding digits
first-digits n rest h = rw append_assoc (elim (Bool-cases (n / 128 == 0)) [
  | inl z ↦ rw (upper-zero 9 (n / 128) ((==_iff _ 0).0 z)) (omega arith)
  | inr more ↦
      let f = first-upper 9 (n / 128) (n % 128 ∷ rest) (omega arith) (λ e. ground arith) in
      λ e. omega arith
])

-- Every unsigned long is written without leaving the 20-byte buffer, in 1 to 10 bytes; whatever
-- bytes follow, `decode` reads it back and stops behind it; and its code never begins with 0x80,
-- the byte that ends lists of codes in the index.
pub decode-encode :
    (n : ℕ) (rest : List ℕ)
    → IsValue n
    → (bs : List ℕ) × (encode n ≡ some bs)
      × (1 ≤ length bs)
      × (length bs ≤ 10)
      × (decode (bs ++ rest) ≡ some (n, rest))
      × (first (bs ++ rest) ≢ 0x80)
decode-encode n rest h = (
  digits n,
  encode-digits n h,
  (length-digits n).0,
  (length-digits n).1,
  decode-digits n rest h,
  first-digits n rest h,
)
