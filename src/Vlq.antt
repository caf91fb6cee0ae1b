-- ===== src/Vlq.antt =====
-- src/pjl/vlq.cpp: variable-length quantities, seven bits to a byte, highest group first, with the
-- top bit set on every byte but the last. A byte is a number below 256; a read behind the last
-- byte that is there, and a write in front of the buffer, give `none`.
pub mod Encode
pub mod Decode
use swishxx.Common.{
  ℕ, zero, suc, ◌+◌, ◌*◌, ◌/◌, ◌%◌, ◌^◌, ◌<◌, bit_and, bit_or, Bool, List, [], ◌∷◌, Option, none,
  some, ◌==◌, if◌then◌else◌,
}
use mathlib.Core.Option

-- `vlq::value_type` is unsigned long: 64 bits.
abbrev pub IsValue : ℕ → Type 0
IsValue n = n < 2 ^ 64

-- The do loop of `encode`: `room` is what is left of `buf` in front of `p`, and `out` is what stands
-- from `p` on.
unfoldable pub encode_loop : ℕ → ℕ → List ℕ → Option (List ℕ)
encode_loop zero n out = none
encode_loop (suc room) n out =
    let out' = bit_or 0x80 (bit_and n 0x7f) ∷ out in
    let rest = encode_loop room (n / 128) out' in if n / 128 == 0 then some out' else rest

-- `buf[ sizeof buf - 1 ] &= 0x7Fu`
unfoldable pub clear_last : List ℕ → List ℕ
clear_last [] = []
clear_last (b ∷ []) = bit_and b 0x7f ∷ []
clear_last (b ∷ c ∷ bs) = b ∷ clear_last (c ∷ bs)

-- The size of `buf`.
abbrev pub buf_size : ℕ
buf_size = 20

unfoldable pub encode : ℕ → Option (List ℕ)
unfolding encode_loop clear_last
encode n = Option.map clear_last (encode_loop buf_size n [])

-- `*p++ & 0x80u`
abbrev pub continues : ℕ → Bool
continues b = if bit_and b 0x80 == 0 then Bool.false else Bool.true

unfoldable pub decode_loop : ℕ → List ℕ → Option (ℕ × List ℕ)
decode_loop n [] = none
decode_loop n (b ∷ bs) =
    let n' = bit_or (n * 128 % 2 ^ 64) (bit_and b 0x7f) in
    let rest = decode_loop n' bs in if continues b then rest else some (n', bs)

-- The value, and the bytes from where `p` is left.
unfoldable pub decode : List ℕ → Option (ℕ × List ℕ)
unfolding decode_loop
decode bs = decode_loop 0 bs
