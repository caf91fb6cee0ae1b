-- ===== src/Vlq/Encode.antt =====
-- What `vlq::encode` writes.
use swishxx.Common.{
  ℕ, zero, suc, ◌+◌, ◌/◌, ◌%◌, ◌^◌, ◌≤◌, ◌<◌, bit_and, bit_or, ◌≡◌, refl, ap, ◌∙◌, arith, List, [],
  ◌∷◌, ◌++◌, some, ◌==◌, if◌then◌else◌, Bool-cases, inl, inr, length, length-append, append_assoc,
  All, All-append,
}
use swishxx.Common.Bits.{bit_and_127, or_top}
use swishxx.Vlq.{IsValue, buf_size, encode_loop, clear_last, encode}

-- The groups above the lowest one, each with its top bit set; `k` bounds their number.
unfoldable pub upper : ℕ → ℕ → List ℕ
upper zero n = []
upper (suc k) n =
    let rest = upper k (n / 128) in if n == 0 then [] else rest ++ ((128 + n % 128) ∷ [])

-- The code of `n` in plain arithmetic.
unfoldable pub digits : ℕ → List ℕ
digits n = upper 9 (n / 128) ++ (n % 128 ∷ [])

group : (n : ℕ) → bit_or 0x80 (bit_and n 0x7f) ≡ 128 + n % 128
group n = rw bit_and_127 (or_top (n % 128) (omega arith))

-- The loop writes one group for each round, and needs no more room than that.
encode_loop-upper :
    (k room n : ℕ) (out : List ℕ)
    → n / 128 < 128 ^ k
    → k < room
    → encode_loop room n out ≡ some (upper k (n / 128) ++ ((128 + n % 128) ∷ out))
unfolding encode_loop upper
encode_loop-upper k zero n out h r = absurd (omega arith)
encode_loop-upper zero (suc room) n out h r = ground (arith, group n)
encode_loop-upper (suc k) (suc room) n out h r = elim (Bool-cases (n / 128 == 0)) [
  | inl done ↦ rw (done, group n)
  | inr more ↦
      rw (more, group n)
        (encode_loop-upper k room (n / 128) ((128 + n % 128) ∷ out) (omega arith) (omega arith)
          ∙ rw append_assoc)
]

clear_last-concat :
    (bs : List ℕ) (b : ℕ) → clear_last (bs ++ (b ∷ [])) ≡ bs ++ (bit_and b 0x7f ∷ [])
unfolding clear_last
clear_last-concat [] b = refl
clear_last-concat (x ∷ []) b = refl
clear_last-concat (x ∷ y ∷ bs) b = ap (◌∷◌ x) (clear_last-concat (y ∷ bs) b)

-- Every unsigned long is written, and the buffer is never left.
pub encode-digits : (n : ℕ) → IsValue n → encode n ≡ some (digits n)
unfolding encode digits
encode-digits n h =
    rw (encode_loop-upper 9 buf_size n [] (omega arith) (omega arith))
      (ap some (clear_last-concat (upper 9 (n / 128)) (128 + n % 128) ∙ last))
  where
    last : upper 9 (n / 128) ++ (bit_and (128 + n % 128) 0x7f ∷ []) ≡ digits n
    last = rw (bit_and_127 (128 + n % 128)) (ap (λ b. upper 9 (n / 128) ++ (b ∷ [])) (omega arith))

pub length-upper : (k n : ℕ) → length (upper k n) ≤ k
unfolding upper
length-upper zero n = omega arith
length-upper (suc k) n =
    ground
      (arith, length-upper k (n / 128), length-append (upper k (n / 128)) ((128 + n % 128) ∷ []))

pub upper-bytes : (k n : ℕ) → All (λ b. b < 256) (upper k n)
unfolding upper
upper-bytes zero n = tt
upper-bytes (suc k) n = elim (Bool-cases (n == 0)) [
  | inl z ↦ rw z tt
  | inr p ↦ rw p (All-append _ _ _ (upper-bytes k (n / 128)) (omega arith, tt))
]

pub length-digits : (n : ℕ) → (1 ≤ length (digits n)) × (length (digits n) ≤ 10)
unfolding digits
length-digits n =
    let len = length-append (upper 9 (n / 128)) (n % 128 ∷ []) in
    (omega arith, omega (arith, length-upper 9 (n / 128)))
