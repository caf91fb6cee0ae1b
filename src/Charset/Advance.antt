-- ===== src/Charset/Advance.antt =====
-- Which decoders get on at each character: UTF-8 does, UTF-16 does not at a last byte that has no partner.
use swishxx.Common.{
  ℕ, zero, suc, ◌+◌, ◌*◌, ◌%◌, ◌^◌, ◌<◌, ◌≤◌, ◌≡◌, refl, ◌∙◌, arith, List, [], ◌∷◌, Option, none,
  some, ◌==◌, leb, length, Bool-cases, inl, inr, bit_and,
}
use mathlib.Core.Path.{subst}
use swishxx.Charset.{unicode_to_ascii}
use swishxx.Charset.Range.{begin}
use swishxx.Charset.Loop.{IsAdvancing, read_all, read_all-round, unfinished, put, Outcome}
use swishxx.Charset.Utf8.{charset_utf8, sync, at_first, gather, trailing_bytes}
use swishxx.Charset.Utf16.{charset_utf16be, unit}

gather-shorter : (n u b : ℕ) (bs : List ℕ) → length (gather n u b bs).1 ≤ length bs
unfolding gather
gather-shorter zero u b bs = omega arith
gather-shorter (suc n) u b [] = omega arith
gather-shorter (suc n) u b (b' ∷ bs) = omega (arith, gather-shorter n ((u + b) * 64 % 2 ^ 32) b' bs)

at_first-shorter : (b : ℕ) (bs : List ℕ) → length (at_first b bs).1 ≤ length bs
unfolding at_first
at_first-shorter b bs = elim (Bool-cases (bit_and b 0xfe == 0xfe)) [
  | inl y ↦ rw y (omega arith)
  | inr n ↦ rw n (gather-shorter (trailing_bytes b) 0 b bs)
]

-- What is left of the bytes, if there is an answer.
abbrev LeavesFewer : ℕ → Option (ℕ × List ℕ) → Type 0
LeavesFewer l none = Unit
LeavesFewer l (some p) = length p.1 < l

leaves_more : (l m : ℕ) (o : Option (ℕ × List ℕ)) → l ≤ m → LeavesFewer l o → LeavesFewer m o
leaves_more l m none h k = tt
leaves_more l m (some p) h k = omega arith

sync-LeavesFewer : (bs : List ℕ) → LeavesFewer (length bs) (sync bs)
unfolding sync
sync-LeavesFewer [] = tt
sync-LeavesFewer (b ∷ bs) = elim (Bool-cases (bit_and b 0xc0 == 0xc0)) [
  | inl y ↦ rw y (omega (arith, at_first-shorter b bs))
  | inr n ↦
      rw n (leaves_more (length bs) (suc (length bs)) (sync bs) (omega arith) (sync-LeavesFewer bs))
]

utf8-LeavesFewer : (bs : List ℕ) → LeavesFewer (length bs) (charset_utf8 bs)
unfolding charset_utf8
utf8-LeavesFewer [] = tt
utf8-LeavesFewer (b ∷ bs) = elim (Bool-cases (leb b 127)) [
  | inl y ↦ rw y (omega arith)
  | inr n ↦ rw n (sync-LeavesFewer (b ∷ bs))
]

-- Each character of `charset_utf8` takes a byte at least, well formed or not.
pub charset_utf8-IsAdvancing : IsAdvancing charset_utf8
charset_utf8-IsAdvancing bs c rest e = subst (LeavesFewer (length bs)) e (utf8-LeavesFewer bs)

put_unfinished : (c : ℕ) (o : Outcome) → o ≡ unfinished → put c o ≡ unfinished
put_unfinished c o e = rw e refl

-- A text of UTF-16 with an odd number of bytes is never read to its end: `charset_utf16be` does not move on at
-- the last byte, and no number of rounds is enough.
pub utf16_odd_unfinished :
    (fuel : ℕ) (bs : List ℕ)
    → length bs % 2 ≡ 1
    → read_all charset_utf16be fuel (begin bs) ≡ unfinished
unfolding read_all charset_utf16be
utf16_odd_unfinished fuel [] h = absurd (omega arith)
utf16_odd_unfinished zero (b ∷ bs) h = refl
utf16_odd_unfinished (suc fuel) (b ∷ []) h =
    read_all-round charset_utf16be fuel b []
    ∙ put_unfinished b' ' _ (utf16_odd_unfinished fuel (b ∷ []) h)
utf16_odd_unfinished (suc fuel) (b0 ∷ b1 ∷ bs) h =
    read_all-round charset_utf16be fuel b0 (b1 ∷ bs)
    ∙ put_unfinished (unicode_to_ascii (unit b0 b1)) _ (utf16_odd_unfinished fuel bs (omega arith))
