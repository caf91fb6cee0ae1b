-- ===== src/Posting/Lists.antt =====
-- A list of numbers in the index, written and read: the codes of shorts, then the stop marker.
use swishxx.Common.{
  ℕ, zero, suc, ◌≤◌, ◌<◌, ◌≡◌, ◌≢◌, refl, sym, ◌∙◌, arith, false, ◌||◌, List, [], ◌∷◌, ◌++◌, some,
  ◌==◌, Bool-cases, inl, inr, length, length-append, append-nil, append_assoc, All,
}
use swishxx.Vlq.{IsValue, decode}
use swishxx.Vlq.Encode.{digits, encode-digits, length-digits}
use swishxx.Vlq.Decode.{first, decode-digits, first-digits}
use swishxx.Posting.{stop_marker, IsShort, to_ulong, to_short, contains, write_shorts, AreDistinct}
use swishxx.Posting.Reader.{read_codes, push_back, insert_meta}

unfoldable pub short_codes : List ℕ → List ℕ
short_codes [] = []
short_codes (s ∷ ss) = digits (to_ulong s) ++ short_codes ss

pub to_ulong-fits : (s : ℕ) → IsShort s → IsValue (to_ulong s)
to_ulong-fits s h = ground arith

pub to_short-to_ulong : (s : ℕ) → IsShort s → to_short (to_ulong s) ≡ s
to_short-to_ulong s h = ground arith

pub write_shorts-codes : (ss : List ℕ) → All IsShort ss → write_shorts ss ≡ some (short_codes ss)
unfolding write_shorts short_codes
write_shorts-codes [] h = refl
write_shorts-codes (s ∷ ss) h =
    rw (encode-digits (to_ulong s) (to_ulong-fits s h.0), write_shorts-codes ss h.1) refl

pub length-short_codes : (ss : List ℕ) → length ss ≤ length (short_codes ss)
unfolding short_codes
length-short_codes [] = omega arith
length-short_codes (s ∷ ss) = omega (
  arith,
  length-append (digits (to_ulong s)) (short_codes ss),
  (length-digits (to_ulong s)).0,
  length-short_codes ss,
)

-- One round of the reading loop on a code.
read_codes_step :
    (put : List ℕ → ℕ → List ℕ) (fuel : ℕ) (bs acc : List ℕ) {v : ℕ} {rest : List ℕ}
    → first bs ≢ stop_marker
    → decode bs ≡ some (v, rest)
    → read_codes put (suc fuel) bs acc ≡ read_codes put fuel rest (put acc v)
unfolding read_codes
read_codes_step put fuel [] acc p e = absurd (p refl)
read_codes_step put fuel (b ∷ bs) acc p e = elim (Bool-cases (b == stop_marker)) [
  | inl s ↦ absurd (p (ground arith))
  | inr c ↦ rw (c, e) refl
]

abbrev pub put_all : (List ℕ → ℕ → List ℕ) → List ℕ → List ℕ → List ℕ
put_all put acc [] = acc
put_all put acc (s ∷ ss) = put_all put (put acc (to_ulong s)) ss

-- The reading loop over the codes of shorts, whatever it does with the numbers.
pub read_codes-short_codes :
    (put : List ℕ → ℕ → List ℕ) (ss : List ℕ) (fuel : ℕ) (acc rest : List ℕ)
    → All IsShort ss
    → length ss < fuel
    → read_codes put fuel (short_codes ss ++ (stop_marker ∷ rest)) acc
      ≡ some (put_all put acc ss, rest)
unfolding short_codes
read_codes-short_codes put ss zero acc rest h f = absurd (omega arith)
read_codes-short_codes put [] (suc fuel) acc rest h f = unfold read_codes in refl
read_codes-short_codes put (s ∷ ss) (suc fuel) acc rest h f = rw append_assoc (
    read_codes_step put fuel _ acc (first-digits (to_ulong s) _ (to_ulong-fits s h.0))
      (decode-digits (to_ulong s) _ (to_ulong-fits s h.0))
    ∙ read_codes-short_codes put ss fuel (put acc (to_ulong s)) rest h.1 (omega arith))

-- Pushing back keeps the shorts in order; inserting does too, where none is there already.
pub put_all-push_back : (acc ss : List ℕ) → All IsShort ss → put_all push_back acc ss ≡ acc ++ ss
put_all-push_back acc [] h = sym (append-nil acc)
put_all-push_back acc (s ∷ ss) h =
    rw (to_short-to_ulong s h.0)
      (put_all-push_back (acc ++ (s ∷ [])) ss h.1 ∙ append_assoc acc (s ∷ []) ss)

-- No ID of `ss` is in `acc`.
abbrev pub IsApart : List ℕ → List ℕ → Type 0
IsApart acc ss = All (λ s. contains acc s ≡ false) ss

contains-concat :
    (acc : List ℕ) (s t : ℕ) → contains (acc ++ (s ∷ [])) t ≡ (contains acc t || s == t)
contains-concat [] s t = ground arith
contains-concat (a ∷ acc) s t = ground (arith, contains-concat acc s t)

IsApart-concat :
    (acc ss : List ℕ) (s : ℕ)
    → IsApart acc ss
    → contains ss s ≡ false
    → IsApart (acc ++ (s ∷ [])) ss
IsApart-concat acc [] s h c = tt
IsApart-concat acc (t ∷ ss) s h c =
    (ground (arith, contains-concat acc s t), IsApart-concat acc ss s h.1 (ground arith))

pub put_all-insert_meta :
    (acc ss : List ℕ)
    → All IsShort ss
    → IsApart acc ss
    → AreDistinct ss
    → put_all insert_meta acc ss ≡ acc ++ ss
put_all-insert_meta acc [] h a d = sym (append-nil acc)
put_all-insert_meta acc (s ∷ ss) h a d =
    rw (to_short-to_ulong s h.0, a.0)
      (put_all-insert_meta (acc ++ (s ∷ [])) ss h.1 (IsApart-concat acc ss s a.1 d.0) d.1
        ∙ append_assoc acc (s ∷ []) ss)

pub IsApart-nil : (ss : List ℕ) → IsApart [] ss
IsApart-nil [] = tt
IsApart-nil (s ∷ ss) = (refl, IsApart-nil ss)
