-- ===== src/Word/Tails.antt =====
-- The part of one kind of characters at the end of what the second loop of `is_ok_word` has read, which its counters are about.
use swishxx.Common.{
  ℕ, ◌+◌, ◌≤◌, ◌≡◌, sym, ap, ◌∙◌, arith, List, [], ◌∷◌, ◌++◌, ◌==◌, if◌then◌else◌, length,
  length-snoc, All, append_assoc, append-nil,
}
use swishxx.Word.Parts.{times, Limit}

-- The part at the end of what was read so far, of size `n`.
abbrev pub Tail : (ℕ → Type 0) → (List ℕ → ℕ) → ℕ → List ℕ → Type 0
Tail K size n p = (a v : List ℕ) × (p ≡ a ++ v) × All K v × (size v ≡ n)

pub Tail-nil : (K : ℕ → Type 0) (size : List ℕ → ℕ) (p : List ℕ) → size [] ≡ 0 → Tail K size 0 p
Tail-nil K size p e = (p, [], sym (append-nil p), tt, e)

All-snoc : (K : ℕ → Type 0) (v : List ℕ) (c : ℕ) → All K v → K c → All K (v ++ (c ∷ []))
All-snoc K [] c h k = (k, tt)
All-snoc K (d ∷ v) c (own, h) k = (own, All-snoc K v c h k)

pub Tail-snoc :
    (K : ℕ → Type 0) (size : List ℕ → ℕ) (n m : ℕ) (p : List ℕ) (c : ℕ)
    → ((v : List ℕ) → size (v ++ (c ∷ [])) ≡ size v + m)
    → K c
    → Tail K size n p
    → Tail K size (n + m) (p ++ (c ∷ []))
Tail-snoc K size n m p c grow k (a, v, e, h, len) = (
  a,
  v ++ (c ∷ []),
  rw e (append_assoc a v (c ∷ [])),
  All-snoc K v c h k,
  grow v ∙ ap (λ x. x + m) len,
)

pub Tail-Limit :
    (K : ℕ → Type 0) (size : List ℕ → ℕ) (n max : ℕ) (p b : List ℕ)
    → Tail K size n p
    → Limit K size max (p ++ b)
    → n ≤ max
Tail-Limit K size n max p b (a, v, e, h, len) l =
    omega (arith, len, l a v b (ap (λ x. x ++ b) e ∙ append_assoc a v b) h)

pub grow-length : (c : ℕ) (v : List ℕ) → length (v ++ (c ∷ [])) ≡ length v + 1
grow-length c v = omega (arith, length-snoc v c)

pub grow-times :
    (c d m : ℕ)
    → (if d == c then 1 else 0) ≡ m
    → (v : List ℕ) → times c (v ++ (d ∷ [])) ≡ times c v + m
grow-times c d m e [] = omega (arith, e)
grow-times c d m e (x ∷ v) = omega (arith, grow-times c d m e v)
