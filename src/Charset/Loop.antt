-- ===== src/Charset/Loop.antt =====
-- The loop `while ( !c.at_end() ) ... *c++` over the characters of a range: with a decoder that gets on at
-- each character it comes to an end.
use swishxx.Common.{
  ℕ, zero, suc, ◌<◌, ◌≤◌, ◌≡◌, refl, arith, true, false, List, [], ◌∷◌, Option, none, some, length,
  Option-cases, inl, inr,
}
use swishxx.Charset.{Decoder}
use swishxx.Charset.Range.{Iterator, begin, at_end, read_post, read_post-read_pre}

-- The characters, or a read behind the end of the range; or more rounds are wanted.
pub data Outcome : Type 0 where
  ended : List ℕ → Outcome
  overrun unfinished : Outcome

abbrev pub put : ℕ → Outcome → Outcome
put c (ended cs) = ended (c ∷ cs)
put c overrun = overrun
put c unfinished = unfinished

unfoldable pub read_all : Decoder → ℕ → Iterator → Outcome
unfolding read_post
read_all decode zero it = elim (at_end it) [ true ↦ ended [] | false ↦ unfinished ]
read_all decode (suc fuel) it = elim (at_end it) [
  | true ↦ ended []
  | false ↦ (elim (read_post decode it) [
    | none ↦ overrun
    | some p ↦ put p.0 (read_all decode fuel p.1)
  ])
]

abbrev pub IsFinished : Outcome → Type 0
IsFinished (ended cs) = Unit
IsFinished overrun = Unit
IsFinished unfinished = ⊥

-- A decoder that takes a byte at least.
abbrev pub IsAdvancing : Decoder → Type 0
IsAdvancing decode =
    (bs : List ℕ) (c : ℕ) (rest : List ℕ) → decode bs ≡ some (c, rest) → length rest < length bs

put-IsFinished : (c : ℕ) (o : Outcome) → IsFinished o → IsFinished (put c o)
put-IsFinished c (ended cs) h = tt
put-IsFinished c overrun h = tt
put-IsFinished c unfinished h = absurd h

-- One round, at a byte.
abbrev pub round : Decoder → ℕ → Option (ℕ × List ℕ) → Outcome
round decode fuel none = overrun
round decode fuel (some p) = put p.0 (read_all decode fuel (begin p.1))

pub read_all-round :
    (decode : Decoder) (fuel b : ℕ) (bs : List ℕ)
    → read_all decode (suc fuel) (begin (b ∷ bs)) ≡ round decode fuel (decode (b ∷ bs))
unfolding read_all begin
read_all-round decode fuel b bs = elim (Option-cases (decode (b ∷ bs))) [
  | inl e ↦ rw ((read_post-read_pre decode (begin (b ∷ bs)) tt).0, read_all) (rw e refl)
  | inr (p, e) ↦ rw ((read_post-read_pre decode (begin (b ∷ bs)) tt).0, read_all) (rw e refl)
]

-- With a round for each byte the loop has come to an end, whatever the bytes are, if the decoder takes a byte
-- at least for each character.
pub read_all-IsFinished :
    (decode : Decoder) (bs : List ℕ) (fuel : ℕ)
    → IsAdvancing decode
    → length bs ≤ fuel
    → IsFinished (read_all decode fuel (begin bs))
unfolding read_all
read_all-IsFinished decode [] zero adv h = tt
read_all-IsFinished decode [] (suc fuel) adv h = tt
read_all-IsFinished decode (b ∷ bs) zero adv h = absurd (omega arith)
read_all-IsFinished decode (b ∷ bs) (suc fuel) adv h =
    rw (read_all-round decode fuel b bs) (elim (Option-cases (decode (b ∷ bs))) [
      | inl e ↦ rw e tt
      | inr (p, e) ↦ rw e (
          put-IsFinished p.0 (read_all decode fuel (begin p.1))
            (read_all-IsFinished decode p.1 fuel adv (omega (arith, adv (b ∷ bs) p.0 p.1 e))))
    ])
