-- ===== src/Eval/Nearness.antt =====
-- The loop over the positions of two words finds them near each other just if some two positions are.
use swishxx.Common.{
  ℕ, zero, suc, ◌+◌, ◌^◌, ◌<◌, ◌≡◌, refl, sym, arith, Bool, true, false, ◌||◌, ◌&&◌, List, [], ◌∷◌,
  leb, length, All, Bool-cases, inl, inr,
}
use swishxx.Posting.Positions.{sums}
use swishxx.Eval.Near.{delta_of, pjl_abs, is_below_one, next_pos, near_loop}

-- Two positions at most `near` words apart.
abbrev pub is_within : ℕ → ℕ → ℕ → Bool
is_within near p q = leb p (q + near) && leb q (p + near)

abbrev pub any_within : ℕ → ℕ → List ℕ → Bool
any_within near p [] = false
any_within near p (q ∷ qs) = is_within near p q || any_within near p qs

-- Some position of the first list is near one of the second.
unfoldable pub some_within : ℕ → List ℕ → List ℕ → Bool
some_within near [] qs = false
some_within near (p ∷ ps) qs = any_within near p qs || some_within near ps qs

-- Every position that a word goes through is an int.
abbrev pub IsIntSum : ℕ → List ℕ → Type 0
IsIntSum p [] = p < 2 ^ 31
IsIntSum p (d ∷ ds) = (p < 2 ^ 31) × (d < 2 ^ 15) × IsIntSum (p + d) ds

delta_near :
    (near p q : ℕ)
    → p < 2 ^ 31
    → q < 2 ^ 31
    → leb (pjl_abs (delta_of p q)) near ≡ is_within near p q
delta_near near p q hp hq = ground arith

delta_below : (p q : ℕ) → p < 2 ^ 31 → q < 2 ^ 31 → is_below_one (delta_of p q) ≡ leb q p
delta_below p q hp hq = ground arith

next_pos_lem : (p d : ℕ) → p < 2 ^ 31 → d < 2 ^ 15 → next_pos p d ≡ p + d
next_pos_lem p d hp hd = ground arith

IsIntSum-first : (p : ℕ) (ds : List ℕ) → IsIntSum p ds → p < 2 ^ 31
IsIntSum-first p [] h = h
IsIntSum-first p (d ∷ ds) h = h.0

-- Positions only grow.
sums-above : (p : ℕ) (ds : List ℕ) (b : ℕ) → b < p → IsIntSum p ds → All (λ x. b < x) (sums p ds)
sums-above p [] b h i = (h, tt)
sums-above p (d ∷ ds) b h (hp, hd, i) =
    (h, rw (next_pos_lem p d hp hd) (sums-above (p + d) ds b (omega arith) i))

any_within-above :
    (near p : ℕ) (qs : List ℕ) → All (λ q. p + near < q) qs → any_within near p qs ≡ false
any_within-above near p [] h = refl
any_within-above near p (q ∷ qs) h = rw (any_within-above near p qs h.1) (ground arith)

some_within-nil : (near : ℕ) (ps : List ℕ) → some_within near ps [] ≡ false
unfolding some_within
some_within-nil near [] = refl
some_within-nil near (p ∷ ps) = some_within-nil near ps

some_within-above :
    (near q : ℕ) (ps qs : List ℕ)
    → All (λ p. q + near < p) ps
    → some_within near ps (q ∷ qs) ≡ some_within near ps qs
unfolding some_within
some_within-above near q [] qs h = refl
some_within-above near q (p ∷ ps) qs h = rw (some_within-above near q ps qs h.1) (ground arith)

some_within-heads :
    (near p q : ℕ) (ds es : List ℕ)
    → is_within near p q ≡ true
    → some_within near (sums p ds) (sums q es) ≡ true
unfolding some_within
some_within-heads near p q [] [] h = rw h refl
some_within-heads near p q [] (e ∷ es) h = rw h refl
some_within-heads near p q (d ∷ ds) [] h = rw h refl
some_within-heads near p q (d ∷ ds) (e ∷ es) h = rw h refl

-- A position that is far below all those of the other word is of no use.
drop_right :
    (near p q : ℕ) (ds qs : List ℕ)
    → q + near < p
    → IsIntSum p ds
    → some_within near (sums p ds) (q ∷ qs) ≡ some_within near (sums p ds) qs
drop_right near p q ds qs h i =
    some_within-above near q (sums p ds) qs (sums-above p ds (q + near) h i)

drop_left :
    (near p q : ℕ) (ps es : List ℕ)
    → p + near < q
    → IsIntSum q es
    → some_within near (p ∷ ps) (sums q es) ≡ some_within near ps (sums q es)
unfolding some_within
drop_left near p q ps es h i =
    rw (any_within-above near p (sums q es) (sums-above q es (p + near) h i)) refl

-- The loop on less fuel is right.
abbrev IsRight : ℕ → ℕ → Type 0
IsRight fuel near =
    (p q : ℕ) (ds es : List ℕ)
    → length ds + length es < fuel
    → IsIntSum p ds
    → IsIntSum q es
    → near_loop fuel near p q ds es ≡ some_within near (sums p ds) (sums q es)

advance_right :
    (fuel near p q : ℕ) (ds es : List ℕ)
    → IsRight fuel near
    → length ds + length es < suc fuel
    → IsIntSum p ds
    → IsIntSum q es
    → q + near < p
    → (elim es [ [] ↦ false | d ∷ es' ↦ near_loop fuel near p (next_pos q d) ds es' ])
      ≡ some_within near (sums p ds) (sums q es)
advance_right fuel near p q ds [] ih l i j far =
    rw (drop_right near p q ds [] far i, some_within-nil near (sums p ds)) refl
advance_right fuel near p q ds (e ∷ es) ih l i (hq, he, j) far =
    rw (next_pos_lem q e hq he, drop_right near p q ds (sums (q + e) es) far i)
      (ih p (q + e) ds es (omega arith) i j)

advance_left :
    (fuel near p q : ℕ) (ds es : List ℕ)
    → IsRight fuel near
    → length ds + length es < suc fuel
    → IsIntSum p ds
    → IsIntSum q es
    → p + near < q
    → (elim ds [ [] ↦ false | d ∷ ds' ↦ near_loop fuel near (next_pos p d) q ds' es ])
      ≡ some_within near (sums p ds) (sums q es)
unfolding some_within
advance_left fuel near p q [] es ih l i j far = rw (drop_left near p q [] es far j) refl
advance_left fuel near p q (d ∷ ds) es ih l (hp, hd, i) j far =
    rw (next_pos_lem p d hp hd, drop_left near p q (sums (p + d) ds) es far j)
      (ih (p + d) q ds es (omega arith) i j)

far_below : (near p q : ℕ) → is_within near p q ≡ false → leb q p ≡ true → q + near < p
far_below near p q h b = ground arith

far_above : (near p q : ℕ) → is_within near p q ≡ false → leb q p ≡ false → p + near < q
far_above near p q h b = ground arith

-- What the loop does behind a pair that is not near.
advance :
    (fuel near p q : ℕ) (ds es : List ℕ)
    → IsRight fuel near
    → length ds + length es < suc fuel
    → IsIntSum p ds
    → IsIntSum q es
    → is_within near p q ≡ false
    → near_loop (suc fuel) near p q ds es ≡ some_within near (sums p ds) (sums q es)
unfolding near_loop some_within
advance fuel near p q ds es ih l i j far =
    let hp = IsIntSum-first p ds i in
    let hq = IsIntSum-first q es j in
    rw (delta_near near p q hp hq, far, delta_below p q hp hq, near_loop)
      (elim (Bool-cases (leb q p)) [
        | inl y ↦
            rw (y, near_loop)
              (advance_right fuel near p q ds es ih l i j (far_below near p q far y))
        | inr n ↦
            rw (n, near_loop) (advance_left fuel near p q ds es ih l i j (far_above near p q far n))
      ])

-- With a round for each delta and one more the loop finds a pair just if there is one; all the
-- positions are ints, and the deltas are not negative.
pub near_loop_lem :
    (fuel near p q : ℕ) (ds es : List ℕ)
    → length ds + length es < fuel
    → IsIntSum p ds
    → IsIntSum q es
    → near_loop fuel near p q ds es ≡ some_within near (sums p ds) (sums q es)
unfolding near_loop
near_loop_lem zero near p q ds es l i j = absurd (omega arith)
near_loop_lem (suc fuel) near p q ds es l i j = elim (Bool-cases (is_within near p q)) [
  | inl y ↦
      rw (delta_near near p q (IsIntSum-first p ds i) (IsIntSum-first q es j), near_loop)
        (rw y (sym (some_within-heads near p q ds es y)))
  | inr n ↦ advance fuel near p q ds es (near_loop_lem fuel near) l i j n
]
