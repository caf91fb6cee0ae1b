-- ===== src/Word/Through.antt =====
-- The second loop of `is_ok_word` gets through a word whose parts fit, and so through just such words.
use swishxx.Common.{
  ℕ, ◌+◌, ◌<◌, ◌≡◌, ◌↔◌, ◌⊎◌, refl, ap, ◌∙◌, arith, true, false, List, [], ◌∷◌, ◌++◌, some, ◌==◌,
  if◌then◌else◌, Bool-cases, inl, inr, length, All, append_assoc,
}
use swishxx.Common.Ctype.{is_digit, is_punct, tolower}
use swishxx.Stem.{is_vowel}
use swishxx.Word.{Scan, scan_start, same_step, letter_step, scan_char, scan}
use swishxx.Word.Runs.{is_letter, IsVowel, IsConsonant, IsPunct}
use swishxx.Word.Parts.{times, IsLike, PartsFit, not_same, scan-PartsFit}
use swishxx.Word.Tails.{Tail, Tail-nil, Tail-snoc, Tail-Limit, grow-length, grow-times}

-- What the variables of the loop say of what was read.
record History (s : Scan) (p : List ℕ) : Type 0 where
  vowels : Tail IsVowel length s.consec_vowels p
  consonants : Tail IsConsonant length s.consec_consonants p
  puncts : Tail IsPunct length s.consec_puncts p
  same :
      (s.last_c ≡ 0)
      ⊎ ((is_letter s.last_c ≡ true)
          × Tail (IsLike s.last_c) (times s.last_c) (s.consec_same + 1) p)

-- A step that the loop makes, and what is known behind it.
abbrev Goes : Scan → ℕ → List ℕ → Type 0
Goes s c p = (s' : Scan) × (scan_char s c ≡ some s') × History s' (p ++ (c ∷ []))

digit-Goes : (s : Scan) (c : ℕ) (p : List ℕ) → is_digit c ≡ true → Goes s c p
unfolding scan_char
digit-Goes s c p y = (
  record s { consec_consonants = 0; consec_vowels = 0; consec_puncts = 0; last_c = 0 },
  rw (y, scan_char) refl,
  record {
    vowels = Tail-nil IsVowel length _ refl;
    consonants = Tail-nil IsConsonant length _ refl;
    puncts = Tail-nil IsPunct length _ refl;
    same = inl refl;
  },
)

punct-Goes :
    (s : Scan) (c : ℕ) (p b : List ℕ)
    → IsPunct c
    → PartsFit ((p ++ (c ∷ [])) ++ b)
    → History s p
    → Goes s c p
unfolding scan_char
punct-Goes s c p b k fit h =
    let tail = Tail-snoc IsPunct length s.consec_puncts 1 p c (grow-length c) k h.puncts in
    let low =
      Tail-Limit IsPunct length (s.consec_puncts + 1) 1 (p ++ (c ∷ [])) b tail fit.few_puncts in
    (
      record s { consec_puncts = s.consec_puncts + 1; consec_consonants = 0; consec_vowels = 0 },
      ground arith,
      record {
        vowels = Tail-nil IsVowel length _ refl;
        consonants = Tail-nil IsConsonant length _ refl;
        puncts = tail;
        same = elim h.same [ inl none_yet ↦ inl none_yet | inr (l, t) ↦ inr (l, like l t) ];
      },
    )
  where
    like :
        is_letter s.last_c ≡ true
        → Tail (IsLike s.last_c) (times s.last_c) (s.consec_same + 1) p
        → Tail (IsLike s.last_c) (times s.last_c) (s.consec_same + 1) (p ++ (c ∷ []))
    like l t =
        let m = not_same s.last_c c l k in
        let zero_more : (if c == s.last_c then 1 else 0) ≡ 0 = rw m refl in
        let (a, v, e, all, n) =
          Tail-snoc (IsLike s.last_c) (times s.last_c) (s.consec_same + 1) 0 p c
            (grow-times s.last_c c 0 zero_more) (inr k) t in
        (a, v, e, all, omega (arith, n))

-- The count of repetitions behind a letter.
same_goes :
    (s : Scan) (c : ℕ) (p b : List ℕ)
    → is_letter c ≡ true
    → 0 < c
    → PartsFit ((p ++ (c ∷ [])) ++ b)
    → History s p
    → (m : ℕ) × (same_step s c ≡ some (record s { consec_same = m; last_c = c }))
      × Tail (IsLike c) (times c) (m + 1) (p ++ (c ∷ []))
unfolding same_step
same_goes s c p b k pos fit h = elim (Bool-cases (c == s.last_c)) [
  | inl y ↦ again (ground arith) y
  | inr n ↦
      let e : (c == c) ≡ true = ground arith in
      (0, rw n refl, (p, c ∷ [], refl, (inl refl, tt), rw e refl))
]
  where
    another :
        s.last_c ≡ c
        → Tail (IsLike c) (times c) (s.consec_same + 1) p
        → Tail (IsLike c) (times c) (s.consec_same + 1 + 1) (p ++ (c ∷ []))
    another e t =
        let own : (c == c) ≡ true = ground arith in
        let one : (if c == c then 1 else 0) ≡ 1 = rw own refl in
        Tail-snoc (IsLike c) (times c) (s.consec_same + 1) 1 p c (grow-times c c 1 one) (inl refl) t

    counted :
        s.last_c ≡ c
        → Tail (IsLike c) (times c) (s.consec_same + 1 + 1) (p ++ (c ∷ []))
        → (c == s.last_c) ≡ true
        → (m : ℕ) × (same_step s c ≡ some (record s { consec_same = m; last_c = c }))
          × Tail (IsLike c) (times c) (m + 1) (p ++ (c ∷ []))
    counted e t y =
        let low =
          Tail-Limit (IsLike c) (times c) (s.consec_same + 1 + 1) 3 (p ++ (c ∷ [])) b t
            (fit.few_same c k) in
        let go : same_step s c ≡ some (record s { consec_same = s.consec_same + 1 }) =
          ground arith in
        (
          s.consec_same + 1,
          go ∙ ap (λ x. some (record s { consec_same = s.consec_same + 1; last_c = x })) e,
          t,
        )

    again :
        s.last_c ≡ c
        → (c == s.last_c) ≡ true
        → (m : ℕ) × (same_step s c ≡ some (record s { consec_same = m; last_c = c }))
          × Tail (IsLike c) (times c) (m + 1) (p ++ (c ∷ []))
    again e y = elim h.same [
      | inl none_yet ↦ absurd (omega (arith, e, none_yet, pos))
      | inr (l, t) ↦ counted e (another e (rw e at t)) y
    ]

letter-Goes :
    (s : Scan) (c : ℕ) (p b : List ℕ)
    → is_letter c ≡ true
    → 0 < c
    → PartsFit ((p ++ (c ∷ [])) ++ b)
    → History s p
    → Goes s c p
unfolding scan_char letter_step
letter-Goes s c p b k pos fit h =
    let (m, e, t) = same_goes s c p b k pos fit h in
    let not_digit : is_digit c ≡ false = ground arith in
    let no_punct : is_punct c ≡ false = ground arith in
    elim (Bool-cases (is_vowel (tolower c))) [
      | inl y ↦
          let tail =
            Tail-snoc IsVowel length s.consec_vowels 1 p c (grow-length c) (k, y) h.vowels in
          let low =
            Tail-Limit IsVowel length (s.consec_vowels + 1) 5 (p ++ (c ∷ [])) b tail
              fit.few_vowels in
          (
            record s {
              consec_same = m;
              last_c = c;
              consec_vowels = s.consec_vowels + 1;
              consec_consonants = 0;
              consec_puncts = 0;
            },
            rw (not_digit, no_punct, e, scan_char) (ground arith),
            record {
              vowels = tail;
              consonants = Tail-nil IsConsonant length _ refl;
              puncts = Tail-nil IsPunct length _ refl;
              same = inr (k, t);
            },
          )
      | inr n ↦
          let tail =
            Tail-snoc IsConsonant length s.consec_consonants 1 p c (grow-length c) (k, n)
              h.consonants in
          let low =
            Tail-Limit IsConsonant length (s.consec_consonants + 1) 7 (p ++ (c ∷ [])) b tail
              fit.few_consonants in
          (
            record s {
              consec_same = m;
              last_c = c;
              consec_consonants = s.consec_consonants + 1;
              consec_vowels = 0;
              consec_puncts = 0;
            },
            rw (not_digit, no_punct, e, scan_char) (ground arith),
            record {
              vowels = Tail-nil IsVowel length _ refl;
              consonants = tail;
              puncts = Tail-nil IsPunct length _ refl;
              same = inr (k, t);
            },
          )
    ]

char-Goes :
    (s : Scan) (c : ℕ) (p b : List ℕ)
    → 0 < c
    → PartsFit ((p ++ (c ∷ [])) ++ b)
    → History s p
    → Goes s c p
char-Goes s c p b pos fit h = elim (Bool-cases (is_digit c)) [
  | inl y ↦ digit-Goes s c p y
  | inr n ↦ elim (Bool-cases (is_punct c)) [
    | inl y ↦ punct-Goes s c p b (n, y) fit h
    | inr m ↦ letter-Goes s c p b (ground arith) pos fit h
  ]
]

PartsFit-scan_from :
    (s : Scan) (p cs : List ℕ)
    → All (λ c. 0 < c) cs
    → PartsFit (p ++ cs)
    → History s p
    → scan s cs ≡ true
unfolding scan
PartsFit-scan_from s p [] pos fit h = refl
PartsFit-scan_from s p (c ∷ cs) (here, pos) fit h =
    let fit' : PartsFit ((p ++ (c ∷ [])) ++ cs) = rw (append_assoc p (c ∷ []) cs) fit in
    let (s', e, h') = char-Goes s c p cs here fit' h in
    rw (e, scan) (PartsFit-scan_from s' (p ++ (c ∷ [])) cs pos fit' h')

-- A word without a null gets through the loop exactly when all its parts fit.
pub scan-PartsFit_iff : (w : List ℕ) → All (λ c. 0 < c) w → (scan scan_start w ≡ true) ↔ PartsFit w
scan-PartsFit_iff w pos =
    (scan-PartsFit w, λ fit. PartsFit-scan_from scan_start [] w pos fit nothing)
  where
    nothing : History scan_start []
    nothing = record {
      vowels = Tail-nil IsVowel length [] refl;
      consonants = Tail-nil IsConsonant length [] refl;
      puncts = Tail-nil IsPunct length [] refl;
      same = inl refl;
    }
