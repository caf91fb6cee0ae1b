-- ===== src/Stem/Replace.antt =====
-- What one call of `replace_suffix` may do: a principle over the rules of a table.
use swishxx.Common.{
  ℕ, zero, suc, ◌+◌, ◌-◌, ◌≤◌, ◌≡◌, refl, arith, List, [], ◌∷◌, ◌++◌, none, some, Option-cases, inl,
  inr, length, take, All, All-append, length-append, length-take,
}
use swishxx.Stem.{Buffer, Rule, try_rule, replace_suffix}

abbrev pub IsLower : ℕ → Type 0
IsLower c = (b'a' ≤ c) × (c ≤ b'z')

-- The C string ends where `word_end` says, and has lower-case letters only.
pub record IsWord (b : Buffer) : Type 0 where
  pub at_end : b.word_end ≡ length b.word
  pub lower : All IsLower b.word

-- A row whose lengths are those of its texts, and whose new suffix is at most `grow` longer than the
-- old one and at least `cut` shorter.
pub record IsRow (grow cut : ℕ) (r : Rule) : Type 0 where
  pub old_length : length r.old_suffix ≡ r.old_suffix_len
  pub new_length : length r.new_suffix ≡ r.new_suffix_len
  pub grows : r.new_suffix_len + cut ≤ r.old_suffix_len + grow
  pub lower : All IsLower r.new_suffix

pub replace_suffix-none :
    (b : Buffer) (r : Rule) (rs : List Rule)
    → try_rule b r ≡ none
    → replace_suffix b (r ∷ rs) ≡ replace_suffix b rs
unfolding replace_suffix
replace_suffix-none b r rs e = rw (e, replace_suffix)

pub replace_suffix-some :
    (b b' : Buffer) (r : Rule) (rs : List Rule)
    → try_rule b r ≡ some b'
    → replace_suffix b (r ∷ rs) ≡ (r.id, b')
unfolding replace_suffix
replace_suffix-some b b' r rs e = rw (e, replace_suffix)

-- A property of the result holds if it holds for no rule, and for each rule of the table that applies.
pub replace_suffix_rule :
    (P : ℕ → Buffer → Type 0) (b : Buffer) (rs : List Rule)
    → P 0 b
    → All (λ r. (b' : Buffer) → try_rule b r ≡ some b' → P r.id b') rs
    → P (replace_suffix b rs).0 (replace_suffix b rs).1
replace_suffix_rule P b [] p h = unfold replace_suffix in p
replace_suffix_rule P b (r ∷ rs) p h = elim (Option-cases (try_rule b r)) [
  | inl e ↦ rw (replace_suffix-none b r rs e) (replace_suffix_rule P b rs p h.1)
  | inr (b', e) ↦ rw (replace_suffix-some b b' r rs e) (h.0 b' e)
]

-- The word with the suffix of a rule replaced.
abbrev pub replaced : Buffer → Rule → Buffer
replaced b r =
    let at = b.word_end - r.old_suffix_len in
    record { word = take at b.word ++ r.new_suffix; word_end = at + r.new_suffix_len }

pub try_rule-replaced :
    (b b' : Buffer) (r : Rule)
    → try_rule b r ≡ some b'
    → (r.old_suffix_len ≤ b.word_end) × (b' ≡ replaced b r)
unfolding try_rule
try_rule-replaced b b' r e = ground arith

All-take : (P : ℕ → Type 0) (n : ℕ) (xs : List ℕ) → All P xs → All P (take n xs)
All-take P zero xs h = tt
All-take P (suc n) [] h = tt
All-take P (suc n) (x ∷ xs) h = (h.0, All-take P n xs h.1)

pub replaced-IsWord :
    (b : Buffer) (r : Rule) (grow cut : ℕ)
    → IsWord b
    → IsRow grow cut r
    → r.old_suffix_len ≤ b.word_end
    → IsWord (replaced b r) × (length (replaced b r).word + cut ≤ length b.word + grow)
replaced-IsWord b r grow cut w ok fits =
    let at = b.word_end - r.old_suffix_len in
    let joined = length-append (take at b.word) r.new_suffix in
    let kept = length-take at b.word in
    (
      record {
        at_end = omega (arith, joined, kept);
        lower =
            All-append IsLower (take at b.word) r.new_suffix (All-take IsLower at b.word w.lower)
              ok.lower;
      },
      omega (arith, joined, kept),
    )

-- A rule keeps the buffer a word, and changes its length by no more than its row allows.
pub try_rule-IsWord :
    (b b' : Buffer) (r : Rule) (grow cut : ℕ)
    → IsWord b
    → IsRow grow cut r
    → try_rule b r ≡ some b'
    → IsWord b' × (length b'.word + cut ≤ length b.word + grow)
try_rule-IsWord b b' r grow cut w ok e =
    let (fits, same) = try_rule-replaced b b' r e in
    rw same (replaced-IsWord b r grow cut w ok fits)

-- The result is a word, and by `cut` of the rule's ID shorter.
abbrev pub Within : ℕ → (ℕ → ℕ) → Buffer → ℕ → Buffer → Type 0
Within grow cut b id b' = IsWord b' × (length b'.word + cut id ≤ length b.word + grow)

-- A table of such rows, on a word.
rows_apply :
    (b : Buffer) (grow : ℕ) (cut : ℕ → ℕ) (rs : List Rule)
    → IsWord b
    → All (λ r. IsRow grow (cut r.id) r) rs
    → All (λ r. (b' : Buffer) → try_rule b r ≡ some b' → Within grow cut b r.id b') rs
rows_apply b grow cut [] w h = tt
rows_apply b grow cut (r ∷ rs) w h =
    (λ b' e. try_rule-IsWord b b' r grow (cut r.id) w h.0 e, rows_apply b grow cut rs w h.1)

pub replace_suffix-Within :
    (b : Buffer) (grow : ℕ) (cut : ℕ → ℕ) (rs : List Rule)
    → IsWord b
    → cut 0 ≡ 0
    → All (λ r. IsRow grow (cut r.id) r) rs
    → Within grow cut b (replace_suffix b rs).0 (replace_suffix b rs).1
replace_suffix-Within b grow cut rs w z h =
    replace_suffix_rule (Within grow cut b) b rs (w, omega arith) (rows_apply b grow cut rs w h)

-- A table whose rows never grow the word.
pub replace_suffix-shorter :
    (b : Buffer) (n : ℕ) (rs : List Rule)
    → All (IsRow 0 0) rs
    → IsWord b × (length b.word ≤ n)
    → IsWord (replace_suffix b rs).1 × (length (replace_suffix b rs).1.word ≤ n)
replace_suffix-shorter b n rs h w =
    let (w', l) = replace_suffix-Within b 0 (λ _. 0) rs w.0 refl h in (w', omega arith)
