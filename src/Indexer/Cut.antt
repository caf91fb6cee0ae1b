-- ===== src/Indexer/Cut.antt =====
-- `indexer::index_words` of src/indexer.cpp indexes the runs of word characters that are not too long.
use swishxx.Common.{
  ℕ, ◌≤◌, ◌<◌, ◌≡◌, refl, sym, arith, true, false, List, [], ◌∷◌, ◌++◌, append-nil, append_assoc,
  ltb, leb, if◌then◌else◌, Bool-cases, inl, inr, length, length-append, map, ◌∙◌,
}
use swishxx.Word.{is_word_char}
use swishxx.Token.Latin1.{iso8859_1_to_ascii}
use swishxx.Indexer.{
  Options, State, Place, outside, inside, too_big, collect, flush, index_chars, index_words,
  index_word, word_hard_max_size,
}

-- A run in front of others, if there is one.
abbrev pub keep : List ℕ → List (List ℕ) → List (List ℕ)
keep [] rs = rs
keep (c ∷ cs) rs = (c ∷ cs) ∷ rs

-- The run of word characters at the front, and the runs behind it.
unfoldable pub split : List ℕ → List ℕ × List (List ℕ)
split [] = ([], [])
split (c ∷ cs) =
    let rest = split cs in if is_word_char c then (c ∷ rest.0, rest.1) else ([], keep rest.0 rest.1)

-- The longest runs of word characters.
abbrev pub runs : List ℕ → List (List ℕ)
runs cs = keep (split cs).0 (split cs).1

-- Every word that is not too long, indexed in its turn.
unfoldable pub feed : Options → ℕ → List (List ℕ) → State → State
feed o m [] s = s
feed o m (w ∷ ws) s =
    feed o m ws (if leb (length w) word_hard_max_size then index_word o w m s else s)

-- What is still to be indexed from a place in the characters on.
abbrev pending : Place → List ℕ × List (List ℕ) → List (List ℕ)
pending outside p = keep p.0 p.1
pending (inside w) p = (w ++ p.0) ∷ p.1
pending too_big p = p.1

abbrev Fits : Place → Type 0
Fits (inside w) = length w ≤ word_hard_max_size
Fits _ = Unit

feed-keep :
    (o : Options) (m : ℕ) (w : List ℕ) (ws : List (List ℕ)) (s : State)
    → length w ≤ word_hard_max_size
    → feed o m (w ∷ ws) s ≡ feed o m ws (index_word o w m s)
unfolding feed
feed-keep o m w ws s h =
    let b : leb (length w) word_hard_max_size ≡ true = ground arith in rw b refl

feed-long :
    (o : Options) (m : ℕ) (w : List ℕ) (ws : List (List ℕ)) (s : State)
    → word_hard_max_size < length w
    → feed o m (w ∷ ws) s ≡ feed o m ws s
unfolding feed
feed-long o m w ws s h =
    let b : leb (length w) word_hard_max_size ≡ false = ground arith in rw b refl

collect-Fits : (p : Place) (c : ℕ) → Fits p → Fits (collect p c)
unfolding collect
collect-Fits outside c h = omega arith
collect-Fits too_big c h = tt
collect-Fits (inside w) c h = elim (Bool-cases (ltb (length w) word_hard_max_size)) [
  | inl y ↦ rw y (let l = length-append w (c ∷ []) in ground arith)
  | inr n ↦ rw n tt
]

-- A word character.
collect-pending :
    (o : Options) (m : ℕ) (p : Place) (c : ℕ) (r : List ℕ) (rs : List (List ℕ)) (s : State)
    → Fits p
    → feed o m (pending (collect p c) (r, rs)) s ≡ feed o m (pending p (c ∷ r, rs)) s
unfolding collect
collect-pending o m outside c r rs s h = refl
collect-pending o m too_big c r rs s h = refl
collect-pending o m (inside w) c r rs s h = elim (Bool-cases (ltb (length w) word_hard_max_size)) [
  | inl y ↦ rw (y, append_assoc w (c ∷ []) r) refl
  | inr n ↦
      rw n
        (sym (feed-long o m (w ++ (c ∷ r)) rs s (let l = length-append w (c ∷ r) in ground arith)))
]

-- Any other character.
flush-pending :
    (o : Options) (m : ℕ) (p : Place) (rs : List (List ℕ)) (s : State)
    → Fits p
    → feed o m rs (flush o m p s) ≡ feed o m (pending p ([], rs)) s
flush-pending o m outside rs s h = refl
flush-pending o m too_big rs s h = refl
flush-pending o m (inside w) rs s h = rw (append-nil w) (sym (feed-keep o m w rs s h))

index_chars-pending :
    (o : Options) (m : ℕ) (p : Place) (xs : List ℕ) (s : State)
    → Fits p
    → index_chars o m p xs s ≡ feed o m (pending p (split (map iso8859_1_to_ascii xs))) s
unfolding index_chars split feed
index_chars-pending o m p [] s h = flush-pending o m p [] s h
index_chars-pending o m p (x ∷ xs) s h =
    let rest = split (map iso8859_1_to_ascii xs) in
    let c = iso8859_1_to_ascii x in
    elim (Bool-cases (is_word_char c)) [
      | inl y ↦
          rw (y, split, index_chars)
            (index_chars-pending o m (collect p c) xs s (collect-Fits p c h)
              ∙ collect-pending o m p c rest.0 rest.1 s h)
      | inr n ↦
          rw (n, split, index_chars)
            (index_chars-pending o m outside xs (flush o m p s) tt
              ∙ flush-pending o m p (keep rest.0 rest.1) s h)
    ]

-- `index_words` calls `index_word` for the longest runs of word characters, in their order, but
-- for those of more than 25 characters.
pub index_words-runs :
    (o : Options) (xs : List ℕ) (m : ℕ) (s : State)
    → index_words o xs m s ≡ feed o m (runs (map iso8859_1_to_ascii xs)) s
unfolding index_words
index_words-runs o xs m s = index_chars-pending o m outside xs s tt
