-- ===== src/Indexer/Title.antt =====
-- `indexer::tidy_title` of src/indexer.cpp.
use swishxx.Common.{
  ℕ, suc, ◌-◌, ◌≤◌, ◌<◌, arith, List, [], ◌∷◌, ◌++◌, leb, ◌==◌, if◌then◌else◌, length, codes, take,
  true, false, length-append, length-snoc, length-take, Bool-cases, inl, inr,
}
use swishxx.Common.Ctype.{is_space}

abbrev pub title_max_size : ℕ
title_max_size = 200

-- The two loops that remove spaces, at the front and at the end.
unfoldable pub strip_front : List ℕ → List ℕ
strip_front [] = []
strip_front (c ∷ cs) = let rest = strip_front cs in if is_space c then rest else c ∷ cs

unfoldable pub strip_back : List ℕ → List ℕ
strip_back [] = []
strip_back (c ∷ cs) = elim (strip_back cs) [
  | [] ↦ if is_space c then [] else c ∷ []
  | d ∷ ds ↦ c ∷ d ∷ ds
]

-- `title[ len++ ] = c;`, and the end of the title if it has the size that it may have.
abbrev pub full : List ℕ → List ℕ
full title = take (title_max_size - 3) title ++ codes "..."

-- The loop over the characters; `title` is what is written so far.
unfoldable pub squeeze : List ℕ → ℕ → List ℕ → List ℕ
squeeze [] consec_spaces title = title
squeeze (c ∷ cs) consec_spaces title = elim (is_space c) [
  | true ↦ (elim (leb 2 (suc consec_spaces)) [
    | true ↦ squeeze cs (suc consec_spaces) title
    | false ↦ (elim (suc (length title) == title_max_size) [
      | true ↦ full (title ++ (b' ' ∷ []))
      | false ↦ squeeze cs (suc consec_spaces) (title ++ (b' ' ∷ []))
    ])
  ])
  | false ↦ (elim (suc (length title) == title_max_size) [
    | true ↦ full (title ++ (c ∷ []))
    | false ↦ squeeze cs 0 (title ++ (c ∷ []))
  ])
]

unfoldable pub tidy_title : List ℕ → List ℕ
unfolding squeeze strip_front strip_back
tidy_title cs = squeeze (strip_back (strip_front cs)) 0 []

length-full : (t : List ℕ) → length (full t) ≤ title_max_size
length-full t = omega (arith, length-append (take 197 t) (codes "..."), length-take 197 t)

squeeze-bounded :
    (cs : List ℕ) (k : ℕ) (t : List ℕ)
    → length t < title_max_size
    → length (squeeze cs k t) ≤ title_max_size
unfolding squeeze
squeeze-bounded [] k t h = omega arith
squeeze-bounded (c ∷ cs) k t h = elim (Bool-cases (is_space c)) [
  | inl s ↦ elim (Bool-cases (leb 2 (suc k))) [
    | inl y ↦ rw (s, y, squeeze) (squeeze-bounded cs (suc k) t h)
    | inr n ↦ elim (Bool-cases (suc (length t) == title_max_size)) [
      | inl f ↦ rw (s, n, f, squeeze) (length-full (t ++ (b' ' ∷ [])))
      | inr g ↦
          rw (s, n, g, squeeze)
            (squeeze-bounded cs (suc k) (t ++ (b' ' ∷ [])) (rw (length-snoc t b' ') (ground arith)))
    ]
  ]
  | inr s ↦ elim (Bool-cases (suc (length t) == title_max_size)) [
    | inl f ↦ rw (s, f, squeeze) (length-full (t ++ (c ∷ [])))
    | inr g ↦
        rw (s, g, squeeze)
          (squeeze-bounded cs 0 (t ++ (c ∷ [])) (rw (length-snoc t c) (ground arith)))
  ]
]

-- A title has 200 characters at most, so that the null behind it is within the buffer.
pub tidy_title-bounded : (cs : List ℕ) → length (tidy_title cs) ≤ title_max_size
unfolding tidy_title
tidy_title-bounded cs = squeeze-bounded (strip_back (strip_front cs)) 0 [] (omega arith)
