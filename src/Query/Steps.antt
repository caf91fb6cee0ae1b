-- ===== src/Query/Steps.antt =====
-- What the parts of the parser that do not call themselves leave behind.
use swishxx.Common.{
  ℕ, ◌+◌, ◌≤◌, ◌≡◌, refl, arith, Bool, true, false, not, ◌||◌, List, [], ◌∷◌, Option, none, some,
  if◌then◌else◌, Bool-cases, inl, inr, length,
}
use swishxx.Posting.{File}
use swishxx.Word.{is_ok_word}
use swishxx.Token.{
  TokenType, tt_none, tt_and, tt_equal, tt_near, tt_not_near, tt_not, tt_or, tt_rparen, tt_word,
  Token,
}
use swishxx.Token.Stream.{weight}
use swishxx.Query.{Index, is_too_frequent}
use swishxx.Query.Node.{is_not_node}
use swishxx.Query.Parser.{
  QArgs, RArgs, ok, M, ◌>>=◌, return, next_token, put_back, is_type, implied_and, after_not,
  parse_relop, combine_near, combine_relop, combine, find_frequent, parse_range, parse_word,
  after_word, meta_name, close_paren, lhs_node,
}
use swishxx.Query.Ensures.{
  Ensures, bind_Ensures, if_M, if_Result, lf, sz, next_token-Ensures, put_back-Ensures,
}

-- The operators that `parse_relop` may give.
abbrev pub is_relop : TokenType → Bool
is_relop tt_and = true
is_relop tt_near = true
is_relop tt_not_near = true
is_relop tt_or = true
is_relop _ = false

abbrev pub AfterRelop : ℕ → Option TokenType → QArgs → Type 0
AfterRelop l none q = (lf q ≤ l) × (sz q ≤ 1)
AfterRelop l (some op) q = (lf q ≤ l) × (sz q ≤ 2) × (is_relop op ≡ true)

implied_and-Ensures :
    (t : Token) (q : QArgs) (l : ℕ)
    → weight t + lf q ≤ l
    → (sz q ≤ 1) × (is_type tt_rparen t ≡ true → sz q ≤ 0)
    → Ensures (AfterRelop l) (implied_and t q)
unfolding implied_and
implied_and-Ensures t q l h s =
    bind_Ensures _ (AfterRelop l) (put_back t)
      (λ _. return (if is_type tt_rparen t then none else some tt_and)) q
      (put_back-Ensures t q (omega arith))
      (λ _ q' p. elim (Bool-cases (is_type tt_rparen t)) [
        | inl y ↦ rw y (omega arith, omega (arith, s.1 y))
        | inr n ↦ rw n (omega arith, omega arith, refl)
      ])

not_rparen : (t : Token) → t.type ≡ tt_not → is_type tt_rparen t ≡ false
unfolding is_type
not_rparen t e = rw e

after_not-Ensures :
    (t t2 : Token) (q : QArgs) (l : ℕ)
    → t.type ≡ tt_not
    → weight t + (weight t2 + lf q) ≤ l
    → sz q ≤ 0
    → Ensures (AfterRelop l) (after_not t t2 q)
unfolding after_not
after_not-Ensures t t2 q l e h s = elim (Bool-cases (is_type tt_near t2)) [
  | inl y ↦ rw y (omega arith, omega arith, refl)
  | inr n ↦ rw n (
      bind_Ensures _ (AfterRelop l) (put_back t2) (λ _. implied_and t) q
        (put_back-Ensures t2 q (omega arith))
        (λ _ q' p.
          implied_and-Ensures t q' l (omega arith)
            (omega arith, λ y. absurd (cc (y, not_rparen t e)))))
]

-- The branches of `parse_relop` on the type of its token.
relop_branch : TokenType → Token → M (Option TokenType)
relop_branch ty t = elim ty [
  | tt_none ↦ return none
  | tt_not ↦ (do t2 ← next_token; after_not t t2)
  | tt_near ↦ return (some tt_near)
  | tt_and ↦ return (some tt_and)
  | tt_or ↦ return (some tt_or)
  | _ ↦ implied_and t
]

relop_branch-Ensures :
    (ty : TokenType) (t : Token) (q : QArgs) (l : ℕ)
    → t.type ≡ ty
    → weight t + lf q ≤ l
    → sz q ≤ 0
    → Ensures (AfterRelop l) (relop_branch ty t q)
unfolding relop_branch
relop_branch-Ensures tt_none t q l e h s = omega arith
relop_branch-Ensures tt_not t q l e h s =
    bind_Ensures _ (AfterRelop l) next_token (after_not t) q (next_token-Ensures q)
      (λ t2 q' p. after_not-Ensures t t2 q' l e (omega arith) (omega arith))
relop_branch-Ensures tt_near t q l e h s = (omega arith, omega arith, refl)
relop_branch-Ensures tt_and t q l e h s = (omega arith, omega arith, refl)
relop_branch-Ensures tt_or t q l e h s = (omega arith, omega arith, refl)
relop_branch-Ensures _ t q l e h s = implied_and-Ensures t q l h (omega arith, λ _. s)

pub parse_relop-Ensures : (q : QArgs) → sz q ≤ 1 → Ensures (AfterRelop (lf q)) (parse_relop q)
unfolding parse_relop relop_branch
parse_relop-Ensures q h =
    bind_Ensures _ (AfterRelop (lf q)) next_token (λ t. relop_branch t.type t) q
      (next_token-Ensures q)
      (λ t q' p. relop_branch-Ensures t.type t q' (lf q) refl p.0 (omega arith))

-- A part that does not touch the stream.
abbrev pub Same {ℓ} : {A : Type ℓ} → QArgs → A → QArgs → Type 0
Same q a q' = (lf q' ≡ lf q) × (sz q' ≡ sz q)

near_end :
    (mismatch : Bool) (x y : RArgs) (q : QArgs)
    → Ensures (Same q) (if mismatch then ok x q else ok y (record q { got_near = true }))
near_end true x y q = (refl, refl)
near_end false x y q = (refl, refl)

combine_near-Ensures :
    (b : Bool) (r rhs : RArgs) (m m' : ℕ) (q : QArgs)
    → Ensures (Same q) (combine_near b r rhs m m' q)
unfolding combine_near
combine_near-Ensures b r rhs m m' q =
    if_Result (Same q) (is_not_node rhs.node) _ _ tt
      (if_Result (Same q) (is_not_node (lhs_node r)) _ _ tt (near_end _ _ _ q))

combine_relop-Ensures :
    (op : TokenType) (r rhs : RArgs) (m m' : ℕ) (q : QArgs)
    → is_relop op ≡ true
    → Ensures (Same q) (combine_relop op r rhs m m' q)
unfolding combine_relop
combine_relop-Ensures tt_and r rhs m m' q h = (refl, refl)
combine_relop-Ensures tt_near r rhs m m' q h = combine_near-Ensures false r rhs m m' q
combine_relop-Ensures tt_not_near r rhs m m' q h = combine_near-Ensures true r rhs m m' q
combine_relop-Ensures tt_or r rhs m m' q h = (refl, refl)
combine_relop-Ensures _ r rhs m m' q h = absurd (cc h)

pub combine-Ensures :
    (op : TokenType) (r rhs : RArgs) (m m' : ℕ) (q : QArgs)
    → is_relop op ≡ true
    → Ensures (Same q) (combine op r rhs m m' q)
unfolding combine
combine-Ensures op r rhs m m' q h =
    if_M (Same q) r.ignore _ _ q (refl, refl)
      (if_M (Same q) rhs.ignore _ _ q (refl, refl) (combine_relop-Ensures op r rhs m m' q h))

find_frequent-Ensures :
    (idx : Index) (t : Token) (range : List (List File)) (b : Bool) (q : QArgs)
    → Ensures (Same q) (find_frequent idx t range b q)
unfolding find_frequent
find_frequent-Ensures idx t [] b q = (refl, refl)
find_frequent-Ensures idx t (files ∷ range) b q =
    elim (Bool-cases (is_too_frequent idx (length files))) [
      | inl y ↦ rw y (find_frequent-Ensures idx t range b _)
      | inr n ↦ rw n (find_frequent-Ensures idx t range false q)
    ]

pub parse_range-Ensures :
    (idx : Index) (t : Token) (range : List (List File)) (m : ℕ) (r : RArgs) (q : QArgs)
    → Ensures (Same q) (parse_range idx t range m r q)
unfolding parse_range
parse_range-Ensures idx t [] m r q = (refl, refl)
parse_range-Ensures idx t (files ∷ range) m r q =
    bind_Ensures (Same q) (Same q) (find_frequent idx t (files ∷ range) true) _ q
      (find_frequent-Ensures idx t (files ∷ range) true q) (λ b q' p. p)

pub parse_word-Ensures :
    (idx : Index) (t : Token) (m : ℕ) (r : RArgs) (q : QArgs)
    → Ensures (Same q) (parse_word idx t m r q)
unfolding parse_word
parse_word-Ensures idx t m r q =
    elim (Bool-cases (not (is_ok_word t.str) || idx.is_stop_word t.lower_str)) [
      | inl y ↦ rw y (refl, refl)
      | inr n ↦ rw n (parse_range-Ensures idx t (idx.find_word t.lower_str) m r q)
    ]

after_word-Ensures :
    (idx : Index) (m : ℕ) (t t2 : Token) (q : QArgs) (l : ℕ)
    → weight t + (weight t2 + lf q) ≤ l
    → sz q ≤ 0
    → Ensures (λ _ q'. (lf q' ≤ l) × (sz q' ≤ 2)) (after_word idx m t t2 q)
unfolding after_word
after_word-Ensures idx m t t2 q l h s =
    if_M _ (is_type tt_equal t2) _ _ q (omega arith, omega arith)
      (bind_Ensures _ _ (put_back t2) _ q (put_back-Ensures t2 q (omega arith)) (λ _ q' p.
        bind_Ensures _ _ (put_back t) _ q' (put_back-Ensures t q' (omega arith))
          (λ _ q'' p'. (omega arith, omega arith))))

pub meta_name-Ensures :
    (idx : Index) (m : ℕ) (q : QArgs)
    → sz q ≤ 2
    → Ensures (λ _ q'. (lf q' ≤ lf q) × (sz q' ≤ 2)) (meta_name idx m q)
unfolding meta_name
meta_name-Ensures idx m q h = bind_Ensures _ _ next_token _ q (next_token-Ensures q) (λ t q1 p1.
    if_M _ (is_type tt_word t) _ _ q1
      (bind_Ensures _ _ next_token _ q1 (next_token-Ensures q1)
        (λ t2 q2 p2. after_word-Ensures idx m t t2 q2 (lf q) (omega arith) (omega arith)))
      (bind_Ensures _ _ (put_back t) _ q1 (put_back-Ensures t q1 (omega arith))
        (λ _ q2 p2. (omega arith, omega arith))))

pub close_paren-Ensures :
    (r : RArgs) (q : QArgs) → Ensures (λ _ q'. (lf q' ≤ lf q) × (sz q' ≤ sz q)) (close_paren r q)
unfolding close_paren
close_paren-Ensures r q =
    bind_Ensures _ _ next_token _ q (next_token-Ensures q)
      (λ t q' p. if_M _ (is_type tt_rparen t) _ _ q' (omega arith, omega arith) tt)
