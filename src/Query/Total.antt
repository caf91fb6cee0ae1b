-- ===== src/Query/Total.antt =====
-- The parser always comes to an end: with fuel for four calls at each token it returns a node or fails,
-- puts back no more tokens than the stack holds, and meets no operator that it does not know.
use swishxx.Common.{ℕ, zero, suc, ◌+◌, ◌*◌, ◌≤◌, arith, false, List, [], Option, none, some, length}
use swishxx.Token.{TokenType, tt_lparen, tt_not, tt_word_star, tt_word, Token}
use swishxx.Token.Stream.{type_weight}
use swishxx.Query.{Index}
use swishxx.Query.Node.{empty_node, not_node}
use swishxx.Query.Parser.{
  QArgs, RArgs, Result, ok, fail, fault, internal, stuck, fresh, M, ◌>>=◌, return, next_token,
  parse_relop, combine, close_ands, parse_range, parse_word, meta_name, close_paren, parse_query2,
  parse_rest, parse_meta, parse_primary,
}
use swishxx.Query.Ensures.{Ensures, bind_Ensures, weaken, lf, sz, next_token-Ensures}
use swishxx.Query.Steps.{
  AfterRelop, Same, parse_relop-Ensures, combine-Ensures, parse_range-Ensures, parse_word-Ensures,
  meta_name-Ensures, close_paren-Ensures,
}

-- A part that has read a token, or that may have read none.
abbrev Shrinks : ℕ → RArgs → QArgs → Type 0
Shrinks l r q = (lf q + 1 ≤ l) × (sz q ≤ 1)

abbrev Stays : ℕ → RArgs → QArgs → Type 0
Stays l r q = (lf q ≤ l) × (sz q ≤ 1)

module _ (idx : Index) where
  -- What the four functions do on enough fuel.
  record Fueled (n : ℕ) : Type 0 where
    primary :
        (m : ℕ) (r : RArgs) (q : QArgs)
        → 4 * lf q + 1 ≤ n
        → sz q ≤ 2
        → Ensures (Shrinks (lf q)) (parse_primary n idx m r q)
    meta :
        (m : ℕ) (r : RArgs) (q : QArgs)
        → 4 * lf q + 2 ≤ n
        → sz q ≤ 2
        → Ensures (Shrinks (lf q)) (parse_meta n idx m r q)
    rest :
        (m : ℕ) (r : RArgs) (q : QArgs)
        → 4 * lf q + 3 ≤ n
        → sz q ≤ 1
        → Ensures (Stays (lf q)) (parse_rest n idx m r q)
    query2 :
        (m : ℕ) (r : RArgs) (q : QArgs)
        → 4 * lf q + 3 ≤ n
        → sz q ≤ 2
        → Ensures (Shrinks (lf q)) (parse_query2 n idx m r q)

  -- The branches of `parse_primary`.
  primary_branch : ℕ → ℕ → RArgs → TokenType → Token → M RArgs
  primary_branch n m r ty t = elim ty [
    | tt_word ↦ parse_word idx t m r
    | tt_word_star ↦ parse_range idx t (idx.find_prefix t.lower_str) m r
    | tt_lparen ↦ (parse_query2 n idx m r >>= close_paren)
    | tt_not ↦
        (parse_meta n idx m fresh >>= λ inner. return (record r { node = not_node inner.node }))
    | _ ↦ λ q'. fail
  ]

  primary_branch-Ensures :
      (n : ℕ)
      → Fueled n
      → (m : ℕ) (r : RArgs) (ty : TokenType) (t : Token) (q : QArgs) (l : ℕ)
      → type_weight ty + lf q ≤ l
      → 4 * l ≤ n
      → sz q ≤ 1
      → Ensures (Shrinks l) (primary_branch n m r ty t q)
  unfolding primary_branch
  primary_branch-Ensures n h m r tt_word t q l w f s =
      weaken (Same q) (Shrinks l) (parse_word idx t m r q) (parse_word-Ensures idx t m r q)
        (λ _ q' p. (omega arith, omega arith))
  primary_branch-Ensures n h m r tt_word_star t q l w f s =
      weaken (Same q) (Shrinks l) (parse_range idx t (idx.find_prefix t.lower_str) m r q)
        (parse_range-Ensures idx t (idx.find_prefix t.lower_str) m r q)
        (λ _ q' p. (omega arith, omega arith))
  primary_branch-Ensures n h m r tt_lparen t q l w f s =
      bind_Ensures (Shrinks (lf q)) (Shrinks l) (parse_query2 n idx m r) close_paren q
        (h.query2 m r q (omega arith) (omega arith))
        (λ r' q' p.
          weaken _ (Shrinks l) (close_paren r' q') (close_paren-Ensures r' q')
            (λ _ q'' p'. (omega arith, omega arith)))
  primary_branch-Ensures n h m r tt_not t q l w f s =
      bind_Ensures (Shrinks (lf q)) (Shrinks l) (parse_meta n idx m fresh) _ q
        (h.meta m fresh q (omega arith) (omega arith)) (λ _ q' p. (omega arith, omega arith))
  primary_branch-Ensures n h m r _ t q l w f s = tt

  step_primary :
      (n : ℕ)
      → Fueled n
      → (m : ℕ) (r : RArgs) (q : QArgs) → 4 * lf q + 1 ≤ suc n
      → sz q ≤ 2
      → Ensures (Shrinks (lf q)) (parse_primary (suc n) idx m r q)
  unfolding parse_primary primary_branch
  step_primary n h m r q f s =
      let r0 : RArgs = record r { ignore = false; node = empty_node } in
      bind_Ensures _ (Shrinks (lf q)) next_token (λ t. primary_branch n m r0 t.type t) q
        (next_token-Ensures q)
        (λ t q' p.
          primary_branch-Ensures n h m r0 t.type t q' (lf q) p.0 (omega arith) (omega arith))

  step_meta :
      (n : ℕ)
      → Fueled n
      → (m : ℕ) (r : RArgs) (q : QArgs) → 4 * lf q + 2 ≤ suc n
      → sz q ≤ 2
      → Ensures (Shrinks (lf q)) (parse_meta (suc n) idx m r q)
  unfolding parse_meta
  step_meta n h m r q f s =
      bind_Ensures _ (Shrinks (lf q)) (meta_name idx m) (λ m'. parse_primary n idx m' r) q
        (meta_name-Ensures idx m q s)
        (λ m' q' p.
          weaken _ (Shrinks (lf q)) (parse_primary n idx m' r q')
            (h.primary m' r q' (omega arith) p.1) (λ _ q'' p'. (omega arith, omega arith)))

  rest_branch : ℕ → ℕ → RArgs → Option TokenType → M RArgs
  rest_branch n m r relop = elim relop [
    | none ↦ return (close_ands r)
    | some op ↦
        (parse_meta n idx m fresh >>= λ rhs. combine op r rhs m m >>= λ r'. parse_rest n idx m r')
  ]

  rest_branch-Ensures :
      (n : ℕ)
      → Fueled n
      → (m : ℕ) (r : RArgs) (relop : Option TokenType) (q : QArgs) (l : ℕ) → AfterRelop l relop q
      → 4 * l + 2 ≤ n
      → Ensures (Stays l) (rest_branch n m r relop q)
  unfolding rest_branch
  rest_branch-Ensures n h m r none q l p f = p
  rest_branch-Ensures n h m r (some op) q l p f =
      bind_Ensures (Shrinks (lf q)) (Stays l) (parse_meta n idx m fresh) _ q
        (h.meta m fresh q (omega arith) (omega arith))
        (λ rhs q1 p1.
          bind_Ensures (Same q1) (Stays l) (combine op r rhs m m) (parse_rest n idx m) q1
            (combine-Ensures op r rhs m m q1 p.2)
            (λ r' q2 p2.
              weaken _ (Stays l) (parse_rest n idx m r' q2)
                (h.rest m r' q2 (omega arith) (omega arith))
                (λ _ q3 p3. (omega arith, omega arith))))

  step_rest :
      (n : ℕ)
      → Fueled n
      → (m : ℕ) (r : RArgs) (q : QArgs) → 4 * lf q + 3 ≤ suc n
      → sz q ≤ 1
      → Ensures (Stays (lf q)) (parse_rest (suc n) idx m r q)
  unfolding parse_rest rest_branch
  step_rest n h m r q f s =
      bind_Ensures (AfterRelop (lf q)) (Stays (lf q)) parse_relop (rest_branch n m r) q
        (parse_relop-Ensures q s)
        (λ relop q' p. rest_branch-Ensures n h m r relop q' (lf q) p (omega arith))

  step_query2 :
      (n : ℕ)
      → Fueled n
      → (m : ℕ) (r : RArgs) (q : QArgs) → 4 * lf q + 3 ≤ suc n
      → sz q ≤ 2
      → Ensures (Shrinks (lf q)) (parse_query2 (suc n) idx m r q)
  unfolding parse_query2
  step_query2 n h m r q f s =
      bind_Ensures (Shrinks (lf q)) (Shrinks (lf q)) (parse_meta n idx m r) (parse_rest n idx m) q
        (h.meta m r q (omega arith) s)
        (λ r' q' p.
          weaken _ (Shrinks (lf q)) (parse_rest n idx m r' q') (h.rest m r' q' (omega arith) p.1)
            (λ _ q'' p'. (omega arith, omega arith)))

  fueled : (n : ℕ) → Fueled n
  fueled zero = record {
    primary = λ m r q f. absurd (omega arith);
    meta = λ m r q f. absurd (omega arith);
    rest = λ m r q f. absurd (omega arith);
    query2 = λ m r q f. absurd (omega arith);
  }
  fueled (suc n) =
      let h = fueled n in
      record {
        primary = step_primary n h;
        meta = step_meta n h;
        rest = step_rest n h;
        query2 = step_query2 n h;
      }

-- A query whose characters are `xs`, with nothing put back.
abbrev pub start : List ℕ → QArgs
start xs = record {
  query = record { chars = xs; stack = [] };
  stop_words_found = [];
  got_near = false;
}

-- What becomes of a query: it is taken or it is not.
pub data Verdict (xs : List ℕ) : Result RArgs → Type 0 where
  taken : {r : RArgs} {q : QArgs} → lf q + 1 ≤ length xs → sz q ≤ 1 → Verdict xs (ok r q)
  refused : Verdict xs fail

verdict : (xs : List ℕ) (res : Result RArgs) → Ensures (Shrinks (length xs)) res → Verdict xs res
verdict xs (ok r q) h = taken h.0 h.1
verdict xs fail h = refused
verdict xs fault h = absurd h
verdict xs internal h = absurd h
verdict xs stuck h = absurd h

-- With fuel for four calls at each character, and three, the parser takes a query or refuses it: it
-- never runs out of fuel, puts back no third token, and never gets to the exit at an unexpected
-- token. A query that it takes has a character less than it had at least, counting the tokens that
-- are still put back.
pub parse_query2_total :
    (idx : Index) (n m : ℕ) (r : RArgs) (xs : List ℕ)
    → 4 * length xs + 3 ≤ n
    → Verdict xs (parse_query2 n idx m r (start xs))
parse_query2_total idx n m r xs h = verdict xs _ (
    weaken (Shrinks (lf (start xs))) (Shrinks (length xs)) (parse_query2 n idx m r (start xs))
      ((fueled idx n).query2 m r (start xs) (omega arith) (omega arith))
      (λ _ q p. (omega arith, omega arith)))
