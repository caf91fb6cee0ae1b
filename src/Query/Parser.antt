-- ===== src/Query/Parser.antt =====
-- `parse_query2` and the functions below it, of src/query.cpp. Fuel bounds how deep the calls go.
use swishxx.Common.{
  ℕ, zero, suc, Bool, true, false, not, ◌&&◌, ◌||◌, List, [], ◌∷◌, Option, none, some, ◌==◌,
  if◌then◌else◌, length,
}
use swishxx.Posting.{File}
use swishxx.Word.{is_ok_word}
use swishxx.Token.{
  TokenType, tt_none, tt_and, tt_equal, tt_lparen, tt_near, tt_not_near, tt_not, tt_or, tt_rparen,
  tt_word_star, tt_word, Token, TokenStream,
}
use swishxx.Token
use swishxx.Query.{Index, is_too_frequent, meta_id_none, meta_id_not_found}
use swishxx.Query.Node.{
  Node, Nodes, empty_node, and_node, near_node, not_near_node, not_node, or_node, word_node, nil,
  cons, push_back, is_not_node,
}

-- `parse_q_args`; the set of stop words is the list of what was inserted, the last first.
pub record QArgs : Type 0 where
  pub query : TokenStream
  pub stop_words_found : List (List ℕ)
  pub got_near : Bool

-- `parse_r_args`
pub record RArgs : Type 0 where
  pub and_nodes : Nodes
  pub ignore : Bool
  pub node : Node

-- `parse_r_args r_args;`: all but the list is set before it is read.
abbrev pub fresh : RArgs
fresh = record { and_nodes = nil; ignore = false; node = empty_node }

-- `fail` is `return false`; `fault` a write behind the stack of put-back tokens; `internal` the exit at
-- an unexpected token; `stuck` means that the fuel ran out.
pub data Result {ℓ} (A : Type ℓ) : Type ℓ where
  ok : A → QArgs → Result A
  fail fault internal stuck : Result A

abbrev pub M {ℓ} : Type ℓ → Type ℓ
M A = QArgs → Result A

infixl 5 ◌>>=◌
abbrev pub ◌>>=◌ {ℓ κ} : {A : Type ℓ} {B : Type κ} → M A → (A → M B) → M B
◌>>=◌ m f q = elim (m q) [
  | ok a q' ↦ f a q'
  | fail ↦ fail
  | fault ↦ fault
  | internal ↦ internal
  | stuck ↦ stuck
]

abbrev pub return {ℓ} : {A : Type ℓ} → A → M A
return a q = ok a q

unfoldable pub next_token : M Token
next_token q = let (t, ts) = Token.get q.query in ok t (record q { query = ts })

unfoldable pub put_back : Token → M (Unit {0})
put_back t q = elim (Token.put_back t q.query) [
  | none ↦ fault
  | some ts ↦ ok tt (record q { query = ts })
]

-- `token_stream` operators on the type of a token.
unfoldable pub is_type : TokenType → Token → Bool
is_type tt_near t = elim t.type [ tt_near ↦ true | _ ↦ false ]
is_type tt_equal t = elim t.type [ tt_equal ↦ true | _ ↦ false ]
is_type tt_rparen t = elim t.type [ tt_rparen ↦ true | _ ↦ false ]
is_type tt_word t = elim t.type [ tt_word ↦ true | _ ↦ false ]
is_type _ t = false

-- The end of `parse_relop`: the token is put back, and in front of anything but `)` an "and" is implied.
unfoldable pub implied_and : Token → M (Option TokenType)
unfolding is_type
implied_and t = do _ ← put_back t; return (if is_type tt_rparen t then none else some tt_and)

-- `case token::tt_not` of `parse_relop`, with the token behind the "not".
unfoldable pub after_not : Token → Token → M (Option TokenType)
unfolding is_type implied_and
after_not t t2 =
    if is_type tt_near t2 then return (some tt_not_near) else (put_back t2 >>= λ _. implied_and t)

-- `parse_relop`; `none` for `return false`.
unfoldable pub parse_relop : M (Option TokenType)
unfolding is_type implied_and after_not
parse_relop = do
  t ← next_token
  elim t.type [
    | tt_none ↦ return none
    | tt_not ↦ (do t2 ← next_token; after_not t t2)
    | tt_near ↦ return (some tt_near)
    | tt_and ↦ return (some tt_and)
    | tt_or ↦ return (some tt_or)
    | _ ↦ implied_and t
  ]

-- The left operand of "near" and "or", and what is left of the list of nodes.
abbrev pub lhs_node : RArgs → Node
lhs_node r = elim r.and_nodes [ nil ↦ r.node | cons m ms ↦ and_node (cons m ms) ]

-- `case token::tt_near`, `case token::tt_not_near`; `not_near` is `relop == token::tt_not_near`.
unfoldable pub combine_near : Bool → RArgs → RArgs → ℕ → ℕ → M RArgs
combine_near not_near r rhs meta_id rhs_meta_id q =
    if is_not_node rhs.node
    then fail
    else if is_not_node (lhs_node r)
    then fail
    else if (not (meta_id == meta_id_none)
        && not (rhs_meta_id == meta_id_none)
        && not (meta_id == rhs_meta_id))
    then ok (record r { and_nodes = nil; node = empty_node }) q
    else ok
        (record r {
          and_nodes = nil;
          node =
              if not_near
              then not_near_node (lhs_node r) rhs.node
              else near_node (lhs_node r) rhs.node;
        })
        (record q { got_near = true })

unfoldable pub combine_relop : TokenType → RArgs → RArgs → ℕ → ℕ → M RArgs
unfolding combine_near push_back
combine_relop tt_and r rhs m m' = return (record r { and_nodes = push_back r.and_nodes rhs.node })
combine_relop tt_near r rhs m m' = combine_near false r rhs m m'
combine_relop tt_not_near r rhs m m' = combine_near true r rhs m m'
combine_relop tt_or r rhs m m' =
    return (record r { and_nodes = nil; node = or_node (lhs_node r) rhs.node })
combine_relop _ r rhs m m' = λ q. internal

-- The body of the loop of `parse_query2`, behind the right operand.
unfoldable pub combine : TokenType → RArgs → RArgs → ℕ → ℕ → M RArgs
unfolding combine_relop
combine relop r rhs m m' =
    if r.ignore
    then return (if rhs.ignore then r else record r { node = rhs.node; ignore = false })
    else if rhs.ignore
    then return r
    else combine_relop relop r rhs m m'

-- The end of `parse_query2`.
unfoldable pub close_ands : RArgs → RArgs
unfolding push_back
close_ands r = elim r.and_nodes [
  | nil ↦ r
  | cons m ms ↦ record r { and_nodes = nil; node = and_node (push_back r.and_nodes r.node) }
]

-- `FOR_EACH_IN_PAIR( range, i )` at the end of `parse_primary`: the flag is `r_args.ignore`.
unfoldable pub find_frequent : Index → Token → List (List File) → Bool → M Bool
find_frequent idx t [] ignore = return ignore
find_frequent idx t (files ∷ range) ignore =
    if is_too_frequent idx (length files)
    then (λ q.
        find_frequent idx t range ignore
          (record q { stop_words_found = t.lower_str ∷ q.stop_words_found }))
    else find_frequent idx t range false

-- A word, or the words that begin with one, once looked up: `r_args` has an empty node, and no `ignore`.
unfoldable pub parse_range : Index → Token → List (List File) → ℕ → RArgs → M RArgs
unfolding find_frequent
parse_range idx t [] meta_id r = return r
parse_range idx t (files ∷ range) meta_id r = do
  ignore ← find_frequent idx t (files ∷ range) true
  return (
      if ignore
      then record r { ignore = true }
      else record r { ignore = false; node = word_node t.str (files ∷ range) meta_id })

-- `case token::tt_word`
unfoldable pub parse_word : Index → Token → ℕ → RArgs → M RArgs
unfolding parse_range
parse_word idx t meta_id r =
    if not (is_ok_word t.str) || idx.is_stop_word t.lower_str
    then (λ q.
        ok (record r { ignore = true })
          (record q { stop_words_found = t.str ∷ q.stop_words_found }))
    else parse_range idx t (idx.find_word t.lower_str) meta_id r

-- `parse_meta` behind a word: it names a meta name if `=` follows, and both are put back if not.
unfoldable pub after_word : Index → ℕ → Token → Token → M ℕ
unfolding is_type
after_word idx meta_id t t2 =
    if is_type tt_equal t2
    then return (elim (idx.find_meta t.lower_str) [ none ↦ meta_id_not_found | some m ↦ m ])
    else (put_back t2 >>= λ _. put_back t >>= λ _. return meta_id)

-- What `parse_meta` does before it calls `parse_primary`: the meta ID to go on with.
unfoldable pub meta_name : Index → ℕ → M ℕ
unfolding is_type after_word
meta_name idx meta_id = next_token >>= λ t.
    if is_type tt_word t
    then (next_token >>= λ t2. after_word idx meta_id t t2)
    else (put_back t >>= λ _. return meta_id)

-- `case token::tt_lparen`, behind the query in the parentheses.
unfoldable pub close_paren : RArgs → M RArgs
unfolding is_type
close_paren r = do t ← next_token; (if is_type tt_rparen t then return r else (λ q. fail))

unfoldable mutual
  unfolding parse_word parse_range close_paren meta_name parse_relop combine close_ands

  pub parse_query2 : ℕ → Index → ℕ → RArgs → M RArgs
  parse_query2 zero idx meta_id r q = stuck
  parse_query2 (suc n) idx meta_id r q =
      (parse_meta n idx meta_id r >>= λ r'. parse_rest n idx meta_id r') q

  -- The loop of `parse_query2`, and what follows it.
  pub parse_rest : ℕ → Index → ℕ → RArgs → M RArgs
  parse_rest zero idx meta_id r q = stuck
  parse_rest (suc n) idx meta_id r q =
      (parse_relop >>= λ relop. elim relop [
        | none ↦ return (close_ands r)
        | some op ↦
            (parse_meta n idx meta_id fresh >>= λ rhs.
            combine op r rhs meta_id meta_id >>= λ r'. parse_rest n idx meta_id r')
      ])
        q

  pub parse_meta : ℕ → Index → ℕ → RArgs → M RArgs
  parse_meta zero idx meta_id r q = stuck
  parse_meta (suc n) idx meta_id r q = (meta_name idx meta_id >>= λ m. parse_primary n idx m r) q

  pub parse_primary : ℕ → Index → ℕ → RArgs → M RArgs
  parse_primary zero idx meta_id r q = stuck
  parse_primary (suc n) idx meta_id r q =
      (next_token >>= λ t.
      let r0 : RArgs = record r { ignore = false; node = empty_node } in
      elim t.type [
        | tt_word ↦ parse_word idx t meta_id r0
        | tt_word_star ↦ parse_range idx t (idx.find_prefix t.lower_str) meta_id r0
        | tt_lparen ↦ (parse_query2 n idx meta_id r0 >>= close_paren)
        | tt_not ↦
            (parse_meta n idx meta_id fresh >>= λ inner.
            return (record r0 { node = not_node inner.node }))
        | _ ↦ λ q'. fail
      ])
        q
