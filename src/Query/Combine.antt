-- ===== src/Query/Combine.antt =====
-- What the loop of `parse_query2` makes of its operands.
use swishxx.Common.{ℕ, ◌≡◌, refl, false, List, [], ◌∷◌, ◌++◌, append_assoc, append-nil}
use swishxx.Token.{tt_and, tt_or}
use swishxx.Query.Node.{Node, Nodes, nil, cons, push_back, and_node, or_node}
use swishxx.Query.Parser.{QArgs, RArgs, ok, M, ◌>>=◌, return, combine, combine_relop, close_ands}

abbrev pub to_nodes : List Node → Nodes
to_nodes [] = nil
to_nodes (n ∷ ns) = cons n (to_nodes ns)

abbrev pub operand : Nodes → Node → RArgs
operand ms n = record { and_nodes = ms; ignore = false; node = n }

-- The loop over operators that are all "and", on right operands that are all kept.
abbrev pub and_all : ℕ → RArgs → List Node → M RArgs
and_all meta_id r [] = return (close_ands r)
and_all meta_id r (n ∷ ns) =
    combine tt_and r (operand nil n) meta_id meta_id >>= λ r'. and_all meta_id r' ns

push_back_lem : (ms : List Node) (n : Node) → push_back (to_nodes ms) n ≡ to_nodes (ms ++ (n ∷ []))
unfolding push_back
push_back_lem [] n = refl
push_back_lem (m ∷ ms) n = rw (push_back_lem ms n) refl

close_nonempty :
    (m : Node) (ms : Nodes) (n : Node)
    → close_ands (operand (cons m ms) n) ≡ operand nil (and_node (push_back (cons m ms) n))
unfolding close_ands
close_nonempty m ms n = refl

and_all-from :
    (meta_id : ℕ) (m : Node) (ms : List Node) (n : Node) (xs : List Node) (q : QArgs)
    → and_all meta_id (operand (to_nodes (m ∷ ms)) n) xs q
      ≡ ok (operand nil (and_node (to_nodes ((m ∷ ms) ++ (xs ++ (n ∷ [])))))) q
unfolding combine combine_relop push_back
and_all-from meta_id m ms n [] q =
    rw (close_nonempty m (to_nodes ms) n, push_back_lem (m ∷ ms) n) refl
and_all-from meta_id m ms n (x ∷ xs) q = rw (push_back_lem ms x) (
    rw (and_all-from meta_id m (ms ++ (x ∷ [])) n xs q)
      (rw (append_assoc ms (x ∷ []) (xs ++ (n ∷ []))) refl))

-- A run of "and"s is one node over all the operands, none lost: the right ones in their order, then the
-- first.
pub and_all_keeps :
    (meta_id : ℕ) (first second : Node) (rest : List Node) (q : QArgs)
    → and_all meta_id (operand nil first) (second ∷ rest) q
      ≡ ok (operand nil (and_node (to_nodes (second ∷ (rest ++ (first ∷ [])))))) q
unfolding combine combine_relop push_back
and_all_keeps meta_id first second rest q = and_all-from meta_id second [] first rest q

-- The same loop, with no end of the query behind it.
abbrev pub ands : ℕ → RArgs → List Node → M RArgs
ands meta_id r [] = return r
ands meta_id r (n ∷ ns) =
    combine tt_and r (operand nil n) meta_id meta_id >>= λ r'. ands meta_id r' ns

ands-from :
    (meta_id : ℕ) (ms : List Node) (n : Node) (xs : List Node) (q : QArgs)
    → ands meta_id (operand (to_nodes ms) n) xs q ≡ ok (operand (to_nodes (ms ++ xs)) n) q
unfolding combine combine_relop push_back
ands-from meta_id ms n [] q = rw (append-nil ms) refl
ands-from meta_id ms n (x ∷ xs) q =
    rw (push_back_lem ms x)
      (rw (ands-from meta_id (ms ++ (x ∷ [])) n xs q) (rw (append_assoc ms (x ∷ []) xs) refl))

or_combined :
    (meta_id : ℕ) (m : Node) (ms : List Node) (n rhs : Node) (q : QArgs)
    → combine tt_or (operand (to_nodes (m ∷ ms)) n) (operand nil rhs) meta_id meta_id q
      ≡ ok (operand nil (or_node (and_node (to_nodes (m ∷ ms))) rhs)) q
unfolding combine combine_relop
or_combined meta_id m ms n rhs q = refl

-- An "or" behind a run of "and"s loses the first of their operands: the left side of the node is made
-- of the other ones alone.
pub or_drops_first :
    (meta_id : ℕ) (first second : Node) (rest : List Node) (rhs : Node) (q : QArgs)
    → (ands meta_id (operand nil first) (second ∷ rest) >>= λ r.
          combine tt_or r (operand nil rhs) meta_id meta_id)
        q
      ≡ ok (operand nil (or_node (and_node (to_nodes (second ∷ rest))) rhs)) q
unfolding combine
or_drops_first meta_id first second rest rhs q =
    rw (ands-from meta_id [] first (second ∷ rest) q) (or_combined meta_id second rest first rhs q)
