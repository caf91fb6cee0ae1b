-- ===== src/Query/Node.antt =====
-- src/query_node.h: the nodes of a query.
use swishxx.Common.{ℕ, List, Bool, true, false}
use swishxx.Posting.{File}

mutual
  pub data Node : Type 0 where
    empty_node : Node
    and_node : Nodes → Node
    near_node : Node → Node → Node
    not_near_node : Node → Node → Node
    not_node : Node → Node
    or_node : Node → Node → Node
    word_node : List ℕ → List (List File) → ℕ → Node

  -- `child_node_list`
  pub data Nodes : Type 0 where
    nil : Nodes
    cons : Node → Nodes → Nodes

-- `vector::push_back`
unfoldable pub push_back : Nodes → Node → Nodes
push_back nil n = cons n nil
push_back (cons m ms) n = cons m (push_back ms n)

-- `dynamic_cast<not_node*>( node )` as a test.
abbrev pub is_not_node : Node → Bool
is_not_node (not_node n) = true
is_not_node _ = false
