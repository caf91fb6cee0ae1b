-- ===== src/Eval/Boolean.antt =====
-- What `eval` finds for "or" and "not", over a file.
use swishxx.Common.{ℕ, ◌+◌, ◌≡◌, ◌&&◌, leb, ltb, []}
use swishxx.Query.{Index}
use swishxx.Query.Node.{Node, or_node, not_node}
use swishxx.Eval.Results.{SearchResults, find}
use swishxx.Eval.Laws.{or_rank, or_merge-find, not_rank, not_files-find}
use swishxx.Eval.Ordered.{eval-IsMap}
use swishxx.Eval.{eval}

-- "Or" finds a file if one of the sides does: the left one, going on from the results so far, or the right
-- one on its own. If the right one does, its rank is added.
pub eval-or_node :
    (idx : Index) (near : ℕ) (l r : Node) (rs : SearchResults) (i : ℕ)
    → find (eval idx near (or_node l r) rs) i
      ≡ or_rank (find (eval idx near l rs) i) (find (eval idx near r []) i)
unfolding eval
eval-or_node idx near l r rs i =
    or_merge-find (eval idx near l rs) (eval idx near r []) 0 i (eval-IsMap idx near r [] tt)

-- "Not" gives the rank 100 to just those of the files 0 to `num_files` - 1 that its child does not find, and
-- leaves the others as they were.
pub eval-not_node :
    (idx : Index) (near : ℕ) (n : Node) (rs : SearchResults) (i : ℕ)
    → find (eval idx near (not_node n) rs) i
      ≡ not_rank (leb 0 i && ltb i (0 + idx.num_files)) (find (eval idx near n []) i) (find rs i)
unfolding eval
eval-not_node idx near n rs i = not_files-find idx.num_files 0 (eval idx near n []) rs i
