-- ===== src/Samples/AstSamples.antt =====
-- Traversals of small syntax trees.
use isched.Common.{◌≡◌, none, some, codes, nat_eq}
use isched.Ast.{NodeType, Node, node, nil, cons, size}
use isched.Ast.Visitor.{Traversal, traverse, unmapped, unknown_node_fallback, traverse_counts}

abbrev leaf : NodeType → Node
leaf t = node t (codes "") none nil

abbrev small_tree : Node
small_tree =
    node NodeType.document (codes "") none
      (cons (leaf NodeType.field) (cons (leaf NodeType.unknown) nil))

traverse_counts_example :
    (t : Traversal) × (traverse small_tree ≡ some t)
    × (t.visitor.visited_count ≡ 3)
    × (t.visitor.unknown_count ≡ 1)
    × (t.overall ≡ unknown_node_fallback)
unfolding size unmapped
traverse_counts_example = traverse_counts small_tree
