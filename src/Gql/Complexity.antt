-- ===== src/Gql/Complexity.antt =====
-- backend/isched_GqlExecutor.cpp: the analysis of a query's depth and complexity. Both are 32-bit
-- counters.
pub mod Bounds
use isched.Common.{ℕ, ◌+◌, ◌%◌, ◌^◌, Bool, ◌==◌, if◌then◌else◌, ltb, max}
use isched.Ast.{NodeType, type_eq, Node, Nodes, node, nil, cons}

pub record QueryAnalysis : Type 0 where
  pub depth : ℕ
  pub complexity : ℕ

abbrev pub next32 : ℕ → ℕ
next32 n = (n + 1) % 2 ^ 32

-- `if (ct == NodeType::Field) ++r.complexity;`
unfoldable pub count_field : NodeType → QueryAnalysis → QueryAnalysis
count_field t r = if t == NodeType.field then record r { complexity = next32 r.complexity } else r

-- `if (next > r.depth) r.depth = next;`
unfoldable pub raise_depth : ℕ → QueryAnalysis → QueryAnalysis
raise_depth next r = if ltb r.depth next then record r { depth = next } else r

unfoldable mutual
  pub walk : Node → ℕ → QueryAnalysis → QueryAnalysis
  walk (node t rule c ns) cur_depth r =
      let r' = count_field t r in
      if t == NodeType.selection_set
      then walk_all ns (next32 cur_depth) (raise_depth (next32 cur_depth) r')
      else walk_all ns cur_depth r'

  pub walk_all : Nodes → ℕ → QueryAnalysis → QueryAnalysis
  walk_all nil d r = r
  walk_all (cons n ns) d r = walk_all ns d (walk n d r)

unfoldable pub analyse_query_complexity : Node → QueryAnalysis
analyse_query_complexity root = walk root 0 (record { depth = 0; complexity = 0 })

-- What the two numbers mean.
unfoldable mutual
  pub fields_in : Node → ℕ
  fields_in (node t rule c ns) = (if t == NodeType.field then 1 else 0) + fields_in_all ns

  pub fields_in_all : Nodes → ℕ
  fields_in_all nil = 0
  fields_in_all (cons n ns) = fields_in n + fields_in_all ns

unfoldable mutual
  pub nesting : Node → ℕ
  nesting (node t rule c ns) = (if t == NodeType.selection_set then 1 else 0) + nesting_all ns

  pub nesting_all : Nodes → ℕ
  nesting_all nil = 0
  nesting_all (cons n ns) = max (nesting n) (nesting_all ns)
