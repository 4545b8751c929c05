-- ===== src/Gql/Complexity/Bounds.antt =====
-- The analysis gives a query's field count and nesting depth.
use isched.Common.{ℕ, ◌+◌, ◌^◌, ◌<◌, ◌≤◌, ◌≡◌, ◌==◌, if◌then◌else◌, max, arith}
use isched.Ast.{NodeType, type_eq, Node, Nodes, node, nil, cons}
use isched.Gql.Complexity.{
  QueryAnalysis, next32, count_field, raise_depth, walk, walk_all, analyse_query_complexity,
  fields_in, fields_in_all, nesting, nesting_all,
}

abbrev pub analysis : ℕ → ℕ → QueryAnalysis
analysis d c = record { depth = d; complexity = c }

next32_lem : (n : ℕ) → n + 1 < 2 ^ 32 → next32 n ≡ n + 1
next32_lem n h = omega arith

count_field_lem :
    (t : NodeType) (d c : ℕ)
    → c + (if t == NodeType.field then 1 else 0) < 2 ^ 32
    → count_field t (analysis d c) ≡ analysis d (c + (if t == NodeType.field then 1 else 0))
unfolding count_field
count_field_lem t d c h = ground (arith, next32_lem c)

raise_depth_lem : (next d c : ℕ) → raise_depth next (analysis d c) ≡ analysis (max d next) c
unfolding raise_depth
raise_depth_lem next d c = ground arith

mutual
  unfolding walk walk_all nesting nesting_all fields_in fields_in_all

  walk_lem :
      (n : Node) (cur d c : ℕ)
      → cur ≤ d
      → cur + nesting n < 2 ^ 32
      → c + fields_in n < 2 ^ 32
      → walk n cur (analysis d c) ≡ analysis (max d (cur + nesting n)) (c + fields_in n)
  walk_lem (node t rule k ns) cur d c h i j =
      let e = count_field_lem t d c (ground arith) in
      ground (
        arith,
        e,
        next32_lem cur,
        raise_depth_lem (cur + 1) d (c + (if t == NodeType.field then 1 else 0)),
        walk_all_lem ns cur d (c + (if t == NodeType.field then 1 else 0)),
        walk_all_lem ns (cur + 1) (max d (cur + 1)) (c + (if t == NodeType.field then 1 else 0)),
      )

  walk_all_lem :
      (ns : Nodes) (cur d c : ℕ)
      → cur ≤ d
      → cur + nesting_all ns < 2 ^ 32
      → c + fields_in_all ns < 2 ^ 32
      → walk_all ns cur (analysis d c)
        ≡ analysis (max d (cur + nesting_all ns)) (c + fields_in_all ns)
  walk_all_lem nil cur d c h i j = ground arith
  walk_all_lem (cons n ns) cur d c h i j =
      ground
        (arith, walk_lem n cur d c, walk_all_lem ns cur (max d (cur + nesting n)) (c + fields_in n))

-- For a query with fewer than 2 ^ 32 fields and levels, the analysis reports the number of its
-- field nodes and the deepest nesting of its selection sets.
pub analyse_query_complexity-counts :
    (root : Node)
    → nesting root < 2 ^ 32
    → fields_in root < 2 ^ 32
    → analyse_query_complexity root ≡ analysis (nesting root) (fields_in root)
unfolding analyse_query_complexity
analyse_query_complexity-counts root h i = ground (arith, walk_lem root 0 0 0)
