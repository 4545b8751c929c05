-- ===== src/Gql/Documents.antt =====
-- backend/isched_GqlExecutor.cpp: `execute` and `process_operation_definitions`. The parser is PEGTL's,
-- so the parsed tree is an argument (`none` if the text does not parse), with the query's length; the
-- cache of parsed queries gives the same tree and is left out.
pub mod Guarding
use isched.Common.{
  ℕ, ◌≡◌, Bool, true, false, ◌&&◌, ◌||◌, not, List, [], ◌∷◌, Option, none, some, ◌==◌, Text, codes,
  text_eq, if◌then◌else◌, ltb,
}
use isched.Ast.{
  NodeType, type_eq, Node, Nodes, node, nil, cons, get_node_type, string_view, children, to_list,
}
use isched.Gql.Json.{object, no_members, ErrorCode, parse_error, argument_error, GqlError}
use isched.Gql.Complexity.{QueryAnalysis, analyse_query_complexity}
use isched.Gql.Execution.{Executor, State, add_error, process_field_selection}

abbrev pub is_metadata : NodeType → Bool
is_metadata t =
    t == NodeType.variables_definition
    || t == NodeType.variable_definitions
    || t == NodeType.variable_definition
    || t == NodeType.name

-- `GqlExecutor::Config`.
pub record Limits : Type 0 where
  pub max_depth : ℕ
  pub max_complexity : ℕ

-- A limit of 0 is none.
abbrev pub exceeds : ℕ → ℕ → Bool
exceeds limit n = ltb 0 limit && ltb limit n

unfoldable pub exceeds_limits : Limits → QueryAnalysis → Bool
exceeds_limits limits qa =
    exceeds limits.max_depth qa.depth || exceeds limits.max_complexity qa.complexity

abbrev pub nothing_yet : {N : Type 0} → State N
nothing_yet = record { result = no_members; errors = []; calls = []; crashed = false }

abbrev pub is_operation_type : Text → Bool
is_operation_type t = t == codes "query" || t == codes "mutation" || t == codes "subscription"

module _ {N D : Type 0} (x : Executor N D) where
  -- The parent's value is an empty object and the path is empty.
  unfoldable pub process_part : Node → State N → State N
  process_part child s =
      if s.crashed
      then s
      else if get_node_type child == NodeType.selection_set
      then process_field_selection x child (object no_members) [] s
      else if is_metadata (get_node_type child)
      then s
      else add_error parse_error [] s

  unfoldable pub process_parts : List Node → State N → State N
  process_parts [] s = s
  process_parts (child ∷ others) s = process_parts others (process_part child s)

  -- The three kinds of operations are processed alike; without a keyword the first child is the
  -- selection set.
  unfoldable pub process_children : List Node → State N → State N
  process_children [] s = add_error parse_error [] s
  process_children (first ∷ others) s =
      if is_operation_type (string_view first)
      then process_parts others s
      else if get_node_type first == NodeType.selection_set
      then process_field_selection x first (object no_members) [] s
      else add_error parse_error [] s

  unfoldable pub process_operation_definitions : Node → State N → State N
  process_operation_definitions operation s =
      if s.crashed
      then s
      else if get_node_type operation == NodeType.operation_definition
      then process_children (to_list (children operation)) s
      else add_error parse_error [] s

  unfoldable pub process_operations : List Node → State N → State N
  process_operations [] s = s
  process_operations (operation ∷ others) s =
      process_operations others (process_operation_definitions operation s)

  -- The first child that is no executable definition ends the loop.
  unfoldable pub process_definitions : List Node → State N → State N
  process_definitions [] s = s
  process_definitions (definition ∷ others) s =
      let rest =
        process_definitions others (process_operations (to_list (children definition)) s) in
      if s.crashed
      then s
      else if get_node_type definition == NodeType.executable_definition
      then rest
      else add_error parse_error [] s

  unfoldable pub execute_document : Limits → Node → List Node → State N
  execute_document limits root definitions =
      if exceeds_limits limits (analyse_query_complexity root)
      then add_error argument_error [] nothing_yet
      else process_definitions definitions nothing_yet

  abbrev with_definitions : Limits → Node → List Node → State N
  with_definitions limits root [] = add_error parse_error [] nothing_yet
  with_definitions limits root (d ∷ ds) = execute_document limits root (d ∷ ds)

  unfoldable pub execute_root : Limits → Node → List Node → State N
  execute_root limits root [] = add_error parse_error [] nothing_yet
  execute_root limits root (document ∷ others) =
      if get_node_type document == NodeType.document
      then with_definitions limits root (to_list (children document))
      else add_error parse_error [] nothing_yet

  unfoldable pub execute : Limits → ℕ → Option Node → State N
  execute limits query_length parsed =
      if ltb 100000 query_length then add_error argument_error [] nothing_yet else elim parsed [
        | none ↦ add_error parse_error [] nothing_yet
        | some root ↦ execute_root limits root (to_list (children root))
      ]
