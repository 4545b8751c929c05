-- ===== src/Gql/Documents/Guarding.antt =====
-- The gates and the limits of a whole request.
use isched.Common.{
  ℕ, ◌^◌, ◌<◌, ◌≡◌, refl, true, ◌||◌, List, [], ◌∷◌, Option, none, some, text_eq, arith,
}
use isched.Ast.{type_eq, Node, children, to_list}
use isched.Gql.Json.{object, no_members}
use isched.Gql.Complexity.{analyse_query_complexity, nesting, fields_in}
use isched.Gql.Complexity.Bounds.{analyse_query_complexity-counts}
use isched.Gql.Execution.{Executor, State}
use isched.Gql.Execution.Safety.{all_authorised, process_field_selection-authorised}
use isched.Gql.Documents.{
  Limits, exceeds, exceeds_limits, process_part, process_parts, process_children,
  process_operation_definitions, process_operations, process_definitions, execute_document,
  execute_root, execute, nothing_yet,
}

module _ {N D : Type 0} (x : Executor N D) where
  process_part-authorised :
      (n : Node) (s : State N)
      → all_authorised x s ≡ true
      → all_authorised x (process_part x n s) ≡ true
  unfolding process_part
  process_part-authorised n s h =
      ground (arith, process_field_selection-authorised x n (object no_members) [] s)

  process_parts-authorised :
      (ns : List Node) (s : State N)
      → all_authorised x s ≡ true
      → all_authorised x (process_parts x ns s) ≡ true
  unfolding process_parts
  process_parts-authorised [] s h = h
  process_parts-authorised (n ∷ ns) s h =
      process_parts-authorised ns (process_part x n s) (process_part-authorised n s h)

  process_children-authorised :
      (ns : List Node) (s : State N)
      → all_authorised x s ≡ true
      → all_authorised x (process_children x ns s) ≡ true
  unfolding process_children
  process_children-authorised [] s h = h
  process_children-authorised (first ∷ others) s h = ground (
    arith,
    process_parts-authorised others s,
    process_field_selection-authorised x first (object no_members) [] s,
  )

  process_operations-authorised :
      (ns : List Node) (s : State N)
      → all_authorised x s ≡ true
      → all_authorised x (process_operations x ns s) ≡ true
  unfolding process_operations process_operation_definitions
  process_operations-authorised [] s h = h
  process_operations-authorised (n ∷ ns) s h =
      process_operations-authorised ns (process_operation_definitions x n s)
        (ground (arith, process_children-authorised (to_list (children n)) s))

  process_definitions-authorised :
      (ns : List Node) (s : State N)
      → all_authorised x s ≡ true
      → all_authorised x (process_definitions x ns s) ≡ true
  unfolding process_definitions
  process_definitions-authorised [] s h = h
  process_definitions-authorised (n ∷ ns) s h =
      let rest =
        process_definitions-authorised ns (process_operations x (to_list (children n)) s)
          (process_operations-authorised (to_list (children n)) s h) in
      ground (arith, rest)

  execute_root-authorised :
      (limits : Limits) (root : Node) (ns : List Node)
      → all_authorised x (execute_root x limits root ns) ≡ true
  unfolding execute_root execute_document
  execute_root-authorised limits root [] = refl
  execute_root-authorised limits root (n ∷ ns) =
      ground (arith, process_definitions-authorised (to_list (children n)) nothing_yet)

  -- However a request is parsed and whatever it asks for, every top-level resolver that is called for it
  -- passes both gates.
  pub execute-authorised :
      (limits : Limits) (query_length : ℕ) (parsed : Option Node)
      → all_authorised x (execute x limits query_length parsed) ≡ true
  unfolding execute
  execute-authorised limits query_length none = ground arith
  execute-authorised limits query_length (some root) =
      ground (arith, execute_root-authorised limits root (to_list (children root)))

  execute_root-unrun :
      (limits : Limits) (root : Node) (ns : List Node)
      → exceeds_limits limits (analyse_query_complexity root) ≡ true
      → (execute_root x limits root ns).calls ≡ []
  unfolding execute_root execute_document
  execute_root-unrun limits root [] h = refl
  execute_root-unrun limits root (n ∷ ns) h = ground arith

  -- A query that is nested deeper or has more fields than a limit above zero allows, with fewer than
  -- 2 ^ 32 levels and fields, calls no resolver.
  pub execute-limits :
      (limits : Limits) (query_length : ℕ) (root : Node)
      → nesting root < 2 ^ 32
      → fields_in root < 2 ^ 32
      → (exceeds limits.max_depth (nesting root) || exceeds limits.max_complexity (fields_in root))
        ≡ true
      → (execute x limits query_length (some root)).calls ≡ []
  unfolding execute exceeds_limits
  execute-limits limits query_length root h i e =
      let qa = analyse_query_complexity-counts root h i in
      let over : exceeds_limits limits (analyse_query_complexity root) ≡ true = rw (qa) e in
      ground (arith, execute_root-unrun limits root (to_list (children root)) over)
