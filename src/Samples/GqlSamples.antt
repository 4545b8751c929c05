-- ===== src/Samples/GqlSamples.antt =====
-- Small schemas, queries and executors.
use isched.Common.{
  ℕ, ◌≡◌, ◌<◌, ◌^◌, refl, true, false, ◌||◌, [], ◌∷◌, none, some, Text, codes, text_eq, arith,
}
use isched.Ast.{NodeType, Node, node, nil, cons}
use isched.Gql.Json.{number, no_members}
use isched.Gql.TypeRefs.Chains.{TypeRef, named, list_of, required, tree_of}
use isched.Gql.Complexity.{nesting, fields_in}
use isched.Gql.Resolvers.{DimMap, empty_map, register_resolver}
use isched.Gql.Gates.{ResolverCtx, require_roles}
use isched.Gql.Execution.{returned, Resolver, Executor, State}
use isched.Gql.Execution.Safety.{all_authorised}
use isched.Gql.Documents.{Limits, exceeds, execute}
use isched.Gql.Documents.Guarding.{execute-authorised, execute-limits}

abbrev leaf : NodeType → Text → Node
leaf t s = node t (codes "") (some s) nil

abbrev users : TypeRef
users = required (list_of (named (codes "User")))

abbrev deprecated_mark : Node
deprecated_mark =
    node NodeType.directive_const (codes "") none
      (cons (leaf NodeType.name (codes "deprecated")) nil)

-- `users: [User]! @deprecated`.
abbrev users_field : Node
users_field = node NodeType.field_definition (codes "") none (
    cons (leaf NodeType.name (codes "users")) (
      cons (tree_of users)
        (cons (node NodeType.directives_const (codes "") none (cons deprecated_mark nil)) nil)))

abbrev query_type : Node
query_type =
    node NodeType.object_type_definition (codes "") none
      (cons (leaf NodeType.name (codes "Query")) (cons users_field nil))

-- `{ users { id } }`.
abbrev selection_of : Node → Node
selection_of n = node NodeType.selection_set (codes "") none (cons n nil)

abbrev id_field : Node
id_field = node NodeType.field (codes "") none (cons (leaf NodeType.name (codes "id")) nil)

abbrev users_query : Node
users_query = selection_of (
    node NodeType.field (codes "") none
      (cons (leaf NodeType.name (codes "users")) (cons (selection_of id_field) nil)))

nesting_small : nesting users_query < 2 ^ 32
unfolding nesting
nesting_small = omega arith

fields_in_small : fields_in users_query < 2 ^ 32
unfolding fields_in
fields_in_small = omega arith

abbrev two_numbers : DimMap ℕ
two_numbers = register_resolver (codes "users" ∷ []) (codes "id") 2 empty_map

abbrev guest : ResolverCtx ℕ
guest = record { tenant_id = codes "acme"; roles = codes "role_user" ∷ []; details = 0 }

abbrev answers : ℕ → Resolver ℕ ℕ
answers n parent args ctx = returned (number n)

abbrev guarded : Executor ℕ ℕ
guarded = record {
  type_map = [];
  resolvers = register_resolver [] (codes "users") (answers 7) empty_map;
  required_roles = require_roles (codes "users") (codes "role_admin" ∷ []) [];
  ctx = guest;
  variables = no_members;
  stoll = λ s. none;
  stod = λ s. none;
}

abbrev idle : State ℕ
idle = record { result = no_members; errors = []; calls = []; crashed = false }

-- A document with that query as its only operation.
abbrev users_document : Node
users_document = node NodeType.gql_query (codes "") none (
    cons
      (node NodeType.document (codes "") none (
        cons
          (node NodeType.executable_definition (codes "") none (
            cons
              (node NodeType.operation_definition (codes "") none
                (cons (leaf NodeType.name (codes "query")) (cons users_query nil)))
              nil))
          nil))
      nil)

abbrev shallow : Limits
shallow = record { max_depth = 1; max_complexity = 0 }

execute-authorised_example :
    all_authorised guarded (execute guarded shallow 20 (some users_document)) ≡ true
execute-authorised_example = execute-authorised guarded shallow 20 (some users_document)

document_nesting : nesting users_document < 2 ^ 32
unfolding nesting
document_nesting = omega arith

document_fields : fields_in users_document < 2 ^ 32
unfolding fields_in
document_fields = omega arith

document_exceeds :
    (exceeds shallow.max_depth (nesting users_document)
      || exceeds shallow.max_complexity (fields_in users_document))
    ≡ true
unfolding nesting fields_in
document_exceeds = refl

execute-limits_example : (execute guarded shallow 20 (some users_document)).calls ≡ []
execute-limits_example =
    execute-limits guarded shallow 20 users_document document_nesting document_fields
      document_exceeds
