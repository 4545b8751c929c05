-- ===== src/Gql/Execution.antt =====
-- backend/isched_GqlExecutor.cpp and isched_GqlExecutor_field_nodes.cpp: the resolution of a selection
-- set. A node denotes an action on the state of the execution. A resolver is a value of the model,
-- as it is in the source; what it does outside of its result is not modelled.
pub mod Safety
use isched.Common.{
  ℕ, ◌≡◌, Bool, true, false, ◌&&◌, List, [], ◌∷◌, ◌++◌, Option, none, some, ◌==◌, Text, codes,
  text_eq, if◌then◌else◌, is_empty, take, lookup, is_some,
}
use isched.Ast.{
  NodeType, type_eq, Node, Nodes, node, nil, cons, get_node_type, string_view, to_list,
}
use isched.Gql.Json.{
  Json, Jsons, Members, null, boolean, number, text, array, object, no_items, item, no_members,
  get_key, set_member, push_item, ErrorCode, unknown_error, missing_gql_resolver, parse_error,
  forbidden, rate_limited, context_mismatch, GqlError, error_at,
}
use isched.Gql.TypeRefs.{TypeMap}
use isched.Gql.Fields.{field_return_type}
use isched.Gql.Arguments.{process_argument_field}
use isched.Gql.Resolvers.{DimMap, get_resolver}
use isched.Gql.Gates.{ResolverCtx, RoleTable, is_forbidden, is_mismatch}

-- A resolver returns a value, throws a `gql::Error`, or throws another exception with a message.
pub data Outcome (N : Type 0) : Type 0 where
  returned : Json N → Outcome N
  threw_error : ErrorCode → Outcome N
  threw : Text → Outcome N

abbrev pub Resolver : Type 0 → Type 0 → Type 0
Resolver N D = Json N → Json N → ResolverCtx D → Outcome N

-- The members of `GqlExecutor` and the thread's context and variables.
pub record Executor (N D : Type 0) : Type 0 where
  pub type_map : TypeMap
  pub resolvers : DimMap (Resolver N D)
  pub required_roles : RoleTable
  pub ctx : ResolverCtx D
  pub variables : Members N
  pub stoll : Text → Option N
  pub stod : Text → Option N

pub record Call (N : Type 0) : Type 0 where
  pub call_path : List Text
  pub call_field : Text
  pub call_args : Members N

-- `crashed` is an exception on its way out: from there on nothing runs. `calls` are the resolvers
-- called so far.
pub record State (N : Type 0) : Type 0 where
  pub result : Members N
  pub errors : List GqlError
  pub calls : List (Call N)
  pub crashed : Bool

-- What is done to the state, given the parent's value and the path.
abbrev pub Action : Type 0 → Type 0
Action N = Json N → List Text → State N → State N

abbrev pub skip : {N : Type 0} → Action N
skip parent path s = s

abbrev pub then_do : {N : Type 0} → Action N → Action N → Action N
then_do a b parent path s = b parent path (a parent path s)

abbrev pub add_error : {N : Type 0} → ErrorCode → List Text → State N → State N
add_error code path s = record s { errors = s.errors ++ (error_at code path ∷ []) }

abbrev pub put : {N : Type 0} → Text → Json N → State N → State N
put name j s = record s { result = set_member name j s.result }

abbrev pub crash : {N : Type 0} → State N → State N
crash s = record s { crashed = true }

-- An error at the field's path, and null as its value.
abbrev pub refuse : {N : Type 0} → ErrorCode → List Text → Text → State N → State N
refuse code path name s = put name null (add_error code (path ++ (name ∷ [])) s)

abbrev first_key : TypeMap → Text
first_key [] = []
first_key (entry ∷ entries) = entry.0

-- `m_type_map.begin()` where the schema has no `Query`.
unfoldable pub root_type : TypeMap → Text
root_type tm = if is_some (lookup (codes "Query") tm) then codes "Query" else first_key tm

unfoldable pub type_at : TypeMap → List Text → Text → Text
type_at tm [] current = current
type_at tm (seg ∷ segs) current = elim (lookup current tm) [
  | none ↦ []
  | some n ↦
      if is_empty (field_return_type n seg) then [] else type_at tm segs (field_return_type n seg)
]

abbrev pub text_or_null : {N : Type 0} → Text → Json N
text_or_null [] = null
text_or_null (c ∷ s) = text (c ∷ s)

-- `get<std::string>()` throws on any other value.
abbrev pub parent_typename : {N : Type 0} → Text → Option (Json N) → State N → State N
parent_typename name none s = put name null s
parent_typename name (some (text t)) s = put name (text_or_null t) s
parent_typename name (some _) s = crash s

unfoldable pub typename_field : {N : Type 0} → TypeMap → Text → Action N
typename_field tm name parent path s =
    if is_empty (type_at tm path (root_type tm))
    then parent_typename name (get_key name parent) s
    else put name (text_or_null (type_at tm path (root_type tm))) s

-- The default resolver: the parent's value of that key.
unfoldable pub default_field : {N : Type 0} → Text → Action N
default_field name parent path s = elim (get_key name parent) [
  | some j ↦ put name j s
  | none ↦ add_error missing_gql_resolver (path ++ (name ∷ [])) s
]

abbrev pub code_of_message : Text → ErrorCode
code_of_message msg = if take 12 msg == codes "RATE_LIMITED" then rate_limited else unknown_error

-- The sub-selection of each element of a list, with the elements done so far.
unfoldable pub each_item :
    {N : Type 0} → Action N → List Text → Jsons N → Jsons N → State N → Jsons N × State N
each_item sub path no_items done s = (done, s)
each_item sub path (item null is) done s = each_item sub path is (push_item done null) s
each_item sub path (item j is) done s =
    let s' = sub j path (record s { result = no_members }) in
    each_item sub path is (push_item done (object s'.result)) s'

-- What becomes of the value that a resolver returned.
unfoldable pub complete :
    {N : Type 0} → Option (Action N) → Json N → List Text → Text → State N → State N
complete none j path name s = put name j s
complete (some sub) null path name s = put name null s
complete (some sub) (array is) path name s =
    let done = each_item sub (path ++ (name ∷ [])) is no_items s in
    record done.1 { result = set_member name (array done.0) s.result }
complete (some sub) (object ms) path name s =
    let s' = sub (object ms) (path ++ (name ∷ [])) (record s { result = no_members }) in
    record s' { result = set_member name (object s'.result) s.result }
complete (some sub) _ path name s = refuse unknown_error path name s

abbrev pub call_of : {N : Type 0} → List Text → Text → Members N → Call N
call_of path name args = record { call_path = path; call_field = name; call_args = args }

module _ {N D : Type 0} (x : Executor N D) where
  unfoldable pub call_resolver : Resolver N D → Text → Members N → Option (Action N) → Action N
  call_resolver r name args sub parent path s =
      let logged = record s { calls = s.calls ++ (call_of path name args ∷ []) } in
      elim (r parent (object args) x.ctx) [
        | returned j ↦ complete sub j path name logged
        | threw_error code ↦ refuse code path name logged
        | threw msg ↦ refuse (code_of_message msg) path name logged
      ]

  unfoldable pub gated : Resolver N D → Text → Members N → Option (Action N) → Action N
  gated r name args sub parent path s =
      if is_empty path && is_forbidden x.required_roles name x.ctx
      then refuse forbidden path name s
      else if is_empty path && is_mismatch name args x.ctx
      then refuse context_mismatch path name s
      else call_resolver r name args sub parent path s

  unfoldable pub resolved_field : Resolver N D → Text → List Node → Option (Action N) → Action N
  resolved_field r name ns sub parent path s =
      elim (process_argument_field x.stoll x.stod x.variables ns s.errors) [
        | none ↦ crash s
        | some a ↦ gated r name a.0 sub parent path (record s { errors = a.1 })
      ]

  unfoldable pub named_field : Text → List Node → Option (Action N) → Action N
  named_field name ns sub parent path s =
      if name == codes "__typename"
      then typename_field x.type_map name parent path s
      else elim (get_resolver path name x.resolvers) [
        | none ↦ default_field name parent path s
        | some r ↦ resolved_field r name ns sub parent path s
      ]

  -- `resolve_field_selection_details` on a field with these children and this sub-selection.
  unfoldable pub field_action : List Node → Option (Action N) → Action N
  field_action [] sub parent path s = if s.crashed then s else add_error parse_error [] s
  field_action (first ∷ others) sub parent path s =
      if s.crashed then s else named_field (string_view first) (first ∷ others) sub parent path s

abbrev pub selection_rule : Text
selection_rule = codes "isched::v0_0_1::gql::Selection"

-- A field node that was collected is given as the action that `resolve_field_selection_details` is on
-- it, since the recursion goes by the tree.
abbrev pub FieldNodeList : Type 0 → Type 0
FieldNodeList N = List (Action N)

unfoldable pub process_field_nodes : {N : Type 0} → FieldNodeList N → Action N
process_field_nodes [] parent path s = s
process_field_nodes (field ∷ fields) parent path s =
    process_field_nodes fields parent path (field parent path s)

module _ {N D : Type 0} (x : Executor N D) where
  unfoldable mutual
    pub process_sub_selection : Node → Action N
    process_sub_selection (node t r c ns) =
        let sub = selection_after_name ns in
        let fields = selected_fields ns in
        let selections = process_each ns in
        if t == NodeType.arguments
        then skip
        else if t == NodeType.field
        then field_action x (to_list ns) sub
        else if t == NodeType.selection_set
        then process_field_nodes fields
        else if r == selection_rule
        then selections
        else skip

    -- The first selection set among the children from the second on.
    pub selection_after_name : Nodes → Option (Action N)
    selection_after_name nil = none
    selection_after_name (cons n ns) = first_selection ns

    pub first_selection : Nodes → Option (Action N)
    first_selection nil = none
    first_selection (cons n ns) =
        let this = process_field_sub_selections n in
        let rest = first_selection ns in
        if get_node_type n == NodeType.selection_set then some this else rest

    pub process_field_sub_selections : Node → Action N
    process_field_sub_selections (node t r c ns) = process_each ns

    pub process_each : Nodes → Action N
    process_each nil = skip
    process_each (cons n ns) = then_do (process_sub_selection n) (process_each ns)

    -- The loop of `collect_field_nodes` over the children of a selection set.
    pub selected_fields : Nodes → FieldNodeList N
    selected_fields nil = []
    selected_fields (cons n ns) = selected_field n ++ selected_fields ns

    pub selected_field : Node → FieldNodeList N
    selected_field (node t r c ns) =
        let sub = selection_after_name ns in
        let first = first_field ns in
        if t == NodeType.field
        then field_action x (to_list ns) sub ∷ []
        else if t == NodeType.unknown && r == selection_rule
        then first
        else []

    -- The first child, if it is a field.
    pub first_field : Nodes → FieldNodeList N
    first_field nil = []
    first_field (cons n ns) =
        let this = resolve_field_selection_details n in
        if get_node_type n == NodeType.field then this ∷ [] else []

    pub resolve_field_selection_details : Node → Action N
    resolve_field_selection_details (node t r c ns) =
        field_action x (to_list ns) (selection_after_name ns)

  unfoldable pub collect_field_nodes : Node → FieldNodeList N
  collect_field_nodes (node t r c ns) =
      if t == NodeType.selection_set then selected_fields ns else []

  unfoldable pub process_field_selection : Node → Action N
  process_field_selection selection_set = process_field_nodes (collect_field_nodes selection_set)
