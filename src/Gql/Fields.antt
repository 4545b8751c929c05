-- ===== src/Gql/Fields.antt =====
-- backend/isched_GqlExecutor.cpp: the introspection objects of fields, input values, enum values and
-- types, and the walks that collect them.
pub mod Walks
use isched.Common.{
  ℕ, ◌≡◌, Bool, true, false, ◌&&◌, ◌||◌, not, List, [], ◌∷◌, ◌++◌, Option, none, some, ◌==◌, Text,
  codes, text_eq, if◌then◌else◌, is_empty, is_some,
}
use isched.Ast.{
  NodeType, type_eq, Node, Nodes, node, nil, cons, get_node_type, has_content, string_view,
  children, to_list,
}
use isched.Gql.TypeRefs.{
  TypeKind, interface, union, enum, input_object, object, TypeMap, TypeRefJson, null_ref,
  build_type_ref_json, strip_description, extract_description, get_type_kind_for_node,
  base_type_name, is_type_node,
}
use isched.Gql.Deprecation.{check_deprecated}

-- `ast_node_to_str` never gives an error on the nodes of a tree.
unfoldable mutual
  pub ast_node_to_str : Node → Text
  ast_node_to_str (node t r (some s) ns) = s
  ast_node_to_str (node t r none ns) = nodes_to_str ns

  pub nodes_to_str : Nodes → Text
  nodes_to_str nil = []
  nodes_to_str (cons n ns) = ast_node_to_str n ++ nodes_to_str ns

-- `isDeprecated` with `deprecationReason` is `none`, or `some` of the reason.
pub record InputValueJson : Type 0 where
  pub iv_name : Option Text
  pub iv_description : Option Text
  pub iv_type : TypeRefJson
  pub iv_default : Option Text
  pub iv_deprecated : Option (Option Text)

pub record EnumValueJson : Type 0 where
  pub ev_name : Option Text
  pub ev_description : Option Text
  pub ev_deprecated : Option (Option Text)

pub record FieldJson : Type 0 where
  pub f_name : Option Text
  pub f_description : Option Text
  pub f_args : List InputValueJson
  pub f_type : TypeRefJson
  pub f_deprecated : Option (Option Text)

-- `if (iv["name"].is_null()) iv["name"] = s;`
abbrev pub name_once : Option Text → Text → Option Text
name_once none s = some s
name_once (some old) s = some old

abbrev pub is_name : Node → Bool
is_name c = get_node_type c == NodeType.name && has_content c

unfoldable pub input_value_children : TypeMap → List Node → InputValueJson → InputValueJson
input_value_children tm [] iv = iv
input_value_children tm (c ∷ cs) iv =
    let next =
      if get_node_type c == NodeType.description
      then record iv { iv_description = some (strip_description (string_view c)) }
      else if is_name c
      then record iv { iv_name = name_once iv.iv_name (string_view c) }
      else if is_type_node (get_node_type c)
      then record iv { iv_type = build_type_ref_json tm c }
      else if get_node_type c == NodeType.default_value
      then record iv { iv_default = some (ast_node_to_str c) }
      else iv in
    input_value_children tm cs next

unfoldable pub build_input_value_json : TypeMap → Node → InputValueJson
build_input_value_json tm n =
    let iv = input_value_children tm (to_list (children n)) (record {
      iv_name = none;
      iv_description = none;
      iv_type = null_ref;
      iv_default = none;
      iv_deprecated = none;
    }) in
    record iv { iv_deprecated = check_deprecated n }

unfoldable pub enum_value_children : List Node → EnumValueJson → EnumValueJson
enum_value_children [] ev = ev
enum_value_children (c ∷ cs) ev =
    let next =
      if get_node_type c == NodeType.description
      then record ev { ev_description = some (strip_description (string_view c)) }
      else if is_name c
      then record ev { ev_name = name_once ev.ev_name (string_view c) }
      else ev in
    enum_value_children cs next

unfoldable pub build_enum_value_json : Node → EnumValueJson
build_enum_value_json n =
    let ev =
      enum_value_children (to_list (children n))
        (record { ev_name = none; ev_description = none; ev_deprecated = none }) in
    record ev { ev_deprecated = check_deprecated n }

unfoldable pub push_args : TypeMap → List Node → List InputValueJson → List InputValueJson
push_args tm [] args = args
push_args tm (arg ∷ rest) args = push_args tm rest (
    if get_node_type arg == NodeType.input_value_definition
    then args ++ (build_input_value_json tm arg ∷ [])
    else args)

unfoldable pub field_children : TypeMap → List Node → FieldJson → FieldJson
field_children tm [] f = f
field_children tm (c ∷ cs) f =
    let next =
      if get_node_type c == NodeType.description
      then record f { f_description = some (strip_description (string_view c)) }
      else if is_name c
      then record f { f_name = name_once f.f_name (string_view c) }
      else if is_type_node (get_node_type c)
      then record f { f_type = build_type_ref_json tm c }
      else if get_node_type c == NodeType.arguments_definition
      then record f { f_args = push_args tm (to_list (children c)) f.f_args }
      else f in
    field_children tm cs next

abbrev pub blank_field : FieldJson
blank_field = record {
  f_name = none;
  f_description = none;
  f_args = [];
  f_type = null_ref;
  f_deprecated = none;
}

unfoldable pub build_field_json : TypeMap → Node → FieldJson
build_field_json tm n =
    let f = field_children tm (to_list (children n)) blank_field in
    record f { f_deprecated = check_deprecated n }

unfoldable mutual
  pub collect_fields_walk : TypeMap → Node → List FieldJson → List FieldJson
  collect_fields_walk tm (node t r c ns) fields =
      let n = node t r c ns in
      let deeper = walk_children tm ns fields in
      if t == NodeType.field_definition then fields ++ (build_field_json tm n ∷ []) else deeper

  pub walk_children : TypeMap → Nodes → List FieldJson → List FieldJson
  walk_children tm nil fields = fields
  walk_children tm (cons n ns) fields = walk_children tm ns (collect_fields_walk tm n fields)

unfoldable pub collect_fields : TypeMap → Node → List FieldJson
collect_fields tm type_node =
    if get_node_type type_node == NodeType.type_definition
    then walk_children tm (children type_node) []
    else collect_fields_walk tm type_node []

-- The name and the type node that the scan of a field's children holds.
pub record FieldScan : Type 0 where
  pub fname : Text
  pub type_ptr : Option Node

unfoldable pub scan_field : List Node → FieldScan → FieldScan
scan_field [] s = s
scan_field (c ∷ cs) s =
    let named = if is_name c && is_empty s.fname then record s { fname = string_view c } else s in
    scan_field cs
      (if is_type_node (get_node_type c) then record named { type_ptr = some c } else named)

abbrev pub no_scan : FieldScan
no_scan = record { fname = []; type_ptr = none }

-- What `result` becomes on a field definition.
unfoldable pub field_type_for : Text → List Node → Text → Text
field_type_for field_name cs result =
    let s = scan_field cs no_scan in
    if s.fname == field_name
    then elim s.type_ptr [ none ↦ result | some t ↦ base_type_name t ]
    else result

unfoldable mutual
  pub field_return_type_walk : Text → Node → Text → Text
  field_return_type_walk field_name (node t r c ns) result =
      let deeper = return_type_children field_name ns result in
      if not (is_empty result)
      then result
      else if t == NodeType.field_definition
      then field_type_for field_name (to_list ns) result
      else deeper

  pub return_type_children : Text → Nodes → Text → Text
  return_type_children field_name nil result = result
  return_type_children field_name (cons n ns) result =
      return_type_children field_name ns (field_return_type_walk field_name n result)

unfoldable pub field_return_type : Node → Text → Text
field_return_type type_node field_name = field_return_type_walk field_name type_node []
