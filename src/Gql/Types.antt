-- ===== src/Gql/Types.antt =====
-- backend/isched_GqlExecutor.cpp: `build_type_json`, the introspection object of a type. A key that
-- holds null for types of other kinds is an `Option`.
pub mod Implementers
use isched.Common.{
  ℕ, ◌≡◌, Bool, true, false, ◌&&◌, not, List, [], ◌∷◌, ◌++◌, Option, none, some, ◌==◌, Text,
  text_eq, if◌then◌else◌, is_empty,
}
use isched.Ast.{
  NodeType, type_eq, Node, Nodes, node, nil, cons, get_node_type, has_content, string_view,
  children, to_list,
}
use isched.Gql.TypeRefs.{
  TypeKind, scalar, interface, union, enum, input_object, object, list, non_null, TypeMap,
  extract_description, get_type_kind_for_node,
}
use isched.Gql.Fields.{
  FieldJson, InputValueJson, EnumValueJson, collect_fields, build_enum_value_json,
  build_input_value_json,
}

pub record TypeJson : Type 0 where
  pub kind : TypeKind
  pub type_name : Text
  pub type_description : Option Text
  pub fields : Option (List FieldJson)
  pub interfaces : Option (List Text)
  pub possible_types : Option (List Text)
  pub enum_values : Option (List EnumValueJson)
  pub input_fields : Option (List InputValueJson)

-- The content of the first child, if it has one.
abbrev pub child_content : Nodes → Text
child_content nil = []
child_content (cons n ns) = string_view n

-- The name of an interface: the node's own content, or its first child's.
unfoldable pub interface_name : Node → Text
interface_name c = if has_content c then string_view c else child_content (children c)

unfoldable pub interface_names : List Node → List Text
interface_names [] = []
interface_names (c ∷ cs) =
    let rest = interface_names cs in
    if get_node_type c == NodeType.named_type && not (is_empty (interface_name c))
    then interface_name c ∷ rest
    else rest

unfoldable mutual
  pub find_members : Node → List Text → List Text
  find_members (node t r c ns) possible =
      let deeper = members_in ns possible in
      if t == NodeType.union_member_types then possible ++ interface_names (to_list ns) else deeper

  pub members_in : Nodes → List Text → List Text
  members_in nil possible = possible
  members_in (cons n ns) possible = members_in ns (find_members n possible)

-- A child is a named type whose content is the interface's name.
unfoldable pub implements : Text → List Node → Bool
implements name [] = false
implements name (c ∷ cs) =
    let rest = implements name cs in
    if get_node_type c == NodeType.named_type && string_view c == name then true else rest

abbrev pub is_object : TypeKind → Bool
is_object object = true
is_object _ = false

unfoldable pub find_implementers : Text → TypeMap → List Text
find_implementers name [] = []
find_implementers name (entry ∷ entries) =
    let rest = find_implementers name entries in
    if is_object (get_type_kind_for_node entry.1) && implements name (to_list (children entry.1))
    then entry.0 ∷ rest
    else rest

unfoldable mutual
  pub walk_enum : Node → List EnumValueJson → List EnumValueJson
  walk_enum (node t r c ns) ev =
      let n = node t r c ns in
      let deeper = walk_enums ns ev in
      if t == NodeType.enum_value_definition then ev ++ (build_enum_value_json n ∷ []) else deeper

  pub walk_enums : Nodes → List EnumValueJson → List EnumValueJson
  walk_enums nil ev = ev
  walk_enums (cons n ns) ev = walk_enums ns (walk_enum n ev)

unfoldable mutual
  pub walk_iv : TypeMap → Node → List InputValueJson → List InputValueJson
  walk_iv tm (node t r c ns) iv =
      let n = node t r c ns in
      let deeper = walk_ivs tm ns iv in
      if t == NodeType.input_value_definition
      then iv ++ (build_input_value_json tm n ∷ [])
      else deeper

  pub walk_ivs : TypeMap → Nodes → List InputValueJson → List InputValueJson
  walk_ivs tm nil iv = iv
  walk_ivs tm (cons n ns) iv = walk_ivs tm ns (walk_iv tm n iv)

unfoldable pub fields_for : TypeKind → TypeMap → Node → Option (List FieldJson)
fields_for object tm n = some (collect_fields tm n)
fields_for interface tm n = some (collect_fields tm n)
fields_for _ tm n = none

unfoldable pub interfaces_for : TypeKind → Node → Option (List Text)
interfaces_for object n = some (interface_names (to_list (children n)))
interfaces_for _ n = none

unfoldable pub possible_types_for : TypeKind → Text → TypeMap → Node → Option (List Text)
possible_types_for union name tm n = some (find_members n [])
possible_types_for interface name tm n = some (find_implementers name tm)
possible_types_for _ name tm n = none

unfoldable pub enum_values_for : TypeKind → Node → Option (List EnumValueJson)
enum_values_for enum n = some (walk_enum n [])
enum_values_for _ n = none

unfoldable pub input_fields_for : TypeKind → TypeMap → Node → Option (List InputValueJson)
input_fields_for input_object tm n = some (walk_iv tm n [])
input_fields_for _ tm n = none

unfoldable pub build_type_json : Text → Node → TypeMap → TypeJson
build_type_json name n tm =
    let k = get_type_kind_for_node n in
    record {
      kind = k;
      type_name = name;
      type_description = extract_description n;
      fields = fields_for k tm n;
      interfaces = interfaces_for k n;
      possible_types = possible_types_for k name tm n;
      enum_values = enum_values_for k n;
      input_fields = input_fields_for k tm n;
    }
