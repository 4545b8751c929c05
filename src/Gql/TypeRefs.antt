-- ===== src/Gql/TypeRefs.antt =====
-- backend/isched_GqlExecutor.cpp: descriptions, type kinds and type references for introspection. A
-- JSON object with fixed keys is a constructor or a record with these fields; a key that holds null
-- or a text is an `Option`.
pub mod Chains
use isched.Common.{
  ℕ, ◌+◌, nat_eq, ◌-◌, ◌≡◌, refl, Bool, true, false, ◌&&◌, ◌||◌, List, [], ◌∷◌, Option, none, some,
  ◌==◌, Text, codes, text_eq, text_beq, if◌then◌else◌, leb, length, take, drop, get_last?, Map,
  lookup, is_empty,
}
use isched.Ast.{
  NodeType, type_eq, Node, Nodes, node, nil, cons, get_node_type, has_content, string_view,
  children, to_list,
}

abbrev pub quote : ℕ
quote = b'"'

abbrev starts_quoted : Text → Bool
starts_quoted [] = false
starts_quoted (c ∷ s) = c == quote

abbrev ends_quoted : Option ℕ → Bool
ends_quoted none = false
ends_quoted (some c) = c == quote

-- `raw.substr(n, raw.size() - 2 * n)`.
abbrev pub without_ends : ℕ → Text → Text
without_ends n raw = take (length raw - (n + n)) (drop n raw)

unfoldable pub strip_description : Text → Text
strip_description raw =
    if leb 6 (length raw)
      && take 3 raw == codes "\"\"\""
      && drop (length raw - 3) raw == codes "\"\"\""
    then without_ends 3 raw
    else if leb 2 (length raw) && starts_quoted raw && ends_quoted (get_last? raw)
    then without_ends 1 raw
    else raw

-- The text of the first child of a type.
unfoldable pub first_description : List Node → Option Text
first_description [] = none
first_description (c ∷ cs) =
    if get_node_type c == NodeType.description
    then some (strip_description (string_view c))
    else first_description cs

unfoldable pub extract_description : Node → Option Text
extract_description n = first_description (to_list (children n))

unfoldable pub is_builtin_scalar : Text → Bool
is_builtin_scalar name =
    name == codes "String"
    || name == codes "Int"
    || name == codes "Float"
    || name == codes "Boolean"
    || name == codes "ID"

-- The `__TypeKind` texts that the source spells out.
pub data TypeKind : Type 0 where
  scalar interface union enum input_object object list non_null : TypeKind

-- The kind that a specific definition node has.
unfoldable pub specific_kind : NodeType → Option TypeKind
specific_kind NodeType.scalar_type_definition = some scalar
specific_kind NodeType.interface_type_definition = some interface
specific_kind NodeType.union_type_definition = some union
specific_kind NodeType.enum_type_definition = some enum
specific_kind NodeType.input_object_type_definition = some input_object
specific_kind _ = none

unfoldable pub first_kind : List Node → TypeKind
first_kind [] = object
first_kind (c ∷ cs) = elim (specific_kind (get_node_type c)) [ some k ↦ k | none ↦ first_kind cs ]

unfoldable pub get_type_kind_for_node : Node → TypeKind
get_type_kind_for_node n = elim (specific_kind (get_node_type n)) [
  | some k ↦ k
  | none ↦
      if get_node_type n == NodeType.type_definition
      then first_kind (to_list (children n))
      else object
]

abbrev pub TypeMap : Type 0
TypeMap = Map Text Node

unfoldable pub named_type_kind : Text → TypeMap → TypeKind
named_type_kind name type_map =
    if is_builtin_scalar name
    then scalar
    else elim (lookup name type_map) [ none ↦ object | some n ↦ get_type_kind_for_node n ]

-- The `{ kind, name, ofType }` object, or null.
pub data TypeRefJson : Type 0 where
  null_ref : TypeRefJson
  ref : TypeKind → Option Text → TypeRefJson → TypeRefJson

-- The text of the first child that has content.
unfoldable pub first_content : List Node → Option Text
first_content [] = none
first_content (c ∷ cs) = if has_content c then some (string_view c) else first_content cs

abbrev or_empty : Option Text → Text
or_empty none = []
or_empty (some s) = s

unfoldable pub named_type_name : Node → Text
named_type_name n =
    if has_content n then string_view n else or_empty (first_content (to_list (children n)))

unfoldable pub is_type_node : NodeType → Bool
is_type_node t =
    t == NodeType.non_null_type
    || t == NodeType.named_type
    || t == NodeType.list_type
    || t == NodeType.type

unfoldable mutual
  pub build_type_ref_json : TypeMap → Node → TypeRefJson
  build_type_ref_json tm (node NodeType.non_null_type r c ns) =
      ref non_null none (last_ref tm ns null_ref)
  build_type_ref_json tm (node NodeType.list_type r c ns) = ref list none (first_type_ref tm ns)
  build_type_ref_json tm (node NodeType.named_type r c ns) =
      let name = named_type_name (node NodeType.named_type r c ns) in
      ref (named_type_kind name tm) (some name) null_ref
  build_type_ref_json tm (node NodeType.type r c ns) = first_ref tm ns
  build_type_ref_json tm (node _ r c ns) = null_ref

  -- Each child overwrites what the ones before it gave.
  pub last_ref : TypeMap → Nodes → TypeRefJson → TypeRefJson
  last_ref tm nil inner = inner
  last_ref tm (cons n ns) inner = last_ref tm ns (build_type_ref_json tm n)

  pub first_type_ref : TypeMap → Nodes → TypeRefJson
  first_type_ref tm nil = null_ref
  first_type_ref tm (cons n ns) =
      let this = build_type_ref_json tm n in
      let next = first_type_ref tm ns in if is_type_node (get_node_type n) then this else next

  pub first_ref : TypeMap → Nodes → TypeRefJson
  first_ref tm nil = null_ref
  first_ref tm (cons n ns) = build_type_ref_json tm n

unfoldable mutual
  pub base_type_name : Node → Text
  base_type_name (node NodeType.named_type r c ns) =
      let n = node NodeType.named_type r c ns in
      let inner = first_base_name ns in
      if has_content n
      then string_view n
      else elim (first_content (to_list ns)) [ some s ↦ s | none ↦ inner ]
  base_type_name (node t r c ns) = first_base_name ns

  pub first_base_name : Nodes → Text
  first_base_name nil = []
  first_base_name (cons n ns) =
      let rest = first_base_name ns in
      let this = base_type_name n in if is_empty this then rest else this
