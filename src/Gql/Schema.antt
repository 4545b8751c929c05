-- ===== src/Gql/Schema.antt =====
-- backend/isched_GqlExecutor.cpp: the maps of a schema's types and directives.
use isched.Common.{
  ◌≡◌, refl, Bool, ◌&&◌, ◌||◌, not, List, [], ◌∷◌, Option, none, some, ◌==◌, Text, text_eq,
  if◌then◌else◌, is_empty, lookup, insert, lookup-insert, arith,
}
use isched.Ast.{
  NodeType, type_eq, Node, Nodes, node, nil, cons, get_node_type, string_view, to_list,
}
use isched.Gql.TypeRefs.{TypeMap}

pub record SchemaMaps : Type 0 where
  pub type_map : TypeMap
  pub directives : TypeMap

unfoldable pub is_non_field_non_operation_definition : NodeType → Bool
is_non_field_non_operation_definition t =
    t == NodeType.schema_definition
    || t == NodeType.type_definition
    || t == NodeType.object_type_definition
    || t == NodeType.interface_type_definition
    || t == NodeType.union_type_definition
    || t == NodeType.enum_type_definition
    || t == NodeType.input_object_type_definition
    || t == NodeType.scalar_type_definition
    || t == NodeType.input_value_definition
    || t == NodeType.arguments_definition
    || t == NodeType.directive_definition
    || t == NodeType.variable_definition
    || t == NodeType.variable_definitions
    || t == NodeType.fragment_definition
    || t == NodeType.executable_definition
    || t == NodeType.enum_values_definition
    || t == NodeType.input_fields_definition

-- The text of the first child that is a name.
unfoldable pub defined_name : List Node → Text
defined_name [] = []
defined_name (c ∷ cs) =
    if get_node_type c == NodeType.name || get_node_type c == NodeType.type_name
    then string_view c
    else defined_name cs

unfoldable pub register_definition : NodeType → Text → Node → SchemaMaps → SchemaMaps
register_definition t name n maps =
    if is_empty name || not (is_non_field_non_operation_definition t)
    then maps
    else if t == NodeType.directive_definition
    then record maps { directives = insert name n maps.directives }
    else record maps { type_map = insert name n maps.type_map }

unfoldable mutual
  pub update_type_map_recursive : Node → SchemaMaps → SchemaMaps
  update_type_map_recursive (node t r c ns) maps =
      update_children ns (register_definition t (defined_name (to_list ns)) (node t r c ns) maps)

  pub update_children : Nodes → SchemaMaps → SchemaMaps
  update_children nil maps = maps
  update_children (cons n ns) maps = update_children ns (update_type_map_recursive n maps)

abbrev pub no_maps : SchemaMaps
no_maps = record { type_map = []; directives = [] }

unfoldable pub update_type_map : Option Node → SchemaMaps
update_type_map none = no_maps
update_type_map (some schema) = update_type_map_recursive schema no_maps

-- A node defines a type of this name, and is no directive.
abbrev pub defines : Text → NodeType → Text → Bool
defines name t own =
    not (is_empty own)
    && is_non_field_non_operation_definition t
    && not (t == NodeType.directive_definition)
    && own == name

abbrev pub later : Option Node → Option Node → Option Node
later old none = old
later old (some new) = some new

-- The last definition of a type's name, a node before its children.
unfoldable mutual
  pub last_definition : Text → Node → Option Node
  last_definition name (node t r c ns) =
      later (if defines name t (defined_name (to_list ns)) then some (node t r c ns) else none)
        (last_in name ns)

  pub last_in : Text → Nodes → Option Node
  last_in name nil = none
  last_in name (cons n ns) = later (last_definition name n) (last_in name ns)

register_definition_lem :
    (name own : Text) (t : NodeType) (n : Node) (maps : SchemaMaps)
    → lookup name (register_definition t own n maps).type_map
      ≡ later (lookup name maps.type_map) (if defines name t own then some n else none)
unfolding register_definition
register_definition_lem name own t n maps = ground (arith, lookup-insert own name n maps.type_map)

mutual
  unfolding update_type_map_recursive update_children last_definition last_in

  update_type_map_recursive_lem :
      (name : Text) (n : Node) (maps : SchemaMaps)
      → lookup name (update_type_map_recursive n maps).type_map
        ≡ later (lookup name maps.type_map) (last_definition name n)
  update_type_map_recursive_lem name (node t r c ns) maps =
      let own = defined_name (to_list ns) in
      ground (
        arith,
        register_definition_lem name own t (node t r c ns) maps,
        update_children_lem name ns (register_definition t own (node t r c ns) maps),
      )

  update_children_lem :
      (name : Text) (ns : Nodes) (maps : SchemaMaps)
      → lookup name (update_children ns maps).type_map
        ≡ later (lookup name maps.type_map) (last_in name ns)
  update_children_lem name nil maps = refl
  update_children_lem name (cons n ns) maps = ground (
    arith,
    update_type_map_recursive_lem name n maps,
    update_children_lem name ns (update_type_map_recursive n maps),
  )

-- After a schema is loaded, a lookup of a type's name gives the last definition of that name in the
-- schema, where a definition comes before those inside it, and nothing if there is none.
pub update_type_map-last :
    (schema : Node) (name : Text)
    → lookup name (update_type_map (some schema)).type_map ≡ last_definition name schema
unfolding update_type_map lookup
update_type_map-last schema name = ground (arith, update_type_map_recursive_lem name schema no_maps)
