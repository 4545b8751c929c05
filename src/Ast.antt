-- ===== src/Ast.antt =====
-- shared/ast/isched_NodeType.hpp and isched_CustomNode.hpp: the syntax tree that the parser builds.
-- A node has its enumerator, the name of the grammar rule that made it, the text that it spans (if
-- the parser kept it) and its children, none of which the parser leaves null.
pub mod Visitor
use isched.Common.{
  ℕ, zero, suc, ◌+◌, ◌≡◌, Bool, true, false, List, [], ◌∷◌, Option, none, some, Text, Comparable,
  nat_eq, ◌==◌, ◌↔◌, ap, refl, nat_beq_iff, get_elem?, is_some,
}

pub data NodeType : Type 0 where
  unknown sentinel : NodeType
  document executable_definition operation_definition selection_set field alias : NodeType
  arguments argument fragment_definition fragment_spread inline_fragment : NodeType
  type_condition variable variable_definition variable_definitions value string_value : NodeType
  int_value float_value boolean_value null_value enum_value object_value name : NodeType
  named_type list_type non_null_type schema_definition object_type_definition : NodeType
  interface_type_definition union_type_definition enum_type_definition : NodeType
  input_object_type_definition scalar_type_definition field_definition : NodeType
  input_value_definition directive_definition type_definition type directives_const : NodeType
  directive_const arguments_const argument_const value_const default_value : NodeType
  variables_definition enum_values_definition input_fields_definition type_name : NodeType
  arguments_definition union_member_types enum_value_definition list_value : NodeType
  object_field description gql_query : NodeType

-- The underlying `uint8_t`.
abbrev pub code_of : NodeType → ℕ
code_of unknown = 0
code_of sentinel = 1
code_of document = 2
code_of executable_definition = 3
code_of operation_definition = 4
code_of selection_set = 5
code_of field = 6
code_of alias = 7
code_of arguments = 8
code_of argument = 9
code_of fragment_definition = 10
code_of fragment_spread = 11
code_of inline_fragment = 12
code_of type_condition = 13
code_of variable = 14
code_of variable_definition = 15
code_of variable_definitions = 16
code_of value = 17
code_of string_value = 18
code_of int_value = 19
code_of float_value = 20
code_of boolean_value = 21
code_of null_value = 22
code_of enum_value = 23
code_of object_value = 24
code_of name = 25
code_of named_type = 26
code_of list_type = 27
code_of non_null_type = 28
code_of schema_definition = 29
code_of object_type_definition = 30
code_of interface_type_definition = 31
code_of union_type_definition = 32
code_of enum_type_definition = 33
code_of input_object_type_definition = 34
code_of scalar_type_definition = 35
code_of field_definition = 36
code_of input_value_definition = 37
code_of directive_definition = 38
code_of type_definition = 39
code_of type = 40
code_of directives_const = 41
code_of directive_const = 42
code_of arguments_const = 43
code_of argument_const = 44
code_of value_const = 45
code_of default_value = 46
code_of variables_definition = 47
code_of enum_values_definition = 48
code_of input_fields_definition = 49
code_of type_name = 50
code_of arguments_definition = 51
code_of union_member_types = 52
code_of enum_value_definition = 53
code_of list_value = 54
code_of object_field = 55
code_of description = 56
code_of gql_query = 57

all_types : List NodeType
all_types =
    unknown ∷ sentinel ∷ document ∷ executable_definition ∷ operation_definition ∷ selection_set
    ∷ field ∷ alias ∷ arguments ∷ argument ∷ fragment_definition ∷ fragment_spread ∷ inline_fragment
    ∷ type_condition ∷ variable ∷ variable_definition ∷ variable_definitions ∷ value ∷ string_value
    ∷ int_value ∷ float_value ∷ boolean_value ∷ null_value ∷ enum_value ∷ object_value ∷ name
    ∷ named_type ∷ list_type ∷ non_null_type ∷ schema_definition ∷ object_type_definition
    ∷ interface_type_definition ∷ union_type_definition ∷ enum_type_definition
    ∷ input_object_type_definition ∷ scalar_type_definition ∷ field_definition
    ∷ input_value_definition ∷ directive_definition ∷ type_definition ∷ type ∷ directives_const
    ∷ directive_const ∷ arguments_const ∷ argument_const ∷ value_const ∷ default_value
    ∷ variables_definition ∷ enum_values_definition ∷ input_fields_definition ∷ type_name
    ∷ arguments_definition ∷ union_member_types ∷ enum_value_definition ∷ list_value ∷ object_field
    ∷ description ∷ gql_query ∷ []

listed : (t : NodeType) → get_elem? all_types (code_of t) ≡ some t
unfolding all_types
listed unknown = refl
listed _ = refl

code_of-injective : (t u : NodeType) → code_of t ≡ code_of u → t ≡ u
code_of-injective t u e = cc (listed t, listed u, ap (get_elem? all_types) e)

abbrev pub same_type : NodeType → NodeType → Bool
same_type t u = code_of t == code_of u

pub same_type_iff : (t u : NodeType) → (same_type t u ≡ true) ↔ (t ≡ u)
same_type_iff t u =
    (λ e. code_of-injective t u ((nat_beq_iff _ _).0 e), λ e. (nat_beq_iff _ _).1 (ap code_of e))

instance abbrev pub type_eq : Comparable NodeType
type_eq = record { same = same_type; same_iff = same_type_iff }

mutual
  pub data Node : Type 0 where
    node : NodeType → Text → Option Text → Nodes → Node

  pub data Nodes : Type 0 where
    nil : Nodes
    cons : Node → Nodes → Nodes

-- `get_node_type`, of a node that is not null.
abbrev pub get_node_type : Node → NodeType
get_node_type (node t r c ns) = t

abbrev pub rule_name : Node → Text
rule_name (node t r c ns) = r

abbrev pub has_content : Node → Bool
has_content (node t r c ns) = is_some c

abbrev pub text_or_empty : Option Text → Text
text_or_empty none = []
text_or_empty (some s) = s

-- The source reads it where the node has content.
abbrev pub string_view : Node → Text
string_view (node t r c ns) = text_or_empty c

abbrev pub children : Node → Nodes
children (node t r c ns) = ns

abbrev pub to_list : Nodes → List Node
to_list nil = []
to_list (cons n ns) = n ∷ to_list ns

abbrev pub of_list : List Node → Nodes
of_list [] = nil
of_list (n ∷ ns) = cons n (of_list ns)

abbrev pub child_count : Nodes → ℕ
child_count nil = 0
child_count (cons n ns) = suc (child_count ns)

abbrev pub child_at : Nodes → ℕ → Option Node
child_at nil i = none
child_at (cons n ns) zero = some n
child_at (cons n ns) (suc i) = child_at ns i

unfoldable mutual
  -- The nodes of a tree.
  pub size : Node → ℕ
  size (node t r c ns) = suc (size_all ns)

  pub size_all : Nodes → ℕ
  size_all nil = 0
  size_all (cons n ns) = size n + size_all ns
