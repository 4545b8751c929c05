-- ===== src/Gql/Arguments.antt =====
-- backend/isched_GqlExecutor.cpp: the values of a field's arguments. The C++ library's conversions
-- of number literals are parameters; `none` is the exception that they throw on a literal out of
-- range, which no function here catches.
use isched.Common.{
  ℕ, ◌-◌, Bool, false, ◌&&◌, List, [], ◌∷◌, ◌++◌, Option, none, some, ◌==◌, nat_eq, Text, codes,
  text_eq, if◌then◌else◌, leb, length, take, drop,
}
use isched.Ast.{
  NodeType, type_eq, Node, Nodes, node, nil, cons, get_node_type, string_view, children, to_list,
}
use isched.Gql.Json.{
  Json, Jsons, Members, null, boolean, number, text, array, object, no_items, no_members,
  get_member, set_member, push_item, GqlError, error_at, parse_error,
}

abbrev pub dollar : ℕ
dollar = b'$'

abbrev double_quote : ℕ
double_quote = b'"'

-- `var_sv.starts_with('$') ? var_sv.substr(1) : var_sv`.
unfoldable pub variable_name : Text → Text
variable_name [] = []
variable_name (c ∷ s) = if c == dollar then s else c ∷ s

abbrev opens : Text → Bool
opens [] = false
opens (c ∷ s) = c == double_quote

-- A block text loses three characters at each end, a plain one loses one. `substr` stops at the end.
unfoldable pub string_literal : Text → Text
string_literal s =
    if take 3 s == codes "\"\"\""
    then (if leb 6 (length s) then take (length s - 6) (drop 3 s) else drop 3 s)
    else if leb 2 (length s) && opens s
    then take (length s - 2) (drop 1 s)
    else s

module _ {N : Type 0} where
  abbrev pub or_null : Option (Json N) → Json N
  or_null none = null
  or_null (some j) = j

  -- A value together with the errors so far; `none` is an exception.
  abbrev pub as_number : Option N → List GqlError → Option (Json N × List GqlError)
  as_number none errors = none
  as_number (some n) errors = some (number n, errors)

module _ {N : Type 0} (stoll stod : Text → Option N) (variables : Members N) where
  unfoldable mutual
    pub extract_argument_value : Node → List GqlError → Option (Json N × List GqlError)
    extract_argument_value (node NodeType.variable r c ns) errors = some (
      or_null (get_member (variable_name (string_view (node NodeType.variable r c ns))) variables),
      errors,
    )
    extract_argument_value (node NodeType.string_value r c ns) errors =
        some (text (string_literal (string_view (node NodeType.string_value r c ns))), errors)
    extract_argument_value (node NodeType.int_value r c ns) errors =
        as_number (stoll (string_view (node NodeType.int_value r c ns))) errors
    extract_argument_value (node NodeType.float_value r c ns) errors =
        as_number (stod (string_view (node NodeType.float_value r c ns))) errors
    extract_argument_value (node NodeType.boolean_value r c ns) errors =
        some (boolean (string_view (node NodeType.boolean_value r c ns) == codes "true"), errors)
    extract_argument_value (node NodeType.null_value r c ns) errors = some (null, errors)
    extract_argument_value (node NodeType.enum_value r c ns) errors =
        some (text (string_view (node NodeType.enum_value r c ns)), errors)
    extract_argument_value (node NodeType.list_value r c ns) errors = list_items ns no_items errors
    extract_argument_value (node NodeType.object_value r c ns) errors =
        object_fields ns no_members errors
    extract_argument_value (node NodeType.value r c ns) errors = first_value ns errors
    extract_argument_value (node NodeType.argument r c ns) errors = second_value ns errors
    extract_argument_value (node _ r c ns) errors =
        some (null, errors ++ (error_at parse_error [] ∷ []))

    pub list_items : Nodes → Jsons N → List GqlError → Option (Json N × List GqlError)
    list_items nil items errors = some (array items, errors)
    list_items (cons n ns) items errors = elim (extract_argument_value n errors) [
      | none ↦ none
      | some v ↦ list_items ns (push_item items v.0) v.1
    ]

    -- The first child of an object's field is its name and the second its value; the parser makes
    -- no object field with fewer.
    pub object_fields : Nodes → Members N → List GqlError → Option (Json N × List GqlError)
    object_fields nil ms errors = some (object ms, errors)
    object_fields (cons n ns) ms errors =
        let skipped = object_fields ns ms errors in
        let name = field_key n in
        if get_node_type n == NodeType.object_field
        then elim (field_value n errors) [
          | none ↦ none
          | some v ↦ object_fields ns (set_member name v.0 ms) v.1
        ]
        else skipped

    pub field_key : Node → Text
    field_key (node t r c nil) = []
    field_key (node t r c (cons k ns)) = string_view k

    pub field_value : Node → List GqlError → Option (Json N × List GqlError)
    field_value (node t r c ns) errors = second_value ns errors

    pub first_value : Nodes → List GqlError → Option (Json N × List GqlError)
    first_value nil errors = some (null, errors)
    first_value (cons n ns) errors = extract_argument_value n errors

    pub second_value : Nodes → List GqlError → Option (Json N × List GqlError)
    second_value nil errors = some (null, errors)
    second_value (cons n ns) errors = first_value ns errors

  -- The loop of `process_arguments`.
  unfoldable pub argument_members :
      List Node → Members N → List GqlError → Option (Members N × List GqlError)
  argument_members [] ms errors = some (ms, errors)
  argument_members (arg ∷ args) ms errors =
      let refused = argument_members args ms (errors ++ (error_at parse_error [] ∷ [])) in
      if get_node_type arg == NodeType.argument && length (to_list (children arg)) == 2
      then elim (field_value arg errors) [
        | none ↦ none
        | some v ↦ argument_members args (set_member (field_key arg) v.0 ms) v.1
      ]
      else refused

  unfoldable pub process_arguments : Node → List GqlError → Option (Members N × List GqlError)
  process_arguments n errors =
      if get_node_type n == NodeType.arguments
      then argument_members (to_list (children n)) no_members errors
      else some (no_members, errors)

  -- `process_argument_field`: the first `Arguments` child counts.
  unfoldable pub process_argument_field :
      List Node → List GqlError → Option (Members N × List GqlError)
  process_argument_field [] errors = some (no_members, errors)
  process_argument_field (n ∷ ns) errors =
      if get_node_type n == NodeType.arguments
      then process_arguments n errors
      else process_argument_field ns errors
