-- ===== src/Gql/Fields/Walks.antt =====
-- The walks over a type's fields: what they list, and that the lookup of a field's type agrees with
-- the list.
use isched.Common.{
  ◌≡◌, refl, sym, true, List, [], ◌∷◌, ◌++◌, map, ◌==◌, Text, text_eq, if◌then◌else◌, is_empty,
  arith,
}
use isched.Ast.{NodeType, type_eq, Node, Nodes, node, nil, cons, children, to_list}
use isched.Gql.TypeRefs.{TypeMap}
use isched.Gql.Fields.{
  FieldJson, build_field_json, collect_fields_walk, walk_children, collect_fields, field_type_for,
  field_return_type_walk, return_type_children, field_return_type,
}

-- The field definitions of a tree that stand inside no other field definition, in order.
unfoldable mutual
  pub field_definitions : Node → List Node
  field_definitions (node t r c ns) =
      let deeper = definitions_in ns in
      if t == NodeType.field_definition then node t r c ns ∷ [] else deeper

  pub definitions_in : Nodes → List Node
  definitions_in nil = []
  definitions_in (cons n ns) = field_definitions n ++ definitions_in ns

append_assoc : {A : Type 0} (xs ys zs : List A) → (xs ++ ys) ++ zs ≡ xs ++ (ys ++ zs)
append_assoc [] ys zs = refl
append_assoc (x ∷ xs) ys zs = cc (append_assoc xs ys zs)

map-append : {A B : Type 0} (f : A → B) (xs ys : List A) → map f (xs ++ ys) ≡ map f xs ++ map f ys
map-append f [] ys = refl
map-append f (x ∷ xs) ys = cc (map-append f xs ys)

append_nil : {A : Type 0} (xs : List A) → xs ++ [] ≡ xs
append_nil [] = refl
append_nil (x ∷ xs) = cc (append_nil xs)

mutual
  unfolding collect_fields_walk walk_children field_definitions definitions_in

  collect_fields_walk_lem :
      (tm : TypeMap) (n : Node) (fields : List FieldJson)
      → collect_fields_walk tm n fields ≡ fields ++ map (build_field_json tm) (field_definitions n)
  collect_fields_walk_lem tm (node t r c ns) fields = ground (arith, walk_children_lem tm ns fields)

  walk_children_lem :
      (tm : TypeMap) (ns : Nodes) (fields : List FieldJson)
      → walk_children tm ns fields ≡ fields ++ map (build_field_json tm) (definitions_in ns)
  walk_children_lem tm nil fields = sym (append_nil fields)
  walk_children_lem tm (cons n ns) fields = cc (
    collect_fields_walk_lem tm n fields,
    walk_children_lem tm ns (collect_fields_walk tm n fields),
    map-append (build_field_json tm) (field_definitions n) (definitions_in ns),
    append_assoc fields (map (build_field_json tm) (field_definitions n))
        (map (build_field_json tm) (definitions_in ns)),
  )

-- Introspection lists a type's field definitions once each, in the order of the schema.
pub collect_fields-definitions :
    (tm : TypeMap) (n : Node)
    → collect_fields tm n ≡ map (build_field_json tm) (field_definitions n)
unfolding collect_fields field_definitions
collect_fields-definitions tm (node t r c ns) =
    ground (arith, collect_fields_walk_lem tm (node t r c ns) [], walk_children_lem tm ns [])

-- The first of the given definitions whose named type, read for a field of this name, is not empty.
pub first_typed : Text → List Node → Text
first_typed field_name [] = []
first_typed field_name (d ∷ ds) =
    let rest = first_typed field_name ds in
    let this = field_type_for field_name (to_list (children d)) [] in
    if is_empty this then rest else this

first_typed-append :
    (f : Text) (xs ys : List Node)
    → first_typed f (xs ++ ys)
      ≡ (if is_empty (first_typed f xs) then first_typed f ys else first_typed f xs)
unfolding first_typed
first_typed-append f [] ys = refl
first_typed-append f (x ∷ xs) ys = ground (arith, first_typed-append f xs ys)

empty_lem : (s : Text) → is_empty s ≡ true → s ≡ []
empty_lem [] h = refl
empty_lem (c ∷ s) h = ground arith

mutual
  unfolding field_return_type_walk return_type_children field_definitions definitions_in first_typed

  field_return_type_walk_lem :
      (f : Text) (n : Node) (result : Text)
      → field_return_type_walk f n result
        ≡ (if is_empty result then first_typed f (field_definitions n) else result)
  field_return_type_walk_lem f (node t r c ns) result = ground (
    arith,
    return_type_children_lem f ns result,
    empty_lem result,
    empty_lem (field_type_for f (to_list ns) []),
  )

  return_type_children_lem :
      (f : Text) (ns : Nodes) (result : Text)
      → return_type_children f ns result
        ≡ (if is_empty result then first_typed f (definitions_in ns) else result)
  return_type_children_lem f nil result = ground (arith, empty_lem result)
  return_type_children_lem f (cons n ns) result = ground (
    arith,
    field_return_type_walk_lem f n result,
    return_type_children_lem f ns (field_return_type_walk f n result),
    first_typed-append f (field_definitions n) (definitions_in ns),
    empty_lem (first_typed f (field_definitions n)),
  )

-- The type that the executor takes a field to return is the first non-empty base name among the
-- type's field definitions of that name, in the order in which introspection lists them.
pub field_return_type-first :
    (n : Node) (f : Text) → field_return_type n f ≡ first_typed f (field_definitions n)
unfolding field_return_type
field_return_type-first n f = field_return_type_walk_lem f n []
