-- ===== src/Gql/TypeRefs/Chains.antt =====
-- The chains of type references: what introspection gives for a type written in a schema.
use isched.Common.{
  ℕ, ◌≡◌, refl, true, List, [], ◌∷◌, Option, none, some, ◌==◌, Text, codes, text_eq, lookup, arith,
  subst, Option-cases, Bool-cases, inl, inr,
}
use isched.Ast.{NodeType, get_node_type, type_eq, children, to_list, Node, Nodes, node, nil, cons}
use isched.Gql.TypeRefs.{
  TypeKind, list, non_null, TypeMap, named_type_kind, TypeRefJson, null_ref, ref,
  build_type_ref_json, named_type_name, base_type_name, is_type_node, specific_kind, first_kind,
  get_type_kind_for_node, is_builtin_scalar,
}

-- A type as GraphQL has it, and the tree that the parser builds for it.
pub data TypeRef : Type 0 where
  named : Text → TypeRef
  list_of : TypeRef → TypeRef
  required : TypeRef → TypeRef

abbrev pub only : Node → Nodes
only n = cons n nil

abbrev pub tree_of : TypeRef → Node
tree_of (named s) = node NodeType.named_type (codes "") (some s) nil
tree_of (list_of t) = node NodeType.list_type (codes "") none (only (tree_of t))
tree_of (required t) = node NodeType.non_null_type (codes "") none (only (tree_of t))

-- The reader's side of the `{ kind, name, ofType }` chain.
pub read_type_ref : TypeRefJson → Option TypeRef
read_type_ref null_ref = none
read_type_ref (ref list _ inner) = elim (read_type_ref inner) [
  | none ↦ none
  | some t ↦ some (list_of t)
]
read_type_ref (ref non_null _ inner) = elim (read_type_ref inner) [
  | none ↦ none
  | some t ↦ some (required t)
]
read_type_ref (ref _ none _) = none
read_type_ref (ref _ (some name) _) = some (named name)

abbrev pub innermost : TypeRef → Text
innermost (named s) = s
innermost (list_of t) = innermost t
innermost (required t) = innermost t

-- No named type has the kind of a wrapper.
IsLeafKind : TypeKind → Type 0
IsLeafKind k = (name : Text) → read_type_ref (ref k (some name) null_ref) ≡ some (named name)

-- What a kind that may be absent satisfies.
LeafOption : Option TypeKind → Type 0
LeafOption none = ℕ
LeafOption (some k) = IsLeafKind k

specific_kind-leaf : (t : NodeType) → LeafOption (specific_kind t)
unfolding LeafOption IsLeafKind specific_kind read_type_ref
specific_kind-leaf NodeType.scalar_type_definition = λ name. refl
specific_kind-leaf NodeType.interface_type_definition = λ name. refl
specific_kind-leaf NodeType.union_type_definition = λ name. refl
specific_kind-leaf NodeType.enum_type_definition = λ name. refl
specific_kind-leaf NodeType.input_object_type_definition = λ name. refl
specific_kind-leaf _ = 0

first_kind-leaf : (ns : List Node) → IsLeafKind (first_kind ns)
unfolding LeafOption IsLeafKind first_kind read_type_ref
first_kind-leaf [] other = refl
first_kind-leaf (c ∷ cs) other =
    let leaf = specific_kind-leaf (get_node_type c) in
    let rest = first_kind-leaf cs other in
    elim (Option-cases (specific_kind (get_node_type c))) [
      | inl e ↦ rw (e, read_type_ref) rest
      | inr (k, e) ↦ rw (e, read_type_ref) (subst (λ o. LeafOption o) e leaf other)
    ]

get_type_kind_for_node-leaf : (n : Node) → IsLeafKind (get_type_kind_for_node n)
unfolding LeafOption IsLeafKind get_type_kind_for_node read_type_ref
get_type_kind_for_node-leaf n other =
    let leaf = specific_kind-leaf (get_node_type n) in
    elim (Option-cases (specific_kind (get_node_type n))) [
      | inl e ↦
          rw (e, read_type_ref)
            (elim (Bool-cases (get_node_type n == NodeType.type_definition)) [
              | inl f ↦
                  rw (f, read_type_ref)
                    (unfold IsLeafKind in first_kind-leaf (to_list (children n)) other)
              | inr f ↦ rw (f, read_type_ref) refl
            ])
      | inr (k, e) ↦ rw (e, read_type_ref) (subst (λ o. LeafOption o) e leaf other)
    ]

named_type_kind-IsLeafKind : (name : Text) (tm : TypeMap) → IsLeafKind (named_type_kind name tm)
unfolding IsLeafKind named_type_kind read_type_ref get_type_kind_for_node
named_type_kind-IsLeafKind name tm other = elim (Bool-cases (is_builtin_scalar name)) [
  | inl e ↦ rw (e, read_type_ref) refl
  | inr e ↦
      rw (e, read_type_ref)
        (elim (Option-cases (lookup name tm)) [
          | inl f ↦ rw (f, read_type_ref) refl
          | inr (n, f) ↦
              rw (f, read_type_ref) (unfold IsLeafKind in get_type_kind_for_node-leaf n other)
        ])
]

tree_of-is_type : (t : TypeRef) → is_type_node (get_node_type (tree_of t)) ≡ true
unfolding is_type_node
tree_of-is_type (named s) = refl
tree_of-is_type (list_of t) = refl
tree_of-is_type (required t) = refl

-- The chain that introspection builds for a type reads back as that type, whatever the schema says
-- of its name.
pub build_type_ref_json-read :
    (tm : TypeMap) (t : TypeRef) → read_type_ref (build_type_ref_json tm (tree_of t)) ≡ some t
unfolding build_type_ref_json named_type_name read_type_ref
build_type_ref_json-read tm (named s) = unfold IsLeafKind in named_type_kind-IsLeafKind s tm s
build_type_ref_json-read tm (list_of t) =
    rw (tree_of-is_type t, build_type_ref_json-read tm t, read_type_ref) refl
build_type_ref_json-read tm (required t) = rw (build_type_ref_json-read tm t, read_type_ref) refl

-- The base name of a written type is the name inside all of its wrappers.
pub base_type_name-innermost : (t : TypeRef) → base_type_name (tree_of t) ≡ innermost t
unfolding base_type_name
base_type_name-innermost (named s) = refl
base_type_name-innermost (list_of t) = ground (arith, base_type_name-innermost t)
base_type_name-innermost (required t) = ground (arith, base_type_name-innermost t)
