-- ===== src/Gql/Types/Implementers.antt =====
-- The interfaces of the object types against the possible types of the interfaces.
use isched.Common.{
  ◌≡◌, refl, Bool, true, false, ◌&&◌, ◌||◌, not, List, [], ◌∷◌, Option, none, some, ◌==◌, Text,
  text_eq, text_beq_iff, if◌then◌else◌, is_empty, any, all, arith, Bool-cases, inl, inr,
}
use isched.Ast.{NodeType, type_eq, Node, get_node_type, has_content, string_view, children, to_list}
use isched.Gql.TypeRefs.{TypeKind, interface, object, TypeMap, get_type_kind_for_node}
use isched.Gql.Types.{
  build_type_json, interface_name, interface_names, implements, is_object, find_implementers,
  interfaces_for, possible_types_for,
}

-- The parser keeps the text of each name that a type lists.
abbrev pub has_names : List Node → Bool
has_names cs = all (λ c. not (get_node_type c == NodeType.named_type) || has_content c) cs

abbrev pub all_named : TypeMap → Bool
all_named tm = all (λ entry. has_names (to_list (children entry.1))) tm

abbrev pub lists_name : Text → Option (List Text) → Bool
lists_name name none = false
lists_name name (some names) = any (λ x. x == name) names

-- The objects of the schema whose own introspection lists an interface.
unfoldable pub listed_by : Text → TypeMap → TypeMap → List Text
listed_by name tm [] = []
listed_by name tm (entry ∷ entries) =
    let rest = listed_by name tm entries in
    if lists_name name (build_type_json entry.0 entry.1 tm).interfaces then entry.0 ∷ rest else rest

head_and_tail : (a b : Bool) → (a && b) ≡ true → (a ≡ true) × (b ≡ true)
head_and_tail true b h = (refl, h)
head_and_tail false b h = (h, ground arith)

head_content : (a b : Bool) → a ≡ true → (not a || b) ≡ true → b ≡ true
head_content a b h i = ground arith

interface_name_lem : (c : Node) → has_content c ≡ true → interface_name c ≡ string_view c
unfolding interface_name
interface_name_lem c h = rw (h, interface_name) refl

names_step :
    (b r : Bool) (own name : Text) (rest : List Text)
    → is_empty name ≡ false
    → any (λ x. x == name) rest ≡ r
    → any (λ x. x == name) (if b && not (is_empty own) then own ∷ rest else rest)
      ≡ (if b && own == name then true else r)
names_step false r own name rest h i = i
names_step true r [] name rest h i = ground (arith, text_beq_iff [] name)
names_step true r (c ∷ own) name rest h i = ground arith

interface_names_lem :
    (name : Text) (cs : List Node)
    → is_empty name ≡ false
    → has_names cs ≡ true
    → any (λ x. x == name) (interface_names cs) ≡ implements name cs
unfolding interface_names implements
interface_names_lem name [] h i = refl
interface_names_lem name (c ∷ cs) h i =
    let rest = interface_names_lem name cs h (head_and_tail _ _ i).1 in
    elim (Bool-cases (get_node_type c == NodeType.named_type)) [
      | inr e ↦ rw (e, interface_names, implements) rest
      | inl e ↦
          let content = head_content _ _ e (head_and_tail _ _ i).0 in
          rw (interface_name_lem c content, interface_names, implements)
            (names_step (get_node_type c == NodeType.named_type) (implements name cs)
              (string_view c) name (interface_names cs) h rest)
    ]

interfaces_for_lem :
    (name : Text) (n : Node) (k : TypeKind)
    → is_empty name ≡ false
    → has_names (to_list (children n)) ≡ true
    → lists_name name (interfaces_for k n) ≡ (is_object k && implements name (to_list (children n)))
unfolding interfaces_for
interfaces_for_lem name n object h i =
    ground (arith, interface_names_lem name (to_list (children n)))
interfaces_for_lem name n _ h i = refl

find_implementers_lem :
    (name : Text) (tm es : TypeMap)
    → is_empty name ≡ false
    → all_named es ≡ true
    → find_implementers name es ≡ listed_by name tm es
unfolding find_implementers listed_by build_type_json
find_implementers_lem name tm [] h i = refl
find_implementers_lem name tm (entry ∷ es) h i = ground (
  arith,
  find_implementers_lem name tm es,
  interfaces_for_lem name entry.1 (get_type_kind_for_node entry.1),
)

-- In a schema whose types keep the texts of the names they list, the possible types of a named
-- interface are exactly the types whose own introspection lists it among their interfaces.
pub build_type_json-possible_types :
    (name : Text) (n : Node) (tm : TypeMap)
    → is_empty name ≡ false
    → all_named tm ≡ true
    → get_type_kind_for_node n ≡ interface
    → (build_type_json name n tm).possible_types ≡ some (listed_by name tm tm)
unfolding build_type_json possible_types_for
build_type_json-possible_types name n tm h i k =
    rw (k, possible_types_for) (cc (find_implementers_lem name tm tm h i))
