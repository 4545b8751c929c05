-- ===== src/Samples/ConfigSamples.antt =====
-- Metrics, configuration providers and callbacks, and a schema with an interface.
use isched.Common.{
  ℕ, ◌≡◌, refl, true, [], ◌∷◌, Option, none, some, Text, codes, lookup, text_eq, nat_eq,
}
use isched.Ast.{NodeType, Node, node, nil, cons}
use isched.Gql.TypeRefs.{TypeMap, interface, get_type_kind_for_node, specific_kind}
use isched.Config.{Provider, no_callbacks, register_change_callback, notify_change_callbacks}
use isched.Config.Notification.{register_change_callback-unheard}

-- A provider that is its priority and gives it for every key.
abbrev numbered : Provider ℕ ℕ
numbered = record {
  get_priority = λ p. p;
  get_value = λ p key. some p;
  set_value = λ p key v. none;
  load = λ p. (true, p);
  save = λ p. (true, p);
}

register_change_callback-unheard_example :
    notify_change_callbacks
      (codes "server.port")
      (register_change_callback (codes "server.port") 7 no_callbacks).1
    ≡ notify_change_callbacks {C = ℕ} (codes "server.port") no_callbacks
unfolding lookup
register_change_callback-unheard_example =
    register_change_callback-unheard (codes "server.port") (codes "server.port") 7 no_callbacks refl
      refl refl

abbrev no_environment : Text → Option Text
no_environment key = none

abbrev reads_seven : Text → Option ℕ
reads_seven raw = some 7

abbrev leaf : NodeType → Text → Node
leaf t s = node t (codes "") (some s) nil

-- `interface Named` and `type User implements Named`.
abbrev named_interface : Node
named_interface =
    node NodeType.interface_type_definition (codes "") none
      (cons (leaf NodeType.name (codes "Named")) nil)

abbrev user_type : Node
user_type =
    node NodeType.object_type_definition (codes "") none (
      cons (leaf NodeType.name (codes "User"))
        (cons (leaf NodeType.named_type (codes "Named")) nil))

abbrev schema : Node
schema = node NodeType.document (codes "") none (cons named_interface (cons user_type nil))

abbrev types : TypeMap
types = (codes "Named", named_interface) ∷ (codes "User", user_type) ∷ []

named_is_interface : get_type_kind_for_node named_interface ≡ interface
unfolding get_type_kind_for_node specific_kind
named_is_interface = refl
