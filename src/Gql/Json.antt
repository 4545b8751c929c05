-- ===== src/Gql/Json.antt =====
-- backend/isched_gql_error.hpp, and the JSON values (nlohmann::json) that the executor works on. A
-- number is whatever the JSON library and the C++ library make of a literal, so its type `N` is a
-- parameter.
use isched.Common.{Bool, List, Option, none, some, ◌==◌, Text, text_eq, if◌then◌else◌}

mutual
  pub data Json (N : Type 0) : Type 0 where
    null : Json N
    boolean : Bool → Json N
    number : N → Json N
    text : Text → Json N
    array : Jsons N → Json N
    object : Members N → Json N

  pub data Jsons (N : Type 0) : Type 0 where
    no_items : Jsons N
    item : Json N → Jsons N → Jsons N

  pub data Members (N : Type 0) : Type 0 where
    no_members : Members N
    member : Text → Json N → Members N → Members N

module _ {N : Type 0} where
  unfoldable pub get_member : Text → Members N → Option (Json N)
  get_member key no_members = none
  get_member key (member k v ms) = if k == key then some v else get_member key ms

  unfoldable pub set_member : Text → Json N → Members N → Members N
  set_member key new no_members = member key new no_members
  set_member key new (member k v ms) =
      if k == key then member k new ms else member k v (set_member key new ms)

  -- `j.is_object() && j.contains(key)`, with the value.
  unfoldable pub get_key : Text → Json N → Option (Json N)
  get_key key (object ms) = get_member key ms
  get_key key _ = none

  abbrev pub push_item : Jsons N → Json N → Jsons N
  push_item no_items j = item j no_items
  push_item (item i is) j = item i (push_item is j)

-- `EErrorCodes`.
pub data ErrorCode : Type 0 where
  unknown_error missing_gql_resolver parse_error argument_error forbidden : ErrorCode
  rate_limited unauthenticated validation_failed conflict context_mismatch : ErrorCode
  executable_def_not_allowed ok transient_network csrf_failed : ErrorCode

-- An error, without its formatted message.
pub record GqlError : Type 0 where
  pub error_code : ErrorCode
  pub error_path : List Text

abbrev pub error_at : ErrorCode → List Text → GqlError
error_at c p = record { error_code = c; error_path = p }
