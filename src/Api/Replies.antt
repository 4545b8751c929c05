-- ===== src/Api/Replies.antt =====
-- backend/isched_GqlExecutor.cpp: what the resolvers of configurations return, and how they read JSON.
use isched.Common.{Bool, true, false, List, [], Option, none, some, Text, text_eq}
use isched.Gql.Json.{Json, text, object, get_key}
use isched.Database.Snapshots.{SnapshotStore}

pub data ConfigurationError : Type 0 where
  no_database no_input no_tenant_id no_schema_sdl bad_expected_version unread_active :
      ConfigurationError
  version_mismatch invalid_schema not_saved no_id snapshot_not_found not_activated :
      ConfigurationError
  no_list no_previous no_target : ConfigurationError

-- `threw` is the JSON library's exception on a member of another type.
pub data Reply : Type 0 where
  threw : Reply
  refused : ConfigurationError → Reply
  succeeded : Text → Reply

-- A resolver of a snapshot's bindings that is registered.
pub record Binding : Type 0 where
  pub field_name : Text
  pub data_source_id : Text
  pub path_pattern : Text
  pub http_method : Text

pub record Event : Type 0 where
  pub topic : Text
  pub snapshot_id : Text
  pub schema_sdl : Option Text

pub record Effects : Type 0 where
  pub store : SnapshotStore
  pub pending_schema : Option (Text × Text)
  pub registered : List Binding
  pub published : List Event

abbrev pub only_store : SnapshotStore → Effects
only_store s = record { store = s; pending_schema = none; registered = []; published = [] }

module _ {N : Type 0} where
  -- `j.contains(key) && j[key].is_string()`, with the text.
  abbrev pub get_text : Text → Json N → Option Text
  get_text key j = elim (get_key key j) [
    | none ↦ none
    | some v ↦ elim v [ text s ↦ some s | _ ↦ none ]
  ]

  -- `j.value(key, missing)`; `none` if it throws.
  abbrev pub value_or : Text → Text → Json N → Option Text
  value_or key missing j = elim (get_key key j) [
    | none ↦ some missing
    | some v ↦ elim v [ text s ↦ some s | _ ↦ none ]
  ]

  abbrev pub is_object : Json N → Bool
  is_object (object ms) = true
  is_object _ = false
