-- ===== src/Api/Rollbacks.antt =====
-- backend/isched_GqlExecutor.cpp: the resolvers `rollbackConfiguration`, `activeConfiguration` and
-- `configurationHistory`.
pub mod Targets
use isched.Common.{
  ℕ, ◌≡◌, Bool, true, false, not, ◌&&◌, ◌||◌, List, [], ◌∷◌, ◌++◌, Option, none, some, Text, codes,
  text_eq, ◌==◌, if◌then◌else◌, ltb, is_empty, is_some, length,
}
use isched.Gql.Json.{
  Json, Jsons, Members, null, boolean, number, text, array, object, no_items, item, no_members,
  member, get_key,
}
use isched.Database.Answers.{DatabaseResult, failed, value, Void, done, Statement, Listing}
use isched.Database.Snapshots.{
  ConfigurationSnapshot, SnapshotStore, after_failure, ActivationAnswers, save_config_snapshot,
  activate_config_snapshot, get_active_config_snapshot, get_config_snapshot, list_config_snapshots,
}
use isched.Api.Replies.{
  ConfigurationError, no_database, no_input, no_tenant_id, no_schema_sdl, bad_expected_version,
  unread_active, version_mismatch, invalid_schema, not_saved, no_id, snapshot_not_found,
  not_activated, no_list, no_previous, no_target, Reply, threw, refused, succeeded, Binding, Event,
  Effects, only_store, get_text, value_or, is_object,
}

-- The loop for the snapshot after the active one, and the one for any that is not active.
unfoldable pub after_active : Bool → List ConfigurationSnapshot → Text
after_active found [] = []
after_active found (s ∷ ss) =
    let rest = after_active true ss in
    let rest' = after_active found ss in if s.is_active then rest else if found then s.id else rest'

unfoldable pub first_inactive : List ConfigurationSnapshot → Text
first_inactive [] = []
first_inactive (s ∷ ss) = let rest = first_inactive ss in if s.is_active then rest else s.id

unfoldable pub rollback_target : List ConfigurationSnapshot → Text
rollback_target snaps =
    if is_empty (after_active false snaps) then first_inactive snaps else after_active false snaps

-- The schema of the first snapshot with the id that has one.
unfoldable pub schema_to_reload : Text → Text → List ConfigurationSnapshot → Option (Text × Text)
schema_to_reload tenant id [] = none
schema_to_reload tenant id (s ∷ ss) =
    let rest = schema_to_reload tenant id ss in
    if s.id == id && not (is_empty s.schema_sdl) then some (tenant, s.schema_sdl) else rest

module _ {N : Type 0} where
  -- `ends` is whether the listing stops at a step that fails and that makes SQLite roll an open
  -- transaction back.
  unfoldable pub rollback_configuration :
      Bool → Listing → Bool → ActivationAnswers → ℕ → Json N → SnapshotStore → Reply × Effects
  rollback_configuration has_database listing ends sqlite now args s =
      if not has_database
      then (refused no_database, only_store s)
      else elim (get_text (codes "tenantId") args) [
        | none ↦ (refused no_tenant_id, only_store s)
        | some tenant ↦ elim (list_config_snapshots listing tenant s) [
          | failed e ↦ (refused no_list, only_store s)
          | value snaps ↦
              let left = after_failure ends s in
              if ltb (length snaps) 2
              then (refused no_previous, only_store left)
              else if is_empty (rollback_target snaps)
              then (refused no_target, only_store left)
              else let (answer, s') =
                  activate_config_snapshot sqlite now (rollback_target snaps) left in
                elim answer [
                  | failed e ↦ (refused not_activated, only_store s')
                  | value _ ↦ (
                    succeeded (rollback_target snaps),
                    record (only_store s') {
                      pending_schema = schema_to_reload tenant (rollback_target snaps) snaps;
                    },
                  )
                ]
        ]
      ]

  -- `none` is JSON's null.
  unfoldable pub active_configuration :
      Bool → Statement → Json N → SnapshotStore → Option ConfigurationSnapshot
  active_configuration has_database selection args s =
      if not has_database then none else elim (get_text (codes "tenantId") args) [
        | none ↦ none
        | some tenant ↦ elim (get_active_config_snapshot selection tenant s) [
          | failed e ↦ none
          | value o ↦ o
        ]
      ]

  unfoldable pub configuration_history :
      Bool → Listing → Json N → SnapshotStore → List ConfigurationSnapshot
  configuration_history has_database listing args s =
      if not has_database then [] else elim (get_text (codes "tenantId") args) [
        | none ↦ []
        | some tenant ↦ elim (list_config_snapshots listing tenant s) [
          | failed e ↦ []
          | value snaps ↦ snaps
        ]
      ]
