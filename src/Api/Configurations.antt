-- ===== src/Api/Configurations.antt =====
-- backend/isched_GqlExecutor.cpp: the resolvers `applyConfiguration` and `activateSnapshot`. The grammar, the
-- JSON library, new ids and the clock are parameters. What a resolver hands to others (the reload for the
-- server, resolvers to register, the event for the broker) is returned beside its reply.
-- `ends` is whether a query whose step fails has made SQLite roll an open transaction back.
pub mod Activations
use isched.Common.{
  ℕ, ◌≡◌, Bool, true, false, not, ◌&&◌, ◌||◌, List, [], ◌∷◌, ◌++◌, Option, none, some, Text, codes,
  text_eq, ◌==◌, if◌then◌else◌, ltb, is_empty, is_some, length,
}
use isched.Gql.Json.{
  Json, Jsons, Members, null, boolean, number, text, array, object, no_items, item, no_members,
  member, get_key,
}
use isched.Database.Answers.{DatabaseResult, failed, value, Void, done, Statement, Listing}
use isched.Database.Snapshots.{
  ConfigurationSnapshot, SnapshotStore, Insertion, after_read, ActivationAnswers,
  save_config_snapshot, activate_config_snapshot, get_active_config_snapshot, get_config_snapshot,
  list_config_snapshots,
}
use isched.Api.Replies.{
  ConfigurationError, no_database, no_input, no_tenant_id, no_schema_sdl, bad_expected_version,
  unread_active, version_mismatch, invalid_schema, not_saved, no_id, snapshot_not_found,
  not_activated, no_list, no_previous, no_target, Reply, threw, refused, succeeded, Binding, Event,
  Effects, only_store, get_text, value_or, is_object,
}

unfoldable pub save_new :
    Insertion → Option ConfigurationSnapshot → SnapshotStore → Reply × SnapshotStore
save_new insertion none s = (threw, s)
save_new insertion (some snap) s =
    let (answer, s') = save_config_snapshot insertion snap s in
    elim answer [ failed e ↦ (refused not_saved, s') | value _ ↦ (succeeded snap.id, s') ]

abbrev add_binding : Option Binding → List Binding → List Binding
add_binding none bs = bs
add_binding (some b) bs = b ∷ bs

abbrev or_null : Text → Option Text
or_null s = if is_empty s then none else some s

abbrev reload : Text → Text → Option (Text × Text)
reload tenant sdl = if is_empty sdl then none else some (tenant, sdl)

abbrev pub found_snapshot :
    DatabaseResult (Option ConfigurationSnapshot) → Option ConfigurationSnapshot
found_snapshot (failed e) = none
found_snapshot (value o) = o

module _ {N : Type 0} where
  -- Whether the expected version, if one is given, is the active one; or what is wrong with it.
  unfoldable pub check_expected_version :
      Statement → Text → Option (Json N) → SnapshotStore → Option ConfigurationError
  check_expected_version selection tenant none s = none
  check_expected_version selection tenant (some null) s = none
  check_expected_version selection tenant (some (text expected)) s =
      elim (get_active_config_snapshot selection tenant s) [
        | failed e ↦ some unread_active
        | value none ↦ if expected == codes "0" then none else some version_mismatch
        | value (some active) ↦ if expected == active.version then none else some version_mismatch
      ]
  check_expected_version selection tenant (some j) s = some bad_expected_version

  unfoldable pub dump_bindings : (Json N → Text) → Json N → Text
  dump_bindings dump input = elim (get_key (codes "resolverBindings") input) [
    | none ↦ []
    | some j ↦ elim j [ array js ↦ dump (array js) | _ ↦ [] ]
  ]

  unfoldable pub new_snapshot :
      (Json N → Text) → ℕ → Text → Text → Text → Json N → Option ConfigurationSnapshot
  new_snapshot dump now id tenant sdl input =
      elim (value_or (codes "version") (codes "1.0.0") input) [
        | none ↦ none
        | some version ↦ elim (value_or (codes "displayName") [] input) [
          | none ↦ none
          | some display_name ↦ some (record {
            id = id;
            tenant_id = tenant;
            version = version;
            display_name = display_name;
            schema_sdl = sdl;
            is_active = false;
            created_at = now;
            activated_at = none;
            resolver_bindings = dump_bindings dump input;
          })
        ]
      ]

  -- The store after that check, whose query is run if there is a version to compare.
  unfoldable pub after_check : Statement → Bool → Option (Json N) → SnapshotStore → SnapshotStore
  after_check selection ends (some (text expected)) s = after_read selection ends s
  after_check selection ends expected s = s

  -- From the check of the expected version on. `parses` is whether the grammar accepts a schema.
  unfoldable pub apply_new :
      (Text → Bool)
      → (Json N → Text)
      → Statement
      → Bool
      → Insertion
      → ℕ
      → Text
      → Text
      → Text
      → Json N
      → SnapshotStore
      → Reply × SnapshotStore
  apply_new parses dump selection ends insertion now id tenant sdl input s =
      elim (check_expected_version selection tenant (get_key (codes "expectedVersion") input) s) [
        | some e ↦
            (refused e, after_check selection ends (get_key (codes "expectedVersion") input) s)
        | none ↦
            if not (parses sdl)
            then (refused invalid_schema, s)
            else save_new insertion (new_snapshot dump now id tenant sdl input) s
      ]

  unfoldable pub apply_configuration :
      (Text → Bool)
      → (Json N → Text)
      → Bool
      → Statement
      → Bool
      → Insertion
      → ℕ
      → Text
      → Json N
      → SnapshotStore
      → Reply × SnapshotStore
  apply_configuration parses dump has_database selection ends insertion now id args s =
      if not has_database then (refused no_database, s) else elim (get_key (codes "input") args) [
        | none ↦ (refused no_input, s)
        | some input ↦
            if not (is_object input)
            then (refused no_input, s)
            else elim (get_text (codes "tenantId") input) [
              | none ↦ (refused no_tenant_id, s)
              | some tenant ↦ elim (get_text (codes "schemaSdl") input) [
                | none ↦ (refused no_schema_sdl, s)
                | some sdl ↦
                    apply_new parses dump selection ends insertion now id tenant sdl input s
              ]
            ]
      ]

  unfoldable pub members_of : Members N → Jsons N
  members_of no_members = no_items
  members_of (member key j ms) = item j (members_of ms)

  -- What `for (const auto& b : bindings)` goes over.
  unfoldable pub elements : Json N → Jsons N
  elements (array js) = js
  elements (object ms) = members_of ms
  elements null = no_items
  elements j = item j no_items

  -- The binding of one element, if it has one; `none` if it throws.
  unfoldable pub read_binding : Json N → Option (Option Binding)
  read_binding j =
      if not (is_object j) then some none else elim (value_or (codes "resolverKind") [] j) [
        | none ↦ none
        | some kind ↦
            if not (kind == codes "outbound_http")
            then some none
            else elim (value_or (codes "dataSourceId") [] j) [
              | none ↦ none
              | some source ↦ elim (value_or (codes "fieldName") [] j) [
                | none ↦ none
                | some field ↦ elim (value_or (codes "pathPattern") (codes "/") j) [
                  | none ↦ none
                  | some path ↦ elim (value_or (codes "httpMethod") (codes "GET") j) [
                    | none ↦ none
                    | some method ↦
                        if is_empty field || is_empty source
                        then some none
                        else some (
                            some (record {
                              field_name = field;
                              data_source_id = source;
                              path_pattern = path;
                              http_method = method;
                            }))
                  ]
                ]
              ]
            ]
      ]

  -- The bindings that are registered, and whether the loop runs to its end.
  unfoldable pub read_bindings : Jsons N → List Binding × Bool
  read_bindings no_items = ([], true)
  read_bindings (item j js) =
      let rest = read_bindings js in
      elim (read_binding j) [ none ↦ ([], false) | some b ↦ (add_binding b rest.0, rest.1) ]

  unfoldable pub bindings_of : (Text → Option (Json N)) → Text → List Binding × Bool
  bindings_of parse raw =
      if is_empty raw || raw == codes "[]"
      then ([], true)
      else elim (parse raw) [ none ↦ ([], true) | some j ↦ read_bindings (elements j) ]

  -- From an activation that succeeded on. A loop that throws leaves the event out.
  unfoldable pub announce :
      (Text → Option (Json N))
      → Bool
      → Text
      → ConfigurationSnapshot
      → SnapshotStore
      → Reply × Effects
  announce parse has_broker id snap s =
      let (bindings, ran) = bindings_of parse snap.resolver_bindings in
      let effects = record (only_store s) {
        pending_schema = reload snap.tenant_id snap.schema_sdl;
        registered = bindings;
      } in
      if not ran then (threw, effects) else if not has_broker then (succeeded id, effects) else (
        succeeded id,
        record effects {
          published =
              record {
                topic = codes "config:" ++ snap.tenant_id;
                snapshot_id = id;
                schema_sdl = or_null snap.schema_sdl;
              }
              ∷ [];
        },
      )

  unfoldable pub conclude :
      (Text → Option (Json N))
      → Bool
      → Text
      → ConfigurationSnapshot
      → DatabaseResult Void × SnapshotStore
      → Reply × Effects
  conclude parse has_broker id snap (failed e, s) = (refused not_activated, only_store s)
  conclude parse has_broker id snap (value _, s) = announce parse has_broker id snap s

  unfoldable pub activate_snapshot :
      (Text → Option (Json N))
      → Bool
      → Bool
      → Statement
      → Bool
      → ActivationAnswers
      → ℕ
      → Json N
      → SnapshotStore
      → Reply × Effects
  activate_snapshot parse has_database has_broker selection ends sqlite now args s =
      if not has_database
      then (refused no_database, only_store s)
      else elim (get_text (codes "id") args) [
        | none ↦ (refused no_id, only_store s)
        | some id ↦ elim (found_snapshot (get_config_snapshot selection id s)) [
          | none ↦ (refused snapshot_not_found, only_store (after_read selection ends s))
          | some snap ↦ conclude parse has_broker id snap (activate_config_snapshot sqlite now id s)
        ]
      ]
