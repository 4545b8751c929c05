-- ===== src/Samples/DatabaseSamples.antt =====
-- The tables of the system and tenant databases.
use isched.Common.{
  ℕ, ◌%◌, ◌^◌, ◌<◌, ◌≡◌, refl, true, false, List, [], ◌∷◌, Option, none, some, Text, codes, text_eq,
  text_beq, ◌==◌, if◌then◌else◌, arith,
}
use isched.Auth.Requests.{Claims, Counters, validate_token, is_authenticated}
use isched.Gql.Json.{Json}
use isched.Database.Answers.{failed, Statement, version_conflict, commits, stays_open}
use isched.Database.Statements.{is_done}
use isched.Database.Tables.{first, matches, map_found}
use isched.Database.Snapshots.{
  ConfigurationSnapshot, SnapshotStore, Insertion, ActivationAnswers, activate,
  activate_config_snapshot, save_config_snapshot, get_config_snapshot, is_active_for, row_of,
}
use isched.Database.Snapshots
use isched.Database.Snapshots.Activation
use isched.Database.Snapshots.Activation.{
  activate_config_snapshot-exclusive, activate_config_snapshot-stuck,
  get_config_snapshot-save_config_snapshot, stored_form, new_store,
}
use isched.Database.Roles.{Opening, ensure_system_db}
use isched.Database.Roles.Seeding
use isched.Database.Roles.Seeding.{built_in-kept, is_stored, new_file}
use isched.Database.Organizations.{OrganizationRecord, OrganizationChange, create_organization}
use isched.Database.Organizations.Locking.{
  Update, run_update, run_all, successes, update_organization-conflict,
}
use isched.Database.Users.Logins
use isched.Database.Users.Logins.{IsUnique, users-IsUnique}
use isched.Database.LoginSessions.{SessionRow, create_session, revoke_session}
use isched.Database.LoginSessions.Revocation
use isched.Database.LoginSessions.Revocation.{
  validate_token-revoked, session_state, revoked_in, revocations-exact,
}
use isched.Database.SchemaDocuments
use isched.Database.SchemaDocuments.{
  SchemaDocumentRecord, replaced, replace_schema_document, replace_schema_document-stored,
}
use isched.Database.Admins.{Setting, set_tenant_setting}
use isched.Database.DataSources.{DataSourceRecord, DataSourceChange}

abbrev acme : Text
acme = codes "acme"

abbrev runs_well : Statement
runs_well = record { prepares = true; steps = true }

abbrev inserts_well : Insertion
inserts_well = record { prepares = true; steps = true; ends_transaction = false }

abbrev snapshot : Text → ConfigurationSnapshot
snapshot id = record {
  id = id;
  tenant_id = acme;
  version = codes "1";
  display_name = [];
  schema_sdl = [];
  is_active = true;
  created_at = 5000000001;
  activated_at = none;
  resolver_bindings = [];
}

abbrev committing : ActivationAnswers
committing = record {
  selection = runs_well;
  selection_ends = false;
  begins = true;
  deactivation = runs_well;
  activation = runs_well;
  rollback_ends = true;
  commit_outcome = commits;
}

abbrev two_snapshots : List Activation.Operation
two_snapshots =
    Activation.saves inserts_well (snapshot (codes "b"))
    ∷ Activation.saves inserts_well (snapshot (codes "a"))
    ∷ []

abbrev stored_twice : SnapshotStore
stored_twice = Activation.perform_all two_snapshots new_store

abbrev activated_store : SnapshotStore
activated_store = (activate_config_snapshot committing 7000000000 (codes "b") stored_twice).1

activate_config_snapshot-exclusive_example :
    (first (Snapshots.has_id (codes "b")) (Snapshots.visible activated_store)
      ≡ some (activate 7000000000 (row_of (snapshot (codes "b")))))
    × (matches (is_active_for acme) (Snapshots.visible activated_store) ≡ (
        if acme == acme then 1 else matches (is_active_for acme) (Snapshots.visible stored_twice)))
unfolding activate_config_snapshot Activation.perform_all Activation.perform save_config_snapshot
    first text_beq row_of Snapshots.tenant_of Snapshots.activate_in
activate_config_snapshot-exclusive_example =
    activate_config_snapshot-exclusive two_snapshots committing 7000000000 (codes "b") acme
      activated_store (row_of (snapshot (codes "b"))) refl refl

abbrev not_committing : ActivationAnswers
not_committing = record committing { commit_outcome = stays_open }

abbrev open_store : SnapshotStore
open_store = (activate_config_snapshot not_committing 7 (codes "b") stored_twice).1

activate_config_snapshot-stuck_example :
    ((Activation.perform_all two_snapshots open_store).saved ≡ open_store.saved)
    × (is_done
          (activate_config_snapshot committing 9
            (codes "a")
            (Activation.perform_all two_snapshots open_store)).0
        ≡ false)
unfolding activate_config_snapshot Activation.perform_all Activation.perform Activation.keeps_open
    save_config_snapshot first text_beq row_of Snapshots.tenant_of Snapshots.activate_in
activate_config_snapshot-stuck_example =
    activate_config_snapshot-stuck not_committing committing 7 9 (codes "b") (codes "a")
      stored_twice open_store two_snapshots refl refl refl

abbrev opening : Opening
opening = record { directory = true; opened = true; tables = true; seeds = true; corrects = true }

abbrev role_changes : List Seeding.Operation
role_changes =
    Seeding.deletes runs_well runs_well (codes "role_user")
    ∷ Seeding.creates runs_well (codes "now") (codes "role_x") (codes "x") [] (codes "tenant")
    ∷ []

built_in-kept_example :
    is_stored
      (codes "role_user")
      (Seeding.perform_all role_changes (ensure_system_db opening (codes "now") new_file).1).roles
    ≡ true
unfolding text_beq ensure_system_db
built_in-kept_example =
    built_in-kept opening (codes "now") (codes "role_user") role_changes refl refl refl

abbrev organizations : List OrganizationRecord
organizations =
    (create_organization none runs_well (codes "now") acme (codes "Acme") [] (codes "free") 10 20
      []).1

abbrev rename : Text → Update
rename name = record {
  access = none;
  check = runs_well;
  change = runs_well;
  now = codes "later";
  id = acme;
  fields = record {
    new_name = some name;
    new_status = none;
    new_domain = none;
    new_tier = none;
    new_user_limit = none;
    new_storage_limit = none;
  };
  expected = some 0;
}

one_success : 0 < successes acme (rename (codes "A") ∷ []) organizations % 2 ^ 32
unfolding successes text_beq run_update isched.Database.Organizations.update_organization
    isched.Database.Organizations.check_revision first run_all create_organization
one_success = omega arith

update_organization-conflict_example :
    run_update (rename (codes "B")) (run_all (rename (codes "A") ∷ []) organizations)
    ≡ (failed version_conflict, run_all (rename (codes "A") ∷ []) organizations)
unfolding first create_organization text_beq
update_organization-conflict_example =
    update_organization-conflict (rename (codes "A") ∷ []) (rename (codes "B")) organizations 0 refl
      refl one_success refl refl

abbrev user_changes : List Logins.Operation
user_changes =
    Logins.creates none runs_well [] (codes "u2") (codes "a@b") [] [] (codes "[]")
    ∷ Logins.creates none runs_well [] (codes "u1") (codes "a@b") [] [] (codes "[]")
    ∷ []

users-IsUnique_example : IsUnique (codes "u1") (codes "a@b") (Logins.perform_all user_changes)
users-IsUnique_example = users-IsUnique user_changes (codes "u1") (codes "a@b")

abbrev live : List SessionRow
live =
    (create_session none runs_well [] (codes "s1") (codes "u1") [] (codes "[]") (codes "[]") []
      (codes "any") []).1

abbrev revoked : List SessionRow
revoked = (revoke_session none runs_well (codes "s1") live).1

abbrev live_session : SessionRow
live_session = record {
  id = codes "s1";
  user_id = codes "u1";
  access_token_id = [];
  permissions = codes "[]";
  roles = codes "[]";
  issued_at = [];
  expires_at = [];
  last_activity = [];
  transport_scope = codes "any";
  is_revoked = false;
}

abbrev no_json : Text → Option (Json ℕ)
no_json s = none

abbrev session_claims : Claims
session_claims = record {
  subject = codes "u1";
  tenant_claim = some acme;
  permissions = [];
  roles = [];
  name = codes "u1";
  expires_at = none;
  id = some (codes "s1");
}

abbrev verifies : Text → Text → Option Claims
verifies secret token = some session_claims

abbrev later_operations : List Revocation.Operation
later_operations = Revocation.touches none runs_well [] (codes "s1") ∷ []

abbrev no_attempts : Counters
no_attempts = record { total_auth_attempts = 0; successful_auths = 0; failed_auths = 0 }

validate_token-revoked_example :
    is_authenticated
      (validate_token verifies
        (codes "k")
        (session_state no_json none runs_well (Revocation.perform_all later_operations revoked))
        5
        (codes "t")
        acme
        no_attempts).0
    ≡ false
unfolding first revoke_session matches create_session text_beq isched.Database.Tables.update
validate_token-revoked_example =
    validate_token-revoked no_json verifies (codes "k") (codes "s1") (codes "t") acme session_claims
      5 no_attempts runs_well later_operations revoked refl refl refl refl

abbrev document : SchemaDocumentRecord
document = record {
  name = codes "d";
  content = codes "old";
  content_sha256 = [];
  created_at = codes "1";
  updated_at = codes "1";
  updated_by = [];
}

abbrev documents : SchemaDocuments.DocumentStore
documents = record { saved = document ∷ []; pending = none }

abbrev settings : List Setting
settings = (set_tenant_setting none runs_well acme (codes "k") (codes "v") []).1

abbrev source : DataSourceRecord
source = record {
  id = codes "ds";
  name = codes "n";
  base_url = codes "u";
  auth_kind = codes "none";
  api_key_header = [];
  api_key_value_encrypted = [];
  timeout_ms = 5000;
  created_at = [];
}

abbrev shorter : DataSourceChange
shorter = record {
  new_name = none;
  new_base_url = none;
  new_auth_kind = none;
  new_api_key_header = none;
  new_api_key_value = none;
  new_timeout_ms = some 100;
}
