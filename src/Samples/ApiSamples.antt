-- ===== src/Samples/ApiSamples.antt =====
-- The built-in resolvers.
use isched.Common.{
  ℕ, ◌≡◌, refl, Bool, true, false, not, ◌&&◌, ◌||◌, List, [], ◌∷◌, Option, none, some, Text, codes,
  text_eq, text_beq, ◌==◌, if◌then◌else◌, is_empty, ltb, lookup, ◌≤◌, ◌<◌, ◌+◌, ◌^◌, arith,
}
use isched.Gql.Json
use isched.Gql.Json.{Json, null, text, object, no_members, member}
use isched.Auth.RateLimits.Lockout.{locked_after, record_all}
use isched.Database.Answers.{Statement, commits}
use isched.Database.Admins.{PlatformAdminRecord}
use isched.Database.Snapshots.{
  ConfigurationSnapshot, Insertion, ActivationAnswers, get_active_config_snapshot,
}
use isched.Database.Snapshots.Activation.{Operation, saves, perform_all, new_store}
use isched.Api.Login.{
  Issuing, LoginState, issued, Accounts, Lockout, login, lockout_identity, granted, opened_account,
  find_account, login-granted,
}
use isched.Api.Bootstrap.{
  Platform, BootstrapInput, Outcome, threw, returned, no_longer_available,
  platform_bootstrap_status, bootstrap_platform_admin, complete_platform_bootstrap,
  create_seed_admin,
}
use isched.Api.Bootstrap.Guarding.{platform-guarded, bootstrap_status-divergent}
use isched.Api.Replies.{Effects}
use isched.Api.Configurations.{apply_configuration, activate_snapshot}
use isched.Api.Configurations.Activations.{apply_configuration-active}
use isched.Gql.Json.{Members}
use isched.Gql.Gates.{ResolverCtx, require_roles, is_forbidden, is_mismatch}
use isched.Database.Organizations.{OrganizationRecord}
use isched.Database.Users.{UserRow}
use isched.Api.Organizations.{pages_of}
use isched.Api.Organizations.Pages.{first_pages, first_pages-pages_of}
use isched.Api.Users.{
  Answers, Directory, users, create_user_resolver, update_user_resolver, delete_user_resolver,
}
use isched.Api.Users.Tenancy.{
  tenant_admin, users_roles, asks_for, user_mutations-own, users-unscoped,
}

abbrev runs_well : Statement
runs_well = record { prepares = true; steps = true }

abbrev inserts_well : Insertion
inserts_well = record { prepares = true; steps = true; ends_transaction = false }

abbrev root : Bool → PlatformAdminRecord
root active = record {
  id = codes "a1";
  email = codes "r@x";
  password_hash = codes "pw";
  display_name = codes "root";
  is_active = active;
  created_at = [];
  last_login = [];
}

abbrev accounts : Accounts
accounts = record { access = none; selection = runs_well; admins = root true ∷ []; users = λ t. [] }

abbrev lockout : Lockout
lockout = record { has_auth = true; window_ms = 1; max_attempts = 2 }

abbrev no_json : Text → Option (Json ℕ)
no_json s = none

-- A hash that is the password itself.
abbrev is_same : Text → Text → Bool
is_same password hash = password == hash

abbrev issuing : Issuing
issuing = record {
  jwt_secret = codes "k";
  new_id = some (codes "s1");
  sign = λ secret id a. some id;
  dump = λ names. some [];
  now_text = [];
  expires_at = codes "8";
  access = none;
  insertion = runs_well;
}

abbrev no_logins : LoginState
no_logins = record { windows = []; sessions = λ t. [] }

login-granted_example :
    granted
      (login no_json is_same lockout issuing accounts 30 []
        (codes "r@x")
        (codes "pw")
        (record no_logins {
          windows = record_all (lockout_identity [] (codes "r@x")) 1 2 (20 ∷ 10 ∷ []) [];
        })).0
    ≡ (if not (is_empty (codes "r@x") || is_empty (codes "pw"))
          && true
          && not (ltb 30 (locked_after 1 2 (20 ∷ 10 ∷ [])))
        then issued issuing (
            opened_account is_same
              (codes "pw")
              (find_account no_json is_same accounts [] (codes "r@x")))
        else none)
unfolding lookup
login-granted_example =
    login-granted no_json is_same lockout issuing accounts 30 [] (codes "r@x") (codes "pw")
      (20 ∷ 10 ∷ []) no_logins refl refl

abbrev platform : Bool → Platform
platform listed = record {
  has_database = true;
  has_auth = true;
  initialized = true;
  access = none;
  listing = record { listed = listed; rows_read = 5 };
  insertion = runs_well;
  selection = runs_well;
}

abbrev input : BootstrapInput
input = record { email = codes "e@x"; password = codes "p"; display_name = [] }

one_of_five : 1 ≤ 5
one_of_five = omega arith

platform-guarded_example :
    ((bootstrap_platform_admin (platform true) [] (codes "a2") [] (some input) (root true ∷ [])).1
      ≡ root true ∷ [])
    × ((complete_platform_bootstrap
          (platform true)
          []
          (codes "a2")
          []
          (some input)
          (root true ∷ [])).1
        ≡ root true ∷ [])
    × ((create_seed_admin true
          (platform true)
          []
          (codes "a2")
          []
          (codes "e@x")
          (codes "long enough one")
          (root true ∷ [])).1
        ≡ root true ∷ [])
unfolding isched.Api.Bootstrap.none_active
platform-guarded_example =
    platform-guarded (platform true) true [] (codes "a2") [] (codes "e@x") (codes "long enough one")
      (some input) (root true ∷ []) refl refl refl one_of_five refl

bootstrap_status-divergent_example :
    (platform_bootstrap_status (platform true) (root false ∷ []) ≡ returned true)
    × (bootstrap_platform_admin (platform true) [] (codes "a2") [] (some input) (root false ∷ [])
        ≡ (threw no_longer_available, root false ∷ []))
unfolding isched.Api.Bootstrap.none_active
bootstrap_status-divergent_example =
    bootstrap_status-divergent (platform true) [] (codes "a2") [] input (root false ∷ []) refl refl
      refl one_of_five refl refl

abbrev snapshot : Text → Bool → ConfigurationSnapshot
snapshot id active = record {
  id = id;
  tenant_id = codes "acme";
  version = codes "1";
  display_name = [];
  schema_sdl = codes "type Query";
  is_active = active;
  created_at = 0;
  activated_at = none;
  resolver_bindings = [];
}

abbrev saved : List Operation
saved = saves inserts_well (snapshot (codes "s1") false) ∷ []

abbrev new_configuration : Json ℕ
new_configuration = object (
    member (codes "input")
      (object (
        member (codes "tenantId") (text (codes "acme"))
          (member (codes "schemaSdl") (text (codes "type Query")) no_members)))
      no_members)

apply_configuration-active_example :
    get_active_config_snapshot runs_well
      (codes "acme")
      (apply_configuration
        (λ sdl. true)
        (λ j. [])
        true
        runs_well
        false
        inserts_well
        5
        (codes "s2")
        new_configuration
        (perform_all saved new_store)).1
    ≡ get_active_config_snapshot runs_well (codes "acme") (perform_all saved new_store)
apply_configuration-active_example =
    apply_configuration-active (λ j. []) (λ sdl. true) true runs_well runs_well false inserts_well 5
      (codes "s2") (codes "acme") new_configuration (perform_all saved new_store) refl

abbrev committing : ActivationAnswers
committing = record {
  selection = runs_well;
  selection_ends = false;
  begins = true;
  deactivation = runs_well;
  activation = runs_well;
  rollback_ends = true;
  commit_outcome = commits;
}

abbrev the_id : Json ℕ
the_id = object (member (codes "id") (text (codes "s1")) no_members)

abbrev effects : Effects
effects =
    (activate_snapshot no_json true true runs_well false committing 9 the_id
      (perform_all saved new_store)).1

abbrev newer : List ConfigurationSnapshot
newer = snapshot (codes "s3") false ∷ []

abbrev older : List ConfigurationSnapshot
older = snapshot (codes "s1") false ∷ []

abbrev current : ConfigurationSnapshot
current = snapshot (codes "s2") true

abbrev organization : Text → OrganizationRecord
organization id = record {
  id = id;
  name = id;
  domain = [];
  subscription_tier = [];
  user_limit = 1;
  storage_limit = 1;
  created_at = [];
  status = [];
  revision = 0;
  updated_at = [];
}

abbrev three : List OrganizationRecord
three = organization (codes "a") ∷ organization (codes "b") ∷ organization (codes "c") ∷ []

two_positive : 0 < 2
two_positive = omega arith

five_fits : 3 + 2 < 2 ^ 31
five_fits = omega arith

first_pages-pages_of_example : first_pages (pages_of 2 3) 2 three ≡ three
first_pages-pages_of_example = first_pages-pages_of 2 three two_positive five_fits

abbrev member_of : Text → Text → ResolverCtx ℕ
member_of tenant role = record { tenant_id = tenant; roles = role ∷ []; details = 0 }

abbrev answers : Answers
answers = record {
  access = none;
  insertion = runs_well;
  check = runs_well;
  change = runs_well;
  selection = runs_well;
  listing = record { listed = true; rows_read = 5 };
}

abbrev one_user : List UserRow
one_user =
    record {
      id = codes "u1";
      email = codes "u@x";
      password_hash = [];
      display_name = [];
      roles = [];
      is_active = true;
      created_at = [];
      last_login = [];
    }
    ∷ []

abbrev directory : Directory
directory t = if t == codes "acme" then one_user else []

abbrev deletes_own : Members ℕ
deletes_own =
    member (codes "organizationId") (text (codes "acme"))
      (member (codes "id") (text (codes "u1")) no_members)

user_mutations-own_example :
    ((create_user_resolver no_json
          (λ j. [])
          (λ p. p)
          (λ p. p)
          answers
          []
          (codes "acme")
          deletes_own
          directory).1
        (codes "initech")
      ≡ directory (codes "initech"))
    × ((update_user_resolver no_json (λ j. []) answers (codes "acme") deletes_own directory).1
          (codes "initech")
        ≡ directory (codes "initech"))
    × ((delete_user_resolver no_json (λ j. []) answers (codes "acme") deletes_own directory).1
          (codes "initech")
        ≡ directory (codes "initech"))
unfolding isched.Gql.Gates.has text_beq is_mismatch isched.Gql.Gates.k_org_scoped_mutations
    Json.get_member
user_mutations-own_example =
    user_mutations-own no_json (λ j. []) (member_of (codes "acme") tenant_admin) deletes_own
      (codes "initech") refl refl (λ p. p) (λ p. p) answers [] directory refl refl refl

users-unscoped_example :
    (is_forbidden
        (require_roles (codes "users") users_roles [])
        (codes "users")
        (member_of (codes "initech") tenant_admin)
      ≡ false)
    × (is_mismatch {N = ℕ}
          (codes "users")
          (asks_for (codes "acme"))
          (member_of (codes "initech") tenant_admin)
        ≡ false)
    × (users no_json (λ j. []) answers (codes "initech") (asks_for (codes "acme")) directory
        ≡ users no_json (λ j. []) answers (codes "acme") no_members directory)
unfolding isched.Gql.Gates.has text_beq
users-unscoped_example =
    users-unscoped no_json (λ j. []) (member_of (codes "initech") tenant_admin) [] (codes "acme")
      answers directory refl
