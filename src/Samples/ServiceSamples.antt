-- ===== src/Samples/ServiceSamples.antt =====
-- Logins, sessions, connections, migrations and tenants.
use isched.Common.{
  ℕ, suc, ◌||◌, ◌-◌, ◌/◌, ◌^◌, ◌<◌, ◌≡◌, refl, Bool, true, false, List, [], ◌∷◌, Option, none, some,
  Text, codes, ltb, lookup, text_eq, ◌==◌, if◌then◌else◌, arith,
}
use isched.Auth.RateLimits.{is_rate_limited, get_rate_limit_reset_ms}
use isched.Auth.RateLimits.Lockout.{locked_after, record_all, is_rate_limited-lockout}
use isched.Auth.Sessions
use isched.Auth.Sessions.{SessionTable, no_sessions, is_valid}
use isched.Auth.Requests.{
  Claims, Counters, validate_token, is_authenticated, is_admissible, validate_token-admissible,
}
use isched.Database.Answers.{Statement, CommitOutcome}
use isched.Database.Transactions.{
  Operation, commits, rolls_back, perform_all, destroy, committed_end, rolled_back_end,
  destroy-once,
}
use isched.Database.Pool
use isched.Database.Pool.{new_pool, acquire, acquired, return_connection, lease}
use isched.Database.Pool.Bounds.{IsBounded, Pool-IsBounded, acquire-return_connection}
use isched.Database.Migrations.{
  Contents, Connection, MigrationAnswers, Migration, migrate_to_version, IsAtomic,
  migrate_to_version-IsAtomic,
}
use isched.Tenants
use isched.Tenants.{Configuration, created, start, create_tenant}
use isched.Tenants.Counting.{IsConsistent, OrgManager-IsConsistent}

abbrev alice : Text
alice = codes "alice"

abbrev three_failures : List ℕ
three_failures = 30 ∷ 20 ∷ 10 ∷ []

is_rate_limited-lockout_example :
    ((is_rate_limited 50 alice (record_all alice 1 3 three_failures [])).0
      ≡ ltb 50 (locked_after 1 3 three_failures))
    × (get_rate_limit_reset_ms 50 alice (record_all alice 1 3 three_failures [])
        ≡ (locked_after 1 3 three_failures - 50) / 1000000)
unfolding lookup
is_rate_limited-lockout_example = is_rate_limited-lockout alice 1 3 50 three_failures [] refl refl

abbrev one_session : SessionTable
one_session = (Sessions.create_session 5 (codes "s1") alice (codes "acme") [] no_sessions).1

abbrev alices_claims : Claims
alices_claims = record {
  subject = alice;
  tenant_claim = some (codes "acme");
  permissions = [];
  roles = [];
  name = alice;
  expires_at = none;
  id = some (codes "s1");
}

-- A library that verifies one token.
abbrev knows_one : Text → Text → Option Claims
knows_one secret token = if token == codes "t1" then some alices_claims else none

abbrev not_revoked : Text → Option Bool
not_revoked jti = some false

abbrev no_attempts : Counters
no_attempts = record { total_auth_attempts = 0; successful_auths = 0; failed_auths = 0 }

validate_token-admissible_example :
    is_authenticated
      (validate_token knows_one
        (codes "key")
        not_revoked
        5
        (codes "t1")
        (codes "acme")
        no_attempts).0
    ≡ is_admissible knows_one (codes "key") not_revoked (codes "acme") (codes "t1")
validate_token-admissible_example =
    validate_token-admissible knows_one (codes "key") not_revoked 5 (codes "t1") (codes "acme")
      no_attempts

abbrev asked_twice : List Operation
asked_twice = rolls_back true ∷ commits true ∷ commits false ∷ []

destroy-once_example : destroy true (perform_all asked_twice) ≡ (
    if (perform_all asked_twice).committed
    then committed_end ∷ []
    else if (perform_all asked_twice).rolled_back || true
    then rolled_back_end ∷ []
    else [])
destroy-once_example = destroy-once asked_twice true

ten_small : 10 < 2 ^ 64
ten_small = omega arith

Pool-IsBounded_example : IsBounded {S = ℕ} 10 (lease (acquire (some 7) (new_pool 10)) [])
Pool-IsBounded_example = Pool-IsBounded 10 (lease (acquire (some 7) (new_pool 10)) []) ten_small (
    Pool.steps (record { pool = new_pool 10; held = [] }) _ Pool.starts
      (Pool.acquires (some 7) (record { pool = new_pool 10; held = [] })))

abbrev taken : Pool.Pool ℕ
taken = record {
  max_connections = 10;
  active_connections = 1;
  available_connections = [];
  total_created = 1;
  total_requests = 1;
  pool_hits = 0;
}

taken-Reachable : Pool.Reachable 10 (record { pool = taken; held = 7 ∷ [] })
unfolding acquire Pool.is_ready
taken-Reachable =
    Pool.steps (record { pool = new_pool 10; held = [] }) _ Pool.starts
      (Pool.acquires (some 7) (record { pool = new_pool 10; held = [] }))

acquire-return_connection_example :
    (d : ℕ) × ((acquire none (return_connection 7 taken)).0 ≡ acquired d)
acquire-return_connection_example =
    acquire-return_connection 10 [] [] 7 taken none ten_small taken-Reachable

-- The number of rows that migrations have added.
abbrev add_row : Text → Contents ℕ → Bool × Contents ℕ
add_row sql d = (true, record d { tables = suc d.tables })

abbrev runs : Statement
runs = record { prepares = true; steps = true }

abbrev all_run : MigrationAnswers
all_run = record {
  selection = runs;
  selection_ends = false;
  begins = true;
  update = runs;
  integrity_prepares = true;
  integrity_row = some (codes "ok");
  commit_outcome = CommitOutcome.commits;
  rollback_ends = true;
}

abbrev at_one : Connection ℕ
at_one = record {
  saved = record { metadata = (codes "schema_version", codes "1.0.0") ∷ []; tables = 5 };
  pending = none;
}

abbrev to_two : List Migration
to_two = record { version = codes "2.0.0"; up_sql = codes "INSERT INTO t VALUES (1)" } ∷ []

migrate_to_version-IsAtomic_example :
    IsAtomic add_row all_run runs
      (codes "2.0.0")
      at_one
      (migrate_to_version add_row all_run to_two true (codes "2.0.0") at_one)
migrate_to_version-IsAtomic_example =
    migrate_to_version-IsAtomic add_row all_run runs to_two true (codes "2.0.0") at_one refl

abbrev small_config : Configuration
small_config = record { database_root_path = codes "/data"; max_tenants = 2 }

OrgManager-IsConsistent_example :
    IsConsistent {T = ℕ} small_config (create_tenant true (codes "acme") 1 (created small_config)).1
OrgManager-IsConsistent_example =
    OrgManager-IsConsistent small_config
      (create_tenant true (codes "acme") 1 (created small_config)).1
      (Tenants.steps (created small_config) _ Tenants.starts
        (Tenants.creates true (codes "acme") 1 (created small_config)))
