-- ===== src/Database/Answers.antt =====
-- backend/isched_DatabaseManager.hpp: `DatabaseError` and `DatabaseResult`; and how SQLite, which is a
-- parameter, answers what the methods of `DatabaseManager` ask of it.
use isched.Common.{ℕ, Bool}

pub data DatabaseError : Type 0 where
  connection_failed query_failed transaction_failed schema_validation_failed : DatabaseError
  tenant_not_found migration_failed backup_failed pool_exhausted not_found : DatabaseError
  duplicate_key access_denied version_conflict : DatabaseError

pub data DatabaseResult {ℓ} (A : Type ℓ) : Type ℓ where
  failed : DatabaseError → DatabaseResult A
  value : A → DatabaseResult A

-- `DatabaseResult<void>{}`.
pub data Void : Type 0 where
  done : Void

-- Whether one statement is prepared, and whether its step then runs to its end (or to its first row).
pub record Statement : Type 0 where
  pub prepares : Bool
  pub steps : Bool

-- A statement that is read row by row: how many rows come before the steps end.
pub record Listing : Type 0 where
  pub listed : Bool
  pub rows_read : ℕ

-- What SQLite makes of COMMIT: a failure leaves the transaction open, as SQLITE_BUSY does, or has rolled
-- it back.
pub data CommitOutcome : Type 0 where
  commits stays_open rolled_back : CommitOutcome
