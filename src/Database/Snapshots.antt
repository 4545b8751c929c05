-- ===== src/Database/Snapshots.antt =====
-- backend/isched_DatabaseManager.cpp: the configuration snapshots (`save_config_snapshot`,
-- `activate_config_snapshot`, `get_active_config_snapshot`, `list_config_snapshots` and
-- `get_config_snapshot`) and their table. A transaction that is left open is what the store's one
-- connection goes on to see and to change.
pub mod Activation
use isched.Common.{
  ℕ, ◌*◌, ◌/◌, ◌≡◌, Bool, true, false, not, ◌&&◌, ◌||◌, List, [], ◌∷◌, ◌++◌, Option, none, some,
  Text, codes, text_eq, ◌==◌, leb, if◌then◌else◌, is_empty, is_some, take,
}
use isched.Database.Answers.{
  DatabaseResult, failed, value, Void, done, Statement, Listing, connection_failed, query_failed,
  transaction_failed, tenant_not_found, CommitOutcome, commits, stays_open, rolled_back,
}
use isched.Database.Tables.{first, select, update, order_by}

-- Time points are counted in nanoseconds.
pub record ConfigurationSnapshot : Type 0 where
  pub id : Text
  pub tenant_id : Text
  pub version : Text
  pub display_name : Text
  pub schema_sdl : Text
  pub is_active : Bool
  pub created_at : ℕ
  pub activated_at : Option ℕ
  pub resolver_bindings : Text

-- A row of `config_snapshots`; its times are in seconds.
pub record SnapshotRow : Type 0 where
  pub id : Text
  pub tenant_id : Text
  pub version : Text
  pub display_name : Option Text
  pub schema_sdl : Option Text
  pub is_active : Bool
  pub created_at : ℕ
  pub activated_at : Option ℕ
  pub resolver_bindings : Text

-- `pending` are the rows in an open transaction.
pub record SnapshotStore : Type 0 where
  pub ready : Bool
  pub saved : List SnapshotRow
  pub pending : Option (List SnapshotRow)

unfoldable pub tp_to_epoch : ℕ → ℕ
tp_to_epoch t = t / 1000000000

unfoldable pub epoch_to_tp : ℕ → ℕ
epoch_to_tp s = s * 1000000000

abbrev pub map_time : (ℕ → ℕ) → Option ℕ → Option ℕ
map_time f none = none
map_time f (some t) = some (f t)

abbrev pub or_null : Text → Option Text
or_null s = if is_empty s then none else some s

abbrev pub or_blank : Option Text → Text
or_blank none = []
or_blank (some s) = s

unfoldable pub row_of : ConfigurationSnapshot → SnapshotRow
row_of s = record {
  id = s.id;
  tenant_id = s.tenant_id;
  version = s.version;
  display_name = or_null s.display_name;
  schema_sdl = or_null s.schema_sdl;
  is_active = s.is_active;
  created_at = tp_to_epoch s.created_at;
  activated_at = map_time tp_to_epoch s.activated_at;
  resolver_bindings = if is_empty s.resolver_bindings then codes "[]" else s.resolver_bindings;
}

unfoldable pub row_to_snapshot : SnapshotRow → ConfigurationSnapshot
row_to_snapshot r = record {
  id = r.id;
  tenant_id = r.tenant_id;
  version = r.version;
  display_name = or_blank r.display_name;
  schema_sdl = or_blank r.schema_sdl;
  is_active = r.is_active;
  created_at = epoch_to_tp r.created_at;
  activated_at = map_time epoch_to_tp r.activated_at;
  resolver_bindings = r.resolver_bindings;
}

abbrev pub has_id : Text → SnapshotRow → Bool
has_id key r = r.id == key

abbrev pub is_active_for : Text → SnapshotRow → Bool
is_active_for tenant r = r.tenant_id == tenant && r.is_active

-- The rows that the connection sees.
abbrev pub visible : SnapshotStore → List SnapshotRow
visible s = elim s.pending [ none ↦ s.saved | some rows ↦ rows ]

abbrev pub write : List SnapshotRow → SnapshotStore → SnapshotStore
write rows s = elim s.pending [
  | none ↦ record s { saved = rows }
  | some _ ↦ record s { pending = some rows }
]

-- SQLite's answers to an INSERT. Where its step fails, `ends_transaction` is whether SQLite has also rolled
-- back the open transaction by itself, as it may on SQLITE_FULL, SQLITE_IOERR or SQLITE_NOMEM.
pub record Insertion : Type 0 where
  pub prepares : Bool
  pub steps : Bool
  pub ends_transaction : Bool

-- The store after a failing step.
abbrev pub after_failure : Bool → SnapshotStore → SnapshotStore
after_failure ends s = if ends then record s { pending = none } else s

-- The store after a query of one step; `ends` is whether SQLite has rolled the open transaction back where
-- the step fails.
abbrev pub after_read : Statement → Bool → SnapshotStore → SnapshotStore
after_read selection ends s =
    after_failure (s.ready && selection.prepares && not selection.steps && ends) s

-- The id is the table's primary key; a clash of it ends no transaction.
unfoldable pub save_config_snapshot :
    Insertion → ConfigurationSnapshot → SnapshotStore → DatabaseResult Void × SnapshotStore
save_config_snapshot insertion snap s =
    if not s.ready
    then (failed connection_failed, s)
    else if not insertion.prepares
    then (failed query_failed, s)
    else if not insertion.steps
    then (failed query_failed, after_failure insertion.ends_transaction s)
    else if is_some (first (has_id snap.id) (visible s))
    then (failed query_failed, s)
    else (value done, write (visible s ++ (row_of snap ∷ [])) s)

-- SQLite's answers to the statements of one activation. `selection_ends` is whether a SELECT whose step
-- fails has ended the open transaction, and `rollback_ends` whether none is open after the ROLLBACK
-- that follows a failing UPDATE, whose own answer the source ignores.
pub record ActivationAnswers : Type 0 where
  pub selection : Statement
  pub selection_ends : Bool
  pub begins : Bool
  pub deactivation : Statement
  pub activation : Statement
  pub rollback_ends : Bool
  pub commit_outcome : CommitOutcome

abbrev pub deactivate : SnapshotRow → SnapshotRow
deactivate r = record r { is_active = false; activated_at = none }

abbrev pub activate : ℕ → SnapshotRow → SnapshotRow
activate now r = record r { is_active = true; activated_at = some (tp_to_epoch now) }

-- The first update of an activation, and both.
unfoldable pub deactivated : Text → List SnapshotRow → List SnapshotRow
deactivated tenant rows = update (λ r. r.tenant_id == tenant) deactivate rows

unfoldable pub activated : ℕ → Text → Text → List SnapshotRow → List SnapshotRow
activated now tenant snapshot_id rows =
    update (has_id snapshot_id) (activate now) (deactivated tenant rows)

-- The store after the ROLLBACK of a transaction that had come to these rows.
unfoldable pub roll_back : Bool → List SnapshotRow → SnapshotStore → SnapshotStore
roll_back ends rows s = if ends then s else record s { pending = some rows }

-- From BEGIN on. A transaction cannot begin within another.
unfoldable pub activate_in :
    ActivationAnswers → ℕ → Text → Text → SnapshotStore → DatabaseResult Void × SnapshotStore
activate_in sqlite now tenant snapshot_id s =
    if not sqlite.begins || is_some s.pending
    then (failed transaction_failed, s)
    else if not sqlite.deactivation.prepares || not sqlite.deactivation.steps
    then (failed query_failed, roll_back sqlite.rollback_ends s.saved s)
    else if not sqlite.activation.prepares || not sqlite.activation.steps
    then (failed query_failed, roll_back sqlite.rollback_ends (deactivated tenant s.saved) s)
    else let rows = activated now tenant snapshot_id s.saved in
      elim sqlite.commit_outcome [
        | commits ↦ (value done, record s { saved = rows })
        | stays_open ↦ (failed transaction_failed, record s { pending = some rows })
        | rolled_back ↦ (failed transaction_failed, s)
      ]

-- The tenant of the snapshot, empty if there is none.
unfoldable pub tenant_of : Bool → Text → SnapshotStore → Text
tenant_of steps snapshot_id s =
    if not steps
    then []
    else elim (first (has_id snapshot_id) (visible s)) [ none ↦ [] | some r ↦ r.tenant_id ]

unfoldable pub activate_config_snapshot :
    ActivationAnswers → ℕ → Text → SnapshotStore → DatabaseResult Void × SnapshotStore
activate_config_snapshot sqlite now snapshot_id s =
    if not s.ready
    then (failed connection_failed, s)
    else if not sqlite.selection.prepares
    then (failed query_failed, s)
    else let tenant = tenant_of sqlite.selection.steps snapshot_id s in
      let s' = after_failure (not sqlite.selection.steps && sqlite.selection_ends) s in
      if is_empty tenant
      then (failed tenant_not_found, s')
      else activate_in sqlite now tenant snapshot_id s

abbrev snapshot_found : Option SnapshotRow → Option ConfigurationSnapshot
snapshot_found none = none
snapshot_found (some r) = some (row_to_snapshot r)

abbrev find_snapshot :
    Statement → (SnapshotRow → Bool) → SnapshotStore → DatabaseResult (Option ConfigurationSnapshot)
find_snapshot selection p s =
    if not s.ready
    then failed connection_failed
    else if not selection.prepares || not selection.steps
    then failed query_failed
    else value (snapshot_found (first p (visible s)))

unfoldable pub get_active_config_snapshot :
    Statement → Text → SnapshotStore → DatabaseResult (Option ConfigurationSnapshot)
get_active_config_snapshot selection tenant s = find_snapshot selection (is_active_for tenant) s

unfoldable pub get_config_snapshot :
    Statement → Text → SnapshotStore → DatabaseResult (Option ConfigurationSnapshot)
get_config_snapshot selection snapshot_id s = find_snapshot selection (has_id snapshot_id) s

abbrev snapshots_of : List SnapshotRow → List ConfigurationSnapshot
snapshots_of [] = []
snapshots_of (r ∷ rs) = row_to_snapshot r ∷ snapshots_of rs

-- The newest first.
unfoldable pub list_config_snapshots :
    Listing → Text → SnapshotStore → DatabaseResult (List ConfigurationSnapshot)
list_config_snapshots listing tenant s =
    if not s.ready
    then failed connection_failed
    else if not listing.listed
    then failed query_failed
    else value (
        snapshots_of (
          take listing.rows_read (
            order_by (λ a b. leb b.created_at a.created_at)
              (select (λ r. r.tenant_id == tenant) (visible s)))))
