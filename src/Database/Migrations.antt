-- ===== src/Database/Migrations.antt =====
-- backend/isched_DatabaseManager.cpp: `SchemaMigrator`. The metadata table is modelled; the other tables
-- `D`, and what a migration's SQL does, are a parameter. A transaction works on a copy that COMMIT
-- makes the contents, which is what SQLite documents. A migration's SQL begins and ends no transaction
-- of its own, and texts hold no NUL.
use isched.Common.{
  ◌≡◌, refl, Bool, true, not, ◌&&◌, ◌||◌, List, [], ◌∷◌, Option, none, some, ◌==◌, Text, codes,
  text_eq, text_beq, text_beq_iff, if◌then◌else◌, is_some, ap, arith, Bool-cases, Option-cases, inl,
  inr, ◌∙◌, Map, lookup, insert, lookup-insert,
}
use isched.Database.Answers.{
  DatabaseError, query_failed, migration_failed, backup_failed, transaction_failed,
  schema_validation_failed, Statement, CommitOutcome, commits, stays_open, rolled_back,
}

pub record Migration : Type 0 where
  pub version : Text
  pub up_sql : Text

-- `threw` is the exception of a transaction that does not begin.
pub data Answer : Type 0 where
  done : Answer
  refused : DatabaseError → Answer
  threw : Answer

-- `metadata` are the keys and values of `_isched_metadata`.
pub record Contents (D : Type 0) : Type 0 where
  pub metadata : Map Text Text
  pub tables : D

-- `pending` is the copy of an open transaction.
pub record Connection (D : Type 0) : Type 0 where
  pub saved : Contents D
  pub pending : Option (Contents D)

-- SQLite's answers to the statements of one migration. `selection_ends` is whether a version query whose
-- step fails has made SQLite roll an open transaction back by itself. `integrity_row` is the first row of the
-- integrity check, and `rollback_ends` is whether no transaction is open after the destructor's
-- ROLLBACK, whose own answer the source ignores.
pub record MigrationAnswers : Type 0 where
  pub selection : Statement
  pub selection_ends : Bool
  pub begins : Bool
  pub update : Statement
  pub integrity_prepares : Bool
  pub integrity_row : Option Text
  pub commit_outcome : CommitOutcome
  pub rollback_ends : Bool

abbrev pub schema_version : Text
schema_version = codes "schema_version"

-- The contents that the connection sees.
abbrev pub seen : {D : Type 0} → Connection D → Contents D
seen c = elim c.pending [ none ↦ c.saved | some d ↦ d ]

abbrev or_initial : Option Text → Text
or_initial none = codes "0.0.0"
or_initial (some v) = v

unfoldable pub get_current_version : {D : Type 0} → Statement → Connection D → Option Text
get_current_version selection c =
    if not selection.prepares || not selection.steps
    then none
    else some (or_initial (lookup schema_version (seen c).metadata))

-- `none` is success.
unfoldable pub validate_integrity : MigrationAnswers → Option DatabaseError
validate_integrity a =
    if not a.integrity_prepares then some query_failed else elim a.integrity_row [
      | none ↦ some schema_validation_failed
      | some row ↦ if row == codes "ok" then none else some schema_validation_failed
    ]

unfoldable pub find_migration : Text → List Migration → Option Migration
find_migration target [] = none
find_migration target (m ∷ ms) = if m.version == target then some m else find_migration target ms

-- The `INSERT OR REPLACE` of the schema version.
unfoldable pub write_version : {D : Type 0} → Text → Contents D → Contents D
write_version target d = record d { metadata = insert schema_version target d.metadata }

get_current_version-seen :
    {D : Type 0} (selection : Statement) (c : Connection D)
    → selection.prepares && selection.steps ≡ true
    → get_current_version selection c ≡ some (or_initial (lookup schema_version (seen c).metadata))
unfolding get_current_version
get_current_version-seen selection c h = ground (arith, h)

-- The version query has ended a transaction that was open.
unfoldable pub query_ends : MigrationAnswers → Bool
query_ends a = a.selection.prepares && not a.selection.steps && a.selection_ends

-- The destructor of a transaction that is not committed.
unfoldable pub leave : {D : Type 0} → MigrationAnswers → Connection D → Connection D
leave a c = if a.rollback_ends then record c { pending = none } else c

-- `exec` is `sqlite3_exec` of a migration's SQL: whether all of it runs, and what it leaves of the contents.
module _ {D : Type 0} (exec : Text → Contents D → Bool × Contents D) (a : MigrationAnswers) where
  -- A transaction that is committed has nothing left to roll back.
  unfoldable pub finish : CommitOutcome → Contents D → Contents D → Answer × Connection D
  finish commits old new = (done, record { saved = new; pending = none })
  finish stays_open old new =
      (refused transaction_failed, leave a (record { saved = old; pending = some new }))
  finish rolled_back old new =
      (refused transaction_failed, leave a (record { saved = old; pending = none }))

  unfoldable pub update_version : Text → Contents D → Contents D → Answer × Connection D
  update_version target old new =
      if not a.update.prepares || not a.update.steps
      then (refused migration_failed, leave a (record { saved = old; pending = some new }))
      else elim (validate_integrity a) [
        | some e ↦
            (refused e, leave a (record { saved = old; pending = some (write_version target new) }))
        | none ↦ finish a.commit_outcome old (write_version target new)
      ]

  -- From `DatabaseTransaction transaction(connection_)` on. A transaction cannot begin within another.
  unfoldable pub apply : Migration → Text → Connection D → Answer × Connection D
  apply m target c =
      if not a.begins || is_some c.pending
      then (threw, c)
      else let (ran, new) = exec m.up_sql c.saved in
        if ran
        then update_version target c.saved new
        else (refused migration_failed, leave a (record { saved = c.saved; pending = some new }))

  -- `backed_up` is the result of `create_backup`.
  unfoldable pub migrate_to_version :
      List Migration → Bool → Text → Connection D → Answer × Connection D
  migrate_to_version migrations backed_up target c = elim (get_current_version a.selection c) [
    | none ↦ (refused query_failed, if query_ends a then record c { pending = none } else c)
    | some current ↦
        if current == target then (done, c) else elim (find_migration target migrations) [
          | none ↦ (refused migration_failed, c)
          | some m ↦ if backed_up then apply m target c else (refused backup_failed, c)
        ]
  ]

  -- What is stored and what is open after a migration that does not succeed.
  unfoldable pub IsUndone : Connection D → Connection D → Type 0
  IsUndone old new =
      (new.saved ≡ old.saved)
      × (new.pending ≡ (if a.rollback_ends && not (query_ends a) then old.pending else new.pending))

  unfoldable pub IsAtomic : Statement → Text → Connection D → Answer × Connection D → Type 0
  IsAtomic again target old (done, new) =
      (get_current_version again new ≡ some target) × (new.pending ≡ old.pending)
  IsAtomic again target old (refused e, new) = IsUndone old new
  IsAtomic again target old (threw, new) = IsUndone old new

  leave-IsUndone :
      (old c : Connection D) → c.saved ≡ old.saved → old.pending ≡ none → IsUndone old (leave a c)
  unfolding IsUndone leave
  leave-IsUndone old c h k = (ground (arith, h), ground (arith, k))

  finish-IsAtomic :
      (again : Statement) (target : Text) (outcome : CommitOutcome) (c : Connection D)
      (new : Contents D)
      → again.prepares && again.steps ≡ true
      → c.pending ≡ none
      → IsAtomic again target c (finish outcome c.saved (write_version target new))
  unfolding IsAtomic finish write_version text_beq
  finish-IsAtomic again target commits c new h k = (
    get_current_version-seen again (record { saved = write_version target new; pending = none }) h
        ∙ ap (λ v. some (or_initial v))
            (lookup-insert schema_version schema_version target new.metadata),
    ground (arith, k),
  )
  finish-IsAtomic again target stays_open c new h k = leave-IsUndone c _ refl k
  finish-IsAtomic again target rolled_back c new h k = leave-IsUndone c _ refl k

  update_version-IsAtomic :
      (again : Statement) (target : Text) (c : Connection D) (new : Contents D)
      → again.prepares && again.steps ≡ true
      → c.pending ≡ none
      → IsAtomic again target c (update_version target c.saved new)
  unfolding IsAtomic update_version
  update_version-IsAtomic again target c new h k =
      elim (Bool-cases (not a.update.prepares || not a.update.steps)) [
        | inl e ↦ rw (e, IsAtomic, update_version) (leave-IsUndone c _ refl k)
        | inr e ↦
            rw (e, IsAtomic, update_version)
              (elim (Option-cases (validate_integrity a)) [
                | inl f ↦
                    rw (f, IsAtomic, update_version)
                      (finish-IsAtomic again target a.commit_outcome c new h k)
                | inr (x, f) ↦ rw (f, IsAtomic, update_version) (leave-IsUndone c _ refl k)
              ])
      ]

  unchanged-IsUndone : (c : Connection D) → IsUndone c c
  unfolding IsUndone
  unchanged-IsUndone c = (refl, ground arith)

  query_ends-IsUndone :
      (c : Connection D) → IsUndone c (if query_ends a then record c { pending = none } else c)
  unfolding IsUndone
  query_ends-IsUndone c = (ground arith, ground arith)

  apply-IsAtomic :
      (again : Statement) (m : Migration) (target : Text) (c : Connection D)
      → again.prepares && again.steps ≡ true
      → IsAtomic again target c (apply m target c)
  unfolding IsAtomic apply
  apply-IsAtomic again m target c h = elim (Bool-cases (not a.begins || is_some c.pending)) [
    | inl e ↦ rw (e, IsAtomic, apply) (unchanged-IsUndone c)
    | inr e ↦
        let closed : c.pending ≡ none = ground (arith, e) in
        rw (e, IsAtomic, apply)
          (elim (Bool-cases (exec m.up_sql c.saved).0) [
            | inl f ↦
                rw (f, IsAtomic, apply)
                  (update_version-IsAtomic again target c (exec m.up_sql c.saved).1 h closed)
            | inr f ↦ rw (f, IsAtomic, apply) (leave-IsUndone c _ refl closed)
          ])
  ]

  current-again :
      (again : Statement) (c : Connection D) (v target : Text)
      → again.prepares && again.steps ≡ true
      → get_current_version a.selection c ≡ some v
      → v == target ≡ true
      → get_current_version again c ≡ some target
  unfolding get_current_version
  current-again again c v target h e f = ground (arith, h, e, (text_beq_iff v target).0 f)

  found-IsAtomic :
      (again : Statement) (migrations : List Migration) (backed_up : Bool) (target : Text)
      (c : Connection D)
      → again.prepares && again.steps ≡ true
      → IsAtomic again target c (elim (find_migration target migrations) [
        | none ↦ (refused migration_failed, c)
        | some m ↦ if backed_up then apply m target c else (refused backup_failed, c)
      ])
  unfolding IsAtomic
  found-IsAtomic again migrations backed_up target c h =
      elim (Option-cases (find_migration target migrations)) [
        | inl g ↦ rw (g, IsAtomic) (unchanged-IsUndone c)
        | inr (m, g) ↦
            rw (g, IsAtomic)
              (elim (Bool-cases backed_up) [
                | inl k ↦ rw (k, IsAtomic) (apply-IsAtomic again m target c h)
                | inr k ↦ rw (k, IsAtomic) (unchanged-IsUndone c)
              ])
      ]

  -- Whatever a migration's SQL does, as long as it begins and ends no transaction, and however SQLite
  -- answers the other statements: a migration that succeeds leaves a version query, if that query
  -- runs, the version that was asked for, and the open transaction as it was. One that fails, or that
  -- throws, leaves the saved contents as they were; and the open transaction as it was too, provided
  -- that none is open after the destructor's ROLLBACK and that the migration's own version query, where it
  -- fails, has not made SQLite roll back by itself.
  pub migrate_to_version-IsAtomic :
      (again : Statement) (migrations : List Migration) (backed_up : Bool) (target : Text)
      (c : Connection D)
      → again.prepares && again.steps ≡ true
      → IsAtomic again target c (migrate_to_version migrations backed_up target c)
  unfolding IsAtomic migrate_to_version
  migrate_to_version-IsAtomic again migrations backed_up target c h =
      elim (Option-cases (get_current_version a.selection c)) [
        | inl e ↦ rw (e, IsAtomic, migrate_to_version) (query_ends-IsUndone c)
        | inr (v, e) ↦
            rw (e, IsAtomic, migrate_to_version)
              (elim (Bool-cases (v == target)) [
                | inl f ↦
                    rw (f, IsAtomic, migrate_to_version)
                      (current-again again c v target h e f, refl)
                | inr f ↦
                    rw (f, IsAtomic, migrate_to_version)
                      (found-IsAtomic again migrations backed_up target c h)
              ])
      ]
