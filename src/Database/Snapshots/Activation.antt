-- ===== src/Database/Snapshots/Activation.antt =====
-- backend/isched_DatabaseManager.cpp: what saving and activating snapshots, in any order, leave behind.
use isched.Common.{
  ℕ, ◌≤◌, ◌≡◌, refl, Bool, true, false, not, ◌&&◌, ◌||◌, List, [], ◌∷◌, ◌++◌, none, some, Text,
  codes, text_eq, text_beq_iff, ◌==◌, if◌then◌else◌, is_empty, is_some, all, arith, Option-cases,
  inl, inr, ◌∙◌,
}
use isched.Database.Answers.{failed, value, done, Statement, transaction_failed}
use isched.Database.Statements.{is_done}
use isched.Database.Tables.{first, matches, update, first-append, matches-append, first-matches}
use isched.Database.Snapshots.{
  ConfigurationSnapshot, SnapshotRow, SnapshotStore, Insertion, after_failure, ActivationAnswers,
  deactivated, roll_back, has_id, is_active_for, visible, row_of, row_to_snapshot,
  save_config_snapshot, activate_config_snapshot, activate_in, activated, activate, tenant_of,
  get_config_snapshot, tp_to_epoch, epoch_to_tp, map_time,
}

-- `read_fails` is a query whose step fails, and whether SQLite ends the open transaction then.
pub data Operation : Type 0 where
  saves : Insertion → ConfigurationSnapshot → Operation
  activates : ActivationAnswers → ℕ → Text → Operation
  read_fails : Bool → Operation

unfoldable pub perform : Operation → SnapshotStore → SnapshotStore
perform (saves insertion snap) s = (save_config_snapshot insertion snap s).1
perform (activates sqlite now key) s = (activate_config_snapshot sqlite now key s).1
perform (read_fails ends) s = after_failure ends s

-- The operations, the last one first.
unfoldable pub perform_all : List Operation → SnapshotStore → SnapshotStore
perform_all [] s = s
perform_all (op ∷ earlier) s = perform op (perform_all earlier s)

abbrev pub new_store : SnapshotStore
new_store = record { ready = true; saved = []; pending = none }

abbrev IsKeyed : List SnapshotRow → Type 0
IsKeyed rows = (key : Text) → matches (has_id key) rows ≤ 1

matches-deactivated :
    (tenant key : Text) (rows : List SnapshotRow)
    → matches (has_id key) (deactivated tenant rows) ≡ matches (has_id key) rows
unfolding matches deactivated update
matches-deactivated tenant key [] = refl
matches-deactivated tenant key (r ∷ rs) = ground (arith, matches-deactivated tenant key rs)

matches-activated :
    (now : ℕ) (tenant k key : Text) (rows : List SnapshotRow)
    → matches (has_id key) (activated now tenant k rows) ≡ matches (has_id key) rows
unfolding matches activated deactivated update
matches-activated now tenant k key [] = refl
matches-activated now tenant k key (r ∷ rs) = ground (arith, matches-activated now tenant k key rs)

active-activated :
    (now : ℕ) (tenant k t : Text) (rows : List SnapshotRow)
    → matches (is_active_for t) (activated now tenant k rows) ≡ (
        if t == tenant
        then matches (λ r. r.tenant_id == t && has_id k r) rows
        else matches (λ r. r.tenant_id == t && (has_id k r || r.is_active)) rows)
unfolding matches activated deactivated update
active-activated now tenant k t [] = ground arith
active-activated now tenant k t (r ∷ rs) = ground (
  arith,
  active-activated now tenant k t rs,
  text_beq_iff t tenant,
  text_beq_iff r.tenant_id tenant,
  text_beq_iff r.tenant_id t,
)

module _ (k t : Text) where
  abbrev both : SnapshotRow → Bool
  both x = x.tenant_id == t && has_id k x

  abbrev either : SnapshotRow → Bool
  either x = x.tenant_id == t && (has_id k x || x.is_active)

  both-le : (rows : List SnapshotRow) → matches both rows ≤ matches (has_id k) rows
  unfolding matches
  both-le [] = omega arith
  both-le (x ∷ rows) = ground (arith, both-le rows)

  -- A key that one row has picks out that row.
  both-first :
      (rows : List SnapshotRow) (r : SnapshotRow)
      → matches (has_id k) rows ≤ 1
      → first (has_id k) rows ≡ some r
      → matches both rows ≡ (if t == r.tenant_id then 1 else 0)
  unfolding matches first
  both-first [] r h e = cc
  both-first (x ∷ rows) r h e = ground (
    arith,
    both-le rows,
    both-first rows r,
    text_beq_iff x.tenant_id t,
    text_beq_iff t r.tenant_id,
  )

  either-both :
      (rows : List SnapshotRow)
      → matches both rows ≡ 0
      → matches either rows ≡ matches (is_active_for t) rows
  unfolding matches
  either-both [] h = refl
  either-both (x ∷ rows) h = ground (arith, either-both rows)

  first-activated :
      (now : ℕ) (tenant : Text) (rows : List SnapshotRow) (r : SnapshotRow)
      → first (has_id k) rows ≡ some r
      → first (has_id k) (activated now tenant k rows) ≡ some (activate now r)
  unfolding first activated deactivated update
  first-activated now tenant [] r e = cc
  first-activated now tenant (x ∷ rows) r e = ground (arith, first-activated now tenant rows r)

-- The count of active rows after an activation, in a table with a primary key.
active-counts :
    (now : ℕ) (k t : Text) (rows : List SnapshotRow) (r : SnapshotRow)
    → matches (has_id k) rows ≤ 1
    → first (has_id k) rows ≡ some r
    → matches (is_active_for t) (activated now r.tenant_id k rows)
      ≡ (if t == r.tenant_id then 1 else matches (is_active_for t) rows)
active-counts now k t rows r h e = ground (
  arith,
  active-activated now r.tenant_id k t rows,
  both-first k t rows r h e,
  either-both k t rows,
)

abbrev IsKeyedStore : SnapshotStore → Type 0
IsKeyedStore s =
    (key : Text) → (matches (has_id key) s.saved ≤ 1) × (matches (has_id key) (visible s) ≤ 1)

added-IsKeyed :
    (rows : List SnapshotRow) (snap : ConfigurationSnapshot) (key : Text)
    → is_some (first (has_id snap.id) rows) ≡ false
    → matches (has_id key) rows ≤ 1
    → matches (has_id key) (rows ++ (row_of snap ∷ [])) ≤ 1
unfolding matches row_of
added-IsKeyed rows snap key h k = ground (
  arith,
  matches-append (has_id key) rows (row_of snap ∷ []),
  first-matches (has_id snap.id) rows,
  text_beq_iff snap.id key,
)

save_config_snapshot-IsKeyed :
    (insertion : Insertion) (snap : ConfigurationSnapshot) (s : SnapshotStore)
    → IsKeyedStore s
    → IsKeyedStore (save_config_snapshot insertion snap s).1
unfolding save_config_snapshot
save_config_snapshot-IsKeyed insertion snap s h key = elim (Option-cases s.pending) [
  | inl e ↦ (
    ground (arith, e, h key, added-IsKeyed s.saved snap key),
    ground (arith, e, h key, added-IsKeyed s.saved snap key),
  )
  | inr (rows, e) ↦ (
    ground (arith, e, h key, added-IsKeyed rows snap key),
    ground (arith, e, h key, added-IsKeyed rows snap key),
  )
]

activate_config_snapshot-IsKeyed :
    (sqlite : ActivationAnswers) (now : ℕ) (k : Text) (s : SnapshotStore)
    → IsKeyedStore s
    → IsKeyedStore (activate_config_snapshot sqlite now k s).1
unfolding activate_config_snapshot activate_in roll_back
activate_config_snapshot-IsKeyed sqlite now k s h key =
    let tenant = tenant_of sqlite.selection.steps k s in
    let same = matches-activated now tenant k key s.saved in
    let same' = matches-deactivated tenant key s.saved in
    (ground (arith, h key, same, same'), ground (arith, h key, same, same'))

perform_all-IsKeyed : (ops : List Operation) → IsKeyedStore (perform_all ops new_store)
unfolding perform_all perform matches
perform_all-IsKeyed [] = λ key. (ground arith, ground arith)
perform_all-IsKeyed (saves insertion snap ∷ ops) =
    save_config_snapshot-IsKeyed insertion snap (perform_all ops new_store)
      (perform_all-IsKeyed ops)
perform_all-IsKeyed (activates sqlite now k ∷ ops) =
    activate_config_snapshot-IsKeyed sqlite now k (perform_all ops new_store)
      (perform_all-IsKeyed ops)
perform_all-IsKeyed (read_fails ends ∷ ops) =
    λ key. let h = perform_all-IsKeyed ops key in (ground (arith, h), ground (arith, h))

-- What an activation that succeeds was given.
activate_config_snapshot-done :
    (sqlite : ActivationAnswers) (now : ℕ) (k : Text) (s s' : SnapshotStore) (r : SnapshotRow)
    → activate_config_snapshot sqlite now k s ≡ (value done, s')
    → first (has_id k) (visible s) ≡ some r
    → (visible s ≡ s.saved) × (visible s' ≡ activated now r.tenant_id k s.saved)
unfolding activate_config_snapshot activate_in tenant_of
activate_config_snapshot-done sqlite now k s s' r h e = (ground (arith, h, e), ground (arith, h, e))

activated-exclusive :
    (now : ℕ) (k t : Text) (saved before after : List SnapshotRow) (r : SnapshotRow)
    → before ≡ saved
    → after ≡ activated now r.tenant_id k saved
    → matches (has_id k) saved ≤ 1
    → first (has_id k) before ≡ some r
    → (first (has_id k) after ≡ some (activate now r))
      × (matches (is_active_for t) after
          ≡ (if t == r.tenant_id then 1 else matches (is_active_for t) before))
activated-exclusive now k t saved before after r p q h e =
    rw (p, q)
      (
        first-activated k t now r.tenant_id saved r (rw p at e),
        active-counts now k t saved r h (rw p at e),
      )

-- Whatever was saved and activated before, in any order and however SQLite answered: an activation that
-- succeeds makes its snapshot the only active one of its tenant, with the time of the activation,
-- and leaves the number of active snapshots of every other tenant as it was.
pub activate_config_snapshot-exclusive :
    (ops : List Operation) (sqlite : ActivationAnswers) (now : ℕ) (k t : Text) (s' : SnapshotStore)
    (r : SnapshotRow)
    → activate_config_snapshot sqlite now k (perform_all ops new_store) ≡ (value done, s')
    → first (has_id k) (visible (perform_all ops new_store)) ≡ some r
    → (first (has_id k) (visible s') ≡ some (activate now r))
      × (matches (is_active_for t) (visible s') ≡ (
          if t == r.tenant_id
          then 1
          else matches (is_active_for t) (visible (perform_all ops new_store))))
activate_config_snapshot-exclusive ops sqlite now k t s' r h e =
    let s = perform_all ops new_store in
    let (before, after) = activate_config_snapshot-done sqlite now k s s' r h e in
    activated-exclusive now k t s.saved (visible s) (visible s') r before after
      (perform_all-IsKeyed ops k).0 e

-- No failing statement of the operation has ended an open transaction.
unfoldable pub keeps_open : Operation → Bool
keeps_open (saves insertion snap) =
    not insertion.prepares || insertion.steps || not insertion.ends_transaction
keeps_open (activates sqlite now key) = sqlite.selection.steps || not sqlite.selection_ends
keeps_open (read_fails ends) = not ends

perform-pending :
    (op : Operation) (s : SnapshotStore)
    → keeps_open op ≡ true
    → is_some s.pending ≡ true
    → (is_some (perform op s).pending ≡ true) × ((perform op s).saved ≡ s.saved)
unfolding perform keeps_open save_config_snapshot activate_config_snapshot activate_in
perform-pending (saves insertion snap) s k h = elim (Option-cases s.pending) [
  | inl e ↦ (ground (arith, e, h), ground (arith, e, h))
  | inr (rows, e) ↦ (ground (arith, e, k), ground (arith, e, k))
]
perform-pending (activates sqlite now key) s k h = (ground (arith, h, k), ground (arith, h, k))
perform-pending (read_fails ends) s k h = (ground (arith, h, k), ground (arith, h, k))

perform_all-pending :
    (ops : List Operation) (s : SnapshotStore)
    → all keeps_open ops ≡ true
    → is_some s.pending ≡ true
    → (is_some (perform_all ops s).pending ≡ true) × ((perform_all ops s).saved ≡ s.saved)
unfolding perform_all
perform_all-pending [] s k h = (h, refl)
perform_all-pending (op ∷ ops) s k h =
    let (opened, same) = perform_all-pending ops s (ground (arith, k)) h in
    let (opened', same') = perform-pending op (perform_all ops s) (ground (arith, k)) opened in
    (opened', same' ∙ same)

activate_config_snapshot-pending :
    (sqlite : ActivationAnswers) (now : ℕ) (k : Text) (s : SnapshotStore)
    → is_some s.pending ≡ true
    → is_done (activate_config_snapshot sqlite now k s).0 ≡ false
unfolding activate_config_snapshot activate_in
activate_config_snapshot-pending sqlite now k s h = ground (arith, h)

-- After a COMMIT that leaves its transaction open, whatever is saved, activated and read later: as long as
-- no failing INSERT or SELECT makes SQLite roll that transaction back by itself, no activation
-- succeeds and nothing more is stored.
pub activate_config_snapshot-stuck :
    (sqlite later : ActivationAnswers) (now then_ : ℕ) (k key : Text) (s s' : SnapshotStore)
    (ops : List Operation)
    → activate_config_snapshot sqlite now k s ≡ (failed transaction_failed, s')
    → is_some s'.pending ≡ true
    → all keeps_open ops ≡ true
    → ((perform_all ops s').saved ≡ s'.saved)
      × (is_done (activate_config_snapshot later then_ key (perform_all ops s')).0 ≡ false)
activate_config_snapshot-stuck sqlite later now then_ k key s s' ops h p o =
    let (opened, same) = perform_all-pending ops s' o p in
    (same, activate_config_snapshot-pending later then_ key (perform_all ops s') opened)

-- The snapshot that a reader gets of one that was saved: its times are cut to seconds, and resolver
-- bindings that are empty have become an empty array.
unfoldable pub stored_form : ConfigurationSnapshot → ConfigurationSnapshot
stored_form snap = record snap {
  created_at = epoch_to_tp (tp_to_epoch snap.created_at);
  activated_at = map_time (λ t. epoch_to_tp (tp_to_epoch t)) snap.activated_at;
  resolver_bindings =
      if is_empty snap.resolver_bindings then codes "[]" else snap.resolver_bindings;
}

row_to_snapshot-row_of :
    (snap : ConfigurationSnapshot) → row_to_snapshot (row_of snap) ≡ stored_form snap
unfolding row_to_snapshot row_of stored_form
row_to_snapshot-row_of snap = ground arith

first-added :
    (snap : ConfigurationSnapshot) (rows : List SnapshotRow)
    → first (has_id snap.id) rows ≡ none
    → first (has_id snap.id) (rows ++ (row_of snap ∷ [])) ≡ some (row_of snap)
unfolding first row_of
first-added snap rows h =
    ground (
      arith,
      h,
      first-append (has_id snap.id) rows (row_of snap ∷ []),
      text_beq_iff snap.id snap.id,
    )

-- A snapshot with an id not yet in use that is saved is read back under its id in its stored form.
pub get_config_snapshot-save_config_snapshot :
    (insertion : Insertion) (selection : Statement) (snap : ConfigurationSnapshot)
    (s : SnapshotStore)
    → s.ready ≡ true
    → insertion.prepares && insertion.steps ≡ true
    → selection.prepares && selection.steps ≡ true
    → first (has_id snap.id) (visible s) ≡ none
    → get_config_snapshot selection snap.id (save_config_snapshot insertion snap s).1
      ≡ value (some (stored_form snap))
unfolding get_config_snapshot save_config_snapshot
get_config_snapshot-save_config_snapshot insertion selection snap s h i j fresh =
    elim (Option-cases s.pending) [
      | inl e ↦
          ground (arith, e, h, i, j, fresh, first-added snap s.saved, row_to_snapshot-row_of snap)
      | inr (rows, e) ↦
          ground (arith, e, h, i, j, fresh, first-added snap rows, row_to_snapshot-row_of snap)
    ]
