-- ===== src/Database/Organizations/Locking.antt =====
-- backend/isched_DatabaseManager.cpp: the optimistic lock of `update_organization`.
use isched.Common.{
  ℕ, ◌+◌, ◌%◌, ◌^◌, ◌<◌, ◌≡◌, refl, true, false, ◌&&◌, List, [], ◌∷◌, Option, none, some, Text,
  text_eq, text_beq_iff, nat_eq, ◌==◌, if◌then◌else◌, arith, Option-cases, inl, inr,
}
use isched.Database.Answers.{
  DatabaseError, DatabaseResult, failed, Void, Statement, version_conflict,
}
use isched.Database.Tables.{first, update, first-update, first-holds}
use isched.Database.Statements.{is_done, update_rows}
use isched.Database.Organizations.{
  OrganizationRecord, OrganizationChange, has_id, column_int, changed, check_revision,
  update_organization,
}

-- A call of `update_organization`, with SQLite's answers.
pub record Update : Type 0 where
  pub access : Option DatabaseError
  pub check : Statement
  pub change : Statement
  pub now : Text
  pub id : Text
  pub fields : OrganizationChange
  pub expected : Option ℕ

unfoldable pub run_update :
    Update → List OrganizationRecord → DatabaseResult Void × List OrganizationRecord
run_update u rows =
    update_organization u.access u.check u.change u.now u.id u.fields u.expected rows

-- The calls, the last one first.
unfoldable pub run_all : List Update → List OrganizationRecord → List OrganizationRecord
run_all [] rows = rows
run_all (u ∷ earlier) rows = (run_update u (run_all earlier rows)).1

-- How many calls that name the organization succeed.
unfoldable pub successes : Text → List Update → List OrganizationRecord → ℕ
successes key [] rows = 0
successes key (u ∷ earlier) rows =
    (if u.id == key && is_done (run_update u (run_all earlier rows)).0 then 1 else 0)
    + successes key earlier rows

-- An update that is carried out adds one to the revision of its row, and to no other.
found-changed :
    (now : Text) (c : OrganizationChange) (id key : Text) (rows : List OrganizationRecord)
    (r : OrganizationRecord)
    → first (has_id key) rows ≡ some r
    → first (has_id key) (update (has_id id) (changed now c) rows)
      ≡ some (if r.id == id then changed now c r else r)
unfolding changed
found-changed now c id key rows r h =
    ground (arith, h, first-update (has_id key) (has_id id) (changed now c) rows (λ x. refl))

first-id :
    (key : Text) (rows : List OrganizationRecord) (r : OrganizationRecord)
    → first (has_id key) rows ≡ some r
    → r.id ≡ key
first-id key rows r h = (text_beq_iff r.id key).0 (first-holds (has_id key) rows r h)

-- The revision of the row found under a key.
abbrev pub revision_in : Text → List OrganizationRecord → Option ℕ
revision_in key rows = elim (first (has_id key) rows) [ none ↦ none | some r ↦ some r.revision ]

update_rows-revision :
    (e : Option DatabaseError) (change : Statement) (now : Text) (c : OrganizationChange)
    (id key : Text) (rows : List OrganizationRecord) (n : ℕ)
    → revision_in key rows ≡ some n
    → revision_in key (update_rows e change (has_id id) (changed now c) rows).1
      ≡ some (
          n
          + (if id == key && is_done (update_rows e change (has_id id) (changed now c) rows).0
              then 1
              else 0))
unfolding changed
update_rows-revision (some e) change now c id key rows n h = ground (arith, h)
update_rows-revision none change now c id key rows n h =
    elim (Option-cases (first (has_id key) rows)) [
      | inl f ↦ ground (arith, f, h)
      | inr (r, f) ↦ ground (
        arith,
        f,
        h,
        found-changed now c id key rows r f,
        first-id key rows r f,
        text_beq_iff r.id id,
        text_beq_iff id key,
      )
    ]

-- Every successful update of an organization adds one to its revision, and nothing else changes it.
run_all-counts :
    (ups : List Update) (key : Text) (rows : List OrganizationRecord) (n : ℕ)
    → revision_in key rows ≡ some n
    → revision_in key (run_all ups rows) ≡ some (n + successes key ups rows)
unfolding run_all run_update update_organization successes
run_all-counts [] key rows n h = ground (arith, h)
run_all-counts (u ∷ ups) key rows n h = ground (
  arith,
  update_rows-revision (check_revision u.access u.check u.id u.expected (run_all ups rows)) u.change
      u.now u.fields u.id key (run_all ups rows) (n + successes key ups rows)
      (run_all-counts ups key rows n h),
)

is_stale : (n k : ℕ) → 0 < k % 2 ^ 32 → (n % 2 ^ 32 == (n + k) % 2 ^ 32) ≡ false
is_stale n k h = ground (arith, h)

check_revision-stale :
    (check : Statement) (id : Text) (rows : List OrganizationRecord) (n k : ℕ)
    → revision_in id rows ≡ some (n + k)
    → 0 < k % 2 ^ 32
    → check.prepares && check.steps ≡ true
    → check_revision none check id (some (column_int n)) rows ≡ some version_conflict
unfolding check_revision
check_revision-stale check id rows n k h i j = elim (Option-cases (first (has_id id) rows)) [
  | inl f ↦ ground (arith, f, h)
  | inr (r, f) ↦ ground (arith, f, h, j, is_stale n k i)
]

-- An update that expects the revision its caller has read is refused as a version conflict and changes
-- nothing, if in between any other updates of the organization were carried out (fewer than 2^32 of
-- them, at which the revision's 32 bits come round).
pub update_organization-conflict :
    (ups : List Update) (u : Update) (rows : List OrganizationRecord) (n : ℕ)
    → revision_in u.id rows ≡ some n
    → u.expected ≡ some (column_int n)
    → 0 < successes u.id ups rows % 2 ^ 32
    → u.access ≡ none
    → u.check.prepares && u.check.steps ≡ true
    → run_update u (run_all ups rows) ≡ (failed version_conflict, run_all ups rows)
unfolding run_update update_organization
update_organization-conflict ups u rows n h e i a c =
    rw (a, e, run_update, update_organization)
      (rw
        (check_revision-stale u.check u.id (run_all ups rows) n (successes u.id ups rows)
          (run_all-counts ups u.id rows n h) i c)
        refl)
