-- ===== src/Database/Statements.antt =====
-- backend/isched_DatabaseManager.cpp: the courses that its methods share. `access` is the error of the way to
-- the database (not opened, no pool, no connection), if there is one.
use isched.Common.{
  Bool, true, false, not, ◌&&◌, ◌||◌, List, [], ◌∷◌, ◌++◌, Option, none, some, Text, ◌==◌, nat_eq,
  ltb, if◌then◌else◌, take,
}
use isched.Database.Answers.{
  DatabaseError, DatabaseResult, failed, value, Void, done, Statement, Listing, query_failed,
  not_found, duplicate_key,
}
use isched.Database.Tables.{first, matches, update, delete}

-- Text compared as SQLite does, byte by byte.
unfoldable pub text_leb : Text → Text → Bool
text_leb [] t = true
text_leb (c ∷ s) [] = false
text_leb (c ∷ s) (d ∷ t) =
    let rest = text_leb s t in if ltb c d then true else if c == d then rest else false

abbrev pub runs : Statement → Bool
runs q = q.prepares && q.steps

abbrev pub or_else {ℓ} : {A : Type ℓ} → Option A → A → A
or_else none x = x
or_else (some x) _ = x

abbrev pub is_done {ℓ} : {A : Type ℓ} → DatabaseResult A → Bool
is_done (failed e) = false
is_done (value x) = true

module _ {R : Type 0} where
  -- INSERT; `clashes` if the row breaks a PRIMARY KEY or UNIQUE.
  abbrev pub insert_row :
      Option DatabaseError → Statement → Bool → R → List R → DatabaseResult Void × List R
  insert_row (some e) insertion clashes r rows = (failed e, rows)
  insert_row none insertion clashes r rows =
      if not (runs insertion)
      then (failed query_failed, rows)
      else if clashes
      then (failed duplicate_key, rows)
      else (value done, rows ++ (r ∷ []))

  -- The first row of a SELECT; a step that fails is taken for no row.
  abbrev pub find_row : Option DatabaseError → Statement → (R → Bool) → List R → DatabaseResult R
  find_row (some e) selection p rows = failed e
  find_row none selection p rows =
      if not selection.prepares
      then failed query_failed
      else if not selection.steps
      then failed not_found
      else elim (first p rows) [ none ↦ failed not_found | some r ↦ value r ]

  -- `while (sqlite3_step(stmt) == SQLITE_ROW)`.
  abbrev pub list_rows : Option DatabaseError → Listing → List R → DatabaseResult (List R)
  list_rows (some e) listing rows = failed e
  list_rows none listing rows =
      if not listing.listed then failed query_failed else value (take listing.rows_read rows)

  -- SELECT COUNT(*) before a change: whether the method goes on, or its error.
  abbrev pub check_exists :
      Option DatabaseError → Statement → (R → Bool) → List R → Option DatabaseError
  check_exists (some e) check p rows = some e
  check_exists none check p rows =
      if not check.prepares
      then some query_failed
      else if not check.steps || matches p rows == 0
      then some not_found
      else none

  abbrev pub update_rows :
      Option DatabaseError
      → Statement
      → (R → Bool)
      → (R → R)
      → List R
      → DatabaseResult Void × List R
  update_rows (some e) change p f rows = (failed e, rows)
  update_rows none change p f rows =
      if not (runs change) then (failed query_failed, rows) else (value done, update p f rows)

  -- With `sqlite3_changes(...) == 0` as `NotFound`.
  abbrev pub update_counted :
      Option DatabaseError
      → Statement
      → (R → Bool)
      → (R → R)
      → List R
      → DatabaseResult Void × List R
  update_counted (some e) change p f rows = (failed e, rows)
  update_counted none change p f rows =
      if not (runs change)
      then (failed query_failed, rows)
      else if matches p rows == 0
      then (failed not_found, rows)
      else (value done, update p f rows)

  abbrev pub delete_rows :
      Option DatabaseError → Statement → (R → Bool) → List R → DatabaseResult Void × List R
  delete_rows (some e) deletion p rows = (failed e, rows)
  delete_rows none deletion p rows =
      if not (runs deletion) then (failed query_failed, rows) else (value done, delete p rows)
