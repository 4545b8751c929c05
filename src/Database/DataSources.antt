-- ===== src/Database/DataSources.antt =====
-- backend/isched_DatabaseManager.cpp: the outbound data sources of a tenant. `timeout_ms` is an `int`, given by
-- its 32-bit pattern.
use isched.Common.{
  ℕ, ◌≡◌, refl, Bool, true, not, ◌&&◌, List, Option, none, some, Text, text_eq, ◌==◌, nat_eq,
  if◌then◌else◌, is_some, arith, Option-cases, inl, inr,
}
use isched.Database.Answers.{
  DatabaseError, DatabaseResult, failed, value, Void, done, Statement, Listing, query_failed,
  not_found,
}
use isched.Database.Tables.{
  first, matches, delete, order_by, first-update, first-holds, first-matches, first-delete_same,
}
use isched.Database.Statements.{
  text_leb, or_else, runs, insert_row, list_rows, update_counted, is_done,
}

pub record DataSourceRecord : Type 0 where
  pub id : Text
  pub name : Text
  pub base_url : Text
  pub auth_kind : Text
  pub api_key_header : Text
  pub api_key_value_encrypted : Text
  pub timeout_ms : ℕ
  pub created_at : Text

abbrev pub has_id : Text → DataSourceRecord → Bool
has_id key r = r.id == key

unfoldable pub create_data_source :
    Option DatabaseError
    → Statement
    → DataSourceRecord
    → List DataSourceRecord
    → DatabaseResult Void × List DataSourceRecord
create_data_source access insertion r rows =
    insert_row access insertion (is_some (first (has_id r.id) rows)) r rows

unfoldable pub get_data_source_by_id :
    Option DatabaseError
    → Statement
    → Text
    → List DataSourceRecord
    → DatabaseResult DataSourceRecord
get_data_source_by_id (some e) selection id rows = failed e
get_data_source_by_id none selection id rows =
    if not (runs selection)
    then failed query_failed
    else elim (first (has_id id) rows) [ none ↦ failed not_found | some r ↦ value r ]

unfoldable pub list_data_sources :
    Option DatabaseError → Listing → List DataSourceRecord → DatabaseResult (List DataSourceRecord)
list_data_sources access listing rows =
    list_rows access listing (order_by (λ a b. text_leb a.created_at b.created_at) rows)

-- The optional arguments of `update_data_source`.
pub record DataSourceChange : Type 0 where
  pub new_name : Option Text
  pub new_base_url : Option Text
  pub new_auth_kind : Option Text
  pub new_api_key_header : Option Text
  pub new_api_key_value : Option Text
  pub new_timeout_ms : Option ℕ

unfoldable pub changes_nothing : DataSourceChange → Bool
changes_nothing c =
    not (is_some c.new_name)
    && not (is_some c.new_base_url)
    && not (is_some c.new_auth_kind)
    && not (is_some c.new_api_key_header)
    && not (is_some c.new_api_key_value)
    && not (is_some c.new_timeout_ms)

unfoldable pub changed : DataSourceChange → DataSourceRecord → DataSourceRecord
changed c r = record r {
  name = or_else c.new_name r.name;
  base_url = or_else c.new_base_url r.base_url;
  auth_kind = or_else c.new_auth_kind r.auth_kind;
  api_key_header = or_else c.new_api_key_header r.api_key_header;
  api_key_value_encrypted = or_else c.new_api_key_value r.api_key_value_encrypted;
  timeout_ms = or_else c.new_timeout_ms r.timeout_ms;
}

abbrev as_void : DatabaseResult DataSourceRecord → DatabaseResult Void
as_void (failed e) = failed e
as_void (value r) = value done

-- With nothing to change, the method only looks the source up, on a second connection that it takes
-- while it still holds its own: `second` is the error of that one.
unfoldable pub update_data_source :
    Option DatabaseError
    → Option DatabaseError
    → Statement
    → Statement
    → Text
    → DataSourceChange
    → List DataSourceRecord
    → DatabaseResult Void × List DataSourceRecord
update_data_source (some e) second selection change id c rows = (failed e, rows)
update_data_source none second selection change id c rows =
    if changes_nothing c
    then (as_void (get_data_source_by_id second selection id rows), rows)
    else update_counted none change (has_id id) (changed c) rows

unfoldable pub delete_data_source :
    Option DatabaseError
    → Statement
    → Text
    → List DataSourceRecord
    → DatabaseResult Void × List DataSourceRecord
delete_data_source (some e) deletion id rows = (failed e, rows)
delete_data_source none deletion id rows =
    if not (runs deletion)
    then (failed query_failed, rows)
    else if matches (has_id id) rows == 0
    then (failed not_found, rows)
    else (value done, delete (has_id id) rows)

abbrev pub changed_found :
    DataSourceChange → Option DataSourceRecord → DatabaseResult DataSourceRecord
changed_found c none = failed not_found
changed_found c (some r) = value (changed c r)

-- When SQLite runs all statements, an update succeeds exactly if there is such a data source, and the
-- source that is then read is the earlier one with the given fields changed.
pub update_data_source-read :
    (selection change : Statement) (id : Text) (c : DataSourceChange) (rows : List DataSourceRecord)
    → runs selection ≡ true
    → runs change ≡ true
    → (is_done (update_data_source none none selection change id c rows).0
        ≡ is_some (first (has_id id) rows))
      × (get_data_source_by_id none selection id
            (update_data_source none none selection change id c rows).1
          ≡ changed_found c (first (has_id id) rows))
unfolding update_data_source get_data_source_by_id changed changes_nothing
update_data_source-read selection change id c rows h k =
    let counted = first-matches (has_id id) rows in
    let updated = first-update (has_id id) (has_id id) (changed c) rows (λ r. refl) in
    elim (Option-cases (first (has_id id) rows)) [
      | inl e ↦ (ground (arith, h, k, e, counted), ground (arith, h, k, e, counted))
      | inr (r, e) ↦ (
        ground (arith, h, k, e, counted),
        ground (arith, h, k, e, counted, updated, first-holds (has_id id) rows r e),
      )
    ]

-- After a data source is deleted it is not found, and no other operation of the method's result is
-- left open: it says whether there was one.
pub delete_data_source-read :
    (selection deletion : Statement) (id : Text) (rows : List DataSourceRecord)
    → runs selection ≡ true
    → runs deletion ≡ true
    → (get_data_source_by_id none selection id (delete_data_source none deletion id rows).1
        ≡ failed not_found)
      × (is_done (delete_data_source none deletion id rows).0 ≡ is_some (first (has_id id) rows))
unfolding delete_data_source get_data_source_by_id
delete_data_source-read selection deletion id rows h k =
    let counted = first-matches (has_id id) rows in
    let gone = first-delete_same (has_id id) rows in
    elim (Option-cases (first (has_id id) rows)) [
      | inl e ↦ (ground (arith, h, k, e, counted, gone), ground (arith, h, k, e, counted))
      | inr (r, e) ↦ (ground (arith, h, k, e, counted, gone), ground (arith, h, k, e, counted))
    ]
