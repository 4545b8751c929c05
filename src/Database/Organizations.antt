-- ===== src/Database/Organizations.antt =====
-- backend/isched_DatabaseManager.cpp: `create_organization`, `get_organization`, `list_organizations`,
-- `update_organization` and `delete_organization`. An `int` is given by its 32-bit pattern.
pub mod Locking
use isched.Common.{
  ℕ, ◌+◌, ◌%◌, ◌^◌, ◌≡◌, Bool, true, false, not, ◌&&◌, ◌||◌, List, [], ◌∷◌, ◌++◌, Option, none,
  some, Text, codes, text_eq, nat_eq, ◌==◌, if◌then◌else◌, is_some,
}
use isched.Database.Answers.{
  DatabaseError, DatabaseResult, failed, value, Void, done, Statement, Listing, query_failed,
  not_found, version_conflict,
}
use isched.Database.Tables.{first, order_by}
use isched.Database.Statements.{
  text_leb, or_else, insert_row, find_row, list_rows, check_exists, update_rows, delete_rows,
}

pub record OrganizationRecord : Type 0 where
  pub id : Text
  pub name : Text
  pub domain : Text
  pub subscription_tier : Text
  pub user_limit : ℕ
  pub storage_limit : ℕ
  pub created_at : Text
  pub status : Text
  pub revision : ℕ
  pub updated_at : Text

abbrev pub has_id : Text → OrganizationRecord → Bool
has_id key r = r.id == key

-- `sqlite3_column_int` cuts a 64-bit integer to 32 bits.
abbrev pub column_int : ℕ → ℕ
column_int n = n % 2 ^ 32

abbrev pub read_organization : OrganizationRecord → OrganizationRecord
read_organization r = record r { revision = column_int r.revision }

unfoldable pub create_organization :
    Option DatabaseError
    → Statement
    → Text
    → Text
    → Text
    → Text
    → Text
    → ℕ
    → ℕ
    → List OrganizationRecord
    → DatabaseResult Void × List OrganizationRecord
create_organization access insertion now id name domain tier user_limit storage_limit rows =
    insert_row access insertion (is_some (first (has_id id) rows))
      (record {
        id = id;
        name = name;
        domain = domain;
        subscription_tier = tier;
        user_limit = user_limit;
        storage_limit = storage_limit;
        created_at = now;
        status = codes "ACTIVE";
        revision = 0;
        updated_at = now;
      })
      rows

abbrev map_result {ℓ} : {A B : Type ℓ} → (A → B) → DatabaseResult A → DatabaseResult B
map_result f (failed e) = failed e
map_result f (value x) = value (f x)

unfoldable pub get_organization :
    Option DatabaseError
    → Statement
    → Text
    → List OrganizationRecord
    → DatabaseResult OrganizationRecord
get_organization access selection id rows =
    map_result read_organization (find_row access selection (has_id id) rows)

unfoldable pub read_all : List OrganizationRecord → List OrganizationRecord
read_all [] = []
read_all (r ∷ rs) = read_organization r ∷ read_all rs

unfoldable pub list_organizations :
    Option DatabaseError
    → Listing
    → List OrganizationRecord
    → DatabaseResult (List OrganizationRecord)
list_organizations access listing rows =
    map_result read_all (list_rows access listing (order_by (λ a b. text_leb a.name b.name) rows))

-- The optional arguments of `update_organization`.
pub record OrganizationChange : Type 0 where
  pub new_name : Option Text
  pub new_status : Option Text
  pub new_domain : Option Text
  pub new_tier : Option Text
  pub new_user_limit : Option ℕ
  pub new_storage_limit : Option ℕ

-- The row after the UPDATE whose SET clause is put together from the arguments that are given.
unfoldable pub changed : Text → OrganizationChange → OrganizationRecord → OrganizationRecord
changed now c r = record r {
  name = or_else c.new_name r.name;
  status = or_else c.new_status r.status;
  domain = or_else c.new_domain r.domain;
  subscription_tier = or_else c.new_tier r.subscription_tier;
  user_limit = or_else c.new_user_limit r.user_limit;
  storage_limit = or_else c.new_storage_limit r.storage_limit;
  revision = r.revision + 1;
  updated_at = now;
}

abbrev is_expected : Option ℕ → ℕ → Bool
is_expected none current = true
is_expected (some expected) current = expected == current

-- The SELECT of the current revision: whether the update goes on, or its error.
unfoldable pub check_revision :
    Option DatabaseError
    → Statement
    → Text
    → Option ℕ
    → List OrganizationRecord
    → Option DatabaseError
check_revision (some e) check id expected rows = some e
check_revision none check id expected rows =
    if not check.prepares
    then some query_failed
    else if not check.steps
    then some not_found
    else elim (first (has_id id) rows) [
      | none ↦ some not_found
      | some r ↦
          if is_expected expected (column_int r.revision) then none else some version_conflict
    ]

unfoldable pub update_organization :
    Option DatabaseError
    → Statement
    → Statement
    → Text
    → Text
    → OrganizationChange
    → Option ℕ
    → List OrganizationRecord
    → DatabaseResult Void × List OrganizationRecord
update_organization access check change now id c expected rows =
    update_rows (check_revision access check id expected rows) change (has_id id) (changed now c)
      rows

unfoldable pub delete_organization :
    Option DatabaseError
    → Statement
    → Statement
    → Text
    → List OrganizationRecord
    → DatabaseResult Void × List OrganizationRecord
delete_organization access check deletion id rows =
    delete_rows (check_exists access check (has_id id) rows) deletion (has_id id) rows
