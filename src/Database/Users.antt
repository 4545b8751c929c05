-- ===== src/Database/Users.antt =====
-- backend/isched_DatabaseManager.cpp: the users of a tenant. The JSON library's parser is a parameter.
pub mod Logins
use isched.Common.{
  ◌≡◌, Bool, true, false, not, ◌&&◌, ◌||◌, List, [], ◌∷◌, ◌++◌, Option, none, some, Text, text_eq,
  ◌==◌, nat_eq, if◌then◌else◌, is_some,
}
use isched.Gql.Json.{Json}
use isched.Database.Answers.{
  DatabaseError, DatabaseResult, failed, value, Void, done, Statement, Listing,
}
use isched.Database.Tables.{first, order_by}
use isched.Database.Statements.{
  text_leb, or_else, insert_row, find_row, list_rows, check_exists, update_rows, delete_rows,
}
use isched.Database.LoginSessions.{parse_json_array}

-- A row of `users`; the roles are kept as JSON text.
pub record UserRow : Type 0 where
  pub id : Text
  pub email : Text
  pub password_hash : Text
  pub display_name : Text
  pub roles : Text
  pub is_active : Bool
  pub created_at : Text
  pub last_login : Text

pub record UserRecord : Type 0 where
  pub id : Text
  pub email : Text
  pub password_hash : Text
  pub display_name : Text
  pub roles : List Text
  pub is_active : Bool
  pub created_at : Text
  pub last_login : Text

abbrev pub has_id : Text → UserRow → Bool
has_id key r = r.id == key

abbrev pub has_email : Text → UserRow → Bool
has_email email r = r.email == email

unfoldable pub create_user :
    Option DatabaseError
    → Statement
    → Text
    → Text
    → Text
    → Text
    → Text
    → Text
    → List UserRow
    → DatabaseResult Void × List UserRow
create_user access insertion now id email password_hash display_name roles rows =
    insert_row access insertion (is_some (first (λ r. has_id id r || has_email email r) rows))
      (record {
        id = id;
        email = email;
        password_hash = password_hash;
        display_name = display_name;
        roles = roles;
        is_active = true;
        created_at = now;
        last_login = [];
      })
      rows

module _ {N : Type 0} (parse : Text → Option (Json N)) where
  unfoldable pub parse_user_row : Bool → UserRow → UserRecord
  parse_user_row include_hash r = record {
    id = r.id;
    email = r.email;
    password_hash = if include_hash then r.password_hash else [];
    display_name = r.display_name;
    roles = parse_json_array parse r.roles;
    is_active = r.is_active;
    created_at = r.created_at;
    last_login = r.last_login;
  }

  abbrev user_found : DatabaseResult UserRow → DatabaseResult UserRecord
  user_found (failed e) = failed e
  user_found (value r) = value (parse_user_row true r)

  unfoldable pub get_user_by_id :
      Option DatabaseError → Statement → Text → List UserRow → DatabaseResult UserRecord
  get_user_by_id access selection id rows = user_found (find_row access selection (has_id id) rows)

  unfoldable pub get_user_by_email :
      Option DatabaseError → Statement → Text → List UserRow → DatabaseResult UserRecord
  get_user_by_email access selection email rows =
      user_found (find_row access selection (has_email email) rows)

  unfoldable pub parse_all : List UserRow → List UserRecord
  parse_all [] = []
  parse_all (r ∷ rs) = parse_user_row false r ∷ parse_all rs

  abbrev users_listed : DatabaseResult (List UserRow) → DatabaseResult (List UserRecord)
  users_listed (failed e) = failed e
  users_listed (value rs) = value (parse_all rs)

  unfoldable pub list_users :
      Option DatabaseError → Listing → List UserRow → DatabaseResult (List UserRecord)
  list_users access listing rows =
      users_listed
        (list_rows access listing (order_by (λ a b. text_leb a.created_at b.created_at) rows))

-- The optional arguments of `update_user`.
pub record UserChange : Type 0 where
  pub new_display_name : Option Text
  pub new_roles : Option Text
  pub new_is_active : Option Bool

unfoldable pub changes_nothing : UserChange → Bool
changes_nothing c =
    not (is_some c.new_display_name) && not (is_some c.new_roles) && not (is_some c.new_is_active)

unfoldable pub changed : UserChange → UserRow → UserRow
changed c r = record r {
  display_name = or_else c.new_display_name r.display_name;
  roles = or_else c.new_roles r.roles;
  is_active = or_else c.new_is_active r.is_active;
}

-- With nothing to change, the method returns before it asks for a connection.
unfoldable pub update_user :
    Option DatabaseError
    → Statement
    → Statement
    → Text
    → UserChange
    → List UserRow
    → DatabaseResult Void × List UserRow
update_user access check change id c rows =
    if changes_nothing c
    then (value done, rows)
    else update_rows (check_exists access check (has_id id) rows) change (has_id id) (changed c)
        rows

unfoldable pub delete_user :
    Option DatabaseError
    → Statement
    → Statement
    → Text
    → List UserRow
    → DatabaseResult Void × List UserRow
delete_user access check deletion id rows =
    delete_rows (check_exists access check (has_id id) rows) deletion (has_id id) rows
