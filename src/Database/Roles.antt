-- ===== src/Database/Roles.antt =====
-- backend/isched_DatabaseManager.cpp: the system database's opening, as far as it bears on its roles, and
-- `create_platform_role`, `delete_platform_role`, `get_platform_role` and `list_platform_roles`.
pub mod Seeding
use isched.Common.{
  ◌≡◌, Bool, true, false, not, ◌&&◌, ◌||◌, List, [], ◌∷◌, ◌++◌, Option, none, some, Text, codes,
  text_eq, ◌==◌, if◌then◌else◌, is_some, contains,
}
use isched.Database.Answers.{
  DatabaseError, DatabaseResult, failed, value, Void, done, Statement, Listing, connection_failed,
  schema_validation_failed, access_denied,
}
use isched.Database.Tables.{first, update, order_by}
use isched.Database.Statements.{
  text_leb, insert_row, find_row, list_rows, check_exists, delete_rows,
}

pub record PlatformRoleRecord : Type 0 where
  pub id : Text
  pub name : Text
  pub description : Text
  pub scope : Text
  pub created_at : Text

-- `roles` are the rows of `platform_roles` in the file, opened or not.
pub record RoleStore : Type 0 where
  pub ready : Bool
  pub roles : List PlatformRoleRecord

abbrev pub has_id : Text → PlatformRoleRecord → Bool
has_id key r = r.id == key

abbrev pub clashes : Text → Text → PlatformRoleRecord → Bool
clashes key name r = r.id == key || r.name == name

abbrev pub built_in_roles : List Text
built_in_roles =
    codes "role_platform_admin"
    ∷ codes "role_tenant_admin"
    ∷ codes "role_user"
    ∷ codes "role_service"
    ∷ []

-- INSERT OR IGNORE of one row.
unfoldable pub insert_or_ignore :
    PlatformRoleRecord → List PlatformRoleRecord → List PlatformRoleRecord
insert_or_ignore r rows =
    if is_some (first (clashes r.id r.name) rows) then rows else rows ++ (r ∷ [])

abbrev pub seed_row : Text → Text → Text → Text → Text → PlatformRoleRecord
seed_row now id name description scope = record {
  id = id;
  name = name;
  description = description;
  scope = scope;
  created_at = now;
}

abbrev pub seed_rows : Text → List PlatformRoleRecord
seed_rows now =
    seed_row now (codes "role_platform_admin") (codes "platform_admin")
      (codes "Full platform administration access") (codes "platform")
    ∷ seed_row now (codes "role_tenant_admin") (codes "tenant_admin")
        (codes "Administration access for a single organization") (codes "tenant")
    ∷ seed_row now (codes "role_user") (codes "user") (codes "Standard authenticated user")
        (codes "tenant")
    ∷ seed_row now (codes "role_service") (codes "service")
        (codes "Machine-to-machine service account") (codes "tenant")
    ∷ []

unfoldable pub insert_all :
    List PlatformRoleRecord → List PlatformRoleRecord → List PlatformRoleRecord
insert_all [] rows = rows
insert_all (r ∷ rs) rows = insert_all rs (insert_or_ignore r rows)

-- The rows whose scope the second statement of the seed corrects.
abbrev pub is_misplaced : PlatformRoleRecord → Bool
is_misplaced r =
    (r.id == codes "role_tenant_admin" || r.id == codes "role_user" || r.id == codes "role_service")
    && r.scope == codes "platform"

abbrev pub to_tenant_scope : PlatformRoleRecord → PlatformRoleRecord
to_tenant_scope r = record r { scope = codes "tenant" }

-- Whether the directory is made, the file opened, the tables created, and the two statements of the seed
-- run; if the first does not, the second is not reached.
pub record Opening : Type 0 where
  pub directory : Bool
  pub opened : Bool
  pub tables : Bool
  pub seeds : Bool
  pub corrects : Bool

unfoldable pub seed : Opening → Text → List PlatformRoleRecord → List PlatformRoleRecord
seed o now rows =
    if not o.seeds
    then rows
    else if not o.corrects
    then insert_all (seed_rows now) rows
    else update is_misplaced to_tenant_scope (insert_all (seed_rows now) rows)

unfoldable pub ensure_system_db : Opening → Text → RoleStore → DatabaseResult Void × RoleStore
ensure_system_db o now s =
    if s.ready
    then (value done, s)
    else if not o.directory || not o.opened
    then (failed connection_failed, s)
    else if not o.tables
    then (failed schema_validation_failed, s)
    else (value done, record { ready = true; roles = seed o now s.roles })

-- `!system_db_initialized_ || !system_db_`.
abbrev pub access : Bool → Option DatabaseError
access ready = if ready then none else some connection_failed

abbrev with_roles :
    RoleStore → DatabaseResult Void × List PlatformRoleRecord → DatabaseResult Void × RoleStore
with_roles s (answer, rows) = (answer, record s { roles = rows })

unfoldable pub create_platform_role :
    Statement → Text → Text → Text → Text → Text → RoleStore → DatabaseResult Void × RoleStore
create_platform_role insertion now id name description scope s = with_roles s (
    insert_row (access s.ready) insertion (is_some (first (clashes id name) s.roles))
      (seed_row now id name description scope) s.roles)

unfoldable pub delete_platform_role :
    Statement → Statement → Text → RoleStore → DatabaseResult Void × RoleStore
delete_platform_role check deletion id s =
    if contains built_in_roles id
    then (failed access_denied, s)
    else with_roles s (
        delete_rows (check_exists (access s.ready) check (has_id id) s.roles) deletion (has_id id)
          s.roles)

unfoldable pub get_platform_role : Statement → Text → RoleStore → DatabaseResult PlatformRoleRecord
get_platform_role selection id s = find_row (access s.ready) selection (has_id id) s.roles

unfoldable pub list_platform_roles : Listing → RoleStore → DatabaseResult (List PlatformRoleRecord)
list_platform_roles listing s =
    list_rows (access s.ready) listing
      (order_by (λ a b. text_leb a.created_at b.created_at) s.roles)
