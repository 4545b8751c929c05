-- ===== src/Api/Bootstrap.antt =====
-- backend/isched_GqlExecutor.cpp: the resolvers `platformBootstrapStatus`, `bootstrapPlatformAdmin`,
-- `completePlatformBootstrap` and `createPlatformAdmin`, which are open to everyone. The limiter's answer,
-- the new ids and the password hashes are arguments.
pub mod Guarding
use isched.Common.{
  ℕ, ◌+◌, ◌≤◌, ◌≡◌, refl, Bool, true, false, not, ◌&&◌, ◌||◌, List, [], ◌∷◌, ◌++◌, Option, none,
  some, Text, codes, text_eq, ◌==◌, if◌then◌else◌, ltb, is_empty, is_some, any, take, length, arith,
  zero, suc, ap, Option-cases, Bool-cases, inl, inr,
}
use isched.Database.Answers.{
  DatabaseError, DatabaseResult, failed, value, Void, done, Statement, Listing, duplicate_key,
}
use isched.Database.Tables.{matches, order_by, place, matches-order_by, first}
use isched.Database.Statements.{text_leb, runs, is_done}
use isched.Database.Admins.{
  PlatformAdminRecord, has_id, has_email, create_platform_admin, list_platform_admins,
  get_platform_admin_by_id, without_hashes,
}

pub data BootstrapError : Type 0 where
  not_available not_configured missing_input missing_arguments not_initialized : BootstrapError
  query_refused no_longer_available already_exists not_created not_fetched : BootstrapError
  too_many_attempts not_in_seed_mode short_password : BootstrapError

pub data Outcome (A : Type 0) : Type 0 where
  threw : BootstrapError → Outcome A
  returned : A → Outcome A

-- What the executor has, and how SQLite answers: `access` from `ensure_system_db` on.
pub record Platform : Type 0 where
  pub has_database : Bool
  pub has_auth : Bool
  pub initialized : Bool
  pub access : Option DatabaseError
  pub listing : Listing
  pub insertion : Statement
  pub selection : Statement

-- `none_of(admins, is_active)`.
unfoldable pub none_active : List PlatformAdminRecord → Bool
none_active admins = not (any (λ r. r.is_active) admins)

-- Whether a bootstrap is allowed.
unfoldable pub platform_bootstrap_status : Platform → List PlatformAdminRecord → Outcome Bool
platform_bootstrap_status p admins =
    if not p.has_database
    then threw not_available
    else if not p.initialized
    then threw not_initialized
    else elim (list_platform_admins p.access p.listing admins) [
      | failed e ↦ threw query_refused
      | value rs ↦ returned (none_active rs)
    ]

pub record BootstrapInput : Type 0 where
  pub email : Text
  pub password : Text
  pub display_name : Text

-- What `create_session` is called with for the new administrator.
pub record NewAdmin : Type 0 where
  pub admin_id : Text
  pub admin_name : Text

abbrev add_first :
    Text
    → Text
    → BootstrapInput
    → DatabaseResult Void × List PlatformAdminRecord
    → Outcome NewAdmin × List PlatformAdminRecord
add_first id hash input (failed duplicate_key, rows) = (threw already_exists, rows)
add_first id hash input (failed e, rows) = (threw not_created, rows)
add_first id hash input (value done, rows) = (
  returned (record {
    admin_id = id;
    admin_name = if is_empty input.display_name then input.email else input.display_name;
  }),
  rows,
)

unfoldable pub bootstrap_platform_admin :
    Platform
    → Text
    → Text
    → Text
    → Option BootstrapInput
    → List PlatformAdminRecord
    → Outcome NewAdmin × List PlatformAdminRecord
bootstrap_platform_admin p now id hash input admins =
    if not p.has_database
    then (threw not_available, admins)
    else if not p.has_auth
    then (threw not_configured, admins)
    else elim input [
      | none ↦ (threw missing_input, admins)
      | some i ↦
          if is_empty i.email || is_empty i.password
          then (threw missing_arguments, admins)
          else if not p.initialized
          then (threw not_initialized, admins)
          else elim (list_platform_admins p.access p.listing admins) [
            | failed e ↦ (threw query_refused, admins)
            | value rs ↦
                if not (is_empty rs)
                then (threw no_longer_available, admins)
                else add_first id hash i (
                    create_platform_admin p.access p.insertion now id i.email hash i.display_name
                      admins)
          ]
    ]

abbrev completed : Outcome NewAdmin → Outcome Bool
completed (threw e) = threw e
completed (returned a) = returned true

abbrev given_or_empty : Option BootstrapInput → BootstrapInput
given_or_empty none = record { email = []; password = []; display_name = [] }
given_or_empty (some i) = i

-- Its success; a missing input becomes an empty one.
unfoldable pub complete_platform_bootstrap :
    Platform
    → Text
    → Text
    → Text
    → Option BootstrapInput
    → List PlatformAdminRecord
    → Outcome Bool × List PlatformAdminRecord
complete_platform_bootstrap p now id hash input admins =
    let (answer, rows) =
      bootstrap_platform_admin p now id hash (some (given_or_empty input)) admins in
    (completed answer, rows)

-- A list that cannot be read counts as seed mode.
unfoldable pub is_seed_active : Platform → List PlatformAdminRecord → Bool
is_seed_active p admins =
    if not p.has_database then true else elim (list_platform_admins p.access p.listing admins) [
      | failed e ↦ true
      | value rs ↦ none_active rs
    ]

abbrev add_seeded :
    Platform
    → Text
    → DatabaseResult Void × List PlatformAdminRecord
    → Outcome PlatformAdminRecord × List PlatformAdminRecord
add_seeded p id (failed duplicate_key, rows) = (threw already_exists, rows)
add_seeded p id (failed e, rows) = (threw not_created, rows)
add_seeded p id (value done, rows) = elim (get_platform_admin_by_id p.access p.selection id rows) [
  | failed e ↦ (threw not_fetched, rows)
  | value r ↦ (returned r, rows)
]

-- `id` is made of the email's hash value. There is a database: the source uses it without asking.
unfoldable pub create_seed_admin :
    Bool
    → Platform
    → Text
    → Text
    → Text
    → Text
    → Text
    → List PlatformAdminRecord
    → Outcome PlatformAdminRecord × List PlatformAdminRecord
create_seed_admin allowed p now id hash email password admins =
    if not allowed
    then (threw too_many_attempts, admins)
    else if not (is_seed_active p admins)
    then (threw not_in_seed_mode, admins)
    else if is_empty email || is_empty password
    then (threw missing_arguments, admins)
    else if ltb (length password) 12
    then (threw short_password, admins)
    else add_seeded p id (create_platform_admin p.access p.insertion now id email hash email admins)
