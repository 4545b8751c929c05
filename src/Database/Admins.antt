-- ===== src/Database/Admins.antt =====
-- backend/isched_DatabaseManager.cpp: the platform administrators and the settings of the tenants, both in the
-- system database.
use isched.Common.{
  ◌≡◌, refl, Bool, true, not, ◌&&◌, ◌||◌, List, [], ◌∷◌, ◌++◌, Option, none, some, Text, text_eq,
  text_beq_iff, ◌==◌, if◌then◌else◌, is_some, arith, Option-cases, inl, inr,
}
use isched.Database.Answers.{
  DatabaseError, DatabaseResult, failed, value, Void, done, Statement, Listing, query_failed,
  not_found,
}
use isched.Database.Tables.{first, update, order_by, first-append, first-update, first-holds}
use isched.Database.Statements.{
  text_leb, or_else, runs, insert_row, find_row, list_rows, check_exists, update_rows, delete_rows,
}

pub record PlatformAdminRecord : Type 0 where
  pub id : Text
  pub email : Text
  pub password_hash : Text
  pub display_name : Text
  pub is_active : Bool
  pub created_at : Text
  pub last_login : Text

abbrev pub has_id : Text → PlatformAdminRecord → Bool
has_id key r = r.id == key

abbrev pub has_email : Text → PlatformAdminRecord → Bool
has_email email r = r.email == email

unfoldable pub create_platform_admin :
    Option DatabaseError
    → Statement
    → Text
    → Text
    → Text
    → Text
    → Text
    → List PlatformAdminRecord
    → DatabaseResult Void × List PlatformAdminRecord
create_platform_admin access insertion now id email password_hash display_name rows =
    insert_row access insertion (is_some (first (λ r. has_id id r || has_email email r) rows))
      (record {
        id = id;
        email = email;
        password_hash = password_hash;
        display_name = display_name;
        is_active = true;
        created_at = now;
        last_login = [];
      })
      rows

unfoldable pub fetch_platform_admin :
    Option DatabaseError
    → Statement
    → (PlatformAdminRecord → Bool)
    → List PlatformAdminRecord
    → DatabaseResult PlatformAdminRecord
fetch_platform_admin access selection p rows = find_row access selection p rows

unfoldable pub get_platform_admin_by_id :
    Option DatabaseError
    → Statement
    → Text
    → List PlatformAdminRecord
    → DatabaseResult PlatformAdminRecord
get_platform_admin_by_id access selection id rows =
    fetch_platform_admin access selection (has_id id) rows

unfoldable pub get_platform_admin_by_email :
    Option DatabaseError
    → Statement
    → Text
    → List PlatformAdminRecord
    → DatabaseResult PlatformAdminRecord
get_platform_admin_by_email access selection email rows =
    fetch_platform_admin access selection (has_email email) rows

-- The list leaves the password hashes out.
unfoldable pub without_hashes : List PlatformAdminRecord → List PlatformAdminRecord
without_hashes [] = []
without_hashes (r ∷ rs) = record r { password_hash = [] } ∷ without_hashes rs

unfoldable pub list_platform_admins :
    Option DatabaseError
    → Listing
    → List PlatformAdminRecord
    → DatabaseResult (List PlatformAdminRecord)
list_platform_admins access listing rows =
    list_rows access listing
      (without_hashes (order_by (λ a b. text_leb a.created_at b.created_at) rows))

-- Without a field to change, the method returns before it asks whether there is such a row.
unfoldable pub update_platform_admin :
    Option DatabaseError
    → Statement
    → Statement
    → Text
    → Option Text
    → Option Bool
    → List PlatformAdminRecord
    → DatabaseResult Void × List PlatformAdminRecord
update_platform_admin (some e) check change id display_name is_active rows = (failed e, rows)
update_platform_admin none check change id none none rows = (value done, rows)
update_platform_admin none check change id display_name is_active rows =
    update_rows (check_exists none check (has_id id) rows) change (has_id id)
      (λ r. record r {
        display_name = or_else display_name r.display_name;
        is_active = or_else is_active r.is_active;
      })
      rows

unfoldable pub delete_platform_admin :
    Option DatabaseError
    → Statement
    → Statement
    → Text
    → List PlatformAdminRecord
    → DatabaseResult Void × List PlatformAdminRecord
delete_platform_admin access check deletion id rows =
    delete_rows (check_exists access check (has_id id) rows) deletion (has_id id) rows

-- A row of `tenant_settings`.
pub record Setting : Type 0 where
  pub org_id : Text
  pub key : Text
  pub content : Text

abbrev pub is_setting : Text → Text → Setting → Bool
is_setting org_id key r = r.org_id == org_id && r.key == key

-- INSERT … ON CONFLICT(org_id, key) DO UPDATE.
unfoldable pub set_tenant_setting :
    Option DatabaseError
    → Statement
    → Text
    → Text
    → Text
    → List Setting
    → DatabaseResult Void × List Setting
set_tenant_setting (some e) upsert org_id key new rows = (failed e, rows)
set_tenant_setting none upsert org_id key new rows =
    if not (runs upsert)
    then (failed query_failed, rows)
    else if is_some (first (is_setting org_id key) rows)
    then (value done, update (is_setting org_id key) (λ r. record r { content = new }) rows)
    else (value done, rows ++ (record { org_id = org_id; key = key; content = new } ∷ []))

unfoldable pub get_tenant_setting :
    Option DatabaseError → Statement → Text → Text → List Setting → DatabaseResult Text
get_tenant_setting (some e) selection org_id key rows = failed e
get_tenant_setting none selection org_id key rows =
    if not (runs selection)
    then failed query_failed
    else elim (first (is_setting org_id key) rows) [
      | none ↦ failed not_found
      | some r ↦ value r.content
    ]

is_setting-both :
    (org_id key org q : Text) (r : Setting)
    → is_setting org q r ≡ true
    → is_setting org_id key r ≡ (org_id == org && key == q)
is_setting-both org_id key org q r h = ground (
  arith,
  h,
  text_beq_iff r.org_id org,
  text_beq_iff r.key q,
  text_beq_iff r.org_id org_id,
  text_beq_iff r.key key,
  text_beq_iff org_id org,
  text_beq_iff key q,
)

same_setting :
    (org_id key org q : Text) (rows : List Setting)
    → org_id == org && key == q ≡ true
    → first (is_setting org_id key) rows ≡ first (is_setting org q) rows
unfolding first
same_setting org_id key org q [] h = refl
same_setting org_id key org q (r ∷ rows) h =
    ground
      (arith, h, same_setting org_id key org q rows h, text_beq_iff org_id org, text_beq_iff key q)

abbrev put : Text → Text → Text → Setting
put org_id key new = record { org_id = org_id; key = key; content = new }

is_setting-put :
    (org_id key org q new : Text)
    → is_setting org q (put org_id key new) ≡ (org_id == org && key == q)
is_setting-put org_id key org q new = refl

-- After a setting is written, reading any setting gives the new text if it is that of the same tenant
-- and key, and otherwise what it gave before.
pub get_tenant_setting-set_tenant_setting :
    (upsert selection : Statement) (org_id key org q new : Text) (rows : List Setting)
    → runs upsert ≡ true
    → runs selection ≡ true
    → get_tenant_setting none selection org q (set_tenant_setting none upsert org_id key new rows).1
      ≡ (if org_id == org && key == q
          then value new
          else get_tenant_setting none selection org q rows)
unfolding get_tenant_setting set_tenant_setting first
get_tenant_setting-set_tenant_setting upsert selection org_id key org q new rows h i =
    let appended = first-append (is_setting org q) rows (put org_id key new ∷ []) in
    let updated =
      first-update (is_setting org q) (is_setting org_id key) (λ r. record r { content = new }) rows
        (λ r. refl) in
    elim (Option-cases (first (is_setting org q) rows)) [
      | inl e ↦ ground (arith, h, i, e, appended, updated, same_setting org_id key org q rows)
      | inr (r, e) ↦ ground (
        arith,
        h,
        i,
        e,
        appended,
        updated,
        same_setting org_id key org q rows,
        is_setting-both org_id key org q r (first-holds (is_setting org q) rows r e),
      )
    ]
