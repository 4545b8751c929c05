-- ===== src/Gql/Gates.antt =====
-- backend/isched_GqlExecutor.cpp: the two checks before a top-level resolver is called, and the role
-- table of backend/isched_GqlExecutor.hpp.
use isched.Common.{
  ◌≡◌, Bool, false, ◌&&◌, not, List, [], ◌∷◌, Option, none, some, ◌==◌, Text, codes, text_eq,
  if◌then◌else◌, is_empty, any, Map, lookup, insert, erase, lookup-insert, lookup-erase, arith,
}
use isched.Gql.Json.{Json, null, boolean, number, text, array, object, Members, get_member}

-- The fields of `ResolverCtx` that the checks read; `D` stands for the others.
pub record ResolverCtx (D : Type 0) : Type 0 where
  pub tenant_id : Text
  pub roles : List Text
  pub details : D

abbrev pub RoleTable : Type 0
RoleTable = Map Text (List Text)

unfoldable pub require_roles : Text → List Text → RoleTable → RoleTable
require_roles field_name required table =
    if is_empty required then erase field_name table else insert field_name required table

-- `std::find(roles.begin(), roles.end(), r) != roles.end()`.
unfoldable pub has : List Text → Text → Bool
has roles r = any (λ x. x == r) roles

unfoldable pub has_role : List Text → List Text → Bool
has_role required caller_roles = any (has caller_roles) required

abbrev pub platform_admin : Text
platform_admin = codes "role_platform_admin"

unfoldable pub k_org_scoped_mutations : List Text
k_org_scoped_mutations =
    codes "createUser"
    ∷ codes "updateUser"
    ∷ codes "deleteUser"
    ∷ codes "createRole"
    ∷ codes "updateRole"
    ∷ codes "assignRole"
    ∷ codes "unassignRole"
    ∷ codes "updateTenantConfig"
    ∷ codes "createDataSource"
    ∷ codes "updateDataSource"
    ∷ codes "deleteDataSource"
    ∷ []

-- The text of a value that is a text.
abbrev pub as_text : {N : Type 0} → Option (Json N) → Option Text
as_text none = none
as_text (some null) = none
as_text (some (boolean b)) = none
as_text (some (number n)) = none
as_text (some (text s)) = some s
as_text (some (array is)) = none
as_text (some (object ms)) = none

abbrev pub requested_org : {N : Type 0} → Members N → Option Text
requested_org args = as_text (get_member (codes "organizationId") args)

abbrev pub lacks : Option (List Text) → List Text → Bool
lacks none roles = false
lacks (some required) roles = not (is_empty required) && not (has_role required roles)

-- The role gate refuses the call.
unfoldable pub is_forbidden : {D : Type 0} → RoleTable → Text → ResolverCtx D → Bool
is_forbidden table field ctx = lacks (lookup field table) ctx.roles

-- The organization guard refuses the call.
unfoldable pub is_mismatch : {N D : Type 0} → Text → Members N → ResolverCtx D → Bool
is_mismatch field args ctx = has k_org_scoped_mutations field && elim (requested_org args) [
  | none ↦ false
  | some org ↦
      not (is_empty ctx.tenant_id)
      && not (has ctx.roles platform_admin)
      && not (org == ctx.tenant_id)
]

-- After roles are declared for a field, its gate asks for one of them, or for nothing if none were
-- declared, and the gates of the other fields are what they were.
pub is_forbidden-require_roles :
    {D : Type 0} (field other : Text) (required : List Text) (table : RoleTable)
    (ctx : ResolverCtx D)
    → is_forbidden (require_roles field required table) other ctx ≡ (
        if field == other
        then not (is_empty required) && not (has_role required ctx.roles)
        else is_forbidden table other ctx)
unfolding is_forbidden require_roles
is_forbidden-require_roles field other required table ctx =
    ground (arith, lookup-insert field other required table, lookup-erase field other table)
