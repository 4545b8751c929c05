-- ===== src/Api/Administration/Reach.antt =====
-- backend/isched_GqlExecutor.cpp: which organizations a caller changes, behind the gates of the executor.
use isched.Common.{
  ℕ, ◌≡◌, refl, true, false, List, [], ◌∷◌, some, Text, codes, text_eq, text_beq, is_empty, arith,
  lookup-insert,
}
use isched.Gql.Json.{Members, text, no_members, member, get_key, get_member}
use isched.Gql.Gates.{
  ResolverCtx, RoleTable, require_roles, has, has_role, platform_admin, k_org_scoped_mutations,
  is_mismatch, is_forbidden,
}
use isched.Database.Tables.{first, delete, first-counted, first-holds}
use isched.Database.Statements.{runs}
use isched.Database.Organizations.{OrganizationRecord, has_id, delete_organization}
use isched.Api.Administration.{
  Answers, System, returned, delete_organization_resolver, with_organizations,
}

abbrev pub tenant_admin : Text
tenant_admin = codes "role_tenant_admin"

abbrev pub deletes : {N : Type 0} → Text → Members N
deletes org = member (codes "id") (text org) no_members

-- The roles that the source asks for.
abbrev pub deletion_roles : List Text
deletion_roles = platform_admin ∷ tenant_admin ∷ []

-- An administrator of any organization passes both gates of `deleteOrganization` with the name of any other
-- one, and if that one is stored and the statements run, it is gone and no other row is.
pub delete_organization_resolver-unscoped :
    {N D : Type 0} (to_int : N → ℕ) (ctx : ResolverCtx D) (table : RoleTable) (org : Text)
    (a : Answers) (s : System) (row : OrganizationRecord)
    → has ctx.roles tenant_admin ≡ true
    → is_empty org ≡ false
    → s.store.ready ≡ true
    → runs a.check ≡ true
    → runs a.change ≡ true
    → first (has_id org) s.organizations ≡ some row
    → (is_forbidden
          (require_roles (codes "deleteOrganization") deletion_roles table)
          (codes "deleteOrganization")
          ctx
        ≡ false)
      × (is_mismatch {N = N} (codes "deleteOrganization") (deletes org) ctx ≡ false)
      × (delete_organization_resolver to_int a (deletes org) s
          ≡ (returned true, with_organizations s (delete (has_id org) s.organizations)))
unfolding is_forbidden require_roles is_mismatch k_org_scoped_mutations has text_beq has_role
    get_key get_member delete_organization_resolver delete_organization
delete_organization_resolver-unscoped to_int ctx table org a s row h named ready check change
      stored =
    (
      ground (
        arith,
        h,
        lookup-insert (codes "deleteOrganization") (codes "deleteOrganization") deletion_roles
            table,
      ),
      refl,
      ground (
        arith,
        named,
        ready,
        check,
        change,
        first-counted (has_id org) (has_id org) s.organizations row stored,
        first-holds (has_id org) s.organizations row stored,
      ),
    )
