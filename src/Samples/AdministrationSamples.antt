-- ===== src/Samples/AdministrationSamples.antt =====
-- Runs of the resolvers on the system database.
use isched.Common.{ℕ, ◌≡◌, refl, true, false, [], ◌∷◌, Text, codes, text_eq, text_beq}
use isched.Gql.Json.{number, text, no_members, member, get_key, get_member}
use isched.Gql.Gates.{ResolverCtx, require_roles, is_forbidden, is_mismatch}
use isched.Database.Answers.{Statement}
use isched.Database.Tables.{first, delete}
use isched.Database.Organizations.{OrganizationRecord, has_id, update_organization, check_revision}
use isched.Api.Administration.{
  System, Answers, threw, returned, delete_organization_resolver, with_organizations,
  update_organization_resolver, change_of, modified_by_another,
}
use isched.Api.Administration.Reach.{
  delete_organization_resolver-unscoped, tenant_admin, deletes, deletion_roles,
}

abbrev works : Statement
works = record { prepares = true; steps = true }

abbrev answers : Answers
answers = record {
  check = works;
  change = works;
  selection = works;
  listing = record { listed = true; rows_read = 10 };
}

abbrev stored : Text → OrganizationRecord
stored id = record {
  id = id;
  name = id;
  domain = [];
  subscription_tier = codes "free";
  user_limit = 10;
  storage_limit = 1073741824;
  created_at = codes "1";
  status = codes "ACTIVE";
  revision = 0;
  updated_at = codes "1";
}

abbrev system : System
system = record {
  store = record { ready = true; roles = [] };
  organizations = stored (codes "acme") ∷ [];
  provisioned = [];
}

abbrev administrator : ResolverCtx ℕ
administrator = record { tenant_id = codes "initech"; roles = tenant_admin ∷ []; details = 0 }

delete_organization_resolver-unscoped_example :
    (is_forbidden
        (require_roles (codes "deleteOrganization") deletion_roles [])
        (codes "deleteOrganization")
        administrator
      ≡ false)
    × (is_mismatch {N = ℕ} (codes "deleteOrganization") (deletes (codes "acme")) administrator
        ≡ false)
    × (delete_organization_resolver {N = ℕ} (λ n. n) answers (deletes (codes "acme")) system ≡ (
      returned true,
      with_organizations system (delete (has_id (codes "acme")) system.organizations),
    ))
unfolding isched.Gql.Gates.has first text_beq
delete_organization_resolver-unscoped_example =
    delete_organization_resolver-unscoped {N = ℕ} (λ n. n) administrator [] (codes "acme") answers
      system (stored (codes "acme")) refl refl refl refl refl refl

-- An update that expects another revision is refused, and changes nothing.
stale_update :
    update_organization_resolver {N = ℕ}
      (λ n. n)
      answers
      (codes "2")
      (member
        (codes "id")
        (text (codes "acme"))
        (member (codes "expectedRevision") (number 4) no_members))
      system
    ≡ (threw modified_by_another, system)
unfolding update_organization_resolver change_of update_organization check_revision get_key
    get_member first text_beq
stale_update = refl
