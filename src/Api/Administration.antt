-- ===== src/Api/Administration.antt =====
-- backend/isched_GqlExecutor.cpp: the resolvers `roles`, `createRole` and `deleteRole`, and
-- `createOrganization`, `updateOrganization` and `deleteOrganization`, on the system database. The hash of a
-- name and what the JSON library reads of a number are parameters.
pub mod Reach
use isched.Common.{
  ℕ, ◌≡◌, Bool, true, false, not, ◌&&◌, ◌||◌, List, [], ◌∷◌, ◌++◌, Option, none, some, Text, codes,
  text_eq, ◌==◌, if◌then◌else◌, is_empty,
}
use isched.Gql.Json.{Json, Members, null, boolean, number, text, array, object, no_members, get_key}
use isched.Database.Answers.{
  DatabaseError, DatabaseResult, failed, value, Void, Statement, Listing, not_found, duplicate_key,
  access_denied, version_conflict,
}
use isched.Database.Roles.{
  PlatformRoleRecord, RoleStore, access, create_platform_role, delete_platform_role,
  list_platform_roles,
}
use isched.Database.Organizations.{
  OrganizationRecord, OrganizationChange, create_organization, get_organization,
  update_organization, delete_organization,
}
use isched.Api.Replies.{value_or, is_object}

pub data AdminError : Type 0 where
  wrong_type not_listed missing_members already_exists not_found_there built_in not_done :
      AdminError
  no_name no_id modified_by_another not_fetched : AdminError

pub data Outcome (A : Type 0) : Type 0 where
  threw : AdminError → Outcome A
  returned : A → Outcome A

-- How SQLite answers.
pub record Answers : Type 0 where
  pub check : Statement
  pub change : Statement
  pub selection : Statement
  pub listing : Listing

-- The system database, and the tenants whose databases were asked to be made, the last one first.
pub record System : Type 0 where
  pub store : RoleStore
  pub organizations : List OrganizationRecord
  pub provisioned : List Text

abbrev pub with_organizations : System → List OrganizationRecord → System
with_organizations s rows = record s { organizations = rows }

unfoldable pub list_roles : Answers → System → Outcome (List PlatformRoleRecord)
list_roles a s = elim (list_platform_roles a.listing s.store) [
  | failed e ↦ threw not_listed
  | value rs ↦ returned rs
]

module _ {N : Type 0} (to_int : N → ℕ) where
  abbrev pub input_in : Members N → Json N
  input_in args = elim (get_key (codes "input") (object args)) [
    | none ↦ object no_members
    | some j ↦ j
  ]

  -- `input.value(key, missing)`, which throws on what is no object.
  abbrev pub text_of : Text → Text → Json N → Option Text
  text_of key missing input = if is_object input then value_or key missing input else none

  -- `get<int>`, which also reads a Boolean.
  abbrev pub as_int : Json N → Option ℕ
  as_int (number n) = some (to_int n)
  as_int (boolean b) = some (if b then 1 else 0)
  as_int _ = none

  abbrev pub int_of : Text → ℕ → Json N → Option ℕ
  int_of key missing input = elim (get_key key input) [ none ↦ some missing | some j ↦ as_int j ]

  abbrev pub role_added : DatabaseResult Void × RoleStore → System → Outcome Bool × System
  role_added (failed duplicate_key, store) s = (threw already_exists, record s { store = store })
  role_added (failed e, store) s = (threw not_done, record s { store = store })
  role_added (value _, store) s = (returned true, record s { store = store })

  -- A role whose scope is not that of the platform is not stored.
  unfoldable pub create_role : Answers → Text → Members N → System → Outcome Bool × System
  create_role a now args s =
      let input = input_in args in
      elim (text_of (codes "id") [] input) [
        | none ↦ (threw wrong_type, s)
        | some id ↦ elim (text_of (codes "name") [] input) [
          | none ↦ (threw wrong_type, s)
          | some name ↦ elim (text_of (codes "description") [] input) [
            | none ↦ (threw wrong_type, s)
            | some description ↦ elim (text_of (codes "scope") [] input) [
              | none ↦ (threw wrong_type, s)
              | some scope ↦
                  if is_empty id || (is_empty name || is_empty scope)
                  then (threw missing_members, s)
                  else if scope == codes "platform"
                  then role_added
                      (create_platform_role a.change now id name description scope s.store) s
                  else (returned true, s)
            ]
          ]
        ]
      ]

  abbrev pub role_deleted : DatabaseResult Void × RoleStore → System → Outcome Bool × System
  role_deleted (failed not_found, store) s = (threw not_found_there, record s { store = store })
  role_deleted (failed access_denied, store) s = (threw built_in, record s { store = store })
  role_deleted (failed e, store) s = (threw not_done, record s { store = store })
  role_deleted (value _, store) s = (returned true, record s { store = store })

  unfoldable pub delete_role : Answers → Members N → System → Outcome Bool × System
  delete_role a args s = elim (value_or (codes "id") [] (object args)) [
    | none ↦ (threw wrong_type, s)
    | some id ↦
        if is_empty id
        then (threw no_id, s)
        else role_deleted (delete_platform_role a.check a.change id s.store) s
  ]

  abbrev pub fetched :
      Answers → Text → List OrganizationRecord → System → Outcome OrganizationRecord × System
  fetched a id rows s = elim (get_organization (access s.store.ready) a.selection id rows) [
    | failed e ↦ (threw not_fetched, with_organizations s rows)
    | value r ↦ (returned r, with_organizations s rows)
  ]

  -- `initialize_tenant` is called for an organization that is stored, and its answer not looked at.
  abbrev pub organization_added :
      Answers
      → Text
      → DatabaseResult Void × List OrganizationRecord
      → System
      → Outcome OrganizationRecord × System
  organization_added a id (failed duplicate_key, rows) s =
      (threw already_exists, with_organizations s rows)
  organization_added a id (failed e, rows) s = (threw not_done, with_organizations s rows)
  organization_added a id (value _, rows) s =
      fetched a id rows (record s { provisioned = id ∷ s.provisioned })

  unfoldable pub create_organization_resolver :
      (Text → Text) → Answers → Text → Members N → System → Outcome OrganizationRecord × System
  create_organization_resolver hash_of a now args s =
      let input = input_in args in
      elim (text_of (codes "id") [] input) [
        | none ↦ (threw wrong_type, s)
        | some id ↦ elim (text_of (codes "name") [] input) [
          | none ↦ (threw wrong_type, s)
          | some name ↦
              let org_id = if is_empty id then codes "org_" ++ hash_of name else id in
              if is_empty name
              then (threw no_name, s)
              else elim (text_of (codes "domain") [] input) [
                | none ↦ (threw wrong_type, s)
                | some domain ↦ elim (text_of (codes "subscriptionTier") (codes "free") input) [
                  | none ↦ (threw wrong_type, s)
                  | some tier ↦ elim (int_of (codes "userLimit") 10 input) [
                    | none ↦ (threw wrong_type, s)
                    | some users ↦ elim (int_of (codes "storageLimit") 1073741824 input) [
                      | none ↦ (threw wrong_type, s)
                      | some storage ↦
                          organization_added a org_id
                            (create_organization (access s.store.ready) a.change now org_id name
                              domain tier users storage s.organizations)
                            s
                    ]
                  ]
                ]
              ]
        ]
      ]

  abbrev pub organization_changed :
      Answers
      → Text
      → DatabaseResult Void × List OrganizationRecord
      → System
      → Outcome OrganizationRecord × System
  organization_changed a id (failed not_found, rows) s =
      (threw not_found_there, with_organizations s rows)
  organization_changed a id (failed version_conflict, rows) s =
      (threw modified_by_another, with_organizations s rows)
  organization_changed a id (failed e, rows) s = (threw not_done, with_organizations s rows)
  organization_changed a id (value _, rows) s = fetched a id rows s

  -- `if (j.contains(key) && !j[key].is_null()) … = j[key].get<T>()`; `none` if it throws.
  abbrev pub optional : {A : Type 0} → (Json N → Option A) → Text → Json N → Option (Option A)
  optional as_a key j = elim (get_key key j) [
    | none ↦ some none
    | some null ↦ some none
    | some v ↦ elim (as_a v) [ none ↦ none | some x ↦ some (some x) ]
  ]

  abbrev pub as_text : Json N → Option Text
  as_text (text t) = some t
  as_text _ = none

  -- The change that the input asks for; `none` if a member is of another type.
  unfoldable pub change_of : Json N → Option OrganizationChange
  change_of input = elim (optional as_text (codes "name") input) [
    | none ↦ none
    | some name ↦ elim (optional as_text (codes "status") input) [
      | none ↦ none
      | some status ↦ elim (optional as_text (codes "domain") input) [
        | none ↦ none
        | some domain ↦ elim (optional as_text (codes "subscriptionTier") input) [
          | none ↦ none
          | some tier ↦ elim (optional as_int (codes "userLimit") input) [
            | none ↦ none
            | some users ↦ elim (optional as_int (codes "storageLimit") input) [
              | none ↦ none
              | some storage ↦ some (record {
                new_name = name;
                new_status = status;
                new_domain = domain;
                new_tier = tier;
                new_user_limit = users;
                new_storage_limit = storage;
              })
            ]
          ]
        ]
      ]
    ]
  ]

  unfoldable pub update_organization_resolver :
      Answers → Text → Members N → System → Outcome OrganizationRecord × System
  update_organization_resolver a now args s = elim (value_or (codes "id") [] (object args)) [
    | none ↦ (threw wrong_type, s)
    | some id ↦ if is_empty id then (threw no_id, s) else elim (change_of (input_in args)) [
      | none ↦ (threw wrong_type, s)
      | some c ↦ elim (optional as_int (codes "expectedRevision") (object args)) [
        | none ↦ (threw wrong_type, s)
        | some expected ↦
            organization_changed a id
              (update_organization (access s.store.ready) a.check a.change now id c expected
                s.organizations)
              s
      ]
    ]
  ]

  abbrev pub organization_deleted :
      DatabaseResult Void × List OrganizationRecord → System → Outcome Bool × System
  organization_deleted (failed not_found, rows) s =
      (threw not_found_there, with_organizations s rows)
  organization_deleted (failed e, rows) s = (threw not_done, with_organizations s rows)
  organization_deleted (value _, rows) s = (returned true, with_organizations s rows)

  unfoldable pub delete_organization_resolver : Answers → Members N → System → Outcome Bool × System
  delete_organization_resolver a args s = elim (value_or (codes "id") [] (object args)) [
    | none ↦ (threw wrong_type, s)
    | some id ↦
        if is_empty id
        then (threw no_id, s)
        else organization_deleted
            (delete_organization (access s.store.ready) a.check a.change id s.organizations) s
  ]
