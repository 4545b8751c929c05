-- ===== src/Api/Users.antt =====
-- backend/isched_GqlExecutor.cpp: the resolvers `user`, `users`, `createUser`, `updateUser` and `deleteUser`,
-- each in the database of the organization that it takes for its own. The hash of a password, that of the
-- texts of which an id is made, and the JSON library are parameters.
pub mod Tenancy
use isched.Common.{
  ℕ, ◌≡◌, Bool, true, false, not, ◌&&◌, ◌||◌, List, [], ◌∷◌, ◌++◌, Option, none, some, Text, codes,
  text_eq, ◌==◌, if◌then◌else◌, ltb, length, is_empty,
}
use isched.Gql.Json.{
  Json, Jsons, Members, null, boolean, number, text, array, object, no_items, no_members, get_key,
}
use isched.Database.Answers.{
  DatabaseError, DatabaseResult, failed, value, Void, Statement, Listing, not_found, duplicate_key,
}
use isched.Database.Users.{
  UserRow, UserRecord, UserChange, create_user, update_user, delete_user, get_user_by_id,
  list_users,
}
use isched.Api.Replies.{value_or, is_object}

pub data UserError : Type 0 where
  no_id no_credentials short_password already_exists not_there not_done not_fetched : UserError
  -- The exception of the JSON library.
  wrong_type : UserError

pub data Outcome (A : Type 0) : Type 0 where
  threw : UserError → Outcome A
  returned : A → Outcome A

-- The users of each organization.
abbrev pub Directory : Type 0
Directory = Text → List UserRow

abbrev pub put : Text → List UserRow → Directory → Directory
put org rows d t = if t == org then rows else d t

-- How SQLite answers.
pub record Answers : Type 0 where
  pub access : Option DatabaseError
  pub insertion : Statement
  pub check : Statement
  pub change : Statement
  pub selection : Statement
  pub listing : Listing

module _ {N : Type 0} (parse : Text → Option (Json N)) (dump : Json N → Text) where
  -- `args.value("organizationId", ctx.tenant_id)`.
  abbrev pub org_of : Text → Members N → Option Text
  org_of tenant args = value_or (codes "organizationId") tenant (object args)

  abbrev pub input_of : Members N → Json N
  input_of args = elim (get_key (codes "input") (object args)) [
    | none ↦ object no_members
    | some j ↦ j
  ]

  -- `input.value(key, "")`, which throws on what is no object.
  abbrev pub text_of : Text → Json N → Option Text
  text_of key input = if is_object input then value_or key [] input else none

  -- A user, or JSON's null.
  abbrev fetched : DatabaseResult UserRecord → Outcome (Option UserRecord)
  fetched (value r) = returned (some r)
  fetched (failed not_found) = returned none
  fetched (failed e) = threw not_done

  unfoldable pub user : Answers → Text → Members N → Directory → Outcome (Option UserRecord)
  user a tenant args d = elim (org_of tenant args) [
    | none ↦ threw wrong_type
    | some org ↦ elim (value_or (codes "id") [] (object args)) [
      | none ↦ threw wrong_type
      | some id ↦
          if is_empty id
          then threw no_id
          else fetched (get_user_by_id parse a.access a.selection id (d org))
    ]
  ]

  unfoldable pub users : Answers → Text → Members N → Directory → Outcome (List UserRecord)
  users a tenant args d = elim (org_of tenant args) [
    | none ↦ threw wrong_type
    | some org ↦ elim (list_users parse a.access a.listing (d org)) [
      | failed e ↦ threw not_done
      | value rs ↦ returned rs
    ]
  ]

  -- From the change of the database on: the record is read back.
  abbrev pub read_back :
      Answers
      → Text
      → Text
      → DatabaseResult Void × List UserRow
      → Directory
      → Outcome UserRecord × Directory
  read_back a org id (failed duplicate_key, rows) d = (threw already_exists, put org rows d)
  read_back a org id (failed not_found, rows) d = (threw not_there, put org rows d)
  read_back a org id (failed e, rows) d = (threw not_done, put org rows d)
  read_back a org id (value _, rows) d = elim (get_user_by_id parse a.access a.selection id rows) [
    | failed e ↦ (threw not_fetched, put org rows d)
    | value r ↦ (returned r, put org rows d)
  ]

  abbrev pub roles_of : Json N → Text
  roles_of input = elim (get_key (codes "roles") input) [
    | none ↦ dump (array no_items)
    | some j ↦ elim j [ array js ↦ dump (array js) | _ ↦ dump (array no_items) ]
  ]

  -- From the organization on.
  unfoldable pub create_in :
      (Text → Text)
      → (Text → Text)
      → Answers
      → Text
      → Text
      → Members N
      → Directory
      → Outcome UserRecord × Directory
  create_in hash_password hash_of a now org args d =
      elim (text_of (codes "email") (input_of args)) [
        | none ↦ (threw wrong_type, d)
        | some email ↦ elim (text_of (codes "password") (input_of args)) [
          | none ↦ (threw wrong_type, d)
          | some password ↦
              if is_empty email || is_empty password
              then (threw no_credentials, d)
              else if ltb (length password) 12
              then (threw short_password, d)
              else elim (text_of (codes "displayName") (input_of args)) [
                | none ↦ (threw wrong_type, d)
                | some name ↦
                    read_back a org (codes "usr_" ++ hash_of (org ++ email))
                      (create_user a.access a.insertion now (codes "usr_" ++ hash_of (org ++ email))
                        email (hash_password password) name (roles_of (input_of args)) (d org))
                      d
              ]
        ]
      ]

  unfoldable pub create_user_resolver :
      (Text → Text)
      → (Text → Text)
      → Answers
      → Text
      → Text
      → Members N
      → Directory
      → Outcome UserRecord × Directory
  create_user_resolver hash_password hash_of a now tenant args d = elim (org_of tenant args) [
    | none ↦ (threw wrong_type, d)
    | some org ↦ create_in hash_password hash_of a now org args d
  ]

  -- `if (j.contains(key) && !j[key].is_null()) … = j[key].get<std::string>()`; `none` if it throws.
  abbrev pub optional_text : Text → Json N → Option (Option Text)
  optional_text key j = elim (get_key key j) [
    | none ↦ some none
    | some v ↦ elim v [ null ↦ some none | text s ↦ some (some s) | _ ↦ none ]
  ]

  abbrev pub optional_bool : Text → Json N → Option (Option Bool)
  optional_bool key j = elim (get_key key j) [
    | none ↦ some none
    | some v ↦ elim v [ null ↦ some none | boolean b ↦ some (some b) | _ ↦ none ]
  ]

  abbrev pub optional_roles : Json N → Option Text
  optional_roles input = elim (get_key (codes "roles") input) [
    | none ↦ none
    | some j ↦ elim j [ array js ↦ some (dump (array js)) | _ ↦ none ]
  ]

  unfoldable pub update_in : Answers → Text → Members N → Directory → Outcome UserRecord × Directory
  update_in a org args d = elim (value_or (codes "id") [] (object args)) [
    | none ↦ (threw wrong_type, d)
    | some id ↦
        if is_empty id
        then (threw no_id, d)
        else elim (optional_text (codes "displayName") (input_of args)) [
          | none ↦ (threw wrong_type, d)
          | some name ↦ elim (optional_bool (codes "isActive") (input_of args)) [
            | none ↦ (threw wrong_type, d)
            | some active ↦
                read_back a org id
                  (update_user a.access a.check a.change id
                    (record {
                      new_display_name = name;
                      new_roles = optional_roles (input_of args);
                      new_is_active = active;
                    })
                    (d org))
                  d
          ]
        ]
  ]

  unfoldable pub update_user_resolver :
      Answers → Text → Members N → Directory → Outcome UserRecord × Directory
  update_user_resolver a tenant args d = elim (org_of tenant args) [
    | none ↦ (threw wrong_type, d)
    | some org ↦ update_in a org args d
  ]

  abbrev pub deleted :
      Text → DatabaseResult Void × List UserRow → Directory → Outcome Bool × Directory
  deleted org (failed not_found, rows) d = (threw not_there, put org rows d)
  deleted org (failed e, rows) d = (threw not_done, put org rows d)
  deleted org (value _, rows) d = (returned true, put org rows d)

  unfoldable pub delete_in : Answers → Text → Members N → Directory → Outcome Bool × Directory
  delete_in a org args d = elim (value_or (codes "id") [] (object args)) [
    | none ↦ (threw wrong_type, d)
    | some id ↦
        if is_empty id
        then (threw no_id, d)
        else deleted org (delete_user a.access a.check a.change id (d org)) d
  ]

  unfoldable pub delete_user_resolver :
      Answers → Text → Members N → Directory → Outcome Bool × Directory
  delete_user_resolver a tenant args d = elim (org_of tenant args) [
    | none ↦ (threw wrong_type, d)
    | some org ↦ delete_in a org args d
  ]
