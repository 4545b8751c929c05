-- ===== src/Api/Users/Tenancy.antt =====
-- backend/isched_GqlExecutor.cpp: whose users the resolvers reach, behind the gates of the executor.
use isched.Common.{
  ◌≡◌, refl, true, false, not, ◌||◌, List, [], ◌∷◌, ◌++◌, Option, none, some, Text, codes, text_eq,
  text_beq, text_beq_iff, ◌==◌, is_empty, arith, Option-cases, inl, inr, lookup-insert,
}
use isched.Gql.Json.{
  Json, Members, null, boolean, number, text, array, object, no_members, member, get_key,
  get_member,
}
use isched.Gql.Gates.{
  ResolverCtx, RoleTable, require_roles, has, has_role, platform_admin, k_org_scoped_mutations,
  as_text, is_mismatch, is_forbidden,
}
use isched.Database.Answers.{DatabaseResult, Void}
use isched.Database.Users.{UserRow}
use isched.Api.Replies.{value_or}
use isched.Api.Users.{
  Answers, Directory, org_of, read_back, deleted, create_in, update_in, delete_in,
  create_user_resolver, update_user_resolver, delete_user_resolver, users, input_of, text_of,
  optional_text, optional_bool,
}

abbrev text_or : {N : Type 0} → Text → Option (Json N) → Option Text
text_or missing none = some missing
text_or missing (some v) = elim v [ text s ↦ some s | _ ↦ none ]

own_lem :
    {N : Type 0} (tenant org : Text) (j : Option (Json N))
    → text_or tenant j ≡ some org
    → elim (as_text j) [ none ↦ false | some o ↦ not (o == tenant) ] ≡ false
    → org ≡ tenant
own_lem tenant org none h e = cc
own_lem tenant org (some (text s)) h e = ground (arith, h, e, text_beq_iff s tenant)
own_lem tenant org (some null) h e = cc
own_lem tenant org (some (boolean b)) h e = cc
own_lem tenant org (some (number n)) h e = cc
own_lem tenant org (some (array is)) h e = cc
own_lem tenant org (some (object ms)) h e = cc

module _ {N : Type 0} (parse : Text → Option (Json N)) (dump : Json N → Text) where
  read_back-other :
      (a : Answers) (org id t : Text) (answer : DatabaseResult Void) (rows : List UserRow)
      (d : Directory)
      → t == org ≡ false
      → (read_back parse dump a org id (answer, rows) d).1 t ≡ d t
  read_back-other a org id t answer rows d h = ground (arith, h)

  deleted-other :
      (org t : Text) (answer : DatabaseResult Void) (rows : List UserRow) (d : Directory)
      → t == org ≡ false
      → (deleted parse dump org (answer, rows) d).1 t ≡ d t
  deleted-other org t answer rows d h = ground (arith, h)

  -- From the organization on, a resolver changes the users of no other one.
  create_in-other :
      (hash_password hash_of : Text → Text) (a : Answers) (now org t : Text) (args : Members N)
      (d : Directory)
      → t == org ≡ false
      → (create_in parse dump hash_password hash_of a now org args d).1 t ≡ d t
  unfolding create_in
  create_in-other hash_password hash_of a now org t args d h =
      elim (Option-cases (text_of parse dump (codes "email") (input_of parse dump args))) [
        | inl e ↦ rw (e, create_in) refl
        | inr (email, e) ↦
            rw (e, create_in)
              (elim (Option-cases
                (text_of parse dump (codes "password") (input_of parse dump args))) [
                  | inl f ↦ rw (f, create_in) refl
                  | inr (password, f) ↦
                      rw (f, create_in)
                        (elim (Option-cases
                          (text_of parse dump (codes "displayName") (input_of parse dump args))) [
                            | inl g ↦ rw (g, create_in) (ground arith)
                            | inr (name, g) ↦
                                rw (g, create_in)
                                  (ground (
                                    arith,
                                    read_back-other a org (codes "usr_" ++ hash_of (org ++ email)) t
                                        _ _ d h,
                                  ))
                          ])
                ])
      ]

  update_in-other :
      (a : Answers) (org t : Text) (args : Members N) (d : Directory)
      → t == org ≡ false
      → (update_in parse dump a org args d).1 t ≡ d t
  unfolding update_in
  update_in-other a org t args d h = elim (Option-cases (value_or (codes "id") [] (object args))) [
    | inl e ↦ rw (e, update_in) refl
    | inr (id, e) ↦
        rw (e, update_in)
          (elim (Option-cases
            (optional_text parse dump (codes "displayName") (input_of parse dump args))) [
              | inl f ↦ rw (f, update_in) (ground arith)
              | inr (name, f) ↦
                  rw (f, update_in)
                    (elim (Option-cases
                      (optional_bool parse dump (codes "isActive") (input_of parse dump args))) [
                        | inl g ↦ rw (g, update_in) (ground arith)
                        | inr (active, g) ↦
                            rw (g, update_in) (ground (arith, read_back-other a org id t _ _ d h))
                      ])
            ])
  ]

  delete_in-other :
      (a : Answers) (org t : Text) (args : Members N) (d : Directory)
      → t == org ≡ false
      → (delete_in parse dump a org args d).1 t ≡ d t
  unfolding delete_in
  delete_in-other a org t args d h = elim (Option-cases (value_or (codes "id") [] (object args))) [
    | inl e ↦ rw (e, delete_in) refl
    | inr (id, e) ↦ rw (e, delete_in) (ground (arith, deleted-other org t _ _ d h))
  ]

  -- What the organization guard leaves of the organization that a resolver takes.
  org_of-own :
      {D : Type 0} (field org : Text) (args : Members N) (ctx : ResolverCtx D)
      → has k_org_scoped_mutations field ≡ true
      → is_mismatch field args ctx ≡ false
      → is_empty ctx.tenant_id || has ctx.roles platform_admin ≡ false
      → org_of parse dump ctx.tenant_id args ≡ some org
      → org ≡ ctx.tenant_id
  unfolding is_mismatch get_key
  org_of-own field org args ctx f m p h =
      own_lem ctx.tenant_id org (get_member (codes "organizationId") args) h
        (ground (arith, f, m, p))

  module _ {D : Type 0} (ctx : ResolverCtx D) (args : Members N) (t : Text)
      (inside : is_empty ctx.tenant_id || has ctx.roles platform_admin ≡ false)
      (other : t == ctx.tenant_id ≡ false) where
    not_own :
        (field org : Text)
        → has k_org_scoped_mutations field ≡ true
        → is_mismatch field args ctx ≡ false
        → org_of parse dump ctx.tenant_id args ≡ some org
        → t == org ≡ false
    not_own field org f m h = ground (arith, other, org_of-own field org args ctx f m inside h)

    -- A caller of an organization who is no platform administrator, and whom the organization guard
    -- lets through, changes the users of no other organization, whatever is asked for.
    pub user_mutations-own :
        (hash_password hash_of : Text → Text) (a : Answers) (now : Text) (d : Directory)
        → is_mismatch (codes "createUser") args ctx ≡ false
        → is_mismatch (codes "updateUser") args ctx ≡ false
        → is_mismatch (codes "deleteUser") args ctx ≡ false
        → ((create_user_resolver parse dump hash_password hash_of a now ctx.tenant_id args d).1 t
            ≡ d t)
          × ((update_user_resolver parse dump a ctx.tenant_id args d).1 t ≡ d t)
          × ((delete_user_resolver parse dump a ctx.tenant_id args d).1 t ≡ d t)
    unfolding create_user_resolver update_user_resolver delete_user_resolver k_org_scoped_mutations
        has text_beq
    user_mutations-own hash_password hash_of a now d m n o =
        elim (Option-cases (org_of parse dump ctx.tenant_id args)) [
          | inl e ↦
              rw (e, create_user_resolver, update_user_resolver, delete_user_resolver)
                (refl, refl, refl)
          | inr (org, e) ↦
              rw (e, create_user_resolver, update_user_resolver, delete_user_resolver)
                (
                  create_in-other hash_password hash_of a now org t args d
                      (not_own (codes "createUser") org refl m e),
                  update_in-other a org t args d (not_own (codes "updateUser") org refl n e),
                  delete_in-other a org t args d (not_own (codes "deleteUser") org refl o e),
                )
        ]

abbrev pub tenant_admin : Text
tenant_admin = codes "role_tenant_admin"

-- The roles that `users` asks for.
abbrev pub users_roles : List Text
users_roles = platform_admin ∷ tenant_admin ∷ []

-- The arguments that ask for an organization.
abbrev pub asks_for : {N : Type 0} → Text → Members N
asks_for org = member (codes "organizationId") (text org) no_members

-- An administrator of any organization passes both gates of `users` with the name of any other
-- organization, and gets the users that its own members get.
pub users-unscoped :
    {N D : Type 0} (parse : Text → Option (Json N)) (dump : Json N → Text) (ctx : ResolverCtx D)
    (table : RoleTable) (org : Text) (a : Answers) (d : Directory)
    → has ctx.roles tenant_admin ≡ true
    → (is_forbidden (require_roles (codes "users") users_roles table) (codes "users") ctx ≡ false)
      × (is_mismatch {N = N} (codes "users") (asks_for org) ctx ≡ false)
      × (users parse dump a ctx.tenant_id (asks_for org) d ≡ users parse dump a org no_members d)
unfolding is_forbidden require_roles is_mismatch k_org_scoped_mutations has text_beq has_role users
    get_key get_member
users-unscoped parse dump ctx table org a d h =
    (ground (arith, h, lookup-insert (codes "users") (codes "users") users_roles table), refl, refl)
