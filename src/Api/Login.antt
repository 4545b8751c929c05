-- ===== src/Api/Login.antt =====
-- backend/isched_GqlExecutor.cpp: the `login` resolver, from its arguments on, and
-- backend/isched_AuthenticationMiddleware.cpp: the `create_session` that it calls, with
-- `generate_jwt_token`. The clock is read once. The password check is a parameter, and so is what the
-- random generator, the JWT library and the JSON library answer.
use isched.Common.{
  ℕ, ◌+◌, ◌≡◌, Bool, true, not, ◌&&◌, ◌||◌, List, [], ◌∷◌, ◌++◌, Option, none, some, Text, codes,
  text_eq, if◌then◌else◌, leb, ltb, is_empty, is_some, lookup, arith, false, ◌==◌, ◌⊎◌, inl, inr,
}
use isched.Auth.RateLimits.{
  Windows, is_rate_limited, record_failed_attempt, reset_failed_attempts, get_rate_limit_reset_ms,
}
use isched.Auth.RateLimits.Lockout.{is_chronicle, locked_after, record_all, is_rate_limited-lockout}
use isched.Database.Answers.{DatabaseError, DatabaseResult, failed, value, Statement}
use isched.Database.Admins.{PlatformAdminRecord, get_platform_admin_by_email}
use isched.Database.Users.{UserRow, UserRecord, get_user_by_email}
use isched.Database.LoginSessions
use isched.Database.LoginSessions.{SessionRow}
use isched.Gql.Json.{Json}

pub data LoginError : Type 0 where
  missing_arguments not_configured account_disabled invalid_credentials : LoginError
  no_random no_jwt_secret not_signed not_dumped : LoginError
  -- With the milliseconds to wait.
  too_many_attempts : ℕ → LoginError

-- What `create_session` is called with.
pub record Account : Type 0 where
  pub user_id : Text
  pub user_name : Text
  pub stored_hash : Text
  pub roles : List Text
  pub tenant_id : Text
  pub is_active : Bool

-- The token and its end are returned; the account is the one that the token is for.
pub data LoginResult : Type 0 where
  threw : LoginError → LoginResult
  session : Account → Text → Text → LoginResult

-- What a session is made with: the random id, if there is one, the JWT library (the secret, the id and
-- the account), the JSON of the roles, the times, and SQLite's answers to the INSERT.
pub record Issuing : Type 0 where
  pub jwt_secret : Text
  pub new_id : Option Text
  pub sign : Text → Text → Account → Option Text
  pub dump : List Text → Option Text
  pub now_text : Text
  pub expires_at : Text
  pub access : Option DatabaseError
  pub insertion : Statement

-- The login sessions of each tenant.
abbrev pub SessionTables : Type 0
SessionTables = Text → List SessionRow

unfoldable pub generate_jwt_token : Issuing → Text → Account → LoginError ⊎ Text
generate_jwt_token i id a =
    if is_empty i.jwt_secret
    then inl no_jwt_secret
    else elim (i.sign i.jwt_secret id a) [ none ↦ inl not_signed | some token ↦ inr token ]

-- Whether the row is stored is only logged.
abbrev pub persist_session : Issuing → Text → Account → Text → SessionTables → SessionTables
persist_session i id a roles sessions t =
    if t == a.tenant_id
    then (LoginSessions.create_session i.access i.insertion i.now_text id a.user_id id (codes "[]")
        roles i.expires_at (codes "any") (sessions t)).1
    else sessions t

unfoldable pub create_login_session :
    Issuing → Account → SessionTables → LoginResult × SessionTables
create_login_session i a sessions = elim i.new_id [
  | none ↦ (threw no_random, sessions)
  | some id ↦ elim (generate_jwt_token i id a) [
    | inl e ↦ (threw e, sessions)
    | inr token ↦ elim (i.dump a.roles) [
      | none ↦ (threw not_dumped, sessions)
      | some roles ↦ (session a token i.expires_at, persist_session i id a roles sessions)
    ]
  ]
]

-- The attempts and the sessions.
pub record LoginState : Type 0 where
  pub windows : Windows
  pub sessions : SessionTables

-- `std::tolower` on a byte.
unfoldable pub to_lower : ℕ → ℕ
to_lower c = if leb 65 c && leb c 90 then c + 32 else c

unfoldable pub normalized : Text → Text
normalized [] = []
normalized (c ∷ s) = to_lower c ∷ normalized s

unfoldable pub lockout_identity : Text → Text → Text
lockout_identity org_id email =
    if is_empty org_id
    then codes "platform:" ++ normalized email
    else codes "org:" ++ org_id ++ codes ":" ++ normalized email

-- The lockout's configuration, and whether the middleware is there.
pub record Lockout : Type 0 where
  pub has_auth : Bool
  pub window_ms : ℕ
  pub max_attempts : ℕ

unfoldable pub fail_login_attempt : Lockout → ℕ → Text → Windows → LoginResult × Windows
fail_login_attempt config now identity windows =
    let recorded =
      record_failed_attempt now identity config.window_ms config.max_attempts windows in
    let (limited, left) = is_rate_limited now identity recorded in
    if limited
    then (threw (too_many_attempts (get_rate_limit_reset_ms now identity left)), left)
    else (threw invalid_credentials, left)

abbrev admin_account : DatabaseResult PlatformAdminRecord → DatabaseResult Account
admin_account (failed e) = failed e
admin_account (value a) = value (record {
  user_id = a.id;
  user_name = a.display_name;
  stored_hash = a.password_hash;
  roles = codes "role_platform_admin" ∷ [];
  tenant_id = codes "platform";
  is_active = a.is_active;
})

abbrev user_account : Text → DatabaseResult UserRecord → DatabaseResult Account
user_account org_id (failed e) = failed e
user_account org_id (value u) = value (record {
  user_id = u.id;
  user_name = u.display_name;
  stored_hash = u.password_hash;
  roles = u.roles;
  tenant_id = org_id;
  is_active = u.is_active;
})

-- The databases, with SQLite's answers to the one query.
pub record Accounts : Type 0 where
  pub access : Option DatabaseError
  pub selection : Statement
  pub admins : List PlatformAdminRecord
  pub users : Text → List UserRow

module _ {N : Type 0} (parse : Text → Option (Json N)) (verify_password : Text → Text → Bool) where
  unfoldable pub find_account : Accounts → Text → Text → DatabaseResult Account
  find_account db org_id email =
      if is_empty org_id
      then admin_account (get_platform_admin_by_email db.access db.selection email db.admins)
      else user_account org_id
          (get_user_by_email parse db.access db.selection email (db.users org_id))

  unfoldable pub check_account :
      Lockout
      → Issuing
      → ℕ
      → Text
      → Text
      → DatabaseResult Account
      → LoginState
      → LoginResult × LoginState
  check_account config i now identity password (failed e) s =
      let (answer, left) = fail_login_attempt config now identity s.windows in
      (answer, record s { windows = left })
  check_account config i now identity password (value a) s =
      if not a.is_active
      then (threw account_disabled, s)
      else if not (verify_password password a.stored_hash)
      then (let (answer, left) = fail_login_attempt config now identity s.windows in
          (answer, record s { windows = left }))
      else let (answer, stored) = create_login_session i a s.sessions in
        (answer, record { windows = reset_failed_attempts identity s.windows; sessions = stored })

  unfoldable pub login :
      Lockout → Issuing → Accounts → ℕ → Text → Text → Text → LoginState → LoginResult × LoginState
  login config i db now org_id email password s =
      let identity = lockout_identity org_id email in
      if is_empty email || is_empty password
      then (threw missing_arguments, s)
      else if not config.has_auth
      then (threw not_configured, s)
      else let (limited, left) = is_rate_limited now identity s.windows in
        if limited
        then (
          threw (too_many_attempts (get_rate_limit_reset_ms now identity left)),
          record s { windows = left },
        )
        else check_account config i now identity password (find_account db org_id email)
            (record s { windows = left })

abbrev pub granted : LoginResult → Option Account
granted (threw e) = none
granted (session a token expires_at) = some a

-- The account that a password opens, if it opens one.
unfoldable pub opened_account :
    (Text → Text → Bool) → Text → DatabaseResult Account → Option Account
opened_account verify_password password (failed e) = none
opened_account verify_password password (value a) =
    if a.is_active && verify_password password a.stored_hash then some a else none

-- Whether the middleware can make a session for the account.
unfoldable pub can_issue : Issuing → Account → Bool
can_issue i a = elim i.new_id [
  | none ↦ false
  | some id ↦
      not (is_empty i.jwt_secret) && is_some (i.sign i.jwt_secret id a) && is_some (i.dump a.roles)
]

abbrev pub issued : Issuing → Option Account → Option Account
issued i none = none
issued i (some a) = if can_issue i a then some a else none

fail_login_attempt-granted :
    (config : Lockout) (now : ℕ) (identity : Text) (windows : Windows)
    → granted (fail_login_attempt config now identity windows).0 ≡ none
unfolding fail_login_attempt
fail_login_attempt-granted config now identity windows = ground arith

create_login_session-granted :
    (i : Issuing) (a : Account) (sessions : SessionTables)
    → granted (create_login_session i a sessions).0 ≡ issued i (some a)
unfolding create_login_session can_issue generate_jwt_token
create_login_session-granted i a sessions = ground arith

module _ {N : Type 0} (parse : Text → Option (Json N)) (verify_password : Text → Text → Bool) where
  check_account-granted :
      (config : Lockout) (i : Issuing) (now : ℕ) (identity password : Text)
      (a : DatabaseResult Account) (s : LoginState)
      → granted (check_account parse verify_password config i now identity password a s).0
        ≡ issued i (opened_account verify_password password a)
  unfolding check_account opened_account
  check_account-granted config i now identity password (failed e) s =
      fail_login_attempt-granted config now identity s.windows
  check_account-granted config i now identity password (value a) s = ground (
    arith,
    fail_login_attempt-granted config now identity s.windows,
    create_login_session-granted i a s.sessions,
  )

  -- After failed logins at the given times, and none before, a login gets a session exactly if its email
  -- and password are not empty, the middleware is there, no lock of those failures holds any more, the
  -- account found by the email in the database of the organization is active and the password verifies,
  -- and the middleware makes a session: it has a secret, and the random generator, the JWT library and the
  -- JSON library do not fail. The session is then that account's.
  pub login-granted :
      (config : Lockout) (i : Issuing) (db : Accounts) (now : ℕ) (org_id email password : Text)
      (ts : List ℕ) (s : LoginState)
      → is_chronicle ts ≡ true
      → lookup (lockout_identity org_id email) s.windows ≡ none
      → granted
          (login parse verify_password config i db now org_id email password (record s {
            windows =
                record_all
                  (lockout_identity org_id email)
                  config.window_ms
                  config.max_attempts
                  ts
                  s.windows;
          })).0
        ≡ (if not (is_empty email || is_empty password)
              && config.has_auth
              && not (ltb now (locked_after config.window_ms config.max_attempts ts))
            then issued i (
                opened_account verify_password password
                  (find_account parse verify_password db org_id email))
            else none)
  unfolding login
  login-granted config i db now org_id email password ts s h k =
      let identity = lockout_identity org_id email in
      let failures = record_all identity config.window_ms config.max_attempts ts s.windows in
      let (limited, _) =
        is_rate_limited-lockout identity config.window_ms config.max_attempts now ts s.windows h
          k in
      ground (
        arith,
        limited,
        check_account-granted config i now identity password
            (find_account parse verify_password db org_id email)
            (record s { windows = (is_rate_limited now identity failures).1 }),
      )
