-- ===== src/Api/Logouts.antt =====
-- backend/isched_GqlExecutor.cpp: the resolvers `logout`, `revokeSession`, `revokeAllSessions` and
-- `terminateAllSessions`, on the login sessions of each organization and the broker, if there is one.
pub mod Cutting
use isched.Common.{
  Bool, true, false, List, [], Option, none, some, Text, codes, text_eq, ◌==◌, if◌then◌else◌,
  is_empty,
}
use isched.Gql.Json.{Members, object}
use isched.Database.Answers.{
  DatabaseError, DatabaseResult, failed, value, Void, Statement, not_found,
}
use isched.Database.LoginSessions.{
  SessionRow, revoke_session, revoke_all_sessions_for_user, revoke_all_sessions_for_org,
}
use isched.Broker.Operations.{Broker, Revoked, revoke_auth_session}
use isched.Api.Replies.{value_or}

pub data LogoutError : Type 0 where
  no_session_id no_user_id no_organization_id no_database no_session not_revoked wrong_type :
      LogoutError

-- The resolvers that succeed return true.
pub data LogoutReply : Type 0 where
  refused : LogoutError → LogoutReply
  succeeded : LogoutReply

-- The sessions of each organization, and what the broker did if it was called.
pub record Logins (H C X : Type 0) : Type 0 where
  pub sessions : Text → List SessionRow
  pub broker : Option (Broker H C X)
  pub cut_off : Option (Revoked H C X)

-- How SQLite answers, and whether the context still has a database.
pub record LogoutAnswers : Type 0 where
  pub has_database : Bool
  pub access : Option DatabaseError
  pub change : Statement

module _ {H C X : Type 0} where
  abbrev pub put_sessions : Text → List SessionRow → Logins H C X → Logins H C X
  put_sessions org rows s = record s { sessions = λ t. if t == org then rows else s.sessions t }

  -- `none` if the broker's loop does not end.
  abbrev pub signal : Text → Logins H C X → Option (LogoutReply × Logins H C X)
  signal auth s = elim s.broker [
    | none ↦ some (succeeded, s)
    | some b ↦ elim (revoke_auth_session b auth) [
      | none ↦ none
      | some r ↦ some (succeeded, record s { broker = some r.broker; cut_off = some r })
    ]
  ]

  -- What the database answers is not looked at.
  unfoldable pub logout :
      LogoutAnswers → Text → Text → Logins H C X → Option (LogoutReply × Logins H C X)
  logout a tenant session s =
      if is_empty session
      then some (succeeded, s)
      else if a.has_database
      then signal session
          (put_sessions tenant (revoke_session a.access a.change session (s.sessions tenant)).1 s)
      else some (refused no_database, s)

  abbrev pub after_revoke :
      Text
      → Text
      → DatabaseResult Void × List SessionRow
      → Logins H C X
      → Option (LogoutReply × Logins H C X)
  after_revoke tenant id (failed not_found, rows) s =
      some (refused no_session, put_sessions tenant rows s)
  after_revoke tenant id (failed e, rows) s = some (refused not_revoked, put_sessions tenant rows s)
  after_revoke tenant id (value _, rows) s = signal id (put_sessions tenant rows s)

  unfoldable pub revoke_one :
      {N : Type 0}
      → LogoutAnswers
      → Text
      → Members N
      → Logins H C X
      → Option (LogoutReply × Logins H C X)
  revoke_one a tenant args s = elim (value_or (codes "sessionId") [] (object args)) [
    | none ↦ some (refused wrong_type, s)
    | some id ↦
        if is_empty id
        then some (refused no_session_id, s)
        else if a.has_database
        then after_revoke tenant id (revoke_session a.access a.change id (s.sessions tenant)) s
        else some (refused no_database, s)
  ]

  unfoldable pub revoke_all :
      {N : Type 0} → LogoutAnswers → Text → Members N → Logins H C X → LogoutReply × Logins H C X
  revoke_all a tenant args s = elim (value_or (codes "userId") [] (object args)) [
    | none ↦ (refused wrong_type, s)
    | some user ↦
        if is_empty user
        then (refused no_user_id, s)
        else if a.has_database
        then (
          succeeded,
          put_sessions tenant
              (revoke_all_sessions_for_user a.access a.change user (s.sessions tenant)).1 s,
        )
        else (refused no_database, s)
  ]

  unfoldable pub terminate_all :
      {N : Type 0} → LogoutAnswers → Members N → Logins H C X → LogoutReply × Logins H C X
  terminate_all a args s = elim (value_or (codes "organizationId") [] (object args)) [
    | none ↦ (refused wrong_type, s)
    | some org ↦
        if is_empty org
        then (refused no_organization_id, s)
        else if a.has_database
        then (
          succeeded,
          put_sessions org
              (revoke_all_sessions_for_org a.access a.change (codes "platform_admin")
                (s.sessions org)).1
              s,
        )
        else (refused no_database, s)
  ]
