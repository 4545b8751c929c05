-- ===== src/Api/Logouts/Cutting.antt =====
-- backend/isched_GqlExecutor.cpp: the resolver `logout`, through the database and the broker.
use isched.Common.{
  ◌≡◌, refl, true, false, [], none, some, Text, text_eq, text_beq_iff, ◌==◌, lookup, is_empty,
  arith,
}
use isched.Database.Statements.{runs}
use isched.Database.Tables.{first}
use isched.Database.LoginSessions.{SessionRow, has_id, revoke_session}
use isched.Database.LoginSessions.Revocation.{revoked_in, revocations-exact}
use isched.Broker.Operations.{Broker, AuthSessionRecord, Revoked}
use isched.Broker.Refinement.{IsValid, known}
use isched.Broker.Sessions.{unless_session}
use isched.Broker.AuthSessions.{revoke_auth_session-cuts_off}
use isched.Api.Logouts.{Logins, LogoutAnswers, succeeded, logout, put_sessions}

module _ {H C X : Type 0} where
  -- A logout of a stored session with an open WebSocket, if the database runs the statement, ends and
  -- returns true; then the session is revoked in its tenant's database, that of any other tenant is as
  -- it was, the close callback is handed out, and the broker has forgotten the subscriptions of the
  -- WebSocket session and no others.
  pub logout-cuts_off :
      (a : LogoutAnswers) (tenant session : Text) (s : Logins H C X) (b : Broker H C X)
      (w : AuthSessionRecord X) (row : SessionRow)
      → IsValid b
      → s.broker ≡ some b
      → is_empty session ≡ false
      → a.has_database ≡ true
      → a.access ≡ none
      → runs a.change ≡ true
      → first (has_id session) (s.sessions tenant) ≡ some row
      → lookup session b.auth_sessions ≡ some w
      → (s' : Logins H C X) × (r : Revoked H C X) × (logout a tenant session s
          ≡ some (succeeded, s'))
        × (s'.broker ≡ some r.broker)
        × (s'.cut_off ≡ some r)
        × (r.closed ≡ w.close_callback)
        × (revoked_in session (s'.sessions tenant) ≡ some true)
        × ((other : Text) → (other == tenant) ≡ false → s'.sessions other ≡ s.sessions other)
        × ((id : Text) → known r.broker id ≡ unless_session w.ws_session_id (known b id))
  unfolding logout
  logout-cuts_off a tenant session s b w row v at_broker named has reached well stored held =
      let (r, done, closed, v', gone, forgets) = revoke_auth_session-cuts_off b session w v held in
      let rows = (revoke_session a.access a.change session (s.sessions tenant)).1 in
      (
        record (put_sessions tenant rows s) { broker = some r.broker; cut_off = some r },
        r,
        ground (arith, named, has, at_broker, done),
        refl,
        refl,
        closed,
        rw reached (
            ground (
              arith,
              text_beq_iff tenant tenant,
              text_beq_iff session session,
              (revocations-exact a.change session [] [] session (s.sessions tenant) row well
                  stored).0,
            )),
        λ other differs. rw differs refl,
        forgets,
      )
