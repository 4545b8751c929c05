-- ===== src/Broker/AuthSessions.antt =====
-- The table from login sessions to WebSocket sessions, by which a revoked login is cut off.
use isched.Common.{
  ◌≡◌, ◌≢◌, refl, [], Option, none, some, inl, inr, arith, ◌==◌, text_eq, text_beq_iff, Text,
  if◌then◌else◌, Option-cases, lookup, erase, lookup-insert, lookup-erase,
}
use isched.Broker.Sessions.{unless_session}
use isched.Broker.Refinement.{IsValid, known, disconnect_session-known}
use isched.Broker.Operations.{
  Broker, AuthSessionRecord, Revoked, register_auth_session, unregister_auth_session,
  revoke_auth_session,
}

module _ {H C X : Type 0} where
  -- The WebSocket session that a login session's entry names leads back to the login session.
  abbrev pub IsLinked : Broker H C X → Type 0
  IsLinked b =
      (auth : Text) (a : AuthSessionRecord X)
      → lookup auth b.auth_sessions ≡ some a
      → lookup a.ws_session_id b.ws_to_auth ≡ some auth

  unregister-IsLinked :
      (b : Broker H C X) (ws : Text) → IsLinked b → IsLinked (unregister_auth_session b ws)
  unfolding unregister_auth_session
  unregister-IsLinked b ws linked auth a e = elim (Option-cases (lookup ws b.ws_to_auth)) [
    | inl missing ↦ ground (arith, missing, linked auth a)
    | inr (old, hit) ↦ ground (
      arith,
      hit,
      linked auth a,
      lookup-erase old auth b.auth_sessions,
      lookup-erase ws a.ws_session_id b.ws_to_auth,
      text_beq_iff old auth,
      text_beq_iff ws a.ws_session_id,
    )
  ]

  -- After the removal of a WebSocket session no login session names it.
  unregistered :
      (b : Broker H C X) (ws auth : Text) (a : AuthSessionRecord X)
      → IsLinked b
      → lookup auth (unregister_auth_session b ws).auth_sessions ≡ some a
      → a.ws_session_id ≢ ws
  unfolding unregister_auth_session
  unregistered b ws auth a linked e = elim (Option-cases (lookup ws b.ws_to_auth)) [
    | inl missing ↦ λ same. ground (arith, missing, linked auth a)
    | inr (old, hit) ↦ λ same.
        ground
          (arith, hit, linked auth a, lookup-erase old auth b.auth_sessions, text_beq_iff old auth)
  ]

  register-IsLinked :
      (b : Broker H C X) (auth ws : Text) (close : Option X)
      → IsLinked b
      → IsLinked (register_auth_session b auth ws close)
  unfolding register_auth_session
  register-IsLinked b auth ws close linked other a e =
      let b' : Broker H C X = unregister_auth_session b ws in
      ground (
        arith,
        unregister-IsLinked b ws linked other a,
        unregistered b ws other a linked,
        lookup-insert auth other (record { ws_session_id = ws; close_callback = close })
            b'.auth_sessions,
        lookup-insert ws a.ws_session_id auth b'.ws_to_auth,
        text_beq_iff auth other,
        text_beq_iff ws a.ws_session_id,
      )

  -- Registering and unregistering keep each login session's entry linked back to it.
  pub auth_sessions-IsLinked :
      (b : Broker H C X) (auth ws : Text) (close : Option X)
      → IsLinked b
      → IsLinked (register_auth_session b auth ws close) × IsLinked (unregister_auth_session b ws)
  auth_sessions-IsLinked b auth ws close linked =
      (register-IsLinked b auth ws close linked, unregister-IsLinked b ws linked)

  forget_login-IsLinked :
      (b : Broker H C X) (auth : Text) (a : AuthSessionRecord X)
      → IsLinked b
      → lookup auth b.auth_sessions ≡ some a
      → (other : Text) (o : AuthSessionRecord X)
      → lookup other (erase auth b.auth_sessions) ≡ some o
      → lookup o.ws_session_id (erase a.ws_session_id b.ws_to_auth) ≡ some other
  forget_login-IsLinked b auth a linked hit other o e = ground (
    arith,
    linked other o,
    linked auth a,
    lookup-erase auth other b.auth_sessions,
    lookup-erase a.ws_session_id o.ws_session_id b.ws_to_auth,
    text_beq_iff auth other,
    text_beq_iff a.ws_session_id o.ws_session_id,
  )

  -- Revoking a login session that is registered ends, returns its close callback, drops its entry,
  -- and forgets the subscriptions of its WebSocket session and no others.
  pub revoke_auth_session-cuts_off :
      (b : Broker H C X) (auth : Text) (a : AuthSessionRecord X)
      → IsValid b
      → lookup auth b.auth_sessions ≡ some a
      → (r : Revoked H C X) × (revoke_auth_session b auth ≡ some r)
        × (r.closed ≡ a.close_callback)
        × IsValid r.broker
        × (lookup auth r.broker.auth_sessions ≡ none)
        × ((id : Text) → known r.broker id ≡ unless_session a.ws_session_id (known b id))
  unfolding revoke_auth_session
  revoke_auth_session-cuts_off b auth a v hit =
      let b1 : Broker H C X = record b {
        auth_sessions = erase auth b.auth_sessions;
        ws_to_auth = erase a.ws_session_id b.ws_to_auth;
      } in
      let v1 : IsValid b1 = record { indexed = v.indexed; fresh = v.fresh; created = v.created } in
      let (b2, calls, done, v2, kept, forgets) = disconnect_session-known b1 a.ws_session_id v1 in
      (
        record { broker = b2; calls = calls; closed = a.close_callback },
        rw (hit, revoke_auth_session) (rw done refl),
        refl,
        v2,
        rw kept (ground (arith, lookup-erase auth auth b.auth_sessions, text_beq_iff auth auth)),
        forgets,
      )

  ws_to_auth-unregister :
      (b : Broker H C X) (ws w : Text)
      → lookup w (unregister_auth_session b ws).ws_to_auth
        ≡ (if ws == w then none else lookup w b.ws_to_auth)
  unfolding unregister_auth_session
  ws_to_auth-unregister b ws w = ground (arith, lookup-erase ws w b.ws_to_auth, text_beq_iff ws w)

  ws_to_auth-register :
      (b : Broker H C X) (auth ws : Text) (close : Option X) (w : Text)
      → lookup w (register_auth_session b auth ws close).ws_to_auth
        ≡ (if ws == w then some auth else lookup w b.ws_to_auth)
  unfolding register_auth_session
  ws_to_auth-register b auth ws close w = ground (
    arith,
    lookup-insert ws w auth (unregister_auth_session b ws).ws_to_auth,
    ws_to_auth-unregister b ws w,
  )

  -- Two WebSocket sessions share a login session. When the first one ends, the login session's entry
  -- goes, though the second is still connected: revoking the login then changes nothing and closes
  -- nothing.
  pub shared_login-untracked :
      (b : Broker H C X) (auth first second : Text) (x y : Option X)
      → first ≢ second
      → let b' =
          unregister_auth_session
            (register_auth_session (register_auth_session b auth first x) auth second y)
            first in
        (lookup auth b'.auth_sessions ≡ none)
        × (lookup second b'.ws_to_auth ≡ some auth)
        × (revoke_auth_session b' auth ≡ some (record { broker = b'; calls = []; closed = none }))
  unfolding revoke_auth_session
  shared_login-untracked b auth first second x y apart =
      let b2 : Broker H C X =
        register_auth_session (register_auth_session b auth first x) auth second y in
      let hit : lookup first b2.ws_to_auth ≡ some auth = ground (
        arith,
        ws_to_auth-register (register_auth_session b auth first x) auth second y first,
        ws_to_auth-register b auth first x first,
        text_beq_iff second first,
        text_beq_iff first first,
      ) in
      let gone : lookup auth (unregister_auth_session b2 first).auth_sessions ≡ none =
        unfold unregister_auth_session in
        (ground (arith, hit, lookup-erase auth auth b2.auth_sessions, text_beq_iff auth auth)) in
      (
        gone,
        ground (
          arith,
          ws_to_auth-unregister b2 first second,
          ws_to_auth-register (register_auth_session b auth first x) auth second y second,
          text_beq_iff first second,
          text_beq_iff second second,
        ),
        rw (gone, revoke_auth_session) refl,
      )
