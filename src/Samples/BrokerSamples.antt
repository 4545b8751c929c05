-- ===== src/Samples/BrokerSamples.antt =====
-- Runs of the subscription broker, and its theorems at a small history.
use isched.Common.{
  ℕ, ◌≡◌, refl, true, false, ◌==◌, List, [], ◌∷◌, none, some, arith, text_eq, text_beq, Text, codes,
  to_string, lookup, insert, erase, count, map,
}
use isched.Broker.Buckets.{
  push_index, remove_from_bucket, remap_in_bucket, remove_index, remap_index,
}
use isched.Broker.Registry.{
  SubscriptionRecord, empty, add_record, erase_subscription_at, get_record_by_index,
}
use isched.Broker.Operations.{
  Broker, create, subscribe, unsubscribe, disconnect_session, publish, subscription_name,
  register_auth_session, visited, unregister_auth_session, revoke_auth_session, Revoked,
}
use isched.Broker.Sessions.{unless_session}
use isched.Broker.Refinement.{
  IsValid, known, subscribe-known, unsubscribe-known, disconnect_session-known, create-IsValid,
}
use isched.Broker.Delivery.{publish_exactly, AllKnown, subscribes_to}
use isched.Api.Logouts.{Logins, LogoutAnswers, succeeded, logout}
use isched.Api.Logouts.Cutting.{logout-cuts_off}
use isched.Database.LoginSessions.{SessionRow}
use isched.Database.LoginSessions.Revocation.{revoked_in}
use isched.Database.Tables.{first}
use isched.Broker.AuthSessions.{IsLinked, shared_login-untracked}

abbrev Sample : Type 0
Sample = Broker ℕ ℕ ℕ

abbrev start : Sample
start = create 0

abbrev one : Sample
one = (subscribe start (codes "s") (codes "t") 7).broker

abbrev two : Sample
two = (subscribe one (codes "s2") (codes "t") 8).broker

start-IsValid : IsValid start
start-IsValid = create-IsValid 0

one-IsValid : IsValid one
one-IsValid =
    (subscribe-known start (codes "s") (codes "t") 7 start-IsValid (unfold create in omega arith)).0

two-IsValid : IsValid two
two-IsValid =
    (subscribe-known one (codes "s2") (codes "t") 8 one-IsValid
      (unfold subscribe create in omega arith)).0

-- Both handlers hear the topic, the first one first.
publish_runs : publish two (codes "t") ≡ 7 ∷ 8 ∷ []
unfolding create subscribe add_record empty lookup insert text_beq to_string subscription_name
    publish visited get_record_by_index push_index
publish_runs = refl

-- The last record takes the place of the one erased, and is still found.
unsubscribe_runs : publish (unsubscribe two (codes "sub-1")).0 (codes "t") ≡ 8 ∷ []
unfolding create subscribe unsubscribe add_record empty lookup insert erase text_beq to_string
    subscription_name publish visited get_record_by_index erase_subscription_at push_index
    remove_from_bucket remap_in_bucket remove_index remap_index
unsubscribe_runs = refl

subscribe-known_example :
    known one (codes "sub-1")
    ≡ some (record {
      subscription_id = codes "sub-1";
      session_id = codes "s";
      topic = codes "t";
      handler = 7;
    })
unfolding create subscribe subscription_name to_string text_beq
subscribe-known_example =
    (subscribe-known start (codes "s") (codes "t") 7 start-IsValid (omega arith)).2 (codes "sub-1")

unsubscribe-known_example : known (unsubscribe two (codes "sub-1")).0 (codes "sub-1") ≡ none
unfolding text_beq
unsubscribe-known_example = (unsubscribe-known two (codes "sub-1") two-IsValid).1 (codes "sub-1")

disconnect_session-known_example :
    (b : Sample) × (calls : List (ℕ × ℕ)) × (disconnect_session two (codes "s") ≡ some (b, calls))
    × IsValid b
    × (b.auth_sessions ≡ two.auth_sessions)
    × ((id : Text) → known b id ≡ unless_session (codes "s") (known two id))
disconnect_session-known_example = disconnect_session-known two (codes "s") two-IsValid

publish_exactly_example :
    (ss : List (SubscriptionRecord ℕ)) × (publish two (codes "t") ≡ map (λ s. s.handler) ss)
    × AllKnown two.registry ss
    × ((id : Text)
        → count id (map (λ s. s.subscription_id) ss) ≡ subscribes_to (codes "t") (known two id))
publish_exactly_example = publish_exactly two (codes "t") two-IsValid

start-IsLinked : IsLinked start
unfolding create lookup
start-IsLinked auth a e = ground arith

abbrev logged_in : Sample
logged_in = register_auth_session two (codes "a") (codes "s") (some 1)

logged_in-IsValid : IsValid logged_in
unfolding register_auth_session unregister_auth_session create subscribe lookup
logged_in-IsValid = record {
  indexed = two-IsValid.indexed;
  fresh = two-IsValid.fresh;
  created = two-IsValid.created;
}

abbrev login_row : SessionRow
login_row = record {
  id = codes "a";
  user_id = codes "u";
  access_token_id = codes "a";
  permissions = [];
  roles = [];
  issued_at = [];
  expires_at = [];
  last_activity = [];
  transport_scope = [];
  is_revoked = false;
}

abbrev all_well : LogoutAnswers
all_well = record {
  has_database = true;
  access = none;
  change = record { prepares = true; steps = true };
}

abbrev logins : Logins ℕ ℕ ℕ
logins = record { sessions = λ tenant. login_row ∷ []; broker = some logged_in; cut_off = none }

logout-cuts_off_example :
    (s' : Logins ℕ ℕ ℕ) × (r : Revoked ℕ ℕ ℕ) × (logout all_well (codes "t") (codes "a") logins
      ≡ some (succeeded, s'))
    × (s'.broker ≡ some r.broker)
    × (s'.cut_off ≡ some r)
    × (r.closed ≡ some 1)
    × (revoked_in (codes "a") (s'.sessions (codes "t")) ≡ some true)
    × ((other : Text) → (other == codes "t") ≡ false → s'.sessions other ≡ logins.sessions other)
    × ((id : Text) → known r.broker id ≡ unless_session (codes "s") (known logged_in id))
logout-cuts_off_example =
    logout-cuts_off all_well (codes "t") (codes "a") logins logged_in
      (record { ws_session_id = codes "s"; close_callback = some 1 }) login_row logged_in-IsValid
      refl refl refl refl refl (unfold first text_beq in refl)
      (unfold register_auth_session unregister_auth_session create subscribe lookup insert
          text_beq in
        refl)

shared_login-untracked_example :
    let b =
      unregister_auth_session
        (register_auth_session
          (register_auth_session start (codes "a") (codes "w") none)
          (codes "a")
          (codes "v")
          none)
        (codes "w") in
    (lookup (codes "a") b.auth_sessions ≡ none)
    × (lookup (codes "v") b.ws_to_auth ≡ some (codes "a"))
    × (revoke_auth_session b (codes "a") ≡ some (record { broker = b; calls = []; closed = none }))
shared_login-untracked_example =
    shared_login-untracked start (codes "a") (codes "w") (codes "v") none none (λ e. ground arith)
