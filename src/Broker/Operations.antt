-- ===== src/Broker/Operations.antt =====
-- backend/isched_SubscriptionBroker.cpp and .hpp: the broker over its registry. A handler, a
-- count-change callback and a close callback are values of types that the model leaves open; an
-- operation returns the calls that it makes of them after it has let go of the lock.
use isched.Common.{
  ℕ, zero, suc, ◌+◌, ◌%◌, ◌^◌, List, [], ◌∷◌, ◌++◌, Option, none, some, ◌==◌, nat_eq, text_eq, Text,
  codes, to_string, if◌then◌else◌, is_empty, length, get_last?, pop_back, Map, lookup, insert,
  erase, map,
}
use isched.Broker.Buckets.{bucket}
use isched.Broker.Registry.{
  SubscriptionRecord, Registry, get_record_by_index, add_record, erase_subscription_at,
}
use isched.Broker.Registry

-- `"sub-" + std::to_string(n)`.
unfoldable pub subscription_name : ℕ → Text
subscription_name n = codes "sub-" ++ to_string n

pub record AuthSessionRecord (X : Type 0) : Type 0 where
  pub ws_session_id : Text
  pub close_callback : Option X

-- `g_sub_id_counter` is the process's; the other fields are those of `Impl`.
pub record Broker (H C X : Type 0) : Type 0 where
  pub sub_id_counter : ℕ
  pub registry : Registry H
  pub auth_sessions : Map Text (AuthSessionRecord X)
  pub ws_to_auth : Map Text Text
  pub count_change_cb : Option C

pub record Subscribed (H C X : Type 0) : Type 0 where
  pub broker : Broker H C X
  pub subscription_id : Text
  pub calls : List (C × ℕ)

pub record Revoked (H C X : Type 0) : Type 0 where
  pub broker : Broker H C X
  pub calls : List (C × ℕ)
  pub closed : Option X

module _ {H : Type 0} where
  -- A position that cannot be erased is taken off the end of the session's bucket.
  abbrev pub drop_stale : Registry H → Text → Registry H
  drop_stale r session = record r {
    session_index = insert session (pop_back (bucket session r.session_index)) r.session_index;
  }

  abbrev pub erase_or_drop : Registry H → Text → Option (Registry H) → Registry H
  erase_or_drop r session none = drop_stale r session
  erase_or_drop r session (some r') = r'

  -- The `while (true)` of `disconnect_session`; `none` means that the fuel ran out.
  unfoldable pub disconnect_loop : ℕ → Text → Registry H → Option (Registry H)
  disconnect_loop zero session r = none
  disconnect_loop (suc fuel) session r = elim (get_last? (bucket session r.session_index)) [
    | none ↦ some r
    | some index ↦
        disconnect_loop fuel session (erase_or_drop r session (erase_subscription_at r index))
  ]

  -- The records that the loops over a topic's bucket visit, in the bucket's order.
  unfoldable pub visited : Registry H → List ℕ → List (SubscriptionRecord H)
  visited r [] = []
  visited r (index ∷ is) =
      let rest = visited r is in
      elim (get_record_by_index r index) [ none ↦ rest | some s ↦ s ∷ rest ]

  unfoldable pub count_topic : Text → List (SubscriptionRecord H) → ℕ
  count_topic topic [] = 0
  count_topic topic (s ∷ ss) = (if s.topic == topic then 1 else 0) + count_topic topic ss

module _ {H C X : Type 0} where
  unfoldable pub create : ℕ → Broker H C X
  create counter = record {
    sub_id_counter = counter;
    registry = Registry.empty;
    auth_sessions = [];
    ws_to_auth = [];
    count_change_cb = none;
  }

  -- `if (cb) cb(new_count)`.
  abbrev pub notify_count : Broker H C X → List (C × ℕ)
  notify_count b = elim b.count_change_cb [
    | none ↦ []
    | some cb ↦ (cb, length b.registry.subscriptions) ∷ []
  ]

  unfoldable pub subscribe : Broker H C X → Text → Text → H → Subscribed H C X
  subscribe b session topic handler =
      let counter = (b.sub_id_counter + 1) % 2 ^ 64 in
      let id = subscription_name counter in
      let s : SubscriptionRecord H = record {
        subscription_id = id;
        session_id = session;
        topic = topic;
        handler = handler;
      } in
      let b' : Broker H C X = record b {
        sub_id_counter = counter;
        registry = add_record b.registry s;
      } in
      record { broker = b'; subscription_id = id; calls = notify_count b' }

  unfoldable pub unsubscribe : Broker H C X → Text → Broker H C X × List (C × ℕ)
  unsubscribe b id = elim (lookup id b.registry.subscription_id_index) [
    | none ↦ (b, [])
    | some index ↦ elim (erase_subscription_at b.registry index) [
      | none ↦ (b, [])
      | some r ↦ let b' : Broker H C X = record b { registry = r } in (b', notify_count b')
    ]
  ]

  -- Each round erases a record, so one round more than there are records is enough.
  unfoldable pub disconnect_session : Broker H C X → Text → Option (Broker H C X × List (C × ℕ))
  disconnect_session b session = elim (lookup session b.registry.session_index) [
    | none ↦ some (b, [])
    | some _ ↦ elim (disconnect_loop (suc (length b.registry.subscriptions)) session b.registry) [
      | none ↦ none
      | some r ↦ let b' : Broker H C X = record b { registry = r } in some (b', notify_count b')
    ]
  ]

  -- The handlers that `publish` calls, in order. Each is called whatever the ones before it threw.
  unfoldable pub publish : Broker H C X → Text → List H
  publish b topic = elim (lookup topic b.registry.topic_index) [
    | none ↦ []
    | some is ↦ map (λ s. s.handler) (visited b.registry is)
  ]

  unfoldable pub get_subscriber_count : Broker H C X → Text → ℕ
  get_subscriber_count b topic =
      if is_empty topic
      then length b.registry.subscriptions
      else elim (lookup topic b.registry.topic_index) [
        | none ↦ 0
        | some is ↦ count_topic topic (visited b.registry is)
      ]

  unfoldable pub set_subscription_count_callback : Broker H C X → Option C → Broker H C X
  set_subscription_count_callback b cb = record b { count_change_cb = cb }

  -- The removal of an earlier registration for the same WebSocket session.
  unfoldable pub unregister_auth_session : Broker H C X → Text → Broker H C X
  unregister_auth_session b ws = elim (lookup ws b.ws_to_auth) [
    | none ↦ b
    | some auth ↦ record b {
      auth_sessions = erase auth b.auth_sessions;
      ws_to_auth = erase ws b.ws_to_auth;
    }
  ]

  unfoldable pub register_auth_session : Broker H C X → Text → Text → Option X → Broker H C X
  register_auth_session b auth ws close =
      let b' = unregister_auth_session b ws in
      let entry : AuthSessionRecord X = record { ws_session_id = ws; close_callback = close } in
      record b' {
        auth_sessions = insert auth entry b'.auth_sessions;
        ws_to_auth = insert ws auth b'.ws_to_auth;
      }

  unfoldable pub revoke_auth_session : Broker H C X → Text → Option (Revoked H C X)
  revoke_auth_session b auth = elim (lookup auth b.auth_sessions) [
    | none ↦ some (record { broker = b; calls = []; closed = none })
    | some a ↦
        let b' : Broker H C X = record b {
          auth_sessions = erase auth b.auth_sessions;
          ws_to_auth = erase a.ws_session_id b.ws_to_auth;
        } in
        elim (disconnect_session b' a.ws_session_id) [
          | none ↦ none
          | some (b'', calls) ↦
              some (record { broker = b''; calls = calls; closed = a.close_callback })
        ]
  ]
