-- ===== src/Broker/Refinement.antt =====
-- The operations of the broker against its abstract state, the map from ids to records.
use isched.Common.{
  ℕ, suc, ◌+◌, ◌-◌, ◌%◌, ◌^◌, ◌<◌, ◌≤◌, ◌≡◌, refl, List, [], ◌∷◌, ◌++◌, Option, none, some, inl,
  inr, arith, ◌==◌, nat_eq, text_eq, text_beq_iff, Text, codes, if◌then◌else◌, Option-cases, length,
  length-append, get_elem?, get_elem?-none, get_last?, lookup, to_string-injective, to_string, ap,
  ◌∙◌,
}
use isched.Broker.Registry
use isched.Broker.Registry.{SubscriptionRecord, Registry, add_record}
use isched.Broker.Registry.Invariant.{IsIndexed, add_record-IsIndexed, empty-IsIndexed}
use isched.Broker.Registry.Erasure.{erase_subscription_at-Erases}
use isched.Broker.Registry.View.{record_at, registered, registered-erase, registered-add}
use isched.Broker.Buckets.{positions}
use isched.Broker.Sessions.{unless_session, emptied, disconnect_loop-total}
use isched.Broker.Operations.{
  Broker, subscription_name, subscribe, unsubscribe, disconnect_session, notify_count, create,
}

-- Dropping a prefix that two texts share.
append_cancel : (s t u : Text) → s ++ t ≡ s ++ u → t ≡ u
append_cancel [] t u e = e
append_cancel (c ∷ s) t u e = append_cancel s t u (ap rest e)
  where
    rest : Text → Text
    rest [] = []
    rest (c ∷ s) = s

subscription_name-injective : (m n : ℕ) → subscription_name m ≡ subscription_name n → m ≡ n
unfolding subscription_name
subscription_name-injective m n e =
    to_string-injective m n (append_cancel (codes "sub-") (to_string m) (to_string n) e)

module _ {H C X : Type 0} where
  pub record IsValid (b : Broker H C X) : Type 0 where
    pub indexed : IsIndexed b.registry
    pub fresh : (k : ℕ) → b.sub_id_counter < k → registered b.registry (subscription_name k) ≡ none
    pub created : length b.registry.subscriptions ≤ b.sub_id_counter

  abbrev pub known : Broker H C X → Text → Option (SubscriptionRecord H)
  known b = registered b.registry

  -- A broker starts valid, whatever the process's counter has reached.
  pub create-IsValid : (counter : ℕ) → IsValid (create counter)
  unfolding create
  create-IsValid counter = record {
    indexed = empty-IsIndexed;
    fresh = λ k later. unfold registered Registry.empty lookup in refl;
    created = unfold Registry.empty in omega arith;
  }

  not_indexed :
      (b : Broker H C X) (id : Text)
      → IsValid b
      → known b id ≡ none
      → lookup id b.registry.subscription_id_index ≡ none
  unfolding registered
  not_indexed b id v e = elim (Option-cases (lookup id b.registry.subscription_id_index)) [
    | inl missing ↦ missing
    | inr (i, hit) ↦ absurd (ground (arith, hit, v.indexed.by_id id i))
  ]

  add_fresh :
      (b : Broker H C X) (s : SubscriptionRecord H) (n : ℕ)
      → IsValid b
      → n ≡ b.sub_id_counter + 1
      → n < 2 ^ 64
      → s.subscription_id ≡ subscription_name n
      → IsValid (record b { sub_id_counter = n; registry = add_record b.registry s })
  add_fresh b s n v next room named = record {
    indexed =
        add_record-IsIndexed b.registry s v.indexed
          (not_indexed b s.subscription_id v (rw named (v.fresh n (omega arith)))) (omega arith);
    fresh = λ k later. ground (
      arith,
      registered-add b.registry s v.indexed (subscription_name k),
      text_beq_iff s.subscription_id (subscription_name k),
      subscription_name-injective n k,
      v.fresh k,
    );
    created = unfold add_record in omega (arith, length-append b.registry.subscriptions (s ∷ []));
  }

  -- While the counter has not reached its last value, `subscribe` keeps the broker valid, returns an
  -- id that was not in use, and stores the record under it; no other id changes.
  pub subscribe-known :
      (b : Broker H C X) (session topic : Text) (handler : H)
      → IsValid b
      → b.sub_id_counter + 1 < 2 ^ 64
      → let s = subscribe b session topic handler in
        IsValid s.broker
        × (known b s.subscription_id ≡ none)
        × ((id : Text)
            → known s.broker id ≡ (
                if s.subscription_id == id
                then some (record {
                  subscription_id = s.subscription_id;
                  session_id = session;
                  topic = topic;
                  handler = handler;
                })
                else known b id))
  unfolding subscribe
  subscribe-known b session topic handler v room = (
    add_fresh b s n v small (omega (arith, small)) refl,
    v.fresh n (omega (arith, small)),
    registered-add b.registry s v.indexed,
  )
    where
      n : ℕ
      n = (b.sub_id_counter + 1) % 2 ^ 64

      small : n ≡ b.sub_id_counter + 1
      small = omega arith

      s : SubscriptionRecord H
      s = record {
        subscription_id = subscription_name n;
        session_id = session;
        topic = topic;
        handler = handler;
      }

  -- Fewer records, and no new id, keep the broker valid.
  fewer_records :
      (b : Broker H C X) (r : Registry H)
      → IsValid b
      → IsIndexed r
      → length r.subscriptions ≤ length b.registry.subscriptions
      → ((id : Text) → known b id ≡ none → registered r id ≡ none)
      → IsValid (record b { registry = r })
  fewer_records b r v i h none_new = record {
    indexed = i;
    fresh = λ k later. none_new (subscription_name k) (v.fresh k later);
    created = omega (arith, v.created);
  }

  -- An indexed id has its record at that position.
  indexed_record :
      (b : Broker H C X) (id : Text) (index : ℕ)
      → IsValid b
      → lookup id b.registry.subscription_id_index ≡ some index
      → (s : SubscriptionRecord H) × (get_elem? b.registry.subscriptions index ≡ some s)
        × (s.subscription_id ≡ id)
        × (index < length b.registry.subscriptions)
  indexed_record b id index v hit = elim (Option-cases (get_elem? b.registry.subscriptions index)) [
    | inl missing ↦ absurd (ground (arith, hit, missing, v.indexed.by_id id index))
    | inr (s, found) ↦ (
      s,
      found,
      ground (arith, hit, found, v.indexed.by_id id index, text_beq_iff s.subscription_id id),
      ground (arith, found, get_elem?-none b.registry.subscriptions index),
    )
  ]

  -- What `unsubscribe` reports: the new count, if the id was known and a callback is set.
  pub removal_calls : Broker H C X → Option (SubscriptionRecord H) → List (C × ℕ)
  removal_calls b none = []
  removal_calls b (some _) = elim b.count_change_cb [
    | none ↦ []
    | some cb ↦ (cb, length b.registry.subscriptions - 1) ∷ []
  ]

  -- `unsubscribe` keeps the broker valid, forgets the id and no other, and reports the new count if
  -- the id was known and a callback is set.
  pub unsubscribe-known :
      (b : Broker H C X) (id : Text)
      → IsValid b
      → IsValid (unsubscribe b id).0
        × ((j : Text) → known (unsubscribe b id).0 j ≡ (if id == j then none else known b j))
        × ((unsubscribe b id).1 ≡ removal_calls b (known b id))
  unfolding unsubscribe removal_calls
  unsubscribe-known b id v = elim (Option-cases (lookup id b.registry.subscription_id_index)) [
    | inl missing ↦
        let unknown : known b id ≡ none = unfold registered in ap (record_at _) missing in
        rw (missing, unsubscribe)
          (v, λ j. ground (arith, unknown, text_beq_iff id j), rw unknown refl)
    | inr (index, hit) ↦
        let (s, found, named, inside) = indexed_record b id index v hit in
        let (r, erased, er) = erase_subscription_at-Erases b.registry index v.indexed inside in
        let stored : known b id ≡ some s = unfold registered in ap (record_at _) hit ∙ found in
        let forgets = registered-erase b.registry r index s v.indexed found inside er in
        rw (hit, unsubscribe)
          (rw erased (
            fewer_records b r v er.indexed (omega (arith, er.shorter))
                (λ j gone. ground (arith, forgets j, gone)),
            λ j. rw (← named) (forgets j),
            rw stored (ground (arith, er.shorter)),
          ))
  ]

  -- `disconnect_session` ends, keeps the broker valid and the login sessions as they were, and
  -- forgets the session's records and no others.
  pub disconnect_session-known :
      (b : Broker H C X) (session : Text)
      → IsValid b
      → (b' : Broker H C X) × (calls : List (C × ℕ)) × (disconnect_session b session
          ≡ some (b', calls))
        × IsValid b'
        × (b'.auth_sessions ≡ b.auth_sessions)
        × ((id : Text) → known b' id ≡ unless_session session (known b id))
  unfolding disconnect_session
  disconnect_session-known b session v =
      elim (Option-cases (lookup session b.registry.session_index)) [
        | inl missing ↦ (b, [], rw (missing, disconnect_session) refl, v, refl, unbucketed missing)
        | inr (is, hit) ↦
            let (r, done, indexed, fewer, forgets) =
              disconnect_loop-total (suc (length b.registry.subscriptions)) session b.registry
                v.indexed (omega arith) in
            (
              record b { registry = r },
              notify_count (record b { registry = r }),
              rw (hit, disconnect_session) (rw done refl),
              fewer_records b r v indexed fewer (λ j gone. ground (arith, forgets j, gone)),
              refl,
              forgets,
            )
      ]
    where
      unbucketed :
          lookup session b.registry.session_index ≡ none
          → (id : Text) → known b id ≡ unless_session session (known b id)
      unbucketed missing =
          emptied b.registry session v.indexed (ap (λ o. get_last? (positions o)) missing)
