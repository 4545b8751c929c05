-- ===== src/Broker/Sessions.antt =====
-- Subscribing, unsubscribing and disconnecting, as changes of the map from ids to records.
use isched.Common.{
  ℕ, zero, suc, ◌<◌, ◌≤◌, ◌≡◌, refl, List, [], ◌∷◌, Option, none, some, inl, inr, arith, ◌==◌,
  nat_eq, text_eq, text_beq_iff, Text, if◌then◌else◌, Option-cases, length, get_elem?,
  get_elem?-none, get_last?, count, count-get_last?, ◌∙◌,
}
use isched.Broker.Buckets.{bucket}
use isched.Broker.Registry.{SubscriptionRecord, Registry}
use isched.Broker.Registry.Invariant.{IsIndexed}
use isched.Broker.Registry.Erasure.{erase_subscription_at-Erases}
use isched.Broker.Registry.View.{registered, registered_at, registered_position, registered-erase}
use isched.Broker.Operations.{disconnect_loop}

-- A list with no last element counts nothing.
count_of_no_last : (i : ℕ) (is : List ℕ) → get_last? is ≡ none → count i is ≡ 0
unfolding count
count_of_no_last i [] h = refl
count_of_no_last i (j ∷ is) h = absurd (last_exists j is h)
  where
    last_exists : (j : ℕ) (is : List ℕ) → ¬ (get_last? (j ∷ is) ≡ none)
    last_exists j [] h = cc
    last_exists j (k ∷ is) h = last_exists k is h

module _ {H : Type 0} where
  -- A record of the session is forgotten, and any other kept.
  abbrev pub unless_session : Text → Option (SubscriptionRecord H) → Option (SubscriptionRecord H)
  unless_session session none = none
  unless_session session (some s) = if s.session_id == session then none else some s

  -- What the last entry of a session's bucket is: a position that holds a record of the session.
  last_of_session :
      (r : Registry H) (session : Text) (index : ℕ)
      → IsIndexed r
      → get_last? (bucket session r.session_index) ≡ some index
      → (s : SubscriptionRecord H) × (get_elem? r.subscriptions index ≡ some s)
        × (s.session_id ≡ session)
        × (index < length r.subscriptions)
  last_of_session r session index v e = elim (Option-cases (get_elem? r.subscriptions index)) [
    | inl missing ↦ absurd (
        ground (
          arith,
          missing,
          v.by_session session index,
          count-get_last? index (bucket session r.session_index) e,
        ))
    | inr (s, found) ↦ (
      s,
      found,
      ground (
        arith,
        found,
        v.by_session session index,
        count-get_last? index (bucket session r.session_index) e,
        text_beq_iff s.session_id session,
      ),
      ground (arith, found, get_elem?-none r.subscriptions index),
    )
  ]

  pub emptied :
      (r : Registry H) (session : Text)
      → IsIndexed r
      → get_last? (bucket session r.session_index) ≡ none
      → (id : Text) → registered r id ≡ unless_session session (registered r id)
  emptied r session v e id = elim (Option-cases (registered r id)) [
    | inl gone ↦ rw gone refl
    | inr (s, kept) ↦
        let (i, at_i, named) = registered_position r id s v kept in
        rw kept (
          ground (
            arith,
            at_i,
            v.by_session session i,
            count_of_no_last i (bucket session r.session_index) e,
          ))
  ]

  -- One round: the record leaves, and what `unless_session` makes of the rest is as before.
  unless_session-erase :
      (session : Text) (removed : SubscriptionRecord H) (r r' : Registry H)
      → removed.session_id ≡ session
      → registered r removed.subscription_id ≡ some removed
      → (id : Text)
      → registered r' id ≡ (if removed.subscription_id == id then none else registered r id)
      → unless_session session (registered r' id) ≡ unless_session session (registered r id)
  unless_session-erase session removed r r' own known id e =
      ground
        (arith, text_beq_iff removed.subscription_id id, text_beq_iff removed.session_id session)

  -- The loop of `disconnect_session` ends, and has forgotten the session's records and no others.
  pub disconnect_loop-total :
      (fuel : ℕ) (session : Text) (r : Registry H)
      → IsIndexed r
      → length r.subscriptions < fuel
      → (r' : Registry H) × (disconnect_loop fuel session r ≡ some r')
        × IsIndexed r'
        × (length r'.subscriptions ≤ length r.subscriptions)
        × ((id : Text) → registered r' id ≡ unless_session session (registered r id))
  unfolding disconnect_loop
  disconnect_loop-total zero session r v h = absurd (omega arith)
  disconnect_loop-total (suc fuel) session r v h =
      elim (Option-cases (get_last? (bucket session r.session_index))) [
        | inl e ↦ (r, rw (e, disconnect_loop) refl, v, omega arith, emptied r session v e)
        | inr (index, e) ↦
            let (removed, found, own, inside) = last_of_session r session index v e in
            let (r1, erased, er) = erase_subscription_at-Erases r index v inside in
            let (r', done, v', fewer, forgot) =
              disconnect_loop-total fuel session r1 er.indexed (omega (arith, er.shorter)) in
            (
              r',
              rw (e, disconnect_loop) (rw erased done),
              v',
              omega (arith, fewer, er.shorter),
              λ id.
                  forgot id
                  ∙ unless_session-erase session removed r r1 own
                      (registered_at r index removed v found) id
                      (registered-erase r r1 index removed v found inside er id),
            )
      ]
