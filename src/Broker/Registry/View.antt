-- ===== src/Broker/Registry/View.antt =====
-- The registry seen as a map from subscription ids to records: what it holds whatever the order
-- of its vector, and what each change does to it.
use isched.Common.{
  ℕ, ◌-◌, ◌<◌, ◌≡◌, ◌≢◌, refl, List, [], ◌∷◌, Option, none, some, inl, inr, arith, ◌==◌, nat_eq,
  text_eq, text_beq_iff, Text, if◌then◌else◌, Option-cases, length, get_elem?, get_elem?-none,
  get_elem?-append, lookup, lookup-insert, ap, ◌∙◌, sym, subst, ◌++◌,
}
use isched.Broker.Registry.{SubscriptionRecord, Registry, get_record_by_index, add_record}
use isched.Broker.Registry.Invariant.{IsIndexed}
use isched.Broker.Registry.Erasure.{Erases}

module _ {H : Type 0} where
  abbrev pub record_at : List (SubscriptionRecord H) → Option ℕ → Option (SubscriptionRecord H)
  record_at ss none = none
  record_at ss (some i) = get_elem? ss i

  unfoldable pub registered : Registry H → Text → Option (SubscriptionRecord H)
  registered r id = record_at r.subscriptions (lookup id r.subscription_id_index)

  -- The bounds test of `getRecordByIndex` is that of the vector.
  pub get_record_by_index-get_elem? :
      (r : Registry H) (i : ℕ) → IsIndexed r → get_record_by_index r i ≡ get_elem? r.subscriptions i
  unfolding get_record_by_index
  get_record_by_index-get_elem? r i v = ground (arith, v.bounded, get_elem?-none r.subscriptions i)

  pub lookup_at :
      (r : Registry H) (i : ℕ) (s : SubscriptionRecord H)
      → IsIndexed r
      → get_elem? r.subscriptions i ≡ some s
      → lookup s.subscription_id r.subscription_id_index ≡ some i
  lookup_at r i s v e =
      ground (arith, v.by_id s.subscription_id i, text_beq_iff s.subscription_id s.subscription_id)

  pub registered_at :
      (r : Registry H) (i : ℕ) (s : SubscriptionRecord H)
      → IsIndexed r
      → get_elem? r.subscriptions i ≡ some s
      → registered r s.subscription_id ≡ some s
  unfolding registered
  registered_at r i s v e = ap (record_at r.subscriptions) (lookup_at r i s v e) ∙ e

  pub registered_position :
      (r : Registry H) (id : Text) (s : SubscriptionRecord H)
      → IsIndexed r
      → registered r id ≡ some s
      → (i : ℕ) × (get_elem? r.subscriptions i ≡ some s) × (s.subscription_id ≡ id)
  unfolding registered
  registered_position r id s v e = elim (Option-cases (lookup id r.subscription_id_index)) [
    | inl missing ↦ absurd (ground arith)
    | inr (i, hit) ↦
        (i, ground arith, ground (arith, v.by_id id i, text_beq_iff s.subscription_id id))
  ]

  -- A position holds the record of an id exactly if the id leads there.
  pub position_unique :
      (r : Registry H) (i j : ℕ) (s t : SubscriptionRecord H)
      → IsIndexed r
      → get_elem? r.subscriptions i ≡ some s
      → get_elem? r.subscriptions j ≡ some t
      → s.subscription_id ≡ t.subscription_id
      → i ≡ j
  position_unique r i j s t v e e' same = ground (arith, lookup_at r i s v e, lookup_at r j t v e')

  module _ (r r' : Registry H) (index : ℕ) (removed : SubscriptionRecord H) (v : IsIndexed r)
      (found : get_elem? r.subscriptions index ≡ some removed) (h : index < length r.subscriptions)
      (er : Erases r index r') where
    survives :
        (id : Text) (s : SubscriptionRecord H)
        → registered r id ≡ some s
        → removed.subscription_id ≢ id
        → registered r' id ≡ some s
    survives id s e other =
        let (i, at_i, named) = registered_position r id s v e in
        let last : ℕ = length r.subscriptions - 1 in
        let j : ℕ = if i == last then index else i in
        subst (λ k. registered r' k ≡ some s) named
          (registered_at r' j s er.indexed
            (ground (arith, er.slots j, er.slots i, get_elem?-none r.subscriptions i)))

    origin :
        (id : Text) (s : SubscriptionRecord H)
        → registered r' id ≡ some s
        → (registered r id ≡ some s) × (removed.subscription_id ≢ id)
    origin id s e =
        let (j, at_j, named) = registered_position r' id s er.indexed e in
        let last : ℕ = length r.subscriptions - 1 in
        let i : ℕ = if j == index then last else j in
        let at_i : get_elem? r.subscriptions i ≡ some s = ground (arith, er.slots j) in
        (
          subst (λ k. registered r k ≡ some s) named (registered_at r i s v at_i),
          λ same. ground (
            arith,
            position_unique r index i removed s v found at_i (same ∙ sym named),
            er.slots j,
          ),
        )

    -- Erasing a position forgets its id, and no other.
    pub registered-erase :
        (id : Text)
        → registered r' id ≡ (if removed.subscription_id == id then none else registered r id)
    registered-erase id = elim (Option-cases (registered r' id)) [
      | inl gone ↦ elim (Option-cases (registered r id)) [
        | inl e ↦ ground (arith, gone, e)
        | inr (s, e) ↦
            ground (arith, gone, e, survives id s e, text_beq_iff removed.subscription_id id)
      ]
      | inr (s, kept) ↦
          ground (arith, kept, origin id s kept, text_beq_iff removed.subscription_id id)
    ]

  at_end :
      (r : Registry H) (s : SubscriptionRecord H)
      → get_elem? (r.subscriptions ++ s ∷ []) (length r.subscriptions) ≡ some s
  at_end r s = ground (arith, get_elem?-append r.subscriptions s (length r.subscriptions))

  kept_below :
      (r : Registry H) (s : SubscriptionRecord H) (id : Text)
      → IsIndexed r
      → record_at (r.subscriptions ++ s ∷ []) (lookup id r.subscription_id_index)
        ≡ record_at r.subscriptions (lookup id r.subscription_id_index)
  kept_below r s id v = elim (Option-cases (lookup id r.subscription_id_index)) [
    | inl missing ↦ rw missing refl
    | inr (i, hit) ↦ rw hit (
        ground (
          arith,
          v.by_id id i,
          get_elem?-append r.subscriptions s i,
          get_elem?-none r.subscriptions i,
        ))
  ]

  -- A record is added under its own id, and no other id changes.
  pub registered-add :
      (r : Registry H) (s : SubscriptionRecord H)
      → IsIndexed r
      → (id : Text)
      → registered (add_record r s) id
        ≡ (if s.subscription_id == id then some s else registered r id)
  unfolding registered add_record
  registered-add r s v id = ground (
    arith,
    lookup-insert s.subscription_id id (length r.subscriptions) r.subscription_id_index,
    at_end r s,
    kept_below r s id v,
  )
