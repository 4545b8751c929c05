-- ===== src/Broker/Registry/Invariant.antt =====
-- What the three indices say of the vector, and that a new record keeps it.
use isched.Common.{
  ℕ, ◌<◌, ◌≤◌, ◌≡◌, refl, List, [], ◌∷◌, ◌++◌, Option, none, some, arith, ◌==◌, nat_eq, text_eq,
  text_beq_iff, Text, if◌then◌else◌, length, length-append, get_elem?, get_elem?-none,
  get_elem?-append, Map, lookup, lookup-insert, count,
}
use isched.Broker.Buckets.{Buckets, bucket, push_index}
use isched.Broker.Buckets.Laws.{count-push_index}
use isched.Broker.Registry.{
  SubscriptionRecord, Registry, invalid_subscription_index, empty, add_record,
}

-- Whether the key at a position is `k`, as a number.
abbrev pub keyed : Option Text → Text → ℕ
keyed none k = 0
keyed (some j) k = if j == k then 1 else 0

abbrev pub points : Option ℕ → ℕ → ℕ
points none i = 0
points (some j) i = if j == i then 1 else 0

-- A position stands in the bucket of its record's key once, and in no other.
abbrev pub IsBucketed : (ℕ → Option Text) → Buckets → Type 0
IsBucketed f m = (k : Text) (i : ℕ) → count i (bucket k m) ≡ keyed (f i) k

-- An id leads to the position of the record that has it, and an id of no record leads nowhere.
abbrev pub IsIdIndexed : (ℕ → Option Text) → Map Text ℕ → Type 0
IsIdIndexed f m = (k : Text) (i : ℕ) → points (lookup k m) i ≡ keyed (f i) k

module _ {H : Type 0} where
  abbrev pub key_of : (SubscriptionRecord H → Text) → Option (SubscriptionRecord H) → Option Text
  key_of g none = none
  key_of g (some s) = some (g s)

  abbrev pub key_at : (SubscriptionRecord H → Text) → List (SubscriptionRecord H) → ℕ → Option Text
  key_at g ss i = key_of g (get_elem? ss i)

  abbrev pub ids : Registry H → ℕ → Option Text
  ids r = key_at (λ s. s.subscription_id) r.subscriptions

  abbrev pub sessions : Registry H → ℕ → Option Text
  sessions r = key_at (λ s. s.session_id) r.subscriptions

  abbrev pub topics : Registry H → ℕ → Option Text
  topics r = key_at (λ s. s.topic) r.subscriptions

  pub record IsIndexed (r : Registry H) : Type 0 where
    pub by_id : IsIdIndexed (ids r) r.subscription_id_index
    pub by_session : IsBucketed (sessions r) r.session_index
    pub by_topic : IsBucketed (topics r) r.topic_index
    pub bounded : length r.subscriptions ≤ invalid_subscription_index

  pub empty-IsIndexed : IsIndexed (empty {H = H})
  unfolding empty lookup count
  empty-IsIndexed = record {
    by_id = λ k i. refl;
    by_session = λ k i. refl;
    by_topic = λ k i. refl;
    bounded = omega arith;
  }

  key_at-append :
      (g : SubscriptionRecord H → Text) (ss : List (SubscriptionRecord H))
      (s : SubscriptionRecord H) (i : ℕ)
      → key_at g (ss ++ s ∷ []) i ≡ (if i == length ss then some (g s) else key_at g ss i)
  key_at-append g ss s i = ground (arith, get_elem?-append ss s i)

  push_index-IsBucketed :
      (g : SubscriptionRecord H → Text) (ss : List (SubscriptionRecord H))
      (s : SubscriptionRecord H) (m : Buckets)
      → IsBucketed (key_at g ss) m
      → IsBucketed (key_at g (ss ++ s ∷ [])) (push_index (g s) (length ss) m)
  push_index-IsBucketed g ss s m h k i = ground (
    arith,
    h k i,
    count-push_index (g s) k (length ss) i m,
    key_at-append g ss s i,
    get_elem?-none ss i,
    text_beq_iff (g s) k,
  )

  -- A record under an id that is not yet taken keeps the indices exact.
  pub add_record-IsIndexed :
      (r : Registry H) (s : SubscriptionRecord H)
      → IsIndexed r
      → lookup s.subscription_id r.subscription_id_index ≡ none
      → length r.subscriptions < invalid_subscription_index
      → IsIndexed (add_record r s)
  unfolding add_record
  add_record-IsIndexed r s v fresh room = record {
    by_id = λ k i. ground (
      arith,
      v.by_id k i,
      lookup-insert s.subscription_id k (length r.subscriptions) r.subscription_id_index,
      key_at-append (λ s. s.subscription_id) r.subscriptions s i,
      get_elem?-none r.subscriptions i,
      text_beq_iff s.subscription_id k,
    );
    by_session =
        push_index-IsBucketed (λ s. s.session_id) r.subscriptions s r.session_index v.by_session;
    by_topic = push_index-IsBucketed (λ s. s.topic) r.subscriptions s r.topic_index v.by_topic;
    bounded = omega (arith, length-append r.subscriptions (s ∷ []));
  }
