-- ===== src/Broker/Delivery.antt =====
-- Who is told of an event: the loops of `publish` and `get_subscriber_count` over a topic's bucket.
use isched.Common.{
  ℕ, zero, suc, ◌+◌, ◌*◌, ◌≤◌, ◌≡◌, refl, List, [], ◌∷◌, Option, none, some, inl, inr, arith, ◌==◌,
  nat_eq, text_eq, Text, if◌then◌else◌, ltb, is_empty, Option-cases, length, map, get_elem?,
  get_elem?-none, count, lookup, ap, ◌∙◌, sym, fun_ext,
}
use isched.Broker.Buckets.{bucket}
use isched.Broker.Registry.{SubscriptionRecord, Registry}
use isched.Broker.Registry.Invariant.{keyed, key_at, topics, IsIndexed}
use isched.Broker.Registry.View.{registered, registered_at, get_record_by_index-get_elem?}
use isched.Broker.Refinement.{IsValid, known}
use isched.Broker.Operations.{Broker, visited, publish, count_topic, get_subscriber_count}

module _ {H : Type 0} where
  abbrev ids_of : List (SubscriptionRecord H) → List Text
  ids_of = map (λ s. s.subscription_id)

  -- A record is visited as often as its position is listed.
  count-visited :
      (r : Registry H) (id : Text) (i : ℕ) (is : List ℕ)
      → IsIndexed r
      → lookup id r.subscription_id_index ≡ some i
      → count id (ids_of (visited r is)) ≡ count i is
  unfolding visited count
  count-visited r id i [] v e = refl
  count-visited r id i (j ∷ is) v e =
      ground
        (arith, e, get_record_by_index-get_elem? r j v, v.by_id id j, count-visited r id i is v e)

  count-visited_unknown :
      (r : Registry H) (id : Text) (is : List ℕ)
      → IsIndexed r
      → lookup id r.subscription_id_index ≡ none
      → count id (ids_of (visited r is)) ≡ 0
  unfolding visited count
  count-visited_unknown r id [] v e = refl
  count-visited_unknown r id (j ∷ is) v e = ground (
    arith,
    e,
    get_record_by_index-get_elem? r j v,
    v.by_id id j,
    count-visited_unknown r id is v e,
  )

  -- Whether an id's record is filed under the topic, as a number.
  abbrev pub subscribes_to : Text → Option (SubscriptionRecord H) → ℕ
  subscribes_to topic none = 0
  subscribes_to topic (some s) = if s.topic == topic then 1 else 0

  pub visited_exactly :
      (r : Registry H) (topic id : Text)
      → IsIndexed r
      → count id (ids_of (visited r (bucket topic r.topic_index)))
        ≡ subscribes_to topic (registered r id)
  unfolding registered
  visited_exactly r topic id v = elim (Option-cases (lookup id r.subscription_id_index)) [
    | inl e ↦ rw e (count-visited_unknown r id (bucket topic r.topic_index) v e)
    | inr (i, e) ↦
        rw e (
          count-visited r id i (bucket topic r.topic_index) v e
          ∙ ground (arith, v.by_topic topic i))
  ]

  -- Each record visited is the one registered under its id.
  abbrev pub AllKnown : Registry H → List (SubscriptionRecord H) → Type 0
  AllKnown r [] = Unit {0}
  AllKnown r (s ∷ ss) = (registered r s.subscription_id ≡ some s) × AllKnown r ss

  visited-AllKnown : (r : Registry H) (is : List ℕ) → IsIndexed r → AllKnown r (visited r is)
  unfolding visited
  visited-AllKnown r [] v = tt
  visited-AllKnown r (j ∷ is) v = elim (Option-cases (get_elem? r.subscriptions j)) [
    | inl e ↦ rw (get_record_by_index-get_elem? r j v ∙ e, visited) (visited-AllKnown r is v)
    | inr (s, e) ↦
        rw (get_record_by_index-get_elem? r j v ∙ e, visited)
          (registered_at r j s v e, visited-AllKnown r is v)
  ]

module _ {H C X : Type 0} where
  -- `publish` calls the handlers of registered records only, and of each record under the topic
  -- exactly once: an id's record is called once if its topic is the event's, and else not at all.
  pub publish_exactly :
      (b : Broker H C X) (topic : Text)
      → IsValid b
      → (ss : List (SubscriptionRecord H)) × (publish b topic ≡ map (λ s. s.handler) ss)
        × AllKnown b.registry ss
        × ((id : Text)
            → count id (map (λ s. s.subscription_id) ss) ≡ subscribes_to topic (known b id))
  unfolding publish
  publish_exactly b topic v = (
    visited b.registry (bucket topic b.registry.topic_index),
    called,
    visited-AllKnown b.registry (bucket topic b.registry.topic_index) v.indexed,
    λ id. visited_exactly b.registry topic id v.indexed,
  )
    where
      called :
          publish b topic
          ≡ map (λ s. s.handler) (visited b.registry (bucket topic b.registry.topic_index))
      called = elim (Option-cases (lookup topic b.registry.topic_index)) [
        | inl e ↦ rw (e, publish) (unfold visited in refl)
        | inr (is, e) ↦ rw (e, publish) refl
      ]

-- Sums over the positions below `n`, and over a list of positions.
sum_below : ℕ → (ℕ → ℕ) → ℕ
sum_below zero f = 0
sum_below (suc n) f = f 0 + sum_below n (λ i. f (suc i))

total : (ℕ → ℕ) → List ℕ → ℕ
total f [] = 0
total f (i ∷ is) = f i + total f is

sum_below-add : (n : ℕ) (f g : ℕ → ℕ) → sum_below n (λ i. f i + g i) ≡ sum_below n f + sum_below n g
unfolding sum_below
sum_below-add zero f g = refl
sum_below-add (suc n) f g = omega (arith, sum_below-add n (λ i. f (suc i)) (λ i. g (suc i)))

sum_below-zero : (n : ℕ) → sum_below n (λ i. 0) ≡ 0
unfolding sum_below
sum_below-zero zero = refl
sum_below-zero (suc n) = omega (arith, sum_below-zero n)

sum_below-cong : (n : ℕ) {f g : ℕ → ℕ} → ((i : ℕ) → f i ≡ g i) → sum_below n f ≡ sum_below n g
sum_below-cong n h = ap (sum_below n) (fun_ext h)

sum_below-single :
    (n j : ℕ) (f : ℕ → ℕ)
    → sum_below n (λ i. if j == i then f i else 0) ≡ (if ltb j n then f j else 0)
unfolding sum_below
sum_below-single zero j f = ground arith
sum_below-single (suc n) zero f = ground (
  arith,
  sum_below-zero n,
  sum_below-cong n {f = λ i. if 0 == suc i then f (suc i) else 0} {g = λ i. 0} (λ i. ground arith),
)
sum_below-single (suc n) (suc j) f = ground (
  arith,
  sum_below-single n j (λ i. f (suc i)),
  sum_below-cong n {f = λ i. if suc j == suc i then f (suc i) else 0}
      {g = λ i. if j == i then f (suc i) else 0} (λ i. ground arith),
)

-- A sum over a list of positions counts each position below the bound as often as it stands there.
total-sum_below :
    (n : ℕ) (f : ℕ → ℕ) (is : List ℕ)
    → ((i : ℕ) → n ≤ i → f i ≡ 0)
    → total f is ≡ sum_below n (λ i. count i is * f i)
unfolding total count
total-sum_below n f [] vanishes =
    sym (sum_below-cong n {g = λ i. 0} (λ i. omega arith) ∙ sum_below-zero n)
total-sum_below n f (j ∷ is) vanishes =
    ground (arith, sum_below-single n j f, total-sum_below n f is vanishes, vanishes j, split)
  where
    split :
        sum_below n (λ i. ((if j == i then 1 else 0) + count i is) * f i)
        ≡ sum_below n (λ i. if j == i then f i else 0) + sum_below n (λ i. count i is * f i)
    split = sum_below-cong n (λ i. ground arith) ∙ sum_below-add n _ _

module _ {H : Type 0} where
  sum_below-keyed :
      (ss : List (SubscriptionRecord H)) (topic : Text)
      → sum_below (length ss) (λ i. keyed (key_at (λ s. s.topic) ss i) topic) ≡ count_topic topic ss
  unfolding sum_below count_topic
  sum_below-keyed [] topic = refl
  sum_below-keyed (s ∷ ss) topic =
      ap (◌+◌ (if s.topic == topic then 1 else 0)) (sum_below-keyed ss topic)

  count_topic-visited :
      (r : Registry H) (topic : Text) (is : List ℕ)
      → IsIndexed r
      → count_topic topic (visited r is) ≡ total (λ i. keyed (topics r i) topic) is
  unfolding visited count_topic total
  count_topic-visited r topic [] v = refl
  count_topic-visited r topic (j ∷ is) v =
      ground (arith, get_record_by_index-get_elem? r j v, count_topic-visited r topic is v)

module _ {H C X : Type 0} where
  -- For a topic `get_subscriber_count` finds by the index what a scan of all records would, and for
  -- the empty topic it gives the number of all records.
  pub get_subscriber_count-scan :
      (b : Broker H C X) (topic : Text)
      → IsValid b
      → get_subscriber_count b topic ≡ (
          if is_empty topic
          then length b.registry.subscriptions
          else count_topic topic b.registry.subscriptions)
  unfolding get_subscriber_count
  get_subscriber_count-scan b topic v = ground (arith, by_index, scanned)
    where
      in_bucket : List ℕ
      in_bucket = bucket topic b.registry.topic_index

      filed : ℕ → ℕ
      filed i = keyed (topics b.registry i) topic

      by_index :
          elim (lookup topic b.registry.topic_index) as (λ _. ℕ) [
            | none ↦ 0
            | some is ↦ count_topic topic (visited b.registry is)
          ]
          ≡ count_topic topic (visited b.registry in_bucket)
      by_index = elim (Option-cases (lookup topic b.registry.topic_index)) [
        | inl e ↦ rw e (unfold visited count_topic in refl)
        | inr (is, e) ↦ rw e refl
      ]

      scanned :
          count_topic topic (visited b.registry in_bucket)
          ≡ count_topic topic b.registry.subscriptions
      scanned =
          count_topic-visited b.registry topic in_bucket v.indexed
          ∙ total-sum_below (length b.registry.subscriptions) filed in_bucket
              (λ i h. ground (arith, get_elem?-none b.registry.subscriptions i))
          ∙ sum_below-cong (length b.registry.subscriptions)
              (λ i. ground (arith, v.indexed.by_topic topic i))
          ∙ sum_below-keyed b.registry.subscriptions topic
