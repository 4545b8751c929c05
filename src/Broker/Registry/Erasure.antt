-- ===== src/Broker/Registry/Erasure.antt =====
-- `eraseSubscriptionAt` keeps the indices exact: the erased position is unfiled, and the last
-- record is filed under the position that it moves to.
use isched.Common.{
  ℕ, suc, ◌-◌, ◌<◌, ◌≡◌, ◌≢◌, List, Option, none, some, inl, inr, arith, ◌==◌, nat_eq, text_eq,
  text_beq_iff, Text, if◌then◌else◌, Bool-cases, length, set, pop_back, length-set, length-pop_back,
  get_elem?, get_elem?-some, get_elem?-none, get_elem?-set, get_elem?-pop_back, Map, insert, erase,
  lookup-insert, lookup-erase, count, ap, ◌∙◌,
}
use isched.Broker.Buckets.{Buckets, bucket, remove_from_bucket, remap_in_bucket}
use isched.Broker.Buckets.Laws.{count-remove_from_bucket, count-remap_in_bucket}
use isched.Broker.Registry.{
  SubscriptionRecord, Registry, unfile, move_last, drop_last, erase_subscription_at,
}
use isched.Broker.Registry.Invariant.{
  keyed, IsBucketed, IsIdIndexed, key_of, key_at, ids, sessions, topics, IsIndexed,
}

-- The keys by position once `index` is erased and the last record moved there.
abbrev swapped_out : (ℕ → Option Text) → ℕ → ℕ → ℕ → Option Text
swapped_out f last index j = if j == last then none else if j == index then f last else f j

module _ (f : ℕ → Option Text) (m : Buckets) where
  remove_from_bucket-IsBucketed :
      (last : ℕ) {k : Text}
      → IsBucketed f m
      → f last ≡ some k
      → IsBucketed (swapped_out f last last) (remove_from_bucket k last m)
  remove_from_bucket-IsBucketed last {k} h e j i =
      ground (arith, h j i, h j last, count-remove_from_bucket k j last i m, text_beq_iff k j)

  -- The moved record still stands once in its bucket when the other has been unfiled.
  moved_stays :
      (index last : ℕ) (k : Text) {k' : Text}
      → IsBucketed f m
      → f last ≡ some k'
      → index ≢ last
      → 0 < count last (bucket k' (remove_from_bucket k index m))
  moved_stays index last k {k'} h e' apart =
      ground (arith, h k' last, count-remove_from_bucket k k' index last m, text_beq_iff k' k')

  refile-IsBucketed :
      (index last : ℕ) {k k' : Text}
      → IsBucketed f m
      → f index ≡ some k
      → f last ≡ some k'
      → index ≢ last
      → IsBucketed
          (swapped_out f last index)
          (remap_in_bucket k' last index (remove_from_bucket k index m))
  refile-IsBucketed index last {k} {k'} h e e' apart j i = ground (
    arith,
    moved_stays index last k {k' = k'} h e' apart,
    h j i,
    h j index,
    h j last,
    count-remove_from_bucket k j index i m,
    count-remap_in_bucket k' j last index i (remove_from_bucket k index m),
    text_beq_iff k j,
    text_beq_iff k' j,
  )

module _ (f : ℕ → Option Text) (ix : Map Text ℕ) where
  unindex-IsIdIndexed :
      (last : ℕ) {k : Text}
      → IsIdIndexed f ix
      → f last ≡ some k
      → IsIdIndexed (swapped_out f last last) (erase k ix)
  unindex-IsIdIndexed last {k} h e j i = ground (
    arith,
    h j i,
    h j last,
    h k i,
    h k last,
    lookup-erase k j ix,
    text_beq_iff k j,
    text_beq_iff k k,
  )

  reindex-IsIdIndexed :
      (index last : ℕ) {k k' : Text}
      → IsIdIndexed f ix
      → f index ≡ some k
      → f last ≡ some k'
      → index ≢ last
      → IsIdIndexed (swapped_out f last index) (erase k (insert k' index ix))
  reindex-IsIdIndexed index last {k} {k'} h e e' apart j i = ground (
    arith,
    h j i,
    h j index,
    h j last,
    h k index,
    h k last,
    lookup-erase k j (insert k' index ix),
    lookup-insert k' j index ix,
    text_beq_iff k j,
    text_beq_iff k' j,
    text_beq_iff k k,
    text_beq_iff k' k,
  )

IsBucketed-along :
    {f g : ℕ → Option Text} (m : Buckets) → ((j : ℕ) → f j ≡ g j) → IsBucketed f m → IsBucketed g m
IsBucketed-along m p h k i = h k i ∙ ap (λ o. keyed o k) (p i)

IsIdIndexed-along :
    {f g : ℕ → Option Text} (ix : Map Text ℕ)
    → ((j : ℕ) → f j ≡ g j)
    → IsIdIndexed f ix
    → IsIdIndexed g ix
IsIdIndexed-along ix p h k i = h k i ∙ ap (λ o. keyed o k) (p i)

module _ {H : Type 0} where
  -- What `erase_subscription_at` has done when it returns `r'`.
  pub record Erases (r : Registry H) (index : ℕ) (r' : Registry H) : Type 0 where
    pub indexed : IsIndexed r'
    pub shorter : suc (length r'.subscriptions) ≡ length r.subscriptions
    pub slots :
        (j : ℕ)
        → get_elem? r'.subscriptions j ≡ (
            if j == length r.subscriptions - 1
            then none
            else if j == index
            then get_elem? r.subscriptions (length r.subscriptions - 1)
            else get_elem? r.subscriptions j)

  get_elem?-shrunk :
      (ss : List (SubscriptionRecord H)) (j : ℕ)
      → 0 < length ss
      → get_elem? (pop_back ss) j ≡ (if j == length ss - 1 then none else get_elem? ss j)
  get_elem?-shrunk ss j h = ground (arith, get_elem?-pop_back ss j, get_elem?-none ss j)

  get_elem?-swapped :
      (ss : List (SubscriptionRecord H)) (index j : ℕ) (moved : SubscriptionRecord H)
      → index < length ss
      → get_elem? (pop_back (set ss index moved)) j
        ≡ (if j == length ss - 1 then none else if j == index then some moved else get_elem? ss j)
  get_elem?-swapped ss index j moved h = ground (
    arith,
    get_elem?-shrunk (set ss index moved) j,
    length-set ss index moved,
    get_elem?-set ss index j moved,
  )

  key_at-shrunk :
      (g : SubscriptionRecord H → Text) (ss : List (SubscriptionRecord H)) (last : ℕ)
      → suc last ≡ length ss
      → (j : ℕ) → swapped_out (key_at g ss) last last j ≡ key_at g (pop_back ss) j
  key_at-shrunk g ss last e j = ground (arith, get_elem?-shrunk ss j)

  key_at-swapped :
      (g : SubscriptionRecord H → Text) (ss : List (SubscriptionRecord H)) (index last : ℕ)
      (moved : SubscriptionRecord H)
      → suc last ≡ length ss
      → index < last
      → get_elem? ss last ≡ some moved
      → (j : ℕ)
      → swapped_out (key_at g ss) last index j ≡ key_at g (pop_back (set ss index moved)) j
  key_at-swapped g ss index last moved e inner found j =
      ground (arith, get_elem?-swapped ss index j moved)

  erase_last-Erases :
      (r : Registry H) (index : ℕ) (removed : SubscriptionRecord H)
      → IsIndexed r
      → suc index ≡ length r.subscriptions
      → get_elem? r.subscriptions index ≡ some removed
      → Erases r index (drop_last (unfile r removed index) removed.subscription_id)
  unfolding drop_last unfile
  erase_last-Erases r index removed v e found = record {
    indexed = record {
      by_id = IsIdIndexed-along _ (key_at-shrunk (λ s. s.subscription_id) ss index e) (
          unindex-IsIdIndexed (ids r) r.subscription_id_index index v.by_id
            (ap (key_of (λ s. s.subscription_id)) found));
      by_session = IsBucketed-along _ (key_at-shrunk (λ s. s.session_id) ss index e) (
          remove_from_bucket-IsBucketed (sessions r) r.session_index index v.by_session
            (ap (key_of (λ s. s.session_id)) found));
      by_topic = IsBucketed-along _ (key_at-shrunk (λ s. s.topic) ss index e) (
          remove_from_bucket-IsBucketed (topics r) r.topic_index index v.by_topic
            (ap (key_of (λ s. s.topic)) found));
      bounded = omega (arith, length-pop_back ss, v.bounded);
    };
    shorter = omega (arith, length-pop_back ss);
    slots = λ j. ground (arith, get_elem?-shrunk ss j);
  }
    where
      ss : List (SubscriptionRecord H)
      ss = r.subscriptions

  erase_inner-Erases :
      (r : Registry H) (index last : ℕ) (removed moved : SubscriptionRecord H)
      → IsIndexed r
      → suc last ≡ length r.subscriptions
      → index < last
      → get_elem? r.subscriptions index ≡ some removed
      → get_elem? r.subscriptions last ≡ some moved
      → Erases r index
          (drop_last (move_last (unfile r removed index) moved last index) removed.subscription_id)
  unfolding drop_last move_last unfile
  erase_inner-Erases r index last removed moved v e inner found found' = record {
    indexed = record {
      by_id =
          IsIdIndexed-along _
            (key_at-swapped (λ s. s.subscription_id) ss index last moved e inner found')
            (reindex-IsIdIndexed (ids r) r.subscription_id_index index last v.by_id
              (ap (key_of (λ s. s.subscription_id)) found)
              (ap (key_of (λ s. s.subscription_id)) found') apart);
      by_session =
          IsBucketed-along _ (key_at-swapped (λ s. s.session_id) ss index last moved e inner found')
            (refile-IsBucketed (sessions r) r.session_index index last v.by_session
              (ap (key_of (λ s. s.session_id)) found) (ap (key_of (λ s. s.session_id)) found')
              apart);
      by_topic =
          IsBucketed-along _ (key_at-swapped (λ s. s.topic) ss index last moved e inner found') (
            refile-IsBucketed (topics r) r.topic_index index last v.by_topic
              (ap (key_of (λ s. s.topic)) found) (ap (key_of (λ s. s.topic)) found') apart);
      bounded = omega (arith, length-pop_back (set ss index moved), length-set ss index moved);
    };
    shorter = omega (arith, length-pop_back (set ss index moved), length-set ss index moved);
    slots = λ j. ground (arith, get_elem?-swapped ss index j moved);
  }
    where
      ss : List (SubscriptionRecord H)
      ss = r.subscriptions

      apart : index ≢ last
      apart = omega arith

  -- At every position that holds a record the erasure succeeds, and does what `Erases` says.
  pub erase_subscription_at-Erases :
      (r : Registry H) (index : ℕ)
      → IsIndexed r
      → index < length r.subscriptions
      → (r' : Registry H) × (erase_subscription_at r index ≡ some r') × Erases r index r'
  unfolding erase_subscription_at
  erase_subscription_at-Erases r index v h =
      let (removed, found) = get_elem?-some r.subscriptions index h in
      let (moved, found') = get_elem?-some r.subscriptions last (omega arith) in
      elim (Bool-cases (index == last)) [
        | inl final ↦ (
          drop_last (unfile r removed index) removed.subscription_id,
          ground (arith, v.bounded),
          erase_last-Erases r index removed v (ground arith) found,
        )
        | inr inner ↦ (
          drop_last (move_last (unfile r removed index) moved last index) removed.subscription_id,
          ground (arith, v.bounded),
          erase_inner-Erases r index last removed moved v (omega arith) (ground arith) found found',
        )
      ]
    where
      last : ℕ
      last = length r.subscriptions - 1
