-- ===== src/Broker/Registry.antt =====
-- backend/isched_SubscriptionBroker.cpp, `Impl`: the subscription records in one vector, an index
-- by subscription id and two secondary indices, by session and by topic. The callers hold the
-- mutex, so each operation here is one step.
pub mod Invariant
pub mod Erasure
pub mod View
use isched.Common.{
  ℕ, ◌-◌, ◌^◌, Bool, List, [], ◌∷◌, ◌++◌, Option, none, some, not, ◌||◌, ◌==◌, nat_eq, text_eq,
  Text, if◌then◌else◌, ltb, length, get_elem?, set, pop_back, Map, lookup, insert, erase,
}
use isched.Broker.Buckets.{Buckets, push_index, remove_from_bucket, remap_in_bucket}

pub record SubscriptionRecord (H : Type 0) : Type 0 where
  pub subscription_id : Text
  pub session_id : Text
  pub topic : Text
  pub handler : H

pub record Registry (H : Type 0) : Type 0 where
  pub subscriptions : List (SubscriptionRecord H)
  pub subscription_id_index : Map Text ℕ
  pub session_index : Buckets
  pub topic_index : Buckets

-- `std::numeric_limits<std::size_t>::max()`, the position that no record has.
abbrev pub invalid_subscription_index : ℕ
invalid_subscription_index = 2 ^ 64 - 1

abbrev pub is_invalid_subscription_index : ℕ → Bool
is_invalid_subscription_index index = index == invalid_subscription_index

module _ {H : Type 0} where
  unfoldable pub empty : Registry H
  empty = record {
    subscriptions = [];
    subscription_id_index = [];
    session_index = [];
    topic_index = [];
  }

  abbrev pub is_valid_index : Registry H → ℕ → Bool
  is_valid_index r index = ltb index (length r.subscriptions)

  unfoldable pub get_record_by_index : Registry H → ℕ → Option (SubscriptionRecord H)
  get_record_by_index r index =
      if is_invalid_subscription_index index || not (is_valid_index r index)
      then none
      else get_elem? r.subscriptions index

  -- The four writes of `subscribe`.
  unfoldable pub add_record : Registry H → SubscriptionRecord H → Registry H
  add_record r s =
      let index = length r.subscriptions in
      record {
        subscriptions = r.subscriptions ++ s ∷ [];
        subscription_id_index = insert s.subscription_id index r.subscription_id_index;
        session_index = push_index s.session_id index r.session_index;
        topic_index = push_index s.topic index r.topic_index;
      }

  -- `removeFromSessionIndex` and `removeFromTopicIndex`.
  pub unfile : Registry H → SubscriptionRecord H → ℕ → Registry H
  unfile r s index = record r {
    session_index = remove_from_bucket s.session_id index r.session_index;
    topic_index = remove_from_bucket s.topic index r.topic_index;
  }

  -- The last record takes the place of the one erased.
  pub move_last : Registry H → SubscriptionRecord H → ℕ → ℕ → Registry H
  move_last r moved last index = record {
    subscriptions = set r.subscriptions index moved;
    subscription_id_index = insert moved.subscription_id index r.subscription_id_index;
    session_index = remap_in_bucket moved.session_id last index r.session_index;
    topic_index = remap_in_bucket moved.topic last index r.topic_index;
  }

  pub fill_gap : Registry H → ℕ → ℕ → Registry H
  unfolding move_last
  fill_gap r last index = if index == last then r else elim (get_elem? r.subscriptions last) [
    | none ↦ r
    | some moved ↦ move_last r moved last index
  ]

  pub drop_last : Registry H → Text → Registry H
  drop_last r removed_id = record r {
    subscriptions = pop_back r.subscriptions;
    subscription_id_index = erase removed_id r.subscription_id_index;
  }

  -- `none` is the source's `false`: the position holds no record.
  unfoldable pub erase_subscription_at : Registry H → ℕ → Option (Registry H)
  unfolding unfile fill_gap drop_last
  erase_subscription_at r index =
      if is_invalid_subscription_index index || not (is_valid_index r index)
      then none
      else elim (get_elem? r.subscriptions index) [
        | none ↦ none
        | some removed ↦ some (
            drop_last (fill_gap (unfile r removed index) (length r.subscriptions - 1) index)
              removed.subscription_id)
      ]
