-- ===== src/Broker/Buckets/Laws.antt =====
-- How often each position stands in each bucket, after each change of an index.
use isched.Common.{
  ℕ, ◌+◌, ◌<◌, ◌≡◌, refl, List, [], ◌∷◌, ◌++◌, arith, ◌==◌, nat_eq, text_eq, text_beq_iff, Text,
  if◌then◌else◌, is_empty, true, lookup, insert, erase, lookup-insert, lookup-erase, count,
  count-append, Option-cases, inl, inr,
}
use isched.Broker.Buckets.{
  Buckets, bucket, remove_index, remap_index, push_index, remove_from_bucket, remap_in_bucket,
}

count-remove_index :
    (j index : ℕ) (is : List ℕ)
    → count j (remove_index is index) ≡ (if j == index then 0 else count j is)
unfolding count remove_index
count-remove_index j index [] = ground arith
count-remove_index j index (i ∷ is) = ground (arith, count-remove_index j index is)

count-remap_index :
    (j from to : ℕ) (is : List ℕ)
    → 0 < count from is
    → count j (remap_index is from to) + (if j == from then 1 else 0)
      ≡ count j is + (if j == to then 1 else 0)
unfolding count remap_index
count-remap_index j from to [] h = absurd (omega arith)
count-remap_index j from to (i ∷ is) h = ground (arith, count-remap_index j from to is)

count_of_is_empty : (j : ℕ) (is : List ℕ) → is_empty is ≡ true → count j is ≡ 0
unfolding count
count_of_is_empty j [] h = refl
count_of_is_empty j (i ∷ is) h = cc

-- What a bucket holds after the map has changed.
bucket-insert :
    (key k : Text) (is : List ℕ) (m : Buckets)
    → bucket k (insert key is m) ≡ (if key == k then is else bucket k m)
bucket-insert key k is m = ground (arith, lookup-insert key k is m)

bucket-erase :
    (key k : Text) (m : Buckets) → bucket k (erase key m) ≡ (if key == k then [] else bucket k m)
bucket-erase key k m = ground (arith, lookup-erase key k m)

pub count-push_index :
    (key k : Text) (i j : ℕ) (m : Buckets)
    → count j (bucket k (push_index key i m))
      ≡ count j (bucket k m) + (if key == k then if i == j then 1 else 0 else 0)
unfolding push_index count
count-push_index key k i j m = ground (
  arith,
  bucket-insert key k (bucket key m ++ i ∷ []) m,
  count-append j (bucket key m) (i ∷ []),
  text_beq_iff key k,
)

pub count-remove_from_bucket :
    (key k : Text) (index j : ℕ) (m : Buckets)
    → count j (bucket k (remove_from_bucket key index m))
      ≡ (if key == k then if j == index then 0 else count j (bucket k m) else count j (bucket k m))
unfolding remove_from_bucket
count-remove_from_bucket key k index j m = elim (Option-cases (lookup key m)) [
  | inl e ↦ rw (e, remove_from_bucket) (ground (arith, e, text_beq_iff key k, nothing))
  | inr (is, e) ↦
      rw (e, remove_from_bucket)
        (ground (
          arith,
          text_beq_iff key k,
          count-remove_index j index is,
          count_of_is_empty j (remove_index is index),
          bucket-erase key k m,
          bucket-insert key k (remove_index is index) m,
        ))
]
  where
    nothing : count j [] ≡ 0
    nothing = unfold count in refl

pub count-remap_in_bucket :
    (key k : Text) (from to j : ℕ) (m : Buckets)
    → 0 < count from (bucket key m)
    → count j (bucket k (remap_in_bucket key from to m))
        + (if key == k then if j == from then 1 else 0 else 0)
      ≡ count j (bucket k m) + (if key == k then if j == to then 1 else 0 else 0)
unfolding remap_in_bucket
count-remap_in_bucket key k from to j m h = elim (Option-cases (lookup key m)) [
  | inl e ↦ absurd (ground (arith, nothing))
  | inr (is, e) ↦
      rw (e, remap_in_bucket)
        (ground (
          arith,
          text_beq_iff key k,
          count-remap_index j from to is,
          bucket-insert key k (remap_index is from to) m,
        ))
]
  where
    nothing : count from [] ≡ 0
    nothing = unfold count in refl
