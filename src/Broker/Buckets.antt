-- ===== src/Broker/Buckets.antt =====
-- backend/isched_SubscriptionBroker.cpp: the secondary indices, which map a session or a topic to
-- the positions of its records.
pub mod Laws
use isched.Common.{
  ℕ, ◌≡◌, Bool, List, [], ◌∷◌, ◌++◌, Option, none, some, ◌==◌, nat_eq, text_eq, Text, if◌then◌else◌,
  is_empty, Map, lookup, insert, erase,
}

abbrev pub Buckets : Type 0
Buckets = Map Text (List ℕ)

-- The positions filed under a key; none if the key is absent.
abbrev pub positions : Option (List ℕ) → List ℕ
positions none = []
positions (some l) = l

abbrev pub bucket : Text → Buckets → List ℕ
bucket key m = positions (lookup key m)

-- `indices.erase(std::remove(…, index), …)`.
unfoldable pub remove_index : List ℕ → ℕ → List ℕ
remove_index [] index = []
remove_index (i ∷ is) index =
    let rest = remove_index is index in if i == index then rest else i ∷ rest

-- Only the first occurrence changes.
unfoldable pub remap_index : List ℕ → ℕ → ℕ → List ℕ
remap_index [] from to = []
remap_index (i ∷ is) from to = if i == from then to ∷ is else i ∷ remap_index is from to

-- `index[key].push_back(i)`.
unfoldable pub push_index : Text → ℕ → Buckets → Buckets
push_index key i m = insert key (bucket key m ++ i ∷ []) m

-- An emptied bucket is dropped from the map.
unfoldable pub remove_from_bucket : Text → ℕ → Buckets → Buckets
remove_from_bucket key index m = elim (lookup key m) [
  | none ↦ m
  | some is ↦
      let left = remove_index is index in if is_empty left then erase key m else insert key left m
]

unfoldable pub remap_in_bucket : Text → ℕ → ℕ → Buckets → Buckets
remap_in_bucket key from to m = elim (lookup key m) [
  | none ↦ m
  | some is ↦ insert key (remap_index is from to) m
]
