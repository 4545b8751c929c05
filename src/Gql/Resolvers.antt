-- ===== src/Gql/Resolvers.antt =====
-- backend/isched_multi_dim_map.hpp, as far as the resolver registry of backend/isched_GqlExecutor.hpp
-- uses it, and that registry.
use isched.Common.{
  ◌≡◌, refl, Bool, true, false, ◌&&◌, List, [], ◌∷◌, ◌++◌, Option, none, some, ◌==◌, Text, text_eq,
  text_beq_iff, if◌then◌else◌, is_some, arith, inl, inr, Option-cases,
}

mutual
  pub data DimMap (R : Type 0) : Type 0 where
    dim : Option R → DimEntries R → DimMap R

  pub data DimEntries (R : Type 0) : Type 0 where
    no_entries : DimEntries R
    entry : Text → DimMap R → DimEntries R → DimEntries R

module _ {R : Type 0} where
  abbrev pub value_of : DimMap R → Option R
  value_of (dim v es) = v

  abbrev pub entries_of : DimMap R → DimEntries R
  entries_of (dim v es) = es

  abbrev pub empty_map : DimMap R
  empty_map = dim none no_entries

  unfoldable pub find : Text → DimEntries R → Option (DimMap R)
  find key no_entries = none
  find key (entry k m es) = if k == key then some m else find key es

  -- `m_children[key]` makes an empty map where there is none.
  abbrev pub or_empty : Option (DimMap R) → DimMap R
  or_empty none = dim none no_entries
  or_empty (some m) = m

  unfoldable pub set_child : Text → DimMap R → DimEntries R → DimEntries R
  set_child key new no_entries = entry key new no_entries
  set_child key new (entry k m es) =
      if k == key then entry k new es else entry k m (set_child key new es)

  -- `m[path] = v`.
  unfoldable pub assign : List Text → R → DimMap R → DimMap R
  assign [] v m = dim (some v) (entries_of m)
  assign (key ∷ keys) v m =
      dim (value_of m)
        (set_child key (assign keys v (or_empty (find key (entries_of m)))) (entries_of m))

  -- The loop of `has_resolver` and of `get_resolver` over the path.
  unfoldable pub descend : List Text → DimMap R → Option (DimMap R)
  descend [] m = some m
  descend (key ∷ keys) m = elim (find key (entries_of m)) [
    | none ↦ none
    | some m' ↦ descend keys m'
  ]

  -- The resolver that `has_resolver` tells of and `get_resolver` gives.
  unfoldable pub get_resolver : List Text → Text → DimMap R → Option R
  get_resolver path field m = elim (descend path m) [
    | none ↦ none
    | some m' ↦ elim (find field (entries_of m')) [ none ↦ none | some f ↦ value_of f ]
  ]

  unfoldable pub register_resolver : List Text → Text → R → DimMap R → DimMap R
  register_resolver scope field r m = assign (scope ++ (field ∷ [])) r m

  -- The executor refuses a second resolver for a field; `none` is the exception.
  unfoldable pub register_once : List Text → Text → R → DimMap R → Option (DimMap R)
  register_once scope field r m =
      if is_some (get_resolver scope field m)
      then none
      else some (register_resolver scope field r m)

  find-set_child :
      (key q : Text) (new : DimMap R) (es : DimEntries R)
      → find q (set_child key new es) ≡ (if key == q then some new else find q es)
  unfolding find set_child
  find-set_child key q new no_entries = refl
  find-set_child key q new (entry k m es) =
      ground (
        arith,
        find-set_child key q new es,
        text_beq_iff k q,
        text_beq_iff k key,
        text_beq_iff key q,
      )

unfoldable pub same_path : List Text → List Text → Bool
same_path [] [] = true
same_path [] (q ∷ qs) = false
same_path (p ∷ ps) [] = false
same_path (p ∷ ps) (q ∷ qs) = p == q && same_path ps qs

module _ {R : Type 0} where
  -- The value at a path.
  unfoldable pub value_at : List Text → DimMap R → Option R
  value_at [] m = value_of m
  value_at (key ∷ keys) m = elim (find key (entries_of m)) [
    | none ↦ none
    | some m' ↦ value_at keys m'
  ]

  value_at-empty : (q : List Text) → value_at q (empty_map {R = R}) ≡ none
  unfolding value_at find
  value_at-empty [] = refl
  value_at-empty (k ∷ ks) = refl

  value_at-assign :
      (p q : List Text) (r : R) (m : DimMap R)
      → value_at q (assign p r m) ≡ (if same_path p q then some r else value_at q m)
  unfolding value_at assign same_path
  value_at-assign [] [] r m = refl
  value_at-assign [] (q ∷ qs) r m = refl
  value_at-assign (p ∷ ps) [] r m = refl
  value_at-assign (p ∷ ps) (q ∷ qs) r m =
      let sub = or_empty (find p (entries_of m)) in
      ground (
        arith,
        find-set_child p q (assign ps r sub) (entries_of m),
        value_at-assign ps qs r sub,
        value_at-empty qs,
        text_beq_iff p q,
      )

  get_resolver-value_at :
      (path : List Text) (field : Text) (m : DimMap R)
      → get_resolver path field m ≡ value_at (path ++ (field ∷ [])) m
  unfolding get_resolver descend value_at
  get_resolver-value_at [] field m = refl
  get_resolver-value_at (k ∷ ks) field m = elim (Option-cases (find k (entries_of m))) [
    | inl e ↦ ground (arith, e)
    | inr (m', e) ↦ ground (arith, e, get_resolver-value_at ks field m')
  ]

  -- After a registration every lookup gives the new resolver at its own scope and name and the
  -- resolver from before everywhere else.
  pub get_resolver-register_resolver :
      (scope path : List Text) (name field : Text) (r : R) (m : DimMap R)
      → get_resolver path field (register_resolver scope name r m) ≡ (
          if same_path (scope ++ (name ∷ [])) (path ++ (field ∷ []))
          then some r
          else get_resolver path field m)
  unfolding register_resolver
  get_resolver-register_resolver scope path name field r m = cc (
    get_resolver-value_at path field (assign (scope ++ (name ∷ [])) r m),
    get_resolver-value_at path field m,
    value_at-assign (scope ++ (name ∷ [])) (path ++ (field ∷ [])) r m,
  )
