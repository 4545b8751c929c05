-- ===== src/Config/Priorities.antt =====
-- The order of the providers and what it means for a lookup.
use isched.Common.{
  ℕ, ◌≡◌, refl, Bool, true, not, ◌&&◌, List, [], ◌∷◌, Option, none, some, Text, if◌then◌else◌, ltb,
  all, arith, Bool-cases, inl, inr,
}
use isched.Config.{Provider, add_provider, get}

abbrev pub or_else : {V : Type 0} → Option V → Option V → Option V
or_else none o = o
or_else (some v) o = some v

module _ {P V : Type 0} (provider : Provider P V) where
  -- Highest priority first.
  abbrev pub is_descending : List P → Bool
  is_descending [] = true
  is_descending (p ∷ ps) =
      all (λ q. not (ltb (provider.get_priority p) (provider.get_priority q))) ps
      && is_descending ps

  -- The providers of at least, and those of less than, a priority.
  unfoldable pub at_least : ℕ → List P → List P
  at_least n [] = []
  at_least n (p ∷ ps) =
      let rest = at_least n ps in if ltb (provider.get_priority p) n then rest else p ∷ rest

  unfoldable pub below : ℕ → List P → List P
  below n [] = []
  below n (p ∷ ps) =
      let rest = below n ps in if ltb (provider.get_priority p) n then p ∷ rest else rest

  all-add_provider :
      (test : P → Bool) (p : P) (ps : List P)
      → all test (add_provider provider p ps) ≡ (test p && all test ps)
  unfolding add_provider
  all-add_provider test p [] = ground arith
  all-add_provider test p (q ∷ qs) = ground (arith, all-add_provider test p qs)

  -- Below the first lower provider, all are lower.
  below-all :
      (n m : ℕ) (ps : List P)
      → all (λ q. not (ltb m (provider.get_priority q))) ps ≡ true
      → ltb m n ≡ true
      → (at_least n ps ≡ []) × (below n ps ≡ ps)
  unfolding at_least below
  below-all n m [] h i = (refl, refl)
  below-all n m (p ∷ ps) h i =
      let (a, b) = below-all n m ps (ground arith) i in (ground (arith, a), ground (arith, b))

  all-lower :
      (n m : ℕ) (ps : List P)
      → all (λ q. not (ltb m (provider.get_priority q))) ps ≡ true
      → ltb m n ≡ true
      → all (λ q. not (ltb n (provider.get_priority q))) ps ≡ true
  all-lower n m [] h i = refl
  all-lower n m (p ∷ ps) h i = ground (arith, all-lower n m ps)

  add_provider-descends :
      (p : P) (ps : List P)
      → is_descending ps ≡ true
      → is_descending (add_provider provider p ps) ≡ true
  unfolding add_provider
  add_provider-descends p [] h = refl
  add_provider-descends p (q ∷ qs) h = ground (
    arith,
    add_provider-descends p qs,
    all-lower (provider.get_priority p) (provider.get_priority q) qs,
    all-add_provider (λ x. not (ltb (provider.get_priority q) (provider.get_priority x))) p qs,
  )

  get-add_provider :
      (key : Text) (p : P) (ps : List P)
      → is_descending ps ≡ true
      → get provider key (add_provider provider p ps)
        ≡ or_else (get provider key (at_least (provider.get_priority p) ps)) (
            or_else
              (provider.get_value p key)
              (get provider key (below (provider.get_priority p) ps)))
  unfolding add_provider get at_least below
  get-add_provider key p [] h = ground arith
  get-add_provider key p (q ∷ qs) h =
      elim (Bool-cases (ltb (provider.get_priority q) (provider.get_priority p))) [
        | inl e ↦
            let (a, b) =
              below-all (provider.get_priority p) (provider.get_priority q) qs (ground arith) e in
            ground (arith, e, a, b)
        | inr e ↦ ground (arith, e, get-add_provider key p qs)
      ]

  -- Adding a provider to providers in descending order of priority keeps that order, and a lookup then
  -- asks those of at least its priority, then the new one, and then those of a lower priority.
  pub add_provider-shadows :
      (key : Text) (p : P) (ps : List P)
      → is_descending ps ≡ true
      → (is_descending (add_provider provider p ps) ≡ true)
        × (get provider key (add_provider provider p ps)
            ≡ or_else (get provider key (at_least (provider.get_priority p) ps)) (
                or_else
                  (provider.get_value p key)
                  (get provider key (below (provider.get_priority p) ps))))
  add_provider-shadows key p ps h = (add_provider-descends p ps h, get-add_provider key p ps h)
