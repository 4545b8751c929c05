-- ===== src/Database/Tables.antt =====
-- The tables of the SQLite databases of backend/isched_DatabaseManager.cpp: lists of rows, in the order in
-- which they were inserted. The SQL statements are part of the source; each is translated to the
-- function on rows that SQLite documents for it.
use isched.Common.{
  ℕ, ◌+◌, ◌≤◌, ◌≡◌, refl, Bool, true, false, not, List, [], ◌∷◌, ◌++◌, Option, none, some, ◌==◌,
  nat_eq, if◌then◌else◌, is_some, arith,
}

module _ {R : Type 0} where
  -- SELECT … WHERE p LIMIT 1, or the first step of it.
  unfoldable pub first : (R → Bool) → List R → Option R
  first p [] = none
  first p (r ∷ rs) = if p r then some r else first p rs

  -- SELECT … WHERE p.
  unfoldable pub select : (R → Bool) → List R → List R
  select p [] = []
  select p (r ∷ rs) = let rest = select p rs in if p r then r ∷ rest else rest

  -- SELECT COUNT(*) … WHERE p, and the `sqlite3_changes` of an UPDATE or DELETE … WHERE p.
  unfoldable pub matches : (R → Bool) → List R → ℕ
  matches p [] = 0
  matches p (r ∷ rs) = (if p r then 1 else 0) + matches p rs

  -- UPDATE … SET f WHERE p.
  unfoldable pub update : (R → Bool) → (R → R) → List R → List R
  update p f [] = []
  update p f (r ∷ rs) = (if p r then f r else r) ∷ update p f rs

  -- DELETE … WHERE p.
  unfoldable pub delete : (R → Bool) → List R → List R
  delete p [] = []
  delete p (r ∷ rs) = let rest = delete p rs in if p r then rest else r ∷ rest

  -- … ORDER BY: `before a b` if `b` does not come first. The order of equals is SQLite's choice.
  unfoldable pub place : (R → R → Bool) → R → List R → List R
  place before r [] = r ∷ []
  place before r (s ∷ rs) =
      let rest = place before r rs in if before r s then r ∷ s ∷ rs else s ∷ rest

  unfoldable pub order_by : (R → R → Bool) → List R → List R
  order_by before [] = []
  order_by before (r ∷ rs) = place before r (order_by before rs)

  abbrev pub or_first : Option R → Option R → Option R
  or_first none o = o
  or_first (some r) o = some r

  abbrev pub map_found : (R → R) → Option R → Option R
  map_found f none = none
  map_found f (some r) = some (f r)

  pub first-append :
      (p : R → Bool) (rs ss : List R) → first p (rs ++ ss) ≡ or_first (first p rs) (first p ss)
  unfolding first
  first-append p [] ss = refl
  first-append p (r ∷ rs) ss = ground (arith, first-append p rs ss)

  -- An update keeps what finds a row, so the row is found again, with the update on it.
  pub first-update :
      (p q : R → Bool) (f : R → R) (rs : List R)
      → ((r : R) → p (f r) ≡ p r)
      → first p (update q f rs) ≡ map_found (λ r. if q r then f r else r) (first p rs)
  unfolding first update
  first-update p q f [] h = refl
  first-update p q f (r ∷ rs) h = ground (arith, first-update p q f rs h, h r)

  pub first-delete :
      (p q : R → Bool) (rs : List R)
      → ((r : R) → p r ≡ true → q r ≡ false)
      → first p (delete q rs) ≡ first p rs
  unfolding first delete
  first-delete p q [] h = refl
  first-delete p q (r ∷ rs) h = ground (arith, first-delete p q rs h, h r)

  pub first-delete_same : (p : R → Bool) (rs : List R) → first p (delete p rs) ≡ none
  unfolding first delete
  first-delete_same p [] = refl
  first-delete_same p (r ∷ rs) = ground (arith, first-delete_same p rs)

  pub first-holds : (p : R → Bool) (rs : List R) (r : R) → first p rs ≡ some r → p r ≡ true
  unfolding first
  first-holds p [] r h = cc
  first-holds p (s ∷ rs) r h = ground (arith, first-holds p rs r)

  pub first-matches : (p : R → Bool) (rs : List R) → is_some (first p rs) ≡ not (matches p rs == 0)
  unfolding first matches
  first-matches p [] = refl
  first-matches p (r ∷ rs) = ground (arith, first-matches p rs)

  pub matches-append :
      (p : R → Bool) (rs ss : List R) → matches p (rs ++ ss) ≡ matches p rs + matches p ss
  unfolding matches
  matches-append p [] ss = omega arith
  matches-append p (r ∷ rs) ss = ground (arith, matches-append p rs ss)

  pub matches-update :
      (p q : R → Bool) (f : R → R) (rs : List R)
      → ((r : R) → p (f r) ≡ p r)
      → matches p (update q f rs) ≡ matches p rs
  unfolding matches update
  matches-update p q f [] h = refl
  matches-update p q f (r ∷ rs) h = ground (arith, matches-update p q f rs h, h r)

  pub matches-delete : (p q : R → Bool) (rs : List R) → matches p (delete q rs) ≤ matches p rs
  unfolding matches delete
  matches-delete p q [] = omega arith
  matches-delete p q (r ∷ rs) = ground (arith, matches-delete p q rs)

  pub matches-le :
      (p q : R → Bool) (rs : List R)
      → ((r : R) → p r ≡ true → q r ≡ true)
      → matches p rs ≤ matches q rs
  unfolding matches
  matches-le p q [] h = omega arith
  matches-le p q (r ∷ rs) h = ground (arith, matches-le p q rs h, h r)

  pub matches-none : (p : R → Bool) (rs : List R) → ((r : R) → p r ≡ false) → matches p rs ≡ 0
  unfolding matches
  matches-none p [] h = refl
  matches-none p (r ∷ rs) h = ground (arith, matches-none p rs h, h r)

  -- ORDER BY gives the same rows.
  pub matches-place :
      (p : R → Bool) (before : R → R → Bool) (r : R) (rs : List R)
      → matches p (place before r rs) ≡ matches p (r ∷ rs)
  unfolding matches place
  matches-place p before r [] = refl
  matches-place p before r (s ∷ rs) = ground (arith, matches-place p before r rs)

  pub matches-order_by :
      (p : R → Bool) (before : R → R → Bool) (rs : List R)
      → matches p (order_by before rs) ≡ matches p rs
  unfolding matches order_by
  matches-order_by p before [] = refl
  matches-order_by p before (r ∷ rs) =
      ground (arith, matches-place p before r (order_by before rs), matches-order_by p before rs)

  -- A row that is found is one of those that are counted, if it matches.
  pub first-counted :
      (p q : R → Bool) (rs : List R) (r : R)
      → first p rs ≡ some r
      → q r ≡ true
      → (matches q rs == 0) ≡ false
  unfolding first matches
  first-counted p q [] r h e = cc
  first-counted p q (s ∷ rs) r h e = ground (arith, h, e, first-counted p q rs r)
