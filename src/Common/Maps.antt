-- ===== src/Common/Maps.antt =====
-- `std::unordered_map` and `std::map` as association lists. Where the source walks a map, the
-- order is the list's order, which the source leaves open; nothing is proved of it.
use Prim.Native.Nat.{suc}
use mathlib.Core.Path.{◌≡◌, refl}
use mathlib.Core.List.{List, [], ◌∷◌}
use mathlib.Core.Option.{Option, none, some}
use native.Mathlib.Omega.{arith}
use isched.Common.Tests.{Comparable, ◌==◌, if◌then◌else◌, is_some}
use isched.Common.Lists.{length}

abbrev pub Map {ℓ} : Type ℓ → Type ℓ → Type ℓ
Map K V = List (K × V)

module _ {ℓ} {K V : Type ℓ} ⦃e : Comparable K⦄ where
  -- `m.find(k)`.
  unfoldable pub lookup : K → Map K V → Option V
  lookup key [] = none
  lookup key (entry ∷ others) = if entry.0 == key then some entry.1 else lookup key others

  -- `m.erase(k)`.
  unfoldable pub erase : K → Map K V → Map K V
  erase key [] = []
  erase key (entry ∷ others) =
      let left = erase key others in if entry.0 == key then left else entry ∷ left

  -- `m[k] = v`.
  unfoldable pub insert : K → V → Map K V → Map K V
  insert key new [] = (key, new) ∷ []
  insert key new (entry ∷ others) =
      if entry.0 == key then (key, new) ∷ others else entry ∷ insert key new others

  -- Every lookup after a removal, and after a write.
  pub lookup-erase :
      (key q : K) (m : Map K V) → lookup q (erase key m) ≡ (if key == q then none else lookup q m)
  unfolding lookup erase
  lookup-erase key q [] = ground arith
  lookup-erase key q ((at, old) ∷ others) =
      ground
        (arith, lookup-erase key q others, e.same_iff at q, e.same_iff at key, e.same_iff key q)

  pub lookup-insert :
      (key q : K) (new : V) (m : Map K V)
      → lookup q (insert key new m) ≡ (if key == q then some new else lookup q m)
  unfolding lookup insert
  lookup-insert key q new [] = refl
  lookup-insert key q new ((at, old) ∷ others) =
      ground (
        arith,
        lookup-insert key q new others,
        e.same_iff at q,
        e.same_iff at key,
        e.same_iff key q,
      )

  -- A write adds an entry exactly if the key was absent.
  pub length-insert :
      (key : K) (new : V) (m : Map K V)
      → length (insert key new m) ≡ (if is_some (lookup key m) then length m else suc (length m))
  unfolding lookup insert
  length-insert key new [] = refl
  length-insert key new ((at, old) ∷ others) = ground (arith, length-insert key new others)
