-- ===== src/Common/Keyed.antt =====
-- Maps in which each key stands once, as in a C++ map.
use Prim.Native.Nat.{◌+◌}
use mathlib.Core.Path.{◌≡◌, refl}
use mathlib.Core.Bool.{Bool, true, not, ◌&&◌}
use mathlib.Core.List.{[], ◌∷◌}
use mathlib.Core.Option.{none}
use native.Mathlib.Omega.{arith}
use isched.Common.Tests.{Comparable, if◌then◌else◌, is_some}
use isched.Common.Lists.{length}
use isched.Common.Maps.{Map, lookup, insert, erase, lookup-insert, lookup-erase}

module _ {ℓ} {K V : Type ℓ} ⦃e : Comparable K⦄ where
  abbrev pub is_keyed : Map K V → Bool
  is_keyed [] = true
  is_keyed (entry ∷ entries) = not (is_some (lookup entry.0 entries)) && is_keyed entries

  pub is_keyed-insert :
      (key : K) (new : V) (m : Map K V) → is_keyed m ≡ true → is_keyed (insert key new m) ≡ true
  unfolding insert lookup
  is_keyed-insert key new [] h = refl
  is_keyed-insert key new ((at, old) ∷ m) h = ground (
    arith,
    is_keyed-insert key new m,
    lookup-insert key at new m,
    e.same_iff at key,
    e.same_iff key at,
  )

  pub is_keyed-erase : (key : K) (m : Map K V) → is_keyed m ≡ true → is_keyed (erase key m) ≡ true
  unfolding erase lookup
  is_keyed-erase key [] h = refl
  is_keyed-erase key ((at, old) ∷ m) h = ground (arith, is_keyed-erase key m, lookup-erase key at m)

  erase-absent : (key : K) (m : Map K V) → lookup key m ≡ none → erase key m ≡ m
  unfolding erase lookup
  erase-absent key [] h = refl
  erase-absent key ((at, old) ∷ m) h = ground (arith, erase-absent key m)

  -- A removal takes out the one entry of the key, if it has one.
  pub length-erase :
      (key : K) (m : Map K V)
      → is_keyed m ≡ true
      → length m ≡ length (erase key m) + (if is_some (lookup key m) then 1 else 0)
  unfolding erase lookup
  length-erase key [] h = refl
  length-erase key ((at, old) ∷ m) h =
      ground (arith, length-erase key m, erase-absent key m, e.same_iff at key)
