-- ===== src/Common/Decimal.antt =====
-- `std::to_string` of an unsigned number.
use Prim.Native.Nat.{ℕ, zero, suc, ◌+◌, ◌-◌, ◌*◌, ◌/◌, ◌%◌, ◌<◌}
use mathlib.Core.Path.{◌≡◌, refl, ap, sym, ◌∙◌}
use mathlib.Core.List.{List, [], ◌∷◌, ◌++◌}
use native.Mathlib.Omega.{arith}
use isched.Common.Tests.{Text, codes, ltb, leb, if◌then◌else◌, Bool-cases}
use isched.Common.Lists.{all, is_empty}
use mathlib.Core.Logic.{inl, inr}
use mathlib.Core.Bool.{Bool, true, false, ◌&&◌}

-- The digits of `n`; `fuel` bounds their number.
digits : ℕ → ℕ → Text
digits zero n = []
digits (suc fuel) n =
    let more = digits fuel (n / 10) ++ (b'0' + n % 10) ∷ [] in
    if ltb n 10 then (b'0' + n) ∷ [] else more

unfoldable pub to_string : ℕ → Text
unfolding digits
to_string n = digits (suc n) n

-- The number that a text of digits stands for, after a prefix that stands for `acc`.
unfoldable pub value : ℕ → Text → ℕ
value acc [] = acc
value acc (c ∷ s) = value (acc * 10 + (c - b'0')) s

value-append :
    (acc : ℕ) (s : Text) (c : ℕ) → value acc (s ++ c ∷ []) ≡ value acc s * 10 + (c - b'0')
unfolding value
value-append acc [] c = refl
value-append acc (d ∷ s) c = value-append (acc * 10 + (d - b'0')) s c

value-digits : (fuel n : ℕ) → n < fuel → value 0 (digits fuel n) ≡ n
unfolding digits
value-digits zero n h = absurd (omega arith)
value-digits (suc fuel) n h = elim (Bool-cases (ltb n 10)) [
  | inl small ↦ rw small (unfold value in omega arith)
  | inr large ↦ rw large (
      value-append 0 (digits fuel (n / 10)) _
      ∙ step (value-digits fuel (n / 10) (ground arith)) (ground arith))
]
  where
    step :
        value 0 (digits fuel (n / 10)) ≡ n / 10
        → ltb n 10 ≡ false
        → value 0 (digits fuel (n / 10)) * 10 + (b'0' + n % 10 - b'0') ≡ n
    step e _ = omega arith

abbrev pub is_digit : ℕ → Bool
is_digit c = leb b'0' c && leb c b'9'

all-append {ℓ} :
    {A : Type ℓ} (p : A → Bool) (xs ys : List A) → all p (xs ++ ys) ≡ (all p xs && all p ys)
all-append p [] ys = refl
all-append p (x ∷ xs) ys = ground (arith, all-append p xs ys)

is_empty-snoc {ℓ} : {A : Type ℓ} (xs : List A) (y : A) → is_empty (xs ++ y ∷ []) ≡ false
is_empty-snoc [] y = refl
is_empty-snoc (x ∷ xs) y = refl

digits-all : (fuel n : ℕ) → all is_digit (digits fuel n) ≡ true
unfolding digits
digits-all zero n = refl
digits-all (suc fuel) n = ground (
  arith,
  digits-all fuel (n / 10),
  all-append is_digit (digits fuel (n / 10)) ((b'0' + n % 10) ∷ []),
)

-- A number is written in digits, at least one, and reading them gives it back.
pub value-to_string :
    (n : ℕ)
    → (value 0 (to_string n) ≡ n)
      × (all is_digit (to_string n) ≡ true)
      × (is_empty (to_string n) ≡ false)
unfolding to_string
value-to_string n = (
  value-digits (suc n) n (omega arith),
  digits-all (suc n) n,
  unfold digits in ground (arith, is_empty-snoc (digits n (n / 10)) (b'0' + n % 10)),
)

-- Distinct numbers have distinct texts.
pub to_string-injective : (m n : ℕ) → to_string m ≡ to_string n → m ≡ n
unfolding to_string
to_string-injective m n p =
    sym (value-digits (suc m) m (omega arith))
    ∙ ap (value 0) p
    ∙ value-digits (suc n) n (omega arith)

to_string_runs : to_string 405 ≡ codes "405"
unfolding to_string
to_string_runs = refl
