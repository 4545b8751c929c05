-- ===== src/Files/Matching.antt =====
-- shared/fs/isched_fs_utils.cpp: what a pattern matches.
use isched.Common.{
  ℕ, zero, suc, ◌≡◌, refl, Bool, true, false, [], ◌∷◌, Option, none, some, Text, nat_eq, ◌==◌, drop,
  arith, sym, subst,
}
use isched.Files.{star_code, hits, after, only_stars, starred, taken, stuck, choose, rest_of}

-- A star takes any characters, and every other item one that it hits.
pub data Matches : Option Text → Text → Type 0 where
  ends : Matches (some []) []
  skips : (p n : Text) → Matches (some p) n → Matches (some (star_code ∷ p)) n
  absorbs :
      (p n : Text) (c : ℕ)
      → Matches (some (star_code ∷ p)) n
      → Matches (some (star_code ∷ p)) (c ∷ n)
  takes :
      (x c : ℕ) (p n : Text)
      → x == star_code ≡ false
      → hits (x ∷ p) c ≡ true
      → Matches (after (x ∷ p)) n
      → Matches (some (x ∷ p)) (c ∷ n)

abbrev pub ends_of : Option Text → Bool
ends_of none = false
ends_of (some p) = only_stars p

-- What a match says, by its item.
pub unstar :
    (x c : ℕ) (p n : Text)
    → x == star_code ≡ false
    → Matches (some (x ∷ p)) (c ∷ n)
    → (hits (x ∷ p) c ≡ true) × Matches (after (x ∷ p)) n
unstar x c p n h (skips _ _ m) = absurd cc
unstar x c p n h (absorbs _ _ _ m) = absurd cc
unstar x c p n h (takes _ _ _ _ e f m) = (f, m)

pub unstar_rest :
    (x : ℕ) (p m : Text)
    → x == star_code ≡ false
    → Matches (some (x ∷ p)) m
    → Matches (after (x ∷ p)) (rest_of m)
unstar_rest x p m h (skips _ _ k) = absurd cc
unstar_rest x p m h (absorbs _ _ _ k) = absurd cc
unstar_rest x p m h (takes _ _ _ _ e f k) = k

pub drop-rest_of : (k : ℕ) (n : Text) → drop k (rest_of n) ≡ drop (suc k) n
drop-rest_of zero [] = refl
drop-rest_of (suc k) [] = refl
drop-rest_of k (c ∷ n) = refl

pub rest_of-drop : (k : ℕ) (n : Text) → rest_of (drop k n) ≡ drop (suc k) n
rest_of-drop zero [] = refl
rest_of-drop zero (c ∷ n) = refl
rest_of-drop (suc k) [] = refl
rest_of-drop (suc k) (c ∷ n) = rest_of-drop k n

pub drop-nil : (k : ℕ) → drop {A = ℕ} k [] ≡ []
drop-nil zero = refl
drop-nil (suc k) = refl

-- A star takes whatever is dropped.
pub star-drop :
    (k : ℕ) (p n : Text)
    → Matches (some (star_code ∷ p)) (drop k n)
    → Matches (some (star_code ∷ p)) n
star-drop zero p n m = m
star-drop (suc k) p [] m = m
star-drop (suc k) p (c ∷ n) m = absorbs p n c (star-drop k p n m)

pub star-found :
    (p n : Text) → Matches (some (star_code ∷ p)) n → (k : ℕ) × Matches (some p) (drop k n)
star-found p n (skips _ _ m) = (zero, m)
star-found p n (absorbs _ r c m) = let (k, found) = star-found p r m in (suc k, found)
star-found p n (takes _ _ _ _ e f m) = absurd cc

-- The mark: the pattern behind the last star, which is tried at the later places of the name.
abbrev pub Later : Option (Text × Text) → Type 0
Later none = true ≡ false
Later (some mark) = (k : ℕ) × Matches (some mark.0) (drop (suc k) mark.1)

-- Wherever the mark's pattern matches, what is left of the pattern matches as far along.
abbrev pub Follows : Option Text → Text → Option (Text × Text) → Type 0
Follows p n none = true ≡ true
Follows p n (some mark) = (k : ℕ) → Matches (some mark.0) (drop k mark.1) → Matches p (drop k n)

pub chosen-starred :
    (p : Option Text) (c : ℕ) (q : Text) → choose p c ≡ starred q → p ≡ some (star_code ∷ q)
unfolding choose
chosen-starred none c q h = cc
chosen-starred (some []) c q h = cc
chosen-starred (some (x ∷ p)) c q h = ground (arith, h)

-- What a step past an item is.
pub chosen-taken :
    (p : Option Text) (c : ℕ) (q : Option Text)
    → choose p c ≡ taken q
    → (x : ℕ) × (r : Text) × (p ≡ some (x ∷ r))
      × (x == star_code ≡ false)
      × (hits (x ∷ r) c ≡ true)
      × (q ≡ after (x ∷ r))
unfolding choose
chosen-taken none c q h = cc
chosen-taken (some []) c q h = cc
chosen-taken (some (x ∷ p)) c q h =
    (x, p, refl, ground (arith, h), ground (arith, h), ground (arith, h))

pub chosen-stuck :
    (p : Option Text) (c : ℕ) (n : Text) → choose p c ≡ stuck → Matches p (c ∷ n) → true ≡ false
unfolding choose
chosen-stuck p c n h (skips _ _ m) = ground (arith, h)
chosen-stuck p c n h (absorbs _ _ _ m) = ground (arith, h)
chosen-stuck p c n h (takes _ _ _ _ e f m) = ground (arith, h, e, f)

pub is_star : (x : ℕ) (p : Text) → only_stars (x ∷ p) ≡ true → x ≡ star_code
unfolding only_stars
is_star x p h = ground (arith, h)

pub stars-match : (p : Text) → only_stars p ≡ true → Matches (some p) []
unfolding only_stars
stars-match [] h = ends
stars-match (x ∷ p) h =
    subst (λ y. Matches (some (y ∷ p)) []) (sym (is_star x p h))
      (skips p [] (stars-match p (ground (arith, h))))

pub match-stars : (p : Option Text) → Matches p [] → ends_of p ≡ true
unfolding only_stars
match-stars p ends = refl
match-stars p (skips q _ m) = match-stars (some q) m
