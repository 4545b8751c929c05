-- ===== src/Files/Steps.antt =====
-- shared/fs/isched_fs_utils.cpp: what each step of the loop keeps.
use isched.Common.{
  ℕ, zero, suc, ◌≡◌, refl, true, false, [], ◌∷◌, Option, none, some, Text, nat_eq, ◌==◌, drop, ◌⊎◌,
  inl, inr, sym, subst, ◌∙◌,
}
use isched.Files.{star_code, hits, after, stuck, choose, rest_of}
use isched.Files.Matching.{
  Matches, skips, takes, ends_of, unstar_rest, drop-rest_of, rest_of-drop, drop-nil, star-drop,
  star-found, Later, Follows, chosen-stuck, stars-match, match-stars,
}

abbrev pub Found : Option Text → Text → Option (Text × Text) → Type 0
Found p n star = Matches p n ⊎ Later star

pub mark_again :
    (q n : Text) → (k : ℕ) × Matches (some q) (drop k n) → Found (some q) n (some (q, n))
mark_again q n (zero, m) = inl m
mark_again q n (suc k, m) = inr (k, m)

pub starred-back :
    (q n : Text) (star : Option (Text × Text))
    → Follows (some (star_code ∷ q)) n star
    → Found (some (star_code ∷ q)) n star
    → Found (some q) n (some (q, n))
starred-back q n star f (inl m) = mark_again q n (star-found q n m)
starred-back q n none f (inr l) = absurd cc
starred-back q n (some mark) f (inr (k, m)) =
    mark_again q n (star-found q n (star-drop (suc k) q n (f (suc k) m)))

pub starred-forth :
    (q n : Text) (star : Option (Text × Text))
    → Found (some q) n (some (q, n))
    → Found (some (star_code ∷ q)) n star
starred-forth q n star (inl m) = inl (skips q n m)
starred-forth q n star (inr (k, m)) = inl (star-drop (suc k) q n (skips q (drop (suc k) n) m))

pub taken-Follows :
    (x c : ℕ) (p n : Text) (star : Option (Text × Text))
    → x == star_code ≡ false
    → Follows (some (x ∷ p)) (c ∷ n) star
    → Follows (after (x ∷ p)) n star
taken-Follows x c p n none e f = refl
taken-Follows x c p n (some mark) e f = λ k m.
    subst (Matches (after (x ∷ p))) (rest_of-drop k (c ∷ n))
      (unstar_rest x p (drop k (c ∷ n)) e (f k m))

pub taken-forth :
    (x c : ℕ) (p n : Text) (star : Option (Text × Text))
    → x == star_code ≡ false
    → hits (x ∷ p) c ≡ true
    → Found (after (x ∷ p)) n star
    → Found (some (x ∷ p)) (c ∷ n) star
taken-forth x c p n star e h (inl m) = inl (takes x c p n e h m)
taken-forth x c p n star e h (inr l) = inr l

pub taken-back :
    (x c : ℕ) (p n : Text) (star : Option (Text × Text))
    → x == star_code ≡ false
    → Found (some (x ∷ p)) (c ∷ n) star
    → Found (after (x ∷ p)) n star
taken-back x c p n star e (inl m) = inl (unstar_rest x p (c ∷ n) e m)
taken-back x c p n star e (inr l) = inr l

pub stuck-forth :
    (p : Option Text) (n : Text) (mark : Text × Text)
    → Found (some mark.0) (rest_of mark.1) (some (mark.0, rest_of mark.1))
    → Found p n (some mark)
stuck-forth p n mark (inl m) =
    inr (zero, subst (Matches (some mark.0)) (sym (drop-rest_of zero mark.1) ∙ refl) m)
stuck-forth p n mark (inr (k, m)) =
    inr (suc k, subst (Matches (some mark.0)) (drop-rest_of (suc k) mark.1) m)

pub stuck-back :
    (p : Option Text) (c : ℕ) (n : Text) (mark : Text × Text)
    → choose p c ≡ stuck
    → Found p (c ∷ n) (some mark)
    → Found (some mark.0) (rest_of mark.1) (some (mark.0, rest_of mark.1))
stuck-back p c n mark h (inl m) = absurd (let e = chosen-stuck p c n h m in cc)
stuck-back p c n mark h (inr (zero, m)) =
    inl (subst (Matches (some mark.0)) (sym (drop-rest_of zero mark.1)) m)
stuck-back p c n mark h (inr (suc k, m)) =
    inr (k, subst (Matches (some mark.0)) (sym (drop-rest_of (suc k) mark.1)) m)

-- At the end of the name.
pub ends-forth :
    (p : Option Text) (star : Option (Text × Text)) → ends_of p ≡ true → Found p [] star
ends-forth none star h = absurd cc
ends-forth (some p) star h = inl (stars-match p h)

pub ends-back :
    (p : Option Text) (star : Option (Text × Text))
    → Follows p [] star
    → Found p [] star
    → ends_of p ≡ true
ends-back p star f (inl m) = match-stars p m
ends-back p none f (inr l) = absurd cc
ends-back p (some mark) f (inr (k, m)) =
    match-stars p (subst (Matches p) (drop-nil (suc k)) (f (suc k) m))
