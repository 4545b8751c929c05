-- ===== src/Files/Search.antt =====
-- shared/fs/isched_fs_utils.cpp: that the loop, with its one mark, finds a match.
use isched.Common.{
  ℕ, zero, suc, ◌+◌, ◌*◌, ◌≤◌, ◌<◌, ◌≡◌, refl, Bool, true, false, [], ◌∷◌, Option, none, some, Text,
  nat_eq, length, contains, arith, ◌↔◌, ◌⊎◌, inl, inr, Bool-cases, sym, subst, ◌∙◌, ap,
}
use native.Mathlib.Nat.{suc-mul, mul-le-mul_right}
use isched.Files.{
  after, Choice, starred, taken, stuck, choose, rest_of, wildcard_loop, enough,
  wildcard_match_segment, scan_rest, items,
}
use isched.Files.Matching.{
  Matches, ends, skips, absorbs, takes, ends_of, unstar_rest, Follows, chosen-starred, chosen-taken,
  chosen-stuck,
}
use isched.Files.Steps.{
  Found, starred-back, starred-forth, taken-Follows, taken-forth, taken-back, stuck-forth,
  stuck-back, ends-forth, ends-back,
}

-- The measure of the loop.
abbrev size : Option Text → ℕ
size none = 0
size (some p) = length p

scan_rest-size : (p : Text) → size (scan_rest p) ≤ length p
unfolding scan_rest
scan_rest-size [] = omega arith
scan_rest-size (a ∷ []) = ground arith
scan_rest-size (a ∷ d ∷ []) = ground (arith, scan_rest-size (d ∷ []))
scan_rest-size (a ∷ d ∷ b ∷ p) = ground (arith, scan_rest-size p, scan_rest-size (d ∷ b ∷ p))

after-size : (x : ℕ) (p : Text) → size (after (x ∷ p)) ≤ length p
unfolding after scan_rest
after-size x [] = ground arith
after-size x (q ∷ p) = ground (arith, scan_rest-size p, scan_rest-size (q ∷ p))

-- The mark lies before the place in the name, and its pattern is shorter than the whole one.
abbrev Holds : ℕ → Text → Option (Text × Text) → Type 0
Holds bound n none = true ≡ true
Holds bound n (some mark) = (length mark.0 < bound) × (length n ≤ length mark.1)

abbrev cost : ℕ → Text → Option (Text × Text) → ℕ
cost bound n none = length n * bound
cost bound n (some mark) = length mark.1 * bound

Decided : Option Bool → Type 0 → Type 0
Decided answer T = (b : Bool) × (answer ≡ some b) × ((b ≡ true) ↔ T)

done_lem :
    (p : Option Text) (star : Option (Text × Text))
    → Follows p [] star
    → Decided (some (ends_of p)) (Found p [] star)
unfolding Decided
done_lem p star f = (ends_of p, refl, (ends-forth p star, ends-back p star f))

Decided-map :
    (answer other : Option Bool) (S T : Type 0)
    → other ≡ answer
    → Decided answer S
    → (S → T)
    → (T → S)
    → Decided other T
unfolding Decided
Decided-map answer other S T e (b, h, (forth, back)) f g =
    (b, e ∙ h, (λ x. f (forth x), λ t. back (g t)))

Choice-cases :
    (x : Choice)
    → ((q : Text) × (x ≡ starred q)) ⊎ (((q : Option Text) × (x ≡ taken q)) ⊎ (x ≡ stuck))
Choice-cases (starred q) = inl (q, refl)
Choice-cases (taken q) = inr (inl (q, refl))
Choice-cases stuck = inr (inr refl)

module _ (fuel : ℕ) (p : Option Text) (c : ℕ) (n : Text) where
  loop-starred :
      (q : Text) (star : Option (Text × Text))
      → choose p c ≡ starred q
      → wildcard_loop (suc fuel) p (c ∷ n) star
        ≡ wildcard_loop fuel (some q) (c ∷ n) (some (q, c ∷ n))
  unfolding wildcard_loop
  loop-starred q star e = rw (e, wildcard_loop) refl

  loop-taken :
      (q : Option Text) (star : Option (Text × Text))
      → choose p c ≡ taken q
      → wildcard_loop (suc fuel) p (c ∷ n) star ≡ wildcard_loop fuel q n star
  unfolding wildcard_loop
  loop-taken q star e = rw (e, wildcard_loop) refl

  loop-stuck :
      (mark : Text × Text)
      → choose p c ≡ stuck
      → wildcard_loop (suc fuel) p (c ∷ n) (some mark)
        ≡ wildcard_loop fuel (some mark.0) (rest_of mark.1) (some (mark.0, rest_of mark.1))
  unfolding wildcard_loop
  loop-stuck mark e = rw (e, wildcard_loop) refl

  loop-failed : choose p c ≡ stuck → wildcard_loop (suc fuel) p (c ∷ n) none ≡ some false
  unfolding wildcard_loop
  loop-failed e = rw (e, wildcard_loop) refl

cost-least :
    (bound : ℕ) (n : Text) (star : Option (Text × Text))
    → Holds bound n star
    → length n * bound ≤ cost bound n star
cost-least bound n none h = omega arith
cost-least bound n (some mark) h = mul-le-mul_right bound h.1

taken-Holds :
    (bound c : ℕ) (n : Text) (star : Option (Text × Text))
    → Holds bound (c ∷ n) star
    → Holds bound n star
taken-Holds bound c n none h = refl
taken-Holds bound c n (some mark) (h, k) = (h, omega (arith, k))

taken-cost :
    (bound c : ℕ) (n : Text) (star : Option (Text × Text))
    → cost bound n star ≤ cost bound (c ∷ n) star
taken-cost bound c n none = omega (arith, suc-mul (length n) bound)
taken-cost bound c n (some mark) = omega arith

-- A mark that holds has a place behind it.
stuck-cost :
    (bound c : ℕ) (n : Text) (mark : Text × Text)
    → Holds bound (c ∷ n) (some mark)
    → length (rest_of mark.1) * bound + bound ≡ length mark.1 * bound
stuck-cost bound c n (sp, []) (h, k) = absurd (omega (arith, k))
stuck-cost bound c n (sp, d ∷ m) (h, k) = sym (suc-mul (length m) bound)

found_alone : (p : Option Text) (n : Text) → Found p n none → Matches p n
found_alone p n (inl m) = m
found_alone p n (inr l) = absurd cc

failed_lem :
    (p : Option Text) (c : ℕ) (n : Text) → choose p c ≡ stuck → Found p (c ∷ n) none → false ≡ true
failed_lem p c n e (inl m) = sym (chosen-stuck p c n e m)
failed_lem p c n e (inr l) = sym l

none_lem : (p : Option Text) (n : Text) → false ≡ true → Found p n none
none_lem p n h = inr (sym h)

stuck_lem :
    (fuel : ℕ) (p : Option Text) (c : ℕ) (n : Text) (star : Option (Text × Text))
    → choose p c ≡ stuck
    → ((mark : Text × Text)
        → star ≡ some mark
        → Decided
            (wildcard_loop fuel (some mark.0) (rest_of mark.1) (some (mark.0, rest_of mark.1)))
            (Found (some mark.0) (rest_of mark.1) (some (mark.0, rest_of mark.1))))
    → Decided (wildcard_loop (suc fuel) p (c ∷ n) star) (Found p (c ∷ n) star)
unfolding Decided
stuck_lem fuel p c n none e ih =
    (false, loop-failed fuel p c n e, (none_lem p (c ∷ n), failed_lem p c n e))
stuck_lem fuel p c n (some mark) e ih =
    Decided-map (wildcard_loop fuel (some mark.0) (rest_of mark.1) (some (mark.0, rest_of mark.1)))
      (wildcard_loop (suc fuel) p (c ∷ n) (some mark))
      (Found (some mark.0) (rest_of mark.1) (some (mark.0, rest_of mark.1)))
      (Found p (c ∷ n) (some mark)) (loop-stuck fuel p c n mark e) (ih mark refl)
      (stuck-forth p (c ∷ n) mark) (stuck-back p c n mark e)

search :
    (fuel bound : ℕ) (p : Option Text) (n : Text) (star : Option (Text × Text))
    → Follows p n star
    → Holds bound n star
    → size p < bound
    → cost bound n star + size p < fuel
    → Decided (wildcard_loop fuel p n star) (Found p n star)
unfolding wildcard_loop
search zero bound p n star f h s w = absurd (omega (arith, w))
search (suc fuel) bound p [] star f h s w = done_lem p star f
search (suc fuel) bound p (c ∷ n) star f h s w = elim (Choice-cases (choose p c)) [
  | inl (q, e) ↦
      let pe = chosen-starred p c q e in
      let shorter = ap size pe in
      Decided-map (wildcard_loop fuel (some q) (c ∷ n) (some (q, c ∷ n)))
        (wildcard_loop (suc fuel) p (c ∷ n) star) (Found (some q) (c ∷ n) (some (q, c ∷ n)))
        (Found p (c ∷ n) star) (loop-starred fuel p c n q star e)
        (search fuel bound (some q) (c ∷ n) (some (q, c ∷ n)) (λ k m. m)
          (omega (arith, shorter, s), omega arith) (omega (arith, shorter, s))
          (omega (arith, shorter, w, cost-least bound (c ∷ n) star h)))
        (λ x. subst (λ y. Found y (c ∷ n) star) (sym pe) (starred-forth q (c ∷ n) star x))
        (λ x.
          starred-back q (c ∷ n) star (subst (λ y. Follows y (c ∷ n) star) pe f)
            (subst (λ y. Found y (c ∷ n) star) pe x))
  | inr (inl (q, e)) ↦
      let (x, r, pe, e1, e2, qe) = chosen-taken p c q e in
      let shorter = ap size pe in
      let behind = ap size qe in
      Decided-map (wildcard_loop fuel q n star) (wildcard_loop (suc fuel) p (c ∷ n) star)
        (Found q n star) (Found p (c ∷ n) star) (loop-taken fuel p c n q star e)
        (search fuel bound q n star
          (subst (λ y. Follows y n star) (sym qe)
            (taken-Follows x c r n star e1 (subst (λ y. Follows y (c ∷ n) star) pe f)))
          (taken-Holds bound c n star h) (omega (arith, shorter, behind, after-size x r, s))
          (omega (arith, shorter, behind, after-size x r, w, taken-cost bound c n star)))
        (λ y.
          subst (λ z. Found z (c ∷ n) star) (sym pe)
            (taken-forth x c r n star e1 e2 (subst (λ z. Found z n star) qe y)))
        (λ y.
          subst (λ z. Found z n star) (sym qe)
            (taken-back x c r n star e1 (subst (λ z. Found z (c ∷ n) star) pe y)))
  | inr (inr e) ↦ stuck_lem fuel p c n star e (λ mark me.
      let held = subst (Holds bound (c ∷ n)) me h in
      let spent = subst (λ y. cost bound (c ∷ n) y + size p < suc fuel) me w in
      search fuel bound (some mark.0) (rest_of mark.1) (some (mark.0, rest_of mark.1)) (λ k m. m)
        (held.0, omega arith) held.0 (omega (arith, held.0, spent, stuck-cost bound c n mark held)))
]

-- The loop ends for every pattern and every name, with the fuel that it is given, and finds a match
-- exactly if there is one: the one mark that it keeps, for the last star, is enough.
pub wildcard_match_segment-Matches :
    (pattern name : Text)
    → (b : Bool) × (wildcard_match_segment pattern name ≡ some b)
      × ((b ≡ true) ↔ Matches (some pattern) name)
unfolding wildcard_match_segment enough Decided
wildcard_match_segment-Matches pattern name =
    let (b, e, (forth, back)) =
      search (enough pattern name) (suc (length pattern)) (some pattern) name none refl refl
        (omega arith) (omega arith) in
    (b, e, (λ h. found_alone (some pattern) name (forth h), λ m. back (inl m)))

unclosed : (p : Text) → contains p 93 ≡ false → scan_rest p ≡ none
unfolding scan_rest
unclosed [] h = refl
unclosed (a ∷ []) h = ground (arith, h)
unclosed (a ∷ d ∷ []) h = ground (arith, h, unclosed (d ∷ []))
unclosed (a ∷ d ∷ b ∷ p) h = ground (arith, h, unclosed p, unclosed (d ∷ b ∷ p))

unclosed_items : (p : Text) → contains p 93 ≡ false → scan_rest (items p) ≡ none
unclosed_items [] h = unclosed [] h
unclosed_items (x ∷ p) h = ground (arith, h, unclosed p, unclosed (x ∷ p))

behind_end : (q : Option Text) (n : Text) → q ≡ none → Matches q n → true ≡ false
behind_end q n e ends = cc
behind_end q n e (skips _ _ m) = cc
behind_end q n e (absorbs _ _ _ m) = cc
behind_end q n e (takes _ _ _ _ f g m) = cc

after-unclosed : (p : Text) → contains p 93 ≡ false → after (91 ∷ p) ≡ none
unfolding after
after-unclosed p h = unclosed_items p h

-- A pattern that starts with a class that is not closed matches no name, not even the one that it is.
pub unclosed_class-unmatched :
    (p name : Text) → contains p 93 ≡ false → wildcard_match_segment (91 ∷ p) name ≡ some false
unclosed_class-unmatched p name h =
    let (b, e, (forth, back)) = wildcard_match_segment-Matches (91 ∷ p) name in
    elim (Bool-cases b) [
      | inl t ↦ absurd (
          let contradiction =
            behind_end (after (91 ∷ p)) (rest_of name) (after-unclosed p h)
              (unstar_rest 91 p name refl (forth t)) in
          cc)
      | inr t ↦ e ∙ ap some t
    ]
