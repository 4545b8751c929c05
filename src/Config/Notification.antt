-- ===== src/Config/Notification.antt =====
-- Which callbacks hear of a key.
use isched.Common.{
  ℕ, ◌≡◌, refl, false, [], ◌∷◌, ◌++◌, none, some, nat_eq, text_eq, text_beq_iff, nat_beq_iff, Text,
  is_empty, get_last?, pop_back, Map, lookup, insert, arith,
}
use isched.Config.{
  ends_in_star, match_pattern, starts_with, star, Callbacks, register_change_callback, notified,
  notify_change_callbacks,
}

get_last?-snoc : (s : Text) (c : ℕ) → get_last? (s ++ (c ∷ [])) ≡ some c
get_last?-snoc [] c = refl
get_last?-snoc (d ∷ []) c = refl
get_last?-snoc (d ∷ e ∷ s) c = get_last?-snoc (e ∷ s) c

pop_back-snoc : (s : Text) (c : ℕ) → pop_back (s ++ (c ∷ [])) ≡ s
pop_back-snoc [] c = refl
pop_back-snoc (d ∷ []) c = refl
pop_back-snoc (d ∷ e ∷ s) c = cc (pop_back-snoc (e ∷ s) c)

-- A pattern that ends in a star matches exactly the texts that start with what is before the star.
pub match_pattern-prefix :
    (prefix str : Text) → match_pattern (prefix ++ (star ∷ [])) str ≡ starts_with str prefix
unfolding match_pattern
match_pattern-prefix [] str =
    ground (arith, text_beq_iff [] [], text_beq_iff (star ∷ []) (star ∷ []))
match_pattern-prefix (c ∷ prefix) str = ground (
  arith,
  get_last?-snoc (c ∷ prefix) star,
  pop_back-snoc (c ∷ prefix) star,
  text_beq_iff ((c ∷ prefix) ++ (star ∷ [])) (star ∷ []),
)

match_pattern-plain :
    (pattern str : Text)
    → is_empty pattern ≡ false
    → ends_in_star (get_last? pattern) ≡ false
    → match_pattern pattern str ≡ false
unfolding match_pattern
match_pattern-plain pattern str h i =
    ground (arith, text_beq_iff pattern (star ∷ []), nat_beq_iff star star)

module _ {C : Type 0} where
  notified-insert :
      (pattern other : Text) (id : ℕ) (callback : C) (m : Map ℕ (Text × C))
      → lookup id m ≡ none
      → match_pattern pattern other ≡ false
      → notified other (insert id (pattern, callback) m) ≡ notified other m
  unfolding notified insert lookup
  notified-insert pattern other id callback [] h i = ground arith
  notified-insert pattern other id callback (entry ∷ m) h i =
      ground (arith, notified-insert pattern other id callback m)

  -- A callback that is registered, under a number not in use, for a plain key, which is not empty and
  -- does not end in a star, is called for no key, not for that one either.
  pub register_change_callback-unheard :
      (key other : Text) (callback : C) (cs : Callbacks C)
      → is_empty key ≡ false
      → ends_in_star (get_last? key) ≡ false
      → lookup cs.next_callback_id cs.change_callbacks ≡ none
      → notify_change_callbacks other (register_change_callback key callback cs).1
        ≡ notify_change_callbacks other cs
  unfolding register_change_callback notify_change_callbacks
  register_change_callback-unheard key other callback cs h i j =
      notified-insert key other cs.next_callback_id callback cs.change_callbacks j
        (match_pattern-plain key other h i)
