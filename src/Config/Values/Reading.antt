-- ===== src/Config/Values/Reading.antt =====
-- What `config_utils` reads of the texts that it writes, and of other texts.
use isched.Common.{
  ℕ, suc, ◌+◌, ◌-◌, ◌*◌, ◌≡◌, refl, Bool, true, false, [], ◌∷◌, ◌∙◌, Option, some, Text, codes,
  text_eq, text_beq, ◌==◌, nat_eq, ltb, is_empty, contains, all, is_digit, to_string, value,
  value-to_string, arith,
}
use isched.Config.Values.{
  ℤ, pos, negsuc, ConfigValue, text, int, boolean, double, texts, skip_spaces, leading,
  starts_in_digit, signed, stoi, int_to_string, parse_value, show_value, int_min_size,
}

leading-digits : (acc : ℕ) (s : Text) → all is_digit s ≡ true → leading acc s ≡ value acc s
unfolding leading value
leading-digits acc [] h = refl
leading-digits acc (c ∷ s) h = ground (arith, leading-digits (acc * 10 + (c - b'0')) s)

-- A text that starts in a digit is read as it stands.
stoi-digits : (s : Text) → starts_in_digit s ≡ true → stoi s ≡ signed false (leading 0 s)
unfolding stoi skip_spaces
stoi-digits [] h = cc
stoi-digits (c ∷ s) h = ground arith

digits-start : (s : Text) → is_empty s ≡ false → all is_digit s ≡ true → starts_in_digit s ≡ true
digits-start [] e h = cc
digits-start (c ∷ s) e h = ground arith

-- An `int` in range.
abbrev pub is_int : ℤ → Bool
is_int (pos n) = ltb n int_min_size
is_int (negsuc n) = ltb n int_min_size

stoi-negative : (s : Text) → starts_in_digit s ≡ true → stoi (b'-' ∷ s) ≡ signed true (leading 0 s)
unfolding stoi skip_spaces
stoi-negative s h = ground arith

stoi-int_to_string : (i : ℤ) → is_int i ≡ true → stoi (int_to_string i) ≡ some i
unfolding int_to_string
stoi-int_to_string (pos n) h =
    let (e, d, m) = value-to_string n in
    let start = digits-start (to_string n) m d in
    ground (arith, e, stoi-digits (to_string n) start, leading-digits 0 (to_string n) d)
stoi-int_to_string (negsuc n) h =
    let (e, d, m) = value-to_string (suc n) in
    let start = digits-start (to_string (suc n)) m d in
    ground
      (arith, e, stoi-negative (to_string (suc n)) start, leading-digits 0 (to_string (suc n)) d)

no_point : (s : Text) → all is_digit s ≡ true → contains s b'.' ≡ false
no_point [] h = refl
no_point (c ∷ s) h = ground (arith, no_point s)

no_word :
    (c : ℕ) (s : Text)
    → ltb c b'f' ≡ true
    → (((c ∷ s) == codes "true") ≡ false) × (((c ∷ s) == codes "false") ≡ false)
unfolding text_beq
no_word c s h = (ground arith, ground arith)

module _ {F : Type 0} (stod : Text → Option F) where
  -- A text that starts in a digit and has no point is no text to the reader, whatever follows the digits.
  pub parse_value-digits :
      (s : Text)
      → starts_in_digit s ≡ true
      → contains s b'.' ≡ false
      → ltb (leading 0 s) int_min_size ≡ true
      → parse_value stod s [] ≡ int (pos (leading 0 s))
  unfolding parse_value text_beq
  parse_value-digits [] h p small = cc
  parse_value-digits (c ∷ s) h p small =
      let (t, f) = no_word c s (ground arith) in ground (arith, t, f, stoi-digits (c ∷ s) h)

  parse_value-int_to_string :
      (i : ℤ) → is_int i ≡ true → parse_value stod (int_to_string i) [] ≡ int i
  unfolding int_to_string
  parse_value-int_to_string (pos n) h =
      let (e, d, m) = value-to_string n in
      let l = leading-digits 0 (to_string n) d in
      parse_value-digits (to_string n) (digits-start (to_string n) m d) (no_point (to_string n) d)
        (ground (arith, e, l))
      ∙ ground (arith, e, l)
  parse_value-int_to_string (negsuc n) h =
      let (e, d, m) = value-to_string (suc n) in
      let (t, f) = no_word b'-' (to_string (suc n)) refl in
      unfold parse_value text_beq in
      ground (arith, t, f, no_point (to_string (suc n)) d, stoi-int_to_string (negsuc n) h)

  -- The kinds of value that are written and read back as they are.
  abbrev pub is_plain : ConfigValue F → Bool
  is_plain (text s) = false
  is_plain (int i) = is_int i
  is_plain (boolean b) = true
  is_plain (double x) = false
  is_plain (texts ts) = false

  -- Every `bool` and every `int` is read back from what is written for it.
  pub parse_value-show_value :
      (show_double : F → Text) (v : ConfigValue F)
      → is_plain v ≡ true
      → parse_value stod (show_value show_double v) [] ≡ v
  unfolding show_value parse_value text_beq
  parse_value-show_value show_double (int i) h = parse_value-int_to_string i h
  parse_value-show_value show_double (boolean true) h = refl
  parse_value-show_value show_double (boolean false) h = refl
  parse_value-show_value show_double (text s) h = cc
  parse_value-show_value show_double (double x) h = cc
  parse_value-show_value show_double (texts ts) h = cc
