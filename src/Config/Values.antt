-- ===== src/Config/Values.antt =====
-- shared/config/isched_config.hpp and .cpp: configuration values, and `config_utils`, which reads them
-- from texts and writes them. Floating-point numbers are a type `F`, and what the C++ library reads and
-- writes of them are parameters; `std::stoi` and `std::to_string` of an `int` are written out.
pub mod Reading
use isched.Common.{
  ℕ, zero, suc, ◌+◌, ◌-◌, ◌*◌, ◌%◌, ◌≡◌, refl, Bool, true, false, not, ◌&&◌, ◌||◌, List, [], ◌∷◌,
  ◌++◌, Option, none, some, Text, codes, text_eq, ◌==◌, nat_eq, if◌then◌else◌, ltb, leb, is_empty,
  contains, all, is_digit, to_string, text_beq,
}

-- An `int` that is at least 0, or below it: `negsuc n` is -(n + 1).
pub data ℤ : Type 0 where
  pos : ℕ → ℤ
  negsuc : ℕ → ℤ

pub data ConfigValue (F : Type 0) : Type 0 where
  text : Text → ConfigValue F
  int : ℤ → ConfigValue F
  boolean : Bool → ConfigValue F
  double : F → ConfigValue F
  texts : List Text → ConfigValue F

abbrev pub int_min_size : ℕ
int_min_size = 2147483648

-- The spaces that `std::isspace` knows.
abbrev pub is_space : ℕ → Bool
is_space c = c == 32 || leb 9 c && leb c 13

unfoldable pub skip_spaces : Text → Text
skip_spaces [] = []
skip_spaces (c ∷ s) = if is_space c then skip_spaces s else c ∷ s

-- The number that the leading digits stand for.
unfoldable pub leading : ℕ → Text → ℕ
leading acc [] = acc
leading acc (c ∷ s) = if is_digit c then leading (acc * 10 + (c - b'0')) s else acc

abbrev pub starts_in_digit : Text → Bool
starts_in_digit [] = false
starts_in_digit (c ∷ s) = is_digit c

abbrev pub signed : Bool → ℕ → Option ℤ
signed true zero = some (pos 0)
signed true (suc n) = if ltb n int_min_size then some (negsuc n) else none
signed false n = if ltb n int_min_size then some (pos n) else none

abbrev pub stoi_digits : Bool → Text → Option ℤ
stoi_digits below s = if starts_in_digit s then signed below (leading 0 s) else none

abbrev pub stoi_sign : Text → Option ℤ
stoi_sign [] = none
stoi_sign (c ∷ s) =
    if c == b'-'
    then stoi_digits true s
    else if c == b'+'
    then stoi_digits false s
    else stoi_digits false (c ∷ s)

-- `std::stoi`, which reads the longest number at the start of a text; `none` is an exception.
unfoldable pub stoi : Text → Option ℤ
stoi s = stoi_sign (skip_spaces s)

unfoldable pub int_to_string : ℤ → Text
int_to_string (pos n) = to_string n
int_to_string (negsuc n) = b'-' ∷ to_string (suc n)

abbrev pub joined : List Text → Text
joined [] = []
joined (s ∷ []) = s
joined (s ∷ t ∷ ts) = s ++ (b',' ∷ joined (t ∷ ts))

module _ {F : Type 0} where
  abbrev pub or_text : Text → Option (ConfigValue F) → ConfigValue F
  or_text s none = text s
  or_text s (some v) = v

  abbrev pub as_int : Option ℤ → Option (ConfigValue F)
  as_int none = none
  as_int (some i) = some (int i)

  abbrev pub as_double : Option F → Option (ConfigValue F)
  as_double none = none
  as_double (some x) = some (double x)

  unfoldable pub parse_value : (Text → Option F) → Text → Text → ConfigValue F
  parse_value stod value type_hint =
      if type_hint == codes "bool" || (value == codes "true" || value == codes "false")
      then boolean (value == codes "true")
      else if type_hint == codes "int"
      then or_text value (as_int (stoi value))
      else if type_hint == codes "double"
      then or_text value (as_double (stod value))
      else if contains value b'.'
      then or_text value (as_double (stod value))
      else or_text value (as_int (stoi value))

  unfoldable pub show_value : (F → Text) → ConfigValue F → Text
  show_value show_double (text s) = s
  show_value show_double (boolean b) = if b then codes "true" else codes "false"
  show_value show_double (int i) = int_to_string i
  show_value show_double (double x) = show_double x
  show_value show_double (texts ts) = joined ts

abbrev pub is_alnum : ℕ → Bool
is_alnum c = is_digit c || (leb b'A' c && leb c b'Z' || leb b'a' c && leb c b'z')

abbrev pub is_key_code : ℕ → Bool
is_key_code c = is_alnum c || (c == b'.' || c == b'_')

unfoldable pub is_valid_key : Text → Bool
is_valid_key key = if is_empty key then false else all is_key_code key
