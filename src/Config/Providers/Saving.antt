-- ===== src/Config/Providers/Saving.antt =====
-- shared/config/isched_config.cpp: what a file of configuration keeps, from `save` to `load`.
use isched.Common.{
  ℕ, suc, ◌≡◌, refl, sym, ap, ◌∙◌, true, false, not, ◌||◌, [], ◌∷◌, ◌++◌, map, Option, none, some,
  Text, text_eq, text_beq_iff, nat_eq, contains, all, is_digit, to_string, value-to_string, arith,
  Map, lookup, insert, lookup-insert, is_keyed,
}
use mathlib.Core.List.{append_assoc}
use isched.Config.Values.{
  ConfigValue, text, int, boolean, double, texts, pos, negsuc, int_to_string, parse_value,
  show_value, is_valid_key, is_key_code,
}
use isched.Config.Values.Reading.{is_plain, parse_value-show_value}
use isched.Config.Providers.{
  lines, split_at, is_blank, trim_left, trim_right, trim, is_comment, JsonConfigProvider,
  parse_line, read_lines, write_lines, load_file, save_file,
}

abbrev pub newline : ℕ
newline = 10

abbrev equals_sign : ℕ
equals_sign = b'='

pub contains-append : (s t : Text) (c : ℕ) → contains (s ++ t) c ≡ (contains s c || contains t c)
contains-append [] t c = refl
contains-append (d ∷ s) t c = ground (arith, contains-append s t c)

-- A line that is written with its newline is the first line that is read.
pub lines-line :
    (l rest : Text) → contains l newline ≡ false → lines (l ++ (newline ∷ rest)) ≡ l ∷ lines rest
unfolding lines
lines-line [] rest h = refl
lines-line (c ∷ l) rest h = ground (arith, lines-line l rest)

pub split_at-mark :
    (key s : Text) (mark : ℕ)
    → contains key mark ≡ false
    → split_at mark (key ++ (mark ∷ s)) ≡ some (key, s)
unfolding split_at
split_at-mark [] s mark h = ground arith
split_at-mark (c ∷ key) s mark h = ground (arith, split_at-mark key s mark)

trim_right-unblank : (s : Text) → all (λ c. not (is_blank c)) s ≡ true → trim_right s ≡ s
unfolding trim_right
trim_right-unblank [] h = refl
trim_right-unblank (c ∷ s) h = ground (arith, trim_right-unblank s)

pub trim-unblank : (s : Text) → all (λ c. not (is_blank c)) s ≡ true → trim s ≡ s
unfolding trim_left
trim-unblank [] h = unfold trim_right in refl
trim-unblank (c ∷ s) h = rw (trim_right-unblank (c ∷ s) h) (ground arith)

key_codes :
    (key : Text)
    → all is_key_code key ≡ true
    → (contains key newline ≡ false)
      × (contains key equals_sign ≡ false)
      × (all (λ c. not (is_blank c)) key ≡ true)
key_codes [] h = (refl, refl, refl)
key_codes (c ∷ key) h = ground (arith, key_codes key)

valid_key :
    (key rest : Text)
    → is_valid_key key ≡ true
    → (contains key newline ≡ false)
      × (contains key equals_sign ≡ false)
      × (trim key ≡ key)
      × (is_comment (key ++ rest) ≡ false)
unfolding is_valid_key
valid_key [] rest h = cc
valid_key (c ∷ key) rest h =
    let (n, e, b) = key_codes (c ∷ key) h in (n, e, trim-unblank (c ∷ key) b, ground arith)

module _ {F : Type 0} (stod : Text → Option F) (show_double : F → Text) where
  -- The text of a value stays on its line, is not trimmed, and reads as the value.
  pub record Survives (v : ConfigValue F) : Type 0 where
    pub on_its_line : contains (show_value show_double v) newline ≡ false
    pub untrimmed : trim (show_value show_double v) ≡ show_value show_double v
    pub reads : parse_value stod (show_value show_double v) [] ≡ v

  abbrev pub AllSurvive : Map Text (ConfigValue F) → Type 0
  AllSurvive [] = Unit
  AllSurvive (entry ∷ entries) = Survives entry.1 × AllSurvive entries

  abbrev line_of : Text × ConfigValue F → Text
  line_of entry = entry.0 ++ (equals_sign ∷ show_value show_double entry.1)

  parse_line-line_of :
      (key : Text) (v : ConfigValue F)
      → is_valid_key key ≡ true
      → Survives v
      → parse_line stod (line_of (key, v)) ≡ some (key, v)
  unfolding parse_line
  parse_line-line_of key v h s =
      let (n, e, t, c) = valid_key key (equals_sign ∷ show_value show_double v) h in
      rw (c, split_at-mark key (show_value show_double v) equals_sign e, t, s.untrimmed, s.reads)
        refl

  lines-write_lines :
      (entries : Map Text (ConfigValue F))
      → all (λ entry. is_valid_key entry.0) entries ≡ true
      → AllSurvive entries
      → lines (write_lines show_double entries) ≡ map line_of entries
  unfolding write_lines
  lines-write_lines [] h s = unfold lines in refl
  lines-write_lines ((key, v) ∷ entries) h s =
      let shown = show_value show_double v in
      let (n, e, t, c) = valid_key key (equals_sign ∷ shown) (ground arith) in
      ap lines
        (sym (append_assoc key (equals_sign ∷ shown) (newline ∷ write_lines show_double entries)))
      ∙ lines-line (line_of (key, v)) (write_lines show_double entries)
          (contains-append key (equals_sign ∷ shown) newline ∙ ground (arith, n, s.0.on_its_line))
      ∙ ap (◌∷◌ (line_of (key, v))) (lines-write_lines entries (ground arith) s.1)

  lookup-read_lines :
      (entries acc : Map Text (ConfigValue F)) (q : Text)
      → all (λ entry. is_valid_key entry.0) entries ≡ true
      → AllSurvive entries
      → is_keyed entries ≡ true
      → lookup q (read_lines stod (map line_of entries) acc)
        ≡ elim (lookup q entries) [ some v ↦ some v | none ↦ lookup q acc ]
  unfolding read_lines lookup
  lookup-read_lines [] acc q h s k = refl
  lookup-read_lines ((key, v) ∷ entries) acc q h s k =
      rw (read_lines, parse_line-line_of key v (ground arith) s.0)
        (lookup-read_lines entries (insert key v acc) q (ground arith) s.1 (ground arith)
          ∙ ground (arith, lookup-insert key q v acc, text_beq_iff key q))

  reads_back :
      (entries : Map Text (ConfigValue F)) (key : Text)
      → all (λ entry. is_valid_key entry.0) entries ≡ true
      → AllSurvive entries
      → is_keyed entries ≡ true
      → lookup key (read_lines stod (lines (write_lines show_double entries)) [])
        ≡ lookup key entries
  reads_back entries key h s k =
      rw (lines-write_lines entries h s)
        (lookup-read_lines entries [] key h s k ∙ (unfold lookup in ground arith))

  -- A file that is saved and then loaded, when it opens for both, finds under every key what was set
  -- there, if the keys are valid and what is written for each value reads as that value.
  pub load_file-save_file :
      (p : JsonConfigProvider F)
      → p.modified ≡ true
      → p.file.writable ≡ true
      → p.file.readable ≡ true
      → all (λ entry. is_valid_key entry.0) p.entries ≡ true
      → is_keyed p.entries ≡ true
      → AllSurvive p.entries
      → let again = load_file stod (save_file show_double p).1 in
        (again.0 ≡ true) × ((key : Text) → lookup key again.1.entries ≡ lookup key p.entries)
  unfolding load_file save_file
  load_file-save_file p m w r h k s =
      (ground arith, λ key. rw (m, w, r) (reads_back p.entries key h s k))

  digit_codes :
      (s : Text)
      → all is_digit s ≡ true
      → (contains s newline ≡ false) × (all (λ c. not (is_blank c)) s ≡ true)
  digit_codes [] h = (refl, refl)
  digit_codes (c ∷ s) h = ground (arith, digit_codes s)

  shown_codes :
      (v : ConfigValue F)
      → is_plain stod v ≡ true
      → (contains (show_value show_double v) newline ≡ false)
        × (all (λ c. not (is_blank c)) (show_value show_double v) ≡ true)
  unfolding show_value int_to_string
  shown_codes (int (pos n)) h = digit_codes (to_string n) (value-to_string n).1
  shown_codes (int (negsuc n)) h =
      ground (arith, digit_codes (to_string (suc n)) (value-to_string (suc n)).1)
  shown_codes (boolean true) h = (refl, refl)
  shown_codes (boolean false) h = (refl, refl)
  shown_codes (text s) h = cc
  shown_codes (double x) h = cc
  shown_codes (texts ts) h = cc

  -- Every `bool` and every `int` survives.
  pub is_plain-Survives : (v : ConfigValue F) → is_plain stod v ≡ true → Survives v
  is_plain-Survives v h = record {
    on_its_line = (shown_codes v h).0;
    untrimmed = trim-unblank (show_value show_double v) (shown_codes v h).1;
    reads = parse_value-show_value stod show_double v h;
  }
