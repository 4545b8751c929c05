-- ===== src/Files.antt =====
-- shared/fs/isched_fs_utils.cpp: `match_char_class` and `wildcard_match_segment`. A position in the pattern is
-- what is left of it there, and `none` behind its end, where an unclosed class leaves it.
pub mod Matching
pub mod Steps
pub mod Search
use isched.Common.{
  ℕ, zero, suc, ◌+◌, ◌*◌, ◌%◌, ◌≡◌, Bool, true, false, not, ◌&&◌, ◌||◌, List, [], ◌∷◌, Option, none,
  some, Text, nat_eq, ◌==◌, if◌then◌else◌, leb, length, is_empty,
}

abbrev pub star_code : ℕ
star_code = 42

-- `char` is signed: bytes from 128 on are below the others.
unfoldable pub in_range : ℕ → ℕ → ℕ → Bool
in_range a b c =
    if leb ((a + 128) % 256) ((b + 128) % 256)
    then leb ((a + 128) % 256) ((c + 128) % 256) && leb ((c + 128) % 256) ((b + 128) % 256)
    else leb ((b + 128) % 256) ((c + 128) % 256) && leb ((c + 128) % 256) ((a + 128) % 256)

-- Whether an item of the class takes the character; and what is left behind the class, if it is closed.
unfoldable pub scan_ok : Text → ℕ → Bool
scan_ok [] c = false
scan_ok (a ∷ []) c = if a == 93 then false else a == c
scan_ok (a ∷ d ∷ []) c = let rest = scan_ok (d ∷ []) c in if a == 93 then false else a == c || rest
scan_ok (a ∷ d ∷ b ∷ p) c =
    let behind = scan_ok p c in
    let rest = scan_ok (d ∷ b ∷ p) c in
    if a == 93
    then false
    else if d == 45 && not (b == 93)
    then in_range a b c || behind
    else a == c || rest

unfoldable pub scan_rest : Text → Option Text
scan_rest [] = none
scan_rest (a ∷ []) = if a == 93 then some [] else none
scan_rest (a ∷ d ∷ []) = let rest = scan_rest (d ∷ []) in if a == 93 then some (d ∷ []) else rest
scan_rest (a ∷ d ∷ b ∷ p) =
    let behind = scan_rest p in
    let rest = scan_rest (d ∷ b ∷ p) in
    if a == 93 then some (d ∷ b ∷ p) else if d == 45 && not (b == 93) then behind else rest

abbrev is_negation : Text → Bool
is_negation [] = false
is_negation (x ∷ p) = x == 33 || x == 94

abbrev pub items : Text → Text
items [] = []
items (x ∷ p) = if x == 33 || x == 94 then p else x ∷ p

-- With the pattern behind the `[`.
unfoldable pub match_char_class : Text → ℕ → Bool
match_char_class p c = elim (scan_rest (items p)) [
  | none ↦ c == 91
  | some rest ↦ if is_negation p then not (scan_ok (items p) c) else scan_ok (items p) c
]

-- Whether the next item of the pattern, which is no star, takes the character.
unfoldable pub hits : Text → ℕ → Bool
hits [] c = false
hits (x ∷ []) c =
    if x == star_code
    then false
    else if x == 63
    then true
    else if x == 91
    then match_char_class [] c
    else if x == 92
    then false
    else x == c
hits (x ∷ q ∷ p) c =
    if x == star_code
    then false
    else if x == 63
    then true
    else if x == 91
    then match_char_class (q ∷ p) c
    else if x == 92
    then q == c
    else x == c

abbrev pub behind_first : Text → Option Text
behind_first [] = none
behind_first (q ∷ p) = some p

-- The position behind that item.
unfoldable pub after : Text → Option Text
after [] = none
after (x ∷ p) = if x == 91 then scan_rest (items p) else if x == 92 then behind_first p else some p

-- `while (pi < pattern.size() && pattern[pi] == '*') ++pi; return pi == pattern.size();`
unfoldable pub only_stars : Text → Bool
only_stars [] = true
only_stars (x ∷ p) = x == star_code && only_stars p

pub data Choice : Type 0 where
  starred : Text → Choice
  taken : Option Text → Choice
  stuck : Choice

-- The tests of the loop's body at a character.
unfoldable pub choose : Option Text → ℕ → Choice
choose none c = stuck
choose (some []) c = stuck
choose (some (x ∷ p)) c =
    if x == star_code then starred p else if hits (x ∷ p) c then taken (after (x ∷ p)) else stuck

abbrev ends : Option Text → Bool
ends none = false
ends (some p) = only_stars p

abbrev pub rest_of : Text → Text
rest_of [] = []
rest_of (c ∷ n) = n

-- `star` and `match`: the pattern behind the last star, and the name where it was met. `none` when the
-- fuel runs out.
unfoldable pub wildcard_loop : ℕ → Option Text → Text → Option (Text × Text) → Option Bool
wildcard_loop zero p n star = none
wildcard_loop (suc fuel) p [] star = some (ends p)
wildcard_loop (suc fuel) p (c ∷ n) star = elim (choose p c) [
  | starred q ↦ wildcard_loop fuel (some q) (c ∷ n) (some (q, c ∷ n))
  | taken q ↦ wildcard_loop fuel q n star
  | stuck ↦ elim star [
    | none ↦ some false
    | some mark ↦ wildcard_loop fuel (some mark.0) (rest_of mark.1) (some (mark.0, rest_of mark.1))
  ]
]

unfoldable pub enough : Text → Text → ℕ
enough pattern name = suc (length name * suc (length pattern) + length pattern)

unfoldable pub wildcard_match_segment : Text → Text → Option Bool
wildcard_match_segment pattern name = wildcard_loop (enough pattern name) (some pattern) name none
