-- ===== src/Config/Providers.antt =====
-- shared/config/isched_config.cpp: the providers of configuration, `JsonConfigProvider` and
-- `EnvironmentConfigProvider`. The file of the first is a text that may be missing, may not open for
-- reading and may not open for writing; the environment of the second is an argument.
pub mod Saving
pub mod Environment
use isched.Common.{
  ℕ, ◌+◌, ◌-◌, ◌≡◌, Bool, true, false, not, ◌&&◌, ◌||◌, List, [], ◌∷◌, ◌++◌, map, Option, none,
  some, Text, codes, text_eq, ◌==◌, nat_eq, if◌then◌else◌, leb, is_empty, length, drop, Map, lookup,
  insert,
}
use isched.Config.{Provider, starts_with}
use isched.Config.Values.{ConfigValue, parse_value, show_value}

-- `std::getline` until it fails: no line after a last newline.
unfoldable pub lines : Text → List Text
lines [] = []
lines (c ∷ s) =
    let rest = lines s in
    if c == 10 then [] ∷ rest else elim rest [ [] ↦ (c ∷ []) ∷ [] | l ∷ ls ↦ (c ∷ l) ∷ ls ]

-- The texts before and after the first code, if there is one.
unfoldable pub split_at : ℕ → Text → Option (Text × Text)
split_at mark [] = none
split_at mark (c ∷ s) =
    let rest = split_at mark s in
    if c == mark
    then some ([], s)
    else elim rest [ none ↦ none | some (before, after) ↦ some (c ∷ before, after) ]

abbrev pub is_blank : ℕ → Bool
is_blank c = c == 32 || c == 9

unfoldable pub trim_left : Text → Text
trim_left [] = []
trim_left (c ∷ s) = if is_blank c then trim_left s else c ∷ s

unfoldable pub trim_right : Text → Text
trim_right [] = []
trim_right (c ∷ s) = let rest = trim_right s in if is_blank c && is_empty rest then [] else c ∷ rest

abbrev pub trim : Text → Text
trim s = trim_left (trim_right s)

abbrev pub is_comment : Text → Bool
is_comment [] = true
is_comment (c ∷ s) = c == b'#'

pub record ConfigFile : Type 0 where
  pub content : Option Text
  pub readable : Bool
  pub writable : Bool

pub record JsonConfigProvider (F : Type 0) : Type 0 where
  pub file : ConfigFile
  pub priority : ℕ
  pub entries : Map Text (ConfigValue F)
  pub loaded : Bool
  pub modified : Bool

pub record EnvironmentConfigProvider (F : Type 0) : Type 0 where
  pub prefix : Text
  pub priority : ℕ
  pub entries : Map Text (ConfigValue F)
  pub loaded : Bool

-- `std::tolower` and `std::toupper` in the C locale.
abbrev pub tolower : ℕ → ℕ
tolower c = if leb b'A' c && leb c b'Z' then c + 32 else c

abbrev pub toupper : ℕ → ℕ
toupper c = if leb b'a' c && leb c b'z' then c - 32 else c

abbrev pub swapped : ℕ → ℕ → ℕ → ℕ
swapped old new c = if c == old then new else c

unfoldable pub env_key_to_config_key : Text → Text → Text
env_key_to_config_key prefix env_key =
    map (swapped b'_' b'.') (map tolower (drop (length prefix) env_key))

unfoldable pub config_key_to_env_key : Text → Text → Text
config_key_to_env_key prefix config_key = prefix ++ map (swapped b'.' b'_') (map toupper config_key)

module _ {F : Type 0} (stod : Text → Option F) where
  abbrev pub parse_entry : Option (Text × Text) → Option (Text × ConfigValue F)
  parse_entry none = none
  parse_entry (some (key, value)) = some (trim key, parse_value stod (trim value) [])

  unfoldable pub parse_line : Text → Option (Text × ConfigValue F)
  parse_line line = if is_comment line then none else parse_entry (split_at b'=' line)

  abbrev pub add_entry :
      Option (Text × ConfigValue F) → Map Text (ConfigValue F) → Map Text (ConfigValue F)
  add_entry none entries = entries
  add_entry (some (key, value)) entries = insert key value entries

  unfoldable pub read_lines : List Text → Map Text (ConfigValue F) → Map Text (ConfigValue F)
  read_lines [] entries = entries
  read_lines (l ∷ ls) entries = read_lines ls (add_entry (parse_line l) entries)

  abbrev opened_file : ConfigFile → ConfigFile
  opened_file file = elim file.content [
    | none ↦ if file.writable then record file { content = some (codes "{}") } else file
    | some s ↦ file
  ]

  unfoldable pub load_file : JsonConfigProvider F → Bool × JsonConfigProvider F
  load_file p =
      let file = opened_file p.file in
      elim file.content [
        | none ↦ (false, record p { file = file })
        | some s ↦
            if file.readable
            then (
              true,
              record p {
                file = file;
                entries = read_lines (lines s) [];
                loaded = true;
                modified = false;
              },
            )
            else (false, record p { file = file })
      ]

  abbrev add_variable :
      Text → Option (Text × Text) → Map Text (ConfigValue F) → Map Text (ConfigValue F)
  add_variable prefix none entries = entries
  add_variable prefix (some (name, value)) entries =
      if starts_with name prefix
      then insert (env_key_to_config_key prefix name) (parse_value stod value []) entries
      else entries

  unfoldable pub read_variables :
      Text → List Text → Map Text (ConfigValue F) → Map Text (ConfigValue F)
  read_variables prefix [] entries = entries
  read_variables prefix (v ∷ vs) entries =
      read_variables prefix vs (add_variable prefix (split_at b'=' v) entries)

  unfoldable pub load_environment :
      List Text → EnvironmentConfigProvider F → EnvironmentConfigProvider F
  load_environment environ p = record p {
    entries = read_variables p.prefix environ [];
    loaded = true;
  }

module _ {F : Type 0} (show_double : F → Text) where
  unfoldable pub write_lines : Map Text (ConfigValue F) → Text
  write_lines [] = []
  write_lines ((key, value) ∷ entries) =
      key ++ (b'=' ∷ (show_value show_double value ++ (10 ∷ write_lines entries)))

  unfoldable pub save_file : JsonConfigProvider F → Bool × JsonConfigProvider F
  save_file p =
      if not p.modified
      then (true, p)
      else if p.file.writable
      then (
        true,
        record p {
          file = record (p.file) { content = some (write_lines p.entries) };
          modified = false;
        },
      )
      else (false, p)

unfoldable pub set_entry :
    {F : Type 0} → Text → ConfigValue F → JsonConfigProvider F → JsonConfigProvider F
set_entry key value p = record p { entries = insert key value p.entries; modified = true }

pub data AnyProvider (F : Type 0) : Type 0 where
  json : JsonConfigProvider F → AnyProvider F
  environment : EnvironmentConfigProvider F → AnyProvider F

-- The interface that the manager goes by, at these two classes.
module _ {F : Type 0} (stod : Text → Option F) (show_double : F → Text) (environ : List Text) where
  abbrev pub get_priority_of : AnyProvider F → ℕ
  get_priority_of (json p) = p.priority
  get_priority_of (environment p) = p.priority

  abbrev pub get_value_of : AnyProvider F → Text → Option (ConfigValue F)
  get_value_of (json p) key = lookup key p.entries
  get_value_of (environment p) key = lookup key p.entries

  -- Environment variables are read-only.
  abbrev pub set_value_of : AnyProvider F → Text → ConfigValue F → Option (AnyProvider F)
  set_value_of (json p) key value = some (json (set_entry key value p))
  set_value_of (environment p) key value = none

  abbrev pub load_of : AnyProvider F → Bool × AnyProvider F
  load_of (json p) = let r = load_file stod p in (r.0, json r.1)
  load_of (environment p) = (true, environment (load_environment stod environ p))

  abbrev pub save_of : AnyProvider F → Bool × AnyProvider F
  save_of (json p) = let r = save_file show_double p in (r.0, json r.1)
  save_of (environment p) = (true, environment p)

  abbrev pub providers : Provider (AnyProvider F) (ConfigValue F)
  providers = record {
    get_priority = get_priority_of;
    get_value = get_value_of;
    set_value = set_value_of;
    load = load_of;
    save = save_of;
  }
