-- ===== src/Config/Providers/Environment.antt =====
-- shared/config/isched_config.cpp: which keys the environment reaches.
use isched.Common.{
  ℕ, ◌≡◌, refl, ◌∙◌, Bool, true, false, not, ◌&&◌, List, [], ◌∷◌, ◌++◌, map, Option, none, some,
  Text, text_eq, text_beq_iff, ◌==◌, nat_eq, leb, length, take, drop, contains, all, arith, Map,
  lookup, lookup-insert,
}
use isched.Config.{starts_with}
use isched.Config.Values.{ConfigValue, parse_value}
use isched.Config.Providers.{
  split_at, tolower, toupper, swapped, env_key_to_config_key, config_key_to_env_key, add_variable,
  read_variables, EnvironmentConfigProvider, load_environment,
}
use isched.Config.Providers.Saving.{split_at-mark, contains-append}

abbrev underscore : ℕ
underscore = b'_'

no_underscore : (s : Text) → contains (map (swapped b'_' b'.') (map tolower s)) underscore ≡ false
no_underscore [] = refl
no_underscore (c ∷ s) = ground (arith, no_underscore s)

pub contains-eq :
    (s t : Text) (c : ℕ) → contains s c ≡ true → contains t c ≡ false → (s == t) ≡ false
contains-eq s t c h k = ground (arith, text_beq_iff s t)

-- A key that comes back from its variable's name.
abbrev pub is_reachable : ℕ → Bool
is_reachable c = not (c == b'_') && not (leb b'A' c && leb c b'Z') && not (c == b'=')

raised :
    (c : ℕ)
    → is_reachable c ≡ true
    → (swapped b'_' b'.' (tolower (swapped b'.' b'_' (toupper c))) ≡ c)
      × ((swapped b'.' b'_' (toupper c) == b'=') ≡ false)
raised c h = ground arith

restored :
    (key : Text)
    → all is_reachable key ≡ true
    → (map (swapped b'_' b'.') (map tolower (map (swapped b'.' b'_') (map toupper key))) ≡ key)
      × (contains (map (swapped b'.' b'_') (map toupper key)) b'=' ≡ false)
restored [] h = (refl, refl)
restored (c ∷ key) h = ground (arith, raised c, restored key)

prefixed :
    (prefix s : Text)
    → (drop (length prefix) (prefix ++ s) ≡ s) × (take (length prefix) (prefix ++ s) ≡ prefix)
prefixed [] s = (refl, refl)
prefixed (c ∷ prefix) s = ground (arith, prefixed prefix s)

module _ {F : Type 0} (stod : Text → Option F) where
  lookup-add_variable :
      (prefix : Text) (found : Option (Text × Text)) (entries : Map Text (ConfigValue F))
      (key : Text)
      → contains key underscore ≡ true
      → lookup key entries ≡ none
      → lookup key (add_variable stod prefix found entries) ≡ none
  unfolding env_key_to_config_key
  lookup-add_variable prefix none entries key h e = e
  lookup-add_variable prefix (some (name, value)) entries key h e =
      let config_key = env_key_to_config_key prefix name in
      ground (
        arith,
        e,
        lookup-insert config_key key (parse_value stod value []) entries,
        no_underscore (drop (length prefix) name),
        text_beq_iff config_key key,
      )

  lookup-read_variables :
      (prefix : Text) (environ : List Text) (entries : Map Text (ConfigValue F)) (key : Text)
      → contains key underscore ≡ true
      → lookup key entries ≡ none
      → lookup key (read_variables stod prefix environ entries) ≡ none
  unfolding read_variables
  lookup-read_variables prefix [] entries key h e = e
  lookup-read_variables prefix (v ∷ vs) entries key h e =
      lookup-read_variables prefix vs _ key h
        (lookup-add_variable prefix (split_at b'=' v) entries key h e)

  -- Whatever the environment holds, no variable gives a value to a key with an underscore.
  pub load_environment-unreachable :
      (environ : List Text) (p : EnvironmentConfigProvider F) (key : Text)
      → contains key underscore ≡ true
      → lookup key (load_environment stod environ p).entries ≡ none
  unfolding load_environment
  load_environment-unreachable environ p key h =
      lookup-read_variables p.prefix environ [] key h (unfold lookup in refl)

  read_variables-append :
      (prefix : Text) (vs ws : List Text) (entries : Map Text (ConfigValue F))
      → read_variables stod prefix (vs ++ ws) entries
        ≡ read_variables stod prefix ws (read_variables stod prefix vs entries)
  unfolding read_variables
  read_variables-append prefix [] ws entries = refl
  read_variables-append prefix (v ∷ vs) ws entries = read_variables-append prefix vs ws _

  set_by_name :
      (prefix key value : Text) (entries : Map Text (ConfigValue F))
      → contains prefix b'=' ≡ false
      → all is_reachable key ≡ true
      → lookup key (
          read_variables stod prefix
            ((config_key_to_env_key prefix key ++ (b'=' ∷ value)) ∷ [])
            entries)
        ≡ some (parse_value stod value [])
  unfolding read_variables env_key_to_config_key config_key_to_env_key
  set_by_name prefix key value entries e h =
      let named = map (swapped b'.' b'_') (map toupper key) in
      let (back, clean) = restored key h in
      let (tail, head) = prefixed prefix named in
      let at_mark =
        split_at-mark (prefix ++ named) value b'='
          (contains-append prefix named b'=' ∙ ground (arith, e, clean)) in
      rw (at_mark, add_variable, starts_with, head)
        (rw (env_key_to_config_key, tail, back)
          (ground (
            arith,
            text_beq_iff prefix prefix,
            text_beq_iff key key,
            lookup-insert key key (parse_value stod value []) entries,
          )))

  -- A key in small letters with no underscore and no equals sign is reached by the variable that is
  -- named for it, if that is the last to set it.
  pub load_environment-config_key_to_env_key :
      (environ : List Text) (p : EnvironmentConfigProvider F) (key value : Text)
      → contains p.prefix b'=' ≡ false
      → all is_reachable key ≡ true
      → lookup key
          (load_environment stod
            (environ ++ (config_key_to_env_key p.prefix key ++ (b'=' ∷ value)) ∷ [])
            p).entries
        ≡ some (parse_value stod value [])
  unfolding load_environment
  load_environment-config_key_to_env_key environ p key value e h =
      let name = config_key_to_env_key p.prefix key in
      let earlier = read_variables stod p.prefix environ [] in
      rw (read_variables-append p.prefix environ ((name ++ (b'=' ∷ value)) ∷ []) [])
        (set_by_name p.prefix key value earlier e h)
