-- ===== src/Samples/SettingsSamples.antt =====
-- Runs of the configuration and of the encryption of secrets, and their theorems at concrete inputs.
use isched.Common.{
  ℕ, ◌+◌, ◌-◌, arith, ◌≡◌, refl, ◌∙◌, true, false, List, [], ◌∷◌, ◌++◌, Option, none, some, Text,
  codes, text_eq, text_beq, length, all, lookup, is_empty, to_string,
}
use mathlib.Core.List.{append-nil}
use isched.Config
use isched.Config.Values.{
  text, int, boolean, pos, negsuc, parse_value, show_value, stoi, skip_spaces, leading,
  is_valid_key,
}
use isched.Config.Providers.{
  ConfigFile, JsonConfigProvider, EnvironmentConfigProvider, AnyProvider, json, environment,
  providers, load_file, save_file, set_entry, trim_left, trim_right,
}
use isched.Config.Providers.Saving.{load_file-save_file, is_plain-Survives, newline, Survives}
use isched.Config.Manager.{
  ConfigManager, server_config_of, validate_configuration, no_ssl_cert_path, no_ssl_key_path,
  server_problems,
}
use isched.Config.Manager.Settings.{
  validate_configuration-ssl, get-set, server_config_of-environment, server_config_of-numeric_host,
  host_line, shadow, loaded,
}
use isched.Crypto.{OpenSsl, padding, blob, encrypt_secret, decrypt_secret, sha256_hex, bytes}
use isched.Crypto.Wire.{decrypt_secret-encrypt_secret, IsBase64, IsCipher}
use isched.Crypto.Hex.{sha256_hex-injective, is_hex_code}

-- Floating-point numbers stand for texts that are read as their length.
abbrev stod : Text → Option ℕ
stod s = some (length s)

abbrev show_double : ℕ → Text
show_double = to_string

stoi_runs : (stoi (codes " -42x") ≡ some (negsuc 41)) × (stoi (codes "x") ≡ none)
unfolding stoi skip_spaces leading
stoi_runs = (refl, refl)

abbrev open_file : ConfigFile
open_file = record { content = none; readable = true; writable = true }

abbrev port_file : JsonConfigProvider ℕ
port_file = record {
  file = open_file;
  priority = 1;
  entries =
      (codes "server.port", int (pos 8081))
      ∷ (codes "server.log_level", text (codes "debug"))
      ∷ (codes "server.enable_ssl", boolean true)
      ∷ [];
  loaded = true;
  modified = true;
}

log_level-Survives : Survives stod show_double (text (codes "debug"))
unfolding show_value trim_left trim_right parse_value stoi skip_spaces text_beq
log_level-Survives = record { on_its_line = refl; untrimmed = refl; reads = refl }

load_file-save_file_example :
    let again = load_file stod (save_file show_double port_file).1 in
    (again.0 ≡ true) × ((key : Text) → lookup key again.1.entries ≡ lookup key port_file.entries)
load_file-save_file_example =
    load_file-save_file stod show_double port_file refl refl refl (unfold is_valid_key in refl)
      (unfold lookup text_beq in refl)
      (
        is_plain-Survives stod show_double (int (pos 8081)) refl,
        (log_level-Survives, (is_plain-Survives stod show_double (boolean true) refl, tt)),
      )

abbrev process_environment : EnvironmentConfigProvider ℕ
process_environment = record {
  prefix = codes "ISCHED_";
  priority = 2;
  entries = [];
  loaded = false;
}

abbrev variables : List Text
variables = codes "ISCHED_SERVER_MAX_CONNECTIONS=5" ∷ codes "ISCHED_SERVER_PORT=81" ∷ []

server_config_of-environment_example :
    let config =
      server_config_of
        (providers stod show_double variables)
        (loaded stod show_double variables (process_environment ∷ [])) in
    (config.max_connections ≡ pos 1000)
    × (config.log_level ≡ codes "info")
    × (config.enable_ssl ≡ false)
server_config_of-environment_example =
    server_config_of-environment stod show_double variables (process_environment ∷ [])

abbrev filled : EnvironmentConfigProvider ℕ
filled = record process_environment { entries = (codes "server.port", int (pos 81)) ∷ [] }

get-set_example :
    Config.get
      (providers stod show_double variables)
      (codes "server.port")
      (environment filled ∷ json (set_entry (codes "server.port") (int (pos 9)) port_file) ∷ [])
    ≡ some (int (pos 81))
unfolding lookup text_beq shadow
get-set_example =
    get-set stod show_double variables (codes "server.port") (int (pos 9))
      (environment filled ∷ json port_file ∷ [])
      (environment filled ∷ json (set_entry (codes "server.port") (int (pos 9)) port_file) ∷ [])
      (unfold Config.set in refl)

abbrev with_ssl : ConfigManager (AnyProvider ℕ) ℕ ℕ
with_ssl = record {
  providers = json port_file ∷ [];
  tenant_configs = [];
  active_snapshots = [];
  callbacks = Config.no_callbacks;
  loads_count = 0;
  saves_count = 0;
  get_calls = 0;
  set_calls = 0;
}

validate_configuration-ssl_example :
    (validate_configuration (providers stod show_double []) with_ssl).0
    ≡ no_ssl_cert_path ∷ no_ssl_key_path ∷ []
unfolding server_problems server_config_of Config.get lookup text_beq Config.Manager.tenant_problems
validate_configuration-ssl_example =
    validate_configuration-ssl (providers stod show_double []) with_ssl
      (unfold Config.get lookup text_beq in refl)

abbrev address_file : JsonConfigProvider ℕ
address_file = record port_file {
  file = record open_file { content = some (host_line (codes "10.0.0.7") ++ (newline ∷ [])) };
}

server_config_of-numeric_host_example :
    let read = load_file stod address_file in
    (read.0 ≡ true)
    × ((server_config_of (providers stod show_double []) (json read.1 ∷ [])).host
        ≡ codes "localhost")
server_config_of-numeric_host_example =
    server_config_of-numeric_host stod show_double [] address_file (codes "10.0.0.7") 8 refl refl
      refl refl refl refl

abbrev sixteen : Text
sixteen = 1 ∷ 1 ∷ 1 ∷ 1 ∷ 1 ∷ 1 ∷ 1 ∷ 1 ∷ 1 ∷ 1 ∷ 1 ∷ 1 ∷ 1 ∷ 1 ∷ 1 ∷ 1 ∷ []

abbrev raised : Text → Text
raised [] = []
raised (c ∷ s) = (c + 100) ∷ raised s

abbrev lowered : Text → Text
lowered [] = []
lowered (c ∷ s) = (c - 100) ∷ lowered s

lowered-raised : (s : Text) → lowered (raised s) ≡ s
lowered-raised [] = refl
lowered-raised (c ∷ s) = ground (arith, lowered-raised s)

padding-raised : (s : Text) → padding (raised s) ≡ 0
unfolding padding
padding-raised [] = refl
padding-raised (c ∷ s) = ground (arith, padding-raised s)

-- A cipher that changes nothing, and a coding with no padding.
abbrev plain_ssl : OpenSsl
plain_ssl = record {
  derive = λ secret tenant. some (secret ++ tenant);
  encode_block = raised;
  decode_block = λ s. some (lowered s);
  prepares = true;
  encrypt_update = λ key nonce plain. some plain;
  encrypt_final = λ key nonce plain. some [];
  get_tag = λ key nonce plain. some sixteen;
  decrypt_update = λ key nonce received. some received;
  sets_tag = true;
  decrypt_final = λ key nonce received tag. some [];
  sha256 = λ message. some (sixteen ++ sixteen);
}

plain_ssl-IsBase64 : IsBase64 plain_ssl
plain_ssl-IsBase64 = record { encodes = empty; decodes = decoded }
  where
    empty : (s : Text) → is_empty (raised s) ≡ is_empty s
    empty [] = refl
    empty (c ∷ s) = refl

    decoded :
        (s : Text)
        → (zeros : Text) × ◌≡◌ {A = Option Text} (some (lowered (raised s))) (some (s ++ zeros))
          × (length zeros ≡ padding (raised s))
    decoded s = ([], rw (lowered-raised s, append-nil {0}) refl, rw (padding-raised s) refl)

whole : (front back plain : Text) → front ≡ plain → back ≡ [] → (front ++ back) ++ [] ≡ plain
whole front back plain p e = rw (p, e) (append-nil {0} (plain ++ []) ∙ append-nil {0} plain)

plain_ssl-IsCipher : IsCipher plain_ssl
plain_ssl-IsCipher = record { tag_length = tagged; deciphers = given_back }
  where
    tagged :
        (key nonce plain tag : Text)
        → ◌≡◌ {A = Option Text} (some sixteen) (some tag)
        → length tag ≡ 16
    tagged key nonce plain tag h = ground (arith, h)

    given_back :
        (key nonce plain front back tag : Text)
        → ◌≡◌ {A = Option Text} (some plain) (some front)
        → ◌≡◌ {A = Option Text} (some []) (some back)
        → ◌≡◌ {A = Option Text} (some sixteen) (some tag)
        → (head : Text) × (tail : Text) × ◌≡◌ {A = Option Text} (some (front ++ back)) (some head)
          × ◌≡◌ {A = Option Text} (some []) (some tail)
          × (head ++ tail ≡ plain)
    given_back key nonce plain front back tag u e t = (
      front ++ back,
      [],
      refl,
      refl,
      whole front back plain (ground (arith, u)) (ground (arith, e)),
    )

abbrev nonce : Text
nonce = 7 ∷ 7 ∷ 7 ∷ 7 ∷ 7 ∷ 7 ∷ 7 ∷ 7 ∷ 7 ∷ 7 ∷ 7 ∷ 7 ∷ []

decrypt_secret-encrypt_secret_example :
    decrypt_secret plain_ssl
      (raised (blob nonce sixteen (codes "pw")))
      (codes "acme")
      (codes "master")
    ≡ bytes (codes "pw")
decrypt_secret-encrypt_secret_example =
    decrypt_secret-encrypt_secret plain_ssl nonce (codes "pw") (codes "acme") (codes "master")
      (raised (blob nonce sixteen (codes "pw"))) plain_ssl-IsBase64 plain_ssl-IsCipher refl refl
      (unfold encrypt_secret in refl)

sha256_hex-injective_example :
    (sha256_hex plain_ssl (codes "a") ≡ sha256_hex plain_ssl (codes "b")
      → ◌≡◌ {A = Text} (sixteen ++ sixteen) (sixteen ++ sixteen))
    × (s : Text) × (sha256_hex plain_ssl (codes "a") ≡ some s)
    × (length s ≡ 64)
    × (all is_hex_code s ≡ true)
sha256_hex-injective_example =
    sha256_hex-injective plain_ssl (codes "a") (codes "b") (sixteen ++ sixteen) (sixteen ++ sixteen)
      refl refl refl refl refl
