-- ===== src/Config/Manager.antt =====
-- shared/config/isched_config.hpp and .cpp: `ServerConfig`, `TenantConfig` and `ConfigManager`, which
-- reads the server's settings from its providers, keeps tenants and active snapshots, and validates.
pub mod Settings
use isched.Common.{
  ℕ, suc, ◌+◌, ◌%◌, ◌^◌, ◌≡◌, Bool, true, false, not, ◌&&◌, ◌||◌, List, [], ◌∷◌, ◌++◌, map, Option,
  none, some, Text, codes, text_eq, ◌==◌, if◌then◌else◌, ltb, leb, is_empty, is_some, Map, lookup,
  insert, erase,
}
use isched.Config
use isched.Config.{Provider, Callbacks, add_provider, load_all, save_all, notify_change_callbacks}
use isched.Config.Values.{ℤ, pos, negsuc, ConfigValue, text, int, boolean, double, texts}
use isched.Database.Snapshots.{ConfigurationSnapshot}

pub record ServerConfig : Type 0 where
  pub host : Text
  pub port : ℤ
  pub max_connections : ℤ
  pub request_timeout : ℤ
  pub session_timeout : ℤ
  pub log_level : Text
  pub log_file_path : Text
  pub enable_ssl : Bool
  pub ssl_cert_path : Text
  pub ssl_key_path : Text
  pub max_response_time : ℤ
  pub thread_pool_size : ℤ
  pub max_request_size : ℕ
  pub max_response_size : ℕ
  pub require_authentication : Bool
  pub jwt_secret_key : Text
  pub jwt_expiration : ℤ
  pub enable_cors : Bool
  pub allowed_origins : List Text
  pub enable_introspection : Bool
  pub enable_playground : Bool
  pub graphql_endpoint : Text
  pub max_query_depth : ℤ
  pub query_timeout : ℤ
  pub enable_health_endpoint : Bool
  pub health_check_interval : ℤ

abbrev pub create_default_server_config : ServerConfig
create_default_server_config = record {
  host = codes "localhost";
  port = pos 8080;
  max_connections = pos 1000;
  request_timeout = pos 30;
  session_timeout = pos 3600;
  log_level = codes "info";
  log_file_path = codes "./logs/isched.log";
  enable_ssl = false;
  ssl_cert_path = [];
  ssl_key_path = [];
  max_response_time = pos 20;
  thread_pool_size = pos 8;
  max_request_size = 1048576;
  max_response_size = 10485760;
  require_authentication = true;
  jwt_secret_key = [];
  jwt_expiration = pos 3600;
  enable_cors = true;
  allowed_origins = codes "*" ∷ [];
  enable_introspection = true;
  enable_playground = false;
  graphql_endpoint = codes "/graphql";
  max_query_depth = pos 10;
  query_timeout = pos 5;
  enable_health_endpoint = true;
  health_check_interval = pos 0;
}

pub record TenantConfig (F : Type 0) : Type 0 where
  pub tenant_id : Text
  pub display_name : Text
  pub database_path : Text
  pub schema_version : Text
  pub max_concurrent_requests : ℤ
  pub max_storage_size : ℕ
  pub session_timeout : ℤ
  pub enable_custom_schema : Bool
  pub enable_file_uploads : Bool
  pub enable_webhooks : Bool
  pub custom_settings : Map Text (ConfigValue F)

abbrev pub create_default_tenant_config : {F : Type 0} → Text → TenantConfig F
create_default_tenant_config tenant_id = record {
  tenant_id = tenant_id;
  display_name = tenant_id;
  database_path = codes "./data/" ++ (tenant_id ++ codes ".db");
  schema_version = codes "1.0.0";
  max_concurrent_requests = pos 100;
  max_storage_size = 104857600;
  session_timeout = pos 1800;
  enable_custom_schema = false;
  enable_file_uploads = true;
  enable_webhooks = false;
  custom_settings = [];
}

pub data ConfigProblem : Type 0 where
  invalid_port invalid_max_connections invalid_max_response_time : ℤ → ConfigProblem
  no_ssl_cert_path no_ssl_key_path empty_tenant_id : ConfigProblem
  empty_database_path : Text → ConfigProblem

abbrev pub is_positive : ℤ → Bool
is_positive (pos n) = ltb 0 n
is_positive (negsuc n) = false

abbrev pub is_port : ℤ → Bool
is_port (pos n) = ltb 0 n && leb n 65535
is_port (negsuc n) = false

-- The error, unless the test holds.
abbrev pub unless : Bool → ConfigProblem → List ConfigProblem
unless ok problem = if ok then [] else problem ∷ []

unfoldable pub server_problems : ServerConfig → List ConfigProblem
server_problems c =
    unless (is_port c.port) (invalid_port c.port)
    ++ (unless (is_positive c.max_connections) (invalid_max_connections c.max_connections)
        ++ (unless (is_positive c.max_response_time) (invalid_max_response_time c.max_response_time)
            ++ (if c.enable_ssl
                then unless (not (is_empty c.ssl_cert_path)) no_ssl_cert_path
                  ++ unless (not (is_empty c.ssl_key_path)) no_ssl_key_path
                else [])))

unfoldable pub tenant_problems : {F : Type 0} → Map Text (TenantConfig F) → List ConfigProblem
tenant_problems [] = []
tenant_problems ((tenant_id, config) ∷ configs) =
    unless (not (is_empty config.tenant_id)) empty_tenant_id
    ++ (unless (not (is_empty config.database_path)) (empty_database_path tenant_id)
        ++ tenant_problems configs)

-- The callbacks, as those that are called for a key, and counters that wrap around.
pub record ConfigManager (P F C : Type 0) : Type 0 where
  pub providers : List P
  pub tenant_configs : Map Text (TenantConfig F)
  pub active_snapshots : Map Text ConfigurationSnapshot
  pub callbacks : Callbacks C
  pub loads_count : ℕ
  pub saves_count : ℕ
  pub get_calls : ℕ
  pub set_calls : ℕ

abbrev next_count : ℕ → ℕ
next_count n = (n + 1) % 2 ^ 64

abbrev pub text_or : {F : Type 0} → Text → Option (ConfigValue F) → Text
text_or missing (some (text s)) = s
text_or missing _ = missing

abbrev pub int_or : {F : Type 0} → ℤ → Option (ConfigValue F) → ℤ
int_or missing (some (int i)) = i
int_or missing _ = missing

abbrev pub bool_or : {F : Type 0} → Bool → Option (ConfigValue F) → Bool
bool_or missing (some (boolean b)) = b
bool_or missing _ = missing

module _ {P F : Type 0} (provider : Provider P (ConfigValue F)) where
  unfoldable pub server_config_of : List P → ServerConfig
  server_config_of ps =
      let default = create_default_server_config in
      record default {
        host = text_or default.host (Config.get provider (codes "server.host") ps);
        port = int_or default.port (Config.get provider (codes "server.port") ps);
        max_connections =
            int_or default.max_connections
              (Config.get provider (codes "server.max_connections") ps);
        log_level = text_or default.log_level (Config.get provider (codes "server.log_level") ps);
        enable_ssl =
            bool_or default.enable_ssl (Config.get provider (codes "server.enable_ssl") ps);
      }

module _ {P F C : Type 0} (provider : Provider P (ConfigValue F)) where
  -- It calls `get` five times.
  unfoldable pub get_server_config : ConfigManager P F C → ServerConfig × ConfigManager P F C
  get_server_config m =
      (server_config_of provider m.providers, record m { get_calls = (m.get_calls + 5) % 2 ^ 64 })

  -- With the callbacks that are called.
  unfoldable pub set_config :
      Text → ConfigValue F → ConfigManager P F C → Bool × List (ℕ × C) × ConfigManager P F C
  set_config key value m =
      let m' = record m { set_calls = next_count m.set_calls } in
      elim (Config.set provider key value m.providers) [
        | none ↦ (false, [], m')
        | some ps ↦ (true, notify_change_callbacks key m.callbacks, record m' { providers = ps })
      ]

  unfoldable pub get_config :
      Text → ConfigManager P F C → Option (ConfigValue F) × ConfigManager P F C
  get_config key m =
      (Config.get provider key m.providers, record m { get_calls = next_count m.get_calls })

  unfoldable pub load_configuration : ConfigManager P F C → Bool × ConfigManager P F C
  load_configuration m =
      let (all_loaded, ps) = load_all provider m.providers in
      (
        all_loaded,
        record m {
          providers = ps;
          loads_count = if all_loaded then next_count m.loads_count else m.loads_count;
        },
      )

  unfoldable pub save_configuration : ConfigManager P F C → Bool × ConfigManager P F C
  save_configuration m =
      let (all_saved, ps) = save_all provider m.providers in
      (
        all_saved,
        record m {
          providers = ps;
          saves_count = if all_saved then next_count m.saves_count else m.saves_count;
        },
      )

  unfoldable pub validate_configuration :
      ConfigManager P F C → List ConfigProblem × ConfigManager P F C
  validate_configuration m =
      let (config, m') = get_server_config m in
      (server_problems config ++ tenant_problems m.tenant_configs, m')

module _ {P F C : Type 0} where
  unfoldable pub set_tenant_config : TenantConfig F → ConfigManager P F C → ConfigManager P F C
  set_tenant_config c m = record m { tenant_configs = insert c.tenant_id c m.tenant_configs }

  unfoldable pub get_tenant_config : Text → ConfigManager P F C → Option (TenantConfig F)
  get_tenant_config tenant m = lookup tenant m.tenant_configs

  unfoldable pub remove_tenant_config : Text → ConfigManager P F C → Bool × ConfigManager P F C
  remove_tenant_config tenant m = (
    is_some (lookup tenant m.tenant_configs),
    record m { tenant_configs = erase tenant m.tenant_configs },
  )

  unfoldable pub set_active_snapshot :
      ConfigurationSnapshot → ConfigManager P F C → ConfigManager P F C
  set_active_snapshot s m = record m { active_snapshots = insert s.tenant_id s m.active_snapshots }

  unfoldable pub get_active_snapshot : Text → ConfigManager P F C → Option ConfigurationSnapshot
  get_active_snapshot tenant m = lookup tenant m.active_snapshots

  unfoldable pub remove_active_snapshot : Text → ConfigManager P F C → Bool × ConfigManager P F C
  remove_active_snapshot tenant m = (
    is_some (lookup tenant m.active_snapshots),
    record m { active_snapshots = erase tenant m.active_snapshots },
  )
