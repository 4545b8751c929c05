-- ===== src/Tenants.antt =====
-- backend/isched_TenantManager.cpp: the organization manager. Creating a tenant's database is the
-- database manager's: its answer is an argument. A time is a number of the clock's ticks.
pub mod Counting
use isched.Common.{
  ℕ, suc, ◌+◌, ◌-◌, ◌%◌, ◌^◌, ◌≡◌, Bool, true, false, not, ◌&&◌, List, [], ◌∷◌, map, Option, none,
  some, Text, text_eq, if◌then◌else◌, leb, ltb, length, is_empty, is_some, Map, lookup, insert,
  erase,
}

pub data Status : Type 0 where
  stopped running error : Status

pub record Configuration : Type 0 where
  pub database_root_path : Text
  pub max_tenants : ℕ

-- The exception that creation throws on a configuration that is not valid.
unfoldable pub validate : Configuration → Bool
validate c = not (is_empty c.database_root_path) && ltb 0 c.max_tenants

pub record TenantSession : Type 0 where
  pub last_activity : ℕ
  pub request_count : ℕ

-- `T` stands for a tenant's configuration. Counters are 64-bit.
pub record OrgManager (T : Type 0) : Type 0 where
  pub config : Configuration
  pub status : Status
  pub tenants : Map Text T
  pub active_sessions : Map Text TenantSession
  pub active_tenants : ℕ
  pub total_requests : ℕ
  pub active_subscriptions : ℕ

pub data TenantError : Type 0 where
  already_exists maximum_reached initialization_failed not_found : TenantError

abbrev pub next64 : ℕ → ℕ
next64 n = (n + 1) % 2 ^ 64

abbrev pub previous64 : ℕ → ℕ
previous64 n = (n + (2 ^ 64 - 1)) % 2 ^ 64

abbrev pub touched : ℕ → TenantSession → TenantSession
touched now s = record { last_activity = now; request_count = next64 s.request_count }

abbrev pub opened : ℕ → TenantSession
opened now = record { last_activity = now; request_count = 0 }

module _ {T : Type 0} where
  abbrev pub created : Configuration → OrgManager T
  created c = record {
    config = c;
    status = stopped;
    tenants = [];
    active_sessions = [];
    active_tenants = 0;
    total_requests = 0;
    active_subscriptions = 0;
  }

  abbrev pub create : Configuration → Option (OrgManager T)
  create c = if validate c then some (created c) else none

  -- `initialized` tells whether `initialize` returned without an exception; it has no other failure.
  unfoldable pub start : Bool → OrgManager T → Bool × OrgManager T
  start initialized m = elim m.status [
    | stopped ↦
        if initialized
        then (true, record m { status = running })
        else (false, record m { status = error })
    | running ↦ (false, m)
    | error ↦ (false, m)
  ]

  unfoldable pub stop : OrgManager T → Bool × OrgManager T
  stop m = elim m.status [
    | running ↦ (true, record m { active_sessions = []; status = stopped })
    | stopped ↦ (true, m)
    | error ↦ (true, m)
  ]

  -- An error is an exception, and changes nothing.
  unfoldable pub create_tenant : Bool → Text → T → OrgManager T → Option TenantError × OrgManager T
  create_tenant initialized tenant_id stored m =
      if is_some (lookup tenant_id m.tenants)
      then (some already_exists, m)
      else if leb m.config.max_tenants (length m.tenants)
      then (some maximum_reached, m)
      else if not initialized
      then (some initialization_failed, m)
      else (
        none,
        record m {
          tenants = insert tenant_id stored m.tenants;
          active_tenants = next64 m.active_tenants;
        },
      )

  unfoldable pub remove_tenant : Text → OrgManager T → Bool × OrgManager T
  remove_tenant tenant_id m =
      if is_some (lookup tenant_id m.tenants)
      then (
        true,
        record m {
          active_sessions = erase tenant_id m.active_sessions;
          tenants = erase tenant_id m.tenants;
          active_tenants = previous64 m.active_tenants;
        },
      )
      else (false, m)

  -- `none` is the exception for a tenant that does not exist.
  unfoldable pub get_tenant_session : ℕ → Text → OrgManager T → Option TenantSession × OrgManager T
  get_tenant_session now tenant_id m =
      if is_some (lookup tenant_id m.tenants)
      then elim (lookup tenant_id m.active_sessions) [
        | some s ↦ (
          some (touched now s),
          record m { active_sessions = insert tenant_id (touched now s) m.active_sessions },
        )
        | none ↦ (
          some (opened now),
          record m {
            active_sessions = insert tenant_id (opened now) m.active_sessions;
            total_requests = next64 m.total_requests;
          },
        )
      ]
      else (none, m)

  unfoldable pub get_tenant_list : OrgManager T → List Text
  get_tenant_list m = map (λ entry. entry.0) m.tenants

  unfoldable pub get_tenant_configuration : Text → OrgManager T → Option T
  get_tenant_configuration tenant_id m = lookup tenant_id m.tenants

  unfoldable pub on_subscription_start : OrgManager T → OrgManager T
  on_subscription_start m = record m { active_subscriptions = next64 m.active_subscriptions }

  unfoldable pub on_subscription_end : OrgManager T → OrgManager T
  on_subscription_end m =
      if ltb 0 m.active_subscriptions
      then record m { active_subscriptions = previous64 m.active_subscriptions }
      else m

-- What is done to a manager.
pub data Step {T : Type 0} : OrgManager T → OrgManager T → Type 0 where
  starts_up : (initialized : Bool) (m : OrgManager T) → Step m (start initialized m).1
  stops : (m : OrgManager T) → Step m (stop m).1
  creates :
      (initialized : Bool) (id : Text) (stored : T) (m : OrgManager T)
      → Step m (create_tenant initialized id stored m).1
  removes : (id : Text) (m : OrgManager T) → Step m (remove_tenant id m).1
  gets : (now : ℕ) (id : Text) (m : OrgManager T) → Step m (get_tenant_session now id m).1
  subscribes : (m : OrgManager T) → Step m (on_subscription_start m)
  unsubscribes : (m : OrgManager T) → Step m (on_subscription_end m)

pub data Reachable {T : Type 0} (c : Configuration) : OrgManager T → Type 0 where
  starts : Reachable c (created c)
  steps : (m n : OrgManager T) → Reachable c m → Step m n → Reachable c n
