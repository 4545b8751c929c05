-- ===== src/Auth/Sessions.antt =====
-- backend/isched_AuthenticationMiddleware.cpp: the sessions in memory. The identifier of a new session
-- comes from a random device; a step is taken with one that is not in use.
pub mod Counting
use isched.Common.{
  ℕ, suc, ◌+◌, ◌-◌, ◌*◌, ◌%◌, ◌^◌, ◌<◌, ◌≡◌, refl, Bool, true, false, List, [], ◌∷◌, Option, none,
  some, ◌==◌, Text, text_eq, if◌then◌else◌, ltb, length, is_some, Map, lookup, insert, erase,
  lookup-insert, lookup-erase, length-insert, arith,
}

pub record SessionInfo : Type 0 where
  pub session_id : Text
  pub user_id : Text
  pub tenant_id : Text
  pub permissions : List Text
  pub created_at : ℕ
  pub expires_at : ℕ
  pub last_activity : ℕ

pub record SessionTable : Type 0 where
  pub active_sessions : Map Text SessionInfo
  pub active_sessions_count : ℕ

-- A session lasts eight hours, in the clock's ticks.
abbrev pub lifetime : ℕ
lifetime = 8 * 3600 * 1000000000

unfoldable pub is_valid : ℕ → SessionInfo → Bool
is_valid now session = ltb now session.expires_at

abbrev pub new_session : ℕ → Text → Text → Text → List Text → SessionInfo
new_session now id user tenant permissions = record {
  session_id = id;
  user_id = user;
  tenant_id = tenant;
  permissions = permissions;
  created_at = now;
  expires_at = now + lifetime;
  last_activity = now;
}

unfoldable pub create_session :
    ℕ → Text → Text → Text → List Text → SessionTable → SessionInfo × SessionTable
create_session now id user tenant permissions table =
    let session = new_session now id user tenant permissions in
    (
      session,
      record {
        active_sessions = insert id session table.active_sessions;
        active_sessions_count = (table.active_sessions_count + 1) % 2 ^ 64;
      },
    )

abbrev pub touch : ℕ → SessionInfo → SessionInfo
touch now session = record session { last_activity = now }

unfoldable pub get_session : ℕ → Text → SessionTable → Option SessionInfo × SessionTable
get_session now id table = elim (lookup id table.active_sessions) [
  | none ↦ (none, table)
  | some session ↦
      if is_valid now session
      then (
        some (touch now session),
        record table { active_sessions = insert id (touch now session) table.active_sessions },
      )
      else (none, table)
]

-- `--active_sessions_count_` on 64 bits.
abbrev pub one_less : ℕ → ℕ
one_less n = (n + (2 ^ 64 - 1)) % 2 ^ 64

unfoldable pub invalidate_session : Text → SessionTable → SessionTable
invalidate_session id table =
    if is_some (lookup id table.active_sessions)
    then record {
      active_sessions = erase id table.active_sessions;
      active_sessions_count = one_less table.active_sessions_count;
    }
    else table

unfoldable pub drop_expired : ℕ → Map Text SessionInfo → ℕ → SessionTable
drop_expired now [] n = record { active_sessions = []; active_sessions_count = n }
drop_expired now (entry ∷ entries) n =
    let dropped = drop_expired now entries (one_less n) in
    let left = drop_expired now entries n in
    if is_valid now entry.1
    then record left { active_sessions = entry ∷ left.active_sessions }
    else dropped

unfoldable pub cleanup_expired_sessions : ℕ → SessionTable → SessionTable
cleanup_expired_sessions now table =
    drop_expired now table.active_sessions table.active_sessions_count

-- What the middleware does to its table.
pub data Step : SessionTable → SessionTable → Type 0 where
  creates :
      (now : ℕ) (id user tenant : Text) (permissions : List Text) (t : SessionTable)
      → lookup id t.active_sessions ≡ none
      → Step t (create_session now id user tenant permissions t).1
  reads : (now : ℕ) (id : Text) (t : SessionTable) → Step t (get_session now id t).1
  invalidates : (id : Text) (t : SessionTable) → Step t (invalidate_session id t)
  cleans : (now : ℕ) (t : SessionTable) → Step t (cleanup_expired_sessions now t)

abbrev pub no_sessions : SessionTable
no_sessions = record { active_sessions = []; active_sessions_count = 0 }

pub data Reachable : SessionTable → Type 0 where
  starts : Reachable no_sessions
  steps : (t u : SessionTable) → Reachable t → Step t u → Reachable u
