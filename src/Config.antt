-- ===== src/Config.antt =====
-- shared/config/isched_config.cpp: the manager's providers and callbacks, and the lockout
-- configuration from the environment. A provider is a value of an open type `P` with those
-- operations of the `ConfigProvider` interface that the manager calls for more than a log line; a
-- configuration value is of the type `V`.
pub mod Priorities
pub mod Notification
pub mod Values
pub mod Providers
pub mod Manager
use isched.Common.{
  ℕ, suc, ◌+◌, ◌-◌, ◌%◌, ◌^◌, ◌≡◌, refl, arith, Bool, true, false, not, ◌&&◌, List, [], ◌∷◌, ◌++◌,
  Option, none, some, ◌==◌, nat_eq, Text, codes, text_eq, if◌then◌else◌, ltb, take, length,
  is_empty, get_last?, pop_back, Map, lookup, insert, erase,
}

pub record Provider (P V : Type 0) : Type 0 where
  pub get_priority : P → ℕ
  pub get_value : P → Text → Option V
  pub set_value : P → Text → V → Option P
  pub load : P → Bool × P
  pub save : P → Bool × P

-- `str.find(prefix) == 0`.
abbrev pub starts_with : Text → Text → Bool
starts_with str prefix = take (length prefix) str == prefix

abbrev pub star : ℕ
star = b'*'

abbrev pub ends_in_star : Option ℕ → Bool
ends_in_star none = false
ends_in_star (some c) = c == star

unfoldable pub match_pattern : Text → Text → Bool
match_pattern pattern str =
    if is_empty pattern
    then true
    else if pattern == star ∷ []
    then true
    else if ends_in_star (get_last? pattern)
    then starts_with str (pop_back pattern)
    else false

module _ {P V : Type 0} (provider : Provider P V) where
  -- Before the first provider of a lower priority.
  unfoldable pub add_provider : P → List P → List P
  add_provider p [] = p ∷ []
  add_provider p (q ∷ qs) =
      if ltb (provider.get_priority q) (provider.get_priority p)
      then p ∷ q ∷ qs
      else q ∷ add_provider p qs

  unfoldable pub get : Text → List P → Option V
  get key [] = none
  get key (p ∷ ps) = elim (provider.get_value p key) [ some v ↦ some v | none ↦ get key ps ]

  -- The first provider that accepts the value changes; `none` means that none does.
  unfoldable pub set : Text → V → List P → Option (List P)
  set key v [] = none
  set key v (p ∷ ps) =
      let rest = set key v ps in
      elim (provider.set_value p key v) [
        | some p' ↦ some (p' ∷ ps)
        | none ↦ elim rest [ none ↦ none | some ps' ↦ some (p ∷ ps') ]
      ]

  -- Every provider is loaded, also after one has failed.
  unfoldable pub load_all : List P → Bool × List P
  load_all [] = (true, [])
  load_all (p ∷ ps) =
      let loaded = provider.load p in
      let rest = load_all ps in (loaded.0 && rest.0, loaded.1 ∷ rest.1)

  unfoldable pub save_all : List P → Bool × List P
  save_all [] = (true, [])
  save_all (p ∷ ps) =
      let saved = provider.save p in let rest = save_all ps in (saved.0 && rest.0, saved.1 ∷ rest.1)

-- A callback is kept under its number with the pattern that it is for.
pub record Callbacks (C : Type 0) : Type 0 where
  pub change_callbacks : Map ℕ (Text × C)
  pub next_callback_id : ℕ

module _ {C : Type 0} where
  abbrev pub no_callbacks : Callbacks C
  no_callbacks = record { change_callbacks = []; next_callback_id = 1 }

  unfoldable pub register_change_callback : Text → C → Callbacks C → ℕ × Callbacks C
  register_change_callback key callback cs = (
    cs.next_callback_id,
    record {
      change_callbacks = insert cs.next_callback_id (key, callback) cs.change_callbacks;
      next_callback_id = (cs.next_callback_id + 1) % 2 ^ 64;
    },
  )

  unfoldable pub unregister_change_callback : ℕ → Callbacks C → Callbacks C
  unregister_change_callback id cs = record cs { change_callbacks = erase id cs.change_callbacks }

  -- The callbacks that are called for a key.
  unfoldable pub notified : Text → Map ℕ (Text × C) → List (ℕ × C)
  notified key [] = []
  notified key (entry ∷ entries) =
      let rest = notified key entries in
      if match_pattern entry.1.0 key then (entry.0, entry.1.1) ∷ rest else rest

  unfoldable pub notify_change_callbacks : Text → Callbacks C → List (ℕ × C)
  notify_change_callbacks key cs = notified key cs.change_callbacks

pub record AuthRateLimitConfig : Type 0 where
  pub window_ms : ℕ
  pub max_attempts : ℕ
  pub window_source : Text
  pub max_attempts_source : Text

-- The process's environment and `std::stoi`; `none` is an exception or a number below zero.
module _ (getenv : Text → Option Text) (stoi : Text → Option ℕ) where
  abbrev positive : Option ℕ → Option ℕ
  positive none = none
  positive (some n) = if ltb 0 n then some n else none

  abbrev parse_raw : Option Text → Option ℕ
  parse_raw none = none
  parse_raw (some raw) = if is_empty raw then none else positive (stoi raw)

  unfoldable pub parse_positive_int_env : Text → Option ℕ
  parse_positive_int_env key = parse_raw (getenv key)

  unfoldable pub first_positive : List Text → ℕ × Text → ℕ × Text
  first_positive [] default = default
  first_positive (key ∷ keys) default = elim (parse_positive_int_env key) [
    | some n ↦ (n, key)
    | none ↦ first_positive keys default
  ]

  abbrev pub built_in : Text
  built_in = codes "built-in-default"

  unfoldable pub resolve_auth_rate_limit_config_from_env : AuthRateLimitConfig
  resolve_auth_rate_limit_config_from_env =
      let window =
        first_positive
          (codes "ISCHED_BOOTSTRAP_AUTH_LOCKOUT_WINDOW_MS"
            ∷ codes "ISCHED_AUTH_LOCKOUT_WINDOW_MS"
            ∷ codes "ISCHED_RATE_LIMIT_WINDOW_MS"
            ∷ [])
          (900000, built_in) in
      let attempts =
        first_positive
          (codes "ISCHED_BOOTSTRAP_AUTH_LOCKOUT_MAX_ATTEMPTS"
            ∷ codes "ISCHED_AUTH_LOCKOUT_MAX_ATTEMPTS"
            ∷ codes "ISCHED_RATE_LIMIT_MAX_ATTEMPTS"
            ∷ [])
          (5, built_in) in
      record {
        window_ms = window.0;
        max_attempts = attempts.0;
        window_source = window.1;
        max_attempts_source = attempts.1;
      }

  first_positive-positive :
      (keys : List Text) (default : ℕ × Text)
      → ltb 0 default.0 ≡ true
      → ltb 0 (first_positive keys default).0 ≡ true
  unfolding first_positive parse_positive_int_env
  first_positive-positive [] default h = h
  first_positive-positive (key ∷ keys) default h =
      ground (arith, first_positive-positive keys default)

  -- Whatever the environment holds, the window and the number of attempts of a lockout are above zero.
  pub resolve_auth_rate_limit_config_from_env-positive :
      (ltb 0 resolve_auth_rate_limit_config_from_env.window_ms ≡ true)
      × (ltb 0 resolve_auth_rate_limit_config_from_env.max_attempts ≡ true)
  unfolding resolve_auth_rate_limit_config_from_env
  resolve_auth_rate_limit_config_from_env-positive =
      (first_positive-positive _ _ refl, first_positive-positive _ _ refl)
