-- ===== src/Auth/RateLimits.antt =====
-- backend/isched_AuthenticationMiddleware.cpp: the lockout of an identity after failed attempts. A time
-- is a number of the clock's ticks since the epoch, and a millisecond is 1000000 of them. The
-- configuration gives windows and limits above zero (shared/config/isched_config.cpp).
pub mod Lockout
use isched.Common.{
  ℕ, ◌+◌, ◌-◌, ◌*◌, ◌/◌, ◌≡◌, Bool, true, false, List, [], ◌∷◌, ◌++◌, Option, none, some, Text,
  text_eq, if◌then◌else◌, leb, ltb, length, Map, lookup, insert, erase,
}

pub record RateLimitWindow : Type 0 where
  pub failed_attempts : List ℕ
  pub max_attempts : ℕ
  pub window : ℕ
  pub locked_until : ℕ

abbrev pub ticks : ℕ → ℕ
ticks ms = ms * 1000000

abbrev pub fresh_window : RateLimitWindow
fresh_window = record {
  failed_attempts = [];
  max_attempts = 5;
  window = ticks 900000;
  locked_until = 0;
}

abbrev pub Windows : Type 0
Windows = Map Text RateLimitWindow

-- The answer, and the windows with the lock of an expired one reset.
unfoldable pub is_rate_limited : ℕ → Text → Windows → Bool × Windows
is_rate_limited now identity windows = elim (lookup identity windows) [
  | none ↦ (false, windows)
  | some w ↦
      if leb w.locked_until now
      then (false, insert identity (record w { locked_until = 0 }) windows)
      else (true, windows)
]

-- The `while` that drops attempts from the front.
unfoldable pub drop_old : ℕ → ℕ → List ℕ → List ℕ
drop_old now window [] = []
drop_old now window (t ∷ ts) = if ltb window (now - t) then drop_old now window ts else t ∷ ts

abbrev pub window_or_fresh : Option RateLimitWindow → RateLimitWindow
window_or_fresh none = fresh_window
window_or_fresh (some w) = w

unfoldable pub count_attempt : ℕ → ℕ → ℕ → RateLimitWindow → RateLimitWindow
count_attempt now window_ms max_attempts w =
    let attempts = drop_old now (ticks window_ms) w.failed_attempts ++ (now ∷ []) in
    record {
      failed_attempts = attempts;
      max_attempts = max_attempts;
      window = ticks window_ms;
      locked_until =
          if leb max_attempts (length attempts) then now + ticks window_ms else w.locked_until;
    }

unfoldable pub record_failed_attempt : ℕ → Text → ℕ → ℕ → Windows → Windows
record_failed_attempt now identity window_ms max_attempts windows =
    insert identity
      (count_attempt now window_ms max_attempts (window_or_fresh (lookup identity windows))) windows

unfoldable pub reset_failed_attempts : Text → Windows → Windows
reset_failed_attempts identity windows = erase identity windows

unfoldable pub get_rate_limit_reset_ms : ℕ → Text → Windows → ℕ
get_rate_limit_reset_ms now identity windows = elim (lookup identity windows) [
  | none ↦ 0
  | some w ↦ if leb w.locked_until now then 0 else (w.locked_until - now) / 1000000
]
