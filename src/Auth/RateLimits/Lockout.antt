-- ===== src/Auth/RateLimits/Lockout.antt =====
-- The lockout, against a definition that sees all of the failed attempts.
use isched.Common.{
  ℕ, ◌+◌, ◌-◌, ◌/◌, ◌≤◌, ◌<◌, ◌≡◌, refl, Bool, true, false, ◌&&◌, List, [], ◌∷◌, ◌++◌, Option, none,
  some, Text, text_eq, text_beq_iff, ◌==◌, if◌then◌else◌, leb, ltb, length, length-append, all,
  lookup, lookup-insert, lookup-erase, arith,
}
use isched.Auth.RateLimits.{
  RateLimitWindow, ticks, Windows, is_rate_limited, drop_old, window_or_fresh, count_attempt,
  record_failed_attempt, reset_failed_attempts, get_rate_limit_reset_ms,
}

-- Failed attempts are given latest first.
abbrev pub is_latest : ℕ → List ℕ → Bool
is_latest t earlier = all (λ e. leb e t) earlier

abbrev pub is_chronicle : List ℕ → Bool
is_chronicle [] = true
is_chronicle (t ∷ earlier) = is_latest t earlier && is_chronicle earlier

unfoldable pub count_recent : ℕ → ℕ → List ℕ → ℕ
count_recent now window [] = 0
count_recent now window (t ∷ earlier) =
    (if leb (now - t) window then 1 else 0) + count_recent now window earlier

-- When an identity is locked until: the last attempt that had the limit's number of attempts within
-- the window that ends at it locks it for a window's length.
unfoldable pub locked_after : ℕ → ℕ → List ℕ → ℕ
locked_after window_ms max_attempts [] = 0
locked_after window_ms max_attempts (t ∷ earlier) =
    if leb max_attempts (1 + count_recent t (ticks window_ms) earlier)
    then t + ticks window_ms
    else locked_after window_ms max_attempts earlier

-- The attempts recorded from a state without the identity.
unfoldable pub record_all : Text → ℕ → ℕ → List ℕ → Windows → Windows
record_all identity window_ms max_attempts [] windows = windows
record_all identity window_ms max_attempts (t ∷ earlier) windows =
    record_failed_attempt t identity window_ms max_attempts
      (record_all identity window_ms max_attempts earlier windows)

-- The attempts that are still in the window, the oldest first.
unfoldable kept : ℕ → ℕ → List ℕ → List ℕ
kept now window [] = []
kept now window (t ∷ earlier) =
    let older = kept now window earlier in if leb (now - t) window then older ++ (t ∷ []) else older

length-kept :
    (now window : ℕ) (ts : List ℕ) → length (kept now window ts) ≡ count_recent now window ts
unfolding kept count_recent
length-kept now window [] = refl
length-kept now window (t ∷ ts) =
    ground (arith, length-kept now window ts, length-append (kept now window ts) (t ∷ []))

all-snoc : (p : ℕ → Bool) (xs : List ℕ) (x : ℕ) → all p (xs ++ (x ∷ [])) ≡ (all p xs && p x)
all-snoc p [] x = ground arith
all-snoc p (y ∷ xs) x = ground (arith, all-snoc p xs x)

kept-is_latest :
    (t now window : ℕ) (ts : List ℕ)
    → is_latest t ts ≡ true
    → is_latest t (kept now window ts) ≡ true
unfolding kept
kept-is_latest t now window [] h = refl
kept-is_latest t now window (u ∷ ts) h =
    ground (arith, kept-is_latest t now window ts, all-snoc (λ e. leb e t) (kept now window ts) u)

drop_old-all :
    (now window t : ℕ) (xs : List ℕ)
    → is_latest t xs ≡ true
    → window < now - t
    → drop_old now window xs ≡ []
unfolding drop_old
drop_old-all now window t [] h i = refl
drop_old-all now window t (x ∷ xs) h i = ground (arith, drop_old-all now window t xs)

drop_old-recent :
    (now window t : ℕ) (xs : List ℕ)
    → now - t ≤ window
    → drop_old now window (xs ++ (t ∷ [])) ≡ drop_old now window xs ++ (t ∷ [])
unfolding drop_old
drop_old-recent now window t [] h = ground arith
drop_old-recent now window t (x ∷ xs) h = ground (arith, drop_old-recent now window t xs)

drop_old-snoc-old :
    (now window t : ℕ) (xs : List ℕ)
    → is_latest t xs ≡ true
    → window < now - t
    → drop_old now window (xs ++ (t ∷ [])) ≡ []
unfolding drop_old
drop_old-snoc-old now window t [] h i = ground arith
drop_old-snoc-old now window t (x ∷ xs) h i = ground (arith, drop_old-snoc-old now window t xs)

drop_old-kept :
    (before now window : ℕ) (ts : List ℕ)
    → before ≤ now
    → is_chronicle ts ≡ true
    → drop_old now window (kept before window ts) ≡ kept now window ts
unfolding kept drop_old
drop_old-kept before now window [] h i = refl
drop_old-kept before now window (t ∷ ts) h i = ground (
  arith,
  drop_old-kept before now window ts,
  drop_old-recent now window t (kept before window ts),
  drop_old-snoc-old now window t (kept before window ts),
  drop_old-all now window t (kept before window ts),
  kept-is_latest t before window ts,
)

entry_after : ℕ → ℕ → List ℕ → Option RateLimitWindow
entry_after window_ms max_attempts [] = none
entry_after window_ms max_attempts (t ∷ earlier) = some (record {
  failed_attempts = kept t (ticks window_ms) (t ∷ earlier);
  max_attempts = max_attempts;
  window = ticks window_ms;
  locked_until = locked_after window_ms max_attempts (t ∷ earlier);
})

count_attempt-entry :
    (window_ms max_attempts t : ℕ) (earlier : List ℕ)
    → is_chronicle (t ∷ earlier) ≡ true
    → some (
        count_attempt t window_ms max_attempts
          (window_or_fresh (entry_after window_ms max_attempts earlier)))
      ≡ entry_after window_ms max_attempts (t ∷ earlier)
unfolding count_attempt entry_after locked_after kept drop_old count_recent
count_attempt-entry window_ms max_attempts t [] h = ground arith
count_attempt-entry window_ms max_attempts t (u ∷ earlier) h = ground (
  arith,
  drop_old-kept u t (ticks window_ms) (u ∷ earlier),
  length-kept t (ticks window_ms) (u ∷ earlier),
  length-append (kept t (ticks window_ms) (u ∷ earlier)) (t ∷ []),
)

record_all-entry :
    (identity : Text) (window_ms max_attempts : ℕ) (ts : List ℕ) (windows : Windows)
    → is_chronicle ts ≡ true
    → lookup identity windows ≡ none
    → lookup identity (record_all identity window_ms max_attempts ts windows)
      ≡ entry_after window_ms max_attempts ts
unfolding record_all entry_after record_failed_attempt
record_all-entry identity window_ms max_attempts [] windows h i = i
record_all-entry identity window_ms max_attempts (t ∷ earlier) windows h i =
    let before = record_all identity window_ms max_attempts earlier windows in
    ground (
      arith,
      record_all-entry identity window_ms max_attempts earlier windows,
      lookup-insert identity identity
          (count_attempt t window_ms max_attempts (window_or_fresh (lookup identity before)))
          before,
      count_attempt-entry window_ms max_attempts t earlier,
      text_beq_iff identity identity,
    )

-- After failed attempts of an identity that was not known, it is rate limited exactly until the time
-- that the lockout's definition gives, which sees all of the attempts and not only those that are
-- kept; the time that is left is told in whole milliseconds, and is 0 when there is no lock.
pub is_rate_limited-lockout :
    (identity : Text) (window_ms max_attempts now : ℕ) (ts : List ℕ) (windows : Windows)
    → is_chronicle ts ≡ true
    → lookup identity windows ≡ none
    → ((is_rate_limited now identity (record_all identity window_ms max_attempts ts windows)).0
        ≡ ltb now (locked_after window_ms max_attempts ts))
      × (get_rate_limit_reset_ms now identity
            (record_all identity window_ms max_attempts ts windows)
          ≡ (locked_after window_ms max_attempts ts - now) / 1000000)
unfolding is_rate_limited get_rate_limit_reset_ms locked_after entry_after
is_rate_limited-lockout identity window_ms max_attempts now [] windows h i = (
  ground (arith, record_all-entry identity window_ms max_attempts [] windows),
  ground (arith, record_all-entry identity window_ms max_attempts [] windows),
)
is_rate_limited-lockout identity window_ms max_attempts now (t ∷ ts) windows h i = (
  ground (arith, record_all-entry identity window_ms max_attempts (t ∷ ts) windows),
  ground (arith, record_all-entry identity window_ms max_attempts (t ∷ ts) windows),
)

record_all-others :
    (identity other : Text) (window_ms max_attempts : ℕ) (ts : List ℕ) (windows : Windows)
    → (identity == other) ≡ false
    → lookup other (record_all identity window_ms max_attempts ts windows) ≡ lookup other windows
unfolding record_all record_failed_attempt
record_all-others identity other window_ms max_attempts [] windows h = refl
record_all-others identity other window_ms max_attempts (t ∷ ts) windows h =
    let before = record_all identity window_ms max_attempts ts windows in
    ground (
      arith,
      record_all-others identity other window_ms max_attempts ts windows,
      lookup-insert identity other
          (count_attempt t window_ms max_attempts (window_or_fresh (lookup identity before)))
          before,
    )

-- The attempts of one identity change nothing for another, and after a reset an identity is not
-- rate limited.
pub is_rate_limited-others :
    (identity other : Text) (window_ms max_attempts now : ℕ) (ts : List ℕ) (windows : Windows)
    → (identity == other) ≡ false
    → ((is_rate_limited now other (record_all identity window_ms max_attempts ts windows)).0
        ≡ (is_rate_limited now other windows).0)
      × ((is_rate_limited now identity (reset_failed_attempts identity windows)).0 ≡ false)
unfolding is_rate_limited reset_failed_attempts
is_rate_limited-others identity other window_ms max_attempts now ts windows h = (
  ground (arith, record_all-others identity other window_ms max_attempts ts windows),
  ground (arith, lookup-erase identity identity windows, text_beq_iff identity identity),
)
