-- ===== src/Auth/Sessions/Counting.antt =====
-- The count of the sessions in memory.
use isched.Common.{
  ℕ, ◌+◌, ◌%◌, ◌^◌, ◌≡◌, refl, true, false, [], ◌∷◌, none, some, Text, text_eq, text_beq_iff,
  length, is_some, Map, lookup, erase, lookup-erase, length-insert, is_keyed, is_keyed-insert,
  is_keyed-erase, length-erase, arith, Option-cases, inl, inr,
}
use isched.Auth.Sessions.{
  SessionInfo, SessionTable, is_valid, new_session, create_session, touch, get_session, one_less,
  invalidate_session, drop_expired, cleanup_expired_sessions, Step, creates, reads, invalidates,
  cleans, Reachable, starts, steps,
}

lookup-drop_expired :
    (now : ℕ) (key : Text) (m : Map Text SessionInfo) (n : ℕ)
    → lookup key m ≡ none
    → lookup key (drop_expired now m n).active_sessions ≡ none
unfolding drop_expired lookup
lookup-drop_expired now key [] n h = refl
lookup-drop_expired now key ((at, s) ∷ m) n h =
    ground (arith, lookup-drop_expired now key m n, lookup-drop_expired now key m (one_less n))

is_keyed-drop_expired :
    (now : ℕ) (m : Map Text SessionInfo) (n : ℕ)
    → is_keyed m ≡ true
    → is_keyed (drop_expired now m n).active_sessions ≡ true
unfolding drop_expired
is_keyed-drop_expired now [] n h = refl
is_keyed-drop_expired now ((at, s) ∷ m) n h = ground (
  arith,
  is_keyed-drop_expired now m n,
  is_keyed-drop_expired now m (one_less n),
  lookup-drop_expired now at m n,
)

one_less_lem : (n l : ℕ) → n ≡ (l + 1) % 2 ^ 64 → one_less n ≡ l % 2 ^ 64
one_less_lem n l h = omega arith

-- `kept` sessions stand before the ones that are looked at.
drop_expired-count :
    (now kept n : ℕ) (m : Map Text SessionInfo)
    → n ≡ (length m + kept) % 2 ^ 64
    → (drop_expired now m n).active_sessions_count
      ≡ (length (drop_expired now m n).active_sessions + kept) % 2 ^ 64
unfolding drop_expired
drop_expired-count now kept n [] h = h
drop_expired-count now kept n ((at, s) ∷ m) h =
    let drops : one_less n ≡ (length m + kept) % 2 ^ 64 =
      one_less_lem n (length m + kept) (omega arith) in
    ground (
      arith,
      drop_expired-count now (kept + 1) n m,
      drop_expired-count now kept (one_less n) m drops,
    )

abbrev pub IsCounted : SessionTable → Type 0
IsCounted t =
    (is_keyed t.active_sessions ≡ true)
    × (t.active_sessions_count ≡ length t.active_sessions % 2 ^ 64)

Step-IsCounted : (t u : SessionTable) → Step t u → IsCounted t → IsCounted u
unfolding create_session get_session invalidate_session cleanup_expired_sessions
Step-IsCounted t _ (creates now id user tenant permissions _ fresh) (k, c) =
    let new = new_session now id user tenant permissions in
    (
      is_keyed-insert id new t.active_sessions k,
      ground (arith, length-insert id new t.active_sessions),
    )
Step-IsCounted t _ (reads now id _) (k, c) = elim (Option-cases (lookup id t.active_sessions)) [
  | inl e ↦ (ground (arith, e), ground (arith, e))
  | inr (s, e) ↦ (
    ground (arith, e, is_keyed-insert id (touch now s) t.active_sessions),
    ground (arith, e, length-insert id (touch now s) t.active_sessions),
  )
]
Step-IsCounted t _ (invalidates id _) (k, c) = (
  ground (arith, is_keyed-erase id t.active_sessions),
  ground (
    arith,
    length-erase id t.active_sessions,
    one_less_lem t.active_sessions_count (length (erase id t.active_sessions)),
  ),
)
Step-IsCounted t _ (cleans now _) (k, c) = (
  is_keyed-drop_expired now t.active_sessions t.active_sessions_count k,
  ground (arith, drop_expired-count now 0 t.active_sessions_count t.active_sessions),
)

-- However sessions are created, read, invalidated and cleaned up, with fresh identifiers for the new
-- ones, each stands once in the table and the count that the metrics report is the number of sessions
-- in it.
pub active_sessions_count-Reachable : (t : SessionTable) → Reachable t → IsCounted t
active_sessions_count-Reachable _ starts = (refl, refl)
active_sessions_count-Reachable t (steps s _ before step) =
    Step-IsCounted s t step (active_sessions_count-Reachable s before)

-- A session that a lookup gives was in the table and is valid, and after an invalidation no lookup
-- gives it.
pub get_session-valid :
    (now : ℕ) (id : Text) (t : SessionTable)
    → (is_some (get_session now id t).0
        ≡ elim (lookup id t.active_sessions) [ none ↦ false | some s ↦ is_valid now s ])
      × ((get_session now id (invalidate_session id t)).0 ≡ none)
unfolding get_session invalidate_session
get_session-valid now id t =
    (ground arith, ground (arith, lookup-erase id id t.active_sessions, text_beq_iff id id))
