-- ===== src/Database/LoginSessions/Revocation.antt =====
-- backend/isched_DatabaseManager.cpp and backend/isched_AuthenticationMiddleware.cpp: which sessions are
-- revoked, and what that means for the tokens that name them.
use isched.Common.{
  ℕ, ◌≡◌, refl, Bool, true, false, not, ◌&&◌, ◌||◌, List, [], ◌∷◌, ◌++◌, Option, none, some, Text,
  text_eq, text_beq_iff, ◌==◌, is_some, arith, Option-cases, inl, inr, ◌∙◌,
}
use isched.Gql.Json.{Json}
use isched.Database.Answers.{DatabaseError, failed, value, Statement}
use isched.Database.Tables.{first, update, first-append, first-update, first-holds, first-counted}
use isched.Database.Statements.{runs, insert_row}
use isched.Auth.Requests.{
  Claims, Counters, validate_token, is_authenticated, is_admissible, validate_token-admissible,
}
use isched.Database.LoginSessions.{
  SessionRow, has_id, create_session, get_session, parse_session_row, update_session_activity,
  revoke, revoke_session, revoke_all_sessions_for_user, revoke_all_sessions_for_org, is_excluded,
}

pub data Operation : Type 0 where
  creates :
      Option DatabaseError
      → Statement
      → Text
      → Text
      → Text
      → Text
      → Text
      → Text
      → Text
      → Text
      → Operation
  touches : Option DatabaseError → Statement → Text → Text → Operation
  revokes : Option DatabaseError → Statement → Text → Operation
  revokes_user : Option DatabaseError → Statement → Text → Operation
  revokes_org : Option DatabaseError → Statement → Text → Operation

unfoldable pub perform : Operation → List SessionRow → List SessionRow
perform (creates access insertion now id user token permissions roles expires scope) rows =
    (create_session access insertion now id user token permissions roles expires scope rows).1
perform (touches access change now id) rows = (update_session_activity access change now id rows).1
perform (revokes access change id) rows = (revoke_session access change id rows).1
perform (revokes_user access change user) rows =
    (revoke_all_sessions_for_user access change user rows).1
perform (revokes_org access change exclude) rows =
    (revoke_all_sessions_for_org access change exclude rows).1

-- The operations, the last one first.
unfoldable pub perform_all : List Operation → List SessionRow → List SessionRow
perform_all [] rows = rows
perform_all (op ∷ earlier) rows = perform op (perform_all earlier rows)

-- Whether the session stored under a key is revoked, if there is one.
abbrev pub revoked_in : Text → List SessionRow → Option Bool
revoked_in key rows = elim (first (has_id key) rows) [ none ↦ none | some r ↦ some r.is_revoked ]

revoked-update :
    (key : Text) (p : SessionRow → Bool) (rows : List SessionRow) (r : SessionRow)
    → first (has_id key) rows ≡ some r
    → revoked_in key (update p revoke rows) ≡ some (r.is_revoked || p r)
revoked-update key p rows r h =
    ground (arith, h, first-update (has_id key) p revoke rows (λ x. refl))

touched-update :
    (key now id : Text) (rows : List SessionRow)
    → revoked_in key (update (has_id id) (λ r. record r { last_activity = now }) rows)
      ≡ revoked_in key rows
touched-update key now id rows = elim (Option-cases (first (has_id key) rows)) [
  | inl e ↦ ground (
    arith,
    e,
    first-update (has_id key) (has_id id) (λ r. record r { last_activity = now }) rows (λ x. refl),
  )
  | inr (r, e) ↦ ground (
    arith,
    e,
    first-update (has_id key) (has_id id) (λ r. record r { last_activity = now }) rows (λ x. refl),
  )
]

stays-revoked :
    (key : Text) (p : SessionRow → Bool) (rows : List SessionRow)
    → revoked_in key rows ≡ some true
    → revoked_in key (update p revoke rows) ≡ some true
stays-revoked key p rows h = elim (Option-cases (first (has_id key) rows)) [
  | inl e ↦ ground (arith, e, h)
  | inr (r, e) ↦ ground (arith, e, h, revoked-update key p rows r e)
]

added-revoked :
    (key : Text) (rows ss : List SessionRow)
    → revoked_in key rows ≡ some true
    → revoked_in key (rows ++ ss) ≡ some true
added-revoked key rows ss h = elim (Option-cases (first (has_id key) rows)) [
  | inl e ↦ ground (arith, e, h)
  | inr (r, e) ↦ ground (arith, e, h, first-append (has_id key) rows ss)
]

inserted-revoked :
    (access : Option DatabaseError) (insertion : Statement) (clashes : Bool) (r : SessionRow)
    (key : Text) (rows : List SessionRow)
    → revoked_in key rows ≡ some true
    → revoked_in key (insert_row access insertion clashes r rows).1 ≡ some true
inserted-revoked (some e) insertion clashes r key rows h = h
inserted-revoked none insertion clashes r key rows h =
    ground (arith, h, added-revoked key rows (r ∷ []) h)

perform-revoked :
    (op : Operation) (key : Text) (rows : List SessionRow)
    → revoked_in key rows ≡ some true
    → revoked_in key (perform op rows) ≡ some true
unfolding perform create_session update_session_activity revoke_session revoke_all_sessions_for_user
    revoke_all_sessions_for_org
perform-revoked (creates none insertion now id user token permissions roles expires scope) key rows
      h =
    inserted-revoked none insertion (is_some (first (has_id id) rows)) _ key rows h
perform-revoked (touches none change now id) key rows h =
    ground (arith, h, touched-update key now id rows)
perform-revoked (revokes none change id) key rows h =
    ground (arith, h, stays-revoked key (λ r. has_id id r && not r.is_revoked) rows h)
perform-revoked (revokes_user none change user) key rows h =
    ground (arith, h, stays-revoked key (λ r. r.user_id == user && not r.is_revoked) rows h)
perform-revoked (revokes_org none change exclude) key rows h =
    ground
      (arith, h, stays-revoked key (λ r. not r.is_revoked && not (is_excluded exclude r)) rows h)
perform-revoked (creates (some e) _ _ _ _ _ _ _ _ _) key rows h = h
perform-revoked (touches (some e) _ _ _) key rows h = h
perform-revoked (revokes (some e) _ _) key rows h = h
perform-revoked (revokes_user (some e) _ _) key rows h = h
perform-revoked (revokes_org (some e) _ _) key rows h = h

perform_all-revoked :
    (ops : List Operation) (key : Text) (rows : List SessionRow)
    → revoked_in key rows ≡ some true
    → revoked_in key (perform_all ops rows) ≡ some true
unfolding perform_all
perform_all-revoked [] key rows h = h
perform_all-revoked (op ∷ ops) key rows h =
    perform-revoked op key (perform_all ops rows) (perform_all-revoked ops key rows h)

-- What each revocation does to one session: that of a session, of a user's sessions, and of a tenant's.
pub revocations-exact :
    (change : Statement) (id user exclude key : Text) (rows : List SessionRow) (r : SessionRow)
    → runs change ≡ true
    → first (has_id key) rows ≡ some r
    → (revoked_in key (revoke_session none change id rows).1 ≡ some (r.is_revoked || key == id))
      × (revoked_in key (revoke_all_sessions_for_user none change user rows).1
          ≡ some (r.is_revoked || r.user_id == user))
      × (revoked_in key (revoke_all_sessions_for_org none change exclude rows).1
          ≡ some (r.is_revoked || not (is_excluded exclude r)))
unfolding revoke_session revoke_all_sessions_for_user revoke_all_sessions_for_org
revocations-exact change id user exclude key rows r h e = (
  ground (
    arith,
    h,
    e,
    revoked-update key (λ x. has_id id x && not x.is_revoked) rows r e,
    text_beq_iff r.id id,
    text_beq_iff key id,
    text_beq_iff r.id key,
    first-holds (has_id key) rows r e,
    first-counted (has_id key) (λ x. has_id id x && not x.is_revoked) rows r e,
  ),
  ground (arith, h, e, revoked-update key (λ x. x.user_id == user && not x.is_revoked) rows r e),
  ground (
    arith,
    h,
    e,
    revoked-update key (λ x. not x.is_revoked && not (is_excluded exclude x)) rows r e,
  ),
)

-- What `validate_token` asks the database about the session that a token names.
unfoldable pub session_state :
    {N : Type 0}
    → (Text → Option (Json N))
    → Option DatabaseError
    → Statement
    → List SessionRow
    → Text
    → Option Bool
session_state parse access selection rows key = elim (get_session parse access selection key rows) [
  | failed e ↦ none
  | value r ↦ some r.is_revoked
]

-- A session that was revoked once: whatever is done to the sessions later, and however SQLite answers
-- then, no token that names it is let in, as long as the query for the session runs.
pub validate_token-revoked :
    {N : Type 0} (parse : Text → Option (Json N)) (verify : Text → Text → Option Claims)
    (secret key token tenant : Text) (claims : Claims) (now : ℕ) (c : Counters)
    (selection : Statement) (ops : List Operation) (rows : List SessionRow)
    → revoked_in key rows ≡ some true
    → verify secret token ≡ some claims
    → claims.id ≡ some key
    → runs selection ≡ true
    → is_authenticated
        (validate_token verify secret
          (session_state parse none selection (perform_all ops rows))
          now
          token
          tenant
          c).0
      ≡ false
unfolding is_admissible session_state get_session parse_session_row
validate_token-revoked parse verify secret key token tenant claims now c selection ops rows h v e
      f =
    let kept = perform_all-revoked ops key rows h in
    validate_token-admissible verify secret
      (session_state parse none selection (perform_all ops rows)) now token tenant c
    ∙ (elim (Option-cases (first (has_id key) (perform_all ops rows))) [
      | inl g ↦ ground (arith, kept, v, e, f, g)
      | inr (r, g) ↦ ground (arith, kept, v, e, f, g)
    ])
