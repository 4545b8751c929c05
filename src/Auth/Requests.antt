-- ===== src/Auth/Requests.antt =====
-- backend/isched_AuthenticationMiddleware.cpp: `validate_request` and `validate_token`. The JWT library is
-- a parameter: it gives the claims of a token that it verifies under a secret, or throws. So is the row
-- that the database has for a session.
use isched.Common.{
  ℕ, suc, text_beq, ◌+◌, ◌*◌, ◌%◌, ◌^◌, ◌≡◌, refl, Bool, true, false, not, ◌&&◌, ◌||◌, List, [],
  ◌∷◌, ◌++◌, Option, none, some, ◌==◌, Text, codes, text_eq, text_beq_iff, if◌then◌else◌, is_empty,
  ltb, length, take, drop, Map, lookup, arith, Option-cases, inl, inr,
}

pub record Claims : Type 0 where
  pub subject : Text
  pub tenant_claim : Option Text
  pub permissions : List Text
  pub roles : List Text
  pub name : Text
  pub expires_at : Option ℕ
  pub id : Option Text

pub data AuthError : Type 0 where
  missing_header invalid_format no_secret tenant_mismatch validation_failed revoked : AuthError

pub record Identity : Type 0 where
  pub user_id : Text
  pub user_name : Text
  pub tenant_id : Text
  pub user_permissions : List Text
  pub user_roles : List Text
  pub valid_until : ℕ
  pub jti : Text

pub data AuthResult : Type 0 where
  refused : AuthError → AuthResult
  authenticated : Identity → AuthResult

-- The counters are 64-bit.
pub record Counters : Type 0 where
  pub total_auth_attempts : ℕ
  pub successful_auths : ℕ
  pub failed_auths : ℕ

abbrev next64 : ℕ → ℕ
next64 n = (n + 1) % 2 ^ 64

abbrev bearer_prefix : Text
bearer_prefix = codes "Bearer "

unfoldable pub extract_jwt_token : Text → Text
extract_jwt_token auth_header =
    if ltb (length bearer_prefix) (length auth_header)
      && take (length bearer_prefix) auth_header == bearer_prefix
    then drop (length bearer_prefix) auth_header
    else []

abbrev or_empty : Option Text → Text
or_empty none = []
or_empty (some s) = s

abbrev or_else : Option ℕ → ℕ → ℕ
or_else none d = d
or_else (some t) d = t

abbrev hour : ℕ
hour = 3600 * 1000000000

abbrev identity_of : ℕ → Claims → Identity
identity_of now c = record {
  user_id = c.subject;
  user_name = c.name;
  tenant_id = or_empty c.tenant_claim;
  user_permissions = c.permissions;
  user_roles = c.roles;
  valid_until = or_else c.expires_at (now + hour);
  jti = or_empty c.id;
}

abbrev fails : AuthError → Counters → AuthResult × Counters
fails e c = (refused e, record c { failed_auths = next64 c.failed_auths })

abbrev passes : Identity → Counters → AuthResult × Counters
passes i c = (authenticated i, record c { successful_auths = next64 c.successful_auths })

module _ (verify : Text → Text → Option Claims) (secret : Text) where
  unfoldable pub check_claims : ℕ → Text → Option Claims → Counters → AuthResult × Counters
  check_claims now tenant none c = fails validation_failed c
  check_claims now tenant (some claims) c =
      if not (is_empty tenant) && not (or_empty claims.tenant_claim == tenant)
      then fails tenant_mismatch c
      else passes (identity_of now claims) c

  unfoldable pub check_token : ℕ → Text → Text → Counters → AuthResult × Counters
  check_token now tenant token c =
      if is_empty token
      then fails invalid_format c
      else if is_empty secret
      then fails no_secret c
      else check_claims now tenant (verify secret token) c

  unfoldable pub validate_request : ℕ → Map Text Text → Text → Counters → AuthResult × Counters
  validate_request now headers tenant c =
      let c' = record c { total_auth_attempts = next64 c.total_auth_attempts } in
      elim (lookup (codes "Authorization") headers) [
        | none ↦ fails missing_header c'
        | some header ↦ check_token now tenant (extract_jwt_token header) c'
      ]

  abbrev claimed_id : Option Claims → Option Text
  claimed_id none = none
  claimed_id (some claims) = claims.id

  -- The session's row: whether it is revoked, if there is one.
  abbrev check_row : Option Bool → AuthResult × Counters → AuthResult × Counters
  check_row (some true) (r, c) = fails revoked c
  check_row (some false) rc = rc
  check_row none rc = rc

  unfoldable pub check_revocation :
      (Text → Option Bool) → Text → AuthResult × Counters → AuthResult × Counters
  check_revocation sessions token (refused e, c) = (refused e, c)
  check_revocation sessions token (authenticated i, c) = elim (claimed_id (verify secret token)) [
    | none ↦ (authenticated i, c)
    | some jti ↦ check_row (sessions jti) (authenticated i, c)
  ]

  unfoldable pub validate_token :
      (Text → Option Bool) → ℕ → Text → Text → Counters → AuthResult × Counters
  validate_token sessions now token tenant c =
      check_revocation sessions token
        (validate_request now ((codes "Authorization", codes "Bearer " ++ token) ∷ []) tenant c)

abbrev pub is_authenticated : AuthResult → Bool
is_authenticated (refused e) = false
is_authenticated (authenticated i) = true

is_prefix : (s : Text) → (take 7 (codes "Bearer " ++ s) == codes "Bearer ") ≡ true
is_prefix s = (text_beq_iff _ _).1 refl

is_longer : (n : ℕ) → ltb 7 (suc (suc (suc (suc (suc (suc (suc (suc n)))))))) ≡ true
is_longer n = ground arith

extract_jwt_token-bearer : (token : Text) → extract_jwt_token (codes "Bearer " ++ token) ≡ token
unfolding extract_jwt_token
extract_jwt_token-bearer [] = refl
extract_jwt_token-bearer (c ∷ s) =
    rw (is_longer (length s), is_prefix (c ∷ s), extract_jwt_token) refl

authorization_lem :
    (header : Text)
    → lookup (codes "Authorization") ((codes "Authorization", header) ∷ []) ≡ some header
unfolding lookup text_beq
authorization_lem header = refl

-- The row that a token's session has says that it is revoked.
abbrev pub is_revoked : (Text → Option Bool) → Option Text → Bool
is_revoked sessions none = false
is_revoked sessions (some jti) = elim (sessions jti) [ none ↦ false | some r ↦ r ]

-- Whether a token should be let in.
unfoldable pub is_admissible :
    (Text → Text → Option Claims) → Text → (Text → Option Bool) → Text → Text → Bool
is_admissible verify secret sessions tenant token =
    not (is_empty token) && not (is_empty secret) && elim (verify secret token) [
      | none ↦ false
      | some claims ↦
          (is_empty tenant || or_empty claims.tenant_claim == tenant)
          && not (is_revoked sessions claims.id)
    ]

-- A token is let in exactly if it is not empty, a secret is configured under which it verifies, its
-- tenant is the one asked for where one is, and its session is not revoked.
pub validate_token-admissible :
    (verify : Text → Text → Option Claims) (secret : Text) (sessions : Text → Option Bool) (now : ℕ)
    (token tenant : Text) (c : Counters)
    → is_authenticated (validate_token verify secret sessions now token tenant c).0
      ≡ is_admissible verify secret sessions tenant token
unfolding validate_token validate_request check_token check_claims check_revocation is_admissible
validate_token-admissible verify secret sessions now token tenant c =
    let found = authorization_lem (codes "Bearer " ++ token) in
    let extracted = extract_jwt_token-bearer token in
    elim (Option-cases (verify secret token)) [
      | inl e ↦ ground (arith, found, extracted, e)
      | inr (claims, e) ↦ ground (arith, found, extracted, e)
    ]

next64-left :
    (a b t : ℕ) → (a + b) % 2 ^ 64 ≡ t % 2 ^ 64 → (next64 a + b) % 2 ^ 64 ≡ next64 t % 2 ^ 64
next64-left a b t h = omega arith

next64-right :
    (a b t : ℕ) → (a + b) % 2 ^ 64 ≡ t % 2 ^ 64 → (a + next64 b) % 2 ^ 64 ≡ next64 t % 2 ^ 64
next64-right a b t h = omega arith

-- Every request is counted once, as a success or as a failure.
pub validate_request-counts :
    (verify : Text → Text → Option Claims) (secret : Text) (now : ℕ) (headers : Map Text Text)
    (tenant : Text) (c : Counters)
    → (c.successful_auths + c.failed_auths) % 2 ^ 64 ≡ c.total_auth_attempts % 2 ^ 64
    → ((validate_request verify secret now headers tenant c).1.successful_auths
          + (validate_request verify secret now headers tenant c).1.failed_auths)
        % 2 ^ 64
      ≡ (validate_request verify secret now headers tenant c).1.total_auth_attempts % 2 ^ 64
unfolding validate_request check_token check_claims
validate_request-counts verify secret now headers tenant c h = ground (
  arith,
  next64-left c.successful_auths c.failed_auths c.total_auth_attempts,
  next64-right c.successful_auths c.failed_auths c.total_auth_attempts,
)
