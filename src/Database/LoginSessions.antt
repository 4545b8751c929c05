-- ===== src/Database/LoginSessions.antt =====
-- backend/isched_DatabaseManager.cpp: the login sessions of a tenant: `create_session`, `get_session`,
-- `update_session_activity`, `revoke_session`, `revoke_all_sessions_for_user` and
-- `revoke_all_sessions_for_org`. The JSON library's parser is a parameter.
pub mod Revocation
use isched.Common.{
  ◌≡◌, Bool, true, false, not, ◌&&◌, ◌||◌, List, [], ◌∷◌, ◌++◌, Option, none, some, Text, codes,
  text_eq, ◌==◌, nat_eq, if◌then◌else◌, is_some, is_empty,
}
use isched.Gql.Json.{Json, Jsons, null, boolean, number, text, array, object, no_items, item}
use isched.Database.Answers.{
  DatabaseError, DatabaseResult, failed, value, Void, done, Statement, query_failed, not_found,
}
use isched.Database.Tables.{first}
use isched.Database.Statements.{runs, insert_row, update_rows, update_counted}

-- A row of `sessions`; lists are kept as JSON text.
pub record SessionRow : Type 0 where
  pub id : Text
  pub user_id : Text
  pub access_token_id : Text
  pub permissions : Text
  pub roles : Text
  pub issued_at : Text
  pub expires_at : Text
  pub last_activity : Text
  pub transport_scope : Text
  pub is_revoked : Bool

pub record SessionRecord : Type 0 where
  pub id : Text
  pub user_id : Text
  pub access_token_id : Text
  pub permissions : List Text
  pub roles : List Text
  pub issued_at : Text
  pub expires_at : Text
  pub last_activity : Text
  pub transport_scope : Text
  pub is_revoked : Bool

abbrev pub has_id : Text → SessionRow → Bool
has_id key r = r.id == key

unfoldable pub create_session :
    Option DatabaseError
    → Statement
    → Text
    → Text
    → Text
    → Text
    → Text
    → Text
    → Text
    → Text
    → List SessionRow
    → DatabaseResult Void × List SessionRow
create_session access insertion now id user_id token_id permissions roles expires_at scope rows =
    insert_row access insertion (is_some (first (has_id id) rows))
      (record {
        id = id;
        user_id = user_id;
        access_token_id = token_id;
        permissions = permissions;
        roles = roles;
        issued_at = now;
        expires_at = expires_at;
        last_activity = now;
        transport_scope = scope;
        is_revoked = false;
      })
      rows

module _ {N : Type 0} (parse : Text → Option (Json N)) where
  -- An item that is no string throws, which ends the loop and keeps what it has.
  unfoldable pub strings_of : Jsons N → List Text
  strings_of no_items = []
  strings_of (item (text s) js) = s ∷ strings_of js
  strings_of (item j js) = []

  unfoldable pub parse_json_array : Text → List Text
  parse_json_array s = elim (parse s) [
    | none ↦ []
    | some j ↦ elim j [ array js ↦ strings_of js | _ ↦ [] ]
  ]

  unfoldable pub parse_session_row : SessionRow → SessionRecord
  parse_session_row r = record {
    id = r.id;
    user_id = r.user_id;
    access_token_id = r.access_token_id;
    permissions = parse_json_array r.permissions;
    roles = parse_json_array r.roles;
    issued_at = r.issued_at;
    expires_at = r.expires_at;
    last_activity = r.last_activity;
    transport_scope = r.transport_scope;
    is_revoked = r.is_revoked;
  }

  unfoldable pub get_session :
      Option DatabaseError → Statement → Text → List SessionRow → DatabaseResult SessionRecord
  get_session (some e) selection id rows = failed e
  get_session none selection id rows =
      if not (runs selection) then failed query_failed else elim (first (has_id id) rows) [
        | none ↦ failed not_found
        | some r ↦ value (parse_session_row r)
      ]

unfoldable pub update_session_activity :
    Option DatabaseError
    → Statement
    → Text
    → Text
    → List SessionRow
    → DatabaseResult Void × List SessionRow
update_session_activity access change now id rows =
    update_counted access change (has_id id) (λ r. record r { last_activity = now }) rows

abbrev pub revoke : SessionRow → SessionRow
revoke r = record r { is_revoked = true }

-- A session that is revoked already is not found.
unfoldable pub revoke_session :
    Option DatabaseError
    → Statement
    → Text
    → List SessionRow
    → DatabaseResult Void × List SessionRow
revoke_session access change id rows =
    update_counted access change (λ r. has_id id r && not r.is_revoked) revoke rows

unfoldable pub revoke_all_sessions_for_user :
    Option DatabaseError
    → Statement
    → Text
    → List SessionRow
    → DatabaseResult Void × List SessionRow
revoke_all_sessions_for_user access change user_id rows =
    update_rows access change (λ r. r.user_id == user_id && not r.is_revoked) revoke rows

unfoldable pub has_prefix : Text → Text → Bool
has_prefix [] t = true
has_prefix (c ∷ s) [] = false
has_prefix (c ∷ s) (d ∷ t) = c == d && has_prefix s t

-- SQL: instr(t, s) > 0.
unfoldable pub instr : Text → Text → Bool
instr [] s = has_prefix s []
instr (c ∷ t) s = has_prefix s (c ∷ t) || instr t s

-- Whether a session is kept because the text of its roles contains the excluded one.
unfoldable pub is_excluded : Text → SessionRow → Bool
is_excluded exclude_role r = not (is_empty exclude_role) && instr r.roles exclude_role

unfoldable pub revoke_all_sessions_for_org :
    Option DatabaseError
    → Statement
    → Text
    → List SessionRow
    → DatabaseResult Void × List SessionRow
revoke_all_sessions_for_org access change exclude_role rows =
    update_rows access change (λ r. not r.is_revoked && not (is_excluded exclude_role r)) revoke
      rows
