-- ===== src/Identity.antt =====
-- PostgresIdentityAdapter of packages/db/src/identity-adapter.ts, each method on the table that it
-- writes, in its caller's transaction. What crypto.randomUUID draws and the clock reads is an
-- argument; `hash` and `verify` are Bun.password's.
pub mod Tokens
pub mod Stored
mod Tests
use Prim.Native.Char.{Char, code}
use Prim.Native.String
use labpics_id.Prelude.{
  ℕ, ◌+◌, ◌*◌, Bool, true, false, ◌&&◌, Option, none, some, List, [], ◌∷◌, map, String, ◌==◌, ltb,
  leb, first, is_null, if◌then◌else◌,
}
use labpics_id.Sql.{select, update, delete, insert, find}
use labpics_id.Sql.Keyed.{row_of}
use labpics_id.Domain.Result.{Result, ok, thrown, Exec, unique_violation}
use labpics_id.Domain.Ids.{user_id}
use labpics_id.Domain.Contract.{SessionView, SessionState, password, RegisterSubjectCommand}
use labpics_id.Domain.Ports.{TokenPurpose, token_purpose_text}
use labpics_id.Tables.{UserRow, SessionRow, AccountRow, VerificationTokenRow}

abbrev pub by_id : UserRow → String
by_id u = u.id

abbrev pub by_email : UserRow → String
by_email u = u.email

-- The row of createSubject; the caller reads it with subjectView. The id and the email are unique.
unfoldable pub create_subject : (id : String) → RegisterSubjectCommand → Exec (List UserRow) UserRow
create_subject id command rows =
    let row : UserRow = record {
      id = id;
      name = command.name;
      email = command.email.value;
      email_verified = false;
      deactivated_at = none;
    } in
    if is_null (row_of by_id id rows) && is_null (row_of by_email command.email.value rows)
    then (ok row, insert row rows)
    else (thrown unique_violation, rows)

unfoldable pub set_email_verified : String → List UserRow → List UserRow
set_email_verified subject_id rows =
    update (λ u. u.id == subject_id) (λ u. record u { email_verified = true }) rows

unfoldable pub deactivate_subject : String → ℕ → List UserRow → List UserRow
deactivate_subject subject_id now rows =
    update (λ u. u.id == subject_id) (λ u. record u { deactivated_at = some now }) rows

-- `${purpose}:`
abbrev pub purpose_prefix : TokenPurpose → String
purpose_prefix purpose = String.◌++◌ (token_purpose_text purpose) ":"

unfoldable pub store_token :
    (id : String)
    → (subject_id : String) → TokenPurpose
    → (digest : String) (expires_at : ℕ) → List VerificationTokenRow
    → List VerificationTokenRow
store_token id subject_id purpose digest expires_at rows =
    insert
      (record {
        id = id;
        identifier = String.◌++◌ (purpose_prefix purpose) subject_id;
        value = digest;
        expires_at = expires_at;
      })
      rows

-- startsWith and slice: what follows the prefix, if the text starts with it.
unfoldable pub slice_after : String → String → Option String
slice_after String.[] s = some s
slice_after (String.◌∷◌ p ps) String.[] = none
slice_after (String.◌∷◌ p ps) (String.◌∷◌ c s) =
    let rest = slice_after ps s in
    if leb (code p) (code c) && leb (code c) (code p) then rest else none

abbrev pub identified : Option String → Result (Option String)
identified none = ok none
identified (some id) = elim (user_id id) [ ok u ↦ ok (some u) | thrown f ↦ thrown f ]

abbrev pub token_owner : TokenPurpose → Option VerificationTokenRow → Result (Option String)
token_owner purpose none = ok none
token_owner purpose (some row) = identified (slice_after (purpose_prefix purpose) row.identifier)

-- The WHERE clause of consumeToken.
unfoldable pub redeemable : String → ℕ → VerificationTokenRow → Bool
redeemable digest now row = row.value == digest && ltb now row.expires_at

unfoldable pub consume_token :
    TokenPurpose → (digest : String) (now : ℕ) → Exec (List VerificationTokenRow) (Option String)
consume_token purpose digest now rows = (
  token_owner purpose (first (select (redeemable digest now) rows)),
  delete (redeemable digest now) rows,
)

abbrev pub session_ttl_ms : ℕ
session_ttl_ms = 60 * 60 * 1000

abbrev pub session_id : SessionRow → String
session_id s = s.id

abbrev pub session_token : SessionRow → String
session_token s = s.token

unfoldable pub create_session :
    (id token : String)
    → (subject_id : String) (authenticated_at : ℕ) → Exec (List SessionRow) SessionView
create_session id token subject_id authenticated_at rows =
    let row : SessionRow = record {
      id = id;
      expires_at = authenticated_at + session_ttl_ms;
      token = token;
      created_at = authenticated_at;
      updated_at = authenticated_at;
      revoked_at = none;
      last_active_at = some authenticated_at;
      absolute_expires_at = some (authenticated_at + session_ttl_ms);
      user_id = subject_id;
    } in
    if is_null (row_of session_id id rows) && is_null (row_of session_token token rows)
    then (
      ok (record {
        id = id;
        subject_id = subject_id;
        authenticated_at = authenticated_at;
        expires_at = authenticated_at + session_ttl_ms;
        authentication_methods = password ∷ [];
        state = SessionState.active;
      }),
      insert row rows,
    )
    else (thrown unique_violation, rows)

abbrev session_state : Option ℕ → SessionState
session_state none = SessionState.active
session_state (some t) = SessionState.revoked

unfoldable pub list_subject_sessions : String → List SessionRow → List SessionView
list_subject_sessions subject_id rows =
    map
      (λ row. record {
        id = row.id;
        subject_id = subject_id;
        authenticated_at = row.created_at;
        expires_at = row.expires_at;
        authentication_methods = password ∷ [];
        state = session_state row.revoked_at;
      })
      (select (λ s. s.user_id == subject_id) rows)

unfoldable pub revoke_session : String → ℕ → List SessionRow → List SessionRow
revoke_session id now rows = update (λ s. s.id == id) (λ s. record s { revoked_at = some now }) rows

unfoldable pub revoke_subject_sessions : String → ℕ → List SessionRow → List SessionRow
revoke_subject_sessions subject_id now rows =
    update (λ s. s.user_id == subject_id) (λ s. record s { revoked_at = some now }) rows

module _ (hash : String → String) (verify : String → String → Bool) where
  abbrev pub credential_of : String → AccountRow → Bool
  credential_of subject_id a = a.provider_id == "credential" && a.account_id == subject_id

  -- The upsert on (provider_id, account_id); `now` is the column's default and the new value.
  unfoldable pub store_password :
      (id : String) (now : ℕ) (subject_id text : String) → List AccountRow → List AccountRow
  store_password id now subject_id text rows =
      if is_null (find (credential_of subject_id) rows)
      then insert
          (record {
            id = id;
            account_id = subject_id;
            provider_id = "credential";
            user_id = subject_id;
            password = some (hash text);
            updated_at = now;
          })
          rows
      else update (credential_of subject_id)
          (λ a. record a { password = some (hash text); updated_at = now }) rows

  abbrev pub verified : String → Option AccountRow → Bool
  verified text none = false
  verified text (some a) = elim a.password [ none ↦ false | some h ↦ verify text h ]

  unfoldable pub verify_password : (subject_id text : String) → List AccountRow → Bool
  verify_password subject_id text rows =
      verified text (find (λ a. a.user_id == subject_id && a.provider_id == "credential") rows)
