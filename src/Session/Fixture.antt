-- ===== src/Session/Fixture.antt =====
-- createFixture, activeFamilyCount and securityEventCount of
-- packages/db/src/session-security-adapter.ts, which only tests call.
use Prim.Native.String.{◌++◌ as append}
use labpics_id.Prelude.{
  length, ℕ, ◌+◌, true, ◌&&◌, Option, none, some, List, [], ◌∷◌, String, ◌==◌, is_null,
  if◌then◌else◌,
}
use labpics_id.Sql.{find, select, insert}
use labpics_id.Sql.Keyed.{row_of}
use labpics_id.Domain.Result.{Result, thrown, unique_violation, unavailable}
use labpics_id.Tables.{UserRow, SessionRow, RefreshRow}
use labpics_id.Session.{
  SessionDb, Drawn, session_key, user_key, add_credential, started, idle_ttl_ms, absolute_ttl_ms,
}

-- The sessions of the family's credentials that are not revoked, one for each credential.
unfoldable pub active_family_count : String → SessionDb → ℕ
active_family_count family_id db =
    open_sessions db (select (λ c. c.family_id == family_id) db.credentials)
  where
    counted : Option SessionRow → ℕ
    counted none = 0
    counted (some s) = if is_null s.revoked_at then 1 else 0

    open_sessions : SessionDb → List RefreshRow → ℕ
    open_sessions db [] = 0
    open_sessions db (c ∷ cs) =
        counted (row_of session_key c.session_id db.sessions) + open_sessions db cs

unfoldable pub security_event_count : String → SessionDb → ℕ
security_event_count family_id db =
    length (select (λ o. o.type == append "identity.refresh_replay." family_id) db.outbox)

-- createFixture; the user is inserted on its own, and not if its id or its email is taken.
abbrev fixture_user : String → List UserRow → List UserRow
fixture_user subject_id users =
    if is_null (row_of user_key subject_id users)
      && is_null (find (λ u. u.email == append subject_id "@example.com") users)
    then insert
        (record {
          id = subject_id;
          name = "Session subject";
          email = append subject_id "@example.com";
          email_verified = true;
          deactivated_at = none;
        })
        users
    else users

module _ (sha256 : String → String) where
  -- `session_id`, `family_id`, `token` and those of `drawn` are drawn; a session's foreign key and
  -- its unique columns may refuse it, and then the user alone stays.
  unfoldable pub create_fixture :
      Drawn
      → (session_id family_id token subject_id : String) → ℕ
      → SessionDb
      → Result (Unit {0}) × SessionDb
  create_fixture drawn session_id family_id token subject_id now db =
      let db' : SessionDb = record db { users = fixture_user subject_id db.users } in
      let row : SessionRow = record {
        id = session_id;
        expires_at = now + idle_ttl_ms;
        token = token;
        created_at = now;
        updated_at = now;
        revoked_at = none;
        last_active_at = some now;
        absolute_expires_at = some (now + absolute_ttl_ms);
        user_id = subject_id;
      } in
      if is_null (row_of user_key subject_id db'.users)
      then (thrown unavailable, db')
      else if is_null (row_of session_key session_id db.sessions)
          && is_null (find (λ s. s.token == token) db.sessions)
      then started db' (insert row db.sessions) (
          add_credential
            (record {
              id = drawn.credential_id;
              session_id = session_id;
              family_id = family_id;
              digest = sha256 drawn.refresh_token;
              expires_at = now + absolute_ttl_ms;
              used_at = none;
              created_at = now;
            })
            db.credentials)
      else (thrown unique_violation, db')
