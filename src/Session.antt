-- ===== src/Session.antt =====
-- packages/db/src/session-security-adapter.ts. The values that crypto.randomUUID draws are
-- arguments, `sha256` is the digest of Bun.CryptoHasher in hexadecimal and `iso` is
-- Date.toISOString. The foreign keys give a credential one session and a session one user, so
-- that an inner join finds them one after the other.
pub mod Fixture
pub mod History
pub mod Final
pub mod Replay
pub mod Once
pub mod Family
mod Tests
use Prim.Native.String.{◌++◌ as append}
use labpics_id.Prelude.{
  length, ℕ, ◌+◌, ◌*◌, Bool, true, false, not, ◌&&◌, ◌||◌, Option, none, some, List, [], ◌∷◌,
  String, ◌==◌, ltb, leb, is_null, some_gt, some_le, if◌then◌else◌,
}
use labpics_id.Sql.{find, select, update, returning, insert}
use labpics_id.Sql.Keyed.{row_of}
use labpics_id.Domain.Result.{Result, ok, thrown, Fault, unique_violation, unavailable}
use labpics_id.Domain.Ports.{AuditEntry, OutboxEnvelope}
use labpics_id.Tables.{
  UserRow, SessionRow, RefreshRow, AuditRow, OutboxRow, Payload, envelope, object,
}

abbrev pub idle_ttl_ms : ℕ
idle_ttl_ms = 15 * 60 * 1000

abbrev pub absolute_ttl_ms : ℕ
absolute_ttl_ms = 60 * 60 * 1000

pub data RotationResult : Type 0 where
  rotated : (refresh_token : String) → RotationResult
  replay : (family_id : String) → RotationResult
  revoked invalid : RotationResult

pub data Resolution : Type 0 where
  active : (session_id : String) → Resolution
  is_invalid is_revoked is_expired : Resolution

pub record SessionDb : Type 0 where
  pub users : List UserRow
  pub sessions : List SessionRow
  pub credentials : List RefreshRow
  pub audits : List AuditRow
  pub outbox : List OutboxRow

abbrev pub session_key : SessionRow → String
session_key s = s.id

abbrev pub credential_key : RefreshRow → String
credential_key c = c.id

abbrev pub digest_key : RefreshRow → String
digest_key c = c.digest

abbrev user_key : UserRow → String
user_key u = u.id

-- A row of the inner join of the three tables.
pub record Joined : Type 0 where
  pub credential : RefreshRow
  pub session : SessionRow
  pub user : UserRow

abbrev join_user : RefreshRow → SessionRow → Option UserRow → Option Joined
join_user c s none = none
join_user c s (some u) = some (record { credential = c; session = s; user = u })

abbrev join_session : SessionDb → RefreshRow → Option SessionRow → Option Joined
join_session db c none = none
join_session db c (some s) = join_user c s (row_of user_key s.user_id db.users)

abbrev join_credential : SessionDb → Option RefreshRow → Option Joined
join_credential db none = none
join_credential db (some c) = join_session db c (row_of session_key c.session_id db.sessions)

unfoldable pub joined : String → SessionDb → Option Joined
joined digest db = join_credential db (row_of digest_key digest db.credentials)

-- One UPDATE of a session for each credential of the family.
unfoldable pub revoke_each : ℕ → List RefreshRow → List SessionRow → List SessionRow
revoke_each now [] sessions = sessions
revoke_each now (c ∷ cs) sessions =
    revoke_each now cs
      (update (λ s. s.id == c.session_id) (λ s. record s { revoked_at = some now }) sessions)

abbrev pub replay_audit : String → ℕ → String → AuditRow
replay_audit family_id now hash = record {
  entry = record {
    actor_id = "session-security";
    action = "identity.refresh_replay";
    target_type = "refresh_family";
    target_id = family_id;
    occurred_at = now;
    ip = none;
    user_agent = none;
  };
  hash = hash;
}

-- revokeFamilyIn
unfoldable pub revoke_family : String → ℕ → String → SessionDb → SessionDb
revoke_family family_id now hash db = record db {
  sessions = revoke_each now (select (λ c. c.family_id == family_id) db.credentials) db.sessions;
  audits = insert (replay_audit family_id now hash) db.audits;
  outbox =
      insert
        (record {
          type = append "identity.refresh_replay." family_id;
          payload = object (("familyId", family_id) ∷ []);
        })
        db.outbox;
}

-- What rotate draws: the new credential's id, the new token, and the hash of an audit event.
pub record Drawn : Type 0 where
  pub credential_id : String
  pub refresh_token : String
  pub hash : String

-- The claim of a refresh credential.
unfoldable pub unspent : String → ℕ → RefreshRow → Bool
unspent id now c = c.id == id && is_null c.used_at && ltb now c.expires_at

abbrev pub use_at : ℕ → RefreshRow → RefreshRow
use_at now c = record c { used_at = some now }

-- INSERT of a credential: its id and its digest are unique.
unfoldable pub add_credential : RefreshRow → List RefreshRow → Option (List RefreshRow)
add_credential c rows =
    if is_null (row_of credential_key c.id rows) && is_null (row_of digest_key c.digest rows)
    then some (insert c rows)
    else none

abbrev pub started :
    SessionDb → List SessionRow → Option (List RefreshRow) → Result (Unit {0}) × SessionDb
started db sessions none = (thrown unique_violation, db)
started db sessions (some credentials) =
    (ok tt, record db { sessions = sessions; credentials = credentials })

abbrev pub resolve_joined : ℕ → Option Joined → Resolution
resolve_joined now none = is_invalid
resolve_joined now (some row) =
    if not (is_null row.user.deactivated_at)
    then is_revoked
    else if not (is_null row.session.revoked_at)
    then is_revoked
    else if leb row.session.expires_at now || some_le row.session.absolute_expires_at now
    then is_expired
    else active row.session.id

module _ (sha256 : String → String) where
  abbrev pub successor : Drawn → ℕ → RefreshRow → RefreshRow
  successor drawn now c = record {
    id = drawn.credential_id;
    session_id = c.session_id;
    family_id = c.family_id;
    digest = sha256 drawn.refresh_token;
    expires_at = c.expires_at;
    used_at = none;
    created_at = now;
  }

  abbrev pub issue :
      Drawn → SessionDb → Option (List RefreshRow) → Result RotationResult × SessionDb
  issue drawn db none = (thrown unique_violation, db)
  issue drawn db (some credentials) =
      (ok (rotated drawn.refresh_token), record db { credentials = credentials })

  -- After the claim: no row claimed is a replay.
  abbrev pub after_claim :
      Drawn → ℕ → RefreshRow → SessionDb → List RefreshRow → Result RotationResult × SessionDb
  after_claim drawn now c db [] = (
    ok (replay c.family_id),
    revoke_family c.family_id now drawn.hash
        (record db { credentials = update (unspent c.id now) (use_at now) db.credentials }),
  )
  after_claim drawn now c db (x ∷ xs) = issue drawn db (
      add_credential (successor drawn now c)
        (update (unspent c.id now) (use_at now) db.credentials))

  abbrev pub rotate_joined :
      Drawn → ℕ → SessionDb → Option Joined → Result RotationResult × SessionDb
  rotate_joined drawn now db none = (ok invalid, db)
  rotate_joined drawn now db (some row) =
      if not (is_null row.session.revoked_at) || not (is_null row.user.deactivated_at)
      then (ok revoked, db)
      else after_claim drawn now row.credential db
          (returning (unspent row.credential.id now) (use_at now) db.credentials)

  unfoldable pub rotate : Drawn → String → ℕ → SessionDb → Result RotationResult × SessionDb
  rotate drawn refresh_token now db = rotate_joined drawn now db (joined (sha256 refresh_token) db)

  unfoldable pub resolve : String → ℕ → SessionDb → Resolution
  resolve refresh_token now db = resolve_joined now (joined (sha256 refresh_token) db)

  -- The session is one of the provider's, which the first UPDATE bounds; the credential's foreign
  -- key refuses one that is missing.
  unfoldable pub initialize_provider_session :
      Drawn → (family_id session_id : String) → ℕ → SessionDb → Result (Unit {0}) × SessionDb
  initialize_provider_session drawn family_id session_id now db =
      let sessions =
        update (λ s. s.id == session_id)
          (λ s. record s {
            last_active_at = some now;
            expires_at = now + idle_ttl_ms;
            absolute_expires_at = some (now + absolute_ttl_ms);
          })
          db.sessions in
      let inserted =
        add_credential
          (record {
            id = drawn.credential_id;
            session_id = session_id;
            family_id = family_id;
            digest = sha256 drawn.refresh_token;
            expires_at = now + absolute_ttl_ms;
            used_at = none;
            created_at = now;
          })
          db.credentials in
      if is_null (row_of session_key session_id db.sessions)
      then (thrown unavailable, db)
      else started db sessions inserted

unfoldable pub touch : String → ℕ → SessionDb → SessionDb
touch session_id now db = record db {
  sessions =
      update (λ s. s.id == session_id && some_gt s.absolute_expires_at now)
        (λ s. record s { last_active_at = some now; expires_at = now + idle_ttl_ms }) db.sessions;
}

unfoldable pub revoke_one : String → ℕ → SessionDb → SessionDb
revoke_one session_id now db = record db {
  sessions = update (λ s. s.id == session_id) (λ s. record s { revoked_at = some now }) db.sessions;
}

abbrev pub revoke_of_user : String → ℕ → List SessionRow → List SessionRow
revoke_of_user subject_id now sessions =
    update (λ s. s.user_id == subject_id) (λ s. record s { revoked_at = some now }) sessions

module _ (iso : ℕ → String) where
  -- The method `record`.
  unfoldable pub record_event : (subject_id action hash : String) → ℕ → SessionDb → SessionDb
  record_event subject_id action hash now db = record db {
    audits =
        insert
          (record {
            entry = record {
              actor_id = subject_id;
              action = action;
              target_type = "subject";
              target_id = subject_id;
              occurred_at = now;
              ip = none;
              user_agent = none;
            };
            hash = hash;
          })
          db.audits;
    outbox =
        insert
          (record {
            type = action;
            payload = envelope (record {
              idempotency_key =
                  append action (append ":" (append subject_id (append ":" (iso now))));
              type = action;
              payload = ("subjectId", subject_id) ∷ [];
              occurred_at = now;
            });
          })
          db.outbox;
  }

  -- `reason` is "logout_all" or "password_change".
  unfoldable pub logout_all : (subject_id reason hash : String) → ℕ → SessionDb → SessionDb
  logout_all subject_id reason hash now db =
      record_event subject_id (append "identity.sessions_revoked." reason) hash now
        (record db { sessions = revoke_of_user subject_id now db.sessions })

  unfoldable pub deactivate : (subject_id hash : String) → ℕ → SessionDb → SessionDb
  deactivate subject_id hash now db =
      record_event subject_id "identity.subject_deactivated" hash now (record db {
        users =
            update (λ u. u.id == subject_id) (λ u. record u { deactivated_at = some now }) db.users;
        sessions = revoke_of_user subject_id now db.sessions;
      })

unfoldable pub list_sessions : String → ℕ → SessionDb → List SessionRow
list_sessions subject_id now db =
    select
      (λ s.
        s.user_id == subject_id
        && is_null s.revoked_at
        && ltb now s.expires_at
        && some_gt s.absolute_expires_at now)
      db.sessions
