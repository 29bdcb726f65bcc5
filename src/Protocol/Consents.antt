-- ===== src/Protocol/Consents.antt =====
-- getConsent, upsertConsent and revokeConsent of packages/db/src/protocol-adapter.ts.
pub mod Active
pub mod History
pub mod Refines
mod Tests
use labpics_id.Prelude.{
  Bool, true, false, ◌&&◌, ℕ, Option, none, some, List, String, ◌==◌, is_null, if◌then◌else◌,
}
use labpics_id.Sql.{update, insert, find}
use labpics_id.Sql.Keyed.{row_of}
use labpics_id.Domain.Result.{
  Result, ok, thrown, unique_violation, unavailable, Exec, pure, ◌>>=◌, ◌>>◌,
}
use labpics_id.Domain.Protocol.{ProtocolConsentRecord}
use labpics_id.Protocol.Rows.{ConsentRow}

abbrev pub consent_id : ConsentRow → String
consent_id r = r.id

-- The WHERE clause of the three methods, and of the partial unique index.
unfoldable pub in_force : String → String → ConsentRow → Bool
in_force subject_id client_id r =
    r.subject_id == subject_id && r.client_id == client_id && is_null r.revoked_at

abbrev pub consent_record : Option ConsentRow → Option ProtocolConsentRecord
consent_record none = none
consent_record (some row) = some (record {
  subject_id = row.subject_id;
  client_id = row.client_id;
  scopes = row.scopes;
  granted_at = row.granted_at;
  revoked_at = row.revoked_at;
})

unfoldable pub get_consent : String → String → List ConsentRow → Option ProtocolConsentRecord
get_consent subject_id client_id rows = consent_record (find (in_force subject_id client_id) rows)

unfoldable pub revoke_consent : String → String → ℕ → List ConsentRow → List ConsentRow
revoke_consent subject_id client_id now rows =
    update (in_force subject_id client_id) (λ r. record r { revoked_at = some now }) rows

-- The INSERT: the primary key, the index of the rows in force and the reference to the clients
-- are checked. `exists` says that the client is registered.
unfoldable pub insert_consent : (exists : Bool) → ConsentRow → Exec (List ConsentRow) (Unit {0})
insert_consent exists row rows =
    if is_null (row_of consent_id row.id rows)
      && is_null (find (in_force row.subject_id row.client_id) rows)
    then if exists then (ok tt, insert row rows) else (thrown unavailable, rows)
    else (thrown unique_violation, rows)

abbrev pub granted_row : String → String → String → List String → ℕ → ConsentRow
granted_row id subject_id client_id scopes now = record {
  id = id;
  subject_id = subject_id;
  client_id = client_id;
  scopes = scopes;
  granted_at = now;
  revoked_at = none;
}

-- The local function revokeAndInsert.
unfoldable pub revoke_and_insert :
    (exists : Bool) (id subject_id client_id : String)
    → List String
    → ℕ
    → Exec (List ConsentRow) (Unit {0})
revoke_and_insert exists id subject_id client_id scopes now rows =
    insert_consent exists (granted_row id subject_id client_id scopes now)
      (revoke_consent subject_id client_id now rows)

-- this.db.transaction: undone if the work throws.
abbrev pub atomically :
    {A : Type 0} → List ConsentRow → Result A × List ConsentRow → Result A × List ConsentRow
atomically before (ok a, after) = (ok a, after)
atomically before (thrown f, after) = (thrown f, before)

abbrev consent_answer :
    String → String → List String → ℕ → Result (Unit {0}) → Result ProtocolConsentRecord
consent_answer subject_id client_id scopes now (thrown f) = thrown f
consent_answer subject_id client_id scopes now (ok _) = ok (record {
  subject_id = subject_id;
  client_id = client_id;
  scopes = scopes;
  granted_at = now;
  revoked_at = none;
})

-- `in_tx` says that the caller hands a transaction over, which undoes the work with its own.
unfoldable pub upsert_consent :
    (in_tx exists : Bool) (id subject_id client_id : String)
    → List String
    → ℕ
    → Exec (List ConsentRow) ProtocolConsentRecord
upsert_consent in_tx exists id subject_id client_id scopes now rows =
    let work = revoke_and_insert exists id subject_id client_id scopes now rows in
    let (r, after) = (if in_tx then work else atomically rows work) in
    (consent_answer subject_id client_id scopes now r, after)
