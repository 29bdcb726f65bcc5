-- ===== src/Login.antt =====
-- packages/domain/src/identity/otp-use-cases.ts, composed as createOtpUseCases requires: with the
-- challenge store and the rate limit of packages/db, and findSubjectByEmail, record and enqueue of
-- packages/db/src/identity-adapter.ts. The owner of the sessions is the parameter
-- `create_session`. A transaction that throws, in its work or at its commit, is undone.
pub mod Request
pub mod Redeem
pub mod Blind
pub mod Active
pub mod Grants
pub mod Undone
mod Tests
use Prim.Native.String.{◌++◌ as append}
use labpics_id.Prelude.{
  ℕ, ◌+◌, ◌*◌, ◌&&◌, Bool, true, false, Option, none, some, List, [], ◌∷◌, String, ◌==◌, is_null,
  not, if◌then◌else◌,
}
use labpics_id.Sql.{insert, find}
use labpics_id.Domain.Result.{
  Result, ok, thrown, Fault, unavailable, Exec, pure, throw, lift, ◌>>=◌, ◌>>◌,
}
use labpics_id.Domain.Ids.{user_id, otp_challenge_id}
use labpics_id.Domain.Email
use labpics_id.Domain.Email.{Email}
use labpics_id.Domain.Contract.{SubjectView, SubjectState, SessionView}
use labpics_id.Domain.OtpContract.{
  SourceIdentity, RequestOtpCommand, RequestOtpAccepted, RequestOtpResult, RedeemOtpCommand,
  RedeemOtpFailure, RedeemOtpResult, session_established, rejected, EmployeeSubjectEnvelopeV1,
  employee, OtpSessionEstablished, email_otp_login, OtpChallengeRecord, CreateOtpChallengeInput,
  ConsumeOtpChallengeInput, ConsumeOtpChallengeOutcome,
}
use labpics_id.Domain.Ports.{
  AuditEntry, OutboxEnvelope, OtpEmailMessage, RateLimitAttempt, RateLimitDecision, allowed,
  limited, email_otp_request, email_otp_redeem,
}
use labpics_id.Tables.{UserRow, RateLimitRow, AuditRow, OutboxRow, envelope}
use labpics_id.Otp.Store
use labpics_id.Otp.Store.{OtpRow}
use labpics_id.RateLimit
use labpics_id.RateLimit.{LimitDb}

abbrev pub otp_challenge_ttl_ms : ℕ
otp_challenge_ttl_ms = 10 * 60 * 1000

abbrev pub otp_max_attempts : ℕ
otp_max_attempts = 5

abbrev pub otp_retry_interval_ms : ℕ
otp_retry_interval_ms = 60 * 1000

pub record LoginDb : Type 0 where
  pub challenges : List OtpRow
  pub users : List UserRow
  pub limits : List RateLimitRow
  pub audits : List AuditRow
  pub outbox : List OutboxRow

-- One call of the rate limit: whether it breaks, what it draws, and its reading of the clock.
pub record LimitRun : Type 0 where
  pub broken : Bool
  pub fresh₁ : String
  pub fresh₂ : String
  pub hash : String
  pub now : ℕ

-- One transaction: whether it fails at its commit, the hash drawn for its audit event, and its
-- reading of the clock.
pub record Work : Type 0 where
  pub fails : Bool
  pub hash : String
  pub now : ℕ

-- unitOfWork.run: undone when the work throws or the commit fails, but for what the sessions' owner did.
abbrev pub settle_work : {A : Type 0} → Bool → LoginDb → Result A × LoginDb → Result A × LoginDb
settle_work true db r = (thrown unavailable, db)
settle_work false db (ok a, db') = (ok a, db')
settle_work false db (thrown f, db') = (thrown f, db)

unfoldable pub transaction : {A : Type 0} → Bool → Exec LoginDb A → Exec LoginDb A
transaction fails work db = settle_work fails db (work db)

abbrev on_challenges : {A : Type 0} → LoginDb → Result A × List OtpRow → Result A × LoginDb
on_challenges db (r, rows) = (r, record db { challenges = rows })

-- IdentityRepository's row of an account, as a view.
abbrev pub state_of : Option ℕ → SubjectState
state_of none = SubjectState.active
state_of (some t) = SubjectState.deactivated

abbrev pub is_active : SubjectState → Bool
is_active SubjectState.active = true
is_active SubjectState.deactivated = false

-- PostgresIdentityAdapter.record and enqueue
unfoldable pub record_audit : AuditEntry → String → Exec LoginDb (Unit {0})
record_audit entry hash db =
    (ok tt, record db { audits = insert (record { entry = entry; hash = hash }) db.audits })

unfoldable pub enqueue : OutboxEnvelope → Exec LoginDb (Unit {0})
enqueue e db = (
  ok tt,
  record db { outbox = insert (record { type = e.type; payload = envelope e }) db.outbox },
)

-- What a limited attempt leaves of the tables.
abbrev with_limits : LoginDb → RateLimitDecision × LimitDb → RateLimitDecision × LoginDb
with_limits db (d, l) = (d, record db { limits = l.limits; audits = l.audit; outbox = l.outbox })

module _ (sha256 lower_case : String → String) (iso : ℕ → String) where
  unfoldable pub consume_limit : LimitRun → RateLimitAttempt → LoginDb → RateLimitDecision × LoginDb
  consume_limit run attempt db = with_limits db (
      RateLimit.consume sha256 iso run.broken run.fresh₁ run.fresh₂ run.hash attempt run.now
        (record { limits = db.limits; audit = db.audits; outbox = db.outbox }))

  -- subjectView
  abbrev pub view_of : UserRow → Result String → Result Email → Result SubjectView
  view_of row (thrown f) email = thrown f
  view_of row (ok id) (thrown f) = thrown f
  view_of row (ok id) (ok email) = ok (record {
    id = id;
    email = email;
    email_verified = row.email_verified;
    state = state_of row.deactivated_at;
  })

  unfoldable pub subject_view : UserRow → Result SubjectView
  subject_view row = view_of row (user_id row.id) (Email.from lower_case row.email)

  abbrev pub viewed : Result SubjectView → Result (Option SubjectView)
  viewed (ok v) = ok (some v)
  viewed (thrown f) = thrown f

  abbrev pub view_option : Option UserRow → Result (Option SubjectView)
  view_option none = ok none
  view_option (some row) = viewed (subject_view row)

  unfoldable pub find_subject_by_email : Email → List UserRow → Result (Option SubjectView)
  find_subject_by_email email users = view_option (find (λ u. u.email == email.value) users)

  abbrev pub active_id : Option SubjectView → Option String
  active_id none = none
  active_id (some v) = if is_active v.state then some v.id else none

  abbrev pub read_subject :
      (Option SubjectView → Option String) → Result (Option SubjectView) → Result (Option String)
  read_subject f (ok found) = ok (f found)
  read_subject f (thrown e) = thrown e

  unfoldable pub resolve_active_account : Email → Exec LoginDb (Option String)
  resolve_active_account email db =
      (read_subject active_id (find_subject_by_email email db.users), db)

  -- The account of a challenge, if it is still the active one of the email; `persisted` is
  -- `some none` for a challenge that was bound to no account.
  abbrev pub bound_id : Option (Option String) → Option SubjectView → Option String
  bound_id (some none) found = none
  bound_id (some (some id)) none = none
  bound_id (some (some id)) (some v) = if is_active v.state && v.id == id then some v.id else none
  bound_id none found = active_id found

  unfoldable pub bind_account : Option (Option String) → Email → Exec LoginDb (Option String)
  bind_account (some none) email db = (ok none, db)
  bind_account (some (some id)) email db =
      (read_subject (bound_id (some (some id))) (find_subject_by_email email db.users), db)
  bind_account none email db =
      (read_subject (bound_id none) (find_subject_by_email email db.users), db)

  unfoldable pub record_otp_event :
      (action actor_id challenge_id : String)
      → SourceIdentity
      → ℕ
      → String
      → Exec LoginDb (Unit {0})
  record_otp_event action actor_id challenge_id source occurred_at hash = do
    record_audit
        (record {
          actor_id = actor_id;
          action = action;
          target_type = "otp_challenge";
          target_id = sha256 challenge_id;
          occurred_at = occurred_at;
          ip = some source.ip;
          user_agent = source.user_agent;
        })
        hash
    enqueue (record {
      idempotency_key = append action (append ":" (sha256 challenge_id));
      type = action;
      payload = ("challengeIdDigest", sha256 challenge_id) ∷ [];
      occurred_at = occurred_at;
    })

  unfoldable pub create_challenge : CreateOtpChallengeInput → Exec LoginDb OtpChallengeRecord
  create_challenge input db = on_challenges db (Store.create sha256 lower_case input db.challenges)

  unfoldable pub consume_challenge :
      ConsumeOtpChallengeInput → Exec LoginDb ConsumeOtpChallengeOutcome
  consume_challenge input db =
      on_challenges db (Store.consume sha256 lower_case input db.challenges)

  unfoldable pub find_subject_by_id : String → List UserRow → Result (Option SubjectView)
  find_subject_by_id id users = view_option (find (λ u. u.id == id) users)

-- PostgresIdentityAdapter.subjectDeactivated; `now` is its own reading of the clock.
unfoldable pub subject_deactivated : String → ℕ → Exec LoginDb (Unit {0})
subject_deactivated subject_id now = enqueue (record {
  idempotency_key = append "subject-deactivated:" subject_id;
  type = "identity.subject_deactivated";
  payload = ("subjectId", subject_id) ∷ [];
  occurred_at = now;
})
