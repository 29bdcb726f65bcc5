-- ===== src/Login/Blind.antt =====
-- requestOtp of packages/domain/src/identity/otp-use-cases.ts says nothing of the accounts.
use labpics_id.Prelude.{
  ℕ, ◌+◌, ◌≡◌, refl, sym, ◌∙◌, Bool, true, false, Option, List, String, is_null, if◌then◌else◌,
  Bool-cases, inl, inr,
}
use labpics_id.Sql.Keyed.{row_of}
use labpics_id.Domain.Result.{Result, ok, thrown, Result-cases}
use labpics_id.Domain.Ids.{otp_challenge_id}
use labpics_id.Domain.Contract.{SubjectView}
use labpics_id.Domain.OtpContract.{RequestOtpCommand, RequestOtpResult}
use labpics_id.Domain.Ports.{RateLimitDecision, allowed, limited}
use labpics_id.Tables.{UserRow}
use labpics_id.Otp.Store
use labpics_id.Otp.Store.{OtpRow, digest_of}
use labpics_id.RateLimit.{LimitDb}
use labpics_id.Login.{
  LoginDb, LimitRun, Work, transaction, consume_limit, with_limits, find_subject_by_email,
  resolve_active_account, create_challenge, record_otp_event, record_audit, enqueue,
}
use labpics_id.Login.Request.{issue_challenge, answer_request, request_decided, request_otp}

module _ (sha256 lower_case : String → String) (iso : ℕ → String) where
  -- The public answer to a request that is not limited, from the drawn id, the challenges and the
  -- clock alone.
  abbrev new_answer : String → List OtpRow → ℕ → Result String → RequestOtpResult
  new_answer uuid challenges now (thrown f) = RequestOtpResult.storage_unavailable
  new_answer uuid challenges now (ok id) =
      if is_null (row_of digest_of (sha256 id) challenges)
      then RequestOtpResult.accepted
          (record { challenge_id = id; retry_at = now + 60000; expires_at = now + 600000 })
      else RequestOtpResult.storage_unavailable

  abbrev public_answer : Bool → String → List OtpRow → ℕ → RequestOtpResult
  public_answer true uuid challenges now = RequestOtpResult.storage_unavailable
  public_answer false uuid challenges now = new_answer uuid challenges now (otp_challenge_id uuid)

  issued-answer :
      (fails : Bool) (uuid code hash : String) (command : RequestOtpCommand) (now : ℕ)
      (db : LoginDb) (found : Option SubjectView)
      → find_subject_by_email sha256 lower_case iso command.email db.users ≡ ok found
      → (answer_request sha256 lower_case iso command (
          transaction fails
            (issue_challenge sha256 lower_case iso uuid code command hash now)
            db)).0
        ≡ public_answer fails uuid db.challenges now
  unfolding transaction issue_challenge resolve_active_account create_challenge record_otp_event
      record_audit enqueue Store.create
  issued-answer true uuid code hash command now db found readable = refl
  issued-answer false uuid code hash command now db found readable =
      elim (Result-cases (otp_challenge_id uuid)) [
        | inr bad ↦ rw (readable, bad.1) refl
        | inl good ↦ elim (Bool-cases (is_null (row_of digest_of (sha256 good.0) db.challenges))) [
          | inl new ↦ rw (readable, good.1, new) refl
          | inr taken ↦ rw (readable, good.1, taken) refl
        ]
      ]

  decided-answer :
      (uuid code : String) (command : RequestOtpCommand) (work : Work) (users users' : List UserRow)
      (found found' : Option SubjectView) (db : LoginDb) (outcome : RateLimitDecision × LimitDb)
      → find_subject_by_email sha256 lower_case iso command.email users ≡ ok found
      → find_subject_by_email sha256 lower_case iso command.email users' ≡ ok found'
      → (request_decided sha256 lower_case iso uuid code command work
          (with_limits (record db { users = users }) outcome)).0
        ≡ (request_decided sha256 lower_case iso uuid code command work
            (with_limits (record db { users = users' }) outcome)).0
  decided-answer uuid code command work users users' found found' db (limited at, l) r r' = refl
  decided-answer uuid code command work users users' found found' db (allowed, l) r r' =
      issued-answer work.fails uuid code work.hash command work.now
        (record db { users = users; limits = l.limits; audits = l.audit; outbox = l.outbox }) found
        r
      ∙ sym (
          issued-answer work.fails uuid code work.hash command work.now
            (record db { users = users'; limits = l.limits; audits = l.audit; outbox = l.outbox })
            found' r')

  -- The answer to a request of a code is the same whichever accounts there are, known, unknown or
  -- deactivated, as long as the account of the email can be read.
  pub request_otp_blind :
      (uuid code : String) (run : LimitRun) (work : Work) (command : RequestOtpCommand)
      (db : LoginDb) (users users' : List UserRow) (found found' : Option SubjectView)
      → find_subject_by_email sha256 lower_case iso command.email users ≡ ok found
      → find_subject_by_email sha256 lower_case iso command.email users' ≡ ok found'
      → (request_otp sha256 lower_case iso uuid code run work command
          (record db { users = users })).0
        ≡ (request_otp sha256 lower_case iso uuid code run work command
            (record db { users = users' })).0
  unfolding request_otp consume_limit
  request_otp_blind uuid code run work command db users users' found found' r r' =
      decided-answer uuid code command work users users' found found' db _ r r'
