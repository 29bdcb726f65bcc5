-- ===== src/Login/Request.antt =====
-- requestOtp of packages/domain/src/identity/otp-use-cases.ts.
use Prim.Native.String.{◌++◌ as append}
use labpics_id.Prelude.{ℕ, ◌+◌, Bool, Option, none, some, String, is_null, not, if◌then◌else◌}
use labpics_id.Domain.Result.{Result, ok, thrown, Exec, pure, lift, ◌>>=◌}
use labpics_id.Domain.Ids.{otp_challenge_id}
use labpics_id.Domain.OtpContract.{
  RequestOtpCommand, RequestOtpAccepted, RequestOtpResult, email_otp_login,
}
use labpics_id.Domain.Ports.{
  OtpEmailMessage, RateLimitDecision, allowed, limited, email_otp_request,
}
use labpics_id.Login.{
  LoginDb, LimitRun, Work, transaction, record_otp_event, create_challenge, consume_limit,
  resolve_active_account, otp_challenge_ttl_ms, otp_max_attempts, otp_retry_interval_ms,
}

module _ (sha256 lower_case : String → String) (iso : ℕ → String) where
  pub record Issued : Type 0 where
    pub value : RequestOtpAccepted
    pub code : String
    pub deliver : Bool

  -- The transaction of requestOtp; `uuid` and `code` are the drawn ones.
  unfoldable pub issue_challenge :
      (uuid code : String) → RequestOtpCommand → (hash : String) (now : ℕ) → Exec LoginDb Issued
  issue_challenge uuid code command hash now = do
    account ← resolve_active_account sha256 lower_case iso command.email
    challenge_id ← lift (otp_challenge_id uuid)
    created ← create_challenge sha256 lower_case iso (record {
      id = challenge_id;
      email = command.email;
      purpose = email_otp_login;
      account_id = account;
      code_digest = sha256 code;
      created_at = now;
      expires_at = now + otp_challenge_ttl_ms;
      max_attempts = otp_max_attempts;
    })
    recorded ←
        record_otp_event sha256 lower_case iso "identity.otp.requested"
          (elim account [ none ↦ "anonymous" | some a ↦ a ]) challenge_id command.source now hash
    pure (record {
      value = record {
        challenge_id = challenge_id;
        retry_at = now + otp_retry_interval_ms;
        expires_at = now + otp_challenge_ttl_ms;
      };
      code = code;
      deliver = not (is_null account);
    })

  -- The answer, and the message that is handed to the delivery after the commit, if any.
  abbrev pub answer_request :
      RequestOtpCommand
      → Result Issued × LoginDb
      → RequestOtpResult × Option OtpEmailMessage × LoginDb
  answer_request command (thrown f, db) = (RequestOtpResult.storage_unavailable, none, db)
  answer_request command (ok issued, db) = (
    RequestOtpResult.accepted issued.value,
    (if issued.deliver
        then some (record {
          idempotency_key = append "identity.otp.requested:" (sha256 issued.value.challenge_id);
          to = command.email;
          purpose = email_otp_login;
          code = issued.code;
          expires_at = issued.value.expires_at;
        })
        else none),
    db,
  )

  abbrev pub request_decided :
      (uuid code : String)
      → RequestOtpCommand
      → Work
      → RateLimitDecision × LoginDb
      → RequestOtpResult × Option OtpEmailMessage × LoginDb
  request_decided uuid code command work (limited retry_at, db) =
      (RequestOtpResult.rate_limited retry_at, none, db)
  request_decided uuid code command work (allowed, db) =
      answer_request command
        (transaction work.fails (issue_challenge uuid code command work.hash work.now) db)

  unfoldable pub request_otp :
      (uuid code : String)
      → LimitRun
      → Work
      → RequestOtpCommand
      → LoginDb
      → RequestOtpResult × Option OtpEmailMessage × LoginDb
  request_otp uuid code run work command db = request_decided uuid code command work (
      consume_limit sha256 lower_case iso run
        (record {
          action = email_otp_request;
          key = command.email.value;
          source = some command.source.ip;
        })
        db)
