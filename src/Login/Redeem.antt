-- ===== src/Login/Redeem.antt =====
-- redeemOtp of packages/domain/src/identity/otp-use-cases.ts.
use labpics_id.Prelude.{ℕ, Option, none, some, String}
use labpics_id.Domain.Result.{Result, ok, thrown, Exec, pure, lift, ◌>>=◌}
use labpics_id.Domain.Contract.{SessionView}
use labpics_id.Domain.OtpContract.{
  RedeemOtpCommand, RedeemOtpFailure, RedeemOtpResult, session_established, rejected,
  EmployeeSubjectEnvelopeV1, employee, email_otp_login, OtpChallengeRecord,
  ConsumeOtpChallengeOutcome,
}
use labpics_id.Domain.Ports.{RateLimitDecision, allowed, limited, email_otp_redeem}
use labpics_id.Login.{
  LoginDb, LimitRun, Work, transaction, record_otp_event, consume_challenge, consume_limit,
  bind_account,
}

module _ (sha256 lower_case : String → String) (iso : ℕ → String) where
  module _ (create_session : EmployeeSubjectEnvelopeV1 → ℕ → Result SessionView) where
    -- The end of a won redemption, by the account that it binds.
    abbrev pub establish :
        RedeemOtpCommand
        → OtpChallengeRecord
        → (hash : String) (now : ℕ) → Option String
        → Exec LoginDb RedeemOtpResult
    establish command challenge hash now none = pure (rejected (RedeemOtpFailure.invalid_code 0))
    establish command challenge hash now (some account_id) = do
      let subject : EmployeeSubjectEnvelopeV1 = record {
        schema_version = 1;
        kind = employee;
        account_id = account_id;
        email = challenge.email;
      }
      recorded ←
          record_otp_event sha256 lower_case iso "identity.otp.redeemed" account_id
            command.challenge_id command.source now hash
      session ← lift (create_session subject now)
      pure (session_established (record { session = session; subject = subject }))

    abbrev pub conclude :
        RedeemOtpCommand
        → (hash : String) (now : ℕ) → ConsumeOtpChallengeOutcome
        → Exec LoginDb RedeemOtpResult
    conclude command hash now (ConsumeOtpChallengeOutcome.consumed challenge) = do
      account ← bind_account sha256 lower_case iso challenge.account_id challenge.email
      establish command challenge hash now account
    conclude command hash now (ConsumeOtpChallengeOutcome.invalid_code remaining) =
        pure (rejected (RedeemOtpFailure.invalid_code remaining))
    conclude command hash now ConsumeOtpChallengeOutcome.expired =
        pure (rejected RedeemOtpFailure.expired)
    conclude command hash now ConsumeOtpChallengeOutcome.already_consumed =
        pure (rejected RedeemOtpFailure.replayed)
    conclude command hash now ConsumeOtpChallengeOutcome.not_found =
        pure (rejected (RedeemOtpFailure.invalid_code 0))

    -- The transaction of redeemOtp.
    unfoldable pub redeem_challenge :
        RedeemOtpCommand → (hash : String) (now : ℕ) → Exec LoginDb RedeemOtpResult
    redeem_challenge command hash now = do
      outcome ← consume_challenge sha256 lower_case iso (record {
        id = command.challenge_id;
        purpose = email_otp_login;
        code_digest = sha256 command.code;
        now = now;
      })
      conclude command hash now outcome

    abbrev pub answer_redeem : Result RedeemOtpResult × LoginDb → RedeemOtpResult × LoginDb
    answer_redeem (ok r, db) = (r, db)
    answer_redeem (thrown f, db) = (rejected RedeemOtpFailure.storage_unavailable, db)

    abbrev pub redeem_decided :
        RedeemOtpCommand → Work → RateLimitDecision × LoginDb → RedeemOtpResult × LoginDb
    redeem_decided command work (limited retry_at, db) =
        (rejected (RedeemOtpFailure.rate_limited retry_at), db)
    redeem_decided command work (allowed, db) =
        answer_redeem (transaction work.fails (redeem_challenge command work.hash work.now) db)

    unfoldable pub redeem_otp :
        LimitRun → Work → RedeemOtpCommand → LoginDb → RedeemOtpResult × LoginDb
    redeem_otp run work command db = redeem_decided command work (
        consume_limit sha256 lower_case iso run
          (record {
            action = email_otp_redeem;
            key = sha256 command.challenge_id;
            source = some command.source.ip;
          })
          db)
