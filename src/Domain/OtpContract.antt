-- ===== src/Domain/OtpContract.antt =====
-- packages/domain/src/identity/otp-contract.ts and packages/domain/src/ports/otp-challenge.ts: the
-- types of the email-OTP login and of its challenge store.
use labpics_id.Prelude.{ℕ, String, Option}
use labpics_id.Domain.Email.{Email}
use labpics_id.Domain.Contract.{SessionView}

pub record SourceIdentity : Type 0 where
  pub ip : String
  pub user_agent : Option String

pub record RequestOtpCommand : Type 0 where
  pub email : Email
  pub source : SourceIdentity
  pub continue_to : Option String

pub record RequestOtpAccepted : Type 0 where
  pub challenge_id : String
  pub retry_at : ℕ
  pub expires_at : ℕ

pub data RequestOtpResult : Type 0 where
  accepted : RequestOtpAccepted → RequestOtpResult
  rate_limited : (retry_at : ℕ) → RequestOtpResult
  storage_unavailable : RequestOtpResult

pub record RedeemOtpCommand : Type 0 where
  pub challenge_id : String
  pub code : String
  pub source : SourceIdentity

pub data RedeemOtpFailure : Type 0 where
  expired : RedeemOtpFailure
  invalid_code : (remaining_attempts : ℕ) → RedeemOtpFailure
  replayed : RedeemOtpFailure
  rate_limited : (retry_at : ℕ) → RedeemOtpFailure
  storage_unavailable : RedeemOtpFailure

pub data SubjectKind : Type 0 where
  employee : SubjectKind

pub record EmployeeSubjectEnvelopeV1 : Type 0 where
  pub schema_version : ℕ
  pub kind : SubjectKind
  pub account_id : String
  pub email : Email

pub record OtpSessionEstablished : Type 0 where
  pub session : SessionView
  pub subject : EmployeeSubjectEnvelopeV1

pub data RedeemOtpResult : Type 0 where
  session_established : OtpSessionEstablished → RedeemOtpResult
  rejected : RedeemOtpFailure → RedeemOtpResult

pub data OtpPurpose : Type 0 where
  email_otp_login : OtpPurpose

-- The text of the literal type.
abbrev pub purpose_text : OtpPurpose → String
purpose_text email_otp_login = "email_otp_login"

-- `accountId?: UserId | null`: the outer `none` is an absent binding, `some none` the binding to
-- no account.
pub record OtpChallengeRecord : Type 0 where
  pub id : String
  pub email : Email
  pub purpose : OtpPurpose
  pub account_id : Option (Option String)
  pub code_digest : String
  pub created_at : ℕ
  pub expires_at : ℕ
  pub remaining_attempts : ℕ

pub record CreateOtpChallengeInput : Type 0 where
  pub id : String
  pub email : Email
  pub purpose : OtpPurpose
  pub account_id : Option String
  pub code_digest : String
  pub created_at : ℕ
  pub expires_at : ℕ
  pub max_attempts : ℕ

pub record ConsumeOtpChallengeInput : Type 0 where
  pub id : String
  pub purpose : OtpPurpose
  pub code_digest : String
  pub now : ℕ

pub data ConsumeOtpChallengeOutcome : Type 0 where
  consumed : OtpChallengeRecord → ConsumeOtpChallengeOutcome
  invalid_code : (remaining_attempts : ℕ) → ConsumeOtpChallengeOutcome
  expired already_consumed not_found : ConsumeOtpChallengeOutcome
