-- ===== src/Domain/Ports.antt =====
-- packages/domain/src/ports/*.ts: what the ports exchange. The actions and purposes that are union
-- types of literals come with the text that the adapters store.
use labpics_id.Prelude.{Bool, ℕ, String, List, Option}
use labpics_id.Domain.Email.{Email}
use labpics_id.Domain.OtpContract.{OtpPurpose}

-- rate-limit.ts
pub data IdentityAction : Type 0 where
  registration verification verification_resend verification_consume sign_in : IdentityAction
  email_otp_request email_otp_redeem password_reset password_reset_consume : IdentityAction
  bootstrap_claim deactivation session_management : IdentityAction

abbrev pub action_text : IdentityAction → String
action_text registration = "registration"
action_text verification = "verification"
action_text verification_resend = "verification_resend"
action_text verification_consume = "verification_consume"
action_text sign_in = "sign_in"
action_text email_otp_request = "email_otp_request"
action_text email_otp_redeem = "email_otp_redeem"
action_text password_reset = "password_reset"
action_text password_reset_consume = "password_reset_consume"
action_text bootstrap_claim = "bootstrap_claim"
action_text deactivation = "deactivation"
action_text session_management = "session_management"

pub record RateLimitAttempt : Type 0 where
  pub action : IdentityAction
  pub key : String
  pub source : Option String

pub data RateLimitDecision : Type 0 where
  allowed : RateLimitDecision
  limited : (retry_at : ℕ) → RateLimitDecision

-- token.ts
pub data TokenPurpose : Type 0 where
  email_verification password_reset session_refresh : TokenPurpose

abbrev pub token_purpose_text : TokenPurpose → String
token_purpose_text email_verification = "email_verification"
token_purpose_text password_reset = "password_reset"
token_purpose_text session_refresh = "session_refresh"

pub record IssuedToken : Type 0 where
  pub raw : String
  pub digest : String
  pub expires_at : ℕ

-- audit-log.ts
pub record AuditEntry : Type 0 where
  pub actor_id : String
  pub action : String
  pub target_type : String
  pub target_id : String
  pub occurred_at : ℕ
  pub ip : Option String
  pub user_agent : Option String

-- outbox.ts; the payload is a JSON object of texts in every envelope that the source builds.
pub record OutboxEnvelope : Type 0 where
  pub idempotency_key : String
  pub type : String
  pub payload : List (String × String)
  pub occurred_at : ℕ

-- notification.ts
pub data IdentityNotification : Type 0 where
  verify_email : (recipient : Email) (token : String) → IdentityNotification
  reset_password : (recipient : Email) (token : String) → IdentityNotification

-- email-delivery.ts
pub record OtpEmailMessage : Type 0 where
  pub idempotency_key : String
  pub to : Email
  pub purpose : OtpPurpose
  pub code : String
  pub expires_at : ℕ

-- email-delivery.ts
pub data RetryReason : Type 0 where
  timeout rate_limited server_error : RetryReason

pub data TerminalReason : Type 0 where
  invalid_recipient payload_mismatch rejected : TerminalReason

pub data DeliveryResult : Type 0 where
  delivered : (provider_message_id : String) (duplicate : Bool) → DeliveryResult
  retryable : RetryReason → (retry_at : Option ℕ) → DeliveryResult
  terminal : TerminalReason → DeliveryResult
