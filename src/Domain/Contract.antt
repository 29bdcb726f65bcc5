-- ===== src/Domain/Contract.antt =====
-- packages/domain/src/identity/contract.ts: the views, the commands and the results of the
-- identity use cases.
use labpics_id.Prelude.{ℕ, Bool, String, List}
use labpics_id.Domain.Email.{Email}

pub data AuthenticationMethod : Type 0 where
  password email_otp magic_link passkey totp : AuthenticationMethod

pub data SubjectState : Type 0 where
  active deactivated : SubjectState

pub data SessionState : Type 0 where
  active revoked expired : SessionState

pub record SubjectView : Type 0 where
  pub id : String
  pub email : Email
  pub email_verified : Bool
  pub state : SubjectState

pub record SessionView : Type 0 where
  pub id : String
  pub subject_id : String
  pub authenticated_at : ℕ
  pub expires_at : ℕ
  pub authentication_methods : List AuthenticationMethod
  pub state : SessionState

pub record RegisterSubjectCommand : Type 0 where
  pub email : Email
  pub name : String
  pub password : String

pub record VerifyEmailCommand : Type 0 where
  pub token : String

pub record SignInCommand : Type 0 where
  pub email : Email
  pub password : String

pub record RequestPasswordResetCommand : Type 0 where
  pub email : Email

pub record ResetPasswordCommand : Type 0 where
  pub token : String
  pub new_password : String

pub record DeactivateSubjectCommand : Type 0 where
  pub subject_id : String

pub record RevokeSessionCommand : Type 0 where
  pub subject_id : String
  pub session_id : String

pub data IdentityFailure : Type 0 where
  conflict invalid_credentials invalid_token : IdentityFailure
  rate_limited : (retry_at : ℕ) → IdentityFailure
  subject_deactivated subject_not_found unverified_email : IdentityFailure

pub data IdentityResult {ℓ} (T : Type ℓ) : Type ℓ where
  accepted : T → IdentityResult T
  rejected : IdentityFailure → IdentityResult T

pub record SubjectDeactivated : Type 0 where
  pub subject_id : String
  pub occurred_at : ℕ

pub data SessionResolution : Type 0 where
  anonymous : SessionResolution
  authenticated : (subject : SubjectView) (session : SessionView) → SessionResolution

pub data ReauthenticationResult : Type 0 where
  authenticated : (subject : SubjectView) (session : SessionView) → ReauthenticationResult
  rejected : IdentityFailure → ReauthenticationResult
