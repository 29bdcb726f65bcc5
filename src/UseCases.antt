-- ===== src/UseCases.antt =====
-- createIdentityUseCases of packages/domain/src/identity/use-cases.ts on the adapter's tables. The
-- token port's digest and the password functions are parameters; what it issues, the random ids and the
-- readings of the clocks are the run's. A notification is handed over outside of the transaction.
pub mod Steps
pub mod Forward
mod Tests
pub mod Register
pub mod SignIn
pub mod Reset
pub mod Deactivate
use labpics_id.Prelude.{ℕ, String, Bool, true, false, Option, none, some, List, [], ◌∷◌}
use labpics_id.Sql.{insert}
use labpics_id.Domain.Result.{Result, Exec, lift, ◌>>=◌, ◌>>◌, unavailable, ok, thrown}
use labpics_id.Domain.Ports.{
  IdentityAction, RateLimitDecision, TokenPurpose, IssuedToken, IdentityNotification, registration,
  verification_resend, verification_consume, sign_in, password_reset_consume, bootstrap_claim,
  allowed, limited, email_verification, verify_email, reset_password, rate_limited,
}
use labpics_id.Tables.{UserRow, SessionRow, AccountRow, VerificationTokenRow}
use labpics_id.Login.{
  LoginDb, LimitRun, record_audit, enqueue, consume_limit, subject_view, find_subject_by_email,
  find_subject_by_id, subject_deactivated,
}
use labpics_id.Identity.{
  create_subject, set_email_verified, deactivate_subject, store_token, consume_token,
  create_session, list_subject_sessions, revoke_session, revoke_subject_sessions, store_password,
  verify_password,
}
use Prim.Native.String.{◌++◌ as append}
use labpics_id.Domain.Email.{Email}
use labpics_id.Domain.Contract.{
  SubjectView, SessionView, SubjectState, RegisterSubjectCommand, VerifyEmailCommand, SignInCommand,
  RequestPasswordResetCommand, ResetPasswordCommand, DeactivateSubjectCommand, RevokeSessionCommand,
  IdentityFailure, IdentityResult, accepted, SubjectDeactivated, conflict, invalid_credentials,
  invalid_token, rate_limited, subject_not_found, unverified_email,
}

-- The ports that are not the repository's: the digest and toISOString of the rate limit, the case
-- table of Email.from, the token port's digest and Bun.password.
pub record Ports : Type 0 where
  pub sha256 : String → String
  pub lower_case : String → String
  pub iso : ℕ → String
  pub digest_token : String → String
  pub hash : String → String
  pub verify : String → String → Bool

pub record IdentityDb : Type 0 where
  pub tables : LoginDb
  pub sessions : List SessionRow
  pub accounts : List AccountRow
  pub tokens : List VerificationTokenRow
  pub notices : List IdentityNotification

-- What one call draws and reads: `fails` and `notice_fails` say that the commit and the handing over
-- of the notification fail, `issued` is the token port's new token, `now`, `recorded_at` and
-- `written_at` are the readings of the use case, of recordMutation and of the adapter.
pub record Run : Type 0 where
  pub limit_run : LimitRun
  pub fails : Bool
  pub notice_fails : Bool
  pub issued : IssuedToken
  pub id : String
  pub account_id : String
  pub token_id : String
  pub session_token : String
  pub hash : String
  pub now : ℕ
  pub recorded_at : ℕ
  pub written_at : ℕ

-- unitOfWork.run: the tables are as before if the work throws or the commit fails; what was handed
-- over to be sent is not taken back.
abbrev pub settle_case :
    {A : Type 0} → Bool → IdentityDb → Result A × IdentityDb → Result A × IdentityDb
settle_case true db (r, after) = (thrown unavailable, record db { notices = after.notices })
settle_case false db (ok a, after) = (ok a, after)
settle_case false db (thrown f, after) = (thrown f, record db { notices = after.notices })

unfoldable pub in_transaction : {A : Type 0} → Bool → Exec IdentityDb A → Exec IdentityDb A
in_transaction fails work db = settle_case fails db (work db)

abbrev pub refused : {T : Type 0} → IdentityFailure → Exec IdentityDb (IdentityResult T)
refused f db = (ok (IdentityResult.rejected f), db)

abbrev pub agreed : {T : Type 0} → T → Exec IdentityDb (IdentityResult T)
agreed t db = (ok (accepted t), db)

abbrev pub on_tables : {A : Type 0} → Exec LoginDb A → Exec IdentityDb A
on_tables work db = let (r, after) = work db.tables in (r, record db { tables = after })

abbrev pub with_users : List UserRow → IdentityDb → IdentityDb
with_users rows db = record db { tables = record db.tables { users = rows } }

abbrev pub on_users : {A : Type 0} → Exec (List UserRow) A → Exec IdentityDb A
on_users work db = let (r, after) = work db.tables.users in (r, with_users after db)

abbrev pub on_tokens : {A : Type 0} → Exec (List VerificationTokenRow) A → Exec IdentityDb A
on_tokens work db = let (r, after) = work db.tokens in (r, record db { tokens = after })

abbrev pub on_sessions : {A : Type 0} → Exec (List SessionRow) A → Exec IdentityDb A
on_sessions work db = let (r, after) = work db.sessions in (r, record db { sessions = after })

abbrev pub on_accounts : (List AccountRow → List AccountRow) → Exec IdentityDb (Unit {0})
on_accounts f db = (ok tt, record db { accounts = f db.accounts })

unfoldable pub notify : Bool → IdentityNotification → Exec IdentityDb (Unit {0})
notify true notice db = (thrown unavailable, db)
notify false notice db = (ok tt, record db { notices = insert notice db.notices })

module _ (ports : Ports) where
  abbrev pub limit_with :
      {T : Type 0}
      → RateLimitDecision
      → Exec IdentityDb (IdentityResult T)
      → Exec IdentityDb (IdentityResult T)
  limit_with allowed work = work
  limit_with (limited retry_at) work = refused (rate_limited retry_at)

  -- The call `limit` of a use case: it names no source.
  unfoldable pub limit :
      {T : Type 0}
      → Run
      → IdentityAction
      → (key : String) → Exec IdentityDb (IdentityResult T)
      → Exec IdentityDb (IdentityResult T)
  limit run action key work db =
      let (decision, after) =
        consume_limit ports.sha256 ports.lower_case ports.iso run.limit_run
          (record { action = action; key = key; source = none }) db.tables in
      limit_with decision work (record db { tables = after })

  unfoldable pub record_mutation : Run → String → String → Exec IdentityDb (Unit {0})
  record_mutation run subject_id action =
      on_tables (
        record_audit
          (record {
            actor_id = subject_id;
            action = action;
            target_type = "subject";
            target_id = subject_id;
            occurred_at = run.recorded_at;
            ip = none;
            user_agent = none;
          })
          run.hash)
      >> on_tables (
          enqueue (record {
            idempotency_key =
                append action
                  (append ":" (append subject_id (append ":" (ports.iso run.recorded_at))));
            type = action;
            payload = ("subjectId", subject_id) ∷ [];
            occurred_at = run.recorded_at;
          }))

  abbrev pub read_users : {A : Type 0} → (List UserRow → Result A) → Exec IdentityDb A
  read_users f db = (f db.tables.users, db)

  abbrev pub by_email_of : Email → Exec IdentityDb (Option SubjectView)
  by_email_of email =
      read_users (find_subject_by_email ports.sha256 ports.lower_case ports.iso email)

  abbrev pub by_id_of : String → Exec IdentityDb (Option SubjectView)
  by_id_of id = read_users (find_subject_by_id ports.sha256 ports.lower_case ports.iso id)

  -- storeToken of the issued token
  unfoldable pub store_issued : Run → String → TokenPurpose → Exec IdentityDb (Unit {0})
  store_issued run subject_id purpose = on_tokens λ rows. (
    ok tt,
    store_token run.token_id subject_id purpose run.issued.digest run.issued.expires_at rows,
  )

  -- consumeToken
  unfoldable pub present_token : Run → TokenPurpose → String → Exec IdentityDb (Option String)
  present_token run purpose token =
      on_tokens (consume_token purpose (ports.digest_token token) run.now)

  -- The budgets that routes take on their own, with a source.
  unfoldable pub verification_resend_budget :
      Run → (email source : String) → LoginDb → RateLimitDecision × LoginDb
  verification_resend_budget run email source =
      consume_limit ports.sha256 ports.lower_case ports.iso run.limit_run
        (record { action = verification_resend; key = email; source = some source })

  unfoldable pub bootstrap_claim_budget :
      Run → (email source : String) → LoginDb → RateLimitDecision × LoginDb
  bootstrap_claim_budget run email source =
      consume_limit ports.sha256 ports.lower_case ports.iso run.limit_run
        (record { action = bootstrap_claim; key = email; source = some source })
