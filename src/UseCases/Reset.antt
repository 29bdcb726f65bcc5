-- ===== src/UseCases/Reset.antt =====
-- packages/domain/src/identity/use-cases.ts: requestPasswordReset and resetPassword.
pub mod Renews
use labpics_id.Prelude.{String, Option, none, some}
use labpics_id.Domain.Result.{Exec, ◌>>=◌, ◌>>◌, ok}
use labpics_id.Domain.Ports.{IdentityAction, TokenPurpose, password_reset_consume, reset_password}
use labpics_id.Identity.{revoke_subject_sessions, store_password}
use labpics_id.UseCases.{
  Ports, IdentityDb, Run, in_transaction, refused, agreed, on_sessions, on_accounts, notify, limit,
  record_mutation, by_email_of, store_issued, present_token,
}
use labpics_id.Domain.Contract.{
  SubjectView, RequestPasswordResetCommand, ResetPasswordCommand, IdentityResult, invalid_token,
}

module _ (ports : Ports) where
  abbrev pub send_reset : Run → Option SubjectView → Exec IdentityDb (IdentityResult (Unit {0}))
  send_reset run none = agreed tt
  send_reset run (some subject) =
      store_issued ports run subject.id TokenPurpose.password_reset
      >> notify run.notice_fails (reset_password subject.email run.issued.raw)
      >> record_mutation ports run subject.id "identity.password_reset_requested"
      >> agreed tt

  unfoldable pub request_password_reset :
      Run → RequestPasswordResetCommand → Exec IdentityDb (IdentityResult (Unit {0}))
  request_password_reset run command =
      limit ports run IdentityAction.password_reset command.email.value
        (in_transaction run.fails (by_email_of ports command.email >>= send_reset run))

  abbrev pub reset_owner :
      Run → ResetPasswordCommand → Option String → Exec IdentityDb (IdentityResult (Unit {0}))
  reset_owner run command none = refused invalid_token
  reset_owner run command (some subject_id) =
      on_accounts (
        store_password ports.hash ports.verify run.account_id run.written_at subject_id
          command.new_password)
      >> on_sessions (λ rows. (ok tt, revoke_subject_sessions subject_id run.written_at rows))
      >> record_mutation ports run subject_id "identity.password_reset"
      >> agreed tt

  unfoldable pub reset_password_with :
      Run → ResetPasswordCommand → Exec IdentityDb (IdentityResult (Unit {0}))
  reset_password_with run command = limit ports run password_reset_consume command.token (
      in_transaction run.fails (
        present_token ports run TokenPurpose.password_reset command.token
        >>= reset_owner run command))
