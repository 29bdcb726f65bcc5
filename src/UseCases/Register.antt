-- ===== src/UseCases/Register.antt =====
-- packages/domain/src/identity/use-cases.ts: register and verifyEmail.
pub mod Registered
pub mod Onboarding
pub mod SignsIn
use labpics_id.Prelude.{String, Option, none, some}
use labpics_id.Domain.Result.{Exec, lift, ◌>>=◌, ◌>>◌, ok}
use labpics_id.Domain.Ports.{registration, verification_consume, email_verification, verify_email}
use labpics_id.Identity.{create_subject, set_email_verified, store_password}
use labpics_id.UseCases.{
  Ports, IdentityDb, Run, in_transaction, refused, agreed, on_users, on_accounts, notify, limit,
  record_mutation, by_email_of, by_id_of, store_issued, present_token,
}
use labpics_id.Domain.Contract.{
  SubjectView, RegisterSubjectCommand, VerifyEmailCommand, IdentityResult, conflict, invalid_token,
  subject_not_found,
}
use labpics_id.Login.{subject_view}

module _ (ports : Ports) where
  unfoldable pub create_registered :
      Run → RegisterSubjectCommand → Exec IdentityDb (IdentityResult SubjectView)
  create_registered run command = on_users (create_subject run.id command) >>= λ row.
      lift (subject_view ports.sha256 ports.lower_case ports.iso row) >>= λ subject.
      on_accounts (
        store_password ports.hash ports.verify run.account_id run.written_at subject.id
          command.password)
      >> store_issued ports run subject.id email_verification
      >> notify run.notice_fails (verify_email subject.email run.issued.raw)
      >> record_mutation ports run subject.id "identity.registered"
      >> agreed subject

  abbrev pub unless_taken :
      Run
      → RegisterSubjectCommand
      → Option SubjectView
      → Exec IdentityDb (IdentityResult SubjectView)
  unless_taken run command (some subject) = refused conflict
  unless_taken run command none = create_registered run command

  unfoldable pub register :
      Run → RegisterSubjectCommand → Exec IdentityDb (IdentityResult SubjectView)
  register run command =
      limit ports run registration command.email.value
        (in_transaction run.fails (by_email_of ports command.email >>= unless_taken run command))

  abbrev pub found_or_gone : Option SubjectView → Exec IdentityDb (IdentityResult SubjectView)
  found_or_gone none = refused subject_not_found
  found_or_gone (some subject) = agreed subject

  abbrev pub verify_owner : Run → Option String → Exec IdentityDb (IdentityResult SubjectView)
  verify_owner run none = refused invalid_token
  verify_owner run (some subject_id) =
      on_users (λ rows. (ok tt, set_email_verified subject_id rows))
      >> record_mutation ports run subject_id "identity.email_verified"
      >> by_id_of ports subject_id
      >>= found_or_gone

  unfoldable pub verify_email_address :
      Run → VerifyEmailCommand → Exec IdentityDb (IdentityResult SubjectView)
  verify_email_address run command = limit ports run verification_consume command.token (
      in_transaction run.fails
        (present_token ports run email_verification command.token >>= verify_owner run))
