-- ===== src/UseCases/SignIn.antt =====
-- packages/domain/src/identity/use-cases.ts: signIn.
pub mod Evidence
use labpics_id.Prelude.{Bool, true, false, Option, none, some}
use labpics_id.Domain.Result.{Exec, ◌>>=◌}
use labpics_id.Domain.Ports.{sign_in}
use labpics_id.Identity.{create_session, verify_password}
use labpics_id.UseCases.{
  Ports, IdentityDb, Run, in_transaction, refused, agreed, on_sessions, limit, by_email_of,
}
use labpics_id.Domain.Contract.{
  SubjectView, SessionView, SubjectState, SignInCommand, IdentityFailure, IdentityResult,
  invalid_credentials, unverified_email,
}

module _ (ports : Ports) where
  abbrev pub admit_state :
      Run → SubjectView → SubjectState → Bool → Exec IdentityDb (IdentityResult SessionView)
  admit_state run subject SubjectState.deactivated verified =
      refused IdentityFailure.subject_deactivated
  admit_state run subject SubjectState.active false = refused unverified_email
  admit_state run subject SubjectState.active true =
      on_sessions (create_session run.id run.session_token subject.id run.now) >>= agreed

  abbrev pub admit_password :
      Run → SubjectView → Bool → Exec IdentityDb (IdentityResult SessionView)
  admit_password run subject false = refused invalid_credentials
  admit_password run subject true = admit_state run subject subject.state subject.email_verified

  abbrev pub admit_subject :
      Run → SignInCommand → Option SubjectView → Exec IdentityDb (IdentityResult SessionView)
  admit_subject run command none db = refused invalid_credentials db
  admit_subject run command (some subject) db =
      admit_password run subject
        (verify_password ports.hash ports.verify subject.id command.password db.accounts) db

  unfoldable pub sign_in_with : Run → SignInCommand → Exec IdentityDb (IdentityResult SessionView)
  sign_in_with run command =
      limit ports run sign_in command.email.value
        (in_transaction run.fails (by_email_of ports command.email >>= admit_subject run command))
