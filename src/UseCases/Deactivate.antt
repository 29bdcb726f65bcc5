-- ===== src/UseCases/Deactivate.antt =====
-- packages/domain/src/identity/use-cases.ts: deactivate, listSessions and revokeSession.
pub mod Ends
use labpics_id.Prelude.{String, Option, none, some, List}
use labpics_id.Domain.Result.{Exec, ◌>>=◌, ◌>>◌, ok}
use labpics_id.Identity.{
  deactivate_subject, list_subject_sessions, revoke_session, revoke_subject_sessions,
}
use labpics_id.UseCases.{
  Ports, IdentityDb, Run, in_transaction, refused, agreed, on_tables, on_users, on_sessions,
  record_mutation, by_id_of,
}
use labpics_id.Domain.Contract.{
  SubjectView, SessionView, SubjectState, DeactivateSubjectCommand, RevokeSessionCommand,
  IdentityFailure, IdentityResult, SubjectDeactivated, subject_not_found,
}
use labpics_id.Login.{subject_deactivated}

module _ (ports : Ports) where
  abbrev pub deactivate_found :
      Run → String → Option SubjectView → Exec IdentityDb (IdentityResult SubjectDeactivated)
  deactivate_found run subject_id none = refused subject_not_found
  deactivate_found run subject_id (some subject) =
      on_users (λ rows. (ok tt, deactivate_subject subject_id run.written_at rows))
      >> on_sessions (λ rows. (ok tt, revoke_subject_sessions subject_id run.written_at rows))
      >> on_tables (subject_deactivated subject_id run.written_at)
      >> record_mutation ports run subject_id "identity.deactivated"
      >> agreed (record { subject_id = subject_id; occurred_at = run.now })

  unfoldable pub deactivate_with :
      Run → DeactivateSubjectCommand → Exec IdentityDb (IdentityResult SubjectDeactivated)
  deactivate_with run command =
      in_transaction run.fails
        (by_id_of ports command.subject_id >>= deactivate_found run command.subject_id)

  abbrev pub list_state :
      String → SubjectState → Exec IdentityDb (IdentityResult (List SessionView))
  list_state subject_id SubjectState.deactivated db = refused IdentityFailure.subject_deactivated db
  list_state subject_id SubjectState.active db =
      agreed (list_subject_sessions subject_id db.sessions) db

  abbrev pub list_found :
      String → Option SubjectView → Exec IdentityDb (IdentityResult (List SessionView))
  list_found subject_id none = refused subject_not_found
  list_found subject_id (some subject) = list_state subject_id subject.state

  unfoldable pub list_sessions_of :
      Run → String → Exec IdentityDb (IdentityResult (List SessionView))
  list_sessions_of run subject_id =
      in_transaction run.fails (by_id_of ports subject_id >>= list_found subject_id)

  abbrev pub revoke_found :
      Run → RevokeSessionCommand → Option SubjectView → Exec IdentityDb (IdentityResult (Unit {0}))
  revoke_found run command none = refused subject_not_found
  revoke_found run command (some subject) =
      on_sessions (λ rows. (ok tt, revoke_session command.session_id run.written_at rows))
      >> record_mutation ports run command.subject_id "identity.session_revoked"
      >> agreed tt

  unfoldable pub revoke_session_of :
      Run → RevokeSessionCommand → Exec IdentityDb (IdentityResult (Unit {0}))
  revoke_session_of run command =
      in_transaction run.fails (by_id_of ports command.subject_id >>= revoke_found run command)
