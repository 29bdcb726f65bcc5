-- ===== src/UseCases/Deactivate/Ends.antt =====
-- What an accepted deactivate leaves: no session and no way in.
use mathlib.Core.Path.{subst}
use labpics_id.Prelude.{
  is_null, length, length-append, All, ℕ, ◌+◌, String, ◌≡◌, refl, sym, ap, ◌∙◌, ◌≢◌, true, false,
  Option, none, some, List, [], ◌∷◌, arith, ◌==◌, eq_iff,
}
use labpics_id.Sql.{insert}
use labpics_id.Sql.Rows.{All-update-All, find-All}
use labpics_id.Domain.Result.{ok}
use labpics_id.Tables.{UserRow, SessionRow}
use labpics_id.Login.{record_audit, enqueue, subject_deactivated}
use labpics_id.Identity.{deactivate_subject, revoke_subject_sessions}
use labpics_id.UseCases.{Ports, IdentityDb, Run, record_mutation, by_id_of}
use labpics_id.UseCases.Steps.{bind-ok, in_transaction-ok}
use labpics_id.UseCases.SignIn.{sign_in_with}
use labpics_id.UseCases.SignIn.Evidence.{Evidence, sign_in_with-Evidence}
use labpics_id.UseCases.Deactivate.{deactivate_found, deactivate_with}
use labpics_id.Domain.Contract.{
  SubjectView, SessionView, SignInCommand, DeactivateSubjectCommand, SubjectDeactivated, accepted,
}

-- No session of the account is left that is not revoked.
unfoldable pub SignedOut : String → List SessionRow → Type 0
SignedOut subject_id sessions =
    All (λ (s : SessionRow). (s.user_id == subject_id) ≡ true → is_null s.revoked_at ≡ false)
      sessions

unfoldable pub Deactivated : String → List UserRow → Type 0
Deactivated subject_id users =
    All (λ (u : UserRow). (u.id == subject_id) ≡ true → is_null u.deactivated_at ≡ false) users

pub revoke_subject_sessions-SignedOut :
    (subject_id : String) (now : ℕ) (rows : List SessionRow)
    → SignedOut subject_id (revoke_subject_sessions subject_id now rows)
unfolding SignedOut revoke_subject_sessions
revoke_subject_sessions-SignedOut subject_id now rows =
    All-update-All
      (λ (s : SessionRow). (s.user_id == subject_id) ≡ true → is_null s.revoked_at ≡ false)
      (λ s. s.user_id == subject_id) (λ s. record s { revoked_at = some now }) rows
      (λ r e own. refl) (λ r e own. absurd (cc))

deactivate_subject-Deactivated :
    (subject_id : String) (now : ℕ) (rows : List UserRow)
    → Deactivated subject_id (deactivate_subject subject_id now rows)
unfolding Deactivated deactivate_subject
deactivate_subject-Deactivated subject_id now rows =
    All-update-All (λ (u : UserRow). (u.id == subject_id) ≡ true → is_null u.deactivated_at ≡ false)
      (λ u. u.id == subject_id) (λ u. record u { deactivated_at = some now }) rows (λ r e own. refl)
      (λ r e own. absurd (cc))

-- What deactivate writes: the sessions, the account, one audit event and two messages.
unfoldable pub Ended : String → IdentityDb → IdentityDb → Type 0
Ended subject_id db after =
    SignedOut subject_id after.sessions
    × Deactivated subject_id after.tables.users
    × (length after.tables.audits ≡ length db.tables.audits + 1)
    × (length after.tables.outbox ≡ length db.tables.outbox + 2)

length-insert {ℓ} : {A : Type ℓ} (x : A) (xs : List A) → length (insert x xs) ≡ length xs + 1
unfolding insert
length-insert x xs = length-append xs (x ∷ [])

deactivate_found-Ended :
    (ports : Ports) (run : Run) (subject_id : String) (found : Option SubjectView) (db : IdentityDb)
    (event : SubjectDeactivated)
    → (deactivate_found ports run subject_id found db).0 ≡ ok (accepted event)
    → Ended subject_id db (deactivate_found ports run subject_id found db).1
unfolding Ended record_mutation record_audit enqueue subject_deactivated
deactivate_found-Ended ports run subject_id none db event h = absurd (cc)
deactivate_found-Ended ports run subject_id (some v) db event h = (
  revoke_subject_sessions-SignedOut subject_id run.written_at db.sessions,
  deactivate_subject-Deactivated subject_id run.written_at db.tables.users,
  length-insert _ db.tables.audits,
  length-insert _ _ ∙ ap (λ n. n + 1) (length-insert _ db.tables.outbox) ∙ omega arith,
)

-- An accepted deactivate revokes every session of the account, marks its row, and writes its audit
-- event and its two messages.
pub deactivate_with-Ended :
    (ports : Ports) (run : Run) (command : DeactivateSubjectCommand) (db : IdentityDb)
    (event : SubjectDeactivated)
    → (deactivate_with ports run command db).0 ≡ ok (accepted event)
    → Ended command.subject_id db (deactivate_with ports run command db).1
unfolding deactivate_with
deactivate_with-Ended ports run command db event h =
    let (inside, kept) = in_transaction-ok run.fails _ db (accepted event) h in
    let (found, read, ended, same) =
      bind-ok (by_id_of ports command.subject_id) (deactivate_found ports run command.subject_id) db
        (accepted event) inside in
    subst (Ended command.subject_id db) (sym (kept ∙ same))
      (deactivate_found-Ended ports run command.subject_id found db event ended)

-- Once an account is deactivated, no signIn right after it, with whatever credentials, answers a
-- session of it.
pub deactivate_with-sign_in_with :
    (ports : Ports) (run later : Run) (command : DeactivateSubjectCommand)
    (credentials : SignInCommand) (db : IdentityDb) (event : SubjectDeactivated)
    (session : SessionView)
    → (deactivate_with ports run command db).0 ≡ ok (accepted event)
    → (sign_in_with ports later credentials (deactivate_with ports run command db).1).0
      ≡ ok (accepted session)
    → session.subject_id ≢ command.subject_id
unfolding Ended Deactivated Evidence
deactivate_with-sign_in_with ports run later command credentials db event session ended entered
      same =
    let (row, here, right, active, verified, owner, ends) =
      sign_in_with-Evidence ports later credentials _ session entered in
    let marked =
      find-All
        (λ (u : UserRow). (u.id == command.subject_id) ≡ true → is_null u.deactivated_at ≡ false) _
        _ row here (deactivate_with-Ended ports run command db event ended).1 in
    absurd (
      let null = marked ((eq_iff row.id command.subject_id).1 (sym owner ∙ same)) in
      let off = rw active at null in cc)
