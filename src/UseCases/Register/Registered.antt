-- ===== src/UseCases/Register/Registered.antt =====
-- What an accepted register leaves.
use mathlib.Core.Path.{subst}
use labpics_id.Prelude.{
  is_null, Bool-cases, ◌≡◌, refl, sym, ◌∙◌, inl, inr, Bool, true, false, ◌&&◌, Option, none, some,
  arith,
}
use labpics_id.Sql.{insert}
use labpics_id.Sql.Keyed.{row_of}
use labpics_id.Domain.Result.{Result, Result-cases, ok}
use labpics_id.Domain.Ports.{registration, email_verification}
use labpics_id.Tables.{UserRow}
use labpics_id.Login.{record_audit, enqueue, subject_view}
use labpics_id.Identity.{by_id, by_email, create_subject, store_token, store_password}
use labpics_id.UseCases.{Ports, IdentityDb, Run, notify, record_mutation, by_email_of, store_issued}
use labpics_id.UseCases.Steps.{limited_db, bind-ok, in_transaction-ok, limit-accepted}
use labpics_id.UseCases.Register.{create_registered, unless_taken, register}
use labpics_id.Domain.Contract.{SubjectView, RegisterSubjectCommand, IdentityResult, accepted}
use labpics_id.RateLimit.{LimitDb}

abbrev pub new_row : Run → RegisterSubjectCommand → UserRow
new_row run command = record {
  id = run.id;
  name = command.name;
  email = command.email.value;
  email_verified = false;
  deactivated_at = none;
}

-- The new account, its password and its token, where no account had the id or the email.
pub record Registered (ports : Ports) (run : Run) (command : RegisterSubjectCommand)
    (db after : IdentityDb) (subject : SubjectView) : Type 0 where
  pub fresh_id : row_of by_id run.id db.tables.users ≡ none
  pub fresh_email : row_of by_email command.email.value db.tables.users ≡ none
  pub viewed_as :
      subject_view ports.sha256 ports.lower_case ports.iso (new_row run command) ≡ ok subject
  pub users : after.tables.users ≡ insert (new_row run command) db.tables.users
  pub accounts :
      after.accounts
      ≡ store_password ports.hash ports.verify run.account_id run.written_at subject.id
          command.password db.accounts
  pub tokens :
      after.tokens
      ≡ store_token run.token_id subject.id email_verification run.issued.digest
          run.issued.expires_at db.tokens
  pub sessions : after.sessions ≡ db.sessions

create_registered-Registered :
    (ports : Ports) (run : Run) (command : RegisterSubjectCommand) (db : IdentityDb)
    (subject : SubjectView)
    → (create_registered ports run command db).0 ≡ ok (accepted subject)
    → Registered ports run command db (create_registered ports run command db).1 subject
unfolding create_registered create_subject store_issued notify record_mutation record_audit enqueue
create_registered-Registered ports run command db subject h = elim (Bool-cases free) [
  | inr e ↦ absurd (let h' = rw e at h in cc)
  | inl e ↦
      elim (Result-cases
        (subject_view ports.sha256 ports.lower_case ports.iso (new_row run command))) [
          | inr (f, v) ↦ absurd (let h' = rw (e, v) at h in cc)
          | inl (view, v) ↦ elim (Bool-cases run.notice_fails) [
            | inl n ↦ absurd (let h' = rw (e, v, n) at h in cc)
            | inr n ↦
                let same = answered (rw (e, v, n) at h) in
                subst (Registered ports run command db (create_registered ports run command db).1)
                  same
                  (rw (e, v, n)
                    (record {
                      fresh_id = free_none _ (ground (arith, e));
                      fresh_email = free_none _ (ground (arith, e));
                      viewed_as = v;
                      users = refl;
                      accounts = refl;
                      tokens = refl;
                      sessions = refl;
                    }))
          ]
        ]
]
  where
    free : Bool
    free =
        is_null (row_of by_id run.id db.tables.users)
        && is_null (row_of by_email command.email.value db.tables.users)

    free_none : (o : Option UserRow) → is_null o ≡ true → o ≡ none
    free_none none k = refl
    free_none (some u) k = absurd (cc)

    answered :
        {a b : SubjectView}
        → ◌≡◌ {A = Result (IdentityResult SubjectView)} (ok (accepted a)) (ok (accepted b))
        → a ≡ b
    answered k = cc

unless_taken-Registered :
    (ports : Ports) (run : Run) (command : RegisterSubjectCommand) (found : Option SubjectView)
    (db : IdentityDb) (subject : SubjectView)
    → (unless_taken ports run command found db).0 ≡ ok (accepted subject)
    → Registered ports run command db (unless_taken ports run command found db).1 subject
unless_taken-Registered ports run command (some v) db subject h = absurd (cc)
unless_taken-Registered ports run command none db subject h =
    create_registered-Registered ports run command db subject h

pub register-Registered :
    (ports : Ports) (run : Run) (command : RegisterSubjectCommand) (db : IdentityDb)
    (subject : SubjectView)
    → (register ports run command db).0 ≡ ok (accepted subject)
    → (l : LimitDb) × Registered ports run command
        (limited_db db l)
        (register ports run command db).1
        subject
unfolding register
register-Registered ports run command db subject h =
    let (l, worked, after) =
      limit-accepted ports run registration command.email.value _ db subject h in
    let (inside, kept) =
      in_transaction-ok run.fails _ (limited_db db l) (accepted subject) worked in
    let (found, read, made, same) =
      bind-ok (by_email_of ports command.email) (unless_taken ports run command) (limited_db db l)
        (accepted subject) inside in
    (
      l,
      subst (λ s. Registered ports run command (limited_db db l) s subject)
          (sym (after ∙ kept ∙ same))
          (unless_taken-Registered ports run command found (limited_db db l) subject made),
    )
