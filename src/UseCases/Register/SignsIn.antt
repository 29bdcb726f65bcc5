-- ===== src/UseCases/Register/SignsIn.antt =====
-- A registration leads to a sign-in.
use labpics_id.Prelude.{is_null, ◌<◌, ◌≡◌, refl, true, false, ◌&&◌, none}
use labpics_id.Sql.{find}
use labpics_id.Sql.Keyed.{row_of}
use labpics_id.Domain.Result.{ok}
use labpics_id.Domain.Ports.{verification_consume, sign_in}
use labpics_id.Identity.{redeemable, session_id, session_token}
use labpics_id.UseCases.{Ports, IdentityDb, Run}
use labpics_id.UseCases.Register.{register, verify_email_address}
use labpics_id.UseCases.Register.Registered.{register-Registered}
use labpics_id.UseCases.SignIn.{sign_in_with}
use labpics_id.UseCases.Reset.Renews.{Named}
use labpics_id.Domain.Contract.{SubjectView, SessionView, RegisterSubjectCommand, accepted}
use labpics_id.UseCases.Register.Onboarding.{first_session, sign_in_registered, verify_registered}
use labpics_id.UseCases.Forward.{LimitAllows}

-- What the three calls need of the ports and of each other: the digest of the issued token is its digest
-- and no other live token has it, it is presented in time, the transactions commit, the rate limit
-- lets them through, the password verifies, and the session's id and token are fresh.
pub record Onboards (ports : Ports) (first_run second third : Run)
    (command : RegisterSubjectCommand) (db registered confirmed : IdentityDb) : Type 0 where
  pub own_digest : ports.digest_token first_run.issued.raw ≡ first_run.issued.digest
  pub presented_in_time : second.now < first_run.issued.expires_at
  pub only_token : find (redeemable first_run.issued.digest second.now) db.tokens ≡ none
  pub second_commits : second.fails ≡ false
  pub third_commits : third.fails ≡ false
  pub second_allowed : LimitAllows ports second verification_consume first_run.issued.raw registered
  pub third_allowed : LimitAllows ports third sign_in command.email.value confirmed
  pub verifies : ports.verify command.password (ports.hash command.password) ≡ true
  pub named : Named db.accounts
  pub fresh_session :
      (is_null (row_of session_id third.id db.sessions)
        && is_null (row_of session_token third.session_token db.sessions))
      ≡ true

-- A registration that is accepted leads to a sign-in: presenting the token that was sent verifies the email
-- of the new account, and signing in with its email and password then answers a session of it.
-- Both hold where the token is presented in time, no other live token has its digest, the rate
-- limit lets the calls through, the transactions commit, and the session's id and token are fresh.
pub register-sign_in_with :
    (ports : Ports) (run second third : Run) (command : RegisterSubjectCommand) (db : IdentityDb)
    (subject : SubjectView)
    → (register ports run command db).0 ≡ ok (accepted subject)
    → Onboards ports run second third command db
        (register ports run command db).1
        (verify_email_address ports second
          (record { token = run.issued.raw })
          (register ports run command db).1).1
    → ((verify_email_address ports second
          (record { token = run.issued.raw })
          (register ports run command db).1).0
        ≡ ok (accepted (record subject { email_verified = true })))
      × (session : SessionView) × ((sign_in_with ports third
            (record { email = command.email; password = command.password })
            (verify_email_address ports second
              (record { token = run.issued.raw })
              (register ports run command db).1).1).0
          ≡ ok (accepted session))
      × (session.subject_id ≡ subject.id)
register-sign_in_with ports run second third command db subject h o =
    let (l, r) = register-Registered ports run command db subject h in
    let v =
      verify_registered ports run second third command db _ subject l r o.presented_in_time
        o.own_digest o.only_token o.second_commits o.second_allowed in
    let session =
      sign_in_registered ports run second third command db _ subject l r _ _ v o.verifies o.named
        o.third_commits o.third_allowed o.fresh_session in
    (v.accepted_as, first_session ports run second third command db _ subject l r, session, refl)
