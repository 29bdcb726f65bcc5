-- ===== src/UseCases/SignIn/Evidence.antt =====
-- What an accepted signIn is founded on.
use labpics_id.Prelude.{
  is_null, Bool-cases, ℕ, ◌+◌, ◌≡◌, refl, sym, ap, ◌∙◌, inl, inr, Bool, true, false, ◌&&◌, Option,
  none, some, ◌==◌,
}
use labpics_id.Sql.{find}
use labpics_id.Sql.Keyed.{row_of}
use labpics_id.Domain.Result.{Result, ok}
use labpics_id.Domain.Ports.{sign_in}
use labpics_id.Tables.{UserRow}
use labpics_id.Login.{state_of, find_subject_by_email}
use labpics_id.Identity.{session_token, session_id, session_ttl_ms, create_session, verify_password}
use labpics_id.UseCases.{Ports, IdentityDb, Run, by_email_of}
use labpics_id.Login.Active.{view_option-some}
use labpics_id.UseCases.Steps.{limited_db, bind-ok, in_transaction-ok, limit-accepted}
use labpics_id.UseCases.SignIn.{admit_state, admit_password, admit_subject, sign_in_with}
use labpics_id.Domain.Contract.{
  SubjectView, SessionView, SubjectState, SignInCommand, IdentityResult, accepted,
}

-- The account with the command's email, and what the session has of it.
unfoldable pub Evidence : Ports → Run → SignInCommand → SessionView → IdentityDb → Type 0
Evidence ports run command session db =
    (row : UserRow) × (find (λ u. u.email == command.email.value) db.tables.users ≡ some row)
    × (verify_password ports.hash ports.verify row.id command.password db.accounts ≡ true)
    × (row.deactivated_at ≡ none)
    × (row.email_verified ≡ true)
    × (session.subject_id ≡ row.id)
    × (session.expires_at ≡ run.now + session_ttl_ms)

module _ (ports : Ports) (run : Run) (command : SignInCommand) (session : SessionView) where
  admit_state-ok :
      (subject : SubjectView) (state : SubjectState) (verified : Bool) (db : IdentityDb)
      → (admit_state ports run subject state verified db).0 ≡ ok (accepted session)
      → (state ≡ SubjectState.active)
        × (verified ≡ true)
        × (session.subject_id ≡ subject.id)
        × (session.expires_at ≡ run.now + session_ttl_ms)
  unfolding create_session
  admit_state-ok subject SubjectState.deactivated verified db h = absurd (cc)
  admit_state-ok subject SubjectState.active false db h = absurd (cc)
  admit_state-ok subject SubjectState.active true db h =
      elim (Bool-cases (
        is_null (row_of session_id run.id db.sessions)
        && is_null (row_of session_token run.session_token db.sessions))) [
          | inr e ↦ absurd (let h' = rw e at h in cc)
          | inl e ↦
              let same = answered (rw e at h) in
              (
                refl,
                refl,
                ap (λ (x : SessionView). x.subject_id) same,
                ap (λ (x : SessionView). x.expires_at) same,
              )
        ]
    where
      answered :
          {a b : SessionView}
          → ◌≡◌ {A = Result (IdentityResult SessionView)} (ok (accepted a)) (ok (accepted b))
          → b ≡ a
      answered k = cc

  admit_password-ok :
      (subject : SubjectView) (b : Bool) (db : IdentityDb)
      → (admit_password ports run subject b db).0 ≡ ok (accepted session)
      → (b ≡ true)
        × ((admit_state ports run subject subject.state subject.email_verified db).0
            ≡ ok (accepted session))
  admit_password-ok subject false db h = absurd (cc)
  admit_password-ok subject true db h = (refl, h)

  admit_subject-Evidence :
      (found : Option SubjectView) (db : IdentityDb)
      → find_subject_by_email ports.sha256 ports.lower_case ports.iso command.email db.tables.users
        ≡ ok found
      → (admit_subject ports run command found db).0 ≡ ok (accepted session)
      → Evidence ports run command session db
  unfolding Evidence find_subject_by_email
  admit_subject-Evidence none db read h = absurd (cc)
  admit_subject-Evidence (some v) db read h =
      let (row, here, views) = view_option-some ports.sha256 ports.lower_case ports.iso _ v read in
      let (right, admitted) = admit_password-ok v _ db h in
      let (active, verified, owner, ends) = admit_state-ok v v.state v.email_verified db admitted in
      (
        row,
        here,
        rw (← views.same_id) right,
        not_deactivated row.deactivated_at (sym views.same_state ∙ active),
        sym views.same_verified ∙ verified,
        owner ∙ views.same_id,
        ends,
      )
    where
      not_deactivated : (at : Option ℕ) → state_of at ≡ SubjectState.active → at ≡ none
      not_deactivated none k = refl
      not_deactivated (some t) k = absurd (cc)

-- signIn answers a session only for the account with the command's email, where the presented password
-- is the account's, the account is not deactivated and its email is verified; the session is that
-- account's and ends an hour after the sign-in.
pub sign_in_with-Evidence :
    (ports : Ports) (run : Run) (command : SignInCommand) (db : IdentityDb) (session : SessionView)
    → (sign_in_with ports run command db).0 ≡ ok (accepted session)
    → Evidence ports run command session db
unfolding sign_in_with Evidence
sign_in_with-Evidence ports run command db session h =
    let (l, worked, after) = limit-accepted ports run sign_in command.email.value _ db session h in
    let (inside, kept) =
      in_transaction-ok run.fails _ (limited_db db l) (accepted session) worked in
    let (found, read, admitted, same) =
      bind-ok (by_email_of ports command.email) (admit_subject ports run command) (limited_db db l)
        (accepted session) inside in
    admit_subject-Evidence ports run command session found (limited_db db l) read admitted
