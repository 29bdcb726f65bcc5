-- ===== src/UseCases/Register/Onboarding.antt =====
-- A registration, the verification of its email and the first sign-in, one after the other.
use mathlib.Core.Path.{subst}
use labpics_id.Prelude.{
  is_null, ◌+◌, ◌<◌, String, ◌≡◌, refl, sym, ap, ◌∙◌, true, false, ◌&&◌, none, some, List, [], ◌∷◌,
  ◌==◌, eq_refl,
}
use labpics_id.Sql.{find}
use labpics_id.Sql.Keyed.{row_of}
use labpics_id.Sql.Rows.{find-update, find-insert}
use labpics_id.Domain.Result.{Result, ◌>>=◌, ok}
use labpics_id.Domain.Ports.{verification_consume, sign_in, email_verification}
use labpics_id.Tables.{UserRow}
use labpics_id.RateLimit.{LimitDb}
use labpics_id.Login.{
  record_audit, enqueue, subject_view, find_subject_by_email, find_subject_by_id,
}
use labpics_id.Identity.{
  set_email_verified, redeemable, consume_token, session_ttl_ms, session_id, session_token,
  create_session, verify_password,
}
use labpics_id.Identity.Stored.{consume_token-store_token}
use labpics_id.UseCases.{
  Ports, IdentityDb, Run, in_transaction, record_mutation, by_email_of, present_token,
}
use labpics_id.UseCases.Steps.{limited_db}
use labpics_id.UseCases.Register.{verify_owner, verify_email_address}
use labpics_id.UseCases.Register.Registered.{new_row, Registered}
use labpics_id.UseCases.SignIn.{admit_state, admit_subject, sign_in_with}
use labpics_id.UseCases.Reset.Renews.{verify_password-store_password, Named}
use labpics_id.Domain.Contract.{
  password, SessionState, SubjectView, SessionView, SubjectState, RegisterSubjectCommand,
  VerifyEmailCommand, SignInCommand, IdentityResult, accepted,
}
use labpics_id.UseCases.Forward.{
  in_transaction-commits, limit-allowed, LimitAllows, view-id, view-verified,
}

-- The row of the account once its email is verified.
abbrev verified_row : Run → RegisterSubjectCommand → UserRow
verified_row run command = record (new_row run command) { email_verified = true }

-- What a verification of the new account's email leaves.
pub record Confirmed (ports : Ports) (subject_id : String) (subject : SubjectView)
    (answer : Result (IdentityResult SubjectView)) (before after : IdentityDb) : Type 0 where
  pub accepted_as : answer ≡ ok (accepted (record subject { email_verified = true }))
  pub users_then : after.tables.users ≡ set_email_verified subject_id before.tables.users
  pub accounts_then : after.accounts ≡ before.accounts
  pub sessions_then : after.sessions ≡ before.sessions

verify_owner-Confirmed :
    (ports : Ports) (run : Run) (subject_id : String) (subject : SubjectView) (db : IdentityDb)
    (row : UserRow)
    → find (λ u. u.id == subject_id) (set_email_verified subject_id db.tables.users)
      ≡ some (record row { email_verified = true })
    → subject_view ports.sha256 ports.lower_case ports.iso row ≡ ok subject
    → Confirmed ports subject_id subject
        (verify_owner ports run (some subject_id) db).0
        db
        (verify_owner ports run (some subject_id) db).1
unfolding record_mutation record_audit enqueue find_subject_by_id
verify_owner-Confirmed ports run subject_id subject db row here views =
    rw (here, view-verified ports row subject views)
      (record { accepted_as = refl; users_then = refl; accounts_then = refl; sessions_then = refl })

module _ (ports : Ports) (run second third : Run) (command : RegisterSubjectCommand)
    (db registered : IdentityDb) (subject : SubjectView) (l : LimitDb)
    (r : Registered ports run command (limited_db db l) registered subject) where
  row_registered :
      find (λ u. u.id == run.id) (set_email_verified run.id registered.tables.users)
      ≡ some (verified_row run command)
  unfolding set_email_verified row_of
  row_registered = rw r.users (
      find-update (λ (u : UserRow). u.id == run.id) (λ u. u.id == run.id)
        (λ u. record u { email_verified = true }) _ (λ u. refl)
      ∙ rw
          (
            find-insert (λ (u : UserRow). u.id == run.id) (new_row run command) db.tables.users,
            r.fresh_id,
            eq_refl run.id,
          )
          (rw (eq_refl run.id) refl))

  token_registered :
      second.now < run.issued.expires_at
      → ports.digest_token run.issued.raw ≡ run.issued.digest
      → find (redeemable run.issued.digest second.now) db.tokens ≡ none
      → (consume_token email_verification
          (ports.digest_token run.issued.raw)
          second.now
          registered.tokens).0
        ≡ ok (some run.id)
  token_registered live own free =
      let (same, named, state) = view-id ports (new_row run command) subject r.viewed_as in
      rw (r.tokens, own, same)
        (consume_token-store_token run.token_id run.id email_verification run.issued.digest
          run.issued.expires_at second.now db.tokens live named free)

  abbrev pub presented : VerifyEmailCommand
  presented = record { token = run.issued.raw }

  -- The tables when the token has been taken.
  abbrev token_taken : LimitDb → IdentityDb
  token_taken l₂ = record (limited_db registered l₂) {
    tokens =
        (consume_token email_verification (ports.digest_token run.issued.raw) second.now
          registered.tokens).1;
  }

  owner_verified :
      (l₂ : LimitDb)
      → Confirmed ports run.id subject
          (verify_owner ports second (some run.id) (token_taken l₂)).0
          registered
          (verify_owner ports second (some run.id) (token_taken l₂)).1
  owner_verified l₂ =
      let v =
        verify_owner-Confirmed ports second run.id subject (token_taken l₂) (new_row run command)
          row_registered r.viewed_as in
      record {
        accepted_as = v.accepted_as;
        users_then = v.users_then;
        accounts_then = v.accounts_then;
        sessions_then = v.sessions_then;
      }

  pub verify_registered :
      second.now < run.issued.expires_at
      → ports.digest_token run.issued.raw ≡ run.issued.digest
      → find (redeemable run.issued.digest second.now) db.tokens ≡ none
      → second.fails ≡ false
      → LimitAllows ports second verification_consume run.issued.raw registered
      → Confirmed ports run.id subject
          (verify_email_address ports second presented registered).0
          registered
          (verify_email_address ports second presented registered).1
  unfolding verify_email_address present_token
  verify_registered live own free commits lets =
      let (l₂, limited_eq) =
        limit-allowed ports second verification_consume run.issued.raw
          (in_transaction second.fails (
            present_token ports second email_verification run.issued.raw
            >>= verify_owner ports second))
          registered lets in
      let owner = token_registered live own free in
      let work : (present_token ports second email_verification run.issued.raw
              >>= verify_owner ports second)
            (limited_db registered l₂)
          ≡ verify_owner ports second (some run.id) (token_taken l₂) =
        rw owner refl in
      let done = owner_verified l₂ in
      let commit =
        in_transaction-commits second
          (present_token ports second email_verification run.issued.raw
            >>= verify_owner ports second)
          (limited_db registered l₂) (accepted (record subject { email_verified = true })) commits
          (ap (λ p. p.0) work ∙ done.accepted_as) in
      subst
        (λ (p : Result (IdentityResult SubjectView) × IdentityDb).
          Confirmed ports run.id subject p.0 registered p.1)
        (sym (limited_eq ∙ commit ∙ work)) done

  abbrev pub first_session : SessionView
  first_session = record {
    id = third.id;
    subject_id = subject.id;
    authenticated_at = third.now;
    expires_at = third.now + session_ttl_ms;
    authentication_methods = password ∷ [];
    state = SessionState.active;
  }

  abbrev pub credentials : SignInCommand
  credentials = record { email = command.email; password = command.password }

  row_by_email :
      find (λ u. u.email == command.email.value) (set_email_verified run.id registered.tables.users)
      ≡ some (verified_row run command)
  unfolding set_email_verified row_of
  row_by_email = rw r.users (
      find-update (λ (u : UserRow). u.email == command.email.value) (λ u. u.id == run.id)
        (λ u. record u { email_verified = true }) _ (λ u. refl)
      ∙ rw
          (
            find-insert (λ (u : UserRow). u.email == command.email.value) (new_row run command)
                db.tables.users,
            r.fresh_email,
            eq_refl command.email.value,
          )
          (rw (eq_refl run.id) refl))

  found_registered :
      (users : List UserRow)
      → users ≡ set_email_verified run.id registered.tables.users
      → find_subject_by_email ports.sha256 ports.lower_case ports.iso command.email users
        ≡ ok (some (record subject { email_verified = true }))
  unfolding find_subject_by_email
  found_registered users e =
      rw (e, row_by_email, view-verified ports (new_row run command) subject r.viewed_as) refl

  created :
      (d : IdentityDb)
      → (is_null (row_of session_id third.id d.sessions)
          && is_null (row_of session_token third.session_token d.sessions))
        ≡ true
      → (admit_state ports third
          (record subject { email_verified = true })
          SubjectState.active
          true
          d).0
        ≡ ok (accepted first_session)
  unfolding create_session
  created d e = rw e refl

  -- The account signs in.
  pub sign_in_registered :
      (db₂ : IdentityDb) (answer : Result (IdentityResult SubjectView))
      → Confirmed ports run.id subject answer registered db₂
      → ports.verify command.password (ports.hash command.password) ≡ true
      → Named db.accounts
      → third.fails ≡ false
      → LimitAllows ports third sign_in command.email.value db₂
      → (is_null (row_of session_id third.id db.sessions)
          && is_null (row_of session_token third.session_token db.sessions))
        ≡ true
      → (sign_in_with ports third credentials db₂).0 ≡ ok (accepted first_session)
  unfolding sign_in_with
  sign_in_registered db₂ answer v right named commits lets fresh =
      let (l₃, limited_eq) =
        limit-allowed ports third sign_in command.email.value
          (in_transaction third.fails
            (by_email_of ports command.email >>= admit_subject ports third credentials))
          db₂ lets in
      let found = found_registered db₂.tables.users v.users_then in
      let right' : verify_password ports.hash ports.verify subject.id command.password db₂.accounts
          ≡ true =
        rw (v.accounts_then, r.accounts)
          (verify_password-store_password ports.hash ports.verify run.account_id run.written_at
            subject.id command.password db.accounts right named) in
      let (same, id_ok, state) = view-id ports (new_row run command) subject r.viewed_as in
      let fresh' : (is_null (row_of session_id third.id db₂.sessions)
            && is_null (row_of session_token third.session_token db₂.sessions))
          ≡ true =
        rw (v.sessions_then, r.sessions) fresh in
      let work : ((by_email_of ports command.email >>= admit_subject ports third credentials)
            (limited_db db₂ l₃)).0
          ≡ ok (accepted first_session) =
        rw (found, right', state) (created (limited_db db₂ l₃) fresh') in
      let commit =
        in_transaction-commits third
          (by_email_of ports command.email >>= admit_subject ports third credentials)
          (limited_db db₂ l₃) (accepted first_session) commits work in
      ap (λ p. p.0) (limited_eq ∙ commit) ∙ work
