-- ===== src/Login/Grants.antt =====
-- What redeemOtp of packages/domain/src/identity/otp-use-cases.ts grants a session for, and what a
-- failed redemption leaves.
use labpics_id.Prelude.{
  ℕ, ◌≡◌, refl, sym, ◌∙◌, ap, Bool, true, false, Option, none, some, List, String, inl, inr,
}
use labpics_id.Domain.Result.{Result, ok, thrown, Result-cases}
use labpics_id.Domain.Email.{Email}
use labpics_id.Domain.Contract.{SessionView}
use labpics_id.Domain.OtpContract.{
  RedeemOtpCommand, RedeemOtpResult, session_established, EmployeeSubjectEnvelopeV1,
  OtpSessionEstablished, OtpChallengeRecord, ConsumeOtpChallengeInput, ConsumeOtpChallengeOutcome,
  email_otp_login, employee,
}
use labpics_id.Domain.Ports.{
  RateLimitAttempt, email_otp_redeem, RateLimitDecision, allowed, limited,
}
use labpics_id.Tables.{UserRow}
use labpics_id.Otp.Store
use labpics_id.Otp.Store.{OtpRow, digest_of, spend, won}
use labpics_id.RateLimit.{LimitDb}
use labpics_id.Login.{
  with_limits, LoginDb, LimitRun, Work, transaction, settle_work, consume_limit, bind_account,
  consume_challenge, record_otp_event, record_audit, enqueue,
}
use labpics_id.Login.Active.{BoundTo, bind_account-BoundTo}
use labpics_id.Login.Redeem.{
  establish, conclude, redeem_challenge, answer_redeem, redeem_decided, redeem_otp,
}

-- The attempt that redeemOtp presents to the store.
abbrev pub attempt : (String → String) → RedeemOtpCommand → ℕ → ConsumeOtpChallengeInput
attempt sha256 command now = record {
  id = command.challenge_id;
  purpose = email_otp_login;
  code_digest = sha256 command.code;
  now = now;
}

-- The attempt that redeemOtp counts with the rate limit.
abbrev pub redeem_attempt : (String → String) → RedeemOtpCommand → RateLimitAttempt
redeem_attempt sha256 command = record {
  action = email_otp_redeem;
  key = sha256 command.challenge_id;
  source = some command.source.ip;
}

module _ (sha256 lower_case : String → String) (iso : ℕ → String)
    (create_session : EmployeeSubjectEnvelopeV1 → ℕ → Result SessionView) where
  -- The evidence for a session: the store consumed the challenge for this code, and the session's
  -- account is the row of the challenge's email, which is not deactivated, and the account that
  -- the challenge names, if it names one.
  pub record Granted (command : RedeemOtpCommand) (now : ℕ) (challenges : List OtpRow)
      (users : List UserRow) (v : OtpSessionEstablished) : Type 0 where
    pub challenge : OtpChallengeRecord
    pub consumed :
        (Store.consume sha256 lower_case (attempt sha256 command now) challenges).0
        ≡ ok (ConsumeOtpChallengeOutcome.consumed challenge)
    pub account : BoundTo challenge.account_id challenge.email users v.subject.account_id
    pub email : v.subject.email ≡ challenge.email
    pub created : create_session v.subject now ≡ ok v.session

  established :
      (command : RedeemOtpCommand) (challenge : OtpChallengeRecord) (hash : String) (now : ℕ)
      (account : Option String) (db db' : LoginDb) (v : OtpSessionEstablished)
      → establish sha256 lower_case iso create_session command challenge hash now account db
        ≡ (ok (session_established v), db')
      → (account ≡ some v.subject.account_id)
        × (v.subject.email ≡ challenge.email)
        × (create_session v.subject now ≡ ok v.session)
        × (db'.challenges ≡ db.challenges)
  unfolding record_otp_event record_audit enqueue
  established command challenge hash now none db db' v h = absurd (cc)
  established command challenge hash now (some id) db db' v h =
      elim (Result-cases (create_session subject now)) [
        | inr bad ↦ absurd (let h' = rw bad.1 at h in cc)
        | inl good ↦
            let h' = rw good.1 at h in
            let answer : ok (session_established (granted good.0)) ≡ ok (session_established v) =
              ap (λ x. x.0) h' in
            let same : granted good.0 ≡ v = cc in
            (
              ap (λ x. some x.subject.account_id) same,
              ap (λ x. x.subject.email) (sym same),
              ap (λ x. create_session x.subject now) (sym same)
                  ∙ good.1
                  ∙ ap (λ x. ok x.session) same,
              ap (λ x. x.1.challenges) (sym h'),
            )
      ]
    where
      subject : EmployeeSubjectEnvelopeV1
      subject = record {
        schema_version = 1;
        kind = employee;
        account_id = id;
        email = challenge.email;
      }

      granted : SessionView → OtpSessionEstablished
      granted session = record { session = session; subject = subject }

  bind_account-state :
      (persisted : Option (Option String)) (email : Email) (db : LoginDb)
      → (bind_account sha256 lower_case iso persisted email db).1 ≡ db
  unfolding bind_account
  bind_account-state (some none) email db = refl
  bind_account-state (some (some i)) email db = refl
  bind_account-state none email db = refl

  concluded :
      (command : RedeemOtpCommand) (hash : String) (now : ℕ) (outcome : ConsumeOtpChallengeOutcome)
      (db db' : LoginDb) (v : OtpSessionEstablished)
      → conclude sha256 lower_case iso create_session command hash now outcome db
        ≡ (ok (session_established v), db')
      → (challenge : OtpChallengeRecord) × (outcome ≡ ConsumeOtpChallengeOutcome.consumed challenge)
        × ((bind_account sha256 lower_case iso challenge.account_id challenge.email db).0
            ≡ ok (some v.subject.account_id))
        × (v.subject.email ≡ challenge.email)
        × (create_session v.subject now ≡ ok v.session)
        × (db'.challenges ≡ db.challenges)
  concluded command hash now (ConsumeOtpChallengeOutcome.consumed c) db db' v h =
      elim (Result-cases (bind_account sha256 lower_case iso c.account_id c.email db).0) [
        | inr bad ↦ absurd (let h' = rw bad.1 at h in cc)
        | inl good ↦
            let h' = rw (good.1, bind_account-state c.account_id c.email db) at h in
            let e = established command c hash now good.0 db db' v h' in
            (c, refl, good.1 ∙ ap (λ a. ok a) e.0, e.1, e.2, e.3)
      ]
  concluded command hash now (ConsumeOtpChallengeOutcome.invalid_code n) db db' v h = absurd (cc)
  concluded command hash now ConsumeOtpChallengeOutcome.expired db db' v h = absurd (cc)
  concluded command hash now ConsumeOtpChallengeOutcome.already_consumed db db' v h = absurd (cc)
  concluded command hash now ConsumeOtpChallengeOutcome.not_found db db' v h = absurd (cc)

  redeemed :
      (command : RedeemOtpCommand) (hash : String) (now : ℕ) (db db' : LoginDb)
      (v : OtpSessionEstablished)
      → redeem_challenge sha256 lower_case iso create_session command hash now db
        ≡ (ok (session_established v), db')
      → Granted command now db.challenges db.users v
        × (db'.challenges
            ≡ (Store.consume sha256 lower_case (attempt sha256 command now) db.challenges).1)
  unfolding redeem_challenge consume_challenge
  redeemed command hash now db db' v h =
      elim (Result-cases
        (Store.consume sha256 lower_case (attempt sha256 command now) db.challenges).0) [
          | inr bad ↦ absurd (let h' = rw bad.1 at h in cc)
          | inl good ↦
              let h' = rw good.1 at h in
              let (c, outcome, account, email, created, kept) =
                concluded command hash now good.0 _ db' v h' in
              (
                record {
                  challenge = c;
                  consumed = good.1 ∙ ap (λ o. ok o) outcome;
                  account =
                      bind_account-BoundTo sha256 lower_case iso c.account_id c.email _
                        v.subject.account_id account;
                  email = email;
                  created = created;
                },
                kept,
              )
        ]

  worked :
      (command : RedeemOtpCommand) (work : Work) (db db' : LoginDb) (v : OtpSessionEstablished)
      → answer_redeem sha256 lower_case iso create_session (
          transaction work.fails
            (redeem_challenge sha256 lower_case iso create_session command work.hash work.now)
            db)
        ≡ (session_established v, db')
      → (work.fails ≡ false)
        × (redeem_challenge sha256 lower_case iso create_session command work.hash work.now db
            ≡ (ok (session_established v), db'))
  unfolding transaction
  worked command work db db' v h =
      go work.fails
        (redeem_challenge sha256 lower_case iso create_session command work.hash work.now db) h
    where
      go :
          (fails : Bool) (r : Result RedeemOtpResult × LoginDb)
          → answer_redeem sha256 lower_case iso create_session (settle_work fails db r)
            ≡ (session_established v, db')
          → (fails ≡ false) × (r ≡ (ok (session_established v), db'))
      go true r e = absurd (cc)
      go false (ok a, d) e =
          let e0 : a ≡ session_established v = ap (λ x. x.0) e in
          let e1 : d ≡ db' = ap (λ x. x.1) e in (refl, cc)
      go false (thrown f, d) e = absurd (cc)

  -- A session is established only by an attempt that the rate limit let through and whose
  -- transaction took effect, on a challenge that the store consumed for the presented code. Its
  -- account is the one that has the challenge's email and is not deactivated at that time, and it is
  -- the one that the challenge was bound to, if it was: a challenge that was bound to no account
  -- gives no session. The session is the one that the sessions' owner made for that account and
  -- email, and the challenges are left as the store left them.
  pub redeem_otp-Granted :
      (run : LimitRun) (work : Work) (command : RedeemOtpCommand) (db db' : LoginDb)
      (v : OtpSessionEstablished)
      → redeem_otp sha256 lower_case iso create_session run work command db
        ≡ (session_established v, db')
      → Granted command work.now db.challenges db.users v
        × (db'.challenges
            ≡ (Store.consume sha256 lower_case (attempt sha256 command work.now) db.challenges).1)
        × (work.fails ≡ false)
        × ((consume_limit sha256 lower_case iso run (redeem_attempt sha256 command) db).0 ≡ allowed)
  unfolding redeem_otp consume_limit
  redeem_otp-Granted run work command db db' v h = decided _ h
    where
      decided :
          (outcome : RateLimitDecision × LimitDb)
          → redeem_decided sha256 lower_case iso create_session command work
              (with_limits db outcome)
            ≡ (session_established v, db')
          → Granted command work.now db.challenges db.users v
            × (db'.challenges
                ≡ (Store.consume sha256 lower_case
                    (attempt sha256 command work.now)
                    db.challenges).1)
            × (work.fails ≡ false)
            × ((with_limits db outcome).0 ≡ allowed)
      decided (limited at, l) e = absurd (cc)
      decided (allowed, l) e =
          let (took_effect, done) = worked command work _ db' v e in
          let (granted, left) = redeemed command work.hash work.now _ db' v done in
          (granted, left, took_effect, refl)
