-- ===== src/Login/Undone.antt =====
-- What a redemption of packages/domain/src/identity/otp-use-cases.ts leaves when the storage fails.
use labpics_id.Prelude.{
  ℕ, ◌≡◌, ◌≢◌, refl, ◌∙◌, List, sym, ap, Bool, true, false, Option, none, some, String, inl, inr,
}
use labpics_id.Domain.Result.{Result, ok, thrown, Result-cases}
use labpics_id.Domain.Contract.{SessionView}
use labpics_id.Domain.OtpContract.{
  RedeemOtpCommand, RedeemOtpFailure, RedeemOtpResult, rejected, EmployeeSubjectEnvelopeV1,
  employee, OtpChallengeRecord, ConsumeOtpChallengeOutcome,
}
use labpics_id.Domain.Ports.{RateLimitAttempt, RateLimitDecision, allowed, limited}
use labpics_id.Otp.Store
use labpics_id.Tables.{RateLimitRow}
use labpics_id.RateLimit
use labpics_id.RateLimit.{LimitDb}
use labpics_id.Login.{
  with_limits, LoginDb, LimitRun, Work, transaction, settle_work, consume_limit, bind_account,
  consume_challenge, record_otp_event, record_audit, enqueue,
}
use labpics_id.Login.Redeem.{
  establish, conclude, redeem_challenge, answer_redeem, redeem_decided, redeem_otp,
}
use labpics_id.Login.Grants.{attempt, redeem_attempt}

abbrev unavailable_answer : Result RedeemOtpResult
unavailable_answer = ok (rejected RedeemOtpFailure.storage_unavailable)

-- A call that the rate limit lets through writes no event.
allowed_quiet :
    (sha256 : String → String) (iso : ℕ → String) (broken : Bool) (fresh₁ fresh₂ hash : String)
    (a : RateLimitAttempt) (now : ℕ) (db after : LimitDb)
    → RateLimit.consume sha256 iso broken fresh₁ fresh₂ hash a now db ≡ (allowed, after)
    → (after.audit ≡ db.audit) × (after.outbox ≡ db.outbox)
unfolding RateLimit.consume RateLimit.conclude
allowed_quiet sha256 iso true fresh₁ fresh₂ hash a now db after h = absurd (cc)
allowed_quiet sha256 iso false fresh₁ fresh₂ hash a now db after h = concluded _ _ h
  where
    concluded :
        (limits : List RateLimitRow) (o : Option ℕ)
        → RateLimit.conclude sha256 iso a now hash (record db { limits = limits }) o
          ≡ (allowed, after)
        → (after.audit ≡ db.audit) × (after.outbox ≡ db.outbox)
    concluded limits none k = (ap (λ x. x.1.audit) (sym k), ap (λ x. x.1.outbox) (sym k))
    concluded limits (some t) k = absurd (cc)

module _ (sha256 lower_case : String → String) (iso : ℕ → String)
    (create_session : EmployeeSubjectEnvelopeV1 → ℕ → Result SessionView) where
  -- No work that ends answers that the storage is unavailable.
  establish_answers :
      (command : RedeemOtpCommand) (challenge : OtpChallengeRecord) (hash : String) (now : ℕ)
      (account : Option String) (db : LoginDb)
      → (establish sha256 lower_case iso create_session command challenge hash now account db).0
        ≢ unavailable_answer
  unfolding record_otp_event record_audit enqueue
  establish_answers command challenge hash now none db h = cc
  establish_answers command challenge hash now (some id) db h =
      elim (Result-cases (create_session subject now)) [
        | inr bad ↦ let h' = rw bad.1 at h in cc
        | inl good ↦ let h' = rw good.1 at h in cc
      ]
    where
      subject : EmployeeSubjectEnvelopeV1
      subject = record {
        schema_version = 1;
        kind = employee;
        account_id = id;
        email = challenge.email;
      }

  conclude_answers :
      (command : RedeemOtpCommand) (hash : String) (now : ℕ) (outcome : ConsumeOtpChallengeOutcome)
      (db : LoginDb)
      → (conclude sha256 lower_case iso create_session command hash now outcome db).0
        ≢ unavailable_answer
  conclude_answers command hash now (ConsumeOtpChallengeOutcome.consumed c) db h =
      elim (Result-cases (bind_account sha256 lower_case iso c.account_id c.email db).0) [
        | inr bad ↦ let h' = rw bad.1 at h in cc
        | inl good ↦ establish_answers command c hash now good.0 _ (rw good.1 at h)
      ]
  conclude_answers command hash now (ConsumeOtpChallengeOutcome.invalid_code n) db h = cc
  conclude_answers command hash now ConsumeOtpChallengeOutcome.expired db h = cc
  conclude_answers command hash now ConsumeOtpChallengeOutcome.already_consumed db h = cc
  conclude_answers command hash now ConsumeOtpChallengeOutcome.not_found db h = cc

  redeem_answers :
      (command : RedeemOtpCommand) (hash : String) (now : ℕ) (db : LoginDb)
      → (redeem_challenge sha256 lower_case iso create_session command hash now db).0
        ≢ unavailable_answer
  unfolding redeem_challenge consume_challenge
  redeem_answers command hash now db h =
      elim (Result-cases
        (Store.consume sha256 lower_case (attempt sha256 command now) db.challenges).0) [
          | inr bad ↦ let h' = rw bad.1 at h in cc
          | inl good ↦ conclude_answers command hash now good.0 _ (rw good.1 at h)
        ]

  -- Where a redemption is answered with "storage unavailable", the rate limit let it through, and
  -- the database is the one that the rate limit left: the challenges, and with them the attempts
  -- and the consumption, the accounts, the audit events and the outbox are as before. What the
  -- sessions' owner keeps is not in this database.
  pub redeem_otp_undone :
      (run : LimitRun) (work : Work) (command : RedeemOtpCommand) (db db' : LoginDb)
      → redeem_otp sha256 lower_case iso create_session run work command db
        ≡ (rejected RedeemOtpFailure.storage_unavailable, db')
      → (consume_limit sha256 lower_case iso run (redeem_attempt sha256 command) db
          ≡ (allowed, db'))
        × (db'.challenges ≡ db.challenges)
        × (db'.users ≡ db.users)
        × (db'.audits ≡ db.audits)
        × (db'.outbox ≡ db.outbox)
  unfolding redeem_otp consume_limit transaction
  redeem_otp_undone run work command db db' h = decided _ refl h
    where
      settled :
          (before : LoginDb) (fails : Bool) (r : Result RedeemOtpResult × LoginDb)
          → r.0 ≢ unavailable_answer
          → answer_redeem sha256 lower_case iso create_session (settle_work fails before r)
            ≡ (rejected RedeemOtpFailure.storage_unavailable, db')
          → before ≡ db'
      settled before true r answers e = ap (λ x. x.1) e
      settled before false (ok a, d) answers e = absurd (answers (ap (λ x. ok x.0) e))
      settled before false (thrown f, d) answers e = ap (λ x. x.1) e

      limit : RateLimitDecision × LimitDb
      limit =
          RateLimit.consume sha256 iso run.broken run.fresh₁ run.fresh₂ run.hash
            (redeem_attempt sha256 command) run.now
            (record { limits = db.limits; audit = db.audits; outbox = db.outbox })

      decided :
          (outcome : RateLimitDecision × LimitDb)
          → limit ≡ outcome
          → redeem_decided sha256 lower_case iso create_session command work
              (with_limits db outcome)
            ≡ (rejected RedeemOtpFailure.storage_unavailable, db')
          → (with_limits db outcome ≡ (allowed, db'))
            × (db'.challenges ≡ db.challenges)
            × (db'.users ≡ db.users)
            × (db'.audits ≡ db.audits)
            × (db'.outbox ≡ db.outbox)
      decided (limited at, l) o e = absurd (cc)
      decided (allowed, l) o e =
          let same =
            settled (with_limits db (allowed, l)).1 work.fails _
              (redeem_answers command work.hash work.now (with_limits db (allowed, l)).1) e in
          let (audits, outbox) = allowed_quiet sha256 iso _ _ _ _ _ _ _ l o in
          (
            ap (λ d. (allowed, d)) same,
            ap (λ x. x.challenges) (sym same),
            ap (λ x. x.users) (sym same),
            ap (λ x. x.audits) (sym same) ∙ audits,
            ap (λ x. x.outbox) (sym same) ∙ outbox,
          )
