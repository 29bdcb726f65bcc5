-- ===== src/Otp/Store.antt =====
-- packages/db/src/otp-challenge-store.ts and the table of packages/db/src/schema/otp.ts. A method
-- runs in its caller's transaction, which undoes the table when the method throws. `sha256` is the
-- digest in hexadecimal of Bun.CryptoHasher, `lower_case` Unicode's table.
mod Statements
mod Tests
pub mod Judge
pub mod History
pub mod Bounds
use labpics_id.Prelude.{
  ℕ, ◌-◌, Bool, not, ◌&&◌, Option, none, some, List, String, ◌==◌, ltb, leb, is_null, first,
  if◌then◌else◌,
}
use labpics_id.Sql.{update, returning, insert, find}
use labpics_id.Sql.Keyed.{row_of}
use labpics_id.Domain.Result.{Result, ok, thrown, unique_violation, Exec}
use labpics_id.Domain.Email
use labpics_id.Domain.Ids.{user_id}
use labpics_id.Domain.OtpContract.{
  purpose_text, OtpChallengeRecord, CreateOtpChallengeInput, ConsumeOtpChallengeInput,
  ConsumeOtpChallengeOutcome, consumed, invalid_code, expired, already_consumed, not_found,
}

-- A row of otp_challenges, but for its random primary key, which nothing reads.
pub record OtpRow : Type 0 where
  pub challenge_id_digest : String
  pub purpose : String
  pub email : String
  pub account_id : Option String
  pub code_verifier : String
  pub attempts_remaining : ℕ
  pub expires_at : ℕ
  pub consumed_at : Option ℕ
  pub source_digest : Option String
  pub created_at : ℕ

abbrev pub digest_of : OtpRow → String
digest_of r = r.challenge_id_digest

module _ (digest : String) (input : ConsumeOtpChallengeInput) where
  -- The predicate of the winning UPDATE.
  unfoldable pub wins : OtpRow → Bool
  wins r =
      digest_of r == digest
      && r.purpose == purpose_text input.purpose
      && is_null r.consumed_at
      && ltb input.now r.expires_at
      && r.code_verifier == input.code_digest
      && ltb 0 r.attempts_remaining

  -- The predicate of the UPDATE that charges a wrong code.
  unfoldable pub misses : OtpRow → Bool
  misses r =
      digest_of r == digest
      && r.purpose == purpose_text input.purpose
      && is_null r.consumed_at
      && ltb input.now r.expires_at
      && not (r.code_verifier == input.code_digest)
      && ltb 0 r.attempts_remaining

  unfoldable pub names : OtpRow → Bool
  names r = digest_of r == digest && r.purpose == purpose_text input.purpose

abbrev pub spend : ℕ → OtpRow → OtpRow
spend now r = record r { consumed_at = some now }

abbrev pub charge : OtpRow → OtpRow
charge r = record r { attempts_remaining = r.attempts_remaining - 1 }

-- The classification of a challenge that neither UPDATE touched.
unfoldable pub classify : ConsumeOtpChallengeInput → Option OtpRow → ConsumeOtpChallengeOutcome
classify input none = not_found
classify input (some row) =
    if is_null row.consumed_at
    then if leb row.expires_at input.now then expired else not_found
    else already_consumed

abbrev bind_user : Option String → Result (Option String)
bind_user none = ok none
bind_user (some a) = elim (user_id a) [ ok u ↦ ok (some u) | thrown f ↦ thrown f ]

module _ (sha256 lower_case : String → String) where
  unfoldable pub row_for : CreateOtpChallengeInput → OtpRow
  row_for input = record {
    challenge_id_digest = sha256 input.id;
    purpose = purpose_text input.purpose;
    email = input.email.value;
    account_id = input.account_id;
    code_verifier = input.code_digest;
    attempts_remaining = input.max_attempts;
    expires_at = input.expires_at;
    consumed_at = none;
    source_digest = none;
    created_at = input.created_at;
  }

  -- PostgresOtpChallengeStore.create; the unique index on the digest refuses a second row.
  unfoldable pub create : CreateOtpChallengeInput → Exec (List OtpRow) OtpChallengeRecord
  unfolding row_for
  create input rows =
      if is_null (row_of digest_of (sha256 input.id) rows)
      then (
        ok (record {
          id = input.id;
          email = input.email;
          purpose = input.purpose;
          account_id = some input.account_id;
          code_digest = input.code_digest;
          created_at = input.created_at;
          expires_at = input.expires_at;
          remaining_attempts = input.max_attempts;
        }),
        insert (row_for input) rows,
      )
      else (thrown unique_violation, rows)

  -- The record of the winner; `Email.from` and `userId` may throw on what the row holds.
  unfoldable pub won : ConsumeOtpChallengeInput → OtpRow → Result ConsumeOtpChallengeOutcome
  won input r = elim (Email.from lower_case r.email) [
    | thrown f ↦ thrown f
    | ok email ↦ elim (bind_user r.account_id) [
      | thrown f ↦ thrown f
      | ok account ↦ ok (
          consumed (record {
            id = input.id;
            email = email;
            purpose = input.purpose;
            account_id = some account;
            code_digest = r.code_verifier;
            created_at = r.created_at;
            expires_at = r.expires_at;
            remaining_attempts = r.attempts_remaining;
          }))
    ]
  ]

  -- The losing path: charge a wrong code, else classify.
  unfoldable pub lose : ConsumeOtpChallengeInput → Exec (List OtpRow) ConsumeOtpChallengeOutcome
  lose input rows =
      let digest = sha256 input.id in
      let decremented = first (returning (misses digest input) charge rows) in
      let rows' = update (misses digest input) charge rows in
      elim decremented [
        | some wrong ↦ (ok (invalid_code wrong.attempts_remaining), rows')
        | none ↦ (ok (classify input (find (names digest input) rows')), rows')
      ]

  -- PostgresOtpChallengeStore.consume
  unfoldable pub consume : ConsumeOtpChallengeInput → Exec (List OtpRow) ConsumeOtpChallengeOutcome
  consume input rows =
      let digest = sha256 input.id in
      let winner = first (returning (wins digest input) (spend input.now) rows) in
      let rows' = update (wins digest input) (spend input.now) rows in
      elim winner [ some r ↦ (won input r, rows') | none ↦ lose input rows' ]
