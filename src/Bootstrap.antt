-- ===== src/Bootstrap.antt =====
-- FirstAdminBootstrap of packages/db/src/first-admin-bootstrap.ts on the tables of
-- packages/db/src/schema/bootstrap.ts. `digest` and `iso` are the runtime's; random texts are
-- arguments. Claims run one after the other, as the advisory lock has it.
pub mod Founded
pub mod Live
pub mod Once
mod Tests
use labpics_id.Prelude.{
  ltb, leb, if◌then◌else◌, is_null, some_gt, some_le, some_eq, leb→le, Bool-cases, Option-cases,
  length, first, length-append, All, All-append, includes, All-mono, length-map, ℕ, zero, suc, ◌+◌,
  ◌-◌, ◌*◌, ◌/◌, ◌%◌, ◌^◌, ◌≤◌, ◌<◌, String, ◌≡◌, refl, sym, ap, ◌∙◌, ◌≢◌, ◌↔◌, ◌⊎◌, inl, inr, Bool,
  true, false, not, ◌&&◌, ◌||◌, Option, none, some, List, [], ◌∷◌, ◌++◌, map, arith, ◌==◌, eq_iff,
  eq_refl,
}
use labpics_id.Sql.{select, update, returning, delete, insert, find}
use labpics_id.Sql.Keyed.{
  keep, drop, hit, change, row_of, IsUnique, row_of-key, row_of-insert, row_of-update,
  update-IsUnique, insert-IsUnique, delete-IsUnique, row_of-delete, select-keyed, find-keyed,
  returning-keyed,
}
use labpics_id.Domain.Result.{
  Fault, Result, Exec, pure, throw, lift, continue, ◌>>=◌, ◌>>◌, Result-cases, domain_error,
  invalid_email, already_revoked, unique_violation, unavailable, ok, thrown,
}
use labpics_id.Domain.Ids.{
  branded, actor_id, user_id, organization_id, product_access_id, otp_challenge_id, branded_ok,
}
use labpics_id.Domain.Ports.{
  IdentityAction, action_text, RateLimitAttempt, RateLimitDecision, TokenPurpose,
  token_purpose_text, IssuedToken, AuditEntry, OutboxEnvelope, IdentityNotification,
  OtpEmailMessage, RetryReason, TerminalReason, DeliveryResult, registration, verification,
  verification_resend, verification_consume, sign_in, email_otp_request, email_otp_redeem,
  password_reset, password_reset_consume, bootstrap_claim, deactivation, session_management,
  allowed, limited, email_verification, session_refresh, verify_email, reset_password, timeout,
  rate_limited, server_error, invalid_recipient, payload_mismatch, delivered, retryable, terminal,
}
use labpics_id.Tables.{
  AuditRow, Payload, OutboxRow, UserRow, SessionRow, RefreshRow, AccountRow, VerificationTokenRow,
  RateLimitRow, envelope, object,
}
use labpics_id.RateLimit.{
  window_ms, lock_ms, source_budget, account_budget, at, locked_at, resets, recovers, next_row,
  upsert, consume_dimension, LimitDb, or_else, account_digest, source_digest, report, conclude,
  consume,
}
use labpics_id.Login.{
  otp_challenge_ttl_ms, otp_max_attempts, otp_retry_interval_ms, LoginDb, LimitRun, Work,
  settle_work, transaction, state_of, is_active, record_audit, enqueue, consume_limit, view_of,
  subject_view, viewed, view_option, find_subject_by_email, active_id, read_subject,
  resolve_active_account, bound_id, bind_account, record_otp_event, create_challenge,
  consume_challenge, find_subject_by_id, subject_deactivated,
}
use labpics_id.Identity.{
  by_id, by_email, create_subject, set_email_verified, deactivate_subject, purpose_prefix,
  store_token, slice_after, token_owner, redeemable, consume_token, session_ttl_ms, session_id,
  session_token, create_session, list_subject_sessions, revoke_session, revoke_subject_sessions,
  credential_of, store_password, verified, verify_password,
}
use Prim.Native.String.{◌++◌ as append}
use labpics_id.Domain.Email.{Email}

pub record BootstrapTokenRow : Type 0 where
  pub id : String
  pub token_digest : String
  pub email : String
  pub expires_at : ℕ
  pub consumed_at : Option ℕ

-- The column `singleton`, always true, is the primary key: there is one row at most.
pub record AdministratorRow : Type 0 where
  pub user_id : String

pub record BootstrapDb : Type 0 where
  pub login : LoginDb
  pub bootstrap_tokens : List BootstrapTokenRow
  pub administrators : List AdministratorRow

pub record CreateBootstrapTokenCommand : Type 0 where
  pub email : Email
  pub raw_token : String
  pub expires_at : ℕ

pub record ClaimInput : Type 0 where
  pub raw_token : String
  pub verified_email : Email
  pub now : ℕ

pub data ClaimBootstrapResult : Type 0 where
  created : (user_id : String) → ClaimBootstrapResult
  rejected : ClaimBootstrapResult

abbrev pub bootstrap_token_id : BootstrapTokenRow → String
bootstrap_token_id t = t.id

abbrev pub bootstrap_token_digest : BootstrapTokenRow → String
bootstrap_token_digest t = t.token_digest

-- What a claim draws: `limit_run` for the rate limit, if the object has one, the account's id and the
-- audit event's hash; `fails` says that the commit fails.
pub record ClaimRun : Type 0 where
  pub limit_run : Option LimitRun
  pub fails : Bool
  pub id : String
  pub hash : String

module _ (sha256 lower_case : String → String) (iso : ℕ → String) (digest : String → String) where
  unfoldable pub create_bootstrap_token :
      (id : String) → CreateBootstrapTokenCommand → Exec BootstrapDb (Unit {0})
  create_bootstrap_token id command db =
      if is_null (row_of bootstrap_token_id id db.bootstrap_tokens)
        && is_null (row_of bootstrap_token_digest (digest command.raw_token) db.bootstrap_tokens)
      then (
        ok tt,
        record db {
          bootstrap_tokens =
              insert
                (record {
                  id = id;
                  token_digest = digest command.raw_token;
                  email = command.email.value;
                  expires_at = command.expires_at;
                  consumed_at = none;
                })
                db.bootstrap_tokens;
        },
      )
      else (thrown unique_violation, db)

  -- The WHERE clause of the claim.
  unfoldable pub claimable : ClaimInput → BootstrapTokenRow → Bool
  claimable input t =
      t.token_digest == digest input.raw_token
      && t.email == input.verified_email.value
      && is_null t.consumed_at
      && ltb input.now t.expires_at

  unfoldable pub spend_token : ClaimInput → List BootstrapTokenRow → List BootstrapTokenRow
  spend_token input tokens =
      update (claimable input) (λ t. record t { consumed_at = some input.now }) tokens

  -- The inserts of the account and of the administrator, with their keys.
  abbrev pub first_admin : (id : String) → Email → UserRow
  first_admin id email = record {
    id = id;
    name = "First administrator";
    email = email.value;
    email_verified = true;
    deactivated_at = none;
  }

  unfoldable pub insert_admin : ClaimRun → ClaimInput → Exec BootstrapDb (Unit {0})
  insert_admin run input db =
      if is_null (row_of by_id run.id db.login.users)
        && is_null (row_of by_email input.verified_email.value db.login.users)
        && is_null (first db.administrators)
      then (
        ok tt,
        record db {
          login = record db.login {
            users = insert (first_admin run.id input.verified_email) db.login.users;
          };
          administrators = insert (record { user_id = run.id }) db.administrators;
        },
      )
      else (thrown unique_violation, db)

  unfoldable pub report_claim : ClaimRun → ClaimInput → BootstrapDb → BootstrapDb
  report_claim run input db = record db {
    login = record db.login {
      audits =
          insert
            (record {
              entry = record {
                actor_id = run.id;
                action = "identity.first_admin_bootstrapped";
                target_type = "subject";
                target_id = run.id;
                occurred_at = input.now;
                ip = none;
                user_agent = none;
              };
              hash = run.hash;
            })
            db.login.audits;
      outbox =
          insert
            (record {
              type = "identity.first_admin_bootstrapped";
              payload = envelope (record {
                idempotency_key = append "identity.first_admin_bootstrapped:" run.id;
                type = "identity.first_admin_bootstrapped";
                payload = ("subjectId", run.id) ∷ [];
                occurred_at = input.now;
              });
            })
            db.login.outbox;
    };
  }

  abbrev pub report_admin :
      ClaimRun
      → ClaimInput
      → Result (Unit {0}) × BootstrapDb
      → Result ClaimBootstrapResult × BootstrapDb
  report_admin run input (thrown f, db) = (thrown f, db)
  report_admin run input (ok _, db) = (ok (created run.id), report_claim run input db)

  abbrev pub create_admin :
      ClaimRun → ClaimInput → Result String → Exec BootstrapDb ClaimBootstrapResult
  create_admin run input (thrown f) db = (thrown f, db)
  create_admin run input (ok id) db = report_admin run input (insert_admin run input db)

  -- The work of the transaction under the lock.
  unfoldable pub claim_locked : ClaimRun → ClaimInput → Exec BootstrapDb ClaimBootstrapResult
  claim_locked run input db =
      let claimed = length (select (claimable input) db.bootstrap_tokens) in
      let spent = record db { bootstrap_tokens = spend_token input db.bootstrap_tokens } in
      if is_null (first db.login.users) && is_null (first db.administrators)
      then if leb 1 claimed && leb claimed 1
        then create_admin run input (user_id run.id) spent
        else (ok rejected, spent)
      else (ok rejected, db)

  abbrev pub settle_claim :
      Bool
      → BootstrapDb
      → Result ClaimBootstrapResult × BootstrapDb
      → Result ClaimBootstrapResult × BootstrapDb
  settle_claim true db r = (thrown unavailable, db)
  settle_claim false db (ok a, after) = (ok a, after)
  settle_claim false db (thrown f, after) = (thrown f, db)

  abbrev pub claim_limited :
      ClaimRun → ClaimInput → RateLimitDecision → Exec BootstrapDb ClaimBootstrapResult
  claim_limited run input (limited retry_at) db = (ok rejected, db)
  claim_limited run input allowed db = settle_claim run.fails db (claim_locked run input db)

  abbrev pub limit_claim : Option LimitRun → ClaimInput → LoginDb → RateLimitDecision × LoginDb
  limit_claim none input db = (allowed, db)
  limit_claim (some limit_run) input db =
      consume_limit sha256 lower_case iso limit_run
        (record {
          action = bootstrap_claim;
          key = input.verified_email.value;
          source = some "bootstrap-control";
        })
        db

  unfoldable pub claim : ClaimRun → ClaimInput → Exec BootstrapDb ClaimBootstrapResult
  claim run input db =
      let (decision, login) = limit_claim run.limit_run input db.login in
      claim_limited run input decision (record db { login = login })
