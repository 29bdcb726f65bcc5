-- ===== src/UseCases/Tests.antt =====
-- Runs of packages/domain/src/identity/use-cases.ts: a registration, the verification of its email, a
-- sign-in, a reset of the password and a deactivation.
use labpics_id.Prelude.{ℕ, String, ◌≡◌, refl, ◌≢◌, true, false, none, some, [], ◌∷◌, arith, ◌==◌}
use labpics_id.Sql.{select, update, delete, insert, find}
use labpics_id.Domain.Result.{ok}
use labpics_id.Domain.Ports.{email_verification}
use labpics_id.Tables.{UserRow, AccountRow, VerificationTokenRow}
use labpics_id.Login.{
  record_audit, enqueue, consume_limit, subject_view, find_subject_by_email, find_subject_by_id,
  subject_deactivated,
}
use labpics_id.Identity.{
  set_email_verified, store_token, create_subject, deactivate_subject, slice_after, redeemable,
  consume_token, create_session, revoke_subject_sessions, store_password, verify_password,
}
use labpics_id.UseCases.{
  notify, store_issued, Ports, IdentityDb, Run, in_transaction, limit, record_mutation,
  present_token,
}
use labpics_id.UseCases.SignIn.{sign_in_with}
use labpics_id.UseCases.SignIn.Evidence.{Evidence, sign_in_with-Evidence}
use labpics_id.UseCases.Reset.{reset_password_with}
use labpics_id.UseCases.Reset.Renews.{Named, Renewed, reset_password_with-Renewed}
use labpics_id.UseCases.Deactivate.{deactivate_with}
use labpics_id.UseCases.Deactivate.Ends.{deactivate_with-sign_in_with}
use labpics_id.RateLimit
use labpics_id.Sql.Keyed.{row_of}
use labpics_id.Domain.Ids.{branded}
use labpics_id.UseCases.Register.{register, verify_email_address, create_registered}
use labpics_id.UseCases.Forward.{LimitAllows}
use labpics_id.UseCases.Register.SignsIn.{Onboards, register-sign_in_with}
use labpics_id.Domain.Email
use labpics_id.Domain.Email.{Email}
use labpics_id.Domain.Contract.{
  SubjectState, SubjectView, RegisterSubjectCommand, SessionView, SessionState, SignInCommand,
  ResetPasswordCommand, DeactivateSubjectCommand, accepted, SubjectDeactivated, password,
}
use labpics_id.Domain.Ids.{branded}

abbrev ports : Ports
ports = record {
  sha256 = λ s. s;
  lower_case = λ s. s;
  iso = λ t. "";
  digest_token = λ s. s;
  hash = λ s. s;
  verify = λ s h. s == h;
}

abbrev address : Email
address = record { value = "a@b.c" }

abbrev no_db : IdentityDb
no_db = record {
  tables = record { challenges = []; users = []; limits = []; audits = []; outbox = [] };
  sessions = [];
  accounts = [];
  tokens = [];
  notices = [];
}

abbrev run_at : String → ℕ → Run
run_at id now = record {
  limit_run = record { broken = false; fresh₁ = id; fresh₂ = id; hash = id; now = now };
  fails = false;
  notice_fails = false;
  issued = record { raw = id; digest = id; expires_at = 900_000 };
  id = id;
  account_id = id;
  token_id = id;
  session_token = id;
  hash = id;
  now = now;
  recorded_at = now;
  written_at = now;
}

abbrev anna : UserRow
anna = record {
  id = "u1";
  name = "Anna";
  email = "a@b.c";
  email_verified = true;
  deactivated_at = none;
}

abbrev credential : AccountRow
credential = record {
  id = "k1";
  account_id = "u1";
  provider_id = "credential";
  user_id = "u1";
  password = some "pw";
  updated_at = 0;
}

abbrev token : VerificationTokenRow
token = record { id = "t1"; identifier = "password_reset:u1"; value = "t1"; expires_at = 900_000 }

abbrev known_db : IdentityDb
known_db = record no_db {
  tables = record { challenges = []; users = anna ∷ []; limits = []; audits = []; outbox = [] };
  accounts = credential ∷ [];
  tokens = token ∷ [];
}

abbrev credentials : SignInCommand
credentials = record { email = address; password = "pw" }

abbrev session : SessionView
session = record {
  id = "s1";
  subject_id = "u1";
  authenticated_at = 2000;
  expires_at = 3_602_000;
  authentication_methods = password ∷ [];
  state = SessionState.active;
}

signed_in : (sign_in_with ports (run_at "s1" 2000) credentials known_db).0 ≡ ok (accepted session)
unfolding sign_in_with limit consume_limit RateLimit.consume RateLimit.conclude
    RateLimit.consume_dimension find RateLimit.next_row RateLimit.upsert insert RateLimit.at
    in_transaction find_subject_by_email subject_view branded Email.from Email.trim
    Email.utf16_length Email.email_pattern create_session verify_password RateLimit.report row_of
    update
signed_in = refl

sign_in_with-Evidence_example : Evidence ports (run_at "s1" 2000) credentials session known_db
sign_in_with-Evidence_example =
    sign_in_with-Evidence ports (run_at "s1" 2000) credentials known_db session signed_in

abbrev leaving : DeactivateSubjectCommand
leaving = record { subject_id = "u1" }

abbrev departure : SubjectDeactivated
departure = record { subject_id = "u1"; occurred_at = 1000 }

left : (deactivate_with ports (run_at "d1" 1000) leaving known_db).0 ≡ ok (accepted departure)
unfolding deactivate_with in_transaction find_subject_by_id find subject_view branded Email.from
    Email.trim Email.utf16_length Email.email_pattern subject_deactivated enqueue record_mutation
    record_audit
left = refl

abbrev other : UserRow
other = record anna { id = "u2"; email = "x@y.z" }

abbrev two_db : IdentityDb
two_db = record known_db {
  tables = record {
    challenges = [];
    users = anna ∷ other ∷ [];
    limits = [];
    audits = [];
    outbox = [];
  };
  accounts = credential ∷ record credential { account_id = "u2"; user_id = "u2" } ∷ [];
}

left_two : (deactivate_with ports (run_at "d1" 1000) leaving two_db).0 ≡ ok (accepted departure)
unfolding deactivate_with in_transaction find_subject_by_id find subject_view branded Email.from
    Email.trim Email.utf16_length Email.email_pattern subject_deactivated enqueue record_mutation
    record_audit
left_two = refl

abbrev other_credentials : SignInCommand
other_credentials = record { email = record { value = "x@y.z" }; password = "pw" }

abbrev other_session : SessionView
other_session = record session { subject_id = "u2" }

other_signed_in :
    (sign_in_with ports
      (run_at "s1" 2000)
      other_credentials
      (deactivate_with ports (run_at "d1" 1000) leaving two_db).1).0
    ≡ ok (accepted other_session)
unfolding sign_in_with limit consume_limit RateLimit.consume RateLimit.conclude
    RateLimit.consume_dimension find RateLimit.next_row RateLimit.upsert insert RateLimit.at
    in_transaction find_subject_by_email subject_view branded Email.from Email.trim
    Email.utf16_length Email.email_pattern create_session verify_password RateLimit.report row_of
    update deactivate_with find_subject_by_id subject_deactivated enqueue record_mutation
    record_audit deactivate_subject revoke_subject_sessions
other_signed_in = refl

deactivate_with-sign_in_with_example : other_session.subject_id ≢ leaving.subject_id
deactivate_with-sign_in_with_example =
    deactivate_with-sign_in_with ports (run_at "d1" 1000) (run_at "s1" 2000) leaving
      other_credentials two_db departure other_session left_two other_signed_in

abbrev renewal : ResetPasswordCommand
renewal = record { token = "t1"; new_password = "new" }

renewed : (reset_password_with ports (run_at "r1" 1000) renewal known_db).0 ≡ ok (accepted tt)
unfolding reset_password_with limit consume_limit RateLimit.consume RateLimit.conclude
    RateLimit.consume_dimension find RateLimit.next_row RateLimit.upsert insert RateLimit.at
    in_transaction present_token consume_token select redeemable slice_after branded store_password
    update delete revoke_subject_sessions record_mutation record_audit enqueue
renewed = refl

reset_password_with-Renewed_example :
    Renewed ports
      (run_at "r1" 1000)
      renewal
      email_verification
      2000
      known_db
      (reset_password_with ports (run_at "r1" 1000) renewal known_db).1
unfolding Named
reset_password_with-Renewed_example =
    reset_password_with-Renewed ports (run_at "r1" 1000) renewal email_verification 2000 known_db
      (omega arith) refl (λ e. refl, tt) renewed

abbrev sign_up : RegisterSubjectCommand
sign_up = record { email = address; name = "Anna"; password = "pw" }

abbrev unverified : SubjectView
unverified = record {
  id = "u1";
  email = address;
  email_verified = false;
  state = SubjectState.active;
}

registered : (register ports (run_at "u1" 1000) sign_up no_db).0 ≡ ok (accepted unverified)
unfolding register sign_in_with verify_email_address limit consume_limit RateLimit.consume
    RateLimit.conclude RateLimit.consume_dimension find RateLimit.next_row RateLimit.upsert insert
    RateLimit.at in_transaction find_subject_by_email find_subject_by_id subject_view branded
    Email.from Email.trim Email.utf16_length Email.email_pattern create_session verify_password
    RateLimit.report row_of update delete select create_registered create_subject store_issued
    store_token notify record_mutation record_audit enqueue store_password present_token
    consume_token redeemable slice_after set_email_verified LimitAllows Named
registered = refl

onboards :
    Onboards ports
      (run_at "u1" 1000)
      (run_at "v1" 2000)
      (run_at "s1" 3000)
      sign_up
      no_db
      (register ports (run_at "u1" 1000) sign_up no_db).1
      (verify_email_address ports
        (run_at "v1" 2000)
        (record { token = "u1" })
        (register ports (run_at "u1" 1000) sign_up no_db).1).1
unfolding register sign_in_with verify_email_address limit consume_limit RateLimit.consume
    RateLimit.conclude RateLimit.consume_dimension find RateLimit.next_row RateLimit.upsert insert
    RateLimit.at in_transaction find_subject_by_email find_subject_by_id subject_view branded
    Email.from Email.trim Email.utf16_length Email.email_pattern create_session verify_password
    RateLimit.report row_of update delete select create_registered create_subject store_issued
    store_token notify record_mutation record_audit enqueue store_password present_token
    consume_token redeemable slice_after set_email_verified LimitAllows Named
onboards = record {
  own_digest = refl;
  presented_in_time = omega arith;
  only_token = refl;
  second_commits = refl;
  third_commits = refl;
  second_allowed = refl;
  third_allowed = refl;
  verifies = refl;
  named = tt;
  fresh_session = refl;
}

register-sign_in_with_example :
    ((verify_email_address ports
        (run_at "v1" 2000)
        (record { token = "u1" })
        (register ports (run_at "u1" 1000) sign_up no_db).1).0
      ≡ ok (accepted (record unverified { email_verified = true })))
    × (opened : SessionView) × ((sign_in_with ports
          (run_at "s1" 3000)
          credentials
          (verify_email_address ports
            (run_at "v1" 2000)
            (record { token = "u1" })
            (register ports (run_at "u1" 1000) sign_up no_db).1).1).0
        ≡ ok (accepted opened))
    × (opened.subject_id ≡ unverified.id)
register-sign_in_with_example =
    register-sign_in_with ports (run_at "u1" 1000) (run_at "v1" 2000) (run_at "s1" 3000) sign_up
      no_db unverified registered onboards
