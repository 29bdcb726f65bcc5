-- ===== src/Login/Tests.antt =====
-- A request and a redemption of packages/domain/src/identity/otp-use-cases.ts for one account. The
-- digest is the text itself.
use labpics_id.Prelude.{ℕ, ◌≡◌, refl, none, some, [], ◌∷◌, String, true, false}
use labpics_id.Sql.{returning, update, select, insert, find}
use labpics_id.Domain.Result.{Result, ok}
use labpics_id.Domain.Ids.{branded}
use labpics_id.Domain.Email
use labpics_id.Domain.Email.{Email}
use labpics_id.Domain.Contract.{SubjectView, SubjectState, SessionView, SessionState, email_otp}
use labpics_id.Domain.OtpContract.{
  rejected, RedeemOtpFailure, SourceIdentity, RequestOtpCommand, RedeemOtpCommand,
  session_established, EmployeeSubjectEnvelopeV1, employee, OtpSessionEstablished,
}
use labpics_id.Tables.{UserRow}
use labpics_id.Otp.Store
use labpics_id.Otp.Store.{OtpRow, wins, won}
use labpics_id.RateLimit
use labpics_id.RateLimit.{consume_dimension, at, next_row, upsert, conclude}
use labpics_id.Login.{
  LoginDb, LimitRun, Work, transaction, consume_limit, find_subject_by_email, subject_view,
  bind_account, consume_challenge, record_otp_event, record_audit, enqueue,
}
use labpics_id.Login.Request.{request_otp}
use labpics_id.Login.Redeem.{redeem_challenge, redeem_otp}
use labpics_id.Login.Blind.{request_otp_blind}
use labpics_id.Login.Undone.{redeem_otp_undone}
use labpics_id.Domain.Ports.{allowed}
use labpics_id.Login.Grants.{redeem_attempt, Granted, attempt, redeem_otp-Granted}

abbrev itself : String → String
itself s = s

abbrev iso : ℕ → String
iso t = "now"

abbrev address : Email
address = record { value = "a@b.co" }

abbrev source : SourceIdentity
source = record { ip = "10.0.0.1"; user_agent = none }

abbrev user : UserRow
user = record {
  id = "u1";
  name = "Ada";
  email = "a@b.co";
  email_verified = true;
  deactivated_at = none;
}

abbrev row : OtpRow
row = record {
  challenge_id_digest = "c1";
  purpose = "email_otp_login";
  email = "a@b.co";
  account_id = some "u1";
  code_verifier = "123456";
  attempts_remaining = 5;
  expires_at = 601000;
  consumed_at = none;
  source_digest = none;
  created_at = 1000;
}

abbrev db : LoginDb
db = record { challenges = row ∷ []; users = user ∷ []; limits = []; audits = []; outbox = [] }

abbrev limit_run : LimitRun
limit_run = record { broken = false; fresh₁ = "l1"; fresh₂ = "l2"; hash = "h1"; now = 2000 }

abbrev work : Work
work = record { fails = false; hash = "h2"; now = 2000 }

abbrev request : RequestOtpCommand
request = record { email = address; source = source; continue_to = none }

abbrev view : SubjectView
view = record { id = "u1"; email = address; email_verified = true; state = SubjectState.active }

known : find_subject_by_email itself itself iso address (user ∷ []) ≡ ok (some view)
unfolding find_subject_by_email find subject_view branded Email.from Email.trim Email.email_pattern
    Email.utf16_length
known = refl

unknown : find_subject_by_email itself itself iso address [] ≡ ok none
unfolding find_subject_by_email find
unknown = refl

request_otp_blind_example :
    (request_otp itself itself iso "c2" "123456" limit_run work request
      (record db { users = user ∷ [] })).0
    ≡ (request_otp itself itself iso "c2" "123456" limit_run work request
        (record db { users = [] })).0
request_otp_blind_example =
    request_otp_blind itself itself iso "c2" "123456" limit_run work request db (user ∷ []) []
      (some view) none known unknown

abbrev redemption : RedeemOtpCommand
redemption = record { challenge_id = "c1"; code = "123456"; source = source }

abbrev session_of : EmployeeSubjectEnvelopeV1 → ℕ → SessionView
session_of subject now = record {
  id = "s1";
  subject_id = subject.account_id;
  authenticated_at = now;
  expires_at = 902000;
  authentication_methods = email_otp ∷ [];
  state = SessionState.active;
}

abbrev owner : EmployeeSubjectEnvelopeV1 → ℕ → Result SessionView
owner subject now = ok (session_of subject now)

abbrev subject : EmployeeSubjectEnvelopeV1
subject = record { schema_version = 1; kind = employee; account_id = "u1"; email = address }

abbrev session : OtpSessionEstablished
session = record { session = session_of subject 2000; subject = subject }

redeemed_c1 : redeem_otp itself itself iso owner limit_run work redemption db ≡ (
  session_established session,
  (redeem_otp itself itself iso owner limit_run work redemption db).1,
)
unfolding redeem_otp consume_limit RateLimit.consume consume_dimension find at next_row upsert
    conclude transaction redeem_challenge consume_challenge Store.consume wins won returning select
    update insert bind_account find_subject_by_email subject_view branded Email.from Email.trim
    Email.email_pattern Email.utf16_length record_otp_event record_audit enqueue
redeemed_c1 = refl

redeem_otp-Granted_example :
    Granted itself itself iso owner redemption 2000 (row ∷ []) (user ∷ []) session
    × ((redeem_otp itself itself iso owner limit_run work redemption db).1.challenges
        ≡ (Store.consume itself itself (attempt itself redemption 2000) (row ∷ [])).1)
    × (work.fails ≡ false)
    × ((consume_limit itself itself iso limit_run (redeem_attempt itself redemption) db).0
        ≡ allowed)
redeem_otp-Granted_example =
    redeem_otp-Granted itself itself iso owner limit_run work redemption db
      (redeem_otp itself itself iso owner limit_run work redemption db).1 session redeemed_c1

abbrev failing : Work
failing = record { fails = true; hash = "h2"; now = 2000 }

failed_c1 : redeem_otp itself itself iso owner limit_run failing redemption db ≡ (
  rejected RedeemOtpFailure.storage_unavailable,
  (redeem_otp itself itself iso owner limit_run failing redemption db).1,
)
unfolding redeem_otp consume_limit RateLimit.consume consume_dimension find at next_row upsert
    conclude transaction insert
failed_c1 = refl

redeem_otp_undone_example :
    (consume_limit itself itself iso limit_run (redeem_attempt itself redemption) db
      ≡ (allowed, (redeem_otp itself itself iso owner limit_run failing redemption db).1))
    × ((redeem_otp itself itself iso owner limit_run failing redemption db).1.challenges ≡ row ∷ [])
    × ((redeem_otp itself itself iso owner limit_run failing redemption db).1.users ≡ user ∷ [])
    × ((redeem_otp itself itself iso owner limit_run failing redemption db).1.audits ≡ db.audits)
    × ((redeem_otp itself itself iso owner limit_run failing redemption db).1.outbox ≡ db.outbox)
redeem_otp_undone_example =
    redeem_otp_undone itself itself iso owner limit_run failing redemption db
      (redeem_otp itself itself iso owner limit_run failing redemption db).1 failed_c1
