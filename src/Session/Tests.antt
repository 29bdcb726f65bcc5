-- ===== src/Session/Tests.antt =====
-- One user with a session and a refresh credential of packages/db/src/session-security-adapter.ts.
-- The digest is the text itself.
use labpics_id.Prelude.{ℕ, ◌≡◌, ◌≢◌, refl, none, some, List, [], ◌∷◌, String, arith, true}
use labpics_id.Sql.{returning, update, select, insert}
use labpics_id.Sql.Keyed.{row_of, IsUnique}
use labpics_id.Domain.Result.{ok}
use labpics_id.Tables.{UserRow, SessionRow, RefreshRow}
use labpics_id.Session.{
  SessionDb, Drawn, rotated, replay, rotate, resolve, active, joined, unspent, add_credential,
  credential_key, session_key, initialize_provider_session,
}
use labpics_id.Session.History.{Op, op_rotate, op_touch, op_logout, run, commit}
use labpics_id.Session.Once.{rotates_once}
use labpics_id.Session.Family.{RevokesFamily, rotate-RevokesFamily}
use labpics_id.Session.Final.{ended_for_good, ends_within_an_hour}

abbrev itself : String → String
itself s = s

abbrev iso : ℕ → String
iso t = "now"

abbrev user : UserRow
user = record {
  id = "u1";
  name = "Ada";
  email = "a@b.co";
  email_verified = true;
  deactivated_at = none;
}

abbrev session : SessionRow
session = record {
  id = "s1";
  expires_at = 900000;
  token = "t";
  created_at = 0;
  updated_at = 0;
  revoked_at = none;
  last_active_at = some 0;
  absolute_expires_at = some 3600000;
  user_id = "u1";
}

abbrev credential : RefreshRow
credential = record {
  id = "r1";
  session_id = "s1";
  family_id = "f1";
  digest = "token1";
  expires_at = 3600000;
  used_at = none;
  created_at = 0;
}

abbrev db : SessionDb
db = record {
  users = user ∷ [];
  sessions = session ∷ [];
  credentials = credential ∷ [];
  audits = [];
  outbox = [];
}

abbrev drawn : Drawn
drawn = record { credential_id = "r2"; refresh_token = "token2"; hash = "h" }

abbrev used : RefreshRow
used = record credential { used_at = some 1000 }

abbrev rotated_db : SessionDb
rotated_db = record db {
  credentials = used ∷ record credential { id = "r2"; digest = "token2"; created_at = 1000 } ∷ [];
}

rotated_at_1000 : rotate itself drawn "token1" 1000 db ≡ (ok (rotated "token2"), rotated_db)
unfolding rotate joined row_of returning select unspent add_credential update insert
rotated_at_1000 = refl

abbrev ops : List Op
ops =
    op_touch "s1" 2000
    ∷ op_rotate (record { credential_id = "r3"; refresh_token = "token3"; hash = "h" }) "token2"
        3000
    ∷ []

db-IsUnique : IsUnique credential_key db.credentials
unfolding row_of
db-IsUnique = (refl, tt)

rotates_once_example :
    (rotate itself
      (record { credential_id = "r4"; refresh_token = "token4"; hash = "h" })
      "token1"
      4000
      (run itself iso ops rotated_db)).0
    ≢ ok (rotated "token4")
rotates_once_example =
    rotates_once itself iso drawn
      (record { credential_id = "r4"; refresh_token = "token4"; hash = "h" }) "token1" "token2"
      "token4" 1000 4000 db rotated_db ops db-IsUnique rotated_at_1000

replayed_at_2000 :
    rotate itself drawn "token1" 2000 rotated_db
    ≡ (ok (replay "f1"), (rotate itself drawn "token1" 2000 rotated_db).1)
unfolding rotate joined row_of returning select unspent
replayed_at_2000 = refl

rotate-RevokesFamily_example :
    RevokesFamily "f1" 2000 "h" rotated_db (rotate itself drawn "token1" 2000 rotated_db).1
rotate-RevokesFamily_example =
    rotate-RevokesFamily itself drawn "token1" "f1" 2000 rotated_db
      (rotate itself drawn "token1" 2000 rotated_db).1 replayed_at_2000

session_here : row_of session_key "s1" db.sessions ≡ some session
unfolding row_of
session_here = refl

ended_for_good_example :
    resolve itself "token2" 5000
      (run itself iso ops (commit itself iso (op_logout "u1" "logout_all" "h" 1000) db))
    ≢ active "s1"
ended_for_good_example =
    ended_for_good itself iso (op_logout "u1" "logout_all" "h" 1000) session db ops "token2" 5000
      session_here refl

begun :
    initialize_provider_session itself drawn "f2" "s1" 500 db
    ≡ (ok tt, (initialize_provider_session itself drawn "f2" "s1" 500 db).1)
unfolding initialize_provider_session row_of add_credential
begun = refl

ends_within_an_hour_example :
    resolve itself "token2" 3600500
      (run itself iso ops (initialize_provider_session itself drawn "f2" "s1" 500 db).1)
    ≢ active "s1"
ends_within_an_hour_example =
    ends_within_an_hour itself iso drawn "f2" "s1" 500 db
      (initialize_provider_session itself drawn "f2" "s1" 500 db).1 ops "token2" 3600500 begun
      (tt, (tt, tt)) (omega arith)
