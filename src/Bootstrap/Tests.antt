-- ===== src/Bootstrap/Tests.antt =====
-- Runs of the claim of packages/db/src/first-admin-bootstrap.ts.
use labpics_id.Prelude.{ℕ, String, ◌≡◌, refl, ◌≢◌, false, none, List, [], ◌∷◌}
use labpics_id.Domain.Result.{ok}
use labpics_id.Bootstrap.{
  limit_claim, BootstrapTokenRow, BootstrapDb, ClaimInput, ClaimRun, claimable, insert_admin,
  claim_locked, claim, created,
}
use labpics_id.Bootstrap.Once.{BootstrapCall, run_bootstrap, claim_once, claims, creates_token}
use labpics_id.Domain.Email.{Email}
use labpics_id.Sql.{select}
use labpics_id.Domain.Ids.{branded}
use labpics_id.Sql.Keyed.{row_of}
use labpics_id.Bootstrap.Founded.{Created, claim-Created}
use labpics_id.Domain.Ports.{allowed}

abbrev address : Email
address = record { value = "a@b.c" }

abbrev token : BootstrapTokenRow
token = record {
  id = "t1";
  token_digest = "raw";
  email = "a@b.c";
  expires_at = 9000;
  consumed_at = none;
}

abbrev fresh_db : BootstrapDb
fresh_db = record {
  login = record { challenges = []; users = []; limits = []; audits = []; outbox = [] };
  bootstrap_tokens = token ∷ [];
  administrators = [];
}

abbrev run : ClaimRun
run = record { limit_run = none; fails = false; id = "u1"; hash = "h" }

abbrev input : ClaimInput
input = record { raw_token = "raw"; verified_email = address; now = 1000 }

abbrev itself : String → String
itself s = s

abbrev no_date : ℕ → String
no_date t = ""

claimed : (claim itself itself no_date itself run input fresh_db).0 ≡ ok (created "u1")
unfolding claim claim_locked select claimable branded insert_admin row_of
claimed = refl

claim-Created_example :
    let (decision, login) =
      limit_claim itself itself no_date itself run.limit_run input fresh_db.login in
    (decision ≡ allowed)
    × (run.fails ≡ false)
    × ("u1" ≡ run.id)
    × Created itself itself no_date itself run input
        (record fresh_db { login = login })
        (claim itself itself no_date itself run input fresh_db).1
claim-Created_example = claim-Created itself itself no_date itself run input fresh_db "u1" claimed

abbrev calls : List BootstrapCall
calls =
    creates_token "t2" (record { email = address; raw_token = "next"; expires_at = 9000 })
    ∷ claims run input
    ∷ []

claim_once_example :
    (claim itself itself no_date itself run
      (record input { raw_token = "next" })
      (run_bootstrap itself itself no_date itself calls
        (claim itself itself no_date itself run input fresh_db).1)).0
    ≢ ok (created "u1")
claim_once_example =
    claim_once itself itself no_date itself run run input (record input { raw_token = "next" })
      calls fresh_db "u1" "u1" claimed
