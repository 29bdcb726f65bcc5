-- ===== src/Bootstrap/Once.antt =====
-- The claim of packages/db/src/first-admin-bootstrap.ts makes one administrator, once.
use labpics_id.Prelude.{
  is_null, Bool-cases, first, ℕ, String, ◌≡◌, refl, ap, ◌≢◌, inl, inr, Bool, true, false, List, [],
  ◌∷◌, arith,
}
use labpics_id.Domain.Result.{ok}
use labpics_id.Domain.Ports.{RateLimitDecision, allowed, limited, rejected}
use labpics_id.Login.{LoginDb}
use labpics_id.Bootstrap.{
  BootstrapDb, CreateBootstrapTokenCommand, ClaimInput, ClaimRun, create_bootstrap_token,
  claim_locked, settle_claim, claim_limited, limit_claim, claim, created, rejected,
}
use labpics_id.Bootstrap.Founded.{claim-Created}

-- A call of claim, or of createToken.
pub data BootstrapCall : Type 0 where
  claims : ClaimRun → ClaimInput → BootstrapCall
  creates_token : (id : String) → CreateBootstrapTokenCommand → BootstrapCall

-- An administrator is there.
unfoldable pub Claimed : BootstrapDb → Type 0
Claimed db = is_null (first db.administrators) ≡ false

module _ (sha256 lower_case : String → String) (iso : ℕ → String) (digest : String → String) where
  unfoldable pub run_bootstrap : List BootstrapCall → BootstrapDb → BootstrapDb
  run_bootstrap [] db = db
  run_bootstrap (claims run input ∷ calls) db =
      run_bootstrap calls (claim sha256 lower_case iso digest run input db).1
  run_bootstrap (creates_token id command ∷ calls) db =
      run_bootstrap calls (create_bootstrap_token sha256 lower_case iso digest id command db).1

  claim_locked-Claimed :
      (run : ClaimRun) (input : ClaimInput) (db : BootstrapDb)
      → Claimed db
      → claim_locked sha256 lower_case iso digest run input db ≡ (ok rejected, db)
  unfolding claim_locked Claimed
  claim_locked-Claimed run input db h = elim (Bool-cases (is_null (first db.login.users))) [
    | inl e ↦ rw (e, h) refl
    | inr e ↦ rw e refl
  ]

  claim-Claimed :
      (run : ClaimRun) (input : ClaimInput) (db : BootstrapDb) (id : String)
      → Claimed db
      → Claimed (claim sha256 lower_case iso digest run input db).1
        × ((claim sha256 lower_case iso digest run input db).0 ≢ ok (created id))
  unfolding claim Claimed
  claim-Claimed run input db id h =
      go (limit_claim sha256 lower_case iso digest run.limit_run input db.login)
    where
      decided :
          (fails : Bool) (before : BootstrapDb)
          → Claimed before
          → Claimed (settle_claim sha256 lower_case iso digest fails before (ok rejected, before)).1
            × ((settle_claim sha256 lower_case iso digest fails before (ok rejected, before)).0
                ≢ ok (created id))
      decided true before c = (c, λ k. absurd (cc))
      decided false before c = (c, λ k. absurd (cc))

      go :
          (r : RateLimitDecision × LoginDb)
          → Claimed
              (claim_limited sha256 lower_case iso digest run input r.0
                (record db { login = r.1 })).1
            × ((claim_limited sha256 lower_case iso digest run input r.0
                  (record db { login = r.1 })).0
                ≢ ok (created id))
      go (limited retry_at, login) = (h, λ k. absurd (cc))
      go (allowed, login) =
          rw (claim_locked-Claimed run input (record db { login = login }) h)
            (decided run.fails (record db { login = login }) h)

  create_bootstrap_token-Claimed :
      (id : String) (command : CreateBootstrapTokenCommand) (db : BootstrapDb)
      → Claimed db
      → Claimed (create_bootstrap_token sha256 lower_case iso digest id command db).1
  unfolding create_bootstrap_token Claimed
  create_bootstrap_token-Claimed id command db h = ground (arith, h)

  run_bootstrap-Claimed :
      (calls : List BootstrapCall) (db : BootstrapDb)
      → Claimed db
      → Claimed (run_bootstrap calls db)
  unfolding run_bootstrap
  run_bootstrap-Claimed [] db h = h
  run_bootstrap-Claimed (claims run input ∷ calls) db h =
      run_bootstrap-Claimed calls _ (claim-Claimed run input db "" h).0
  run_bootstrap-Claimed (creates_token id command ∷ calls) db h =
      run_bootstrap-Claimed calls _ (create_bootstrap_token-Claimed id command db h)

  -- Once a claim has answered a new administrator, no claim does again, whatever its token, its email
  -- and the time, over any history of claims and new tokens.
  pub claim_once :
      (run again : ClaimRun) (input later : ClaimInput) (calls : List BootstrapCall)
      (db : BootstrapDb) (id second : String)
      → (claim sha256 lower_case iso digest run input db).0 ≡ ok (created id)
      → (claim sha256 lower_case iso digest again later
          (run_bootstrap calls (claim sha256 lower_case iso digest run input db).1)).0
        ≢ ok (created second)
  unfolding Claimed
  claim_once run again input later calls db id second h =
      let (decided, took_effect, is_id, made) =
        claim-Created sha256 lower_case iso digest run input db id h in
      (claim-Claimed again later _ second (
        run_bootstrap-Claimed calls _
          (there (claim sha256 lower_case iso digest run input db).1 made.the_administrator))).1
    where
      there :
          (after : BootstrapDb)
          → after.administrators ≡ record { user_id = run.id } ∷ []
          → Claimed after
      there after e = ap (λ rows. is_null (first rows)) e
