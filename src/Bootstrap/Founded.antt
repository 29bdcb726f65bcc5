-- ===== src/Bootstrap/Founded.antt =====
-- What an accepted claim of packages/db/src/first-admin-bootstrap.ts is founded on.
use mathlib.Core.Path.{subst}
use labpics_id.Prelude.{
  length-append, ◌+◌, All-mono, none, All, some, leb, is_null, Bool-cases, length, first, ℕ, String,
  ◌≡◌, refl, sym, inl, inr, Bool, true, false, ◌&&◌, List, [], ◌∷◌, ◌++◌, arith,
}
use labpics_id.Sql.{select, insert}
use labpics_id.Sql.Lone.{select-Single}
use labpics_id.Sql.Keyed.{row_of}
use labpics_id.Domain.Result.{Result, Result-cases, ok, thrown}
use labpics_id.Domain.Ids.{user_id}
use labpics_id.Domain.Ports.{RateLimitDecision, allowed, limited}
use labpics_id.Login.{LoginDb}
use labpics_id.Bootstrap.{
  BootstrapTokenRow, BootstrapDb, ClaimInput, ClaimBootstrapResult, ClaimRun, claimable,
  spend_token, first_admin, insert_admin, report_claim, claim_locked, settle_claim, claim_limited,
  limit_claim, claim, created,
}
use labpics_id.Identity.{by_email, by_id}
use labpics_id.Bootstrap.Live.{IsLive, claimable-IsLive, unclaimable-IsLive}

first_none {ℓ} : {A : Type ℓ} (xs : List A) → is_null (first xs) ≡ true → xs ≡ []
first_none [] h = refl
first_none (x ∷ xs) h = absurd (cc)

module _ (sha256 lower_case : String → String) (iso : ℕ → String) (digest : String → String) where
  -- What an accepted claim found, and what it leaves.
  pub record Created (run : ClaimRun) (input : ClaimInput) (db after : BootstrapDb) : Type 0 where
    pub no_users : db.login.users ≡ []
    pub no_administrators : db.administrators ≡ []
    pub tokens_before : List BootstrapTokenRow
    pub token : BootstrapTokenRow
    pub tokens_after : List BootstrapTokenRow
    pub is_table : db.bootstrap_tokens ≡ tokens_before ++ token ∷ tokens_after
    pub live : IsLive sha256 lower_case iso digest input token
    pub alone :
        All (λ t. ¬ IsLive sha256 lower_case iso digest input t) (tokens_before ++ tokens_after)
    pub token_spent :
        after.bootstrap_tokens
        ≡ tokens_before ++ record token { consumed_at = some input.now } ∷ tokens_after
    pub the_user :
        after.login.users
        ≡ record {
          id = run.id;
          name = "First administrator";
          email = input.verified_email.value;
          email_verified = true;
          deactivated_at = none;
        }
          ∷ []
    pub the_administrator : after.administrators ≡ record { user_id = run.id } ∷ []
    pub audited :
        after.login.audits
        ≡ db.login.audits
          ++ record {
            entry = record {
              actor_id = run.id;
              action = "identity.first_admin_bootstrapped";
              target_type = "subject";
              target_id = run.id;
              occurred_at = input.now;
              ip = none;
              user_agent = none;
            };
            hash = run.hash;
          }
            ∷ []
    pub announced : length after.login.outbox ≡ length db.login.outbox + 1

  -- The database after the inserts on the spent tokens.
  abbrev with_admin : ClaimRun → ClaimInput → BootstrapDb → BootstrapDb
  with_admin run input db = record db {
    login = record db.login {
      users =
          insert (first_admin sha256 lower_case iso digest run.id input.verified_email)
            db.login.users;
    };
    bootstrap_tokens = spend_token sha256 lower_case iso digest input db.bootstrap_tokens;
    administrators = insert (record { user_id = run.id }) db.administrators;
  }

  with_admin-Created :
      (run : ClaimRun) (input : ClaimInput) (db : BootstrapDb)
      → db.login.users ≡ []
      → db.administrators ≡ []
      → length (select (claimable sha256 lower_case iso digest input) db.bootstrap_tokens) ≡ 1
      → Created run input db
          (report_claim sha256 lower_case iso digest run input (with_admin run input db))
  unfolding report_claim insert spend_token
  with_admin-Created run input db no_users no_administrators one =
      let single =
        select-Single (claimable sha256 lower_case iso digest input)
          (λ t. record t { consumed_at = some input.now }) db.bootstrap_tokens one in
      record {
        no_users = no_users;
        no_administrators = no_administrators;
        tokens_before = single.before;
        token = single.row;
        tokens_after = single.after;
        is_table = single.is_table;
        live = claimable-IsLive sha256 lower_case iso digest input single.row single.passes;
        alone =
            All-mono _ _ (single.before ++ single.after)
              (unclaimable-IsLive sha256 lower_case iso digest input) single.alone;
        token_spent = single.updated;
        the_user = rw no_users refl;
        the_administrator = rw no_administrators refl;
        audited = refl;
        announced = length-append db.login.outbox _;
      }

  claim_locked-Created :
      (run : ClaimRun) (input : ClaimInput) (db : BootstrapDb) (id : String)
      → (claim_locked sha256 lower_case iso digest run input db).0 ≡ ok (created id)
      → (id ≡ run.id)
        × Created run input db (claim_locked sha256 lower_case iso digest run input db).1
  unfolding claim_locked insert_admin
  claim_locked-Created run input db id h = elim (Bool-cases is_empty) [
    | inr e ↦ absurd (let h' = rw e at h in cc)
    | inl e ↦ elim (Bool-cases (leb 1 claimed && leb claimed 1)) [
      | inr t ↦ absurd (let h' = rw (e, t) at h in cc)
      | inl t ↦ elim (Result-cases (user_id run.id)) [
        | inr (f, u) ↦ absurd (let h' = rw (e, t, u) at h in cc)
        | inl (i, u) ↦ elim (Bool-cases is_free) [
          | inr f ↦ absurd (let h' = rw (e, t, u, f) at h in cc)
          | inl f ↦
              let answer : ok (created run.id) ≡ ok (created id) = rw (e, t, u, f) at h in
              let made =
                with_admin-Created run input db (first_none db.login.users (ground (arith, e)))
                  (first_none db.administrators (ground (arith, e))) (ground (arith, t)) in
              (cc, rw (e, t, u, f) made)
        ]
      ]
    ]
  ]
    where
      is_empty : Bool
      is_empty = is_null (first db.login.users) && is_null (first db.administrators)

      claimed : ℕ
      claimed = length (select (claimable sha256 lower_case iso digest input) db.bootstrap_tokens)

      is_free : Bool
      is_free =
          is_null (row_of by_id run.id db.login.users)
          && is_null (row_of by_email input.verified_email.value db.login.users)
          && is_null (first db.administrators)

  -- A claim that answers a new administrator was let through by the rate limit, and its transaction
  -- took effect. It found no account, no administrator, and exactly one token of the presented digest
  -- and email that was neither consumed nor expired. It leaves that token consumed at that time and
  -- every other as it was, one account, which has the claim's id and email and is verified and
  -- active, and this account as the one administrator.
  pub claim-Created :
      (run : ClaimRun) (input : ClaimInput) (db : BootstrapDb) (id : String)
      → (claim sha256 lower_case iso digest run input db).0 ≡ ok (created id)
      → let (decision, login) =
          limit_claim sha256 lower_case iso digest run.limit_run input db.login in
        (decision ≡ allowed)
        × (run.fails ≡ false)
        × (id ≡ run.id)
        × Created run input
            (record db { login = login })
            (claim sha256 lower_case iso digest run input db).1
  unfolding claim
  claim-Created run input db id h =
      go (limit_claim sha256 lower_case iso digest run.limit_run input db.login) h
    where
      settled_created :
          (fails : Bool) (before : BootstrapDb) (r : Result ClaimBootstrapResult × BootstrapDb)
          → (settle_claim sha256 lower_case iso digest fails before r).0 ≡ ok (created id)
          → (fails ≡ false)
            × (r.0 ≡ ok (created id))
            × ((settle_claim sha256 lower_case iso digest fails before r).1 ≡ r.1)
      settled_created true before r k = absurd (cc)
      settled_created false before (ok x, after) k = (refl, k, refl)
      settled_created false before (thrown f, after) k = absurd (cc)

      go :
          (r : RateLimitDecision × LoginDb)
          → (claim_limited sha256 lower_case iso digest run input r.0 (record db { login = r.1 })).0
            ≡ ok (created id)
          → (r.0 ≡ allowed)
            × (run.fails ≡ false)
            × (id ≡ run.id)
            × Created run input
                (record db { login = r.1 })
                (claim_limited sha256 lower_case iso digest run input r.0
                  (record db { login = r.1 })).1
      go (limited retry_at, login) k = absurd (cc)
      go (allowed, login) k =
          let (took_effect, inner, same) =
            settled_created run.fails (record db { login = login }) _ k in
          let (is_id, made) =
            claim_locked-Created run input (record db { login = login }) id inner in
          (
            refl,
            took_effect,
            is_id,
            subst (Created run input (record db { login = login })) (sym same) made,
          )
