-- ===== src/UseCases/Reset/Renews.antt =====
-- What an accepted resetPassword leaves: the new password, no session, and no token.
use mathlib.Core.Path.{subst}
use labpics_id.Prelude.{
  Bool-cases, Option-cases, All, All-mono, ℕ, ◌≤◌, String, ◌≡◌, refl, sym, ap, ◌∙◌, inl, inr, Bool,
  true, ◌&&◌, Option, none, some, List, arith, ◌==◌, eq_refl,
}
use labpics_id.Sql.{find}
use labpics_id.Sql.Rows.{find-same, find_passes, find-update, find-insert}
use labpics_id.Domain.Result.{ok}
use labpics_id.Domain.Ports.{TokenPurpose, password_reset_consume}
use labpics_id.Tables.{AccountRow}
use labpics_id.Login.{record_audit, enqueue}
use labpics_id.Identity.{verified, consume_token, credential_of, store_password, verify_password}
use labpics_id.Identity.Tokens.{consume_token_once}
use labpics_id.UseCases.{Ports, IdentityDb, Run, record_mutation, present_token}
use labpics_id.UseCases.Steps.{limited_db, bind-ok, in_transaction-ok, limit-accepted}
use labpics_id.UseCases.Deactivate.Ends.{SignedOut, revoke_subject_sessions-SignedOut}
use labpics_id.UseCases.Reset.{reset_owner, reset_password_with}
use labpics_id.Domain.Contract.{ResetPasswordCommand, accepted}

-- Credential rows name their account twice, as accountId and as userId.
unfoldable pub Named : List AccountRow → Type 0
Named accounts =
    All (λ (a : AccountRow). (a.provider_id == "credential") ≡ true → a.account_id ≡ a.user_id)
      accounts

module _ (hash : String → String) (verify : String → String → Bool) where
  abbrev owner_of : String → AccountRow → Bool
  owner_of subject_id a = a.user_id == subject_id && a.provider_id == "credential"

  same_credential :
      (subject_id : String) (a : AccountRow)
      → ((a.provider_id == "credential") ≡ true → a.account_id ≡ a.user_id)
      → owner_of subject_id a ≡ credential_of hash verify subject_id a
  same_credential subject_id a named = elim (Bool-cases (a.provider_id == "credential")) [
    | inl e ↦ rw (e, named e) (ground arith)
    | inr e ↦ rw e (ground arith)
  ]

  -- A password that was stored is the one that verifies.
  pub verify_password-store_password :
      (id : String) (now : ℕ) (subject_id text : String) (rows : List AccountRow)
      → verify text (hash text) ≡ true
      → Named rows
      → verify_password hash verify subject_id text
          (store_password hash verify id now subject_id text rows)
        ≡ true
  unfolding verify_password store_password Named
  verify_password-store_password id now subject_id text rows right named =
      let same = find-same (owner_of subject_id) (credential_of hash verify subject_id) rows (
        All-mono _
          (λ (a : AccountRow). owner_of subject_id a ≡ credential_of hash verify subject_id a) rows
          (same_credential subject_id) named) in
      elim (Option-cases (find (credential_of hash verify subject_id) rows)) [
        | inl e ↦ rw e (
            ap (verified hash verify text) (find-insert (owner_of subject_id) _ rows)
            ∙ rw (same, e, eq_refl subject_id) right)
        | inr (a, e) ↦ rw e (
            ap (verified hash verify text) (
              find-update (owner_of subject_id) (credential_of hash verify subject_id) _ rows
                (λ r. refl))
            ∙ rw (same, e, find_passes (credential_of hash verify subject_id) rows a e) right)
      ]

-- The account that the token names, its sessions revoked, its new password, and the token gone.
unfoldable pub Renewed :
    Ports
    → Run
    → ResetPasswordCommand
    → (again : TokenPurpose) (later : ℕ) → IdentityDb
    → IdentityDb
    → Type 0
Renewed ports run command again later db after =
    (owner : String) × ((consume_token TokenPurpose.password_reset
        (ports.digest_token command.token) run.now db.tokens).0
      ≡ ok (some owner))
    × SignedOut owner after.sessions
    × (verify_password ports.hash ports.verify owner command.new_password after.accounts ≡ true)
    × ((consume_token again (ports.digest_token command.token) later after.tokens).0 ≡ ok none)

reset_owner-Renewed :
    (ports : Ports) (run : Run) (command : ResetPasswordCommand) (again : TokenPurpose) (later : ℕ)
    (db : IdentityDb) (owner : Option String)
    → run.now ≤ later
    → ports.verify command.new_password (ports.hash command.new_password) ≡ true
    → Named db.accounts
    → (consume_token TokenPurpose.password_reset
        (ports.digest_token command.token)
        run.now
        db.tokens).0
      ≡ ok owner
    → let presented = record db {
      tokens =
          (consume_token TokenPurpose.password_reset
            (ports.digest_token command.token)
            run.now
            db.tokens).1;
    } in
      (reset_owner ports run command owner presented).0 ≡ ok (accepted tt)
      → Renewed ports run command again later db (reset_owner ports run command owner presented).1
unfolding Renewed record_mutation record_audit enqueue
reset_owner-Renewed ports run command again later db none le right named read h = absurd (cc)
reset_owner-Renewed ports run command again later db (some owner) le right named read h = (
  owner,
  read,
  revoke_subject_sessions-SignedOut owner run.written_at db.sessions,
  verify_password-store_password ports.hash ports.verify run.account_id run.written_at owner
      command.new_password db.accounts right named,
  consume_token_once TokenPurpose.password_reset again (ports.digest_token command.token) run.now
      later db.tokens le,
)

-- An accepted resetPassword changes the password of the account that its token was stored for: the new
-- password verifies, where Bun.password verifies what it has hashed and the credentials name
-- one account each; every session of the account is revoked; and the token names no account again,
-- for any purpose and at no earlier time.
pub reset_password_with-Renewed :
    (ports : Ports) (run : Run) (command : ResetPasswordCommand) (again : TokenPurpose) (later : ℕ)
    (db : IdentityDb)
    → run.now ≤ later
    → ports.verify command.new_password (ports.hash command.new_password) ≡ true
    → Named db.accounts
    → (reset_password_with ports run command db).0 ≡ ok (accepted tt)
    → Renewed ports run command again later db (reset_password_with ports run command db).1
unfolding reset_password_with present_token Renewed
reset_password_with-Renewed ports run command again later db le right named h =
    let (l, worked, after) =
      limit-accepted ports run password_reset_consume command.token _ db tt h in
    let (inside, kept) = in_transaction-ok run.fails _ (limited_db db l) (accepted tt) worked in
    let (owner, read, reset, same) =
      bind-ok (present_token ports run TokenPurpose.password_reset command.token)
        (reset_owner ports run command) (limited_db db l) (accepted tt) inside in
    subst (Renewed ports run command again later db) (sym (after ∙ kept ∙ same)) (
      reset_owner-Renewed ports run command again later (limited_db db l) owner le right named read
        reset)
