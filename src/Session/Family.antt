-- ===== src/Session/Family.antt =====
-- What a second use of a refresh token does to its family (packages/db/src/session-security-adapter.ts).
use Prim.Native.String.{◌++◌ as append}
use labpics_id.Prelude.{
  ℕ, ◌≡◌, refl, sym, ◌∙◌, Bool, true, false, not, ◌||◌, Option, none, some, List, [], ◌∷◌, String,
  ◌==◌, eq_refl, is_null, All, Bool-cases, inl, inr,
}
use labpics_id.Sql.{update, insert, select}
use labpics_id.Sql.Keyed.{row_of, row_of-key, row_of-update, change}
use labpics_id.Domain.Result.{ok}
use labpics_id.Tables.{SessionRow, RefreshRow, object}
use labpics_id.Session.{
  SessionDb, Drawn, Joined, joined, rotate, rotate_joined, after_claim, issue, replay,
  revoke_family, revoke_each, replay_audit, unspent, use_at, session_key,
}

-- The session with this id is revoked, if there is one.
abbrev Over : String → List SessionRow → Type 0
Over k rows = (s : SessionRow) → row_of session_key k rows ≡ some s → is_null s.revoked_at ≡ false

abbrev revoking : ℕ → SessionRow → SessionRow
revoking now s = record s { revoked_at = some now }

revoke-Over :
    (k : String) (p : SessionRow → Bool) (now : ℕ) (rows : List SessionRow)
    → Over k rows
    → Over k (update p (revoking now) rows)
revoke-Over k p now rows over s h =
    go (row_of session_key k rows) refl
      (sym (row_of-update session_key p (revoking now) (λ s. refl) k rows) ∙ h)
  where
    go :
        (o : Option SessionRow)
        → row_of session_key k rows ≡ o
        → change p (revoking now) o ≡ some s
        → is_null s.revoked_at ≡ false
    go none here e = cc
    go (some r) here e =
        let old = over r here in
        elim (Bool-cases (p r)) [
          | inl t ↦ let e' = rw t at e in cc
          | inr t ↦ let e' = rw t at e in cc
        ]

revoke-Over_named :
    (k : String) (now : ℕ) (rows : List SessionRow)
    → Over k (update (λ s. s.id == k) (revoking now) rows)
revoke-Over_named k now rows s h =
    go (row_of session_key k rows) refl
      (sym (row_of-update session_key (λ s. s.id == k) (revoking now) (λ s. refl) k rows) ∙ h)
  where
    go :
        (o : Option SessionRow)
        → row_of session_key k rows ≡ o
        → change (λ s. s.id == k) (revoking now) o ≡ some s
        → is_null s.revoked_at ≡ false
    go none here e = cc
    go (some r) here e = let e' = rw (row_of-key session_key k rows r here, eq_refl k) at e in cc

revoke_each-Over :
    (k : String) (now : ℕ) (cs : List RefreshRow) (rows : List SessionRow)
    → Over k rows
    → Over k (revoke_each now cs rows)
unfolding revoke_each
revoke_each-Over k now [] rows over = over
revoke_each-Over k now (c ∷ cs) rows over =
    revoke_each-Over k now cs _ (revoke-Over k (λ s. s.id == c.session_id) now rows over)

revoke_each-All :
    (now : ℕ) (cs : List RefreshRow) (rows : List SessionRow)
    → All (λ c. Over c.session_id (revoke_each now cs rows)) cs
unfolding revoke_each
revoke_each-All now [] rows = tt
revoke_each-All now (c ∷ cs) rows = (
  revoke_each-Over c.session_id now cs _ (revoke-Over_named c.session_id now rows),
  revoke_each-All now cs _,
)

-- What holds of the selected rows holds of each row that passes the test.
select-All {ℓ} :
    {R : Type ℓ} (p : R → Bool) (P : R → Type 0) (rows : List R)
    → All P (select p rows)
    → All (λ r. p r ≡ true → P r) rows
unfolding select
select-All p P [] h = tt
select-All p P (x ∷ rows) h = elim (Bool-cases (p x)) [
  | inl e ↦ let h' = rw e at h in ((λ _. h'.0), select-All p P rows h'.1)
  | inr e ↦ let h' = rw e at h in ((λ t. absurd (cc)), select-All p P rows h')
]

-- A replay leaves every session of the family revoked, and one audit event and one outbox
-- message more than before.
pub record RevokesFamily (family : String) (now : ℕ) (hash : String) (db db' : SessionDb)
    : Type 0 where
  pub over :
      All (λ c. (c.family_id == family) ≡ true → Over c.session_id db'.sessions) db'.credentials
  pub audited : db'.audits ≡ insert (replay_audit family now hash) db.audits
  pub announced :
      db'.outbox
      ≡ insert
          (record {
            type = append "identity.refresh_replay." family;
            payload = object (("familyId", family) ∷ []);
          })
          db.outbox
  pub same_users : db'.users ≡ db.users

revoke_family-Revokes :
    (family : String) (now : ℕ) (hash : String) (db : SessionDb) (rows : List RefreshRow)
    → RevokesFamily family now hash db
        (revoke_family family now hash (record db { credentials = rows }))
unfolding revoke_family
revoke_family-Revokes family now hash db rows = record {
  over =
      select-All (λ c. c.family_id == family) _ rows
        (revoke_each-All now (select (λ c. c.family_id == family) rows) db.sessions);
  audited = refl;
  announced = refl;
  same_users = refl;
}

module _ (sha256 : String → String) where
  -- A refresh token that is answered as a replay has cost its family everything: every session of
  -- a credential of the family is revoked, and the replay is audited and announced once.
  pub rotate-RevokesFamily :
      (drawn : Drawn) (token family : String) (now : ℕ) (db db' : SessionDb)
      → rotate sha256 drawn token now db ≡ (ok (replay family), db')
      → RevokesFamily family now drawn.hash db db'
  unfolding rotate
  rotate-RevokesFamily drawn token family now db db' h = outer (joined (sha256 token) db) h
    where
      issued :
          (o : Option (List RefreshRow))
          → issue sha256 drawn db o ≡ (ok (replay family), db')
          → RevokesFamily family now drawn.hash db db'
      issued none e = absurd (cc)
      issued (some rows') e = absurd (cc)

      claimed :
          (c : RefreshRow) (hits : List RefreshRow)
          → after_claim sha256 drawn now c db hits ≡ (ok (replay family), db')
          → RevokesFamily family now drawn.hash db db'
      claimed c [] e =
          let family' : c.family_id ≡ family = cc in
          let after : revoke_family c.family_id now drawn.hash
                (record db { credentials = update (unspent c.id now) (use_at now) db.credentials })
              ≡ db' =
            cc in
          rw (sym after, sym family')
            (revoke_family-Revokes c.family_id now drawn.hash db
              (update (unspent c.id now) (use_at now) db.credentials))
      claimed c (x ∷ xs) e = issued _ e

      outer :
          (o : Option Joined)
          → rotate_joined sha256 drawn now db o ≡ (ok (replay family), db')
          → RevokesFamily family now drawn.hash db db'
      outer none e = absurd (cc)
      outer (some row) e =
          elim (Bool-cases
            (not (is_null row.session.revoked_at) || not (is_null row.user.deactivated_at))) [
              | inl t ↦ absurd (let e' = rw t at e in cc)
              | inr t ↦ claimed row.credential _ (rw t at e)
            ]
