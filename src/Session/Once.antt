-- ===== src/Session/Once.antt =====
-- A refresh token of packages/db/src/session-security-adapter.ts rotates once.
use labpics_id.Prelude.{
  ℕ, ◌≡◌, ◌≢◌, refl, sym, ◌∙◌, ap, true, false, not, ◌||◌, Option, none, some, List, [], ◌∷◌,
  String, ◌==◌, eq_iff, is_null, Bool-cases, inl, inr, arith,
}
use labpics_id.Sql.{select, returning}
use labpics_id.Sql.Keyed.{row_of, IsUnique, update-IsUnique, select-keyed}
use labpics_id.Sql.Held.{update_hit, row_of_found}
use labpics_id.Domain.Result.{ok}
use labpics_id.Tables.{UserRow, SessionRow, RefreshRow}
use labpics_id.Session.{
  SessionDb, Drawn, Joined, joined, join_user, join_session, join_credential, rotate, rotate_joined,
  after_claim, issue, rotated, unspent, use_at, add_credential, credential_key, digest_key,
}
use labpics_id.Session.History.{Op, run}
use labpics_id.Session.Replay.{Used, Settled, add-Settled, run-Settled}

joined-credential :
    (digest : String) (db : SessionDb) (row : Joined)
    → joined digest db ≡ some row
    → row_of digest_key digest db.credentials ≡ some row.credential
unfolding joined
joined-credential digest db row h = go (row_of digest_key digest db.credentials) h
  where
    with_user :
        (c : RefreshRow) (s : SessionRow) (u : Option UserRow)
        → join_user c s u ≡ some row
        → c ≡ row.credential
    with_user c s none h = cc
    with_user c s (some u) h = cc

    with_session :
        (c : RefreshRow) (o : Option SessionRow)
        → join_session db c o ≡ some row
        → c ≡ row.credential
    with_session c none h = cc
    with_session c (some s) h = with_user c s _ h

    go : (o : Option RefreshRow) → join_credential db o ≡ some row → o ≡ some row.credential
    go none h = cc
    go (some c) h = ap (λ x. some x) (with_session c _ h)

unspent-id : (id : String) (now : ℕ) (r : RefreshRow) → unspent id now r ≡ true → r.id ≡ id
unfolding unspent
unspent-id id now r h = ground (arith, eq_iff r.id id)

-- Where the ids are unique, the claim of a credential that it does not fit claims nothing.
claim_none :
    (d : String) (c : RefreshRow) (now : ℕ) (rows : List RefreshRow)
    → IsUnique credential_key rows
    → row_of digest_key d rows ≡ some c
    → unspent c.id now c ≡ false
    → returning (unspent c.id now) (use_at now) rows ≡ []
unfolding returning row_of
claim_none d c now rows unique here miss =
    let at_id = row_of_found credential_key (λ r. digest_key r == d) rows c unique here in
    let picked =
      select-keyed credential_key (unspent c.id now) c.id rows unique (unspent-id c.id now) in
    let empty : select (unspent c.id now) rows ≡ [] = picked ∙ rw (at_id, miss) refl in
    rw empty refl

Used-unspent : (c : RefreshRow) (now : ℕ) → Used c → unspent c.id now c ≡ false
unfolding unspent
Used-unspent c now used = rw used (ground arith)

module _ (sha256 : String → String) where
  used-rotate :
      (d : String) (drawn : Drawn) (token next : String) (now : ℕ) (db : SessionDb)
      → sha256 token ≡ d
      → Settled d db.credentials
      → (rotate sha256 drawn token now db).0 ≢ ok (rotated next)
  unfolding rotate
  used-rotate d drawn token next now db named (unique, (c, here, used)) h =
      outer (joined (sha256 token) db) refl h
    where
      outer :
          (o : Option Joined)
          → joined (sha256 token) db ≡ o
          → (rotate_joined sha256 drawn now db o).0 ≢ ok (rotated next)
      outer none found e = cc
      outer (some row) found e =
          let credential = joined-credential (sha256 token) db row found in
          let same : c ≡ row.credential =
            let at_d : row_of digest_key d db.credentials ≡ some row.credential =
              ap (λ i. row_of digest_key i db.credentials) (sym named) ∙ credential in
            cc in
          let miss =
            Used-unspent row.credential now (ap (λ r. is_null r.used_at) (sym same) ∙ used) in
          let nothing =
            claim_none (sha256 token) row.credential now db.credentials unique credential miss in
          elim (Bool-cases
            (not (is_null row.session.revoked_at) || not (is_null row.user.deactivated_at))) [
              | inl t ↦ let e' = rw t at e in cc
              | inr t ↦ let e' = rw (t, nothing) at e in cc
            ]

  rotated-Settled :
      (drawn : Drawn) (token next : String) (now : ℕ) (db db' : SessionDb)
      → IsUnique credential_key db.credentials
      → rotate sha256 drawn token now db ≡ (ok (rotated next), db')
      → Settled (sha256 token) db'.credentials
  unfolding rotate
  rotated-Settled drawn token next now db db' unique h = outer (joined (sha256 token) db) refl h
    where
      issued :
          (c : RefreshRow) (rows : List RefreshRow) (o : Option (List RefreshRow))
          → Settled (sha256 token) rows
          → add_credential c rows ≡ o
          → issue sha256 drawn db o ≡ (ok (rotated next), db')
          → Settled (sha256 token) db'.credentials
      issued c rows none s a e = absurd (cc)
      issued c rows (some rows') s a e =
          let same : rows' ≡ db'.credentials = cc in
          rw (sym same) (add-Settled (sha256 token) c rows rows' a s)

      claimed :
          (c : RefreshRow) (hits : List RefreshRow)
          → row_of digest_key (sha256 token) db.credentials ≡ some c
          → returning (unspent c.id now) (use_at now) db.credentials ≡ hits
          → after_claim sha256 drawn now c db hits ≡ (ok (rotated next), db')
          → Settled (sha256 token) db'.credentials
      claimed c [] here hit e = absurd (cc)
      claimed c (x ∷ xs) here hit e = elim (Bool-cases (unspent c.id now c)) [
        | inr miss ↦
            absurd
              (let nothing = claim_none (sha256 token) c now db.credentials unique here miss in cc)
        | inl fits ↦
            issued _ _ _
              (
                update-IsUnique credential_key (unspent c.id now) (use_at now) (λ r. refl)
                    db.credentials unique,
                (
                  use_at now c,
                  update_hit digest_key (unspent c.id now) (use_at now) (sha256 token)
                      db.credentials c (λ r. refl) here fits,
                  refl,
                ),
              )
              refl e
      ]

      outer :
          (o : Option Joined)
          → joined (sha256 token) db ≡ o
          → rotate_joined sha256 drawn now db o ≡ (ok (rotated next), db')
          → Settled (sha256 token) db'.credentials
      outer none found e = absurd (cc)
      outer (some row) found e =
          elim (Bool-cases
            (not (is_null row.session.revoked_at) || not (is_null row.user.deactivated_at))) [
              | inl t ↦ absurd (let e' = rw t at e in cc)
              | inr t ↦
                  claimed row.credential _ (joined-credential (sha256 token) db row found) refl
                    (rw t at e)
            ]

  module _ (iso : ℕ → String) where
    -- A refresh token that has been rotated is never rotated again, whatever calls come between,
    -- where the ids of the credentials were unique at first.
    pub rotates_once :
        (drawn again : Drawn) (token next other : String) (now later : ℕ) (db db' : SessionDb)
        (ops : List Op)
        → IsUnique credential_key db.credentials
        → rotate sha256 drawn token now db ≡ (ok (rotated next), db')
        → (rotate sha256 again token later (run sha256 iso ops db')).0 ≢ ok (rotated other)
    rotates_once drawn again token next other now later db db' ops unique h =
        used-rotate (sha256 token) again token other later (run sha256 iso ops db') refl (
          run-Settled sha256 iso (sha256 token) ops db'
            (rotated-Settled drawn token next now db db' unique h))
