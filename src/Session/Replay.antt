-- ===== src/Session/Replay.antt =====
-- Refresh tokens of packages/db/src/session-security-adapter.ts: a token rotates once, and what a
-- second use of it does to its family.
use labpics_id.Prelude.{
  ℕ, ◌≡◌, refl, sym, false, not, ◌||◌, Option, none, some, List, [], ◌∷◌, String, is_null,
  Bool-cases, Option-cases, inl, inr,
}
use labpics_id.Sql.{update, insert}
use labpics_id.Sql.Keyed.{row_of, IsUnique, update-IsUnique, insert-IsUnique}
use labpics_id.Sql.Held.{Held, update-Held, insert-Held}
use labpics_id.Tables.{SessionRow, RefreshRow}
use labpics_id.Session.{
  SessionDb, Drawn, Joined, joined, rotate, rotate_joined, after_claim, issue, revoke_family,
  unspent, use_at, add_credential, initialize_provider_session, started, touch, revoke_one,
  logout_all, deactivate, record_event, credential_key, digest_key, session_key,
}
use labpics_id.Session.History.{
  Op, op_rotate, op_initialize, op_touch, op_revoke, op_logout, op_deactivate, run,
}

abbrev pub Used : RefreshRow → Type 0
Used c = is_null c.used_at ≡ false

-- The table's ids are unique and the digest's credential is used.
abbrev pub Settled : String → List RefreshRow → Type 0
Settled d rows = IsUnique credential_key rows × Held digest_key d Used rows

claim-Settled :
    (d id : String) (now : ℕ) (rows : List RefreshRow)
    → Settled d rows
    → Settled d (update (unspent id now) (use_at now) rows)
claim-Settled d id now rows (unique, held) = (
  update-IsUnique credential_key _ _ (λ c. refl) rows unique,
  update-Held digest_key d Used _ _ rows (λ c. refl) (λ c _ _ _. refl) held,
)

pub add-Settled :
    (d : String) (c : RefreshRow) (rows rows' : List RefreshRow)
    → add_credential c rows ≡ some rows'
    → Settled d rows
    → Settled d rows'
unfolding add_credential
add-Settled d c rows rows' h (unique, held) =
    elim (Option-cases (row_of credential_key c.id rows)) [
      | inr taken ↦ absurd (let h' = rw taken.1 at h in cc)
      | inl free ↦ elim (Bool-cases (is_null (row_of digest_key c.digest rows))) [
        | inr taken ↦ absurd (let h' = rw (free, taken) at h in cc)
        | inl new ↦
            let same : insert c rows ≡ rows' = let h' = rw (free, new) at h in cc in
            rw (sym same) (
              insert-IsUnique credential_key c rows free unique,
              insert-Held digest_key d Used c rows held,
            )
      ]
    ]

module _ (sha256 : String → String) (iso : ℕ → String) where
  rotate-Settled :
      (d : String) (drawn : Drawn) (token : String) (now : ℕ) (db : SessionDb)
      → Settled d db.credentials
      → Settled d (rotate sha256 drawn token now db).1.credentials
  unfolding rotate revoke_family
  rotate-Settled d drawn token now db h = outer (joined (sha256 token) db)
    where
      issued :
          (c : RefreshRow) (rows : List RefreshRow) (o : Option (List RefreshRow))
          → Settled d rows
          → add_credential c rows ≡ o
          → Settled d (issue sha256 drawn db o).1.credentials
      issued c rows none s e = h
      issued c rows (some rows') s e = add-Settled d c rows rows' e s

      claimed :
          (c : RefreshRow) (hits : List RefreshRow)
          → Settled d (after_claim sha256 drawn now c db hits).1.credentials
      claimed c [] = claim-Settled d c.id now db.credentials h
      claimed c (x ∷ xs) = issued _ _ _ (claim-Settled d c.id now db.credentials h) refl

      outer :
          (row : Option Joined) → Settled d (rotate_joined sha256 drawn now db row).1.credentials
      outer none = h
      outer (some row) =
          elim (Bool-cases
            (not (is_null row.session.revoked_at) || not (is_null row.user.deactivated_at))) [
              | inl e ↦ rw e h
              | inr e ↦ rw e (claimed row.credential _)
            ]

  initialize-Settled :
      (d : String) (drawn : Drawn) (family session : String) (now : ℕ) (db : SessionDb)
      → Settled d db.credentials
      → Settled d (initialize_provider_session sha256 drawn family session now db).1.credentials
  unfolding initialize_provider_session
  initialize-Settled d drawn family session now db h =
      elim (Bool-cases (is_null (row_of session_key session db.sessions))) [
        | inl e ↦ rw e h
        | inr e ↦ rw e (begun _ _ _ refl)
      ]
    where
      begun :
          (sessions : List SessionRow) (c : RefreshRow) (o : Option (List RefreshRow))
          → add_credential c db.credentials ≡ o
          → Settled d (started db sessions o).1.credentials
      begun sessions c none e = h
      begun sessions c (some rows') e = add-Settled d c db.credentials rows' e h

  pub run-Settled :
      (d : String) (ops : List Op) (db : SessionDb)
      → Settled d db.credentials
      → Settled d (run sha256 iso ops db).credentials
  unfolding run touch revoke_one logout_all deactivate record_event
  run-Settled d [] db h = h
  run-Settled d (op_rotate drawn token now ∷ ops) db h =
      run-Settled d ops _ (rotate-Settled d drawn token now db h)
  run-Settled d (op_initialize drawn family session now ∷ ops) db h =
      run-Settled d ops _ (initialize-Settled d drawn family session now db h)
  run-Settled d (op_touch session now ∷ ops) db h = run-Settled d ops _ h
  run-Settled d (op_revoke session now ∷ ops) db h = run-Settled d ops _ h
  run-Settled d (op_logout subject reason hash now ∷ ops) db h = run-Settled d ops _ h
  run-Settled d (op_deactivate subject hash now ∷ ops) db h = run-Settled d ops _ h
