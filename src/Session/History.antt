-- ===== src/Session/History.antt =====
-- Sequences of the calls of packages/db/src/session-security-adapter.ts that write, and what they
-- keep of a session and of a refresh credential.
use labpics_id.Prelude.{
  ℕ, ◌+◌, ◌≡◌, refl, sym, ◌∙◌, not, ◌||◌, Option, none, some, List, [], ◌∷◌, String, ◌==◌, eq_iff,
  is_null, All, Bool-cases, inl, inr,
}
use labpics_id.Sql.{update}
use labpics_id.Sql.Keyed.{row_of}
use labpics_id.Sql.Held.{Held, update-Held}
use labpics_id.Tables.{SessionRow, RefreshRow}
use labpics_id.Session.{
  started, SessionDb, Drawn, Joined, joined, rotate, rotate_joined, after_claim, issue,
  revoke_family, revoke_each, initialize_provider_session, touch, revoke_one, logout_all,
  deactivate, record_event, session_key, idle_ttl_ms, absolute_ttl_ms,
}

pub data Op : Type 0 where
  op_rotate : Drawn → (refresh_token : String) (now : ℕ) → Op
  op_initialize : Drawn → (family_id session_id : String) (now : ℕ) → Op
  op_touch : (session_id : String) (now : ℕ) → Op
  op_revoke : (session_id : String) (now : ℕ) → Op
  op_logout : (subject_id reason hash : String) (now : ℕ) → Op
  op_deactivate : (subject_id hash : String) (now : ℕ) → Op

abbrev pub touched : ℕ → SessionRow → SessionRow
touched now s = record s { last_active_at = some now; expires_at = now + idle_ttl_ms }

abbrev pub revoked_row : ℕ → SessionRow → SessionRow
revoked_row now s = record s { revoked_at = some now }

abbrev pub bounded : ℕ → SessionRow → SessionRow
bounded now s = record s {
  last_active_at = some now;
  expires_at = now + idle_ttl_ms;
  absolute_expires_at = some (now + absolute_ttl_ms);
}

module _ (sha256 : String → String) (iso : ℕ → String) where
  abbrev pub commit : Op → SessionDb → SessionDb
  commit (op_rotate drawn token now) db = (rotate sha256 drawn token now db).1
  commit (op_initialize drawn family session now) db =
      (initialize_provider_session sha256 drawn family session now db).1
  commit (op_touch session now) db = touch session now db
  commit (op_revoke session now) db = revoke_one session now db
  commit (op_logout subject reason hash now) db = logout_all iso subject reason hash now db
  commit (op_deactivate subject hash now) db = deactivate iso subject hash now db

  unfoldable pub run : List Op → SessionDb → SessionDb
  run [] db = db
  run (op ∷ ops) db = run ops (commit op db)

  -- A property of one session that revoking and touching keep, and that the initialization of
  -- that session keeps where it occurs.
  module _ (k : String) (Q : SessionRow → Type 0)
      (revoking : (now : ℕ) (s : SessionRow) → Q s → Q (revoked_row now s))
      (touching : (now : ℕ) (s : SessionRow) → Q s → Q (touched now s)) where
    abbrev pub Bounds : Op → Type 0
    Bounds (op_initialize drawn family session now) =
        session ≡ k → (s : SessionRow) → Q s → Q (bounded now s)
    Bounds _ = Unit

    abbrev HoldsSession : List SessionRow → Type 0
    HoldsSession = Held session_key k Q

    revoke_each-Held :
        (now : ℕ) (cs : List RefreshRow) (rows : List SessionRow)
        → HoldsSession rows
        → HoldsSession (revoke_each now cs rows)
    unfolding revoke_each
    revoke_each-Held now [] rows h = h
    revoke_each-Held now (c ∷ cs) rows h =
        revoke_each-Held now cs _
          (update-Held session_key k Q _ _ rows (λ s. refl) (λ s _ _. revoking now s) h)

    rotate-Held :
        (drawn : Drawn) (token : String) (now : ℕ) (db : SessionDb)
        → HoldsSession db.sessions
        → HoldsSession (rotate sha256 drawn token now db).1.sessions
    unfolding rotate revoke_family
    rotate-Held drawn token now db h = outer (joined (sha256 token) db)
      where
        issued :
            (credentials : Option (List RefreshRow))
            → HoldsSession (issue sha256 drawn db credentials).1.sessions
        issued none = h
        issued (some credentials) = h

        claimed :
            (c : RefreshRow) (rows : List RefreshRow)
            → HoldsSession (after_claim sha256 drawn now c db rows).1.sessions
        claimed c [] = revoke_each-Held now _ db.sessions h
        claimed c (x ∷ xs) = issued _

        outer :
            (row : Option Joined) → HoldsSession (rotate_joined sha256 drawn now db row).1.sessions
        outer none = h
        outer (some row) =
            elim (Bool-cases
              (not (is_null row.session.revoked_at) || not (is_null row.user.deactivated_at))) [
                | inl e ↦ rw e h
                | inr e ↦ rw e (claimed row.credential _)
              ]

    initialize-Held :
        (drawn : Drawn) (family session : String) (now : ℕ) (db : SessionDb)
        → (session ≡ k → (s : SessionRow) → Q s → Q (bounded now s))
        → HoldsSession db.sessions
        → HoldsSession (initialize_provider_session sha256 drawn family session now db).1.sessions
    unfolding initialize_provider_session
    initialize-Held drawn family session now db bounding h =
        elim (Bool-cases (is_null (row_of session_key session db.sessions))) [
          | inl e ↦ rw e h
          | inr e ↦ rw e (begun _)
        ]
      where
        begun :
            (credentials : Option (List RefreshRow))
            → HoldsSession
                (started db
                  (update (λ s. s.id == session) (bounded now) db.sessions)
                  credentials).1.sessions
        begun none = h
        begun (some credentials) =
            update-Held session_key k Q (λ s. s.id == session) (bounded now) db.sessions (λ s. refl)
              (λ s here e q. bounding (sym ((eq_iff s.id session).0 e) ∙ here) s q) h

    pub run-Held :
        (ops : List Op) (db : SessionDb)
        → All Bounds ops
        → HoldsSession db.sessions
        → HoldsSession (run ops db).sessions
    unfolding run touch revoke_one logout_all deactivate record_event
    run-Held [] db b h = h
    run-Held (op_rotate drawn token now ∷ ops) db (b, bs) h =
        run-Held ops _ bs (rotate-Held drawn token now db h)
    run-Held (op_initialize drawn family session now ∷ ops) db (b, bs) h =
        run-Held ops _ bs (initialize-Held drawn family session now db b h)
    run-Held (op_touch session now ∷ ops) db (b, bs) h =
        run-Held ops _ bs
          (update-Held session_key k Q _ _ db.sessions (λ s. refl) (λ s _ _. touching now s) h)
    run-Held (op_revoke session now ∷ ops) db (b, bs) h =
        run-Held ops _ bs
          (update-Held session_key k Q _ _ db.sessions (λ s. refl) (λ s _ _. revoking now s) h)
    run-Held (op_logout subject reason hash now ∷ ops) db (b, bs) h =
        run-Held ops _ bs
          (update-Held session_key k Q _ _ db.sessions (λ s. refl) (λ s _ _. revoking now s) h)
    run-Held (op_deactivate subject hash now ∷ ops) db (b, bs) h =
        run-Held ops _ bs
          (update-Held session_key k Q _ _ db.sessions (λ s. refl) (λ s _ _. revoking now s) h)
