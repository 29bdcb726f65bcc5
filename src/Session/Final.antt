-- ===== src/Session/Final.antt =====
-- Sessions that packages/db/src/session-security-adapter.ts has ended, and how long one can live.
use labpics_id.Prelude.{
  ℕ, ◌+◌, ◌≤◌, ◌≡◌, ◌≢◌, refl, sym, ◌∙◌, ap, Bool, true, false, Option, none, some, List, [], ◌∷◌,
  String, ◌==◌, eq_refl, is_null, leb, some_le, All, Option-cases, inl, inr, arith,
}
use labpics_id.Sql.{update}
use labpics_id.Sql.Keyed.{row_of, row_of-key}
use labpics_id.Sql.Held.{Held, update_hit}
use labpics_id.Domain.Result.{ok}
use labpics_id.Tables.{UserRow, SessionRow, RefreshRow}
use labpics_id.Session.{
  SessionDb, Drawn, Joined, joined, join_user, join_session, join_credential, resolve,
  resolve_joined, active, initialize_provider_session, revoke_one, logout_all, deactivate,
  record_event, session_key, digest_key, started,
}
use labpics_id.Session.History.{
  Op, op_rotate, op_initialize, op_touch, op_revoke, op_logout, op_deactivate, commit, run, Bounds,
  run-Held, bounded, revoked_row,
}

-- The session of a joined row is the one that its id names.
pub joined-session :
    (digest : String) (db : SessionDb) (row : Joined)
    → joined digest db ≡ some row
    → row_of session_key row.session.id db.sessions ≡ some row.session
unfolding joined
joined-session digest db row h = go (row_of digest_key digest db.credentials) h
  where
    with_user :
        (c : RefreshRow) (s : SessionRow) (u : Option UserRow)
        → join_user c s u ≡ some row
        → row.session ≡ s
    with_user c s none h = cc
    with_user c s (some u) h = cc

    with_session :
        (c : RefreshRow) (o : Option SessionRow)
        → row_of session_key c.session_id db.sessions ≡ o
        → join_session db c o ≡ some row
        → row_of session_key row.session.id db.sessions ≡ some row.session
    with_session c none found h = cc
    with_session c (some s) found h =
        let same = with_user c s _ h in
        let id : row.session.id ≡ c.session_id =
          ap session_key same ∙ row_of-key session_key c.session_id db.sessions s found in
        ap (λ i. row_of session_key i db.sessions) id ∙ found ∙ ap (λ x. some x) (sym same)

    go :
        (o : Option RefreshRow)
        → join_credential db o ≡ some row
        → row_of session_key row.session.id db.sessions ≡ some row.session
    go none h = cc
    go (some c) h = with_session c (row_of session_key c.session_id db.sessions) refl h

resolve_joined-active :
    (now : ℕ) (row : Joined) (k : String)
    → resolve_joined now (some row) ≡ active k
    → (row.session.id ≡ k)
      × (is_null row.session.revoked_at ≡ true)
      × (leb row.session.expires_at now ≡ false)
      × (some_le row.session.absolute_expires_at now ≡ false)
resolve_joined-active now row k h = ground arith

module _ (sha256 : String → String) where
  pub resolve-active :
      (token : String) (now : ℕ) (db : SessionDb) (k : String)
      → resolve sha256 token now db ≡ active k
      → (s : SessionRow) × (row_of session_key k db.sessions ≡ some s)
        × (is_null s.revoked_at ≡ true)
        × (leb s.expires_at now ≡ false)
        × (some_le s.absolute_expires_at now ≡ false)
  unfolding resolve
  resolve-active token now db k h = go (joined (sha256 token) db) refl h
    where
      go :
          (o : Option Joined)
          → joined (sha256 token) db ≡ o
          → resolve_joined now o ≡ active k
          → (s : SessionRow) × (row_of session_key k db.sessions ≡ some s)
            × (is_null s.revoked_at ≡ true)
            × (leb s.expires_at now ≡ false)
            × (some_le s.absolute_expires_at now ≡ false)
      go none found o = cc
      go (some row) found o =
          let here = joined-session (sha256 token) db row found in
          let (id, open_session, idle, absolute) = resolve_joined-active now row k o in
          (
            row.session,
            ap (λ i. row_of session_key i db.sessions) (sym id) ∙ here,
            open_session,
            idle,
            absolute,
          )

-- The calls that end the session `s`.
abbrev pub Ends : SessionRow → Op → Type 0
Ends s (op_revoke session now) = session ≡ s.id
Ends s (op_logout subject reason hash now) = subject ≡ s.user_id
Ends s (op_deactivate subject hash now) = subject ≡ s.user_id
Ends s _ = ⊥

abbrev Revoked : SessionRow → Type 0
Revoked s = is_null s.revoked_at ≡ false

Revoked-hit :
    (p : SessionRow → Bool) (now : ℕ) (s : SessionRow) (rows : List SessionRow)
    → row_of session_key s.id rows ≡ some s
    → p s ≡ true
    → Held session_key s.id Revoked (update p (revoked_row now) rows)
Revoked-hit p now s rows here e = (
  revoked_row now s,
  update_hit session_key p (revoked_row now) s.id rows s (λ r. refl) here e,
  refl,
)

module _ (sha256 : String → String) (iso : ℕ → String) where
  Ends-Revoked :
      (op : Op) (s : SessionRow) (db : SessionDb)
      → row_of session_key s.id db.sessions ≡ some s
      → Ends s op
      → Held session_key s.id Revoked (commit sha256 iso op db).sessions
  unfolding revoke_one logout_all deactivate record_event
  Ends-Revoked (op_rotate drawn token now) s db here e = absurd e
  Ends-Revoked (op_initialize drawn family session now) s db here e = absurd e
  Ends-Revoked (op_touch session now) s db here e = absurd e
  Ends-Revoked (op_revoke session now) s db here e =
      Revoked-hit (λ r. r.id == session) now s db.sessions here (rw e (eq_refl s.id))
  Ends-Revoked (op_logout subject reason hash now) s db here e =
      Revoked-hit (λ r. r.user_id == subject) now s db.sessions here (rw e (eq_refl s.user_id))
  Ends-Revoked (op_deactivate subject hash now) s db here e =
      Revoked-hit (λ r. r.user_id == subject) now s db.sessions here (rw e (eq_refl s.user_id))

  any-Bounds :
      (k : String) (ops : List Op)
      → All (Bounds sha256 iso k Revoked (λ now s q. refl) (λ now s q. q)) ops
  any-Bounds k [] = tt
  any-Bounds k (op_rotate drawn token now ∷ ops) = (tt, any-Bounds k ops)
  any-Bounds k (op_initialize drawn family session now ∷ ops) = ((λ e s q. q), any-Bounds k ops)
  any-Bounds k (op_touch session now ∷ ops) = (tt, any-Bounds k ops)
  any-Bounds k (op_revoke session now ∷ ops) = (tt, any-Bounds k ops)
  any-Bounds k (op_logout subject reason hash now ∷ ops) = (tt, any-Bounds k ops)
  any-Bounds k (op_deactivate subject hash now ∷ ops) = (tt, any-Bounds k ops)

  -- A session that a revocation, a logout of its user or the deactivation of its user has ended
  -- stays ended: after any further calls, at any time, no refresh token resolves to it.
  pub ended_for_good :
      (op : Op) (s : SessionRow) (db : SessionDb) (ops : List Op) (token : String) (now : ℕ)
      → row_of session_key s.id db.sessions ≡ some s
      → Ends s op
      → resolve sha256 token now (run sha256 iso ops (commit sha256 iso op db)) ≢ active s.id
  ended_for_good op s db ops token now here e h =
      let (r, held, revoked) =
        run-Held sha256 iso s.id Revoked (λ now s q. refl) (λ now s q. q) ops
          (commit sha256 iso op db) (any-Bounds s.id ops) (Ends-Revoked op s db here e) in
      let (r', held', open_session, idle, absolute) =
        resolve-active sha256 token now (run sha256 iso ops (commit sha256 iso op db)) s.id h in
      let same : r ≡ r' = cc in absurd (cc)

  -- The calls other than a new initialization of the session.
  abbrev pub Leaves : String → Op → Type 0
  Leaves k (op_initialize drawn family session now) = session ≢ k
  Leaves k _ = Unit

  abbrev Capped : ℕ → SessionRow → Type 0
  Capped limit s = s.absolute_expires_at ≡ some limit

  Leaves-Bounds :
      (k : String) (limit : ℕ) (ops : List Op)
      → All (Leaves k) ops
      → All (Bounds sha256 iso k (Capped limit) (λ now s q. q) (λ now s q. q)) ops
  Leaves-Bounds k limit [] l = tt
  Leaves-Bounds k limit (op_rotate drawn token now ∷ ops) l = (tt, Leaves-Bounds k limit ops l.1)
  Leaves-Bounds k limit (op_initialize drawn family session now ∷ ops) l =
      ((λ e s q. absurd (l.0 e)), Leaves-Bounds k limit ops l.1)
  Leaves-Bounds k limit (op_touch session now ∷ ops) l = (tt, Leaves-Bounds k limit ops l.1)
  Leaves-Bounds k limit (op_revoke session now ∷ ops) l = (tt, Leaves-Bounds k limit ops l.1)
  Leaves-Bounds k limit (op_logout subject reason hash now ∷ ops) l =
      (tt, Leaves-Bounds k limit ops l.1)
  Leaves-Bounds k limit (op_deactivate subject hash now ∷ ops) l =
      (tt, Leaves-Bounds k limit ops l.1)

  initialized-Capped :
      (drawn : Drawn) (family k : String) (start : ℕ) (db db' : SessionDb)
      → initialize_provider_session sha256 drawn family k start db ≡ (ok tt, db')
      → Held session_key k (Capped (start + 3600000)) db'.sessions
  unfolding initialize_provider_session
  initialized-Capped drawn family k start db db' h =
      elim (Option-cases (row_of session_key k db.sessions)) [
        | inl missing ↦ absurd (let h' = rw missing at h in cc)
        | inr found ↦ present found.0 found.1
      ]
    where
      sessions' : List SessionRow
      sessions' = update (λ s. s.id == k) (bounded start) db.sessions

      begun :
          (s : SessionRow) (credentials : Option (List RefreshRow))
          → row_of session_key k db.sessions ≡ some s
          → started db sessions' credentials ≡ (ok tt, db')
          → Held session_key k (Capped (start + 3600000)) db'.sessions
      begun s none found o = absurd (cc)
      begun s (some credentials) found o =
          let after : sessions' ≡ db'.sessions = cc in
          (
            bounded start s,
            ap (row_of session_key k) (sym after)
                ∙ update_hit session_key (λ s. s.id == k) (bounded start) k db.sessions s
                    (λ r. refl) found
                    (rw (row_of-key session_key k db.sessions s found) (eq_refl k)),
            refl,
          )

      present :
          (s : SessionRow)
          → row_of session_key k db.sessions ≡ some s
          → Held session_key k (Capped (start + 3600000)) db'.sessions
      present s found = begun s _ found (rw found at h)

  -- A session is over one hour after it was initialized, however often it is touched and its token
  -- is rotated since, as long as it is not initialized again.
  pub ends_within_an_hour :
      (drawn : Drawn) (family k : String) (start : ℕ) (db db' : SessionDb) (ops : List Op)
      (token : String) (now : ℕ)
      → initialize_provider_session sha256 drawn family k start db ≡ (ok tt, db')
      → All (Leaves k) ops
      → start + 3600000 ≤ now
      → resolve sha256 token now (run sha256 iso ops db') ≢ active k
  ends_within_an_hour drawn family k start db db' ops token now begun l late h =
      let (r, held, capped) =
        run-Held sha256 iso k (Capped (start + 3600000)) (λ now s q. q) (λ now s q. q) ops db'
          (Leaves-Bounds k (start + 3600000) ops l)
          (initialized-Capped drawn family k start db db' begun) in
      let (r', held', open_session, idle, absolute) =
        resolve-active sha256 token now (run sha256 iso ops db') k h in
      let same : some r ≡ some r' = sym held ∙ held' in
      let absolute' : some_le (some (start + 3600000)) now ≡ false = cc in absurd (ground arith)
