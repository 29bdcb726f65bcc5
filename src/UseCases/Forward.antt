-- ===== src/UseCases/Forward.antt =====
-- Steps of a use case of packages/domain/src/identity/use-cases.ts that go through.
use labpics_id.Prelude.{String, ◌≡◌, refl, sym, ap, ◌∙◌, true, false, none}
use labpics_id.Domain.Result.{Result, Exec, ok, thrown}
use labpics_id.Domain.Ids.{user_id, branded_ok}
use labpics_id.Domain.Ports.{IdentityAction, RateLimitDecision, allowed, limited}
use labpics_id.Tables.{UserRow}
use labpics_id.RateLimit
use labpics_id.RateLimit.{
  window_ms, lock_ms, source_budget, account_budget, at, locked_at, resets, recovers, next_row,
  upsert, consume_dimension, LimitDb, or_else, account_digest, source_digest, report, conclude,
  consume,
}
use labpics_id.Login.{state_of, consume_limit, view_of, subject_view}
use labpics_id.UseCases.{Ports, IdentityDb, Run, settle_case, in_transaction, limit_with, limit}
use labpics_id.UseCases.Steps.{limited_db}
use labpics_id.Domain.Email
use labpics_id.Domain.Email.{Email}
use labpics_id.Domain.Contract.{SubjectView, IdentityResult}

-- The rate limit lets the call through.
unfoldable pub LimitAllows : Ports → Run → IdentityAction → String → IdentityDb → Type 0
LimitAllows ports run action key db =
    (consume_limit ports.sha256 ports.lower_case ports.iso run.limit_run
      (record { action = action; key = key; source = none }) db.tables).0
    ≡ allowed

pub limit-allowed :
    (ports : Ports) {T : Type 0} (run : Run) (action : IdentityAction) (key : String)
    (work : Exec IdentityDb (IdentityResult T)) (db : IdentityDb)
    → LimitAllows ports run action key db
    → (l : LimitDb) × (limit ports run action key work db ≡ work (limited_db db l))
unfolding limit consume_limit LimitAllows
limit-allowed ports {T = T} run action key work db h =
    go
      (RateLimit.consume ports.sha256 ports.iso run.limit_run.broken run.limit_run.fresh₁
        run.limit_run.fresh₂ run.limit_run.hash
        (record { action = action; key = key; source = none }) run.limit_run.now
        (record { limits = db.tables.limits; audit = db.tables.audits; outbox = db.tables.outbox }))
      h
  where
    go :
        (r : RateLimitDecision × LimitDb)
        → r.0 ≡ allowed
        → (l : LimitDb) × (limit_with ports r.0 work (limited_db db r.1) ≡ work (limited_db db l))
    go (allowed, l) k = (l, refl)
    go (limited retry_at, l) k = absurd (cc)

pub in_transaction-commits :
    {A : Type 0} (run : Run) (work : Exec IdentityDb A) (db : IdentityDb) (a : A)
    → run.fails ≡ false
    → (work db).0 ≡ ok a
    → in_transaction run.fails work db ≡ (work db)
unfolding in_transaction
in_transaction-commits {A = A} run work db a commits h = rw commits (go (work db) h)
  where
    go : (r : Result A × IdentityDb) → r.0 ≡ ok a → settle_case false db r ≡ r
    go (ok x, after) k = refl
    go (thrown f, after) k = absurd (cc)

-- The view of a row whose email is verified.
pub view-verified :
    (ports : Ports) (row : UserRow) (v : SubjectView)
    → subject_view ports.sha256 ports.lower_case ports.iso row ≡ ok v
    → subject_view ports.sha256 ports.lower_case ports.iso (record row { email_verified = true })
      ≡ ok (record v { email_verified = true })
unfolding subject_view
view-verified ports row v h = go (user_id row.id) (Email.from ports.lower_case row.email) h
  where
    go :
        (i : Result String) (e : Result Email)
        → view_of ports.sha256 ports.lower_case ports.iso row i e ≡ ok v
        → view_of ports.sha256 ports.lower_case ports.iso (record row { email_verified = true }) i e
          ≡ ok (record v { email_verified = true })
    go (thrown f) e k = absurd (cc)
    go (ok i) (thrown f) k = absurd (cc)
    go (ok i) (ok e) k =
        ap ok (ap (λ (x : SubjectView). record x { email_verified = true }) (inside k))
      where
        inside : {a b : SubjectView} → ◌≡◌ {A = Result SubjectView} (ok a) (ok b) → a ≡ b
        inside k = cc

-- The id of a view is an id, and its row's, as is its state.
pub view-id :
    (ports : Ports) (row : UserRow) (v : SubjectView)
    → subject_view ports.sha256 ports.lower_case ports.iso row ≡ ok v
    → (v.id ≡ row.id) × (user_id row.id ≡ ok row.id) × (v.state ≡ state_of row.deactivated_at)
unfolding subject_view
view-id ports row v h = go (user_id row.id) refl (Email.from ports.lower_case row.email) h
  where
    id_of : (a b : SubjectView) → ◌≡◌ {A = Result SubjectView} (ok a) (ok b) → a ≡ b
    id_of a b k = cc

    go :
        (i : Result String)
        → user_id row.id ≡ i
        → (e : Result Email) → view_of ports.sha256 ports.lower_case ports.iso row i e ≡ ok v
        → (v.id ≡ row.id) × (user_id row.id ≡ ok row.id) × (v.state ≡ state_of row.deactivated_at)
    go (thrown f) t e k = absurd (cc)
    go (ok i) t (thrown f) k = absurd (cc)
    go (ok i) t (ok e) k =
        let (same, filled) = branded_ok row.id t in
        (
          sym (ap (λ (x : SubjectView). x.id) (id_of _ v k)) ∙ same,
          t ∙ ap ok same,
          sym (ap (λ (x : SubjectView). x.state) (id_of _ v k)),
        )
