-- ===== src/UseCases/Steps.antt =====
-- How a use case of packages/domain/src/identity/use-cases.ts comes to its answer: the limit, the
-- transaction and the steps of its work.
use labpics_id.Prelude.{String, ◌≡◌, refl, Bool, true, false, none}
use labpics_id.Domain.Result.{Result, Exec, continue, ◌>>=◌, ok, thrown}
use labpics_id.Domain.Ports.{IdentityAction, RateLimitDecision, allowed, limited}
use labpics_id.RateLimit
use labpics_id.RateLimit.{
  window_ms, lock_ms, source_budget, account_budget, at, locked_at, resets, recovers, next_row,
  upsert, consume_dimension, LimitDb, or_else, account_digest, source_digest, report, conclude,
  consume,
}
use labpics_id.Login.{consume_limit}
use labpics_id.UseCases.{Ports, IdentityDb, Run, settle_case, in_transaction, limit_with, limit}
use labpics_id.Domain.Contract.{IdentityResult, accepted}

-- The tables of a database after a call of the rate limit.
abbrev pub limited_db : IdentityDb → LimitDb → IdentityDb
limited_db db l = record db {
  tables = record db.tables { limits = l.limits; audits = l.audit; outbox = l.outbox };
}

-- A bind that answers has answered in both steps.
pub bind-ok {ℓ} :
    {S A B : Type ℓ} (m : Exec S A) (f : A → Exec S B) (s : S) (b : B)
    → ((m >>= f) s).0 ≡ ok b
    → (a : A) × ((m s).0 ≡ ok a) × ((f a (m s).1).0 ≡ ok b) × (((m >>= f) s).1 ≡ (f a (m s).1).1)
bind-ok {S = S} {A = A} m f s b h = go (m s) h
  where
    go :
        (r : Result A × S)
        → (continue r.0 f r.1).0 ≡ ok b
        → (a : A) × (r.0 ≡ ok a) × ((f a r.1).0 ≡ ok b) × ((continue r.0 f r.1).1 ≡ (f a r.1).1)
    go (ok a, s') k = (a, refl, k, refl)
    go (thrown e, s') k = absurd (cc)

pub in_transaction-ok :
    {A : Type 0} (fails : Bool) (work : Exec IdentityDb A) (db : IdentityDb) (a : A)
    → (in_transaction fails work db).0 ≡ ok a
    → ((work db).0 ≡ ok a) × ((in_transaction fails work db).1 ≡ (work db).1)
unfolding in_transaction
in_transaction-ok {A = A} fails work db a h = go fails (work db) h
  where
    go :
        (fails : Bool) (r : Result A × IdentityDb)
        → (settle_case fails db r).0 ≡ ok a
        → (r.0 ≡ ok a) × ((settle_case fails db r).1 ≡ r.1)
    go true (r, after) k = absurd (cc)
    go false (ok x, after) k = (k, refl)
    go false (thrown f, after) k = absurd (cc)

pub limit-accepted :
    (ports : Ports) {T : Type 0} (run : Run) (action : IdentityAction) (key : String)
    (work : Exec IdentityDb (IdentityResult T)) (db : IdentityDb) (t : T)
    → (limit ports run action key work db).0 ≡ ok (accepted t)
    → (l : LimitDb) × ((work (limited_db db l)).0 ≡ ok (accepted t))
      × ((limit ports run action key work db).1 ≡ (work (limited_db db l)).1)
unfolding limit consume_limit
limit-accepted ports {T = T} run action key work db t h =
    go
      (RateLimit.consume ports.sha256 ports.iso run.limit_run.broken run.limit_run.fresh₁
        run.limit_run.fresh₂ run.limit_run.hash
        (record { action = action; key = key; source = none }) run.limit_run.now
        (record { limits = db.tables.limits; audit = db.tables.audits; outbox = db.tables.outbox }))
      h
  where
    go :
        (r : RateLimitDecision × LimitDb)
        → (limit_with ports r.0 work (limited_db db r.1)).0 ≡ ok (accepted t)
        → (l : LimitDb) × ((work (limited_db db l)).0 ≡ ok (accepted t))
          × ((limit_with ports r.0 work (limited_db db r.1)).1 ≡ (work (limited_db db l)).1)
    go (allowed, l) k = (l, k, refl)
    go (limited retry_at, l) k = absurd (cc)
