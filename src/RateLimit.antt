-- ===== src/RateLimit.antt =====
-- packages/db/src/postgres-rate-limit.ts: attempts counted per account and per source, in windows,
-- with a lockout. `sha256`, `iso` (toISOString) and the random texts are the runtime's. Calls run one
-- after the other.
pub mod Budget
pub mod Decision
mod Tests
use Prim.Native.String.{◌++◌}
use labpics_id.Prelude.{
  ℕ, suc, ◌+◌, ◌-◌, ◌*◌, Bool, true, false, ◌&&◌, ◌||◌, Option, none, some, List, [], ◌∷◌, String,
  ◌==◌, ltb, leb, is_null, some_gt, some_le, if◌then◌else◌,
}
use labpics_id.Sql.{find, insert, update}
use labpics_id.Domain.Ports.{
  IdentityAction, action_text, RateLimitAttempt, RateLimitDecision, allowed, limited,
}
use labpics_id.Tables.{RateLimitRow, AuditRow, OutboxRow, envelope}

abbrev pub window_ms : ℕ
window_ms = 300000

abbrev pub lock_ms : ℕ
lock_ms = 900000

abbrev pub source_budget : ℕ
source_budget = 3

abbrev pub account_budget : ℕ
account_budget = 6

-- The WHERE clause of a dimension: its action and its digest.
unfoldable pub at : String → String → RateLimitRow → Bool
at action digest r = r.action == action && r.key_digest == digest

-- What `consumeDimension` reads of the current row.
abbrev pub locked_at : Option RateLimitRow → Option ℕ
locked_at none = none
locked_at (some r) = r.locked_until

abbrev pub resets : ℕ → Option RateLimitRow → Bool
resets now none = true
resets now (some r) = leb window_ms (now - r.window_started_at)

abbrev pub recovers : ℕ → Option RateLimitRow → Bool
recovers now current = some_le (locked_at current) now

abbrev attempts_of : Option RateLimitRow → ℕ
attempts_of none = 0
attempts_of (some r) = r.attempts

abbrev started_of : ℕ → Option RateLimitRow → ℕ
started_of now none = now
started_of now (some r) = r.window_started_at

abbrev id_of : String → Option RateLimitRow → String
id_of fresh none = fresh
id_of fresh (some r) = r.id

-- The values that are written, where the dimension is not locked.
unfoldable pub next_row : String → String → String → ℕ → ℕ → Option RateLimitRow → RateLimitRow
next_row fresh action digest now budget current =
    let anew = resets now current || recovers now current in
    let attempts : ℕ = if anew then 1 else attempts_of current + 1 in
    record {
      id = id_of fresh current;
      action = action;
      key_digest = digest;
      attempts = attempts;
      window_started_at = if anew then now else started_of now current;
      locked_until = if ltb budget attempts then some (now + lock_ms) else none;
      updated_at = now;
    }

-- INSERT … ON CONFLICT (action, key_digest) DO UPDATE
unfoldable pub upsert : RateLimitRow → List RateLimitRow → List RateLimitRow
upsert row rows =
    if is_null (find (at row.action row.key_digest) rows)
    then insert row rows
    else update (at row.action row.key_digest)
        (λ r. record r {
          attempts = row.attempts;
          window_started_at = row.window_started_at;
          locked_until = row.locked_until;
          updated_at = row.updated_at;
        })
        rows

unfoldable pub consume_dimension :
    String → String → String → ℕ → ℕ → List RateLimitRow → Option ℕ × List RateLimitRow
consume_dimension fresh action digest now budget rows =
    let current = find (at action digest) rows in
    let row = next_row fresh action digest now budget current in
    if some_gt (locked_at current) now
    then (locked_at current, rows)
    else (row.locked_until, upsert row rows)

pub record LimitDb : Type 0 where
  pub limits : List RateLimitRow
  pub audit : List AuditRow
  pub outbox : List OutboxRow

-- `account ?? source`
abbrev pub or_else : Option ℕ → Option ℕ → Option ℕ
or_else none b = b
or_else (some a) b = some a

abbrev source_of : Option String → String
source_of none = "unknown"
source_of (some s) = s

module _ (sha256 : String → String) (iso : ℕ → String) where
  abbrev pub account_digest : RateLimitAttempt → String
  account_digest a = sha256 (action_text a.action ++ ":account:" ++ a.key)

  abbrev pub source_digest : RateLimitAttempt → String
  source_digest a = sha256 (action_text a.action ++ ":source:" ++ source_of a.source)

  -- The audit event and the outbox event of a lockout.
  unfoldable pub report : RateLimitAttempt → ℕ → String → LimitDb → LimitDb
  report a now hash db = record db {
    audit =
        insert
          (record {
            entry = record {
              actor_id = account_digest a;
              action = "identity.auth_lockout";
              target_type = "rate_limit";
              target_id = account_digest a;
              occurred_at = now;
              ip = none;
              user_agent = none;
            };
            hash = hash;
          })
          db.audit;
    outbox =
        insert
          (record {
            type = "identity.auth_lockout";
            payload = envelope (record {
              idempotency_key = "identity.auth_lockout:" ++ account_digest a ++ ":" ++ iso now;
              type = "identity.auth_lockout";
              payload =
                  ("action", action_text a.action)
                  ∷ ("accountDigest", account_digest a)
                  ∷ ("sourceDigest", source_digest a)
                  ∷ [];
              occurred_at = now;
            });
          })
          db.outbox;
  }

  -- The attempt is refused and reported if a dimension has answered a lock.
  unfoldable pub conclude :
      RateLimitAttempt → ℕ → String → LimitDb → Option ℕ → RateLimitDecision × LimitDb
  conclude a now hash db none = (allowed, db)
  conclude a now hash db (some retry_at) = (limited retry_at, report a now hash db)

  -- PostgresRateLimitPort.consume. `broken` says that the availability check or some statement
  -- throws: the transaction is rolled back, and the attempt is refused. `fresh₁`, `fresh₂` and
  -- `hash` are the random texts of the run.
  unfoldable pub consume :
      (broken : Bool) (fresh₁ fresh₂ hash : String)
      → RateLimitAttempt
      → ℕ
      → LimitDb
      → RateLimitDecision × LimitDb
  consume true fresh₁ fresh₂ hash a now db = (limited now, db)
  consume false fresh₁ fresh₂ hash a now db =
      let action = action_text a.action in
      let (account, limits₁) =
        consume_dimension fresh₁ action (account_digest a) now account_budget db.limits in
      let (source, limits₂) =
        consume_dimension fresh₂ action (source_digest a) now source_budget limits₁ in
      conclude a now hash (record db { limits = limits₂ }) (or_else account source)
