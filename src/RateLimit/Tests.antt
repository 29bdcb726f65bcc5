-- ===== src/RateLimit/Tests.antt =====
-- Runs of packages/db/src/postgres-rate-limit.ts: five calls in a window with a budget of three,
-- and the lock after them.
use labpics_id.Prelude.{ℕ, ◌+◌, ◌≡◌, refl, none, some, List, [], ◌∷◌, String, arith, false}
use labpics_id.Sql.{find, insert, update}
use labpics_id.Domain.Ports.{RateLimitAttempt, sign_in}
use labpics_id.Tables.{RateLimitRow}
use labpics_id.RateLimit.{lock_ms, LimitDb, at, consume_dimension, consume, next_row, upsert}
use labpics_id.RateLimit.Budget.{allowed_calls, window_budget, lockout}
use labpics_id.RateLimit.Decision.{Decides, account_answer, source_answer, consume-Decides}

abbrev calls : List (String × ℕ)
calls = ("r2", 1100) ∷ ("r3", 1200) ∷ ("r4", 1300) ∷ ("r5", 1400) ∷ []

window_budget_example : allowed_calls "sign_in" "d" 3 (("r1", 1000) ∷ calls) [] ≡ 3
unfolding find
window_budget_example =
    window_budget "sign_in" "d" 3 "r1" 1000 calls [] (omega arith) (refl, refl)
      (
        (omega arith, omega arith),
        (
          (omega arith, omega arith),
          ((omega arith, omega arith), ((omega arith, omega arith), tt)),
        ),
      )

-- The dimension has used its budget.
abbrev full : RateLimitRow
full = record {
  id = "r1";
  action = "sign_in";
  key_digest = "d";
  attempts = 3;
  window_started_at = 1000;
  locked_until = none;
  updated_at = 1200;
}

unlocked : (find (at "sign_in" "d") (full ∷ [])) ≡ some full
unfolding find at
unlocked = refl

locks : (consume_dimension "r4" "sign_in" "d" 1300 3 (full ∷ [])).0 ≡ some 901300
unfolding consume_dimension find at next_row
locks = refl

lockout_example :
    (901300 ≡ 1300 + lock_ms)
    × (allowed_calls "sign_in" "d" 3
          (("r5", 1400) ∷ [])
          (consume_dimension "r4" "sign_in" "d" 1300 3 (full ∷ [])).1
        ≡ 0)
    × ((consume_dimension "r6" "sign_in" "d" 901300 3
          (consume_dimension "r4" "sign_in" "d" 1300 3 (full ∷ [])).1).0
        ≡ none)
unfolding find at
lockout_example =
    lockout "sign_in" "d" 3 "r4" "r6" 1300 901300 901300 (("r5", 1400) ∷ []) (full ∷ [])
      (omega arith) refl locks (omega arith, tt) (omega arith)

abbrev sign_in_attempt : RateLimitAttempt
sign_in_attempt = record { action = sign_in; key = "a@b.co"; source = some "10.0.0.1" }

abbrev empty : LimitDb
empty = record { limits = full ∷ []; audit = []; outbox = [] }

consume-Decides_example :
    Decides
      (λ s. s)
      (λ t. "now")
      "h"
      sign_in_attempt
      1000
      empty
      (account_answer (λ s. s) (λ t. "now") "r1" "r2" "h" sign_in_attempt 1000 empty).0
      (source_answer (λ s. s) (λ t. "now") "r1" "r2" "h" sign_in_attempt 1000 empty).0
      (consume (λ s. s) (λ t. "now") false "r1" "r2" "h" sign_in_attempt 1000 empty).0
      (consume (λ s. s) (λ t. "now") false "r1" "r2" "h" sign_in_attempt 1000 empty).1
    × ((consume (λ s. s) (λ t. "now") false "r1" "r2" "h" sign_in_attempt 1000 empty).1.limits
        ≡ (source_answer (λ s. s) (λ t. "now") "r1" "r2" "h" sign_in_attempt 1000 empty).1)
consume-Decides_example =
    consume-Decides (λ s. s) (λ t. "now") "r1" "r2" "h" sign_in_attempt 1000 empty

-- Two first calls on a key at once, which both read no row: the second write counts one attempt.
lost_attempt :
    upsert
      (next_row "r2" "sign_in" "d" 1000 3 none)
      (upsert (next_row "r1" "sign_in" "d" 1000 3 none) [])
    ≡ record full { attempts = 1; updated_at = 1000 } ∷ []
unfolding upsert next_row find at insert update
lost_attempt = refl
