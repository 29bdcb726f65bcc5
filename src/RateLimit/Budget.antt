-- ===== src/RateLimit/Budget.antt =====
-- One dimension of the rate limit: what a call makes of the dimension's row, and how many calls a
-- window lets through.
use Prim.Native.Nat.{min}
use labpics_id.Prelude.{
  All-mono, length, ℕ, ◌+◌, ◌-◌, ◌≤◌, ◌<◌, ◌≡◌, refl, sym, ◌∙◌, Bool, true, false, ◌||◌, Option,
  none, some, List, [], ◌∷◌, String, eq_refl, arith, ltb, is_null, some_gt, if◌then◌else◌, All,
  Bool-cases, Option-cases, inl, inr,
}
use labpics_id.Sql.{find}
use labpics_id.Sql.Rows.{find-update, find-insert, find_passes}
use labpics_id.Tables.{RateLimitRow}
use labpics_id.RateLimit.{
  window_ms, lock_ms, at, locked_at, resets, recovers, next_row, upsert, consume_dimension,
}

-- Two rows that count alike.
pub record SameCount (a b : RateLimitRow) : Type 0 where
  pub attempts : a.attempts ≡ b.attempts
  pub window : a.window_started_at ≡ b.window_started_at
  pub locked : a.locked_until ≡ b.locked_until

module _ (row : RateLimitRow) (rows : List RateLimitRow) where
  abbrev here : RateLimitRow → Bool
  here = at row.action row.key_digest

  abbrev rewritten : RateLimitRow → RateLimitRow
  rewritten r = record r {
    attempts = row.attempts;
    window_started_at = row.window_started_at;
    locked_until = row.locked_until;
    updated_at = row.updated_at;
  }

  here-row : here row ≡ true
  unfolding at
  here-row = rw (eq_refl row.action, eq_refl row.key_digest)

  here-rewritten : (r : RateLimitRow) → here (rewritten r) ≡ here r
  unfolding at
  here-rewritten r = refl

  -- The row that an upsert leaves counts as what was written.
  find-upsert : (r : RateLimitRow) × (find here (upsert row rows) ≡ some r) × SameCount r row
  unfolding upsert
  find-upsert = elim (Option-cases (find here rows)) [
    | inl e ↦ (
      row,
      rw e (find-insert here row rows ∙ rw (e, here-row)),
      record { attempts = refl; window = refl; locked = refl },
    )
    | inr (r, e) ↦ (
      rewritten r,
      rw e
          (find-update here here rewritten rows here-rewritten ∙ rw (e, find_passes here rows r e)),
      record { attempts = refl; window = refl; locked = refl },
    )
  ]

module _ (action digest : String) (budget : ℕ) where
  abbrev current : List RateLimitRow → Option RateLimitRow
  current rows = find (at action digest) rows

  abbrev called : String → ℕ → List RateLimitRow → Option ℕ × List RateLimitRow
  called fresh now rows = consume_dimension fresh action digest now budget rows

  -- While the dimension is locked a call changes nothing and answers the end of the lock.
  pub locked_call :
      (fresh : String) (now : ℕ) (rows : List RateLimitRow)
      → some_gt (locked_at (current rows)) now ≡ true
      → called fresh now rows ≡ (locked_at (current rows), rows)
  unfolding consume_dimension
  locked_call fresh now rows h = rw h

  -- Else it answers the lock that it writes, and leaves the row that it has counted.
  pub open_call :
      (fresh : String) (now : ℕ) (rows : List RateLimitRow)
      → some_gt (locked_at (current rows)) now ≡ false
      → ((called fresh now rows).0
          ≡ (next_row fresh action digest now budget (current rows)).locked_until)
        × ((r : RateLimitRow) × (current (called fresh now rows).1 ≡ some r)
            × SameCount r (next_row fresh action digest now budget (current rows)))
  unfolding consume_dimension next_row
  open_call fresh now rows h =
      (rw h, rw h (find-upsert (next_row fresh action digest now budget (current rows)) rows))

  -- The calls, each with its fresh text and its time, that are let through.
  unfoldable pub allowed_calls : List (String × ℕ) → List RateLimitRow → ℕ
  allowed_calls [] rows = 0
  allowed_calls ((fresh, now) ∷ calls) rows =
      let (answer, rows') = called fresh now rows in
      (if is_null answer then 1 else 0) + allowed_calls calls rows'

  -- No call before the end of a lock is let through.
  allowed_locked :
      (calls : List (String × ℕ)) (rows : List RateLimitRow) (r : RateLimitRow) (until : ℕ)
      → current rows ≡ some r
      → r.locked_until ≡ some until
      → All (λ c. c.1 < until) calls
      → allowed_calls calls rows ≡ 0
  unfolding allowed_calls
  allowed_locked [] rows r until e l h = refl
  allowed_locked ((fresh, now) ∷ calls) rows r until e l h =
      let g : some_gt (locked_at (current rows)) now ≡ true = rw (e, l) (ground arith) in
      rw (locked_call fresh now rows g, e, l)
        (omega (arith, allowed_locked calls rows r until e l h.1))

  -- What a call writes inside a window that is not locked.
  next_within :
      (fresh : String) (now : ℕ) (r : RateLimitRow)
      → r.locked_until ≡ none
      → r.window_started_at ≤ now
      → now < r.window_started_at + window_ms
      → let n = next_row fresh action digest now budget (some r) in
        (n.attempts ≡ r.attempts + 1)
        × (n.window_started_at ≡ r.window_started_at)
        × (n.locked_until ≡ (if ltb budget (r.attempts + 1) then some (now + lock_ms) else none))
  unfolding next_row
  next_within fresh now r l from to = (ground arith, ground arith, ground arith)

  opened :
      (fresh : String) (now : ℕ) (rows : List RateLimitRow) (r : RateLimitRow)
      → current rows ≡ some r
      → some_gt (locked_at (current rows)) now ≡ false
      → ((called fresh now rows).0
          ≡ (next_row fresh action digest now budget (some r)).locked_until)
        × (r' : RateLimitRow) × (current (called fresh now rows).1 ≡ some r')
        × SameCount r' (next_row fresh action digest now budget (some r))
  opened fresh now rows r e g =
      let (answer, found) = open_call fresh now rows g in
      let (r', e', same) = found in (rw (← e) answer, r', e', rw (← e) same)

  -- Inside a window exactly the calls that the budget still holds are let through.
  allowed_window :
      (calls : List (String × ℕ)) (rows : List RateLimitRow) (r : RateLimitRow)
      → current rows ≡ some r
      → r.locked_until ≡ none
      → r.attempts ≤ budget
      → All (λ c. (r.window_started_at ≤ c.1) × (c.1 < r.window_started_at + window_ms)) calls
      → allowed_calls calls rows ≡ min (budget - r.attempts) (length calls)
  unfolding allowed_calls
  allowed_window [] rows r e l b h = omega arith
  allowed_window ((fresh, now) ∷ calls) rows r e l b h =
      let g : some_gt (locked_at (current rows)) now ≡ false = rw (e, l) refl in
      let (answer, r', e', same) = opened fresh now rows r e g in
      let (a, w, locks) = next_within fresh now r l h.0.0 h.0.1 in
      elim (Bool-cases (ltb budget (r.attempts + 1))) [
        | inl over ↦
            let until : r'.locked_until ≡ some (now + lock_ms) = same.locked ∙ locks ∙ rw over in
            let none_left : allowed_calls calls (called fresh now rows).1 ≡ 0 =
              allowed_locked calls (called fresh now rows).1 r' (now + lock_ms) e' until
                (All-mono _ _ calls (λ c k. omega arith) h.1) in
            rw (answer, locks, over) (ground (arith, none_left))
        | inr fits ↦
            let open_still : r'.locked_until ≡ none = same.locked ∙ locks ∙ rw fits in
            let rest =
              allowed_window calls (called fresh now rows).1 r' e' open_still (ground arith)
                (rw (same.window ∙ w) h.1) in
            let room : r.attempts + 1 ≤ budget = ground arith in
            rw (answer, locks, fits) (omega (arith, rest, same.attempts ∙ a))
      ]

  -- A call that starts a window: it is not locked, and it is the first, or the window has passed,
  -- or a lock has ended.
  abbrev pub Starts : ℕ → List RateLimitRow → Type 0
  Starts now rows =
      (some_gt (locked_at (current rows)) now ≡ false)
      × ((resets now (current rows) || recovers now (current rows)) ≡ true)

  next_anew :
      (fresh : String) (now : ℕ) (o : Option RateLimitRow)
      → (resets now o || recovers now o) ≡ true
      → let n = next_row fresh action digest now budget o in
        (n.attempts ≡ 1)
        × (n.window_started_at ≡ now)
        × (n.locked_until ≡ (if ltb budget 1 then some (now + lock_ms) else none))
  unfolding next_row
  next_anew fresh now o h = rw h (refl, refl, refl)

  opened_anew :
      (fresh : String) (now : ℕ) (rows : List RateLimitRow)
      → Starts now rows
      → 0 < budget
      → ((called fresh now rows).0 ≡ none)
        × (r' : RateLimitRow) × (current (called fresh now rows).1 ≡ some r')
        × (r'.attempts ≡ 1)
        × (r'.window_started_at ≡ now)
        × (r'.locked_until ≡ none)
  opened_anew fresh now rows (unlocked, anew) some_left =
      let (answer, found) = open_call fresh now rows unlocked in
      let (r', e', same) = found in
      let (a, w, locks) = next_anew fresh now (current rows) anew in
      let stays : (if ltb budget 1 then some (now + lock_ms) else none) ≡ none = ground arith in
      (
        answer ∙ locks ∙ stays,
        r',
        e',
        same.attempts ∙ a,
        same.window ∙ w,
        same.locked ∙ locks ∙ stays,
      )

lock_end :
    (action digest : String) (budget : ℕ) (fresh : String) (now : ℕ) (o : Option RateLimitRow)
    (until : ℕ)
    → (next_row fresh action digest now budget o).locked_until ≡ some until
    → until ≡ now + lock_ms
unfolding next_row
lock_end action digest budget fresh now o until h = ground arith

-- From a call that starts a window at `now` on, with a positive budget, the calls on one dimension
-- made before the window ends are let through exactly as long as the budget lasts, whatever the
-- times in between: of n calls, min budget n.
pub window_budget :
    (action digest : String) (budget : ℕ) (fresh : String) (now : ℕ) (calls : List (String × ℕ))
    (rows : List RateLimitRow)
    → 0 < budget
    → Starts action digest budget now rows
    → All (λ c. (now ≤ c.1) × (c.1 < now + window_ms)) calls
    → allowed_calls action digest budget ((fresh, now) ∷ calls) rows ≡ min budget (length calls + 1)
unfolding allowed_calls
window_budget action digest budget fresh now calls rows pos start inside =
    let (answer, r', e', a, w, l) = opened_anew action digest budget fresh now rows start pos in
    let rest =
      allowed_window action digest budget calls
        (consume_dimension fresh action digest now budget rows).1 r' e' l (omega (arith, a))
        (rw w inside) in
    rw answer (omega (arith, rest, a))

-- A call on a dimension that is not locked and whose answer is a lock is the last before the lock
-- ends: the lock is 15 minutes from the call, no call before its end is let through, and one at or
-- after its end is, if the budget is positive and none came in between.
pub lockout :
    (action digest : String) (budget : ℕ) (fresh fresh' : String) (now later until : ℕ)
    (calls : List (String × ℕ)) (rows : List RateLimitRow)
    → 0 < budget
    → some_gt (locked_at (find (at action digest) rows)) now ≡ false
    → (consume_dimension fresh action digest now budget rows).0 ≡ some until
    → All (λ c. c.1 < until) calls
    → until ≤ later
    → (until ≡ now + lock_ms)
      × (allowed_calls action digest budget calls
            (consume_dimension fresh action digest now budget rows).1
          ≡ 0)
      × ((consume_dimension fresh' action digest later budget
            (consume_dimension fresh action digest now budget rows).1).0
          ≡ none)
lockout action digest budget fresh fresh' now later until calls rows pos unlocked answer before
      after =
    let (answer', found) = open_call action digest budget fresh now rows unlocked in
    let (r', e', same) = found in
    let locks : r'.locked_until ≡ some until = same.locked ∙ sym answer' ∙ answer in
    (
      lock_end action digest budget fresh now (find (at action digest) rows) until
          (sym answer' ∙ answer),
      allowed_locked action digest budget calls
          (consume_dimension fresh action digest now budget rows).1 r' until e' locks before,
      (opened_anew action digest budget fresh' later
          (consume_dimension fresh action digest now budget rows).1
          (rw (e', locks) (ground arith, ground arith)) pos).0,
    )
