-- ===== src/RateLimit/Decision.antt =====
-- The decision on an attempt, its record, and what it leaves of other dimensions.
use labpics_id.Prelude.{
  eq_refl, ◌↔◌, ℕ, ◌≡◌, refl, ap, ◌∙◌, Bool, true, false, ◌&&◌, Option, none, some, List, [], ◌∷◌,
  ◌++◌, String, ◌==◌, eq_iff, arith, is_null, some_gt, if◌then◌else◌, Bool-cases, inl, inr,
}
use labpics_id.Sql.{find, insert, update}
use labpics_id.Sql.Rows.{find-update, find-insert, find_passes}
use labpics_id.Domain.Ports.{action_text, RateLimitAttempt, RateLimitDecision, allowed, limited}
use labpics_id.Tables.{RateLimitRow, AuditRow, OutboxRow}
use labpics_id.RateLimit.{
  conclude, LimitDb, at, locked_at, next_row, upsert, consume_dimension, consume, report,
  account_digest, source_digest, account_budget, source_budget, or_else,
}

-- A call on one dimension leaves the rows of every other one.
module _ (action digest other_action other_digest : String)
    (differs : ((other_action == action) && (other_digest == digest)) ≡ false) where
  abbrev other : RateLimitRow → Bool
  other = at other_action other_digest

  not_both : (r : RateLimitRow) → at action digest r ≡ true → other r ≡ false
  unfolding at
  not_both r h = ground (
    arith,
    eq_iff r.action action,
    eq_iff r.key_digest digest,
    eq_iff r.action other_action,
    eq_iff r.key_digest other_digest,
    eq_iff other_action action,
    eq_iff other_digest digest,
  )

  find-update-other :
      (f : RateLimitRow → RateLimitRow) (rows : List RateLimitRow)
      → ((r : RateLimitRow) → other (f r) ≡ other r)
      → find other (update (at action digest) f rows) ≡ find other rows
  find-update-other f rows keeps =
      find-update other (at action digest) f rows keeps ∙ go (find other rows) refl
    where
      go :
          (o : Option RateLimitRow)
          → find other rows ≡ o
          → (elim o [ none ↦ none | some r ↦ some (if at action digest r then f r else r) ]) ≡ o
      go none e = refl
      go (some r) e = elim (Bool-cases (at action digest r)) [
        | inr miss ↦ rw miss
        | inl hit ↦ absurd (cc (not_both r hit, find_passes other rows r e))
      ]

  find-upsert-other :
      (row : RateLimitRow) (rows : List RateLimitRow)
      → at row.action row.key_digest ≡ at action digest
      → at action digest row ≡ true
      → find other (upsert row rows) ≡ find other rows
  unfolding upsert
  find-upsert-other row rows same here =
      elim (Bool-cases (is_null (find (at row.action row.key_digest) rows))) [
        | inl new ↦ rw new (
            find-insert other row rows
            ∙ ap
                (λ (b : Bool). elim (find other rows) [
                  | some x ↦ some x
                  | none ↦ if b then some row else none
                ])
                (not_both row here)
            ∙ absent (find other rows))
        | inr old ↦ rw (old, same) (find-update-other _ rows (λ r. unfold at in refl))
      ]
    where
      absent : (o : Option RateLimitRow) → (elim o [ some x ↦ some x | none ↦ none ]) ≡ o
      absent none = refl
      absent (some x) = refl

  -- A call on one dimension leaves the row of every other one, whose action or digest differs.
  find-consume_other :
      (fresh : String) (now budget : ℕ) (rows : List RateLimitRow)
      → find other (consume_dimension fresh action digest now budget rows).1 ≡ find other rows
  unfolding consume_dimension
  find-consume_other fresh now budget rows =
      let current = find (at action digest) rows in
      elim (Bool-cases (some_gt (locked_at current) now)) [
        | inl locked ↦ rw locked
        | inr unlocked ↦ rw unlocked (
            find-upsert-other (next_row fresh action digest now budget current) rows
              (unfold next_row in refl) (unfold next_row at in rw (eq_refl action, eq_refl digest)))
      ]

module _ (sha256 : String → String) (iso : ℕ → String) (fresh₁ fresh₂ hash : String)
    (a : RateLimitAttempt) (now : ℕ) (db : LimitDb) where
  -- The answers of the two dimensions, the account's first.
  abbrev pub account_answer : Option ℕ × List RateLimitRow
  account_answer =
      consume_dimension fresh₁ (action_text a.action) (account_digest sha256 iso a) now
        account_budget db.limits

  abbrev pub source_answer : Option ℕ × List RateLimitRow
  source_answer =
      consume_dimension fresh₂ (action_text a.action) (source_digest sha256 iso a) now source_budget
        account_answer.1

-- What a decision on an attempt comes to, given the answers of the two dimensions: it lets the
-- attempt through if and only if neither has answered a lock, and then writes no event; a refusal
-- gives the account's lock, else the source's, and writes one audit and one outbox event of it.
module _ (sha256 : String → String) (iso : ℕ → String) (hash : String) (a : RateLimitAttempt)
    (now : ℕ) (db : LimitDb) (account source : Option ℕ) where
  pub record Decides (d : RateLimitDecision) (db' : LimitDb) : Type 0 where
    pub let_through : (d ≡ allowed) ↔ ((account ≡ none) × (source ≡ none))
    pub quiet : d ≡ allowed → (db'.audit ≡ db.audit) × (db'.outbox ≡ db.outbox)
    pub reported :
        (t : ℕ)
        → d ≡ limited t
        → (or_else account source ≡ some t)
          × ((x : AuditRow) × (db'.audit ≡ db.audit ++ x ∷ [])
              × (x.entry.actor_id ≡ account_digest sha256 iso a)
              × (x.entry.occurred_at ≡ now))
          × ((y : OutboxRow) × (db'.outbox ≡ db.outbox ++ y ∷ [])
              × (y.type ≡ "identity.auth_lockout"))

decides :
    (sha256 : String → String) (iso : ℕ → String) (hash : String) (a : RateLimitAttempt) (now : ℕ)
    (db : LimitDb) (limits : List RateLimitRow) (account source : Option ℕ)
    → let (d, db') =
        conclude sha256 iso a now hash (record db { limits = limits }) (or_else account source) in
      Decides sha256 iso hash a now db account source d db' × (db'.limits ≡ limits)
unfolding conclude report insert
decides sha256 iso hash a now db limits none none = (
  record {
    let_through = ((λ e. (refl, refl)), (λ e. refl));
    quiet = λ e. (refl, refl);
    reported = λ t e. absurd (cc);
  },
  refl,
)
decides sha256 iso hash a now db limits none (some t) = (
  record {
    let_through = ((λ e. absurd (cc)), (λ e. absurd (cc (e.1))));
    quiet = λ e. absurd (cc);
    reported = λ u e. (cc, (_, refl, refl, refl), (_, refl, refl));
  },
  refl,
)
decides sha256 iso hash a now db limits (some t) source = (
  record {
    let_through = ((λ e. absurd (cc)), (λ e. absurd (cc (e.0))));
    quiet = λ e. absurd (cc);
    reported = λ u e. (cc, (_, refl, refl, refl), (_, refl, refl));
  },
  refl,
)

-- A run of the limiter without a failure decides by the answers of the account's dimension and of
-- the source's, counted on the table that the account's left, and the table is what the two left.
-- It lets the attempt through if and only if neither answered a lock, and then writes no event; a
-- refusal gives the account's lock, else the source's, and adds one audit and one outbox event.
pub consume-Decides :
    (sha256 : String → String) (iso : ℕ → String) (fresh₁ fresh₂ hash : String)
    (a : RateLimitAttempt) (now : ℕ) (db : LimitDb)
    → Decides sha256 iso hash a now db
        (account_answer sha256 iso fresh₁ fresh₂ hash a now db).0
        (source_answer sha256 iso fresh₁ fresh₂ hash a now db).0
        (consume sha256 iso false fresh₁ fresh₂ hash a now db).0
        (consume sha256 iso false fresh₁ fresh₂ hash a now db).1
      × ((consume sha256 iso false fresh₁ fresh₂ hash a now db).1.limits
          ≡ (source_answer sha256 iso fresh₁ fresh₂ hash a now db).1)
unfolding consume
consume-Decides sha256 iso fresh₁ fresh₂ hash a now db =
    decides sha256 iso hash a now db (source_answer sha256 iso fresh₁ fresh₂ hash a now db).1
      (account_answer sha256 iso fresh₁ fresh₂ hash a now db).0
      (source_answer sha256 iso fresh₁ fresh₂ hash a now db).0
