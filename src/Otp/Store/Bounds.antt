-- ===== src/Otp/Store/Bounds.antt =====
-- What a challenge can grant over any history: at most one session, at most its budget of
-- comparisons, nothing after it is spent, and nothing that other challenges could change.
use labpics_id.Prelude.{
  eq_refl, ◌⊎◌, ◌+◌, ◌≤◌, ◌<◌, ◌≡◌, refl, sym, ap, ◌∙◌, true, false, Option, none, some, List, [],
  ◌∷◌, String, ◌==◌, arith, is_null, inl, inr, Option-cases, All,
}
use labpics_id.Sql.Keyed.{row_of, IsUnique, row_of-insert}
use labpics_id.Domain.Result.{Result, ok}
use labpics_id.Domain.OtpContract.{
  OtpChallengeRecord, CreateOtpChallengeInput, ConsumeOtpChallengeInput, ConsumeOtpChallengeOutcome,
  consumed, invalid_code,
}
use labpics_id.Otp.Store.{OtpRow, digest_of, row_for, create, consume, won, spend}
use labpics_id.Otp.Store.Judge.{
  Verdict, judge_row, answer, answer_as, settle, settle_as, consume-Refines, win, miss, refuse,
}
use labpics_id.Otp.Store.History.{
  Event, creates, consumes, commit, compared, granted, budget, unspent, step, total, total-le, run,
  row_of-step_self, step-IsUnique, row_of-step_other, row_of-step_create, create-IsUnique,
}

compared_le : (r : Result ConsumeOtpChallengeOutcome) → compared r ≤ 1
compared_le r = ground arith

granted_le : (r : Result ConsumeOtpChallengeOutcome) → granted r ≤ 1
granted_le r = ground arith

-- A challenge that an attempt wins or misses is open and has attempts left.
judge_open :
    (input : ConsumeOtpChallengeInput) (r : OtpRow)
    → ((judge_row input r ≡ win) ⊎ (judge_row input r ≡ miss))
    → (is_null r.consumed_at ≡ true) × (0 < r.attempts_remaining)
judge_open input r h = ground arith

-- A refusal has compared no code.
refuse_lem :
    (input : ConsumeOtpChallengeInput) (r : OtpRow) (o : ConsumeOtpChallengeOutcome)
    → judge_row input r ≡ refuse o
    → (compared (ok o) ≡ 0) × (granted (ok o) ≡ 0)
refuse_lem input r (consumed x) e = ground arith
refuse_lem input r (invalid_code n) e = ground arith
refuse_lem input r _ e = (refl, refl)

module _ (sha256 lower_case : String → String) (input : ConsumeOtpChallengeInput) (r : OtpRow) where
  -- By the verdict: what an attempt weighs and leaves is within what the challenge had.
  compared_pays :
      (v : Verdict)
      → judge_row input r ≡ v
      → compared (answer_as sha256 lower_case input v r)
          + budget
              (commit (answer_as sha256 lower_case input v r) (some (settle_as input v r)) (some r))
        ≤ budget (some r)
  unfolding commit
  compared_pays win e = ground (
    arith,
    judge_open input r (inl e),
    compared_le (won sha256 lower_case input (spend input.now r)),
  )
  compared_pays miss e = ground (arith, judge_open input r (inr e))
  compared_pays (refuse o) e = omega (arith, refuse_lem input r o e)

  granted_pays :
      (v : Verdict)
      → judge_row input r ≡ v
      → granted (answer_as sha256 lower_case input v r)
          + unspent
              (commit (answer_as sha256 lower_case input v r) (some (settle_as input v r)) (some r))
        ≤ unspent (some r)
  unfolding commit
  granted_pays win e = ground (
    arith,
    judge_open input r (inl e),
    granted_le (won sha256 lower_case input (spend input.now r)),
  )
  granted_pays miss e = ground (arith, judge_open input r (inr e))
  granted_pays (refuse o) e = omega (arith, refuse_lem input r o e)

module _ (sha256 lower_case : String → String) where
  pays_compared :
      (input : ConsumeOtpChallengeInput) (o : Option OtpRow)
      → compared (answer sha256 lower_case input o)
          + budget (commit (answer sha256 lower_case input o) (settle input o) o)
        ≤ budget o
  unfolding commit
  pays_compared input none = omega arith
  pays_compared input (some r) = compared_pays sha256 lower_case input r (judge_row input r) refl

  pays_granted :
      (input : ConsumeOtpChallengeInput) (o : Option OtpRow)
      → granted (answer sha256 lower_case input o)
          + unspent (commit (answer sha256 lower_case input o) (settle input o) o)
        ≤ unspent o
  unfolding commit
  pays_granted input none = omega arith
  pays_granted input (some r) = granted_pays sha256 lower_case input r (judge_row input r) refl

  -- The row that a successful creation leaves at its digest.
  pub row_of-create_self :
      (input : CreateOtpChallengeInput) (rows : List OtpRow) {x : OtpChallengeRecord}
      → (create sha256 lower_case input rows).0 ≡ ok x
      → row_of digest_of (sha256 input.id) (create sha256 lower_case input rows).1
        ≡ some (row_for sha256 lower_case input)
  unfolding create
  row_of-create_self input rows h = elim (Option-cases (row_of digest_of (sha256 input.id) rows)) [
    | inr (r, e) ↦ ground arith
    | inl e ↦ rw e (
        row_of-insert digest_of (sha256 input.id) (row_for sha256 lower_case input) rows e
        ∙ rw (eq_refl (sha256 input.id)))
  ]

-- What a new row has.
new_budget :
    (sha256 lower_case : String → String) (input : CreateOtpChallengeInput)
    → budget (some (row_for sha256 lower_case input)) ≡ input.max_attempts
unfolding row_for
new_budget sha256 lower_case input = refl

new_unspent :
    (sha256 lower_case : String → String) (input : CreateOtpChallengeInput)
    → unspent (some (row_for sha256 lower_case input)) ≡ 1
unfolding row_for
new_unspent sha256 lower_case input = refl

-- After a challenge is created on a table with unique digests, any history of transactions, which
-- may create and attempt any challenges in any order, compares a code with this challenge's code
-- at most `max_attempts` times, and grants it at most once.
pub create_bounds :
    (sha256 lower_case : String → String) (input : CreateOtpChallengeInput) (rows : List OtpRow)
    (x : OtpChallengeRecord) (es : List Event)
    → IsUnique digest_of rows
    → (create sha256 lower_case input rows).0 ≡ ok x
    → (total sha256 lower_case compared (sha256 input.id) es (create sha256 lower_case input rows).1
        ≤ input.max_attempts)
      × (total sha256 lower_case granted
            (sha256 input.id)
            es
            (create sha256 lower_case input rows).1
          ≤ 1)
create_bounds sha256 lower_case input rows x es u h =
    let after : List OtpRow = (create sha256 lower_case input rows).1 in
    let row : row_of digest_of (sha256 input.id) after ≡ some (row_for sha256 lower_case input) =
      row_of-create_self sha256 lower_case input rows h in
    let u' : IsUnique digest_of after = create-IsUnique sha256 lower_case input rows u in
    (
      omega (
        arith,
        total-le sha256 lower_case compared budget (pays_compared sha256 lower_case)
            (sha256 input.id) es after u' row,
        ap budget row,
        new_budget sha256 lower_case input,
      ),
      omega (
        arith,
        total-le sha256 lower_case granted unspent (pays_granted sha256 lower_case)
            (sha256 input.id) es after u' row,
        ap unspent row,
        new_unspent sha256 lower_case input,
      ),
    )

consumed_wins :
    (sha256 lower_case : String → String) (input : ConsumeOtpChallengeInput) (r : OtpRow)
    (x : OtpChallengeRecord) (v : Verdict)
    → judge_row input r ≡ v
    → answer_as sha256 lower_case input v r ≡ ok (consumed x)
    → judge_row input r ≡ win
consumed_wins sha256 lower_case input r x win e h = e
consumed_wins sha256 lower_case input r x miss e h = cc
consumed_wins sha256 lower_case input r x (refuse o) e h =
    let same : o ≡ consumed x = cc in
    absurd (omega (arith, refuse_lem input r o e, ap (λ y. compared (ok y)) same))

-- The row after an attempt that was granted.
spent_row :
    (sha256 lower_case : String → String) (input : ConsumeOtpChallengeInput) (rows : List OtpRow)
    (x : OtpChallengeRecord)
    → IsUnique digest_of rows
    → (consume sha256 lower_case input rows).0 ≡ ok (consumed x)
    → (r : OtpRow) × (row_of digest_of
          (sha256 input.id)
          (step sha256 lower_case (consumes input) rows)
        ≡ some (spend input.now r))
unfolding commit
spent_row sha256 lower_case input rows x u h =
    let a = sym (consume-Refines sha256 lower_case input rows u).answered ∙ h in
    elim (Option-cases (row_of digest_of (sha256 input.id) rows)) [
      | inl e ↦
          let b : answer sha256 lower_case input none ≡ ok (consumed x) = rw e at a in absurd (cc)
      | inr (r, e) ↦
          let b : answer sha256 lower_case input (some r) ≡ ok (consumed x) = rw e at a in
          let w = consumed_wins sha256 lower_case input r x (judge_row input r) refl b in
          (r, row_of-step_self sha256 lower_case input rows u ∙ rw (e, b, w))
    ]

-- Once an attempt has consumed a challenge, no later attempt in any history has its code compared
-- with it: neither the right code nor a wrong one is seen again.
pub spent_forever :
    (sha256 lower_case : String → String) (input : ConsumeOtpChallengeInput) (rows : List OtpRow)
    (x : OtpChallengeRecord) (es : List Event)
    → IsUnique digest_of rows
    → (consume sha256 lower_case input rows).0 ≡ ok (consumed x)
    → total sha256 lower_case compared
        (sha256 input.id)
        es
        (step sha256 lower_case (consumes input) rows)
      ≡ 0
spent_forever sha256 lower_case input rows x es u h =
    let (r, row) = spent_row sha256 lower_case input rows x u h in
    omega (
      arith,
      total-le sha256 lower_case compared budget (pays_compared sha256 lower_case) (sha256 input.id)
          es (step sha256 lower_case (consumes input) rows)
          (step-IsUnique sha256 lower_case (consumes input) rows u) row,
      ap budget row,
    )

-- The events that do not attempt the challenge of digest `d`.
abbrev pub Elsewhere : (String → String) → String → Event → Type 0
Elsewhere sha256 d (creates input) = Unit
Elsewhere sha256 d (consumes input) = (d == sha256 input.id) ≡ false

-- On unique digests, a history that creates any challenges and attempts only others leaves a
-- challenge's row as it was.
pub run-Elsewhere :
    (sha256 lower_case : String → String) (d : String) (es : List Event) (rows : List OtpRow)
    (r : OtpRow)
    → IsUnique digest_of rows
    → row_of digest_of d rows ≡ some r
    → All (Elsewhere sha256 d) es
    → row_of digest_of d (run sha256 lower_case es rows) ≡ some r
unfolding run
run-Elsewhere sha256 lower_case d [] rows r u h a = h
run-Elsewhere sha256 lower_case d (creates input ∷ es) rows r u h a =
    run-Elsewhere sha256 lower_case d es (step sha256 lower_case (creates input) rows) r
      (step-IsUnique sha256 lower_case (creates input) rows u)
      (row_of-step_create sha256 lower_case d input rows h) a.1
run-Elsewhere sha256 lower_case d (consumes input ∷ es) rows r u h a =
    run-Elsewhere sha256 lower_case d es (step sha256 lower_case (consumes input) rows) r
      (step-IsUnique sha256 lower_case (consumes input) rows u)
      (row_of-step_other sha256 lower_case d input rows u a.0 ∙ h) a.1
