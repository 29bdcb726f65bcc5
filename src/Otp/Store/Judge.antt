-- ===== src/Otp/Store/Judge.antt =====
-- What one attempt at a challenge means, decided on its single row, and the refinement: the three
-- SQL statements of `consume` together do this.
use labpics_id.Prelude.{
  sym, ap, Option-cases, ap, ◌∙◌, Bool-cases, inl, inr, false, ◌-◌, ◌≡◌, refl, not, true, Option,
  none, some, List, String, ◌==◌, eq_iff, arith, leb, is_null, if◌then◌else◌, first,
}
use labpics_id.Sql.{returning}
use labpics_id.Sql.Keyed.{row_of-key, keep, hit, change, row_of, IsUnique}
use labpics_id.Domain.Result.{Result, ok}
use labpics_id.Domain.OtpContract.{
  purpose_text, ConsumeOtpChallengeInput, ConsumeOtpChallengeOutcome, invalid_code, expired,
  already_consumed, not_found,
}
use labpics_id.Otp.Store.Statements.{
  winner, consume_won_rows, spent_rows-IsUnique, charged_rows-IsUnique, answer_absent, answer_win,
  answer_miss, answer_refuse, consume_lost, lose_rows, row_of-spent, row_of-charged,
}
use labpics_id.Otp.Store.{
  consume, OtpRow, digest_of, wins, misses, names, spend, charge, classify, won,
}

pub data Verdict : Type 0 where
  win miss : Verdict
  refuse : ConsumeOtpChallengeOutcome → Verdict

-- The tests in the order in which a reader of the port would make them.
abbrev pub judge_row : ConsumeOtpChallengeInput → OtpRow → Verdict
judge_row input r =
    if not (r.purpose == purpose_text input.purpose)
    then refuse not_found
    else if not (is_null r.consumed_at)
    then refuse already_consumed
    else if leb r.expires_at input.now
    then refuse expired
    else if leb r.attempts_remaining 0
    then refuse not_found
    else if r.code_verifier == input.code_digest
    then win
    else miss

abbrev pub judge : ConsumeOtpChallengeInput → Option OtpRow → Verdict
judge input none = refuse not_found
judge input (some r) = judge_row input r

abbrev pub settle_as : ConsumeOtpChallengeInput → Verdict → OtpRow → OtpRow
settle_as input win r = spend input.now r
settle_as input miss r = charge r
settle_as input (refuse _) r = r

-- The row after the attempt.
abbrev pub settle : ConsumeOtpChallengeInput → Option OtpRow → Option OtpRow
settle input none = none
settle input (some r) = some (settle_as input (judge_row input r) r)

module _ (sha256 lower_case : String → String) where
  abbrev pub answer_as :
      ConsumeOtpChallengeInput → Verdict → OtpRow → Result ConsumeOtpChallengeOutcome
  answer_as input win r = won sha256 lower_case input (spend input.now r)
  answer_as input miss r = ok (invalid_code (r.attempts_remaining - 1))
  answer_as input (refuse o) r = ok o

  -- The answer to the attempt.
  abbrev pub answer : ConsumeOtpChallengeInput → Option OtpRow → Result ConsumeOtpChallengeOutcome
  answer input none = ok not_found
  answer input (some r) = answer_as input (judge_row input r) r

-- The three tests of the statements, and the judgement.
judge_wins :
    (d : String) (input : ConsumeOtpChallengeInput) (r : OtpRow)
    → wins d input r ≡ true
    → judge_row input r ≡ win
unfolding wins
judge_wins d input r h = ground arith

judge_misses :
    (d : String) (input : ConsumeOtpChallengeInput) (r : OtpRow)
    → misses d input r ≡ true
    → judge_row input r ≡ miss
unfolding misses
judge_misses d input r h = ground arith

judge_refuses :
    (d : String) (input : ConsumeOtpChallengeInput) (r : OtpRow)
    → (digest_of r == d) ≡ true
    → wins d input r ≡ false
    → misses d input r ≡ false
    → judge_row input r ≡ refuse (classify input (keep (names d input) (some r)))
unfolding classify wins misses names
judge_refuses d input r k h m = ground arith

judge_elsewhere :
    (d : String) (input : ConsumeOtpChallengeInput) (r : OtpRow)
    → (digest_of r == d) ≡ false
    → (wins d input r ≡ false) × (misses d input r ≡ false)
unfolding wins misses
judge_elsewhere d input r k = ground arith

-- A spent row is charged no more.
misses-spend :
    (d : String) (input : ConsumeOtpChallengeInput) (r : OtpRow)
    → misses d input (spend input.now r) ≡ false
unfolding misses
misses-spend d input r = ground arith

module _ (d : String) (input : ConsumeOtpChallengeInput) (x : OtpRow) where
  -- The row that the losing path leaves, where it did not win.
  row_lost :
      wins d input x ≡ false
      → change (misses d input) charge (change (wins d input) (spend input.now) (some x))
        ≡ (if digest_of x == d then settle input (some x) else some x)
  row_lost w = elim (Bool-cases (digest_of x == d)) [
    | inr k ↦ rw (k, w, (judge_elsewhere d input x k).1)
    | inl k ↦ elim (Bool-cases (misses d input x)) [
      | inl m ↦ rw (k, w, m, judge_misses d input x m)
      | inr m ↦ rw (k, w, m, judge_refuses d input x k w m)
    ]
  ]

  -- The row that the winning statement leaves.
  row_won :
      ((digest_of x == d) ≡ true → wins d input x ≡ true)
      → change (wins d input) (spend input.now) (some x)
        ≡ (if digest_of x == d then settle input (some x) else some x)
  row_won h = elim (Bool-cases (digest_of x == d)) [
    | inr k ↦ rw (k, (judge_elsewhere d input x k).0)
    | inl k ↦ rw (k, h k, judge_wins d input x (h k))
  ]

module _ (sha256 lower_case : String → String) (input : ConsumeOtpChallengeInput)
    (rows : List OtpRow) (u : IsUnique digest_of rows) where
  abbrev d : String
  d = sha256 input.id

  refined_answer :
      (o : Option OtpRow)
      → row_of digest_of d rows ≡ o
      → (consume sha256 lower_case input rows).0 ≡ answer sha256 lower_case input o
  refined_answer none e = answer_absent sha256 lower_case input rows u e
  refined_answer (some r) e =
      let k : (digest_of r == d) ≡ true =
        (eq_iff (digest_of r) d).1 (row_of-key digest_of d rows r e) in
      elim (Bool-cases (wins d input r)) [
        | inl w ↦ rw (judge_wins d input r w) (answer_win sha256 lower_case input rows u r e w)
        | inr w ↦ elim (Bool-cases (misses d input r)) [
          | inl m ↦
              rw (judge_misses d input r m) (answer_miss sha256 lower_case input rows u r e w m)
          | inr m ↦
              rw (judge_refuses d input r k w m)
                (answer_refuse sha256 lower_case input rows u r e w m)
        ]
      ]

  -- What the winning statement says of the row of its key.
  module _ (k : String) (x : OtpRow) (e : row_of digest_of k rows ≡ some x) where
    its_row : (digest_of x == d) ≡ true → row_of digest_of d rows ≡ some x
    its_row h =
        let at_k : digest_of x ≡ k = row_of-key digest_of k rows x e in
        let at_d : digest_of x ≡ d = (eq_iff (digest_of x) d).0 h in
        ap (λ j. row_of digest_of j rows) (sym at_d ∙ at_k) ∙ e

    not_won :
        first (returning (wins d input) (spend input.now) rows) ≡ none → wins d input x ≡ false
    not_won none_won = elim (Bool-cases (digest_of x == d)) [
      | inr h ↦ (judge_elsewhere d input x h).0
      | inl h ↦
          let hit_x : hit (wins d input) (spend input.now) (some x) ≡ none =
            ap (hit (wins d input) (spend input.now)) (sym (its_row h))
            ∙ sym (winner sha256 lower_case input rows u)
            ∙ none_won in
          ground arith
    ]

    won_by :
        {r : OtpRow}
        → first (returning (wins d input) (spend input.now) rows) ≡ some r
        → (digest_of x == d) ≡ true
        → wins d input x ≡ true
    won_by {r} some_won h =
        let hit_x : hit (wins d input) (spend input.now) (some x) ≡ some r =
          ap (hit (wins d input) (spend input.now)) (sym (its_row h))
          ∙ sym (winner sha256 lower_case input rows u)
          ∙ some_won in
        ground arith

    refined_row :
        row_of digest_of k (consume sha256 lower_case input rows).1
        ≡ (if digest_of x == d then settle input (some x) else some x)
    refined_row = elim (Option-cases (first (returning (wins d input) (spend input.now) rows))) [
      | inl n ↦
          rw
            (
              consume_lost sha256 lower_case input rows u n,
              lose_rows sha256 lower_case input rows u,
              row_of-charged sha256 lower_case input rows u k,
              row_of-spent sha256 lower_case input rows u k,
              e,
            )
            (row_lost d input x (not_won n))
      | inr (r, w) ↦
          rw
            (
              consume_won_rows sha256 lower_case input rows u w,
              row_of-spent sha256 lower_case input rows u k,
              e,
            )
            (row_won d input x (won_by w))
    ]

  no_row :
      (k : String)
      → row_of digest_of k rows ≡ none
      → row_of digest_of k (consume sha256 lower_case input rows).1 ≡ none
  no_row k e = elim (Option-cases (first (returning (wins d input) (spend input.now) rows))) [
    | inl n ↦ rw (
      consume_lost sha256 lower_case input rows u n,
      lose_rows sha256 lower_case input rows u,
      row_of-charged sha256 lower_case input rows u k,
      row_of-spent sha256 lower_case input rows u k,
      e,
    )
    | inr (r, w) ↦ rw (
      consume_won_rows sha256 lower_case input rows u w,
      row_of-spent sha256 lower_case input rows u k,
      e,
    )
  ]

  consume-IsUnique : IsUnique digest_of (consume sha256 lower_case input rows).1
  consume-IsUnique = elim (Option-cases (first (returning (wins d input) (spend input.now) rows))) [
    | inl n ↦
        rw (consume_lost sha256 lower_case input rows u n, lose_rows sha256 lower_case input rows u)
          (charged_rows-IsUnique sha256 lower_case input rows u)
    | inr (r, w) ↦
        rw (consume_won_rows sha256 lower_case input rows u w)
          (spent_rows-IsUnique sha256 lower_case input rows u)
  ]

-- An attempt's answer, and the row that the table holds at each key after it.
pub record Refines (sha256 lower_case : String → String) (input : ConsumeOtpChallengeInput)
    (rows : List OtpRow) : Type 0 where
  pub answered :
      (consume sha256 lower_case input rows).0
      ≡ answer sha256 lower_case input (row_of digest_of (sha256 input.id) rows)
  pub settled :
      row_of digest_of (sha256 input.id) (consume sha256 lower_case input rows).1
      ≡ settle input (row_of digest_of (sha256 input.id) rows)
  pub elsewhere :
      (k : String)
      → (k == sha256 input.id) ≡ false
      → row_of digest_of k (consume sha256 lower_case input rows).1 ≡ row_of digest_of k rows
  pub unique : IsUnique digest_of (consume sha256 lower_case input rows).1

-- On a table whose digests are unique, the three SQL statements of `consume` answer what the
-- judgement of the single row of the presented challenge says, leave that row as the judgement
-- settles it, leave the row of every other challenge as it was, and keep the digests unique.
pub consume-Refines :
    (sha256 lower_case : String → String) (input : ConsumeOtpChallengeInput) (rows : List OtpRow)
    → IsUnique digest_of rows
    → Refines sha256 lower_case input rows
consume-Refines sha256 lower_case input rows u =
    let d : String = sha256 input.id in
    record {
      answered = refined_answer sha256 lower_case input rows u (row_of digest_of d rows) refl;
      settled = elim (Option-cases (row_of digest_of d rows)) [
        | inl e ↦ rw e (no_row sha256 lower_case input rows u d e)
        | inr (x, e) ↦
            let k : (digest_of x == d) ≡ true =
              (eq_iff (digest_of x) d).1 (row_of-key digest_of d rows x e) in
            rw e (refined_row sha256 lower_case input rows u d x e ∙ rw k)
      ];
      elsewhere = λ k ne. elim (Option-cases (row_of digest_of k rows)) [
        | inl e ↦ rw e (no_row sha256 lower_case input rows u k e)
        | inr (x, e) ↦
            let at_k : digest_of x ≡ k = row_of-key digest_of k rows x e in
            let other : (digest_of x == d) ≡ false = rw at_k ne in
            rw e (refined_row sha256 lower_case input rows u k x e ∙ rw other)
      ];
      unique = consume-IsUnique sha256 lower_case input rows u;
    }
