-- ===== src/Otp/Store/Statements.antt =====
-- The three SQL statements of `consume`, each seen from the one row that has the challenge's digest.
use labpics_id.Prelude.{
  Option-cases, ap, ◌∙◌, inl, inr, false, ◌-◌, ◌≡◌, refl, true, none, some, List, String, eq_iff,
  arith, first,
}
use labpics_id.Sql.{find, update, returning}
use labpics_id.Sql.Keyed.{
  update-IsUnique, keep, hit, change, row_of, IsUnique, row_of-update, update-IsUnique, find-keyed,
  returning-keyed,
}
use labpics_id.Domain.Result.{ok}
use labpics_id.Domain.OtpContract.{ConsumeOtpChallengeInput, invalid_code, not_found}
use labpics_id.Otp.Store.{
  consume, OtpRow, digest_of, wins, misses, names, spend, charge, classify, won, lose,
}

-- The tests of the statements fix the key.
at_key_wins :
    (d : String) (input : ConsumeOtpChallengeInput) (r : OtpRow)
    → wins d input r ≡ true
    → digest_of r ≡ d
unfolding wins
at_key_wins d input r h = (eq_iff (digest_of r) d).0 (ground arith)

at_key_misses :
    (d : String) (input : ConsumeOtpChallengeInput) (r : OtpRow)
    → misses d input r ≡ true
    → digest_of r ≡ d
unfolding misses
at_key_misses d input r h = (eq_iff (digest_of r) d).0 (ground arith)

at_key_names :
    (d : String) (input : ConsumeOtpChallengeInput) (r : OtpRow)
    → names d input r ≡ true
    → digest_of r ≡ d
unfolding names
at_key_names d input r h = (eq_iff (digest_of r) d).0 (ground arith)

module _ (sha256 lower_case : String → String) (input : ConsumeOtpChallengeInput)
    (rows : List OtpRow) (u : IsUnique digest_of rows) where
  abbrev pub d : String
  d = sha256 input.id

  abbrev pub spent_rows : List OtpRow
  spent_rows = update (wins d input) (spend input.now) rows

  pub spent_rows-IsUnique : IsUnique digest_of spent_rows
  spent_rows-IsUnique =
      update-IsUnique digest_of (wins d input) (spend input.now) (λ r. refl) rows u

  consume-won :
      {r : OtpRow}
      → first (returning (wins d input) (spend input.now) rows) ≡ some r
      → (consume sha256 lower_case input rows).0 ≡ won sha256 lower_case input r
  unfolding consume
  consume-won e = rw (e, consume)

  pub consume_won_rows :
      {r : OtpRow}
      → first (returning (wins d input) (spend input.now) rows) ≡ some r
      → (consume sha256 lower_case input rows).1 ≡ spent_rows
  unfolding consume
  consume_won_rows e = rw (e, consume)

  pub charged_rows-IsUnique : IsUnique digest_of (update (misses d input) charge spent_rows)
  charged_rows-IsUnique =
      update-IsUnique digest_of (misses d input) charge (λ r. refl) spent_rows spent_rows-IsUnique

  pub consume_lost :
      first (returning (wins d input) (spend input.now) rows) ≡ none
      → consume sha256 lower_case input rows ≡ lose sha256 lower_case input spent_rows
  unfolding consume
  consume_lost e = rw (e, consume)

  abbrev pub charged_rows : List OtpRow
  charged_rows = update (misses d input) charge spent_rows

  lose_charged :
      {r : OtpRow}
      → first (returning (misses d input) charge spent_rows) ≡ some r
      → (lose sha256 lower_case input spent_rows).0 ≡ ok (invalid_code r.attempts_remaining)
  unfolding lose
  lose_charged e = rw (e, lose)

  lose_refused :
      first (returning (misses d input) charge spent_rows) ≡ none
      → (lose sha256 lower_case input spent_rows).0
        ≡ ok (classify input (find (names d input) charged_rows))
  unfolding lose
  lose_refused e = rw (e, lose)

  -- What each statement meets, from the row of the key.
  pub winner :
      first (returning (wins d input) (spend input.now) rows)
      ≡ hit (wins d input) (spend input.now) (row_of digest_of d rows)
  winner = returning-keyed digest_of (wins d input) (spend input.now) d rows u (at_key_wins d input)

  spent_row :
      row_of digest_of d spent_rows
      ≡ change (wins d input) (spend input.now) (row_of digest_of d rows)
  spent_row = row_of-update digest_of (wins d input) (spend input.now) (λ r. refl) d rows

  charged :
      first (returning (misses d input) charge spent_rows)
      ≡ hit (misses d input) charge (row_of digest_of d spent_rows)
  charged =
      returning-keyed digest_of (misses d input) charge d spent_rows spent_rows-IsUnique
        (at_key_misses d input)

  charged_row :
      row_of digest_of d charged_rows
      ≡ change (misses d input) charge (row_of digest_of d spent_rows)
  charged_row = row_of-update digest_of (misses d input) charge (λ r. refl) d spent_rows

  left_over :
      find (names d input) charged_rows ≡ keep (names d input) (row_of digest_of d charged_rows)
  left_over =
      find-keyed digest_of (names d input) d charged_rows
        (update-IsUnique digest_of (misses d input) charge (λ r. refl) spent_rows
          spent_rows-IsUnique)
        (at_key_names d input)

  pub answer_absent :
      row_of digest_of d rows ≡ none → (consume sha256 lower_case input rows).0 ≡ ok not_found
  unfolding classify
  answer_absent e =
      let s : row_of digest_of d spent_rows ≡ none =
        spent_row ∙ ap (change (wins d input) (spend input.now)) e in
      let c : row_of digest_of d charged_rows ≡ none =
        charged_row ∙ ap (change (misses d input) charge) s in
      ap (λ x. x.0) (consume_lost (winner ∙ ap (hit (wins d input) (spend input.now)) e))
      ∙ lose_refused (charged ∙ ap (hit _ _) s)
      ∙ ap (λ o. ok (classify input o)) (left_over ∙ ap (keep _) c)

  module _ (r : OtpRow) (e : row_of digest_of d rows ≡ some r) where
    pub answer_win :
        wins d input r ≡ true
        → (consume sha256 lower_case input rows).0 ≡ won sha256 lower_case input (spend input.now r)
    answer_win w = consume-won (winner ∙ ap (hit (wins d input) (spend input.now)) e ∙ rw w)

    module _ (w : wins d input r ≡ false) where
      lost : consume sha256 lower_case input rows ≡ lose sha256 lower_case input spent_rows
      lost = consume_lost (winner ∙ ap (hit (wins d input) (spend input.now)) e ∙ rw w)

      same : row_of digest_of d spent_rows ≡ some r
      same = spent_row ∙ ap (change (wins d input) (spend input.now)) e ∙ rw w

      pub answer_miss :
          misses d input r ≡ true
          → (consume sha256 lower_case input rows).0 ≡ ok (invalid_code (r.attempts_remaining - 1))
      answer_miss m =
          ap (λ x. x.0) lost
          ∙ lose_charged {r = charge r} (charged ∙ ap (hit (misses d input) charge) same ∙ rw m)

      pub answer_refuse :
          misses d input r ≡ false
          → (consume sha256 lower_case input rows).0
            ≡ ok (classify input (keep (names d input) (some r)))
      answer_refuse m =
          let c : row_of digest_of d charged_rows ≡ some r =
            charged_row ∙ ap (change (misses d input) charge) same ∙ rw m in
          ap (λ x. x.0) lost
          ∙ lose_refused (charged ∙ ap (hit (misses d input) charge) same ∙ rw m)
          ∙ ap (λ o. ok (classify input o)) (left_over ∙ ap (keep (names d input)) c)

  -- The other rows, and the row of the key, after the call.
  pub lose_rows : (lose sha256 lower_case input spent_rows).1 ≡ charged_rows
  unfolding lose
  lose_rows = elim (Option-cases (first (returning (misses d input) charge spent_rows))) [
    | inl e ↦ rw (e, lose)
    | inr (r, e) ↦ rw (e, lose)
  ]

  module _ (k : String) where
    pub row_of-spent :
        row_of digest_of k spent_rows
        ≡ change (wins d input) (spend input.now) (row_of digest_of k rows)
    row_of-spent = row_of-update digest_of (wins d input) (spend input.now) (λ r. refl) k rows

    pub row_of-charged :
        row_of digest_of k charged_rows
        ≡ change (misses d input) charge (row_of digest_of k spent_rows)
    row_of-charged = row_of-update digest_of (misses d input) charge (λ r. refl) k spent_rows
