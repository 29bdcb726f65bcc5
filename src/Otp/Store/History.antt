-- ===== src/Otp/Store/History.antt =====
-- Histories of committed transactions on the challenge table: creations and attempts in any order,
-- by any callers. A transaction whose method throws is rolled back.
use labpics_id.Prelude.{
  Option-cases, ℕ, ◌+◌, ◌≤◌, ◌≡◌, refl, sym, ap, ◌∙◌, false, Option, none, some, List, [], ◌∷◌,
  String, ◌==◌, eq_iff, arith, if◌then◌else◌, is_null, Bool-cases, inl, inr,
}
use labpics_id.Sql.Keyed.{row_of, IsUnique, row_of-insert, insert-IsUnique}
use labpics_id.Domain.Result.{Result, ok, thrown}
use labpics_id.Domain.OtpContract.{
  CreateOtpChallengeInput, ConsumeOtpChallengeInput, ConsumeOtpChallengeOutcome, consumed,
  invalid_code,
}
use labpics_id.Otp.Store.{OtpRow, digest_of, row_for, create, consume}
use labpics_id.Otp.Store.Judge.{answer, settle, consume-Refines}

pub data Event : Type 0 where
  creates : CreateOtpChallengeInput → Event
  consumes : ConsumeOtpChallengeInput → Event

-- What a transaction leaves: the method's rows, or the old ones if it threw.
unfoldable pub commit : {A S : Type 0} → Result A → S → S → S
commit (ok _) after before = after
commit (thrown _) after before = before

-- Answers for which a code was compared with the challenge's: the right and the wrong ones.
abbrev pub compared : Result ConsumeOtpChallengeOutcome → ℕ
compared (ok (consumed _)) = 1
compared (ok (invalid_code _)) = 1
compared _ = 0

abbrev pub granted : Result ConsumeOtpChallengeOutcome → ℕ
granted (ok (consumed _)) = 1
granted _ = 0

-- Comparisons that a challenge can still see, and grants.
abbrev pub budget : Option OtpRow → ℕ
budget none = 0
budget (some r) = if is_null r.consumed_at then r.attempts_remaining else 0

abbrev pub unspent : Option OtpRow → ℕ
unspent none = 0
unspent (some r) = if is_null r.consumed_at then 1 else 0

module _ (sha256 lower_case : String → String) where
  unfoldable pub step : Event → List OtpRow → List OtpRow
  unfolding commit
  step (creates input) rows =
      let (r, rows') = create sha256 lower_case input rows in commit r rows' rows
  step (consumes input) rows =
      let (r, rows') = consume sha256 lower_case input rows in commit r rows' rows

  unfoldable pub weigh : (Result ConsumeOtpChallengeOutcome → ℕ) → String → Event → List OtpRow → ℕ
  weigh weight d (creates input) rows = 0
  weigh weight d (consumes input) rows =
      if d == sha256 input.id then weight (consume sha256 lower_case input rows).0 else 0

  -- The weights of a challenge's attempts, added up over a history.
  unfoldable pub total :
      (Result ConsumeOtpChallengeOutcome → ℕ) → String → List Event → List OtpRow → ℕ
  total weight d [] rows = 0
  total weight d (e ∷ es) rows = weigh weight d e rows + total weight d es (step e rows)

  unfoldable pub run : List Event → List OtpRow → List OtpRow
  run [] rows = rows
  run (e ∷ es) rows = run es (step e rows)

-- A property, or a reading, of what a transaction leaves.
commit_lem :
    {A S : Type 0} (P : S → Type 0) (r : Result A) (after before : S)
    → P after
    → P before
    → P (commit r after before)
unfolding commit
commit_lem P (ok _) after before h k = h
commit_lem P (thrown _) after before h k = k

commit-ap :
    {A S T : Type 0} (f : S → T) (r : Result A) (after before : S)
    → f (commit r after before) ≡ commit r (f after) (f before)
unfolding commit
commit-ap f (ok _) after before = refl
commit-ap f (thrown _) after before = refl

commit_same : {A S : Type 0} (r : Result A) (s : S) → commit r s s ≡ s
unfolding commit
commit_same (ok _) s = refl
commit_same (thrown _) s = refl

module _ (sha256 lower_case : String → String) where
  pub create-IsUnique :
      (input : CreateOtpChallengeInput) (rows : List OtpRow)
      → IsUnique digest_of rows
      → IsUnique digest_of (create sha256 lower_case input rows).1
  unfolding create
  create-IsUnique input rows u = elim (Option-cases (row_of digest_of (sha256 input.id) rows)) [
    | inl e ↦ rw e (insert-IsUnique digest_of (row_for sha256 lower_case input) rows e u)
    | inr (r, e) ↦ rw e u
  ]

  -- A creation leaves the rows that are there.
  row_of-create :
      (d : String) (input : CreateOtpChallengeInput) (rows : List OtpRow) {r : OtpRow}
      → row_of digest_of d rows ≡ some r
      → row_of digest_of d (create sha256 lower_case input rows).1 ≡ some r
  unfolding create
  row_of-create d input rows {r} h = elim (Option-cases (row_of digest_of (sha256 input.id) rows)) [
    | inr (x, e) ↦ rw e h
    | inl e ↦
        let stays : (if sha256 input.id == d
              then some (row_for sha256 lower_case input)
              else row_of digest_of d rows)
            ≡ some r =
          ground (arith, eq_iff (sha256 input.id) d) in
        rw e (row_of-insert digest_of d (row_for sha256 lower_case input) rows e ∙ stays)
  ]

  pub step-IsUnique :
      (e : Event) (rows : List OtpRow)
      → IsUnique digest_of rows
      → IsUnique digest_of (step sha256 lower_case e rows)
  unfolding step
  step-IsUnique (creates input) rows u =
      commit_lem (IsUnique digest_of) (create sha256 lower_case input rows).0 _ rows
        (create-IsUnique input rows u) u
  step-IsUnique (consumes input) rows u =
      commit_lem (IsUnique digest_of) (consume sha256 lower_case input rows).0 _ rows
        (consume-Refines sha256 lower_case input rows u).unique u

  -- The row of a challenge after an attempt at it, and after an attempt at another one.
  pub row_of-step_self :
      (input : ConsumeOtpChallengeInput) (rows : List OtpRow)
      → IsUnique digest_of rows
      → row_of digest_of (sha256 input.id) (step sha256 lower_case (consumes input) rows)
        ≡ commit
            (answer sha256 lower_case input (row_of digest_of (sha256 input.id) rows))
            (settle input (row_of digest_of (sha256 input.id) rows))
            (row_of digest_of (sha256 input.id) rows)
  unfolding step
  row_of-step_self input rows u =
      let f = consume-Refines sha256 lower_case input rows u in
      commit-ap (row_of digest_of (sha256 input.id)) (consume sha256 lower_case input rows).0 _ rows
      ∙ rw (f.answered, f.settled)

  pub row_of-step_other :
      (k : String) (input : ConsumeOtpChallengeInput) (rows : List OtpRow)
      → IsUnique digest_of rows
      → (k == sha256 input.id) ≡ false
      → row_of digest_of k (step sha256 lower_case (consumes input) rows) ≡ row_of digest_of k rows
  unfolding step
  row_of-step_other k input rows u ne =
      commit-ap (row_of digest_of k) (consume sha256 lower_case input rows).0 _ rows
      ∙ rw ((consume-Refines sha256 lower_case input rows u).elsewhere k ne)
          (commit_same (consume sha256 lower_case input rows).0 (row_of digest_of k rows))

  pub row_of-step_create :
      (d : String) (input : CreateOtpChallengeInput) (rows : List OtpRow) {r : OtpRow}
      → row_of digest_of d rows ≡ some r
      → row_of digest_of d (step sha256 lower_case (creates input) rows) ≡ some r
  unfolding step
  row_of-step_create d input rows {r} h =
      commit_lem (λ t. row_of digest_of d t ≡ some r) (create sha256 lower_case input rows).0 _ rows
        (row_of-create d input rows h) h

  -- A challenge keeps its row.
  step-some :
      (d : String) (e : Event) (rows : List OtpRow) (r : OtpRow)
      → IsUnique digest_of rows
      → row_of digest_of d rows ≡ some r
      → (r' : OtpRow) × (row_of digest_of d (step sha256 lower_case e rows) ≡ some r')
  step-some d (creates input) rows r u h = (r, row_of-step_create d input rows h)
  step-some d (consumes input) rows r u h = elim (Bool-cases (d == sha256 input.id)) [
    | inr ne ↦ (r, row_of-step_other d input rows u ne ∙ h)
    | inl same ↦
        let e : d ≡ sha256 input.id = (eq_iff d (sha256 input.id)).0 same in
        let h' : row_of digest_of (sha256 input.id) rows ≡ some r = rw e at h in
        rw e (after input rows r u h')
  ]
    where
      stays :
          (x : Result ConsumeOtpChallengeOutcome) (a b : OtpRow)
          → (r' : OtpRow) × (commit x (some a) (some b) ≡ some r')
      stays (ok _) a b = (a, unfold commit in refl)
      stays (thrown _) a b = (b, unfold commit in refl)

      after :
          (input : ConsumeOtpChallengeInput) (rows : List OtpRow) (r : OtpRow)
          → IsUnique digest_of rows
          → row_of digest_of (sha256 input.id) rows ≡ some r
          → (r' : OtpRow) × (row_of digest_of
                (sha256 input.id)
                (step sha256 lower_case (consumes input) rows)
              ≡ some r')
      after input rows r u h =
          rw (row_of-step_self input rows u, h)
            (stays (answer sha256 lower_case input (some r)) _ r)

  -- A measure of the challenge's row that pays for the weight of every attempt bounds the total.
  module _ (weight : Result ConsumeOtpChallengeOutcome → ℕ) (measure : Option OtpRow → ℕ)
      (pays : (input : ConsumeOtpChallengeInput) (o : Option OtpRow)
        → weight (answer sha256 lower_case input o)
            + measure (commit (answer sha256 lower_case input o) (settle input o) o)
          ≤ measure o) where
    paid :
        (d : String) (input : ConsumeOtpChallengeInput) (rows : List OtpRow)
        → IsUnique digest_of rows
        → weigh sha256 lower_case weight d (consumes input) rows
            + measure (row_of digest_of d (step sha256 lower_case (consumes input) rows))
          ≤ measure (row_of digest_of d rows)
    unfolding weigh
    paid d input rows u = elim (Bool-cases (d == sha256 input.id)) [
      | inr ne ↦ rw (ne, row_of-step_other d input rows u ne) (omega arith)
      | inl same ↦
          let e : d ≡ sha256 input.id = (eq_iff d (sha256 input.id)).0 same in
          rw
            (
              same,
              e,
              row_of-step_self input rows u,
              (consume-Refines sha256 lower_case input rows u).answered,
            )
            (pays input (row_of digest_of (sha256 input.id) rows))
    ]

    pub total-le :
        (d : String) (es : List Event) (rows : List OtpRow) {r : OtpRow}
        → IsUnique digest_of rows
        → row_of digest_of d rows ≡ some r
        → total sha256 lower_case weight d es rows ≤ measure (row_of digest_of d rows)
    unfolding total weigh
    total-le d [] rows u h = omega arith
    total-le d (creates input ∷ es) rows {r} u h =
        let next = row_of-step_create d input rows h in
        let ih =
          total-le d es (step sha256 lower_case (creates input) rows)
            (step-IsUnique (creates input) rows u) next in
        omega (arith, ih, ap measure (next ∙ sym h))
    total-le d (consumes input ∷ es) rows {r} u h =
        let (r', next) = step-some d (consumes input) rows r u h in
        let ih =
          total-le d es (step sha256 lower_case (consumes input) rows)
            (step-IsUnique (consumes input) rows u) next in
        omega (arith, ih, paid d input rows u)
