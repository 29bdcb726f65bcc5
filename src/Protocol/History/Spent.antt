-- ===== src/Protocol/History/Spent.antt =====
-- An artifact is consumed once: what no later call brings back.
use labpics_id.Prelude.{
  is_null, Bool-cases, length, All, All-mono, ℕ, suc, ◌≤◌, String, ◌≡◌, refl, inl, inr, Bool, true,
  false, ◌&&◌, none, List, [], ◌∷◌, arith, ◌==◌, eq_iff,
}
use labpics_id.Sql.{select, returning, find}
use labpics_id.Sql.Rows.{All-update, All-update-All, All-insert, All-delete}
use labpics_id.Domain.Json.{Members, no_members}
use labpics_id.Domain.Protocol.{ArtifactModel, model_text, ArtifactPutOptions}
use labpics_id.Protocol.Rows.{ArtifactRow}
use labpics_id.Protocol.Artifacts.{
  names, has_uid, index_clash, artifact_row, overwrite, put_artifact, consume_at, consumable,
  consumes, consume_artifact, destroy_artifact, of_grant, revoke_artifacts_by_grant_id, disposable,
}
use labpics_id.Protocol.Artifacts.Cleanup.{cleanup_expired_artifacts-Ends}
use labpics_id.Protocol.Interactions.{
  with_session, with_result, interaction_row, merge_payload, set_interaction_session,
  finish_interaction,
}
use labpics_id.Protocol.History.{
  ArtifactCall, step, run, puts, consumes_at, destroys, revokes_grant, cleans, sets_session,
  finishes,
}

-- A call that stores no artifact of the model and id: neither putArtifact nor the interaction methods,
-- which may start one.
unfoldable pub Spares : ArtifactModel → String → ArtifactCall → Type 0
Spares model id (puts m i payload options) =
    names model id (artifact_row m i payload options) ≡ false
Spares model id (sets_session uid opened) = names model id (interaction_row uid no_members) ≡ false
Spares model id (finishes uid result merge finished_at) =
    names model id (interaction_row uid no_members) ≡ false
Spares model id call = Unit

pub names_both :
    (m : ArtifactModel) (i : String) (model : ArtifactModel) (id : String) (r : ArtifactRow)
    → names m i r ≡ true
    → names model id r ≡ true
    → (model_text m == model_text model && i == id) ≡ true
unfolding names
names_both m i model id r h k =
    grind (arith, eq_iff (model_text r.model) (model_text m), eq_iff r.id i)

-- A property of the artifacts with a model and id that consuming and new payloads keep.
module _ (model : ArtifactModel) (id : String) (Q : ArtifactRow → Type 0)
    (consuming : (r : ArtifactRow) (now : ℕ) → Q r → Q (consume_at now r))
    (merging : (r : ArtifactRow) (payload : Members)
      → Q r
      → Q (record r { payload = payload })) where
  abbrev pub Marked : ArtifactRow → Type 0
  Marked r = names model id r ≡ true → Q r

  merge_payload-Marked :
      (uid : String) (change : Members → Members) (rows : List ArtifactRow)
      → names model id (interaction_row uid no_members) ≡ false
      → All Marked rows
      → All Marked (merge_payload uid change rows).1
  unfolding merge_payload names
  merge_payload-Marked uid change rows other h =
      elim (Bool-cases (is_null (find (has_uid ArtifactModel.interaction uid) rows))) [
        | inr e ↦ rw e (
            All-update Marked (has_uid ArtifactModel.interaction uid) _ rows
              (λ r p q n. merging r _ (q n)) h)
        | inl e ↦ elim (Bool-cases (is_null (find (names ArtifactModel.interaction uid) rows))) [
          | inr t ↦ rw (e, t) h
          | inl t ↦ rw (e, t) (All-insert Marked _ rows h (λ n. absurd (cc)))
        ]
      ]

  put_artifact-Marked :
      (m : ArtifactModel) (i : String) (payload : Members) (options : ArtifactPutOptions)
      (rows : List ArtifactRow)
      → names model id (artifact_row m i payload options) ≡ false
      → All Marked rows
      → All Marked (put_artifact m i payload options rows).1
  unfolding put_artifact names
  put_artifact-Marked m i payload options rows other h =
      elim (Bool-cases (index_clash (artifact_row m i payload options) rows)) [
        | inl e ↦ rw e h
        | inr e ↦ elim (Bool-cases (is_null (find (names m i) rows))) [
          | inl t ↦ rw (e, t) (All-insert Marked _ rows h (λ n. absurd (cc)))
          | inr t ↦
              rw (e, t)
                (All-update Marked (names m i) (overwrite payload options) rows
                  (λ r p q n. absurd (let same = names_both m i model id r p n in cc)) h)
        ]
      ]

  step-Marked :
      (call : ArtifactCall) (rows : List ArtifactRow)
      → Spares model id call
      → All Marked rows
      → All Marked (step call rows)
  unfolding step Spares consume_artifact revoke_artifacts_by_grant_id destroy_artifact names
      set_interaction_session finish_interaction
  step-Marked (puts m i payload options) rows other h =
      put_artifact-Marked m i payload options rows other h
  step-Marked (consumes_at m i now) rows other h =
      All-update Marked (consumes m i now) (consume_at now) rows (λ r e q n. consuming r now (q n))
        h
  step-Marked (destroys m i) rows other h = All-delete Marked (names m i) rows h
  step-Marked (revokes_grant g now) rows other h =
      All-update Marked (of_grant g) (consume_at now) rows (λ r e q n. consuming r now (q n)) h
  step-Marked (cleans now) rows other h =
      rw (cleanup_expired_artifacts-Ends (suc (length rows)) now rows (omega arith))
        (All-delete Marked (disposable now) rows h)
  step-Marked (sets_session uid opened) rows other h =
      merge_payload-Marked uid (with_session opened) rows other h
  step-Marked (finishes uid result merge finished_at) rows other h =
      merge_payload-Marked uid (with_result result merge finished_at) rows other h

  pub run-Marked :
      (calls : List ArtifactCall) (rows : List ArtifactRow)
      → All (Spares model id) calls
      → All Marked rows
      → All Marked (run calls rows)
  unfolding run
  run-Marked [] rows spares h = h
  run-Marked (call ∷ calls) rows spares h =
      run-Marked calls (step call rows) spares.1 (step-Marked call rows spares.0 h)

select_none :
    (p : ArtifactRow → Bool) (rows : List ArtifactRow)
    → All (λ r. p r ≡ false) rows
    → select p rows ≡ []
unfolding select
select_none p [] h = refl
select_none p (r ∷ rows) h = rw h.0 (select_none p rows h.1)

-- Not consumable at the time nor after it.
unfoldable pub Dead : ℕ → ArtifactRow → Type 0
Dead now r = (t : ℕ) → now ≤ t → consumable t r ≡ false

consume_artifact_settles :
    (model : ArtifactModel) (id : String) (now : ℕ) (rows : List ArtifactRow)
    → All (λ r. names model id r ≡ true → Dead now r) (consume_artifact model id now rows).1
unfolding consume_artifact Dead consumable consumes
consume_artifact_settles model id now rows =
    All-update-All (λ r. names model id r ≡ true → Dead now r) (consumes model id now)
      (consume_at now) rows (λ r e n t le. refl) (λ r e n t le. ground arith)

pub consume_artifact-Dead :
    (model : ArtifactModel) (id : String) (now later : ℕ) (rows : List ArtifactRow)
    → now ≤ later
    → All (λ r. names model id r ≡ true → Dead now r) rows
    → (consume_artifact model id later rows).0 ≡ none
unfolding consume_artifact returning consumes Dead
consume_artifact-Dead model id now later rows le h =
    let all_fail =
      All-mono (λ r. names model id r ≡ true → Dead now r) (λ r. consumes model id later r ≡ false)
        rows fails h in
    rw (select_none (consumes model id later) rows all_fail) refl
  where
    fails :
        (r : ArtifactRow)
        → (names model id r ≡ true → Dead now r)
        → consumes model id later r ≡ false
    fails r dead = elim (Bool-cases (names model id r)) [
      | inl e ↦ rw (e, dead e later le) refl
      | inr e ↦ rw e refl
    ]

-- An artifact that was presented once for consumption is never consumed again, whatever the first
-- answer was: not at any later time, and not after any history of other calls that does not
-- store an artifact of that model and id anew.
pub consume_artifact_once :
    (model : ArtifactModel) (id : String) (now later : ℕ) (calls : List ArtifactCall)
    (rows : List ArtifactRow)
    → now ≤ later
    → All (Spares model id) calls
    → (consume_artifact model id later (run calls (consume_artifact model id now rows).1)).0 ≡ none
unfolding Dead consumable
consume_artifact_once model id now later calls rows le spares =
    consume_artifact-Dead model id now later _ le (
      run-Marked model id (Dead now) (consuming now) (λ r payload dead. dead) calls _ spares
        (consume_artifact_settles model id now rows))
  where
    consuming : (now : ℕ) (r : ArtifactRow) (at : ℕ) → Dead now r → Dead now (consume_at at r)
    consuming now r at dead t le = refl
