-- ===== src/Protocol/History/Kept.antt =====
-- Storing an artifact again does not undo its consumption.
use labpics_id.Prelude.{
  is_null, Bool-cases, All, All-mono, ℕ, String, ◌≡◌, refl, inl, inr, Bool, true, false, ◌&&◌, none,
  List, [], ◌∷◌, arith, ◌==◌,
}
use labpics_id.Sql.{update, delete, insert, find}
use labpics_id.Sql.Rows.{All-update, All-insert, All-delete, find-update, find-insert}
use labpics_id.Domain.Json.{Members}
use labpics_id.Domain.Protocol.{ArtifactModel, model_text, ArtifactPutOptions}
use labpics_id.Protocol.Rows.{ArtifactRow}
use labpics_id.Protocol.Artifacts.{
  names, has_uid, index_clash, artifact_row, put_artifact, consumable, consume_artifact,
  destroy_artifact, revoke_artifacts_by_grant_id,
}
use labpics_id.Protocol.Interactions.{
  with_session, with_result, merge_payload, set_interaction_session, finish_interaction,
}
use labpics_id.Protocol.History.{
  ArtifactCall, step, run, puts, consumes_at, destroys, revokes_grant, cleans, sets_session,
  finishes,
}
use labpics_id.Protocol.History.Spent.{names_both, Dead, consume_artifact-Dead}
use labpics_id.Protocol.Artifacts.Put.{keys_same}

-- A call that deletes no artifact of the model and id.
unfoldable pub Leaves : ArtifactModel → String → ArtifactCall → Type 0
Leaves model id (destroys m i) = (model_text m == model_text model && i == id) ≡ false
Leaves model id (cleans now) = ⊥
Leaves model id call = Unit

abbrev Consumed : ArtifactRow → Type 0
Consumed r = is_null r.consumed_at ≡ false

-- The artifact is there, and consumed.
unfoldable pub Used : ArtifactModel → String → List ArtifactRow → Type 0
Used model id rows =
    (is_null (find (names model id) rows) ≡ false)
    × All (λ r. names model id r ≡ true → Consumed r) rows

Consumed-Dead : (r : ArtifactRow) → Consumed r → Dead 0 r
unfolding Dead consumable
Consumed-Dead r h t le = rw h refl

module _ (model : ArtifactModel) (id : String) where
  update-there :
      (p : ArtifactRow → Bool) (f : ArtifactRow → ArtifactRow) (rows : List ArtifactRow)
      → ((r : ArtifactRow) → names model id (f r) ≡ names model id r)
      → is_null (find (names model id) rows) ≡ false
      → is_null (find (names model id) (update p f rows)) ≡ false
  update-there p f rows keeps h = ground (arith, find-update (names model id) p f rows keeps)

  insert-there :
      (r : ArtifactRow) (rows : List ArtifactRow)
      → is_null (find (names model id) rows) ≡ false
      → is_null (find (names model id) (insert r rows)) ≡ false
  insert-there r rows h = ground (arith, find-insert (names model id) r rows)

  find-delete :
      (p : ArtifactRow → Bool) (rows : List ArtifactRow)
      → ((r : ArtifactRow) → p r ≡ true → names model id r ≡ false)
      → find (names model id) (delete p rows) ≡ find (names model id) rows
  unfolding find delete
  find-delete p [] other = refl
  find-delete p (x ∷ rows) other = ground (arith, find-delete p rows other, other x)

  merge_payload-there :
      (uid : String) (change : Members → Members) (rows : List ArtifactRow)
      → is_null (find (names model id) rows) ≡ false
      → is_null (find (names model id) (merge_payload uid change rows).1) ≡ false
  unfolding merge_payload names
  merge_payload-there uid change rows h =
      elim (Bool-cases (is_null (find (has_uid ArtifactModel.interaction uid) rows))) [
        | inr e ↦ rw e (update-there _ _ rows (λ r. refl) h)
        | inl e ↦ elim (Bool-cases (is_null (find (names ArtifactModel.interaction uid) rows))) [
          | inr t ↦ rw (e, t) h
          | inl t ↦ rw (e, t) (insert-there _ rows h)
        ]
      ]

  put_artifact-there :
      (m : ArtifactModel) (i : String) (payload : Members) (options : ArtifactPutOptions)
      (rows : List ArtifactRow)
      → is_null (find (names model id) rows) ≡ false
      → is_null (find (names model id) (put_artifact m i payload options rows).1) ≡ false
  unfolding put_artifact names
  put_artifact-there m i payload options rows h =
      elim (Bool-cases (index_clash (artifact_row m i payload options) rows)) [
        | inl e ↦ rw e h
        | inr e ↦ elim (Bool-cases (is_null (find (names m i) rows))) [
          | inl t ↦ rw (e, t) (insert-there _ rows h)
          | inr t ↦ rw (e, t) (update-there _ _ rows (λ r. refl) h)
        ]
      ]

  new_elsewhere :
      (m : ArtifactModel) (i : String) (rows : List ArtifactRow)
      → is_null (find (names model id) rows) ≡ false
      → is_null (find (names m i) rows) ≡ true
      → (model_text m == model_text model && i == id) ≡ false
  new_elsewhere m i rows there free =
      elim (Bool-cases (model_text m == model_text model && i == id)) [
        | inr e ↦ e
        | inl e ↦
            absurd (let (m≡, i≡) = keys_same m i model id e in let here = rw (m≡, i≡) at free in cc)
      ]

  merge_payload-Consumed :
      (uid : String) (change : Members → Members) (rows : List ArtifactRow)
      → Used model id rows
      → All (λ r. names model id r ≡ true → Consumed r) (merge_payload uid change rows).1
  unfolding merge_payload Used names
  merge_payload-Consumed uid change rows (there, h) =
      elim (Bool-cases (is_null (find (has_uid ArtifactModel.interaction uid) rows))) [
        | inr e ↦ rw e (All-update _ _ _ rows (λ r p q. q) h)
        | inl e ↦ elim (Bool-cases (is_null (find (names ArtifactModel.interaction uid) rows))) [
          | inr t ↦ rw (e, t) h
          | inl t ↦
              rw (e, t)
                (All-insert (λ r. names model id r ≡ true → Consumed r) _ rows h
                  (λ n.
                    absurd
                      (let other = new_elsewhere ArtifactModel.interaction uid rows there t in cc)))
        ]
      ]

  put_artifact-Consumed :
      (m : ArtifactModel) (i : String) (payload : Members) (options : ArtifactPutOptions)
      (rows : List ArtifactRow)
      → Used model id rows
      → All (λ r. names model id r ≡ true → Consumed r) (put_artifact m i payload options rows).1
  unfolding put_artifact Used names
  put_artifact-Consumed m i payload options rows (there, h) =
      elim (Bool-cases (index_clash (artifact_row m i payload options) rows)) [
        | inl e ↦ rw e h
        | inr e ↦ elim (Bool-cases (is_null (find (names m i) rows))) [
          | inl t ↦
              rw (e, t)
                (All-insert (λ r. names model id r ≡ true → Consumed r) _ rows h
                  (λ n. absurd (let other = new_elsewhere m i rows there t in cc)))
          | inr t ↦ rw (e, t) (All-update _ _ _ rows (λ r p q. q) h)
        ]
      ]

  step-Used :
      (call : ArtifactCall) (rows : List ArtifactRow)
      → Leaves model id call
      → Used model id rows
      → Used model id (step call rows)
  unfolding step Leaves Used consume_artifact revoke_artifacts_by_grant_id destroy_artifact
      set_interaction_session finish_interaction names
  step-Used (puts m i payload options) rows leaves u = (
    put_artifact-there m i payload options rows u.0,
    put_artifact-Consumed m i payload options rows u,
  )
  step-Used (consumes_at m i now) rows leaves u =
      (update-there _ _ rows (λ r. refl) u.0, All-update _ _ _ rows (λ r p q n. refl) u.1)
  step-Used (destroys m i) rows leaves u =
      (rw (find-delete (names m i) rows other) u.0, All-delete _ _ rows u.1)
    where
      other : (r : ArtifactRow) → names m i r ≡ true → names model id r ≡ false
      other r h = elim (Bool-cases (names model id r)) [
        | inr e ↦ e
        | inl e ↦ absurd (let same = names_both m i model id r h e in cc)
      ]
  step-Used (cleans now) rows leaves u = elim leaves [ ]
  step-Used (revokes_grant g now) rows leaves u =
      (update-there _ _ rows (λ r. refl) u.0, All-update _ _ _ rows (λ r p q n. refl) u.1)
  step-Used (sets_session uid opened) rows leaves u = (
    merge_payload-there uid (with_session opened) rows u.0,
    merge_payload-Consumed uid (with_session opened) rows u,
  )
  step-Used (finishes uid result merge finished_at) rows leaves u = (
    merge_payload-there uid (with_result result merge finished_at) rows u.0,
    merge_payload-Consumed uid (with_result result merge finished_at) rows u,
  )

  run-Used :
      (calls : List ArtifactCall) (rows : List ArtifactRow)
      → All (Leaves model id) calls
      → Used model id rows
      → Used model id (run calls rows)
  unfolding run
  run-Used [] rows leaves u = u
  run-Used (call ∷ calls) rows leaves u =
      run-Used calls (step call rows) leaves.1 (step-Used call rows leaves.0 u)

-- An artifact that is there and consumed stays so, and is never consumed again, over any history of
-- calls that deletes it neither by itself nor with the expired ones: storing it again, with
-- another payload and a later expiry, does not make it consumable.
pub consume_artifact_kept :
    (model : ArtifactModel) (id : String) (now : ℕ) (calls : List ArtifactCall)
    (rows : List ArtifactRow)
    → Used model id rows
    → All (Leaves model id) calls
    → Used model id (run calls rows) × ((consume_artifact model id now (run calls rows)).0 ≡ none)
unfolding Used
consume_artifact_kept model id now calls rows u leaves =
    let used = run-Used model id calls rows leaves u in
    (
      used,
      consume_artifact-Dead model id 0 now _ (omega arith) (
          All-mono (λ r. names model id r ≡ true → Consumed r)
            (λ r. names model id r ≡ true → Dead 0 r) _ (λ r h n. Consumed-Dead r (h n)) used.1),
    )
