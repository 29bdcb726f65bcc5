-- ===== src/Protocol/History/Revoked.antt =====
-- revokeArtifactsByGrantId uses up every artifact of a grant.
use labpics_id.Prelude.{
  length-map, some_eq, Bool-cases, length, All, ℕ, String, ◌≡◌, refl, inl, inr, true, false, none,
  List, [], ◌∷◌, arith,
}
use labpics_id.Sql.{select, update, returning}
use labpics_id.Sql.Lone.{find-update-none, select-none}
use labpics_id.Domain.Protocol.{ArtifactModel}
use labpics_id.Protocol.Rows.{ArtifactRow}
use labpics_id.Protocol.Artifacts.{
  names, consume_at, consumable, consume_artifact, of_grant, revoke_artifacts_by_grant_id,
}
use labpics_id.Protocol.History.{ArtifactCall, run}
use labpics_id.Protocol.History.Spent.{consume_artifact-Dead, Spares, run-Marked, Dead}

-- Every artifact with the model and id belongs to the grant.
unfoldable pub BelongsTo : String → ArtifactModel → String → List ArtifactRow → Type 0
BelongsTo grant_id model id rows =
    All (λ r. names model id r ≡ true → some_eq r.grant_id grant_id ≡ true) rows

consumed_by_revocation :
    (grant_id : String) (model : ArtifactModel) (id : String) (now : ℕ) (rows : List ArtifactRow)
    → BelongsTo grant_id model id rows
    → All
        (λ r. names model id r ≡ true → Dead 0 r)
        (revoke_artifacts_by_grant_id grant_id now rows).1
unfolding BelongsTo revoke_artifacts_by_grant_id Dead consumable of_grant update
consumed_by_revocation grant_id model id now [] h = tt
consumed_by_revocation grant_id model id now (r ∷ rows) h =
    let rest = consumed_by_revocation grant_id model id now rows h.1 in
    elim (Bool-cases (of_grant grant_id r)) [
      | inl e ↦ rw e (λ n t le. refl, rest)
      | inr e ↦ rw e (λ n t le. spent t (h.0 n) e, rest)
    ]
  where
    spent :
        (t : ℕ)
        → some_eq r.grant_id grant_id ≡ true
        → of_grant grant_id r ≡ false
        → consumable t r ≡ false
    spent t mine e = ground arith

none_left :
    (grant_id : String) (now : ℕ) (rows : List ArtifactRow)
    → select (of_grant grant_id) (revoke_artifacts_by_grant_id grant_id now rows).1 ≡ []
unfolding revoke_artifacts_by_grant_id of_grant
none_left grant_id now rows = select-none (of_grant grant_id) _ (
    find-update-none (of_grant grant_id) (consume_at now) (of_grant grant_id) rows
      (λ r e. ground arith) (λ r e. e))

-- Revoking a grant answers how many of its artifacts were not yet consumed, and leaves none such;
-- after it no artifact of the grant is ever consumed, at any time and over any history of calls that
-- does not store it anew.
pub revoke_artifacts_by_grant_id-Revokes :
    (grant_id : String) (model : ArtifactModel) (id : String) (now later : ℕ)
    (calls : List ArtifactCall) (rows : List ArtifactRow)
    → BelongsTo grant_id model id rows
    → All (Spares model id) calls
    → let (count, after) = revoke_artifacts_by_grant_id grant_id now rows in
      (count ≡ length (select (of_grant grant_id) rows))
      × (select (of_grant grant_id) after ≡ [])
      × ((consume_artifact model id later (run calls after)).0 ≡ none)
unfolding Dead consumable revoke_artifacts_by_grant_id returning
revoke_artifacts_by_grant_id-Revokes grant_id model id now later calls rows mine spares = (
  length-map (consume_at now) (select (of_grant grant_id) rows),
  none_left grant_id now rows,
  consume_artifact-Dead model id 0 later _ (omega arith) (
      run-Marked model id (Dead 0) (λ r at dead t le. refl) (λ r payload dead. dead) calls _ spares
        (consumed_by_revocation grant_id model id now rows mine)),
)
