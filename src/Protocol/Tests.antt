-- ===== src/Protocol/Tests.antt =====
-- Runs of the artifact and interaction methods of packages/db/src/protocol-adapter.ts.
use labpics_id.Prelude.{length, ◌≡◌, refl, true, false, none, some, List, [], ◌∷◌, arith}
use labpics_id.Sql.{select, update, delete, find}
use labpics_id.Domain.Result.{unique_violation, thrown}
use labpics_id.Domain.Json.{text, no_members, member}
use labpics_id.Domain.Protocol.{
  ArtifactModel, ArtifactPutOptions, InteractionSession, InteractionResult,
}
use labpics_id.Protocol.Rows.{ArtifactRow}
use labpics_id.Protocol.Artifacts.{
  names, has_uid, artifact_record, get_artifact, index_clash, artifact_row, put_artifact,
  consume_at, consume_artifact, of_grant, revoke_artifacts_by_grant_id, disposable, delete_some,
  cleanup_loop, cleanup_expired_artifacts,
}
use labpics_id.Protocol.Artifacts.Cleanup.{cleanup_expired_artifacts-Ends}
use labpics_id.Protocol.Artifacts.Put.{stored, get_artifact-put_artifact}
use labpics_id.Protocol.Interactions.{
  get_interaction_details, merge_payload, set_interaction_session, finish_interaction,
}
use labpics_id.Protocol.Interactions.Details.{
  details_or_blank, signed_in, set_interaction_session-details, finish_interaction-details,
}
use labpics_id.Protocol.History.{
  ArtifactCall, run, puts, consumes_at, destroys, revokes_grant, sets_session, finishes,
}
use labpics_id.Protocol.History.Spent.{Spares, consume_artifact_once}
use labpics_id.Protocol.History.Kept.{Leaves, Used, consume_artifact_kept}
use labpics_id.Protocol.History.Revoked.{BelongsTo, revoke_artifacts_by_grant_id-Revokes}

abbrev code_options : ArtifactPutOptions
code_options = record {
  grant_id = some "g1";
  expires_at = some 60_000;
  uid = none;
  user_code = none;
}

abbrev later_options : ArtifactPutOptions
later_options = record {
  grant_id = some "g2";
  expires_at = some 900_000;
  uid = some "u";
  user_code = none;
}

abbrev code_row : ArtifactRow
code_row =
    artifact_row ArtifactModel.authorization_code "code" (member "a" (text "b") no_members)
      code_options

abbrev used_row : ArtifactRow
used_row = consume_at 1000 code_row

abbrev session_row : ArtifactRow
session_row =
    artifact_row ArtifactModel.session "s" no_members
      (record { grant_id = none; expires_at = none; uid = some "u"; user_code = none })

abbrev artifacts : List ArtifactRow
artifacts = code_row ∷ session_row ∷ []

abbrev opened : InteractionSession
opened = record { subject_id = "anna"; session_id = "s1" }

abbrev decided : InteractionResult
decided = record {
  account_id = "anna";
  remember = true;
  reject = false;
  scope = some ("openid" ∷ []);
}

abbrev calls : List ArtifactCall
calls =
    consumes_at ArtifactModel.session "s" 1500
    ∷ revokes_grant "g2" 1600
    ∷ sets_session "i1" opened
    ∷ finishes "i1" decided true "2026-01-01T00:00:00.000Z"
    ∷ []

put_artifact-test :
    get_artifact ArtifactModel.authorization_code "code"
      (put_artifact ArtifactModel.authorization_code "code" no_members later_options
        (used_row ∷ [])).1
    ≡ some (
        stored ArtifactModel.authorization_code "code" no_members later_options
          (some (artifact_record used_row)))
unfolding get_artifact put_artifact find index_clash has_uid names update
put_artifact-test = refl

clash-test :
    (put_artifact ArtifactModel.session "t" no_members later_options artifacts).0
    ≡ thrown unique_violation
unfolding put_artifact index_clash find has_uid names
clash-test = refl

get_artifact-put_artifact_example :
    get_artifact ArtifactModel.session "s"
      (put_artifact ArtifactModel.authorization_code "code" no_members later_options artifacts).1
    ≡ get_artifact ArtifactModel.session "s" artifacts
unfolding put_artifact get_artifact index_clash find names has_uid
get_artifact-put_artifact_example =
    get_artifact-put_artifact ArtifactModel.authorization_code "code" no_members later_options
      artifacts ArtifactModel.session "s"

cleanup_expired_artifacts-Ends_example :
    cleanup_expired_artifacts 3 60_000 artifacts
    ≡ some (length (select (disposable 60_000) artifacts), delete (disposable 60_000) artifacts)
cleanup_expired_artifacts-Ends_example =
    cleanup_expired_artifacts-Ends 3 60_000 artifacts (omega arith)

cleanup-test : cleanup_expired_artifacts 3 60_000 artifacts ≡ some (1, session_row ∷ [])
unfolding cleanup_expired_artifacts cleanup_loop select disposable delete_some
cleanup-test = refl

consume_artifact_once_example :
    (consume_artifact ArtifactModel.authorization_code "code" 2000 (
      run
        (destroys ArtifactModel.authorization_code "code" ∷ calls)
        (consume_artifact ArtifactModel.authorization_code "code" 1000 artifacts).1)).0
    ≡ none
unfolding Spares names
consume_artifact_once_example =
    consume_artifact_once ArtifactModel.authorization_code "code" 1000 2000
      (destroys ArtifactModel.authorization_code "code" ∷ calls) artifacts (omega arith)
      (tt, (tt, (tt, (refl, (refl, tt)))))

consume_artifact_kept_example :
    Used ArtifactModel.authorization_code "code" (
      run
        (puts ArtifactModel.authorization_code "code" no_members later_options ∷ calls)
        (used_row ∷ []))
    × ((consume_artifact ArtifactModel.authorization_code "code" 2000 (
          run
            (puts ArtifactModel.authorization_code "code" no_members later_options ∷ calls)
            (used_row ∷ []))).0
        ≡ none)
unfolding Used Leaves find names
consume_artifact_kept_example =
    consume_artifact_kept ArtifactModel.authorization_code "code" 2000
      (puts ArtifactModel.authorization_code "code" no_members later_options ∷ calls)
      (used_row ∷ []) (refl, (λ e. refl, tt)) (tt, (tt, (tt, (tt, (tt, tt)))))

revoke_artifacts_by_grant_id-Revokes_example :
    let (count, after) = revoke_artifacts_by_grant_id "g1" 1000 artifacts in
    (count ≡ length (select (of_grant "g1") artifacts))
    × (select (of_grant "g1") after ≡ [])
    × ((consume_artifact ArtifactModel.authorization_code "code" 2000 (run calls after)).0 ≡ none)
unfolding BelongsTo Spares names
revoke_artifacts_by_grant_id-Revokes_example =
    revoke_artifacts_by_grant_id-Revokes "g1" ArtifactModel.authorization_code "code" 1000 2000
      calls artifacts (λ e. refl, (λ e. cc, tt)) (tt, (tt, (refl, (refl, tt))))

set_interaction_session-details_example :
    get_interaction_details "i1" (set_interaction_session "i1" opened artifacts).1
    ≡ some (signed_in opened (details_or_blank "i1" artifacts))
unfolding set_interaction_session merge_payload find has_uid names
set_interaction_session-details_example = set_interaction_session-details "i1" opened artifacts refl

finish_interaction-details_example :
    get_interaction_details "i1" (finish_interaction "i1" decided true "now" artifacts).1
    ≡ some (details_or_blank "i1" artifacts)
unfolding finish_interaction merge_payload find has_uid names
finish_interaction-details_example =
    finish_interaction-details "i1" decided true "now" artifacts refl
