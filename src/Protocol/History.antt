-- ===== src/Protocol/History.antt =====
-- Histories of calls of the artifact and interaction methods of packages/db/src/protocol-adapter.ts.
pub mod Spent
pub mod Kept
pub mod Revoked
use labpics_id.Prelude.{
  ltb, leb, if◌then◌else◌, is_null, some_gt, some_le, some_eq, leb→le, Bool-cases, Option-cases,
  length, first, length-append, All, All-append, includes, All-mono, ℕ, zero, suc, ◌+◌, ◌-◌, ◌*◌,
  ◌/◌, ◌%◌, ◌^◌, ◌≤◌, ◌<◌, String, ◌≡◌, refl, sym, ap, ◌∙◌, ◌≢◌, ◌↔◌, ◌⊎◌, inl, inr, Bool, true,
  false, not, ◌&&◌, ◌||◌, Option, none, some, List, [], ◌∷◌, ◌++◌, map, arith, ◌==◌, eq_iff,
  eq_refl,
}
use labpics_id.Sql.{select, update, returning, delete, insert, find}
use labpics_id.Domain.Result.{
  Fault, Result, Exec, pure, throw, lift, continue, ◌>>=◌, ◌>>◌, Result-cases, domain_error,
  invalid_email, already_revoked, unique_violation, unavailable, ok, thrown,
}
use labpics_id.Domain.Json.{
  Json, Elements, Members, member_of, with_member, texts, string_or_null, text_elements,
  string_array, null, boolean, number, text, array, object, no_elements, element, no_members,
  member,
}
use labpics_id.Domain.Protocol.{
  ProtocolSubjectType, TokenEndpointAuthMethod, ProtocolGrantType, ProtocolClientRecord,
  ProtocolConsentRecord, SigningKeyStatus, ProtocolSigningKeyRecord, ArtifactModel,
  ProtocolArtifactRecord, ArtifactPutOptions, InteractionDetails, InteractionSession,
  InteractionResult,
}
use labpics_id.Protocol.Rows.{
  ClientRow, RedirectUriRow, PostLogoutRedirectUriRow, AllowedScopeRow, AllowedAudienceRow,
  AllowedGrantRow, ConsentRow, ArtifactRow, SigningKeyRow, Registry,
}
use labpics_id.Protocol.Artifacts.{
  names, has_uid, has_user_code, artifact_record, found_artifact, get_artifact,
  find_artifact_by_uid, find_artifact_by_user_code, index_clash, artifact_row, overwrite,
  put_artifact, consume_at, consumable, consumes, consume_artifact, destroy_artifact, of_grant,
  revoke_artifacts_by_grant_id, seven_days_ms, consumed_long_ago, disposable, delete_some, at_most,
  cleanup_loop, batch_size, cleanup_expired_artifacts,
}
use labpics_id.Protocol.Interactions.{
  details_of, get_interaction_details, with_session, with_result, payload_of, interaction_row,
  merge_payload, set_interaction_session, finish_interaction,
}

pub data ArtifactCall : Type 0 where
  puts : ArtifactModel → String → Members → ArtifactPutOptions → ArtifactCall
  consumes_at : ArtifactModel → String → ℕ → ArtifactCall
  destroys : ArtifactModel → String → ArtifactCall
  revokes_grant : String → ℕ → ArtifactCall
  cleans : ℕ → ArtifactCall
  sets_session : String → InteractionSession → ArtifactCall
  finishes : String → InteractionResult → Bool → String → ArtifactCall

abbrev pub rows_left : List ArtifactRow → Option (ℕ × List ArtifactRow) → List ArtifactRow
rows_left rows none = rows
rows_left rows (some (n, left)) = left

-- The table after a call; cleanupExpiredArtifacts with fuel for all rows.
unfoldable pub step : ArtifactCall → List ArtifactRow → List ArtifactRow
step (puts model id payload options) rows = (put_artifact model id payload options rows).1
step (consumes_at model id now) rows = (consume_artifact model id now rows).1
step (destroys model id) rows = destroy_artifact model id rows
step (revokes_grant grant_id now) rows = (revoke_artifacts_by_grant_id grant_id now rows).1
step (cleans now) rows = rows_left rows (cleanup_expired_artifacts (suc (length rows)) now rows)
step (sets_session uid session) rows = (set_interaction_session uid session rows).1
step (finishes uid result merge finished_at) rows =
    (finish_interaction uid result merge finished_at rows).1

unfoldable pub run : List ArtifactCall → List ArtifactRow → List ArtifactRow
run [] rows = rows
run (call ∷ calls) rows = run calls (step call rows)
