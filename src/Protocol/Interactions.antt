-- ===== src/Protocol/Interactions.antt =====
-- InteractionPort of packages/db/src/protocol-adapter.ts: the state of an interaction is an artifact
-- of the model `Interaction`, whose payload the consent ceremony reads and extends.
pub mod Details
use labpics_id.Prelude.{
  ltb, leb, if◌then◌else◌, is_null, some_gt, some_le, some_eq, leb→le, Bool-cases, Option-cases,
  length, first, length-append, All, All-append, includes, All-mono, ℕ, zero, suc, ◌+◌, ◌-◌, ◌*◌,
  ◌/◌, ◌%◌, ◌^◌, ◌≤◌, ◌<◌, String, ◌≡◌, refl, sym, ap, ◌∙◌, ◌≢◌, ◌↔◌, ◌⊎◌, inl, inr, Bool, true,
  false, not, ◌&&◌, ◌||◌, Option, none, some, List, [], ◌∷◌, ◌++◌, map, arith, ◌==◌, eq_iff,
  eq_refl,
}
use labpics_id.Sql.{select, update, returning, delete, insert, find}
use labpics_id.Domain.Result.{
  Fault, Result, Exec, pure, throw, lift, continue, ◌>>=◌, ◌>>◌, Result-cases, domain_error,
  invalid_email, already_revoked, unique_violation, unavailable, ok, thrown,
}
use labpics_id.Domain.Json.{
  Json, Elements, Members, member_of, with_member, texts, string_or_null, text_elements,
  string_array, null, boolean, number, text, array, object, no_elements, element, no_members,
  member,
}
use labpics_id.Domain.Protocol.{
  ProtocolSubjectType, TokenEndpointAuthMethod, ProtocolGrantType, ProtocolClientRecord,
  ProtocolConsentRecord, SigningKeyStatus, ProtocolSigningKeyRecord, ArtifactModel,
  ProtocolArtifactRecord, ArtifactPutOptions, InteractionDetails, InteractionSession,
  InteractionResult,
}
use labpics_id.Protocol.Rows.{
  ClientRow, RedirectUriRow, PostLogoutRedirectUriRow, AllowedScopeRow, AllowedAudienceRow,
  AllowedGrantRow, ConsentRow, ArtifactRow, SigningKeyRow, Registry,
}
use labpics_id.Protocol.Artifacts.{
  names, has_uid, has_user_code, artifact_record, found_artifact, get_artifact,
  find_artifact_by_uid, find_artifact_by_user_code, index_clash, artifact_row, overwrite,
  put_artifact, consume_at, consumable, consumes, consume_artifact, destroy_artifact, of_grant,
  revoke_artifacts_by_grant_id, seven_days_ms, consumed_long_ago, disposable, delete_some, at_most,
  cleanup_loop, batch_size, cleanup_expired_artifacts,
}

abbrev or_empty : Option String → String
or_empty none = ""
or_empty (some s) = s

-- `artifact.uid ?? artifact.id`
abbrev uid_or_id : ProtocolArtifactRecord → String
uid_or_id artifact = elim artifact.uid [ none ↦ artifact.id | some uid ↦ uid ]

abbrev pub details : ProtocolArtifactRecord → InteractionDetails
details artifact =
    let p = artifact.payload in
    record {
      uid = uid_or_id artifact;
      client_id = or_empty (string_or_null (member_of "clientId" p));
      client_name = string_or_null (member_of "clientName" p);
      client_logo_uri = string_or_null (member_of "clientLogoUri" p);
      requested_scopes = string_array (member_of "requestedScopes" p);
      redirect_uri = or_empty (string_or_null (member_of "redirectUri" p));
      nonce = string_or_null (member_of "nonce" p);
      state = string_or_null (member_of "state" p);
      subject_id = string_or_null (member_of "subjectId" p);
      session_id = string_or_null (member_of "sessionId" p);
      resume_url = string_or_null (member_of "resumeUrl" p);
    }

abbrev pub details_of : Option ProtocolArtifactRecord → Option InteractionDetails
details_of none = none
details_of (some artifact) = some (details artifact)

unfoldable pub get_interaction_details : String → List ArtifactRow → Option InteractionDetails
get_interaction_details uid rows =
    details_of (find_artifact_by_uid ArtifactModel.interaction uid rows)

abbrev pub with_session : InteractionSession → Members → Members
with_session session existing =
    with_member "sessionId" (text session.session_id)
      (with_member "subjectId" (text session.subject_id) existing)

-- A value that is undefined is not stored.
abbrev optional_member : String → Option (List String) → Members
optional_member k none = no_members
optional_member k (some ss) = member k (array (texts ss)) no_members

abbrev result_json : InteractionResult → Json
result_json result = object (
    member "login"
      (object (
        member "accountId" (text result.account_id)
          (member "remember" (boolean result.remember) no_members)))
      (member "consent"
        (object (member "reject" (boolean result.reject) (optional_member "scope" result.scope)))
        no_members))

abbrev pub with_result : InteractionResult → Bool → (finished_at : String) → Members → Members
with_result result merge finished_at existing = with_member "finishedAt" (text finished_at) (
    with_member "mergeWithLastSubmission" (boolean merge)
      (with_member "result" (result_json result) existing))

abbrev pub payload_of : Option ArtifactRow → Members
payload_of none = no_members
payload_of (some row) = row.payload

abbrev pub interaction_row : String → Members → ArtifactRow
interaction_row uid payload = record {
  model = ArtifactModel.interaction;
  id = uid;
  grant_id = none;
  payload = payload;
  expires_at = none;
  consumed_at = none;
  uid = some uid;
  user_code = none;
}

-- The common end of setInteractionSession and finishInteraction: the payload is merged into the
-- interaction's, or starts a new one, whose id must be free.
unfoldable pub merge_payload : String → (Members → Members) → Exec (List ArtifactRow) (Unit {0})
merge_payload uid change rows =
    let row = find (has_uid ArtifactModel.interaction uid) rows in
    let merged = change (payload_of row) in
    if is_null row
    then if is_null (find (names ArtifactModel.interaction uid) rows)
      then (ok tt, insert (interaction_row uid merged) rows)
      else (thrown unique_violation, rows)
    else (
      ok tt,
      update (has_uid ArtifactModel.interaction uid) (λ r. record r { payload = merged }) rows,
    )

unfoldable pub set_interaction_session :
    String → InteractionSession → Exec (List ArtifactRow) (Unit {0})
set_interaction_session uid session rows = merge_payload uid (with_session session) rows

unfoldable pub finish_interaction :
    String
    → InteractionResult
    → (merge_with_last_submission : Bool) (finished_at : String)
    → Exec (List ArtifactRow) (Unit {0})
finish_interaction uid result merge finished_at rows =
    merge_payload uid (with_result result merge finished_at) rows
