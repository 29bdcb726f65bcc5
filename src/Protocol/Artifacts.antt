-- ===== src/Protocol/Artifacts.antt =====
-- The artifact methods of packages/db/src/protocol-adapter.ts, each on the table that it writes.
pub mod Cleanup
pub mod Put
use labpics_id.Prelude.{
  ltb, leb, if◌then◌else◌, is_null, some_gt, some_le, some_eq, leb→le, Bool-cases, Option-cases,
  length, first, length-append, All, All-append, includes, All-mono, ℕ, zero, suc, ◌+◌, ◌-◌, ◌*◌,
  ◌/◌, ◌%◌, ◌^◌, ◌≤◌, ◌<◌, String, ◌≡◌, refl, sym, ap, ◌∙◌, ◌≢◌, ◌↔◌, ◌⊎◌, inl, inr, Bool, true,
  false, not, ◌&&◌, ◌||◌, Option, none, some, List, [], ◌∷◌, ◌++◌, map, arith, ◌==◌, eq_iff,
  eq_refl,
}
use labpics_id.Sql.{select, update, returning, delete, insert, find}
use labpics_id.Domain.Result.{
  Fault, Result, Exec, pure, throw, lift, continue, ◌>>=◌, ◌>>◌, Result-cases, domain_error,
  invalid_email, already_revoked, unique_violation, unavailable, ok, thrown,
}
use labpics_id.Domain.Json.{
  Json, Elements, Members, member_of, with_member, texts, string_or_null, text_elements,
  string_array, null, boolean, number, text, array, object, no_elements, element, no_members,
  member,
}
use labpics_id.Domain.Protocol.{
  ProtocolSubjectType, TokenEndpointAuthMethod, ProtocolGrantType, ProtocolClientRecord,
  ProtocolConsentRecord, SigningKeyStatus, ProtocolSigningKeyRecord, ArtifactModel, model_text,
  ProtocolArtifactRecord, ArtifactPutOptions, InteractionDetails, InteractionSession,
  InteractionResult, public, pairwise, no_method, client_secret_basic, client_secret_post,
  client_secret_jwt, private_key_jwt, authorization_code, refresh_token, client_credentials,
  device_code, ciba, pre_authorized_code, active, next, retiring, retired, grant, session,
  access_token, client, initial_access_token, registration_access_token, interaction,
  replay_detection, backchannel_authentication_request, pushed_authorization_request,
}
use labpics_id.Protocol.Rows.{
  ClientRow, RedirectUriRow, PostLogoutRedirectUriRow, AllowedScopeRow, AllowedAudienceRow,
  AllowedGrantRow, ConsentRow, ArtifactRow, SigningKeyRow, Registry,
}

-- WHERE model = … AND id = …: the primary key.
unfoldable pub names : ArtifactModel → String → ArtifactRow → Bool
names model id r = model_text r.model == model_text model && r.id == id

unfoldable pub has_uid : ArtifactModel → String → ArtifactRow → Bool
has_uid model uid r = model_text r.model == model_text model && some_eq r.uid uid

unfoldable pub has_user_code : ArtifactModel → String → ArtifactRow → Bool
has_user_code model user_code r =
    model_text r.model == model_text model && some_eq r.user_code user_code

abbrev pub artifact_record : ArtifactRow → ProtocolArtifactRecord
artifact_record row = record {
  model = row.model;
  id = row.id;
  grant_id = row.grant_id;
  payload = row.payload;
  expires_at = row.expires_at;
  consumed_at = row.consumed_at;
  uid = row.uid;
  user_code = row.user_code;
}

abbrev pub found_artifact : Option ArtifactRow → Option ProtocolArtifactRecord
found_artifact none = none
found_artifact (some row) = some (artifact_record row)

unfoldable pub get_artifact :
    ArtifactModel → String → List ArtifactRow → Option ProtocolArtifactRecord
get_artifact model id rows = found_artifact (find (names model id) rows)

unfoldable pub find_artifact_by_uid :
    ArtifactModel → String → List ArtifactRow → Option ProtocolArtifactRecord
find_artifact_by_uid model uid rows = found_artifact (find (has_uid model uid) rows)

unfoldable pub find_artifact_by_user_code :
    ArtifactModel → String → List ArtifactRow → Option ProtocolArtifactRecord
find_artifact_by_user_code model user_code rows =
    found_artifact (find (has_user_code model user_code) rows)

-- A row with the new row's text in a column of the kind, under another id.
abbrev taken : (String → ArtifactRow → Bool) → ArtifactRow → Option String → List ArtifactRow → Bool
taken column row none rows = false
taken column row (some s) rows =
    not (is_null (find (λ r. column s r && not (names row.model row.id r)) rows))

-- The two partial unique indexes, on (model, uid) and on (model, user_code), refuse the row.
unfoldable pub index_clash : ArtifactRow → List ArtifactRow → Bool
index_clash row rows =
    taken (has_uid row.model) row row.uid rows
    || taken (has_user_code row.model) row row.user_code rows

abbrev pub artifact_row : ArtifactModel → String → Members → ArtifactPutOptions → ArtifactRow
artifact_row model id payload options = record {
  model = model;
  id = id;
  grant_id = options.grant_id;
  payload = payload;
  expires_at = options.expires_at;
  consumed_at = none;
  uid = options.uid;
  user_code = options.user_code;
}

-- The SET clause: consumed_at is not in it.
abbrev pub overwrite : Members → ArtifactPutOptions → ArtifactRow → ArtifactRow
overwrite payload options r = record r {
  grant_id = options.grant_id;
  payload = payload;
  expires_at = options.expires_at;
  uid = options.uid;
  user_code = options.user_code;
}

-- INSERT … ON CONFLICT (model, id) DO UPDATE
unfoldable pub put_artifact :
    ArtifactModel → String → Members → ArtifactPutOptions → Exec (List ArtifactRow) (Unit {0})
put_artifact model id payload options rows =
    if index_clash (artifact_row model id payload options) rows
    then (thrown unique_violation, rows)
    else (
      ok tt,
      if is_null (find (names model id) rows)
          then insert (artifact_row model id payload options) rows
          else update (names model id) (overwrite payload options) rows,
    )

abbrev pub consume_at : ℕ → ArtifactRow → ArtifactRow
consume_at now r = record r { consumed_at = some now }

-- The artifact is neither consumed nor expired.
unfoldable pub consumable : ℕ → ArtifactRow → Bool
consumable now r = is_null r.consumed_at && (is_null r.expires_at || some_gt r.expires_at now)

-- The WHERE clause of consumeArtifact.
unfoldable pub consumes : ArtifactModel → String → ℕ → ArtifactRow → Bool
consumes model id now r = names model id r && consumable now r

unfoldable pub consume_artifact :
    ArtifactModel → String → ℕ → List ArtifactRow → Option ProtocolArtifactRecord × List ArtifactRow
consume_artifact model id now rows = (
  found_artifact (first (returning (consumes model id now) (consume_at now) rows)),
  update (consumes model id now) (consume_at now) rows,
)

unfoldable pub destroy_artifact : ArtifactModel → String → List ArtifactRow → List ArtifactRow
destroy_artifact model id rows = delete (names model id) rows

-- The WHERE clause of revokeArtifactsByGrantId.
unfoldable pub of_grant : String → ArtifactRow → Bool
of_grant grant_id r = some_eq r.grant_id grant_id && is_null r.consumed_at

unfoldable pub revoke_artifacts_by_grant_id : String → ℕ → List ArtifactRow → ℕ × List ArtifactRow
revoke_artifacts_by_grant_id grant_id now rows = (
  length (returning (of_grant grant_id) (consume_at now) rows),
  update (of_grant grant_id) (consume_at now) rows,
)

abbrev pub seven_days_ms : ℕ
seven_days_ms = 7 * 24 * 60 * 60 * 1000

-- consumed_at <= now - 7 days, on a nullable column
abbrev pub consumed_long_ago : ℕ → Option ℕ → Bool
consumed_long_ago now none = false
consumed_long_ago now (some t) = leb (t + seven_days_ms) now

-- The WHERE clause of cleanupExpiredArtifacts.
unfoldable pub disposable : ℕ → ArtifactRow → Bool
disposable now r = some_le r.expires_at now || consumed_long_ago now r.consumed_at

-- DELETE … WHERE ctid IN (SELECT … LIMIT n): the first n rows that pass go.
unfoldable pub delete_some : {R : Type 0} → ℕ → (R → Bool) → List R → List R
delete_some zero p rows = rows
delete_some (suc n) p [] = []
delete_some (suc n) p (r ∷ rows) =
    let without = delete_some n p rows in
    let with_it = delete_some (suc n) p rows in if p r then without else r ∷ with_it

-- Its row count: the limit, or all the rows that pass.
abbrev pub at_most : ℕ → ℕ → ℕ
at_most n m = if leb n m then n else m

-- The loop of cleanupExpiredArtifacts: none when the fuel runs out before it ends.
unfoldable pub cleanup_loop :
    {R : Type 0} → (batch_size : ℕ) → (R → Bool) → (fuel total : ℕ) → List R → Option (ℕ × List R)
cleanup_loop batch_size p zero total rows = none
cleanup_loop batch_size p (suc fuel) total rows =
    let deleted = at_most batch_size (length (select p rows)) in
    let rows' = delete_some batch_size p rows in
    let rest = cleanup_loop batch_size p fuel (total + deleted) rows' in
    if ltb deleted batch_size then some (total + deleted, rows') else rest

abbrev pub batch_size : ℕ
batch_size = 1000

unfoldable pub cleanup_expired_artifacts :
    (fuel now : ℕ) → List ArtifactRow → Option (ℕ × List ArtifactRow)
cleanup_expired_artifacts fuel now rows = cleanup_loop batch_size (disposable now) fuel 0 rows
