-- ===== src/Protocol/Clients.antt =====
-- getClient and listSigningKeys of packages/db/src/protocol-adapter.ts.
use labpics_id.Prelude.{Option, none, some, List, map, String, ◌==◌}
use labpics_id.Sql.{select, find}
use labpics_id.Domain.Protocol.{ProtocolClientRecord, ProtocolSigningKeyRecord}
use labpics_id.Protocol.Rows.{
  ClientRow, RedirectUriRow, PostLogoutRedirectUriRow, AllowedScopeRow, AllowedAudienceRow,
  AllowedGrantRow, SigningKeyRow, Registry,
}

abbrev client_record : Registry → String → ClientRow → ProtocolClientRecord
client_record db client_id client = record {
  client_id = client.client_id;
  client_name = client.client_name;
  subject_type = client.subject_type;
  sector_identifier = client.sector_identifier;
  token_endpoint_auth_method = client.token_endpoint_auth_method;
  is_active = client.is_active;
  redirect_uris =
      map (λ (r : RedirectUriRow). r.uri)
        (select (λ (r : RedirectUriRow). r.client_id == client_id) db.redirect_uris);
  post_logout_redirect_uris =
      map (λ (r : PostLogoutRedirectUriRow). r.uri)
        (select (λ (r : PostLogoutRedirectUriRow). r.client_id == client_id)
          db.post_logout_redirect_uris);
  allowed_scopes =
      map (λ (r : AllowedScopeRow). r.scope)
        (select (λ (r : AllowedScopeRow). r.client_id == client_id) db.allowed_scopes);
  allowed_audiences =
      map (λ (r : AllowedAudienceRow). r.audience)
        (select (λ (r : AllowedAudienceRow). r.client_id == client_id) db.allowed_audiences);
  allowed_grants =
      map (λ (r : AllowedGrantRow). r.grant_type)
        (select (λ (r : AllowedGrantRow). r.client_id == client_id) db.allowed_grants);
}

abbrev registered : Registry → String → Option ClientRow → Option ProtocolClientRecord
registered db client_id none = none
registered db client_id (some client) = some (client_record db client_id client)

unfoldable pub get_client : String → Registry → Option ProtocolClientRecord
get_client client_id db =
    registered db client_id (find (λ (c : ClientRow). c.client_id == client_id) db.clients)

unfoldable pub list_signing_keys : List SigningKeyRow → List ProtocolSigningKeyRecord
list_signing_keys rows =
    map
      (λ row. record {
        kid = row.kid;
        status = row.status;
        algorithm = row.algorithm;
        public_key_jwk = row.public_key_jwk;
        created_at = row.created_at;
        retired_at = row.retired_at;
      })
      rows
