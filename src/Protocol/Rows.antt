-- ===== src/Protocol/Rows.antt =====
-- The rows of packages/db/src/schema/protocol.ts that the adapter reads or writes. The columns
-- `created_at` and `updated_at` of clients and artifacts, which nothing reads, are left out.
use labpics_id.Prelude.{Bool, ℕ, String, List, Option}
use labpics_id.Domain.Json.{Members}
use labpics_id.Domain.Protocol.{
  ProtocolSubjectType, TokenEndpointAuthMethod, ProtocolGrantType, SigningKeyStatus, ArtifactModel,
}

pub record ClientRow : Type 0 where
  pub client_id : String
  pub client_name : Option String
  pub subject_type : ProtocolSubjectType
  pub sector_identifier : Option String
  pub token_endpoint_auth_method : TokenEndpointAuthMethod
  pub is_active : Bool

pub record RedirectUriRow : Type 0 where
  pub client_id : String
  pub uri : String

pub record PostLogoutRedirectUriRow : Type 0 where
  pub client_id : String
  pub uri : String

pub record AllowedScopeRow : Type 0 where
  pub client_id : String
  pub scope : String

pub record AllowedAudienceRow : Type 0 where
  pub client_id : String
  pub audience : String

pub record AllowedGrantRow : Type 0 where
  pub client_id : String
  pub grant_type : ProtocolGrantType

pub record ConsentRow : Type 0 where
  pub id : String
  pub subject_id : String
  pub client_id : String
  pub scopes : List String
  pub granted_at : ℕ
  pub revoked_at : Option ℕ

pub record ArtifactRow : Type 0 where
  pub model : ArtifactModel
  pub id : String
  pub grant_id : Option String
  pub payload : Members
  pub expires_at : Option ℕ
  pub consumed_at : Option ℕ
  pub uid : Option String
  pub user_code : Option String

pub record SigningKeyRow : Type 0 where
  pub kid : String
  pub status : SigningKeyStatus
  pub algorithm : String
  pub public_key_jwk : Members
  pub created_at : ℕ
  pub retired_at : Option ℕ

-- The client tables.
pub record Registry : Type 0 where
  pub clients : List ClientRow
  pub redirect_uris : List RedirectUriRow
  pub post_logout_redirect_uris : List PostLogoutRedirectUriRow
  pub allowed_scopes : List AllowedScopeRow
  pub allowed_audiences : List AllowedAudienceRow
  pub allowed_grants : List AllowedGrantRow
