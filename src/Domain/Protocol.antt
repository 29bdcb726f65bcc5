-- ===== src/Domain/Protocol.antt =====
-- packages/domain/src/ports/protocol.ts and interaction.ts: the records of the protocol provider's
-- storage. Union types of literals come with the text that the adapters store.
pub mod Models
use labpics_id.Prelude.{Bool, ℕ, String, List, Option}
use labpics_id.Domain.Json.{Members}

pub data ProtocolSubjectType : Type 0 where
  public pairwise : ProtocolSubjectType

pub data TokenEndpointAuthMethod : Type 0 where
  no_method client_secret_basic client_secret_post : TokenEndpointAuthMethod
  client_secret_jwt private_key_jwt : TokenEndpointAuthMethod

pub data ProtocolGrantType : Type 0 where
  authorization_code refresh_token client_credentials device_code : ProtocolGrantType
  ciba pre_authorized_code : ProtocolGrantType

pub record ProtocolClientRecord : Type 0 where
  pub client_id : String
  pub client_name : Option String
  pub subject_type : ProtocolSubjectType
  pub sector_identifier : Option String
  pub token_endpoint_auth_method : TokenEndpointAuthMethod
  pub is_active : Bool
  pub redirect_uris : List String
  pub post_logout_redirect_uris : List String
  pub allowed_scopes : List String
  pub allowed_audiences : List String
  pub allowed_grants : List ProtocolGrantType

pub record ProtocolConsentRecord : Type 0 where
  pub subject_id : String
  pub client_id : String
  pub scopes : List String
  pub granted_at : ℕ
  pub revoked_at : Option ℕ

pub data SigningKeyStatus : Type 0 where
  active next retiring retired : SigningKeyStatus

pub record ProtocolSigningKeyRecord : Type 0 where
  pub kid : String
  pub status : SigningKeyStatus
  pub algorithm : String
  pub public_key_jwk : Members
  pub created_at : ℕ
  pub retired_at : Option ℕ

pub data ArtifactModel : Type 0 where
  grant session access_token authorization_code refresh_token client_credentials : ArtifactModel
  client initial_access_token registration_access_token device_code interaction : ArtifactModel
  replay_detection backchannel_authentication_request pre_authorized_code : ArtifactModel
  pushed_authorization_request : ArtifactModel

-- PROTOCOL_ARTIFACT_MODELS
abbrev pub model_text : ArtifactModel → String
model_text ArtifactModel.grant = "Grant"
model_text ArtifactModel.session = "Session"
model_text ArtifactModel.access_token = "AccessToken"
model_text ArtifactModel.authorization_code = "AuthorizationCode"
model_text ArtifactModel.refresh_token = "RefreshToken"
model_text ArtifactModel.client_credentials = "ClientCredentials"
model_text ArtifactModel.client = "Client"
model_text ArtifactModel.initial_access_token = "InitialAccessToken"
model_text ArtifactModel.registration_access_token = "RegistrationAccessToken"
model_text ArtifactModel.device_code = "DeviceCode"
model_text ArtifactModel.interaction = "Interaction"
model_text ArtifactModel.replay_detection = "ReplayDetection"
model_text ArtifactModel.backchannel_authentication_request = "BackchannelAuthenticationRequest"
model_text ArtifactModel.pre_authorized_code = "PreAuthorizedCode"
model_text ArtifactModel.pushed_authorization_request = "PushedAuthorizationRequest"

pub record ProtocolArtifactRecord : Type 0 where
  pub model : ArtifactModel
  pub id : String
  pub grant_id : Option String
  pub payload : Members
  pub expires_at : Option ℕ
  pub consumed_at : Option ℕ
  pub uid : Option String
  pub user_code : Option String

pub record ArtifactPutOptions : Type 0 where
  pub grant_id : Option String
  pub expires_at : Option ℕ
  pub uid : Option String
  pub user_code : Option String

-- interaction.ts
pub record InteractionDetails : Type 0 where
  pub uid : String
  pub client_id : String
  pub client_name : Option String
  pub client_logo_uri : Option String
  pub requested_scopes : List String
  pub redirect_uri : String
  pub nonce : Option String
  pub state : Option String
  pub subject_id : Option String
  pub session_id : Option String
  pub resume_url : Option String

pub record InteractionSession : Type 0 where
  pub subject_id : String
  pub session_id : String

-- The two objects of the type, `login` and `consent`, side by side; an absent scope is undefined.
pub record InteractionResult : Type 0 where
  pub account_id : String
  pub remember : Bool
  pub reject : Bool
  pub scope : Option (List String)
