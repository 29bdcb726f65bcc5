-- ===== src/Domain/Protocol/Models.antt =====
-- PROTOCOL_ARTIFACT_MODELS of packages/domain/src/ports/protocol.ts: different models have
-- different texts.
use labpics_id.Prelude.{if◌then◌else◌, String, ◌≡◌, refl, sym, ap, ◌∙◌, Option, none, some, ◌==◌}
use labpics_id.Domain.Protocol.{ArtifactModel, model_text}

abbrev model_of : String → Option ArtifactModel
model_of s =
    if s == model_text ArtifactModel.grant
    then some ArtifactModel.grant
    else if s == model_text ArtifactModel.session
    then some ArtifactModel.session
    else if s == model_text ArtifactModel.access_token
    then some ArtifactModel.access_token
    else if s == model_text ArtifactModel.authorization_code
    then some ArtifactModel.authorization_code
    else if s == model_text ArtifactModel.refresh_token
    then some ArtifactModel.refresh_token
    else if s == model_text ArtifactModel.client_credentials
    then some ArtifactModel.client_credentials
    else if s == model_text ArtifactModel.client
    then some ArtifactModel.client
    else if s == model_text ArtifactModel.initial_access_token
    then some ArtifactModel.initial_access_token
    else if s == model_text ArtifactModel.registration_access_token
    then some ArtifactModel.registration_access_token
    else if s == model_text ArtifactModel.device_code
    then some ArtifactModel.device_code
    else if s == model_text ArtifactModel.interaction
    then some ArtifactModel.interaction
    else if s == model_text ArtifactModel.replay_detection
    then some ArtifactModel.replay_detection
    else if s == model_text ArtifactModel.backchannel_authentication_request
    then some ArtifactModel.backchannel_authentication_request
    else if s == model_text ArtifactModel.pre_authorized_code
    then some ArtifactModel.pre_authorized_code
    else if s == model_text ArtifactModel.pushed_authorization_request
    then some ArtifactModel.pushed_authorization_request
    else none

model_of-text : (m : ArtifactModel) → model_of (model_text m) ≡ some m
model_of-text ArtifactModel.grant = refl
model_of-text ArtifactModel.session = refl
model_of-text ArtifactModel.access_token = refl
model_of-text ArtifactModel.authorization_code = refl
model_of-text ArtifactModel.refresh_token = refl
model_of-text ArtifactModel.client_credentials = refl
model_of-text ArtifactModel.client = refl
model_of-text ArtifactModel.initial_access_token = refl
model_of-text ArtifactModel.registration_access_token = refl
model_of-text ArtifactModel.device_code = refl
model_of-text ArtifactModel.interaction = refl
model_of-text ArtifactModel.replay_detection = refl
model_of-text ArtifactModel.backchannel_authentication_request = refl
model_of-text ArtifactModel.pre_authorized_code = refl
model_of-text ArtifactModel.pushed_authorization_request = refl

-- The literals are different texts.
pub model_text-injective : (a b : ArtifactModel) → model_text a ≡ model_text b → a ≡ b
model_text-injective a b h =
    let same : some a ≡ some b = sym (model_of-text a) ∙ ap model_of h ∙ model_of-text b in cc
