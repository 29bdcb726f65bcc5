-- ===== src/Boundary/Contract.antt =====
-- packages/contracts/src/protocol-boundary.ts. The zod schemas check what has these types; the
-- payload of a request is left abstract, `P`.
use labpics_id.Prelude.{Bool, true, false, ◌||◌, String, List, [], ◌∷◌, ◌==◌}

abbrev pub boundary_version : String
boundary_version = "1"

pub data BoundaryOperation : Type 0 where
  subject_get subject_pairwise session_resolve session_reauthenticate : BoundaryOperation
  subject_deactivate session_revoke client_get consent_get consent_upsert : BoundaryOperation
  consent_revoke key_list artifact_get artifact_put artifact_consume : BoundaryOperation
  artifact_delete artifact_find_by_uid artifact_find_by_user_code : BoundaryOperation
  artifact_revoke_by_grant_id audit_append outbox_enqueue : BoundaryOperation

abbrev pub operation_text : BoundaryOperation → String
operation_text subject_get = "subject.get"
operation_text subject_pairwise = "subject.pairwise"
operation_text session_resolve = "session.resolve"
operation_text session_reauthenticate = "session.reauthenticate"
operation_text subject_deactivate = "subject.deactivate"
operation_text session_revoke = "session.revoke"
operation_text client_get = "client.get"
operation_text consent_get = "consent.get"
operation_text consent_upsert = "consent.upsert"
operation_text consent_revoke = "consent.revoke"
operation_text key_list = "key.list"
operation_text artifact_get = "artifact.get"
operation_text artifact_put = "artifact.put"
operation_text artifact_consume = "artifact.consume"
operation_text artifact_delete = "artifact.delete"
operation_text artifact_find_by_uid = "artifact.find_by_uid"
operation_text artifact_find_by_user_code = "artifact.find_by_user_code"
operation_text artifact_revoke_by_grant_id = "artifact.revoke_by_grant_id"
operation_text audit_append = "audit.append"
operation_text outbox_enqueue = "outbox.enqueue"

-- idempotentBoundaryReads
abbrev pub is_idempotent_read : BoundaryOperation → Bool
is_idempotent_read subject_get = true
is_idempotent_read subject_pairwise = true
is_idempotent_read session_resolve = true
is_idempotent_read client_get = true
is_idempotent_read consent_get = true
is_idempotent_read key_list = true
is_idempotent_read artifact_get = true
is_idempotent_read artifact_find_by_uid = true
is_idempotent_read artifact_find_by_user_code = true
is_idempotent_read _ = false

-- `operations.includes(operation)`
abbrev pub authorizes : List BoundaryOperation → BoundaryOperation → Bool
authorizes [] o = false
authorizes (x ∷ xs) o = operation_text x == operation_text o || authorizes xs o

pub record BoundaryRequest (P : Type 0) : Type 0 where
  pub operation : BoundaryOperation
  pub correlation_id : String
  pub payload : P

pub data BoundaryErrorCode : Type 0 where
  authentication_failed authorization_denied replay_detected schema_invalid : BoundaryErrorCode
  version_unsupported deadline_exceeded cancelled response_too_large : BoundaryErrorCode
  upstream_unavailable operation_failed : BoundaryErrorCode

pub record BoundaryCredential : Type 0 where
  pub id : String
  pub secret : String
  pub operations : List BoundaryOperation

-- A response with its result, left abstract, or with its error.
pub data BoundaryResponse (R : Type 0) : Type 0 where
  success : (correlation_id : String) → R → BoundaryResponse R
  failure :
      (correlation_id : String)
      → (code : BoundaryErrorCode) → (message : String) → (retryable : Bool) → BoundaryResponse R
