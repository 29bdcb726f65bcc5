-- ===== src/Boundary/Client/Passing.antt =====
-- Which failures and which operations of a request of apps/protocol/src/boundary.ts allow that it is sent
-- again.
use labpics_id.Prelude.{if◌then◌else◌, false, Bool, ℕ, String, ◌≡◌, refl, true, arith}
use labpics_id.Boundary.Contract.{
  outbox_enqueue, audit_append, artifact_find_by_user_code, artifact_find_by_uid,
  artifact_revoke_by_grant_id, artifact_delete, artifact_get, artifact_consume, key_list,
  artifact_put, consent_revoke, consent_get, client_get, consent_upsert, session_revoke,
  session_resolve, subject_pairwise, subject_deactivate, subject_get, session_reauthenticate,
  BoundaryOperation, authentication_failed, authorization_denied, replay_detected, schema_invalid,
  version_unsupported, cancelled, response_too_large, operation_failed, authentication_failed,
  deadline_exceeded, upstream_unavailable, BoundaryErrorCode,
}
use labpics_id.Boundary.Client.{
  is_cancelled, is_passing, transport, exception, Thrown, retries_of, normalize, may_retry,
}

-- A failure that may pass: the caller did not cancel, and there was no response, or one whose
-- error says that the boundary is unavailable, late, or that the request may be sent again.
pub data IsPassing : (was_cancelled : Bool) → Thrown → Type 0 where
  lost : (timed_out : Bool) → IsPassing false (exception timed_out)
  unavailable : (c retryable : Bool) → IsPassing c (transport upstream_unavailable retryable)
  late : (c retryable : Bool) → IsPassing c (transport deadline_exceeded retryable)
  flagged :
      (c : Bool) (code : BoundaryErrorCode)
      → is_cancelled code ≡ false
      → IsPassing c (transport code true)

pub may_retry-IsPassing :
    (i retries : ℕ) (correlation_id : String) (was_cancelled : Bool) (t : Thrown)
    → may_retry i retries (normalize correlation_id was_cancelled t) ≡ true
    → IsPassing was_cancelled t
unfolding may_retry normalize
may_retry-IsPassing i retries correlation_id true (exception timed_out) h = absurd (ground arith)
may_retry-IsPassing i retries correlation_id false (exception timed_out) h = lost timed_out
may_retry-IsPassing i retries correlation_id c (transport code true) h =
    flagged c code (ground arith)
may_retry-IsPassing i retries correlation_id c (transport code false) h =
    by_code code (ground arith)
  where
    by_code :
        (code : BoundaryErrorCode) → is_passing code ≡ true → IsPassing c (transport code false)
    by_code upstream_unavailable k = unavailable c false
    by_code deadline_exceeded k = late c false
    by_code authentication_failed k = absurd (cc)
    by_code authorization_denied k = absurd (cc)
    by_code replay_detected k = absurd (cc)
    by_code schema_invalid k = absurd (cc)
    by_code version_unsupported k = absurd (cc)
    by_code cancelled k = absurd (cc)
    by_code response_too_large k = absurd (cc)
    by_code operation_failed k = absurd (cc)

-- The operations that change something: to send such a request again could do it twice.
abbrev pub is_write : BoundaryOperation → Bool
is_write session_reauthenticate = true
is_write subject_deactivate = true
is_write session_revoke = true
is_write consent_upsert = true
is_write consent_revoke = true
is_write artifact_put = true
is_write artifact_consume = true
is_write artifact_delete = true
is_write artifact_revoke_by_grant_id = true
is_write audit_append = true
is_write outbox_enqueue = true
is_write _ = false

-- How often a request may be sent again.
abbrev pub resends : (max_retries : ℕ) → BoundaryOperation → ℕ
resends max_retries operation = if is_write operation then 0 else max_retries

pub only_reads :
    (max_retries : ℕ) (o : BoundaryOperation) → retries_of max_retries o ≡ resends max_retries o
unfolding retries_of
only_reads max_retries subject_get = refl
only_reads max_retries subject_pairwise = refl
only_reads max_retries session_resolve = refl
only_reads max_retries session_reauthenticate = refl
only_reads max_retries subject_deactivate = refl
only_reads max_retries session_revoke = refl
only_reads max_retries client_get = refl
only_reads max_retries consent_get = refl
only_reads max_retries consent_upsert = refl
only_reads max_retries consent_revoke = refl
only_reads max_retries key_list = refl
only_reads max_retries artifact_get = refl
only_reads max_retries artifact_put = refl
only_reads max_retries artifact_consume = refl
only_reads max_retries artifact_delete = refl
only_reads max_retries artifact_find_by_uid = refl
only_reads max_retries artifact_find_by_user_code = refl
only_reads max_retries artifact_revoke_by_grant_id = refl
only_reads max_retries audit_append = refl
only_reads max_retries outbox_enqueue = refl
