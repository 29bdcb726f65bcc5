-- ===== src/Boundary/Client.antt =====
-- createBoundaryClient of apps/protocol/src/boundary.ts. What `fetch`, the streams, the signals, the JSON
-- parser and the zod schemas do in an attempt is its `Try`; messages and the log are left out.
pub mod Passing
pub mod Read
pub mod Retries
pub mod Sound
mod Tests
use labpics_id.Prelude.{
  ltb, leb, if◌then◌else◌, is_null, some_gt, some_le, some_eq, leb→le, Bool-cases, Option-cases,
  length, first, length-append, All, All-append, includes, All-mono, length-map, ℕ, zero, suc, ◌+◌,
  ◌-◌, ◌*◌, ◌/◌, ◌%◌, ◌^◌, ◌≤◌, ◌<◌, String, ◌≡◌, refl, sym, ap, ◌∙◌, ◌≢◌, ◌↔◌, ◌⊎◌, inl, inr, Bool,
  true, false, not, ◌&&◌, ◌||◌, Option, none, some, List, [], ◌∷◌, ◌++◌, map, arith, ◌==◌, eq_iff,
  eq_refl,
}
use labpics_id.Boundary.Contract.{
  boundary_version, BoundaryOperation, operation_text, is_idempotent_read, authorizes,
  BoundaryRequest, BoundaryErrorCode, BoundaryCredential, BoundaryResponse, subject_get,
  subject_pairwise, session_resolve, session_reauthenticate, subject_deactivate, session_revoke,
  client_get, consent_get, consent_upsert, consent_revoke, key_list, artifact_get, artifact_put,
  artifact_consume, artifact_delete, artifact_find_by_uid, artifact_find_by_user_code,
  artifact_revoke_by_grant_id, audit_append, outbox_enqueue, authentication_failed,
  authorization_denied, replay_detected, schema_invalid, version_unsupported, deadline_exceeded,
  cancelled, response_too_large, upstream_unavailable, operation_failed, success, failure,
}

-- One read of the response's body: a chunk, or a rejection, which is a TimeoutError or not.
pub data Chunk : Type 0 where
  bytes : List ℕ → Chunk
  broken : (timed_out : Bool) → Chunk

-- What an attempt throws.
pub data Thrown : Type 0 where
  transport : BoundaryErrorCode → (retryable : Bool) → Thrown
  exception : (timed_out : Bool) → Thrown

pub data Attempt (A : Type 0) : Type 0 where
  done : A → Attempt A
  failed : Thrown → Attempt A

-- The loop of readLimited, from a size on.
unfoldable pub read_chunks : (limit size : ℕ) → List Chunk → Attempt (List ℕ)
read_chunks limit size [] = done []
read_chunks limit size (broken timed_out ∷ rest) = failed (exception timed_out)
read_chunks limit size (bytes value ∷ rest) =
    let later = read_chunks limit (size + length value) rest in
    if ltb limit (size + length value)
    then failed (transport response_too_large false)
    else elim later [ done result ↦ done (value ++ result) | failed t ↦ failed t ]

-- `declared` is the finite number of the content-length header; `none` for a body is null.
unfoldable pub read_limited :
    (declared : Option ℕ) (body : Option (List Chunk)) (limit : ℕ) → Attempt (List ℕ)
read_limited declared body limit =
    if some_gt declared limit
    then failed (transport response_too_large false)
    else elim body [ none ↦ done [] | some chunks ↦ read_chunks limit 0 chunks ]

-- What `fetch` answers: a rejection, or a response.
pub data Fetched : Type 0 where
  unreachable : (timed_out : Bool) → Fetched
  response : (http_ok : Bool) (declared : Option ℕ) (body : Option (List Chunk)) → Fetched

-- An attempt's surroundings: what `fetch` answers, whether the caller's signal is aborted when the
-- attempt fails, and whether it is aborted during the delay after it.
pub record Try : Type 0 where
  pub fetched : Fetched
  pub cancelled : Bool
  pub aborted_later : Bool

pub record TransportError : Type 0 where
  pub code : BoundaryErrorCode
  pub retryable : Bool
  pub correlation_id : String

pub data Outcome (R : Type 0) : Type 0 where
  result : R → Outcome R
  refused : TransportError → Outcome R
  aborted : Outcome R

-- `isRetryableOperation`, and the retries of an operation.
unfoldable pub retries_of : (max_retries : ℕ) → BoundaryOperation → ℕ
retries_of max_retries operation = if is_idempotent_read operation then max_retries else 0

abbrev pub is_cancelled : BoundaryErrorCode → Bool
is_cancelled cancelled = true
is_cancelled _ = false

abbrev pub is_passing : BoundaryErrorCode → Bool
is_passing upstream_unavailable = true
is_passing deadline_exceeded = true
is_passing _ = false

abbrev pub failure_code : (cancelled timed_out : Bool) → BoundaryErrorCode
failure_code true timed_out = cancelled
failure_code false true = deadline_exceeded
failure_code false false = upstream_unavailable

-- `normalized`
unfoldable pub normalize : (correlation_id : String) (cancelled : Bool) → Thrown → TransportError
normalize correlation_id was_cancelled (transport code retryable) = record {
  code = code;
  retryable = retryable;
  correlation_id = correlation_id;
}
normalize correlation_id was_cancelled (exception timed_out) = record {
  code = failure_code was_cancelled timed_out;
  retryable = not was_cancelled;
  correlation_id = correlation_id;
}

unfoldable pub may_retry : (attempt retries : ℕ) → TransportError → Bool
may_retry attempt retries e =
    ltb attempt retries && not (is_cancelled e.code) && (is_passing e.code || e.retryable)

-- Math.min(25 * 2 ** attempt, 200)
unfoldable pub retry_delay : ℕ → ℕ
retry_delay attempt = if leb (25 * 2 ^ attempt) 200 then 25 * 2 ^ attempt else 200

-- A client without a credential refuses each request.
pub data Client : Type 0 where
  closed : Client
  open_with : BoundaryCredential → Client

-- createBoundaryClient: none where it throws. `is_origin` says that the base URL is an origin.
unfoldable pub create_boundary_client : List BoundaryCredential → (is_origin : Bool) → Option Client
create_boundary_client [] is_origin = some closed
create_boundary_client (credential ∷ []) is_origin =
    if is_origin then some (open_with credential) else none
create_boundary_client (credential ∷ second ∷ rest) is_origin = none

-- `decode` is JSON.parse of the decoded text, `none` where it throws; `parse` is the schema's safeParse.
module _ {D R : Type 0} (decode : List ℕ → Option D) (parse : D → Option (BoundaryResponse R)) where
  abbrev pub accept_response :
      (correlation_id : String) → (http_ok : Bool) → Option (BoundaryResponse R) → Attempt R
  accept_response correlation_id http_ok none = failed (transport schema_invalid false)
  accept_response correlation_id http_ok (some (failure id code message retryable)) =
      if id == correlation_id
      then failed (transport code retryable)
      else failed (transport schema_invalid false)
  accept_response correlation_id http_ok (some (success id r)) =
      if id == correlation_id
      then if http_ok then done r else failed (transport operation_failed false)
      else failed (transport schema_invalid false)

  abbrev pub accept_decoded : (correlation_id : String) → (http_ok : Bool) → Option D → Attempt R
  accept_decoded correlation_id http_ok none = failed (transport operation_failed false)
  accept_decoded correlation_id http_ok (some d) = accept_response correlation_id http_ok (parse d)

  abbrev pub accept_read :
      (correlation_id : String) → (http_ok : Bool) → Attempt (List ℕ) → Attempt R
  accept_read correlation_id http_ok (failed t) = failed t
  accept_read correlation_id http_ok (done raw) = accept_decoded correlation_id http_ok (decode raw)

  -- The body of the `try`.
  unfoldable pub exchange : (correlation_id : String) (limit : ℕ) → Fetched → Attempt R
  exchange correlation_id limit (unreachable timed_out) = failed (exception timed_out)
  exchange correlation_id limit (response http_ok declared body) =
      accept_read correlation_id http_ok (read_limited declared body limit)

  -- What the end of an attempt decides: an outcome, or the delay before the next attempt.
  pub data Decision : Type 0 where
    settled : Outcome R → Decision
    waits : (delay : ℕ) → Decision

  abbrev pub decide_failure :
      (attempt retries : ℕ) → (aborted_later : Bool) → TransportError → Decision
  decide_failure attempt retries aborted_later e =
      if may_retry attempt retries e
      then if aborted_later then settled aborted else waits (retry_delay attempt)
      else settled (refused e)

  abbrev pub decide : (correlation_id : String) (attempt retries : ℕ) → Try → Attempt R → Decision
  decide correlation_id attempt retries t (done r) = settled (result r)
  decide correlation_id attempt retries t (failed thrown) =
      decide_failure attempt retries t.aborted_later (normalize correlation_id t.cancelled thrown)

  -- The loop over the attempts, with the number of requests sent; none when the fuel runs out.
  unfoldable pub attempts_from :
      (correlation_id : String) (limit retries : ℕ)
      → (ℕ → Try)
      → (fuel attempt : ℕ) → Option (ℕ × Outcome R)
  attempts_from correlation_id limit retries tries zero attempt = none
  attempts_from correlation_id limit retries tries (suc fuel) attempt =
      let next = attempts_from correlation_id limit retries tries fuel (attempt + 1) in
      elim (decide correlation_id attempt retries (tries attempt)
        (exchange correlation_id limit (tries attempt).fetched)) [
          | settled o ↦ some (attempt + 1, o)
          | waits delay ↦ next
        ]

  -- The client's `request` with its one credential.
  unfoldable pub request_with :
      {P : Type 0}
      → BoundaryCredential
      → (max_retries limit fuel : ℕ) → (ℕ → Try)
      → BoundaryRequest P
      → Option (ℕ × Outcome R)
  request_with credential max_retries limit fuel tries request =
      if authorizes credential.operations request.operation
      then attempts_from request.correlation_id limit (retries_of max_retries request.operation)
          tries fuel 0
      else some (
        0,
        refused (record {
          code = authorization_denied;
          retryable = false;
          correlation_id = request.correlation_id;
        }),
      )

  unfoldable pub request_of :
      {P : Type 0}
      → Client
      → (max_retries limit fuel : ℕ) → (ℕ → Try)
      → BoundaryRequest P
      → Option (ℕ × Outcome R)
  request_of closed max_retries limit fuel tries request = some (
    0,
    refused (record {
      code = authentication_failed;
      retryable = false;
      correlation_id = request.correlation_id;
    }),
  )
  request_of (open_with credential) max_retries limit fuel tries request =
      request_with credential max_retries limit fuel tries request
