-- ===== src/Boundary/Auth.antt =====
-- authenticateBoundaryRequest of packages/contracts/src/boundary-auth.ts. What the runtime and zod
-- do is the parameter `Runtime`: the HMAC, UTF-8, `Number`, and the parsing of a body.
pub mod Sound
pub mod Accepted
pub mod Replays
mod Tests
use Prim.Native.String.{◌++◌ as append}
use labpics_id.Prelude.{
  ℕ, suc, ◌+◌, ◌-◌, ◌*◌, ◌/◌, Bool, true, false, not, ◌||◌, ◌&&◌, Option, none, some, List, [], ◌∷◌,
  ◌++◌, String, ◌==◌, leb, ltb, is_null, if◌then◌else◌,
}
use labpics_id.Boundary.Contract.{
  BoundaryResponse, failure, boundary_version, BoundaryRequest, BoundaryErrorCode,
  authentication_failed, authorization_denied, replay_detected, schema_invalid, version_unsupported,
  BoundaryCredential, authorizes, operation_text,
}
use labpics_id.Boundary.Header.{parse_authorization, nonce_pattern}
use labpics_id.Boundary.ReplayStore
use labpics_id.Boundary.ReplayStore.{Seen}

abbrev pub max_clock_skew_seconds : ℕ
max_clock_skew_seconds = 30

abbrev pub unknown_correlation_id : String
unknown_correlation_id = "00000000-0000-4000-8000-000000000000"

pub record BoundaryTransportError : Type 0 where
  pub code : BoundaryErrorCode
  pub message : String
  pub retryable : Bool
  pub correlation_id : String

abbrev pub boundary_failure : {R : Type 0} → BoundaryTransportError → BoundaryResponse R
boundary_failure e = failure e.correlation_id e.code e.message e.retryable

pub data Check {ℓ} (A : Type ℓ) : Type ℓ where
  pass : A → Check A
  deny : BoundaryTransportError → Check A

infixl 10 ◌>>=◌ ◌>>◌
unfoldable pub ◌>>=◌ {ℓ κ} : {A : Type ℓ} {B : Type κ} → Check A → (A → Check B) → Check B
pass a >>= f = f a
deny e >>= f = deny e

abbrev pub ◌>>◌ {ℓ} : {B : Type ℓ} → Check (Unit {0}) → Check B → Check B
m >> n = m >>= λ _. n

abbrev pub unless : Bool → BoundaryTransportError → Check (Unit {0})
unless true e = pass tt
unless false e = deny e

-- `x ?? throw e`
abbrev pub some_or : {A : Type 0} → Option A → BoundaryTransportError → Check A
some_or none e = deny e
some_or (some a) e = pass a

-- What `Number(text)` is: an integer, or anything else.
pub data Numeral : Type 0 where
  natural : ℕ → Numeral
  below_zero : (magnitude : ℕ) → Numeral
  no_integer : Numeral

-- A body: no JSON, JSON that the schema refuses (with the text in its `correlationId`, and
-- whether it names another version), or a request.
pub data Decoded (P : Type 0) : Type 0 where
  no_json : Decoded P
  refused : (correlation_id : Option String) (other_version : Bool) → Decoded P
  valid : BoundaryRequest P → Decoded P

pub record Runtime (P : Type 0) : Type 0 where
  pub hmac : (secret : String) (message : List ℕ) → String
  pub utf8 : String → List ℕ
  pub number : String → Numeral
  pub decode : List ℕ → Decoded P

pub record BoundaryAuthHeaders : Type 0 where
  pub authorization : Option String
  pub timestamp : Option String
  pub nonce : Option String
  pub version : Option String

abbrev unknown : BoundaryErrorCode → String → BoundaryTransportError
unknown code message = record {
  code = code;
  message = message;
  retryable = false;
  correlation_id = unknown_correlation_id;
}

abbrev required : BoundaryTransportError
required = unknown authentication_failed "Boundary authentication required"

-- The headers that a request must bring.
pub record Presented : Type 0 where
  pub authorization : String
  pub timestamp : String
  pub nonce : String

abbrev denied : BoundaryTransportError
denied = unknown authentication_failed "Invalid boundary authentication"

abbrev is_version : Option String → Bool
is_version none = false
is_version (some v) = v == boundary_version

-- credentials.find(({ id }) => id === credentialId)
unfoldable pub find_credential : String → List BoundaryCredential → Option BoundaryCredential
find_credential id [] = none
find_credential id (c ∷ cs) = if c.id == id then some c else find_credential id cs

-- |floor(now / 1000) - timestamp| is an integer within the skew.
unfoldable pub in_time : ℕ → Numeral → Bool
in_time now (natural ts) =
    leb (now / 1000) (ts + max_clock_skew_seconds) && leb ts (now / 1000 + max_clock_skew_seconds)
in_time now (below_zero magnitude) = leb (now / 1000 + magnitude) max_clock_skew_seconds
in_time now no_integer = false

abbrev replay_key : String → String → String
replay_key id nonce = append id (append ":" nonce)

abbrev correlation_or_unknown : Option String → String
correlation_or_unknown none = unknown_correlation_id
correlation_or_unknown (some c) = c

module _ {P : Type 0} (runtime : Runtime P) where
  open runtime use {hmac, utf8, number, decode}

  unfoldable pub sign_boundary_payload : String → String → String → List ℕ → String
  sign_boundary_payload secret timestamp nonce body =
      hmac secret (utf8 (append timestamp (append "." (append nonce "."))) ++ body)

  abbrev request_of : Decoded P → Check (BoundaryRequest P)
  request_of no_json = deny (unknown schema_invalid "Boundary request is not valid JSON")
  request_of (refused correlation other_version) = deny (record {
    code = if other_version then version_unsupported else schema_invalid;
    message = "Invalid boundary request";
    retryable = false;
    correlation_id = correlation_or_unknown correlation;
  })
  request_of (valid request) = pass request

  pub record Verified : Type 0 where
    pub credential : BoundaryCredential
    pub request : BoundaryRequest P
    pub key : String

  -- The steps before the nonce is recorded, in four parts. The headers:
  unfoldable pub present : BoundaryAuthHeaders → Check Presented
  present headers = do
    unless (is_version headers.version) (unknown version_unsupported "Unsupported boundary version")
    authorization ← some_or headers.authorization required
    timestamp ← some_or headers.timestamp required
    nonce ← some_or headers.nonce required
    pass (record { authorization = authorization; timestamp = timestamp; nonce = nonce })

  -- the claimed credential, with the signature supplied:
  unfoldable pub identify : List BoundaryCredential → String → Check (BoundaryCredential × String)
  identify credentials authorization = do
    claim ← some_or (parse_authorization authorization) denied
    credential ← some_or (find_credential claim.0 credentials) denied
    pass (credential, claim.1)

  -- the time, the nonce's shape and the signature:
  unfoldable pub inspect : Presented → List ℕ → BoundaryCredential → String → ℕ → Check (Unit {0})
  inspect p body credential signature now = do
    unless (in_time now (number p.timestamp))
        (unknown authentication_failed "Expired boundary authentication")
    unless (nonce_pattern p.nonce) denied
    unless (signature == sign_boundary_payload credential.secret p.timestamp p.nonce body) denied

  -- and the body and the operation it asks for.
  unfoldable pub admit : List ℕ → BoundaryCredential → Check (BoundaryRequest P)
  admit body credential = do
    request ← request_of (decode body)
    unless (authorizes credential.operations request.operation) (record {
      code = authorization_denied;
      message = "Operation is not authorized";
      retryable = false;
      correlation_id = request.correlation_id;
    })
    pass request

  unfoldable pub verify :
      BoundaryAuthHeaders → List ℕ → List BoundaryCredential → ℕ → Check Verified
  verify headers body credentials now = do
    p ← present headers
    claimed ← identify credentials p.authorization
    inspect p body claimed.0 claimed.1 now
    request ← admit body claimed.0
    pass (record {
      credential = claimed.0;
      request = request;
      key = replay_key claimed.0.id p.nonce;
    })

  -- The nonce is recorded once, until twice the skew after `now`; `store_now` is the store's own
  -- reading of the clock.
  unfoldable pub record_nonce :
      ℕ → ℕ → Verified → Seen → Check (BoundaryCredential × BoundaryRequest P) × Seen
  record_nonce now store_now v seen =
      let (consumed, seen') =
        ReplayStore.consume v.key (now + max_clock_skew_seconds * 2000) store_now seen in
      if consumed then (pass (v.credential, v.request), seen') else (
        deny (record {
          code = replay_detected;
          message = "Boundary request replay detected";
          retryable = false;
          correlation_id = v.request.correlation_id;
        }),
        seen',
      )

  abbrev settle :
      ℕ → ℕ → Check Verified → Seen → Check (BoundaryCredential × BoundaryRequest P) × Seen
  settle now store_now (pass v) seen = record_nonce now store_now v seen
  settle now store_now (deny e) seen = (deny e, seen)

  unfoldable pub authenticate :
      BoundaryAuthHeaders
      → List ℕ
      → List BoundaryCredential
      → ℕ
      → ℕ
      → Seen
      → Check (BoundaryCredential × BoundaryRequest P) × Seen
  authenticate headers body credentials now store_now seen =
      settle now store_now (verify headers body credentials now) seen
