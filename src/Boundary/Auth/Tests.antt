-- ===== src/Boundary/Auth/Tests.antt =====
-- One signed request to packages/contracts/src/boundary-auth.ts, under a runtime whose signature
-- is a constant and whose clock text is always 30.
use labpics_id.Prelude.{true, ◌↔◌, ◌≡◌, ◌≢◌, ◌⊎◌, refl, some, [], ◌∷◌, String, arith, false}
use labpics_id.Boundary.Contract.{
  BoundaryRequest, BoundaryCredential, subject_get, session_revoke, replay_detected,
}
use labpics_id.Boundary.Header.{parse_authorization, nonce_pattern}
use labpics_id.Boundary.ReplayStore
use labpics_id.Boundary.ReplayStore.{Seen, purge, has}
use labpics_id.Boundary.Auth.{
  Verified, pass, deny, ◌>>=◌, Runtime, BoundaryAuthHeaders, BoundaryTransportError, valid, natural,
  verify, present, identify, inspect, admit, find_credential, in_time, sign_boundary_payload,
  record_nonce, authenticate,
}
use labpics_id.Boundary.Auth.Sound.{IsAuthentic, verify_iff}
use labpics_id.Boundary.Auth.Accepted.{Accepts, authenticate-Accepts, authenticate-rejected}
use labpics_id.Boundary.Auth.Replays.{visit, authenticate_once, authenticate_twice}

abbrev request : BoundaryRequest (Unit {0})
request = record { operation = subject_get; correlation_id = "c"; payload = tt }

abbrev signature : String
signature = "aaaaaaaaaabbbbbbbbbbccccccccccdddddddddd123"

abbrev runtime : Runtime (Unit {0})
runtime = record {
  hmac = λ secret message. signature;
  utf8 = λ s. [];
  number = λ s. natural 30;
  decode = λ body. valid request;
}

abbrev headers : BoundaryAuthHeaders
headers = record {
  authorization = some "Labpics-HMAC-SHA256 w.1:aaaaaaaaaabbbbbbbbbbccccccccccdddddddddd123";
  timestamp = some "30";
  nonce = some "aaaaaaaaaabbbbbbbbbbcc";
  version = some "1";
}

abbrev caller : BoundaryCredential
caller = record { id = "w.1"; secret = "k"; operations = session_revoke ∷ subject_get ∷ [] }

abbrev key : String
key = "w.1:aaaaaaaaaabbbbbbbbbbcc"

accepted_at_30 :
    authenticate runtime headers [] (caller ∷ []) 30000 30000 []
    ≡ (pass (caller, request), (key, 90000) ∷ [])
unfolding authenticate verify present identify inspect admit find_credential in_time
    sign_boundary_payload record_nonce ◌>>=◌ parse_authorization nonce_pattern ReplayStore.consume
    purge has
accepted_at_30 = refl

accepted_at_0 :
    authenticate runtime headers [] (caller ∷ []) 0 0 []
    ≡ (pass (caller, request), (key, 60000) ∷ [])
unfolding authenticate verify present identify inspect admit find_credential in_time
    sign_boundary_payload record_nonce ◌>>=◌ parse_authorization nonce_pattern ReplayStore.consume
    purge has
accepted_at_0 = refl

authenticate-Accepts_example :
    Accepts runtime headers [] (caller ∷ []) 30000 30000 [] ((key, 90000) ∷ []) caller request
authenticate-Accepts_example =
    authenticate-Accepts runtime headers [] (caller ∷ []) 30000 30000 [] ((key, 90000) ∷ []) caller
      request accepted_at_30

authenticate_once_example :
    (authenticate runtime headers (7 ∷ []) (caller ∷ []) 50000 50000 (
      visit
        (record { key = "other"; expires_at = 100000; time = 40000 } ∷ [])
        ((key, 90000) ∷ []))).0
    ≢ pass (caller, request)
authenticate_once_example =
    authenticate_once runtime headers [] (7 ∷ []) (caller ∷ []) 30000 30000 50000 50000 30 "30" []
      ((key, 90000) ∷ []) (record { key = "other"; expires_at = 100000; time = 40000 } ∷ []) caller
      caller request request accepted_at_30 refl refl (omega arith) (omega arith, tt) (omega arith)

authenticate_twice_example :
    (authenticate runtime headers [] (caller ∷ []) 60000 60000 ((key, 60000) ∷ [])).0
    ≡ pass (caller, request)
authenticate_twice_example =
    authenticate_twice runtime headers [] (caller ∷ []) 0 0 "30" [] ((key, 60000) ∷ []) caller
      request accepted_at_0 refl refl

abbrev replayed : BoundaryTransportError
replayed = record {
  code = replay_detected;
  message = "Boundary request replay detected";
  retryable = false;
  correlation_id = "c";
}

refused_at_50 :
    authenticate runtime headers [] (caller ∷ []) 50000 50000 ((key, 90000) ∷ ("old", 50000) ∷ [])
    ≡ (deny replayed, (key, 90000) ∷ [])
unfolding authenticate verify present identify inspect admit find_credential in_time
    sign_boundary_payload record_nonce ◌>>=◌ parse_authorization nonce_pattern ReplayStore.consume
    purge has
refused_at_50 = refl

abbrev held : Seen
held = (key, 90000) ∷ []

abbrev held_and_old : Seen
held_and_old = (key, 90000) ∷ ("old", 50000) ∷ []

authenticate-rejected_example :
    (((v : Verified runtime) → ¬ IsAuthentic runtime headers [] (caller ∷ []) 50000 v)
      × (verify runtime headers [] (caller ∷ []) 50000 ≡ deny replayed)
      × (held ≡ held_and_old))
    ⊎ ((v : Verified runtime) × IsAuthentic runtime headers [] (caller ∷ []) 50000 v
        × (has v.key (purge 50000 held_and_old) ≡ true)
        × (replayed.code ≡ replay_detected)
        × (held ≡ purge 50000 held_and_old))
authenticate-rejected_example =
    authenticate-rejected runtime headers [] (caller ∷ []) 50000 50000 held_and_old held replayed
      refused_at_50

abbrev verified : Verified runtime
verified = record { credential = caller; request = request; key = key }

verify_iff_example :
    (verify runtime headers [] (caller ∷ []) 30000 ≡ pass verified)
    ↔ IsAuthentic runtime headers [] (caller ∷ []) 30000 verified
verify_iff_example = verify_iff runtime headers [] (caller ∷ []) 30000 verified
