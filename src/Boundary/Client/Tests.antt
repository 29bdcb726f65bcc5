-- ===== src/Boundary/Client/Tests.antt =====
-- Runs of the client of apps/protocol/src/boundary.ts: a read that fails twice, and a write that fails.
use labpics_id.Prelude.{
  ltb, ℕ, ◌+◌, ◌≤◌, String, ◌≡◌, refl, true, false, Option, none, some, List, [], ◌∷◌, map, arith,
}
use labpics_id.Boundary.Contract.{
  BoundaryRequest, BoundaryCredential, BoundaryResponse, subject_get, artifact_put,
  upstream_unavailable, success,
}
use labpics_id.Boundary.Client.{
  read_chunks, read_limited, Fetched, Try, Outcome, retries_of, normalize, may_retry, exchange,
  attempts_from, request_with, bytes, done, unreachable, response, result, refused,
}
use labpics_id.Boundary.Client.Read.{read_limited-whole}
use labpics_id.Boundary.Client.Retries.{Ends, request_with-Ends}
use labpics_id.Boundary.Client.Sound.{Founded, exchange-Founded}

abbrev decode_empty : List ℕ → Option String
decode_empty [] = none
decode_empty (b ∷ bs) = some "document"

abbrev parse_document : String → Option (BoundaryResponse ℕ)
parse_document d = some (success "c1" 7)

abbrev credential : BoundaryCredential
credential = record { id = "p"; secret = "s"; operations = subject_get ∷ artifact_put ∷ [] }

abbrev get : BoundaryRequest String
get = record { operation = subject_get; correlation_id = "c1"; payload = "" }

abbrev put : BoundaryRequest String
put = record { operation = artifact_put; correlation_id = "c1"; payload = "" }

abbrev answer : Fetched
answer = response true (some 2) (some (bytes (123 ∷ []) ∷ bytes (125 ∷ []) ∷ []))

abbrev attempts : ℕ → Try
attempts i = record {
  fetched = elim (ltb i 2) [ true ↦ unreachable false | false ↦ answer ];
  cancelled = false;
  aborted_later = false;
}

get_runs :
    request_with decode_empty parse_document credential 3 100 4 attempts get ≡ some (3, result 7)
unfolding request_with attempts_from exchange may_retry retries_of normalize read_limited
    read_chunks
get_runs = refl

put_runs :
    request_with decode_empty parse_document credential 3 100 4 attempts put
    ≡ some (
      1,
      refused (record { code = upstream_unavailable; retryable = true; correlation_id = "c1" }),
    )
unfolding request_with attempts_from exchange may_retry retries_of normalize
put_runs = refl

request_with-Ends_example :
    (last : ℕ) × (o : Outcome ℕ) × (request_with decode_empty parse_document credential 3 100 4
        attempts get
      ≡ some (last + 1, o))
    × Ends decode_empty parse_document "c1" 100 3 attempts 0 last o
    × (last ≤ 3)
request_with-Ends_example =
    request_with-Ends decode_empty parse_document credential 3 100 4 attempts get refl (omega arith)

read_limited-whole_example :
    read_limited (some 2) (some (map bytes ((123 ∷ []) ∷ (125 ∷ []) ∷ []))) 100
    ≡ done (123 ∷ 125 ∷ [])
read_limited-whole_example = read_limited-whole (some 2) ((123 ∷ []) ∷ (125 ∷ []) ∷ []) 100

exchange_runs : exchange decode_empty parse_document "c1" 100 answer ≡ done 7
unfolding exchange read_limited read_chunks
exchange_runs = refl

exchange-Founded_example : Founded decode_empty parse_document "c1" 100 answer 7
exchange-Founded_example =
    exchange-Founded decode_empty parse_document "c1" 100 answer 7 exchange_runs
