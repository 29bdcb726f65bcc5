-- ===== src/Boundary/Client/Retries.antt =====
-- The attempts of a request of apps/protocol/src/boundary.ts: they end, and which there are.
use mathlib.Core.Path.{subst}
use native.Mathlib.Decide.{ℕ_discrete}
use labpics_id.Prelude.{
  if◌then◌else◌, false, Bool-cases, ℕ, zero, suc, ◌+◌, ◌≤◌, ◌<◌, String, ◌≡◌, refl, sym, inl, inr,
  true, Option, some, List, arith,
}
use labpics_id.Boundary.Contract.{authorizes, BoundaryRequest, BoundaryCredential, BoundaryResponse}
use labpics_id.Boundary.Client.{
  Thrown, Attempt, Try, TransportError, Outcome, normalize, may_retry, retry_delay, exchange,
  Decision, decide_failure, decide, attempts_from, request_with, done, failed, settled, waits,
}
use labpics_id.Boundary.Client.Passing.{
  IsPassing, may_retry-IsPassing, is_write, resends, only_reads,
}

module _ {D R : Type 0} (decode : List ℕ → Option D) (parse : D → Option (BoundaryResponse R))
    (correlation_id : String) (limit retries : ℕ) (tries : ℕ → Try) where
  -- What the attempt of a number decides.
  abbrev pub decision_at : ℕ → Decision decode parse
  decision_at i =
      decide decode parse correlation_id i retries (tries i)
        (exchange decode parse correlation_id limit (tries i).fetched)

  -- The attempt of a number failed in a way that may pass, and the caller does not abort after it.
  pub record FailsInPassing (i : ℕ) : Type 0 where
    pub thrown : Thrown
    pub fails : exchange decode parse correlation_id limit (tries i).fetched ≡ failed thrown
    pub passing : IsPassing (tries i).cancelled thrown
    pub goes_on : (tries i).aborted_later ≡ false

  -- The attempts from a first one to the last: each but the last fails in a way that may pass, waits
  -- and tries again, the last one settles the outcome, and none has a number above the retries.
  pub record Ends (first last : ℕ) (o : Outcome R) : Type 0 where
    pub within : last ≤ retries
    pub from_first : first ≤ last
    pub waited : (i : ℕ) → first ≤ i → i < last → decision_at i ≡ waits (retry_delay i)
    pub failed_before : (i : ℕ) → first ≤ i → i < last → FailsInPassing i
    pub settled_last : decision_at last ≡ settled o

  only_retries :
      (i delay : ℕ)
      → decision_at i ≡ waits delay
      → (i < retries) × (delay ≡ retry_delay i) × FailsInPassing i
  unfolding may_retry
  only_retries i delay h =
      settles (exchange decode parse correlation_id limit (tries i).fetched) refl h
    where
      below : (e : TransportError) → may_retry i retries e ≡ true → i < retries
      below e k = ground arith

      delay_of : {a b : ℕ} → ◌≡◌ {A = Decision decode parse} (waits a) (waits b) → a ≡ b
      delay_of k = cc

      failing :
          (e : TransportError)
          → decide_failure decode parse i retries (tries i).aborted_later e ≡ waits delay
          → (may_retry i retries e ≡ true)
            × ((tries i).aborted_later ≡ false)
            × (delay ≡ retry_delay i)
      failing e k = elim (Bool-cases (may_retry i retries e)) [
        | inr e' ↦ absurd (let k' = rw e' at k in cc)
        | inl e' ↦ elim (Bool-cases (tries i).aborted_later) [
          | inl gone ↦ absurd (let k' = rw (e', gone) at k in cc)
          | inr here ↦ (e', here, sym (delay_of (rw (e', here) at k)))
        ]
      ]

      settles :
          (a : Attempt R)
          → exchange decode parse correlation_id limit (tries i).fetched ≡ a
          → decide decode parse correlation_id i retries (tries i) a ≡ waits delay
          → (i < retries) × (delay ≡ retry_delay i) × FailsInPassing i
      settles (done r) e k = absurd (cc)
      settles (failed thrown) e k =
          let (again, here, same) =
            failing (normalize correlation_id (tries i).cancelled thrown) k in
          (
            below (normalize correlation_id (tries i).cancelled thrown) again,
            same,
            record {
              thrown = thrown;
              fails = e;
              passing =
                  may_retry-IsPassing i retries correlation_id (tries i).cancelled thrown again;
              goes_on = here;
            },
          )

  pub attempts_from-Ends :
      (fuel attempt : ℕ)
      → attempt ≤ retries
      → retries < fuel + attempt
      → (last : ℕ) × (o : Outcome R) × (attempts_from decode parse correlation_id limit retries
            tries fuel attempt
          ≡ some (last + 1, o))
        × Ends attempt last o
  unfolding attempts_from
  attempts_from-Ends zero attempt le enough = absurd (omega arith)
  attempts_from-Ends (suc fuel) attempt le enough =
      go (decision_at attempt) refl
        (λ le' enough'. attempts_from-Ends fuel (attempt + 1) le' enough')
    where
      go :
          (d : Decision decode parse)
          → decision_at attempt ≡ d
          → (attempt + 1 ≤ retries
              → retries < fuel + (attempt + 1)
              → (last : ℕ) × (o : Outcome R) × (attempts_from decode parse correlation_id limit
                    retries tries fuel
                    (attempt + 1)
                  ≡ some (last + 1, o))
                × Ends (attempt + 1) last o)
          → (last : ℕ) × (o : Outcome R) × (attempts_from decode parse correlation_id limit retries
                tries
                (suc fuel)
                attempt
              ≡ some (last + 1, o))
            × Ends attempt last o
      go (settled o) e later = (
        attempt,
        o,
        rw (attempts_from, e) refl,
        record {
          within = le;
          from_first = omega arith;
          waited = λ i a b. absurd (omega arith);
          failed_before = λ i a b. absurd (omega arith);
          settled_last = e;
        },
      )
      go (waits delay) e later =
          let (more, same, fails) = only_retries attempt delay e in
          let (last, o, runs, ends) = later (omega arith) (omega arith) in
          (
            last,
            o,
            rw (attempts_from, e) runs,
            record {
              within = ends.within;
              from_first = omega (arith, ends.from_first);
              waited = λ i a b. elim (ℕ_discrete i attempt) [
                | yes here ↦ rw (here, ← same) e
                | no other ↦ ends.waited i (omega arith) b
              ];
              failed_before = λ i a b. elim (ℕ_discrete i attempt) [
                | yes here ↦ subst FailsInPassing (sym here) fails
                | no other ↦ ends.failed_before i (omega arith) b
              ];
              settled_last = ends.settled_last;
            },
          )

-- With fuel for one attempt more than maxRetries, a request that its credential authorizes ends. It
-- is sent once, and then again only while the last attempt failed in a way that may pass and the
-- caller does not abort, at most maxRetries times, and not at all if its operation changes
-- something. Its outcome is the last attempt's.
pub request_with-Ends :
    {D R P : Type 0} (decode : List ℕ → Option D) (parse : D → Option (BoundaryResponse R))
    (credential : BoundaryCredential) (max_retries limit fuel : ℕ) (tries : ℕ → Try)
    (request : BoundaryRequest P)
    → authorizes credential.operations request.operation ≡ true
    → max_retries < fuel
    → (last : ℕ) × (o : Outcome R) × (request_with decode parse credential max_retries limit fuel
          tries request
        ≡ some (last + 1, o))
      × Ends decode parse request.correlation_id limit
          (resends max_retries request.operation)
          tries
          0
          last
          o
      × (last ≤ (if is_write request.operation then 0 else max_retries))
unfolding request_with
request_with-Ends decode parse credential max_retries limit fuel tries request allowed enough =
    let few : resends max_retries request.operation ≤ max_retries = ground arith in
    let (last, o, runs, ends) =
      attempts_from-Ends decode parse request.correlation_id limit
        (resends max_retries request.operation) tries fuel 0 (omega arith) (omega arith) in
    (last, o, rw (allowed, only_reads max_retries request.operation) runs, ends, ends.within)
