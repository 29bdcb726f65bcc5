-- ===== src/Boundary/Auth/Replays.antt =====
-- Replays of a request that authenticateBoundaryRequest of packages/contracts/src/boundary-auth.ts
-- has accepted.
use labpics_id.Prelude.{
  ℕ, ◌+◌, ◌/◌, ◌≤◌, ◌<◌, ◌≡◌, ◌≢◌, refl, sym, ◌∙◌, ap, true, false, some, List, [], ◌∷◌, String,
  arith, All, inl,
}
use labpics_id.Boundary.Contract.{BoundaryRequest, BoundaryCredential}
use labpics_id.Boundary.ReplayStore
use labpics_id.Boundary.ReplayStore.{
  Seen, has, purge, HeldUntil, purge-HeldUntil, has_of_HeldUntil, consume-HeldUntil,
  has-purge_absent,
}
use labpics_id.Boundary.Auth.{
  pass, Runtime, Verified, BoundaryAuthHeaders, record_nonce, authenticate, in_time, natural,
  replay_key,
}
use labpics_id.Boundary.Auth.Sound.{IsAuthentic, verify_of_IsAuthentic}
use labpics_id.Boundary.Auth.Accepted.{authenticate-Accepts}

-- A later use of the store, by any request: a key, when to forget it, and the time of the use.
pub record Visit : Type 0 where
  pub key : String
  pub expires_at : ℕ
  pub time : ℕ

unfoldable pub visit : List Visit → Seen → Seen
visit [] seen = seen
visit (v ∷ vs) seen = visit vs (ReplayStore.consume v.key v.expires_at v.time seen).1

visit-HeldUntil :
    (key : String) (until : ℕ) (visits : List Visit) (seen : Seen)
    → All (λ v. v.time < until) visits
    → HeldUntil key until seen
    → HeldUntil key until (visit visits seen)
unfolding visit
visit-HeldUntil key until [] seen early held = held
visit-HeldUntil key until (v ∷ vs) seen (early, rest) held =
    visit-HeldUntil key until vs _ rest
      (consume-HeldUntil key v.key until v.expires_at v.time seen early held)

in_time-recent : (now ts : ℕ) → in_time now (natural ts) ≡ true → now / 1000 ≤ ts + 30
unfolding in_time
in_time-recent now ts h = grind arith

in_time-edge : (now : ℕ) → in_time (now + 60000) (natural (now / 1000 + 30)) ≡ true
unfolding in_time
in_time-edge now = ground arith

recorded-HeldUntil :
    (key : String) (until : ℕ) (rest seen : Seen)
    → seen ≡ (key, until) ∷ rest
    → HeldUntil key until seen
recorded-HeldUntil key until rest seen e = rw e (inl (refl, omega arith))

forgets :
    (key : String) (now store_now : ℕ) (seen seen' : Seen)
    → seen' ≡ (key, now + 60000) ∷ purge store_now seen
    → has key (purge store_now seen) ≡ false
    → has key (purge (now + 60000) seen') ≡ false
unfolding purge
forgets key now store_now seen seen' e unseen =
    rw e (ground (arith, has-purge_absent key (now + 60000) (purge store_now seen) unseen))

module _ {P : Type 0} (runtime : Runtime P) where
  -- Two authentic requests with the same headers have the same key.
  same_key :
      (headers : BoundaryAuthHeaders) (body body' : List ℕ) (credentials : List BoundaryCredential)
      (now now' : ℕ) (v w : Verified runtime)
      → IsAuthentic runtime headers body credentials now v
      → IsAuthentic runtime headers body' credentials now' w
      → v.key ≡ w.key
  same_key headers body body' credentials now now' v w e f =
      let authorization : e.authorization ≡ f.authorization = cc in
      let nonce : e.nonce ≡ f.nonce = cc in
      let parsed = e.claimed in
      let parsed' = f.claimed in
      let id : v.credential.id ≡ w.credential.id = cc in
      e.key
      ∙ ap (λ i. replay_key i e.nonce) id
      ∙ ap (λ n. replay_key w.credential.id n) nonce
      ∙ sym f.key

  timestamp_in_time :
      (headers : BoundaryAuthHeaders) (body : List ℕ) (credentials : List BoundaryCredential)
      (now ts : ℕ) (timestamp : String) (v : Verified runtime)
      → IsAuthentic runtime headers body credentials now v
      → headers.timestamp ≡ some timestamp
      → runtime.number timestamp ≡ natural ts
      → in_time now (natural ts) ≡ true
  timestamp_in_time headers body credentials now ts timestamp v e has_timestamp number =
      let same : e.timestamp ≡ timestamp = let h = e.has_timestamp in cc in
      ap (in_time now) (sym number) ∙ ap (λ t. in_time now (runtime.number t)) (sym same) ∙ e.fresh

  -- The same evidence one minute later, for a timestamp that was 30 s ahead.
  later :
      (headers : BoundaryAuthHeaders) (body : List ℕ) (credentials : List BoundaryCredential)
      (now : ℕ) (timestamp : String) (v : Verified runtime)
      → IsAuthentic runtime headers body credentials now v
      → headers.timestamp ≡ some timestamp
      → runtime.number timestamp ≡ natural (now / 1000 + 30)
      → IsAuthentic runtime headers body credentials (now + 60000) v
  later headers body credentials now timestamp v e has_timestamp number = record {
    authorization = e.authorization;
    timestamp = e.timestamp;
    nonce = e.nonce;
    signature = e.signature;
    version = e.version;
    has_authorization = e.has_authorization;
    has_timestamp = e.has_timestamp;
    has_nonce = e.has_nonce;
    claimed = e.claimed;
    configured = e.configured;
    fresh =
        let same : e.timestamp ≡ timestamp = let h = e.has_timestamp in cc in
        ap (λ t. in_time (now + 60000) (runtime.number t)) same
        ∙ ap (in_time (now + 60000)) number
        ∙ in_time-edge now;
    nonce_shape = e.nonce_shape;
    signed = e.signed;
    decoded = e.decoded;
    authorized = e.authorized;
    key = e.key;
  }

  -- A request whose timestamp was not ahead of the clock is not accepted twice under the same
  -- headers, with any body and whatever the store has been used for in the minute after `now`,
  -- as long as the store's clock is at most 29 s ahead of the one the timestamp is compared with.
  pub authenticate_once :
      (headers : BoundaryAuthHeaders) (body body' : List ℕ) (credentials : List BoundaryCredential)
      (now store_now now' store_now' ts : ℕ) (timestamp : String) (seen seen' : Seen)
      (visits : List Visit) (c c' : BoundaryCredential) (r r' : BoundaryRequest P)
      → authenticate runtime headers body credentials now store_now seen ≡ (pass (c, r), seen')
      → headers.timestamp ≡ some timestamp
      → runtime.number timestamp ≡ natural ts
      → ts ≤ now / 1000
      → All (λ v. v.time < now + 60000) visits
      → store_now' ≤ now' + 29000
      → (authenticate runtime headers body' credentials now' store_now' (visit visits seen')).0
        ≢ pass (c', r')
  authenticate_once headers body body' credentials now store_now now' store_now' ts timestamp seen
        seen' visits c c' r r' first has_timestamp number behind early clock second =
      let a =
        authenticate-Accepts runtime headers body credentials now store_now seen seen' c r first in
      let later = visit visits seen' in
      let b =
        authenticate-Accepts runtime headers body' credentials now' store_now' later
          (authenticate runtime headers body' credentials now' store_now' later).1 c' r'
          (ap (λ x. (x, (authenticate runtime headers body' credentials now' store_now' later).1))
            second) in
      let key =
        same_key headers body body' credentials now now' a.verified b.verified a.authentic
          b.authentic in
      let recent = in_time-recent now' ts (
        timestamp_in_time headers body' credentials now' ts timestamp b.verified b.authentic
          has_timestamp number) in
      let held : HeldUntil a.verified.key (now + 60000) seen' =
        recorded-HeldUntil _ _ _ _ a.recorded in
      let still = visit-HeldUntil a.verified.key (now + 60000) visits seen' early held in
      let live =
        purge-HeldUntil a.verified.key (now + 60000) store_now' later (omega arith) still in
      let seen_again =
        has_of_HeldUntil a.verified.key (now + 60000) (purge store_now' later) live in
      let unseen = b.unseen in cc

  -- A request whose timestamp was the full 30 s ahead of the clock is accepted, unchanged, a second
  -- time one minute later: its key is forgotten while its timestamp is still in time.
  pub authenticate_twice :
      (headers : BoundaryAuthHeaders) (body : List ℕ) (credentials : List BoundaryCredential)
      (now store_now : ℕ) (timestamp : String) (seen seen' : Seen) (c : BoundaryCredential)
      (r : BoundaryRequest P)
      → authenticate runtime headers body credentials now store_now seen ≡ (pass (c, r), seen')
      → headers.timestamp ≡ some timestamp
      → runtime.number timestamp ≡ natural (now / 1000 + 30)
      → (authenticate runtime headers body credentials (now + 60000) (now + 60000) seen').0
        ≡ pass (c, r)
  unfolding authenticate record_nonce ReplayStore.consume
  authenticate_twice headers body credentials now store_now timestamp seen seen' c r first
        has_timestamp number =
      let a =
        authenticate-Accepts runtime headers body credentials now store_now seen seen' c r first in
      let again = verify_of_IsAuthentic runtime headers body credentials (now + 60000) a.verified (
        later headers body credentials now timestamp a.verified a.authentic has_timestamp number) in
      let forgotten : has a.verified.key (purge (now + 60000) seen') ≡ false =
        forgets a.verified.key now store_now seen seen' a.recorded a.unseen in
      rw (again, forgotten) (cc)
