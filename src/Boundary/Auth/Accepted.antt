-- ===== src/Boundary/Auth/Accepted.antt =====
-- What authenticateBoundaryRequest of packages/contracts/src/boundary-auth.ts does to the replay
-- store, accepted or not.
use labpics_id.Prelude.{true, ℕ, ◌+◌, ◌≡◌, ◌⊎◌, refl, sym, false, List, ◌∷◌, Bool-cases, inl, inr}
use labpics_id.Boundary.Contract.{BoundaryRequest, BoundaryCredential, replay_detected}
use labpics_id.Boundary.ReplayStore
use labpics_id.Boundary.ReplayStore.{Seen, has, purge}
use labpics_id.Boundary.Auth.{
  Check, pass, deny, Runtime, Verified, BoundaryAuthHeaders, BoundaryTransportError, verify,
  record_nonce, authenticate, settle,
}
use labpics_id.Boundary.Auth.Sound.{IsAuthentic, verify-IsAuthentic, verify_iff}

module _ {P : Type 0} (runtime : Runtime P) where
  -- An accepted request: what it has shown, that its key was not live, and that the key is now
  -- held until twice the skew after `now`.
  pub record Accepts (headers : BoundaryAuthHeaders) (body : List ℕ)
      (credentials : List BoundaryCredential) (now store_now : ℕ) (seen seen' : Seen)
      (credential : BoundaryCredential) (request : BoundaryRequest P) : Type 0 where
    pub verified : Verified runtime
    pub authentic : IsAuthentic runtime headers body credentials now verified
    pub is_credential : verified.credential ≡ credential
    pub is_request : verified.request ≡ request
    pub unseen : has verified.key (purge store_now seen) ≡ false
    pub recorded : seen' ≡ (verified.key, now + 60000) ∷ purge store_now seen

  record_nonce-recorded :
      (now store_now : ℕ) (v : Verified runtime) (seen seen' : Seen) (c : BoundaryCredential)
      (r : BoundaryRequest P)
      → record_nonce runtime now store_now v seen ≡ (pass (c, r), seen')
      → (v.credential ≡ c)
        × (v.request ≡ r)
        × (has v.key (purge store_now seen) ≡ false)
        × (seen' ≡ (v.key, now + 60000) ∷ purge store_now seen)
  unfolding record_nonce ReplayStore.consume
  record_nonce-recorded now store_now v seen seen' c r h =
      elim (Bool-cases (has v.key (purge store_now seen))) [
        | inl e ↦ absurd (let h' = rw e at h in cc)
        | inr e ↦ let h' = rw e at h in (cc, cc, e, cc)
      ]

  record_nonce-replay :
      (now store_now : ℕ) (v : Verified runtime) (seen seen' : Seen) (e : BoundaryTransportError)
      → record_nonce runtime now store_now v seen ≡ (deny e, seen')
      → (has v.key (purge store_now seen) ≡ true)
        × (e.code ≡ replay_detected)
        × (seen' ≡ purge store_now seen)
  unfolding record_nonce ReplayStore.consume
  record_nonce-replay now store_now v seen seen' e h =
      elim (Bool-cases (has v.key (purge store_now seen))) [
        | inl live ↦ let h' = rw live at h in (live, cc, cc)
        | inr gone ↦ absurd (let h' = rw gone at h in cc)
      ]

  settle-cases :
      (headers : BoundaryAuthHeaders) (body : List ℕ) (credentials : List BoundaryCredential)
      (now store_now : ℕ) (seen seen' : Seen) (c : BoundaryCredential) (r : BoundaryRequest P)
      (outcome : Check (Verified runtime))
      → outcome ≡ verify runtime headers body credentials now
      → settle runtime now store_now outcome seen ≡ (pass (c, r), seen')
      → Accepts headers body credentials now store_now seen seen' c r
  settle-cases headers body credentials now store_now seen seen' c r (deny e) o h = absurd (cc)
  settle-cases headers body credentials now store_now seen seen' c r (pass v) o h =
      let (credential, request, unseen, recorded) =
        record_nonce-recorded now store_now v seen seen' c r h in
      record {
        verified = v;
        authentic = verify-IsAuthentic runtime headers body credentials now v (sym o);
        is_credential = credential;
        is_request = request;
        unseen = unseen;
        recorded = recorded;
      }

  -- An accepted request brought every header, was signed for this timestamp, nonce and body with
  -- the secret of the configured credential it names, in time and for an operation that the
  -- credential has; its key was not live, and is recorded until 60 s after `now`.
  pub authenticate-Accepts :
      (headers : BoundaryAuthHeaders) (body : List ℕ) (credentials : List BoundaryCredential)
      (now store_now : ℕ) (seen seen' : Seen) (c : BoundaryCredential) (r : BoundaryRequest P)
      → authenticate runtime headers body credentials now store_now seen ≡ (pass (c, r), seen')
      → Accepts headers body credentials now store_now seen seen' c r
  unfolding authenticate
  authenticate-Accepts headers body credentials now store_now seen seen' c r h =
      settle-cases headers body credentials now store_now seen seen' c r
        (verify runtime headers body credentials now) refl h

  -- A rejection is one of two. It is that of the checks of a request that is not authentic, and the
  -- replay store is left as it was. Or it is the one for a replay of an authentic request whose
  -- key the store holds live, and the store has lost only what had expired.
  pub authenticate-rejected :
      (headers : BoundaryAuthHeaders) (body : List ℕ) (credentials : List BoundaryCredential)
      (now store_now : ℕ) (seen seen' : Seen) (e : BoundaryTransportError)
      → authenticate runtime headers body credentials now store_now seen ≡ (deny e, seen')
      → (((v : Verified runtime) → ¬ IsAuthentic runtime headers body credentials now v)
          × (verify runtime headers body credentials now ≡ deny e)
          × (seen' ≡ seen))
        ⊎ ((v : Verified runtime) × IsAuthentic runtime headers body credentials now v
            × (has v.key (purge store_now seen) ≡ true)
            × (e.code ≡ replay_detected)
            × (seen' ≡ purge store_now seen))
  unfolding authenticate
  authenticate-rejected headers body credentials now store_now seen seen' e h =
      rejected (verify runtime headers body credentials now) refl h
    where
      rejected :
          (outcome : Check (Verified runtime))
          → verify runtime headers body credentials now ≡ outcome
          → settle runtime now store_now outcome seen ≡ (deny e, seen')
          → (((v : Verified runtime) → ¬ IsAuthentic runtime headers body credentials now v)
              × (verify runtime headers body credentials now ≡ deny e)
              × (seen' ≡ seen))
            ⊎ ((v : Verified runtime) × IsAuthentic runtime headers body credentials now v
                × (has v.key (purge store_now seen) ≡ true)
                × (e.code ≡ replay_detected)
                × (seen' ≡ purge store_now seen))
      rejected (deny d) is_denied o = inl (
        (λ v a.
            absurd (let passed = (verify_iff runtime headers body credentials now v).1 a in cc)),
        cc,
        cc,
      )
      rejected (pass v) is_passed o =
          let (live, code, left) = record_nonce-replay now store_now v seen seen' e o in
          let authentic = verify-IsAuthentic runtime headers body credentials now v is_passed in
          inr (v, authentic, live, code, left)
