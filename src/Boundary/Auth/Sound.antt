-- ===== src/Boundary/Auth/Sound.antt =====
-- What an accepted boundary request has shown, and what a rejected one leaves of the replay store.
use labpics_id.Prelude.{
  ◌↔◌, eq_refl, ap, ◌∙◌, sym, ℕ, ◌≡◌, refl, Bool, true, false, Option, none, some, List, [], ◌∷◌,
  String, ◌==◌, eq_iff, Bool-cases, inl, inr,
}
use labpics_id.Boundary.Contract.{BoundaryRequest, BoundaryCredential, authorizes, boundary_version}
use labpics_id.Boundary.Header.{parse_authorization, nonce_pattern}
use labpics_id.Boundary.Auth.{
  Presented, present, identify, inspect, admit, Check, pass, deny, ◌>>=◌, unless, some_or,
  BoundaryTransportError, Runtime, Verified, BoundaryAuthHeaders, find_credential, in_time,
  sign_boundary_payload, verify, replay_key, Decoded, no_json, refused, valid, request_of,
  is_version,
}

data Bound {ℓ κ} {A : Type ℓ} {B : Type κ} (m : Check A) (f : A → Check B) (b : B)
    : Type (ℓ ⊔ κ) where
  bound : (a : A) → m ≡ pass a → f a ≡ pass b → Bound m f b

bind-eq-pass {ℓ κ} :
    {A : Type ℓ} {B : Type κ} (m : Check A) (f : A → Check B) {b : B}
    → (m >>= f) ≡ pass b
    → Bound m f b
unfolding ◌>>=◌
bind-eq-pass (pass a) f h = bound a refl h
bind-eq-pass (deny e) f h = cc

unless-eq-pass :
    (b : Bool) (e : BoundaryTransportError) {u : Unit {0}} → unless b e ≡ pass u → b ≡ true
unless-eq-pass true e h = refl
unless-eq-pass false e h = cc

some_or-eq-pass :
    {A : Type 0} (o : Option A) (e : BoundaryTransportError) {a : A}
    → some_or o e ≡ pass a
    → o ≡ some a
some_or-eq-pass none e h = cc
some_or-eq-pass (some x) e h = cc

is_version-some : (v : Option String) → is_version v ≡ true → v ≡ some boundary_version
is_version-some none h = cc
is_version-some (some v) h = cc ((eq_iff v boundary_version).0 h)

find_credential-id :
    (id : String) (cs : List BoundaryCredential) {c : BoundaryCredential}
    → find_credential id cs ≡ some c
    → c.id ≡ id
unfolding find_credential
find_credential-id id [] h = cc
find_credential-id id (x ∷ cs) {c} h = elim (Bool-cases (x.id == id)) [
  | inl e ↦ let same : some x ≡ some c = rw e at h in cc ((eq_iff x.id id).0 e)
  | inr e ↦ find_credential-id id cs (rw e at h)
]

module _ {P : Type 0} (runtime : Runtime P) where
  request_of-eq-pass :
      (d : Decoded P) {r : BoundaryRequest P} → request_of runtime d ≡ pass r → d ≡ valid r
  request_of-eq-pass no_json h = cc
  request_of-eq-pass (refused c o) h = cc
  request_of-eq-pass (valid r) h = cc

  -- The evidence for a request: every header is there, the credential is a configured one, and its
  -- secret signs this timestamp, this nonce and this body.
  pub record IsAuthentic (headers : BoundaryAuthHeaders) (body : List ℕ)
      (credentials : List BoundaryCredential) (now : ℕ) (v : Verified runtime) : Type 0 where
    pub authorization : String
    pub timestamp : String
    pub nonce : String
    pub signature : String
    pub version : headers.version ≡ some boundary_version
    pub has_authorization : headers.authorization ≡ some authorization
    pub has_timestamp : headers.timestamp ≡ some timestamp
    pub has_nonce : headers.nonce ≡ some nonce
    pub claimed : parse_authorization authorization ≡ some (v.credential.id, signature)
    pub configured : find_credential v.credential.id credentials ≡ some v.credential
    pub fresh : in_time now (runtime.number timestamp) ≡ true
    pub nonce_shape : nonce_pattern nonce ≡ true
    pub signed : signature ≡ sign_boundary_payload runtime v.credential.secret timestamp nonce body
    pub decoded : runtime.decode body ≡ valid v.request
    pub authorized : authorizes v.credential.operations v.request.operation ≡ true
    pub key : v.key ≡ replay_key v.credential.id nonce

  present-eq-pass :
      (headers : BoundaryAuthHeaders) (p : Presented)
      → present runtime headers ≡ pass p
      → (headers.version ≡ some boundary_version)
        × (headers.authorization ≡ some p.authorization)
        × (headers.timestamp ≡ some p.timestamp)
        × (headers.nonce ≡ some p.nonce)
  unfolding present
  present-eq-pass headers p h = elim (bind-eq-pass _ _ h) [
    | bound u version h₁ ↦ elim (bind-eq-pass _ _ h₁) [
      | bound authorization a h₂ ↦ elim (bind-eq-pass _ _ h₂) [
        | bound timestamp t h₃ ↦ elim (bind-eq-pass _ _ h₃) [
          | bound nonce n done ↦
              let a' = some_or-eq-pass _ _ a in
              let t' = some_or-eq-pass _ _ t in
              let n' = some_or-eq-pass _ _ n in
              (is_version-some headers.version (unless-eq-pass _ _ version), cc, cc, cc)
        ]
      ]
    ]
  ]

  identify-eq-pass :
      (credentials : List BoundaryCredential) (authorization : String)
      (claimed : BoundaryCredential × String)
      → identify runtime credentials authorization ≡ pass claimed
      → (parse_authorization authorization ≡ some (claimed.0.id, claimed.1))
        × (find_credential claimed.0.id credentials ≡ some claimed.0)
  unfolding identify
  identify-eq-pass credentials authorization claimed h = elim (bind-eq-pass _ _ h) [
    | bound claim parsed h₁ ↦ elim (bind-eq-pass _ _ h₁) [
      | bound credential found done ↦
          let matched = some_or-eq-pass _ _ found in
          let id = find_credential-id claim.0 credentials matched in
          let p : parse_authorization authorization ≡ some claim = some_or-eq-pass _ _ parsed in
          let same : (credential, claim.1) ≡ claimed = cc in
          rw (sym same) (
            p ∙ ap (λ i. some (i, claim.1)) (sym id),
            ap (λ i. find_credential i credentials) id ∙ matched,
          )
    ]
  ]

  inspect-eq-pass :
      (p : Presented) (body : List ℕ) (credential : BoundaryCredential) (signature : String)
      (now : ℕ) {u : Unit {0}}
      → inspect runtime p body credential signature now ≡ pass u
      → (in_time now (runtime.number p.timestamp) ≡ true)
        × (nonce_pattern p.nonce ≡ true)
        × (signature ≡ sign_boundary_payload runtime credential.secret p.timestamp p.nonce body)
  unfolding inspect
  inspect-eq-pass p body credential signature now h = elim (bind-eq-pass _ _ h) [
    | bound u₁ fresh h₁ ↦ elim (bind-eq-pass _ _ h₁) [
      | bound u₂ shape signed ↦ (
        unless-eq-pass _ _ fresh,
        unless-eq-pass _ _ shape,
        (eq_iff signature
              (sign_boundary_payload runtime credential.secret p.timestamp p.nonce body)).0
            (unless-eq-pass _ _ signed),
      )
    ]
  ]

  admit-eq-pass :
      (body : List ℕ) (credential : BoundaryCredential) (request : BoundaryRequest P)
      → admit runtime body credential ≡ pass request
      → (runtime.decode body ≡ valid request)
        × (authorizes credential.operations request.operation ≡ true)
  unfolding admit
  admit-eq-pass body credential request h = elim (bind-eq-pass _ _ h) [
    | bound r decoded h₁ ↦ elim (bind-eq-pass _ _ h₁) [
      | bound u authorized done ↦
          let d = request_of-eq-pass _ decoded in
          let a = unless-eq-pass _ _ authorized in
          let same : r ≡ request = cc in (cc, rw (sym same) a)
    ]
  ]

  evidence :
      (headers : BoundaryAuthHeaders) (body : List ℕ) (credentials : List BoundaryCredential)
      (now : ℕ) (p : Presented) (claimed : BoundaryCredential × String)
      (request : BoundaryRequest P)
      → (headers.version ≡ some boundary_version)
        × (headers.authorization ≡ some p.authorization)
        × (headers.timestamp ≡ some p.timestamp)
        × (headers.nonce ≡ some p.nonce)
      → (parse_authorization p.authorization ≡ some (claimed.0.id, claimed.1))
        × (find_credential claimed.0.id credentials ≡ some claimed.0)
      → (in_time now (runtime.number p.timestamp) ≡ true)
        × (nonce_pattern p.nonce ≡ true)
        × (claimed.1 ≡ sign_boundary_payload runtime claimed.0.secret p.timestamp p.nonce body)
      → (runtime.decode body ≡ valid request)
        × (authorizes claimed.0.operations request.operation ≡ true)
      → IsAuthentic headers body credentials now (record {
        credential = claimed.0;
        request = request;
        key = replay_key claimed.0.id p.nonce;
      })
  evidence headers body credentials now p claimed request (version, authorization, timestamp, nonce)
        (parsed, configured) (fresh, shape, signed) (decoded, authorized) =
      record {
        authorization = p.authorization;
        timestamp = p.timestamp;
        nonce = p.nonce;
        signature = claimed.1;
        version = version;
        has_authorization = authorization;
        has_timestamp = timestamp;
        has_nonce = nonce;
        claimed = parsed;
        configured = configured;
        fresh = fresh;
        nonce_shape = shape;
        signed = signed;
        decoded = decoded;
        authorized = authorized;
        key = refl;
      }

  pub verify-IsAuthentic :
      (headers : BoundaryAuthHeaders) (body : List ℕ) (credentials : List BoundaryCredential)
      (now : ℕ) (v : Verified runtime)
      → verify runtime headers body credentials now ≡ pass v
      → IsAuthentic headers body credentials now v
  unfolding verify
  verify-IsAuthentic headers body credentials now v h = elim (bind-eq-pass _ _ h) [
    | bound p presented h₁ ↦ elim (bind-eq-pass _ _ h₁) [
      | bound claimed identified h₂ ↦ elim (bind-eq-pass _ _ h₂) [
        | bound u inspected h₃ ↦ elim (bind-eq-pass _ _ h₃) [
          | bound request admitted done ↦
              let same : record {
                credential = claimed.0;
                request = request;
                key = replay_key claimed.0.id p.nonce;
              }
                  ≡ v =
                cc in
              rw (sym same) (
                evidence headers body credentials now p claimed request
                  (present-eq-pass headers p presented)
                  (identify-eq-pass credentials p.authorization claimed identified)
                  (inspect-eq-pass p body claimed.0 claimed.1 now inspected)
                  (admit-eq-pass body claimed.0 request admitted))
        ]
      ]
    ]
  ]

  pub verify_of_IsAuthentic :
      (headers : BoundaryAuthHeaders) (body : List ℕ) (credentials : List BoundaryCredential)
      (now : ℕ) (v : Verified runtime)
      → IsAuthentic headers body credentials now v
      → verify runtime headers body credentials now ≡ pass v
  unfolding verify present identify inspect admit ◌>>=◌
  verify_of_IsAuthentic headers body credentials now v e =
      rw
        (
          e.version,
          e.has_authorization,
          e.has_timestamp,
          e.has_nonce,
          e.claimed,
          e.configured,
          e.fresh,
          e.nonce_shape,
          e.signed,
          eq_refl (sign_boundary_payload runtime v.credential.secret e.timestamp e.nonce body),
          e.decoded,
          e.authorized,
        )
        (ap (λ k. pass (record { credential = v.credential; request = v.request; key = k }))
          (sym e.key))

  -- What comes before the recording of the nonce lets a request through if and only if the
  -- evidence for it is complete.
  pub verify_iff :
      (headers : BoundaryAuthHeaders) (body : List ℕ) (credentials : List BoundaryCredential)
      (now : ℕ) (v : Verified runtime)
      → (verify runtime headers body credentials now ≡ pass v)
        ↔ IsAuthentic headers body credentials now v
  verify_iff headers body credentials now v = (
    verify-IsAuthentic headers body credentials now v,
    verify_of_IsAuthentic headers body credentials now v,
  )
