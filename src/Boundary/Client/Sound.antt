-- ===== src/Boundary/Client/Sound.antt =====
-- What a result of apps/protocol/src/boundary.ts is founded on.
use labpics_id.Prelude.{
  map, ltb, length-append, ◌++◌, [], ◌∷◌, sym, false, some_gt, ◌+◌, ◌≤◌, length, Bool-cases, ℕ,
  String, ◌≡◌, refl, ap, ◌∙◌, ◌≢◌, inl, inr, Bool, true, Option, none, some, List, arith, ◌==◌,
  eq_iff,
}
use labpics_id.Boundary.Contract.{BoundaryErrorCode, BoundaryResponse, success, failure}
use labpics_id.Boundary.Client.Read.{whole}
use labpics_id.Boundary.Client.{
  bytes, broken, read_chunks, Chunk, Attempt, read_limited, Fetched, accept_response,
  accept_decoded, accept_read, exchange, done, failed, unreachable, response,
}

done_injective : {A : Type 0} {a b : A} → ◌≡◌ {A = Attempt A} (done a) (done b) → a ≡ b
done_injective h = cc

-- Chunks that are read to the end are the parts of the body, which has at most the limit's bytes.
read_chunks-within :
    (limit size : ℕ) (chunks : List Chunk) (raw : List ℕ)
    → size ≤ limit
    → read_chunks limit size chunks ≡ done raw
    → (parts : List (List ℕ)) × (chunks ≡ map bytes parts)
      × (raw ≡ whole parts)
      × (size + length raw ≤ limit)
unfolding read_chunks
read_chunks-within limit size [] raw le h =
    let same : raw ≡ [] = sym (done_injective h) in ([], refl, same, rw same (omega arith))
read_chunks-within limit size (broken timed_out ∷ rest) raw le h = absurd (cc)
read_chunks-within limit size (bytes value ∷ rest) raw le h =
    elim (Bool-cases (ltb limit (size + length value))) [
      | inl over ↦ absurd (let h' = rw over at h in cc)
      | inr fits ↦
          later (read_chunks limit (size + length value) rest)
            (λ more e. read_chunks-within limit (size + length value) rest more (ground arith) e)
            (rw fits at h)
    ]
  where
    later :
        (a : Attempt (List ℕ))
        → ((more : List ℕ)
            → a ≡ done more
            → (parts : List (List ℕ)) × (rest ≡ map bytes parts)
              × (more ≡ whole parts)
              × (size + length value + length more ≤ limit))
        → elim a [ done result ↦ done (value ++ result) | failed t ↦ failed t ] ≡ done raw
        → (parts : List (List ℕ)) × (bytes value ∷ rest ≡ map bytes parts)
          × (raw ≡ whole parts)
          × (size + length raw ≤ limit)
    later (failed t) within k = absurd (cc)
    later (done more) within k =
        let same : raw ≡ value ++ more = sym (done_injective k) in
        let (parts, chunks≡, more≡, le') = within more refl in
        (
          value ∷ parts,
          ap (λ cs. bytes value ∷ cs) chunks≡,
          same ∙ ap (λ m. value ++ m) more≡,
          rw same (omega (arith, le', length-append value more)),
        )

-- What a body is that was read: nothing, or its chunks.
pub data BodyOf : Option (List Chunk) → List ℕ → Type 0 where
  empty : BodyOf none []
  chunked : (parts : List (List ℕ)) → BodyOf (some (map bytes parts)) (whole parts)

read_limited-within :
    (declared : Option ℕ) (body : Option (List Chunk)) (limit : ℕ) (raw : List ℕ)
    → read_limited declared body limit ≡ done raw
    → BodyOf body raw × (length raw ≤ limit) × (some_gt declared limit ≡ false)
unfolding read_limited
read_limited-within declared body limit raw h = elim (Bool-cases (some_gt declared limit)) [
  | inl over ↦ absurd (let h' = rw over at h in cc)
  | inr fits ↦ let (is_body, le) = by_body body (rw fits at h) in (is_body, le, fits)
]
  where
    by_body :
        (o : Option (List Chunk))
        → elim o [ none ↦ done [] | some chunks ↦ read_chunks limit 0 chunks ] ≡ done raw
        → BodyOf o raw × (length raw ≤ limit)
    by_body none k =
        let same : raw ≡ [] = sym (done_injective k) in (rw same empty, rw same (omega arith))
    by_body (some chunks) k =
        let (parts, chunks≡, raw≡, le) = read_chunks-within limit 0 chunks raw (omega arith) k in
        (rw (chunks≡, raw≡) (chunked parts), omega (arith, le))

module _ {D R : Type 0} (decode : List ℕ → Option D) (parse : D → Option (BoundaryResponse R))
    (correlation_id : String) (limit : ℕ) where
  -- The response that has the result: its status is a success, its whole body has at most the
  -- limit's number of bytes, its header does not declare more, and the body parses to a success
  -- under the request's correlation id.
  pub record Founded (fetched : Fetched) (r : R) : Type 0 where
    pub declared : Option ℕ
    pub body : Option (List Chunk)
    pub raw : List ℕ
    pub document : D
    pub answered : fetched ≡ response true declared body
    pub is_read : BodyOf body raw
    pub within : length raw ≤ limit
    pub declares_within : some_gt declared limit ≡ false
    pub decoded : decode raw ≡ some document
    pub parsed : parse document ≡ some (success correlation_id r)

  -- A result comes only from a response with a success status whose whole body has at
  -- most the limit's number of bytes, was not declared longer, and parses to a success that has the
  -- request's correlation id.
  pub exchange-Founded :
      (fetched : Fetched) (r : R)
      → exchange decode parse correlation_id limit fetched ≡ done r
      → Founded fetched r
  unfolding exchange
  exchange-Founded (unreachable timed_out) r h = absurd (cc)
  exchange-Founded (response http_ok declared body) r h =
      go (read_limited declared body limit) refl h
    where
      answered_by :
          (ok : Bool) (id : String) (x : R)
          → accept_response decode parse correlation_id ok (some (success id x)) ≡ done r
          → (ok ≡ true) × (id ≡ correlation_id) × (x ≡ r)
      answered_by ok id x k = elim (Bool-cases (id == correlation_id)) [
        | inr e ↦ absurd (let k' = rw e at k in cc)
        | inl e ↦ elim (Bool-cases ok) [
          | inr f ↦ absurd (let k' = rw (e, f) at k in cc)
          | inl t ↦ (t, (eq_iff id correlation_id).0 e, done_injective (rw (e, t) at k))
        ]
      ]

      refuses :
          (id : String) (code : BoundaryErrorCode) (message : String) (retryable : Bool)
          → accept_response decode parse correlation_id http_ok
              (some (failure id code message retryable))
            ≢ done r
      refuses id code message retryable k = ground arith

      parsed_by :
          (raw : List ℕ) (d : D) (p : Option (BoundaryResponse R))
          → read_limited declared body limit ≡ done raw
          → decode raw ≡ some d
          → parse d ≡ p
          → accept_response decode parse correlation_id http_ok p ≡ done r
          → Founded (response http_ok declared body) r
      parsed_by raw d none e f g k = absurd (cc)
      parsed_by raw d (some (failure id code message retryable)) e f g k =
          absurd (refuses id code message retryable k)
      parsed_by raw d (some (success id x)) e f g k =
          let (t, same, x≡) = answered_by http_ok id x k in
          let (is_body, fits, declares) = read_limited-within declared body limit raw e in
          record {
            declared = declared;
            body = body;
            raw = raw;
            document = d;
            answered = ap (λ ok. response ok declared body) t;
            is_read = is_body;
            within = fits;
            declares_within = declares;
            decoded = f;
            parsed = g ∙ ap some (ap (λ i. success i x) same ∙ ap (success correlation_id) x≡);
          }

      decoded_by :
          (raw : List ℕ) (o : Option D)
          → read_limited declared body limit ≡ done raw
          → decode raw ≡ o
          → accept_decoded decode parse correlation_id http_ok o ≡ done r
          → Founded (response http_ok declared body) r
      decoded_by raw none e f k = absurd (cc)
      decoded_by raw (some d) e f k = parsed_by raw d (parse d) e f refl k

      go :
          (a : Attempt (List ℕ))
          → read_limited declared body limit ≡ a
          → accept_read decode parse correlation_id http_ok a ≡ done r
          → Founded (response http_ok declared body) r
      go (failed t) e k = absurd (cc)
      go (done raw) e k = decoded_by raw (decode raw) e refl k
