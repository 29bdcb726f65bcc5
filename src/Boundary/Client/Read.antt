-- ===== src/Boundary/Client/Read.antt =====
-- readLimited of apps/protocol/src/boundary.ts: the whole body within the limit, or a refusal.
use labpics_id.Prelude.{
  ltb, if◌then◌else◌, some_gt, Bool-cases, length, length-append, ℕ, ◌+◌, ◌≤◌, ◌≡◌, refl, inl, inr,
  Bool, true, false, ◌||◌, Option, some, List, [], ◌∷◌, ◌++◌, map, arith,
}
use labpics_id.Boundary.Contract.{response_too_large}
use labpics_id.Boundary.Client.{Attempt, read_chunks, read_limited, bytes, transport, done, failed}

abbrev pub whole : List (List ℕ) → List ℕ
whole [] = []
whole (xs ∷ rest) = xs ++ whole rest

abbrev too_large : Attempt (List ℕ)
too_large = failed (transport response_too_large false)

read_chunks-whole :
    (limit size : ℕ) (parts : List (List ℕ))
    → size ≤ limit
    → read_chunks limit size (map bytes parts)
      ≡ (if ltb limit (size + length (whole parts)) then too_large else done (whole parts))
unfolding read_chunks
read_chunks-whole limit size [] le = ground arith
read_chunks-whole limit size (part ∷ rest) le = elim (Bool-cases (ltb limit (size + length part))) [
  | inl e ↦
      let over : ltb limit (size + length (part ++ whole rest)) ≡ true =
        ground (arith, e, length-append part (whole rest)) in
      rw (e, over) refl
  | inr e ↦
      let fits : size + length part ≤ limit = ground (arith, e) in
      let tail = read_chunks-whole limit (size + length part) rest fits in
      let total : size + length (part ++ whole rest) ≡ size + length part + length (whole rest) =
        omega (arith, length-append part (whole rest)) in
      rw (e, tail, total) (prepend (ltb limit (size + length part + length (whole rest))))
]
  where
    prepend :
        (over : Bool)
        → (elim (if over then too_large else done (whole rest)) [
          | done later ↦ done (part ++ later)
          | failed t ↦ failed t
        ])
          ≡ (if over then too_large else done (part ++ whole rest))
    prepend true = refl
    prepend false = refl

-- A body that is read to its end is answered as the concatenation of its chunks if that has at most the
-- limit's number of bytes and the header declares no more; else the response is too large, which
-- is not retryable. The chunks' sizes do not matter.
pub read_limited-whole :
    (declared : Option ℕ) (parts : List (List ℕ)) (limit : ℕ)
    → read_limited declared (some (map bytes parts)) limit ≡ (
        if some_gt declared limit || ltb limit (length (whole parts))
        then failed (transport response_too_large false)
        else done (whole parts))
unfolding read_limited
read_limited-whole declared parts limit =
    rw (read_chunks-whole limit 0 parts (omega arith)) (ground arith)
