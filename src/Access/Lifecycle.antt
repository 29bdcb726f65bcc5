-- ===== src/Access/Lifecycle.antt =====
-- The life of a product access (packages/domain/src/aggregates/product-access.ts).
use labpics_id.Prelude.{
  ℕ, ◌<◌, ◌≡◌, ◌≢◌, ◌↔◌, refl, sym, ◌∙◌, ap, true, false, Option, none, some, List, [], ◌∷◌, ◌==◌,
  is_null, some_le, eq_iff, Bool-cases, inl, inr, arith,
}
use labpics_id.Domain.Result.{Result, ok, thrown, already_revoked}
use labpics_id.Access.{ProductAccessState, GrantProductAccessInput, grant, revoke, is_active}

-- Revocations at these times, one after the other; a refused one changes nothing.
abbrev kept : ProductAccessState → Result ProductAccessState → ProductAccessState
kept s (ok s') = s'
kept s (thrown f) = s

unfoldable pub revoke_all : List ℕ → ProductAccessState → ProductAccessState
revoke_all [] s = s
revoke_all (at ∷ times) s = revoke_all times (kept s (revoke at s))

-- Not after the end, if there is one.
abbrev pub Before : ℕ → Option ℕ → Type 0
Before t none = Unit
Before t (some end) = t < end

some_le→Before : (e : Option ℕ) (t : ℕ) → some_le e t ≡ false → Before t e
some_le→Before none t h = tt
some_le→Before (some end) t h = ground arith

Before→some_le : (e : Option ℕ) (t : ℕ) → Before t e → some_le e t ≡ false
Before→some_le none t h = refl
Before→some_le (some end) t h = ground arith

-- What the checks of a grant let through.
record Checked (input : GrantProductAccessInput) (s : ProductAccessState) : Type 0 where
  has_resource : (input.resource == "") ≡ false
  has_scope : (input.scope == "") ≡ false
  ends_later : some_le input.expires_at input.granted_at ≡ false
  same_start : input.granted_at ≡ s.granted_at
  same_end : input.expires_at ≡ s.expires_at
  is_granted : s.granted ≡ true
  unrevoked : s.revoked_at ≡ none

grant-Checked :
    (input : GrantProductAccessInput) (s : ProductAccessState)
    → grant input ≡ ok s
    → Checked input s
unfolding grant
grant-Checked input s h = elim (Bool-cases (input.resource == "")) [
  | inl r ↦ absurd (let h' = rw r at h in cc)
  | inr r ↦ elim (Bool-cases (input.scope == "")) [
    | inl c ↦ absurd (let h' = rw (r, c) at h in cc)
    | inr c ↦ elim (Bool-cases (some_le input.expires_at input.granted_at)) [
      | inl e ↦ absurd (let h' = rw (r, c, e) at h in cc)
      | inr e ↦
          let h' = rw (r, c, e) at h in
          record {
            has_resource = r;
            has_scope = c;
            ends_later = e;
            same_start = cc;
            same_end = cc;
            is_granted = cc;
            unrevoked = cc;
          }
    ]
  ]
]

is_active_iff :
    (s : ProductAccessState) (at : ℕ)
    → s.granted ≡ true
    → s.revoked_at ≡ none
    → (is_active at s ≡ true) ↔ Before at s.expires_at
unfolding is_active
is_active_iff s at g r = elim (Bool-cases (some_le s.expires_at at)) [
  | inl e ↦ (
    (λ a. absurd (let a' = rw (g, r, e) at a in cc)),
    (λ b. absurd (let e' = Before→some_le s.expires_at at b in cc)),
  )
  | inr e ↦ ((λ _. some_le→Before s.expires_at at e), (λ _. rw (g, r, e) refl))
]

-- A new grant has a resource, a scope and an end after its start, and is active exactly before
-- its end, from its start on.
pub grant-is_active :
    (input : GrantProductAccessInput) (s : ProductAccessState) (at : ℕ)
    → grant input ≡ ok s
    → (input.resource ≢ "")
      × (input.scope ≢ "")
      × Before input.granted_at s.expires_at
      × ((is_active at s ≡ true) ↔ Before at s.expires_at)
      × (is_active s.granted_at s ≡ true)
grant-is_active input s at h =
    let c = grant-Checked input s h in
    let start =
      some_le→Before s.expires_at input.granted_at
        (ap (λ e. some_le e input.granted_at) (sym c.same_end) ∙ c.ends_later) in
    (
      (λ e. let r = c.has_resource in let t = (eq_iff input.resource "").1 e in cc),
      (λ e. let r = c.has_scope in let t = (eq_iff input.scope "").1 e in cc),
      start,
      is_active_iff s at c.is_granted c.unrevoked,
      (is_active_iff s s.granted_at c.is_granted c.unrevoked).1 (rw (sym c.same_start) start),
    )

revoke-revoked :
    (s s' : ProductAccessState) (at : ℕ) → revoke at s ≡ ok s' → is_null s'.revoked_at ≡ false
unfolding revoke
revoke-revoked s s' at h = elim (Bool-cases (is_null s.revoked_at)) [
  | inr e ↦ absurd (let h' = rw e at h in cc)
  | inl e ↦
      let h' = rw e at h in
      let same : record s { granted = false; revoked_at = some at } ≡ s' = cc in
      ap (λ x. is_null x.revoked_at) (sym same)
]

revoke-refused :
    (s : ProductAccessState) (at : ℕ)
    → is_null s.revoked_at ≡ false
    → revoke at s ≡ thrown already_revoked
unfolding revoke
revoke-refused s at h = rw h refl

is_active-revoked :
    (s : ProductAccessState) (at : ℕ) → is_null s.revoked_at ≡ false → is_active at s ≡ false
unfolding is_active
is_active-revoked s at h = elim (Bool-cases s.granted) [
  | inl g ↦ rw (g, h) refl
  | inr g ↦ rw g refl
]

revoke_all-same :
    (times : List ℕ) (s : ProductAccessState)
    → is_null s.revoked_at ≡ false
    → revoke_all times s ≡ s
unfolding revoke_all
revoke_all-same [] s h = refl
revoke_all-same (at ∷ times) s h = rw (revoke-refused s at h) (revoke_all-same times s h)

-- A revocation is final: once it has succeeded the grant is never active, whatever is revoked
-- later, and every later revocation is refused as one of a revoked grant.
pub revoke_final :
    (s s' : ProductAccessState) (at again t : ℕ) (times : List ℕ)
    → revoke at s ≡ ok s'
    → (revoke_all times s' ≡ s')
      × (is_active t (revoke_all times s') ≡ false)
      × (revoke again (revoke_all times s') ≡ thrown already_revoked)
revoke_final s s' at again t times h =
    let same = revoke_all-same times s' (revoke-revoked s s' at h) in
    (
      same,
      ap (is_active t) same ∙ is_active-revoked s' t (revoke-revoked s s' at h),
      ap (revoke again) same ∙ revoke-refused s' again (revoke-revoked s s' at h),
    )
