-- ===== src/Sql/Rows.antt =====
-- Statements seen row by row: which rows an UPDATE or a DELETE leaves as they were.
use labpics_id.Prelude.{
  none, if◌then◌else◌, ◌≡◌, refl, Bool, true, false, some, List, [], ◌∷◌, arith, first, All,
  All-append, Bool-cases, inl, inr,
}
use mathlib.Core.Path.{subst}
use labpics_id.Sql.{select, update, delete, insert, find}

module _ {ℓ} {R : Type ℓ} (p : R → Bool) where
  pub first-select : (rs : List R) → first (select p rs) ≡ find p rs
  unfolding select find
  first-select [] = refl
  first-select (x ∷ rs) = ground (arith, first-select rs)

  -- No row passes the test: the UPDATE changes nothing.
  pub update_of_none : (f : R → R) (rs : List R) → select p rs ≡ [] → update p f rs ≡ rs
  unfolding select update
  update_of_none f [] h = refl
  update_of_none f (x ∷ rs) h = ground (arith, update_of_none f rs)

  -- An UPDATE is seen only through the rows that it changes: a query that neither the old nor
  -- the new version of a changed row answers has the same answer.
  pub select-update :
      (q : R → Bool) (f : R → R) (rs : List R)
      → ((r : R) → p r ≡ true → (q r ≡ false) × (q (f r) ≡ false))
      → select q (update p f rs) ≡ select q rs
  unfolding select update
  select-update q f [] h = refl
  select-update q f (x ∷ rs) h = ground (arith, select-update q f rs h, h x)

module _ {ℓ κ} {R : Type ℓ} (P : R → Type κ) where
  pub All-update :
      (p : R → Bool) (f : R → R) (rs : List R)
      → ((r : R) → p r ≡ true → P r → P (f r))
      → All P rs
      → All P (update p f rs)
  unfolding update
  All-update p f [] step h = tt
  All-update p f (x ∷ rs) step h = elim (Bool-cases (p x)) [
    | inl e ↦ rw e (step x e h.0, All-update p f rs step h.1)
    | inr e ↦ rw e (h.0, All-update p f rs step h.1)
  ]

  -- An UPDATE establishes what its change gives its own rows and what the others have.
  pub All-update-All :
      (p : R → Bool) (f : R → R) (rs : List R)
      → ((r : R) → p r ≡ true → P (f r))
      → ((r : R) → p r ≡ false → P r)
      → All P (update p f rs)
  unfolding update
  All-update-All p f [] hit miss = tt
  All-update-All p f (x ∷ rs) hit miss = elim (Bool-cases (p x)) [
    | inl e ↦ rw e (hit x e, All-update-All p f rs hit miss)
    | inr e ↦ rw e (miss x e, All-update-All p f rs hit miss)
  ]

  pub All-insert : (r : R) (rs : List R) → All P rs → P r → All P (insert r rs)
  unfolding insert
  All-insert r rs h p = All-append P rs (r ∷ []) h (p, tt)

  pub All-delete : (p : R → Bool) (rs : List R) → All P rs → All P (delete p rs)
  unfolding delete
  All-delete p [] h = tt
  All-delete p (x ∷ rs) h = elim (Bool-cases (p x)) [
    | inl e ↦ rw e (All-delete p rs h.1)
    | inr e ↦ rw e (h.0, All-delete p rs h.1)
  ]

  pub find-All : (p : R → Bool) (rs : List R) (r : R) → find p rs ≡ some r → All P rs → P r
  unfolding find
  find-All p [] r e h = ground arith
  find-All p (x ∷ rs) r e h = elim (Bool-cases (p x)) [
    | inl t ↦ let e' : some x ≡ some r = rw t at e in subst P (cc) h.0
    | inr t ↦ find-All p rs r (rw t at e) h.1
  ]

-- What a query finds passes its test.
pub find_passes {ℓ} :
    {R : Type ℓ} (p : R → Bool) (rs : List R) (r : R) → find p rs ≡ some r → p r ≡ true
unfolding find
find_passes p [] r e = ground arith
find_passes p (x ∷ rs) r e = ground (arith, find_passes p rs r)

-- A query whose test the change does not touch finds the same row, changed if the UPDATE hit it.
pub find-update {ℓ} :
    {R : Type ℓ} (q p : R → Bool) (f : R → R) (rs : List R)
    → ((r : R) → q (f r) ≡ q r)
    → find q (update p f rs)
      ≡ (elim (find q rs) [ none ↦ none | some r ↦ some (if p r then f r else r) ])
unfolding find update
find-update q p f [] keeps = refl
find-update q p f (x ∷ rs) keeps = ground (arith, find-update q p f rs keeps, keeps x)

pub find-insert {ℓ} :
    {R : Type ℓ} (q : R → Bool) (r : R) (rs : List R)
    → find q (insert r rs)
      ≡ (elim (find q rs) [ some x ↦ some x | none ↦ if q r then some r else none ])
unfolding find insert
find-insert q r [] = ground arith
find-insert q r (x ∷ rs) = ground (arith, find-insert q r rs)

-- Two tests that agree on every row find the same.
pub find-same {ℓ} :
    {R : Type ℓ} (p q : R → Bool) (rs : List R) → All (λ r. p r ≡ q r) rs → find p rs ≡ find q rs
unfolding find
find-same p q [] same = refl
find-same p q (x ∷ rs) same = ground (arith, same.0, find-same p q rs same.1)
