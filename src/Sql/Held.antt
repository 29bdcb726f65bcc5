-- ===== src/Sql/Held.antt =====
-- A table that holds, at a key, a row with a property: what keeps it so.
use labpics_id.Prelude.{
  ◌≡◌, refl, Bool, true, some, List, [], ◌∷◌, String, ◌==◌, Bool-cases, inl, inr, ◌∙◌, ap, sym,
  eq_iff, eq_refl,
}
use labpics_id.Sql.{update, insert, find}
use labpics_id.Sql.Keyed.{IsUnique, row_of, row_of-key, row_of-update, change}
use labpics_id.Sql.Rows.{find-insert}

module _ {ℓ} {R : Type ℓ} (key : R → String) (k : String) (Q : R → Type 0) where
  abbrev pub Held : List R → Type ℓ
  Held rows = (r : R) × (row_of key k rows ≡ some r) × Q r

  pub update-Held :
      (p : R → Bool) (f : R → R) (rows : List R)
      → ((r : R) → key (f r) ≡ key r)
      → ((r : R) → key r ≡ k → p r ≡ true → Q r → Q (f r))
      → Held rows
      → Held (update p f rows)
  update-Held p f rows keeps step (r, here, q) =
      let here' = row_of-update key p f keeps k rows ∙ ap (change p f) here in
      elim (Bool-cases (p r)) [
        | inl e ↦ (f r, here' ∙ rw e refl, step r (row_of-key key k rows r here) e q)
        | inr e ↦ (r, here' ∙ rw e refl, q)
      ]

  pub insert-Held : (r : R) (rows : List R) → Held rows → Held (insert r rows)
  unfolding row_of
  insert-Held r rows (x, here, q) = (x, find-insert (λ r. key r == k) r rows ∙ rw here refl, q)

-- The row at the key, hit by an UPDATE.
pub update_hit {ℓ} :
    {R : Type ℓ} (key : R → String) (p : R → Bool) (f : R → R) (k : String) (rows : List R) (r : R)
    → ((r : R) → key (f r) ≡ key r)
    → row_of key k rows ≡ some r
    → p r ≡ true
    → row_of key k (update p f rows) ≡ some (f r)
update_hit key p f k rows r keeps here e =
    row_of-update key p f keeps k rows ∙ ap (change p f) here ∙ rw e refl

-- A row found by any test is the one at its key, where the key is unique.
pub row_of_found {ℓ} :
    {R : Type ℓ} (key : R → String) (p : R → Bool) (rows : List R) (r : R)
    → IsUnique key rows
    → find p rows ≡ some r
    → row_of key (key r) rows ≡ some r
unfolding find row_of
row_of_found key p [] r u h = cc
row_of_found key p (x ∷ rows) r u h = elim (Bool-cases (p x)) [
  | inl e ↦
      let same : some x ≡ some r = rw e at h in
      let x≡r : x ≡ r = cc in rw (sym x≡r, eq_refl (key x)) refl
  | inr e ↦
      let later = row_of_found key p rows r u.1 (rw e at h) in
      elim (Bool-cases (key x == key r)) [
        | inl k ↦ absurd (
            let clash = u.0 in
            let same : row_of key (key x) rows ≡ row_of key (key r) rows =
              ap (λ i. row_of key i rows) ((eq_iff (key x) (key r)).0 k) in
            cc)
        | inr k ↦ rw k later
      ]
]
