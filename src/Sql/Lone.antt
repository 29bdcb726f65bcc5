-- ===== src/Sql/Lone.antt =====
-- What a query finds after an UPDATE that settles it, and tests that at most one row passes, as a
-- unique index has it.
use labpics_id.Prelude.{
  ap, ◌++◌, All, inr, inl, Bool-cases, some, ◌≡◌, refl, suc, ◌≤◌, Bool, true, false, none, List, [],
  ◌∷◌, arith, length,
}
use labpics_id.Sql.{select, update, delete, insert, find}

module _ {ℓ} {R : Type ℓ} (p : R → Bool) (f : R → R) where
  -- The UPDATE makes every row fail the test.
  pub find-update-none :
      (q : R → Bool) (rs : List R)
      → ((r : R) → p r ≡ true → q (f r) ≡ false)
      → ((r : R) → p r ≡ false → q r ≡ false)
      → find q (update p f rs) ≡ none
  unfolding find update
  find-update-none q [] hit miss = refl
  find-update-none q (x ∷ rs) hit miss =
      ground (arith, find-update-none q rs hit miss, hit x, miss x)

  -- The UPDATE hits no row that passes the test before or after it.
  pub find-update_other :
      (q : R → Bool) (rs : List R)
      → ((r : R) → p r ≡ true → (q r ≡ false) × (q (f r) ≡ false))
      → find q (update p f rs) ≡ find q rs
  unfolding find update
  find-update_other q [] other = refl
  find-update_other q (x ∷ rs) other = ground (arith, find-update_other q rs other, other x)

  -- An UPDATE that makes no row pass the test adds none.
  pub length-select-update :
      (q : R → Bool) (rs : List R)
      → ((r : R) → p r ≡ true → q (f r) ≡ true → q r ≡ true)
      → length (select q (update p f rs)) ≤ length (select q rs)
  unfolding select update
  length-select-update q [] back = omega arith
  length-select-update q (x ∷ rs) back = ground (arith, length-select-update q rs back, back x)

module _ {ℓ} {R : Type ℓ} (q : R → Bool) where
  pub select-none : (rs : List R) → find q rs ≡ none → select q rs ≡ []
  unfolding find select
  select-none [] h = refl
  select-none (x ∷ rs) h = ground (arith, select-none rs)

  pub select-some : (r : R) (rs : List R) → find q rs ≡ some r → 1 ≤ length (select q rs)
  unfolding find select
  select-some r [] h = absurd (cc)
  select-some r (x ∷ rs) h = elim (Bool-cases (q x)) [
    | inl e ↦ rw e (omega arith)
    | inr e ↦ rw e (select-some r rs (rw e at h))
  ]

  pub length-select-insert :
      (r : R) (rs : List R) → length (select q (insert r rs)) ≤ suc (length (select q rs))
  unfolding select insert
  length-select-insert r [] = ground arith
  length-select-insert r (x ∷ rs) = ground (arith, length-select-insert r rs)

  pub length-select-insert_miss :
      (r : R) (rs : List R) → q r ≡ false → length (select q (insert r rs)) ≡ length (select q rs)
  unfolding select insert
  length-select-insert_miss r [] h = ground arith
  length-select-insert_miss r (x ∷ rs) h = ground (arith, length-select-insert_miss r rs h)

  pub length-select-delete :
      (p : R → Bool) (rs : List R) → length (select q (delete p rs)) ≤ length (select q rs)
  unfolding select delete
  length-select-delete p [] = omega arith
  length-select-delete p (x ∷ rs) = ground (arith, length-select-delete p rs)

module _ {ℓ} {R : Type ℓ} (p : R → Bool) where
  update-miss :
      (f : R → R) (rs : List R)
      → length (select p rs) ≡ 0
      → (update p f rs ≡ rs) × All (λ r. p r ≡ false) rs
  unfolding select update
  update-miss f [] h = (refl, tt)
  update-miss f (x ∷ rs) h = elim (Bool-cases (p x)) [
    | inl e ↦ absurd (let h' = rw e at h in omega arith)
    | inr e ↦
        let (same, misses) = update-miss f rs (rw e at h) in
        (rw e (ap (λ t. x ∷ t) same), (e, misses))
  ]

  -- Where exactly one row passes the test, the UPDATE changes that row and no other.
  pub record Single (f : R → R) (rs : List R) : Type ℓ where
    pub before : List R
    pub row : R
    pub after : List R
    pub is_table : rs ≡ before ++ row ∷ after
    pub passes : p row ≡ true
    pub alone : All (λ r. p r ≡ false) (before ++ after)
    pub updated : update p f rs ≡ before ++ f row ∷ after

  pub select-Single : (f : R → R) (rs : List R) → length (select p rs) ≡ 1 → Single f rs
  unfolding select update
  select-Single f [] h = absurd (omega arith)
  select-Single f (x ∷ rs) h = elim (Bool-cases (p x)) [
    | inl e ↦
        let h' = rw e at h in
        let (same, misses) = update-miss f rs (omega arith) in
        record {
          before = [];
          row = x;
          after = rs;
          is_table = refl;
          passes = e;
          alone = misses;
          updated = rw e (ap (λ t. f x ∷ t) same);
        }
    | inr e ↦
        let rest = select-Single f rs (rw e at h) in
        record {
          before = x ∷ rest.before;
          row = rest.row;
          after = rest.after;
          is_table = ap (λ t. x ∷ t) rest.is_table;
          passes = rest.passes;
          alone = (e, rest.alone);
          updated = rw e (ap (λ t. x ∷ t) rest.updated);
        }
  ]
