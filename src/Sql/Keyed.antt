-- ===== src/Sql/Keyed.antt =====
-- A table with a unique text key, read as a finite map from keys to rows.
use mathlib.Core.Path.{sym, ◌∙◌}
use labpics_id.Prelude.{
  first, map, ◌≡◌, refl, Bool, true, Option, none, some, List, [], ◌∷◌, String, ◌==◌, eq_iff, arith,
  if◌then◌else◌, Bool-cases, inl, inr,
}
use labpics_id.Sql.Rows.{first-select}
use labpics_id.Sql.{select, update, delete, insert, find, returning}

-- A row that passes the test, else nothing.
abbrev pub keep {ℓ} : {R : Type ℓ} → (R → Bool) → Option R → Option R
keep p none = none
keep p (some r) = if p r then some r else none

-- A row that fails the test, else nothing.
abbrev pub drop {ℓ} : {R : Type ℓ} → (R → Bool) → Option R → Option R
drop p none = none
drop p (some r) = if p r then none else some r

-- A row that passes the test, changed, else nothing: what RETURNING gives back.
abbrev pub hit {ℓ} : {R : Type ℓ} → (R → Bool) → (R → R) → Option R → Option R
hit p f none = none
hit p f (some r) = if p r then some (f r) else none

-- A row, changed if it passes the test.
abbrev pub change {ℓ} : {R : Type ℓ} → (R → Bool) → (R → R) → Option R → Option R
change p f none = none
change p f (some r) = some (if p r then f r else r)

module _ {ℓ} {R : Type ℓ} (key : R → String) where
  unfoldable pub row_of : String → List R → Option R
  unfolding find
  row_of k rows = find (λ r. key r == k) rows

  -- The key is unique, as the table's unique index has it.
  abbrev pub IsUnique : List R → Type ℓ
  IsUnique [] = Unit
  IsUnique (r ∷ rs) = (row_of (key r) rs ≡ none) × IsUnique rs

  pub row_of-key : (k : String) (rs : List R) (r : R) → row_of k rs ≡ some r → key r ≡ k
  unfolding row_of
  row_of-key k [] r h = ground arith
  row_of-key k (x ∷ rs) r h = elim (Bool-cases (key x == k)) [
    | inl e ↦ ground (arith, eq_iff (key x) k)
    | inr e ↦ row_of-key k rs r (rw e at h)
  ]

  pub row_of-insert :
      (k : String) (r : R) (rs : List R)
      → row_of (key r) rs ≡ none
      → row_of k (insert r rs) ≡ (if key r == k then some r else row_of k rs)
  unfolding row_of insert
  row_of-insert k r [] h = refl
  row_of-insert k r (x ∷ rs) h =
      ground
        (arith, row_of-insert k r rs, eq_iff (key x) k, eq_iff (key r) k, eq_iff (key x) (key r))

  module _ (p : R → Bool) (f : R → R) (keeps : (r : R) → key (f r) ≡ key r) where
    pub row_of-update :
        (k : String) (rs : List R) → row_of k (update p f rs) ≡ change p f (row_of k rs)
    unfolding row_of update
    row_of-update k [] = refl
    row_of-update k (x ∷ rs) =
        ground (arith, row_of-update k rs, keeps x, eq_iff (key x) k, eq_iff (key (f x)) k)

    pub update-IsUnique : (rs : List R) → IsUnique rs → IsUnique (update p f rs)
    unfolding update
    update-IsUnique [] h = tt
    update-IsUnique (x ∷ rs) h =
        (ground (arith, row_of-update (key x) rs, keeps x, h.0), update-IsUnique rs h.1)

  pub insert-IsUnique :
      (r : R) (rs : List R) → row_of (key r) rs ≡ none → IsUnique rs → IsUnique (insert r rs)
  unfolding insert row_of
  insert-IsUnique r [] h u = (refl, tt)
  insert-IsUnique r (x ∷ rs) h u = (
    ground
        (arith, row_of-insert (key x) r rs, u.0, h, eq_iff (key r) (key x), eq_iff (key x) (key r)),
    insert-IsUnique r rs (ground arith) u.1,
  )

  module _ (p : R → Bool) where
    row_of-delete-none :
        (k : String) (rs : List R) → row_of k rs ≡ none → row_of k (delete p rs) ≡ none
    unfolding row_of delete
    row_of-delete-none k [] h = refl
    row_of-delete-none k (x ∷ rs) h = ground (arith, row_of-delete-none k rs)

    pub delete-IsUnique : (rs : List R) → IsUnique rs → IsUnique (delete p rs)
    unfolding delete
    delete-IsUnique [] u = tt
    delete-IsUnique (x ∷ rs) u = elim (Bool-cases (p x)) [
      | inl e ↦ rw e (delete-IsUnique rs u.1)
      | inr e ↦ rw e (row_of-delete-none (key x) rs u.0, delete-IsUnique rs u.1)
    ]

    pub row_of-delete :
        (k : String) (rs : List R) → IsUnique rs → row_of k (delete p rs) ≡ drop p (row_of k rs)
    unfolding row_of delete
    row_of-delete k [] u = refl
    row_of-delete k (x ∷ rs) u =
        ground (arith, row_of-delete k rs u.1, row_of-delete-none k rs, u.0, eq_iff (key x) k)

    -- Where a test fixes the key, at most one row passes it: the row of that key.
    find_none :
        (k : String) (rs : List R)
        → ((r : R) → p r ≡ true → key r ≡ k)
        → row_of k rs ≡ none
        → select p rs ≡ []
    unfolding row_of select
    find_none k [] at_key h = refl
    find_none k (x ∷ rs) at_key h =
        ground (arith, find_none k rs at_key, at_key x, eq_iff (key x) k)

    pub select-keyed :
        (k : String) (rs : List R)
        → IsUnique rs
        → ((r : R) → p r ≡ true → key r ≡ k)
        → select p rs ≡ (elim (keep p (row_of k rs)) [ none ↦ [] | some r ↦ r ∷ [] ])
    unfolding row_of select
    select-keyed k [] u at_key = refl
    select-keyed k (x ∷ rs) u at_key = ground (
      arith,
      select-keyed k rs u.1 at_key,
      find_none k rs at_key,
      u.0,
      at_key x,
      eq_iff (key x) k,
    )

    pub find-keyed :
        (k : String) (rs : List R)
        → IsUnique rs
        → ((r : R) → p r ≡ true → key r ≡ k)
        → find p rs ≡ keep p (row_of k rs)
    find-keyed k rs u at_key =
        let picked = select-keyed k rs u at_key in
        sym (first-select p rs) ∙ go (row_of k rs) (select p rs) picked
      where
        go :
            (o : Option R) (found : List R)
            → found ≡ (elim (keep p o) [ none ↦ [] | some r ↦ r ∷ [] ])
            → first found ≡ keep p o
        go none found e = rw e
        go (some r) found e = rw e (ground arith)

    pub returning-keyed :
        (f : R → R) (k : String) (rs : List R)
        → IsUnique rs
        → ((r : R) → p r ≡ true → key r ≡ k)
        → first (returning p f rs) ≡ hit p f (row_of k rs)
    unfolding returning
    returning-keyed f k rs u at_key = go (row_of k rs) (select p rs) (select-keyed k rs u at_key)
      where
        go :
            (o : Option R) (found : List R)
            → found ≡ (elim (keep p o) [ none ↦ [] | some r ↦ r ∷ [] ])
            → first (map f found) ≡ hit p f o
        go none found e = rw e
        go (some r) found e = rw e (ground arith)
