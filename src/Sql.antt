-- ===== src/Sql.antt =====
-- The SQL statements that packages/db/src/*.ts writes with drizzle, on a table as the list of its
-- rows. A column list under `RETURNING` or `SELECT` is left to the caller, who reads the row.
-- The list's order stands for the physical order of the rows, which SQL leaves open.
pub mod Keyed
pub mod Rows
pub mod Held
pub mod Lone
use labpics_id.Prelude.{
  ◌≡◌, refl, Bool, true, false, Option, none, some, List, [], ◌∷◌, ◌++◌, map, String, ◌==◌,
  if◌then◌else◌,
}

module _ {ℓ} {R : Type ℓ} where
  -- SELECT … WHERE p
  unfoldable pub select : (R → Bool) → List R → List R
  select p [] = []
  select p (r ∷ rs) = let rest = select p rs in if p r then r ∷ rest else rest

  -- UPDATE … SET f WHERE p
  unfoldable pub update : (R → Bool) → (R → R) → List R → List R
  update p f [] = []
  update p f (r ∷ rs) = (if p r then f r else r) ∷ update p f rs

  -- What RETURNING gives back of that UPDATE: the new rows.
  unfoldable pub returning : (R → Bool) → (R → R) → List R → List R
  unfolding select
  returning p f rs = map f (select p rs)

  -- DELETE … WHERE p; RETURNING gives back `select p`.
  unfoldable pub delete : (R → Bool) → List R → List R
  delete p [] = []
  delete p (r ∷ rs) = let rest = delete p rs in if p r then rest else r ∷ rest

  -- INSERT of one row
  unfoldable pub insert : R → List R → List R
  insert r rs = rs ++ r ∷ []

  -- SELECT … WHERE p LIMIT 1
  unfoldable pub find : (R → Bool) → List R → Option R
  find p [] = none
  find p (r ∷ rs) = if p r then some r else find p rs
