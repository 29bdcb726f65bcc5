-- ===== src/Protocol/Artifacts/Cleanup.antt =====
-- The loop of cleanupExpiredArtifacts ends, and deletes what one DELETE without a limit would.
use labpics_id.Prelude.{
  ltb, Bool-cases, length, ℕ, zero, suc, ◌+◌, ◌-◌, ◌≤◌, ◌<◌, ◌≡◌, refl, ap, ◌∙◌, inl, inr, Bool,
  true, false, some, List, [], ◌∷◌, arith,
}
use labpics_id.Sql.{select, delete}
use labpics_id.Protocol.Rows.{ArtifactRow}
use labpics_id.Protocol.Artifacts.{
  disposable, delete_some, at_most, cleanup_loop, batch_size, cleanup_expired_artifacts,
}

module _ {R : Type 0} (p : R → Bool) where
  -- A batch deletes a part of what one DELETE would.
  delete-delete_some : (n : ℕ) (rows : List R) → delete p (delete_some n p rows) ≡ delete p rows
  unfolding delete delete_some
  delete-delete_some zero rows = refl
  delete-delete_some (suc n) [] = refl
  delete-delete_some (suc n) (r ∷ rows) =
      ground (arith, delete-delete_some n rows, delete-delete_some (suc n) rows)

  length-select-delete_some :
      (n : ℕ) (rows : List R)
      → length (select p (delete_some n p rows)) ≡ length (select p rows) - n
  unfolding select delete_some
  length-select-delete_some zero rows = omega arith
  length-select-delete_some (suc n) [] = omega arith
  length-select-delete_some (suc n) (r ∷ rows) =
      ground (arith, length-select-delete_some n rows, length-select-delete_some (suc n) rows)

  -- A batch that its limit does not cut off deletes everything.
  delete_some_enough :
      (n : ℕ) (rows : List R) → length (select p rows) ≤ n → delete_some n p rows ≡ delete p rows
  unfolding select delete delete_some
  delete_some_enough zero [] h = refl
  delete_some_enough zero (r ∷ rows) h = ground (arith, delete_some_enough zero rows)
  delete_some_enough (suc n) [] h = refl
  delete_some_enough (suc n) (r ∷ rows) h =
      ground (arith, delete_some_enough n rows, delete_some_enough (suc n) rows)

  length-select-le : (rows : List R) → length (select p rows) ≤ length rows
  unfolding select
  length-select-le [] = omega arith
  length-select-le (r ∷ rows) = ground (arith, length-select-le rows)

  last_batch :
      (limit : ℕ) (rows : List R)
      → ltb (at_most limit (length (select p rows))) limit ≡ true
      → (at_most limit (length (select p rows)) ≡ length (select p rows))
        × (delete_some limit p rows ≡ delete p rows)
  last_batch limit rows h =
      let below : length (select p rows) ≤ limit = ground arith in
      (ground arith, delete_some_enough limit rows below)

  full_batch :
      (limit : ℕ) (rows : List R)
      → ltb (at_most limit (length (select p rows))) limit ≡ false
      → (at_most limit (length (select p rows)) ≡ limit) × (limit ≤ length (select p rows))
  full_batch limit rows h = ground arith

  -- Every batch but the last is full, so that the fuel of one more than the rows is enough.
  pub cleanup_loop_lem :
      (limit fuel total : ℕ) (rows : List R)
      → 1 ≤ limit
      → length (select p rows) < fuel
      → cleanup_loop limit p fuel total rows ≡ some (total + length (select p rows), delete p rows)
  unfolding cleanup_loop
  cleanup_loop_lem limit zero total rows pos h = absurd (omega arith)
  cleanup_loop_lem limit (suc fuel) total rows pos h =
      elim (Bool-cases (ltb (at_most limit (length (select p rows))) limit)) [
        | inl e ↦ let (count, rest) = last_batch limit rows e in rw (e, count, rest) refl
        | inr e ↦
            let (count, more) = full_batch limit rows e in
            let left = length-select-delete_some limit rows in
            rw (e, count)
              (cleanup_loop_lem limit fuel (total + limit) (delete_some limit p rows) pos
                  (omega (arith, left))
                ∙ rw (left, delete-delete_some limit rows)
                    (ap (λ n. some (n, delete p rows)) (omega arith)))
      ]

-- cleanupExpiredArtifacts ends: with fuel for one round more than there are rows it answers the
-- number of the expired and of the long consumed artifacts, and these are gone, as if one DELETE
-- without a limit had removed them; no other artifact is touched.
pub cleanup_expired_artifacts-Ends :
    (fuel now : ℕ) (rows : List ArtifactRow)
    → length rows < fuel
    → cleanup_expired_artifacts fuel now rows
      ≡ some (length (select (disposable now) rows), delete (disposable now) rows)
unfolding cleanup_expired_artifacts
cleanup_expired_artifacts-Ends fuel now rows h =
    cleanup_loop_lem (disposable now) batch_size fuel 0 rows (omega arith)
      (omega (arith, length-select-le (disposable now) rows))
    ∙ ap (λ n. some (n, delete (disposable now) rows)) (omega arith)
