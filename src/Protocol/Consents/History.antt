-- ===== src/Protocol/Consents/History.antt =====
-- Histories of grants and revocations of consents.
use labpics_id.Prelude.{
  if◌then◌else◌, is_null, Bool-cases, Option-cases, length, ℕ, ◌≤◌, String, ◌≡◌, ap, inl, inr, Bool,
  true, false, none, some, List, [], ◌∷◌, arith, eq_iff,
}
use labpics_id.Sql.{select, insert, find}
use labpics_id.Sql.Lone.{
  length-select-update, select-none, length-select-insert, length-select-insert_miss,
}
use labpics_id.Domain.Result.{Result, unavailable, ok, thrown}
use labpics_id.Protocol.Rows.{ConsentRow}
use labpics_id.Protocol.Consents.{
  granted_row, consent_id, in_force, revoke_consent, insert_consent, revoke_and_insert, atomically,
  upsert_consent,
}
use labpics_id.Sql.Keyed.{row_of}

-- A call of upsertConsent, in a transaction of its caller or not, or of revokeConsent.
pub data ConsentCall : Type 0 where
  upserts : (in_tx exists : Bool) (id subject_id client_id : String) → List String → ℕ → ConsentCall
  revokes : (subject_id client_id : String) → ℕ → ConsentCall

unfoldable pub run_consents : List ConsentCall → List ConsentRow → List ConsentRow
run_consents [] rows = rows
run_consents (upserts in_tx exists id s c scopes now ∷ calls) rows =
    run_consents calls (upsert_consent in_tx exists id s c scopes now rows).1
run_consents (revokes s c now ∷ calls) rows = run_consents calls (revoke_consent s c now rows)

unfoldable pub AtMostOne : List ConsentRow → Type 0
AtMostOne rows = (s c : String) → length (select (in_force s c) rows) ≤ 1

revoke_consent-AtMostOne :
    (s c : String) (now : ℕ) (rows : List ConsentRow)
    → AtMostOne rows
    → AtMostOne (revoke_consent s c now rows)
unfolding AtMostOne revoke_consent in_force
revoke_consent-AtMostOne s c now rows h s' c' =
    let less =
      length-select-update (in_force s c) (λ r. record r { revoked_at = some now }) (in_force s' c')
        rows (λ r p q. ground arith) in
    omega (arith, h s' c')

in_force-keys :
    (s c : String) (r : ConsentRow) → in_force s c r ≡ true → (r.subject_id ≡ s) × (r.client_id ≡ c)
unfolding in_force
in_force-keys s c r h = (grind (arith, eq_iff r.subject_id s), grind (arith, eq_iff r.client_id c))

insert-AtMostOne :
    (row : ConsentRow) (rows : List ConsentRow)
    → find (in_force row.subject_id row.client_id) rows ≡ none
    → AtMostOne rows
    → AtMostOne (insert row rows)
unfolding AtMostOne
insert-AtMostOne row rows free h s' c' = elim (Bool-cases (in_force s' c' row)) [
  | inl e ↦ omega (arith, length-select-insert (in_force s' c') row rows, none_yet e)
  | inr e ↦ omega (arith, length-select-insert_miss (in_force s' c') row rows e, h s' c')
]
  where
    none_yet : in_force s' c' row ≡ true → length (select (in_force s' c') rows) ≡ 0
    none_yet e =
        let (s≡s', c≡c') = in_force-keys s' c' row e in
        ap length (select-none (in_force s' c') rows (rw (← s≡s', ← c≡c') free))

insert_consent-AtMostOne :
    (exists : Bool) (row : ConsentRow) (rows : List ConsentRow)
    → AtMostOne rows
    → AtMostOne (insert_consent exists row rows).1
unfolding insert_consent
insert_consent-AtMostOne exists row rows h =
    elim (Bool-cases (is_null (row_of consent_id row.id rows))) [
      | inr e ↦ rw e h
      | inl e ↦ elim (Option-cases (find (in_force row.subject_id row.client_id) rows)) [
        | inl free ↦ rw (e, free) (registered exists free)
        | inr (r, taken) ↦ rw (e, taken) h
      ]
    ]
  where
    inserts : Bool → Result (Unit {0}) × List ConsentRow
    inserts ex = if ex then (ok tt, insert row rows) else (thrown unavailable, rows)

    registered :
        (ex : Bool)
        → find (in_force row.subject_id row.client_id) rows ≡ none
        → AtMostOne (inserts ex).1
    registered true free = insert-AtMostOne row rows free h
    registered false free = h

upsert_consent-AtMostOne :
    (in_tx exists : Bool) (id s c : String) (scopes : List String) (now : ℕ)
    (rows : List ConsentRow)
    → AtMostOne rows
    → AtMostOne (upsert_consent in_tx exists id s c scopes now rows).1
unfolding upsert_consent revoke_and_insert
upsert_consent-AtMostOne in_tx exists id s c scopes now rows h =
    go in_tx (insert_consent exists (granted_row id s c scopes now) (revoke_consent s c now rows)) (
      insert_consent-AtMostOne exists (granted_row id s c scopes now) (revoke_consent s c now rows)
        (revoke_consent-AtMostOne s c now rows h))
  where
    go :
        (in_tx : Bool) (work : Result (Unit {0}) × List ConsentRow)
        → AtMostOne work.1
        → AtMostOne (if in_tx then work else atomically rows work).1
    go true (r, after) k = k
    go false (ok a, after) k = k
    go false (thrown f, after) k = h

pub run_consents-AtMostOne :
    (calls : List ConsentCall) (rows : List ConsentRow)
    → AtMostOne rows
    → AtMostOne (run_consents calls rows)
unfolding run_consents
run_consents-AtMostOne [] rows h = h
run_consents-AtMostOne (upserts in_tx exists id s c scopes now ∷ calls) rows h =
    run_consents-AtMostOne calls _ (upsert_consent-AtMostOne in_tx exists id s c scopes now rows h)
run_consents-AtMostOne (revokes s c now ∷ calls) rows h =
    run_consents-AtMostOne calls _ (revoke_consent-AtMostOne s c now rows h)
