-- ===== src/Protocol/Consents/Refines.antt =====
-- Histories of grants and revocations of consents, as histories of a map.
use labpics_id.Prelude.{
  if◌then◌else◌, is_null, Bool-cases, Option-cases, length, ℕ, ◌≤◌, String, ◌≡◌, refl, ap, ◌∙◌, inl,
  inr, Bool, true, false, not, ◌&&◌, ◌||◌, Option, none, some, List, [], ◌∷◌, arith, ◌==◌, eq_iff,
}
use labpics_id.Sql.{select, insert, find}
use labpics_id.Sql.Keyed.{row_of, row_of-insert}
use labpics_id.Sql.Lone.{select-none, select-some}
use labpics_id.Domain.Protocol.{ProtocolConsentRecord}
use labpics_id.Protocol.Rows.{ConsentRow}
use labpics_id.Protocol.Consents.{
  consent_id, granted_row, in_force, get_consent, revoke_consent, upsert_consent,
}
use labpics_id.Protocol.Consents.Active.{
  View, with_consent, granted, revoked-row_of, insert_after_revoke, inserted-get,
  revoke_consent-Revokes,
}
use labpics_id.Protocol.Consents.History.{
  ConsentCall, upserts, revokes, run_consents, AtMostOne, run_consents-AtMostOne,
}

-- The consents as a map from subjects and clients, and the ids that are in use.
pub record Grants : Type 0 where
  pub view : View
  pub used : String → Bool

-- What a call makes of the map. A grant that fails in its caller's transaction leaves no consent
-- there, until that transaction is undone.
unfoldable pub grant_call : ConsentCall → Grants → Grants
grant_call (upserts in_tx exists id s c scopes now) g =
    if exists && not (g.used id)
    then record {
      view = with_consent s c (some (granted s c scopes now)) g.view;
      used = λ i. i == id || g.used i;
    }
    else if in_tx
    then record { view = with_consent s c none g.view; used = g.used }
    else g
grant_call (revokes s c now) g = record { view = with_consent s c none g.view; used = g.used }

unfoldable pub run_grants : List ConsentCall → Grants → Grants
run_grants [] g = g
run_grants (call ∷ calls) g = run_grants calls (grant_call call g)

-- The table holds the map.
pub record Holds (rows : List ConsentRow) (g : Grants) : Type 0 where
  pub same_view : (s c : String) → get_consent s c rows ≡ g.view s c
  pub same_used : (id : String) → is_null (row_of consent_id id rows) ≡ not (g.used id)

with_consent-same :
    (s c : String) (value : Option ProtocolConsentRecord) (f g : View)
    → ((a b : String) → f a b ≡ g a b)
    → (s' c' : String) → with_consent s c value f s' c' ≡ with_consent s c value g s' c'
with_consent-same s c value f g h s' c' = rw (h s' c') refl

revoked-Holds :
    (s c : String) (now : ℕ) (rows : List ConsentRow) (g : Grants)
    → Holds rows g
    → Holds
        (revoke_consent s c now rows)
        (record { view = with_consent s c none g.view; used = g.used })
revoked-Holds s c now rows g h = record {
  same_view = λ s' c'.
      revoke_consent-Revokes s c now rows s' c'
      ∙ with_consent-same s c none (λ a b. get_consent a b rows) g.view h.same_view s' c';
  same_used = λ id. revoked-row_of s c now rows id ∙ h.same_used id;
}

inserted-used :
    (row : ConsentRow) (rows : List ConsentRow) (i : String) (used : Bool)
    → is_null (row_of consent_id row.id rows) ≡ true
    → is_null (row_of consent_id i rows) ≡ not used
    → is_null (row_of consent_id i (insert row rows)) ≡ not (i == row.id || used)
inserted-used row rows i used free h =
    let none_yet : row_of consent_id row.id rows ≡ none = ground (arith, free) in
    rw (row_of-insert consent_id i row rows none_yet)
      (grind (arith, h, eq_iff i row.id, eq_iff row.id i))

inserted-Holds :
    (id s c : String) (scopes : List String) (now : ℕ) (rows : List ConsentRow) (g : Grants)
    → is_null (row_of consent_id id rows) ≡ true
    → Holds rows g
    → Holds (insert (granted_row id s c scopes now) (revoke_consent s c now rows)) (record {
      view = with_consent s c (some (granted s c scopes now)) g.view;
      used = λ i. i == id || g.used i;
    })
inserted-Holds id s c scopes now rows g free h = record {
  same_view = λ s' c'.
      inserted-get id s c scopes now rows s' c'
      ∙ with_consent-same s c (some (granted s c scopes now)) (λ a b. get_consent a b rows) g.view
          h.same_view s' c';
  same_used = λ i.
      inserted-used (granted_row id s c scopes now) (revoke_consent s c now rows) i (g.used i)
        (revoked-row_of s c now rows id ∙ free) (revoked-row_of s c now rows i ∙ h.same_used i);
}

call-Holds :
    (in_tx exists : Bool) (id s c : String) (scopes : List String) (now : ℕ)
    (rows : List ConsentRow) (g : Grants)
    → Holds rows g
    → Holds
        (upsert_consent in_tx exists id s c scopes now rows).1
        (grant_call (upserts in_tx exists id s c scopes now) g)
unfolding upsert_consent grant_call
call-Holds true true id s c scopes now rows g h = elim (Bool-cases (g.used id)) [
  | inl u ↦
      let taken : is_null (row_of consent_id id rows) ≡ false = h.same_used id ∙ ap not u in
      rw (insert_after_revoke true id s c scopes now rows, taken, u)
        (revoked-Holds s c now rows g h)
  | inr u ↦
      let free : is_null (row_of consent_id id rows) ≡ true = h.same_used id ∙ ap not u in
      rw (insert_after_revoke true id s c scopes now rows, free, u)
        (inserted-Holds id s c scopes now rows g free h)
]
call-Holds true false id s c scopes now rows g h = elim (Bool-cases (g.used id)) [
  | inl u ↦
      let taken : is_null (row_of consent_id id rows) ≡ false = h.same_used id ∙ ap not u in
      rw (insert_after_revoke false id s c scopes now rows, taken) (revoked-Holds s c now rows g h)
  | inr u ↦
      let free : is_null (row_of consent_id id rows) ≡ true = h.same_used id ∙ ap not u in
      rw (insert_after_revoke false id s c scopes now rows, free) (revoked-Holds s c now rows g h)
]
call-Holds false true id s c scopes now rows g h = elim (Bool-cases (g.used id)) [
  | inl u ↦
      let taken : is_null (row_of consent_id id rows) ≡ false = h.same_used id ∙ ap not u in
      rw (insert_after_revoke true id s c scopes now rows, taken, u) (h)
  | inr u ↦
      let free : is_null (row_of consent_id id rows) ≡ true = h.same_used id ∙ ap not u in
      rw (insert_after_revoke true id s c scopes now rows, free, u)
        (inserted-Holds id s c scopes now rows g free h)
]
call-Holds false false id s c scopes now rows g h = elim (Bool-cases (g.used id)) [
  | inl u ↦
      let taken : is_null (row_of consent_id id rows) ≡ false = h.same_used id ∙ ap not u in
      rw (insert_after_revoke false id s c scopes now rows, taken) (h)
  | inr u ↦
      let free : is_null (row_of consent_id id rows) ≡ true = h.same_used id ∙ ap not u in
      rw (insert_after_revoke false id s c scopes now rows, free) (h)
]

run-Holds :
    (calls : List ConsentCall) (rows : List ConsentRow) (g : Grants)
    → Holds rows g
    → Holds (run_consents calls rows) (run_grants calls g)
unfolding run_consents run_grants grant_call
run-Holds [] rows g h = h
run-Holds (upserts in_tx exists id s c scopes now ∷ calls) rows g h =
    run-Holds calls _ _ (call-Holds in_tx exists id s c scopes now rows g h)
run-Holds (revokes s c now ∷ calls) rows g h = run-Holds calls _ _ (revoked-Holds s c now rows g h)

-- The rows in force of a subject and client are as many as the consents that getConsent answers.
counted :
    (s c : String) (rows : List ConsentRow)
    → length (select (in_force s c) rows) ≤ 1
    → length (select (in_force s c) rows) ≡ (if is_null (get_consent s c rows) then 0 else 1)
unfolding get_consent
counted s c rows few = elim (Option-cases (find (in_force s c) rows)) [
  | inl e ↦ rw (select-none (in_force s c) rows e, e) refl
  | inr (r, e) ↦ rw e (omega (arith, few, select-some (in_force s c) r rows e))
]

-- Over any history of grants and revocations, whether they succeed or fail and whether a caller's
-- transaction holds them or not, the table is the map on which each call sets one entry: a grant
-- to the new consent, if its client is registered and its id is fresh, a revocation to none; a
-- grant that fails changes nothing, or leaves none if its caller's transaction holds it. There is
-- exactly one row in force where the map has a consent, and none elsewhere.
pub run_consents-Refines :
    (calls : List ConsentCall) (rows : List ConsentRow) (g : Grants)
    → AtMostOne rows
    → Holds rows g
    → Holds (run_consents calls rows) (run_grants calls g)
      × ((s c : String)
          → length (select (in_force s c) (run_consents calls rows))
            ≡ (if is_null ((run_grants calls g).view s c) then 0 else 1))
unfolding AtMostOne
run_consents-Refines calls rows g few h =
    let held = run-Holds calls rows g h in
    (
      held,
      λ s c.
          counted s c (run_consents calls rows) (run_consents-AtMostOne calls rows few s c)
          ∙ ap (λ o. if is_null o then 0 else 1) (held.same_view s c),
    )
