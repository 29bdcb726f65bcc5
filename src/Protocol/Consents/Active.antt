-- ===== src/Protocol/Consents/Active.antt =====
-- Consents in force: for each subject and client there is at most one, the one last granted.
use labpics_id.Prelude.{
  true, ◌∙◌, eq_refl, ap, false, Bool, ℕ, ◌≡◌, refl, ◌&&◌, Option, none, some, List, String, ◌==◌,
  eq_iff, arith, is_null, if◌then◌else◌, Bool-cases, inl, inr,
}
use labpics_id.Sql.{insert, find}
use labpics_id.Sql.Keyed.{row_of, row_of-update}
use labpics_id.Sql.Lone.{find-update-none, find-update_other}
use labpics_id.Domain.Protocol.{ProtocolConsentRecord}
use labpics_id.Protocol.Rows.{ConsentRow}
use labpics_id.Protocol.Consents.{
  consent_record, insert_consent, granted_row, revoke_and_insert, upsert_consent, get_consent,
  consent_id, in_force, revoke_consent,
}
use labpics_id.Sql.Rows.{find-insert}
use labpics_id.Domain.Result.{unique_violation, unavailable, thrown, Result, ok}

-- Consents as a map from subjects and clients.
abbrev pub View : Type 0
View = String → String → Option ProtocolConsentRecord

-- The map with another value at one subject and client.
abbrev pub with_consent : String → String → Option ProtocolConsentRecord → View → View
with_consent s c value view subject_id client_id =
    if s == subject_id && c == client_id then value else view subject_id client_id

revoked-find :
    (s c : String) (now : ℕ) (rows : List ConsentRow) (s' c' : String)
    → find (in_force s' c') (revoke_consent s c now rows)
      ≡ (if s == s' && c == c' then none else find (in_force s' c') rows)
unfolding revoke_consent in_force
revoked-find s c now rows s' c' = elim (Bool-cases (s == s' && c == c')) [
  | inl e ↦ rw e (
      find-update-none _ _ _ rows (λ r h. ground arith)
        λ r h. grind (arith, eq_iff s s', eq_iff c c'))
  | inr e ↦ rw e (
      find-update_other _ _ _ rows
        λ r h. grind (arith, eq_iff r.subject_id s, eq_iff r.client_id c))
]

pub revoked-row_of :
    (s c : String) (now : ℕ) (rows : List ConsentRow) (id : String)
    → is_null (row_of consent_id id (revoke_consent s c now rows))
      ≡ is_null (row_of consent_id id rows)
unfolding revoke_consent
revoked-row_of s c now rows id = ground (
  arith,
  row_of-update consent_id (in_force s c) (λ r. record r { revoked_at = some now }) (λ r. refl) id
      rows,
)

-- Nothing in force is left in the way of the new row.
pub insert_after_revoke :
    (exists : Bool) (id s c : String) (scopes : List String) (now : ℕ) (rows : List ConsentRow)
    → revoke_and_insert exists id s c scopes now rows ≡ (
        if is_null (row_of consent_id id rows)
        then if exists
          then (ok tt, insert (granted_row id s c scopes now) (revoke_consent s c now rows))
          else (thrown unavailable, revoke_consent s c now rows)
        else (thrown unique_violation, revoke_consent s c now rows))
unfolding revoke_and_insert insert_consent
insert_after_revoke exists id s c scopes now rows =
    rw (revoked-row_of s c now rows id, revoked-find s c now rows s c, eq_refl s, eq_refl c)
      (ground arith)

abbrev pub granted : String → String → List String → ℕ → ProtocolConsentRecord
granted s c scopes now = record {
  subject_id = s;
  client_id = c;
  scopes = scopes;
  granted_at = now;
  revoked_at = none;
}

consent_record-granted :
    (id s c : String) (scopes : List String) (now : ℕ) (s' c' : String) (o : Option ConsentRow)
    → let row = granted_row id s c scopes now in
      consent_record (elim (if s == s' && c == c' then none else o) [
        | some x ↦ some x
        | none ↦ if in_force s' c' row then some row else none
      ])
      ≡ (if s == s' && c == c' then some (granted s c scopes now) else consent_record o)
unfolding in_force
consent_record-granted id s c scopes now s' c' none = ground arith
consent_record-granted id s c scopes now s' c' (some x) = ground arith

pub inserted-get :
    (id s c : String) (scopes : List String) (now : ℕ) (rows : List ConsentRow) (s' c' : String)
    → get_consent s' c' (insert (granted_row id s c scopes now) (revoke_consent s c now rows))
      ≡ with_consent s c (some (granted s c scopes now)) (λ a b. get_consent a b rows) s' c'
unfolding get_consent
inserted-get id s c scopes now rows s' c' =
    ap consent_record
      (find-insert (in_force s' c') (granted_row id s c scopes now) (revoke_consent s c now rows))
    ∙ rw (revoked-find s c now rows s' c')
        (consent_record-granted id s c scopes now s' c' (find (in_force s' c') rows))

abbrev answer_to : (exists free : Bool) → ProtocolConsentRecord → Result ProtocolConsentRecord
answer_to exists false r = thrown unique_violation
answer_to false true r = thrown unavailable
answer_to true true r = ok r

-- upsertConsent outside a transaction of the caller answers the new consent if its id is fresh and
-- the client is registered, and then getConsent answers it for that subject and client, and for
-- every other what it answered; the table is the one in which the consent in force is revoked and
-- the new row added. Else it throws, and the table is as it was.
pub upsert_consent-Grants :
    (exists : Bool) (id s c : String) (scopes : List String) (now : ℕ) (rows : List ConsentRow)
    → let free = is_null (row_of consent_id id rows) in
      let (answer, after) = upsert_consent false exists id s c scopes now rows in
      (answer ≡ answer_to exists free (granted s c scopes now))
      × (after ≡ (
          if exists && free
          then insert (granted_row id s c scopes now) (revoke_consent s c now rows)
          else rows))
      × ((s' c' : String)
          → get_consent s' c' after ≡ (
              if exists && free
              then with_consent s c
                  (some (granted s c scopes now))
                  (λ a b. get_consent a b rows)
                  s'
                  c'
              else get_consent s' c' rows))
unfolding upsert_consent
upsert_consent-Grants true id s c scopes now rows =
    elim (Bool-cases (is_null (row_of consent_id id rows))) [
      | inl e ↦
          rw (insert_after_revoke true id s c scopes now rows, e)
            (refl, refl, inserted-get id s c scopes now rows)
      | inr e ↦ rw (insert_after_revoke true id s c scopes now rows, e) (refl, refl, λ s' c'. refl)
    ]
upsert_consent-Grants false id s c scopes now rows =
    elim (Bool-cases (is_null (row_of consent_id id rows))) [
      | inl e ↦ rw (insert_after_revoke false id s c scopes now rows, e) (refl, refl, λ s' c'. refl)
      | inr e ↦ rw (insert_after_revoke false id s c scopes now rows, e) (refl, refl, λ s' c'. refl)
    ]

-- revokeConsent leaves no consent of its subject and client, and every other one as it was.
pub revoke_consent-Revokes :
    (s c : String) (now : ℕ) (rows : List ConsentRow) (s' c' : String)
    → get_consent s' c' (revoke_consent s c now rows)
      ≡ with_consent s c none (λ a b. get_consent a b rows) s' c'
unfolding get_consent
revoke_consent-Revokes s c now rows s' c' = rw (revoked-find s c now rows s' c') (ground arith)
