-- ===== src/Protocol/Consents/Tests.antt =====
-- Runs of the consent methods of packages/db/src/protocol-adapter.ts.
use labpics_id.Prelude.{
  is_null, if◌then◌else◌, some, String, length, ◌≡◌, refl, true, false, none, List, [], ◌∷◌, arith,
}
use labpics_id.Domain.Result.{ok}
use labpics_id.Protocol.Rows.{ConsentRow}
use labpics_id.Protocol.Consents.{
  in_force, get_consent, revoke_consent, insert_consent, granted_row, revoke_and_insert,
  upsert_consent,
}
use labpics_id.Protocol.Consents.Active.{
  with_consent, granted, upsert_consent-Grants, revoke_consent-Revokes,
}
use labpics_id.Protocol.Consents.Refines.{Grants, run_grants, Holds, run_consents-Refines}
use labpics_id.Protocol.Consents.History.{ConsentCall, run_consents, AtMostOne, upserts, revokes}
use labpics_id.Sql.{find, select, insert, update}
use labpics_id.Sql.Keyed.{row_of}

abbrev old_consent : ConsentRow
old_consent = granted_row "c1" "anna" "shop" ("openid" ∷ []) 100

abbrev other_consent : ConsentRow
other_consent = granted_row "c2" "anna" "bank" ("openid" ∷ []) 150

abbrev consents : List ConsentRow
consents = old_consent ∷ other_consent ∷ []

upsert_consent-Grants_example :
    let (answer, after) =
      upsert_consent false true "c3" "anna" "shop" ("openid" ∷ "email" ∷ []) 200 consents in
    let new = granted "anna" "shop" ("openid" ∷ "email" ∷ []) 200 in
    (answer ≡ ok new)
    × (after
        ≡ insert
            (granted_row "c3" "anna" "shop" ("openid" ∷ "email" ∷ []) 200)
            (revoke_consent "anna" "shop" 200 consents))
    × ((s c : String)
        → get_consent s c after
          ≡ with_consent "anna" "shop" (some new) (λ a b. get_consent a b consents) s c)
unfolding row_of
upsert_consent-Grants_example =
    upsert_consent-Grants true "c3" "anna" "shop" ("openid" ∷ "email" ∷ []) 200 consents

revoke_consent-Revokes_example :
    get_consent "anna" "shop" (revoke_consent "anna" "shop" 300 consents) ≡ none
revoke_consent-Revokes_example = revoke_consent-Revokes "anna" "shop" 300 consents "anna" "shop"

abbrev calls : List ConsentCall
calls =
    upserts false true "c3" "anna" "shop" [] 200
    ∷ upserts true true "c3" "anna" "shop" [] 300
    ∷ revokes "anna" "bank" 400
    ∷ []

abbrev no_grants : Grants
no_grants = record { view = λ s c. none; used = λ id. false }

run_consents-Refines_example :
    Holds (run_consents calls []) (run_grants calls no_grants)
    × ((s c : String)
        → length (select (in_force s c) (run_consents calls []))
          ≡ (if is_null ((run_grants calls no_grants).view s c) then 0 else 1))
unfolding AtMostOne select row_of get_consent find
run_consents-Refines_example =
    run_consents-Refines calls [] no_grants (λ s c. omega arith)
      (record { same_view = λ s c. refl; same_used = λ id. refl })

-- The second grant takes an id that is in use and throws; in its caller's transaction the consent
-- that it revoked stays revoked until that transaction is undone.
run_consents_test : length (run_consents calls consents) ≡ 3
unfolding run_consents upsert_consent revoke_and_insert insert_consent revoke_consent in_force
    update row_of insert
run_consents_test = refl
