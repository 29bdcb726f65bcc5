-- ===== src/Access/Tests.antt =====
-- A product access that is granted until 500 and revoked at 300.
use labpics_id.Prelude.{◌≡◌, ◌≢◌, ◌↔◌, ◌<◌, refl, true, false, none, some, [], ◌∷◌}
use labpics_id.Domain.Result.{ok, thrown, already_revoked}
use labpics_id.Access.{
  ProductAccessState, GrantProductAccessInput, organization, grant, revoke, is_active,
}
use labpics_id.Access.Lifecycle.{revoke_all, grant-is_active, revoke_final}

abbrev input : GrantProductAccessInput
input = record {
  id = "a1";
  subject_id = "o1";
  subject_type = organization;
  resource = "maps";
  scope = "read";
  granted_at = 100;
  granted_by = "admin";
  expires_at = some 500;
}

abbrev new : ProductAccessState
new = record {
  id = "a1";
  subject_id = "o1";
  subject_type = organization;
  resource = "maps";
  scope = "read";
  granted_at = 100;
  granted_by = "admin";
  expires_at = some 500;
  revoked_at = none;
  granted = true;
}

abbrev ended : ProductAccessState
ended = record new { granted = false; revoked_at = some 300 }

granted_new : grant input ≡ ok new
unfolding grant
granted_new = refl

grant-is_active_example :
    (input.resource ≢ "")
    × (input.scope ≢ "")
    × (100 < 500)
    × ((is_active 400 new ≡ true) ↔ (400 < 500))
    × (is_active 100 new ≡ true)
grant-is_active_example = grant-is_active input new 400 granted_new

revoked_new : revoke 300 new ≡ ok ended
unfolding revoke
revoked_new = refl

revoke_final_example :
    (revoke_all (310 ∷ 320 ∷ []) ended ≡ ended)
    × (is_active 200 (revoke_all (310 ∷ 320 ∷ []) ended) ≡ false)
    × (revoke 400 (revoke_all (310 ∷ 320 ∷ []) ended) ≡ thrown already_revoked)
revoke_final_example = revoke_final new ended 300 400 200 (310 ∷ 320 ∷ []) revoked_new
