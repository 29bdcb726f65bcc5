-- ===== src/Domain/Ids.antt =====
-- packages/domain/src/value-objects/ids.ts: the branded ids are texts, and each constructor
-- rejects the empty text.
use labpics_id.Prelude.{◌≡◌, ◌≢◌, String, ◌==◌, eq_iff, arith, if◌then◌else◌}
use labpics_id.Domain.Result.{Result, ok, thrown, domain_error}

unfoldable pub branded : String → Result String
branded value = if value == "" then thrown domain_error else ok value

abbrev pub actor_id : String → Result String
actor_id value = branded value

abbrev pub user_id : String → Result String
user_id value = branded value

abbrev pub organization_id : String → Result String
organization_id value = branded value

abbrev pub product_access_id : String → Result String
product_access_id value = branded value

abbrev pub otp_challenge_id : String → Result String
otp_challenge_id value = branded value

-- A text that is accepted is the id itself, and is not empty.
pub branded_ok : (value : String) {v : String} → branded value ≡ ok v → (v ≡ value) × (v ≢ "")
unfolding branded
branded_ok value h = (ground arith, ground (arith, eq_iff value ""))
