-- ===== src/Access.antt =====
-- packages/domain/src/aggregates/product-access.ts: the aggregate is its frozen state.
pub mod Lifecycle
mod Tests
use labpics_id.Prelude.{
  ℕ, Bool, true, false, not, Option, none, some, String, ◌==◌, leb, is_null, some_le, if◌then◌else◌,
}
use labpics_id.Domain.Result.{Result, ok, thrown, domain_error, already_revoked}

pub data SubjectType : Type 0 where
  user organization : SubjectType

pub record ProductAccessState : Type 0 where
  pub id : String
  pub subject_id : String
  pub subject_type : SubjectType
  pub resource : String
  pub scope : String
  pub granted_at : ℕ
  pub granted_by : String
  pub expires_at : Option ℕ
  pub revoked_at : Option ℕ
  pub granted : Bool

pub record GrantProductAccessInput : Type 0 where
  pub id : String
  pub subject_id : String
  pub subject_type : SubjectType
  pub resource : String
  pub scope : String
  pub granted_at : ℕ
  pub granted_by : String
  pub expires_at : Option ℕ

-- ProductAccess.grant
unfoldable pub grant : GrantProductAccessInput → Result ProductAccessState
grant input =
    if input.resource == ""
    then thrown domain_error
    else if input.scope == ""
    then thrown domain_error
    else if some_le input.expires_at input.granted_at
    then thrown domain_error
    else ok (record {
      id = input.id;
      subject_id = input.subject_id;
      subject_type = input.subject_type;
      resource = input.resource;
      scope = input.scope;
      granted_at = input.granted_at;
      granted_by = input.granted_by;
      expires_at = input.expires_at;
      revoked_at = none;
      granted = true;
    })

unfoldable pub revoke : ℕ → ProductAccessState → Result ProductAccessState
revoke at state =
    if not (is_null state.revoked_at)
    then thrown already_revoked
    else ok (record state { granted = false; revoked_at = some at })

unfoldable pub is_active : ℕ → ProductAccessState → Bool
is_active at state =
    if not state.granted
    then false
    else if not (is_null state.revoked_at)
    then false
    else if some_le state.expires_at at
    then false
    else true
