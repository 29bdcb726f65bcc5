-- ===== src/Tables.antt =====
-- packages/db/src/schema: the tables that several adapters write. Columns that a default fills and
-- nothing in the source reads (random primary keys, `prev_hash`, an outbox row's `status`) are left out.
use labpics_id.Prelude.{ℕ, Bool, String, List, Option}
use labpics_id.Domain.Ports.{AuditEntry, OutboxEnvelope}

-- audit.ts
pub record AuditRow : Type 0 where
  pub entry : AuditEntry
  pub hash : String

-- The JSON of an outbox row: an envelope, or a bare object of texts.
pub data Payload : Type 0 where
  envelope : OutboxEnvelope → Payload
  object : List (String × String) → Payload

pub record OutboxRow : Type 0 where
  pub type : String
  pub payload : Payload

-- auth.ts
pub record UserRow : Type 0 where
  pub id : String
  pub name : String
  pub email : String
  pub email_verified : Bool
  pub deactivated_at : Option ℕ

pub record SessionRow : Type 0 where
  pub id : String
  pub expires_at : ℕ
  pub token : String
  pub created_at : ℕ
  pub updated_at : ℕ
  pub revoked_at : Option ℕ
  pub last_active_at : Option ℕ
  pub absolute_expires_at : Option ℕ
  pub user_id : String

pub record RefreshRow : Type 0 where
  pub id : String
  pub session_id : String
  pub family_id : String
  pub digest : String
  pub expires_at : ℕ
  pub used_at : Option ℕ
  pub created_at : ℕ

pub record AccountRow : Type 0 where
  pub id : String
  pub account_id : String
  pub provider_id : String
  pub user_id : String
  pub password : Option String
  pub updated_at : ℕ

pub record VerificationTokenRow : Type 0 where
  pub id : String
  pub identifier : String
  pub value : String
  pub expires_at : ℕ

-- abuse.ts
pub record RateLimitRow : Type 0 where
  pub id : String
  pub action : String
  pub key_digest : String
  pub attempts : ℕ
  pub window_started_at : ℕ
  pub locked_until : Option ℕ
  pub updated_at : ℕ
