-- ===== src/Store/Types.antt =====
-- internal/store/schema.go: the tables, and the Go records of internal/store that their rows are
-- scanned into.
use groot_share.Prelude.{ℕ, Text, Bool, List, Option}
use groot_share.Time.{Time, Stamp}
use groot_share.Auth.{Role, KeyScope}

-- Archive; `uploaded_by` is 0 where the column is NULL.
pub record Archive : Type 0 where
  pub id : Text
  pub key : Text
  pub size : ℕ
  pub sha256 : Text
  pub source : Text
  pub storage : Text
  pub uploaded_by : ℕ
  pub created_at : Time

-- A row of `archives`.
pub record ArchiveRow : Type 0 where
  pub id : Text
  pub key : Text
  pub size : ℕ
  pub sha256 : Text
  pub source : Text
  pub uploaded_by : Option ℕ
  pub created_at : Stamp

-- Staged
pub record Staged : Type 0 where
  pub id : Text
  pub key : Text
  pub path : Text
  pub sha256 : Text
  pub size : ℕ
  pub uploaded_by : ℕ
  pub created_at : Time

-- A row of `transit`.
pub record TransitRow : Type 0 where
  pub id : Text
  pub key : Text
  pub s3_key : Text
  pub size : ℕ
  pub sha256 : Text
  pub path : Text
  pub uploaded_by : Option ℕ
  pub created_at : Stamp
  pub last_error : Text

-- User, and the row of `users` but for its creation time.
pub record User : Type 0 where
  pub id : ℕ
  pub username : Text
  pub name : Text
  pub password_hash : Text
  pub role : Role
  pub active : Bool

-- A row of `sessions`.
pub record Session : Type 0 where
  pub user_id : ℕ
  pub token_hash : Text
  pub expires_at : Stamp

-- A row of `api_keys`.
pub record ApiKey : Type 0 where
  pub id : ℕ
  pub user_id : ℕ
  pub key_hash : Text
  pub prefix : Text
  pub scope : KeyScope
  pub last_used_at : Stamp

-- A row of `share_links`; ShareLink has times in place of the stamps.
pub record ShareRow : Type 0 where
  pub id : ℕ
  pub archive_id : Text
  pub token_hash : Text
  pub created_by : ℕ
  pub label : Text
  pub max_uses : ℕ
  pub use_count : ℕ
  pub expires_at : Stamp
  pub revoked_at : Stamp
  pub created_at : Stamp

-- A row of `archive_pins`.
pub record PinRow : Type 0 where
  pub user_id : ℕ
  pub archive_id : Text
  pub archive_key : Text
  pub archive_size : ℕ
  pub created_at : Stamp

-- A row of `audit`.
pub record AuditRow : Type 0 where
  pub id : ℕ
  pub actor : Text
  pub actor_id : ℕ
  pub action : Text
  pub object_id : Text
  pub object_key : Text
  pub remote_ip : Text
  pub created_at : Stamp

-- The database. `foreign_keys` tells whether the connection that serves the request enforces
-- foreign keys: the pragma is run on one connection of the pool. The last five fields are the
-- AUTOINCREMENT counters, the id of the next row.
pub record Db : Type 0 where
  pub users : List User
  pub sessions : List Session
  pub api_keys : List ApiKey
  pub archives : List ArchiveRow
  pub transit : List TransitRow
  pub share_links : List ShareRow
  pub archive_pins : List PinRow
  pub audit : List AuditRow
  pub foreign_keys : Bool
  pub next_user : ℕ
  pub next_key : ℕ
  pub next_share : ℕ
  pub next_audit : ℕ
