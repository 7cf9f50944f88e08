-- ===== src/Database.antt =====
-- The tables of infra/db/migrations that the modelled code reads and writes, as lists of rows in
-- the order of insertion. SQL statements are the functions on such lists that the components define.
pub mod Table
pub mod Change
use renom.Prelude.{List, Option, String, Units, ℕ}

-- A row of `servers`.
pub record Server : Type 0 where
  pub id : String
  pub name : String
  pub description : String
  pub owner_id : String
  pub blueprint_id : String
  pub blueprint_version_tag : String
  pub image_ref : String
  pub node_id : String
  pub status : String
  pub runtime_state : Option String
  pub memory_mb : ℕ
  pub cpu_weight : ℕ
  pub disk_quota_mb : ℕ
  pub eula_accepted_at : Option ℕ
  pub eula_ip : Option String
  pub created_at : ℕ
  pub updated_at : ℕ
  pub deleted_at : Option ℕ

-- A row of `users`. `suspended` holds 0 or 1.
pub record User : Type 0 where
  pub id : String
  pub username : String
  pub password_hash : Option String
  pub email : Option String
  pub role : String
  pub display_name : String
  pub quota_max_servers : ℕ
  pub quota_ram_mb : ℕ
  pub quota_disk_mb : ℕ
  pub password_version : ℕ
  pub suspended : ℕ
  pub last_login_at : Option ℕ
  pub created_at : ℕ
  pub updated_at : ℕ

-- A row of `blueprints`, as far as it is read here.
pub record Blueprint : Type 0 where
  pub id : String
  pub slug : String
  pub category : String

-- A row of `allocations`.
pub record Allocation : Type 0 where
  pub id : String
  pub server_id : Option String
  pub ip : String
  pub port : ℕ
  pub notes : String
  pub released : ℕ
  pub created_at : ℕ
  pub updated_at : ℕ

-- A row of `server_variables`.
pub record Variable : Type 0 where
  pub server_id : String
  pub key : String
  pub value : String

-- A row of `subusers`.
pub record Subuser : Type 0 where
  pub user_id : String
  pub server_id : String
  pub permissions_json : String
  pub granted_by : String
  pub created_at : ℕ

-- A row of `api_keys`.
pub record ApiKey : Type 0 where
  pub id : String
  pub identifier : String
  pub token_hash : String
  pub scopes_json : String
  pub memo : String
  pub expires_at : Option ℕ
  pub last_used_at : Option ℕ
  pub revoked_at : Option ℕ
  pub user_id : String
  pub created_at : ℕ

-- A row of `backups`.
pub record Backup : Type 0 where
  pub id : String
  pub server_id : String
  pub file_name : Units
  pub checksum_sha256 : String
  pub bytes : ℕ
  pub locked : ℕ
  pub consistency : String
  pub created_by : Option String
  pub completed_at : Option ℕ
  pub purged_at : Option ℕ
  pub retained_reason : Option String
  pub created_at : ℕ

pub record Database : Type 0 where
  pub servers : List Server
  pub users : List User
  pub blueprints : List Blueprint
  pub allocations : List Allocation
  pub server_variables : List Variable
  pub subusers : List Subuser
  pub api_keys : List ApiKey
  pub backups : List Backup
