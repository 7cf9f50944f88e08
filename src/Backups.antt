-- ===== src/Backups.antt =====
-- modules/backups/service.ts. The directory of the archives and that of the servers are maps from a
-- path to a content. tar, SHA-256, the local time, the blueprints and the engine are the parameter
-- `Tools`; times and identifiers are handed in.
pub mod Names
pub mod Retention
pub mod Create
pub mod Restore
use renom.Prelude.{
  Bool, List, Option, String, Units, [], codes, is_none, str_eq, ℕ, ◌*◌, ◌++◌, ◌/◌, ◌∷◌,
}
use renom.JsText.{trim_start}
use renom.Database.{Backup, Database}

-- `getFullYear()`, `getMonth() + 1`, `getDate()`, `getHours()`, `getMinutes()`, `getSeconds()`.
pub record Stamp : Type 0 where
  pub year : ℕ
  pub month : ℕ
  pub date : ℕ
  pub hours : ℕ
  pub minutes : ℕ
  pub seconds : ℕ

-- What is read of the document of a blueprint.
pub record Policy : Type 0 where
  pub consistency : Option String
  pub file_denylist : List Units

pub record Tools : Type 0 where
  pub has_tar : Bool
  -- none where `getDoc` throws
  pub doc_of : String → String → Option Policy
  pub state_of : String → String
  pub stamp_of : ℕ → Stamp
  pub empty_directory : String
  -- the archive of a directory without what is excluded; none where tar fails
  pub archive : List Units → String → Option String
  pub list_members : String → Option Units
  pub extract : String → Option String
  -- `resolve(staging, member)`
  pub resolve : Units → Units → Units
  pub sha256 : String → String
  pub size : String → ℕ

-- The tables, the files of `backups/`, the directories of `servers/` by name, and the entries
-- `backup.retention.purge` of the audit log: the server and the backup.
pub record Vault : Type 0 where
  pub db : Database
  pub archives : List (Units × String)
  pub directories : List (Units × String)
  pub purges : List (String × String)

-- The path of an archive under `backups/`.
abbrev pub archive_path : String → Units → Units
archive_path server name = codes server ++ b'/' ∷ name

abbrev pub with_backups : Vault → List Backup → Vault
with_backups v rows = record v { db = record v.db { backups = rows } }

abbrev pub has_id : String → Backup → Bool
has_id id b = str_eq b.id id

-- `purged_at IS NULL`.
abbrev pub is_kept : Backup → Bool
is_kept b = is_none b.purged_at

abbrev pub default_secret_excludes : List Units
default_secret_excludes =
    codes ".env"
    ∷ codes "./.env"
    ∷ codes "*.pem"
    ∷ codes "./*.pem"
    ∷ codes "*.key"
    ∷ codes "./*.key"
    ∷ codes "id_rsa*"
    ∷ codes "./id_rsa*"
    ∷ codes "*.pfx"
    ∷ codes "./*.pfx"
    ∷ codes "*.p12"
    ∷ codes "./*.p12"
    ∷ []
