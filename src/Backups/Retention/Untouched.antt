-- ===== src/Backups/Retention/Untouched.antt =====
-- What `enforceRetention` does not touch: rows that are locked, purged or of another server.
use renom.Prelude.{String, false, units_eq_inst, ◌≡◌, ◌≢◌}
use renom.JsMap.{get}
use renom.Database.{Backup, Database}
use renom.Database.Table.{select_first}
use renom.Backups.{Vault, archive_path, has_id}

module _ (server : String) (b : Backup) where
  -- No other row stands for the file of the row, as a file of the server.
  abbrev pub HasOwnFile : Backup → Type 0
  HasOwnFile c =
      has_id b.id c ≡ false → archive_path server c.file_name ≢ archive_path b.server_id b.file_name

  -- The row and its file are the same in both vaults.
  abbrev pub Stays : Vault → Vault → Type 0
  Stays v w =
      (select_first (has_id b.id) w.db.backups ≡ select_first (has_id b.id) v.db.backups)
      × (get w.archives (archive_path b.server_id b.file_name)
          ≡ get v.archives (archive_path b.server_id b.file_name))
