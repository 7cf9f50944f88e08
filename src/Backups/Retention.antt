-- ===== src/Backups/Retention.antt =====
-- `list`, `byId`, `unlock`, `remove` and `enforceRetention`.
pub mod Order
pub mod Kept
pub mod Untouched
pub mod Guards
use renom.Prelude.{
  Bool, List, Option, String, Units, [], drop, if◌then◌else◌, keep, leb, none, some, str_eq,
  units_eq_inst, ℕ, ◌&&◌, ◌++◌, ◌==◌, ◌∷◌,
}
use renom.JsMap.{delete}
use renom.Errors.{Result, ok, err, not_found, conflict}
use renom.Database.{Backup, Database}
use renom.Database.Table.{select_first, update_where, count_where}
use renom.Backups.{Vault, archive_path, has_id, is_kept, with_backups}

abbrev pub retain_unlocked : ℕ
retain_unlocked = 10

-- `ORDER BY created_at DESC`; rows of one time stay in the order of their insertion.
unfoldable pub insert_newest : Backup → List Backup → List Backup
insert_newest b [] = b ∷ []
insert_newest b (c ∷ rows) =
    if leb c.created_at b.created_at then b ∷ c ∷ rows else c ∷ insert_newest b rows

unfoldable pub newest_first : List Backup → List Backup
unfolding insert_newest
newest_first [] = []
newest_first (b ∷ rows) = insert_newest b (newest_first rows)

unfoldable pub list_backups : String → Vault → List Backup
unfolding newest_first
list_backups server v =
    newest_first (keep (λ b. str_eq b.server_id server && is_kept b) v.db.backups)

unfoldable pub by_id : String → Vault → Option Backup
unfolding select_first
by_id id v = select_first (λ b. has_id id b && is_kept b) v.db.backups

abbrev pub is_retained : String → Backup → Bool
is_retained server b = str_eq b.server_id server && is_kept b && b.locked == 0

-- The unlocked backups of a server, the newest first.
unfoldable pub unlocked_rows : String → List Backup → List Backup
unfolding newest_first
unlocked_rows server rows = newest_first (keep (is_retained server) rows)

abbrev pub purged_row : ℕ → Backup → Backup
purged_row now b = record b { purged_at = some now; retained_reason = some "retention" }

unfoldable pub mark_purged : ℕ → String → List Backup → List Backup
unfolding update_where
mark_purged now id rows = update_where (has_id id) (purged_row now) rows

-- `if (file) rmSync(…)`.
abbrev pub without_file : String → Option Backup → List (Units × String) → List (Units × String)
without_file server none archives = archives
without_file server (some b) archives = delete archives (archive_path server b.file_name)

-- The body of the loop: the row is marked, then its file goes, then the audit log is written.
unfoldable pub purge : ℕ → String → String → Vault → Vault
unfolding select_first mark_purged
purge now server id v =
    let rows = mark_purged now id v.db.backups in
    record (with_backups v rows) {
      archives = without_file server (select_first (has_id id) rows) v.archives;
      purges = v.purges ++ (server, id) ∷ [];
    }

unfoldable pub purge_each : ℕ → String → List Backup → Vault → Vault
unfolding purge
purge_each now server [] v = v
purge_each now server (b ∷ extra) v = purge_each now server extra (purge now server b.id v)

unfoldable pub enforce_retention : ℕ → String → Vault → Vault
unfolding purge_each unlocked_rows
enforce_retention now server v =
    purge_each now server (drop retain_unlocked (unlocked_rows server v.db.backups)) v

unfoldable pub remove : ℕ → String → Vault → Result (Unit {0}) × Vault
unfolding update_where
remove now id v = elim (by_id id v) [
  | none ↦ (err not_found, v)
  | some b ↦ if b.locked == 1 then (err conflict, v) else (
    ok tt,
    record (with_backups v
        (update_where (has_id id) (λ r. record r { purged_at = some now }) v.db.backups)) {
          archives = delete v.archives (archive_path b.server_id b.file_name);
        },
  )
]

abbrev pub is_locked : String → Backup → Bool
is_locked id b = has_id id b && is_kept b && b.locked == 1

unfoldable pub unlock : String → Vault → Bool × Vault
unfolding count_where update_where
unlock id v = (
  count_where (is_locked id) v.db.backups == 1,
  with_backups v (update_where (is_locked id) (λ r. record r { locked = 0 }) v.db.backups),
)
