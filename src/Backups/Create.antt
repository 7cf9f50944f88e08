-- ===== src/Backups/Create.antt =====
-- `create` and what it excludes. The call waits twice, for tar and for the digest: `begin` is what it
-- does before, and `complete` what it does with the archive that tar wrote.
pub mod Reserved
pub mod Excludes
use renom.Prelude.{
  Bool, List, Option, String, Units, [], codes, false, if◌then◌else◌, length, none, not, some,
  str_eq, units_eq_inst, ℕ, ◌&&◌, ◌++◌, ◌==◌, ◌||◌, ◌∷◌,
}
use renom.JsText.{trim}
use renom.JsMap.{has, set, delete}
use renom.Errors.{Result, ok, err, not_found, conflict, internal}
use renom.Database.{Backup, Database}
use renom.Servers.Rows
use renom.Servers.Rows.{ServerRow}
use renom.Backups.{Policy, Tools, Vault, archive_path, default_secret_excludes, with_backups}
use renom.Backups.Names.{base_name, reserve, software_of}
use renom.Backups.Retention
use renom.Backups.Retention.{enforce_retention}

-- `[./\\]`.
abbrev pub is_dot_or_slash : ℕ → Bool
is_dot_or_slash c = c == b'.' || c == b'/' || c == 0x5c

-- `replace(/^[./\\]+/, "")`.
unfoldable pub strip_dots : Units → Units
strip_dots [] = []
strip_dots (c ∷ s) = let rest = strip_dots s in if is_dot_or_slash c then rest else c ∷ s

-- `includes("..")`.
unfoldable pub has_parent : Units → Bool
has_parent [] = false
has_parent (c ∷ []) = false
has_parent (c ∷ d ∷ s) = (c == b'.' && d == b'.') || has_parent (d ∷ s)

unfoldable pub sanitize_exclude : Units → Units
unfolding trim strip_dots has_parent
sanitize_exclude pattern =
    let trimmed = strip_dots (trim pattern) in
    if length trimmed == 0 || has_parent trimmed then codes "__invalid__" else trimmed

-- `flatMap((p) => ["--exclude", sanitizeExclude(p)])`.
unfoldable pub exclude_args : List Units → List Units
unfolding sanitize_exclude
exclude_args [] = []
exclude_args (p ∷ patterns) = codes "--exclude" ∷ sanitize_exclude p ∷ exclude_args patterns

abbrev pub excludes_of : Policy → List Units
excludes_of policy = exclude_args (default_secret_excludes ++ policy.file_denylist)

-- What the call keeps while it waits.
pub record Pending : Type 0 where
  pub id : String
  pub server_id : String
  pub file_name : Units
  pub excludes : List Units
  pub actor : Option String
  pub locked : Bool
  pub running : Bool
  pub now : ℕ

abbrev pub wants_stopped : Policy → Bool
wants_stopped policy = elim policy.consistency [
  | none ↦ false
  | some consistency ↦ str_eq consistency "stopped"
]

-- The policy of the server, if the backup may be made.
unfoldable pub admit : Tools → String → Vault → Result (ServerRow × Policy)
unfolding Rows.by_id
admit tools server v = elim (Rows.by_id v.db server) [
  | none ↦ err not_found
  | some row ↦
      if not tools.has_tar
      then err conflict
      else (elim (tools.doc_of row.blueprint_slug row.blueprint_version_tag) [
        | none ↦ err conflict
        | some policy ↦
            if wants_stopped policy && not (str_eq (tools.state_of server) "offline")
            then err conflict
            else ok (row, policy)
      ])
]

-- The directory of the server is made if it is not there.
abbrev pub ensure_directory : Tools → String → List (Units × String) → List (Units × String)
ensure_directory tools server directories =
    if has directories (codes server)
    then directories
    else set directories (codes server) tools.empty_directory

-- An archive that is only reserved is an empty file. `reserve` always finds a name.
unfoldable pub begin :
    Tools → ℕ → String → String → Option String → Bool → Vault → Result Pending × Vault
unfolding admit has set software_of base_name reserve exclude_args
begin tools now id server actor locked v = elim (admit tools server v) [
  | err thrown ↦ (err thrown, v)
  | ok (row, policy) ↦
      let base = base_name (software_of row.blueprint_slug) (tools.stamp_of now) in
      elim (reserve server base v.archives) [
        | none ↦ (err internal, v)
        | some name ↦ (
          ok (record {
            id = id;
            server_id = server;
            file_name = name;
            excludes = excludes_of policy;
            actor = actor;
            locked = locked;
            running = not (str_eq (tools.state_of server) "offline");
            now = now;
          }),
          record v {
            archives = set v.archives (archive_path server name) "";
            directories = ensure_directory tools server v.directories;
          },
        )
      ]
]

abbrev pub new_backup : Tools → Pending → String → Backup
new_backup tools p content = record {
  id = p.id;
  server_id = p.server_id;
  file_name = p.file_name;
  checksum_sha256 = tools.sha256 content;
  bytes = tools.size content;
  locked = (if p.locked then 1 else 0);
  consistency = (if p.running then "best-effort" else "stopped");
  created_by = p.actor;
  completed_at = some p.now;
  purged_at = none;
  retained_reason = none;
  created_at = p.now;
}

-- The archive, if tar wrote one, at the reserved path; `purge_at` is the time of the retention.
unfoldable pub complete : Tools → Pending → Option String → ℕ → Vault → Result Backup × Vault
unfolding delete set enforce_retention Retention.by_id
complete tools p none purge_at v =
    (err conflict, record v { archives = delete v.archives (archive_path p.server_id p.file_name) })
complete tools p (some content) purge_at v =
    let inserted = record (with_backups v (v.db.backups ++ new_backup tools p content ∷ [])) {
      archives = set v.archives (archive_path p.server_id p.file_name) content;
    } in
    let after = enforce_retention purge_at p.server_id inserted in
    elim (Retention.by_id p.id after) [
      | none ↦ (err internal, after)
      | some created ↦ (ok created, after)
    ]
