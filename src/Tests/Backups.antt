-- ===== src/Tests/Backups.antt =====
-- Tests of the backups.
use renom.Prelude.{
  All, List, String, Units, [], arith, codes, drop, false, length, min, none, refl, some, take,
  true, units_eq_inst, ℕ, ◌++◌, ◌∷◌, ◌≡◌, ◌≢◌, ◌≤◌, ◌⊎◌,
}
use renom.JsMap.{get, has, set, get-set_ne}
use renom.Errors.{ok, err, internal}
use renom.Database.{Backup, Database, Server, User}
use renom.Servers.Rows
use renom.Backups.{Tools, Vault, archive_path, default_secret_excludes, has_id}
use renom.Backups.Create.{Pending, begin, exclude_args, sanitize_exclude}
use renom.Backups.Create.Excludes.{AreExcludes, exclude_args-AreExcludes}
use renom.Backups.Create.Reserved.{begin-apart}
use renom.Backups.Restore.{
  Meanwhile, are_members_safe, archive_of, with_directories, swap_throws, displaced_of, restore,
  run_steps, staging_of, swap_steps,
}
use renom.Backups.Restore.Outcomes.{IsRestored, restore-eq-ok}
use renom.Backups.Restore.Refusals.{IsKept, restore-eq-err}
use renom.Backups.Restore.Swap.{run_steps-keeps}
use renom.Backups.Retention.{by_id, enforce_retention, retain_unlocked, unlocked_rows}
use renom.Backups.Retention.Kept.{enforce_retention_newest, retained_rows}
use renom.Backups.Retention.Order.{HasUniqueIds}

abbrev row : String → ℕ → Backup
row id at = record {
  id = id;
  server_id = "s1";
  file_name = codes id;
  checksum_sha256 = "content";
  bytes = 7;
  locked = 0;
  consistency = "stopped";
  created_by = none;
  completed_at = some at;
  purged_at = none;
  retained_reason = none;
  created_at = at;
}

abbrev empty : Database
empty = record {
  servers = [];
  users = [];
  blueprints = [];
  allocations = [];
  server_variables = [];
  subusers = [];
  api_keys = [];
  backups = [];
}

abbrev many : List Backup
many =
    row "b1" 1
    ∷ row "b2" 2
    ∷ row "b3" 3
    ∷ row "b4" 4
    ∷ row "b5" 5
    ∷ row "b6" 6
    ∷ row "b7" 7
    ∷ row "b8" 8
    ∷ row "b9" 9
    ∷ row "b10" 10
    ∷ row "b11" 11
    ∷ []

abbrev full : Vault
full = record { db = record empty { backups = many }; archives = []; directories = []; purges = [] }

many-HasUniqueIds : HasUniqueIds many
many-HasUniqueIds = (
  (refl, (refl, (refl, (refl, (refl, (refl, (refl, (refl, (refl, (refl, tt)))))))))),
  (
    (refl, (refl, (refl, (refl, (refl, (refl, (refl, (refl, (refl, tt))))))))),
    (
      (refl, (refl, (refl, (refl, (refl, (refl, (refl, (refl, tt)))))))),
      (
        (refl, (refl, (refl, (refl, (refl, (refl, (refl, tt))))))),
        (
          (refl, (refl, (refl, (refl, (refl, (refl, tt)))))),
          (
            (refl, (refl, (refl, (refl, (refl, tt))))),
            (
              (refl, (refl, (refl, (refl, tt)))),
              ((refl, (refl, (refl, tt))), ((refl, (refl, tt)), ((refl, tt), (tt, tt)))),
            ),
          ),
        ),
      ),
    ),
  ),
)

enforce_retention_newest_example :
    (length (retained_rows "s1" (enforce_retention 20 "s1" full))
      ≡ min retain_unlocked (length (retained_rows "s1" full)))
    × All
        (λ b.
          All
            (λ gone. gone.created_at ≤ b.created_at)
            (drop retain_unlocked (unlocked_rows "s1" many)))
        (retained_rows "s1" (enforce_retention 20 "s1" full))
enforce_retention_newest_example = enforce_retention_newest 20 "s1" full many-HasUniqueIds

abbrev locked_row : Backup
locked_row = record (row "b0" 1) { locked = 1 }

abbrev with_locked : Vault
with_locked = record full {
  db = record empty { backups = locked_row ∷ row "b1" 2 ∷ [] };
  archives = (archive_path "s1" (codes "b0"), "content") ∷ [];
}

abbrev OwnFile : Backup → Backup → Type 0
OwnFile b c =
    has_id b.id c ≡ false → archive_path "s1" c.file_name ≢ archive_path b.server_id b.file_name

abbrev tools : Tools
tools = record {
  has_tar = true;
  doc_of = λ slug tag. some (record { consistency = some "stopped"; file_denylist = [] });
  state_of = λ id. "offline";
  stamp_of =
      λ t. record { year = 2026; month = 9; date = 17; hours = 8; minutes = 5; seconds = 30 };
  empty_directory = "";
  archive = λ excludes content. some content;
  list_members = λ content. some (codes "./world");
  extract = λ content. some content;
  resolve = λ from path. from ++ b'/' ∷ path;
  sha256 = λ content. content;
  size = λ content. 7;
}

-- The leading dot of the first default pattern is lost.
dot_env : sanitize_exclude (codes ".env") ≡ codes "env"
unfolding sanitize_exclude
dot_env = refl

abbrev stored : Vault
stored = record with_locked { directories = (codes "s1", "old") ∷ (codes "s2", "other") ∷ [] }

-- Others change the directory of another server while tar runs.
abbrev others : Vault → Vault
others x = with_directories x (set x.directories (codes "s2") "changed")

abbrev meanwhile : Meanwhile
meanwhile = record {
  hashing = λ x. x;
  listing = λ x. x;
  extracting = others;
  fault = none;
  left = none;
}

abbrev restored : Vault
restored = record stored { directories = (codes "s2", "changed") ∷ (codes "s1", "content") ∷ [] }

runs : restore tools meanwhile "b0" stored ≡ (ok tt, restored)
unfolding restore by_id are_members_safe
runs = refl

others_apart :
    (x : Vault) (name : Units)
    → codes "s2" ≢ name
    → get (others x).directories name ≡ get x.directories name
others_apart x name apart = get-set_ne x.directories (codes "s2") name "changed" apart

restore-eq-ok_example : IsRestored tools meanwhile locked_row stored restored
unfolding by_id
restore-eq-ok_example =
    restore-eq-ok meanwhile locked_row tools "b0" stored restored refl
      (
        (λ x. (refl, refl)),
        (λ x. (refl, refl)),
        λ x. (refl, others_apart x (staging_of locked_row) (λ e. absurd (ground (arith, e)))),
      )
      runs

-- The rename of the staging directory throws.
abbrev torn : Meanwhile
torn = record meanwhile { fault = some (swap_throws 2) }

abbrev displaced : Vault
displaced = (restore tools torn "b0" stored).1

breaks : restore tools torn "b0" stored ≡ (err internal, displaced)
unfolding restore by_id are_members_safe
breaks = refl

old_aside : get displaced.directories (displaced_of locked_row) ≡ some "old"
unfolding restore by_id get are_members_safe
old_aside = refl

restore-eq-err_example :
    IsKept tools locked_row (archive_of locked_row stored) "old" internal displaced
unfolding by_id get
restore-eq-err_example =
    restore-eq-err tools torn locked_row "b0" "old" internal stored displaced refl
      (
        (λ x. (refl, refl, refl)),
        (λ x. (refl, refl, refl)),
        λ x. (
          refl,
          others_apart x (codes "s1") (λ e. absurd (ground (arith, e))),
          others_apart x (staging_of locked_row) (λ e. absurd (ground (arith, e))),
        ),
      )
      refl breaks

abbrev staged_up : List (Units × String)
staged_up = (codes "s1", "old") ∷ (staging_of locked_row, "new") ∷ []

run_steps-keeps_example :
    (get (run_steps (take 2 (swap_steps locked_row)) staged_up) (codes "s1") ≡ some "old")
    ⊎ ((get (run_steps (take 2 (swap_steps locked_row)) staged_up) (displaced_of locked_row)
          ≡ some "old")
        ⊎ (get (run_steps (take 2 (swap_steps locked_row)) staged_up) (codes "s1") ≡ some "new"))
unfolding get
run_steps-keeps_example = run_steps-keeps locked_row staged_up 2 "old" "new" refl refl

exclude_args-AreExcludes_example : AreExcludes (exclude_args default_secret_excludes)
exclude_args-AreExcludes_example = exclude_args-AreExcludes default_secret_excludes

abbrev server : Server
server = record {
  id = "s1";
  name = "alpha";
  description = "";
  owner_id = "u1";
  blueprint_id = "b1";
  blueprint_version_tag = "v1";
  image_ref = "";
  node_id = "n1";
  status = "ready";
  runtime_state = none;
  memory_mb = 1024;
  cpu_weight = 0;
  disk_quota_mb = 1024;
  eula_accepted_at = none;
  eula_ip = none;
  created_at = 1;
  updated_at = 1;
  deleted_at = none;
}

abbrev owner : User
owner = record {
  id = "u1";
  username = "ann";
  password_hash = none;
  email = none;
  role = "owner";
  display_name = "Ann";
  quota_max_servers = 5;
  quota_ram_mb = 8192;
  quota_disk_mb = 40960;
  password_version = 0;
  suspended = 0;
  last_login_at = none;
  created_at = 1;
  updated_at = 1;
}

abbrev running : Vault
running = record full {
  db = record empty {
    servers = server ∷ [];
    users = owner ∷ [];
    blueprints = record { id = "b1"; slug = "paper"; category = "minecraft-java" } ∷ [];
  };
}

abbrev pending : Units → String → Pending
pending name id = record {
  id = id;
  server_id = "s1";
  file_name = name;
  excludes = exclude_args default_secret_excludes;
  actor = none;
  locked = false;
  running = false;
  now = 9;
}

abbrev first_name : Units
first_name = codes "paper_2026-09-17_08-05-30.tar.gz"

abbrev second_name : Units
second_name = codes "paper_2026-09-17_08-05-30-2.tar.gz"

abbrev one_begun : Vault
one_begun = record running {
  archives = (archive_path "s1" first_name, "") ∷ [];
  directories = (codes "s1", "") ∷ [];
}

abbrev two_begun : Vault
two_begun = record one_begun {
  archives = (archive_path "s1" first_name, "") ∷ (archive_path "s1" second_name, "") ∷ [];
}

begun : begin tools 9 "b1" "s1" none false running ≡ (ok (pending first_name "b1"), one_begun)
unfolding begin Rows.live_server Rows.joined
begun = refl

begun_again :
    begin tools 9 "b2" "s1" none false one_begun ≡ (ok (pending second_name "b2"), two_begun)
unfolding begin Rows.live_server Rows.joined
begun_again = refl

reserved : has one_begun.archives (archive_path "s1" first_name) ≡ true
unfolding has get
reserved = refl

begin-apart_example :
    (has running.archives (archive_path "s1" first_name) ≡ false)
    × (has one_begun.archives (archive_path "s1" first_name) ≡ true)
    × (archive_path "s1" first_name ≢ archive_path "s1" second_name)
begin-apart_example =
    begin-apart tools 9 "b1" "s1" none false running one_begun (pending first_name "b1") 9 "b2" "s1"
      none false one_begun two_begun (pending second_name "b2") begun reserved begun_again
