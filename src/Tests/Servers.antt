-- ===== src/Tests/Servers.antt =====
-- Tests of the repository of servers.
use renom.Prelude.{
  String, [], if◌then◌else◌, none, refl, some, true, ℕ, ◌+◌, ◌<◌, ◌==◌, ◌↔◌, ◌∷◌, ◌≡◌, ◌≤◌,
}
use renom.Database.{Database, Server, User, Blueprint, Allocation}
use renom.Database.Table.{count_where}
use renom.Database.Change.{failed, no_free_port, done}
use renom.Servers.{
  ServerPatch, has_server, is_unchanged, remove, set_variable, set_variable_if_unchanged, update,
  upsert, variable,
}
use renom.Servers.Rows.{by_id, public_columns, live_server, joined}
use renom.Servers.Ports.{
  claim_free_port, claim_free_port-eq-failed_iff, first_free, holders, insert_allocation,
}
use renom.Servers.Create.{
  NewServer, attempts, claim_port, create, create_once, created, insert_server, new_row, primary,
}
use renom.Servers.Create.Created.{HasCreated, create-IsCreated}
use renom.Servers.Removal.{is_held_by, primary_allocation, remove_gone}

abbrev owner : User
owner = record {
  id = "u1";
  username = "ann";
  password_hash = none;
  email = none;
  role = "owner";
  display_name = "Ann";
  quota_max_servers = 5;
  quota_ram_mb = 8192;
  quota_disk_mb = 40960;
  password_version = 0;
  suspended = 0;
  last_login_at = none;
  created_at = 1;
  updated_at = 1;
}

abbrev paper : Blueprint
paper = record { id = "b1"; slug = "paper"; category = "minecraft-java" }

abbrev taken : Allocation
taken = record {
  id = "a0";
  server_id = some "s0";
  ip = "0.0.0.0";
  port = 25565;
  notes = "primary";
  released = 0;
  created_at = 1;
  updated_at = 1;
}

abbrev db : Database
db = record {
  servers = [];
  users = owner ∷ [];
  blueprints = paper ∷ [];
  allocations = taken ∷ [];
  server_variables = [];
  subusers = [];
  api_keys = [];
  backups = [];
}

abbrev print : ℕ → String
print n = if n == 1024 then "1024" else "2048"

abbrev new_id : ℕ → String
new_id k = "a1"

abbrev input : NewServer
input = record {
  name = "alpha";
  description = "";
  owner_id = "u1";
  blueprint_id = "b1";
  version_tag = "v1";
  image_ref = "";
  memory_mb = 1024;
  disk_quota_mb = 5120;
  cpu_weight = none;
  preferred_port = none;
}

abbrev made : Server
made = new_row "s1" input 7

abbrev made_db : Database
made_db = record db {
  servers = made ∷ [];
  server_variables = record { server_id = "s1"; key = "maxMemory"; value = "1024" } ∷ [];
  allocations = taken ∷ primary "a1" "s1" 25566 7 ∷ [];
}

created_run : create print new_id "s1" input 7 db ≡ done (public_columns made owner paper) made_db
unfolding create create_once insert_server set_variable claim_port claim_free_port first_free
    insert_allocation created by_id joined upsert has_server attempts live_server
created_run = refl

create-IsCreated_example :
    HasCreated print new_id "s1" input 7 db (public_columns made owner paper) made_db
create-IsCreated_example =
    create-IsCreated print new_id "s1" input 7 db (public_columns made owner paper) made_db
      created_run

claim_free_port-eq-failed_iff_example :
    (claim_free_port "0.0.0.0" 25565 25565 db ≡ failed no_free_port)
    ↔ ((q : ℕ) → 25565 ≤ q → q ≤ 25565 → 0 < holders "0.0.0.0" q db.allocations)
claim_free_port-eq-failed_iff_example = claim_free_port-eq-failed_iff "0.0.0.0" 25565 25565 db

claimed : claim_free_port "0.0.0.0" 25565 26565 db ≡ done 25566 db
unfolding claim_free_port first_free holders
claimed = refl

abbrev flag_db : Database
flag_db = record made_db {
  server_variables = record { server_id = "s1"; key = "maxMemory"; value = "2048" } ∷ [];
}

flag_written :
    set_variable_if_unchanged "s1" "maxMemory" "2048" (some "1024") made_db ≡ done true flag_db
unfolding set_variable_if_unchanged is_unchanged variable set_variable upsert has_server
flag_written = refl

abbrev more_memory : ServerPatch
more_memory = record {
  name = none;
  description = none;
  memory_mb = some 2048;
  disk_quota_mb = none;
  cpu_weight = none;
}

abbrev bigger : Server
bigger = record made { memory_mb = 2048; updated_at = 9 }

abbrev bigger_db : Database
bigger_db = record flag_db { servers = bigger ∷ [] }

updated :
    update print "s1" more_memory 9 made_db
    ≡ done (some (public_columns bigger owner paper)) bigger_db
unfolding update set_variable upsert has_server by_id joined live_server
updated = refl

remove_gone_example :
    (by_id (remove "s0" 9 db) "s0" ≡ none)
    × (primary_allocation (remove "s0" 9 db) "s0" ≡ none)
    × (holders "0.0.0.0" 25565 (Database.allocations (remove "s0" 9 db))
          + count_where (is_held_by "s0" "0.0.0.0" 25565) db.allocations
        ≡ holders "0.0.0.0" 25565 db.allocations)
remove_gone_example = remove_gone "s0" "0.0.0.0" 25565 9 db
