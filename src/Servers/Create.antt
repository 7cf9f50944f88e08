-- ===== src/Servers/Create.antt =====
-- `create` and `createOnce`: a server, its memory flag and its first allocation, in one transaction
-- that is tried up to five times.
pub mod Created
use renom.Prelude.{
  Option, String, [], if◌then◌else◌, is_some, none, some, suc, zero, ℕ, ◌&&◌, ◌++◌, ◌==◌, ◌∷◌,
}
use renom.Database.{Database, Server, Allocation}
use renom.Database.Table.{count_where}
use renom.Database.Change.{
  Change, done, failed, demand, ◌>=>◌, unique_violation, foreign_key_violation, no_free_port,
  not_created, Failure, is_unique_violation,
}
use renom.Servers.{set_variable}
use renom.Servers.Rows.{ServerRow, has_id, user_row, blueprint_row, by_id}
use renom.Servers.Ports.{claim_free_port, claim_specific_port, insert_allocation}

pub record NewServer : Type 0 where
  pub name : String
  pub description : String
  pub owner_id : String
  pub blueprint_id : String
  pub version_tag : String
  pub image_ref : String
  pub memory_mb : ℕ
  pub disk_quota_mb : ℕ
  pub cpu_weight : Option ℕ
  pub preferred_port : Option ℕ

abbrev pub or_zero : Option ℕ → ℕ
or_zero none = 0
or_zero (some n) = n

abbrev pub new_row : String → NewServer → ℕ → Server
new_row id input now = record {
  id = id;
  name = input.name;
  description = input.description;
  owner_id = input.owner_id;
  blueprint_id = input.blueprint_id;
  blueprint_version_tag = input.version_tag;
  image_ref = input.image_ref;
  node_id = "local";
  status = "creating";
  runtime_state = some "offline";
  memory_mb = input.memory_mb;
  cpu_weight = or_zero input.cpu_weight;
  disk_quota_mb = input.disk_quota_mb;
  eula_accepted_at = none;
  eula_ip = none;
  created_at = now;
  updated_at = now;
  deleted_at = none;
}

-- `INSERT INTO servers`, with its primary key and its two foreign keys.
unfoldable pub insert_server : Server → Database → Change (Unit {0})
unfolding count_where
insert_server s db =
    demand (count_where (has_id s.id) db.servers == 0) unique_violation db
    >=> (λ _ d.
        demand (is_some (user_row d s.owner_id) && is_some (blueprint_row d s.blueprint_id))
          foreign_key_violation d)
    >=> (λ _ d. done tt (record d { servers = d.servers ++ s ∷ [] }))

-- `0.0.0.0`, which stands for each address of the host.
abbrev pub any_address : String
any_address = "0.0.0.0"

-- A preferred port of 0 counts as none.
unfoldable pub claim_port : Option ℕ → Database → Change ℕ
claim_port none db = claim_free_port any_address 25565 26565 db
claim_port (some zero) db = claim_free_port any_address 25565 26565 db
claim_port (some (suc n)) db = claim_specific_port (suc n) db

abbrev pub primary : String → String → ℕ → ℕ → Allocation
primary id server port now = record {
  id = id;
  server_id = some server;
  ip = any_address;
  port = port;
  notes = "primary";
  released = 0;
  created_at = now;
  updated_at = now;
}

unfoldable pub created : String → Database → Change ServerRow
created id db = elim (by_id db id) [ none ↦ failed not_created | some row ↦ done row db ]

-- `print` is `String` of a number, `allocation_id` the identifier of the allocation.
unfoldable pub create_once :
    (ℕ → String) → String → String → NewServer → ℕ → Database → Change ServerRow
create_once print allocation_id id input now db =
    insert_server (new_row id input now) db
    >=> (λ _ d. set_variable id "maxMemory" (print input.memory_mb) d)
    >=> (λ _ d. claim_port input.preferred_port d)
    >=> (λ port d. insert_allocation (primary allocation_id id port now) id d)
    >=> (λ _ d. created id d)

-- What an attempt comes to: only a violated unique index is tried again.
unfoldable pub settled : Change ServerRow → Change ServerRow → Change ServerRow
settled (done row after) again = done row after
settled (failed f) again = if is_unique_violation f then again else failed f

-- The loop, which throws the last violation in the end. The identifier of an allocation is made anew
-- for each attempt.
unfoldable pub attempts :
    (ℕ → String) → (ℕ → String) → String → NewServer → ℕ → Database → ℕ → Failure → Change ServerRow
unfolding settled
attempts print new_id id input now db zero last = failed last
attempts print new_id id input now db (suc left) last =
    let again = attempts print new_id id input now db left unique_violation in
    settled (create_once print (new_id left) id input now db) again

unfoldable pub create :
    (ℕ → String) → (ℕ → String) → String → NewServer → ℕ → Database → Change ServerRow
create print new_id id input now db = attempts print new_id id input now db 5 no_free_port
