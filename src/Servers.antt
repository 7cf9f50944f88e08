-- ===== src/Servers.antt =====
-- `ServersRepo` of modules/servers/repo.ts. Times, identifiers and the decimal print of numbers are
-- handed in. The table `nodes` is left out: a server stands on the node "local", which is always there.
pub mod Rows
pub mod Ports
pub mod Create
pub mod Variables
pub mod Removal
use renom.Prelude.{
  Bool, List, Option, String, [], any, false, if◌then◌else◌, is_none, is_some, ltb, map, none, not,
  some, str_eq, true, ℕ, ◌&&◌, ◌==◌, ◌||◌, ◌∷◌,
}
use mathlib.Core.Option
use renom.Database.{Database, Server, Allocation, Variable}
use renom.Database.Table.{select_first, update_where, count_where}
use Rows.{ServerRow, is_undeleted, has_id, blueprint_row, by_id}
use renom.Database.Change.{
  Change, done, failed, demand, ◌>=>◌, check_violation, foreign_key_violation, unique_violation,
}

-- The server of a variable or of an allocation has a row, which may be one of a deleted server.
unfoldable pub has_server : Database → String → Bool
unfolding count_where
has_server db id = ltb 0 (count_where (has_id id) db.servers)

abbrev pub is_variable : String → String → Variable → Bool
is_variable id key v = str_eq v.server_id id && str_eq v.key key

-- `INSERT … ON CONFLICT(server_id, key) DO UPDATE SET value = excluded.value`.
unfoldable pub upsert : String → String → String → List Variable → List Variable
upsert id key value [] = record { server_id = id; key = key; value = value } ∷ []
upsert id key value (v ∷ rows) =
    let rest = upsert id key value rows in
    if is_variable id key v then record v { value = value } ∷ rows else v ∷ rest

-- The partial unique index of migration 4: no other server has this value as its tunnel's endpoint.
abbrev is_endpoint_of_other : String → String → Variable → Bool
is_endpoint_of_other id value v =
    str_eq v.key "tunnel.endpoint" && str_eq v.value value && not (str_eq v.server_id id)

unfoldable pub is_free_value : String → String → String → Database → Bool
unfolding count_where
is_free_value id key value db =
    not (str_eq key "tunnel.endpoint")
    || count_where (is_endpoint_of_other id value) db.server_variables == 0

unfoldable pub set_variable : String → String → String → Database → Change (Unit {0})
unfolding is_free_value
set_variable id key value db =
    demand (is_free_value id key value db) unique_violation db
    >=> (λ _ d. demand (has_server d id) foreign_key_violation d)
    >=> (λ _ d. done tt (record d { server_variables = upsert id key value d.server_variables }))

-- The value of a variable.
unfoldable pub variable : Database → String → String → Option String
unfolding select_first
variable db id key =
    Option.map Variable.value (select_first (is_variable id key) db.server_variables)

-- `current !== undefined && current !== expected` has it refused; an `expected` of null is `none`.
unfoldable pub is_unchanged : Option String → Option String → Bool
is_unchanged none expected = true
is_unchanged (some current) none = false
is_unchanged (some current) (some expected) = str_eq current expected

unfoldable pub set_variable_if_unchanged :
    String → String → String → Option String → Database → Change Bool
unfolding is_unchanged
set_variable_if_unchanged id key value expected db =
    if is_unchanged (variable db id key) expected
    then set_variable id key value db >=> (λ _ d. done true d)
    else done false db

-- The statements `UPDATE servers SET … WHERE id = ?`.
unfoldable pub update_server : String → (Server → Server) → Database → Database
unfolding update_where
update_server id f db = record db { servers = update_where (has_id id) f db.servers }

-- The `CHECK` of the column `status`, and of `runtime_state`.
abbrev pub is_status : String → Bool
is_status s = any (str_eq s) (
    "creating" ∷ "installing" ∷ "install_failed" ∷ "ready" ∷ "suspended" ∷ "restoring" ∷ "updating"
    ∷ "deleted" ∷ [])

abbrev pub is_runtime_state : Option String → Bool
is_runtime_state none = true
is_runtime_state (some s) = any (str_eq s) ("offline" ∷ "starting" ∷ "running" ∷ "stopping" ∷ [])

unfoldable pub set_status : String → String → ℕ → Database → Change (Unit {0})
unfolding update_server
set_status id status now db =
    demand (is_status status || not (has_server db id)) check_violation db
    >=> (λ _ d. done tt (update_server id (λ s. record s { status = status; updated_at = now }) d))

unfoldable pub set_runtime_state : String → Option String → ℕ → Database → Change (Unit {0})
unfolding update_server
set_runtime_state id state now db =
    demand (is_runtime_state state || not (has_server db id)) check_violation db >=> (λ _ d.
      done tt (update_server id (λ s. record s { runtime_state = state; updated_at = now }) d))

-- `ip` is none for null.
abbrev pub record_eula : String → Option String → ℕ → Database → Database
record_eula id ip now =
    update_server id (λ s. record s { eula_accepted_at = some now; eula_ip = ip; updated_at = now })

pub record ServerPatch : Type 0 where
  pub name : Option String
  pub description : Option String
  pub memory_mb : Option ℕ
  pub disk_quota_mb : Option ℕ
  pub cpu_weight : Option ℕ

abbrev pub or_old {ℓ} : {A : Type ℓ} → Option A → A → A
or_old none old = old
or_old (some new) old = new

unfoldable pub is_empty_patch : ServerPatch → Bool
is_empty_patch p =
    is_none p.name
    && is_none p.description
    && is_none p.memory_mb
    && is_none p.disk_quota_mb
    && is_none p.cpu_weight

abbrev pub patched : ServerPatch → ℕ → Server → Server
patched p now s = record s {
  name = or_old p.name s.name;
  description = or_old p.description s.description;
  memory_mb = or_old p.memory_mb s.memory_mb;
  disk_quota_mb = or_old p.disk_quota_mb s.disk_quota_mb;
  cpu_weight = or_old p.cpu_weight s.cpu_weight;
  updated_at = now;
}

-- The flag of the JVM follows the memory of the plan.
unfoldable pub set_memory_flag : (ℕ → String) → String → Option ℕ → Database → Change (Unit {0})
set_memory_flag print id none db = done tt db
set_memory_flag print id (some memory) db = set_variable id "maxMemory" (print memory) db

unfoldable pub update :
    (ℕ → String) → String → ServerPatch → ℕ → Database → Change (Option ServerRow)
unfolding is_empty_patch update_server set_memory_flag
update print id p now db =
    if is_empty_patch p
    then done (by_id db id) db
    else set_memory_flag print id p.memory_mb (update_server id (patched p now) db)
      >=> (λ _ d. done (by_id d id) d)

unfoldable pub update_blueprint :
    String → String → String → String → ℕ → Database → Change (Option ServerRow)
unfolding is_undeleted update_where select_first
update_blueprint id blueprint version image now db =
    let rows =
      update_where (λ s. has_id id s && is_undeleted s)
        (λ s. record s {
          blueprint_id = blueprint;
          blueprint_version_tag = version;
          image_ref = image;
          updated_at = now;
        })
        db.servers in
    let touched = ltb 0 (count_where (λ s. has_id id s && is_undeleted s) db.servers) in
    let known = is_some (blueprint_row db blueprint) in
    demand (not touched || known) foreign_key_violation (record db { servers = rows })
    >=> (λ _ d. done (by_id d id) d)

-- `server_id = ?`, which a null fails.
abbrev pub has_owner : String → Option String → Bool
has_owner id none = false
has_owner id (some server) = str_eq server id

-- Soft delete: the row stays, the allocations are released.
unfoldable pub release_of : String → ℕ → Allocation → Allocation
release_of id now a =
    if has_owner id a.server_id
    then record a { server_id = none; released = 1; updated_at = now }
    else a

unfoldable pub release_all : String → ℕ → List Allocation → List Allocation
unfolding release_of
release_all id now [] = []
release_all id now (a ∷ rows) = release_of id now a ∷ release_all id now rows

unfoldable pub remove : String → ℕ → Database → Database
unfolding update_server release_all
remove id now db =
    let d =
      update_server id
        (λ s. record s { status = "deleted"; deleted_at = some now; updated_at = now }) db in
    record d { allocations = release_all id now d.allocations }
