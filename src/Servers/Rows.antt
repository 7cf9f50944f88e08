-- ===== src/Servers/Rows.antt =====
-- The queries of `ServersRepo` that read servers with their owners and blueprints, and the usage of
-- an owner.
use renom.Prelude.{
  Bool, List, Option, String, [], if◌then◌else◌, is_none, none, some, str_eq, ℕ, ◌&&◌, ◌+◌, ◌∷◌,
}
use renom.Database.{Database, Server, User, Blueprint}
use renom.Database.Table.{select_first, count_where}

pub record ServerRow : Type 0 where
  pub id : String
  pub name : String
  pub description : String
  pub owner_id : String
  pub owner_username : String
  pub blueprint_id : String
  pub blueprint_slug : String
  pub blueprint_category : String
  pub blueprint_version_tag : String
  pub image_ref : String
  pub node_id : String
  pub status : String
  pub runtime_state : Option String
  pub memory_mb : ℕ
  pub cpu_weight : ℕ
  pub disk_quota_mb : ℕ
  pub eula_accepted_at : Option ℕ
  pub created_at : ℕ
  pub updated_at : ℕ

-- `PUBLIC_COLUMNS` of a server with its owner and its blueprint.
abbrev pub public_columns : Server → User → Blueprint → ServerRow
public_columns s u b = record {
  id = s.id;
  name = s.name;
  description = s.description;
  owner_id = s.owner_id;
  owner_username = u.username;
  blueprint_id = s.blueprint_id;
  blueprint_slug = b.slug;
  blueprint_category = b.category;
  blueprint_version_tag = s.blueprint_version_tag;
  image_ref = s.image_ref;
  node_id = s.node_id;
  status = s.status;
  runtime_state = s.runtime_state;
  memory_mb = s.memory_mb;
  cpu_weight = s.cpu_weight;
  disk_quota_mb = s.disk_quota_mb;
  eula_accepted_at = s.eula_accepted_at;
  created_at = s.created_at;
  updated_at = s.updated_at;
}

abbrev pub user_row : Database → String → Option User
user_row db id = select_first (λ u. str_eq u.id id) db.users

abbrev pub blueprint_row : Database → String → Option Blueprint
blueprint_row db id = select_first (λ b. str_eq b.id id) db.blueprints

-- The two joins: a server without an owner or a blueprint is no row.
unfoldable pub joined : Database → Server → Option ServerRow
unfolding select_first
joined db s = elim (user_row db s.owner_id) [
  | none ↦ none
  | some u ↦ elim (blueprint_row db s.blueprint_id) [
    | none ↦ none
    | some b ↦ some (public_columns s u b)
  ]
]

-- `s.deleted_at IS NULL`.
unfoldable pub is_undeleted : Server → Bool
is_undeleted s = is_none s.deleted_at

abbrev pub has_id : String → Server → Bool
has_id id s = str_eq s.id id

unfoldable pub live_server : Database → String → Option Server
unfolding select_first is_undeleted
live_server db id = select_first (λ s. has_id id s && is_undeleted s) db.servers

unfoldable pub by_id : Database → String → Option ServerRow
by_id db id = elim (live_server db id) [ none ↦ none | some s ↦ joined db s ]

abbrev pub is_owned_by : String → Server → Bool
is_owned_by user s = str_eq s.owner_id user && is_undeleted s

unfoldable pub count_owned : Database → String → ℕ
unfolding count_where is_undeleted
count_owned db user = count_where (is_owned_by user) db.servers

pub record Usage : Type 0 where
  pub servers : ℕ
  pub memory_mb : ℕ
  pub disk_mb : ℕ

-- `COUNT(*)` and the two sums over the servers of an owner.
unfoldable pub usage_of : String → List Server → Usage
unfolding is_undeleted
usage_of user [] = record { servers = 0; memory_mb = 0; disk_mb = 0 }
usage_of user (s ∷ rows) =
    let u = usage_of user rows in
    if is_owned_by user s
    then record {
      servers = u.servers + 1;
      memory_mb = s.memory_mb + u.memory_mb;
      disk_mb = s.disk_quota_mb + u.disk_mb;
    }
    else u

unfoldable pub resource_usage : Database → String → Usage
resource_usage db user = usage_of user db.servers
