-- ===== src/Tests/Users.antt =====
-- Tests of the repository of users.
use renom.Prelude.{[], none, refl, some, ◌∷◌, ◌≡◌}
use renom.Database.{Database, Server, User}
use renom.Database.Table.{count_where}
use renom.Database.Change.{done, failed, foreign_key_violation}
use renom.Servers.Rows.{count_owned, is_undeleted}
use renom.Users.{
  NewUser, new_user, by_id, by_username, create, create_first_owner, delete_cascade, delete_user,
  hand_over,
}
use renom.Users.Owner.{create_first_owner_once}
use renom.Users.Deletion.{HandedOver, owner_is, delete_cascade_gone}

abbrev empty : Database
empty = record {
  servers = [];
  users = [];
  blueprints = [];
  allocations = [];
  server_variables = [];
  subusers = [];
  api_keys = [];
  backups = [];
}

abbrev ann : NewUser
ann = record {
  username = "Ann";
  password_hash = some "hash";
  email = none;
  role = "owner";
  display_name = none;
  quota_max_servers = none;
  quota_ram_mb = none;
  quota_disk_mb = none;
}

abbrev bob : NewUser
bob = record ann { username = "bob"; role = "user" }

abbrev with_ann : Database
with_ann = record empty { users = new_user "u1" ann 1 ∷ [] }

abbrev with_both : Database
with_both = record empty { users = new_user "u1" ann 1 ∷ new_user "u2" bob 2 ∷ [] }

made : create "u2" bob 2 with_ann ≡ done (new_user "u2" bob 2) with_both
unfolding create
made = refl

case_kept : by_username with_both "BOB" ≡ some (new_user "u2" bob 2)
unfolding by_username
case_kept = refl

set_up : create_first_owner "u1" ann 1 empty ≡ done (some (new_user "u1" ann 1)) with_ann
unfolding create_first_owner create
set_up = refl

create_first_owner_once_example :
    (empty.users ≡ [])
    × (with_ann.users ≡ new_user "u1" ann 1 ∷ [])
    × (User.role (new_user "u1" ann 1) ≡ "owner")
    × (create_first_owner "u2" bob 2 with_ann ≡ done none with_ann)
create_first_owner_once_example = create_first_owner_once "u1" ann 1 empty "u2" bob 2 set_up

deleted : delete_cascade "u2" none 5 with_both ≡ done 0 with_ann
unfolding delete_cascade hand_over count_owned by_id delete_user
deleted = refl

delete_cascade_gone_example :
    (by_id with_ann "u2" ≡ none)
    × (count_where (owner_is "u2") with_ann.servers ≡ 0)
    × (by_id with_ann "u1" ≡ by_id with_both "u1")
    × HandedOver "u2" none 5 with_both 0 with_ann.servers
unfolding by_id
delete_cascade_gone_example = delete_cascade_gone "u2" "u1" none 5 with_both refl refl deleted

abbrev old_server : Server
old_server = record {
  id = "s1";
  name = "alpha";
  description = "";
  owner_id = "u2";
  blueprint_id = "b1";
  blueprint_version_tag = "v1";
  image_ref = "";
  node_id = "local";
  status = "deleted";
  runtime_state = some "offline";
  memory_mb = 1024;
  cpu_weight = 0;
  disk_quota_mb = 5120;
  eula_accepted_at = none;
  eula_ip = none;
  created_at = 1;
  updated_at = 1;
  deleted_at = some 3;
}

abbrev with_old : Database
with_old = record with_both { servers = old_server ∷ [] }

refused : delete_cascade "u2" (some "u1") 5 with_old ≡ failed foreign_key_violation
unfolding delete_cascade hand_over by_id delete_user is_undeleted
refused = refl
