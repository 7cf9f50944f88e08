-- ===== src/Tests/Access.antt =====
-- Tests of the access rules.
use renom.Prelude.{
  All, List, Option, String, [], if◌then◌else◌, none, refl, some, str_eq, ◌&&◌, ◌∷◌, ◌≡◌,
}
use renom.Errors.{not_found, ok, err}
use renom.Json.{Json, str, arr, nil, cons, num}
use renom.Database.{Server, Database}
use renom.Database.Table.{select_first}
use renom.Access.{has_permission, resolve_effective_permissions}
use renom.Access.Gate.{Principal, intersect_scopes, authorize_server_request}
use renom.Access.Grants.{has_permission-intersect_scopes}
use renom.Access.Decisions.{
  Allowed, IsStranger, authorize_sound, authorize_complete, authorize_stranger,
}

-- A parser that knows one text.
abbrev parse : String → Option Json
parse text =
    if str_eq text "[\"file.read\"]"
    then some (arr (cons (str "file.read") (cons num nil)))
    else none

abbrev alpha : Server
alpha = record {
  id = "s1";
  name = "alpha";
  description = "";
  owner_id = "u1";
  blueprint_id = "b1";
  blueprint_version_tag = "v1";
  image_ref = "";
  node_id = "local";
  status = "ready";
  runtime_state = some "offline";
  memory_mb = 1024;
  cpu_weight = 0;
  disk_quota_mb = 5120;
  eula_accepted_at = none;
  eula_ip = none;
  created_at = 1;
  updated_at = 1;
  deleted_at = none;
}

abbrev db : Database
db = record {
  servers = alpha ∷ [];
  users = [];
  blueprints = [];
  allocations = [];
  server_variables = [];
  subusers =
      record {
        user_id = "u2";
        server_id = "s1";
        permissions_json = "[\"file.read\"]";
        granted_by = "u1";
        created_at = 2;
      }
      ∷ [];
  api_keys = [];
  backups = [];
}

abbrev helper : Principal
helper = record { user_id = "u2"; role = "user"; api_key_id = none; scopes = some ("*" ∷ []) }

abbrev stranger : Principal
stranger = record { user_id = "u3"; role = "user"; api_key_id = none; scopes = none }

abbrev reading : List String
reading = "file.read" ∷ []

let_in :
    authorize_server_request parse db (some helper) "GET" "s1" (some reading) ≡ ok (alpha, reading)
unfolding authorize_server_request resolve_effective_permissions
let_in = refl

has_permission-intersect_scopes_example :
    has_permission (intersect_scopes ("*" ∷ []) (some reading)) "file.read"
    ≡ (has_permission ("*" ∷ []) "file.read" && has_permission reading "file.read")
has_permission-intersect_scopes_example =
    has_permission-intersect_scopes ("*" ∷ []) reading "file.read"

authorize_sound_example :
    (alpha.id ≡ "s1")
    × (alpha.deleted_at ≡ none)
    × All
        (Allowed (resolve_effective_permissions parse db "u2" "user" "s1") (some ("*" ∷ [])))
        reading
authorize_sound_example = authorize_sound parse db helper "GET" "s1" reading alpha reading let_in

authorize_complete_example :
    authorize_server_request parse db (some helper) "POST" "s1" (some reading)
    ≡ ok (
      alpha,
      intersect_scopes (resolve_effective_permissions parse db "u2" "user" "s1") (some ("*" ∷ [])),
    )
unfolding select_first resolve_effective_permissions has_permission
authorize_complete_example =
    authorize_complete parse db helper "POST" "s1" "file.read" [] alpha refl ((refl, refl), tt)

ghost-IsStranger : IsStranger parse db "u3" "s1"
ghost-IsStranger = record { not_owner = ((λ e. refl), tt); no_grant = (refl, tt) }

authorize_stranger_example :
    authorize_server_request parse db (some stranger) "GET" "s1" none ≡ err not_found
unfolding select_first
authorize_stranger_example =
    authorize_stranger parse db stranger "GET" "s1" none refl ghost-IsStranger
