-- ===== src/Tests/Tokens.antt =====
-- Tests of API keys and access tokens.
use renom.Prelude.{
  Option, String, Units, [], arith, codes, if◌then◌else◌, none, refl, some, str_eq, units_eq, ◌∷◌,
  ◌≡◌,
}
use renom.JsText.Split.{split}
use renom.JsText.{starts_with}
use renom.Json.{Json, arr, nil}
use renom.Database.{Database, User, ApiKey}
use renom.Database.Change.{done}
use renom.Users.{by_id, bump_password_version}
use renom.Auth.ApiKeys.{key_of, parts_of, revoke, verify}
use renom.Auth.ApiKeys.Checks.{IsOpened, verify-IsOpened}
use renom.Auth.Service.{
  Decoded, IsActive, active_user, authenticate_token, authenticate_token-IsActive, by_token,
  claims_of, verify_access_token,
}
use renom.Auth.Service.Sessions.{bump-authenticate_token}

abbrev bob : User
bob = record {
  id = "u2";
  username = "bob";
  password_hash = none;
  email = none;
  role = "user";
  display_name = "Bob";
  quota_max_servers = 5;
  quota_ram_mb = 8192;
  quota_disk_mb = 40960;
  password_version = 0;
  suspended = 0;
  last_login_at = none;
  created_at = 1;
  updated_at = 1;
}

abbrev key : ApiKey
key = record {
  id = "k1";
  identifier = "id1";
  token_hash = "hash";
  scopes_json = "[]";
  memo = "";
  expires_at = some 100;
  last_used_at = none;
  revoked_at = none;
  user_id = "u2";
  created_at = 1;
}

abbrev db : Database
db = record {
  servers = [];
  users = bob ∷ [];
  blueprints = [];
  allocations = [];
  server_variables = [];
  subusers = [];
  api_keys = key ∷ [];
  backups = [];
}

abbrev parse : String → Option Json
parse text = if str_eq text "[]" then some (arr nil) else none

abbrev sha256_hex : Units → String
sha256_hex secret = if units_eq secret (codes "s3cret") then "hash" else "other"

abbrev decode : Units → Option Decoded
decode token =
    if units_eq token (codes "signed")
    then some (record { sub = some "u2"; role = "user"; pwdv = some 0 })
    else none

abbrev used : Database
used = record db { api_keys = record key { last_used_at = some 9 } ∷ [] }

let_in :
    verify parse sha256_hex 9 (codes "jtgsk.id1.s3cret") db
    ≡ (some (record { user_id = "u2"; key_id = "k1"; scopes = [] }), used)
unfolding verify key_of parts_of split
let_in = refl

verify-IsOpened_example :
    (k : ApiKey) × IsOpened sha256_hex 9 (codes "jtgsk.id1.s3cret") db.api_keys k
    × ("u2" ≡ ApiKey.user_id k)
    × ("k1" ≡ ApiKey.id k)
verify-IsOpened_example = verify-IsOpened parse sha256_hex 9 (codes "jtgsk.id1.s3cret") db let_in

abbrev two : Database
two = record db { api_keys = key ∷ record key { id = "k2"; identifier = "id2" } ∷ [] }

abbrev two_used : Database
two_used = record db {
  api_keys =
      record key { revoked_at = some 8 }
      ∷ record key { id = "k2"; identifier = "id2"; last_used_at = some 9 }
      ∷ [];
}

other_let_in :
    verify parse sha256_hex 9 (codes "jtgsk.id2.s3cret") ((revoke "k1" "u2" 8 two).1)
    ≡ (some (record { user_id = "u2"; key_id = "k2"; scopes = [] }), two_used)
unfolding verify key_of parts_of split revoke
other_let_in = refl

refused :
    verify parse sha256_hex 9 (codes "jtgsk.id1.s3cret") ((revoke "k1" "u2" 8 two).1)
    ≡ (none, (revoke "k1" "u2" 8 two).1)
unfolding verify key_of parts_of split revoke
refused = refl

authenticated :
    authenticate_token decode parse sha256_hex 9 (codes "signed") db
    ≡ (some (record { user_id = "u2"; role = "user"; api_key_id = none; scopes = none }), db)
unfolding authenticate_token by_token verify_access_token claims_of active_user by_id starts_with
authenticated = refl

authenticate_token-IsActive_example :
    IsActive db (record { user_id = "u2"; role = "user"; api_key_id = none; scopes = none })
authenticate_token-IsActive_example =
    authenticate_token-IsActive decode parse sha256_hex 9 (codes "signed") db authenticated

abbrev bumped_db : Database
bumped_db = record db { users = record bob { password_version = 1; updated_at = 5 } ∷ [] }

bumped : bump_password_version "u2" 5 db ≡ done 1 bumped_db
unfolding bump_password_version by_id
bumped = refl

bump-authenticate_token_example :
    authenticate_token decode parse sha256_hex 9 (codes "signed") bumped_db ≡ (none, bumped_db)
unfolding by_id starts_with
bump-authenticate_token_example =
    bump-authenticate_token decode parse sha256_hex 5 9 (codes "signed") "u2"
      (record { sub = some "u2"; role = "user"; pwdv = some 0 }) 0 bob db refl refl refl refl refl
      (omega arith) bumped
