-- ===== src/Tests/Login.antt =====
-- Tests of the login.
use renom.Prelude.{[], codes, false, none, refl, some, str_eq, true, ◌∷◌, ◌≡◌, ◌⊎◌}
use renom.JsMap
use renom.JsText.{starts_with}
use renom.Errors.{ok, err, rate_limit, unauthorized}
use renom.Database.{User}
use renom.Users.{by_id, by_username, touch_last_login, verify_password}
use renom.Auth.RateLimit.{take}
use renom.Auth.Service.{authenticate_token}
use renom.Auth.Service.Login.{
  AuthResult, LoginHost, LoginState, claims_for, granted, login, login_fail, login_success,
  record_login, to_public_user,
}
use renom.Auth.Service.Login.Outcomes.{IsTurnedAway, Refused, login-eq-err, waited}
use renom.Auth.Service.Login.Tokens.{decoded_claims, login-authenticate_token}

abbrev ann : User
ann = record {
  id = "u1";
  username = "ann";
  password_hash = some "secret";
  email = none;
  role = "owner";
  display_name = "Ann";
  quota_max_servers = 5;
  quota_ram_mb = 8192;
  quota_disk_mb = 40960;
  password_version = 0;
  suspended = 0;
  last_login_at = none;
  created_at = 1;
  updated_at = 1;
}

abbrev host : LoginHost
host = record {
  lower = λ s. s;
  compare = λ password hash. some (str_eq password hash);
  sign = λ c. codes "eyJ";
  sleep = λ st. st;
}

abbrev start : LoginState
start = record {
  limiter = record { max = 5; window_ms = 60000; max_keys = 9; last_sweep = 0; buckets = [] };
  db = record {
    servers = [];
    users = ann ∷ [];
    blueprints = [];
    allocations = [];
    server_variables = [];
    subusers = [];
    api_keys = [];
    backups = [];
  };
  audit = [];
}

abbrev counted : LoginState
counted = waited host 1000 "::1" "ANN" start

abbrev logged_in : LoginState
logged_in =
    record_login (login_success "u1")
      (record counted { db = touch_last_login "u1" 1200 counted.db })

abbrev result : AuthResult
result = record { token = codes "eyJ"; user = to_public_user ann }

lets_in : login host 1000 1200 "::1" "ANN" "secret" start ≡ (ok result, logged_in)
unfolding login take by_username verify_password granted JsMap.get
lets_in = refl

login-authenticate_token_example :
    authenticate_token
      (λ t. some (decoded_claims (claims_for ann)))
      (λ s. none)
      (λ t. "")
      1300
      (codes "eyJ")
      logged_in.db
    ≡ (
      some (record { user_id = "u1"; role = "owner"; api_key_id = none; scopes = none }),
      logged_in.db,
    )
unfolding by_username by_id take starts_with
login-authenticate_token_example =
    login-authenticate_token host (λ t. some (decoded_claims (claims_for ann))) ann refl refl refl
      (λ s. none) (λ t. "") 1000 1200 1300 "::1" "ANN" "secret" start logged_in result refl refl
      lets_in

abbrev refused_login : LoginState
refused_login = record_login (login_fail (some "u1")) counted

keeps_out : login host 1000 1200 "::1" "ANN" "guess" start ≡ (err unauthorized, refused_login)
unfolding login take by_username verify_password JsMap.get
keeps_out = refl

login-eq-err_example :
    (((take start.limiter "login:::1:ANN" 1000).1.limited ≡ true)
      × (unauthorized ≡ rate_limit (take start.limiter "login:::1:ANN" 1000).1.retry_after_sec)
      × (refused_login ≡ record start { limiter = (take start.limiter "login:::1:ANN" 1000).0 }))
    ⊎ (((take start.limiter "login:::1:ANN" 1000).1.limited ≡ false)
        × IsTurnedAway host (by_username start.db "ANN") "guess"
        × Refused (by_username start.db "ANN") counted unauthorized refused_login)
login-eq-err_example =
    login-eq-err host 1000 1200 "::1" "ANN" "guess" start refused_login unauthorized keeps_out
