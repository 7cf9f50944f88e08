-- ===== src/Auth/Service/Login.antt =====
-- `login` of modules/auth/service.ts, which joins the rate limiter, the users, bcrypt, the tokens and
-- the audit log.
pub mod Outcomes
pub mod Tokens
use renom.Prelude.{
  Bool, List, Option, String, Units, [], false, if◌then◌else◌, none, not, some, ℕ, ◌&&◌, ◌++◌, ◌==◌,
  ◌∷◌,
}
use Prim.Native.String.{◌++◌ as append_text}
use renom.Errors.{AppError, Result, ok, err, rate_limit, unauthorized}
use renom.Database.{Database, User}
use renom.Users.{by_username, touch_last_login, update_user, verify_password}
use renom.Auth.RateLimit.{RateLimiter, Verdict, take}
use renom.Auth.Service.{AccessTokenClaims}

-- `auth.login.fail` with the user, if there is one of the name, and `auth.login.success`.
pub data LoginEvent : Type 0 where
  login_fail : Option String → LoginEvent
  login_success : String → LoginEvent

pub record LoginState : Type 0 where
  pub limiter : RateLimiter
  pub db : Database
  pub audit : List LoginEvent

pub record PublicUser : Type 0 where
  pub id : String
  pub username : String
  pub role : String
  pub display_name : String
  pub email : Option String

abbrev pub to_public_user : User → PublicUser
to_public_user u = record {
  id = u.id;
  username = u.username;
  role = u.role;
  display_name = u.display_name;
  email = u.email;
}

pub record AuthResult : Type 0 where
  pub token : Units
  pub user : PublicUser

-- `lower` is `toLowerCase`, `compare` is bcrypt, `sign` is `jwt.sign` with the secret, and `sleep` is
-- what others do in the 200 ms that each answer waits for.
pub record LoginHost : Type 0 where
  pub lower : String → String
  pub compare : String → String → Option Bool
  pub sign : AccessTokenClaims → Units
  pub sleep : LoginState → LoginState

abbrev pub limit_key : LoginHost → String → String → String
limit_key host ip username =
    append_text "login:" (append_text ip (append_text ":" (host.lower username)))

-- `ok` of a name: a user who is not suspended, with the right password.
unfoldable pub passes : LoginHost → Option User → String → Bool
passes host none password = false
passes host (some u) password = u.suspended == 0 && verify_password host.compare u password

abbrev pub record_login : LoginEvent → LoginState → LoginState
record_login event st = record st { audit = st.audit ++ event ∷ [] }

abbrev pub claims_for : User → AccessTokenClaims
claims_for u = record { sub = u.id; role = u.role; pwdv = u.password_version }

unfoldable pub granted : LoginHost → ℕ → User → LoginState → Result AuthResult × LoginState
unfolding update_user
granted host now u st = (
  ok (record { token = host.sign (claims_for u); user = to_public_user u }),
  record_login (login_success u.id) (record st { db = touch_last_login u.id now st.db }),
)

abbrev pub id_of : Option User → Option String
id_of none = none
id_of (some u) = some u.id

-- The end of the call: what was found before the wait is what counts.
unfoldable pub answer :
    LoginHost → ℕ → Option User → String → LoginState → Result AuthResult × LoginState
unfolding passes granted
answer host now none password st = (err unauthorized, record_login (login_fail none) st)
answer host now (some u) password st =
    if passes host (some u) password && not (u.suspended == 1)
    then granted host now u st
    else (err unauthorized, record_login (login_fail (some u.id)) st)

-- `now` is the time of the limiter, `later` that of `touchLastLogin`.
unfoldable pub login :
    LoginHost → ℕ → ℕ → String → String → String → LoginState → Result AuthResult × LoginState
unfolding answer
login host now later ip username password st =
    let limit = take st.limiter (limit_key host ip username) now in
    let st' = record st { limiter = limit.0 } in
    if limit.1.limited
    then (err (rate_limit limit.1.retry_after_sec), st')
    else answer host later (by_username st.db username) password (host.sleep st')
