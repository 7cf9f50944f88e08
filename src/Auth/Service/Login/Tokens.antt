-- ===== src/Auth/Service/Login/Tokens.antt =====
-- The token of a login lets its user in.
use mathlib.Core.Option
use renom.Prelude.{
  Option, String, Units, ap, ap₂, arith, eq_iff, false, if◌then◌else◌, none, refl, some, str_eq,
  subst, sym, ℕ, ◌∙◌, ◌≡◌,
}
use renom.Errors.{ok}
use renom.Json.{Json}
use renom.Database.{Database, User}
use renom.Database.Table.{select_first-update_where}
use renom.Access.Gate.{Principal}
use renom.Users.{by_id, by_username, has_id, touch_last_login, update_user}
use renom.Auth.Service.{
  checked, AccessTokenClaims, Decoded, active_user, authenticate_token, by_token, claims_of,
  is_key_token, verify_access_token,
}
use renom.Auth.Service.Login.{AuthResult, LoginHost, LoginState, claims_for, login}
use renom.Auth.Service.Login.Outcomes.{LetIn, login-eq-ok, waited}

abbrev touched : ℕ → User → User
touched now u = record u { last_login_at = some now }

by_id-touch_last_login :
    (db : Database) (u : User) (now : ℕ)
    → by_id db u.id ≡ some u
    → by_id (touch_last_login u.id now db) u.id ≡ some (touched now u)
unfolding by_id update_user
by_id-touch_last_login db u now h =
    select_first-update_where (has_id u.id) (has_id u.id) (touched now) db.users (λ r. refl)
    ∙ ap (Option.map (λ r. if has_id u.id r then touched now r else r)) h
    ∙ rw ((eq_iff u.id u.id).1 refl) refl

-- The claims as they come back from a token.
abbrev pub decoded_claims : AccessTokenClaims → Decoded
decoded_claims c = record { sub = some c.sub; role = c.role; pwdv = some c.pwdv }

claims-of_decoded :
    (u : User) (current : Option ℕ)
    → str_eq u.id "" ≡ false
    → claims_of (decoded_claims (claims_for u)) current
      ≡ checked u.id u.role u.password_version current
unfolding claims_of
claims-of_decoded u current h = rw h refl

same_version :
    (u : User)
    → checked u.id u.role u.password_version (some u.password_version) ≡ some (claims_for u)
same_version u = ground arith

module _ (host : LoginHost) (decode : Units → Option Decoded) (u : User)
    (decoded : decode (host.sign (claims_for u)) ≡ some (decoded_claims (claims_for u)))
    (not_key : is_key_token (host.sign (claims_for u)) ≡ false)
    (named : str_eq u.id "" ≡ false) where
  verified :
      (current : Option ℕ)
      → verify_access_token decode (host.sign (claims_for u)) current
        ≡ checked u.id u.role u.password_version current
  unfolding verify_access_token
  verified current = rw (decoded, verify_access_token) (claims-of_decoded u current named)

  by_token-signed :
      (db : Database) (row : User)
      → active_user db u.id ≡ some row
      → row.password_version ≡ u.password_version
      → by_token decode (host.sign (claims_for u)) db
        ≡ some (record { user_id = row.id; role = row.role; api_key_id = none; scopes = none })
  unfolding by_token
  by_token-signed db row active version =
      let first = verified none in
      let second : verify_access_token decode (host.sign (claims_for u)) (some row.password_version)
          ≡ some (claims_for u) =
        ap (λ n. verify_access_token decode (host.sign (claims_for u)) (some n)) version
        ∙ verified (some u.password_version)
        ∙ same_version u in
      rw (first, by_token) (rw active (rw second refl))

  active-touched :
      (db : Database) (now : ℕ)
      → by_id db u.id ≡ some u
      → u.suspended ≡ 0
      → active_user (touch_last_login u.id now db) u.id ≡ some (touched now u)
  unfolding active_user
  active-touched db now h active =
      rw (by_id-touch_last_login db u now h, active_user) (ground (arith, active))

  not_key_signed :
      (parse : String → Option Json) (sha256_hex : Units → String) (at : ℕ) (db : Database)
      → authenticate_token decode parse sha256_hex at (host.sign (claims_for u)) db
        ≡ (by_token decode (host.sign (claims_for u)) db, db)
  unfolding authenticate_token
  not_key_signed parse sha256_hex at db = rw not_key refl

  -- The token of a login that returns lets its user in, with the role of the row, on the database
  -- that the login leaves; if the row of the user was not changed while the login waited, the token
  -- decodes to the claims that were signed and does not look like an API key, and the identifier is
  -- not empty.
  pub login-authenticate_token :
      (parse : String → Option Json) (sha256_hex : Units → String) (now later at : ℕ)
      (ip username password : String) (st st' : LoginState) (r : AuthResult)
      → by_username st.db username ≡ some u
      → by_id (LoginState.db (waited host now ip username st)) u.id ≡ some u
      → login host now later ip username password st ≡ (ok r, st')
      → authenticate_token decode parse sha256_hex at r.token st'.db ≡ (
        some (record { user_id = u.id; role = u.role; api_key_id = none; scopes = none }),
        st'.db,
      )
  login-authenticate_token parse sha256_hex now later at ip username password st st' r found kept
        h =
      let slept = waited host now ip username st in
      let (_, v, found', inside) = login-eq-ok host now later ip username password st st' r h in
      let same : v ≡ u = ground (arith, found, found') in
      let (active, _, result, after) =
        subst (λ (x : User). LetIn host later x password slept r st') same inside in
      let principal : Principal = record {
        user_id = u.id;
        role = u.role;
        api_key_id = none;
        scopes = none;
      } in
      let db = touch_last_login u.id later slept.db in
      let token : r.token ≡ host.sign (claims_for u) = ap (λ (x : AuthResult). x.token) result in
      let left : st'.db ≡ db = ap (λ (x : LoginState). x.db) after in
      ap₂ (authenticate_token decode parse sha256_hex at) token left
      ∙ not_key_signed parse sha256_hex at db
      ∙ ap (λ (p : Option Principal). (p, db))
          (by_token-signed db (touched later u) (active-touched slept.db later kept active) refl)
      ∙ ap (λ (d : Database). (some principal, d)) (sym left)
