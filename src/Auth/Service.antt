-- ===== src/Auth/Service.antt =====
-- `verifyAccessToken` of modules/auth/jwt.ts and `authenticateToken` of modules/auth/service.ts. The
-- library behind `jwt.verify` is the parameter `decode`: the claims of a token that is signed with the
-- secret by the right issuer and has not expired, none where it throws or returns a string.
pub mod Sessions
pub mod Login
use renom.Prelude.{
  Bool, Bool-cases, Option, Option-cases, String, Units, ap, arith, codes, eq_iff, false,
  if◌then◌else◌, inl, inr, none, some, str_eq, subst, sym, ℕ, ◌==◌, ◌∙◌, ◌≡◌,
}
use renom.JsText.{starts_with}
use renom.Json.{Json}
use renom.Database.{Database, User, ApiKey}
use renom.Database.Table.{
  select_first, select_first_passes, select_first-update_where, update_where,
}
use renom.Database.Change.{Change, done, failed}
use renom.Access.Gate.{Principal}
use renom.Users.{has_id, by_id, update_user, bump_password_version}
use renom.Auth.ApiKeys.{ApiKeyPrincipal, key_prefix, verify}

-- The claims as they stand in the token. `pwdv` is none if it is no number.
pub record Decoded : Type 0 where
  pub sub : Option String
  pub role : String
  pub pwdv : Option ℕ

pub record AccessTokenClaims : Type 0 where
  pub sub : String
  pub role : String
  pub pwdv : ℕ

abbrev pub checked : String → String → ℕ → Option ℕ → Option AccessTokenClaims
checked sub role pwdv none = some (record { sub = sub; role = role; pwdv = pwdv })
checked sub role pwdv (some current) =
    if pwdv == current then some (record { sub = sub; role = role; pwdv = pwdv }) else none

-- The claims with a subject and a version, which is the current one if that is given.
unfoldable pub claims_of : Decoded → Option ℕ → Option AccessTokenClaims
claims_of d current = elim d.sub [
  | none ↦ none
  | some sub ↦ elim d.pwdv [
    | none ↦ none
    | some pwdv ↦ if str_eq sub "" then none else checked sub d.role pwdv current
  ]
]

unfoldable pub verify_access_token :
    (Units → Option Decoded) → Units → Option ℕ → Option AccessTokenClaims
verify_access_token decode token current = elim (decode token) [
  | none ↦ none
  | some d ↦ claims_of d current
]

-- The user of an identifier who may act.
unfoldable pub active_user : Database → String → Option User
active_user db id = elim (by_id db id) [
  | none ↦ none
  | some u ↦ if u.suspended == 1 then none else some u
]

abbrev pub is_key_token : Units → Bool
is_key_token token = starts_with token (codes "jtgsk.")

-- A request with an API key.
abbrev by_key : Option ApiKeyPrincipal → Database → Option Principal
by_key none db = none
by_key (some key) db = elim (active_user db key.user_id) [
  | none ↦ none
  | some u ↦ some (record {
    user_id = u.id;
    role = u.role;
    api_key_id = some key.key_id;
    scopes = some key.scopes;
  })
]

-- A request with an access token, which is verified again with the version of its user.
unfoldable pub by_token : (Units → Option Decoded) → Units → Database → Option Principal
by_token decode token db = elim (verify_access_token decode token none) [
  | none ↦ none
  | some claims ↦ elim (active_user db claims.sub) [
    | none ↦ none
    | some u ↦ elim (verify_access_token decode token (some u.password_version)) [
      | none ↦ none
      | some current ↦
          some (record { user_id = u.id; role = u.role; api_key_id = none; scopes = none })
    ]
  ]
]

-- The principal of a token, and the database with the key marked as used. The service has the keys.
unfoldable pub authenticate_token :
    (Units → Option Decoded)
    → (String → Option Json)
    → (Units → String)
    → ℕ
    → Units
    → Database
    → Option Principal × Database
authenticate_token decode parse sha256_hex now token db =
    if is_key_token token
    then (
      by_key (verify parse sha256_hex now token db).0 (verify parse sha256_hex now token db).1,
      (verify parse sha256_hex now token db).1,
    )
    else (by_token decode token db, db)

pub active_user-some :
    (db : Database) (id : String) (u : User)
    → active_user db id ≡ some u
    → (by_id db id ≡ some u) × ((u.suspended == 1) ≡ false)
unfolding active_user
active_user-some db id u h = elim (Option-cases (by_id db id)) [
  | inl e ↦ absurd (ground (arith, e))
  | inr (v, e) ↦ elim (Bool-cases (v.suspended == 1)) [
    | inl s ↦ absurd (ground (arith, e, s))
    | inr s ↦
        let same : v ≡ u = ground (arith, e, s, h) in
        (e ∙ ap some same, ap (λ (x : User). x.suspended == 1) (sym same) ∙ s)
  ]
]

by_id-id : (db : Database) (id : String) (u : User) → by_id db id ≡ some u → u.id ≡ id
unfolding by_id
by_id-id db id u h = (eq_iff u.id id).0 (select_first_passes (has_id id) db.users u h)

-- A user who may act, with the role of the row.
abbrev pub IsActive : Database → Principal → Type 0
IsActive db p =
    (u : User) × (by_id db p.user_id ≡ some u) × ((u.suspended == 1) ≡ false) × (p.role ≡ u.role)

active_user-IsActive :
    (db : Database) (id : String) (u : User) (p : Principal)
    → active_user db id ≡ some u
    → p.user_id ≡ u.id
    → p.role ≡ u.role
    → IsActive db p
active_user-IsActive db id u p h same role =
    let (found, active) = active_user-some db id u h in
    (u, ap (by_id db) (same ∙ by_id-id db id u found) ∙ found, active, role)

by_key-IsActive :
    (key : Option ApiKeyPrincipal) (db : Database) (p : Principal)
    → by_key key db ≡ some p
    → IsActive db p
by_key-IsActive none db p h = absurd (ground arith)
by_key-IsActive (some key) db p h = elim (Option-cases (active_user db key.user_id)) [
  | inl e ↦ absurd (ground (arith, e))
  | inr (u, e) ↦
      active_user-IsActive db key.user_id u p e (ground (arith, e, h)) (ground (arith, e, h))
]

by_token-IsActive :
    (decode : Units → Option Decoded) (token : Units) (db : Database) (p : Principal)
    → by_token decode token db ≡ some p
    → IsActive db p
unfolding by_token
by_token-IsActive decode token db p h =
    elim (Option-cases (verify_access_token decode token none)) [
      | inl e ↦ absurd (ground (arith, e))
      | inr (claims, e) ↦ elim (Option-cases (active_user db claims.sub)) [
        | inl a ↦ absurd (ground (arith, e, a))
        | inr (u, a) ↦
            elim (Option-cases (verify_access_token decode token (some u.password_version))) [
              | inl v ↦ absurd (ground (arith, e, a, v))
              | inr (c, v) ↦
                  active_user-IsActive db claims.sub u p a (ground (arith, e, a, v, h))
                    (ground (arith, e, a, v, h))
            ]
      ]
    ]

-- Who is let in by a token, of either kind, is a user of the database as it is then, who is not
-- suspended, in the role that the row has now.
pub authenticate_token-IsActive :
    (decode : Units → Option Decoded) (parse : String → Option Json) (sha256_hex : Units → String)
    (now : ℕ) (token : Units) (db : Database) {p : Principal} {after : Database}
    → authenticate_token decode parse sha256_hex now token db ≡ (some p, after)
    → IsActive after p
unfolding authenticate_token
authenticate_token-IsActive decode parse sha256_hex now token db {p} {after} h =
    elim (Bool-cases (is_key_token token)) [
      | inl e ↦
          let v = verify parse sha256_hex now token db in
          let end : v.1 ≡ after = ground (arith, e, h) in
          let found : by_key v.0 v.1 ≡ some p = ground (arith, e, h) in
          subst (λ d. IsActive d p) end (by_key-IsActive v.0 v.1 p found)
      | inr e ↦
          let end : db ≡ after = ground (arith, e, h) in
          let found : by_token decode token db ≡ some p = ground (arith, e, h) in
          subst (λ d. IsActive d p) end (by_token-IsActive decode token db p found)
    ]
