-- ===== src/Auth/ApiKeys.antt =====
-- `ApiKeysRepo` of modules/auth/api-keys.ts: a token is `jtgsk.<identifier>.<secret>`. `JSON.parse`
-- and SHA-256 are parameters.
pub mod Checks
use renom.Prelude.{
  Bool, List, Option, String, Units, [], codes, false, if◌then◌else◌, is_none, is_some, leb, length,
  ltb, none, not, some, str_eq, units_eq, ℕ, ◌&&◌, ◌++◌, ◌==◌, ◌||◌, ◌∷◌,
}
use renom.JsText.Split.{split}
use renom.Json.{Json, arr, items}
use renom.Access.{strings}
use renom.Database.{Database, ApiKey}
use renom.Database.Change.{Change, done, demand, ◌>=>◌, unique_violation, foreign_key_violation}
use renom.Users.{by_id}
use renom.Database.Table.{select_first, update_where, count_where}

pub record ApiKeyPrincipal : Type 0 where
  pub user_id : String
  pub key_id : String
  pub scopes : List String

abbrev pub key_prefix : Units
key_prefix = codes "jtgsk"

-- The row of a new key; the identifiers and the secret are random.
abbrev pub new_key :
    (List String → String)
    → (Units → String)
    → String
    → String
    → Units
    → String
    → List String
    → String
    → Option ℕ
    → ℕ
    → ApiKey
new_key stringify sha256_hex id identifier secret user scopes memo expires_at now = record {
  id = id;
  identifier = identifier;
  token_hash = sha256_hex secret;
  scopes_json = stringify scopes;
  memo = memo;
  expires_at = expires_at;
  last_used_at = none;
  revoked_at = none;
  user_id = user;
  created_at = now;
}

-- `create`: the token that is shown once, and the row that holds the hash of its secret only.
unfoldable pub create :
    (List String → String)
    → (Units → String)
    → String
    → String
    → Units
    → String
    → List String
    → String
    → Option ℕ
    → ℕ
    → Database
    → Change (ApiKey × Units)
unfolding count_where
create stringify sha256_hex id identifier secret user scopes memo expires_at now db =
    let k = new_key stringify sha256_hex id identifier secret user scopes memo expires_at now in
    demand (count_where (λ x. str_eq x.id id || str_eq x.identifier identifier) db.api_keys == 0)
      unique_violation db
    >=> (λ _ d. demand (is_some (by_id d user)) foreign_key_violation d)
    >=> (λ _ d.
        done (k, key_prefix ++ b'.' ∷ codes identifier ++ b'.' ∷ secret)
          (record d { api_keys = d.api_keys ++ k ∷ [] }))

-- The identifier and the secret of a token.
unfoldable pub parts_of : List Units → Option (Units × Units)
parts_of (prefix ∷ identifier ∷ secret ∷ []) =
    if units_eq prefix key_prefix
      && ltb 0 (length identifier)
      && ltb 0 (length secret)
      && leb (length secret) 256
    then some (identifier, secret)
    else none
parts_of parts = none

unfoldable pub has_expired : ℕ → Option ℕ → Bool
has_expired now none = false
has_expired now (some t) = leb t now

unfoldable pub array_scopes : Option Json → Option (List String)
unfolding strings
array_scopes (some (arr vs)) = some (strings (items vs))
array_scopes parsed = none

abbrev pub has_identifier : Units → ApiKey → Bool
has_identifier identifier k = units_eq (codes k.identifier) identifier

-- The tests on the row of a key.
unfoldable pub is_valid_key : (Units → String) → ℕ → Units → ApiKey → Bool
unfolding has_expired
is_valid_key sha256_hex now secret k =
    is_none k.revoked_at
    && not (has_expired now k.expires_at)
    && str_eq (sha256_hex secret) k.token_hash

abbrev with_scopes : ApiKey → Option (List String) → Option (ApiKey × List String)
with_scopes k none = none
with_scopes k (some scopes) = some (k, scopes)

-- The key that a token opens, with its scopes.
unfoldable pub key_of :
    (String → Option Json)
    → (Units → String)
    → ℕ
    → Units
    → List ApiKey
    → Option (ApiKey × List String)
unfolding is_valid_key array_scopes select_first
key_of parse sha256_hex now token keys = elim (parts_of (split b'.' token)) [
  | none ↦ none
  | some found ↦ elim (select_first (has_identifier found.0) keys) [
    | none ↦ none
    | some k ↦
        if is_valid_key sha256_hex now found.1 k
        then with_scopes k (array_scopes (parse k.scopes_json))
        else none
  ]
]

abbrev pub principal_of : ApiKey × List String → ApiKeyPrincipal
principal_of (k, scopes) = record { user_id = k.user_id; key_id = k.id; scopes = scopes }

-- `verify`: a token that opens a key marks it as used.
unfoldable pub verify :
    (String → Option Json)
    → (Units → String)
    → ℕ
    → Units
    → Database
    → Option ApiKeyPrincipal × Database
unfolding update_where
verify parse sha256_hex now token db = elim (key_of parse sha256_hex now token db.api_keys) [
  | none ↦ (none, db)
  | some found ↦ (
    some (principal_of found),
    record db {
      api_keys =
          update_where (λ k. str_eq k.id (ApiKey.id found.0))
            (λ k. record k { last_used_at = some now }) db.api_keys;
    },
  )
]

abbrev pub is_open_key : String → String → ApiKey → Bool
is_open_key id user k = str_eq k.id id && str_eq k.user_id user && is_none k.revoked_at

unfoldable pub revoke : String → String → ℕ → Database → Bool × Database
unfolding update_where count_where
revoke id user now db = (
  count_where (is_open_key id user) db.api_keys == 1,
  record db {
    api_keys =
        update_where (is_open_key id user) (λ k. record k { revoked_at = some now }) db.api_keys;
  },
)
