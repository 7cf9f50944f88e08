-- ===== src/Auth/ApiKeys/Checks.antt =====
-- What a token that is verified shows of its key, and keys that are revoked.
use renom.Prelude.{
  All, Bool-cases, List, Option, Option-cases, String, Units, [], ap, arith, eq_iff, false, inl,
  inr, is_none, none, refl, some, str_eq, sym, true, ℕ, ◌<◌, ◌∙◌, ◌∷◌, ◌≡◌, ◌≢◌,
}
use renom.JsText.Split.{split}
use renom.Json.{Json}
use renom.Database.{Database, ApiKey}
use renom.Database.Table.{select_first, select_first-All, update_where}
use renom.Auth.ApiKeys.{
  ApiKeyPrincipal, parts_of, has_identifier, has_expired, is_valid_key, array_scopes, key_of,
  verify, is_open_key, revoke,
}

-- A key without an expiry, or with one that is still to come.
abbrev pub IsUnexpired : ℕ → Option ℕ → Type 0
IsUnexpired now none = Unit {0}
IsUnexpired now (some t) = now < t

has_expired-IsUnexpired : (now : ℕ) (o : Option ℕ) → has_expired now o ≡ false → IsUnexpired now o
unfolding has_expired
has_expired-IsUnexpired now none h = tt
has_expired-IsUnexpired now (some t) h = ground arith

-- What holds of a key that a token opens.
pub record IsOpened (sha256_hex : Units → String) (now : ℕ) (token : Units) (keys : List ApiKey)
    (k : ApiKey) : Type 0 where
  pub identifier : Units
  pub secret : Units
  pub written : parts_of (split b'.' token) ≡ some (identifier, secret)
  pub row : select_first (has_identifier identifier) keys ≡ some k
  pub unrevoked : k.revoked_at ≡ none
  pub unexpired : IsUnexpired now k.expires_at
  pub hashed : sha256_hex secret ≡ k.token_hash

is_none-eq : (o : Option ℕ) → is_none o ≡ true → o ≡ none
is_none-eq none h = refl
is_none-eq (some t) h = absurd (ground arith)

pub key_of-IsOpened :
    (parse : String → Option Json) (sha256_hex : Units → String) (now : ℕ) (token : Units)
    (keys : List ApiKey) (k : ApiKey) (scopes : List String)
    → key_of parse sha256_hex now token keys ≡ some (k, scopes)
    → IsOpened sha256_hex now token keys k
unfolding key_of is_valid_key
key_of-IsOpened parse sha256_hex now token keys k scopes h =
    elim (Option-cases (parts_of (split b'.' token))) [
      | inl e ↦ absurd (ground (arith, e))
      | inr ((identifier, secret), written) ↦
          elim (Option-cases (select_first (has_identifier identifier) keys)) [
            | inl e ↦ absurd (ground (arith, e, written))
            | inr (r, row) ↦ elim (Bool-cases (is_valid_key sha256_hex now secret r)) [
              | inr e ↦ absurd (ground (arith, e, written, row))
              | inl valid ↦ elim (Option-cases (array_scopes (parse r.scopes_json))) [
                | inl e ↦ absurd (ground (arith, e, valid, written, row))
                | inr (s, read) ↦
                    let same : r ≡ k = ground (arith, written, row, valid, read, h) in
                    record {
                      identifier = identifier;
                      secret = secret;
                      written = written;
                      row = row ∙ ap some same;
                      unrevoked = is_none-eq k.revoked_at (
                          ap (λ (x : ApiKey). is_none x.revoked_at) (sym same)
                          ∙ ground (arith, valid));
                      unexpired = has_expired-IsUnexpired now k.expires_at (
                          ap (λ (x : ApiKey). has_expired now x.expires_at) (sym same)
                          ∙ ground (arith, valid));
                      hashed = (eq_iff (sha256_hex secret) k.token_hash).0 (
                          ap (λ (x : ApiKey). str_eq (sha256_hex secret) x.token_hash) (sym same)
                          ∙ ground (arith, valid));
                    }
              ]
            ]
          ]
    ]

-- The key of a token that is let in: it is the first one with the identifier of the token, it is not
-- revoked, it has not expired, and its hash is that of the secret of the token.
pub verify-IsOpened :
    (parse : String → Option Json) (sha256_hex : Units → String) (now : ℕ) (token : Units)
    (db : Database) {p : ApiKeyPrincipal} {after : Database}
    → verify parse sha256_hex now token db ≡ (some p, after)
    → (k : ApiKey) × IsOpened sha256_hex now token db.api_keys k
      × (p.user_id ≡ k.user_id)
      × (p.key_id ≡ k.id)
unfolding verify
verify-IsOpened parse sha256_hex now token db {p} {after} h =
    elim (Option-cases (key_of parse sha256_hex now token db.api_keys)) [
      | inl e ↦ absurd (ground (arith, e))
      | inr ((k, scopes), e) ↦ (
        k,
        key_of-IsOpened parse sha256_hex now token db.api_keys k scopes e,
        ground (arith, e, h),
        ground (arith, e, h),
      )
    ]

revoked_rows :
    (id user : String) (now : ℕ) (keys : List ApiKey)
    → All (λ k. str_eq k.id id ≡ true → str_eq k.user_id user ≡ true) keys
    → All
        (λ k. str_eq k.id id ≡ true → is_none k.revoked_at ≡ false)
        (update_where (is_open_key id user) (λ k. record k { revoked_at = some now }) keys)
unfolding update_where
revoked_rows id user now [] h = tt
revoked_rows id user now (k ∷ keys) (o, h) =
    (λ e. ground (arith, o), revoked_rows id user now keys h)

-- A revoked key lets nobody in again: if the key of this identifier belongs to the user who revokes it,
-- then after that no token is verified as this key, at any time.
pub verify-revoke :
    (parse : String → Option Json) (sha256_hex : Units → String) (id user : String) (now later : ℕ)
    (token : Units) (db : Database) {p : ApiKeyPrincipal} {after : Database}
    → All (λ k. str_eq k.id id ≡ true → str_eq k.user_id user ≡ true) db.api_keys
    → verify parse sha256_hex later token ((revoke id user now db).1) ≡ (some p, after)
    → p.key_id ≢ id
unfolding revoke
verify-revoke parse sha256_hex id user now later token db {p} owned h e =
    let (k, opened, _, same) =
      verify-IsOpened parse sha256_hex later token (revoke id user now db).1 h in
    let closed =
      select_first-All (λ x. str_eq x.id id ≡ true → is_none x.revoked_at ≡ false)
        (has_identifier opened.identifier)
        (update_where (is_open_key id user) (λ x. record x { revoked_at = some now }) db.api_keys) k
        (revoked_rows id user now db.api_keys owned) opened.row in
    let named = (eq_iff k.id id).1 (sym same ∙ e) in
    absurd (cc (closed named, ap is_none opened.unrevoked))
