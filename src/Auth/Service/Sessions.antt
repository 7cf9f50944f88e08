-- ===== src/Auth/Service/Sessions.antt =====
-- Sessions that end when the password version of a user goes up.
use mathlib.Core.Option
use renom.Prelude.{
  Bool-cases, Option, Option-cases, String, Units, ap, arith, false, if◌then◌else◌, inl, inr, none,
  refl, some, str_eq, sym, true, ℕ, ◌+◌, ◌==◌, ◌∙◌, ◌≡◌, ◌≤◌,
}
use renom.Json.{Json}
use renom.Database.{Database, User}
use renom.Database.Table.{select_first_passes, select_first-update_where}
use renom.Database.Change.{done, failed, user_not_found}
use renom.Users.{has_id, by_id, update_user, bump_password_version}
use renom.Auth.Service.{
  Decoded, AccessTokenClaims, claims_of, verify_access_token, active_user, is_key_token, by_token,
  authenticate_token, active_user-some,
}

by_id-update_user :
    (id : String) (f : User → User) (db : Database) (u : User)
    → ((v : User) → User.id (f v) ≡ v.id)
    → by_id db id ≡ some u
    → by_id (update_user id f db) id ≡ some (if has_id id u then f u else u)
unfolding by_id update_user
by_id-update_user id f db u keeps h =
    select_first-update_where (has_id id) (has_id id) f db.users
      (λ v. ap (λ x. str_eq x id) (keeps v))
    ∙ ap (Option.map (λ v. if has_id id v then f v else v)) h

found_has_id : (db : Database) (id : String) (u : User) → by_id db id ≡ some u → has_id id u ≡ true
unfolding by_id
found_has_id db id u h = select_first_passes (has_id id) db.users u h

-- The row of a user whose version went up.
bumped :
    (id : String) (now : ℕ) (db : Database) (u : User) {n : ℕ} {after : Database}
    → by_id db id ≡ some u
    → bump_password_version id now db ≡ done n after
    → by_id after id
      ≡ some (record u { password_version = u.password_version + 1; updated_at = now })
unfolding bump_password_version
bumped id now db u {n} {after} h e =
    let next = u.password_version + 1 in
    let f = λ (v : User). record v { password_version = next; updated_at = now } in
    let at : update_user id f db ≡ after = changed (by_id db id) h e in
    ap (λ d. by_id d id) (sym at)
    ∙ by_id-update_user id f db u (λ v. refl) h
    ∙ ap some (rw (found_has_id db id u h) refl)
  where
    changed :
        (o : Option User)
        → o ≡ some u
        → (elim o [
          | none ↦ failed user_not_found
          | some row ↦ done (row.password_version + 1) (
              update_user id
                (λ v. record v { password_version = row.password_version + 1; updated_at = now })
                db)
        ])
          ≡ done n after
        → update_user id
            (λ (v : User). record v { password_version = u.password_version + 1; updated_at = now })
            db
          ≡ after
    changed none a b = cc
    changed (some r) a b =
        let same : r ≡ u = cc a in
        let end : update_user id
              (λ (v : User). record v {
                password_version = r.password_version + 1;
                updated_at = now;
              })
              db
            ≡ after =
          ground (arith, b) in
        ap
          (λ (x : User).
            update_user id
              (λ (v : User). record v {
                password_version = x.password_version + 1;
                updated_at = now;
              })
              db)
          (sym same)
        ∙ end

old_claims :
    (decode : Units → Option Decoded) (token : Units) (d : Decoded) (k current : ℕ)
    → decode token ≡ some d
    → d.pwdv ≡ some k
    → (k == current) ≡ false
    → verify_access_token decode token (some current) ≡ none
unfolding verify_access_token claims_of
old_claims decode token d k current h v ne =
    rw (h, verify_access_token)
      (elim (Option-cases d.sub) [
        | inl e ↦ rw (e, claims_of) refl
        | inr (sub, e) ↦
            rw (e, claims_of)
              (rw v (elim (Bool-cases (str_eq sub "")) [
                | inl empty ↦ rw empty refl
                | inr full ↦ rw full (rw ne refl)
              ]))
      ])

claims-sub :
    (decode : Units → Option Decoded) (token : Units) (d : Decoded) (id : String)
    (claims : AccessTokenClaims)
    → decode token ≡ some d
    → d.sub ≡ some id
    → verify_access_token decode token none ≡ some claims
    → claims.sub ≡ id
unfolding verify_access_token claims_of
claims-sub decode token d id claims h sub e = elim (Option-cases d.pwdv) [
  | inl p ↦ absurd (ground (arith, h, sub, p, e))
  | inr (k, p) ↦ elim (Bool-cases (str_eq id "")) [
    | inl q ↦ absurd (ground (arith, h, sub, p, q, e))
    | inr q ↦ sym (ground (arith, h, sub, p, q, e))
  ]
]

ended :
    (decode : Units → Option Decoded) (token : Units) (id : String) (d : Decoded) (k : ℕ) (u : User)
    (now : ℕ) (after : Database)
    → decode token ≡ some d
    → d.sub ≡ some id
    → d.pwdv ≡ some k
    → k ≤ u.password_version
    → by_id after id
      ≡ some (record u { password_version = u.password_version + 1; updated_at = now })
    → by_token decode token after ≡ none
unfolding by_token
ended decode token id d k u now after h sub v old row =
    elim (Option-cases (verify_access_token decode token none)) [
      | inl e ↦ rw (e, by_token) refl
      | inr (claims, e) ↦
          rw (e, by_token)
            (elim (Option-cases (active_user after claims.sub)) [
              | inl a ↦ rw a refl
              | inr (w, a) ↦
                  let found = (active_user-some after claims.sub w a).0 in
                  let same = claims-sub decode token d id claims h sub e in
                  let chain : some w
                      ≡ some (record u {
                        password_version = u.password_version + 1;
                        updated_at = now;
                      }) =
                    sym found ∙ ap (by_id after) same ∙ row in
                  let at : w
                      ≡ record u { password_version = u.password_version + 1; updated_at = now } =
                    cc chain in
                  let version : w.password_version ≡ u.password_version + 1 =
                    ap User.password_version at in
                  rw a (
                    rw
                      (old_claims decode token d k w.password_version h v (ground (arith, version)))
                      refl)
            ])
    ]

-- An access token that was made before the password version of its user went up lets nobody in after
-- that, whenever it is shown.
pub bump-authenticate_token :
    (decode : Units → Option Decoded) (parse : String → Option Json) (sha256_hex : Units → String)
    (now later : ℕ) (token : Units) (id : String) (d : Decoded) (k : ℕ) (u : User) (db : Database)
    {n : ℕ} {after : Database}
    → is_key_token token ≡ false
    → decode token ≡ some d
    → d.sub ≡ some id
    → d.pwdv ≡ some k
    → by_id db id ≡ some u
    → k ≤ u.password_version
    → bump_password_version id now db ≡ done n after
    → authenticate_token decode parse sha256_hex later token after ≡ (none, after)
unfolding authenticate_token
bump-authenticate_token decode parse sha256_hex now later token id d k u db {n} {after} jwt h sub v
      row old e =
    rw jwt (
      ap (λ p. (p, after))
        (ended decode token id d k u now after h sub v old (bumped id now db u row e)))
