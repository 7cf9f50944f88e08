-- ===== src/Access/Gate.antt =====
-- `authorizeServerRequest`, `intersectScopes` and the two checks for suspended servers. A call of
-- `next(error)` is a result `err`, and `next()` a result `ok` with what is left in `res.locals`.
use renom.Prelude.{
  Bool, List, Option, String, [], all, false, if◌then◌else◌, keep, none, not, some, str_eq, true,
  ◌&&◌, ◌||◌, ◌∷◌,
}
use renom.Errors.{forbidden, not_found, Result, ok, err}
use renom.Database.{Server, Database}
use renom.Database.Table.{select_first}
use renom.Json.{Json}
use renom.Access.{includes, wildcard, is_privileged, resolve_effective_permissions}

-- `Principal` of modules/auth/service.ts.
pub record Principal : Type 0 where
  pub user_id : String
  pub role : String
  pub api_key_id : Option String
  pub scopes : Option (List String)

unfoldable pub intersect_scopes : List String → Option (List String) → List String
unfolding includes
intersect_scopes effective none = effective
intersect_scopes effective (some scopes) =
    if includes scopes wildcard
    then effective
    else if includes effective wildcard
    then scopes
    else keep (λ p. includes scopes p) effective

abbrev pub is_read : String → Bool
is_read method = str_eq method "GET" || str_eq method "HEAD"

abbrev pub is_empty {ℓ} : {A : Type ℓ} → List A → Bool
is_empty [] = true
is_empty (x ∷ xs) = false

-- `!requiredList || scoped.includes("*") || requiredList.every(…)`.
unfoldable pub meets : Option (List String) → List String → Bool
unfolding includes
meets none scoped = true
meets (some required) scoped = includes scoped wildcard || all (λ r. includes scoped r) required

unfoldable pub decide_access :
    String → Option (List String) → Server → List String → Result (Server × List String)
unfolding meets
decide_access method required server scoped =
    if is_empty scoped
    then (if is_read method then err not_found else err forbidden)
    else if meets required scoped
    then ok (server, scoped)
    else err forbidden

-- `WHERE id = ? AND deleted_at IS NULL`.
abbrev pub is_live : String → Server → Bool
is_live id r = str_eq r.id id && (elim r.deleted_at [ none ↦ true | some _ ↦ false ])

module _ (parse : String → Option Json) (db : Database) where
  unfoldable pub authorize_server_request :
      Option Principal → String → String → Option (List String) → Result (Server × List String)
  unfolding decide_access intersect_scopes select_first
  authorize_server_request none method server_id required = err forbidden
  authorize_server_request (some p) method server_id required =
      elim (select_first (is_live server_id) db.servers) [
        | none ↦ err not_found
        | some server ↦ decide_access method required server (
            intersect_scopes (resolve_effective_permissions parse db p.user_id p.role server.id)
              p.scopes)
      ]

-- Both checks read `res.locals.server`, which is missing where no gate ran before them.
unfoldable pub assert_not_suspended_for_mutation : Option Server → String → Result (Unit {0})
assert_not_suspended_for_mutation none method = err forbidden
assert_not_suspended_for_mutation (some server) method =
    if not (str_eq server.status "suspended")
    then ok tt
    else if is_read method
    then ok tt
    else err forbidden

unfoldable pub assert_suspended_readable : Option Server → Option Principal → Result (Unit {0})
assert_suspended_readable (some server) (some p) =
    if not (str_eq server.status "suspended")
    then ok tt
    else if not (is_privileged p.role) && not (str_eq server.owner_id p.user_id)
    then err not_found
    else ok tt
assert_suspended_readable _ _ = err forbidden
