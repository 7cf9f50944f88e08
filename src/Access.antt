-- ===== src/Access.antt =====
-- Who may do what with a server: `hasPermission` of packages/contracts/src/index.ts, and
-- modules/servers/permissions.ts and http/middleware/authz.ts of apps/panel/src/server.
-- `JSON.parse` is the parameter `parse` of what reads a stored grant.
pub mod Grants
pub mod Gate
pub mod Decisions
use renom.Prelude.{
  Bool, List, Option, String, [], false, if◌then◌else◌, none, some, str_eq, ◌&&◌, ◌*◌, ◌||◌, ◌∷◌,
}
use renom.Database.{Server, Subuser, Database}
use renom.Database.Table.{select_first}
use renom.Json.{Json, str, arr, items}

-- `xs.includes(x)`.
unfoldable pub includes : List String → String → Bool
includes [] x = false
includes (y ∷ ys) x = str_eq y x || includes ys x

abbrev pub wildcard : String
wildcard = "*"

unfoldable pub has_permission : List String → String → Bool
unfolding includes
has_permission granted required = includes granted wildcard || includes granted required

-- The string members of a parsed array; anything else, and a text that does not parse, is no grant.
unfoldable pub strings : List Json → List String
strings [] = []
strings (str s ∷ vs) = s ∷ strings vs
strings (_ ∷ vs) = strings vs

unfoldable pub granted_strings : Option Json → List String
unfolding strings
granted_strings (some (arr vs)) = strings (items vs)
granted_strings _ = []

abbrev pub is_privileged : String → Bool
is_privileged role = str_eq role "owner" || str_eq role "admin"

module _ (parse : String → Option Json) (db : Database) where
  unfoldable pub subuser_grant : String → String → List String
  unfolding granted_strings select_first
  subuser_grant user_id server_id =
      elim (select_first (λ r. str_eq r.user_id user_id && str_eq r.server_id server_id)
        db.subusers) [ none ↦ [] | some sub ↦ granted_strings (parse sub.permissions_json) ]

  -- `SELECT owner_id FROM servers WHERE id = ?` finds a deleted server too.
  unfoldable pub resolve_effective_permissions : String → String → String → List String
  unfolding subuser_grant select_first
  resolve_effective_permissions user_id role server_id =
      if is_privileged role
      then wildcard ∷ []
      else elim (select_first (λ r. str_eq r.id server_id) db.servers) [
        | none ↦ []
        | some server ↦
            if str_eq server.owner_id user_id
            then wildcard ∷ []
            else subuser_grant user_id server_id
      ]

  unfoldable pub is_permitted : String → String → String → String → Bool
  unfolding resolve_effective_permissions has_permission
  is_permitted user_id role server_id required =
      has_permission (resolve_effective_permissions user_id role server_id) required
