-- ===== src/Access/Decisions.antt =====
-- What the gate lets through, and what it answers to strangers.
use renom.Prelude.{
  All, List, Option, Option-cases, String, [], ap, arith, eq_iff, false, if◌then◌else◌, inl, inr,
  is_none, none, refl, some, str_eq, true, ◌&&◌, ◌||◌, ◌∷◌, ◌≡◌,
}
use renom.Errors.{forbidden, not_found, ok, err}
use renom.Database.{Server, Subuser, Database}
use renom.Database.Table.{select_first, select_first_passes, select_first-eq-none, select_first-All}
use renom.Json.{Json}
use renom.Access.{has_permission, is_privileged, subuser_grant, resolve_effective_permissions}
use renom.Access.Gate.{
  Principal, intersect_scopes, is_read, is_empty, meets, decide_access, is_live,
  authorize_server_request,
}
use renom.Access.Grants.{has_permission-intersect_scopes}

-- The scopes of an API key, if there is one, allow a permission.
abbrev pub ScopesAllow : Option (List String) → String → Type 0
ScopesAllow none r = Unit
ScopesAllow (some scopes) r = has_permission scopes r ≡ true

-- The principal's user may do `r` by the grants of its role or the server, and its key allows it.
abbrev pub Allowed : List String → Option (List String) → String → Type 0
Allowed effective scopes r = (has_permission effective r ≡ true) × ScopesAllow scopes r

Allowed-of_scoped :
    (effective : List String) (scopes : Option (List String)) (r : String)
    → has_permission (intersect_scopes effective scopes) r ≡ true
    → Allowed effective scopes r
Allowed-of_scoped effective none r h = (unfold intersect_scopes in h, tt)
Allowed-of_scoped effective (some s) r h =
    ground (arith, has_permission-intersect_scopes effective s r)

scoped_of_Allowed :
    (effective : List String) (scopes : Option (List String)) (r : String)
    → Allowed effective scopes r
    → has_permission (intersect_scopes effective scopes) r ≡ true
scoped_of_Allowed effective none r h = unfold intersect_scopes in h.0
scoped_of_Allowed effective (some s) r h =
    ground (arith, has_permission-intersect_scopes effective s r)

meets_sound :
    (required scoped : List String)
    → meets (some required) scoped ≡ true
    → All (λ r. has_permission scoped r ≡ true) required
unfolding meets has_permission
meets_sound [] scoped h = tt
meets_sound (r ∷ rs) scoped h = (ground arith, meets_sound rs scoped (ground arith))

meets_complete :
    (required scoped : List String)
    → All (λ r. has_permission scoped r ≡ true) required
    → meets (some required) scoped ≡ true
unfolding meets has_permission
meets_complete [] scoped h = ground arith
meets_complete (r ∷ rs) scoped (h, hs) = ground (arith, meets_complete rs scoped hs)

All-imp {ℓ κ μ} :
    {A : Type ℓ} (P : A → Type κ) (Q : A → Type μ) (xs : List A)
    → ((x : A) → P x → Q x)
    → All P xs
    → All Q xs
All-imp P Q [] f h = tt
All-imp P Q (x ∷ xs) f (p, h) = (f x p, All-imp P Q xs f h)

decide_access_sound :
    (method : String) (required : Option (List String)) (server : Server) (scoped : List String)
    (s : Server) (perms : List String)
    → decide_access method required server scoped ≡ ok (s, perms)
    → (s ≡ server) × (perms ≡ scoped) × (meets required scoped ≡ true)
unfolding decide_access
decide_access_sound method required server scoped s perms h = ground arith

live_id : (r : Server) (id : String) → is_live id r ≡ true → str_eq r.id id ≡ true
live_id r id h = ground arith

-- A list that permits something is not empty.
has_permission-ne-nil :
    (scoped : List String) (r : String) → has_permission scoped r ≡ true → is_empty scoped ≡ false
unfolding has_permission
has_permission-ne-nil [] r h = cc
has_permission-ne-nil (x ∷ xs) r h = refl

intersect_nothing : (scopes : Option (List String)) → is_empty (intersect_scopes [] scopes) ≡ true
unfolding intersect_scopes
intersect_nothing none = refl
intersect_nothing (some s) = ground arith

decide_nothing :
    (method : String) (required : Option (List String)) (server : Server) (scoped : List String)
    → is_empty scoped ≡ true
    → decide_access method required server scoped
      ≡ (if is_read method then err not_found else err forbidden)
unfolding decide_access
decide_nothing method required server scoped h = rw h

module _ (parse : String → Option Json) (db : Database) where
  -- A request that is let through names a server that is not deleted, and every permission that the
  -- route requires is granted to the user and allowed by the scopes of the key.
  pub authorize_sound :
      (p : Principal) (method server_id : String) (required : List String) (server : Server)
      (perms : List String)
      → authorize_server_request parse db (some p) method server_id (some required)
        ≡ ok (server, perms)
      → (server.id ≡ server_id)
        × (server.deleted_at ≡ none)
        × All
            (Allowed (resolve_effective_permissions parse db p.user_id p.role server_id) p.scopes)
            required
  unfolding authorize_server_request
  authorize_sound p method server_id required server perms h =
      elim (Option-cases (select_first (is_live server_id) db.servers)) [
        | inl missing ↦ ground (arith, missing)
        | inr (s, found) ↦
            let effective = resolve_effective_permissions parse db p.user_id p.role s.id in
            let live = select_first_passes (is_live server_id) db.servers s found in
            let id : s.id ≡ server_id = (eq_iff s.id server_id).0 (ground (arith, live)) in
            let (same, _, met) =
              decide_access_sound method (some required) s (intersect_scopes effective p.scopes)
                server perms (ground (arith, found)) in
            let all_scoped = meets_sound required (intersect_scopes effective p.scopes) met in
            rw same (
              id,
              ground (arith, live),
              rw (← id) (
                  All-imp (λ r. has_permission (intersect_scopes effective p.scopes) r ≡ true)
                    (Allowed effective p.scopes) required
                    (λ r. Allowed-of_scoped effective p.scopes r) all_scoped),
            )
      ]

  -- Conversely a principal of the user to whom all the required permissions are granted, with a key
  -- that allows them, is let through to a server that is there, if the route requires anything.
  pub authorize_complete :
      (p : Principal) (method server_id first : String) (required : List String) (server : Server)
      → select_first (is_live server_id) db.servers ≡ some server
      → All
          (Allowed (resolve_effective_permissions parse db p.user_id p.role server.id) p.scopes)
          (first ∷ required)
      → authorize_server_request parse db (some p) method server_id (some (first ∷ required))
        ≡ ok (
          server,
          intersect_scopes
              (resolve_effective_permissions parse db p.user_id p.role server.id)
              p.scopes,
        )
  unfolding authorize_server_request decide_access
  authorize_complete p method server_id first required server found allowed =
      let effective = resolve_effective_permissions parse db p.user_id p.role server.id in
      let scoped_all =
        All-imp (Allowed effective p.scopes)
          (λ r. has_permission (intersect_scopes effective p.scopes) r ≡ true) (first ∷ required)
          (λ r. scoped_of_Allowed effective p.scopes r) allowed in
      let met =
        meets_complete (first ∷ required) (intersect_scopes effective p.scopes) scoped_all in
      rw (found, authorize_server_request)
        (ground (arith, met, has_permission-ne-nil _ first scoped_all.0))

  -- Nobody owns the server with this id as `user`, and `user` has no grant on it.
  pub record IsStranger (user_id server_id : String) : Type 0 where
    pub not_owner :
        All
          (λ (r : Server). str_eq r.id server_id ≡ true → str_eq r.owner_id user_id ≡ false)
          db.servers
    pub no_grant :
        All
          (λ (r : Subuser). (str_eq r.user_id user_id && str_eq r.server_id server_id) ≡ false)
          db.subusers

  owner_lookup :
      (rs : List Server) (user_id server_id : String) (server : Server)
      → All (λ (r : Server). str_eq r.id server_id ≡ true → str_eq r.owner_id user_id ≡ false) rs
      → select_first (λ r. str_eq r.id server_id) rs ≡ some server
      → str_eq server.owner_id user_id ≡ false
  owner_lookup rs user_id server_id server a found =
      select_first-All
        (λ (r : Server). str_eq r.id server_id ≡ true → str_eq r.owner_id user_id ≡ false)
        (λ r. str_eq r.id server_id) rs server a found
        (select_first_passes (λ r. str_eq r.id server_id) rs server found)

  -- Deny by default: a user with no special role and no relation to the server has no permission.
  pub resolve_stranger :
      (user_id role server_id : String)
      → is_privileged role ≡ false
      → IsStranger user_id server_id
      → resolve_effective_permissions parse db user_id role server_id ≡ []
  unfolding resolve_effective_permissions subuser_grant
  resolve_stranger user_id role server_id plain s =
      let none_granted =
        select_first-eq-none
          (λ (r : Subuser). str_eq r.user_id user_id && str_eq r.server_id server_id) db.subusers
          s.no_grant in
      elim (Option-cases (select_first (λ r. str_eq r.id server_id) db.servers)) [
        | inl missing ↦ ground (arith, missing)
        | inr (server, found) ↦ ground (
          arith,
          found,
          none_granted,
          owner_lookup db.servers user_id server_id server s.not_owner found,
        )
      ]

  -- To a stranger a read of a server that exists is answered like that of one that does not, and any
  -- other method on an existing server is forbidden, whatever the route requires and the key allows.
  pub authorize_stranger :
      (p : Principal) (method server_id : String) (required : Option (List String))
      → is_privileged p.role ≡ false
      → IsStranger p.user_id server_id
      → let found = select_first (is_live server_id) db.servers in
        authorize_server_request parse db (some p) method server_id required
        ≡ (if is_read method || is_none found then err not_found else err forbidden)
  unfolding authorize_server_request
  authorize_stranger p method server_id required plain s =
      elim (Option-cases (select_first (is_live server_id) db.servers)) [
        | inl missing ↦ rw missing (ground arith)
        | inr (server, found) ↦
            let id = (eq_iff server.id server_id).0 (
              live_id server server_id
                (select_first_passes (is_live server_id) db.servers server found)) in
            rw (found, authorize_server_request)
              (rw
                (
                  ap (resolve_effective_permissions parse db p.user_id p.role) id,
                  resolve_stranger p.user_id p.role server_id plain s,
                )
                (ground
                  (arith, decide_nothing method required server _ (intersect_nothing p.scopes))))
      ]
