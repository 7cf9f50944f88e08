-- ===== src/Access/Grants.antt =====
-- What scopes do to grants, and what the gate lets through.
use renom.Prelude.{
  Bool, Bool-cases, List, String, [], ap, arith, eq_iff, inl, inr, keep, refl, some, str_eq, ◌&&◌,
  ◌∷◌, ◌≡◌,
}
use renom.Access.{includes, wildcard, has_permission}
use renom.Access.Gate.{intersect_scopes}

includes-keep :
    (p : String → Bool) (xs : List String) (x : String)
    → includes (keep p xs) x ≡ includes xs x && p x
unfolding includes
includes-keep p [] x = refl
includes-keep p (y ∷ ys) x = elim (Bool-cases (str_eq y x)) [
  | inl same ↦ let yx = (eq_iff y x).0 same in ground (arith, includes-keep p ys x, ap p yx, same)
  | inr other ↦ ground (arith, includes-keep p ys x, other)
]

-- A key with scopes has a permission exactly if its user has it and the scopes name it, where a
-- wildcard on either side names everything.
pub has_permission-intersect_scopes :
    (effective scopes : List String) (required : String)
    → has_permission (intersect_scopes effective (some scopes)) required
      ≡ (has_permission effective required && has_permission scopes required)
unfolding has_permission intersect_scopes
has_permission-intersect_scopes effective scopes required = ground (
  arith,
  includes-keep (λ (p : String). includes scopes p) effective wildcard,
  includes-keep (λ (p : String). includes scopes p) effective required,
)
