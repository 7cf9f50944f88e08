-- ===== src/Tunnels/Address.antt =====
-- The address that players are shown.
use renom.Prelude.{
  Option, Units, arith, if◌then◌else◌, length, none, some, units_eq, units_eq_iff, ◌<◌, ◌≡◌,
}
use renom.Tunnels.{address_for_endpoint, endpoint_valid, resolve_join_address}

same_address :
    (printed derived : Units)
    → (if units_eq printed derived then some printed else some derived) ≡ some derived
same_address printed derived = ground (arith, units_eq_iff printed derived)

-- A server with a reserved endpoint shows the address of that endpoint, whatever the console printed
-- before, and none if the endpoint is not valid. A server without one shows what was printed.
pub resolve_join_address_lem :
    (printed : Option Units) (endpoint : Units)
    → (resolve_join_address printed (some endpoint)
        ≡ (if endpoint_valid endpoint then some (address_for_endpoint endpoint) else none))
      × ((address : Units)
          → 0 < length address
          → resolve_join_address (some address) none ≡ some address)
unfolding resolve_join_address
resolve_join_address_lem none endpoint = (ground arith, λ address h. ground (arith, h))
resolve_join_address_lem (some line) endpoint = (
  ground (arith, same_address line (address_for_endpoint endpoint)),
  λ address h. ground (arith, h),
)
