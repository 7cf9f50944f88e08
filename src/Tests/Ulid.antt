-- ===== src/Tests/Ulid.antt =====
-- Tests of the identifiers.
use renom.Prelude.{List, [], arith, codes, refl, some, ℕ, ◌∷◌, ◌≡◌}
use renom.Ulid.{UlidState, ulid}
use renom.Ulid.Order.{Follows, ulid-Follows}

abbrev zero_bytes : List ℕ
zero_bytes = 0 ∷ 0 ∷ 0 ∷ 0 ∷ 0 ∷ 0 ∷ 0 ∷ 0 ∷ 0 ∷ 255 ∷ []

abbrev state : UlidState
state = record { last_time = some 1469918176385; last_random = zero_bytes }

runs : (ulid 1469918176385 [] state).0 ≡ codes "01ARYZ6S410000000000000080"
unfolding ulid
runs = refl

ulid-Follows_example : Follows 1469918176385 state (ulid 1469918176385 [] state).1
ulid-Follows_example = ulid-Follows 1469918176385 [] state refl (omega arith)
