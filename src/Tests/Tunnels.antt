-- ===== src/Tests/Tunnels.antt =====
-- Tests of the tunnels.
use renom.Prelude.{[], codes, false, if◌then◌else◌, ltb, refl, some, true, ℕ, ◌∷◌, ◌≡◌}
use renom.Database.{Database}
use renom.Tunnels.{claim_from, endpoint_taken, endpoint_valid}
use renom.Tunnels.Names.{claim_from-endpoint_valid}

-- The first name that the stream gives is held by another server.
abbrev db : Database
db = record {
  servers = [];
  users = [];
  blueprints = [];
  allocations = [];
  server_variables =
      record { server_id = "s2"; key = "tunnel.endpoint"; value = "amber-atlas-0000" } ∷ [];
  subusers = [];
  api_keys = [];
  backups = [];
}

abbrev random : ℕ → ℕ
random n = if ltb n 3 then 0 else 2

claimed : claim_from 8 4 random 0 db "s1" ≡ some (codes "calm-cedar-0002")
unfolding claim_from
claimed = refl

claim_from-endpoint_valid_example :
    (endpoint_valid (codes "calm-cedar-0002") ≡ true)
    × (endpoint_taken db (codes "calm-cedar-0002") "s1" ≡ false)
claim_from-endpoint_valid_example =
    claim_from-endpoint_valid 8 4 random 0 db "s1" (codes "calm-cedar-0002") claimed
