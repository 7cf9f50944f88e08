-- ===== src/Tunnels.antt =====
-- modules/tunnels/minekube.ts: the names of tunnel endpoints and the addresses that players join.
-- The random bytes are a stream of 32-bit numbers, read from a position on.
pub mod Names
pub mod Address
use renom.Prelude.{
  Bool, List, Option, String, Units, [], all, codes, false, get_elem?, if◌then◌else◌, leb, length,
  ltb, none, not, some, str_eq, suc, units_eq, zero, ℕ, ◌%◌, ◌&&◌, ◌++◌, ◌+◌, ◌-◌, ◌==◌, ◌∷◌,
}
use renom.JsText.{is_digit, starts_with, trim_start}
use renom.JsText.Digits.{show}
use renom.JsText.Split.{split}
use renom.Database.{Database, Variable}
use renom.Database.Table.{count_where}

abbrev pub is_lower : ℕ → Bool
is_lower c = leb b'a' c && leb c b'z'

-- `[a-z][a-z]{3,7}`.
unfoldable pub is_word : Units → Bool
is_word s = all is_lower s && leb 4 (length s) && leb (length s) 8

-- `\d{4}`.
unfoldable pub is_suffix : Units → Bool
is_suffix s = all is_digit s && length s == 4

-- The pattern, by the pieces between dashes: one or two words and four digits.
abbrev pub has_shape : List Units → Bool
has_shape (word ∷ digits ∷ []) = is_word word && is_suffix digits
has_shape (adjective ∷ noun ∷ digits ∷ []) = is_word adjective && is_word noun && is_suffix digits
has_shape _ = false

unfoldable pub endpoint_valid : Units → Bool
unfolding is_word is_suffix split
endpoint_valid endpoint =
    leb 4 (length endpoint) && leb (length endpoint) 16 && has_shape (split b'-' endpoint)

abbrev pub address_for_endpoint : Units → Units
address_for_endpoint endpoint = endpoint ++ codes ".play.minekube.net"

unfoldable pub resolve_join_address : Option Units → Option Units → Option Units
unfolding endpoint_valid
resolve_join_address printed none = elim printed [
  | none ↦ none
  | some address ↦ if length address == 0 then none else some address
]
resolve_join_address printed (some endpoint) =
    if not (endpoint_valid endpoint) then none else (elim printed [
      | none ↦ some (address_for_endpoint endpoint)
      | some address ↦
          if units_eq address (address_for_endpoint endpoint)
          then some address
          else some (address_for_endpoint endpoint)
    ])

-- A row of another server with the endpoint.
abbrev pub is_claim : Units → String → Variable → Bool
is_claim endpoint owner v =
    str_eq v.key "tunnel.endpoint"
    && units_eq (codes v.value) endpoint
    && not (str_eq v.server_id owner)

unfoldable pub endpoint_taken : Database → Units → String → Bool
unfolding count_where
endpoint_taken db endpoint owner = ltb 0 (count_where (is_claim endpoint owner) db.server_variables)

abbrev pub adjectives : List Units
adjectives =
    codes "amber"
    ∷ codes "brisk"
    ∷ codes "calm"
    ∷ codes "dusky"
    ∷ codes "eager"
    ∷ codes "frost"
    ∷ codes "gentle"
    ∷ codes "hardy"
    ∷ codes "ivory"
    ∷ codes "jolly"
    ∷ codes "keen"
    ∷ codes "lucid"
    ∷ codes "mellow"
    ∷ codes "noble"
    ∷ codes "open"
    ∷ codes "prime"
    ∷ codes "quiet"
    ∷ codes "rapid"
    ∷ codes "steady"
    ∷ codes "tidal"
    ∷ codes "umber"
    ∷ codes "vivid"
    ∷ codes "warm"
    ∷ codes "zesty"
    ∷ []

abbrev pub nouns : List Units
nouns =
    codes "atlas"
    ∷ codes "brook"
    ∷ codes "cedar"
    ∷ codes "delta"
    ∷ codes "ember"
    ∷ codes "fjord"
    ∷ codes "grove"
    ∷ codes "haven"
    ∷ codes "inlet"
    ∷ codes "junction"
    ∷ codes "kettle"
    ∷ codes "lagoon"
    ∷ codes "meadow"
    ∷ codes "nimbus"
    ∷ codes "orchard"
    ∷ codes "prairie"
    ∷ codes "quarry"
    ∷ codes "ridge"
    ∷ codes "summit"
    ∷ codes "tundra"
    ∷ codes "upland"
    ∷ codes "valley"
    ∷ codes "willow"
    ∷ codes "zenith"
    ∷ []

-- `items[randomInt(items.length)]`.
unfoldable pub pick : List Units → ℕ → Units
pick items random = elim (get_elem? items (random % length items)) [ none ↦ [] | some item ↦ item ]

abbrev pub zeros : ℕ → Units
zeros zero = []
zeros (suc n) = b'0' ∷ zeros n

-- `padStart(4, "0")` of a number.
unfoldable pub pad_four : ℕ → Units
unfolding show
pad_four n = zeros (4 - length (show n)) ++ show n

abbrev pub candidate_name : ℕ → ℕ → ℕ → Units
candidate_name suffix adjective noun =
    pick adjectives adjective ++ (b'-' ∷ (pick nouns noun ++ (b'-' ∷ pad_four (suffix % 10000))))

-- The loop of `generateEndpointName`, for at most `fuel` rounds: the name, and where the stream is.
unfoldable pub generate_endpoint_name : ℕ → (ℕ → ℕ) → ℕ → Option (Units × ℕ)
unfolding pick pad_four
generate_endpoint_name zero random at = none
generate_endpoint_name (suc fuel) random at =
    let name = candidate_name (random at) (random (at + 1)) (random (at + 2)) in
    let again = generate_endpoint_name fuel random (at + 3) in
    if leb (length name) 16 then some (name, at + 3) else again

-- `claimEndpointName` with at most `attempts` attempts; none where it throws.
unfoldable pub claim_from : ℕ → ℕ → (ℕ → ℕ) → ℕ → Database → String → Option Units
unfolding generate_endpoint_name endpoint_taken
claim_from zero fuel random at db server = none
claim_from (suc attempts) fuel random at db server = elim (generate_endpoint_name fuel random at) [
  | none ↦ none
  | some (name, next) ↦
      let again = claim_from attempts fuel random next db server in
      if endpoint_taken db name server then again else some name
]

abbrev pub claim_endpoint_name : ℕ → (ℕ → ℕ) → Database → String → Option Units
claim_endpoint_name fuel random = claim_from 8 fuel random 0
