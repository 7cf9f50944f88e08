-- ===== src/Ulid.antt =====
-- shared/ulid.ts: identifiers of a time and ten random bytes. Characters are code units; a 32-bit word
-- of the source is the number from 0 on that its bits stand for.
pub mod Order
use renom.Prelude.{
  Bool, List, Option, Units, [], codes, false, get_elem?, if◌then◌else◌, leb, length, ltb, none,
  not, some, suc, true, zero, ℕ, ◌%◌, ◌*◌, ◌++◌, ◌+◌, ◌-◌, ◌/◌, ◌==◌, ◌^◌, ◌∷◌,
}

abbrev pub encoding : Units
encoding = codes "0123456789ABCDEFGHJKMNPQRSTVWXYZ"

unfoldable pub symbol : ℕ → ℕ
symbol n = elim (get_elem? encoding n) [ none ↦ 0 | some c ↦ c ]

-- `encodeTime` with `length` characters.
unfoldable pub encode_digits : ℕ → ℕ → Units
unfolding symbol
encode_digits zero time = []
encode_digits (suc length) time = encode_digits length (time / 32) ++ symbol (time % 32) ∷ []

abbrev pub encode_time : ℕ → Units
encode_time = encode_digits 10

-- The `while` of `encodeRandom`: the characters of `acc` from its highest bits on, and what is left.
unfoldable pub drain : ℕ → ℕ → ℕ → Units × ℕ
unfolding symbol
drain zero acc acc_bits = ([], acc_bits)
drain (suc fuel) acc acc_bits =
    let rest = drain fuel acc (acc_bits - 5) in
    if leb 5 acc_bits
    then (symbol (acc / 2 ^ (acc_bits - 5) % 32) ∷ rest.0, rest.1)
    else ([], acc_bits)

-- A word has at most 12 bits that count, so two rounds and the last test are three.
unfoldable pub encode_bytes : ℕ → ℕ → List ℕ → Units
unfolding drain
encode_bytes acc acc_bits [] =
    if ltb 0 acc_bits then symbol (acc * 2 ^ (5 - acc_bits) % 32) ∷ [] else []
encode_bytes acc acc_bits (byte ∷ bytes) =
    let word = (acc * 256 + byte) % 2 ^ 32 in
    let (out, left) = drain 3 word (acc_bits + 8) in out ++ encode_bytes word left bytes

abbrev pub encode_random : List ℕ → Units
encode_random = encode_bytes 0 0

-- The loop of `ulid` from the last byte to the first; the flag says that nothing broke it off.
unfoldable pub increment_from : List ℕ → List ℕ × Bool
increment_from [] = ([], true)
increment_from (byte ∷ bytes) =
    let (rest, carry) = increment_from bytes in
    if not carry
    then (byte ∷ rest, false)
    else if leb (byte + 1) 255
    then ((byte + 1) ∷ rest, false)
    else (0 ∷ rest, true)

-- `lastTime` and `lastRandom`; before the first call the time is -1 in the source.
pub record UlidState : Type 0 where
  pub last_time : Option ℕ
  pub last_random : List ℕ

abbrev pub is_last : Option ℕ → ℕ → Bool
is_last none now = false
is_last (some time) now = now == time

-- The state after a call; `random` are the ten random bytes.
unfoldable pub advance : ℕ → List ℕ → UlidState → UlidState
unfolding increment_from
advance now random st =
    if is_last st.last_time now
    then record st { last_random = (increment_from st.last_random).0 }
    else record { last_time = some now; last_random = random }

unfoldable pub ulid : ℕ → List ℕ → UlidState → Units × UlidState
unfolding encode_digits encode_bytes advance
ulid now random st =
    let after = advance now random st in (encode_time now ++ encode_random after.last_random, after)
