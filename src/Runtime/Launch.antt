-- ===== src/Runtime/Launch.antt =====
-- What `start` of engine.ts makes of the settings of a server: the arguments with their variables, and
-- the number of processors. The variables are a plain object: `vars` are its own properties, and
-- `inherited` is the text of what a name finds in `Object.prototype`, none for all but a dozen names.
pub mod Substitute
use renom.Prelude.{
  Bool, List, Option, Units, [], if◌then◌else◌, leb, length, ltb, max, none, some, units_eq_inst, ℕ,
  ◌&&◌, ◌++◌, ◌+◌, ◌/◌, ◌==◌, ◌||◌, ◌∷◌,
}
use renom.JsText.{is_digit}
use renom.JsMap.{get}

-- `[A-Za-z_]`.
abbrev pub is_key_start : ℕ → Bool
is_key_start c = (leb b'a' c && leb c b'z') || (leb b'A' c && leb c b'Z') || c == b'_'

-- Whether a key may go on with the unit behind what was read of it.
abbrev pub is_key_unit : Units → ℕ → Bool
is_key_unit [] c = is_key_start c
is_key_unit (k ∷ key) c = is_key_start c || is_digit c

-- What a match is replaced by: `vars[key] ?? match`.
unfoldable pub replacement : (Units → Option Units) → List (Units × Units) → Units → Units
unfolding get
replacement inherited vars key = elim (get vars key) [
  | some value ↦ value
  | none ↦ (elim (inherited key) [ none ↦ b'{' ∷ (key ++ b'}' ∷ []) | some text ↦ text ])
]

-- Outside of a brace, or behind one with the key that was read.
pub data Scan : Type 0 where
  outside : Scan
  behind : Units → Scan

abbrev pub after_unit : ℕ → Scan
after_unit c = if c == b'{' then behind [] else outside

abbrev pub emitted : ℕ → Units
emitted c = if c == b'{' then [] else c ∷ []

-- The units that one unit of the template gives, and how the scan goes on: a brace that no key and
-- closing brace follow stays.
unfoldable pub scan_unit : (Units → Option Units) → List (Units × Units) → Scan → ℕ → Units × Scan
unfolding replacement
scan_unit inherited vars outside c = (emitted c, after_unit c)
scan_unit inherited vars (behind key) c =
    if c == b'}' && ltb 0 (length key)
    then (replacement inherited vars key, outside)
    else if is_key_unit key c
    then ([], behind (key ++ c ∷ []))
    else (b'{' ∷ (key ++ emitted c), after_unit c)

abbrev pub left_open : Scan → Units
left_open outside = []
left_open (behind key) = b'{' ∷ key

-- The matches of `/\{([A-Za-z_][A-Za-z0-9_]*)\}/g` replaced, from a point of the scan on.
unfoldable pub substitute_from :
    (Units → Option Units) → List (Units × Units) → Scan → Units → Units
unfolding scan_unit
substitute_from inherited vars scan [] = left_open scan
substitute_from inherited vars scan (c ∷ s) =
    let (out, next) = scan_unit inherited vars scan c in
    out ++ substitute_from inherited vars next s

unfoldable pub substitute : (Units → Option Units) → Units → List (Units × Units) → Units
unfolding substitute_from
substitute inherited template vars = substitute_from inherited vars outside template

-- `cpuCores`: none without a limit, or else the percentage of one processor, rounded up.
unfoldable pub cpu_cores : ℕ → Option ℕ
cpu_cores weight = if weight == 0 then none else some (max 1 ((weight + 99) / 100))
