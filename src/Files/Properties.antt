-- ===== src/Files/Properties.antt =====
-- `parseProperties`, `applyPropertyChanges` and `coercePropertyValue` of modules/files/properties.ts.
-- A text is the list of its code units. The regular expressions of the source have one way to match
-- a line, which the functions below follow.
pub mod Definitions
pub mod Lines
pub mod Save
pub mod Coerce
use renom.Prelude.{
  Bool, List, Option, Units, [], any, if◌then◌else◌, leb, none, some, units_eq, units_eq_inst, ℕ,
  ◌&&◌, ◌++◌, ◌==◌, ◌||◌, ◌∷◌,
}
use renom.JsMap
use renom.JsText.{is_space, trim_start}
use renom.JsText.Split.{split_lines, join}
use Definitions.{PropertyDefinition, property_definitions}

-- `[A-Za-z0-9._-]`.
unfoldable pub is_key_unit : ℕ → Bool
is_key_unit c =
    (leb b'A' c && leb c b'Z')
    || (leb b'a' c && leb c b'z')
    || (leb b'0' c && leb c b'9')
    || c == b'.'
    || c == b'_'
    || c == b'-'

-- The units that `.` does not match.
unfoldable pub is_line_terminator : ℕ → Bool
is_line_terminator c = c == 10 || c == 13 || c == 0x2028 || c == 0x2029

-- The longest prefix of key units, and the rest.
unfoldable pub span_key : Units → Units × Units
unfolding is_key_unit
span_key [] = ([], [])
span_key (c ∷ s) =
    let (k, rest) = span_key s in if is_key_unit c then (c ∷ k, rest) else ([], c ∷ s)

-- What follows `\s*=`.
unfoldable pub after_equals : Units → Option Units
after_equals [] = none
after_equals (c ∷ s) = if c == b'=' then some s else none

abbrev with_key : Units → Option Units → Option (Units × Units)
with_key [] o = none
with_key (c ∷ k) none = none
with_key (c ∷ k) (some rest) = some (c ∷ k, rest)

-- `/^\s*([A-Za-z0-9._-]+)\s*=/`: the key and what stands behind the equals sign.
unfoldable pub match_key : Units → Option (Units × Units)
unfolding span_key after_equals trim_start
match_key line =
    let (k, rest) = span_key (trim_start line) in with_key k (after_equals (trim_start rest))

abbrev if_one_line : Units → Units → Option (Units × Units)
if_one_line k v = if any is_line_terminator v then none else some (k, v)

-- `/^\s*([A-Za-z0-9._-]+)\s*=\s*(.*)$/`.
unfoldable pub match_setting : Units → Option (Units × Units)
unfolding match_key trim_start is_line_terminator
match_setting line = elim (match_key line) [
  | none ↦ none
  | some found ↦ if_one_line found.0 (trim_start found.1)
]

pub record ParsedProperty : Type 0 where
  pub key : Units
  pub value : Units
  pub definition : Option PropertyDefinition

-- `DEFINITION_BY_KEY.get(key)`.
unfoldable pub definition_in : List PropertyDefinition → Units → Option PropertyDefinition
definition_in [] key = none
definition_in (d ∷ ds) key = if units_eq d.key key then some d else definition_in ds key

abbrev pub definition_by_key : Units → Option PropertyDefinition
definition_by_key = definition_in property_definitions

unfoldable pub parse_lines : List Units → List ParsedProperty
unfolding match_setting
parse_lines [] = []
parse_lines (line ∷ lines) = elim (match_setting line) [
  | none ↦ parse_lines lines
  | some (k, v) ↦
      record { key = k; value = v; definition = definition_by_key k } ∷ parse_lines lines
]

unfoldable pub parse_properties : Units → List ParsedProperty
parse_properties text = parse_lines (split_lines text)

-- `${key}=${value}`.
abbrev pub setting_line : Units → Units → Units
setting_line k v = k ++ b'=' ∷ v

abbrev pub Changes : Type 0
Changes = List (Units × Units)

-- What becomes of one line: itself, or the new setting of its key, which is then done.
unfoldable pub apply_line : Units → Changes → Units × Changes
unfolding match_key
apply_line line remaining = elim (match_key line) [
  | none ↦ (line, remaining)
  | some found ↦ elim (JsMap.get remaining found.0) [
    | none ↦ (line, remaining)
    | some v ↦ (setting_line found.0 v, JsMap.delete remaining found.0)
  ]
]

-- The settings that the file never had are appended.
unfoldable pub new_lines : Changes → List Units
new_lines [] = []
new_lines ((k, v) ∷ rest) = setting_line k v ∷ new_lines rest

unfoldable pub apply_lines : List Units → Changes → List Units
unfolding apply_line new_lines
apply_lines [] remaining = new_lines remaining
apply_lines (line ∷ lines) remaining =
    let (out, remaining') = apply_line line remaining in out ∷ apply_lines lines remaining'

-- `changes` holds the entries of the object, in their order.
unfoldable pub apply_property_changes : Units → Changes → Units
apply_property_changes text changes = join 10 (apply_lines (split_lines text) changes)

-- What a run unfolds.
unfoldable pub runs : Unit {0}
unfolding parse_properties apply_property_changes parse_lines apply_lines split_lines join
runs = tt
