-- ===== src/Tests/Files.antt =====
-- Tests of the editing of server.properties.
use renom.Prelude.{
  All, Units, [], any, codes, false, none, refl, some, true, units_eq_inst, ◌∷◌, ◌≡◌,
}
use renom.Errors.{err, ok, internal}
use renom.JsText.{is_space, trim_start}
use renom.JsText.Number.{pos, integer}
use renom.JsText.Split.{split_lines}
use renom.JsMap
use renom.Files.Properties.{
  is_key_unit, is_line_terminator, parse_properties, Changes, apply_property_changes, runs,
}
use renom.Files.Properties.Definitions.{PropertyDefinition, number}
use renom.Files.Properties.Lines.{IsLine, IsKeyText}
use renom.Files.Properties.Save.{AreWritable, or_else, value_of, parse-apply_property_changes}
use renom.Files.Properties.Coerce.{
  HasLineOptions, coerce_property_value, coerce_property_value-IsLine, is_option, number_of, print,
  unbroken-IsLine,
}

abbrev text : Units
text = codes "#MC\npvp=true\n max-players = 20"

abbrev changes : Changes
changes = (codes "pvp", codes "false") ∷ (codes "motd", codes "hi") ∷ []

saved : apply_property_changes text changes ≡ codes "#MC\npvp=false\n max-players = 20\nmotd=hi"
unfolding runs JsMap.get JsMap.delete
saved = refl

pvp_key : IsKeyText (codes "pvp")
unfolding is_key_unit
pvp_key = (λ e. cc, (refl, (refl, (refl, tt))))

motd_key : IsKeyText (codes "motd")
unfolding is_key_unit
motd_key = (λ e. cc, (refl, (refl, (refl, (refl, tt)))))

changes-AreWritable : AreWritable changes
unfolding is_line_terminator is_space trim_start
changes-AreWritable = ((pvp_key, (refl, refl)), ((motd_key, (refl, refl)), tt))

text-IsLine : All IsLine (split_lines text)
unfolding split_lines
text-IsLine = (
  unbroken-IsLine (codes "#MC") refl,
  (unbroken-IsLine (codes "pvp=true") refl, (unbroken-IsLine (codes " max-players = 20") refl, tt)),
)

parse-apply_property_changes_example :
    value_of (parse_properties (apply_property_changes text changes)) (codes "pvp")
    ≡ or_else (JsMap.get changes (codes "pvp")) (value_of (parse_properties text) (codes "pvp"))
parse-apply_property_changes_example =
    parse-apply_property_changes text changes (codes "pvp") changes-AreWritable text-IsLine

abbrev slots : PropertyDefinition
slots = record {
  key = codes "max-players";
  label = "Player slots";
  kind = number;
  help = "";
  group = "Player limits";
  options = none;
  min = some (pos 1);
  max = some (pos 1000);
  readonly = false;
}

coerced :
    (coerce_property_value slots (some (codes " 0x14 ")) ≡ ok (codes "20"))
    × (coerce_property_value slots (some (codes "0")) ≡ err internal)
    × (coerce_property_value slots (some (codes "")) ≡ err internal)
    × (coerce_property_value slots none ≡ err internal)
unfolding coerce_property_value integer number_of print
coerced = (refl, refl, refl, refl)

slots-HasLineOptions : HasLineOptions slots
unfolding is_option
slots-HasLineOptions o e = cc

twenty : coerce_property_value slots (some (codes "020")) ≡ ok (codes "20")
unfolding coerce_property_value integer number_of print
twenty = refl

coerce_property_value-IsLine_example : IsLine (codes "20")
coerce_property_value-IsLine_example =
    coerce_property_value-IsLine slots (some (codes "020")) (codes "20") slots-HasLineOptions twenty

abbrev separated : Units
separated = b'a' ∷ 0x2028 ∷ b'b' ∷ []

separated_plain : (trim_start separated ≡ separated) × (any is_line_terminator separated ≡ true)
unfolding is_space is_line_terminator trim_start
separated_plain = (refl, refl)
