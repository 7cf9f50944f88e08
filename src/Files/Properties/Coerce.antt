-- ===== src/Files/Properties/Coerce.antt =====
-- `coercePropertyValue`: what a submitted value may write. A whole number is printed in full, as
-- `String` does up to 2 ^ 53; each number of the program's settings has a bound far below that.
use renom.Prelude.{
  Bool, Bool-cases, List, Option, Option-cases, Units, [], any, arith, codes, false, if◌then◌else◌,
  inl, inr, leb, ltb, none, not, refl, some, subst, suc, sym, true, units_eq, units_eq_iff, zero, ℕ,
  ◌%◌, ◌+◌, ◌/◌, ◌==◌, ◌||◌, ◌↔◌, ◌∙◌, ◌∷◌, ◌≡◌, ◌⊎◌,
}
use renom.Errors.{Result, err, ok, guard, ◌>>◌, internal}
use renom.JsText.{trim}
use renom.JsText.Number.{ℤ, pos, negsuc, integer}
use renom.Files.Properties.Definitions.{
  PropertyDefinition, PropertyKind, flag, number, choice, free_text,
}
use renom.Files.Properties.Lines.{IsLine}

-- The decimal digits of a number below 10 ^ fuel, the last one first in reading order of the fuel.
unfoldable pub digits : ℕ → ℕ → Units → Units
digits zero n acc = acc
digits (suc fuel) n acc =
    let digit = b'0' + n % 10 in
    let rest = digits fuel (n / 10) (digit ∷ acc) in if ltb n 10 then digit ∷ acc else rest

-- `String(n)`.
unfoldable pub print : ℤ → Units
unfolding digits
print (pos n) = digits (suc n) n []
print (negsuc n) = b'-' ∷ digits (suc (suc n)) (suc n) []

-- `a <= b`.
unfoldable pub at_most : ℤ → ℤ → Bool
at_most (pos m) (pos n) = leb m n
at_most (pos m) (negsuc n) = false
at_most (negsuc m) (pos n) = true
at_most (negsuc m) (negsuc n) = leb n m

unfoldable pub is_above : Option ℤ → ℤ → Bool
unfolding at_most
is_above none z = true
is_above (some low) z = at_most low z

unfoldable pub is_below : Option ℤ → ℤ → Bool
unfolding at_most
is_below none z = true
is_below (some high) z = at_most z high

-- `options?.includes(value)`.
unfoldable pub is_option : Option (List Units) → Units → Bool
is_option none value = false
is_option (some options) value = any (λ o. units_eq o value) options

-- The number of a text that is not blank, if it is finite and whole.
unfoldable pub number_of : Units → Option ℤ
unfolding trim
number_of value = elim (trim value) [ [] ↦ none | c ∷ s ↦ integer (c ∷ s) ]

unfoldable pub coerce_number : PropertyDefinition → Option ℤ → Result Units
unfolding is_above is_below
coerce_number d none = err internal
coerce_number d (some parsed) =
    guard (is_above d.min parsed) internal
    >> guard (is_below d.max parsed) internal
    >> ok (print parsed)

-- The units that `/[\r\n]/` finds.
abbrev pub breaks_line : ℕ → Bool
breaks_line c = c == 13 || c == 10

unfoldable pub coerce_kind : PropertyKind → PropertyDefinition → Units → Result Units
unfolding is_option coerce_number
coerce_kind flag d value =
    guard (units_eq value (codes "true") || units_eq value (codes "false")) internal >> ok value
coerce_kind number d value = coerce_number d (number_of value)
coerce_kind choice d value = guard (is_option d.options value) internal >> ok value
coerce_kind free_text d value = guard (not (any breaks_line value)) internal >> ok value

-- `typeof raw === "string" ? raw : ""`, where `none` is a value that is no string.
unfoldable pub text_of : Option Units → Units
text_of none = []
text_of (some s) = s

unfoldable pub coerce_property_value : PropertyDefinition → Option Units → Result Units
unfolding coerce_kind text_of
coerce_property_value d raw = coerce_kind d.kind d (text_of raw)

digits-IsLine : (fuel n : ℕ) (acc : Units) → IsLine acc → IsLine (digits fuel n acc)
unfolding digits
digits-IsLine zero n acc h = h
digits-IsLine (suc fuel) n acc h =
    let digit_plain : IsLine ((b'0' + n % 10) ∷ acc) = ((omega arith, omega arith), h) in
    elim (Bool-cases (ltb n 10)) [
      | inl e ↦ rw e digit_plain
      | inr e ↦ rw e (digits-IsLine fuel (n / 10) ((b'0' + n % 10) ∷ acc) digit_plain)
    ]

print-IsLine : (z : ℤ) → IsLine (print z)
unfolding print
print-IsLine (pos n) = digits-IsLine (suc n) n [] tt
print-IsLine (negsuc n) = ((omega arith, omega arith), digits-IsLine (suc (suc n)) (suc n) [] tt)

pub unbroken-IsLine : (v : Units) → any breaks_line v ≡ false → IsLine v
unbroken-IsLine [] h = tt
unbroken-IsLine (c ∷ v) h = (ground arith, unbroken-IsLine v (ground arith))

-- The options of a definition are lines.
abbrev pub HasLineOptions : PropertyDefinition → Type 0
HasLineOptions d = (o : Units) → is_option d.options o ≡ true → IsLine o

-- A value that is accepted for a setting: what the kind of the setting asks of it.
unfoldable pub Accepts : PropertyKind → PropertyDefinition → Units → Units → Type 0
Accepts flag d raw v = (v ≡ raw) × ((raw ≡ codes "true") ⊎ (raw ≡ codes "false"))
Accepts number d raw v =
    (z : ℤ) × (number_of raw ≡ some z)
    × (is_above d.min z ≡ true)
    × (is_below d.max z ≡ true)
    × (v ≡ print z)
Accepts choice d raw v = (v ≡ raw) × (is_option d.options raw ≡ true)
Accepts free_text d raw v = (v ≡ raw) × (any breaks_line raw ≡ false)

-- A value behind one test.
guard-eq-ok :
    (test : Bool) (raw v : Units)
    → (guard test internal >> ok raw) ≡ ok v
    → (v ≡ raw) × (test ≡ true)
guard-eq-ok true raw v h = (cc, refl)
guard-eq-ok false raw v h = absurd (ground arith)

guard_passed :
    (test : Bool) (raw v : Units) → v ≡ raw → test ≡ true → (guard test internal >> ok raw) ≡ ok v
guard_passed test raw v e passed = rw passed (cc e)

coerce_number-Accepts :
    (d : PropertyDefinition) (raw v : Units)
    → coerce_number d (number_of raw) ≡ ok v
    → Accepts number d raw v
unfolding coerce_number Accepts
coerce_number-Accepts d raw v h = elim (Option-cases (number_of raw)) [
  | inl e ↦ absurd (ground (arith, e))
  | inr (z, e) ↦ (z, e, ground (arith, e, h), ground (arith, e, h), ground (arith, e, h))
]

true_or_false :
    (raw : Units)
    → (units_eq raw (codes "true") || units_eq raw (codes "false")) ≡ true
    → (raw ≡ codes "true") ⊎ (raw ≡ codes "false")
true_or_false raw h = elim (Bool-cases (units_eq raw (codes "true"))) [
  | inl e ↦ inl ((units_eq_iff raw (codes "true")).0 e)
  | inr n ↦ inr ((units_eq_iff raw (codes "false")).0 (ground (arith, n, h)))
]

coerce_kind-Accepts :
    (k : PropertyKind) (d : PropertyDefinition) (raw v : Units)
    → coerce_kind k d raw ≡ ok v
    → Accepts k d raw v
unfolding coerce_kind Accepts
coerce_kind-Accepts flag d raw v h =
    let (e, test) =
      guard-eq-ok (units_eq raw (codes "true") || units_eq raw (codes "false")) raw v h in
    (e, true_or_false raw test)
coerce_kind-Accepts number d raw v h = coerce_number-Accepts d raw v h
coerce_kind-Accepts choice d raw v h = guard-eq-ok (is_option d.options raw) raw v h
coerce_kind-Accepts free_text d raw v h =
    let (e, test) = guard-eq-ok (not (any breaks_line raw)) raw v h in (e, ground (arith, test))

coerce_kind_complete :
    (k : PropertyKind) (d : PropertyDefinition) (raw v : Units)
    → Accepts k d raw v
    → coerce_kind k d raw ≡ ok v
unfolding coerce_kind coerce_number Accepts
coerce_kind_complete flag d raw v (e, inl t) = rw e (rw t refl)
coerce_kind_complete flag d raw v (e, inr f) = rw e (rw f refl)
coerce_kind_complete number d raw v (z, n, low, high, e) = rw n (rw low (rw high (rw e refl)))
coerce_kind_complete choice d raw v (e, o) = guard_passed (is_option d.options raw) raw v e o
coerce_kind_complete free_text d raw v (e, o) =
    guard_passed (not (any breaks_line raw)) raw v e (ground (arith, o))

words-IsLine : IsLine (codes "true") × IsLine (codes "false")
words-IsLine = (unbroken-IsLine (codes "true") refl, unbroken-IsLine (codes "false") refl)

Accepts-IsLine :
    (k : PropertyKind) (d : PropertyDefinition) (raw v : Units)
    → HasLineOptions d
    → Accepts k d raw v
    → IsLine v
unfolding Accepts
Accepts-IsLine flag d raw v h (e, inl t) = subst IsLine (sym (e ∙ t)) words-IsLine.0
Accepts-IsLine flag d raw v h (e, inr f) = subst IsLine (sym (e ∙ f)) words-IsLine.1
Accepts-IsLine number d raw v h (z, n, low, high, e) = subst IsLine (sym e) (print-IsLine z)
Accepts-IsLine choice d raw v h (e, o) = subst IsLine (sym e) (h raw o)
Accepts-IsLine free_text d raw v h (e, o) = subst IsLine (sym e) (unbroken-IsLine raw o)

-- A value is accepted exactly as its kind asks.
coerce_property_value-eq-ok_iff :
    (d : PropertyDefinition) (raw : Option Units) (v : Units)
    → (coerce_property_value d raw ≡ ok v) ↔ Accepts d.kind d (text_of raw) v
unfolding coerce_property_value
coerce_property_value-eq-ok_iff d raw v =
    (coerce_kind-Accepts d.kind d (text_of raw) v, coerce_kind_complete d.kind d (text_of raw) v)

-- A submitted value that is accepted has no line feed and no carriage return, if the options of the
-- setting have none, so it cannot bring another setting into the file.
pub coerce_property_value-IsLine :
    (d : PropertyDefinition) (raw : Option Units) (v : Units)
    → HasLineOptions d
    → coerce_property_value d raw ≡ ok v
    → IsLine v
coerce_property_value-IsLine d raw v h e =
    Accepts-IsLine d.kind d (text_of raw) v h ((coerce_property_value-eq-ok_iff d raw v).0 e)
