-- ===== src/JsText/Number.antt =====
-- `Number(text)` where the program goes on only with a whole number: the numeric literals of
-- JavaScript, rounded to the nearest double, to the even one of two: a literal that is too large is
-- `Infinity`, and one that is too small is 0.
use mathlib.Core.Option
use renom.Prelude.{
  Bool, Option, Units, [], codes, false, if◌then◌else◌, leb, ltb, none, not, refl, some, suc, true,
  zero, ℕ, ◌%◌, ◌&&◌, ◌*◌, ◌+◌, ◌-◌, ◌/◌, ◌==◌, ◌^◌, ◌||◌, ◌∷◌, ◌≡◌,
}
use renom.JsText.{trim, is_digit}

-- `negsuc n` is -(n + 1).
pub data ℤ : Type 0 where
  pos : ℕ → ℤ
  negsuc : ℕ → ℤ

abbrev pub neg : ℕ → ℤ
neg zero = pos 0
neg (suc n) = negsuc n

-- The value of a digit in a base up to 36, if it is one.
unfoldable pub digit_value : ℕ → ℕ → Option ℕ
digit_value base c =
    let v =
      if is_digit c
      then c - b'0'
      else if leb b'a' c && leb c b'z'
      then c - b'a' + 10
      else if leb b'A' c && leb c b'Z'
      then c - b'A' + 10
      else 99 in
    if ltb v base then some v else none

-- All digits of a text, at least one unless `seen`.
unfoldable pub digits_from : ℕ → Bool → ℕ → Units → Option ℕ
unfolding digit_value
digits_from base seen acc [] = if seen then some acc else none
digits_from base seen acc (c ∷ s) = elim (digit_value base c) [
  | none ↦ none
  | some v ↦ digits_from base true (acc * base + v) s
]

-- A decimal literal in scanning: the digits so far, how many stand behind the point, and whether a
-- digit was seen.
pub record Mantissa : Type 0 where
  pub value : ℕ
  pub scale : ℕ
  pub seen : Bool

abbrev double_range : ℕ
double_range = 2 ^ 53

-- By how many halvings a number comes below 2 ^ 53, of at most `fuel`.
unfoldable halvings : ℕ → ℕ → ℕ
halvings zero n = 0
halvings (suc fuel) n = elim (ltb n double_range) [ true ↦ 0 | false ↦ suc (halvings fuel (n / 2)) ]

-- How often a quotient may be doubled below 2 ^ 53, at most `fuel` times.
unfoldable doublings : ℕ → ℕ → ℕ → ℕ
doublings zero num den = 0
doublings (suc fuel) num den = elim (ltb (num * 2) (den * double_range)) [
  | true ↦ suc (doublings fuel (num * 2) den)
  | false ↦ 0
]

-- The nearest whole number to a quotient, the even one of two.
unfoldable nearest : ℕ → ℕ → ℕ
nearest num den =
    let q = num / den in
    let twice = num % den * 2 in if ltb twice den || (twice == den && q % 2 == 0) then q else q + 1

-- The double that is nearest to a quotient, if that is a whole number and finite. Its last bit stands
-- for 2 ^ -1074 at least, and it is below 2 ^ 1024.
unfoldable pub rounded : ℕ → ℕ → Option ℕ
unfolding halvings doublings nearest
rounded num den =
    let s = halvings 1100 (num / den) in
    let n = nearest num (den * 2 ^ s) in
    let t = doublings 1074 num den in
    let m = nearest (num * 2 ^ t) den in
    if ltb (num / den) double_range
    then (elim (num % den == 0) [
      | true ↦ some (num / den)
      | false ↦ if m % 2 ^ t == 0 then some (m / 2 ^ t) else none
    ])
    else if ltb (n * 2 ^ s) (2 ^ 1024)
    then some (n * 2 ^ s)
    else none

-- mantissa · 10 ^ (exponent - scale), as a double, if that is whole
unfoldable pub whole : Mantissa → Bool → ℕ → Option ℕ
unfolding rounded
whole m false e = rounded (m.value * 10 ^ e) (10 ^ m.scale)
whole m true e = rounded m.value (10 ^ (m.scale + e))

unfoldable pub exponent : Mantissa → Units → Option ℕ
unfolding whole digits_from
exponent m [] = none
exponent m (c ∷ s) =
    if c == b'-'
    then (elim (digits_from 10 false 0 s) [ none ↦ none | some e ↦ whole m true e ])
    else if c == b'+'
    then (elim (digits_from 10 false 0 s) [ none ↦ none | some e ↦ whole m false e ])
    else (elim (digits_from 10 false 0 (c ∷ s)) [ none ↦ none | some e ↦ whole m false e ])

-- The flag says that the point was passed.
unfoldable pub decimal_from : Bool → Mantissa → Units → Option ℕ
unfolding exponent
decimal_from point m [] = if m.seen then whole m false 0 else none
decimal_from point m (c ∷ s) =
    let next =
      decimal_from point
        (record {
          value = m.value * 10 + (c - b'0');
          scale = (if point then m.scale + 1 else m.scale);
          seen = true;
        })
        s in
    let passed = decimal_from true m s in
    if is_digit c
    then next
    else if c == b'.'
    then (if point then none else passed)
    else if (c == b'e' || c == b'E') && m.seen
    then exponent m s
    else none

unfoldable pub decimal : Units → Option ℕ
unfolding decimal_from
decimal s = decimal_from false (record { value = 0; scale = 0; seen = false }) s

-- A literal behind an optional sign; `Infinity` and all else is no whole number.
unfoldable pub signed : Units → Option ℤ
unfolding decimal
signed [] = some (pos 0)
signed (c ∷ s) =
    if c == b'-'
    then Option.map neg (decimal s)
    else if c == b'+'
    then Option.map pos (decimal s)
    else Option.map pos (decimal (c ∷ s))

-- A literal of digits of a base behind its prefix.
unfoldable pub radix : ℕ → Units → Option ℤ
unfolding digits_from rounded
radix base s = elim (digits_from base false 0 s) [
  | none ↦ none
  | some n ↦ Option.map pos (rounded n 1)
]

unfoldable pub prefixed : Units → Option ℤ
unfolding signed radix
prefixed (zero_digit ∷ x ∷ s) =
    let hex = radix 16 s in
    let octal = radix 8 s in
    let binary = radix 2 s in
    if not (zero_digit == b'0')
    then signed (zero_digit ∷ x ∷ s)
    else if x == b'x' || x == b'X'
    then hex
    else if x == b'o' || x == b'O'
    then octal
    else if x == b'b' || x == b'B'
    then binary
    else signed (zero_digit ∷ x ∷ s)
prefixed s = signed s

-- `Number(s)` with `Number.isInteger`.
unfoldable pub integer : Units → Option ℤ
unfolding prefixed trim
integer s = prefixed (trim s)

integer_tests :
    (integer (codes "42") ≡ some (pos 42))
    × (integer (codes "") ≡ some (pos 0))
    × (integer (codes "-1") ≡ some (negsuc 0))
    × (integer (codes "0x10") ≡ some (pos 16))
    × (integer (codes "1.5e1") ≡ some (pos 15))
    × (integer (codes "1.5") ≡ none)
    × (integer (codes "5a") ≡ none)
    × (integer (codes ".") ≡ none)
unfolding integer
integer_tests = (refl, refl, refl, refl, refl, refl, refl, refl)

double_tests :
    (integer (codes "1e400") ≡ none)
    × (integer (codes "1e-400") ≡ some (pos 0))
    × (integer (codes "9007199254740993") ≡ some (pos 9007199254740992))
    × (integer (codes "0.99999999999999999999") ≡ some (pos 1))
    × (integer (codes "0.1") ≡ none)
unfolding integer
double_tests = (refl, refl, refl, refl, refl)
