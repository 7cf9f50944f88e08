-- ===== src/Schedules/Cron.antt =====
-- cron.ts: the five-field parser. Texts are lists of code units; a thrown `CronError` is `none`.
mod Sets
pub mod Fields
pub mod Typos
pub mod Calendar
pub mod NextRun
use renom.Prelude.{
  Bool, List, Option, Units, [], false, if◌then◌else◌, leb, length, ltb, none, not, refl, some, suc,
  true, units_eq, zero, ℕ, ◌++◌, ◌+◌, ◌-◌, ◌==◌, ◌||◌, ◌∷◌, ◌≡◌,
}
use renom.JsText.{trim, is_digit, has_unit}
use renom.JsText.Split.{split, split_spaces}
use renom.JsText.Number.{ℤ, pos, negsuc, integer, digits_from}

pub record CronFields : Type 0 where
  pub minute : List ℕ
  pub hour : List ℕ
  pub dom : List ℕ
  pub month : List ℕ
  pub dow : List ℕ
  pub dom_is_star : Bool
  pub dow_is_star : Bool

infixl 5 ◌>>=◌ ◌>>◌
abbrev pub ◌>>=◌ {ℓ κ} : {A : Type ℓ} {B : Type κ} → Option A → (A → Option B) → Option B
none >>= f = none
some a >>= f = f a

abbrev pub ◌>>◌ {ℓ} : {B : Type ℓ} → Option (Unit {0}) → Option B → Option B
m >> k = m >>= λ _. k

-- `if (!test) throw new CronError(…)`.
abbrev pub guard : Bool → Option (Unit {0})
guard true = some tt
guard false = none

abbrev pub star : Units
star = b'*' ∷ []

-- `new Set<number>()`, in the order of insertion.
unfoldable pub includes : List ℕ → ℕ → Bool
includes [] x = false
includes (y ∷ ys) x = y == x || includes ys x

unfoldable pub add : List ℕ → ℕ → List ℕ
add out v = if includes out v then out else out ++ v ∷ []

-- `for (let v = lo; v <= hi; v += step) out.add(v)`, with a round for every number up to `hi`.
unfoldable pub add_range : ℕ → ℕ → ℕ → ℕ → List ℕ → List ℕ
add_range zero v hi step out = out
add_range (suc rounds) v hi step out =
    let rest = add_range rounds (v + step) hi step (add out v) in if leb v hi then rest else out

-- `[...out].sort((a, b) => a - b)`.
unfoldable pub insert_sorted : ℕ → List ℕ → List ℕ
insert_sorted x [] = x ∷ []
insert_sorted x (y ∷ ys) = let rest = insert_sorted x ys in if leb x y then x ∷ y ∷ ys else y ∷ rest

unfoldable pub sort : List ℕ → List ℕ
sort [] = []
sort (x ∷ xs) = insert_sorted x (sort xs)

-- A whole number that is not negative: a part between dashes holds no minus sign, so a negative
-- number arises in no range that is looked at.
abbrev pub natural : Option ℤ → Option ℕ
natural (some (pos n)) = some n
natural _ = none

-- `stepPart`: absent is 1, and otherwise decimal digits for a number that is at least 1.
unfoldable pub parse_step : Option Units → Option ℕ
parse_step none = some 1
parse_step (some part) = do step ← digits_from 10 false 0 part; guard (leb 1 step); some step

abbrev pub step_given : Option Units → Bool
step_given none = false
step_given (some part) = true

-- `dashes.map(Number)` of exactly two dashes.
unfoldable pub parse_bounds : List Units → Option (ℕ × ℕ)
parse_bounds (a ∷ b ∷ []) = do lo ← natural (integer a); hi ← natural (integer b); some (lo, hi)
parse_bounds _ = none

-- `rangePart`: a star, a range, or one value, which a step opens up to the maximum.
unfoldable pub parse_range : ℕ → ℕ → Units → Bool → Option (ℕ × ℕ)
parse_range low high part stepped =
    if units_eq part star
    then some (low, high)
    else if has_unit b'-' part
    then parse_bounds (split b'-' part)
    else do v ← natural (integer part); some (v, (if stepped then high else v))

-- `const [rangePart, stepPart] = slashes`, refused if there are more than two.
abbrev pub slash_parts : List Units → Option (Units × Option Units)
slash_parts (range ∷ []) = some (range, none)
slash_parts (range ∷ step ∷ []) = some (range, some step)
slash_parts _ = none

-- What one entry between commas stands for.
pub record Chunk : Type 0 where
  pub lo : ℕ
  pub hi : ℕ
  pub step : ℕ

unfoldable pub parse_chunk : ℕ → ℕ → Units → Option Chunk
parse_chunk low high [] = none
parse_chunk low high (c ∷ s) = do
  parts ← slash_parts (split b'/' (c ∷ s))
  step ← parse_step parts.1
  range ← parse_range low high parts.0 (step_given parts.1)
  guard (not (ltb range.0 low || ltb high range.1 || ltb range.1 range.0))
  some (record { lo = range.0; hi = range.1; step = step })

-- The loop over the entries of a field.
unfoldable pub parse_chunks : ℕ → ℕ → List Units → List ℕ → Option (List ℕ)
parse_chunks low high [] out = some out
parse_chunks low high (chunk ∷ chunks) out = do
  c ← parse_chunk low high chunk
  parse_chunks low high chunks (add_range (c.hi + 1 - c.lo) c.lo c.hi c.step out)

unfoldable pub parse_field : ℕ → ℕ → Units → Option (List ℕ)
parse_field low high [] = none
parse_field low high (c ∷ s) = do
  out ← parse_chunks low high (split b',' (c ∷ s)) []
  guard (ltb 0 (length out))
  some (sort out)

-- `RANGES` are the bounds in the calls below.
unfoldable pub parse_parts : List Units → Option CronFields
parse_parts (minute ∷ hour ∷ dom ∷ month ∷ dow ∷ []) = do
  minutes ← parse_field 0 59 minute
  hours ← parse_field 0 23 hour
  doms ← parse_field 1 31 dom
  months ← parse_field 1 12 month
  dows ← parse_field 0 6 dow
  some (record {
    minute = minutes;
    hour = hours;
    dom = doms;
    month = months;
    dow = dows;
    dom_is_star = units_eq (trim dom) star;
    dow_is_star = units_eq (trim dow) star;
  })
parse_parts _ = none

unfoldable pub parse_cron : Units → Option CronFields
parse_cron expr = parse_parts (split_spaces (trim expr))

pub >>=-eq-some {ℓ κ} :
    {A : Type ℓ} {B : Type κ} (m : Option A) (f : A → Option B) {b : B}
    → (m >>= f) ≡ some b
    → (a : A) × (m ≡ some a) × (f a ≡ some b)
>>=-eq-some (some a) f h = (a, refl, h)
>>=-eq-some none f h = cc

-- Unfolded where a text is parsed for a test.
unfoldable pub runs : Unit {0}
unfolding parse_cron parse_parts parse_field parse_chunks parse_chunk parse_range parse_bounds
    parse_step sort insert_sorted add_range add includes split split_spaces trim integer digits_from
runs = tt
