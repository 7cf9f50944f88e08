-- ===== src/Backups/Names.antt =====
-- The names of the archives, and the loop that reserves one.
pub mod Fresh
use renom.Prelude.{
  Bool, List, Option, String, Units, [], codes, false, if◌then◌else◌, leb, length, ltb, none, some,
  suc, true, units_eq_inst, zero, ℕ, ◌&&◌, ◌++◌, ◌+◌, ◌==◌, ◌||◌, ◌∷◌,
}
use renom.JsText.{is_digit}
use renom.JsText.Digits.{show}
use renom.JsMap.{has}
use renom.Backups.{Stamp, archive_path}

-- `[\w.-]`.
unfoldable pub is_name_unit : ℕ → Bool
is_name_unit c =
    is_digit c
    || (leb b'a' c && leb c b'z')
    || (leb b'A' c && leb c b'Z')
    || c == b'_'
    || c == b'.'
    || c == b'-'

-- `replace(/[^\w.-]+/g, "-")`; the flag says that the unit before was replaced.
unfoldable pub replace_runs : Bool → Units → Units
unfolding is_name_unit
replace_runs inside [] = []
replace_runs inside (c ∷ s) =
    let name = replace_runs false s in
    let run = replace_runs true s in
    if is_name_unit c then c ∷ name else if inside then run else b'-' ∷ run

unfoldable pub software_of : String → Units
unfolding replace_runs
software_of slug =
    let name = replace_runs false (codes slug) in if length name == 0 then codes "server" else name

-- `padStart(2, "0")`.
unfoldable pub pad : ℕ → Units
unfolding show
pad n = if ltb (length (show n)) 2 then b'0' ∷ show n else show n

-- `<software>_<YYYY-MM-DD>_<HH-MM-SS>`.
unfoldable pub base_name : Units → Stamp → Units
unfolding pad show
base_name software t =
    software
    ++ (b'_' ∷ show t.year)
    ++ (b'-' ∷ pad t.month)
    ++ (b'-' ∷ pad t.date)
    ++ (b'_' ∷ pad t.hours)
    ++ (b'-' ∷ pad t.minutes)
    ++ (b'-' ∷ pad t.seconds)

-- The name that is tried first is number 1, the ones that carry `attempt` follow.
unfoldable pub candidate : Units → ℕ → Units
unfolding show
candidate base attempt =
    base ++ (if leb attempt 1 then codes ".tar.gz" else b'-' ∷ (show attempt ++ codes ".tar.gz"))

-- `openSync(dest, "wx")` until a name is not there: from name number `attempt` on.
unfoldable pub reserve_from : ℕ → ℕ → String → Units → List (Units × String) → Option Units
unfolding candidate has
reserve_from zero attempt server base archives = none
reserve_from (suc fuel) attempt server base archives =
    let next = reserve_from fuel (attempt + 1) server base archives in
    if has archives (archive_path server (candidate base attempt))
    then next
    else some (candidate base attempt)

unfoldable pub reserve : String → Units → List (Units × String) → Option Units
unfolding reserve_from
reserve server base archives = reserve_from (suc (length archives)) 1 server base archives
