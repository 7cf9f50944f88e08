-- ===== src/JsText.antt =====
-- What the program uses of the strings and the numbers of JavaScript, over UTF-16 code units.
pub mod Split
pub mod Number
pub mod Digits
use renom.Prelude.{Bool, Units, [], any, false, if◌then◌else◌, leb, true, ℕ, ◌&&◌, ◌==◌, ◌||◌, ◌∷◌}

-- White space of `trim` and `\s`.
unfoldable pub is_space : ℕ → Bool
is_space c =
    (leb 9 c && leb c 13)
    || c == 32
    || c == 0xa0
    || c == 0x1680
    || (leb 0x2000 c && leb c 0x200a)
    || c == 0x2028
    || c == 0x2029
    || c == 0x202f
    || c == 0x205f
    || c == 0x3000
    || c == 0xfeff

unfoldable pub trim_start : Units → Units
unfolding is_space
trim_start [] = []
trim_start (c ∷ s) = let rest = trim_start s in if is_space c then rest else c ∷ s

unfoldable pub trim_end : Units → Units
unfolding is_space
trim_end [] = []
trim_end (c ∷ s) =
    let rest = trim_end s in
    elim rest [ [] ↦ if is_space c then [] else c ∷ [] | x ∷ r ↦ c ∷ x ∷ r ]

unfoldable pub trim : Units → Units
unfolding trim_start trim_end
trim s = trim_end (trim_start s)

abbrev pub is_digit : ℕ → Bool
is_digit c = leb b'0' c && leb c b'9'

abbrev pub has_unit : ℕ → Units → Bool
has_unit c = any (λ u. u == c)

unfoldable pub starts_with : Units → Units → Bool
starts_with s [] = true
starts_with [] (p ∷ ps) = false
starts_with (c ∷ s) (p ∷ ps) = c == p && starts_with s ps
