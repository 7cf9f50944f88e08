-- ===== src/JsText/Digits.antt =====
-- `String(n)` of a whole number.
use renom.Prelude.{Units, [], if◌then◌else◌, ltb, suc, zero, ℕ, ◌%◌, ◌++◌, ◌+◌, ◌/◌, ◌∷◌}

-- The decimal digits of a number below `10 ^ fuel`.
unfoldable pub digits_of : ℕ → ℕ → Units
digits_of zero n = []
digits_of (suc fuel) n =
    let front = digits_of fuel (n / 10) in
    if ltb n 10 then (b'0' + n) ∷ [] else front ++ (b'0' + n % 10) ∷ []

-- `String(n)`.
unfoldable pub show : ℕ → Units
unfolding digits_of
show n = digits_of (suc n) n
