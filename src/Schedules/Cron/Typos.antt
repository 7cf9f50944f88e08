-- ===== src/Schedules/Cron/Typos.antt =====
-- Texts that the parser takes though they are no cron syntax, and tests of it.
use renom.Prelude.{Bool, Units, [], codes, none, refl, some, ℕ, ◌∷◌, ◌≡◌}
use renom.JsText.Split.{split, split_at, split_at_piece, Lacks}
use renom.JsText.Number.{integer}
use renom.Schedules.Cron.{parse_bounds, parse_range, parse_field, parse_cron, runs}

-- A range with nothing before its dash is read as one from 0.
pub parse_range-dash :
    (low high : ℕ) (s : Units) (stepped : Bool)
    → Lacks b'-' s
    → parse_range low high (b'-' ∷ s) stepped ≡ parse_range low high (b'0' ∷ b'-' ∷ s) stepped
unfolding parse_range parse_bounds split split_at integer
parse_range-dash low high s stepped h = rw (split_at_piece b'-' s h)

field_tests :
    (parse_field 0 59 (codes "*/15") ≡ some (0 ∷ 15 ∷ 30 ∷ 45 ∷ []))
    × (parse_field 0 59 (codes "5,1-3") ≡ some (1 ∷ 2 ∷ 3 ∷ 5 ∷ []))
    × (parse_field 0 59 (codes "50/5") ≡ some (50 ∷ 55 ∷ []))
    × (parse_field 0 59 (codes "60") ≡ none)
    × (parse_field 0 6 (codes "-2") ≡ some (0 ∷ 1 ∷ 2 ∷ []))
    × (parse_field 1 12 (codes "1-2-3") ≡ none)
    × (parse_cron (codes "0 4 * *") ≡ none)
unfolding runs
field_tests = (refl, refl, refl, refl, refl, refl, refl)
