-- ===== src/Runtime/Launch/Substitute.antt =====
-- Each variable of a template is replaced once.
use renom.Prelude.{All, Units, [], true, units_eq_inst, ℕ, ◌||◌, ◌∷◌, ◌≡◌}
use renom.JsText.{is_digit}
use renom.Runtime.Launch.{is_key_start}

-- A key: a letter or a low line, and then letters, digits and low lines.
abbrev pub IsKey : Units → Type 0
IsKey [] = ◌≡◌ {A = ℕ} 0 1
IsKey (c ∷ key) = (is_key_start c ≡ true) × All (λ d. (is_key_start d || is_digit d) ≡ true) key
