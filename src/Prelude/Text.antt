-- ===== src/Prelude/Text.antt =====
-- Texts that the program takes apart: the list of their UTF-16 code units. `JSON`, paths and keys
-- that are only compared stay native texts.
use Prim.Native.Nat.{ℕ}
use Prim.Native.Char.{code}
use Prim.Native.String.{String}
use mathlib.Core.Path.{◌≡◌, refl}
use mathlib.Core.Logic.{◌↔◌}
use mathlib.Core.Bool.{Bool, true, false, ◌&&◌}
use mathlib.Core.List.{List, [], ◌∷◌}
use native.Mathlib.Omega.{arith}
use renom.Prelude.Tests.{◌==◌}

abbrev pub Units : Type 0
Units = List ℕ

-- The code units of a literal, which is ASCII wherever this is used.
abbrev pub codes : String → Units
codes String.[] = []
codes (String.◌∷◌ c s) = code c ∷ codes s

abbrev pub units_eq : Units → Units → Bool
units_eq [] [] = true
units_eq (a ∷ s) (b ∷ t) = (a == b) && units_eq s t
units_eq _ _ = false

pub units_eq_sound : (s t : Units) → units_eq s t ≡ true → s ≡ t
units_eq_sound [] [] h = refl
units_eq_sound (a ∷ s) (b ∷ t) h = ground (arith, units_eq_sound s t)
units_eq_sound _ _ h = cc

pub units_eq_refl : (s : Units) → units_eq s s ≡ true
units_eq_refl [] = refl
units_eq_refl (a ∷ s) = ground (arith, units_eq_refl s)

pub units_eq_iff : (s t : Units) → (units_eq s t ≡ true) ↔ (s ≡ t)
units_eq_iff s t = (units_eq_sound s t, λ e. rw e (units_eq_refl t))
