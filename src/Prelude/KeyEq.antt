-- ===== src/Prelude/KeyEq.antt =====
-- Decidable equality of keys, as an instance argument.
use Prim.Native.String.{String}
use mathlib.Core.Path.{◌≡◌}
use mathlib.Core.Logic.{◌↔◌}
use mathlib.Core.Bool.{Bool, true}
use text.Mathlib.Text.{◌==◌ as text_eq}
use text.Mathlib.TextEquality.{eq_iff}
use renom.Prelude.Text.{Units, units_eq, units_eq_iff}

-- `===` on a type of keys.
pub record KeyType {ℓ} (K : Type ℓ) : Type ℓ where
  pub eqb : K → K → Bool
  pub eqb_iff : (j k : K) → (eqb j k ≡ true) ↔ (j ≡ k)

instance abbrev pub units_eq_inst : KeyType Units
units_eq_inst = record { eqb = units_eq; eqb_iff = units_eq_iff }

instance abbrev pub string_eq : KeyType String
string_eq = record { eqb_iff = eq_iff; eqb = text_eq }
