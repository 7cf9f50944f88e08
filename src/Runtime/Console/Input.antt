-- ===== src/Runtime/Console/Input.antt =====
-- The text that `sendInput` writes.
use renom.Prelude.{
  All, Bool-cases, Units, [], arith, false, inl, inr, length, length-take, some, suc, take, zero, ℕ,
  ◌++◌, ◌<◌, ◌==◌, ◌∷◌, ◌≡◌, ◌≤◌,
}
use renom.Runtime.Console.{is_control, line_max, strip_control, input_of}

-- Neither a control character nor a line end.
abbrev pub IsPlain : Units → Type 0
IsPlain = All (λ c. is_control c ≡ false)

strip_control-IsPlain : (s : Units) → IsPlain (strip_control s)
unfolding strip_control
strip_control-IsPlain [] = tt
strip_control-IsPlain (c ∷ s) = elim (Bool-cases (is_control c)) [
  | inl e ↦ rw (e, strip_control) (strip_control-IsPlain s)
  | inr e ↦ rw (e, strip_control) (e, strip_control-IsPlain s)
]

take-IsPlain : (n : ℕ) (s : Units) → IsPlain s → IsPlain (take n s)
take-IsPlain zero s h = tt
take-IsPlain (suc n) [] h = tt
take-IsPlain (suc n) (c ∷ s) (p, h) = (p, take-IsPlain n s h)

-- One message is one command: what is written is a text without control characters, so without a line
-- end, of one unit to 4096, and one line feed behind it.
pub input_of-IsPlain :
    (line written : Units)
    → input_of line ≡ some written
    → (command : Units) × (written ≡ command ++ 10 ∷ [])
      × IsPlain command
      × (0 < length command)
      × (length command ≤ line_max)
unfolding input_of
input_of-IsPlain line written h =
    let clean = take line_max (strip_control line) in
    elim (Bool-cases (length clean == 0)) [
      | inl e ↦ absurd (ground (arith, e))
      | inr e ↦ (
        clean,
        ground (arith, e, h),
        take-IsPlain line_max (strip_control line) (strip_control-IsPlain line),
        ground (arith, e),
        omega (arith, length-take line_max (strip_control line)),
      )
    ]
