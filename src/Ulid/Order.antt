-- ===== src/Ulid/Order.antt =====
-- The order of the identifiers of one millisecond.
use renom.Prelude.{
  All, Bool, Bool-cases, List, [], ap, arith, false, if◌then◌else◌, inl, inr, leb, not, refl, some,
  subst, sym, true, ℕ, ◌*◌, ◌+◌, ◌∙◌, ◌∷◌, ◌≡◌, ◌≤◌, ◌⊎◌,
}
use renom.Ulid.{UlidState, advance, increment_from, is_last, ulid}

-- The number that bytes stand for behind `acc`, the first one highest.
unfoldable pub value_from : ℕ → List ℕ → ℕ
value_from acc [] = acc
value_from acc (byte ∷ bytes) = value_from (acc * 256 + byte) bytes

abbrev pub AreBytes : List ℕ → Type 0
AreBytes = All (λ b. b ≤ 255)

-- Either the number goes up by one, or the carry runs out of the bytes, which were all full.
abbrev Incremented : ℕ → List ℕ → List ℕ × Bool → Type 0
Incremented acc bytes (out, carry) =
    ((carry ≡ false) × (value_from acc out ≡ value_from acc bytes + 1))
    ⊎ ((carry ≡ true)
        × (value_from (acc + 1) out ≡ value_from acc bytes + 1)
        × All (λ b. b ≡ 255) bytes
        × All (λ b. b ≡ 0) out)

-- One more byte in front of bytes that were incremented.
step-Incremented :
    (acc byte : ℕ) (bytes out : List ℕ) (carry : Bool)
    → byte ≤ 255
    → Incremented (acc * 256 + byte) bytes (out, carry)
    → Incremented acc (byte ∷ bytes) (
        if not carry
        then (byte ∷ out, false)
        else if leb (byte + 1) 255
        then ((byte + 1) ∷ out, false)
        else (0 ∷ out, true))
unfolding value_from
step-Incremented acc byte bytes out false h (inl (c, v)) = inl (refl, v)
step-Incremented acc byte bytes out false h (inr (c, v, full, zeros)) = absurd (ground (arith, c))
step-Incremented acc byte bytes out true h (inl (c, v)) = absurd (ground (arith, c))
step-Incremented acc byte bytes out true h (inr (c, v, full, zeros)) =
    elim (Bool-cases (leb (byte + 1) 255)) [
      | inl e ↦
          let next : acc * 256 + (byte + 1) ≡ acc * 256 + byte + 1 = omega arith in
          rw e (inl (refl, ap (λ a. value_from a out) next ∙ v))
      | inr e ↦
          let last : byte ≡ 255 = ground (arith, h, e) in
          let next : (acc + 1) * 256 + 0 ≡ acc * 256 + byte + 1 = omega arith in
          rw e (inr (refl, ap (λ a. value_from a out) next ∙ v, (last, full), (refl, zeros)))
    ]

increment_lem :
    (acc : ℕ) (bytes : List ℕ) → AreBytes bytes → Incremented acc bytes (increment_from bytes)
unfolding increment_from value_from
increment_lem acc [] h = inr (refl, refl, tt, tt)
increment_lem acc (byte ∷ bytes) (b, h) =
    step-Incremented acc byte bytes (increment_from bytes).0 (increment_from bytes).1 b
      (increment_lem (acc * 256 + byte) bytes h)

-- The random number of `next` is the one behind that of `st`, or it has run over.
abbrev pub Follows : ℕ → UlidState → UlidState → Type 0
Follows now st next =
    (next.last_time ≡ some now)
    × ((value_from 0 next.last_random ≡ value_from 0 st.last_random + 1)
        ⊎ (All (λ b. b ≡ 255) st.last_random × All (λ b. b ≡ 0) next.last_random))

follows :
    (bytes : List ℕ) (r : List ℕ × Bool)
    → Incremented 0 bytes r
    → (value_from 0 r.0 ≡ value_from 0 bytes + 1)
      ⊎ (All (λ b. b ≡ 255) bytes × All (λ b. b ≡ 0) r.0)
follows bytes (out, carry) (inl (c, v)) = inl v
follows bytes (out, carry) (inr (c, v, full, zeros)) = inr (full, zeros)

-- A further identifier of the same millisecond has the next random number, except where all the bytes
-- were full: then it starts again at 0, below the one before.
pub ulid-Follows :
    (now : ℕ) (random : List ℕ) (st : UlidState)
    → st.last_time ≡ some now
    → AreBytes st.last_random
    → Follows now st (ulid now random st).1
unfolding ulid advance
ulid-Follows now random st same h =
    let last : is_last st.last_time now ≡ true = ground (arith, same) in
    let after : advance now random st
        ≡ record st { last_random = (increment_from st.last_random).0 } =
      rw (last, advance) refl in
    subst (Follows now st) (sym after) (
      same,
      follows st.last_random (increment_from st.last_random) (increment_lem 0 st.last_random h),
    )
