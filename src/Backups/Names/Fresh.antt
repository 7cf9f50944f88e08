-- ===== src/Backups/Names/Fresh.antt =====
-- A free name is found.
use renom.Prelude.{
  Bool-cases, List, Option-cases, String, Units, [], ap, append-left_cancel, append_assoc, arith,
  codes, false, if◌then◌else◌, inl, inr, leb, length, ltb, ltb→lt, none, refl, some, suc, sym, true,
  units_eq_inst, zero, ℕ, ◌%◌, ◌*◌, ◌++◌, ◌+◌, ◌-◌, ◌/◌, ◌<◌, ◌∙◌, ◌∷◌, ◌≡◌, ◌≢◌, ◌≤◌, ◌⊎◌,
}
use renom.JsText.{is_digit}
use renom.JsMap.{get, has, delete, get-delete_ne}
use renom.Backups.{archive_path}
use renom.JsText.Digits.{digits_of, show}
use renom.Backups.Names.{candidate, reserve, reserve_from}

-- The number at the front of a text.
unfoldable read : ℕ → Units → ℕ
read acc [] = acc
read acc (c ∷ s) = let rest = read (acc * 10 + (c - b'0')) s in if is_digit c then rest else acc

read-digit : (acc d : ℕ) (t : Units) → d < 10 → read acc ((b'0' + d) ∷ t) ≡ read (acc * 10 + d) t
unfolding read
read-digit acc d t h =
    let digit : is_digit (b'0' + d) ≡ true = ground arith in
    let value : acc * 10 + ((b'0' + d) - b'0') ≡ acc * 10 + d = omega arith in
    rw (digit, read) (ap (λ a. read a t) value)

read-digits_of : (fuel n : ℕ) → n < fuel → (t : Units) → read 0 (digits_of fuel n ++ t) ≡ read n t
unfolding digits_of
read-digits_of zero n h t = absurd (omega arith)
read-digits_of (suc fuel) n h t = elim (Bool-cases (ltb n 10)) [
  | inl e ↦
      let value : 0 * 10 + n ≡ n = omega arith in
      rw (e, digits_of) (read-digit 0 n t (ltb→lt n 10 e) ∙ ap (λ a. read a t) value)
  | inr e ↦
      let d = n % 10 in
      let large : 10 ≤ n = ground (arith, e) in
      let value : n / 10 * 10 + d ≡ n = omega arith in
      rw (e, digits_of)
        (ap (read 0) (append_assoc (digits_of fuel (n / 10)) ((b'0' + d) ∷ []) t)
          ∙ read-digits_of fuel (n / 10) (omega arith) ((b'0' + d) ∷ t)
          ∙ read-digit (n / 10) d t (omega arith)
          ∙ ap (λ a. read a t) value)
]

read-show : (n : ℕ) → read 0 (show n ++ codes ".tar.gz") ≡ n
unfolding show read
read-show n = read-digits_of (suc n) n (omega arith) (codes ".tar.gz")

candidate-injective : (base : Units) (i j : ℕ) → 1 ≤ i → i < j → candidate base i ≢ candidate base j
unfolding candidate
candidate-injective base i j low h e =
    let same =
      append-left_cancel base
        (if leb i 1 then codes ".tar.gz" else b'-' ∷ (show i ++ codes ".tar.gz"))
        (if leb j 1 then codes ".tar.gz" else b'-' ∷ (show j ++ codes ".tar.gz")) e in
    let second : leb j 1 ≡ false = ground arith in
    elim (Bool-cases (leb i 1)) [
      | inl f ↦ ground (arith, f, second, same)
      | inr f ↦
          let texts : show i ++ codes ".tar.gz" ≡ show j ++ codes ".tar.gz" =
            ground (arith, f, second, same) in
          omega (arith, sym (read-show i) ∙ ap (read 0) texts ∙ read-show j)
    ]

path-injective :
    (server : String) (base : Units) (i j : ℕ)
    → 1 ≤ i
    → i < j
    → archive_path server (candidate base i) ≢ archive_path server (candidate base j)
path-injective server base i j low h e =
    let names : b'/' ∷ candidate base i ≡ b'/' ∷ candidate base j =
      append-left_cancel (codes server) (b'/' ∷ candidate base i) (b'/' ∷ candidate base j) e in
    candidate-injective base i j low h (cc)

length-delete_old :
    (m : List (Units × String)) (k : Units) (v : String)
    → get m k ≡ some v
    → suc (length (delete m k)) ≡ length m
unfolding get delete
length-delete_old [] k v h = cc
length-delete_old ((j, w) ∷ m) k v h = ground (arith, length-delete_old m k v)

has-eq :
    (m : List (Units × String)) (k : Units)
    → ((has m k ≡ true) × (v : String) × (get m k ≡ some v))
      ⊎ ((has m k ≡ false) × (get m k ≡ none))
unfolding has
has-eq m k = elim (Option-cases (get m k)) [
  | inl e ↦ inr (rw (e, has) refl, e)
  | inr (v, e) ↦ inl (rw (e, has) refl, v, e)
]

module _ (server : String) (base : Units) (archives : List (Units × String)) where
  abbrev path_of : ℕ → Units
  path_of i = archive_path server (candidate base i)

  -- The archives that `left` holds are those whose names were not tried.
  abbrev Untried : ℕ → List (Units × String) → Type 0
  Untried attempt left = (i : ℕ) → attempt ≤ i → get left (path_of i) ≡ get archives (path_of i)

  Untried-delete :
      (attempt : ℕ) (left : List (Units × String))
      → 1 ≤ attempt
      → Untried attempt left
      → Untried (attempt + 1) (delete left (path_of attempt))
  Untried-delete attempt left low h i le =
      get-delete_ne left (path_of attempt) (path_of i)
        (path-injective server base attempt i low (omega arith))
      ∙ h i (omega arith)

  reserve_from-free :
      (fuel attempt : ℕ) (left : List (Units × String))
      → 1 ≤ attempt
      → length left < fuel
      → Untried attempt left
      → (i : ℕ) × (attempt ≤ i)
        × (reserve_from fuel attempt server base archives ≡ some (candidate base i))
        × (has archives (path_of i) ≡ false)
  unfolding reserve_from
  reserve_from-free zero attempt left low h u = absurd (omega arith)
  reserve_from-free (suc fuel) attempt left low h u = elim (has-eq archives (path_of attempt)) [
    | inl (e, v, g) ↦
        let old = u attempt (omega arith) ∙ g in
        let (i, le, r, free) =
          reserve_from-free fuel (attempt + 1) (delete left (path_of attempt)) (omega arith)
            (omega (arith, length-delete_old left (path_of attempt) v old))
            (Untried-delete attempt left low u) in
        (i, omega arith, rw (e, reserve_from) r, free)
    | inr (e, g) ↦ (attempt, omega arith, rw (e, reserve_from) refl, e)
  ]

  -- The loop that reserves a name ends, with a name of the form that the software and the time give,
  -- and no archive of the server has that name.
  pub reserve-free :
      (i : ℕ) × (1 ≤ i)
      × (reserve server base archives ≡ some (candidate base i))
      × (has archives (archive_path server (candidate base i)) ≡ false)
  unfolding reserve
  reserve-free =
      reserve_from-free (suc (length archives)) 1 archives (omega arith) (omega arith)
        (λ i le. refl)
