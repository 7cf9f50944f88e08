-- ===== src/Schedules/Cron/Sets.antt =====
-- The set that a field is collected in, and its sorting.
use renom.Prelude.{
  All, Bool-cases, List, [], ap, arith, false, inl, inr, leb, length, refl, suc, true, zero, ℕ, ◌*◌,
  ◌++◌, ◌+◌, ◌<◌, ◌==◌, ◌||◌, ◌↔◌, ◌∙◌, ◌∷◌, ◌≡◌, ◌≤◌, ◌⊎◌,
}
use renom.Schedules.Cron.{includes, add, add_range, insert_sorted, sort}

abbrev pub IsIncreasing : List ℕ → Type 0
IsIncreasing [] = Unit
IsIncreasing (x ∷ xs) = All (λ y. x < y) xs × IsIncreasing xs

-- No number twice.
abbrev pub HasNoRepeats : List ℕ → Type 0
HasNoRepeats [] = Unit
HasNoRepeats (x ∷ xs) = (includes xs x ≡ false) × HasNoRepeats xs

includes-append :
    (xs ys : List ℕ) (x : ℕ) → includes (xs ++ ys) x ≡ (includes xs x || includes ys x)
unfolding includes
includes-append [] ys x = refl
includes-append (y ∷ xs) ys x = ground (arith, includes-append xs ys x)

pub includes-add : (out : List ℕ) (v x : ℕ) → includes (add out v) x ≡ (includes out x || v == x)
unfolding add
includes-add out v x = elim (Bool-cases (includes out v)) [
  | inl old ↦ rw old (ground (arith, old, includes_eq out v x))
  | inr new ↦ rw new (rw (includes-append out (v ∷ []) x) (unfold includes in ground arith))
]
  where
    includes_eq :
        (o : List ℕ) (a b : ℕ) → includes o a ≡ true → (a == b) ≡ true → includes o b ≡ true
    includes_eq o a b h e = ground (arith, h)

HasNoRepeats-concat :
    (xs : List ℕ) (v : ℕ) → HasNoRepeats xs → includes xs v ≡ false → HasNoRepeats (xs ++ v ∷ [])
unfolding includes
HasNoRepeats-concat [] v h n = (refl, tt)
HasNoRepeats-concat (y ∷ xs) v (p, h) n =
    (ground (arith, includes-append xs (v ∷ []) y), HasNoRepeats-concat xs v h (ground arith))

add-HasNoRepeats : (out : List ℕ) (v : ℕ) → HasNoRepeats out → HasNoRepeats (add out v)
unfolding add
add-HasNoRepeats out v h = ground (arith, HasNoRepeats-concat out v h)

pub add_range-HasNoRepeats :
    (rounds v hi step : ℕ) (out : List ℕ)
    → HasNoRepeats out
    → HasNoRepeats (add_range rounds v hi step out)
unfolding add_range
add_range-HasNoRepeats zero v hi step out h = h
add_range-HasNoRepeats (suc n) v hi step out h =
    ground
      (arith, add_range-HasNoRepeats n (v + step) hi step (add out v) (add-HasNoRepeats out v h))

-- `x` is `v` and some steps, up to `hi`.
abbrev pub IsStep : ℕ → ℕ → ℕ → ℕ → Type 0
IsStep v hi step x = (k : ℕ) × (x ≡ v + k * step) × (x ≤ hi)

IsStep-next : (v hi step x : ℕ) → IsStep (v + step) hi step x → IsStep v hi step x
IsStep-next v hi step x (k, e, h) = (suc k, omega arith, h)

IsStep-cases : (v hi step x : ℕ) → IsStep v hi step x → (x ≡ v) ⊎ IsStep (v + step) hi step x
IsStep-cases v hi step x (zero, e, h) = inl (omega arith)
IsStep-cases v hi step x (suc k, e, h) = inr (k, omega arith, h)

IsStep-over : (v hi step x : ℕ) → hi < v → ¬ IsStep v hi step x
IsStep-over v hi step x h (k, e, le) = omega arith

abbrev AddedOrStep : List ℕ → ℕ → ℕ → ℕ → ℕ → Type 0
AddedOrStep out v hi step x = (includes out x ≡ true) ⊎ IsStep v hi step x

AddedOrStep-add :
    (out : List ℕ) (v hi step x : ℕ)
    → v ≤ hi
    → AddedOrStep (add out v) (v + step) hi step x ↔ AddedOrStep out v hi step x
AddedOrStep-add out v hi step x h = (to, from)
  where
    to : AddedOrStep (add out v) (v + step) hi step x → AddedOrStep out v hi step x
    to (inl i) = elim (Bool-cases (includes out x)) [
      | inl old ↦ inl old
      | inr new ↦
          inr (0, ground (arith, includes-add out v x), ground (arith, includes-add out v x))
    ]
    to (inr s) = inr (IsStep-next v hi step x s)

    from : AddedOrStep out v hi step x → AddedOrStep (add out v) (v + step) hi step x
    from (inl i) = inl (ground (arith, includes-add out v x))
    from (inr s) = elim (IsStep-cases v hi step x s) [
      | inl e ↦ inl (ground (arith, includes-add out v x))
      | inr s' ↦ inr s'
    ]

-- The loop adds its steps and nothing else, given a round for every number that it may reach.
pub includes-add_range_iff :
    (rounds v hi step : ℕ) (out : List ℕ) (x : ℕ)
    → 1 ≤ step
    → hi + 1 ≤ v + rounds
    → (includes (add_range rounds v hi step out) x ≡ true)
      ↔ ((includes out x ≡ true) ⊎ IsStep v hi step x)
unfolding add_range
includes-add_range_iff zero v hi step out x p h =
    (inl, λ d. elim d [ inl i ↦ i | inr s ↦ absurd (IsStep-over v hi step x (omega arith) s) ])
includes-add_range_iff (suc n) v hi step out x p h =
    let ih = includes-add_range_iff n (v + step) hi step (add out v) x p (omega arith) in
    elim (Bool-cases (leb v hi)) [
      | inl e ↦
          let bridge = AddedOrStep-add out v hi step x (ground arith) in
          rw (e, add_range) ((λ i. bridge.0 (ih.0 i)), λ d. ih.1 (bridge.1 d))
      | inr e ↦
          rw (e, add_range)
            (
              inl,
              λ d. elim d [ inl i ↦ i | inr s ↦ absurd (IsStep-over v hi step x (ground arith) s) ],
            )
    ]

insert_sorted-All {κ} :
    (P : ℕ → Type κ) (x : ℕ) (ys : List ℕ) → P x → All P ys → All P (insert_sorted x ys)
unfolding insert_sorted
insert_sorted-All P x [] p h = (p, tt)
insert_sorted-All P x (y ∷ ys) p (q, h) = elim (Bool-cases (leb x y)) [
  | inl e ↦ rw (e, insert_sorted) (p, (q, h))
  | inr e ↦ rw (e, insert_sorted) (q, insert_sorted-All P x ys p h)
]

pub includes-insert_sorted :
    (x : ℕ) (ys : List ℕ) (z : ℕ) → includes (insert_sorted x ys) z ≡ (x == z || includes ys z)
unfolding includes insert_sorted
includes-insert_sorted x [] z = refl
includes-insert_sorted x (y ∷ ys) z = ground (arith, includes-insert_sorted x ys z)

pub includes-sort : (xs : List ℕ) (z : ℕ) → includes (sort xs) z ≡ includes xs z
unfolding sort includes
includes-sort [] z = refl
includes-sort (x ∷ xs) z =
    includes-insert_sorted x (sort xs) z ∙ ap (λ b. x == z || b) (includes-sort xs z)

above : (x y : ℕ) (ys : List ℕ) → x < y → All (λ z. y < z) ys → All (λ z. x < z) ys
above x y [] p h = tt
above x y (z ∷ ys) p (q, h) = (omega arith, above x y ys p h)

insert_sorted-IsIncreasing :
    (x : ℕ) (ys : List ℕ)
    → includes ys x ≡ false
    → IsIncreasing ys
    → IsIncreasing (insert_sorted x ys)
unfolding insert_sorted includes
insert_sorted-IsIncreasing x [] n h = (tt, tt)
insert_sorted-IsIncreasing x (y ∷ ys) n (p, h) = elim (Bool-cases (leb x y)) [
  | inl e ↦ let lt : x < y = ground arith in rw (e, insert_sorted) ((lt, above x y ys lt p), (p, h))
  | inr e ↦
      rw (e, insert_sorted)
        (
          insert_sorted-All (λ z. y < z) x ys (ground arith) p,
          insert_sorted-IsIncreasing x ys (ground arith) h,
        )
]

pub sort-IsIncreasing : (xs : List ℕ) → HasNoRepeats xs → IsIncreasing (sort xs)
unfolding sort
sort-IsIncreasing [] h = tt
sort-IsIncreasing (x ∷ xs) (n, h) =
    insert_sorted-IsIncreasing x (sort xs) (includes-sort xs x ∙ n) (sort-IsIncreasing xs h)

pub sort-All {κ} : (P : ℕ → Type κ) (xs : List ℕ) → All P xs → All P (sort xs)
unfolding sort
sort-All P [] h = tt
sort-All P (x ∷ xs) (p, h) = insert_sorted-All P x (sort xs) p (sort-All P xs h)

pub length-insert_sorted : (x : ℕ) (ys : List ℕ) → length (insert_sorted x ys) ≡ suc (length ys)
unfolding insert_sorted
length-insert_sorted x [] = refl
length-insert_sorted x (y ∷ ys) = ground (arith, length-insert_sorted x ys)

pub length-sort : (xs : List ℕ) → length (sort xs) ≡ length xs
unfolding sort
length-sort [] = refl
length-sort (x ∷ xs) = length-insert_sorted x (sort xs) ∙ ap suc (length-sort xs)
