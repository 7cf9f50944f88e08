-- ===== src/Database/Table.antt =====
-- `SELECT … LIMIT 1`, `UPDATE` and `DELETE` on a table, and their laws.
use mathlib.Core.Option
use renom.Prelude.{
  All, Bool, Bool-cases, List, Option, [], arith, false, if◌then◌else◌, inl, inr, length, none,
  refl, some, subst, true, ℕ, ◌&&◌, ◌++◌, ◌+◌, ◌∷◌, ◌≡◌, ◌≤◌,
}

module _ {ℓ} {R : Type ℓ} where
  -- The first row that passes the test: `.get()`.
  unfoldable pub select_first : (R → Bool) → List R → Option R
  select_first p [] = none
  select_first p (r ∷ rs) = if p r then some r else select_first p rs

  -- `UPDATE … SET f WHERE p`.
  unfoldable pub update_where : (R → Bool) → (R → R) → List R → List R
  update_where p f [] = []
  update_where p f (r ∷ rs) = (if p r then f r else r) ∷ update_where p f rs

  -- How many rows pass the test: `COUNT(*)`, and `changes` of an `UPDATE`.
  unfoldable pub count_where : (R → Bool) → List R → ℕ
  count_where p [] = 0
  count_where p (r ∷ rs) = (if p r then 1 else 0) + count_where p rs

  pub select_first_passes :
      (p : R → Bool) (rs : List R) (r : R) → select_first p rs ≡ some r → p r ≡ true
  unfolding select_first
  select_first_passes p [] r h = cc
  select_first_passes p (x ∷ rs) r h = ground (arith, select_first_passes p rs r)

  pub select_first-All {κ} :
      (P : R → Type κ) (p : R → Bool) (rs : List R) (r : R)
      → All P rs
      → select_first p rs ≡ some r
      → P r
  unfolding select_first
  select_first-All P p [] r a h = cc
  select_first-All P p (x ∷ rs) r (px, a) h = elim (Bool-cases (p x)) [
    | inl e ↦ let same : x ≡ r = ground (arith, e) in subst P same px
    | inr e ↦ select_first-All P p rs r a (ground (arith, e))
  ]

  -- An update that does not change which rows a query finds: the query finds the row, updated.
  pub select_first-update_where :
      (q p : R → Bool) (f : R → R) (rs : List R)
      → ((r : R) → q (f r) ≡ q r)
      → select_first q (update_where p f rs)
        ≡ Option.map (λ r. if p r then f r else r) (select_first q rs)
  unfolding select_first update_where
  select_first-update_where q p f [] h = refl
  select_first-update_where q p f (r ∷ rs) h =
      ground (arith, h r, select_first-update_where q p f rs h)

  pub length-update_where :
      (p : R → Bool) (f : R → R) (rs : List R) → length (update_where p f rs) ≡ length rs
  unfolding update_where
  length-update_where p f [] = refl
  length-update_where p f (r ∷ rs) = omega (arith, length-update_where p f rs)

  pub All-update_where {κ} :
      (P : R → Type κ) (p : R → Bool) (f : R → R) (rs : List R)
      → ((r : R) → P r → P (f r))
      → All P rs
      → All P (update_where p f rs)
  unfolding update_where
  All-update_where P p f [] h a = tt
  All-update_where P p f (r ∷ rs) h (pr, a) = elim (Bool-cases (p r)) [
    | inl e ↦ rw (e, update_where) (h r pr, All-update_where P p f rs h a)
    | inr e ↦ rw (e, update_where) (pr, All-update_where P p f rs h a)
  ]

  pub select_first-eq-none :
      (p : R → Bool) (rs : List R) → All (λ r. p r ≡ false) rs → select_first p rs ≡ none
  unfolding select_first
  select_first-eq-none p [] h = refl
  select_first-eq-none p (r ∷ rs) (h, hs) = rw h (select_first-eq-none p rs hs)

  pub count_where-eq-zero :
      (p : R → Bool) (rs : List R) → All (λ r. p r ≡ false) rs → count_where p rs ≡ 0
  unfolding count_where
  count_where-eq-zero p [] h = refl
  count_where-eq-zero p (r ∷ rs) (h, hs) = ground (arith, count_where-eq-zero p rs hs)

  pub All-of_count_where-eq-zero :
      (p : R → Bool) (rs : List R) → count_where p rs ≡ 0 → All (λ r. p r ≡ false) rs
  unfolding count_where
  All-of_count_where-eq-zero p [] h = tt
  All-of_count_where-eq-zero p (r ∷ rs) h =
      (ground arith, All-of_count_where-eq-zero p rs (ground arith))

  All-and :
      (p q : R → Bool) (rs : List R)
      → All (λ r. p r ≡ false) rs
      → All (λ r. (p r && q r) ≡ false) rs
  All-and p q [] h = tt
  All-and p q (r ∷ rs) (h, hs) = (rw h, All-and p q rs hs)

  All-vacuous :
      (p q : R → Bool) (rs : List R)
      → All (λ r. p r ≡ false) rs
      → All (λ r. p r ≡ true → q r ≡ true) rs
  All-vacuous p q [] h = tt
  All-vacuous p q (r ∷ rs) (h, hs) = (λ t. cc (t, h), All-vacuous p q rs hs)

  -- If one row passes `p`, and one passes `p` and `q`, then the row that passes `p` passes `q`.
  pub All-of_count_where :
      (p q : R → Bool) (rs : List R)
      → count_where p rs ≡ 1
      → count_where (λ r. p r && q r) rs ≡ 1
      → All (λ r. p r ≡ true → q r ≡ true) rs
  unfolding count_where
  All-of_count_where p q [] h k = tt
  All-of_count_where p q (r ∷ rs) h k = elim (Bool-cases (p r)) [
    | inl e ↦
        let others = All-of_count_where-eq-zero p rs (ground (arith, e)) in
        (
          λ _.
              ground
                (arith, e, count_where-eq-zero (λ (x : R). p x && q x) rs (All-and p q rs others)),
          All-vacuous p q rs others,
        )
    | inr e ↦ (λ t. cc (t, e), All-of_count_where p q rs (ground (arith, e)) (ground (arith, e)))
  ]

  pub count_where-update_where :
      (p q : R → Bool) (f : R → R) (rs : List R)
      → ((r : R) → p (f r) ≡ p r)
      → count_where p (update_where q f rs) ≡ count_where p rs
  unfolding count_where update_where
  count_where-update_where p q f [] h = refl
  count_where-update_where p q f (r ∷ rs) h =
      ground (arith, h r, count_where-update_where p q f rs h)

  pub count_where_mono :
      (p q : R → Bool) (rs : List R)
      → All (λ r. p r ≡ true → q r ≡ true) rs
      → count_where p rs ≤ count_where (λ r. p r && q r) rs
  unfolding count_where
  count_where_mono p q [] h = omega arith
  count_where_mono p q (r ∷ rs) (h, hs) = ground (arith, count_where_mono p q rs hs)

  pub count_where-and :
      (p q : R → Bool) (rs : List R) → count_where (λ r. p r && q r) rs ≤ count_where p rs
  unfolding count_where
  count_where-and p q [] = omega arith
  count_where-and p q (r ∷ rs) = ground (arith, count_where-and p q rs)

module _ {ℓ} {R : Type ℓ} where
  -- A row that is inserted at the end.
  pub count_where-append :
      (p : R → Bool) (rs : List R) (r : R)
      → count_where p (rs ++ r ∷ []) ≡ count_where p rs + (if p r then 1 else 0)
  unfolding count_where
  count_where-append p [] r = omega arith
  count_where-append p (x ∷ rs) r = omega (arith, count_where-append p rs r)

  pub select_first-append :
      (p : R → Bool) (rs : List R) (r : R)
      → select_first p rs ≡ none
      → p r ≡ true
      → select_first p (rs ++ r ∷ []) ≡ some r
  unfolding select_first
  select_first-append p [] r h e = rw e refl
  select_first-append p (x ∷ rs) r h e = ground (arith, select_first-append p rs r)

  pub select_first-append_other :
      (p : R → Bool) (rs : List R) (r : R)
      → p r ≡ false
      → select_first p (rs ++ r ∷ []) ≡ select_first p rs
  unfolding select_first
  select_first-append_other p [] r e = rw e refl
  select_first-append_other p (x ∷ rs) r e = ground (arith, select_first-append_other p rs r e)
