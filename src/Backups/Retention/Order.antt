-- ===== src/Backups/Retention/Order.antt =====
-- `newest_first` sorts, and keeps what is in the list.
use renom.Prelude.{
  All, Bool, Bool-cases, List, [], ap, arith, eq_iff, false, inl, inr, leb, leb→le, length, refl,
  subst, suc, true, ◌∙◌, ◌∷◌, ◌≡◌, ◌≤◌,
}
use renom.Database.{Backup}
use renom.Database.Table.{count_where}
use renom.Backups.{has_id}
use renom.Backups.Retention.{insert_newest, newest_first}

-- No row behind a row is newer.
abbrev pub IsNewestFirst : List Backup → Type 0
IsNewestFirst [] = Unit
IsNewestFirst (b ∷ rows) = All (λ c. c.created_at ≤ b.created_at) rows × IsNewestFirst rows

-- `id` is the primary key.
abbrev pub HasUniqueIds : List Backup → Type 0
HasUniqueIds [] = Unit
HasUniqueIds (b ∷ rows) = All (λ c. has_id b.id c ≡ false) rows × HasUniqueIds rows

insert-first :
    (b c : Backup) (rows : List Backup)
    → leb c.created_at b.created_at ≡ true
    → insert_newest b (c ∷ rows) ≡ b ∷ c ∷ rows
unfolding insert_newest
insert-first b c rows e = rw e refl

insert-later :
    (b c : Backup) (rows : List Backup)
    → leb c.created_at b.created_at ≡ false
    → insert_newest b (c ∷ rows) ≡ c ∷ insert_newest b rows
unfolding insert_newest
insert-later b c rows e = rw e refl

insert-last : (b : Backup) → insert_newest b [] ≡ b ∷ []
unfolding insert_newest
insert-last b = refl

module _ {ℓ} (P : Backup → Type ℓ) where
  pub All-insert_newest :
      (b : Backup) (rows : List Backup) → P b → All P rows → All P (insert_newest b rows)
  All-insert_newest b [] p h = rw (insert-last b) (p, tt)
  All-insert_newest b (c ∷ rows) p (q, h) = elim (Bool-cases (leb c.created_at b.created_at)) [
    | inl e ↦ rw (insert-first b c rows e) (p, (q, h))
    | inr e ↦ rw (insert-later b c rows e) (q, All-insert_newest b rows p h)
  ]

  pub All-newest_first : (rows : List Backup) → All P rows → All P (newest_first rows)
  unfolding newest_first
  All-newest_first [] h = tt
  All-newest_first (b ∷ rows) (p, h) =
      All-insert_newest b (newest_first rows) p (All-newest_first rows h)

  All-of_insert_newest :
      (b : Backup) (rows : List Backup) → All P (insert_newest b rows) → P b × All P rows
  All-of_insert_newest b [] h = subst (All P) (insert-last b) h
  All-of_insert_newest b (c ∷ rows) h = elim (Bool-cases (leb c.created_at b.created_at)) [
    | inl e ↦ subst (All P) (insert-first b c rows e) h
    | inr e ↦
        let (q, rest) = subst (All P) (insert-later b c rows e) h in
        let (p, old) = All-of_insert_newest b rows rest in (p, (q, old))
  ]

  pub All-of_newest_first : (rows : List Backup) → All P (newest_first rows) → All P rows
  unfolding newest_first
  All-of_newest_first [] h = tt
  All-of_newest_first (b ∷ rows) h =
      let (p, rest) = All-of_insert_newest b (newest_first rows) h in
      (p, All-of_newest_first rows rest)

All-implies {ℓ κ} :
    {P : Backup → Type ℓ} {Q : Backup → Type κ} (f : (b : Backup) → P b → Q b) (rows : List Backup)
    → All P rows
    → All Q rows
All-implies f [] h = tt
All-implies f (b ∷ rows) (p, h) = (f b p, All-implies f rows h)

insert-IsNewestFirst :
    (b : Backup) (rows : List Backup) → IsNewestFirst rows → IsNewestFirst (insert_newest b rows)
insert-IsNewestFirst b [] h = rw (insert-last b) (tt, tt)
insert-IsNewestFirst b (c ∷ rows) (old, h) = elim (Bool-cases (leb c.created_at b.created_at)) [
  | inl e ↦
      let le : c.created_at ≤ b.created_at = leb→le c.created_at b.created_at e in
      rw (insert-first b c rows e)
        ((le, All-implies (λ d (k : d.created_at ≤ c.created_at). omega arith) rows old), (old, h))
  | inr e ↦
      let lt : b.created_at ≤ c.created_at = ground (arith, e) in
      rw (insert-later b c rows e) (
        All-insert_newest (λ d. d.created_at ≤ c.created_at) b rows lt old,
        insert-IsNewestFirst b rows h,
      )
]

pub newest_first-IsNewestFirst : (rows : List Backup) → IsNewestFirst (newest_first rows)
unfolding newest_first
newest_first-IsNewestFirst [] = tt
newest_first-IsNewestFirst (b ∷ rows) =
    insert-IsNewestFirst b (newest_first rows) (newest_first-IsNewestFirst rows)

insert-HasUniqueIds :
    (b : Backup) (rows : List Backup)
    → All (λ c. has_id b.id c ≡ false) rows
    → HasUniqueIds rows
    → HasUniqueIds (insert_newest b rows)
insert-HasUniqueIds b [] f h = rw (insert-last b) (tt, tt)
insert-HasUniqueIds b (c ∷ rows) (n, f) (g, h) = elim (Bool-cases (leb c.created_at b.created_at)) [
  | inl e ↦ rw (insert-first b c rows e) ((n, f), (g, h))
  | inr e ↦
      let other : has_id c.id b ≡ false = ground (arith, eq_iff c.id b.id, eq_iff b.id c.id) in
      rw (insert-later b c rows e) (
        All-insert_newest (λ d. has_id c.id d ≡ false) b rows other g,
        insert-HasUniqueIds b rows f h,
      )
]

pub newest_first-HasUniqueIds :
    (rows : List Backup) → HasUniqueIds rows → HasUniqueIds (newest_first rows)
unfolding newest_first
newest_first-HasUniqueIds [] h = tt
newest_first-HasUniqueIds (b ∷ rows) (f, h) =
    insert-HasUniqueIds b (newest_first rows) (All-newest_first (λ c. has_id b.id c ≡ false) rows f)
      (newest_first-HasUniqueIds rows h)

module _ (p : Backup → Bool) where
  count-insert :
      (b : Backup) (rows : List Backup)
      → count_where p (insert_newest b rows) ≡ count_where p (b ∷ rows)
  unfolding count_where
  count-insert b [] = rw (insert-last b) refl
  count-insert b (c ∷ rows) = elim (Bool-cases (leb c.created_at b.created_at)) [
    | inl e ↦ rw (insert-first b c rows e) refl
    | inr e ↦ rw (insert-later b c rows e) (omega (arith, count-insert b rows))
  ]

  pub count-newest_first :
      (rows : List Backup) → count_where p (newest_first rows) ≡ count_where p rows
  unfolding newest_first count_where
  count-newest_first [] = refl
  count-newest_first (b ∷ rows) =
      count-insert b (newest_first rows) ∙ omega (arith, count-newest_first rows)

length-insert_newest :
    (b : Backup) (rows : List Backup) → length (insert_newest b rows) ≡ suc (length rows)
length-insert_newest b [] = rw (insert-last b) refl
length-insert_newest b (c ∷ rows) = elim (Bool-cases (leb c.created_at b.created_at)) [
  | inl e ↦ rw (insert-first b c rows e) refl
  | inr e ↦ rw (insert-later b c rows e) (omega (arith, length-insert_newest b rows))
]

pub length-newest_first : (rows : List Backup) → length (newest_first rows) ≡ length rows
unfolding newest_first
length-newest_first [] = refl
length-newest_first (b ∷ rows) =
    length-insert_newest b (newest_first rows) ∙ ap suc (length-newest_first rows)
