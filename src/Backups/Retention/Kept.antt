-- ===== src/Backups/Retention/Kept.antt =====
-- What `enforceRetention` leaves: the newest unlocked backups, and every row that is not one of them.
use renom.Prelude.{
  All, All-drop, All-keep, Bool, Bool-cases, List, String, [], any, ap, arith, drop, eq_iff, false,
  inl, inr, keep, length, min, not, refl, subst, suc, sym, true, units_eq_inst, zero, ℕ, ◌∙◌, ◌∷◌,
  ◌≡◌, ◌≤◌,
}
use renom.Database.{Backup}
use renom.Database.Table.{count_where, count_where-eq-zero, update_where}
use renom.Backups.{Vault, has_id}
use renom.Backups.Retention.{
  enforce_retention, is_retained, mark_purged, newest_first, purge, purge_each, retain_unlocked,
  unlocked_rows,
}
use renom.Backups.Retention.Order.{
  length-newest_first, All-of_newest_first, HasUniqueIds, IsNewestFirst, count-newest_first,
  newest_first-HasUniqueIds, newest_first-IsNewestFirst,
}

abbrev is_among : List Backup → Backup → Bool
is_among extra b = any (λ r. has_id r.id b) extra

abbrev is_left : List Backup → Backup → Bool
is_left extra b = not (is_among extra b)

-- The unlocked backups of a server that are not purged, in the order of the table.
abbrev pub retained_rows : String → Vault → List Backup
retained_rows server v = keep (is_retained server) v.db.backups

keep-mark_purged :
    (now : ℕ) (server id : String) (rows : List Backup)
    → keep (is_retained server) (mark_purged now id rows)
      ≡ keep (λ b. not (has_id id b)) (keep (is_retained server) rows)
unfolding mark_purged update_where
keep-mark_purged now server id [] = refl
keep-mark_purged now server id (b ∷ rows) = ground (arith, keep-mark_purged now server id rows)

keep-is_left :
    (r : Backup) (extra rows : List Backup)
    → keep (is_left extra) (keep (λ b. not (has_id r.id b)) rows) ≡ keep (is_left (r ∷ extra)) rows
keep-is_left r extra [] = refl
keep-is_left r extra (b ∷ rows) = ground (arith, keep-is_left r extra rows)

keep-nothing : (rows : List Backup) → keep (is_left []) rows ≡ rows
keep-nothing [] = refl
keep-nothing (b ∷ rows) = ap (λ l. b ∷ l) (keep-nothing rows)

retained_rows-purge :
    (now : ℕ) (server id : String) (v : Vault)
    → retained_rows server (purge now server id v)
      ≡ keep (λ b. not (has_id id b)) (retained_rows server v)
unfolding purge
retained_rows-purge now server id v = keep-mark_purged now server id v.db.backups

retained_rows-purge_each :
    (now : ℕ) (server : String) (extra : List Backup) (v : Vault)
    → retained_rows server (purge_each now server extra v)
      ≡ keep (is_left extra) (retained_rows server v)
unfolding purge_each
retained_rows-purge_each now server [] v = sym (keep-nothing (retained_rows server v))
retained_rows-purge_each now server (r ∷ extra) v =
    retained_rows-purge_each now server extra (purge now server r.id v)
    ∙ ap (keep (is_left extra)) (retained_rows-purge now server r.id v)
    ∙ keep-is_left r extra (retained_rows server v)

length-keep_count :
    (p : Backup → Bool) (rows : List Backup) → length (keep p rows) ≡ count_where p rows
unfolding count_where
length-keep_count p [] = refl
length-keep_count p (b ∷ rows) = ground (arith, length-keep_count p rows)

keep-HasUniqueIds :
    (p : Backup → Bool) (rows : List Backup) → HasUniqueIds rows → HasUniqueIds (keep p rows)
keep-HasUniqueIds p [] h = tt
keep-HasUniqueIds p (b ∷ rows) (f, h) = elim (Bool-cases (p b)) [
  | inl e ↦
      rw (e, keep) (All-keep (λ c. has_id b.id c ≡ false) p rows f, keep-HasUniqueIds p rows h)
  | inr e ↦ rw (e, keep) (keep-HasUniqueIds p rows h)
]

has_id_self : (b : Backup) → has_id b.id b ≡ true
has_id_self b = ground (arith, eq_iff b.id b.id)

-- Each row is among the rows.
among-more :
    (r : Backup) (extra rows : List Backup)
    → All (λ b. is_left extra b ≡ false) rows
    → All (λ b. is_left (r ∷ extra) b ≡ false) rows
among-more r extra [] h = tt
among-more r extra (b ∷ rows) (p, h) = (ground arith, among-more r extra rows h)

none_left : (rows : List Backup) → All (λ b. is_left rows b ≡ false) rows
none_left [] = tt
none_left (b ∷ rows) = (ground (arith, has_id_self b), among-more b rows rows (none_left rows))

not_among :
    (b : Backup) (extra : List Backup)
    → All (λ c. has_id b.id c ≡ false) extra
    → is_left extra b ≡ true
not_among b [] h = refl
not_among b (c ∷ extra) (p, h) =
    ground (arith, eq_iff c.id b.id, eq_iff b.id c.id, not_among b extra h)

count-is_left :
    (n : ℕ) (rows : List Backup)
    → HasUniqueIds rows
    → count_where (is_left (drop n rows)) rows ≡ min n (length rows)
unfolding count_where
count-is_left zero rows h = count_where-eq-zero (is_left rows) rows (none_left rows) ∙ omega arith
count-is_left (suc n) [] h = omega arith
count-is_left (suc n) (b ∷ rows) (f, h) =
    let first = not_among b (drop n rows) (All-drop (λ c. has_id b.id c ≡ false) n rows f) in
    rw first (omega (arith, count-is_left n rows h))

-- A row that is left is as new as every row that goes.
abbrev IsNewerThan : List Backup → Backup → Type 0
IsNewerThan gone b = All (λ c. c.created_at ≤ b.created_at) gone

vacuous :
    (extra gone rows : List Backup)
    → All (λ b. is_left extra b ≡ false) rows
    → All (λ b. is_left extra b ≡ true → IsNewerThan gone b) rows
vacuous extra gone [] h = tt
vacuous extra gone (b ∷ rows) (p, h) =
    ((λ e. absurd (ground (arith, e, p))), vacuous extra gone rows h)

left_newer :
    (n : ℕ) (rows : List Backup)
    → IsNewestFirst rows
    → All (λ b. is_left (drop n rows) b ≡ true → IsNewerThan (drop n rows) b) rows
left_newer zero rows h = vacuous rows rows rows (none_left rows)
left_newer (suc n) [] h = tt
left_newer (suc n) (b ∷ rows) (f, h) =
    ((λ e. All-drop (λ c. c.created_at ≤ b.created_at) n rows f), left_newer n rows h)

pub All-keep_test {ℓ} :
    (P : Backup → Type ℓ) (p : Backup → Bool) (rows : List Backup)
    → All (λ b. p b ≡ true → P b) rows
    → All P (keep p rows)
All-keep_test P p [] h = tt
All-keep_test P p (b ∷ rows) (f, h) = elim (Bool-cases (p b)) [
  | inl e ↦ rw (e, keep) (f e, All-keep_test P p rows h)
  | inr e ↦ rw (e, keep) (All-keep_test P p rows h)
]

-- After the retention a server has its ten newest unlocked backups, or all of them if there were
-- fewer, and none that was purged is newer than one that is left. Identifiers are unique.
pub enforce_retention_newest :
    (now : ℕ) (server : String) (v : Vault)
    → HasUniqueIds v.db.backups
    → (length (retained_rows server (enforce_retention now server v))
        ≡ min retain_unlocked (length (retained_rows server v)))
      × All
          (λ b.
            All
              (λ gone. gone.created_at ≤ b.created_at)
              (drop retain_unlocked (unlocked_rows server v.db.backups)))
          (retained_rows server (enforce_retention now server v))
unfolding enforce_retention unlocked_rows
enforce_retention_newest now server v h =
    let rows = retained_rows server v in
    let sorted = newest_first rows in
    let extra = drop retain_unlocked sorted in
    let after = retained_rows-purge_each now server extra v in
    let unique =
      newest_first-HasUniqueIds rows (keep-HasUniqueIds (is_retained server) v.db.backups h) in
    (
      ap length after
          ∙ length-keep_count (is_left extra) rows
          ∙ sym (count-newest_first (is_left extra) rows)
          ∙ count-is_left retain_unlocked sorted unique
          ∙ ap (min retain_unlocked) (length-newest_first rows),
      subst (All (IsNewerThan extra)) (sym after) (
          All-keep_test (IsNewerThan extra) (is_left extra) rows (
            All-of_newest_first (λ (b : Backup). is_left extra b ≡ true → IsNewerThan extra b) rows
              (left_newer retain_unlocked sorted (newest_first-IsNewestFirst rows)))),
    )
