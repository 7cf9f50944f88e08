-- ===== src/Backups/Retention/Guards.antt =====
-- A backup is locked until it is unlocked.
use mathlib.Core.Option
use renom.Prelude.{
  All, Bool-cases, List, String, [], ap, arith, eq_iff, false, if◌then◌else◌, inl, inr, none, refl,
  some, true, ℕ, ◌&&◌, ◌==◌, ◌∙◌, ◌∷◌, ◌≡◌,
}
use renom.Errors.{ok, err, conflict}
use renom.Database.{Backup}
use renom.Database.Table.{
  select_first_passes, count_where, count_where-eq-zero, select_first, select_first-eq-none,
  select_first-update_where, update_where,
}
use renom.Backups.{Vault, has_id, is_kept}
use renom.Backups.Retention.{by_id, is_locked, remove, unlock}
use renom.Backups.Retention.Order.{HasUniqueIds}

abbrev unlocked : Backup → Backup
unlocked r = record r { locked = 0 }

none_locked :
    (id : String) (c : Backup) (rows : List Backup)
    → has_id id c ≡ true
    → All (λ d. has_id c.id d ≡ false) rows
    → All (λ d. is_locked id d ≡ false) rows
none_locked id c [] e h = tt
none_locked id c (d ∷ rows) e (p, h) = (
  ground (arith, e, p, eq_iff c.id id, eq_iff d.id c.id, eq_iff d.id id),
  none_locked id c rows e h,
)

count-is_locked :
    (id : String) (rows : List Backup) (b : Backup)
    → HasUniqueIds rows
    → select_first (λ r. has_id id r && is_kept r) rows ≡ some b
    → b.locked ≡ 1
    → count_where (is_locked id) rows ≡ 1
unfolding select_first count_where
count-is_locked id [] b u found l = cc
count-is_locked id (c ∷ rows) b (f, u) found l = elim (Bool-cases (has_id id c && is_kept c)) [
  | inl e ↦
      let same : c ≡ b = ground (arith, e, found) in
      let lock : c.locked ≡ 1 = ap (λ (x : Backup). x.locked) same ∙ l in
      let rest =
        count_where-eq-zero (is_locked id) rows (none_locked id c rows (ground (arith, e)) f) in
      ground (arith, e, lock, rest)
  | inr e ↦
      let rest = count-is_locked id rows b u (ground (arith, e, found)) l in ground (arith, e, rest)
]

by_id-unlock :
    (id : String) (v : Vault) (b : Backup)
    → by_id id v ≡ some b
    → b.locked ≡ 1
    → by_id id (unlock id v).1 ≡ some (unlocked b)
unfolding by_id unlock
by_id-unlock id v b found l =
    let passed = select_first_passes (λ r. has_id id r && is_kept r) v.db.backups b found in
    let found_locked : is_locked id b ≡ true = ground (arith, passed, l) in
    select_first-update_where (λ r. has_id id r && is_kept r) (is_locked id) unlocked v.db.backups
      (λ r. refl)
    ∙ ap (Option.map (λ r. if is_locked id r then unlocked r else r)) found
    ∙ rw found_locked refl

purged_rows :
    (now : ℕ) (id : String) (rows : List Backup)
    → All
        (λ r. (has_id id r && is_kept r) ≡ false)
        (update_where (has_id id) (λ r. record r { purged_at = some now }) rows)
unfolding update_where
purged_rows now id [] = tt
purged_rows now id (r ∷ rows) = (ground arith, purged_rows now id rows)

remove-of_unlocked :
    (now : ℕ) (id : String) (v : Vault) (b : Backup)
    → by_id id v ≡ some b
    → (b.locked == 1) ≡ false
    → ((remove now id v).0 ≡ ok tt) × (by_id id (remove now id v).1 ≡ none)
unfolding remove by_id
remove-of_unlocked now id v b found l =
    let gone =
      select_first-eq-none (λ r. has_id id r && is_kept r)
        (update_where (has_id id) (λ r. record r { purged_at = some now }) v.db.backups)
        (purged_rows now id v.db.backups) in
    (ground (arith, found, l), rw (found, remove) (rw l gone))

remove-of_locked :
    (now : ℕ) (id : String) (v : Vault) (b : Backup)
    → by_id id v ≡ some b
    → b.locked ≡ 1
    → remove now id v ≡ (err conflict, v)
unfolding remove
remove-of_locked now id v b found l = rw (found, remove) (rw l refl)

unlock-first :
    (id : String) (v : Vault) (b : Backup)
    → HasUniqueIds v.db.backups
    → by_id id v ≡ some b
    → b.locked ≡ 1
    → (unlock id v).0 ≡ true
unfolding unlock by_id
unlock-first id v b u found l = rw (count-is_locked id v.db.backups b u found l) refl

unlocked_rows_lem :
    (id : String) (rows : List Backup)
    → count_where (is_locked id) (update_where (is_locked id) unlocked rows) ≡ 0
unfolding count_where update_where
unlocked_rows_lem id [] = refl
unlocked_rows_lem id (r ∷ rows) = ground (arith, unlocked_rows_lem id rows)

unlock-again : (id : String) (v : Vault) → (unlock id (unlock id v).1).0 ≡ false
unfolding unlock
unlock-again id v = rw (unlocked_rows_lem id v.db.backups) refl

-- A locked backup is not removed: that is a conflict and changes nothing. It can be unlocked, once,
-- and is then removed, and found no more.
pub unlock-remove :
    (now : ℕ) (id : String) (v : Vault) (b : Backup)
    → HasUniqueIds v.db.backups
    → by_id id v ≡ some b
    → b.locked ≡ 1
    → (remove now id v ≡ (err conflict, v))
      × ((unlock id v).0 ≡ true)
      × ((unlock id (unlock id v).1).0 ≡ false)
      × ((remove now id (unlock id v).1).0 ≡ ok tt)
      × (by_id id (remove now id (unlock id v).1).1 ≡ none)
unlock-remove now id v b u found l =
    let (returned, gone) =
      remove-of_unlocked now id (unlock id v).1 (unlocked b) (by_id-unlock id v b found l) refl in
    (
      remove-of_locked now id v b found l,
      unlock-first id v b u found l,
      unlock-again id v,
      returned,
      gone,
    )
