-- ===== src/Schedules/Store/Lock.antt =====
-- The lock of a schedule: what a claim excludes, and for how long.
use renom.Prelude.{
  All, Bool, List, String, [], ap, arith, false, inl, inr, leb, refl, true, ℕ, ◌&&◌, ◌+◌, ◌<◌, ◌∙◌,
  ◌∷◌, ◌≡◌, ◌≤◌, ◌⊎◌,
}
use renom.Database.Table.{
  update_where, count_where, count_where-eq-zero, All-of_count_where, count_where-update_where,
  count_where_mono, count_where-and,
}
use renom.Schedules.Store.{
  ScheduleRow, Tables, lock_ttl_ms, has_id, is_free, is_ready, lock, claim, claim_due, claim_once,
}

-- The id is the key of one row.
abbrev pub IsKey : String → Tables → Type 0
IsKey id t = count_where (has_id id) t.schedules ≡ 1

claim-IsKey :
    (test : ScheduleRow → Bool) (now : ℕ) (id : String) (t : Tables)
    → IsKey id t
    → IsKey id (claim test now id t).0
unfolding claim lock
claim-IsKey test now id t k =
    count_where-update_where (has_id id) (λ r. has_id id r && test r) (lock now) t.schedules
      (λ r. unfold lock in refl)
    ∙ k

-- After a claim every row with the id is locked from `now` on.
locked_rows :
    (test : ScheduleRow → Bool) (now : ℕ) (id : String) (rs : List ScheduleRow)
    → All (λ r. has_id id r ≡ true → test r ≡ true) rs
    → All
        (λ r. has_id id r ≡ true → (r.is_processing ≡ 1) × (r.lock_until ≡ now + lock_ttl_ms))
        (update_where (λ r. has_id id r && test r) (lock now) rs)
unfolding update_where lock
locked_rows test now id [] h = tt
locked_rows test now id (r ∷ rs) (h, hs) = ((λ e. ground arith), locked_rows test now id rs hs)

free_of_locked :
    (later now : ℕ) (id : String) (rs : List ScheduleRow)
    → All (λ r. has_id id r ≡ true → (r.is_processing ≡ 1) × (r.lock_until ≡ now + lock_ttl_ms)) rs
    → All (λ r. has_id id r ≡ true → is_free later r ≡ leb (now + lock_ttl_ms) later) rs
unfolding is_free
free_of_locked later now id [] h = tt
free_of_locked later now id (r ∷ rs) (h, hs) =
    ((λ e. ground (arith, h e)), free_of_locked later now id rs hs)

blocked :
    (test : ScheduleRow → Bool) (id : String) (rs : List ScheduleRow)
    → All (λ r. has_id id r ≡ true → test r ≡ false) rs
    → All (λ r. (has_id id r && test r) ≡ false) rs
blocked test id [] h = tt
blocked test id (r ∷ rs) (h, hs) = (ground arith, blocked test id rs hs)

All-imply :
    (P Q : ScheduleRow → Type 0) (rs : List ScheduleRow)
    → ((r : ScheduleRow) → P r → Q r)
    → All P rs
    → All Q rs
All-imply P Q [] f h = tt
All-imply P Q (r ∷ rs) f (p, h) = (f r p, All-imply P Q rs f h)

-- Both claims look at the lock.
ready_free : (now : ℕ) (r : ScheduleRow) → is_free now r ≡ false → is_ready now r ≡ false
unfolding is_ready
ready_free now r h = ground arith

module _ (test : ScheduleRow → Bool) (now later : ℕ) (id : String) (t : Tables) (key : IsKey id t)
    (claimed : (claim test now id t).1 ≡ true) where
  claimed_rows :
      All
        (λ r. has_id id r ≡ true → is_free later r ≡ leb (now + lock_ttl_ms) later)
        (claim test now id t).0.schedules
  unfolding claim
  claimed_rows = free_of_locked later now id _ (
      locked_rows test now id t.schedules
        (All-of_count_where (has_id id) test t.schedules key (ground arith)))

  claim-excludes_any :
      (test' : ScheduleRow → Bool)
      → ((r : ScheduleRow) → is_free later r ≡ false → test' r ≡ false)
      → later < now + lock_ttl_ms
      → (claim test' later id (claim test now id t).0).1 ≡ false
  unfolding claim
  claim-excludes_any test' weaker early =
      let rs = (claim test now id t).0.schedules in
      let busy =
        All-imply (λ r. has_id id r ≡ true → is_free later r ≡ leb (now + lock_ttl_ms) later)
          (λ r. has_id id r ≡ true → test' r ≡ false) rs (λ r h e. weaker r (h e ∙ ground arith))
          claimed_rows in
      ground (
        arith,
        count_where-eq-zero (λ (r : ScheduleRow). has_id id r && test' r) rs
            (blocked test' id rs busy),
      )

  claim-expires_any :
      now + lock_ttl_ms ≤ later → (claim (is_free later) later id (claim test now id t).0).1 ≡ true
  unfolding claim
  claim-expires_any late =
      let rs = (claim test now id t).0.schedules in
      let free =
        All-imply (λ r. has_id id r ≡ true → is_free later r ≡ leb (now + lock_ttl_ms) later)
          (λ r. has_id id r ≡ true → is_free later r ≡ true) rs (λ r h e. h e ∙ ground arith)
          claimed_rows in
      ground (
        arith,
        count_where_mono (has_id id) (is_free later) rs free,
        count_where-and (has_id id) (is_free later) rs,
        claim-IsKey test now id t key,
      )

-- A claim that went through, of `runDue` or of `runOnce`.
abbrev pub Claimed : ℕ → String → Tables → Tables → Type 0
Claimed now id t t' = (claim_due now id t ≡ (t', true)) ⊎ (claim_once now id t ≡ (t', true))

Claimed-by :
    (now : ℕ) (id : String) (t t' : Tables)
    → Claimed now id t t'
    → (test : ScheduleRow → Bool) × (claim test now id t ≡ (t', true))
unfolding claim_due claim_once
Claimed-by now id t t' (inl h) = (is_ready now, h)
Claimed-by now id t t' (inr h) = (is_free now, h)

-- For a schedule with a key of its own: after a claim of either kind no claim goes through for
-- fifteen minutes, neither of the clock nor by hand, if the row is not written in between.
pub claim-excludes :
    (now later : ℕ) (id : String) (t t' : Tables)
    → IsKey id t
    → Claimed now id t t'
    → later < now + lock_ttl_ms
    → ((claim_due later id t').1 ≡ false) × ((claim_once later id t').1 ≡ false)
unfolding claim_due claim_once
claim-excludes now later id t t' key c early =
    let (test, made) = Claimed-by now id t t' c in
    let went : (claim test now id t).1 ≡ true = ap (λ (p : Tables × Bool). p.1) made in
    let same : (claim test now id t).0 ≡ t' = ap (λ (p : Tables × Bool). p.0) made in
    let none_of = claim-excludes_any test now later id t key went in
    (
      rw (← same) (none_of (is_ready later) (ready_free later) early),
      rw (← same) (none_of (is_free later) (λ r h. h) early),
    )

-- A lock does not outlast a long run: for a schedule with a key of its own, fifteen minutes after a
-- claim a claim by hand goes through, though nothing has released the lock in between.
pub claim-expires :
    (now later : ℕ) (id : String) (t t' : Tables)
    → IsKey id t
    → Claimed now id t t'
    → now + lock_ttl_ms ≤ later
    → (claim_once later id t').1 ≡ true
unfolding claim_once
claim-expires now later id t t' key c late =
    let (test, made) = Claimed-by now id t t' c in
    let went : (claim test now id t).1 ≡ true = ap (λ (p : Tables × Bool). p.1) made in
    let same : (claim test now id t).0 ≡ t' = ap (λ (p : Tables × Bool). p.0) made in
    rw (← same) (claim-expires_any test now later id t key went late)
