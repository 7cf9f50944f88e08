-- ===== src/Backups/Restore/Swap.antt =====
-- The swap of the directories, whole and broken off.
use renom.Prelude.{
  Option, Option-cases, String, Units, [], ap, append-left_cancel, arith, codes, drop, inl, inr,
  length, length-append, none, refl, some, suc, sym, take, units_eq_inst, zero, ℕ, ◌++◌, ◌<◌, ◌∙◌,
  ◌∷◌, ◌≡◌, ◌≢◌, ◌⊎◌,
}
use renom.JsMap.{
  HasUniqueKeys, HasUniqueKeys-delete, HasUniqueKeys-set, delete, get, get-delete_ne,
  get-delete_self, get-set_ne, get-set_self,
}
use renom.Database.{Backup}
use renom.Backups.Restore.{
  DirectoryStep, Directories, broken_off, leave, tear, discard, displaced_of, move, run_step,
  run_steps, staged, staging_of, swap_steps,
}

longer : (p : Units) (c : ℕ) (s : Units) → p ≢ p ++ c ∷ s
longer p c s h = absurd (ground (arith, ap length h, length-append p (c ∷ s)))

pub names_apart :
    (b : Backup)
    → (codes b.server_id ≢ staging_of b)
      × (codes b.server_id ≢ displaced_of b)
      × (staging_of b ≢ displaced_of b)
names_apart b = (
  longer (codes b.server_id) 46 (drop 1 (codes ".restore-" ++ codes b.id)),
  longer (codes b.server_id) 46 (drop 1 (codes ".pre-restore-" ++ codes b.id)),
  λ h.
      let rests =
        append-left_cancel (codes b.server_id) (codes ".restore-" ++ codes b.id)
          (codes ".pre-restore-" ++ codes b.id) h in
      absurd (ground (arith, rests)),
)

module _ (d : Directories) where
  get-move_to :
      (from to : Units) (content : String)
      → get d from ≡ some content
      → get (run_step (move from to) d) to ≡ some content
  unfolding run_step
  get-move_to from to content h = rw (h, run_step) (get-set_self (delete d from) to content)

  get-move_from :
      (from to : Units) → HasUniqueKeys d → to ≢ from → get (run_step (move from to) d) from ≡ none
  unfolding run_step
  get-move_from from to u apart = elim (Option-cases (get d from)) [
    | inl e ↦ rw (e, run_step) e
    | inr (content, e) ↦
        rw (e, run_step)
          (get-set_ne (delete d from) to from content apart ∙ get-delete_self d from u)
  ]

  get-move_ne :
      (from to other : Units)
      → from ≢ other
      → to ≢ other
      → get (run_step (move from to) d) other ≡ get d other
  unfolding run_step
  get-move_ne from to other f t = elim (Option-cases (get d from)) [
    | inl e ↦ rw (e, run_step) refl
    | inr (content, e) ↦
        rw (e, run_step)
          (get-set_ne (delete d from) to other content t ∙ get-delete_ne d from other f)
  ]

  get-discard_ne :
      (name other : Units) → name ≢ other → get (run_step (discard name) d) other ≡ get d other
  unfolding run_step
  get-discard_ne name other n = get-delete_ne d name other n

  get-discard_self : (name : Units) → HasUniqueKeys d → get (run_step (discard name) d) name ≡ none
  unfolding run_step
  get-discard_self name u = get-delete_self d name u

  HasUniqueKeys-run_step : (s : DirectoryStep) → HasUniqueKeys d → HasUniqueKeys (run_step s d)
  unfolding run_step
  HasUniqueKeys-run_step (discard name) u = HasUniqueKeys-delete d name u
  HasUniqueKeys-run_step (move from to) u = elim (Option-cases (get d from)) [
    | inl e ↦ rw (e, run_step) u
    | inr (content, e) ↦
        rw (e, run_step)
          (HasUniqueKeys-set (delete d from) to content (HasUniqueKeys-delete d from u))
  ]

take-nil {ℓ} : {A : Type ℓ} (n : ℕ) → take {A = A} n [] ≡ []
take-nil zero = refl
take-nil (suc n) = refl

module _ (b : Backup) (d : Directories) where
  abbrev pub aside : Directories
  aside =
      run_step (move (codes b.server_id) (displaced_of b)) (run_step (discard (displaced_of b)) d)

  abbrev pub moved_in : Directories
  moved_in = run_step (move (staging_of b) (codes b.server_id)) aside

  abbrev pub swapped : Directories
  swapped = run_step (discard (displaced_of b)) moved_in

  pub whole-swap : run_steps (swap_steps b) d ≡ swapped
  unfolding run_steps
  whole-swap = refl

  staging_aside : get aside (staging_of b) ≡ get d (staging_of b)
  staging_aside =
      let (live_staging, live_displaced, staging_displaced) = names_apart b in
      get-move_ne (run_step (discard (displaced_of b)) d) (codes b.server_id) (displaced_of b)
        (staging_of b) live_staging (λ e. staging_displaced (sym e))
      ∙ get-discard_ne d (displaced_of b) (staging_of b) (λ e. staging_displaced (sym e))

  old_aside :
      (old : String) → get d (codes b.server_id) ≡ some old → get aside (displaced_of b) ≡ some old
  old_aside old h =
      let (live_staging, live_displaced, staging_displaced) = names_apart b in
      get-move_to (run_step (discard (displaced_of b)) d) (codes b.server_id) (displaced_of b) old
        (get-discard_ne d (displaced_of b) (codes b.server_id) (λ e. live_displaced (sym e)) ∙ h)

  new_in :
      (new : String) → get d (staging_of b) ≡ some new → get moved_in (codes b.server_id) ≡ some new
  new_in new h = get-move_to aside (staging_of b) (codes b.server_id) new (staging_aside ∙ h)

  pub new_swapped :
      (new : String) → get d (staging_of b) ≡ some new → get swapped (codes b.server_id) ≡ some new
  new_swapped new h =
      let (live_staging, live_displaced, staging_displaced) = names_apart b in
      get-discard_ne moved_in (displaced_of b) (codes b.server_id) (λ e. live_displaced (sym e))
      ∙ new_in new h

  pub other_swapped :
      (name : Units)
      → codes b.server_id ≢ name
      → staging_of b ≢ name
      → displaced_of b ≢ name
      → get swapped name ≡ get d name
  other_swapped name live staging displaced =
      get-discard_ne moved_in (displaced_of b) name displaced
      ∙ get-move_ne aside (staging_of b) (codes b.server_id) name staging live
      ∙ get-move_ne (run_step (discard (displaced_of b)) d) (codes b.server_id) (displaced_of b)
          name live displaced
      ∙ get-discard_ne d (displaced_of b) name displaced

  unique_moved_in : HasUniqueKeys d → HasUniqueKeys moved_in
  unique_moved_in u = HasUniqueKeys-run_step aside (move (staging_of b) (codes b.server_id)) (
      HasUniqueKeys-run_step (run_step (discard (displaced_of b)) d)
        (move (codes b.server_id) (displaced_of b))
        (HasUniqueKeys-run_step d (discard (displaced_of b)) u))

  -- A swap that is broken off after any number of its steps loses nothing: the directory of the
  -- server holds the old content, or the new content, or the old content stands in the directory
  -- that was put aside.
  pub run_steps-keeps :
      (n : ℕ) (old new : String)
      → get d (codes b.server_id) ≡ some old
      → get d (staging_of b) ≡ some new
      → (get (run_steps (take n (swap_steps b)) d) (codes b.server_id) ≡ some old)
        ⊎ ((get (run_steps (take n (swap_steps b)) d) (displaced_of b) ≡ some old)
            ⊎ (get (run_steps (take n (swap_steps b)) d) (codes b.server_id) ≡ some new))
  unfolding run_steps
  run_steps-keeps zero old new live staging = inl live
  run_steps-keeps (suc zero) old new live staging =
      let (_, live_displaced, _) = names_apart b in
      inl
        (get-discard_ne d (displaced_of b) (codes b.server_id) (λ e. live_displaced (sym e)) ∙ live)
  run_steps-keeps (suc (suc zero)) old new live staging = inr (inl (old_aside old live))
  run_steps-keeps (suc (suc (suc zero))) old new live staging = inr (inr (new_in new staging))
  run_steps-keeps (suc (suc (suc (suc n)))) old new live staging =
      rw (take-nil {A = DirectoryStep} n) (inr (inr (new_swapped new staging)))

pub get-leave_ne :
    (name other : Units) (left : Option String) (d : Directories)
    → name ≢ other
    → get (leave name left d) other ≡ get d other
get-leave_ne name other none d n = get-delete_ne d name other n
get-leave_ne name other (some content) d n = get-set_ne d name other content n

-- Neither is anything lost by a step that throws, whatever it leaves of the directory that it discards.
pub broken_off-keeps :
    (b : Backup) (d : Directories) (left : Option String) (n : ℕ) (old new : String)
    → n < 4
    → get d (codes b.server_id) ≡ some old
    → get d (staging_of b) ≡ some new
    → (get (broken_off n left b d) (codes b.server_id) ≡ some old)
      ⊎ ((get (broken_off n left b d) (displaced_of b) ≡ some old)
          ⊎ (get (broken_off n left b d) (codes b.server_id) ≡ some new))
unfolding run_steps tear
broken_off-keeps b d left zero old new few live staging =
    let (_, live_displaced, _) = names_apart b in
    inl (
      get-leave_ne (displaced_of b) (codes b.server_id) left d (λ e. live_displaced (sym e)) ∙ live)
broken_off-keeps b d left (suc zero) old new few live staging =
    let (_, live_displaced, _) = names_apart b in
    inl (get-discard_ne d (displaced_of b) (codes b.server_id) (λ e. live_displaced (sym e)) ∙ live)
broken_off-keeps b d left (suc (suc zero)) old new few live staging =
    inr (inl (old_aside b d old live))
broken_off-keeps b d left (suc (suc (suc zero))) old new few live staging =
    let (_, live_displaced, _) = names_apart b in
    inr (
      inr (
        get-leave_ne (displaced_of b) (codes b.server_id) left (moved_in b d)
          (λ e. live_displaced (sym e))
        ∙ new_in b d new staging))
broken_off-keeps b d left (suc (suc (suc (suc n)))) old new few live staging =
    absurd (omega (arith, few))

HasUniqueKeys-staged :
    (b : Backup) (content : String) (d : Directories)
    → HasUniqueKeys d
    → HasUniqueKeys (staged b content d)
HasUniqueKeys-staged b content d u =
    HasUniqueKeys-set (delete d (staging_of b)) (staging_of b) content
      (HasUniqueKeys-delete d (staging_of b) u)

HasUniqueKeys-aside : (b : Backup) (d : Directories) → HasUniqueKeys d → HasUniqueKeys (aside b d)
HasUniqueKeys-aside b d u =
    HasUniqueKeys-run_step (run_step (discard (displaced_of b)) d)
      (move (codes b.server_id) (displaced_of b))
      (HasUniqueKeys-run_step d (discard (displaced_of b)) u)

-- A restore of the same backup behind a swap that was broken off after two steps does not bring back
-- what was put aside: that directory is deleted.
pub swap_after_crash :
    (b : Backup) (d : Directories) (again : String)
    → HasUniqueKeys d
    → (get
          (run_steps (swap_steps b) (staged b again (run_steps (take 2 (swap_steps b)) d)))
          (codes b.server_id)
        ≡ some again)
      × (get
            (run_steps (swap_steps b) (staged b again (run_steps (take 2 (swap_steps b)) d)))
            (displaced_of b)
          ≡ none)
unfolding run_steps
swap_after_crash b d again u =
    let left = staged b again (aside b d) in
    (
      new_swapped b left again
          (get-set_self (delete (aside b d) (staging_of b)) (staging_of b) again),
      get-discard_self (moved_in b left) (displaced_of b) (
          unique_moved_in b left
            (HasUniqueKeys-staged b again (aside b d) (HasUniqueKeys-aside b d u))),
    )
