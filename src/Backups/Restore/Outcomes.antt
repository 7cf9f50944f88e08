-- ===== src/Backups/Restore/Outcomes.antt =====
-- What `restore` leaves when it returns.
use renom.Prelude.{
  Bool-cases, Option-cases, String, Units, ap, arith, codes, eq_iff, inl, inr, ltb, some, str_eq,
  subst, sym, true, units_eq_inst, ◌∙◌, ◌≡◌, ◌≢◌,
}
use renom.JsMap.{delete, get, get-set_self}
use renom.Errors.{Result-cases, ok}
use renom.Database.{Backup}
use renom.Backups.{Tools, Vault}
use renom.Backups.Retention.{by_id}
use renom.Backups.Restore.{
  Meanwhile, are_members_safe, archive_of, check_restore, displaced_of, extract_and_swap, give_up,
  is_hash, is_prepare, member_test, prepared, restore, run_steps, staged, staging_of, steps_done,
  swap, swap_steps, unpack, unpacked, verify_and_unpack, with_directories,
}
use renom.Backups.Restore.Swap.{new_swapped, other_swapped, swapped, whole-swap}

pub check_restore-eq-ok :
    (tools : Tools) (id : String) (v : Vault) (b : Backup) (content : String)
    → check_restore tools id v ≡ ok (b, content)
    → (by_id id v ≡ some b)
      × (tools.state_of b.server_id ≡ "offline")
      × (archive_of b v ≡ some content)
unfolding check_restore
check_restore-eq-ok tools id v b content h = elim (Option-cases (by_id id v)) [
  | inl e ↦ absurd (ground (arith, e, h))
  | inr (c, e) ↦ elim (Option-cases (archive_of c v)) [
    | inl f ↦ absurd (ground (arith, e, f, h))
    | inr (x, f) ↦
        let q = eq_iff (tools.state_of c.server_id) "offline" in ground (arith, e, f, q, h)
  ]
]

-- The vault at the start of the swap: the three waits have passed, and tar has filled the staging
-- directory.
abbrev pub listed : Tools → Meanwhile → Backup → Vault → Vault
listed tools host b v = host.listing (prepared tools b (host.hashing v))

abbrev pub at_swap : Tools → Meanwhile → Backup → String → Vault → Vault
at_swap tools host b files v =
    let x = listed tools host b v in
    host.extracting (with_directories x (staged b files x.directories))

-- What others leave alone in a wait: the archive and the staging directory of the backup.
abbrev pub LeavesFiles : Backup → (Vault → Vault) → Type 0
LeavesFiles b f =
    (x : Vault)
    → (archive_of b (f x) ≡ archive_of b x)
      × (get (f x).directories (staging_of b) ≡ get x.directories (staging_of b))

abbrev pub LeaveFiles : Backup → Meanwhile → Type 0
LeaveFiles b host =
    LeavesFiles b host.hashing × LeavesFiles b host.listing × LeavesFiles b host.extracting

-- What holds of the vault behind a restore that returns.
abbrev pub IsRestored : Tools → Meanwhile → Backup → Vault → Vault → Type 0
IsRestored tools host b v w =
    (content : String) × (files : String) × (tools.state_of b.server_id ≡ "offline")
    × (archive_of b v ≡ some content)
    × (tools.sha256 content ≡ b.checksum_sha256)
    × (are_members_safe tools (staging_of b) content ≡ true)
    × (tools.extract content ≡ some files)
    × (get w.directories (codes b.server_id) ≡ some files)
    × ((name : Units)
        → codes b.server_id ≢ name
        → staging_of b ≢ name
        → displaced_of b ≢ name
        → get w.directories name ≡ get (at_swap tools host b files v).directories name)
    × (w ≡ with_directories (at_swap tools host b files v) w.directories)

module _ (host : Meanwhile) (b : Backup) where
  swap-eq-ok :
      (v w : Vault)
      → swap host b v ≡ (ok tt, w)
      → w ≡ with_directories v (run_steps (swap_steps b) v.directories)
  unfolding swap
  swap-eq-ok v w h = elim (Bool-cases (ltb (steps_done host b v.directories) 4)) [
    | inl e ↦ absurd (ground (arith, e, h))
    | inr e ↦ ground (arith, e, h)
  ]

  -- What a swap does that goes through.
  swap_lem :
      (files : String) (v w : Vault)
      → get v.directories (staging_of b) ≡ some files
      → swap host b v ≡ (ok tt, w)
      → (get w.directories (codes b.server_id) ≡ some files)
        × ((name : Units)
            → codes b.server_id ≢ name
            → staging_of b ≢ name
            → displaced_of b ≢ name
            → get w.directories name ≡ get v.directories name)
        × (w ≡ with_directories v w.directories)
  swap_lem files v w there h =
      let after = swap-eq-ok v w h in
      let same = ap (λ (u : Vault). u.directories) after in
      let moved : w.directories ≡ swapped b v.directories = same ∙ whole-swap b v.directories in
      (
        ap (λ l. get l (codes b.server_id)) moved ∙ new_swapped b v.directories files there,
        λ name live staging displaced.
            ap (λ l. get l name) moved ∙ other_swapped b v.directories name live staging displaced,
        after ∙ ap (with_directories v) (sym same),
      )

  give_up-throws : (v w : Vault) → give_up host b v ≢ (ok tt, w)
  unfolding give_up
  give_up-throws v w h = absurd (ground (arith, h))

  module _ (tools : Tools) where
    extract_and_swap-eq-ok :
        (v w : Vault)
        → extract_and_swap tools host b v ≡ (ok tt, w)
        → (files : String) × (unpacked tools (archive_of b v) ≡ some files)
          × (swap host b (host.extracting (with_directories v (staged b files v.directories)))
              ≡ (ok tt, w))
    unfolding extract_and_swap
    extract_and_swap-eq-ok v w h = elim (Option-cases (unpacked tools (archive_of b v))) [
      | inl e ↦ absurd (give_up-throws (host.extracting v) w (ground (arith, e, h)))
      | inr (files, e) ↦ (files, e, ground (arith, e, h))
    ]

    unpack-eq-ok :
        (v w : Vault)
        → unpack tools host b v ≡ (ok tt, w)
        → (member_test tools b (archive_of b v) ≡ true)
          × (extract_and_swap tools host b (host.listing (prepared tools b v)) ≡ (ok tt, w))
    unfolding unpack
    unpack-eq-ok v w h = elim (Bool-cases (is_prepare host.fault)) [
      | inl e ↦ absurd (ground (arith, e, h))
      | inr e ↦ elim (Bool-cases (member_test tools b (archive_of b v))) [
        | inl m ↦ (m, ground (arith, e, m, h))
        | inr m ↦
            absurd (give_up-throws (host.listing (prepared tools b v)) w (ground (arith, e, m, h)))
      ]
    ]

    verify_and_unpack-eq-ok :
        (content : String) (v w : Vault)
        → verify_and_unpack tools host b content v ≡ (ok tt, w)
        → (tools.sha256 content ≡ b.checksum_sha256) × (unpack tools host b v ≡ (ok tt, w))
    unfolding verify_and_unpack
    verify_and_unpack-eq-ok content v w h = elim (Bool-cases (is_hash host.fault)) [
      | inl e ↦ absurd (ground (arith, e, h))
      | inr e ↦ elim (Bool-cases (str_eq (tools.sha256 content) b.checksum_sha256)) [
        | inl d ↦ ((eq_iff (tools.sha256 content) b.checksum_sha256).0 d, ground (arith, e, d, h))
        | inr d ↦ absurd (ground (arith, e, d, h))
      ]
    ]

    -- A restore that returns, whatever others do while it waits but to the archive and the staging
    -- directory of the backup: the server was offline at the call, the digest of the archive is the
    -- recorded one, its members passed the test of their paths, and the directory of the server holds
    -- what tar extracted of it. All else, but for the two directories that the restore works with, is
    -- as it was when the swap began.
    pub restore-eq-ok :
        (id : String) (v w : Vault)
        → by_id id v ≡ some b
        → LeaveFiles b host
        → restore tools host id v ≡ (ok tt, w)
        → IsRestored tools host b v w
    unfolding restore
    restore-eq-ok id v w found (hashing, listing, extracting) h =
        elim (Result-cases (check_restore tools id v)) [
          | inl (thrown, e) ↦ absurd (ground (arith, e, h))
          | inr ((c, content), e) ↦
              let (found_c, offline_c, file_c) = check_restore-eq-ok tools id v c content e in
              let same : c ≡ b = ground (arith, found, found_c) in
              let offline =
                subst (λ (x : Backup). tools.state_of x.server_id ≡ "offline") same offline_c in
              let file = subst (λ x. archive_of x v ≡ some content) same file_c in
              let begun : verify_and_unpack tools host b content (host.hashing v) ≡ (ok tt, w) =
                subst (λ x. verify_and_unpack tools host x content (host.hashing v) ≡ (ok tt, w))
                  same (ground (arith, e, h)) in
              let (digest, going) = verify_and_unpack-eq-ok content (host.hashing v) w begun in
              let (safe, last) = unpack-eq-ok (host.hashing v) w going in
              let x = listed tools host b v in
              let (files, got, swapping) = extract_and_swap-eq-ok x w last in
              let hashed = (hashing v).0 ∙ file in
              let read = (listing (prepared tools b (host.hashing v))).0 ∙ hashed in
              let filled = with_directories x (staged b files x.directories) in
              let y = at_swap tools host b files v in
              let there : get y.directories (staging_of b) ≡ some files =
                (extracting filled).1
                ∙ get-set_self (delete x.directories (staging_of b)) (staging_of b) files in
              let (live, names, rest) = swap_lem files y w there swapping in
              (
                content,
                files,
                offline,
                file,
                digest,
                sym (ap (member_test tools b) hashed) ∙ safe,
                sym (ap (unpacked tools) read) ∙ got,
                live,
                names,
                rest,
              )
        ]
