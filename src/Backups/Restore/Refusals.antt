-- ===== src/Backups/Restore/Refusals.antt =====
-- What `restore` leaves when it throws.
use renom.Prelude.{
  Bool-cases, Option, Option-cases, String, Units, ap, arith, codes, inl, inr, ltb, some, str_eq,
  subst, sym, units_eq_inst, ◌∙◌, ◌≡◌, ◌≢◌, ◌⊎◌,
}
use renom.JsMap.{delete, get, get-delete_ne, get-set_ne, get-set_self}
use renom.Errors.{AppError, Result-cases, err, conflict, internal, not_found}
use renom.Database.{Backup}
use renom.Backups.{Tools, Vault}
use renom.Backups.Retention.{by_id}
use renom.Backups.Restore.{
  Directories, Meanwhile, archive_of, broken_off, check_restore, displaced_of, extract_and_swap,
  give_up, is_cleanup, is_hash, is_prepare, leave, member_test, prepared, restore, staged,
  staging_of, steps_done, swap, unpack, unpacked, verify_and_unpack, with_directories,
}
use renom.Backups.Restore.Outcomes.{check_restore-eq-ok}
use renom.Backups.Restore.Swap.{broken_off-keeps, get-leave_ne, names_apart}

-- What others leave alone in a wait: the archive, the directory of the server and the staging
-- directory.
abbrev pub LeavesServer : Backup → (Vault → Vault) → Type 0
LeavesServer b f =
    (x : Vault)
    → (archive_of b (f x) ≡ archive_of b x)
      × (get (f x).directories (codes b.server_id) ≡ get x.directories (codes b.server_id))
      × (get (f x).directories (staging_of b) ≡ get x.directories (staging_of b))

abbrev pub LeaveServer : Backup → Meanwhile → Type 0
LeaveServer b host =
    LeavesServer b host.hashing × LeavesServer b host.listing × LeavesServer b host.extracting

-- The server's directory is as it was; or an error of the file system has broken the swap off, and the
-- old content stands aside or what the archive holds stands in its place.
abbrev pub IsKept : Tools → Backup → Option String → String → AppError → Vault → Type 0
IsKept tools b archive old thrown w =
    ((get w.directories (codes b.server_id) ≡ some old)
      × ((thrown ≡ not_found) ⊎ ((thrown ≡ conflict) ⊎ (thrown ≡ internal))))
    ⊎ ((thrown ≡ internal)
        × ((get w.directories (displaced_of b) ≡ some old)
            ⊎ (files : String) × (unpacked tools archive ≡ some files)
              × (get w.directories (codes b.server_id) ≡ some files)))

get-staged_live :
    (b : Backup) (content : String) (d : Directories)
    → get (staged b content d) (codes b.server_id) ≡ get d (codes b.server_id)
get-staged_live b content d =
    let apart : staging_of b ≢ codes b.server_id = λ s. (names_apart b).0 (sym s) in
    get-set_ne (delete d (staging_of b)) (staging_of b) (codes b.server_id) content apart
    ∙ get-delete_ne d (staging_of b) (codes b.server_id) apart

module _ (tools : Tools) (host : Meanwhile) (b : Backup) (archive : Option String) (old : String)
    (thrown : AppError) (w : Vault) where
  left_alone :
      (v : Vault)
      → get v.directories (codes b.server_id) ≡ some old
      → (internal ≡ thrown)
      → with_directories v (leave (staging_of b) host.left v.directories) ≡ w
      → IsKept tools b archive old thrown w
  left_alone v live e at = inl (
    sym (ap (λ (u : Vault). get u.directories (codes b.server_id)) at)
        ∙ get-leave_ne (staging_of b) (codes b.server_id) host.left v.directories
            (λ s. (names_apart b).0 (sym s))
        ∙ live,
    inr (inr (sym e)),
  )

  give_up-IsKept :
      (v : Vault)
      → get v.directories (codes b.server_id) ≡ some old
      → give_up host b v ≡ (err thrown, w)
      → IsKept tools b archive old thrown w
  unfolding give_up
  give_up-IsKept v live h = elim (Bool-cases (is_cleanup host.fault)) [
    | inl e ↦ left_alone v live (ground (arith, e, h)) (ground (arith, e, h))
    | inr e ↦
        let at : with_directories v (delete v.directories (staging_of b)) ≡ w =
          ground (arith, e, h) in
        inl (
          sym (ap (λ (u : Vault). get u.directories (codes b.server_id)) at)
              ∙ get-delete_ne v.directories (staging_of b) (codes b.server_id)
                  (λ s. (names_apart b).0 (sym s))
              ∙ live,
          inr (inl (ground (arith, e, h))),
        )
  ]

  swap-IsKept :
      (files : String) (v : Vault)
      → unpacked tools archive ≡ some files
      → get v.directories (codes b.server_id) ≡ some old
      → get v.directories (staging_of b) ≡ some files
      → swap host b v ≡ (err thrown, w)
      → IsKept tools b archive old thrown w
  unfolding swap
  swap-IsKept files v extracted live staging h =
      let n = steps_done host b v.directories in
      elim (Bool-cases (ltb n 4)) [
        | inr e ↦ absurd (ground (arith, e, h))
        | inl e ↦
            let at : with_directories v (broken_off n host.left b v.directories) ≡ w =
              ground (arith, e, h) in
            let why : thrown ≡ internal = ground (arith, e, h) in
            let found = λ (name : Units). sym (ap (λ (u : Vault). get u.directories name) at) in
            elim (broken_off-keeps b v.directories host.left n old files (ground (arith, e)) live
              staging) [
                | inl kept ↦ inl (found (codes b.server_id) ∙ kept, inr (inr why))
                | inr (inl aside) ↦ inr (why, inl (found (displaced_of b) ∙ aside))
                | inr (inr new) ↦ inr (why, inr (files, extracted, found (codes b.server_id) ∙ new))
              ]
      ]

  extract_and_swap-IsKept :
      (v : Vault)
      → LeavesServer b host.extracting
      → archive_of b v ≡ archive
      → get v.directories (codes b.server_id) ≡ some old
      → extract_and_swap tools host b v ≡ (err thrown, w)
      → IsKept tools b archive old thrown w
  unfolding extract_and_swap
  extract_and_swap-IsKept v extracting file live h =
      elim (Option-cases (unpacked tools (archive_of b v))) [
        | inl e ↦
            give_up-IsKept (host.extracting v) ((extracting v).1 ∙ live) (ground (arith, e, h))
        | inr (files, e) ↦
            let x = with_directories v (staged b files v.directories) in
            swap-IsKept files (host.extracting x) (sym (ap (unpacked tools) file) ∙ e)
              ((extracting x).1 ∙ get-staged_live b files v.directories ∙ live)
              ((extracting x).2
                ∙ get-set_self (delete v.directories (staging_of b)) (staging_of b) files)
              (ground (arith, e, h))
      ]

  unpack-IsKept :
      (v : Vault)
      → LeavesServer b host.listing
      → LeavesServer b host.extracting
      → archive_of b v ≡ archive
      → get v.directories (codes b.server_id) ≡ some old
      → unpack tools host b v ≡ (err thrown, w)
      → IsKept tools b archive old thrown w
  unfolding unpack
  unpack-IsKept v listing extracting file live h =
      let x = prepared tools b v in
      let here : get (host.listing x).directories (codes b.server_id) ≡ some old =
        (listing x).1 ∙ get-staged_live b tools.empty_directory v.directories ∙ live in
      elim (Bool-cases (is_prepare host.fault)) [
        | inl e ↦ left_alone v live (ground (arith, e, h)) (ground (arith, e, h))
        | inr e ↦ elim (Bool-cases (member_test tools b (archive_of b v))) [
          | inl m ↦
              extract_and_swap-IsKept (host.listing x) extracting ((listing x).0 ∙ file) here
                (ground (arith, e, m, h))
          | inr m ↦ give_up-IsKept (host.listing x) here (ground (arith, e, m, h))
        ]
      ]

  verify_and_unpack-IsKept :
      (content : String) (v : Vault)
      → LeavesServer b host.listing
      → LeavesServer b host.extracting
      → archive_of b v ≡ archive
      → get v.directories (codes b.server_id) ≡ some old
      → verify_and_unpack tools host b content v ≡ (err thrown, w)
      → IsKept tools b archive old thrown w
  unfolding verify_and_unpack
  verify_and_unpack-IsKept content v listing extracting file live h =
      let kept =
        λ (e : v ≡ w). sym (ap (λ (u : Vault). get u.directories (codes b.server_id)) e) ∙ live in
      elim (Bool-cases (is_hash host.fault)) [
        | inl e ↦ inl (kept (ground (arith, e, h)), inr (inr (ground (arith, e, h))))
        | inr e ↦ elim (Bool-cases (str_eq (tools.sha256 content) b.checksum_sha256)) [
          | inl d ↦ unpack-IsKept v listing extracting file live (ground (arith, e, d, h))
          | inr d ↦ inl (kept (ground (arith, e, d, h)), inr (inl (ground (arith, e, d, h))))
        ]
      ]

  check_restore-eq-err :
      (id : String) (v : Vault)
      → check_restore tools id v ≡ err thrown
      → (thrown ≡ not_found) ⊎ (thrown ≡ conflict)
  unfolding check_restore
  check_restore-eq-err id v h = elim (Option-cases (by_id id v)) [
    | inl e ↦ inl (ground (arith, e, h))
    | inr (c, e) ↦ elim (Bool-cases (str_eq (tools.state_of c.server_id) "offline")) [
      | inr on ↦ inr (ground (arith, e, on, h))
      | inl off ↦ elim (Option-cases (archive_of c v)) [
        | inl f ↦ inl (ground (arith, e, off, f, h))
        | inr (x, f) ↦ absurd (ground (arith, e, off, f, h))
      ]
    ]
  ]

-- A restore that throws, for a server whose directory is there, whatever call of the file system throws
-- and whatever others do while it waits but to the archive, the server's directory and the staging
-- directory: the server's directory is as it was, or an `Error` that is no 404 or 409 has broken the
-- swap off, and then the old content stands aside or what the archive holds stands in its place.
pub restore-eq-err :
    (tools : Tools) (host : Meanwhile) (b : Backup) (id old : String) (thrown : AppError)
    (v w : Vault)
    → by_id id v ≡ some b
    → LeaveServer b host
    → get v.directories (codes b.server_id) ≡ some old
    → restore tools host id v ≡ (err thrown, w)
    → IsKept tools b (archive_of b v) old thrown w
unfolding restore
restore-eq-err tools host b id old thrown v w found (hashing, listing, extracting) live h =
    elim (Result-cases (check_restore tools id v)) [
      | inl (t, e) ↦
          let same : v ≡ w = ground (arith, e, h) in
          let why =
            check_restore-eq-err tools host b (archive_of b v) old thrown w id v
              (ground (arith, e, h)) in
          inl (
            sym (ap (λ (u : Vault). get u.directories (codes b.server_id)) same) ∙ live,
            elim why [ inl n ↦ inl n | inr c ↦ inr (inl c) ],
          )
      | inr ((c, content), e) ↦
          let (found_c, _, _) = check_restore-eq-ok tools id v c content e in
          let same : c ≡ b = ground (arith, found, found_c) in
          let begun : verify_and_unpack tools host b content (host.hashing v) ≡ (err thrown, w) =
            subst (λ x. verify_and_unpack tools host x content (host.hashing v) ≡ (err thrown, w))
              same (ground (arith, e, h)) in
          verify_and_unpack-IsKept tools host b (archive_of b v) old thrown w content
            (host.hashing v) listing extracting ((hashing v).0) ((hashing v).1 ∙ live) begun
    ]
