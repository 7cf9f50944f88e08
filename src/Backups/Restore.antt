-- ===== src/Backups/Restore.antt =====
-- `restore`, `assertTarMembersSafe` and the swap of the directories. Paths are taken below `servers/`.
-- `restore` waits three times: for the digest, for the list of the members and for tar. What others do
-- in a wait, and which call of the file system throws, is the parameter `Meanwhile`.
pub mod Swap
pub mod Outcomes
pub mod Refusals
use renom.Prelude.{
  Bool, List, Option, String, Units, [], all, codes, drop, false, if◌then◌else◌, ltb, min, none,
  not, some, str_eq, take, true, units_eq, units_eq_inst, ℕ, ◌++◌, ◌/◌, ◌==◌, ◌||◌, ◌∷◌,
}
use renom.JsText.{starts_with}
use renom.JsText.Split.{split_lines}
use renom.JsMap.{delete, get, has, set}
use renom.Errors.{Result, ok, err, not_found, conflict, internal}
use renom.Database.{Backup}
use renom.Backups.{Tools, Vault, archive_path}
use renom.Backups.Retention.{by_id}

abbrev pub Directories : Type 0
Directories = List (Units × String)

abbrev pub staging_of : Backup → Units
staging_of b = codes b.server_id ++ (codes ".restore-" ++ codes b.id)

abbrev pub displaced_of : Backup → Units
displaced_of b = codes b.server_id ++ (codes ".pre-restore-" ++ codes b.id)

-- `replace(/^\.\//, "")`.
abbrev pub strip_here : Units → Units
strip_here s = if starts_with s (codes "./") then drop 2 s else s

-- `endsWith("/")`.
unfoldable pub ends_with_slash : Units → Bool
ends_with_slash [] = false
ends_with_slash (c ∷ []) = c == b'/'
ends_with_slash (c ∷ d ∷ s) = ends_with_slash (d ∷ s)

unfoldable pub is_inside : Units → Units → Bool
unfolding starts_with
is_inside directory path = units_eq path directory || starts_with path (directory ++ b'/' ∷ [])

-- A member that is not looked at, or that resolves into the directory.
unfoldable pub is_safe_member : Tools → Units → Units → Bool
unfolding starts_with ends_with_slash is_inside
is_safe_member tools directory member =
    let cleaned = strip_here member in
    units_eq cleaned []
    || units_eq cleaned (codes ".")
    || ends_with_slash cleaned
    || is_inside directory (tools.resolve directory cleaned)

-- `assertTarMembersSafe` of the content of an archive.
unfoldable pub are_members_safe : Tools → Units → String → Bool
unfolding split_lines is_safe_member
are_members_safe tools staging content = elim (tools.list_members content) [
  | none ↦ false
  | some listing ↦ all (is_safe_member tools staging) (split_lines listing)
]

-- `rmSync` and `renameSync`, which is called only if the source is there.
pub data DirectoryStep : Type 0 where
  discard : Units → DirectoryStep
  move : Units → Units → DirectoryStep

unfoldable pub run_step : DirectoryStep → Directories → Directories
unfolding delete get set
run_step (discard name) d = delete d name
run_step (move from to) d = elim (get d from) [
  | none ↦ d
  | some content ↦ set (delete d from) to content
]

unfoldable pub run_steps : List DirectoryStep → Directories → Directories
unfolding run_step
run_steps [] d = d
run_steps (s ∷ steps) d = run_steps steps (run_step s d)

-- The live directory goes aside, the staging directory takes its place, the old copy is dropped.
abbrev pub swap_steps : Backup → List DirectoryStep
swap_steps b =
    discard (displaced_of b)
    ∷ move (codes b.server_id) (displaced_of b)
    ∷ move (staging_of b) (codes b.server_id)
    ∷ discard (displaced_of b)
    ∷ []

-- The staging directory with what the archive holds.
abbrev pub staged : Backup → String → Directories → Directories
staged b content d = set (delete d (staging_of b)) (staging_of b) content

-- A call that throws: the digest, `rmSync` and `mkdirSync` of the staging directory, `rmSync` in the
-- `catch`, or a step of the swap behind `n` others.
pub data Fault : Type 0 where
  hash_throws prepare_throws cleanup_throws : Fault
  swap_throws : ℕ → Fault

-- What others do while `restore` waits for the digest, the list and tar; the call that throws, if one
-- does; and what an `rmSync` that throws leaves of its directory.
pub record Meanwhile : Type 0 where
  pub hashing : Vault → Vault
  pub listing : Vault → Vault
  pub extracting : Vault → Vault
  pub fault : Option Fault
  pub left : Option String

abbrev pub with_directories : Vault → Directories → Vault
with_directories v d = record v { directories = d }

abbrev pub leave : Units → Option String → Directories → Directories
leave name none d = delete d name
leave name (some content) d = set d name content

-- The step that throws, the first one that is left to do: a directory that is not wholly discarded, or
-- a rename that is not done.
unfoldable pub tear : List DirectoryStep → Option String → Directories → Directories
unfolding delete set
tear [] left d = d
tear (discard name ∷ steps) left d = leave name left d
tear (move from to ∷ steps) left d = d

abbrev pub broken_off : ℕ → Option String → Backup → Directories → Directories
broken_off n left b d = tear (drop n (swap_steps b)) left (run_steps (take n (swap_steps b)) d)

-- How many steps of the swap return: without a staging directory its rename throws.
abbrev pub steps_before : Option Fault → ℕ
steps_before (some (swap_throws n)) = n
steps_before _ = 4

unfoldable pub steps_done : Meanwhile → Backup → Directories → ℕ
unfolding has get
steps_done host b d = let n = steps_before host.fault in if has d (staging_of b) then n else min n 2

unfoldable pub swap : Meanwhile → Backup → Vault → Result (Unit {0}) × Vault
unfolding steps_done run_steps tear
swap host b v =
    let n = steps_done host b v.directories in
    if ltb n 4
    then (err internal, with_directories v (broken_off n host.left b v.directories))
    else (ok tt, with_directories v (run_steps (swap_steps b) v.directories))

abbrev is_cleanup : Option Fault → Bool
is_cleanup (some cleanup_throws) = true
is_cleanup _ = false

abbrev is_hash : Option Fault → Bool
is_hash (some hash_throws) = true
is_hash _ = false

abbrev is_prepare : Option Fault → Bool
is_prepare (some prepare_throws) = true
is_prepare _ = false

-- The `catch` of the two calls of tar.
unfoldable pub give_up : Meanwhile → Backup → Vault → Result (Unit {0}) × Vault
give_up host b v =
    if is_cleanup host.fault
    then (err internal, with_directories v (leave (staging_of b) host.left v.directories))
    else (err conflict, with_directories v (delete v.directories (staging_of b)))

abbrev pub archive_of : Backup → Vault → Option String
archive_of b v = get v.archives (archive_path b.server_id b.file_name)

abbrev pub member_test : Tools → Backup → Option String → Bool
member_test tools b none = false
member_test tools b (some content) = are_members_safe tools (staging_of b) content

abbrev pub unpacked : Tools → Option String → Option String
unpacked tools none = none
unpacked tools (some content) = tools.extract content

-- From the start of tar on, which reads the archive once more.
unfoldable pub extract_and_swap : Tools → Meanwhile → Backup → Vault → Result (Unit {0}) × Vault
unfolding swap give_up
extract_and_swap tools host b v = elim (unpacked tools (archive_of b v)) [
  | none ↦ give_up host b (host.extracting v)
  | some files ↦ swap host b (host.extracting (with_directories v (staged b files v.directories)))
]

-- The vault with an empty staging directory.
abbrev pub prepared : Tools → Backup → Vault → Vault
prepared tools b v = with_directories v (staged b tools.empty_directory v.directories)

-- From the staging directory on.
unfoldable pub unpack : Tools → Meanwhile → Backup → Vault → Result (Unit {0}) × Vault
unfolding extract_and_swap
unpack tools host b v =
    if is_prepare host.fault
    then (err internal, with_directories v (leave (staging_of b) host.left v.directories))
    else if member_test tools b (archive_of b v)
    then extract_and_swap tools host b (host.listing (prepared tools b v))
    else give_up host b (host.listing (prepared tools b v))

-- What is checked before the first wait: the content of the archive, if the backup may be restored.
unfoldable pub check_restore : Tools → String → Vault → Result (Backup × String)
unfolding by_id get
check_restore tools id v = elim (by_id id v) [
  | none ↦ err not_found
  | some b ↦
      if not (str_eq (tools.state_of b.server_id) "offline")
      then err conflict
      else (elim (archive_of b v) [ none ↦ err not_found | some content ↦ ok (b, content) ])
]

-- The digest is that of the file as it is when the wait begins.
unfoldable pub verify_and_unpack :
    Tools → Meanwhile → Backup → String → Vault → Result (Unit {0}) × Vault
unfolding unpack
verify_and_unpack tools host b content v =
    if is_hash host.fault
    then (err internal, v)
    else if str_eq (tools.sha256 content) b.checksum_sha256
    then unpack tools host b v
    else (err conflict, v)

unfoldable pub restore : Tools → Meanwhile → String → Vault → Result (Unit {0}) × Vault
unfolding check_restore verify_and_unpack
restore tools host id v = elim (check_restore tools id v) [
  | err thrown ↦ (err thrown, v)
  | ok (b, content) ↦ verify_and_unpack tools host b content (host.hashing v)
]
