-- ===== src/Backups/Create/Reserved.antt =====
-- What a backup reserves is not given again while it stands, and a backup that is refused changes nothing.
use renom.Prelude.{
  Bool, Bool-cases, Option, Option-cases, String, ap, arith, false, inl, inr, refl, some, true,
  units_eq_inst, units_eq_refl, ℕ, ◌∙◌, ◌≡◌, ◌≢◌, ◌⊎◌,
}
use renom.JsMap.{get, get-set, has, set}
use renom.Errors.{AppError, not_found, conflict, Result-cases, ok, err}
use renom.Servers.Rows
use renom.Backups.{Tools, Vault, archive_path}
use renom.Backups.Names.{base_name, software_of}
use renom.Backups.Names.Fresh.{reserve-free}
use renom.Backups.Create.{Pending, admit, begin}

begin-eq-ok :
    (tools : Tools) (now : ℕ) (id server : String) (actor : Option String) (locked : Bool)
    (v w : Vault) (p : Pending)
    → begin tools now id server actor locked v ≡ (ok p, w)
    → (has v.archives (archive_path p.server_id p.file_name) ≡ false)
      × (w.archives ≡ set v.archives (archive_path p.server_id p.file_name) "")
      × (p.server_id ≡ server)
unfolding begin
begin-eq-ok tools now id server actor locked v w p h = elim (Result-cases (admit tools server v)) [
  | inl (thrown, e) ↦ absurd (ground (arith, e, h))
  | inr ((row, policy), e) ↦
      let base = base_name (software_of row.blueprint_slug) (tools.stamp_of now) in
      let (i, _, r, free) = reserve-free server base v.archives in ground (arith, e, r, free, h)
]

-- A backup that is begun overwrites no archive and reserves its path before it waits for tar: whatever
-- happens then, as long as a file stands at that path, no backup that is begun gets it, whatever its
-- server and its time are.
pub begin-apart :
    (tools : Tools) (now : ℕ) (id server : String) (actor : Option String) (locked : Bool)
    (v w : Vault) (p : Pending) (now' : ℕ) (id' server' : String) (actor' : Option String)
    (locked' : Bool) (x y : Vault) (q : Pending)
    → begin tools now id server actor locked v ≡ (ok p, w)
    → has x.archives (archive_path p.server_id p.file_name) ≡ true
    → begin tools now' id' server' actor' locked' x ≡ (ok q, y)
    → (has v.archives (archive_path p.server_id p.file_name) ≡ false)
      × (has w.archives (archive_path p.server_id p.file_name) ≡ true)
      × (archive_path p.server_id p.file_name ≢ archive_path q.server_id q.file_name)
unfolding has
begin-apart tools now id server actor locked v w p now' id' server' actor' locked' x y q h stands
      k =
    let path = archive_path p.server_id p.file_name in
    let (free_p, set_p, _) = begin-eq-ok tools now id server actor locked v w p h in
    let (free_q, _, _) = begin-eq-ok tools now' id' server' actor' locked' x y q k in
    let there : get w.archives path ≡ some "" =
      ap (λ m. get m path) set_p ∙ get-set v.archives path path "" ∙ rw (units_eq_refl path) refl in
    (
      free_p,
      rw (there, has) refl,
      λ same. absurd (ground (arith, stands, ap (has x.archives) same, free_q)),
    )

admit-eq-err :
    (tools : Tools) (server : String) (v : Vault) (thrown : AppError)
    → admit tools server v ≡ err thrown
    → (thrown ≡ not_found) ⊎ (thrown ≡ conflict)
unfolding admit
admit-eq-err tools server v thrown h = elim (Option-cases (Rows.by_id v.db server)) [
  | inl e ↦ inl (ground (arith, e, h))
  | inr (row, e) ↦ elim (Bool-cases tools.has_tar) [
    | inr no_tar ↦ inr (ground (arith, e, no_tar, h))
    | inl tar ↦ elim (Option-cases (tools.doc_of row.blueprint_slug row.blueprint_version_tag)) [
      | inl no_doc ↦ inr (ground (arith, e, tar, no_doc, h))
      | inr (policy, doc) ↦ inr (ground (arith, e, tar, doc, h))
    ]
  ]
]

-- A backup that is refused is refused with 404 or 409, and leaves everything as it was.
pub begin-eq-err :
    (tools : Tools) (now : ℕ) (id server : String) (actor : Option String) (locked : Bool)
    (v w : Vault) (thrown : AppError)
    → begin tools now id server actor locked v ≡ (err thrown, w)
    → (w ≡ v) × ((thrown ≡ not_found) ⊎ (thrown ≡ conflict))
unfolding begin
begin-eq-err tools now id server actor locked v w thrown h =
    elim (Result-cases (admit tools server v)) [
      | inl (e, a) ↦
          (ground (arith, a, h), admit-eq-err tools server v thrown (ground (arith, a, h)))
      | inr ((row, policy), e) ↦
          let base = base_name (software_of row.blueprint_slug) (tools.stamp_of now) in
          let (i, _, r, free) = reserve-free server base v.archives in
          absurd (ground (arith, e, r, h))
    ]
