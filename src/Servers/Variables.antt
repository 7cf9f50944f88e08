-- ===== src/Servers/Variables.antt =====
-- The variables of a server, and the memory flag that follows its plan.
use mathlib.Core.Option
use renom.Prelude.{
  Bool, Bool-cases, List, Option, Option-cases, String, [], ap, arith, eq_iff, eq_refl, false,
  if◌then◌else◌, inl, inr, refl, some, str_eq, subst, sym, true, ℕ, ◌&&◌, ◌∙◌, ◌∷◌, ◌≡◌,
}
use renom.Database.{Database, Server, Variable}
use renom.Database.Table.{select_first, select_first_passes, select_first-update_where}
use renom.Database.Change.{done, ◌>=>◌, change-eq-done}
use renom.Servers.{
  has_server, is_free_value, is_variable, upsert, set_variable, variable, is_unchanged,
  set_variable_if_unchanged, ServerPatch, is_empty_patch, patched, update_server, set_memory_flag,
  update,
}
use renom.Servers.Rows.{ServerRow, by_id, live_server, has_id, is_undeleted}

is_variable_refl :
    (id key value : String)
    → is_variable id key (record { server_id = id; key = key; value = value }) ≡ true
is_variable_refl id key value = rw (eq_refl id) (eq_refl key)

select_first-upsert :
    (id key value : String) (rows : List Variable)
    → Option.map Variable.value (select_first (is_variable id key) (upsert id key value rows))
      ≡ some value
unfolding select_first upsert
select_first-upsert id key value [] = rw (is_variable_refl id key value) refl
select_first-upsert id key value (v ∷ rows) = elim (Bool-cases (is_variable id key v)) [
  | inl e ↦ rw (e, upsert) (rw e refl)
  | inr e ↦ rw (e, upsert) (rw e (select_first-upsert id key value rows))
]

apart :
    (id key id' key' : String) (v : Variable)
    → (str_eq id id' && str_eq key key') ≡ false
    → is_variable id key v ≡ true
    → is_variable id' key' v ≡ false
apart id key id' key' v ne h =
    let same_id : v.server_id ≡ id = (eq_iff v.server_id id).0 (ground (arith, h)) in
    let same_key : v.key ≡ key = (eq_iff v.key key).0 (ground (arith, h)) in
    rw same_id (rw same_key ne)

select_first-upsert_other :
    (id key value id' key' : String) (rows : List Variable)
    → (str_eq id id' && str_eq key key') ≡ false
    → select_first (is_variable id' key') (upsert id key value rows)
      ≡ select_first (is_variable id' key') rows
unfolding select_first upsert
select_first-upsert_other id key value id' key' [] ne = rw ne refl
select_first-upsert_other id key value id' key' (v ∷ rows) ne =
    elim (Bool-cases (is_variable id key v)) [
      | inl e ↦ let other = apart id key id' key' v ne e in rw (e, upsert) (rw other refl)
      | inr e ↦
          rw (e, upsert)
            (ap (λ r. if is_variable id' key' v then some v else r)
              (select_first-upsert_other id key value id' key' rows ne))
    ]

-- A variable that is set.
pub variable-set_variable :
    (id key value : String) (db : Database) {u : Unit {0}} {after : Database}
    → set_variable id key value db ≡ done u after
    → (after ≡ record db { server_variables = upsert id key value db.server_variables })
      × (variable after id key ≡ some value)
unfolding set_variable variable
variable-set_variable id key value db {after} h =
    elim (Bool-cases (is_free_value id key value db)) [
      | inr f ↦ absurd (ground (arith, f))
      | inl f ↦ elim (Bool-cases (has_server db id)) [
        | inr e ↦ absurd (ground (arith, e, f))
        | inl e ↦
            let at : after
                ≡ record db { server_variables = upsert id key value db.server_variables } =
              ground (arith, e, f, h) in
            (at, rw at (select_first-upsert id key value db.server_variables))
      ]
    ]

pub variable-set_variable_other :
    (id key value id' key' : String) (db : Database) {u : Unit {0}} {after : Database}
    → set_variable id key value db ≡ done u after
    → (str_eq id id' && str_eq key key') ≡ false
    → variable after id' key' ≡ variable db id' key'
unfolding variable
variable-set_variable_other id key value id' key' db h ne =
    rw (variable-set_variable id key value db h).0 (
      ap (Option.map Variable.value)
        (select_first-upsert_other id key value id' key' db.server_variables ne))

variable-set_variable_any :
    (id key value id' key' : String) (db : Database) {u : Unit {0}} {after : Database}
    → set_variable id key value db ≡ done u after
    → variable after id' key'
      ≡ (if str_eq id id' && str_eq key key' then some value else variable db id' key')
variable-set_variable_any id key value id' key' db {after} h =
    elim (Bool-cases (str_eq id id' && str_eq key key')) [
      | inl e ↦
          let same_id : id ≡ id' = (eq_iff id id').0 (ground (arith, e)) in
          let same_key : key ≡ key' = (eq_iff key key').0 (ground (arith, e)) in
          rw e (
            ap (variable after id') (sym same_key)
            ∙ ap (λ x. variable after x key) (sym same_id)
            ∙ (variable-set_variable id key value db h).1)
      | inr e ↦ rw e (variable-set_variable_other id key value id' key' db h e)
    ]

-- A variable that is written if it is unset or holds the expected value: the answer says which, and
-- after it each variable of each server is the one before, but for the written one.
pub variable-set_variable_if_unchanged :
    (id key value : String) (expected : Option String) (db : Database) (id' key' : String)
    {written : Bool} {after : Database}
    → set_variable_if_unchanged id key value expected db ≡ done written after
    → (written ≡ is_unchanged (variable db id key) expected)
      × (variable after id' key' ≡ (
          if written && (str_eq id id' && str_eq key key')
          then some value
          else variable db id' key'))
unfolding set_variable_if_unchanged
variable-set_variable_if_unchanged id key value expected db id' key' {written} {after} h =
    elim (Bool-cases (is_unchanged (variable db id key) expected)) [
      | inr e ↦
          let no_write : false ≡ written = ground (arith, e, h) in
          let same : db ≡ after = ground (arith, e, h) in
          (sym no_write ∙ sym e, rw (sym no_write) (ap (λ d. variable d id' key') (sym same)))
      | inl e ↦
          let h' : (set_variable id key value db >=> (λ _ d. done true d)) ≡ done written after =
            ground (arith, e, h) in
          let (u, d, set, next) =
            change-eq-done (set_variable id key value db) (λ _ d. done true d) h' in
          let yes_write : true ≡ written = ground (arith, next) in
          let same : d ≡ after = ground (arith, next) in
          (
            sym yes_write ∙ sym e,
            rw (sym yes_write)
                (rw (sym same) (variable-set_variable_any id key value id' key' db set)),
          )
    ]

live_server-id :
    (id : String) (db : Database) (s : Server) → live_server db id ≡ some s → has_id id s ≡ true
unfolding live_server
live_server-id id db s e =
    let passes = select_first_passes (λ x. has_id id x && is_undeleted x) db.servers s e in
    ground (arith, passes)

live_server-variables :
    (id : String) (db : Database) (vs : List Variable)
    → live_server (record db { server_variables = vs }) id ≡ live_server db id
unfolding live_server
live_server-variables id db vs = refl

some_patch : (p : ServerPatch) (memory : ℕ) → p.memory_mb ≡ some memory → is_empty_patch p ≡ false
unfolding is_empty_patch
some_patch p memory m = ground (arith, m)

-- The live server of an update, which keeps identifiers and deletions.
live_server-update_server :
    (id : String) (p : ServerPatch) (now : ℕ) (db : Database)
    → live_server (update_server id (patched p now) db) id
      ≡ Option.map (patched p now) (live_server db id)
unfolding live_server update_server
live_server-update_server id p now db =
    select_first-update_where (λ s. has_id id s && is_undeleted s) (has_id id) (patched p now)
      db.servers (λ r. refl)
    ∙ elim (Option-cases (live_server db id)) [
      | inl e ↦ rw e refl
      | inr (s, e) ↦ rw e (ap some (rw (live_server-id id db s e) refl))
    ]

set_memory_flag_lockstep :
    (print : ℕ → String) (id : String) (p : ServerPatch) (now memory : ℕ) (db : Database)
    {u : Unit {0}} {after : Database}
    → set_memory_flag print id (some memory) (update_server id (patched p now) db) ≡ done u after
    → (variable after id "maxMemory" ≡ some (print memory))
      × (live_server after id ≡ Option.map (patched p now) (live_server db id))
unfolding set_memory_flag
set_memory_flag_lockstep print id p now memory db {after} set =
    let changed = update_server id (patched p now) db in
    let (at, value) = variable-set_variable id "maxMemory" (print memory) changed set in
    let vs = upsert id "maxMemory" (print memory) changed.server_variables in
    (
      value,
      ap (λ d. live_server d id) at
          ∙ live_server-variables id changed vs
          ∙ live_server-update_server id p now db,
    )

-- A change of the plan: the memory flag of the server is the print of the new memory, and a live
-- server has the new values where the patch names one.
pub update_lockstep :
    (print : ℕ → String) (id : String) (p : ServerPatch) (now memory : ℕ) (db : Database)
    {row : Option ServerRow} {after : Database}
    → p.memory_mb ≡ some memory
    → update print id p now db ≡ done row after
    → (variable after id "maxMemory" ≡ some (print memory))
      × (live_server after id ≡ Option.map (patched p now) (live_server db id))
unfolding update
update_lockstep print id p now memory db {row} {after} m h =
    let full = some_patch p memory m in
    let changed = update_server id (patched p now) db in
    let h' : (set_memory_flag print id p.memory_mb changed >=> (λ _ d. done (by_id d id) d))
        ≡ done row after =
      ground (arith, full, h) in
    let (u, d, flag, next) =
      change-eq-done (set_memory_flag print id p.memory_mb changed) (λ _ d. done (by_id d id) d)
        h' in
    let same : d ≡ after = ground (arith, next) in
    let set = subst (λ o. set_memory_flag print id o changed ≡ done u d) m flag in
    rw (sym same) (set_memory_flag_lockstep print id p now memory db set)
