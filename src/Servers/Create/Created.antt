-- ===== src/Servers/Create/Created.antt =====
-- What `create` has done when it returns.
use mathlib.Core.Option
use renom.Prelude.{
  Bool-cases, Option, Option-cases, String, [], ap, arith, inl, inr, is_some, none, some, subst,
  suc, sym, zero, ℕ, ◌&&◌, ◌++◌, ◌==◌, ◌∙◌, ◌∷◌, ◌≡◌, ◌≤◌,
}
use renom.Database.{Database, Server, Variable}
use renom.Database.Table.{count_where, select_first}
use renom.Database.Change.{
  done, ◌>=>◌, unique_violation, no_free_port, committed, change-eq-done, Failure, Change-cases,
  is_unique_violation,
}
use renom.Servers.{set_variable, variable, is_variable}
use renom.Servers.Variables.{variable-set_variable}
use renom.Servers.Rows.{ServerRow, has_id, user_row, blueprint_row, by_id}
use renom.Servers.Ports.{
  insert_allocation, holders, HasUniquePorts, insert_allocation-IsInserted, append-HasUniquePorts,
  claim_free_port-IsFirst, claim_specific_port-free,
}
use renom.Servers.Create.{
  NewServer, new_row, insert_server, any_address, claim_port, primary, created, create_once,
  attempts, create,
}

-- What a port was given for: the one that was asked for, or one of the range.
abbrev pub IsWanted : Option ℕ → ℕ → Type 0
IsWanted none port = (25565 ≤ port) × (port ≤ 26565)
IsWanted (some zero) port = (25565 ≤ port) × (port ≤ 26565)
IsWanted (some (suc n)) port = port ≡ suc n

claim_port-free :
    (wanted : Option ℕ) (db : Database) {port : ℕ} {after : Database}
    → claim_port wanted db ≡ done port after
    → (db ≡ after) × (holders any_address port db.allocations ≡ 0) × IsWanted wanted port
unfolding claim_port
claim_port-free none db {port} {after} h =
    let (same, l, u, free, _) = claim_free_port-IsFirst any_address 25565 26565 port db after h in
    (same, free, (l, u))
claim_port-free (some zero) db {port} {after} h =
    let (same, l, u, free, _) = claim_free_port-IsFirst any_address 25565 26565 port db after h in
    (same, free, (l, u))
claim_port-free (some (suc n)) db {port} {after} h =
    let (p, same, free) = claim_specific_port-free any_address (suc n) db h in
    (same, subst (λ x. holders any_address x db.allocations ≡ 0) (sym p) free, p)

insert_server-eq :
    (s : Server) (db : Database) {u : Unit {0}} {after : Database}
    → insert_server s db ≡ done u after
    → (count_where (has_id s.id) db.servers ≡ 0)
      × (after ≡ record db { servers = db.servers ++ s ∷ [] })
unfolding insert_server
insert_server-eq s db h =
    let fresh = count_where (has_id s.id) db.servers == 0 in
    let known = is_some (user_row db s.owner_id) && is_some (blueprint_row db s.blueprint_id) in
    elim (Bool-cases fresh) [
      | inr e ↦ absurd (ground (arith, e))
      | inl new ↦ elim (Bool-cases known) [
        | inr e ↦ absurd (ground (arith, e, new))
        | inl e ↦ (ground (arith, new), ground (arith, e, new, h))
      ]
    ]

created-eq :
    (id : String) (db : Database) {row : ServerRow} {after : Database}
    → created id db ≡ done row after
    → (db ≡ after) × (by_id db id ≡ some row)
unfolding created
created-eq id db h = elim (Option-cases (by_id db id)) [
  | inl e ↦ absurd (ground (arith, e))
  | inr (r, e) ↦ (ground (arith, e, h), ground (arith, e, h))
]

-- A server as it is made: its row is new, its first port was held by nobody.
pub record IsCreated (print : ℕ → String) (allocation_id id : String) (input : NewServer) (now : ℕ)
    (db : Database) (row : ServerRow) (after : Database) : Type 0 where
  pub port : ℕ
  pub free : holders any_address port db.allocations ≡ 0
  pub wanted : IsWanted input.preferred_port port
  pub low_end : 1024 ≤ port
  pub high_end : port ≤ 65535
  pub new : count_where (has_id id) db.servers ≡ 0
  pub servers : after.servers ≡ db.servers ++ new_row id input now ∷ []
  pub allocations : after.allocations ≡ db.allocations ++ primary allocation_id id port now ∷ []
  pub flag : variable after id "maxMemory" ≡ some (print input.memory_mb)
  pub found : by_id after id ≡ some row

variable_of :
    (d e : Database) (id key : String)
    → d.server_variables ≡ e.server_variables
    → variable d id key ≡ variable e id key
unfolding variable
variable_of d e id key h =
    ap (λ l. Option.map Variable.value (select_first (is_variable id key) l)) h

steps-IsCreated :
    (print : ℕ → String) (allocation_id id : String) (input : NewServer) (now port : ℕ)
    (db d1 d2 d3 d4 : Database) (row : ServerRow) (after : Database) {u1 u2 u4 : Unit {0}}
    → insert_server (new_row id input now) db ≡ done u1 d1
    → set_variable id "maxMemory" (print input.memory_mb) d1 ≡ done u2 d2
    → claim_port input.preferred_port d2 ≡ done port d3
    → insert_allocation (primary allocation_id id port now) id d3 ≡ done u4 d4
    → created id d4 ≡ done row after
    → IsCreated print allocation_id id input now db row after
steps-IsCreated print allocation_id id input now port db d1 d2 d3 d4 row after h1 h2 h3 h4 h5 =
    let (new, e1) = insert_server-eq (new_row id input now) db h1 in
    let (e2, flag) = variable-set_variable id "maxMemory" (print input.memory_mb) d1 h2 in
    let (e3, free, wanted) = claim_port-free input.preferred_port d2 h3 in
    let i = insert_allocation-IsInserted (primary allocation_id id port now) id d3 h4 in
    let (e5, found) = created-eq id d4 h5 in
    let allocations_before : d3.allocations ≡ db.allocations =
      ap Database.allocations (sym e3) ∙ ap Database.allocations e2 ∙ ap Database.allocations e1 in
    let variables_after : after.server_variables ≡ d2.server_variables =
      ap Database.server_variables (sym e5)
      ∙ ap Database.server_variables i.inserted
      ∙ ap Database.server_variables (sym e3) in
    record {
      port = port;
      free =
          subst (λ l. holders any_address port l ≡ 0)
            (ap Database.allocations e3 ∙ allocations_before) free;
      wanted = wanted;
      low_end = i.low_end;
      high_end = i.high_end;
      new = new;
      servers =
          ap Database.servers (sym e5)
          ∙ ap Database.servers i.inserted
          ∙ ap Database.servers (sym e3)
          ∙ ap Database.servers e2
          ∙ ap Database.servers e1;
      allocations =
          ap Database.allocations (sym e5)
          ∙ ap Database.allocations i.inserted
          ∙ ap (λ l. l ++ primary allocation_id id port now ∷ []) allocations_before;
      flag = variable_of after d2 id "maxMemory" variables_after ∙ flag;
      found = subst (λ d. by_id d id ≡ some row) e5 found;
    }

create_once-IsCreated :
    (print : ℕ → String) (allocation_id id : String) (input : NewServer) (now : ℕ) (db : Database)
    {row : ServerRow} {after : Database}
    → create_once print allocation_id id input now db ≡ done row after
    → IsCreated print allocation_id id input now db row after
unfolding create_once
create_once-IsCreated print allocation_id id input now db {row} {after} h =
    let s = new_row id input now in
    let flag =
      λ (_ : Unit {0}) (d : Database). set_variable id "maxMemory" (print input.memory_mb) d in
    let claim = λ (_ : Unit {0}) (d : Database). claim_port input.preferred_port d in
    let place =
      λ (port : ℕ) (d : Database). insert_allocation (primary allocation_id id port now) id d in
    let last = λ (_ : Unit {0}) (d : Database). created id d in
    let (u4, d4, made, ended) =
      change-eq-done (insert_server s db >=> flag >=> claim >=> place) last h in
    let (port, d3, claimed, placed) =
      change-eq-done (insert_server s db >=> flag >=> claim) place made in
    let (u2, d2, flagged, taken) = change-eq-done (insert_server s db >=> flag) claim claimed in
    let (u1, d1, inserted, set) = change-eq-done (insert_server s db) flag flagged in
    steps-IsCreated print allocation_id id input now port db d1 d2 d3 d4 row after inserted set
      taken placed ended

abbrev pub HasCreated :
    (ℕ → String) → (ℕ → String) → String → NewServer → ℕ → Database → ServerRow → Database → Type 0
HasCreated print new_id id input now db row after =
    (k : ℕ) × IsCreated print (new_id k) id input now db row after

attempts-IsCreated :
    (print : ℕ → String) (new_id : ℕ → String) (id : String) (input : NewServer) (now : ℕ)
    (db : Database) (left : ℕ) (last : Failure) (row : ServerRow) (after : Database)
    → attempts print new_id id input now db left last ≡ done row after
    → HasCreated print new_id id input now db row after
unfolding attempts
attempts-IsCreated print new_id id input now db zero last row after h = absurd (ground arith)
attempts-IsCreated print new_id id input now db (suc left) last row after h =
    elim (Change-cases (create_once print (new_id left) id input now db)) [
      | inl (r, d, e) ↦
          let same : done r d ≡ done row after = ground (arith, e, h) in
          (left, create_once-IsCreated print (new_id left) id input now db (e ∙ same))
      | inr (f, e) ↦ elim (Bool-cases (is_unique_violation f)) [
        | inl again ↦
            attempts-IsCreated print new_id id input now db left unique_violation row after
              (ground (arith, e, again, h))
        | inr other ↦ absurd (ground (arith, e, other, h))
      ]
    ]

-- A server that is made: its identifier was new, and it is the only new row. Its allocation is the only
-- new one, at a port from 1024 to 65535 that no allocation held at the address, the one that was asked
-- for or one of the range. Its memory flag is the print of its memory, and the answer is its row.
pub create-IsCreated :
    (print : ℕ → String) (new_id : ℕ → String) (id : String) (input : NewServer) (now : ℕ)
    (db : Database) (row : ServerRow) (after : Database)
    → create print new_id id input now db ≡ done row after
    → HasCreated print new_id id input now db row after
unfolding create
create-IsCreated print new_id id input now db row after h =
    attempts-IsCreated print new_id id input now db 5 no_free_port row after h

-- No address is held twice after a server is made, whether that succeeds or not, if none was before.
pub create-HasUniquePorts :
    (print : ℕ → String) (new_id : ℕ → String) (id : String) (input : NewServer) (now : ℕ)
    (db : Database)
    → HasUniquePorts db.allocations
    → HasUniquePorts (Database.allocations (committed db (create print new_id id input now db)))
unfolding committed
create-HasUniquePorts print new_id id input now db unique =
    elim (Change-cases (create print new_id id input now db)) [
      | inr (f, e) ↦ rw (e, committed) unique
      | inl (row, after, e) ↦
          rw (e, committed)
            (let (k, c) = create-IsCreated print new_id id input now db row after e in
              subst HasUniquePorts (sym c.allocations) (
                append-HasUniquePorts (primary (new_id k) id c.port now) db.allocations unique
                  (λ _. c.free)))
    ]
