-- ===== src/Servers/Removal.antt =====
-- What `remove` leaves, and `primaryAllocation`.
use renom.Prelude.{
  All, Bool, List, Option, String, [], arith, false, if◌then◌else◌, leb, none, refl, some, true, ℕ,
  ◌&&◌, ◌+◌, ◌∷◌, ◌≡◌,
}
use renom.Database.{Database, Server, Allocation}
use renom.Database.Table.{select_first-eq-none, update_where, count_where}
use renom.Servers.{has_owner, release_of, release_all, remove, update_server}
use renom.Servers.Rows.{live_server, by_id, has_id, is_undeleted}
use renom.Servers.Ports.{is_held, holds, holders}

-- The earlier one of two rows, the first one if they are of one time.
abbrev earlier : Allocation → Option Allocation → Allocation
earlier a none = a
earlier a (some b) = if leb a.created_at b.created_at then a else b

-- `server_id = ? AND released = 0 ORDER BY created_at LIMIT 1`.
unfoldable pub earliest : String → List Allocation → Option Allocation
earliest id [] = none
earliest id (a ∷ rows) =
    let rest = earliest id rows in
    if has_owner id a.server_id && is_held a then some (earlier a rest) else rest

unfoldable pub primary_allocation : Database → String → Option (String × ℕ)
primary_allocation db id = elim (earliest id db.allocations) [
  | none ↦ none
  | some a ↦ some (a.ip, a.port)
]

deleted_rows :
    (id : String) (now : ℕ) (rows : List Server)
    → All
        (λ s. (has_id id s && is_undeleted s) ≡ false)
        (update_where
          (has_id id)
          (λ s. record s { status = "deleted"; deleted_at = some now; updated_at = now })
          rows)
unfolding update_where is_undeleted
deleted_rows id now [] = tt
deleted_rows id now (s ∷ rows) = (ground arith, deleted_rows id now rows)

earliest-release_all :
    (id : String) (now : ℕ) (rows : List Allocation) → earliest id (release_all id now rows) ≡ none
unfolding earliest release_all release_of
earliest-release_all id now [] = refl
earliest-release_all id now (a ∷ rows) = ground (arith, earliest-release_all id now rows)

-- The allocations by which one server holds an address.
abbrev pub is_held_by : String → String → ℕ → Allocation → Bool
is_held_by id ip port a = holds ip port a && has_owner id a.server_id

-- Of the allocations at an address, those of the server are released and no others.
holders-release_all_add :
    (ip : String) (port : ℕ) (id : String) (now : ℕ) (rows : List Allocation)
    → holders ip port (release_all id now rows) + count_where (is_held_by id ip port) rows
      ≡ holders ip port rows
unfolding holders count_where release_all release_of
holders-release_all_add ip port id now [] = refl
holders-release_all_add ip port id now (a ∷ rows) =
    ground (arith, holders-release_all_add ip port id now rows)

holders-release_all :
    (ip : String) (port : ℕ) (id : String) (now : ℕ) (rows : List Allocation)
    → All (λ a. holds ip port a ≡ true → has_owner id a.server_id ≡ true) rows
    → holders ip port (release_all id now rows) ≡ 0
unfolding holders count_where release_all release_of
holders-release_all ip port id now [] h = refl
holders-release_all ip port id now (a ∷ rows) (o, h) =
    ground (arith, o, holders-release_all ip port id now rows h)

-- A removed server is found no more and has no primary allocation, and at each address exactly the
-- allocations by which the server held it are held no more.
pub remove_gone :
    (id ip : String) (port now : ℕ) (db : Database)
    → (by_id (remove id now db) id ≡ none)
      × (primary_allocation (remove id now db) id ≡ none)
      × (holders ip port (Database.allocations (remove id now db))
            + count_where (is_held_by id ip port) db.allocations
          ≡ holders ip port db.allocations)
unfolding by_id live_server remove update_server primary_allocation
remove_gone id ip port now db =
    let gone =
      select_first-eq-none (λ s. has_id id s && is_undeleted s)
        (update_where (has_id id)
          (λ s. record s { status = "deleted"; deleted_at = some now; updated_at = now })
          db.servers)
        (deleted_rows id now db.servers) in
    (
      rw (gone, by_id, live_server) refl,
      rw (earliest-release_all id now db.allocations, primary_allocation) refl,
      holders-release_all_add ip port id now db.allocations,
    )

-- An address that only the removed server held can be claimed again.
pub remove_frees :
    (id ip : String) (port now : ℕ) (db : Database)
    → All (λ a. holds ip port a ≡ true → has_owner id a.server_id ≡ true) db.allocations
    → holders ip port (Database.allocations (remove id now db)) ≡ 0
unfolding remove update_server
remove_frees id ip port now db h = holders-release_all ip port id now db.allocations h
