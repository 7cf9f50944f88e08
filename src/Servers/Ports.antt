-- ===== src/Servers/Ports.antt =====
-- `claimFreePort`, `claimSpecificPort` and the table of allocations with its partial unique index.
use renom.Prelude.{
  Bool, Bool-cases, List, Option, Option-cases, String, [], ap, arith, eq_iff, false, if◌then◌else◌,
  inl, inr, leb, ltb, none, not, refl, some, str_eq, subst, suc, true, zero, ℕ, ◌&&◌, ◌++◌, ◌+◌,
  ◌-◌, ◌<◌, ◌==◌, ◌||◌, ◌↔◌, ◌∙◌, ◌∷◌, ◌≡◌, ◌≤◌,
}
use renom.Database.{Database, Allocation}
use renom.Database.Table.{count_where, count_where-append}
use renom.Database.Change.{
  Change, done, failed, demand, ◌>=>◌, check_violation, foreign_key_violation, unique_violation,
  port_taken, no_free_port,
}
use renom.Servers.{has_server}

-- `released = 0`.
abbrev pub is_held : Allocation → Bool
is_held a = a.released == 0

abbrev pub holds : String → ℕ → Allocation → Bool
holds ip port a = is_held a && str_eq a.ip ip && a.port == port

-- How many allocations hold an address.
unfoldable pub holders : String → ℕ → List Allocation → ℕ
unfolding count_where
holders ip port rows = count_where (holds ip port) rows

-- The first port of `fuel` many that is not held at this address.
unfoldable pub first_free : String → List Allocation → ℕ → ℕ → Option ℕ
unfolding holders
first_free ip rows zero port = none
first_free ip rows (suc fuel) port =
    let rest = first_free ip rows fuel (port + 1) in
    if holders ip port rows == 0 then some port else rest

unfoldable pub claim_free_port : String → ℕ → ℕ → Database → Change ℕ
claim_free_port ip low high db = elim (first_free ip db.allocations (high + 1 - low) low) [
  | none ↦ failed no_free_port
  | some port ↦ done port db
]

-- `WHERE port = ? AND released = 0`, at any address.
abbrev pub holds_port : ℕ → Allocation → Bool
holds_port port a = is_held a && a.port == port

unfoldable pub claim_specific_port : ℕ → Database → Change ℕ
unfolding count_where
claim_specific_port port db =
    if ltb 0 (count_where (holds_port port) db.allocations)
    then failed (port_taken port)
    else done port db

-- `INSERT INTO allocations`: the checks in the order of SQLite.
unfoldable pub insert_allocation : Allocation → String → Database → Change (Unit {0})
unfolding count_where holders
insert_allocation a server db =
    demand (leb 1024 a.port && leb a.port 65535) check_violation db
    >=> (λ _ d. demand (count_where (λ x. str_eq x.id a.id) d.allocations == 0) unique_violation d)
    >=> (λ _ d.
        demand (not (is_held a) || holders a.ip a.port d.allocations == 0) unique_violation d)
    >=> (λ _ d. demand (has_server d server) foreign_key_violation d)
    >=> (λ _ d. done tt (record d { allocations = d.allocations ++ a ∷ [] }))

-- No address is held twice.
abbrev pub HasUniquePorts : List Allocation → Type 0
HasUniquePorts rows = (ip : String) (port : ℕ) → holders ip port rows ≤ 1

positive_at :
    (ip : String) (rows : List Allocation) (low q : ℕ)
    → (holders ip low rows == 0) ≡ false
    → (q == low) ≡ true
    → 0 < holders ip q rows
positive_at ip rows low q e same =
    let at : low ≡ q = ground arith in subst (λ x. 0 < holders ip x rows) at (ground (arith, e))

first_free-some :
    (ip : String) (rows : List Allocation) (fuel low port : ℕ)
    → first_free ip rows fuel low ≡ some port
    → (low ≤ port)
      × (port < low + fuel)
      × (holders ip port rows ≡ 0)
      × ((q : ℕ) → low ≤ q → q < port → 0 < holders ip q rows)
unfolding first_free
first_free-some ip rows zero low port h = cc
first_free-some ip rows (suc fuel) low port h = elim (Bool-cases (holders ip low rows == 0)) [
  | inl e ↦
      let same : low ≡ port = ground (arith, e) in
      (omega arith, omega arith, ground (arith, e), λ q l u. omega arith)
  | inr e ↦
      let (l, u, free, first) = first_free-some ip rows fuel (low + 1) port (ground (arith, e)) in
      (
        omega arith,
        omega arith,
        free,
        λ q a b. elim (Bool-cases (q == low)) [
          | inl same ↦ positive_at ip rows low q e same
          | inr other ↦ first q (ground arith) b
        ],
      )
]

first_free-none :
    (ip : String) (rows : List Allocation) (fuel low q : ℕ)
    → first_free ip rows fuel low ≡ none
    → low ≤ q
    → q < low + fuel
    → 0 < holders ip q rows
unfolding first_free
first_free-none ip rows zero low q h l u = omega arith
first_free-none ip rows (suc fuel) low q h l u = elim (Bool-cases (holders ip low rows == 0)) [
  | inl e ↦ absurd (ground (arith, e))
  | inr e ↦ elim (Bool-cases (q == low)) [
    | inl same ↦ positive_at ip rows low q e same
    | inr other ↦
        first_free-none ip rows fuel (low + 1) q (ground (arith, e)) (ground arith) (omega arith)
  ]
]

-- The free port that a server is given is the first one of the range that no allocation holds at the
-- address.
pub claim_free_port-IsFirst :
    (ip : String) (low high port : ℕ) (db after : Database)
    → claim_free_port ip low high db ≡ done port after
    → (db ≡ after)
      × (low ≤ port)
      × (port ≤ high)
      × (holders ip port db.allocations ≡ 0)
      × ((q : ℕ) → low ≤ q → q < port → 0 < holders ip q db.allocations)
unfolding claim_free_port
claim_free_port-IsFirst ip low high port db after h =
    elim (Option-cases (first_free ip db.allocations (high + 1 - low) low)) [
      | inl e ↦ absurd (ground (arith, e))
      | inr (p, e) ↦
          let same : p ≡ port = ground (arith, e, h) in
          let (l, u, free, first) =
            first_free-some ip db.allocations (high + 1 - low) low port (e ∙ ap some same) in
          (ground (arith, e, h), l, omega arith, free, first)
    ]

-- A port is refused exactly if each port of the range is held at the address.
pub claim_free_port-eq-failed_iff :
    (ip : String) (low high : ℕ) (db : Database)
    → (claim_free_port ip low high db ≡ failed no_free_port)
      ↔ ((q : ℕ) → low ≤ q → q ≤ high → 0 < holders ip q db.allocations)
unfolding claim_free_port
claim_free_port-eq-failed_iff ip low high db =
    elim (Option-cases (first_free ip db.allocations (high + 1 - low) low)) [
      | inl e ↦ (
        λ _ q l u. first_free-none ip db.allocations (high + 1 - low) low q e l (omega arith),
        λ _. rw (e, claim_free_port) refl,
      )
      | inr (p, e) ↦
          let (l, u, free, _) = first_free-some ip db.allocations (high + 1 - low) low p e in
          (
            λ h. absurd (ground (arith, e, h)),
            λ all. let held = all p l (omega arith) in absurd (omega (arith, free, held)),
          )
    ]

holders_le :
    (ip : String) (port : ℕ) (rows : List Allocation)
    → holders ip port rows ≤ count_where (holds_port port) rows
unfolding holders count_where
holders_le ip port [] = omega arith
holders_le ip port (a ∷ rows) = ground (arith, holders_le ip port rows)

-- A port that was asked for is given only if no allocation holds it at any address.
pub claim_specific_port-free :
    (ip : String) (port : ℕ) (db : Database) {p : ℕ} {after : Database}
    → claim_specific_port port db ≡ done p after
    → (p ≡ port) × (db ≡ after) × (holders ip port db.allocations ≡ 0)
unfolding claim_specific_port
claim_specific_port-free ip port db h =
    elim (Bool-cases (ltb 0 (count_where (holds_port port) db.allocations))) [
      | inl e ↦ absurd (ground (arith, e))
      | inr e ↦
          let le = holders_le ip port db.allocations in
          (ground (arith, e, h), ground (arith, e, h), ground (arith, e, le))
    ]

-- What an insertion that returns has passed and done.
pub record IsInserted (a : Allocation) (server : String) (db after : Database) : Type 0 where
  pub low_end : 1024 ≤ a.port
  pub high_end : a.port ≤ 65535
  pub free : (is_held a ≡ true) → holders a.ip a.port db.allocations ≡ 0
  pub known : has_server db server ≡ true
  pub inserted : after ≡ record db { allocations = db.allocations ++ a ∷ [] }

pub insert_allocation-IsInserted :
    (a : Allocation) (server : String) (db : Database) {u : Unit {0}} {after : Database}
    → insert_allocation a server db ≡ done u after
    → IsInserted a server db after
unfolding insert_allocation
insert_allocation-IsInserted a server db h =
    let in_range = leb 1024 a.port && leb a.port 65535 in
    let new_id = count_where (λ (x : Allocation). str_eq x.id a.id) db.allocations == 0 in
    let free = not (is_held a) || holders a.ip a.port db.allocations == 0 in
    elim (Bool-cases in_range) [
      | inr e ↦ absurd (ground (arith, e))
      | inl range ↦ elim (Bool-cases new_id) [
        | inr e ↦ absurd (ground (arith, e, range))
        | inl fresh ↦ elim (Bool-cases free) [
          | inr e ↦ absurd (ground (arith, e, range, fresh))
          | inl vacant ↦ elim (Bool-cases (has_server db server)) [
            | inr e ↦ absurd (ground (arith, e, range, fresh, vacant))
            | inl present ↦ record {
              low_end = ground (arith, range);
              high_end = ground (arith, range);
              free = λ held. ground (arith, vacant, held);
              known = present;
              inserted = ground (arith, h, range, fresh, vacant, present);
            }
          ]
        ]
      ]
    ]

-- An allocation at an address that nobody holds leaves no address held twice, if none was.
pub append-HasUniquePorts :
    (a : Allocation) (rows : List Allocation)
    → HasUniquePorts rows
    → ((is_held a ≡ true) → holders a.ip a.port rows ≡ 0)
    → HasUniquePorts (rows ++ a ∷ [])
unfolding holders
append-HasUniquePorts a rows unique free ip port =
    let counted = count_where-append (holds ip port) rows a in
    elim (Bool-cases (holds ip port a)) [
      | inl e ↦
          let same_ip : a.ip ≡ ip = (eq_iff a.ip ip).0 (ground (arith, e)) in
          let same_port : a.port ≡ port = ground (arith, e) in
          let vacant = free (ground (arith, e)) in
          let empty : holders ip port rows ≡ 0 =
            subst (λ x. holders x port rows ≡ 0) same_ip
              (subst (λ x. holders a.ip x rows ≡ 0) same_port vacant) in
          ground (arith, e, counted, empty)
      | inr e ↦ ground (arith, e, counted, unique ip port)
    ]
