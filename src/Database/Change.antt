-- ===== src/Database/Change.antt =====
-- Statements that change the database and may fail, and the transactions of infra/db/database.ts.
use renom.Prelude.{Bool, arith, false, if◌then◌else◌, inl, inr, refl, true, ℕ, ◌≡◌, ◌⊎◌}
use renom.Database.{Database}

-- Why a statement, or the code around it, throws.
pub data Failure : Type 0 where
  unique_violation check_violation foreign_key_violation : Failure
  port_taken : ℕ → Failure
  no_free_port not_created user_not_found still_owned : Failure

-- A value and the database after, or what was thrown.
pub data Change {ℓ} (T : Type ℓ) : Type ℓ where
  failed : Failure → Change T
  done : T → Database → Change T

infixl 5 ◌>=>◌
abbrev pub ◌>=>◌ {ℓ κ} : {T : Type ℓ} {U : Type κ} → Change T → (T → Database → Change U) → Change U
failed f >=> next = failed f
done v db >=> next = next v db

-- `if (!test) throw f`, at a database.
abbrev pub demand : Bool → Failure → Database → Change (Unit {0})
demand test f db = if test then done tt db else failed f

-- The database that a transaction leaves: it is rolled back on a throw.
unfoldable pub committed {ℓ} : {T : Type ℓ} → Database → Change T → Database
committed db (failed f) = db
committed db (done v after) = after

-- What a sequence that returns has gone through.
pub change-eq-done {ℓ κ} :
    {T : Type ℓ} {U : Type κ} (first : Change T) (next : T → Database → Change U) {u : U}
    {after : Database}
    → (first >=> next) ≡ done u after
    → (v : T) × (db : Database) × (first ≡ done v db) × (next v db ≡ done u after)
change-eq-done (failed f) next e = cc
change-eq-done (done v db) next e = (v, db, refl, e)

-- A demand that was met.
pub demand-eq-done :
    (test : Bool) (f : Failure) (db : Database) {u : Unit {0}} {after : Database}
    → demand test f db ≡ done u after
    → (test ≡ true) × (db ≡ after)
demand-eq-done true f db e = (refl, cc)
demand-eq-done false f db e = absurd (ground arith)

pub Change-cases {ℓ} :
    {T : Type ℓ} (c : Change T)
    → ((v : T) × (d : Database) × (c ≡ done v d)) ⊎ ((f : Failure) × (c ≡ failed f))
Change-cases (done v d) = inl (v, d, refl)
Change-cases (failed f) = inr (f, refl)

-- A message that says "UNIQUE constraint failed".
abbrev pub is_unique_violation : Failure → Bool
is_unique_violation unique_violation = true
is_unique_violation f = false
