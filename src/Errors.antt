-- ===== src/Errors.antt =====
-- The error classes of apps/panel/src/server/shared/errors.ts, and results that may be such an error.
-- Messages are text for people and are left out.
use renom.Prelude.{Bool, if◌then◌else◌, inl, inr, refl, ℕ, ◌≡◌, ◌⊎◌}

pub data AppError : Type 0 where
  bad_request validation unauthorized forbidden not_found conflict payload_too_large : AppError
  rate_limit : ℕ → AppError
  engine_error : AppError
  -- an `Error` that is no `AppError`
  internal : AppError

unfoldable pub status : AppError → ℕ
status bad_request = 400
status validation = 400
status unauthorized = 401
status forbidden = 403
status not_found = 404
status conflict = 409
status payload_too_large = 413
status (rate_limit n) = 429
status engine_error = 409
status internal = 500

-- A call that returns, or throws an error that the HTTP layer answers with.
pub data Result {ℓ} (T : Type ℓ) : Type ℓ where
  err : AppError → Result T
  ok : T → Result T

infixl 5 ◌>>◌ ◌>>=◌
abbrev pub ◌>>=◌ {ℓ κ} : {T : Type ℓ} {U : Type κ} → Result T → (T → Result U) → Result U
err thrown >>= next = err thrown
ok value >>= next = next value

-- `if (!test) throw e`.
abbrev pub guard : Bool → AppError → Result (Unit {0})
guard test thrown = if test then ok tt else err thrown

abbrev pub ◌>>◌ {ℓ} : {U : Type ℓ} → Result (Unit {0}) → Result U → Result U
check >> next = check >>= (λ passed. next)

-- What a sequence of two calls that returns has gone through.
pub bind-eq-ok {ℓ κ} :
    {T : Type ℓ} {U : Type κ} (first : Result T) (next : T → Result U) {result : U}
    → (first >>= next) ≡ ok result
    → (value : T) × (first ≡ ok value) × (next value ≡ ok result)
bind-eq-ok (err thrown) next e = cc
bind-eq-ok (ok value) next e = (value, refl, e)

pub Result-cases {ℓ} :
    {T : Type ℓ} (r : Result T)
    → ((thrown : AppError) × (r ≡ err thrown)) ⊎ ((value : T) × (r ≡ ok value))
Result-cases (err thrown) = inl (thrown, refl)
Result-cases (ok value) = inr (value, refl)
