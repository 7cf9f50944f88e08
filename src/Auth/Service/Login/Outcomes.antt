-- ===== src/Auth/Service/Login/Outcomes.antt =====
-- Who is let in, and what the others are told.
use renom.Prelude.{
  Bool-cases, Option, String, ap, arith, false, inl, inr, none, not, refl, some, sym, true, ℕ, ◌&&◌,
  ◌==◌, ◌∙◌, ◌≡◌, ◌≢◌, ◌⊎◌,
}
use renom.Errors.{AppError, Result, ok, err, rate_limit, unauthorized}
use renom.Database.{User}
use renom.Users.{by_username, touch_last_login, verify_password}
use renom.Auth.RateLimit.{take}
use renom.Auth.Service.Login.{
  limit_key, id_of, AuthResult, LoginHost, LoginState, answer, claims_for, granted, login,
  login_fail, login_success, passes, record_login, to_public_user,
}

-- The login of `u`, on a state that the wait left.
abbrev pub LetIn : LoginHost → ℕ → User → String → LoginState → AuthResult → LoginState → Type 0
LetIn host later u password slept r st =
    (u.suspended ≡ 0)
    × (verify_password host.compare u password ≡ true)
    × (r ≡ record { token = host.sign (claims_for u); user = to_public_user u })
    × (st
        ≡ record_login (login_success u.id)
            (record slept { db = touch_last_login u.id later slept.db }))

answer-eq-ok :
    (host : LoginHost) (later : ℕ) (o : Option User) (password : String) (st st' : LoginState)
    (r : AuthResult)
    → answer host later o password st ≡ (ok r, st')
    → (u : User) × (o ≡ some u) × LetIn host later u password st r st'
unfolding answer passes granted
answer-eq-ok host later none password st st' r h = absurd (ground (arith, h))
answer-eq-ok host later (some u) password st st' r h =
    elim (Bool-cases (verify_password host.compare u password)) [
      | inr w ↦ absurd (ground (arith, w, h))
      | inl w ↦ elim (Bool-cases (u.suspended == 0)) [
        | inr s ↦ absurd (ground (arith, w, s, h))
        | inl s ↦
            let active : u.suspended ≡ 0 = ground (arith, s) in
            (u, refl, (active, w, ground (arith, w, active, h), ground (arith, w, active, h)))
      ]
    ]

-- What a login leaves that is refused: the wait has passed, and the audit log says whose name it was.
abbrev pub Refused : Option User → LoginState → AppError → LoginState → Type 0
Refused o slept e st = (e ≡ unauthorized) × (st ≡ record_login (login_fail (id_of o)) slept)

thrown_by : Result AuthResult → AppError
thrown_by (err e) = e
thrown_by (ok r) = unauthorized

refused :
    (o : Option User) (slept : LoginState) {st : LoginState} {e : AppError}
    → ◌≡◌ {A = Result AuthResult × LoginState}
        (err unauthorized, record_login (login_fail (id_of o)) slept)
        (err e, st)
    → Refused o slept e st
unfolding thrown_by
refused o slept h = (
  ap (λ (p : Result AuthResult × LoginState). thrown_by p.0) (sym h),
  ap (λ (p : Result AuthResult × LoginState). p.1) (sym h),
)

answer_refused :
    (host : LoginHost) (later : ℕ) (u : User) (password : String) (st : LoginState)
    → (passes host (some u) password && not (u.suspended == 1)) ≡ false
    → answer host later (some u) password st
      ≡ (err unauthorized, record_login (login_fail (some u.id)) st)
unfolding answer passes
answer_refused host later u password st h = rw h refl

answer-granted :
    (host : LoginHost) (later : ℕ) (u : User) (password : String) (st : LoginState)
    → (passes host (some u) password && not (u.suspended == 1)) ≡ true
    → answer host later (some u) password st ≡ granted host later u st
unfolding answer passes
answer-granted host later u password st h = rw h refl

-- Why a login within the limit is refused.
abbrev pub IsTurnedAway : LoginHost → Option User → String → Type 0
IsTurnedAway host o password =
    (o ≡ none)
    ⊎ (u : User) × (o ≡ some u)
      × ((u.suspended ≢ 0) ⊎ (verify_password host.compare u password ≡ false))

passes-eq-false :
    (host : LoginHost) (u : User) (password : String)
    → (passes host (some u) password && not (u.suspended == 1)) ≡ false
    → (u.suspended ≢ 0) ⊎ (verify_password host.compare u password ≡ false)
unfolding passes
passes-eq-false host u password h = elim (Bool-cases (verify_password host.compare u password)) [
  | inr w ↦ inr w
  | inl w ↦ inl (λ z. ground (arith, w, h, z))
]

answer-eq-err :
    (host : LoginHost) (later : ℕ) (o : Option User) (password : String) (st st' : LoginState)
    (e : AppError)
    → answer host later o password st ≡ (err e, st')
    → IsTurnedAway host o password × Refused o st e st'
unfolding answer granted
answer-eq-err host later none password st st' e h = (inl refl, refused none st h)
answer-eq-err host later (some u) password st st' e h =
    elim (Bool-cases (passes host (some u) password && not (u.suspended == 1))) [
      | inl p ↦ absurd (ground (arith, sym (answer-granted host later u password st p) ∙ h))
      | inr p ↦ (
        inr (u, refl, passes-eq-false host u password p),
        refused (some u) st (sym (answer_refused host later u password st p) ∙ h),
      )
    ]

-- The state that the wait of a login leaves: the limiter has counted the attempt before.
abbrev pub waited : LoginHost → ℕ → String → String → LoginState → LoginState
waited host now ip username st =
    host.sleep (record st { limiter = (take st.limiter (limit_key host ip username) now).0 })

module _ (host : LoginHost) (now later : ℕ) (ip username password : String)
    (st st' : LoginState) where
  -- A login that returns was within the limit, for the user of the name, who is not suspended and
  -- whose password it is: the token is for that user, and the log and the row say so.
  pub login-eq-ok :
      (r : AuthResult)
      → login host now later ip username password st ≡ (ok r, st')
      → ((take st.limiter (limit_key host ip username) now).1.limited ≡ false)
        × (u : User) × (by_username st.db username ≡ some u)
        × LetIn host later u password (waited host now ip username st) r st'
  unfolding login
  login-eq-ok r h = elim (Bool-cases (take st.limiter (limit_key host ip username) now).1.limited) [
    | inl l ↦ absurd (ground (arith, l, h))
    | inr l ↦
        let (u, found, inside) =
          answer-eq-ok host later (by_username st.db username) password
            (waited host now ip username st) st' r (ground (arith, l, h)) in
        (l, u, found, inside)
  ]

  -- A login that throws was over the limit, and then it changed nothing but the limiter; or it was
  -- within the limit, and there is no such user, the user is suspended or the password is wrong: each
  -- of these is refused with the same 401, and the wait and one entry of the log are all it leaves.
  pub login-eq-err :
      (e : AppError)
      → login host now later ip username password st ≡ (err e, st')
      → (((take st.limiter (limit_key host ip username) now).1.limited ≡ true)
          × (e ≡ rate_limit (take st.limiter (limit_key host ip username) now).1.retry_after_sec)
          × (st' ≡ record st { limiter = (take st.limiter (limit_key host ip username) now).0 }))
        ⊎ (((take st.limiter (limit_key host ip username) now).1.limited ≡ false)
            × IsTurnedAway host (by_username st.db username) password
            × Refused (by_username st.db username) (waited host now ip username st) e st')
  unfolding login
  login-eq-err e h =
      elim (Bool-cases (take st.limiter (limit_key host ip username) now).1.limited) [
        | inl l ↦ inl (l, ground (arith, l, h), ground (arith, l, h))
        | inr l ↦
            let (why, left) =
              answer-eq-err host later (by_username st.db username) password
                (waited host now ip username st) st' e (ground (arith, l, h)) in
            inr (l, why, left)
      ]
