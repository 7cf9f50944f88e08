-- ===== src/Tests/RateLimit.antt =====
-- Tests of the rate limiter.
use renom.Prelude.{
  List, String, [], arith, eq_iff, false, min, refl, string_eq, true, ℕ, ◌-◌, ◌∷◌, ◌≡◌, ◌≢◌, ◌≤◌,
}
use renom.JsMap
use renom.Auth.RateLimit.{RateLimiter, new, take}
use renom.Auth.RateLimit.Bounds.{IsValid, take-IsValid}
use renom.Auth.RateLimit.Budget.{hits, passed, passed-eq}
use renom.Auth.RateLimit.Retry.{take_retry}

runs : Unit {0}
unfolding take JsMap.get JsMap.set new
runs = tt

-- Two keys, the first with all its units used.
abbrev full : RateLimiter
full = record {
  max = 2;
  window_ms = 60000;
  max_keys = 2;
  last_sweep = 1000;
  buckets =
      ("a", record { count = 2; reset_at = 61000 })
      ∷ ("b", record { count = 1; reset_at = 61500 })
      ∷ [];
}

full-IsValid : IsValid full
full-IsValid = record {
  unique = ((λ e. absurd (ne e), tt), (tt, tt));
  fits = omega arith;
  room = omega arith;
}
  where
    ne : ◌≢◌ {A = String} "b" "a"
    ne e = cc ((eq_iff "b" "a").1 e)

take-IsValid_example : IsValid (take full "c" 2000).0
take-IsValid_example = take-IsValid full "c" 2000 full-IsValid

-- The third request in a window is refused, with the rest of the window as the wait.
refused : ((take full "a" 2000).1.limited ≡ true) × ((take full "a" 2000).1.retry_after_sec ≡ 59)
unfolding runs
refused = (refl, refl)

take_retry_example :
    (1 ≤ (take full "a" 2000).1.retry_after_sec)
    × ((take (take full "a" 2000).0 "a" 61000).1.limited ≡ false)
take_retry_example =
    take_retry full "a" 2000 61000 full-IsValid refused.0 (ground (arith, refused.1))

abbrev roomy : RateLimiter
roomy = record {
  max = 3;
  window_ms = 60000;
  max_keys = 9;
  last_sweep = 1000;
  buckets = ("a", record { count = 1; reset_at = 61000 }) ∷ [];
}

abbrev requests : List (String × ℕ)
requests = ("a", 2000) ∷ ("b", 2000) ∷ ("a", 2500) ∷ ("a", 3000) ∷ []

passed-eq_example : passed "a" roomy requests ≡ min (hits "a" requests) (3 - 1)
unfolding JsMap.get
passed-eq_example = passed-eq requests roomy "a" 1 61000 refl (omega arith) (omega arith)

two_of_three : passed "a" roomy requests ≡ 2
unfolding runs passed
two_of_three = refl
