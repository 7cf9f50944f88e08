-- ===== src/Auth/RateLimit.antt =====
-- `RateLimiter` of apps/panel/src/server/modules/auth/ratelimit.ts. Times are milliseconds since
-- the epoch; `buckets` is the JavaScript `Map`, in the order of insertion.
pub mod Bounds
pub mod Budget
pub mod Retry
use renom.Prelude.{
  Bool, List, String, [], false, if◌then◌else◌, keep, leb, length, ltb, max, none, some, string_eq,
  true, ℕ, ◌+◌, ◌-◌, ◌/◌, ◌∷◌,
}
use renom.JsMap

pub record WindowState : Type 0 where
  pub count : ℕ
  pub reset_at : ℕ

pub record RateLimiter : Type 0 where
  pub max : ℕ
  pub window_ms : ℕ
  pub max_keys : ℕ
  pub last_sweep : ℕ
  pub buckets : List (String × WindowState)

pub record Verdict : Type 0 where
  pub limited : Bool
  pub retry_after_sec : ℕ

-- `new RateLimiter(max, windowMs, maxKeys)` at time `now`.
unfoldable pub new : ℕ → ℕ → ℕ → ℕ → RateLimiter
new max window_ms max_keys now = record {
  max = max;
  window_ms = window_ms;
  max_keys = max_keys;
  last_sweep = now;
  buckets = [];
}

-- `now - this.lastSweep < 60_000`; a clock that went back gives a negative difference in the
-- source and 0 here, and both are below the bound.
unfoldable pub sweep : RateLimiter → ℕ → RateLimiter
sweep l now =
    if ltb (now - l.last_sweep) 60000
    then l
    else record l { last_sweep = now; buckets = keep (λ b. ltb now b.1.reset_at) l.buckets }

-- The eviction of the oldest key when the table is full.
unfoldable pub evict : ℕ → List (String × WindowState) → List (String × WindowState)
evict max_keys [] = []
evict max_keys ((k, w) ∷ m) = if leb max_keys (length ((k, w) ∷ m)) then m else (k, w) ∷ m

-- `!existing || now >= existing.resetAt`: the key starts a new window.
unfoldable pub open_window : RateLimiter → String → ℕ → RateLimiter × Verdict
unfolding evict
open_window l key now = (
  record l {
    buckets =
        JsMap.set (evict l.max_keys l.buckets) key
          (record { count = 1; reset_at = now + l.window_ms });
  },
  record { limited = false; retry_after_sec = 0 },
)

-- `existing.count += 1`, and the test against the maximum; `Math.ceil(n / 1000)` at `n > 0`.
unfoldable pub count_hit : RateLimiter → String → ℕ → WindowState → RateLimiter × Verdict
count_hit l key now w = (
  record l { buckets = JsMap.set l.buckets key (record w { count = w.count + 1 }) },
  if ltb l.max (w.count + 1)
      then record { limited = true; retry_after_sec = max 1 ((w.reset_at - now + 999) / 1000) }
      else record { limited = false; retry_after_sec = 0 },
)

unfoldable pub take_swept : RateLimiter → String → ℕ → RateLimiter × Verdict
unfolding open_window count_hit
take_swept l key now = elim (JsMap.get l.buckets key) [
  | none ↦ open_window l key now
  | some w ↦ if leb w.reset_at now then open_window l key now else count_hit l key now w
]

unfoldable pub take : RateLimiter → String → ℕ → RateLimiter × Verdict
unfolding sweep take_swept
take l key now = take_swept (sweep l now) key now
