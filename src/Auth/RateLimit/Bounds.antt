-- ===== src/Auth/RateLimit/Bounds.antt =====
-- The limiter's table stays well formed and bounded, and what a refused caller is told.
use renom.Prelude.{
  List, Option-cases, String, [], arith, inl, inr, length, length-keep, ltb, some, string_eq, ℕ,
  ◌+◌, ◌<◌, ◌∷◌, ◌≡◌, ◌≤◌,
}
use renom.JsMap
use renom.Auth.RateLimit.{
  WindowState, RateLimiter, sweep, evict, open_window, count_hit, take_swept, take,
}

-- No key twice, and no more keys than allowed.
pub record IsValid (l : RateLimiter) : Type 0 where
  pub unique : JsMap.HasUniqueKeys l.buckets
  pub fits : length l.buckets ≤ l.max_keys
  pub room : 0 < l.max_keys

sweep-IsValid : (l : RateLimiter) (now : ℕ) → IsValid l → IsValid (sweep l now)
unfolding sweep
sweep-IsValid l now v = ground (
  arith,
  JsMap.HasUniqueKeys-keep (λ (b : String × WindowState). ltb now b.1.reset_at) l.buckets v.unique,
  length-keep (λ (b : String × WindowState). ltb now b.1.reset_at) l.buckets,
)

evict_unique :
    (n : ℕ) (m : List (String × WindowState))
    → JsMap.HasUniqueKeys m
    → JsMap.HasUniqueKeys (evict n m)
unfolding evict
evict_unique n [] h = tt
evict_unique n (b ∷ m) h = ground arith

length-evict :
    (n : ℕ) (m : List (String × WindowState)) → 0 < n → length m ≤ n → length (evict n m) + 1 ≤ n
unfolding evict
length-evict n [] p h = omega arith
length-evict n (b ∷ m) p h = ground arith

open_window-IsValid :
    (l : RateLimiter) (key : String) (now : ℕ) → IsValid l → IsValid (open_window l key now).0
unfolding open_window
open_window-IsValid l key now v =
    let w : WindowState = record { count = 1; reset_at = now + l.window_ms } in
    record {
      unique =
          JsMap.HasUniqueKeys-set (evict l.max_keys l.buckets) key w
            (evict_unique l.max_keys l.buckets v.unique);
      fits = omega (
        arith,
        JsMap.length-set_le (evict l.max_keys l.buckets) key w,
        length-evict l.max_keys l.buckets v.room v.fits,
      );
      room = v.room;
    }

count_hit-IsValid :
    (l : RateLimiter) (key : String) (now : ℕ) (w : WindowState)
    → JsMap.get l.buckets key ≡ some w
    → IsValid l
    → IsValid (count_hit l key now w).0
unfolding count_hit
count_hit-IsValid l key now w g v =
    let w' : WindowState = record w { count = w.count + 1 } in
    record {
      unique = JsMap.HasUniqueKeys-set l.buckets key w' v.unique;
      fits = omega (arith, JsMap.length-set_old l.buckets key w' w g);
      room = v.room;
    }

take_swept-IsValid :
    (l : RateLimiter) (key : String) (now : ℕ) → IsValid l → IsValid (take_swept l key now).0
unfolding take_swept
take_swept-IsValid l key now v = elim (Option-cases (JsMap.get l.buckets key)) [
  | inl absent ↦ rw (absent, take_swept) (open_window-IsValid l key now v)
  | inr (w, found) ↦
      rw (found, take_swept)
        (ground (arith, open_window-IsValid l key now v, count_hit-IsValid l key now w found v))
]

-- From a well-formed limiter (each key once, at most `maxKeys` keys, `maxKeys` positive) `take`
-- leads to a well-formed limiter, whatever the key and the time.
pub take-IsValid :
    (l : RateLimiter) (key : String) (now : ℕ) → IsValid l → IsValid (take l key now).0
unfolding take
take-IsValid l key now v = take_swept-IsValid (sweep l now) key now (sweep-IsValid l now v)
