-- ===== src/Auth/RateLimit/Retry.antt =====
-- What the answer to a refused caller promises, and what a full table forgets.
use renom.Prelude.{
  Bool-cases, List, Option-cases, String, ap, arith, eq_iff, eq_refl, false, inl, inr, leb, length,
  ltb, none, some, string_eq, true, ℕ, ◌*◌, ◌+◌, ◌-◌, ◌<◌, ◌∷◌, ◌≡◌, ◌≤◌,
}
use renom.JsMap
use renom.Auth.RateLimit.{
  WindowState, RateLimiter, Verdict, sweep, evict, open_window, count_hit, take_swept, take,
}
use renom.Auth.RateLimit.Bounds.{IsValid, take-IsValid}

take_swept_fresh :
    (l : RateLimiter) (key : String) (now : ℕ)
    → ((w : WindowState) → JsMap.get l.buckets key ≡ some w → w.reset_at ≤ now)
    → (take_swept l key now).1.limited ≡ false
unfolding take_swept open_window
take_swept_fresh l key now h = elim (Option-cases (JsMap.get l.buckets key)) [
  | inl absent ↦ rw (absent, take_swept)
  | inr (w, found) ↦ ground (arith, found, h w found)
]

sweep-get :
    (l : RateLimiter) (key : String) (now : ℕ) (w : WindowState)
    → IsValid l
    → JsMap.get (sweep l now).buckets key ≡ some w
    → JsMap.get l.buckets key ≡ some w
unfolding sweep
sweep-get l key now w v g = ground (
  arith,
  JsMap.get-eq-some_of_keep (λ (b : String × WindowState). ltb now b.1.reset_at) l.buckets key w
      v.unique,
)

-- A key is let through when its window is over, or when it has none.
pub take_fresh :
    (l : RateLimiter) (key : String) (now : ℕ)
    → IsValid l
    → ((w : WindowState) → JsMap.get l.buckets key ≡ some w → w.reset_at ≤ now)
    → (take l key now).1.limited ≡ false
unfolding take
take_fresh l key now v h =
    take_swept_fresh (sweep l now) key now (λ w g. h w (sweep-get l key now w v g))

-- A refusal leaves the key in a window that is over after the stated wait.
record Refusal (key : String) (now : ℕ) (r : RateLimiter × Verdict) : Type 0 where
  window : WindowState
  stored : JsMap.get r.0.buckets key ≡ some window
  covers : window.reset_at ≤ now + 1000 * r.1.retry_after_sec
  open_now : now < window.reset_at

count_hit-Refusal :
    (l : RateLimiter) (key : String) (now : ℕ) (w : WindowState)
    → now < w.reset_at
    → (count_hit l key now w).1.limited ≡ true
    → Refusal key now (count_hit l key now w)
unfolding count_hit
count_hit-Refusal l key now w live h =
    let w' : WindowState = record w { count = w.count + 1 } in
    record {
      window = w';
      stored = ground (arith, JsMap.get-set l.buckets key key w', eq_refl key);
      covers = ground arith;
      open_now = live;
    }

take_swept-Refusal :
    (l : RateLimiter) (key : String) (now : ℕ)
    → (take_swept l key now).1.limited ≡ true
    → Refusal key now (take_swept l key now)
unfolding take_swept
take_swept-Refusal l key now h = elim (Option-cases (JsMap.get l.buckets key)) [
  | inl absent ↦ unfold open_window in ground (arith, absent)
  | inr (w, found) ↦
      rw (found, take_swept)
        (elim (Bool-cases (leb w.reset_at now)) [
          | inl over ↦ unfold open_window in ground (arith, found, over)
          | inr live ↦
              rw live (count_hit-Refusal l key now w (ground arith) (ground (arith, found, live)))
        ])
]

-- A refused caller of a well-formed limiter is told to wait at least one second, and from the end of
-- that wait on a request for the key is let through, if nothing else is asked in between.
pub take_retry :
    (l : RateLimiter) (key : String) (now later : ℕ)
    → IsValid l
    → (take l key now).1.limited ≡ true
    → now + 1000 * (take l key now).1.retry_after_sec ≤ later
    → (1 ≤ (take l key now).1.retry_after_sec)
      × ((take (take l key now).0 key later).1.limited ≡ false)
unfolding take
take_retry l key now later v h wait =
    let r = take_swept-Refusal (sweep l now) key now h in
    (
      omega (arith, r.covers, r.open_now),
      unfold take in
          take_fresh (take_swept (sweep l now) key now).0 key later (take-IsValid l key now v)
            (λ w g. ground (arith, r.stored, r.covers)),
    )

sweep_early : (l : RateLimiter) (now : ℕ) → now - l.last_sweep < 60000 → sweep l now ≡ l
unfolding sweep
sweep_early l now h = ground arith

take_full :
    (l : RateLimiter) (fresh : String) (b : String × WindowState) (m : List (String × WindowState))
    (now : ℕ)
    → l.buckets ≡ b ∷ m
    → length l.buckets ≡ l.max_keys
    → JsMap.get l.buckets fresh ≡ none
    → now - l.last_sweep < 60000
    → (take l fresh now).0.buckets
      ≡ JsMap.set m fresh (record { count = 1; reset_at = now + l.window_ms })
unfolding take take_swept open_window evict
take_full l fresh b m now shape full absent early =
    rw (sweep_early l now early) (ground (arith, absent, shape, ap length shape))

get_gone :
    (m : List (String × WindowState)) (oldest fresh : String) (w w' : WindowState)
    → JsMap.HasUniqueKeys ((oldest, w) ∷ m)
    → JsMap.get ((oldest, w) ∷ m) fresh ≡ none
    → JsMap.get (JsMap.set m fresh w') oldest ≡ none
unfolding JsMap.get
get_gone m oldest fresh w w' (new, _) absent = ground (
  arith,
  JsMap.get-set m fresh oldest w',
  eq_iff fresh oldest,
  eq_iff oldest fresh,
  JsMap.get-eq-none_of_IsFresh m oldest new,
)

-- The table is full, `oldest` is its first key, and no sweep is due. One request for a key that the
-- table does not hold makes the limiter forget `oldest`: whatever its count was, and though its
-- window may be open, its next request is let through.
pub take_evicts :
    (l : RateLimiter) (oldest fresh : String) (w : WindowState) (m : List (String × WindowState))
    (now : ℕ)
    → IsValid l
    → l.buckets ≡ (oldest, w) ∷ m
    → length l.buckets ≡ l.max_keys
    → JsMap.get l.buckets fresh ≡ none
    → now - l.last_sweep < 60000
    → (take (take l fresh now).0 oldest now).1.limited ≡ false
take_evicts l oldest fresh w m now v shape full absent early =
    take_fresh (take l fresh now).0 oldest now (take-IsValid l fresh now v) (λ u g. cc (
      g,
      get_gone m oldest fresh w (record { count = 1; reset_at = now + l.window_ms })
          (rw shape at v.unique) (rw shape at absent),
      ap (λ b. JsMap.get b oldest) (take_full l fresh (oldest, w) m now shape full absent early),
    ))
