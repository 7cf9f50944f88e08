-- ===== src/Auth/RateLimit/Budget.antt =====
-- How often a key is let through in one window, and what a refusal promises.
use renom.Prelude.{
  All, Bool-cases, List, Option-cases, String, [], ap, arith, eq_iff, false, if◌then◌else◌, inl,
  inr, leb, length, length-keep, ltb, min, not, refl, some, str_eq, string_eq, true, ℕ, ◌&&◌, ◌+◌,
  ◌-◌, ◌<◌, ◌∙◌, ◌∷◌, ◌≡◌, ◌≤◌,
}
use renom.JsMap
use renom.Auth.RateLimit.{
  WindowState, RateLimiter, Verdict, sweep, evict, open_window, count_hit, take_swept, take,
}

-- `key` has `count` units used in a window that ends at `reset`.
abbrev pub Used : RateLimiter → String → ℕ → ℕ → Type 0
Used l key count reset = JsMap.get l.buckets key ≡ some (record { count = count; reset_at = reset })

sweep-Used :
    (l : RateLimiter) (key : String) (count reset now : ℕ)
    → now < reset
    → Used l key count reset
    → Used (sweep l now) key count reset
unfolding sweep
sweep-Used l key count reset now h u = ground (
  arith,
  JsMap.get-keep (λ (b : String × WindowState). ltb now b.1.reset_at) l.buckets key
      (record { count = count; reset_at = reset }) u,
)

length-sweep : (l : RateLimiter) (now : ℕ) → length (sweep l now).buckets ≤ length l.buckets
unfolding sweep
length-sweep l now =
    ground (arith, length-keep (λ (b : String × WindowState). ltb now b.1.reset_at) l.buckets)

sweep-limits :
    (l : RateLimiter) (now : ℕ)
    → ((sweep l now).max ≡ l.max) × ((sweep l now).max_keys ≡ l.max_keys)
unfolding sweep
sweep-limits l now = ground arith

evict_small : (n : ℕ) (m : List (String × WindowState)) → length m < n → evict n m ≡ m
unfolding evict
evict_small n [] h = refl
evict_small n (b ∷ m) h = ground arith

-- What the result `r` of a request for `j` means for `key`, whose window is open, while the table
-- has room.
record Outcome (l : RateLimiter) (key j : String) (count reset : ℕ) (r : RateLimiter × Verdict)
    : Type 0 where
  used : Used r.0 key (if str_eq j key then count + 1 else count) reset
  refused : str_eq j key ≡ true → r.1.limited ≡ ltb l.max (count + 1)
  max : r.0.max ≡ l.max
  max_keys : r.0.max_keys ≡ l.max_keys
  grows : length r.0.buckets ≤ length l.buckets + 1

open_window-Used :
    (l : RateLimiter) (key j : String) (count reset now : ℕ)
    → str_eq j key ≡ false
    → length l.buckets < l.max_keys
    → Used l key count reset
    → Used (open_window l j now).0 key count reset
unfolding open_window
open_window-Used l key j count reset now n room u = ground (
  arith,
  evict_small l.max_keys l.buckets room,
  JsMap.get-set (evict l.max_keys l.buckets) j key
      (record { count = 1; reset_at = now + l.window_ms }),
)

open_window-grows :
    (l : RateLimiter) (j : String) (now : ℕ)
    → length l.buckets < l.max_keys
    → length (open_window l j now).0.buckets ≤ length l.buckets + 1
unfolding open_window
open_window-grows l j now room = ground (
  arith,
  evict_small l.max_keys l.buckets room,
  JsMap.length-set_le l.buckets j (record { count = 1; reset_at = now + l.window_ms }),
)

count_hit-grows :
    (l : RateLimiter) (j : String) (now : ℕ) (w : WindowState)
    → length (count_hit l j now w).0.buckets ≤ length l.buckets + 1
unfolding count_hit
count_hit-grows l j now w = JsMap.length-set_le l.buckets j (record w { count = w.count + 1 })

count_hit-Used :
    (l : RateLimiter) (key j : String) (count reset now : ℕ) (w : WindowState)
    → JsMap.get l.buckets j ≡ some w
    → Used l key count reset
    → Used (count_hit l j now w).0 key (if str_eq j key then count + 1 else count) reset
unfolding count_hit
count_hit-Used l key j count reset now w g u =
    ground (arith, eq_iff j key, JsMap.get-set l.buckets j key (record w { count = w.count + 1 }))

open_window-Outcome :
    (l : RateLimiter) (key j : String) (count reset now : ℕ)
    → str_eq j key ≡ false
    → length l.buckets < l.max_keys
    → Used l key count reset
    → Outcome l key j count reset (open_window l j now)
open_window-Outcome l key j count reset now other room u = record {
  used = rw other (open_window-Used l key j count reset now other room u);
  refused = λ same. cc;
  max = unfold open_window in refl;
  max_keys = unfold open_window in refl;
  grows = open_window-grows l j now room;
}

count_hit-Outcome :
    (l : RateLimiter) (key j : String) (count reset now : ℕ) (w : WindowState)
    → JsMap.get l.buckets j ≡ some w
    → Used l key count reset
    → Outcome l key j count reset (count_hit l j now w)
count_hit-Outcome l key j count reset now w g u = record {
  used = count_hit-Used l key j count reset now w g u;
  refused = λ same.
      unfold count_hit in
      ground (arith, eq_iff j key, ap (JsMap.get l.buckets) ((eq_iff j key).0 same));
  max = unfold count_hit in refl;
  max_keys = unfold count_hit in refl;
  grows = count_hit-grows l j now w;
}

take_swept-Outcome :
    (l : RateLimiter) (key j : String) (count reset now : ℕ)
    → now < reset
    → length l.buckets < l.max_keys
    → Used l key count reset
    → Outcome l key j count reset (take_swept l j now)
unfolding take_swept
take_swept-Outcome l key j count reset now h room u = elim (Option-cases (JsMap.get l.buckets j)) [
  | inl absent ↦
      rw (absent, take_swept)
        (open_window-Outcome l key j count reset now (ground (arith, eq_iff j key)) room u)
  | inr (w, found) ↦
      rw (found, take_swept)
        (elim (Bool-cases (leb w.reset_at now)) [
          | inl over ↦
              rw over
                (open_window-Outcome l key j count reset now (ground (arith, eq_iff j key)) room u)
          | inr live ↦ rw live (count_hit-Outcome l key j count reset now w found u)
        ])
]

take-Outcome :
    (l : RateLimiter) (key j : String) (count reset now : ℕ)
    → now < reset
    → length l.buckets < l.max_keys
    → Used l key count reset
    → Outcome l key j count reset (take l j now)
unfolding take
take-Outcome l key j count reset now h room u =
    let o =
      take_swept-Outcome (sweep l now) key j count reset now h
        (omega (arith, length-sweep l now, sweep-limits l now))
        (sweep-Used l key count reset now h u) in
    record {
      used = o.used;
      refused = λ same. o.refused same ∙ ap (λ m. ltb m (count + 1)) (sweep-limits l now).0;
      max = o.max ∙ (sweep-limits l now).0;
      max_keys = o.max_keys ∙ (sweep-limits l now).1;
      grows = omega (arith, o.grows, length-sweep l now);
    }

-- How many requests of a list, each a key and a time, are for `key`, and how many of those the
-- limiter lets through.
abbrev pub hits : String → List (String × ℕ) → ℕ
hits key [] = 0
hits key ((j, now) ∷ rs) = (if str_eq j key then 1 else 0) + hits key rs

unfoldable pub passed : String → RateLimiter → List (String × ℕ) → ℕ
passed key l [] = 0
passed key l ((j, now) ∷ rs) =
    (if str_eq j key && not (take l j now).1.limited then 1 else 0) + passed key (take l j now).0 rs

-- While the window of `key` is open (each request comes before its end) and the table has room for
-- every request, requests of any keys in any order let `key` through exactly as often as it asks,
-- up to the units of the maximum that it has not used.
pub passed-eq :
    (rs : List (String × ℕ)) (l : RateLimiter) (key : String) (count reset : ℕ)
    → Used l key count reset
    → All (λ r. r.1 < reset) rs
    → length l.buckets + length rs ≤ l.max_keys
    → passed key l rs ≡ min (hits key rs) (l.max - count)
unfolding passed
passed-eq [] l key count reset u h room = omega arith
passed-eq ((j, now) ∷ rs) l key count reset u (h, hs) room =
    let o = take-Outcome l key j count reset now h (omega arith) u in
    let ih =
      passed-eq rs (take l j now).0 key _ reset o.used hs (omega (arith, o.grows, o.max_keys)) in
    ground (arith, ih, o.refused, o.max)
