-- ===== src/Schedules/Cron/NextRun.antt =====
-- `nextRun` and `dayMatches` of cron.ts. The clock is not before the epoch.
use renom.Prelude.{
  ==_iff, Bool, Bool-cases, Option, Option-cases, ap, arith, false, if◌then◌else◌, inl, inr, leb,
  none, not, some, suc, sym, true, zero, ℕ, ◌%◌, ◌&&◌, ◌*◌, ◌+◌, ◌/◌, ◌<◌, ◌==◌, ◌||◌, ◌↔◌, ◌∙◌,
  ◌≡◌, ◌≢◌, ◌≤◌,
}
use renom.Schedules.Cron.{CronFields, includes}
use renom.Schedules.Cron.Calendar.{minute_ms, utc_minutes, utc_hours, utc_day, utc_month, utc_date}

unfoldable pub day_matches : CronFields → ℕ → Bool
unfolding includes
day_matches fields t =
    let dom_hit = includes fields.dom (utc_date t) in
    let dow_hit = includes fields.dow (utc_day t) in
    if fields.dom_is_star && fields.dow_is_star
    then true
    else if fields.dom_is_star
    then dow_hit
    else if fields.dow_is_star
    then dom_hit
    else dom_hit || dow_hit

unfoldable pub fires : CronFields → ℕ → Bool
unfolding day_matches includes
fires fields t =
    includes fields.minute (utc_minutes t)
    && includes fields.hour (utc_hours t)
    && includes fields.month (utc_month t)
    && day_matches fields t

abbrev pub horizon_ms : ℕ
horizon_ms = 366 * 5 * 24 * 3600000

-- `while (t <= limit)`, with fuel; a `CronError` is `none`.
unfoldable pub scan : CronFields → ℕ → ℕ → ℕ → Option ℕ
scan fields zero limit t = none
scan fields (suc fuel) limit t =
    let rest = scan fields fuel limit (t + minute_ms) in
    if not (leb t limit) then none else if fires fields t then some t else rest

abbrev pub next_minute : ℕ → ℕ
next_minute from = from / minute_ms * minute_ms + minute_ms

-- One round more than there are minutes up to the limit.
abbrev pub rounds : ℕ
rounds = horizon_ms / minute_ms + 1

unfoldable pub next_run : CronFields → ℕ → Option ℕ
next_run fields from = scan fields rounds (from + horizon_ms) (next_minute from)

-- A whole minute after `from` and within five leap years of it.
pub record IsCandidate (from t : ℕ) : Type 0 where
  pub after : from < t
  pub whole : t % minute_ms ≡ 0
  pub near : t ≤ from + horizon_ms

-- The first candidate that fires.
pub record IsFirst (fields : CronFields) (from t : ℕ) : Type 0 where
  pub candidate : IsCandidate from t
  pub hit : fires fields t ≡ true
  pub first : (u : ℕ) → IsCandidate from u → u < t → fires fields u ≡ false

-- What the loop finds from a whole minute on.
scan-some :
    (fields : CronFields) (fuel limit t r : ℕ)
    → t % minute_ms ≡ 0
    → scan fields fuel limit t ≡ some r
    → (t ≤ r)
      × (r ≤ limit)
      × (r % minute_ms ≡ 0)
      × (fires fields r ≡ true)
      × ((u : ℕ) → t ≤ u → u % minute_ms ≡ 0 → u < r → fires fields u ≡ false)
unfolding scan
scan-some fields zero limit t r w h = cc
scan-some fields (suc fuel) limit t r w h = elim (Bool-cases (leb t limit)) [
  | inr late ↦ ground (arith, late)
  | inl early ↦ elim (Bool-cases (fires fields t)) [
    | inl hit ↦
        let same : t ≡ r = ground (arith, early, hit) in
        (
          omega arith,
          ground (arith, early),
          omega arith,
          ap (fires fields) (sym same) ∙ hit,
          λ u p q l. absurd (omega arith),
        )
    | inr miss ↦
        let (p, q, a, b, c) =
          scan-some fields fuel limit (t + minute_ms) r (omega arith)
            (ground (arith, early, miss)) in
        (
          omega arith,
          q,
          a,
          b,
          λ u tu wu ur. elim (Bool-cases (u == t)) [
            | inl e ↦ ap (fires fields) ((==_iff u t).0 e) ∙ miss
            | inr e ↦ let ne : u ≢ t = λ eq. cc (e, (==_iff u t).1 eq) in c u (omega arith) wu ur
          ],
        )
  ]
]

scan-none :
    (fields : CronFields) (fuel limit t u : ℕ)
    → t % minute_ms ≡ 0
    → limit < t + fuel * minute_ms
    → scan fields fuel limit t ≡ none
    → t ≤ u
    → u % minute_ms ≡ 0
    → u ≤ limit
    → fires fields u ≡ false
unfolding scan
scan-none fields zero limit t u w f h tu wu ul = absurd (omega arith)
scan-none fields (suc fuel) limit t u w f h tu wu ul = elim (Bool-cases (u == t)) [
  | inl e ↦
      let same = (==_iff u t).0 e in
      let early : leb t limit ≡ true = ground arith in
      elim (Bool-cases (fires fields t)) [
        | inl hit ↦ ground (arith, hit, early)
        | inr miss ↦ ap (fires fields) same ∙ miss
      ]
  | inr e ↦
      let ne : u ≢ t = λ eq. cc (e, (==_iff u t).1 eq) in
      let early : leb t limit ≡ true = ground arith in
      elim (Bool-cases (fires fields t)) [
        | inl hit ↦ ground (arith, hit, early)
        | inr miss ↦
            scan-none fields fuel limit (t + minute_ms) u (omega arith) (omega arith)
              (ground (arith, miss, early)) (omega arith) wu ul
      ]
]

next_minute_whole : (from : ℕ) → next_minute from % minute_ms ≡ 0
next_minute_whole from = omega arith

enough_rounds : (from : ℕ) → from + horizon_ms < next_minute from + rounds * minute_ms
enough_rounds from = omega arith

-- A time that `nextRun` returns is the first whole minute after `from`, within five leap years, whose
-- UTC fields the expression matches.
pub next_run-IsFirst :
    (fields : CronFields) (from t : ℕ) → next_run fields from ≡ some t → IsFirst fields from t
unfolding next_run
next_run-IsFirst fields from t h =
    let (p, q, a, b, c) =
      scan-some fields rounds (from + horizon_ms) (next_minute from) t (next_minute_whole from) h in
    record {
      candidate = record { after = omega arith; whole = a; near = q };
      hit = b;
      first = λ u k l. c u (omega arith) k.whole l;
    }

-- `nextRun` throws exactly if no whole minute after `from`, within five leap years, matches: its loop
-- has rounds enough to look at each.
pub next_run-eq-none_iff :
    (fields : CronFields) (from : ℕ)
    → (next_run fields from ≡ none) ↔ ((u : ℕ) → IsCandidate from u → fires fields u ≡ false)
unfolding next_run
next_run-eq-none_iff fields from = (
  λ h u k.
      scan-none fields rounds (from + horizon_ms) (next_minute from) u (next_minute_whole from)
        (enough_rounds from) h (omega arith) k.whole k.near,
  λ all. elim (Option-cases (scan fields rounds (from + horizon_ms) (next_minute from))) [
    | inl e ↦ e
    | inr (t, e) ↦
        let first = next_run-IsFirst fields from t (unfold next_run in e) in
        absurd (cc (all t first.candidate, first.hit))
  ],
)
