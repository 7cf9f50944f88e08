-- ===== src/Runtime/Slot/Steps.antt =====
-- The slot as a state machine: what may happen to it, in any order, and what holds in all its states.
use renom.Prelude.{
  Bool, Bool-cases, List, Option, String, Units, [], any, ap, arith, false, inl, inr, length, none,
  refl, some, true, ℕ, ◌++◌, ◌<◌, ◌==◌, ◌≡◌,
}
use renom.Errors.{Result, Result-cases, engine_error, bind-eq-ok, ok, err, ◌>>◌}
use renom.Runtime.Console.{Scrollback, Stream}
use renom.Runtime.Slot.{
  Child, Engine, PowerState, Slot, Spawned, check_start, child, child_of, ensure_slot, finish_kill,
  is_offline, is_ready, running, starting, spawn, finish_start, forget, kill, launched, offline,
  on_data, on_error, on_exit, pids, reset_slot, start, state_of, stop, threw,
}

-- Every process that runs is the child of the slot; without a child the slot is not stopping.
abbrev pub TracksChild : Option Child → Bool → List ℕ → Type 0
TracksChild none stopping alive = (alive ≡ []) × (stopping ≡ false)
TracksChild (some c) stopping alive = (alive ≡ pids c.pid) × (c.ended ≡ false)

abbrev pub TracksSlot : Option Slot → List ℕ → Type 0
TracksSlot none alive = alive ≡ []
TracksSlot (some s) alive = TracksChild s.proc s.stopping alive

abbrev pub IsSound : Engine → Type 0
IsSound e = TracksSlot e.live e.alive

-- What may happen between two turns of the program's loop. A process that ends is one that runs; an
-- `error` may come at any time; the wait of `kill` ends well by the exit, whose handler has run; a
-- server is forgotten once it was killed.
pub data Step (e f : Engine) : Type 0 where
  started :
      (ts : ℕ) (prepared : Result (Unit {0})) (spawned : Spawned)
      → f ≡ (start ts prepared spawned e).1
      → Step e f
  start_finished : (failed : Bool) → f ≡ (finish_start failed e).1 → Step e f
  wrote :
      (decode : List ℕ → Units) (ts : ℕ) (stream : Stream) (chunk : List ℕ)
      → f ≡ on_data decode ts stream chunk e
      → Step e f
  exited :
      (ts : ℕ) (text : Units) (pid : ℕ)
      → any (λ p. p == pid) e.alive ≡ true
      → f ≡ on_exit ts text pid e
      → Step e f
  errored : (ts : ℕ) (text : Units) → f ≡ on_error ts text e → Step e f
  stopped : f ≡ stop e → Step e f
  killed : f ≡ kill e → Step e f
  kill_finished : child_of e ≡ none → f ≡ (finish_kill true e).1 → Step e f
  kill_failed : f ≡ (finish_kill false e).1 → Step e f
  forgotten : child_of e ≡ none → f ≡ forget e → Step e f
  viewed : f ≡ ensure_slot e → Step e f
  row_changed : (status : Option String) → f ≡ record e { status = status } → Step e f

pub data Reach (s : Engine) : Engine → Type 0 where
  here : Reach s s
  next : {e f : Engine} → Reach s e → Step e f → Reach s f

-- An `error` comes only where no process runs: of a program that could not be run, but not of a signal
-- that could not be sent.
unfoldable pub IsSpared : {e f : Engine} → Step e f → Type 0
IsSpared {e} (errored ts text eq) = e.alive ≡ []
IsSpared _ = Unit {0}

unfoldable pub AreSpared : {s e : Engine} → Reach s e → Type 0
unfolding IsSpared
AreSpared here = Unit {0}
AreSpared (next r st) = AreSpared r × IsSpared st

module _ {ℓ} (P : Engine → Type ℓ) where
  -- The three shapes of a slot: none, one at rest, one with a child.
  pub Engine-elim :
      ((status : Option String) (state : Option PowerState) (alive : List ℕ)
        → P (record { live = none; status = status; runtime_state = state; alive = alive }))
      → ((stopping : Bool) (run : ℕ) (console : Scrollback) (status : Option String)
            (state : Option PowerState) (alive : List ℕ)
          → P (record {
            live = some (record { proc = none; stopping = stopping; run = run; console = console });
            status = status;
            runtime_state = state;
            alive = alive;
          }))
      → ((c : Child) (stopping : Bool) (run : ℕ) (console : Scrollback) (status : Option String)
            (state : Option PowerState) (alive : List ℕ)
          → P (record {
            live =
                some (record { proc = some c; stopping = stopping; run = run; console = console });
            status = status;
            runtime_state = state;
            alive = alive;
          }))
      → (e : Engine) → P e
  Engine-elim empty resting busy e = by_slot e.live
    where
      by_proc :
          (proc : Option Child) (stopping : Bool) (run : ℕ) (console : Scrollback)
          → P (record e {
            live = some (record { proc = proc; stopping = stopping; run = run; console = console });
          })
      by_proc none stopping run console =
          resting stopping run console e.status e.runtime_state e.alive
      by_proc (some c) stopping run console =
          busy c stopping run console e.status e.runtime_state e.alive

      by_slot : (live : Option Slot) → P (record e { live = live })
      by_slot none = empty e.status e.runtime_state e.alive
      by_slot (some s) = by_proc s.proc s.stopping s.run s.console

no_child : (e : Engine) → IsSound e → child_of e ≡ none → e.alive ≡ []
no_child =
    Engine-elim (λ e. IsSound e → child_of e ≡ none → e.alive ≡ []) (λ status state alive h n. h)
      (λ stopping run console status state alive h n. h.0)
      (λ c stopping run console status state alive h n. absurd (ground (arith, n)))

-- Where the state is offline there is no child.
offline_lem : (e : Engine) → IsSound e → state_of e ≡ offline → child_of e ≡ none
unfolding state_of
offline_lem =
    Engine-elim (λ e. IsSound e → state_of e ≡ offline → child_of e ≡ none)
      (λ status state alive h o. refl) (λ stopping run console status state alive h o. refl)
      (λ c stopping run console status state alive h o. absurd (ground (arith, h.1, o)))

reset-TracksSlot :
    (e : Engine) → IsSound e → child_of e ≡ none → TracksSlot (some (reset_slot e.live)) e.alive
unfolding reset_slot
reset-TracksSlot =
    Engine-elim (λ e. IsSound e → child_of e ≡ none → TracksSlot (some (reset_slot e.live)) e.alive)
      (λ status state alive h n. (h, refl))
      (λ stopping run console status state alive h n. (h.0, refl))
      (λ c stopping run console status state alive h n. absurd (ground (arith, n)))

launched-TracksSlot :
    (ts : ℕ) (pid : Option ℕ) (s : Slot) (alive : List ℕ)
    → alive ≡ []
    → TracksSlot (some (launched ts pid s)) (alive ++ pids pid)
unfolding launched
launched-TracksSlot ts pid s alive h = (rw h refl, refl)

spawned-TracksSlot :
    (ts : ℕ) (spawned : Spawned) (e : Engine)
    → IsSound e
    → child_of e ≡ none
    → IsSound (spawn ts spawned e).1
spawned-TracksSlot ts threw e h n = reset-TracksSlot e h n
spawned-TracksSlot ts (child pid) e h n =
    launched-TracksSlot ts pid (reset_slot e.live) e.alive (no_child e h n)

is_offline_sound : (state : PowerState) → is_offline state ≡ true → state ≡ offline
is_offline_sound offline h = refl
is_offline_sound starting h = cc
is_offline_sound running h = cc
is_offline_sound PowerState.stopping h = cc

-- Where `start` goes on there is no child.
check_start-eq-ok :
    (e : Engine) (u : Unit {0}) → IsSound e → check_start e ≡ ok u → child_of e ≡ none
unfolding check_start
check_start-eq-ok e u h o = elim (Bool-cases (is_ready e.status)) [
  | inr r ↦ absurd (ground (arith, r, o))
  | inl r ↦ elim (Bool-cases (is_offline (state_of e))) [
    | inr b ↦ absurd (ground (arith, r, b, o))
    | inl b ↦ offline_lem e h (is_offline_sound (state_of e) b)
  ]
]

pub start-IsSound :
    (ts : ℕ) (prepared : Result (Unit {0})) (spawned : Spawned) (e : Engine)
    → IsSound e
    → IsSound (start ts prepared spawned e).1
unfolding start
start-IsSound ts prepared spawned e h = elim (Result-cases (check_start e >> prepared)) [
  | inl (thrown, f) ↦ rw (f, start) h
  | inr (u, f) ↦
      let (v, checked, _) = bind-eq-ok (check_start e) (λ passed. prepared) f in
      let empty = check_start-eq-ok e v h checked in
      rw (f, start) (spawned-TracksSlot ts spawned e h empty)
]

-- While a process runs, `start` is refused with 409 and changes nothing.
pub start_busy :
    (ts : ℕ) (prepared : Result (Unit {0})) (spawned : Spawned) (e : Engine)
    → IsSound e
    → 0 < length e.alive
    → start ts prepared spawned e ≡ (err engine_error, e)
unfolding start check_start
start_busy ts prepared spawned e h runs = elim (Bool-cases (is_ready e.status)) [
  | inr r ↦ rw (r, start) refl
  | inl r ↦ elim (Bool-cases (is_offline (state_of e))) [
    | inr b ↦ rw (r, start) (rw (b, start) refl)
    | inl b ↦
        let empty = no_child e h (offline_lem e h (is_offline_sound (state_of e) b)) in
        absurd (omega (arith, ap length empty))
  ]
]
