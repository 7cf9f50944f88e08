-- ===== src/Runtime/Slot/Faults.antt =====
-- Two things that the engine gets wrong.
use renom.Prelude.{
  List, Option, String, Units, [], ap, arith, false, if◌then◌else◌, is_some, none, refl, some, true,
  ℕ, ◌&&◌, ◌++◌, ◌∙◌, ◌∷◌, ◌≡◌,
}
use renom.Errors.{ok}
use renom.Runtime.Slot.{
  Child, child, child_of, check_start, Engine, PowerState, finish, finish_start, is_ready, offline,
  on_error, running, start, starting, state_of, stop,
}
use renom.Runtime.Slot.Steps.{Engine-elim}

at_rest :
    (status : Option String) → (if is_some status && false then starting else offline) ≡ offline
at_rest none = refl
at_rest (some status) = refl

alive-on_error : (ts : ℕ) (text : Units) (e : Engine) → (on_error ts text e).alive ≡ e.alive
unfolding on_error finish
alive-on_error ts text e = refl

status-on_error : (ts : ℕ) (text : Units) (e : Engine) → (on_error ts text e).status ≡ e.status
unfolding on_error finish
status-on_error ts text e = refl

state_of-on_error : (ts : ℕ) (text : Units) (e : Engine) → state_of (on_error ts text e) ≡ offline
unfolding on_error finish state_of
state_of-on_error ts text =
    Engine-elim (λ e. state_of (on_error ts text e) ≡ offline)
      (λ status state alive. at_rest status) (λ flag run console status state alive. at_rest status)
      (λ c flag run console status state alive. at_rest status)

check_start-on_error :
    (ts : ℕ) (text : Units) (e : Engine)
    → is_ready e.status ≡ true
    → check_start (on_error ts text e) ≡ ok tt
unfolding check_start
check_start-on_error ts text e h =
    let ready = ap is_ready (status-on_error ts text e) ∙ h in
    rw ready (rw (state_of-on_error ts text e) refl)

-- An `error` event of a process that runs (a signal that could not be sent, say) leaves the process
-- running while its server reads as offline: the next start of it is admitted, and then two
-- processes run for one server.
pub start-on_error :
    (ts : ℕ) (text : Units) (pid : ℕ) (e : Engine)
    → is_ready e.status ≡ true
    → (state_of (on_error ts text e) ≡ offline)
      × ((start ts (ok tt) (child (some pid)) (on_error ts text e)).0 ≡ ok tt)
      × ((start ts (ok tt) (child (some pid)) (on_error ts text e)).1.alive ≡ e.alive ++ pid ∷ [])
unfolding start
start-on_error ts text pid e h =
    let checked = check_start-on_error ts text e h in
    (
      state_of-on_error ts text e,
      rw (checked, start) refl,
      rw (checked, start) (ap (λ (l : List ℕ). l ++ pid ∷ []) (alive-on_error ts text e)),
    )

-- A server that is stopped while `start` still waits is written down as running, though its state is
-- stopping.
pub finish_start_stopping :
    (e : Engine) (c : Child)
    → child_of e ≡ some c
    → (state_of (stop e) ≡ PowerState.stopping)
      × ((finish_start false (stop e)).0 ≡ ok tt)
      × ((finish_start false (stop e)).1.runtime_state ≡ some running)
      × (state_of (finish_start false (stop e)).1 ≡ PowerState.stopping)
unfolding stop finish_start state_of
finish_start_stopping e c h =
    Engine-elim
      (λ e.
        child_of e ≡ some c
        → (state_of (stop e) ≡ PowerState.stopping)
          × ((finish_start false (stop e)).0 ≡ ok tt)
          × ((finish_start false (stop e)).1.runtime_state ≡ some running)
          × (state_of (finish_start false (stop e)).1 ≡ PowerState.stopping))
      (λ status state alive n. absurd (ground (arith, n)))
      (λ flag run console status state alive n. absurd (ground (arith, n)))
      (λ d flag run console status state alive n. (refl, refl, refl, refl)) e h
