-- ===== src/Runtime/Slot.antt =====
-- The slot of one server in `LocalProcessEngine` of engine.ts, with its row of `servers` and the
-- processes that the operating system runs for it. The slots of the `Map` do not meet each other.
-- What runs between two waits of the source is one function here.
pub mod Steps
pub mod Faults
use renom.Prelude.{
  Bool, List, Option, String, Units, [], codes, false, if◌then◌else◌, is_some, keep, none, not,
  some, str_eq, true, ℕ, ◌&&◌, ◌++◌, ◌+◌, ◌==◌, ◌||◌, ◌∷◌,
}
use renom.JsText.Digits.{show}
use renom.Errors.{Result, ok, err, engine_error, ◌>>◌, guard}
use renom.Runtime.Console.{Scrollback, Stream, emit, feed, flush, stderr, stdout, system}

pub data PowerState : Type 0 where
  offline starting running stopping : PowerState

-- A `ChildProcess` with the two line buffers that its handlers share. `pid` is none if the program
-- could not be run; `ended` says that it has an exit code or a signal.
pub record Child : Type 0 where
  pub pid : Option ℕ
  pub ended : Bool
  pub out : Units
  pub errors : Units

-- `LiveProcess`, without the listeners and the marks of the sampler.
pub record Slot : Type 0 where
  pub proc : Option Child
  pub stopping : Bool
  pub run : ℕ
  pub console : Scrollback

-- `status` is none if there is no row; `alive` are the identifiers of the processes that run.
pub record Engine : Type 0 where
  pub live : Option Slot
  pub status : Option String
  pub runtime_state : Option PowerState
  pub alive : List ℕ

abbrev pub new_slot : Slot
new_slot = record {
  proc = none;
  stopping = false;
  run = 0;
  console = record { history = []; seq = 0 };
}

abbrev pub child_of : Engine → Option Child
child_of e = elim e.live [ none ↦ none | some s ↦ s.proc ]

abbrev pub is_starting : Option PowerState → Bool
is_starting (some starting) = true
is_starting _ = false

-- `stateOf` where there is no child.
abbrev pub resting_state : Engine → PowerState
resting_state e = if is_some e.status && is_starting e.runtime_state then starting else offline

unfoldable pub state_of : Engine → PowerState
state_of e = elim e.live [
  | none ↦ resting_state e
  | some s ↦ (elim s.proc [
    | none ↦ resting_state e
    | some c ↦ if s.stopping then stopping else if c.ended then offline else running
  ])
]

abbrev pub is_offline : PowerState → Bool
is_offline offline = true
is_offline _ = false

abbrev pub is_ready : Option String → Bool
is_ready none = false
is_ready (some status) = str_eq status "ready"

-- The first guards of `start`; a suspended server is not ready either. All throw an `EngineError`.
unfoldable pub check_start : Engine → Result (Unit {0})
unfolding state_of
check_start e =
    guard (is_ready e.status) engine_error >> guard (is_offline (state_of e)) engine_error

-- What `spawn` does: it throws, or returns a child.
pub data Spawned : Type 0 where
  threw : Spawned
  child : Option ℕ → Spawned

abbrev pub pid_text : Option ℕ → Units
pid_text none = codes "?"
pid_text (some pid) = show pid

-- The slot at the start of a new run: listeners and line numbers go on, the history does not.
unfoldable pub reset_slot : Option Slot → Slot
reset_slot none = record new_slot { run = 1 }
reset_slot (some s) = record s {
  stopping = false;
  run = s.run + 1;
  console = record s.console { history = [] };
}

abbrev pub pids : Option ℕ → List ℕ
pids none = []
pids (some pid) = pid ∷ []

-- A process that was spawned, and the line that says so.
unfoldable pub launched : ℕ → Option ℕ → Slot → Slot
unfolding emit show
launched ts pid s = record s {
  proc = some (record { pid = pid; ended = false; out = []; errors = [] });
  console = emit ts system (codes "process started (pid " ++ (pid_text pid ++ codes ")")) s.console;
}

-- The row is `starting`, the slot is reset, and the child is spawned.
abbrev pub spawn : ℕ → Spawned → Engine → Result (Unit {0}) × Engine
spawn ts threw e =
    (err engine_error, record e { live = some (reset_slot e.live); runtime_state = some offline })
spawn ts (child pid) e = (
  ok tt,
  record e {
    live = some (launched ts pid (reset_slot e.live));
    runtime_state = some starting;
    alive = e.alive ++ pids pid;
  },
)

-- `start` up to its wait: the guards, what the blueprint, Java and the directories say (`prepared`),
-- and the launch.
unfoldable pub start : ℕ → Result (Unit {0}) → Spawned → Engine → Result (Unit {0}) × Engine
unfolding check_start reset_slot launched
start ts prepared spawned e = elim (check_start e >> prepared) [
  | err thrown ↦ (err thrown, e)
  | ok _ ↦ spawn ts spawned e
]

-- The end of `start`, after its wait; `failed` says that an error or an exit was recorded.
unfoldable pub finish_start : Bool → Engine → Result (Unit {0}) × Engine
unfolding state_of
finish_start failed e =
    if failed || is_offline (state_of e)
    then (err engine_error, e)
    else (ok tt, record e { runtime_state = some running })

abbrev pub rest : Slot → Slot
rest s = record s { proc = none; stopping = false }

unfoldable pub finish : Engine → Engine
finish e = record e {
  live = (elim e.live [ none ↦ none | some s ↦ some (rest s) ]);
  runtime_state = some offline;
}

-- What the child has written comes in.
abbrev pub fed : (List ℕ → Units) → ℕ → Stream → List ℕ → Slot → Child → Slot
fed decode ts stream chunk s c = elim stream [
  | stdout ↦
      let r = feed decode ts stdout chunk (c.out, s.console) in
      record s { proc = some (record c { out = r.0 }); console = r.1 }
  | stderr ↦
      let r = feed decode ts stderr chunk (c.errors, s.console) in
      record s { proc = some (record c { errors = r.0 }); console = r.1 }
  | system ↦ s
]

unfoldable pub on_data : (List ℕ → Units) → ℕ → Stream → List ℕ → Engine → Engine
unfolding feed
on_data decode ts stream chunk e = elim e.live [
  | none ↦ e
  | some s ↦ (elim s.proc [
    | none ↦ e
    | some c ↦ record e { live = some (fed decode ts stream chunk s c) }
  ])
]

-- The lines that `exit` leaves in the console: what was open of both streams, and how it ended.
unfoldable pub closing : ℕ → Units → Child → Scrollback → Scrollback
unfolding flush emit
closing ts text c console =
    emit ts system text (flush ts stderr (c.errors, (flush ts stdout (c.out, console)).1)).1

-- Behind an `error` the buffers of the child are not followed, only the line that says how it ended.
abbrev pub last_lines : ℕ → Units → Slot → Slot
last_lines ts text s = record s {
  console = (elim s.proc [
    | none ↦ emit ts system text s.console
    | some c ↦ closing ts text c s.console
  ]);
}

abbrev pub without_process : ℕ → Units → ℕ → Engine → Engine
without_process ts text pid e = record e {
  live = (elim e.live [ none ↦ none | some s ↦ some (last_lines ts text s) ]);
  alive = keep (λ p. not (p == pid)) e.alive;
}

-- A process ends: it is gone, and the `exit` handler runs.
unfoldable pub on_exit : ℕ → Units → ℕ → Engine → Engine
unfolding closing finish
on_exit ts text pid e = finish (without_process ts text pid e)

abbrev pub error_line : ℕ → Units → Slot → Slot
error_line ts text s = record s { console = emit ts system text s.console }

abbrev pub with_error : ℕ → Units → Engine → Engine
with_error ts text e = record e {
  live = (elim e.live [ none ↦ none | some s ↦ some (error_line ts text s) ]);
}

-- The `error` handler: whatever the error is, the handle is dropped.
unfoldable pub on_error : ℕ → Units → Engine → Engine
unfolding emit finish
on_error ts text e = finish (with_error ts text e)

abbrev pub mark_stopping : Slot → Slot
mark_stopping s = record s { stopping = true }

-- `stop` up to its wait; without a child it returns at once.
unfoldable pub stop : Engine → Engine
stop e = elim e.live [
  | none ↦ e
  | some s ↦ (elim s.proc [
    | none ↦ e
    | some c ↦ record e { live = some (mark_stopping s); runtime_state = some stopping }
  ])
]

-- `kill` up to its wait.
unfoldable pub kill : Engine → Engine
kill e = elim e.live [
  | none ↦ e
  | some s ↦ (elim s.proc [ none ↦ e | some c ↦ record e { live = some (mark_stopping s) } ])
]

-- The end of `kill`, by whether the wait saw the child end.
unfoldable pub finish_kill : Bool → Engine → Result (Unit {0}) × Engine
unfolding finish
finish_kill exited e =
    if exited
    then (ok tt, finish e)
    else (err engine_error, record e { runtime_state = some stopping })

abbrev pub forget : Engine → Engine
forget e = record e { live = none }

-- `ensureSlot`, by which viewers of a server that never ran make its slot.
abbrev pub ensure_slot : Engine → Engine
ensure_slot e = elim e.live [ none ↦ record e { live = some new_slot } | some s ↦ e ]
