-- ===== src/Schedules/Task.antt =====
-- The tasks of a schedule, `validateTasks` and the dispatch of `runTask` (runner.ts). What comes from
-- a JSON payload is a `Value`.
use renom.Prelude.{
  Bool, List, Option, String, Units, [], codes, false, if◌then◌else◌, leb, length, min, not, some,
  true, units_eq, ℕ, ◌&&◌, ◌==◌, ◌||◌, ◌∷◌,
}
use renom.JsText.Number.{ℤ, pos}
use renom.Errors.{bad_request, Result, ok, guard, ◌>>◌}

pub data Value : Type 0 where
  absent null other : Value
  bool : Bool → Value
  num : ℕ → Value
  text : Units → Value

pub data Action : Type 0 where
  power command backup unknown : Action

-- The payload's fields that are read. `offset_sec` is `none` where it is no whole number.
pub record ScheduleTask : Type 0 where
  pub action : Action
  pub power_action : Value
  pub command : Value
  pub continue_on_failure : Value
  pub offset_sec : Option ℤ

-- `value ?? "restart"`.
abbrev pub or_restart : Value → Value
or_restart absent = text (codes "restart")
or_restart null = text (codes "restart")
or_restart v = v

-- `===` with a text.
abbrev pub is_text : Units → Value → Bool
is_text t (text s) = units_eq s t
is_text t _ = false

abbrev pub truthy : Value → Bool
truthy absent = false
truthy null = false
truthy other = true
truthy (bool b) = b
truthy (num n) = not (n == 0)
truthy (text []) = false
truthy (text (c ∷ s)) = true

unfoldable pub valid_power : Value → Bool
valid_power v =
    let a = or_restart v in
    is_text (codes "start") a
    || is_text (codes "stop") a
    || is_text (codes "restart") a
    || is_text (codes "kill") a

unfoldable pub valid_command : Value → Bool
valid_command (text s) = not (length s == 0) && leb (length s) 4096
valid_command _ = false

unfoldable pub valid_offset : Option ℤ → Bool
valid_offset (some (pos n)) = leb n 300
valid_offset _ = false

unfoldable pub valid_action : ScheduleTask → Bool
valid_action t = elim t.action [
  | power ↦ valid_power t.power_action
  | command ↦ valid_command t.command
  | backup ↦ true
  | unknown ↦ false
]

unfoldable pub validate_each : List ScheduleTask → Result (Unit {0})
validate_each [] = ok tt
validate_each (t ∷ ts) = do
  guard (valid_action t) bad_request
  guard (valid_offset t.offset_sec) bad_request
  validate_each ts

unfoldable pub validate_tasks : List ScheduleTask → Result (Unit {0})
unfolding validate_each
validate_tasks tasks = do
  guard (not (length tasks == 0) && leb (length tasks) 16) bad_request
  validate_each tasks

-- What a task asks of the engine and of the backups; `wait` is the timer before it.
pub data Effect : Type 0 where
  wait : ℕ → Effect
  start stop kill restart create_backup : String → Effect
  send_input : String → Units → Effect
  -- a throw of `runTask` itself
  refuse : Effect

unfoldable pub power_effect : String → Value → Effect
power_effect server v =
    let a = or_restart v in
    if is_text (codes "start") a
    then start server
    else if is_text (codes "stop") a
    then stop server
    else if is_text (codes "kill") a
    then kill server
    else restart server

unfoldable pub command_effect : String → Value → Effect
command_effect server (text (c ∷ s)) = send_input server (c ∷ s)
command_effect server _ = refuse

unfoldable pub task_effect : String → ScheduleTask → Effect
task_effect server t = elim t.action [
  | power ↦ power_effect server t.power_action
  | command ↦ command_effect server t.command
  | _ ↦ create_backup server
]

-- `Math.min(task.offsetSec, 300)`, if it is positive.
unfoldable pub task_delay : Option ℤ → ℕ
task_delay (some (pos n)) = min n 300
task_delay _ = 0
