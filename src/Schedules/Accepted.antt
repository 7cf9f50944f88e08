-- ===== src/Schedules/Accepted.antt =====
-- What `validateTasks` accepts, against what `runTask` does with it.
use renom.Prelude.{
  All, List, Option, String, [], ap, arith, length, refl, some, suc, true, zero, ℕ, ◌*◌, ◌+◌, ◌<◌,
  ◌∷◌, ◌≡◌, ◌≢◌, ◌≤◌,
}
use renom.JsText.Number.{ℤ, pos}
use renom.Errors.{ok}
use renom.Schedules.Store.{lock_ttl_ms}
use renom.Schedules.Task.{
  ScheduleTask, backup, Value, absent, text, valid_command, valid_offset, valid_action,
  validate_each, validate_tasks, refuse, power_effect, command_effect, task_effect, task_delay,
}

-- `runTask` does not throw by itself on the task, and waits its whole offset, at most 300 seconds.
pub record IsRunnable (server : String) (t : ScheduleTask) : Type 0 where
  pub accepted : task_effect server t ≢ refuse
  pub offset : t.offset_sec ≡ some (pos (task_delay t.offset_sec))
  pub bounded : task_delay t.offset_sec ≤ 300

power-ne-refuse : (server : String) (v : Value) → power_effect server v ≢ refuse
unfolding power_effect
power-ne-refuse server v h = ground arith

command-ne-refuse :
    (server : String) (v : Value) → valid_command v ≡ true → command_effect server v ≢ refuse
unfolding command_effect valid_command
command-ne-refuse server (text (c ∷ s)) h = λ e. cc
command-ne-refuse server v h = λ e. ground arith

effect-ne-refuse :
    (server : String) (t : ScheduleTask) → valid_action t ≡ true → task_effect server t ≢ refuse
unfolding valid_action task_effect
effect-ne-refuse server t h =
    ground (arith, power-ne-refuse server t.power_action, command-ne-refuse server t.command)

offset_runs :
    (o : Option ℤ) → valid_offset o ≡ true → (o ≡ some (pos (task_delay o))) × (task_delay o ≤ 300)
unfolding valid_offset task_delay
offset_runs (some (pos n)) h = ground arith
offset_runs o h = ground arith

validate_each-IsRunnable :
    (server : String) (ts : List ScheduleTask)
    → validate_each ts ≡ ok tt
    → All (IsRunnable server) ts
unfolding validate_each
validate_each-IsRunnable server [] h = tt
validate_each-IsRunnable server (t ∷ ts) h =
    let offset = offset_runs t.offset_sec (ground arith) in
    (
      record {
        accepted = effect-ne-refuse server t (ground arith);
        offset = offset.0;
        bounded = offset.1;
      },
      validate_each-IsRunnable server ts (ground arith),
    )

-- A list of tasks that is accepted has one to sixteen tasks, and on none of them `runTask` throws by
-- itself; it waits the whole offset of each, which is at most 300 seconds.
pub validate_tasks-IsRunnable :
    (server : String) (ts : List ScheduleTask)
    → validate_tasks ts ≡ ok tt
    → (1 ≤ length ts) × (length ts ≤ 16) × All (IsRunnable server) ts
unfolding validate_tasks
validate_tasks-IsRunnable server ts h =
    (ground arith, ground arith, validate_each-IsRunnable server ts (ground arith))

-- The seconds that a run waits before its tasks, with no time for the tasks themselves.
abbrev pub total_delay : List ScheduleTask → ℕ
total_delay [] = 0
total_delay (t ∷ ts) = task_delay t.offset_sec + total_delay ts

abbrev pub slow_backup : ScheduleTask
slow_backup = record {
  action = backup;
  power_action = absent;
  command = absent;
  continue_on_failure = absent;
  offset_sec = some (pos 300);
}

abbrev pub slow_backups : ℕ → List ScheduleTask
slow_backups zero = []
slow_backups (suc n) = slow_backup ∷ slow_backups n

total_delay-slow_backups : (n : ℕ) → total_delay (slow_backups n) ≡ 300 * n
unfolding task_delay
total_delay-slow_backups zero = omega arith
total_delay-slow_backups (suc n) = omega (arith, total_delay-slow_backups n)

length-slow_backups : (n : ℕ) → length (slow_backups n) ≡ n
length-slow_backups zero = refl
length-slow_backups (suc n) = ap suc (length-slow_backups n)

slow_backups_valid : (n : ℕ) → validate_each (slow_backups n) ≡ ok tt
unfolding validate_each valid_action valid_offset
slow_backups_valid zero = refl
slow_backups_valid (suc n) = slow_backups_valid n

-- Four to sixteen backups that wait 300 seconds each are an accepted list, and its waits alone last
-- longer than the lock of the schedule.
pub delays_outlast_lock :
    (n : ℕ)
    → 4 ≤ n
    → n ≤ 16
    → (validate_tasks (slow_backups n) ≡ ok tt)
      × (lock_ttl_ms < 1000 * total_delay (slow_backups n))
unfolding validate_tasks
delays_outlast_lock n low high = (
  ground (arith, length-slow_backups n, slow_backups_valid n),
  omega (arith, total_delay-slow_backups n),
)
