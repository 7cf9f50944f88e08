-- ===== src/Tests/Schedules.antt =====
-- Tests of the scheduler.
use renom.Prelude.{
  All, [], arith, codes, false, if◌then◌else◌, inl, length, none, not, refl, some, ℕ, ◌++◌, ◌+◌,
  ◌==◌, ◌↔◌, ◌∷◌, ◌≡◌, ◌≤◌,
}
use renom.JsText.Number.{pos}
use renom.JsText.Split.{split}
use renom.Database.Table.{count_where}
use renom.Schedules.Cron.{CronFields, parse_field, parse_cron, runs}
use renom.Schedules.Cron.Fields.{IsField, parse_field-IsField}
use renom.Schedules.Cron.NextRun.{
  IsFirst, IsCandidate, fires, next_run, next_run-IsFirst, next_run-eq-none_iff, scan,
}
use renom.Schedules.Cron.Calendar.{utc_minutes, utc_hours, utc_day, utc_month, utc_date}
use renom.Schedules.Task.{
  ScheduleTask, task_effect, command_effect, task_delay, absent, text, command, valid_action,
  valid_command, valid_offset, validate_each, validate_tasks,
}
use renom.Schedules.Accepted.{IsRunnable, validate_tasks-IsRunnable}
use renom.Schedules.Store.{ScheduleRow, Tables, claim_due, claim_once, lock, tasks_of}
use renom.Schedules.Store.Lock.{IsKey, Claimed, claim-excludes}
use renom.Schedules.Run.{run_failed, run_done, State, Host, skips, execute}
use renom.Schedules.Run.Report.{audit-execute, failures_from, outcomes}

quarters : parse_field 0 59 (codes "*/15") ≡ some (0 ∷ 15 ∷ 30 ∷ 45 ∷ [])
unfolding runs
quarters = refl

parse_field-IsField_example : IsField 0 59 (split b',' (codes "*/15")) (0 ∷ 15 ∷ 30 ∷ 45 ∷ [])
parse_field-IsField_example =
    parse_field-IsField 0 59 (codes "*/15") (0 ∷ 15 ∷ 30 ∷ 45 ∷ []) quarters

abbrev nightly : CronFields
nightly = record {
  minute = 30 ∷ [];
  hour = 4 ∷ [];
  dom = 1 ∷ [];
  month = 1 ∷ 2 ∷ [];
  dow = 0 ∷ [];
  dom_is_star = false;
  dow_is_star = false;
}

nightly_text : parse_cron (codes "30 4 1 1,2 0") ≡ some nightly
unfolding runs
nightly_text = refl

-- From 2024-02-29T23:58Z on, for a minute of 59.
abbrev late : CronFields
late = record nightly { minute = 59 ∷ []; hour = 23 ∷ []; dom = 29 ∷ [] }

next_minute_run : next_run late 1709251080000 ≡ some 1709251140000
unfolding next_run scan fires utc_minutes utc_hours utc_day utc_month utc_date
next_minute_run = refl

next_run-IsFirst_example : IsFirst late 1709251080000 1709251140000
next_run-IsFirst_example = next_run-IsFirst late 1709251080000 1709251140000 next_minute_run

next_run-eq-none_iff_example :
    (next_run late 1709251080000 ≡ none)
    ↔ ((u : ℕ) → IsCandidate 1709251080000 u → fires late u ≡ false)
next_run-eq-none_iff_example = next_run-eq-none_iff late 1709251080000

abbrev row : ScheduleRow
row = record {
  id = "c1";
  server_id = "s1";
  name = "nightly";
  cron_expr = codes "30 4 1 1,2 0";
  is_active = 1;
  is_processing = 0;
  only_when_online = 0;
  next_run_at = some 1000;
  last_run_at = none;
  lock_until = 0;
  created_at = 1;
  updated_at = 1;
}

abbrev say : ScheduleTask
say = record {
  action = command;
  power_action = absent;
  command = text (codes "save-all");
  continue_on_failure = absent;
  offset_sec = some (pos 0);
}

abbrev tables : Tables
tables = record { schedules = row ∷ []; tasks = ("c1", say ∷ say ∷ []) ∷ [] }

claimed : Claimed 2000 "c1" tables (record tables { schedules = lock 2000 row ∷ [] })
unfolding claim_due
claimed = inl refl

row-IsKey : IsKey "c1" tables
unfolding count_where
row-IsKey = refl

claim-excludes_example :
    ((claim_due 3000 "c1" (record tables { schedules = lock 2000 row ∷ [] })).1 ≡ false)
    × ((claim_once 3000 "c1" (record tables { schedules = lock 2000 row ∷ [] })).1 ≡ false)
claim-excludes_example = claim-excludes 2000 3000 "c1" tables _ row-IsKey claimed (omega arith)

validate_tasks-IsRunnable_example :
    (1 ≤ length (say ∷ [])) × (length (say ∷ []) ≤ 16) × All (IsRunnable "s1") (say ∷ [])
unfolding validate_tasks validate_each valid_action valid_command valid_offset
validate_tasks-IsRunnable_example = validate_tasks-IsRunnable "s1" (say ∷ []) refl

-- A host on which the first effect throws; the world counts the effects.
abbrev flaky : Host ℕ
flaky = record {
  perform = λ e t w. (not (w == 0), t, w + 1);
  status_of = λ w id. some "ready";
  is_offline = λ w id. false;
  now = λ w. 5000;
}

abbrev begin : State ℕ
begin = record { tables = tables; world = 0; audit = [] }

audit-execute_example : (execute flaky row begin).audit ≡ (
    if skips flaky row 0
    then []
    else []
      ++ failures_from "c1" 0 (outcomes flaky "s1" (tasks_of tables "c1") begin)
      ++ run_done "c1"
          (length (failures_from "c1" 0 (outcomes flaky "s1" (tasks_of tables "c1") begin)))
        ∷ [])
audit-execute_example = audit-execute flaky row begin

stops_at_failure : (execute flaky row begin).audit ≡ run_failed "c1" 0 ∷ run_done "c1" 1 ∷ []
unfolding execute task_effect command_effect task_delay
stops_at_failure = refl
