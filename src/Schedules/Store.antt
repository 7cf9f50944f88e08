-- ===== src/Schedules/Store.antt =====
-- The tables `schedules` and `tasks`, and the statements of runner.ts on them. Times are handed in:
-- the source reads the clock.
pub mod Lock
use renom.Prelude.{
  Bool, List, Option, String, Units, [], false, if◌then◌else◌, keep, leb, none, not, some, str_eq,
  true, ℕ, ◌&&◌, ◌*◌, ◌++◌, ◌+◌, ◌==◌, ◌||◌, ◌∷◌,
}
use renom.Database.Table.{select_first, update_where, count_where}
use renom.Errors.{AppError, bad_request, internal, Result, ok, err, ◌>>=◌, ◌>>◌}
use renom.Schedules.Cron.{CronFields, parse_cron}
use renom.Schedules.Cron.NextRun.{next_run}
use renom.Schedules.Task.{ScheduleTask, validate_tasks}

pub record ScheduleRow : Type 0 where
  pub id : String
  pub server_id : String
  pub name : String
  pub cron_expr : Units
  pub is_active : ℕ
  pub is_processing : ℕ
  pub only_when_online : ℕ
  pub next_run_at : Option ℕ
  pub last_run_at : Option ℕ
  pub lock_until : ℕ
  pub created_at : ℕ
  pub updated_at : ℕ

-- `tasks` holds the tasks of each schedule in the order of `seq`.
pub record Tables : Type 0 where
  pub schedules : List ScheduleRow
  pub tasks : List (String × List ScheduleTask)

abbrev pub lock_ttl_ms : ℕ
lock_ttl_ms = 15 * 60000

abbrev pub has_id : String → ScheduleRow → Bool
has_id id r = str_eq r.id id

unfoldable pub by_id : Tables → String → Option ScheduleRow
unfolding select_first
by_id t id = select_first (has_id id) t.schedules

unfoldable pub find_tasks : String → List (String × List ScheduleTask) → List ScheduleTask
find_tasks id [] = []
find_tasks id ((k, ts) ∷ rest) = if str_eq k id then ts else find_tasks id rest

unfoldable pub tasks_of : Tables → String → List ScheduleTask
unfolding find_tasks
tasks_of t id = find_tasks id t.tasks

-- `next_run_at IS NOT NULL AND next_run_at <= now`.
abbrev pub is_due : ℕ → Option ℕ → Bool
is_due now none = false
is_due now (some t) = leb t now

-- `is_processing = 0 OR lock_until <= now`.
unfoldable pub is_free : ℕ → ScheduleRow → Bool
is_free now r = r.is_processing == 0 || leb r.lock_until now

-- The `WHERE` of the query and of the claim of `runDue`, but for the id.
unfoldable pub is_ready : ℕ → ScheduleRow → Bool
unfolding is_free
is_ready now r = r.is_active == 1 && is_due now r.next_run_at && is_free now r

unfoldable pub lock : ℕ → ScheduleRow → ScheduleRow
lock now r = record r { is_processing = 1; lock_until = now + lock_ttl_ms; updated_at = now }

-- A claim: lock the row with this id if it passes the test. The number of changed rows says whether
-- the claim went through.
unfoldable pub claim : (ScheduleRow → Bool) → ℕ → String → Tables → Tables × Bool
unfolding lock update_where count_where
claim test now id t = (
  record t { schedules = update_where (λ r. has_id id r && test r) (lock now) t.schedules },
  count_where (λ r. has_id id r && test r) t.schedules == 1,
)

unfoldable pub claim_due : ℕ → String → Tables → Tables × Bool
unfolding claim is_ready
claim_due now id t = claim (is_ready now) now id t

unfoldable pub claim_once : ℕ → String → Tables → Tables × Bool
unfolding claim is_free
claim_once now id t = claim (is_free now) now id t

-- `nextRun(parseCron(…), now)` inside `try`.
unfoldable pub next_or_null : Units → ℕ → Option ℕ
next_or_null expr now = elim (parse_cron expr) [ none ↦ none | some f ↦ next_run f now ]

unfoldable pub unlock : Option ℕ → ℕ → ScheduleRow → ScheduleRow
unlock next now r = record r {
  is_processing = 0;
  lock_until = 0;
  last_run_at = some now;
  next_run_at = next;
  updated_at = now;
}

unfoldable pub finalize : ℕ → String → Tables → Tables
unfolding by_id next_or_null unlock update_where
finalize now id t = elim (by_id t id) [
  | none ↦ t
  | some current ↦ record t {
    schedules =
        update_where (has_id id) (unlock (next_or_null current.cron_expr now) now) t.schedules;
  }
]

-- The `finally` of `runOnce`: the clock of the schedule does not advance.
unfoldable pub release : ℕ → String → Tables → Tables
unfolding update_where
release now id t = record t {
  schedules =
      update_where (has_id id)
        (λ r. record r {
          is_processing = 0;
          lock_until = 0;
          last_run_at = some now;
          updated_at = now;
        })
        t.schedules;
}

-- `checkedCron`.
unfoldable pub checked_cron : Units → Result CronFields
checked_cron expr = elim (parse_cron expr) [ none ↦ err bad_request | some f ↦ ok f ]

-- A call of `nextRun` outside `try`: a `CronError` is no `AppError`.
abbrev pub next_run_or_throw : CronFields → ℕ → Result ℕ
next_run_or_throw f now = elim (next_run f now) [ none ↦ err internal | some t ↦ ok t ]

unfoldable pub put_tasks :
    String
    → List ScheduleTask
    → List (String × List ScheduleTask)
    → List (String × List ScheduleTask)
put_tasks id ts [] = (id, ts) ∷ []
put_tasks id ts ((k, old) ∷ rest) =
    let others = put_tasks id ts rest in if str_eq k id then (id, ts) ∷ rest else (k, old) ∷ others

pub record NewSchedule : Type 0 where
  pub name : String
  pub cron_expr : Units
  pub only_when_online : Bool
  pub tasks : List ScheduleTask

abbrev pub flag : Bool → ℕ
flag true = 1
flag false = 0

-- `id` is the fresh key of `ulid`.
unfoldable pub create_schedule : String → String → NewSchedule → ℕ → Tables → Result Tables
unfolding checked_cron put_tasks
create_schedule id server_id input now t = do
  fields ← checked_cron input.cron_expr
  validate_tasks input.tasks
  next ← next_run_or_throw fields now
  ok (record {
    schedules =
        t.schedules
        ++ record {
          id = id;
          server_id = server_id;
          name = input.name;
          cron_expr = input.cron_expr;
          is_active = 1;
          is_processing = 0;
          only_when_online = flag input.only_when_online;
          next_run_at = some next;
          last_run_at = none;
          lock_until = 0;
          created_at = now;
          updated_at = now;
        }
          ∷ [];
    tasks = put_tasks id input.tasks t.tasks;
  })

pub record SchedulePatch : Type 0 where
  pub name : Option String
  pub cron_expr : Option Units
  pub is_active : Option Bool
  pub only_when_online : Option Bool
  pub tasks : Option (List ScheduleTask)

abbrev pub or_else {ℓ} : {A : Type ℓ} → Option A → A → A
or_else none a = a
or_else (some b) a = b

-- The columns that a patch sets, `next` being the run that a new expression gives. `updated_at` is
-- set with any of them.
unfoldable pub patch_row : SchedulePatch → Option ℕ → ℕ → ScheduleRow → ScheduleRow
patch_row p next now r = record r {
  name = or_else p.name r.name;
  cron_expr = or_else p.cron_expr r.cron_expr;
  next_run_at = (elim p.cron_expr [ none ↦ r.next_run_at | some _ ↦ next ]);
  is_active = (elim p.is_active [ none ↦ r.is_active | some b ↦ flag b ]);
  only_when_online = (elim p.only_when_online [ none ↦ r.only_when_online | some b ↦ flag b ]);
  updated_at = now;
}

abbrev given {ℓ} : {A : Type ℓ} → Option A → Bool
given none = false
given (some a) = true

unfoldable pub patched_next : SchedulePatch → ℕ → Result (Option ℕ)
unfolding checked_cron
patched_next p now = elim p.cron_expr [
  | none ↦ ok none
  | some expr ↦ do fields ← checked_cron expr; next ← next_run_or_throw fields now; ok (some next)
]

unfoldable pub patch_tasks : Option (List ScheduleTask) → String → Tables → Result Tables
unfolding put_tasks
patch_tasks none id t = ok t
patch_tasks (some tasks) id t = do
  validate_tasks tasks
  ok (record t { tasks = put_tasks id tasks t.tasks })

unfoldable pub sets_column : SchedulePatch → Bool
sets_column p = given p.name || given p.cron_expr || given p.is_active || given p.only_when_online

-- `updateSchedule`; `none` is the answer for an id that is not there. An error inside the transaction
-- rolls it back, so it leaves no tables.
unfoldable pub update_schedule : String → SchedulePatch → ℕ → Tables → Result (Option Tables)
unfolding by_id patched_next patch_row patch_tasks sets_column update_where
update_schedule id p now t = elim (by_id t id) [
  | none ↦ ok none
  | some current ↦ do
    next ← patched_next p now
    t' ← patch_tasks p.tasks id (
        if sets_column p
        then record t { schedules = update_where (has_id id) (patch_row p next now) t.schedules }
        else t)
    ok (some t')
]

unfoldable pub remove : String → Tables → Tables × Bool
unfolding count_where
remove id t = (
  record {
    schedules = keep (λ r. not (has_id id r)) t.schedules;
    tasks = keep (λ p. not (str_eq p.0 id)) t.tasks;
  },
  count_where (has_id id) t.schedules == 1,
)
