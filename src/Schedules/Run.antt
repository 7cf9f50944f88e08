-- ===== src/Schedules/Run.antt =====
-- `execute`, `runTask`, `runDue` and `runOnce` of runner.ts. What the engine and the backups do, and
-- what others do to the tables while a task runs, is the parameter `perform` of a `Host`.
pub mod Report
use mathlib.Core.Option
use renom.Prelude.{
  Bool, List, Option, String, [], false, if◌then◌else◌, leb, none, some, str_eq, true, ℕ, ◌&&◌,
  ◌++◌, ◌+◌, ◌==◌, ◌||◌, ◌∷◌,
}
use renom.Database.Table.{select_first}
use renom.Errors.{AppError, bad_request, Result, ok, err}
use renom.Schedules.Task.{ScheduleTask, Effect, wait, refuse, task_effect, task_delay, truthy}
use renom.Schedules.Store.{
  ScheduleRow, Tables, has_id, by_id, tasks_of, is_ready, claim_due, claim_once, finalize, release,
}

-- `schedule.run.failed` with the task's number, and `schedule.run` with the number of failures.
pub data AuditEntry : Type 0 where
  run_failed : String → ℕ → AuditEntry
  run_done : String → ℕ → AuditEntry

pub record State (W : Type 0) : Type 0 where
  pub tables : Tables
  pub world : W
  pub audit : List AuditEntry

-- `perform` is `true` if the effect returns and `false` if it throws.
pub record Host (W : Type 0) : Type 0 where
  pub perform : Effect → Tables → W → Bool × Tables × W
  -- `servers.byId(id)?.status`
  pub status_of : W → String → Option String
  -- `engine.stateOf(id) === "offline"`
  pub is_offline : W → String → Bool
  pub now : W → ℕ

module _ {W : Type 0} (host : Host W) where
  -- One effect, on the state.
  unfoldable pub perform_on : Effect → State W → Bool × State W
  perform_on e st =
      let r = host.perform e st.tables st.world in (r.0, record st { tables = r.1; world = r.2 })

  unfoldable pub run_effect : Effect → State W → Bool × State W
  unfolding perform_on
  run_effect refuse st = (false, st)
  run_effect e st = perform_on e st

  -- The timer before the task does not throw.
  unfoldable pub run_task : String → ScheduleTask → State W → Bool × State W
  unfolding run_effect
  run_task server task st =
      let waited = (perform_on (wait (task_delay task.offset_sec)) st).1 in
      run_effect (task_effect server task) (if task_delay task.offset_sec == 0 then st else waited)

  abbrev record_audit : AuditEntry → State W → State W
  record_audit a st = record st { audit = st.audit ++ a ∷ [] }

  -- The loop over the tasks from number `seq` on, with the failures so far.
  unfoldable pub run_tasks : ScheduleRow → ℕ → ℕ → List ScheduleTask → State W → ℕ × State W
  unfolding run_task
  run_tasks s seq failed [] st = (failed, st)
  run_tasks s seq failed (task ∷ tasks) st =
      let (done, st') = run_task s.server_id task st in
      let st'' = record_audit (run_failed s.id seq) st' in
      let after_success = run_tasks s (seq + 1) failed tasks st' in
      let after_failure = run_tasks s (seq + 1) (failed + 1) tasks st'' in
      if done
      then after_success
      else if truthy task.continue_on_failure
      then after_failure
      else (failed + 1, st'')

  -- `!server || server.status === "suspended"`, or the schedule wants a server that is on.
  unfoldable pub skips : ScheduleRow → W → Bool
  skips s w =
      (elim (host.status_of w s.server_id) [ none ↦ true | some st ↦ str_eq st "suspended" ])
      || (s.only_when_online == 1 && host.is_offline w s.server_id)

  unfoldable pub execute : ScheduleRow → State W → State W
  unfolding run_tasks skips tasks_of
  execute s st =
      let r = run_tasks s 0 0 (tasks_of st.tables s.id) st in
      if skips s st.world then st else record_audit (run_done s.id r.0) r.1

  -- The loop over the rows that the query of `runDue` returned.
  unfoldable pub run_rows : ℕ → List ScheduleRow → ℕ → State W → ℕ × State W
  unfolding claim_due execute finalize
  run_rows now [] ran st = (ran, st)
  run_rows now (s ∷ due) ran st =
      let claimed = claim_due now s.id st.tables in
      let st' = execute s (record st { tables = claimed.0 }) in
      let next =
        run_rows now due (ran + 1)
          (record st' { tables = finalize (host.now st'.world) s.id st'.tables }) in
      let rest = run_rows now due ran (record st { tables = claimed.0 }) in
      if claimed.1 then next else rest

  -- `ORDER BY next_run_at`, which is not null in these rows.
  unfoldable pub insert_due : ScheduleRow → List ScheduleRow → List ScheduleRow
  insert_due s [] = s ∷ []
  insert_due s (r ∷ rs) =
      let rest = insert_due s rs in
      if leb (Option.get_or s.next_run_at 0) (Option.get_or r.next_run_at 0)
      then s ∷ r ∷ rs
      else r ∷ rest

  unfoldable pub due_rows : ℕ → List ScheduleRow → List ScheduleRow
  unfolding insert_due is_ready
  due_rows now [] = []
  due_rows now (r ∷ rs) =
      let rest = due_rows now rs in if is_ready now r then insert_due r rest else rest

  unfoldable pub run_due : ℕ → State W → ℕ × State W
  unfolding run_rows due_rows
  run_due now st = run_rows now (due_rows now st.tables.schedules) 0 st

  unfoldable pub run_once : String → State W → Result (State W)
  unfolding claim_once execute release by_id
  run_once id st = elim (by_id st.tables id) [
    | none ↦ err bad_request
    | some s ↦
        let claimed = claim_once (host.now st.world) id st.tables in
        let st' = execute s (record st { tables = claimed.0 }) in
        if claimed.1
        then ok (record st' { tables = release (host.now st'.world) id st'.tables })
        else err bad_request
  ]
