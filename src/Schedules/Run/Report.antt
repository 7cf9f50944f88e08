-- ===== src/Schedules/Run/Report.antt =====
-- What a run leaves in the audit log.
use renom.Prelude.{
  Bool, Bool-cases, List, String, [], ap, append-nil, append_assoc, arith, false, if◌then◌else◌,
  inl, inr, length, refl, sym, true, ℕ, ◌++◌, ◌+◌, ◌==◌, ◌||◌, ◌∙◌, ◌∷◌, ◌≡◌,
}
use renom.Schedules.Task.{ScheduleTask, Effect, refuse, truthy, task_effect, task_delay}
use renom.Schedules.Store.{ScheduleRow, tasks_of}
use renom.Schedules.Run.{
  AuditEntry, run_failed, run_done, State, Host, perform_on, run_effect, run_task, run_tasks, skips,
  execute,
}

-- One report for each task that threw, under the number of the task.
unfoldable pub failures_from : String → ℕ → List Bool → List AuditEntry
failures_from id seq [] = []
failures_from id seq (true ∷ done) = failures_from id (seq + 1) done
failures_from id seq (false ∷ done) = run_failed id seq ∷ failures_from id (seq + 1) done

module _ {W : Type 0} (host : Host W) where
  -- Whether each task that is come to returns: the others are those behind a task that threw and has
  -- no `continueOnFailure`.
  unfoldable pub outcomes : String → List ScheduleTask → State W → List Bool
  outcomes server [] st = []
  outcomes server (task ∷ tasks) st =
      let (done, st') = run_task host server task st in
      let rest = outcomes server tasks st' in
      done ∷ (if done || truthy task.continue_on_failure then rest else [])

  run_effect-audit :
      (e : Effect) (log : List AuditEntry) (st : State W)
      → run_effect host e (record st { audit = log })
        ≡ ((run_effect host e st).0, record (run_effect host e st).1 { audit = log })
  unfolding run_effect perform_on
  run_effect-audit refuse log st = refl
  run_effect-audit _ log st = refl

  -- What a task does is the same whatever the log holds.
  run_task-audit :
      (server : String) (task : ScheduleTask) (log : List AuditEntry) (st : State W)
      → run_task host server task (record st { audit = log }) ≡ (
        (run_task host server task st).0,
        record (run_task host server task st).1 { audit = log },
      )
  unfolding run_task perform_on
  run_task-audit server task log st = elim (Bool-cases (task_delay task.offset_sec == 0)) [
    | inl e ↦ rw (e, run_task) (run_effect-audit (task_effect server task) log st)
    | inr e ↦ rw (e, run_task) (run_effect-audit (task_effect server task) log _)
  ]

  outcomes-audit :
      (server : String) (tasks : List ScheduleTask) (log : List AuditEntry) (st : State W)
      → outcomes server tasks (record st { audit = log }) ≡ outcomes server tasks st
  unfolding outcomes
  outcomes-audit server [] log st = refl
  outcomes-audit server (task ∷ tasks) log st =
      rw (run_task-audit server task log st, outcomes)
        (rw (outcomes-audit server tasks log (run_task host server task st).1) refl)

  audit-run_effect : (e : Effect) (st : State W) → (run_effect host e st).1.audit ≡ st.audit
  unfolding run_effect perform_on
  audit-run_effect refuse st = refl
  audit-run_effect _ st = refl

  audit-run_task :
      (server : String) (task : ScheduleTask) (st : State W)
      → (run_task host server task st).1.audit ≡ st.audit
  unfolding run_task perform_on
  audit-run_task server task st = elim (Bool-cases (task_delay task.offset_sec == 0)) [
    | inl e ↦ rw (e, run_task) (audit-run_effect (task_effect server task) st)
    | inr e ↦ rw (e, run_task) (audit-run_effect (task_effect server task) _)
  ]

  -- What the loop returns and logs, from the outcomes of its tasks.
  abbrev Reported : ScheduleRow → ℕ → ℕ → List ScheduleTask → State W → Type 0
  Reported s seq failed tasks st =
      let fs = failures_from s.id seq (outcomes s.server_id tasks st) in
      ((run_tasks host s seq failed tasks st).1.audit ≡ st.audit ++ fs)
      × ((run_tasks host s seq failed tasks st).0 ≡ failed + length fs)

  run_tasks-Reported :
      (s : ScheduleRow) (seq failed : ℕ) (tasks : List ScheduleTask) (st : State W)
      → Reported s seq failed tasks st
  unfolding run_tasks outcomes failures_from
  run_tasks-Reported s seq failed [] st = (sym (append-nil _), omega arith)
  run_tasks-Reported s seq failed (task ∷ tasks) st =
      let r = run_task host s.server_id task st in
      let same = audit-run_task s.server_id task st in
      let log = r.1.audit ++ run_failed s.id seq ∷ [] in
      let st' : State W = record r.1 { audit = log } in
      let (good, number) = run_tasks-Reported s (seq + 1) failed tasks r.1 in
      let (bad, more) = run_tasks-Reported s (seq + 1) (failed + 1) tasks st' in
      let after = outcomes-audit s.server_id tasks log r.1 in
      let behind = failures_from s.id (seq + 1) (outcomes s.server_id tasks r.1) in
      elim (Bool-cases r.0) [
        | inl e ↦ rw e (good ∙ ap (λ a. a ++ behind) same, number)
        | inr e ↦ elim (Bool-cases (truthy task.continue_on_failure)) [
          | inl c ↦
              rw (e, c)
                (
                  bad
                      ∙ append_assoc r.1.audit (run_failed s.id seq ∷ [])
                          (failures_from s.id (seq + 1) (outcomes s.server_id tasks st'))
                      ∙ ap (λ l. r.1.audit ++ run_failed s.id seq ∷ failures_from s.id (seq + 1) l)
                          after
                      ∙ ap (λ a. a ++ run_failed s.id seq ∷ behind) same,
                  omega (arith, more, ap (λ l. length (failures_from s.id (seq + 1) l)) after),
                )
          | inr c ↦ rw (e, c) (ap (λ a. a ++ run_failed s.id seq ∷ []) same, omega arith)
        ]
      ]

  -- A run that is not skipped adds to the log one `schedule.run.failed` with its number for each task
  -- that was come to and threw, in order, and then `schedule.run` with the count of these; nothing
  -- is come to behind a task that threw and has no `continueOnFailure`. A skipped run adds nothing.
  pub audit-execute :
      (s : ScheduleRow) (st : State W)
      → (execute host s st).audit ≡ (
          if skips host s st.world
          then st.audit
          else st.audit
            ++ failures_from s.id 0 (outcomes s.server_id (tasks_of st.tables s.id) st)
            ++ run_done s.id
                (length (failures_from s.id 0 (outcomes s.server_id (tasks_of st.tables s.id) st)))
              ∷ [])
  unfolding execute
  audit-execute s st =
      let fs = failures_from s.id 0 (outcomes s.server_id (tasks_of st.tables s.id) st) in
      let (log, number) = run_tasks-Reported s 0 0 (tasks_of st.tables s.id) st in
      elim (Bool-cases (skips host s st.world)) [
        | inl e ↦ rw (e, execute) refl
        | inr e ↦
            rw (e, execute)
              (rw (number)
                (ground (arith, log, append_assoc st.audit fs (run_done s.id (length fs) ∷ []))))
      ]
