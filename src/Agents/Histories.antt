-- ===== src/Agents/Histories.antt =====
-- The calls of `CollaborationRepository` over any history
-- (capslock/storage/repositories/collaboration.py).
use caps_lock.Prelude.{
  ℕ, ◌≡◌, refl, Bool, true, Option, none, some, List, [], ◌∷◌, String, arith, first, string_eq,
  eq_iff,
}
use caps_lock.Table.{row_count-first}
use caps_lock.Governance.Limits.{Usage}
use caps_lock.Agents.Record.{
  AgentTaskState, AgentAttemptState, Reservation, AgentTask, ParentRun, AgentCheckpoint,
  AgentTables,
}
use caps_lock.Agents.Store.{
  Naming, has_task_id, has_attempt_id, has_run_id, ensure_default_team, create_team, create_worker,
}
use caps_lock.Agents.Creating.{
  AgentTaskContract, TaskOptions, create_task, create_found, create_owned,
}
use caps_lock.Agents.States.{set_state, interrupt_active, stop_worker, checkpoint_attempt}
use caps_lock.Agents.Attempts.{Claim, claim_task, start_attempt}
use caps_lock.Agents.Finishing.{Finish, finish_attempt}
use caps_lock.Agents.Resuming.{resume_attempt, prepare_resume_attempt, newest}
use caps_lock.Agents.Accounts.{parent_run, is_some, IsKeyed, Charges}
use caps_lock.Agents.Accounts.Keeping.{untouched-Charges, Charges-refl, Charges-trans}
use caps_lock.Agents.Accounts.Settling.{finish_attempt-Charges}
use caps_lock.Agents.Accounts.Stepping.{
  create_in-Charges, set_found-Charges, interrupt_active-Charges, claim_found-Charges,
  start_found-Charges, resume_found-Charges, prepare_found-Charges,
}

-- a call of the repository, with what it draws
pub data AgentCall : Type 0 where
  making_default : (session : String) → Option String → ℕ → AgentCall
  making_team : (id : String) → ℕ → (session name : String) → Option String → AgentCall
  making_worker : (id : String) → ℕ → (team name profile mode : String) → Bool → AgentCall
  making_task : AgentTaskContract → TaskOptions → ℕ → AgentCall
  setting : ℕ → (id : String) → AgentTaskState → (child error : Option String) → AgentCall
  restarting : ℕ → AgentCall
  stopping : ℕ → (id : String) → AgentCall
  checkpointing : AgentCheckpoint → AgentCall
  claiming : Claim → (task worker : String) → Option Reservation → Bool → AgentCall
  starting : ℕ → (id : String) → Option String → AgentCall
  finishing : Finish → (id : String) → AgentAttemptState → Option Usage → Option String → AgentCall
  resuming : ℕ → (id : String) → AgentCall
  reopening : ℕ → (task worker sha256 : String) → AgentCall

abbrev pub step : Naming → AgentCall → AgentTables → AgentTables
step names (making_default session run now) s = (ensure_default_team names session run now s).1
step names (making_team id now session name run) s = (create_team names id now session name run s).1
step names (making_worker id now team name profile mode persistent) s =
    (create_worker names id now team name profile mode persistent s).1
step names (making_task c o now) s = (create_task names c o now s).1
step names (setting now id state child error) s = (set_state now id state child error s).1
step names (restarting now) s = (interrupt_active now s).1
step names (stopping now id) s = (stop_worker now id s).1
step names (checkpointing c) s = (checkpoint_attempt c s).1
step names (claiming c task worker reservation account) s =
    (claim_task c task worker reservation account s).1
step names (starting now id child) s = (start_attempt now id child s).1
step names (finishing f id state usage error) s = (finish_attempt f id state usage error s).1
step names (resuming now id) s = (resume_attempt now id s).1
step names (reopening now task worker sha256) s =
    (prepare_resume_attempt now task worker sha256 s).1

unfoldable pub replay : Naming → List AgentCall → AgentTables → AgentTables
unfolding ensure_default_team create_team create_worker create_task set_state interrupt_active
    stop_worker checkpoint_attempt claim_task start_attempt finish_attempt resume_attempt
    prepare_resume_attempt
replay names [] s = s
replay names (call ∷ calls) s = replay names calls (step names call s)

found_owned :
    (id : String) (tasks : List AgentTask) (t : AgentTask)
    → first (has_task_id id) tasks ≡ some t
    → is_some (parent_run tasks t.id) ≡ true
unfolding parent_run
found_owned id tasks t h =
    let same : t.id ≡ id = (eq_iff t.id id).0 (row_count-first (has_task_id id) tasks t h) in
    rw (same, h) refl

module _ (names : Naming) (s : AgentTables) (h : IsKeyed s) where
  -- a call that leaves the runs, the attempts and the tasks
  aside :
      (t : AgentTables)
      → t.runs ≡ s.runs
      → t.attempts ≡ s.attempts
      → t.tasks ≡ s.tasks
      → Charges s t
  aside t runs attempts tasks = untouched-Charges s t h runs attempts (λ id run e. rw tasks e)

  create_owned-Charges :
      (c : AgentTaskContract) (o : TaskOptions) (now : ℕ) (session : String) (team : Option String)
      → Charges s (create_owned names c o now session team s).1
  unfolding ensure_default_team
  create_owned-Charges c o now session (some team) = create_in-Charges s h c o now session team
  create_owned-Charges c o now session none =
      let (team, t) = ensure_default_team names session (some c.parent_run_id) now s in
      let first_part : Charges s t = aside t (ground arith) (ground arith) (ground arith) in
      Charges-trans first_part (create_in-Charges t first_part.keyed c o now session team)

  create_found-Charges :
      (c : AgentTaskContract) (o : TaskOptions) (now : ℕ) (run : Option ParentRun)
      → Charges s (create_found names c o now run s).1
  create_found-Charges c o now none = Charges-refl s h
  create_found-Charges c o now (some run) = create_owned-Charges c o now run.session_id o.team_id

  step-Charges : (call : AgentCall) → Charges s (step names call s)
  unfolding ensure_default_team create_team create_worker set_state create_task stop_worker
      checkpoint_attempt claim_task start_attempt resume_attempt prepare_resume_attempt
  step-Charges (making_default session run now) =
      aside _ (ground arith) (ground arith) (ground arith)
  step-Charges (making_team id now session name run) =
      aside _ (ground arith) (ground arith) (ground arith)
  step-Charges (making_worker id now team name profile mode persistent) =
      aside _ (ground arith) (ground arith) (ground arith)
  step-Charges (making_task c o now) =
      create_found-Charges c o now (first (has_run_id c.parent_run_id) s.runs)
  step-Charges (setting now id state child error) =
      set_found-Charges s h now id state child error (first (has_task_id id) s.tasks)
  step-Charges (restarting now) = interrupt_active-Charges s h now
  step-Charges (stopping now id) = aside _ (ground arith) (ground arith) (ground arith)
  step-Charges (checkpointing c) = aside _ (ground arith) (ground arith) (ground arith)
  step-Charges (claiming c task worker reservation account) =
      claim_found-Charges s h c worker reservation account (first (has_task_id task) s.tasks)
        (found_owned task s.tasks)
  step-Charges (starting now id child) =
      start_found-Charges s h now id child (first (has_attempt_id id) s.attempts)
  step-Charges (finishing f id state usage error) =
      finish_attempt-Charges f id state usage error s h
  step-Charges (resuming now id) =
      resume_found-Charges s h now id (first (has_attempt_id id) s.attempts)
  step-Charges (reopening now task worker sha256) =
      prepare_found-Charges s h now task worker sha256 (first (has_task_id task) s.tasks)
        (newest task s s.attempts)

-- Whatever calls are made on the tables, in whatever order, returning or raising: the tokens and
-- the cost on a run's row grow by exactly what the accounted attempts at its tasks have completed
-- with since, each attempt once, however often it is suspended, resumed, interrupted, reopened or
-- finished again. The attempts have ids of their own and tasks that are there, at the end where
-- they have at the start.
pub replay-Charges :
    (names : Naming) (calls : List AgentCall) (s : AgentTables)
    → IsKeyed s
    → Charges s (replay names calls s)
unfolding replay
replay-Charges names [] s h = Charges-refl s h
replay-Charges names (call ∷ calls) s h =
    let c = step-Charges names s h call in
    Charges-trans c (replay-Charges names calls (step names call s) c.keyed)
