-- ===== src/Agents/Dependencies.antt =====
-- The dependencies between agent tasks over any history of the calls
-- (capslock/storage/repositories/collaboration.py).
use mathlib.Core.Path.{subst}
use caps_lock.Prelude.{
  ℕ, suc, ◌≡◌, ◌⊎◌, refl, sym, ap, ◌∙◌, Bool, false, Option, none, some, List, [], ◌∷◌, String,
  arith, any, length, first, inl, inr, ◌==◌, string_eq,
}
use caps_lock.Table.{update_where}
use caps_lock.Governance.Limits.{Usage}
use caps_lock.Agents.Record.{
  AgentTaskState, AgentAttemptState, Reservation, AgentTask, AgentAttempt, AgentWorker, AgentTables,
  is_active_task,
}
use caps_lock.Agents.Store.{
  Naming, has_task_id, has_attempt_id, ensure_default_team, create_team, create_worker,
}
use caps_lock.Agents.Creating.{ancestors, dependency_cycle}
use caps_lock.Agents.States.{
  set_state, set_found, interrupt_active, interrupt_task, stop_worker, checkpoint_attempt, in_state,
  with_state, has_checkpoint,
}
use caps_lock.Agents.Attempts.{
  Claim, claim_task, claim_found, claim_row, claim_rows, start_attempt, start_found, start_rows,
  run_row,
}
use caps_lock.Agents.Finishing.{
  Finish, finish_attempt, finish_found, finish_joined, close_attempt, close_task,
}
use caps_lock.Agents.Resuming.{
  resume_attempt, resume_found, resume_rows, reopen_task, assigned_in, prepare_resume_attempt,
  prepare_found, newest, reopen_rows,
}
use caps_lock.Agents.Acyclic.{IsAcyclic, any-update_where, kept-IsAcyclic, moved_aside}
use caps_lock.Agents.Acyclic.Creating.{create_task-Fine}
use caps_lock.Agents.Histories.{
  AgentCall, making_default, making_team, making_worker, making_task, setting, restarting, stopping,
  checkpointing, claiming, starting, finishing, resuming, reopening, step, replay,
}

module _ (s : AgentTables) (h : IsAcyclic s) where
  either : (t u : AgentTables) → (u ≡ s) ⊎ (u ≡ t) → IsAcyclic t → IsAcyclic u
  either t u (inl e) k = subst IsAcyclic (sym e) h
  either t u (inr e) k = subst IsAcyclic (sym e) k

  -- an update of the tasks that keeps their ids
  updated :
      (t : AgentTables) (p : AgentTask → Bool) (g : AgentTask → AgentTask)
      → t.tasks ≡ update_where p g s.tasks
      → t.dependencies ≡ s.dependencies
      → ((r : AgentTask) → (g r).id ≡ r.id)
      → IsAcyclic t
  updated t p g tasks deps same =
      kept-IsAcyclic s t h
        (λ id. ap (any (has_task_id id)) tasks ∙ any-update_where id p g same s.tasks) deps

  set_found-IsAcyclic :
      (now : ℕ) (id : String) (state : AgentTaskState) (child error : Option String)
      (t : Option AgentTask)
      → IsAcyclic (set_found now id state child error t s).1
  set_found-IsAcyclic now id state child error none = h
  set_found-IsAcyclic now id state child error (some t) =
      let g : AgentTask → AgentTask = with_state state child error now in
      let v : AgentTables = record s { tasks = update_where (in_state id t.state) g s.tasks } in
      either v _ (ground arith) (updated v (in_state id t.state) g refl refl (λ r. refl))

  claim_found-IsAcyclic :
      (c : Claim) (worker : String) (reservation : Option Reservation) (account : Bool)
      (t : Option AgentTask)
      → IsAcyclic (claim_found c worker reservation account t s).1
  claim_found-IsAcyclic c worker reservation account none = h
  claim_found-IsAcyclic c worker reservation account (some t) =
      let v : AgentTables = claim_rows c worker reservation account t s in
      either v _ (ground arith) (
        updated v (in_state t.id t.state) (claim_row c worker (suc t.attempt_count)) refl refl
          (λ r. refl))

  start_found-IsAcyclic :
      (now : ℕ) (id : String) (child : Option String) (a : Option AgentAttempt)
      → IsAcyclic (start_found now id child a s).1
  start_found-IsAcyclic now id child none = h
  start_found-IsAcyclic now id child (some a) =
      let v : AgentTables = start_rows now id child a s in
      either v _ (ground arith)
        (updated v (has_task_id a.task_id) (run_row child) refl refl (λ r. refl))

  finish_found-IsAcyclic :
      (f : Finish) (id : String) (state : AgentAttemptState) (usage : Option Usage)
      (error : Option String) (a : AgentAttempt) (t : Option AgentTask)
      → IsAcyclic (finish_joined f id state usage error a t s).1
  finish_found-IsAcyclic f id state usage error a none = h
  finish_found-IsAcyclic f id state usage error a (some t) =
      let v : AgentTables = close_attempt f id state usage error a t s in
      either v _ (ground arith)
        (updated v (has_task_id a.task_id) (close_task state error f.now) refl refl (λ r. refl))

  finish_attempt-IsAcyclic :
      (f : Finish) (id : String) (state : AgentAttemptState) (usage : Option Usage)
      (error : Option String) (a : Option AgentAttempt)
      → IsAcyclic (finish_found f id state usage error a s).1
  finish_attempt-IsAcyclic f id state usage error none = h
  finish_attempt-IsAcyclic f id state usage error (some a) =
      finish_found-IsAcyclic f id state usage error a (first (has_task_id a.task_id) s.tasks)

  resume_found-IsAcyclic :
      (now : ℕ) (id : String) (a : Option AgentAttempt) → IsAcyclic (resume_found now id a s).1
  resume_found-IsAcyclic now id none = h
  resume_found-IsAcyclic now id (some a) =
      let v : AgentTables = resume_rows now id a s in
      either v _ (ground arith) (
        updated v (in_state a.task_id AgentTaskState.waiting_approval)
          (reopen_task AgentTaskState.running) refl refl (λ r. refl))

  prepare_found-IsAcyclic :
      (now : ℕ) (task worker sha256 : String) (t : Option AgentTask)
      (row : Option (AgentAttempt × AgentWorker))
      → IsAcyclic (prepare_found now task worker sha256 t row s).1
  prepare_found-IsAcyclic now task worker sha256 none row = h
  prepare_found-IsAcyclic now task worker sha256 (some t) none = h
  prepare_found-IsAcyclic now task worker sha256 (some t) (some (a, w)) =
      let v : AgentTables =
        reopen_rows now task worker a (first (has_checkpoint a.id) s.checkpoints) s in
      either v _ (ground arith) (
        updated v (assigned_in task worker) (reopen_task AgentTaskState.claimed) refl refl
          (λ r. refl))

  step-IsAcyclic : (names : Naming) (call : AgentCall) → IsAcyclic (step names call s)
  unfolding ensure_default_team create_team create_worker set_state interrupt_active stop_worker
      checkpoint_attempt claim_task start_attempt finish_attempt resume_attempt
      prepare_resume_attempt
  step-IsAcyclic names (making_default session run now) =
      moved_aside s _ h (ground arith) (ground arith)
  step-IsAcyclic names (making_team id now session name run) =
      moved_aside s _ h (ground arith) (ground arith)
  step-IsAcyclic names (making_worker id now team name profile mode persistent) =
      moved_aside s _ h (ground arith) (ground arith)
  step-IsAcyclic names (making_task c o now) = (create_task-Fine names c o now s h).1
  step-IsAcyclic names (setting now id state child error) =
      set_found-IsAcyclic now id state child error (first (has_task_id id) s.tasks)
  step-IsAcyclic names (restarting now) =
      updated _ (λ t. is_active_task t.state) (interrupt_task now) refl refl (λ r. refl)
  step-IsAcyclic names (stopping now id) = moved_aside s _ h (ground arith) (ground arith)
  step-IsAcyclic names (checkpointing c) = moved_aside s _ h (ground arith) (ground arith)
  step-IsAcyclic names (claiming c task worker reservation account) =
      claim_found-IsAcyclic c worker reservation account (first (has_task_id task) s.tasks)
  step-IsAcyclic names (starting now id child) =
      start_found-IsAcyclic now id child (first (has_attempt_id id) s.attempts)
  step-IsAcyclic names (finishing f id state usage error) =
      either (finish_found f id state usage error (first (has_attempt_id id) s.attempts) s).1 _
        (ground arith)
        (finish_attempt-IsAcyclic f id state usage error (first (has_attempt_id id) s.attempts))
  step-IsAcyclic names (resuming now id) =
      resume_found-IsAcyclic now id (first (has_attempt_id id) s.attempts)
  step-IsAcyclic names (reopening now task worker sha256) =
      prepare_found-IsAcyclic now task worker sha256 (first (has_task_id task) s.tasks)
        (newest task s s.attempts)

replay-IsAcyclic :
    (names : Naming) (calls : List AgentCall) (s : AgentTables)
    → IsAcyclic s
    → IsAcyclic (replay names calls s)
unfolding replay
replay-IsAcyclic names [] s h = h
replay-IsAcyclic names (call ∷ calls) s h =
    replay-IsAcyclic names calls (step names call s) (step-IsAcyclic s h names call)

-- Whatever calls are made on tables in which tasks depend on tasks that are there and on no chain
-- that returns, in whatever order, returning or raising: the search for a cycle finds none from any
-- task, and would find none after any number of rounds.
pub replay-dependency_cycle :
    (names : Naming) (calls : List AgentCall) (s : AgentTables) (id : String) (n : ℕ)
    → IsAcyclic s
    → (dependency_cycle id (replay names calls s).dependencies ≡ false)
      × (any (λ other. id == other) (ancestors n id (replay names calls s).dependencies) ≡ false)
unfolding dependency_cycle
replay-dependency_cycle names calls s id n h =
    let t = replay names calls s in
    let k = replay-IsAcyclic names calls s h in
    (k.acyclic (length t.dependencies) id, k.acyclic n id)
