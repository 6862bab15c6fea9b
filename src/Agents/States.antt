-- ===== src/Agents/States.antt =====
-- The states of agent tasks and workers (capslock/storage/repositories/collaboration.py): set_state,
-- interrupt_active, stop_worker and checkpoint_attempt.
use caps_lock.Prelude.{
  ℕ, Bool, true, false, not, ◌&&◌, Option, none, some, List, [], ◌∷◌, ◌++◌, String, if◌then◌else◌,
  nat_eq, first, any, ◌==◌, string_eq, return, raise,
}
use caps_lock.Table.{update_where, row_count}
use caps_lock.Agents.Record.{
  AgentTaskState, created, blocked, ready, claimed, running, waiting_approval, completed, failed,
  cancelled, interrupted, AgentWorkerState, AgentAttemptState, AgentTask, AgentWorker, AgentAttempt,
  AgentCheckpoint, AgentTables, is_active_task, is_active_attempt, is_active_worker, is_stopped,
  eq_task,
}
use caps_lock.Agents.Store.{
  Collaborating, has_task_id, has_worker_id, has_attempt_id, no_child, invalid_transition,
  changed_concurrently, no_worker, no_attempt,
}

abbrev pub coalesce : {A : Type 0} → Option A → Option A → Option A
coalesce none b = b
coalesce (some a) b = some a

-- `allowed`
abbrev pub allowed : (current state : AgentTaskState) → Bool
allowed created created = false
allowed created waiting_approval = false
allowed created completed = false
allowed created _ = true
allowed blocked ready = true
allowed blocked cancelled = true
allowed blocked interrupted = true
allowed ready claimed = true
allowed ready cancelled = true
allowed ready interrupted = true
allowed claimed running = true
allowed claimed cancelled = true
allowed claimed interrupted = true
allowed running waiting_approval = true
allowed running completed = true
allowed running failed = true
allowed running cancelled = true
allowed running interrupted = true
allowed waiting_approval running = true
allowed waiting_approval completed = true
allowed waiting_approval failed = true
allowed waiting_approval cancelled = true
allowed waiting_approval interrupted = true
allowed _ _ = false

abbrev started : AgentTaskState → ℕ → Option ℕ
started running now = some now
started _ now = none

abbrev finished : AgentTaskState → ℕ → Option ℕ
finished completed now = some now
finished failed now = some now
finished cancelled now = some now
finished interrupted now = some now
finished _ now = none

abbrev pub with_state : AgentTaskState → (child error : Option String) → ℕ → AgentTask → AgentTask
with_state state child error now t = record t {
  state = state;
  child_run_id = coalesce child t.child_run_id;
  error = error;
  started_at = coalesce t.started_at (started state now);
  finished_at = coalesce (finished state now) t.finished_at;
}

abbrev pub in_state : String → AgentTaskState → AgentTask → Bool
in_state id current t = has_task_id id t && eq_task t.state current

abbrev pub set_found :
    ℕ
    → (id : String) → AgentTaskState
    → (child error : Option String) → Option AgentTask
    → Collaborating Unit
set_found now id state child error none s = (raise no_child, s)
set_found now id state child error (some task) s =
    if not (eq_task task.state state) && not (allowed task.state state)
    then (raise invalid_transition, s)
    else if nat_eq (row_count (in_state id task.state) s.tasks) 0
    then (raise changed_concurrently, s)
    else (
      return tt,
      record s {
        tasks = update_where (in_state id task.state) (with_state state child error now) s.tasks;
      },
    )

unfoldable pub set_state :
    ℕ → (id : String) → AgentTaskState → (child error : Option String) → Collaborating Unit
unfolding update_where row_count
set_state now id state child error s =
    set_found now id state child error (first (has_task_id id) s.tasks) s

abbrev pub restart_error : Option String
restart_error = some "interrupted during process restart"

abbrev pub interrupt_task : ℕ → AgentTask → AgentTask
interrupt_task now t = record t {
  state = interrupted;
  error = restart_error;
  finished_at = some now;
}

abbrev pub interrupt_attempt : ℕ → AgentAttempt → AgentAttempt
interrupt_attempt now a = record a {
  state = AgentAttemptState.interrupted;
  error = restart_error;
  finished_at = some now;
}

abbrev interrupt_worker : ℕ → AgentWorker → AgentWorker
interrupt_worker now w = record w { state = AgentWorkerState.interrupted; updated_at = now }

-- interrupt_active; its result is the count of the last statement, the workers
unfoldable pub interrupt_active : ℕ → AgentTables → ℕ × AgentTables
unfolding update_where row_count
interrupt_active now s = (
  row_count (λ (w : AgentWorker). is_active_worker w.state) s.workers,
  record s {
    tasks = update_where (λ (t : AgentTask). is_active_task t.state) (interrupt_task now) s.tasks;
    attempts =
        update_where (λ (a : AgentAttempt). is_active_attempt a.state) (interrupt_attempt now)
          s.attempts;
    workers =
        update_where (λ (w : AgentWorker). is_active_worker w.state) (interrupt_worker now)
          s.workers;
  },
)

abbrev is_live : String → AgentWorker → Bool
is_live id w = has_worker_id id w && not (is_stopped w.state)

abbrev stop : ℕ → AgentWorker → AgentWorker
stop now w = record w { state = AgentWorkerState.stopped; updated_at = now; stopped_at = some now }

unfoldable pub stop_worker : ℕ → (id : String) → Collaborating Unit
unfolding update_where row_count
stop_worker now id s =
    if nat_eq (row_count (is_live id) s.workers) 0
    then (raise no_worker, s)
    else (return tt, record s { workers = update_where (is_live id) (stop now) s.workers })

abbrev pub has_checkpoint : String → AgentCheckpoint → Bool
has_checkpoint id c = c.attempt_id == id

-- INSERT … ON CONFLICT(attempt_id) DO UPDATE
abbrev upsert : AgentCheckpoint → List AgentCheckpoint → List AgentCheckpoint
unfolding update_where
upsert c rows =
    if any (has_checkpoint c.attempt_id) rows
    then update_where (has_checkpoint c.attempt_id) (λ _. c) rows
    else rows ++ c ∷ []

abbrev in_session : (child : String) → ℕ → AgentWorker → AgentWorker
in_session child now w = record w { child_session_id = some child; updated_at = now }

abbrev seated : Option String → Option String → ℕ → List AgentWorker → List AgentWorker
unfolding update_where
seated (some worker) (some child) now rows =
    update_where (has_worker_id worker) (in_session child now) rows
seated _ _ now rows = rows

-- checkpoint_attempt; the row carries the time of the call
unfoldable pub checkpoint_attempt : AgentCheckpoint → Collaborating Unit
unfolding update_where
checkpoint_attempt c s = elim (first (has_attempt_id c.attempt_id) s.attempts) [
  | none ↦ (raise no_attempt, s)
  | some a ↦ (
    return tt,
    record s {
      checkpoints = upsert c s.checkpoints;
      workers = seated a.worker_id c.child_session_id c.updated_at s.workers;
    },
  )
]
