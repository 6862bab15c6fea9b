-- ===== src/Agents/Resuming.antt =====
-- The attempts that go on (capslock/storage/repositories/collaboration.py): resume_attempt and
-- prepare_resume_attempt.
use caps_lock.Prelude.{
  ℕ, Bool, true, false, not, ◌&&◌, ◌||◌, Option, none, some, List, [], ◌∷◌, String, if◌then◌else◌,
  leb, nat_eq, first, ◌==◌, string_eq, return, raise,
}
use caps_lock.Table.{update_where, row_count}
use caps_lock.Agents.Record.{
  AgentTaskState, AgentWorkerState, interrupted, AgentAttemptState, AgentTask, AgentWorker,
  AgentAttempt, AgentCheckpoint, AgentTables, eq_task,
}
use caps_lock.Agents.Store.{
  Collaborating, has_task_id, has_worker_id, has_attempt_id, not_suspended, no_interrupted,
  foreign_attempt, not_interrupted, worker_not_interrupted, contract_changed, not_resumable,
  resume_changed,
}
use caps_lock.Agents.States.{in_state, has_checkpoint}
use caps_lock.Agents.Attempts.{attempt_in, eq_attempt, on_worker, in_worker_state}

abbrev pub reopen_attempt : AgentAttemptState → AgentAttempt → AgentAttempt
reopen_attempt state a = record a { state = state; error = none; finished_at = none }

abbrev pub reopen_task : AgentTaskState → AgentTask → AgentTask
reopen_task state t = record t { state = state; error = none; finished_at = none }

abbrev pub resume_rows : ℕ → (id : String) → AgentAttempt → AgentTables → AgentTables
resume_rows now id a s = record s {
  attempts =
      update_where (attempt_in id AgentAttemptState.suspended)
        (reopen_attempt AgentAttemptState.running) s.attempts;
  tasks =
      update_where (in_state a.task_id AgentTaskState.waiting_approval)
        (reopen_task AgentTaskState.running) s.tasks;
  workers = on_worker a.worker_id (in_worker_state AgentWorkerState.running now) s.workers;
}

abbrev pub resume_found : ℕ → (id : String) → Option AgentAttempt → Collaborating Unit
resume_found now id none s = (raise not_suspended, s)
resume_found now id (some a) s =
    if not (eq_attempt a.state AgentAttemptState.suspended)
    then (raise not_suspended, s)
    else (return tt, resume_rows now id a s)

unfoldable pub resume_attempt : ℕ → (id : String) → Collaborating Unit
unfolding update_where
resume_attempt now id s = resume_found now id (first (has_attempt_id id) s.attempts) s

-- a row of the join: an attempt and its worker
abbrev joined : String → AgentTables → AgentAttempt → Option (AgentAttempt × AgentWorker)
joined task s a = elim a.worker_id [
  | none ↦ none
  | some id ↦
      if a.task_id == task
      then elim (first (has_worker_id id) s.workers) [ none ↦ none | some w ↦ some (a, w) ]
      else none
]

abbrev newer :
    Option (AgentAttempt × AgentWorker)
    → Option (AgentAttempt × AgentWorker)
    → Option (AgentAttempt × AgentWorker)
newer none b = b
newer a none = a
newer (some a) (some b) = if leb b.0.ordinal a.0.ordinal then some a else some b

-- ORDER BY a.ordinal DESC LIMIT 1
abbrev pub newest : String → AgentTables → List AgentAttempt → Option (AgentAttempt × AgentWorker)
newest task s [] = none
newest task s (a ∷ rows) = newer (joined task s a) (newest task s rows)

abbrev is_given : Option String → Bool
is_given none = false
is_given (some text) = not (text == "")

abbrev is_worker : String → Option String → Bool
is_worker worker none = false
is_worker worker (some id) = id == worker

abbrev is_resumable : String → Option AgentCheckpoint → Bool
is_resumable sha256 none = false
is_resumable sha256 (some c) =
    c.resumable && is_given c.child_session_id && c.contract_sha256 == sha256

abbrev is_interrupted_worker : AgentWorkerState → Bool
is_interrupted_worker interrupted = true
is_interrupted_worker _ = false

abbrev pub assigned_in : String → String → AgentTask → Bool
assigned_in id worker t =
    in_state id AgentTaskState.interrupted t && is_worker worker t.assigned_worker_id

abbrev worker_in : String → AgentWorker → Bool
worker_in id w = has_worker_id id w && is_interrupted_worker w.state

abbrev restart : Option AgentCheckpoint → ℕ → AgentWorker → AgentWorker
restart none now w = w
restart (some c) now w = record w {
  state = AgentWorkerState.starting;
  child_session_id = c.child_session_id;
  updated_at = now;
}

pub record Resumption : Type 0 where
  pub attempt_id : String
  pub checkpoint : Option AgentCheckpoint

abbrev pub reopen_rows :
    ℕ → (task worker : String) → AgentAttempt → Option AgentCheckpoint → AgentTables → AgentTables
reopen_rows now task worker a c s = record s {
  attempts =
      update_where (attempt_in a.id AgentAttemptState.interrupted)
        (reopen_attempt AgentAttemptState.created) s.attempts;
  tasks = update_where (assigned_in task worker) (reopen_task AgentTaskState.claimed) s.tasks;
  workers = update_where (worker_in worker) (restart c now) s.workers;
}

-- the three updates, of which each must write one row
abbrev pub reopen :
    ℕ → (task worker : String) → AgentAttempt → Option AgentCheckpoint → Collaborating Resumption
reopen now task worker a c s =
    if not (nat_eq (row_count (attempt_in a.id AgentAttemptState.interrupted) s.attempts) 1)
      || not (nat_eq (row_count (assigned_in task worker) s.tasks) 1)
      || not (nat_eq (row_count (worker_in worker) s.workers) 1)
    then (raise resume_changed, s)
    else (return (record { attempt_id = a.id; checkpoint = c }), reopen_rows now task worker a c s)

abbrev pub reopen_checked :
    ℕ
    → (task worker sha256 : String) → AgentTask
    → AgentAttempt
    → AgentWorker
    → Option AgentCheckpoint
    → Collaborating Resumption
reopen_checked now task worker sha256 t a w c s =
    if not (is_worker worker a.worker_id) || not (is_worker worker t.assigned_worker_id)
    then (raise foreign_attempt, s)
    else if not (eq_task t.state AgentTaskState.interrupted)
        || not (eq_attempt a.state AgentAttemptState.interrupted)
    then (raise not_interrupted, s)
    else if not (is_interrupted_worker w.state)
    then (raise worker_not_interrupted, s)
    else if not (t.contract_sha256 == sha256)
    then (raise contract_changed, s)
    else if not (is_resumable sha256 c)
    then (raise not_resumable, s)
    else reopen now task worker a c s

abbrev pub prepare_found :
    ℕ
    → (task worker sha256 : String) → Option AgentTask
    → Option (AgentAttempt × AgentWorker)
    → Collaborating Resumption
prepare_found now task worker sha256 (some t) (some (a, w)) s =
    reopen_checked now task worker sha256 t a w (first (has_checkpoint a.id) s.checkpoints) s
prepare_found now task worker sha256 _ _ s = (raise no_interrupted, s)

unfoldable pub prepare_resume_attempt : ℕ → (task worker sha256 : String) → Collaborating Resumption
unfolding update_where row_count
prepare_resume_attempt now task worker sha256 s =
    prepare_found now task worker sha256 (first (has_task_id task) s.tasks)
      (newest task s s.attempts) s
