-- ===== src/Agents/Attempts.antt =====
-- The attempts at agent tasks (capslock/storage/repositories/collaboration.py): claim_task,
-- start_attempt and finish_attempt.
use caps_lock.Prelude.{
  ℕ, suc, Bool, true, false, not, ◌&&◌, ◌||◌, Option, none, some, List, [], ◌∷◌, ◌++◌, String,
  if◌then◌else◌, nat_eq, first, any, ◌==◌, string_eq, return, raise,
}
use caps_lock.Table.{update_where, row_count}
use caps_lock.Agents.Record.{
  AgentTaskState, AgentWorkerState, AgentAttemptState, created, running, suspended, completed,
  failed, cancelled, interrupted, reserve, Reservation, reserved, AgentTask, AgentWorker,
  AgentAttempt, Dependency, LedgerRow, AgentTables, is_completed, is_claimable, is_stopped,
}
use caps_lock.Agents.Store.{
  Collaborating, has_task_id, has_worker_id, has_attempt_id, no_task, foreign_worker, not_claimable,
  not_completed, changed_concurrently, not_startable, integrity,
}
use caps_lock.Agents.States.{in_state, coalesce}

-- the ids of a claim, and the time of it
pub record Claim : Type 0 where
  pub token : String
  pub attempt_id : String
  pub budget_id : String
  -- f"reserve:{attempt_id}"
  pub key : String
  pub now : ℕ

-- the rows of the join are not completed
abbrev pub incomplete : AgentTables → String → Dependency → Bool
incomplete s task d =
    d.task_id == task
    && any (λ (p : AgentTask). has_task_id d.blocked_by_task_id p && not (is_completed p.state))
        s.tasks

abbrev pub is_member : AgentTables → (worker team : String) → Bool
is_member s worker team =
    any (λ w. has_worker_id worker w && not (is_stopped w.state) && w.team_id == team) s.workers

abbrev pub claim_row : Claim → (worker : String) → ℕ → AgentTask → AgentTask
claim_row c worker ordinal t = record t {
  state = AgentTaskState.claimed;
  assigned_worker_id = some worker;
  claim_token = some c.token;
  attempt_count = ordinal;
}

abbrev pub new_attempt :
    Claim → (task worker : String) → ℕ → Option Reservation → Bool → AgentAttempt
new_attempt c task worker ordinal reservation account = record {
  id = c.attempt_id;
  task_id = task;
  worker_id = some worker;
  ordinal = ordinal;
  state = created;
  claim_token = c.token;
  child_run_id = none;
  reservation = reservation;
  account_usage = account;
  usage = none;
  error = none;
  created_at = c.now;
  started_at = none;
  finished_at = none;
}

abbrev pub in_worker_state : AgentWorkerState → ℕ → AgentWorker → AgentWorker
in_worker_state state now w = record w { state = state; updated_at = now }

abbrev reserve_rows :
    Claim → (team task : String) → Option Reservation → List LedgerRow → List LedgerRow
reserve_rows c team task none rows = rows
reserve_rows c team task (some r) rows =
    rows
    ++ record {
      id = c.budget_id;
      team_id = team;
      task_id = task;
      attempt_id = c.attempt_id;
      operation = reserve;
      amount = reserved r;
      idempotency_key = c.key;
      created_at = c.now;
    }
      ∷ []

-- UNIQUE(task_id,ordinal), and the primary key
abbrev pub clashes : (id task : String) → ℕ → AgentAttempt → Bool
clashes id task ordinal a = a.id == id || a.task_id == task && nat_eq a.ordinal ordinal

-- the writes of the transaction
abbrev pub claim_rows :
    Claim → (worker : String) → Option Reservation → Bool → AgentTask → AgentTables → AgentTables
claim_rows c worker reservation account t s = record s {
  tasks = update_where (in_state t.id t.state) (claim_row c worker (suc t.attempt_count)) s.tasks;
  attempts = s.attempts ++ new_attempt c t.id worker (suc t.attempt_count) reservation account ∷ [];
  workers =
      update_where (has_worker_id worker) (in_worker_state AgentWorkerState.starting c.now)
        s.workers;
  ledger = reserve_rows c t.team_id t.id reservation s.ledger;
}

abbrev pub claim_checked :
    Claim → (worker : String) → Option Reservation → Bool → AgentTask → Collaborating Claim
claim_checked c worker reservation account t s =
    if not (nat_eq (row_count (in_state t.id t.state) s.tasks) 1)
    then (raise changed_concurrently, s)
    else if any (clashes c.attempt_id t.id (suc t.attempt_count)) s.attempts
    then (raise integrity, s)
    else (return c, claim_rows c worker reservation account t s)

abbrev pub claim_found :
    Claim → (worker : String) → Option Reservation → Bool → Option AgentTask → Collaborating Claim
claim_found c worker reservation account none s = (raise no_task, s)
claim_found c worker reservation account (some t) s =
    if not (is_member s worker t.team_id)
    then (raise foreign_worker, s)
    else if not (is_claimable t.state)
    then (raise not_claimable, s)
    else if any (incomplete s t.id) s.dependencies
    then (raise not_completed, s)
    else claim_checked c worker reservation account t s

unfoldable pub claim_task :
    Claim → (task worker : String) → Option Reservation → Bool → Collaborating Claim
unfolding update_where row_count
claim_task c task worker reservation account s =
    claim_found c worker reservation account (first (has_task_id task) s.tasks) s

abbrev pub eq_attempt : (a b : AgentAttemptState) → Bool
eq_attempt created created = true
eq_attempt running running = true
eq_attempt suspended suspended = true
eq_attempt completed completed = true
eq_attempt failed failed = true
eq_attempt cancelled cancelled = true
eq_attempt interrupted interrupted = true
eq_attempt _ _ = false

abbrev pub attempt_in : String → AgentAttemptState → AgentAttempt → Bool
attempt_in id state a = has_attempt_id id a && eq_attempt a.state state

abbrev pub start_row : Option String → ℕ → AgentAttempt → AgentAttempt
start_row child now a = record a { state = running; child_run_id = child; started_at = some now }

abbrev pub run_row : Option String → AgentTask → AgentTask
run_row child t = record t {
  state = AgentTaskState.running;
  child_run_id = coalesce child t.child_run_id;
}

-- the write to the attempt's worker, where it has one
abbrev pub on_worker :
    Option String → (AgentWorker → AgentWorker) → List AgentWorker → List AgentWorker
on_worker none f rows = rows
on_worker (some id) f rows = update_where (has_worker_id id) f rows

abbrev pub start_rows : ℕ → (id : String) → Option String → AgentAttempt → AgentTables → AgentTables
start_rows now id child a s = record s {
  attempts = update_where (attempt_in id created) (start_row child now) s.attempts;
  tasks = update_where (has_task_id a.task_id) (run_row child) s.tasks;
  workers = on_worker a.worker_id (in_worker_state AgentWorkerState.running now) s.workers;
}

abbrev pub start_found :
    ℕ → (id : String) → Option String → Option AgentAttempt → Collaborating Unit
start_found now id child none s = (raise not_startable, s)
start_found now id child (some a) s =
    if not (eq_attempt a.state created)
    then (raise not_startable, s)
    else (return tt, start_rows now id child a s)

unfoldable pub start_attempt : ℕ → (id : String) → (child : Option String) → Collaborating Unit
unfolding update_where
start_attempt now id child s = start_found now id child (first (has_attempt_id id) s.attempts) s
