-- ===== src/Agents/Finishing.antt =====
-- `CollaborationRepository.finish_attempt` of capslock/storage/repositories/collaboration.py, and the
-- budget that it leaves for the parent, `parent_budget`.
use caps_lock.Prelude.{
  ℕ, ◌+◌, ◌-◌, Bool, true, false, not, ◌&&◌, Option, none, some, List, [], ◌∷◌, ◌++◌, String,
  if◌then◌else◌, first, any, ◌==◌, string_eq, return, raise,
}
use caps_lock.Table.{update_where}
use caps_lock.Governance.Limits.{Usage, Reserved}
use caps_lock.Governance.Budget.{usage_or_none, no_reserve}
use caps_lock.Agents.Record.{
  AgentTaskState, AgentWorkerState, AgentAttemptState, created, running, suspended, completed,
  failed, cancelled, interrupted, LedgerOperation, settle, release, Reservation, used, AgentTask,
  AgentWorker, AgentAttempt, LedgerRow, ParentRun, AgentTables, is_active_attempt,
}
use caps_lock.Agents.Store.{
  Collaborating, has_task_id, has_attempt_id, has_run_id, invalid_terminal, no_attempt,
}
use caps_lock.Agents.Attempts.{on_worker}

-- what a call of finish_attempt draws: the id and the key f"finish:{attempt_id}" of its ledger row
pub record Finish : Type 0 where
  pub budget_id : String
  pub key : String
  pub now : ℕ

-- the states that finish_attempt takes
abbrev pub is_result : AgentAttemptState → Bool
is_result created = false
is_result running = false
is_result _ = true

abbrev pub is_terminal : AgentAttemptState → Bool
is_terminal completed = true
is_terminal failed = true
is_terminal cancelled = true
is_terminal interrupted = true
is_terminal _ = false

abbrev pub is_suspended : AgentAttemptState → Bool
is_suspended suspended = true
is_suspended _ = false

abbrev pub finish_row :
    AgentAttemptState → Option Usage → Option String → ℕ → AgentAttempt → AgentAttempt
finish_row state usage error now a = record a {
  state = state;
  usage = usage;
  error = error;
  finished_at = some now;
}

abbrev task_state : AgentAttemptState → AgentTaskState
task_state completed = AgentTaskState.completed
task_state failed = AgentTaskState.failed
task_state cancelled = AgentTaskState.cancelled
task_state interrupted = AgentTaskState.interrupted
task_state _ = AgentTaskState.waiting_approval

abbrev pub close_task : AgentAttemptState → Option String → ℕ → AgentTask → AgentTask
close_task state error now t = record t {
  state = task_state state;
  error = error;
  finished_at = if is_suspended state then none else some now;
}

abbrev close_worker : AgentAttemptState → ℕ → AgentWorker → AgentWorker
close_worker suspended now w = record w {
  state = AgentWorkerState.waiting_approval;
  updated_at = now;
}
close_worker state now w =
    if w.persistent
    then record w { state = AgentWorkerState.idle; updated_at = now }
    else record w { state = AgentWorkerState.stopped; updated_at = now; stopped_at = some now }

abbrev operation : Option Usage → LedgerOperation
operation none = release
operation (some usage) = settle

-- INSERT OR IGNORE, UNIQUE(idempotency_key)
abbrev ledger_row :
    Finish → (team : String) → AgentAttempt → Option Usage → List LedgerRow → List LedgerRow
ledger_row f team a usage rows =
    if any (λ (r : LedgerRow). r.idempotency_key == f.key) rows
    then rows
    else rows
      ++ record {
        id = f.budget_id;
        team_id = team;
        task_id = a.task_id;
        attempt_id = a.id;
        operation = operation usage;
        amount = used usage;
        idempotency_key = f.key;
        created_at = f.now;
      }
        ∷ []

abbrev pub add_usage : Usage → ParentRun → ParentRun
add_usage u r = record r {
  input_tokens = r.input_tokens + u.input_tokens;
  output_tokens = r.output_tokens + u.output_tokens;
  cost_usd = r.cost_usd + u.cost_usd;
}

abbrev pub account :
    (parent : String) → AgentAttemptState → Bool → Option Usage → List ParentRun → List ParentRun
account parent completed true (some usage) rows =
    update_where (has_run_id parent) (add_usage usage) rows
account parent _ _ _ rows = rows

-- the writes of the transaction
abbrev pub close_attempt :
    Finish
    → (id : String) → AgentAttemptState
    → Option Usage
    → Option String
    → AgentAttempt
    → AgentTask
    → AgentTables
    → AgentTables
close_attempt f id state usage error a t s = record s {
  attempts = update_where (has_attempt_id id) (finish_row state usage error f.now) s.attempts;
  tasks = update_where (has_task_id a.task_id) (close_task state error f.now) s.tasks;
  workers = on_worker a.worker_id (close_worker state f.now) s.workers;
  ledger = if is_suspended state then s.ledger else ledger_row f t.team_id a usage s.ledger;
  runs = account t.parent_run_id state a.account_usage usage s.runs;
}

abbrev pub finish_joined :
    Finish
    → (id : String) → AgentAttemptState
    → Option Usage
    → Option String
    → AgentAttempt
    → Option AgentTask
    → Collaborating Unit
finish_joined f id state usage error a none s = (raise no_attempt, s)
finish_joined f id state usage error a (some t) s =
    if is_terminal a.state
    then (return tt, s)
    else (return tt, close_attempt f id state usage error a t s)

abbrev pub finish_found :
    Finish
    → (id : String) → AgentAttemptState
    → Option Usage
    → Option String
    → Option AgentAttempt
    → Collaborating Unit
finish_found f id state usage error none s = (raise no_attempt, s)
finish_found f id state usage error (some a) s =
    finish_joined f id state usage error a (first (has_task_id a.task_id) s.tasks) s

unfoldable pub finish_attempt :
    Finish → (id : String) → AgentAttemptState → Option Usage → Option String → Collaborating Unit
unfolding update_where
finish_attempt f id state usage error s =
    if not (is_result state)
    then (raise invalid_terminal, s)
    else finish_found f id state usage error (first (has_attempt_id id) s.attempts) s

abbrev pub or_zero : Option ℕ → ℕ
or_zero none = 0
or_zero (some n) = n

abbrev pub limit_of : (Reservation → Option ℕ) → Option Reservation → ℕ
limit_of field none = 0
limit_of field (some r) = or_zero (field r)

abbrev add_settled : Usage → Usage → Usage
add_settled u total = record {
  input_tokens = total.input_tokens + u.input_tokens;
  output_tokens = total.output_tokens + u.output_tokens;
  cost_usd = total.cost_usd + u.cost_usd;
  tool_rounds = total.tool_rounds + u.tool_rounds;
  tool_calls = total.tool_calls + u.tool_calls;
}

-- what an attempt still keeps of its reservation
abbrev add_reserved : Option Reservation → Usage → Reserved → Reserved
add_reserved r u total = record {
  tokens = total.tokens + (limit_of (λ x. x.max_tokens) r - (u.input_tokens + u.output_tokens));
  budget_usd = total.budget_usd + (limit_of (λ x. x.max_budget_usd) r - u.cost_usd);
  tool_rounds = total.tool_rounds + (limit_of (λ x. x.max_tool_rounds) r - u.tool_rounds);
  tool_calls = total.tool_calls + (limit_of (λ x. x.max_tool_calls) r - u.tool_calls);
}

abbrev of_run : String → List AgentTask → AgentAttempt → Bool
of_run run tasks a = any (λ t. has_task_id a.task_id t && t.parent_run_id == run) tasks

abbrev budget_of : String → List AgentTask → List AgentAttempt → Usage × Reserved
budget_of run tasks [] = (usage_or_none none, no_reserve)
budget_of run tasks (a ∷ rows) =
    let (settled, kept) = budget_of run tasks rows in
    let usage = usage_or_none a.usage in
    if of_run run tasks a && a.account_usage
    then (
      add_settled usage settled,
      if is_active_attempt a.state then add_reserved a.reservation usage kept else kept,
    )
    else (settled, kept)

-- what the governor reads as the settled usage and the reservations of the children
unfoldable pub parent_budget : String → AgentTables → Usage × Reserved
parent_budget run s = budget_of run s.tasks s.attempts
