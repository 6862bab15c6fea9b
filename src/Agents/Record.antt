-- ===== src/Agents/Record.antt =====
-- The rows of the agent tables (capslock/collaboration/models.py, and the tables of
-- capslock/storage/schema.py). A reservation or a usage that is missing or empty is `none`; costs are
-- whole millionths of a dollar.
use caps_lock.Prelude.{ℕ, Bool, true, false, Option, List, String}
use caps_lock.Governance.Limits.{Usage}

pub data AgentTaskState : Type 0 where
  created blocked ready claimed running waiting_approval completed failed cancelled interrupted :
      AgentTaskState

pub data AgentWorkerState : Type 0 where
  starting idle running waiting_approval interrupted stopped : AgentWorkerState

pub data AgentAttemptState : Type 0 where
  created running suspended completed failed cancelled interrupted : AgentAttemptState

pub data LedgerOperation : Type 0 where
  reserve settle release : LedgerOperation

pub record Reservation : Type 0 where
  pub max_tokens : Option ℕ
  pub max_budget_usd : Option ℕ
  pub max_tool_rounds : Option ℕ
  pub max_tool_calls : Option ℕ

-- the amount of a row of the ledger
pub data Amount : Type 0 where
  reserved : Reservation → Amount
  used : Option Usage → Amount

pub record AgentTeam : Type 0 where
  pub id : String
  pub session_id : String
  pub name : String
  pub is_active : Bool
  pub created_by_run_id : Option String
  pub created_at : ℕ

pub record AgentWorker : Type 0 where
  pub id : String
  pub team_id : String
  pub name : String
  pub profile : String
  pub workspace_mode : String
  pub state : AgentWorkerState
  pub persistent : Bool
  pub child_session_id : Option String
  pub created_at : ℕ
  pub updated_at : ℕ
  pub stopped_at : Option ℕ

pub record AgentTask : Type 0 where
  pub id : String
  pub parent_run_id : String
  pub owner_session_id : String
  pub team_id : String
  pub assigned_worker_id : Option String
  pub plan_task_id : Option String
  pub objective : String
  pub contract : String
  pub contract_sha256 : String
  pub priority : ℕ
  pub state : AgentTaskState
  pub child_run_id : Option String
  pub claim_token : Option String
  pub attempt_count : ℕ
  pub error : Option String
  pub created_at : ℕ
  pub started_at : Option ℕ
  pub finished_at : Option ℕ

pub record Dependency : Type 0 where
  pub task_id : String
  pub blocked_by_task_id : String

pub record AgentAttempt : Type 0 where
  pub id : String
  pub task_id : String
  pub worker_id : Option String
  pub ordinal : ℕ
  pub state : AgentAttemptState
  pub claim_token : String
  pub child_run_id : Option String
  pub reservation : Option Reservation
  pub account_usage : Bool
  pub usage : Option Usage
  pub error : Option String
  pub created_at : ℕ
  pub started_at : Option ℕ
  pub finished_at : Option ℕ

pub record AgentCheckpoint : Type 0 where
  pub attempt_id : String
  pub contract_sha256 : String
  pub child_session_id : Option String
  pub child_run_id : Option String
  pub checkpoint : String
  pub resumable : Bool
  pub updated_at : ℕ

pub record LedgerRow : Type 0 where
  pub id : String
  pub team_id : String
  pub task_id : String
  pub attempt_id : String
  pub operation : LedgerOperation
  pub amount : Amount
  pub idempotency_key : String
  pub created_at : ℕ

-- the columns of runs that these calls read or write
pub record ParentRun : Type 0 where
  pub id : String
  pub session_id : String
  pub input_tokens : ℕ
  pub output_tokens : ℕ
  pub cost_usd : ℕ

-- a row of tasks
pub record PlanTask : Type 0 where
  pub id : String
  pub session_id : String

pub record AgentTables : Type 0 where
  pub runs : List ParentRun
  pub plan_tasks : List PlanTask
  pub teams : List AgentTeam
  pub workers : List AgentWorker
  pub tasks : List AgentTask
  pub dependencies : List Dependency
  pub attempts : List AgentAttempt
  pub checkpoints : List AgentCheckpoint
  pub ledger : List LedgerRow

abbrev pub is_completed : AgentTaskState → Bool
is_completed completed = true
is_completed _ = false

-- state IN ('created','ready','claimed','running','waiting_approval')
abbrev pub is_active_task : AgentTaskState → Bool
is_active_task created = true
is_active_task ready = true
is_active_task claimed = true
is_active_task running = true
is_active_task waiting_approval = true
is_active_task _ = false

-- state IN ('created','running','suspended')
abbrev pub is_active_attempt : AgentAttemptState → Bool
is_active_attempt created = true
is_active_attempt running = true
is_active_attempt suspended = true
is_active_attempt _ = false

-- state IN ('starting','running','waiting_approval')
abbrev pub is_active_worker : AgentWorkerState → Bool
is_active_worker starting = true
is_active_worker running = true
is_active_worker waiting_approval = true
is_active_worker _ = false

abbrev pub is_stopped : AgentWorkerState → Bool
is_stopped stopped = true
is_stopped _ = false

-- the states of a task that may be claimed
abbrev pub is_claimable : AgentTaskState → Bool
is_claimable created = true
is_claimable ready = true
is_claimable interrupted = true
is_claimable _ = false

abbrev pub eq_task : (a b : AgentTaskState) → Bool
eq_task created created = true
eq_task blocked blocked = true
eq_task ready ready = true
eq_task claimed claimed = true
eq_task running running = true
eq_task waiting_approval waiting_approval = true
eq_task completed completed = true
eq_task failed failed = true
eq_task cancelled cancelled = true
eq_task interrupted interrupted = true
eq_task _ _ = false
