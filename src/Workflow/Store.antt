-- ===== src/Workflow/Store.antt =====
-- The tables that capslock/storage/repositories/workflow_uow.py writes. Runs and work items are maps
-- from their primary keys; the tables that are written by their run are lists of rows.
use Prim.Native.Nat.{max}
use caps_lock.Prelude.{
  ℕ, ◌+◌, Bool, ◌&&◌, Option, some, List, [], ◌∷◌, ◌++◌, String, if◌then◌else◌, ◌==◌, string_eq,
  mem, Exec,
}
use caps_lock.Actions.Record.{ActionRecord, ActionStatus, ActionResultKind, action_status_eq}
use caps_lock.Workflow.Status.{WorkItemStatus, RunStepStatus, AgentEventKind}

pub record WorkItem : Type 0 where
  pub session_id : String
  pub kind : String
  pub status : WorkItemStatus
  pub error : Option String
  pub updated_at : ℕ

-- costs are in millionths of a dollar
pub record Usage : Type 0 where
  pub input_tokens : ℕ
  pub output_tokens : ℕ
  pub cost_usd : ℕ

pub record Run : Type 0 where
  pub session_id : String
  pub work_item_id : String
  pub question : String
  pub kind : String
  pub status : WorkItemStatus
  pub started_at : ℕ
  pub finished_at : Option ℕ
  pub duration_ms : Option ℕ
  pub error_code : Option String
  pub error_message : Option String
  pub usage : Usage
  pub stop_reason : Option String
  pub parent_run_id : Option String
  pub resume_from_step_id : Option String

-- The result of a paused tool call: the status, whether the tool ran, and the error.
pub data ResultStatus : Type 0 where
  succeeded denied cancelled_result failed_result : ResultStatus

pub record ToolResult : Type 0 where
  pub status : ResultStatus
  pub executed : Bool
  pub error : Option String
  pub error_code : Option String

-- a message of a checkpoint: the ids of an assistant's tool calls, the result of a call, or another
pub data CheckpointMessage : Type 0 where
  assistant : List String → CheckpointMessage
  tool : (tool_call_id : String) → ToolResult → CheckpointMessage
  other : String → CheckpointMessage

pub record RunStep : Type 0 where
  pub id : String
  pub run_id : String
  pub ordinal : ℕ
  pub status : RunStepStatus
  pub checkpoint : Option (List CheckpointMessage)
  pub finished_at : Option ℕ
  pub error : Option String

pub data InvocationStatus : Type 0 where
  active waiting_approval waiting_input completed cancelled failed : InvocationStatus

pub data PauseKind : Type 0 where
  approval user_input : PauseKind

pub record ToolInvocation : Type 0 where
  pub id : String
  pub run_id : String
  pub sequence : ℕ
  pub status : InvocationStatus
  pub pause_kind : PauseKind
  pub pause_request_id : String
  pub tool_call_id : String
  pub result : Option ToolResult
  pub finished_at : Option ℕ

pub data RequestStatus : Type 0 where
  pending decided cancelled : RequestStatus

-- tool_input_requests
pub record InputRequest : Type 0 where
  pub id : String
  pub run_id : String
  pub invocation_id : String
  pub status : RequestStatus

-- plan_requests
pub record PlanRequest : Type 0 where
  pub id : String
  pub run_id : String
  pub invocation_id : String
  pub plan_id : String
  pub is_submit : Bool
  pub status : RequestStatus
  pub choice : Option String
  pub decided_at : Option ℕ

-- permission_requests, with the result that was stored for the call
pub record PermissionRow : Type 0 where
  pub id : String
  pub run_id : String
  pub invocation_id : String
  pub status : RequestStatus
  pub result : Option ToolResult
  pub decided_at : Option ℕ

pub data PlanStatus : Type 0 where
  draft awaiting_approval other_status : PlanStatus

pub record SessionPlan : Type 0 where
  pub id : String
  pub status : PlanStatus
  pub updated_at : ℕ

pub record Event : Type 0 where
  pub run_id : String
  pub sequence : ℕ
  pub kind : AgentEventKind

-- a session's title is replaced while its source is "pending"
pub record SessionRow : Type 0 where
  pub title : Option String
  pub title_pending : Bool
  pub updated_at : ℕ

pub record Workflow : Type 0 where
  pub sessions : String → Option SessionRow
  pub work_items : String → Option WorkItem
  pub runs : String → Option Run
  pub steps : List RunStep
  pub actions : List ActionRecord
  pub invocations : List ToolInvocation
  pub input_requests : List InputRequest
  pub plan_requests : List PlanRequest
  pub permission_requests : List PermissionRow
  pub plans : List SessionPlan
  pub events : List Event

pub data WorkflowError : Type 0 where
  not_queued not_running unsupported_status unsupported_pause not_waiting incomplete_pause
        unanswered undecided foreign_run item_not_running item_not_waiting action_not_open
        id_in_use :
      WorkflowError

abbrev pub Transaction : Type 0 → Type 0
Transaction = Exec WorkflowError Workflow

-- an UPDATE of one row of a map
abbrev pub put {ℓ} : {R : Type ℓ} → String → Option R → (String → Option R) → String → Option R
put key row table k = if k == key then row else table k

-- status IN ('pending','approved','running') for the actions of a run
abbrev pub is_open_action : String → ActionRecord → Bool
is_open_action run a =
    a.run_id == run
    && mem a.status (ActionStatus.pending ∷ ActionStatus.approved ∷ ActionStatus.running ∷ [])

abbrev pub close_action :
    ActionStatus
    → ActionResultKind
    → ℕ
    → (error_code error_message : Option String) → ActionRecord
    → ActionRecord
close_action status result_kind now error_code error_message a = record a {
  status = status;
  result_kind = some result_kind;
  finished_at = some now;
  error_code = error_code;
  error_message = error_message;
}

-- coalesce(max(sequence),0)
abbrev pub last_sequence : String → List Event → ℕ
last_sequence run [] = 0
last_sequence run (e ∷ events) =
    let rest = last_sequence run events in if e.run_id == run then max e.sequence rest else rest

-- RunJournalRepository.append_in
unfoldable pub append_event : String → AgentEventKind → Workflow → Workflow
append_event run kind s =
    let event : Event = record {
      run_id = run;
      sequence = last_sequence run s.events + 1;
      kind = kind;
    } in
    record s { events = s.events ++ event ∷ [] }
