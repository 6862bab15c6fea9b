-- ===== src/Workflow/Status.antt =====
-- capslock/domain/workflow.py: statuses, the transition table, and the outcome of an approval.
use caps_lock.Prelude.{
  ℕ, ◌≡◌, ◌↔◌, Bool, true, false, Option, none, some, List, [], ◌∷◌, String, arith, if◌then◌else◌,
  Eq, string_eq, ◌==◌, mem, nat_eq, Outcome, return, raise, not,
}

-- class WorkItemStatus
pub data WorkItemStatus : Type 0 where
  queued running waiting_approval waiting_input completed failed cancelled interrupted stopped :
      WorkItemStatus

abbrev pub index : WorkItemStatus → ℕ
index queued = 0
index running = 1
index waiting_approval = 2
index waiting_input = 3
index completed = 4
index failed = 5
index cancelled = 6
index interrupted = 7
index stopped = 8

pub status_eq_iff : (a b : WorkItemStatus) → (nat_eq (index a) (index b) ≡ true) ↔ (a ≡ b)
status_eq_iff a b = ground arith

instance abbrev pub status_eq : Eq WorkItemStatus
status_eq = record { equal = λ a b. nat_eq (index a) (index b); equal_iff = status_eq_iff }

-- WORK_ITEM_TRANSITIONS.get(current, frozenset())
unfoldable pub work_item_transitions : WorkItemStatus → List WorkItemStatus
work_item_transitions queued = running ∷ cancelled ∷ []
work_item_transitions running =
    waiting_approval ∷ waiting_input ∷ completed ∷ failed ∷ cancelled ∷ interrupted ∷ stopped ∷ []
work_item_transitions waiting_approval = completed ∷ failed ∷ cancelled ∷ []
work_item_transitions waiting_input = running ∷ failed ∷ cancelled ∷ []
work_item_transitions _ = []

-- FINALIZABLE_WORK_ITEM_STATUSES
abbrev pub finalizable : List WorkItemStatus
finalizable =
    waiting_approval ∷ waiting_input ∷ completed ∷ failed ∷ cancelled ∷ interrupted ∷ stopped ∷ []

-- The ValueErrors of the module.
pub data StatusError : Type 0 where
  invalid_transition : WorkItemStatus → WorkItemStatus → StatusError
  unsupported_final : WorkItemStatus → StatusError

unfoldable pub validate_work_item_transition :
    WorkItemStatus → WorkItemStatus → Outcome StatusError Unit
unfolding work_item_transitions
validate_work_item_transition current target =
    if target == current
    then return tt
    else if not (mem target (work_item_transitions current))
    then raise (invalid_transition current target)
    else return tt

unfoldable pub validate_final_status : WorkItemStatus → Outcome StatusError Unit
validate_final_status status =
    if not (mem status finalizable) then raise (unsupported_final status) else return tt

-- class RunStepStatus
pub data RunStepStatus : Type 0 where
  running waiting_approval waiting_input completed failed cancelled : RunStepStatus

unfoldable pub interrupted_step_status : WorkItemStatus → Option RunStepStatus
interrupted_step_status status =
    if status == cancelled
    then some RunStepStatus.cancelled
    else if mem status (failed ∷ interrupted ∷ stopped ∷ [])
    then some RunStepStatus.failed
    else none

-- class AgentEventKind
pub data AgentEventKind : Type 0 where
  queued thinking text_delta tool_queued tool_running tool_progress tool_permission tool_completed
        tool_cancelled context_updated budget_updated limit_reached budget_extended waiting_approval
        waiting_input completed failed cancelled stopped :
      AgentEventKind

-- AgentEvent.terminal: the kind is one of TERMINAL_EVENT_KINDS
unfoldable pub terminal : AgentEventKind → Bool
terminal AgentEventKind.waiting_approval = true
terminal AgentEventKind.waiting_input = true
terminal AgentEventKind.completed = true
terminal AgentEventKind.failed = true
terminal AgentEventKind.cancelled = true
terminal AgentEventKind.stopped = true
terminal _ = false

pub record ApprovalOutcome : Type 0 where
  pub status : WorkItemStatus
  pub event_kind : AgentEventKind
  pub error_code : Option String
  pub error_message : Option String

-- status.value
unfoldable pub value : WorkItemStatus → String
value WorkItemStatus.queued = "queued"
value WorkItemStatus.running = "running"
value WorkItemStatus.waiting_approval = "waiting_approval"
value WorkItemStatus.waiting_input = "waiting_input"
value WorkItemStatus.completed = "completed"
value WorkItemStatus.failed = "failed"
value WorkItemStatus.cancelled = "cancelled"
value WorkItemStatus.interrupted = "interrupted"
value WorkItemStatus.stopped = "stopped"

abbrev or_else : Option String → String → String
or_else none text = text
or_else (some t) text = if t == "" then text else t

-- approval_outcome; the failed status is "failed" or "cancelled", and anything else counts as "failed"
unfoldable pub approval_outcome :
    (failed_status error_code error_message : Option String) → ApprovalOutcome
approval_outcome none code message = record {
  status = WorkItemStatus.completed;
  event_kind = AgentEventKind.completed;
  error_code = none;
  error_message = none;
}
approval_outcome (some s) code message =
    if s == "cancelled"
    then record {
      status = WorkItemStatus.cancelled;
      event_kind = AgentEventKind.cancelled;
      error_code = some (or_else code "cancelled");
      error_message = some (or_else message "action cancelled");
    }
    else record {
      status = WorkItemStatus.failed;
      event_kind = AgentEventKind.failed;
      error_code = some (or_else code "failed");
      error_message = some (or_else message "action failed");
    }
