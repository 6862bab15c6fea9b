-- ===== src/Workflow/Resume.antt =====
-- `resume_paused` of capslock/storage/repositories/workflow_uow.py: what a paused tool call resumes
-- with, and where its result goes in the checkpoint.
use caps_lock.Prelude.{
  ℕ, Bool, true, false, ◌&&◌, Option, none, some, List, [], ◌∷◌, String, if◌then◌else◌, ◌==◌,
  string_eq, leb, mem, first, Outcome, return, raise,
}
use caps_lock.Actions.Record.{ActionRecord, ActionStatus, action_status_eq}
use caps_lock.Workflow.Store.{
  ResultStatus, succeeded, denied, cancelled_result, failed_result, ToolResult, CheckpointMessage,
  assistant, tool, ToolInvocation, InvocationStatus, approval, user_input, RequestStatus,
  InputRequest, PlanRequest, PermissionRow, RunStep, Workflow, WorkflowError, unanswered, undecided,
  incomplete_pause,
}
use caps_lock.Workflow.Status.{RunStepStatus}

abbrev result : ResultStatus → Bool → (error error_code : Option String) → ToolResult
result status executed error code = record {
  status = status;
  executed = executed;
  error = error;
  error_code = code;
}

abbrev pub success : ToolResult
success = result succeeded true none none

abbrev is_pending : RequestStatus → Bool
is_pending RequestStatus.pending = true
is_pending _ = false

abbrev is_cancelled : RequestStatus → Bool
is_cancelled RequestStatus.cancelled = true
is_cancelled _ = false

-- the result of a request for the user's input
unfoldable pub input_result : Option InputRequest → Outcome WorkflowError ToolResult
input_result none = raise unanswered
input_result (some request) =
    if is_pending request.status
    then raise unanswered
    else if is_cancelled request.status
    then return (
        result cancelled_result false (some "user cancelled the input request")
          (some "input_cancelled"))
    else return success

abbrev or_text : Option String → String → Option String
or_text none text = some text
or_text (some t) text = if t == "" then some text else some t

-- the result of an action
unfoldable pub action_result : ActionRecord → Outcome WorkflowError ToolResult
action_result a =
    if mem a.status (ActionStatus.pending ∷ ActionStatus.approved ∷ ActionStatus.running ∷ [])
    then raise undecided
    else if a.status == ActionStatus.rejected
    then return (
        result denied false (or_text a.error_message "action was rejected")
          (some "action_rejected"))
    else if a.status == ActionStatus.cancelled
    then return (
        result cancelled_result false (or_text a.error_message "action was cancelled")
          (some "action_cancelled"))
    else if a.status == ActionStatus.failed
    then return (
        result failed_result true (or_text a.error_message "action failed")
          (or_text a.error_code "action_failed"))
    else return success

abbrev is_choice : Option String → Bool
is_choice none = false
is_choice (some choice) = mem choice ("enter" ∷ "implement" ∷ "feedback" ∷ [])

-- the result of a plan request
unfoldable pub plan_result : PlanRequest → Outcome WorkflowError ToolResult
plan_result request =
    if is_pending request.status
    then raise undecided
    else if is_choice request.choice
    then return success
    else return
        (result denied false (some "plan request was rejected") (some "plan_request_rejected"))

-- the result that was stored with a permission request
unfoldable pub permission_result : Option PermissionRow → Outcome WorkflowError ToolResult
permission_result none = raise undecided
permission_result (some request) =
    if is_pending request.status
    then raise undecided
    else elim request.result [ none ↦ raise undecided | some r ↦ return r ]

abbrev pub is_input : String → String → InputRequest → Bool
is_input id invocation r = r.id == id && r.invocation_id == invocation

abbrev pub is_action : String → String → ActionRecord → Bool
is_action id run a = a.id == id && a.run_id == run

abbrev pub is_plan : String → String → String → PlanRequest → Bool
is_plan id run invocation r = r.id == id && r.run_id == run && r.invocation_id == invocation

abbrev pub is_permission : String → String → String → PermissionRow → Bool
is_permission id run invocation r = r.id == id && r.run_id == run && r.invocation_id == invocation

abbrev approval_result :
    Option ActionRecord
    → Option PlanRequest
    → Option PermissionRow
    → Outcome WorkflowError ToolResult
approval_result (some a) plan permission = action_result a
approval_result none (some plan) permission = plan_result plan
approval_result none none permission = permission_result permission

-- what the paused call of a run resumes with
unfoldable pub pause_result : String → ToolInvocation → Workflow → Outcome WorkflowError ToolResult
unfolding input_result action_result plan_result permission_result
pause_result run call s = elim call.pause_kind [
  | user_input ↦ input_result (first (is_input call.pause_request_id call.id) s.input_requests)
  | approval ↦
      approval_result (first (is_action call.pause_request_id run) s.actions)
        (first (is_plan call.pause_request_id run call.id) s.plan_requests)
        (first (is_permission call.pause_request_id run call.id) s.permission_requests)
]

-- the tool calls of the last assistant message
unfoldable pub last_calls : List CheckpointMessage → List String
last_calls messages = go messages []
  where
    go : List CheckpointMessage → List String → List String
    go [] calls = calls
    go (assistant ids ∷ rest) calls = go rest ids
    go (_ ∷ rest) calls = go rest calls

-- ordered_ids[ordered_ids.index(paused_id) + 1 :], and nothing when it is not there
unfoldable pub calls_after : String → List String → List String
calls_after paused [] = []
calls_after paused (i ∷ ids) =
    let rest = calls_after paused ids in if i == paused then ids else rest

abbrev pub answers_later : List String → CheckpointMessage → Bool
answers_later later (tool id r) = mem id later
answers_later later _ = false

-- messages.insert(insertion, tool_message)
unfoldable pub insert_before :
    List String → CheckpointMessage → List CheckpointMessage → List CheckpointMessage
insert_before later message [] = message ∷ []
insert_before later message (m ∷ messages) =
    let rest = insert_before later message messages in
    if answers_later later m then message ∷ m ∷ messages else m ∷ rest

unfoldable pub with_result :
    ToolInvocation → ToolResult → List CheckpointMessage → List CheckpointMessage
unfolding last_calls calls_after insert_before
with_result call r messages =
    insert_before (calls_after call.tool_call_id (last_calls messages)) (tool call.tool_call_id r)
      messages

-- ORDER BY … DESC LIMIT 1
unfoldable pub latest {ℓ} : {R : Type ℓ} → (R → Bool) → (R → ℕ) → List R → Option R
latest p key [] = none
latest p key (r ∷ rows) =
    let rest = latest p key rows in
    if p r
    then elim rest [ none ↦ some r | some x ↦ if leb (key x) (key r) then some r else some x ]
    else rest

abbrev is_waiting_call : String → ToolInvocation → Bool
is_waiting_call run call = call.run_id == run && elim call.status [
  | InvocationStatus.waiting_approval ↦ true
  | InvocationStatus.waiting_input ↦ true
  | _ ↦ false
]

abbrev is_waiting_step : RunStepStatus → Bool
is_waiting_step RunStepStatus.waiting_approval = true
is_waiting_step RunStepStatus.waiting_input = true
is_waiting_step _ = false

abbrev pub paused_call : String → Workflow → Option ToolInvocation
paused_call run s = latest (is_waiting_call run) (λ c. c.sequence) s.invocations

abbrev pub paused_step : String → Workflow → Option RunStep
paused_step run s =
    latest (λ (x : RunStep). x.run_id == run && is_waiting_step x.status) (λ x. x.ordinal) s.steps

-- the call, the step and the result with which a run resumes
abbrev with_pause :
    Option ToolInvocation
    → Option RunStep
    → String
    → Workflow
    → Outcome WorkflowError (ToolInvocation × RunStep × ToolResult)
with_pause none step run s = raise incomplete_pause
with_pause (some call) none run s = raise incomplete_pause
with_pause (some call) (some step) run s = elim (pause_result run call s) [
  | raise e ↦ raise e
  | return r ↦ return (call, step, r)
]

unfoldable pub continuation :
    String → Workflow → Outcome WorkflowError (ToolInvocation × RunStep × ToolResult)
unfolding pause_result latest
continuation run s = with_pause (paused_call run s) (paused_step run s) run s
