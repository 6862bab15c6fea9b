-- ===== src/Workflow/Cancelling.antt =====
-- capslock/storage/repositories/workflow_uow.py: `cancel_waiting` and `cancel_waiting_action`.
use caps_lock.Prelude.{
  ℕ, Bool, true, false, not, ◌&&◌, ◌||◌, Option, none, some, List, [], ◌∷◌, String, if◌then◌else◌,
  ◌==◌, string_eq, nat_eq, mem, any, return, raise,
}
use caps_lock.Table.{update_where, row_count}
use caps_lock.Actions.Record.{ActionRecord, ActionStatus, ActionResultKind, action_status_eq}
use caps_lock.Workflow.Status.{WorkItemStatus, RunStepStatus, AgentEventKind, status_eq}
use caps_lock.Workflow.Store.{
  WorkItem, Run, RunStep, ToolInvocation, InvocationStatus, RequestStatus, InputRequest,
  PlanRequest, PermissionRow, PlanStatus, draft, awaiting_approval, SessionPlan, Workflow,
  Transaction, put, is_open_action, close_action, append_event, not_waiting, action_not_open,
}
use caps_lock.Workflow.Transitions.{
  update_item, set_item, is_waiting, is_waiting_step, coalesce, is_status,
}

abbrev pub message : String
message = "cancelled before resume"

abbrev is_unfinished_step : String → RunStep → Bool
is_unfinished_step run x =
    x.run_id == run
    && (is_waiting_step x.status || elim x.status [ RunStepStatus.running ↦ true | _ ↦ false ])

abbrev is_waiting_call : String → ToolInvocation → Bool
is_waiting_call run c = c.run_id == run && elim c.status [
  | InvocationStatus.waiting_approval ↦ true
  | InvocationStatus.waiting_input ↦ true
  | _ ↦ false
]

abbrev is_pending : RequestStatus → Bool
is_pending RequestStatus.pending = true
is_pending _ = false

abbrev is_awaiting : PlanStatus → Bool
is_awaiting awaiting_approval = true
is_awaiting _ = false

-- id IN (SELECT plan_id FROM plan_requests WHERE run_id=? AND kind='submit' AND status='pending')
abbrev is_submitted : String → List PlanRequest → SessionPlan → Bool
is_submitted run requests plan =
    is_awaiting plan.status
    && any
        (λ (r : PlanRequest).
          r.plan_id == plan.id && r.run_id == run && r.is_submit && is_pending r.status)
        requests

abbrev pub cancelled_run : Option ℕ → String → Run → Run
cancelled_run finished text r = record r {
  status = WorkItemStatus.cancelled;
  finished_at = finished;
  error_code = some "cancelled";
  error_message = some text;
}

abbrev pub cancel_found : String → ℕ → Run → Workflow → Workflow
cancel_found run_id now r s = append_event run_id AgentEventKind.cancelled (record s {
  runs = put run_id (some (cancelled_run (some now) message r)) s.runs;
  work_items =
      put r.work_item_id
        (update_item (set_item WorkItemStatus.cancelled (some message) now)
          (s.work_items r.work_item_id))
        s.work_items;
  steps =
      update_where (is_unfinished_step run_id)
        (λ x. record x {
          status = RunStepStatus.cancelled;
          finished_at = some now;
          error = some message;
        })
        s.steps;
  invocations =
      update_where (is_waiting_call run_id)
        (λ c. record c { status = InvocationStatus.cancelled; finished_at = some now })
        s.invocations;
  input_requests =
      update_where (λ (r : InputRequest). r.run_id == run_id && is_pending r.status)
        (λ r. record r { status = RequestStatus.cancelled }) s.input_requests;
  plans =
      update_where (is_submitted run_id s.plan_requests)
        (λ p. record p { status = draft; updated_at = now }) s.plans;
  permission_requests =
      update_where (λ (r : PermissionRow). r.run_id == run_id && is_pending r.status)
        (λ r. record r { status = RequestStatus.cancelled; decided_at = some now })
        s.permission_requests;
  plan_requests =
      update_where (λ (r : PlanRequest). r.run_id == run_id && is_pending r.status)
        (λ r. record r { status = RequestStatus.cancelled; decided_at = some now }) s.plan_requests;
  actions =
      update_where (is_open_action run_id)
        (close_action ActionStatus.cancelled ActionResultKind.user_cancelled now (some "cancelled")
          (some message))
        s.actions;
})

unfoldable pub cancel_waiting : (session_id run_id : String) → ℕ → Transaction Unit
unfolding append_event update_where
cancel_waiting session run_id now s = elim (s.runs run_id) [
  | none ↦ (raise not_waiting, s)
  | some r ↦
      if not (r.session_id == session && is_waiting r.status)
      then (raise not_waiting, s)
      else (return tt, cancel_found run_id now r s)
]

abbrev pub is_cancelled_action : String → String → ActionRecord → Bool
is_cancelled_action run action a =
    a.id == action
    && a.run_id == run
    && mem a.status (ActionStatus.approved ∷ ActionStatus.running ∷ [])

abbrev is_unstarted : String → ActionRecord → Bool
is_unstarted run a =
    a.run_id == run && mem a.status (ActionStatus.pending ∷ ActionStatus.approved ∷ [])

abbrev cancel_action : ℕ → String → ActionRecord → ActionRecord
cancel_action now text a =
    record (close_action ActionStatus.cancelled ActionResultKind.user_cancelled now
      (some "cancelled") (some text) a) { decided_at = coalesce a.decided_at (some now) }

abbrev pub cancel_item : Option String → ℕ → Option WorkItem → Option WorkItem
cancel_item text now item =
    if is_status WorkItemStatus.waiting_approval item
    then update_item (set_item WorkItemStatus.cancelled text now) item
    else item

unfoldable pub cancel_waiting_action :
    (session_id run_id action_id text : String) → ℕ → Transaction Unit
unfolding append_event update_where row_count
cancel_waiting_action session run_id action_id text now s = elim (s.runs run_id) [
  | none ↦ (raise not_waiting, s)
  | some r ↦
      if not (r.session_id == session && r.status == WorkItemStatus.waiting_approval)
      then (raise not_waiting, s)
      else if nat_eq (row_count (is_cancelled_action run_id action_id) s.actions) 0
      then (raise action_not_open, s)
      else (
        return tt,
        append_event run_id AgentEventKind.cancelled (record s {
          actions = update_where (is_unstarted run_id) (cancel_action now text) (
              update_where (is_cancelled_action run_id action_id) (cancel_action now text)
                s.actions);
          runs =
              put run_id (some (cancelled_run (coalesce r.finished_at (some now)) text r)) s.runs;
          work_items =
              put r.work_item_id (cancel_item (some text) now (s.work_items r.work_item_id))
                s.work_items;
        }),
      )
]
