-- ===== src/Workflow/Waiting.antt =====
-- capslock/storage/repositories/workflow_uow.py: the two transactions that a waiting run leaves by,
-- `resume_paused` and `settle_approval`. Which runs resume another, an EXISTS over the table of the
-- runs, is the argument `resumed`.
use caps_lock.Prelude.{
  ℕ, Bool, true, false, not, ◌&&◌, Option, none, some, List, [], ◌∷◌, String, if◌then◌else◌, ◌==◌,
  string_eq, ltb, mem, any, return, raise,
}
use caps_lock.Table.{update_where}
use caps_lock.Actions.Record.{ActionRecord, ActionStatus, action_status_eq}
use caps_lock.Workflow.Status.{
  WorkItemStatus, RunStepStatus, AgentEventKind, status_eq, ApprovalOutcome, approval_outcome,
}
use caps_lock.Workflow.Store.{
  Run, RunStep, ToolInvocation, InvocationStatus, RequestStatus, ToolResult, succeeded,
  cancelled_result, PermissionRow, Workflow, Transaction, put, is_open_action, append_event,
  not_waiting, foreign_run, item_not_waiting, CheckpointMessage,
}
use caps_lock.Workflow.Resume.{continuation, with_result}
use caps_lock.Workflow.Transitions.{
  update_item, set_item, touch_item, is_status, is_waiting, is_waiting_step, coalesce,
}

abbrev ended_invocation : ToolResult → InvocationStatus
ended_invocation r = elim r.status [
  | succeeded ↦ InvocationStatus.completed
  | cancelled_result ↦ InvocationStatus.cancelled
  | _ ↦ InvocationStatus.failed
]

abbrev messages_of : Option (List CheckpointMessage) → List CheckpointMessage
messages_of none = []
messages_of (some messages) = messages

-- An older checkpoint of the run that no run resumes from is dropped; `resumed` says which steps
-- are the `resume_from_step_id` of a run.
abbrev is_superseded : (String → Bool) → String → RunStep → RunStep → Bool
is_superseded resumed run step x =
    x.run_id == run
    && not (x.id == step.id)
    && not (is_waiting_step x.status)
    && not (resumed x.id)
    && ltb x.ordinal step.ordinal

abbrev pub resume_found :
    (String → Bool)
    → String
    → ℕ
    → Run
    → (ToolInvocation × RunStep × ToolResult)
    → Workflow
    → Workflow
resume_found resumed run_id now r (call, step, result) s = record s {
  invocations =
      update_where (λ (c : ToolInvocation). c.id == call.id)
        (λ c. record c {
          status = ended_invocation result;
          result = some result;
          finished_at = some now;
        })
        s.invocations;
  steps =
      update_where (is_superseded resumed run_id step) (λ x. record x { checkpoint = none })
        (update_where (λ (x : RunStep). x.id == step.id)
          (λ x. record x {
            status = RunStepStatus.completed;
            checkpoint = some (with_result call result (messages_of step.checkpoint));
            finished_at = some now;
            error = result.error;
          })
          s.steps);
  runs =
      put run_id (some (record r { status = WorkItemStatus.running; finished_at = none })) s.runs;
  work_items =
      put r.work_item_id
        (update_item (touch_item WorkItemStatus.running now) (s.work_items r.work_item_id))
        s.work_items;
}

unfoldable pub resume_paused : (String → Bool) → (session_id run_id : String) → ℕ → Transaction Unit
unfolding continuation with_result update_where
resume_paused resumed session run_id now s = elim (s.runs run_id) [
  | none ↦ (raise not_waiting, s)
  | some r ↦
      if not (r.session_id == session && is_waiting r.status)
      then (raise not_waiting, s)
      else elim (continuation run_id s) [
        | raise e ↦ (raise e, s)
        | return c ↦ (return tt, resume_found resumed run_id now r c s)
      ]
]

abbrev pub is_failed_action : String → ActionRecord → Bool
is_failed_action run a =
    a.run_id == run && mem a.status (ActionStatus.failed ∷ ActionStatus.cancelled ∷ [])

abbrev pub is_pending_permission : String → PermissionRow → Bool
is_pending_permission run r =
    r.run_id == run && elim r.status [ RequestStatus.pending ↦ true | _ ↦ false ]

abbrev pub awaits_approval : String → ToolInvocation → Bool
awaits_approval run c =
    c.run_id == run && elim c.status [ InvocationStatus.waiting_approval ↦ true | _ ↦ false ]

-- ORDER BY finished_at LIMIT 1: the first, in the order of the table, of the earliest
abbrev finished_of : ActionRecord → ℕ
finished_of a = elim a.finished_at [ none ↦ 0 | some t ↦ t ]

unfoldable pub earliest : (ActionRecord → Bool) → List ActionRecord → Option ActionRecord
earliest p [] = none
earliest p (a ∷ actions) =
    let rest = earliest p actions in
    if p a
    then elim rest [
      | none ↦ some a
      | some b ↦ if ltb (finished_of b) (finished_of a) then some b else some a
    ]
    else rest

abbrev failed_status : ActionRecord → String
failed_status a = if a.status == ActionStatus.cancelled then "cancelled" else "failed"

abbrev pub outcome_of : Option ActionRecord → ApprovalOutcome
outcome_of none = approval_outcome none none none
outcome_of (some a) = approval_outcome (some (failed_status a)) a.error_code a.error_message

abbrev pub settle_found : String → ℕ → Run → Transaction (Option AgentEventKind)
settle_found run_id now r s =
    let failed = earliest (is_failed_action run_id) s.actions in
    let outcome = outcome_of failed in
    if any (is_open_action run_id) s.actions
    then (return none, s)
    else if any (is_pending_permission run_id) s.permission_requests
    then (return none, s)
    else if any (awaits_approval run_id) s.invocations
    then (return none, s)
    else if not (is_status WorkItemStatus.waiting_approval (s.work_items r.work_item_id))
    then (raise item_not_waiting, s)
    else (
      return (some outcome.event_kind),
      append_event run_id outcome.event_kind (record s {
        runs =
            put run_id
              (some (record r {
                status = outcome.status;
                finished_at = coalesce r.finished_at (some now);
                error_code = outcome.error_code;
                error_message = outcome.error_message;
              }))
              s.runs;
        work_items =
            put r.work_item_id
              (update_item (set_item outcome.status outcome.error_message now)
                (s.work_items r.work_item_id))
              s.work_items;
      }),
    )

unfoldable pub settle_approval :
    (session_id run_id : String) → ℕ → Transaction (Option AgentEventKind)
unfolding earliest approval_outcome append_event
settle_approval session run_id now s = elim (s.runs run_id) [
  | none ↦ (raise foreign_run, s)
  | some r ↦
      if not (r.session_id == session)
      then (raise foreign_run, s)
      else if mem r.status
          (WorkItemStatus.completed ∷ WorkItemStatus.failed ∷ WorkItemStatus.cancelled ∷ [])
      then (return none, s)
      else if not (r.status == WorkItemStatus.waiting_approval)
      then (raise not_waiting, s)
      else settle_found run_id now r s
]
