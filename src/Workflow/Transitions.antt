-- ===== src/Workflow/Transitions.antt =====
-- capslock/storage/repositories/workflow_uow.py: `WorkflowUnitOfWork`. Each method is one transaction:
-- what raises writes nothing. The drawn id and the clock are arguments.

use caps_lock.Prelude.{
  ℕ, Bool, true, false, not, ◌&&◌, Option, none, some, List, [], ◌∷◌, String, if◌then◌else◌, ◌==◌,
  string_eq, mem, return, raise,
}
use caps_lock.Table.{update_where}
use caps_lock.Actions.Record.{ActionRecord, ActionStatus, ActionResultKind, action_status_eq}
use caps_lock.Workflow.Status.{
  WorkItemStatus, RunStepStatus, AgentEventKind, status_eq, validate_final_status,
  interrupted_step_status,
}
use caps_lock.Workflow.Store.{
  WorkItem, Run, Usage, RunStep, PauseKind, approval, user_input, SessionRow, Transaction, put,
  is_open_action, close_action, append_event, not_queued, not_running, unsupported_status,
  item_not_running, id_in_use,
}

abbrev pub is_status : WorkItemStatus → Option WorkItem → Bool
is_status status none = false
is_status status (some w) = w.status == status

abbrev pub can_start : String → Option WorkItem → Bool
can_start session none = false
can_start session (some w) = w.session_id == session && w.status == WorkItemStatus.queued

abbrev pub update_item : (WorkItem → WorkItem) → Option WorkItem → Option WorkItem
update_item f none = none
update_item f (some w) = some (f w)

abbrev pub set_item : WorkItemStatus → Option String → ℕ → WorkItem → WorkItem
set_item status error now w = record w { status = status; error = error; updated_at = now }

-- UPDATE sessions SET title … WHERE title_source='pending'
abbrev title_session : Option String → ℕ → Option SessionRow → Option SessionRow
title_session none now row = row
title_session (some title) now none = none
title_session (some title) now (some s) =
    if s.title_pending
    then some (record { title = some title; title_pending = false; updated_at = now })
    else some s

abbrev kind_of : Option WorkItem → String
kind_of none = ""
kind_of (some w) = w.kind

-- the title is what `normalize_session_title` makes of the question, if it makes any
unfoldable pub start_run :
    (identifier session_id work_item_id question : String)
    → (title parent step : Option String) → ℕ
    → Transaction String
start_run identifier session item question title parent step now s =
    let run : Run = record {
      session_id = session;
      work_item_id = item;
      question = question;
      kind = kind_of (s.work_items item);
      status = WorkItemStatus.running;
      started_at = now;
      finished_at = none;
      duration_ms = none;
      error_code = none;
      error_message = none;
      usage = record { input_tokens = 0; output_tokens = 0; cost_usd = 0 };
      stop_reason = none;
      parent_run_id = parent;
      resume_from_step_id = step;
    } in
    if not (can_start session (s.work_items item))
    then (raise not_queued, s)
    else elim (s.runs identifier) [
      | some r ↦ (raise id_in_use, s)
      | none ↦ (
        return identifier,
        record s {
          work_items =
              put item (update_item (set_item WorkItemStatus.running none now) (s.work_items item))
                s.work_items;
          runs = put identifier (some run) s.runs;
          sessions = put session (title_session title now (s.sessions session)) s.sessions;
        },
      )
    ]

-- The outcome that a run is finished with.
pub record Ending : Type 0 where
  pub status : WorkItemStatus
  pub event_kind : AgentEventKind
  pub duration_ms : ℕ
  pub error_code : Option String
  pub error_message : Option String
  pub usage : Usage
  pub stop_reason : Option String

abbrev pub coalesce {ℓ} : {A : Type ℓ} → Option A → Option A → Option A
coalesce none b = b
coalesce (some a) b = some a

abbrev is_running_step : String → RunStep → Bool
is_running_step run x =
    x.run_id == run && elim x.status [ RunStepStatus.running ↦ true | _ ↦ false ]

abbrev end_steps : Option RunStepStatus → String → ℕ → Option String → List RunStep → List RunStep
end_steps none run now message steps = steps
end_steps (some status) run now message steps =
    update_where (is_running_step run)
      (λ x. record x { status = status; finished_at = some now; error = coalesce x.error message })
      steps

abbrev pub ends_actions : WorkItemStatus → Bool
ends_actions status = mem status (
    WorkItemStatus.cancelled ∷ WorkItemStatus.failed ∷ WorkItemStatus.interrupted
    ∷ WorkItemStatus.stopped ∷ [])

abbrev pub end_actions : Ending → String → ℕ → List ActionRecord → List ActionRecord
end_actions e run now actions =
    if ends_actions e.status
    then update_where (is_open_action run)
        (if e.status == WorkItemStatus.cancelled
          then close_action ActionStatus.cancelled ActionResultKind.user_cancelled now e.error_code
              e.error_message
          else close_action ActionStatus.failed ActionResultKind.execution_error now e.error_code
              e.error_message)
        actions
    else actions

abbrev pub finalize_found : String → Ending → ℕ → Run → Transaction Unit
finalize_found run_id e now r s =
    let ended = record r {
      status = e.status;
      finished_at = some now;
      duration_ms = some e.duration_ms;
      error_code = e.error_code;
      error_message = e.error_message;
      usage = e.usage;
      stop_reason = e.stop_reason;
    } in
    if not (is_status WorkItemStatus.running (s.work_items r.work_item_id))
    then (raise item_not_running, s)
    else (
      return tt,
      append_event run_id e.event_kind (record s {
        runs = put run_id (some ended) s.runs;
        work_items =
            put r.work_item_id
              (update_item (set_item e.status e.error_message now) (s.work_items r.work_item_id))
              s.work_items;
        steps = end_steps (interrupted_step_status e.status) run_id now e.error_message s.steps;
        actions = end_actions e run_id now s.actions;
      }),
    )

unfoldable pub finalize : String → Ending → ℕ → Transaction Unit
unfolding validate_final_status interrupted_step_status update_where append_event
finalize run_id e now s = elim (validate_final_status e.status) [
  | raise x ↦ (raise unsupported_status, s)
  | return u ↦ elim (s.runs run_id) [
    | none ↦ (raise not_running, s)
    | some r ↦
        if r.status == WorkItemStatus.running
        then finalize_found run_id e now r s
        else (raise not_running, s)
  ]
]

abbrev pub pause_status : PauseKind → WorkItemStatus
pause_status approval = WorkItemStatus.waiting_approval
pause_status user_input = WorkItemStatus.waiting_input

abbrev pause_event : PauseKind → AgentEventKind
pause_event approval = AgentEventKind.waiting_approval
pause_event user_input = AgentEventKind.waiting_input

abbrev pub touch_item : WorkItemStatus → ℕ → WorkItem → WorkItem
touch_item status now w = record w { status = status; updated_at = now }

-- the `kind` is typed as one of the two that the method accepts, so the refusal of another is left out
unfoldable pub pause : String → PauseKind → ℕ → Transaction Unit
unfolding append_event
pause run_id kind now s = elim (s.runs run_id) [
  | none ↦ (raise not_running, s)
  | some r ↦
      if not (r.status == WorkItemStatus.running)
      then (raise not_running, s)
      else if not (is_status WorkItemStatus.running (s.work_items r.work_item_id))
      then (raise item_not_running, s)
      else (
        return tt,
        append_event run_id (pause_event kind) (record s {
          runs = put run_id (some (record r { status = pause_status kind })) s.runs;
          work_items =
              put r.work_item_id
                (update_item (touch_item (pause_status kind) now) (s.work_items r.work_item_id))
                s.work_items;
        }),
      )
]

abbrev pub is_waiting : WorkItemStatus → Bool
is_waiting status = mem status (WorkItemStatus.waiting_approval ∷ WorkItemStatus.waiting_input ∷ [])

abbrev pub is_waiting_step : RunStepStatus → Bool
is_waiting_step RunStepStatus.waiting_approval = true
is_waiting_step RunStepStatus.waiting_input = true
is_waiting_step _ = false
