-- ===== src/Tests/WorkflowCases.antt =====
-- capslock/storage/repositories/workflow_uow.py: a queued work item, whose run is started, paused,
-- resumed and finished.
use caps_lock.Prelude.{
  ◌≡◌, refl, true, false, none, some, List, [], ◌∷◌, String, arith, return, ◌==◌, string_eq,
  if◌then◌else◌,
}
use mathlib.Core.Option
use caps_lock.Table.{row_count}
use caps_lock.Workflow.Status.{WorkItemStatus, AgentEventKind}
use caps_lock.Workflow.Store.{
  Workflow, WorkItem, Run, CheckpointMessage, assistant, tool, succeeded, ToolResult, user_input,
  is_open_action,
}
use caps_lock.Workflow.Transitions.{Ending, finalize, start_run}
use caps_lock.Workflow.Coupling.{IsCoupled}
use caps_lock.Workflow.Histories.{
  WorkflowCall, start_call, pause_call, cancel_call, run_calls, run_calls-IsCoupled,
}
use caps_lock.Workflow.Ending.{finalize_returns, finalize_closes}

abbrev item : WorkItem
item = record {
  session_id = "s";
  kind = "foreground";
  status = WorkItemStatus.queued;
  error = none;
  updated_at = 1;
}

abbrev before : Workflow
before = record {
  sessions = λ k. none;
  work_items = λ k. if k == "w" then some item else none;
  runs = λ k. none;
  steps = [];
  actions = [];
  invocations = [];
  input_requests = [];
  plan_requests = [];
  permission_requests = [];
  plans = [];
  events = [];
}

before-IsCoupled : IsCoupled before
before-IsCoupled = record { same = λ i r e. ground arith; one = λ i j r q e. ground arith }

abbrev calls : List WorkflowCall
calls =
    start_call "r" "s" "w" "hello" none none none 2
    ∷ pause_call "r" user_input 3
    ∷ cancel_call "s" "r" 4
    ∷ []

run_calls-IsCoupled_example : IsCoupled (run_calls calls before)
run_calls-IsCoupled_example = run_calls-IsCoupled calls before before-IsCoupled

cancelled_at_the_end :
    Option.map (λ (r : Run). r.status) ((run_calls calls before).runs "r")
    ≡ some WorkItemStatus.cancelled
unfolding run_calls
cancelled_at_the_end = refl

abbrev started : Workflow
started = (start_run "r" "s" "w" "hello" none none none 2 before).1

abbrev ending : Ending
ending = record {
  status = WorkItemStatus.failed;
  event_kind = AgentEventKind.failed;
  duration_ms = 5;
  error_code = some "boom";
  error_message = none;
  usage = record { input_tokens = 1; output_tokens = 1; cost_usd = 0 };
  stop_reason = none;
}

abbrev running : Run
running = record {
  session_id = "s";
  work_item_id = "w";
  question = "hello";
  kind = "foreground";
  status = WorkItemStatus.running;
  started_at = 2;
  finished_at = none;
  duration_ms = none;
  error_code = none;
  error_message = none;
  usage = record { input_tokens = 0; output_tokens = 0; cost_usd = 0 };
  stop_reason = none;
  parent_run_id = none;
  resume_from_step_id = none;
}

started-IsCoupled : IsCoupled started
unfolding run_calls
started-IsCoupled =
    run_calls-IsCoupled (start_call "r" "s" "w" "hello" none none none 2 ∷ []) before
      before-IsCoupled

finalize_returns_example :
    ((finalize "r" ending 7 started).0 ≡ return tt)
    × (Option.map (λ (q : Run). q.status) ((finalize "r" ending 7 started).1.runs "r")
        ≡ some WorkItemStatus.failed)
unfolding start_run
finalize_returns_example =
    finalize_returns "r" ending 7 running started started-IsCoupled refl refl refl

finalize_closes_example :
    (row_count (is_open_action "r") (finalize "r" ending 7 started).1.actions ≡ 0)
    × ((j : String)
        → (j == "r") ≡ false
        → row_count (is_open_action j) (finalize "r" ending 7 started).1.actions
          ≡ row_count (is_open_action j) started.actions)
finalize_closes_example = finalize_closes "r" ending 7 started (finalize_returns_example.0) refl

abbrev done : ToolResult
done = record { status = succeeded; executed = true; error = none; error_code = none }

abbrev checkpoint : List CheckpointMessage
checkpoint = assistant ("a" ∷ "b" ∷ []) ∷ tool "b" done ∷ []
