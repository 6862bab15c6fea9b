-- ===== src/Tests/ActionCases.antt =====
-- capslock/storage/repositories/actions.py: a table of three actions of two runs.
use mathlib.Core.Option
use caps_lock.Prelude.{
  length, keep, if◌then◌else◌, ◌≤◌, ◌≡◌, refl, true, false, none, some, List, [], ◌∷◌, String,
  arith, All, return, raise,
}
use caps_lock.Table.{row_count}
use caps_lock.Actions.Record.{
  ActionStatus, ActionRecord, pending, approved, running, completed, file_edit, command, applied,
}
use caps_lock.Actions.Store.{
  Actions, no_report, transition, commit_transition, cancel_run, mark_reversed, get, has_id,
  open_in_run, cancel_row, undoable, last_completed_file_action, invalid_transition, not_reversible,
}
use caps_lock.Actions.Lifecycle.{IsSoundTable}
use caps_lock.Actions.History.{
  Op, create_op, transition_op, cancel_run_op, reverse_op, replay, replay-IsSound,
}
use caps_lock.Actions.Guards.Edges.{Commits, transition_exact}
use caps_lock.Actions.Guards.{
  transition_terminal, transition_others, cancel_run_closes, cancel_run_others, mark_reversed_once,
  last_completed_file_action-undoable,
}

abbrev pub row : String → String → ActionStatus → ActionRecord
row id run status = record {
  id = id;
  session_id = "s";
  run_id = run;
  type = file_edit;
  status = status;
  summary = "edit";
  request = [];
  result = none;
  result_kind = none;
  created_at = 1;
  approved_at = none;
  started_at = none;
  finished_at = none;
  reversed_at = none;
  decided_at = none;
  risk_level = none;
  risk_reason = none;
  rollback = none;
  error_code = none;
  error_message = none;
  import_id = none;
  historical_only = false;
  requires_reapproval = false;
}

abbrev edited : ActionRecord
edited = record (row "b" "r" completed) {
  result_kind = some applied;
  approved_at = some 2;
  started_at = some 3;
  finished_at = some 4;
  decided_at = some 2;
}

abbrev pub table : Actions
table = row "a" "r" pending ∷ edited ∷ row "c" "q" approved ∷ []

abbrev script : List Op
script =
    create_op "d" 5 "s" "r" command "run" []
    ∷ transition_op "d" approved 6 no_report
    ∷ transition_op "d" running 7 no_report
    ∷ transition_op "d" completed 8 no_report
    ∷ reverse_op "d" 9
    ∷ cancel_run_op "r" 10 "stop"
    ∷ []

replay-IsSound_example : IsSoundTable (replay script [])
replay-IsSound_example = replay-IsSound script [] tt

a_once : row_count (has_id "a") table ≤ 1
unfolding row_count
a_once = ground arith

a_there : get "a" none table ≡ some (row "a" "r" pending)
unfolding get
a_there = refl

transition_exact_example :
    (transition "a" approved 6 no_report table
      ≡ commit_transition pending "a" approved 6 no_report table)
    × Commits running "a" approved 6 no_report table (row "a" "r" pending)
transition_exact_example =
    transition_exact "a" approved 6 no_report table (row "a" "r" pending) a_once a_there running

transition_terminal_example :
    transition "b" running 6 no_report table ≡ (raise invalid_transition, table)
unfolding get
transition_terminal_example = transition_terminal "b" table edited refl running 6 no_report refl

transition_others_example :
    get "b" none (transition "a" approved 6 no_report table).1 ≡ get "b" none table
transition_others_example = transition_others "a" "b" approved 6 no_report table refl

cancel_run_closes_example :
    All (λ r. open_in_run "r" r ≡ false) (cancel_run "r" 6 "stop" table).1
    × ((cancel_run "r" 6 "stop" table).0 ≡ return (length (keep (open_in_run "r") table)))
    × ((j : String)
        → get j none (cancel_run "r" 6 "stop" table).1
          ≡ Option.map
              (λ r. if open_in_run "r" r then cancel_row 6 "stop" r else r)
              (get j none table))
cancel_run_closes_example = cancel_run_closes "r" 6 "stop" table

cancel_run_others_example :
    get "c" none (cancel_run "r" 6 "stop" table).1 ≡ some (row "c" "q" approved)
unfolding get
cancel_run_others_example =
    cancel_run_others "r" 6 "stop" table "c" (row "c" "q" approved) refl refl

mark_reversed_once_example :
    mark_reversed "b" 7 (mark_reversed "b" 6 table).1
    ≡ (raise not_reversible, (mark_reversed "b" 6 table).1)
mark_reversed_once_example = mark_reversed_once "b" 6 7 table

last_completed_file_action-undoable_example : undoable "s" edited ≡ true
unfolding last_completed_file_action
last_completed_file_action-undoable_example =
    last_completed_file_action-undoable "s" table edited refl
