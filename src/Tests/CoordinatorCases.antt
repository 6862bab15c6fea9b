-- ===== src/Tests/CoordinatorCases.antt =====
-- capslock/application/action_system/core.py: an approved action that is executed alone, and one that
-- another client starts first.
use caps_lock.Prelude.{◌≡◌, refl, none, some, []}
use caps_lock.Actions.Record.{ActionRecord, approved, running, failed, success}
use caps_lock.Actions.Store.{commit_transition, Actions, no_report, get, transition, moved}
use caps_lock.Actions.Coordinator.{
  HandlerAnswer, executed, World, Described, failure_report, execute_approved,
}
use caps_lock.Actions.Coordinator.Executing.{execute_approved_race}
use caps_lock.Tests.ActionCases.{row, table}

abbrev world : World
world = record { actions = table; handed = [] }

abbrev described : Described
described = λ e. ("ValueError", "the action changed")

abbrev handler : ActionRecord → HandlerAnswer
handler a = executed (record { result = []; result_kind = success })

abbrev other_client : Actions → Actions
other_client rows = (transition "c" running 5 no_report rows).1

execute_approved_race_example :
    ((execute_approved described other_client handler "s" "c" 6 world).1.handed ≡ [])
    × (get "c" none (execute_approved described other_client handler "s" "c" 6 world).1.actions
        ≡ some (
            moved failed 6
              (failure_report "ValueError" "the action changed")
              (moved running 5 no_report (row "c" "q" approved))))
unfolding get transition moved commit_transition
execute_approved_race_example =
    execute_approved_race described handler "s" "c" 6 (row "c" "q" approved) world refl refl
      other_client (moved running 5 no_report (row "c" "q" approved)) refl refl
