-- ===== src/Actions/History.antt =====
-- Sequences of repository calls on the `actions` table, raising or not.
use caps_lock.Prelude.{ℕ, Option, none, some, List, [], ◌∷◌, String, string_eq, ◌>>=◌}
use caps_lock.Actions.Record.{action_status_eq, ActionType, ActionStatus, ActionRecord, Json}
use caps_lock.Actions.Store.{
  Actions, Report, create, set_risk, mark_manual_approval, transition, mark_revalidated,
  commit_transition, cancel_run, mark_reversed, get, or_missing,
}
use caps_lock.Actions.Lifecycle.{
  IsSoundTable, create-IsSound, set_risk-IsSound, mark_manual_approval-IsSound,
  commit_transition-IsSound, mark_revalidated-IsSound, cancel_run-IsSound, mark_reversed-IsSound,
}

-- One call of a method that may write.
pub data Op : Type 0 where
  create_op :
      (identifier : String) (now : ℕ) (session run : String) (type : ActionType) (summary : String)
      (request : Json)
      → Op
  set_risk_op : (id level reason rollback : String) → Op
  manual_op : (id : String) → Op
  transition_op : (id : String) (target : ActionStatus) (now : ℕ) (report : Report) → Op
  revalidate_op : (id summary : String) (request : Json) (level reason rollback : String) → Op
  cancel_run_op : (run : String) (now : ℕ) (message : String) → Op
  reverse_op : (id : String) (now : ℕ) → Op

-- the table that the call leaves
unfoldable pub after : Op → Actions → Actions
after (create_op id now session run type summary request) rows =
    (create id now session run type summary request rows).1
after (set_risk_op id level reason rollback) rows = (set_risk id level reason rollback rows).1
after (manual_op id) rows = (mark_manual_approval id rows).1
after (transition_op id target now report) rows = (transition id target now report rows).1
after (revalidate_op id summary request level reason rollback) rows =
    (mark_revalidated id summary request level reason rollback rows).1
after (cancel_run_op run now message) rows = (cancel_run run now message rows).1
after (reverse_op id now) rows = (mark_reversed id now rows).1

unfoldable pub replay : List Op → Actions → Actions
replay [] rows = rows
replay (op ∷ ops) rows = replay ops (after op rows)

transition-IsSound :
    (id : String) (target : ActionStatus) (now : ℕ) (report : Report) (rows : Actions)
    → IsSoundTable rows
    → IsSoundTable (transition id target now report rows).1
unfolding transition
transition-IsSound id target now report rows h = go (get id none rows)
  where
    go :
        (found : Option ActionRecord)
        → IsSoundTable
            (◌>>=◌ {S = Actions}
              (λ s. (or_missing found, rows))
              (λ a. commit_transition a.status id target now report)
              rows).1
    go none = h
    go (some a) = commit_transition-IsSound rows h a.status id target now report

after-IsSound : (op : Op) (rows : Actions) → IsSoundTable rows → IsSoundTable (after op rows)
unfolding after
after-IsSound (create_op id now session run type summary request) rows h =
    create-IsSound rows h id now session run type summary request
after-IsSound (set_risk_op id level reason rollback) rows h =
    set_risk-IsSound rows h id level reason rollback
after-IsSound (manual_op id) rows h = mark_manual_approval-IsSound rows h id
after-IsSound (transition_op id target now report) rows h =
    transition-IsSound id target now report rows h
after-IsSound (revalidate_op id summary request level reason rollback) rows h =
    mark_revalidated-IsSound rows h id summary request level reason rollback
after-IsSound (cancel_run_op run now message) rows h = cancel_run-IsSound rows h run now message
after-IsSound (reverse_op id now) rows h = mark_reversed-IsSound rows h id now

-- Whatever calls are made on a sound table, the table that they leave is sound: an action that
-- runs or has completed was approved, one that runs or has completed was started, an action has a
-- finishing time exactly when it is no longer active, and a reversed action is a completed one.
pub replay-IsSound :
    (ops : List Op) (rows : Actions) → IsSoundTable rows → IsSoundTable (replay ops rows)
unfolding replay
replay-IsSound [] rows h = h
replay-IsSound (op ∷ ops) rows h = replay-IsSound ops (after op rows) (after-IsSound op rows h)
