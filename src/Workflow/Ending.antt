-- ===== src/Workflow/Ending.antt =====
-- What `finalize` does to a running run, and where `resume_paused` puts the result of its tool call.
use mathlib.Core.Option
use caps_lock.Prelude.{
  ℕ, ◌≡◌, refl, true, false, not, some, List, [], ◌∷◌, String, arith, ◌==◌, string_eq, eq_iff, mem,
  Bool-cases, inl, inr, return,
}
use caps_lock.Workflow.Status.{WorkItemStatus, status_eq}
use caps_lock.Workflow.Status.{validate_final_status}
use caps_lock.Workflow.Store.{Run, Workflow, append_event, is_open_action}
use caps_lock.Workflow.Transitions.{is_status, Ending, finalize, ends_actions, end_actions}
use caps_lock.Table.{row_count}
use caps_lock.Workflow.Coupling.{IsCoupled}
use caps_lock.Workflow.Status.{finalizable}
use caps_lock.Workflow.Resume.{answers_later}
use caps_lock.Workflow.Store.{CheckpointMessage}
use caps_lock.Prelude.{Bool, ==_self}
use caps_lock.Table.{row_count-apart, row_count-settled, update_where}
use caps_lock.Workflow.Store.{close_action}
use caps_lock.Actions.Record.{ActionStatus, ActionResultKind, action_status_eq}

-- Where runs and work items have the invariant, a running run can always be finished: with every
-- status that the domain accepts for it the call returns, and the run then has that status.
pub finalize_returns :
    (i : String) (e : Ending) (now : ℕ) (r : Run) (s : Workflow)
    → IsCoupled s
    → s.runs i ≡ some r
    → r.status ≡ WorkItemStatus.running
    → mem e.status finalizable ≡ true
    → ((finalize i e now s).0 ≡ return tt)
      × (Option.map (λ (q : Run). q.status) ((finalize i e now s).1.runs i) ≡ some e.status)
unfolding finalize append_event validate_final_status
finalize_returns i e now r s h g running final =
    let valid : validate_final_status e.status ≡ return tt = ground arith in
    let runs_now : (r.status == WorkItemStatus.running) ≡ true = ground arith in
    let item_runs : not (is_status WorkItemStatus.running (s.work_items r.work_item_id)) ≡ false =
      ground (arith, h.same i r g) in
    let self : (i == i) ≡ true = ==_self i in
    rw (finalize, valid, g, runs_now, item_runs) (refl, rw self refl)

finalize-actions :
    (i : String) (e : Ending) (now : ℕ) (s : Workflow)
    → (finalize i e now s).0 ≡ return tt
    → (finalize i e now s).1.actions ≡ end_actions e i now s.actions
unfolding finalize append_event
finalize-actions i e now s done = ground arith

-- A run that is finished as cancelled, failed, interrupted or stopped leaves no action of it open,
-- and the open actions of every other run stay open.
pub finalize_closes :
    (i : String) (e : Ending) (now : ℕ) (s : Workflow)
    → (finalize i e now s).0 ≡ return tt
    → ends_actions e.status ≡ true
    → (row_count (is_open_action i) (finalize i e now s).1.actions ≡ 0)
      × ((j : String)
          → (j == i) ≡ false
          → row_count (is_open_action j) (finalize i e now s).1.actions
            ≡ row_count (is_open_action j) s.actions)
finalize_closes i e now s done ends = rw (finalize-actions i e now s done) (
    rw ends (elim (Bool-cases (e.status == WorkItemStatus.cancelled)) [
      | inl c ↦ rw c (closed ActionStatus.cancelled ActionResultKind.user_cancelled refl)
      | inr c ↦ rw c (closed ActionStatus.failed ActionResultKind.execution_error refl)
    ]))
  where
    closed :
        (status : ActionStatus) (kind : ActionResultKind)
        → mem status (ActionStatus.pending ∷ ActionStatus.approved ∷ ActionStatus.running ∷ [])
          ≡ false
        → let after =
            update_where
              (is_open_action i)
              (close_action status kind now e.error_code e.error_message)
              s.actions in
          (row_count (is_open_action i) after ≡ 0)
          × ((j : String)
              → (j == i) ≡ false
              → row_count (is_open_action j) after ≡ row_count (is_open_action j) s.actions)
    closed status kind ended = (
      row_count-settled (is_open_action i)
          (close_action status kind now e.error_code e.error_message) (λ a p. ground arith)
          s.actions,
      λ j apart.
          row_count-apart (is_open_action j) (is_open_action i)
            (close_action status kind now e.error_code e.error_message)
            (λ a p. ground (arith, eq_iff a.run_id i, eq_iff a.run_id j, eq_iff j i)) s.actions,
    )

-- the list is empty or begins with the result of a later call
abbrev pub begins_later : List String → List CheckpointMessage → Bool
begins_later later [] = true
begins_later later (m ∷ messages) = answers_later later m
