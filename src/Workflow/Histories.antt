-- ===== src/Workflow/Histories.antt =====
-- The transactions on a waiting run keep the invariant of runs and work items, and so does any
-- sequence of transactions.
use caps_lock.Prelude.{
  ℕ, ◌≡◌, refl, Bool, true, not, ◌&&◌, Option, none, some, List, [], ◌∷◌, String, arith, ◌==◌,
  string_eq, any, nat_eq, mem, Bool-cases, Option-cases, Outcome-cases, inl, inr,
}
use caps_lock.Workflow.Status.{WorkItemStatus, status_eq, ApprovalOutcome}
use caps_lock.Workflow.Store.{Run, Workflow, put, append_event, PauseKind, is_open_action}
use caps_lock.Workflow.Transitions.{
  update_item, set_item, touch_item, is_status, start_run, Ending, finalize, pause, is_waiting,
  coalesce,
}
use caps_lock.Workflow.Waiting.{
  resume_paused, settle_found, settle_approval, outcome_of, earliest, is_failed_action,
  is_pending_permission, awaits_approval,
}
use caps_lock.Workflow.Resume.{continuation}
use caps_lock.Workflow.Cancelling.{
  cancel_waiting, cancel_waiting_action, cancelled_run, is_cancelled_action, message,
}
use caps_lock.Table.{row_count}
use caps_lock.Workflow.Coupling.{
  IsCoupled, Coupled, moved, start_run-IsCoupled, finalize-IsCoupled, pause-IsCoupled,
}

resume_paused-IsCoupled :
    (resumed : String → Bool) (session i : String) (now : ℕ) (s : Workflow)
    → IsCoupled s
    → IsCoupled (resume_paused resumed session i now s).1
unfolding resume_paused
resume_paused-IsCoupled resumed session i now s h = elim (Option-cases (s.runs i)) [
  | inl g ↦ rw (resume_paused, g) h
  | inr (r, g) ↦ elim (Bool-cases (not (r.session_id == session && is_waiting r.status))) [
    | inl k ↦ rw (resume_paused, g, k) h
    | inr k ↦ elim (Outcome-cases (continuation i s)) [
      | inr (x, l) ↦ rw (resume_paused, g, k, l) h
      | inl (c, l) ↦
          rw (resume_paused, g, k, l)
            (moved s i r (record r { status = WorkItemStatus.running; finished_at = none })
              (touch_item WorkItemStatus.running now) h g (ground (arith, k)) refl (λ w. refl))
    ]
  ]
]

cancel_waiting-IsCoupled :
    (session i : String) (now : ℕ) (s : Workflow)
    → IsCoupled s
    → IsCoupled (cancel_waiting session i now s).1
unfolding cancel_waiting append_event
cancel_waiting-IsCoupled session i now s h = elim (Option-cases (s.runs i)) [
  | inl g ↦ rw (cancel_waiting, g) h
  | inr (r, g) ↦ elim (Bool-cases (not (r.session_id == session && is_waiting r.status))) [
    | inl k ↦ rw (cancel_waiting, g, k) h
    | inr k ↦
        rw (cancel_waiting, g, k)
          (moved s i r _ (set_item WorkItemStatus.cancelled (some message) now) h g
            (ground (arith, k)) refl (λ w. refl))
  ]
]

cancel_waiting_action-IsCoupled :
    (session i action text : String) (now : ℕ) (s : Workflow)
    → IsCoupled s
    → IsCoupled (cancel_waiting_action session i action text now s).1
unfolding cancel_waiting_action append_event
cancel_waiting_action-IsCoupled session i action text now s h = elim (Option-cases (s.runs i)) [
  | inl g ↦ rw (cancel_waiting_action, g) h
  | inr (r, g) ↦
      elim (Bool-cases
        (not (r.session_id == session && r.status == WorkItemStatus.waiting_approval))) [
          | inl k ↦ rw (cancel_waiting_action, g, k) h
          | inr k ↦
              elim (Bool-cases (nat_eq (row_count (is_cancelled_action i action) s.actions) 0)) [
                | inl l ↦ rw (cancel_waiting_action, g, k, l) h
                | inr l ↦
                    let waits : is_status WorkItemStatus.waiting_approval
                          (s.work_items r.work_item_id)
                        ≡ true =
                      ground (arith, k, h.same i r g) in
                    rw (cancel_waiting_action, g, k, l)
                      (rw waits (
                        moved s i r (cancelled_run (coalesce r.finished_at (some now)) text r)
                          (set_item WorkItemStatus.cancelled (some text) now) h g
                          (ground (arith, k)) refl (λ w. refl)))
              ]
        ]
]

settle_found-IsCoupled :
    (i : String) (now : ℕ) (r : Run) (s : Workflow)
    → IsCoupled s
    → s.runs i ≡ some r
    → (r.status == WorkItemStatus.waiting_approval) ≡ true
    → IsCoupled (settle_found i now r s).1
unfolding append_event
settle_found-IsCoupled i now r s h g waits = elim (Bool-cases (any (is_open_action i) s.actions)) [
  | inl a ↦ rw a h
  | inr a ↦ elim (Bool-cases (any (is_pending_permission i) s.permission_requests)) [
    | inl b ↦ rw a (rw b h)
    | inr b ↦ elim (Bool-cases (any (awaits_approval i) s.invocations)) [
      | inl c ↦ rw a (rw b (rw c h))
      | inr c ↦
          elim (Bool-cases
            (not (is_status WorkItemStatus.waiting_approval (s.work_items r.work_item_id)))) [
              | inl d ↦ rw a (rw b (rw c (rw d h)))
              | inr d ↦ rw a (rw b (rw c (rw d settled)))
            ]
    ]
  ]
]
  where
    outcome : ApprovalOutcome
    outcome = outcome_of (earliest (is_failed_action i) s.actions)

    settled :
        Coupled
          (put i
            (some (record r {
              status = outcome.status;
              finished_at = coalesce r.finished_at (some now);
              error_code = outcome.error_code;
              error_message = outcome.error_message;
            }))
            s.runs)
          (put r.work_item_id
            (update_item
              (set_item outcome.status outcome.error_message now)
              (s.work_items r.work_item_id))
            s.work_items)
    settled =
        moved s i r _ (set_item outcome.status outcome.error_message now) h g
          (ground (arith, waits)) refl (λ w. refl)

settle_approval-IsCoupled :
    (session i : String) (now : ℕ) (s : Workflow)
    → IsCoupled s
    → IsCoupled (settle_approval session i now s).1
unfolding settle_approval
settle_approval-IsCoupled session i now s h = elim (Option-cases (s.runs i)) [
  | inl g ↦ rw (settle_approval, g) h
  | inr (r, g) ↦ elim (Bool-cases (not (r.session_id == session))) [
    | inl k ↦ rw (settle_approval, g, k) h
    | inr k ↦
        let ended =
          mem r.status
            (WorkItemStatus.completed ∷ WorkItemStatus.failed ∷ WorkItemStatus.cancelled ∷ []) in
        elim (Bool-cases ended) [
          | inl l ↦ rw (settle_approval, g, k, l) h
          | inr l ↦ elim (Bool-cases (not (r.status == WorkItemStatus.waiting_approval))) [
            | inl m ↦ rw (settle_approval, g, k, l, m) h
            | inr m ↦
                rw (settle_approval, g, k, l, m)
                  (settle_found-IsCoupled i now r s h g (ground (arith, m)))
          ]
        ]
  ]
]

-- A call of the unit of work.
pub data WorkflowCall : Type 0 where
  start_call :
      (identifier session item question : String) (title parent step : Option String)
      → ℕ
      → WorkflowCall
  finalize_call : String → Ending → ℕ → WorkflowCall
  pause_call : String → PauseKind → ℕ → WorkflowCall
  resume_call : (resumed : String → Bool) (session run : String) → ℕ → WorkflowCall
  settle_call : (session run : String) → ℕ → WorkflowCall
  cancel_call : (session run : String) → ℕ → WorkflowCall
  cancel_action_call : (session run action text : String) → ℕ → WorkflowCall

-- the state after a call, whether it returned or raised
unfoldable pub after_call : WorkflowCall → Workflow → Workflow
unfolding start_run finalize pause resume_paused settle_approval cancel_waiting
    cancel_waiting_action
after_call (start_call i session item question title parent step now) s =
    (start_run i session item question title parent step now s).1
after_call (finalize_call i e now) s = (finalize i e now s).1
after_call (pause_call i kind now) s = (pause i kind now s).1
after_call (resume_call resumed session i now) s = (resume_paused resumed session i now s).1
after_call (settle_call session i now) s = (settle_approval session i now s).1
after_call (cancel_call session i now) s = (cancel_waiting session i now s).1
after_call (cancel_action_call session i action text now) s =
    (cancel_waiting_action session i action text now s).1

unfoldable pub run_calls : List WorkflowCall → Workflow → Workflow
unfolding after_call
run_calls [] s = s
run_calls (c ∷ calls) s = run_calls calls (after_call c s)

after_call-IsCoupled : (c : WorkflowCall) (s : Workflow) → IsCoupled s → IsCoupled (after_call c s)
unfolding after_call
after_call-IsCoupled (start_call i session item question title parent step now) s h =
    start_run-IsCoupled i session item question title parent step now s h
after_call-IsCoupled (finalize_call i e now) s h = finalize-IsCoupled i e now s h
after_call-IsCoupled (pause_call i kind now) s h = pause-IsCoupled i kind now s h
after_call-IsCoupled (resume_call resumed session i now) s h =
    resume_paused-IsCoupled resumed session i now s h
after_call-IsCoupled (settle_call session i now) s h = settle_approval-IsCoupled session i now s h
after_call-IsCoupled (cancel_call session i now) s h = cancel_waiting-IsCoupled session i now s h
after_call-IsCoupled (cancel_action_call session i action text now) s h =
    cancel_waiting_action-IsCoupled session i action text now s h

-- Whatever transactions are made on runs and work items, each returning or raising: a run that has
-- not ended has a work item of the same status, and no work item has two runs that have not ended,
-- if that was so before.
pub run_calls-IsCoupled :
    (calls : List WorkflowCall) (s : Workflow) → IsCoupled s → IsCoupled (run_calls calls s)
unfolding run_calls
run_calls-IsCoupled [] s h = h
run_calls-IsCoupled (c ∷ calls) s h =
    run_calls-IsCoupled calls (after_call c s) (after_call-IsCoupled c s h)
