-- ===== src/Actions/Guards/Edges.antt =====
-- The life cycle of an action, and that `transition` of capslock/storage/repositories/actions.py moves
-- an action along it.
use mathlib.Core.Path.{subst}
use caps_lock.Prelude.{
  ℕ, sym, ◌≡◌, ◌≢◌, ◌⊎◌, ◌≤◌, refl, true, none, some, String, arith, mem, return, raise, ◌==◌,
  string_eq, inl, inr, Bool-cases,
}
use caps_lock.Table.{row_count}
use caps_lock.Actions.Record.{
  action_status_eq, action_status_eq_iff, ActionStatus, ActionRecord, pending, approved, running,
  completed, failed, rejected, cancelled,
}
use caps_lock.Actions.Store.{
  Actions, Report, invalid_transition, changed_concurrently, transition, commit_transition, allowed,
  moved, get, has_id, or_else, require,
}
use caps_lock.Actions.Guards.{transition_outcome, transition-get, commit_transition_stale}

-- The steps of an action's life: the user approves, rejects or cancels what is proposed; what is
-- approved is started or cancelled; and what runs completes, fails or is cancelled.
pub data Step : ActionStatus → ActionStatus → Type 0 where
  approve : Step pending approved
  refuse : Step pending rejected
  withdraw : Step pending cancelled
  start : Step approved running
  abandon : Step approved cancelled
  complete : Step running completed
  fail : Step running failed
  interrupt : Step running cancelled

cases_pending :
    (t : ActionStatus)
    → mem t (allowed pending) ≡ true
    → (t ≡ approved) ⊎ (t ≡ rejected) ⊎ (t ≡ cancelled)
unfolding allowed
cases_pending t h = ground arith

cases_approved :
    (t : ActionStatus) → mem t (allowed approved) ≡ true → (t ≡ running) ⊎ (t ≡ cancelled)
unfolding allowed
cases_approved t h = ground arith

cases_running :
    (t : ActionStatus)
    → mem t (allowed running) ≡ true
    → (t ≡ completed) ⊎ (t ≡ failed) ⊎ (t ≡ cancelled)
unfolding allowed
cases_running t h = ground arith

allowed-Step : (s t : ActionStatus) → mem t (allowed s) ≡ true → Step s t
unfolding allowed
allowed-Step pending t h = elim (cases_pending t h) [
  | inl e ↦ subst (Step pending) (sym e) approve
  | inr (inl e) ↦ subst (Step pending) (sym e) refuse
  | inr (inr e) ↦ subst (Step pending) (sym e) withdraw
]
allowed-Step approved t h = elim (cases_approved t h) [
  | inl e ↦ subst (Step approved) (sym e) start
  | inr e ↦ subst (Step approved) (sym e) abandon
]
allowed-Step running t h = elim (cases_running t h) [
  | inl e ↦ subst (Step running) (sym e) complete
  | inr (inl e) ↦ subst (Step running) (sym e) fail
  | inr (inr e) ↦ subst (Step running) (sym e) interrupt
]
allowed-Step completed t h = cc
allowed-Step failed t h = cc
allowed-Step rejected t h = cc
allowed-Step cancelled t h = cc

Step-allowed : (s t : ActionStatus) → Step s t → mem t (allowed s) ≡ true
unfolding allowed
Step-allowed _ _ approve = refl
Step-allowed _ _ refuse = refl
Step-allowed _ _ withdraw = refl
Step-allowed _ _ start = refl
Step-allowed _ _ abandon = refl
Step-allowed _ _ complete = refl
Step-allowed _ _ fail = refl
Step-allowed _ _ interrupt = refl

-- What a step to `target` makes of a row `a`: the instants that it reaches are set once for each
-- stage, and the others stay.
pub record IsMoved (target : ActionStatus) (now : ℕ) (report : Report) (a b : ActionRecord)
    : Type 0 where
  pub identity :
      (b.id ≡ a.id)
      × (b.session_id ≡ a.session_id)
      × (b.run_id ≡ a.run_id)
      × (b.type ≡ a.type)
      × (b.request ≡ a.request)
  pub status : b.status ≡ target
  pub result : (b.result ≡ report.result) × (b.result_kind ≡ report.result_kind)
  pub error : (b.error_code ≡ report.error_code) × (b.error_message ≡ report.error_message)
  pub approved_at :
      ((target ≡ approved) × (b.approved_at ≡ some now))
      ⊎ ((target ≢ approved) × (b.approved_at ≡ a.approved_at))
  pub started_at :
      ((target ≡ running) × (b.started_at ≡ some now))
      ⊎ ((target ≢ running) × (b.started_at ≡ a.started_at))
  pub finished_at :
      (((target ≡ approved) ⊎ (target ≡ running)) × (b.finished_at ≡ a.finished_at))
      ⊎ ((target ≢ approved) × (target ≢ running) × (b.finished_at ≡ some now))
  pub decided_at :
      ((target ≡ approved) × (b.decided_at ≡ some now))
      ⊎ (((target ≡ rejected) ⊎ (target ≡ cancelled)) × (b.decided_at ≡ or_else a.decided_at now))
      ⊎ ((target ≢ approved)
          × (target ≢ rejected)
          × (target ≢ cancelled)
          × (b.decided_at ≡ a.decided_at))
  pub reversed_at : b.reversed_at ≡ a.reversed_at

moved-IsMoved :
    (target : ActionStatus) (now : ℕ) (report : Report) (a : ActionRecord)
    → IsMoved target now report a (moved target now report a)
unfolding moved
moved-IsMoved target now report a = record {
  identity = ground arith;
  status = ground arith;
  result = ground arith;
  error = ground arith;
  approved_at = ground arith;
  started_at = ground arith;
  finished_at = ground arith;
  decided_at = ground arith;
  reversed_at = ground arith;
}

-- what a transition to `target` does that saw the status `seen`, when the row is `a`
abbrev pub Commits :
    (seen : ActionStatus) (id : String) (target : ActionStatus) (now : ℕ) (report : Report)
    (rows : Actions) (a : ActionRecord)
    → Type 0
Commits seen id target now report rows a =
    let call = commit_transition seen id target now report rows in
    (¬ Step seen target × (call ≡ (raise invalid_transition, rows)))
    ⊎ (Step seen target × (a.status ≢ seen) × (call ≡ (raise changed_concurrently, rows)))
    ⊎ (Step seen target
        × (a.status ≡ seen)
        × ((b : ActionRecord) × (call.0 ≡ return b)
            × (get id none call.1 ≡ some b)
            × IsMoved target now report a b))

module _ (id : String) (target : ActionStatus) (now : ℕ) (report : Report) (rows : Actions)
    (a : ActionRecord) (unique : row_count (has_id id) rows ≤ 1)
    (found : get id none rows ≡ some a) where
  transition-commit :
      transition id target now report rows ≡ commit_transition a.status id target now report rows
  unfolding transition require
  transition-commit = rw found refl

  committed :
      mem target (allowed a.status) ≡ true
      → ((commit_transition a.status id target now report rows).0
          ≡ return (moved target now report a))
        × (get id none (commit_transition a.status id target now report rows).1
            ≡ some (moved target now report a))
  committed edge =
      subst
        (λ r.
          (r.0 ≡ return (moved target now report a))
          × (get id none r.1 ≡ some (moved target now report a)))
        transition-commit
        (
          ground (arith, transition_outcome id rows a found target now report, edge),
          transition-get id rows a found target now report edge,
        )

  commits : (seen : ActionStatus) → Commits seen id target now report rows a
  commits seen = elim (Bool-cases (mem target (allowed seen))) [
    | inr off ↦ inl (
      (λ step. let e = Step-allowed seen target step in cc),
      unfold commit_transition in rw off refl,
    )
    | inl edge ↦ elim (Bool-cases (a.status == seen)) [
      | inr moved_on ↦ inr (
          inl (
            allowed-Step seen target edge,
            (λ e. ground (arith, action_status_eq_iff a.status seen)),
            commit_transition_stale id target now report rows seen a unique found moved_on edge,
          ))
      | inl same ↦
          let e : a.status ≡ seen = (action_status_eq_iff a.status seen).0 same in
          inr (
            inr (
              allowed-Step seen target edge,
              e,
              subst
                  (λ x.
                    (b : ActionRecord) × ((commit_transition x id target now report rows).0
                      ≡ return b)
                    × (get id none (commit_transition x id target now report rows).1 ≡ some b)
                    × IsMoved target now report a b)
                  e
                  (let (r, t) = committed (rw e edge) in
                    (moved target now report a, r, t, moved-IsMoved target now report a)),
            ))
    ]
  ]

  -- A transition of the one action of an id writes under the status that it saw, and the write goes
  -- exactly along the steps of an action's life: off a step it raises and writes nothing; on a step,
  -- when another client has moved the action since, it raises and writes nothing; and otherwise it
  -- returns the action moved to the target, with the report and the instants of that stage, which
  -- the table then has.
  pub transition_exact :
      (seen : ActionStatus)
      → (transition id target now report rows
          ≡ commit_transition a.status id target now report rows)
        × Commits seen id target now report rows a
  transition_exact seen = (transition-commit, commits seen)
