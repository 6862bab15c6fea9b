-- ===== src/Actions/Lifecycle.antt =====
-- The life of an action: what its status says of its timestamps, whatever calls have been made.
use caps_lock.Prelude.{
  ℕ, ◌≡◌, Bool, true, false, none, [], ◌∷◌, String, arith, mem, any, All, Bool-cases, raise, inl,
  inr, if◌then◌else◌, nat_eq, string_eq,
}
use caps_lock.Table.{update_where, row_count, All-update_where, All-append}
use caps_lock.Actions.Record.{
  action_status_eq, kind_eq, ActionType, ActionStatus, ActionRecord, Json, pending, approved,
  running, completed,
}
use caps_lock.Actions.Store.{
  Actions, Report, active, is_none, has_id, allowed, moved, cancel_row, require, create, set_risk,
  mark_manual_approval, commit_transition, ActionError, unknown_action, changed_concurrently,
  not_revalidatable, not_reversible, with_risk, in_status, with_manual, revalidatable,
  with_revalidation, open_in_run, reversible, with_reversal, mark_revalidated, cancel_run,
  mark_reversed,
}

-- An action runs and completes only after an approval and a start; it has a finishing time exactly
-- when it is no longer active; and only a completed action is reversed.
pub record IsSound (r : ActionRecord) : Type 0 where
  pub approved :
      mem r.status (approved ∷ running ∷ completed ∷ []) ≡ true → is_none r.approved_at ≡ false
  pub started : mem r.status (running ∷ completed ∷ []) ≡ true → is_none r.started_at ≡ false
  pub finished : is_none r.finished_at ≡ active r.status
  pub reversed : is_none r.reversed_at ≡ false → r.status ≡ completed

moved-IsSound :
    (target : ActionStatus) (t : ℕ) (report : Report) (r : ActionRecord)
    → mem target (allowed r.status) ≡ true
    → IsSound r
    → IsSound (moved target t report r)
unfolding moved allowed
moved-IsSound target t report r edge h = ground arith

cancel_row-IsSound :
    (t : ℕ) (message : String) (r : ActionRecord)
    → active r.status ≡ true
    → IsSound r
    → IsSound (cancel_row t message r)
cancel_row-IsSound t message r open_ h = ground arith

in_status-eq :
    (seen : ActionStatus) (id : String) (r : ActionRecord)
    → in_status seen id r ≡ true
    → r.status ≡ seen
in_status-eq seen id r p = ground arith

-- Every row of the table is sound.
abbrev pub IsSoundTable : Actions → Type 0
IsSoundTable rows = All IsSound rows

module _ (rows : Actions) (sound : IsSoundTable rows) where
  -- a guarded update whose written rows stay sound
  guarded :
      (row : ActionRecord → Bool) (f : ActionRecord → ActionRecord)
      → ((r : ActionRecord) → IsSound r → row r ≡ true → IsSound (f r))
      → (id : String) (e : ActionError)
      → IsSoundTable
          (if nat_eq (row_count row rows) 0
            then (raise e, rows)
            else require id none (update_where row f rows)).1
  unfolding require
  guarded row f keeps id e = elim (Bool-cases (nat_eq (row_count row rows) 0)) [
    | inl c ↦ rw c sound
    | inr c ↦ rw c (All-update_where IsSound row f keeps rows sound)
  ]

  pub create-IsSound :
      (identifier : String) (now : ℕ) (session run : String) (type : ActionType) (summary : String)
      (request : Json)
      → IsSoundTable (create identifier now session run type summary request rows).1
  unfolding create
  create-IsSound identifier now session run type summary request =
      elim (Bool-cases (any (has_id identifier) rows)) [
        | inl taken ↦ rw taken sound
        | inr fresh ↦ rw fresh (All-append IsSound rows _ sound (ground arith, tt))
      ]

  pub set_risk-IsSound :
      (id level reason rollback : String) → IsSoundTable (set_risk id level reason rollback rows).1
  unfolding set_risk
  set_risk-IsSound id level reason rollback =
      guarded (has_id id) (with_risk level reason rollback) (λ r h p. ground arith) id
        unknown_action

  pub mark_manual_approval-IsSound : (id : String) → IsSoundTable (mark_manual_approval id rows).1
  unfolding mark_manual_approval
  mark_manual_approval-IsSound id =
      All-update_where IsSound (in_status pending id) with_manual (λ r h p. ground arith) rows sound

  pub commit_transition-IsSound :
      (seen : ActionStatus) (id : String) (target : ActionStatus) (t : ℕ) (report : Report)
      → IsSoundTable (commit_transition seen id target t report rows).1
  unfolding commit_transition
  commit_transition-IsSound seen id target t report =
      elim (Bool-cases (mem target (allowed seen))) [
        | inl edge ↦ rw edge (
            guarded (in_status seen id) (moved target t report)
              (λ r h p.
                moved-IsSound target t report r (ground (arith, in_status-eq seen id r p)) h)
              id changed_concurrently)
        | inr none_ ↦ rw none_ sound
      ]

  pub mark_revalidated-IsSound :
      (id summary : String) (request : Json) (level reason rollback : String)
      → IsSoundTable (mark_revalidated id summary request level reason rollback rows).1
  unfolding mark_revalidated
  mark_revalidated-IsSound id summary request level reason rollback =
      guarded (revalidatable id) (with_revalidation summary request level reason rollback)
        (λ r h p. ground arith) id not_revalidatable

  pub cancel_run-IsSound :
      (run : String) (t : ℕ) (message : String) → IsSoundTable (cancel_run run t message rows).1
  unfolding cancel_run
  cancel_run-IsSound run t message =
      All-update_where IsSound (open_in_run run) (cancel_row t message)
        (λ r h p. cancel_row-IsSound t message r (ground arith) h) rows sound

  pub mark_reversed-IsSound : (id : String) (now : ℕ) → IsSoundTable (mark_reversed id now rows).1
  unfolding mark_reversed
  mark_reversed-IsSound id now =
      guarded (reversible id) (with_reversal now) (λ r h p. ground arith) id not_reversible
