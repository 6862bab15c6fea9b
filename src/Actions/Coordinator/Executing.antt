-- ===== src/Actions/Coordinator/Executing.antt =====
-- What execution does to an approved action, alone and when another client is faster.
use caps_lock.Prelude.{
  ℕ, ◌≡◌, refl, none, some, String, arith, string_eq, Outcome, return, raise, ap, ◌∙◌,
}
use caps_lock.Actions.Record.{ActionRecord, action_status_eq, kind_eq, approved, running, failed}
use caps_lock.Actions.Store.{
  Actions, no_report, get, require, transition, moved, allowed, invalid_transition, ActionError,
}
use caps_lock.Actions.Guards.{transition-get, transition_off_edge}
use caps_lock.Actions.Coordinator.{
  HandlerAnswer, executed, raised, World, Described, as_step, target_of, report_of, failure_report,
  started, execute_approved,
}

-- what a repository call leaves of the state
store-handed :
    {A : Type 0} (r : Outcome ActionError A × Actions) (w : World)
    → (as_step r w).1.handed ≡ w.handed
store-handed (return b, rows) w = refl
store-handed (raise e, rows) w = refl

store-actions :
    {A : Type 0} (r : Outcome ActionError A × Actions) (w : World) → (as_step r w).1.actions ≡ r.1
store-actions (return b, rows) w = refl
store-actions (raise e, rows) w = refl

-- the row of a running action after its handler's answer
abbrev pub ended : HandlerAnswer → ℕ → ActionRecord → ActionRecord
ended (executed e) now r = moved (target_of e) now (report_of e) r
ended (raised code message) now r = moved failed now (failure_report code message) r

module _ (described : Described) (handler : ActionRecord → HandlerAnswer) (session id : String)
    (now : ℕ) (a : ActionRecord) (w : World) (read : get id (some session) w.actions ≡ some a)
    (is_approved : a.status ≡ approved) where
  execute_approved-found :
      (others : Actions → Actions)
      → execute_approved described others handler session id now w
        ≡ started described handler id now
            (transition id running now no_report (others w.actions))
            w
  unfolding execute_approved require
  execute_approved-found others = rw (execute_approved, read) (rw is_approved refl)

  -- When another client has started the approved action in the meantime, the handler is not called
  -- again, but the running action of that client is marked as failed.
  pub execute_approved_race :
      (others : Actions → Actions) (b : ActionRecord)
      → get id none (others w.actions) ≡ some b
      → b.status ≡ running
      → let after = (execute_approved described others handler session id now w).1 in
        (after.handed ≡ w.handed)
        × (get id none after.actions
            ≡ some (
                moved failed now
                  (failure_report (described invalid_transition).0 (described invalid_transition).1)
                  b))
  execute_approved_race others b faster runs =
      let report =
        failure_report (described invalid_transition).0 (described invalid_transition).1 in
      let rows = others w.actions in
      let refused : transition id running now no_report rows ≡ (raise invalid_transition, rows) =
        transition_off_edge id rows b faster running now no_report
          (unfold allowed in ground (arith, runs)) in
      rw (execute_approved-found others) (
        rw refused (
          store-handed (transition id failed now report rows) (record w { actions = rows }),
          ap (get id none)
                (store-actions (transition id failed now report rows) (record w { actions = rows }))
              ∙ transition-get id rows b faster failed now report
                  (unfold allowed in ground (arith, runs)),
        ))
