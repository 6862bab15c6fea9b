-- ===== src/Actions/Coordinator.antt =====
-- capslock/application/action_system/core.py: `ActionCoordinator`, the approval and the execution of
-- proposed actions. A handler is the function of what it answers; the actions that are handed to
-- handlers are recorded in their order. What other clients write between a read and the next write
-- is an argument. An exception comes with its text, `str(exc) or type(exc).__name__`. Cancellation
-- of the awaiting task and the events are not modelled.
pub mod Executing
use caps_lock.Prelude.{
  ℕ, Bool, true, false, not, ◌&&◌, ◌||◌, Option, none, some, List, [], ◌∷◌, ◌++◌, String,
  if◌then◌else◌, ◌==◌, string_eq, mem, Outcome, return, raise, Exec, pure, throw, lift, gets,
  writes, ◌>>=◌, ◌>>◌,
}
use caps_lock.Actions.Record.{
  ActionRecord, ActionStatus, ActionType, ActionResultKind, Json, action_status_eq, type_eq,
  kind_eq, pending, approved, running, completed, failed, rejected, nonzero_exit, timeout,
  execution_error, file_edit, file_create,
}
use caps_lock.Actions.Store.{
  Actions, ActionError, Report, no_report, require, transition, create, set_risk,
  mark_manual_approval, mark_revalidated, last_completed_file_action, mark_reversed,
}

pub record Execution : Type 0 where
  pub result : Json
  pub result_kind : ActionResultKind

-- what a handler answers: an execution, or an exception with its class name and text
pub data HandlerAnswer : Type 0 where
  executed : Execution → HandlerAnswer
  raised : (error_code error_message : String) → HandlerAnswer

pub record World : Type 0 where
  pub actions : Actions
  pub handed : List ActionRecord

-- the class name of an exception of the store, and its text
abbrev pub Described : Type 0
Described = ActionError → String × String

pub data CoordinatorError : Type 0 where
  store_error : ActionError → CoordinatorError
  needs_approval historical nothing_to_undo not_persisted : CoordinatorError

abbrev pub Step : Type 0 → Type 0
Step = Exec CoordinatorError World

abbrev pub as_step :
    {A : Type 0} → Outcome ActionError A × Actions → World → Outcome CoordinatorError A × World
as_step (return a, rows) w = (return a, record w { actions = rows })
as_step (raise e, rows) w = (raise (store_error e), record w { actions = rows })

-- a call of the repository
abbrev pub store : {A : Type 0} → (Actions → Outcome ActionError A × Actions) → Step A
store call w = as_step (call w.actions) w

abbrev is_failure : ActionResultKind → Bool
is_failure kind = mem kind (nonzero_exit ∷ timeout ∷ [])

abbrev pub target_of : Execution → ActionStatus
target_of e = if is_failure e.result_kind then failed else completed

abbrev kind_text : ActionResultKind → String
kind_text nonzero_exit = "nonzero_exit"
kind_text timeout = "timeout"
kind_text _ = ""

abbrev failure_text : ActionResultKind → Option String
failure_text nonzero_exit = some "command exited with a non-zero status"
failure_text timeout = some "command timed out"
failure_text _ = none

abbrev pub report_of : Execution → Report
report_of e = record {
  result = some e.result;
  result_kind = some e.result_kind;
  error_code = if is_failure e.result_kind then some (kind_text e.result_kind) else none;
  error_message = failure_text e.result_kind;
}

abbrev pub failure_report : (error_code error_message : String) → Report
failure_report code message = record {
  result = none;
  result_kind = some execution_error;
  error_code = some code;
  error_message = some message;
}

abbrev pub hand : ActionRecord → World → World
hand a w = record w { handed = w.handed ++ a ∷ [] }

abbrev pub answered : String → ℕ → HandlerAnswer → Step ActionRecord
answered id now (executed e) = store (transition id (target_of e) now (report_of e))
answered id now (raised code message) =
    store (transition id failed now (failure_report code message))

-- from the transition to RUNNING on; its exceptions are caught like those of the handler
abbrev pub started :
    Described
    → (ActionRecord → HandlerAnswer)
    → String
    → ℕ
    → Outcome ActionError ActionRecord × Actions
    → Step ActionRecord
started described handler id now (return a, rows) w =
    answered id now (handler a) (hand a (record w { actions = rows }))
started described handler id now (raise e, rows) w =
    answered id now (raised (described e).0 (described e).1) (record w { actions = rows })

abbrev pub execute_found :
    Described
    → (others : Actions → Actions) → (ActionRecord → HandlerAnswer)
    → String
    → ℕ
    → ActionRecord
    → Step ActionRecord
execute_found described others handler id now a w =
    if not (a.status == approved)
    then (raise needs_approval, w)
    else started described handler id now (transition id running now no_report (others w.actions)) w

-- `others` is what other clients write between the read and the transition
unfoldable pub execute_approved :
    Described
    → (others : Actions → Actions) → (ActionRecord → HandlerAnswer)
    → (session_id action_id : String) → ℕ
    → Step ActionRecord
unfolding require transition
execute_approved described others handler session id now = do
  a ← store (require id (some session))
  execute_found described others handler id now a

-- What a handler proposes, and the assessment that is stored with it.
pub record Proposal : Type 0 where
  pub summary : String
  pub request : Json
  pub level : String
  pub reason : String
  pub rollback : String

abbrev revalidated : (ActionRecord → Proposal) → ActionRecord → Step ActionRecord
revalidated revalidate a w =
    let p = revalidate a in
    if a.status == pending && a.requires_reapproval
    then store (mark_revalidated a.id p.summary p.request p.level p.reason p.rollback) w
    else (return a, w)

abbrev approve_pending : ℕ → ActionRecord → Step ActionRecord
approve_pending now a w =
    if a.status == pending then store (transition a.id approved now no_report) w else (return a, w)

abbrev execute_if :
    Described → (ActionRecord → HandlerAnswer) → String → ℕ → ActionRecord → Step ActionRecord
execute_if described handler session now a w =
    if not (a.status == approved)
    then (raise needs_approval, w)
    else execute_approved described (λ rows. rows) handler session a.id now w

abbrev current : ActionRecord → Step ActionRecord
current a w = if a.historical_only then (raise historical, w) else (return a, w)

unfoldable pub approve_and_execute :
    Described
    → (ActionRecord → Proposal)
    → (ActionRecord → HandlerAnswer)
    → (session_id action_id : String) → ℕ
    → Step ActionRecord
unfolding require transition mark_revalidated execute_approved
approve_and_execute described revalidate handler session id now = do
  a ← store (require id (some session))
  b ← current a
  c ← revalidated revalidate b
  d ← approve_pending now c
  execute_if described handler session now d

unfoldable pub reject : (session_id action_id : String) → ℕ → Step ActionRecord
unfolding require transition
reject session id now = do
  a ← store (require id (some session))
  store (transition a.id rejected now no_report)

abbrev reverse_found : ℕ → Option ActionRecord → Step ActionRecord
reverse_found now none w = (raise nothing_to_undo, w)
reverse_found now (some a) w = store (mark_reversed a.id now) w

-- the handler's `reverse`, which restores the file, is not modelled
unfoldable pub reverse_last_file_action : (session_id : String) → ℕ → Step ActionRecord
unfolding last_completed_file_action mark_reversed
reverse_last_file_action session now w =
    reverse_found now (last_completed_file_action session w.actions) w
