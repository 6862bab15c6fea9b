-- ===== src/Actions/Store.antt =====
-- capslock/storage/repositories/actions.py: the `actions` table and its operations. A row is found
-- by its id; `now` is the instant that the call reads from the clock.
use caps_lock.Prelude.{
  ℕ, Bool, true, false, not, ◌&&◌, ◌||◌, Option, none, some, List, [], ◌∷◌, ◌++◌, String,
  if◌then◌else◌, ◌==◌, mem, string_eq, nat_eq, leb, ltb, keep, any, first, Outcome, return, raise,
  Exec, ◌>>=◌,
}
use caps_lock.Table.{update_where, row_count}
use caps_lock.Actions.Record.{
  type_eq, action_status_eq, kind_eq, ActionType, ActionStatus, ActionResultKind, ActionRecord,
  Json, json_set, file_edit, file_create, notebook_edit, pending, approved, running, completed,
  failed, rejected, cancelled, applied, undone, user_cancelled,
}

-- The ValueErrors of the repository, and the integrity error of a primary key that is taken.
pub data ActionError : Type 0 where
  missing empty_prefix ambiguous unknown_action invalid_transition changed_concurrently
        not_revalidatable not_reversible duplicate_id :
      ActionError

abbrev pub Actions : Type 0
Actions = List ActionRecord

abbrev pub Call : Type 0 → Type 0
Call = Exec ActionError Actions

abbrev pub has_id : String → ActionRecord → Bool
has_id identifier r = r.id == identifier

abbrev pub in_session : Option String → ActionRecord → Bool
in_session none r = true
in_session (some session) r = r.session_id == session

unfoldable pub get : String → Option String → Actions → Option ActionRecord
get action_id session_id rows = first (λ r. has_id action_id r && in_session session_id r) rows

abbrev pub or_missing : Option ActionRecord → Outcome ActionError ActionRecord
or_missing none = raise missing
or_missing (some action) = return action

unfoldable pub require : String → Option String → Call ActionRecord
unfolding get
require action_id session_id rows = (or_missing (get action_id session_id rows), rows)

unfoldable pub create :
    (identifier : String) (now : ℕ) (session_id run_id : String) (action_type : ActionType)
    (summary : String) (request : Json)
    → Call ActionRecord
unfolding require
create identifier now session_id run_id action_type summary request rows =
    let row : ActionRecord = record {
      id = identifier;
      session_id = session_id;
      run_id = run_id;
      type = action_type;
      status = pending;
      summary = summary;
      request = request;
      result = none;
      result_kind = none;
      created_at = now;
      approved_at = none;
      started_at = none;
      finished_at = none;
      reversed_at = none;
      decided_at = none;
      risk_level = none;
      risk_reason = none;
      rollback = none;
      error_code = none;
      error_message = none;
      import_id = none;
      historical_only = false;
      requires_reapproval = false;
    } in
    if any (has_id identifier) rows
    then (raise duplicate_id, rows)
    else require identifier (some session_id) (rows ++ row ∷ [])

abbrev pub of_types : List ActionType → ActionRecord → Bool
of_types [] r = true
of_types (t ∷ types) r = mem r.type (t ∷ types)

abbrev one_of : Actions → Outcome ActionError ActionRecord
one_of [] = raise missing
one_of (r ∷ []) = return r
one_of (r ∷ q ∷ rows) = raise ambiguous

-- `like text prefix` is SQLite's `text LIKE prefix || '%'`.
unfoldable pub resolve :
    (like : String → String → Bool) → String → String → List ActionType → Call ActionRecord
resolve like session_id prefix types rows = if prefix == "" then (raise empty_prefix, rows) else (
  one_of (
      keep
        (λ r.
          r.session_id == session_id && (r.id == prefix || like r.id prefix) && of_types types r)
        rows),
  rows,
)

-- ORDER BY created_at, a stable insertion sort
abbrev insert_created : ActionRecord → Actions → Actions
insert_created r [] = r ∷ []
insert_created r (q ∷ rows) =
    if leb r.created_at q.created_at then r ∷ q ∷ rows else q ∷ insert_created r rows

abbrev by_created : Actions → Actions
by_created [] = []
by_created (r ∷ rows) = insert_created r (by_created rows)

abbrev of_run : Option String → ActionRecord → Bool
of_run none r = true
of_run (some run) r = r.run_id == run

abbrev of_statuses : List ActionStatus → ActionRecord → Bool
of_statuses [] r = true
of_statuses (s ∷ statuses) r = mem r.status (s ∷ statuses)

unfoldable pub list_actions :
    String → Option String → List ActionType → List ActionStatus → Actions → Actions
list_actions session_id run_id types statuses rows = by_created (
    keep
      (λ r.
        r.session_id == session_id && of_run run_id r && of_types types r && of_statuses statuses r)
      rows)

abbrev pub with_risk : (level reason rollback : String) → ActionRecord → ActionRecord
with_risk level reason rollback r = record r {
  risk_level = some level;
  risk_reason = some reason;
  rollback = some rollback;
}

unfoldable pub set_risk : String → (level reason rollback : String) → Call ActionRecord
unfolding update_where row_count require
set_risk action_id level reason rollback rows =
    if nat_eq (row_count (has_id action_id) rows) 0
    then (raise unknown_action, rows)
    else require action_id none
        (update_where (has_id action_id) (with_risk level reason rollback) rows)

abbrev pub in_status : ActionStatus → String → ActionRecord → Bool
in_status status action_id r = has_id action_id r && r.status == status

abbrev pub with_manual : ActionRecord → ActionRecord
with_manual r = record r { request = json_set "_manual_approval" "true" r.request }

unfoldable pub mark_manual_approval : String → Call ActionRecord
unfolding update_where require json_set
mark_manual_approval action_id rows =
    require action_id none (update_where (in_status pending action_id) with_manual rows)

unfoldable pub allowed : ActionStatus → List ActionStatus
allowed pending = approved ∷ rejected ∷ cancelled ∷ []
allowed approved = running ∷ cancelled ∷ []
allowed running = completed ∷ failed ∷ cancelled ∷ []
allowed _ = []

abbrev pub or_else : Option ℕ → ℕ → Option ℕ
or_else none t = some t
or_else (some u) t = some u

-- What a transition reports about the execution.
pub record Report : Type 0 where
  pub result : Option Json
  pub result_kind : Option ActionResultKind
  pub error_code : Option String
  pub error_message : Option String

abbrev pub no_report : Report
no_report = record { result = none; result_kind = none; error_code = none; error_message = none }

-- the fields that the UPDATE of `transition` sets
unfoldable pub moved : ActionStatus → ℕ → Report → ActionRecord → ActionRecord
moved target timestamp report r =
    let s : ActionRecord = record r {
      status = target;
      result = report.result;
      result_kind = report.result_kind;
      error_code = report.error_code;
      error_message = report.error_message;
    } in
    if target == approved
    then record s { approved_at = some timestamp; decided_at = some timestamp }
    else if target == running
    then record s { started_at = some timestamp }
    else if mem target (rejected ∷ cancelled ∷ [])
    then record s { finished_at = some timestamp; decided_at = or_else r.decided_at timestamp }
    else record s { finished_at = some timestamp }

-- The second half of `transition`: the guarded UPDATE, given the status that `require` saw. Another
-- connection may have written to the table in between.
unfoldable pub commit_transition :
    ActionStatus → String → ActionStatus → ℕ → Report → Call ActionRecord
unfolding allowed update_where row_count require moved
commit_transition seen action_id target timestamp report rows =
    if not (mem target (allowed seen))
    then (raise invalid_transition, rows)
    else if nat_eq (row_count (in_status seen action_id) rows) 0
    then (raise changed_concurrently, rows)
    else require action_id none
        (update_where (in_status seen action_id) (moved target timestamp report) rows)

unfoldable pub transition : String → ActionStatus → ℕ → Report → Call ActionRecord
unfolding require
transition action_id target timestamp report = do
  action ← require action_id none
  commit_transition action.status action_id target timestamp report

abbrev pub revalidatable : String → ActionRecord → Bool
revalidatable action_id r = has_id action_id r && r.status == pending && not r.historical_only

abbrev pub with_revalidation :
    (summary : String) (request : Json) (level reason rollback : String)
    → ActionRecord
    → ActionRecord
with_revalidation summary request level reason rollback r = record r {
  summary = summary;
  request = request;
  risk_level = some level;
  risk_reason = some reason;
  rollback = some rollback;
  requires_reapproval = false;
  approved_at = none;
  started_at = none;
  decided_at = none;
}

unfoldable pub mark_revalidated :
    String
    → (summary : String) (request : Json) (level reason rollback : String) → Call ActionRecord
unfolding update_where row_count require
mark_revalidated action_id summary request level reason rollback rows =
    if nat_eq (row_count (revalidatable action_id) rows) 0
    then (raise not_revalidatable, rows)
    else require action_id none (
        update_where (revalidatable action_id)
          (with_revalidation summary request level reason rollback) rows)

abbrev pub active : ActionStatus → Bool
active status = mem status (pending ∷ approved ∷ running ∷ [])

abbrev pub cancel_row : ℕ → String → ActionRecord → ActionRecord
cancel_row timestamp message r = record r {
  status = cancelled;
  result_kind = some user_cancelled;
  finished_at = some timestamp;
  decided_at = or_else r.decided_at timestamp;
  error_code = some "cancelled";
  error_message = some message;
}

abbrev pub open_in_run : String → ActionRecord → Bool
open_in_run run_id r = r.run_id == run_id && active r.status

unfoldable pub cancel_run : String → ℕ → String → Call ℕ
unfolding update_where row_count
cancel_run run_id timestamp message rows = (
  return (row_count (open_in_run run_id) rows),
  update_where (open_in_run run_id) (cancel_row timestamp message) rows,
)

abbrev pub is_none {ℓ} : {A : Type ℓ} → Option A → Bool
is_none none = true
is_none (some a) = false

abbrev pub kind_is : ActionResultKind → Option ActionResultKind → Bool
kind_is k none = false
kind_is k (some j) = j == k

abbrev pub undoable : String → ActionRecord → Bool
undoable session_id r =
    r.session_id == session_id
    && mem r.type (file_edit ∷ file_create ∷ notebook_edit ∷ [])
    && r.status == completed
    && kind_is applied r.result_kind
    && is_none r.reversed_at
    && not r.historical_only

-- `NULL` sorts below every value in a descending order
abbrev pub later : Option ℕ → Option ℕ → Bool
later none b = false
later (some a) none = true
later (some a) (some b) = ltb b a

-- ORDER BY finished_at DESC LIMIT 1
abbrev pub latest : Option ActionRecord → Actions → Option ActionRecord
latest best [] = best
latest none (r ∷ rows) = latest (some r) rows
latest (some b) (r ∷ rows) = latest (some (if later r.finished_at b.finished_at then r else b)) rows

unfoldable pub last_completed_file_action : String → Actions → Option ActionRecord
last_completed_file_action session_id rows = latest none (keep (undoable session_id) rows)

abbrev pub reversible : String → ActionRecord → Bool
reversible action_id r = has_id action_id r && r.status == completed && is_none r.reversed_at

abbrev pub with_reversal : ℕ → ActionRecord → ActionRecord
with_reversal now r = record r { result_kind = some undone; reversed_at = some now }

unfoldable pub mark_reversed : String → ℕ → Call ActionRecord
unfolding update_where row_count require
mark_reversed action_id now rows =
    if nat_eq (row_count (reversible action_id) rows) 0
    then (raise not_reversible, rows)
    else require action_id none (update_where (reversible action_id) (with_reversal now) rows)
