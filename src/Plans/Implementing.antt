-- ===== src/Plans/Implementing.antt =====
-- The implementations of capslock/storage/repositories/plans.py: ensure_implementation,
-- mark_implementation_run and finish_implementation, and the lists of requests.
use caps_lock.Prelude.{
  ℕ, suc, Bool, true, false, not, ◌&&◌, Option, none, some, List, [], ◌∷◌, ◌++◌, map, String,
  if◌then◌else◌, first, keep, any, ◌==◌, string_eq, Outcome, return, raise,
}
use caps_lock.Table.{update_where}
use caps_lock.Plans.Record.{
  PlanStatus, implementing, implemented, implementation_failed, ImplementationStatus, queued,
  running, completed, failed, RunOutcome, PlanRecord, PlanRevision, PlanRequest, PlanImplementation,
  QueuedItem, PlanTables, is_pending, is_submit, is_approved, is_implement,
}
use caps_lock.Plans.Store.{
  PlanError, Functions, Fresh, Planned, has_plan_id, has_revision_id, or_raise, not_approved,
  no_implementation, integrity,
}
use caps_lock.Plans.Revising.{largest}
use caps_lock.Plans.Requesting.{set_status}

abbrev pub approved_request : String → PlanRequest → Bool
approved_request id r =
    r.id == id && is_submit r.kind && is_approved r.status && is_implement r.choice

abbrev pub of_request : String → PlanImplementation → Bool
of_request id i = i.request_id == id

abbrev pub implements : String → PlanImplementation → Bool
implements plan i = i.plan_id == plan

unfoldable pub implementation : String → PlanTables → Outcome PlanError PlanImplementation
implementation plan s = or_raise no_implementation (first (implements plan) s.implementations)

abbrev queued_of : String → QueuedItem → Bool
queued_of session i = i.session_id == session && i.is_queued

-- coalesce(max(position),-1)+1
abbrev next_position : String → List QueuedItem → ℕ
next_position session rows = elim (keep (queued_of session) rows) [
  | [] ↦ 0
  | item ∷ items ↦ suc (largest (map (λ (i : QueuedItem). i.position) (item ∷ items)))
]

abbrev pub new_implementation : Fresh → (plan revision request : String) → PlanImplementation
new_implementation f plan revision request = record {
  plan_id = plan;
  revision_id = revision;
  request_id = request;
  work_item_id = f.work_id;
  run_id = none;
  status = queued;
  created_at = f.now;
  updated_at = f.now;
}

abbrev pub queue_item :
    Functions → Fresh → PlanRequest → PlanRecord → PlanRevision → PlanTables → QueuedItem
queue_item fs f r plan revision s = record {
  id = f.work_id;
  session_id = r.session_id;
  question = fs.implementation_prompt plan.objective revision.content revision.sha256;
  is_queued = true;
  position = next_position r.session_id s.work_items;
  created_at = f.now;
}

-- the inserts, which fail for a plan that has an implementation, PRIMARY KEY(plan_id)
abbrev pub implement_request :
    Functions → Fresh → PlanRequest → PlanRecord → PlanRevision → Planned PlanImplementation
implement_request fs f r plan revision s =
    if any (implements plan.id) s.implementations
    then (raise integrity, s)
    else let t = record s {
      work_items = s.work_items ++ queue_item fs f r plan revision s ∷ [];
      implementations = s.implementations ++ new_implementation f plan.id revision.id r.id ∷ [];
      plans = update_where (has_plan_id plan.id) (set_status implementing f.now) s.plans;
    } in
      (implementation plan.id t, t)

abbrev pub existing :
    Functions
    → Fresh
    → PlanRequest
    → PlanRecord
    → PlanRevision
    → Option PlanImplementation
    → Planned PlanImplementation
existing fs f r plan revision (some i) s = (return i, s)
existing fs f r plan revision none s = implement_request fs f r plan revision s

-- the row of the join
abbrev pub joined :
    Functions
    → Fresh
    → PlanRequest
    → Option PlanRecord
    → Option PlanRevision
    → Planned PlanImplementation
joined fs f r (some plan) (some revision) s =
    existing fs f r plan revision (first (of_request r.id) s.implementations) s
joined fs f r _ _ s = (raise not_approved, s)

abbrev pub find_plan : Option String → PlanTables → Option PlanRecord
find_plan none s = none
find_plan (some id) s = first (has_plan_id id) s.plans

abbrev pub find_revision : Option String → PlanTables → Option PlanRevision
find_revision none s = none
find_revision (some id) s = first (has_revision_id id) s.revisions

abbrev pub ensure_found : Functions → Fresh → Option PlanRequest → Planned PlanImplementation
ensure_found fs f none s = (raise not_approved, s)
ensure_found fs f (some r) s =
    joined fs f r (find_plan r.plan_id s) (find_revision r.revision_id s) s

unfoldable pub ensure_implementation : Functions → Fresh → String → Planned PlanImplementation
unfolding update_where implementation
ensure_implementation fs f request s =
    ensure_found fs f (first (approved_request request) s.requests) s

abbrev pub of_work_item : String → PlanImplementation → Bool
of_work_item id i = i.work_item_id == id

abbrev is_unfinished : ImplementationStatus → Bool
is_unfinished queued = true
is_unfinished running = true
is_unfinished _ = false

abbrev pub unfinished_of : String → PlanImplementation → Bool
unfinished_of id i = i.work_item_id == id && is_unfinished i.status

abbrev pub set_run : String → ℕ → PlanImplementation → PlanImplementation
set_run run now i = record i { run_id = some run; status = running; updated_at = now }

unfoldable pub mark_implementation_run : Fresh → (work_item run : String) → PlanTables → PlanTables
unfolding update_where
mark_implementation_run f work_item run s =
    elim (first (of_work_item work_item) s.implementations) [
      | none ↦ s
      | some i ↦ record s {
        implementations =
            update_where (unfinished_of work_item) (set_run run f.now) s.implementations;
        plans = update_where (has_plan_id i.plan_id) (set_status implementing f.now) s.plans;
      }
    ]

abbrev implementation_status : RunOutcome → ImplementationStatus
implementation_status RunOutcome.completed = completed
implementation_status RunOutcome.cancelled = ImplementationStatus.cancelled
implementation_status _ = failed

abbrev finished_status : RunOutcome → PlanStatus
finished_status RunOutcome.completed = implemented
finished_status _ = implementation_failed

abbrev pub by_run : String → PlanImplementation → Bool
by_run run i = elim i.run_id [ none ↦ false | some r ↦ r == run ]

abbrev pub set_outcome : RunOutcome → ℕ → PlanImplementation → PlanImplementation
set_outcome outcome now i = record i { status = implementation_status outcome; updated_at = now }

abbrev pub finish_found :
    Fresh → String → RunOutcome → Option PlanImplementation → PlanTables → PlanTables
finish_found f run outcome none s = s
finish_found f run outcome (some i) s = record s {
  implementations = update_where (by_run run) (set_outcome outcome f.now) s.implementations;
  plans = update_where (has_plan_id i.plan_id) (set_status (finished_status outcome) f.now) s.plans;
}

unfoldable pub finish_implementation : Fresh → (run : String) → RunOutcome → PlanTables → PlanTables
unfolding update_where
finish_implementation f run RunOutcome.other s = s
finish_implementation f run outcome s =
    finish_found f run outcome (first (by_run run) s.implementations) s

-- unreconciled_approved_requests, in the order of the table
unfoldable pub unreconciled_approved_requests : String → PlanTables → List PlanRequest
unreconciled_approved_requests session s =
    keep
      (λ r.
        r.session_id == session
        && approved_request r.id r
        && not (any (of_request r.id) s.implementations))
      s.requests

unfoldable pub pending_requests : String → PlanTables → List PlanRequest
pending_requests session s = keep (λ r. r.session_id == session && is_pending r.status) s.requests
