-- ===== src/Plans/Requesting.antt =====
-- The requests of capslock/storage/repositories/plans.py: to enter the planning mode and to submit a plan,
-- their decision, and the cancellation of a plan. A tool invocation makes one request, so that
-- UNIQUE(invocation_id) is not checked.
use caps_lock.Prelude.{
  ℕ, Bool, true, false, not, ◌&&◌, Option, none, some, [], ◌∷◌, ◌++◌, String, if◌then◌else◌, nat_eq,
  first, any, ◌==◌, string_eq, raise,
}
use caps_lock.Table.{update_where, row_count}
use caps_lock.Plans.Record.{
  PlanStatus, draft, awaiting_approval, approved, rejected, PlanRequestKind, PlanRequestStatus,
  pending, PlanApprovalChoice, enter, implement, feedback, reject, PlanRecord, PlanRevision,
  PlanRequest, PlanTables, is_active, is_pending,
}
use caps_lock.Plans.Store.{
  Functions, Fresh, Planned, has_plan_id, has_request_id, require, require_request, new_plan,
  initial_revision, insert_plan, not_draft, plan_changed, empty_plan, not_pending, invalid_choice,
  no_active_plan, integrity,
}
use caps_lock.Plans.Revising.{draft_plan, draft_revision}

abbrev new_request : Fresh → String → PlanRequestKind → Option String → Option String → PlanRequest
new_request f session kind run invocation = record {
  id = f.request_id;
  session_id = session;
  plan_id = none;
  revision_id = none;
  kind = kind;
  status = pending;
  run_id = run;
  invocation_id = invocation;
  objective = none;
  choice = none;
  feedback = none;
  created_at = f.now;
  decided_at = none;
}

-- INSERT INTO plan_requests, which fails on an id that is there; what is written with the request
-- is `t`
abbrev pub insert_request : PlanRequest → PlanTables → Planned PlanRequest
insert_request r t s =
    if any (has_request_id r.id) s.requests
    then (raise integrity, s)
    else let u = record t { requests = t.requests ++ r ∷ [] } in (require_request r.id u, u)

unfoldable pub create_enter_request :
    Fresh → (session objective run invocation : String) → Planned PlanRequest
unfolding require_request
create_enter_request f session objective run invocation s =
    let asked = new_request f session PlanRequestKind.enter (some run) (some invocation) in
    insert_request (record asked { objective = some objective }) s s

abbrev pub set_status : PlanStatus → ℕ → PlanRecord → PlanRecord
set_status status now p = record p { status = status; updated_at = now }

abbrev pub submitted :
    Fresh → PlanRecord → PlanRevision → Option String → Option String → PlanRequest
submitted f plan revision run invocation =
    record (new_request f plan.session_id PlanRequestKind.submit run invocation) {
      plan_id = some plan.id;
      revision_id = some revision.id;
    }

abbrev pub submit_found :
    Functions
    → Fresh
    → PlanRecord
    → (expected : String) (run invocation : Option String) → Option PlanRevision
    → Planned PlanRequest
submit_found fs f plan expected run invocation none s = (raise plan_changed, s)
submit_found fs f plan expected run invocation (some revision) s =
    if not (revision.sha256 == expected)
    then (raise plan_changed, s)
    else if fs.strip revision.content == ""
    then (raise empty_plan, s)
    else insert_request (submitted f plan revision run invocation)
        (record s {
          plans = update_where (has_plan_id plan.id) (set_status awaiting_approval f.now) s.plans;
        })
        s

abbrev pub submit_draft :
    Functions
    → Fresh
    → (expected : String) (run invocation : Option String) → Option PlanRecord
    → Planned PlanRequest
submit_draft fs f expected run invocation none s = (raise not_draft, s)
submit_draft fs f expected run invocation (some plan) s =
    submit_found fs f plan expected run invocation (draft_revision plan s) s

unfoldable pub submit :
    Functions
    → Fresh
    → (plan expected : String) (run invocation : Option String) → Planned PlanRequest
unfolding update_where require_request
submit fs f plan expected run invocation s =
    submit_draft fs f expected run invocation (first (draft_plan plan) s.plans) s

abbrev pub pending_request : String → PlanRequest → Bool
pending_request id r = r.id == id && is_pending r.status

-- `choice not in allowed`
abbrev pub is_choice : PlanRequestKind → PlanApprovalChoice → Bool
is_choice PlanRequestKind.enter enter = true
is_choice PlanRequestKind.enter reject = true
is_choice PlanRequestKind.enter _ = false
is_choice PlanRequestKind.submit enter = false
is_choice PlanRequestKind.submit _ = true

abbrev pub decided_status : PlanApprovalChoice → PlanRequestStatus
decided_status enter = PlanRequestStatus.approved
decided_status implement = PlanRequestStatus.approved
decided_status feedback = PlanRequestStatus.feedback
decided_status reject = PlanRequestStatus.rejected

-- next_status
abbrev pub plan_status : PlanApprovalChoice → PlanStatus
plan_status implement = approved
plan_status feedback = draft
plan_status _ = rejected

abbrev pub answered : PlanApprovalChoice → Option String → ℕ → PlanRequest → PlanRequest
answered choice reason now r = record r {
  status = decided_status choice;
  choice = some choice;
  feedback = reason;
  decided_at = some now;
}

-- request["objective"] or "Plan the requested work"
abbrev pub objective_or : Option String → String
objective_or none = "Plan the requested work"
objective_or (some o) = if o == "" then "Plan the requested work" else o

abbrev plan_is : Option String → PlanRecord → Bool
plan_is none p = false
plan_is (some id) p = p.id == id

-- a decision on a pending request, whose kind admits the choice
abbrev pub decide_request :
    Functions
    → Fresh
    → (choice : PlanApprovalChoice) (reason : Option String) (mode : String) (r : PlanRequest)
    → PlanRequestKind
    → PlanTables
    → PlanTables
decide_request fs f enter reason mode r PlanRequestKind.enter s =
    let t =
      insert_plan (new_plan f r.session_id (objective_or r.objective) "model" mode none)
        (initial_revision fs f (fs.initial_content (objective_or r.objective)) "initial") s in
    record t {
      requests =
          update_where (has_request_id r.id)
            (λ q. answered enter reason f.now (record q { plan_id = some f.plan_id })) s.requests;
    }
decide_request fs f choice reason mode r PlanRequestKind.enter s = record s {
  requests = update_where (has_request_id r.id) (answered choice reason f.now) s.requests;
}
decide_request fs f choice reason mode r PlanRequestKind.submit s = record s {
  requests = update_where (has_request_id r.id) (answered choice reason f.now) s.requests;
  plans = update_where (plan_is r.plan_id) (set_status (plan_status choice) f.now) s.plans;
}

abbrev pub decide_found :
    Functions
    → Fresh
    → (choice : PlanApprovalChoice) (reason : Option String) (mode : String) → Option PlanRequest
    → Planned PlanRequest
decide_found fs f choice reason mode none s = (raise not_pending, s)
decide_found fs f choice reason mode (some r) s =
    if not (is_choice r.kind choice)
    then (raise invalid_choice, s)
    else let t = decide_request fs f choice reason mode r r.kind s in (require_request r.id t, t)

unfoldable pub decide :
    Functions
    → Fresh
    → (request : String) (choice : PlanApprovalChoice) (reason : Option String) (mode : String)
    → Planned PlanRequest
unfolding update_where require_request
decide fs f request choice reason mode s =
    decide_found fs f choice reason mode (first (pending_request request) s.requests) s

abbrev pub active_plan : String → PlanRecord → Bool
active_plan id r = r.id == id && is_active r.status

unfoldable pub cancel : Fresh → String → Planned PlanRecord
unfolding update_where row_count require
cancel f plan s =
    if nat_eq (row_count (active_plan plan) s.plans) 0
    then (raise no_active_plan, s)
    else let t = record s {
      plans = update_where (active_plan plan) (set_status PlanStatus.cancelled f.now) s.plans;
    } in
      (require plan t, t)
