-- ===== src/Plans/Approval/Cancelled.antt =====
-- A cancelled plan whose request is still pending.
use caps_lock.Prelude.{
  ◌≡◌, refl, ap, ◌∙◌, Option, some, String, arith, if◌then◌else◌, first, Bool-cases, inl, inr,
  string_eq, nat_eq,
}
use caps_lock.Table.{row_count, first-update_where, row_count-first}
use caps_lock.Plans.Record.{
  PlanStatus, approved, PlanRequestKind, implement, PlanRecord, PlanRequest, PlanTables,
}
use caps_lock.Plans.Store.{Functions, Fresh, has_plan_id}
use caps_lock.Plans.Requesting.{cancel, decide, pending_request, active_plan, set_status}

-- a row of the plan stays a row of the plan
cancel-plans :
    (f : Fresh) (plan : String) (s : PlanTables) (p : PlanRecord)
    → first (has_plan_id plan) s.plans ≡ some p
    → (q : PlanRecord) × (first (has_plan_id plan) (cancel f plan s).1.plans ≡ some q)
unfolding cancel
cancel-plans f plan s p e = elim (Bool-cases (nat_eq (row_count (active_plan plan) s.plans) 0)) [
  | inl k ↦ rw k (p, e)
  | inr k ↦ rw k (
    (if active_plan plan p then set_status PlanStatus.cancelled f.now p else p),
    first-update_where (has_plan_id plan) (active_plan plan) (set_status PlanStatus.cancelled f.now)
          (λ r. refl) s.plans
        ∙ rw e refl,
  )
]

cancel-requests :
    (f : Fresh) (plan : String) (s : PlanTables) → (cancel f plan s).1.requests ≡ s.requests
unfolding cancel
cancel-requests f plan s = ground arith

decide-approves :
    (fs : Functions) (f : Fresh) (request plan mode : String) (reason : Option String)
    (s : PlanTables) (r : PlanRequest) (p : PlanRecord)
    → first (pending_request request) s.requests ≡ some r
    → r.kind ≡ PlanRequestKind.submit
    → r.plan_id ≡ some plan
    → first (has_plan_id plan) s.plans ≡ some p
    → first (has_plan_id plan) (decide fs f request implement reason mode s).1.plans
      ≡ some (set_status approved f.now p)
unfolding decide
decide-approves fs f request plan mode reason s r p e kind named found = rw e (
    rw kind (
      rw named (
        first-update_where (has_plan_id plan) (has_plan_id plan) (set_status approved f.now)
          (λ x. refl) s.plans
        ∙ rw found (rw (row_count-first (has_plan_id plan) s.plans p found) refl))))

-- Cancelling a plan leaves its request pending: when the user then decides that request, to implement
-- the plan, the cancelled plan is approved.
pub decide-cancel :
    (fs : Functions) (f g : Fresh) (request plan mode : String) (reason : Option String)
    (s : PlanTables) (r : PlanRequest) (p : PlanRecord)
    → first (pending_request request) s.requests ≡ some r
    → r.kind ≡ PlanRequestKind.submit
    → r.plan_id ≡ some plan
    → first (has_plan_id plan) s.plans ≡ some p
    → (q : PlanRecord) × (first
          (has_plan_id plan)
          (decide fs g request implement reason mode (cancel f plan s).1).1.plans
        ≡ some q)
      × (q.status ≡ approved)
decide-cancel fs f g request plan mode reason s r p e kind named found =
    let (q, kept) = cancel-plans f plan s p found in
    (
      set_status approved g.now q,
      decide-approves fs g request plan mode reason (cancel f plan s).1 r q
          (ap (first (pending_request request)) (cancel-requests f plan s) ∙ e) kind named kept,
      refl,
    )
