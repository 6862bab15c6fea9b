-- ===== src/Plans/Approval/Histories.antt =====
-- The calls of `PlanRepository` over any history.
use mathlib.Core.Path.{subst}
use caps_lock.Prelude.{
  ◌≡◌, refl, sym, ap, ◌∙◌, eq_iff, true, Option, none, some, List, [], ◌∷◌, String, arith, any,
  first, Bool-cases, Option-cases, inl, inr, ◌==◌, string_eq,
}
use caps_lock.Table.{row_count-first, first_unique, All-append}
use caps_lock.Plans.Record.{
  PlanRequestKind, PlanApprovalChoice, enter, implement, feedback, reject, RunOutcome, PlanRecord,
  PlanRevision, PlanRequest, PlanImplementation, PlanTables,
}
use caps_lock.Plans.Store.{Functions, Fresh, create, has_request_id, has_plan_id, has_revision_id}
use caps_lock.Plans.Revising.{
  append_revision, append_draft, append_found, append_current, draft_plan, draft_revision,
}
use caps_lock.Plans.Requesting.{
  create_enter_request, submit, submit_draft, submit_found, decide, decide_found, decide_request,
  cancel, pending_request, is_choice,
}
use caps_lock.Plans.Implementing.{
  ensure_implementation, ensure_found, joined, existing, implement_request, mark_implementation_run,
  finish_implementation, finish_found, approved_request, find_plan, find_revision,
  new_implementation, implements, of_work_item, unfinished_of, set_run, by_run, set_outcome,
}
use caps_lock.Plans.Approval.{
  IsApproved, IsBacked, insert_request-IsApproved, answer-IsApproved, untouched-IsApproved,
  update-IsApproved,
}

-- a call of the repository, with what it draws
pub data PlanCall : Type 0 where
  creating :
      Fresh
      → (session objective entry_source mode content : String) → Option String
      → (source : String) → PlanCall
  appending : Fresh → (plan content expected source : String) → Option String → PlanCall
  entering : Fresh → (session objective run invocation : String) → PlanCall
  submitting : Fresh → (plan expected : String) (run invocation : Option String) → PlanCall
  deciding :
      Fresh → (request : String) → PlanApprovalChoice → Option String → (mode : String) → PlanCall
  cancelling : Fresh → (plan : String) → PlanCall
  ensuring : Fresh → (request : String) → PlanCall
  marking : Fresh → (work_item run : String) → PlanCall
  finishing : Fresh → (run : String) → RunOutcome → PlanCall

module _ (fs : Functions) where
  append_revision-IsApproved :
      (f : Fresh) (plan content expected source : String) (run : Option String) (s : PlanTables)
      → IsApproved s
      → IsApproved (append_revision fs f plan content expected source run s).1
  unfolding append_revision
  append_revision-IsApproved f plan content expected source run s h =
      by_draft (first (draft_plan plan) s.plans)
    where
      by_current :
          (r : PlanRevision)
          → IsApproved (append_current fs f plan content expected source run r s).1
      by_current r = untouched-IsApproved s _ (ground arith) (ground arith) h

      by_found :
          (r : Option PlanRevision)
          → IsApproved (append_found fs f plan content expected source run r s).1
      by_found none = h
      by_found (some r) = by_current r

      by_draft :
          (p : Option PlanRecord)
          → IsApproved (append_draft fs f plan content expected source run p s).1
      by_draft none = h
      by_draft (some p) = by_found (draft_revision p s)

  submit-IsApproved :
      (f : Fresh) (plan expected : String) (run invocation : Option String) (s : PlanTables)
      → IsApproved s
      → IsApproved (submit fs f plan expected run invocation s).1
  unfolding submit
  submit-IsApproved f plan expected run invocation s h = by_draft (first (draft_plan plan) s.plans)
    where
      by_found :
          (p : PlanRecord) (r : Option PlanRevision)
          → IsApproved (submit_found fs f p expected run invocation r s).1
      by_found p none = h
      by_found p (some r) = elim (Bool-cases (r.sha256 == expected)) [
        | inr e ↦ rw e h
        | inl e ↦ elim (Bool-cases (fs.strip r.content == "")) [
          | inl k ↦ rw e (rw k h)
          | inr k ↦ rw e (rw k (insert_request-IsApproved _ _ s refl refl h))
        ]
      ]

      by_draft :
          (p : Option PlanRecord) → IsApproved (submit_draft fs f expected run invocation p s).1
      by_draft none = h
      by_draft (some p) = by_found p (draft_revision p s)

  -- the new table of a decision, by the kind of the request
  decide_request-IsApproved :
      (f : Fresh) (request : String) (choice : PlanApprovalChoice) (reason : Option String)
      (mode : String) (r : PlanRequest) (kind : PlanRequestKind) (s : PlanTables)
      → first (pending_request request) s.requests ≡ some r
      → IsApproved s
      → IsApproved (decide_request fs f choice reason mode r kind s)
  decide_request-IsApproved f request enter reason mode r PlanRequestKind.enter s e h =
      answer-IsApproved s _ request r _ (λ q. refl) e refl refl h
  decide_request-IsApproved f request implement reason mode r PlanRequestKind.enter s e h =
      answer-IsApproved s _ request r _ (λ q. refl) e refl refl h
  decide_request-IsApproved f request feedback reason mode r PlanRequestKind.enter s e h =
      answer-IsApproved s _ request r _ (λ q. refl) e refl refl h
  decide_request-IsApproved f request reject reason mode r PlanRequestKind.enter s e h =
      answer-IsApproved s _ request r _ (λ q. refl) e refl refl h
  decide_request-IsApproved f request choice reason mode r PlanRequestKind.submit s e h =
      answer-IsApproved s _ request r _ (λ q. refl) e refl refl h

  decide-IsApproved :
      (f : Fresh) (request : String) (choice : PlanApprovalChoice) (reason : Option String)
      (mode : String) (s : PlanTables)
      → IsApproved s
      → IsApproved (decide fs f request choice reason mode s).1
  unfolding decide
  decide-IsApproved f request choice reason mode s h =
      by_found (first (pending_request request) s.requests) refl
    where
      by_found :
          (r : Option PlanRequest)
          → first (pending_request request) s.requests ≡ r
          → IsApproved (decide_found fs f choice reason mode r s).1
      by_found none e = h
      by_found (some r) e = elim (Bool-cases (is_choice r.kind choice)) [
        | inl k ↦ rw k (decide_request-IsApproved f request choice reason mode r r.kind s e h)
        | inr k ↦ rw k h
      ]

  find_plan-id :
      (id : Option String) (s : PlanTables) (p : PlanRecord)
      → find_plan id s ≡ some p
      → id ≡ some p.id
  find_plan-id none s p e = cc
  find_plan-id (some id) s p e =
      ap some (sym ((eq_iff p.id id).0 (row_count-first (has_plan_id id) s.plans p e)))

  find_revision-id :
      (id : Option String) (s : PlanTables) (r : PlanRevision)
      → find_revision id s ≡ some r
      → id ≡ some r.id
  find_revision-id none s r e = cc
  find_revision-id (some id) s r e =
      ap some (sym ((eq_iff r.id id).0 (row_count-first (has_revision_id id) s.revisions r e)))

  -- the new implementation has the plan and the revision of the approved request
  new-IsBacked :
      (f : Fresh) (request : String) (r : PlanRequest) (plan : PlanRecord) (revision : PlanRevision)
      (s : PlanTables)
      → first (approved_request request) s.requests ≡ some r
      → find_plan r.plan_id s ≡ some plan
      → find_revision r.revision_id s ≡ some revision
      → IsApproved s
      → IsBacked s.requests (new_implementation f plan.id revision.id r.id)
  new-IsBacked f request r plan revision s e p v h =
      let met = row_count-first (approved_request request) s.requests r e in
      let is : r.id ≡ request = (eq_iff r.id request).0 (ground arith) in
      (
        r,
        ap (λ id. first (has_request_id id) s.requests) is
            ∙ first_unique (approved_request request) (has_request_id request) (λ x k. ground arith)
                s.requests r e (h.keyed request),
        record {
          approved = subst (λ id. approved_request id r ≡ true) (sym is) met;
          same_plan = find_plan-id r.plan_id s plan p;
          same_revision = find_revision-id r.revision_id s revision v;
        },
      )

  implement_request-IsApproved :
      (f : Fresh) (request : String) (r : PlanRequest) (plan : PlanRecord) (revision : PlanRevision)
      (s : PlanTables)
      → first (approved_request request) s.requests ≡ some r
      → find_plan r.plan_id s ≡ some plan
      → find_revision r.revision_id s ≡ some revision
      → IsApproved s
      → IsApproved (implement_request fs f r plan revision s).1
  implement_request-IsApproved f request r plan revision s e p v h =
      elim (Bool-cases (any (implements plan.id) s.implementations)) [
        | inl k ↦ rw k h
        | inr k ↦ rw k (record {
          keyed = h.keyed;
          backed =
              All-append (IsBacked s.requests) s.implementations _ h.backed
                (new-IsBacked f request r plan revision s e p v h, tt);
        })
      ]

  ensure_implementation-IsApproved :
      (f : Fresh) (request : String) (s : PlanTables)
      → IsApproved s
      → IsApproved (ensure_implementation fs f request s).1
  unfolding ensure_implementation
  ensure_implementation-IsApproved f request s h =
      by_request (first (approved_request request) s.requests) refl
    where
      by_existing :
          (r : PlanRequest) (plan : PlanRecord) (revision : PlanRevision)
          (i : Option PlanImplementation)
          → IsApproved (implement_request fs f r plan revision s).1
          → IsApproved (existing fs f r plan revision i s).1
      by_existing r plan revision (some i) k = h
      by_existing r plan revision none k = k

      by_row :
          (r : PlanRequest) (plan : Option PlanRecord) (revision : Option PlanRevision)
          → first (approved_request request) s.requests ≡ some r
          → find_plan r.plan_id s ≡ plan
          → find_revision r.revision_id s ≡ revision
          → IsApproved (joined fs f r plan revision s).1
      by_row r (some plan) (some revision) e p v =
          by_existing r plan revision _
            (implement_request-IsApproved f request r plan revision s e p v h)
      by_row r (some plan) none e p v = h
      by_row r none revision e p v = h

      by_request :
          (r : Option PlanRequest)
          → first (approved_request request) s.requests ≡ r
          → IsApproved (ensure_found fs f r s).1
      by_request none e = h
      by_request (some r) e = by_row r _ _ e refl refl

  cancel-IsApproved :
      (f : Fresh) (plan : String) (s : PlanTables) → IsApproved s → IsApproved (cancel f plan s).1
  unfolding cancel
  cancel-IsApproved f plan s h = untouched-IsApproved s _ (ground arith) (ground arith) h

  mark_implementation_run-IsApproved :
      (f : Fresh) (work_item run : String) (s : PlanTables)
      → IsApproved s
      → IsApproved (mark_implementation_run f work_item run s)
  unfolding mark_implementation_run
  mark_implementation_run-IsApproved f work_item run s h =
      elim (Option-cases (first (of_work_item work_item) s.implementations)) [
        | inl e ↦ rw (mark_implementation_run, e) h
        | inr (i, e) ↦
            rw (mark_implementation_run, e)
              (update-IsApproved s _ (unfinished_of work_item) (set_run run f.now)
                (λ x. (refl, refl, refl)) refl refl h)
      ]

  finish_found-IsApproved :
      (f : Fresh) (run : String) (outcome : RunOutcome) (i : Option PlanImplementation)
      (s : PlanTables)
      → IsApproved s
      → IsApproved (finish_found f run outcome i s)
  finish_found-IsApproved f run outcome none s h = h
  finish_found-IsApproved f run outcome (some i) s h =
      update-IsApproved s _ (by_run run) (set_outcome outcome f.now) (λ x. (refl, refl, refl)) refl
        refl h

  finish_implementation-IsApproved :
      (f : Fresh) (run : String) (outcome : RunOutcome) (s : PlanTables)
      → IsApproved s
      → IsApproved (finish_implementation f run outcome s)
  unfolding finish_implementation
  finish_implementation-IsApproved f run RunOutcome.other s h = h
  finish_implementation-IsApproved f run outcome s h =
      finish_found-IsApproved f run outcome (first (by_run run) s.implementations) s h

  abbrev pub step : PlanCall → PlanTables → PlanTables
  step (creating f session objective entry_source mode content parent source) s =
      create fs f session objective entry_source mode content parent source s
  step (appending f plan content expected source run) s =
      (append_revision fs f plan content expected source run s).1
  step (entering f session objective run invocation) s =
      (create_enter_request f session objective run invocation s).1
  step (submitting f plan expected run invocation) s =
      (submit fs f plan expected run invocation s).1
  step (deciding f request choice reason mode) s = (decide fs f request choice reason mode s).1
  step (cancelling f plan) s = (cancel f plan s).1
  step (ensuring f request) s = (ensure_implementation fs f request s).1
  step (marking f work_item run) s = mark_implementation_run f work_item run s
  step (finishing f run outcome) s = finish_implementation f run outcome s

  unfoldable pub replay : List PlanCall → PlanTables → PlanTables
  unfolding create append_revision create_enter_request submit decide cancel ensure_implementation
      mark_implementation_run finish_implementation
  replay [] s = s
  replay (call ∷ calls) s = replay calls (step call s)

  step-IsApproved : (call : PlanCall) (s : PlanTables) → IsApproved s → IsApproved (step call s)
  unfolding create create_enter_request
  step-IsApproved (creating f session objective entry_source mode content parent source) s h =
      untouched-IsApproved s _ refl refl h
  step-IsApproved (appending f plan content expected source run) s h =
      append_revision-IsApproved f plan content expected source run s h
  step-IsApproved (entering f session objective run invocation) s h =
      insert_request-IsApproved _ s s refl refl h
  step-IsApproved (submitting f plan expected run invocation) s h =
      submit-IsApproved f plan expected run invocation s h
  step-IsApproved (deciding f request choice reason mode) s h =
      decide-IsApproved f request choice reason mode s h
  step-IsApproved (cancelling f plan) s h = cancel-IsApproved f plan s h
  step-IsApproved (ensuring f request) s h = ensure_implementation-IsApproved f request s h
  step-IsApproved (marking f work_item run) s h =
      mark_implementation_run-IsApproved f work_item run s h
  step-IsApproved (finishing f run outcome) s h = finish_implementation-IsApproved f run outcome s h

  -- Whatever calls are made on the plan tables, returning or raising: every implementation is of a
  -- submitted request that the user has approved for implementation, and of the plan and the
  -- revision which that request names; and requests keep their unique ids. This holds at the end
  -- where it holds at the start.
  pub replay-IsApproved :
      (calls : List PlanCall) (s : PlanTables) → IsApproved s → IsApproved (replay calls s)
  unfolding replay
  replay-IsApproved [] s h = h
  replay-IsApproved (call ∷ calls) s h =
      replay-IsApproved calls (step call s) (step-IsApproved call s h)
