-- ===== src/Tests/PlanCases.antt =====
-- capslock/storage/repositories/plans.py: a plan that is written, revised, submitted, approved and
-- implemented.
use caps_lock.Prelude.{
  ℕ, ◌≡◌, refl, none, some, List, [], ◌∷◌, String, arith, raise, Outcome, first, string_eq,
}
use caps_lock.Table.{row_count}
use caps_lock.Plans.Record.{
  PlanStatus, approved, PlanRequestKind, PlanRequestStatus, ImplementationStatus, implement,
  PlanRecord, PlanRevision, PlanRequest, PlanTables,
}
use caps_lock.Plans.Store.{Functions, Fresh, PlanError, integrity, has_plan_id, create}
use caps_lock.Plans.Revising.{append_revision}
use caps_lock.Plans.Requesting.{cancel, decide}
use caps_lock.Plans.Approval.{IsApproved}
use caps_lock.Plans.Approval.Histories.{
  PlanCall, creating, appending, submitting, deciding, ensuring, replay, replay-IsApproved,
}
use caps_lock.Plans.Approval.Cancelled.{decide-cancel}
use caps_lock.Plans.Revisions.{append, view, seen, IsLogged, append_revision-refines}

abbrev functions : Functions
functions = record {
  digest = λ content. content;
  strip = λ content. content;
  initial_content = λ objective. objective;
  implementation_prompt = λ objective content digest. content;
}

abbrev fresh : String → ℕ → Fresh
fresh id now = record { plan_id = id; revision_id = id; request_id = id; work_id = id; now = now }

abbrev empty : PlanTables
empty = record { plans = []; revisions = []; requests = []; implementations = []; work_items = [] }

empty-IsApproved : IsApproved empty
unfolding row_count
empty-IsApproved = record { keyed = λ id. omega arith; backed = tt }

abbrev history : List PlanCall
history =
    creating (fresh "p" 1) "s" "goal" "slash" "approve_for_me" "one" none "initial"
    ∷ appending (fresh "v2" 2) "p" "two" "one" "model" none
    ∷ submitting (fresh "q" 3) "p" "two" none none
    ∷ deciding (fresh "x" 4) "q" implement none "approve_for_me"
    ∷ ensuring (fresh "w" 5) "q"
    ∷ ensuring (fresh "w2" 6) "q"
    ∷ []

replay-IsApproved_example : IsApproved (replay functions history empty)
replay-IsApproved_example = replay-IsApproved functions history empty empty-IsApproved

-- asked for twice, the implementation is made once
implemented_once :
    (replay functions history empty).implementations
    ≡ record {
      plan_id = "p";
      revision_id = "v2";
      request_id = "q";
      work_item_id = "w";
      run_id = none;
      status = ImplementationStatus.queued;
      created_at = 5;
      updated_at = 5;
    }
      ∷ []
unfolding replay
implemented_once = refl

abbrev written : PlanTables
written =
    create functions (fresh "p" 1) "s" "goal" "slash" "approve_for_me" "one" none "initial" empty

written-IsLogged : IsLogged functions "p" written
unfolding create row_count
written-IsLogged = record {
  row = record {
    id = "p";
    session_id = "s";
    objective = "goal";
    status = PlanStatus.draft;
    entry_source = "slash";
    base_permission_mode = "approve_for_me";
    current_revision_id = some "p";
    parent_plan_id = none;
    created_at = 1;
    updated_at = 1;
  };
  found = refl;
  unique = omega arith;
  older = [];
  newest = record {
    id = "p";
    plan_id = "p";
    ordinal = 1;
    content = "one";
    sha256 = "one";
    source = "initial";
    created_by_run_id = none;
    created_at = 1;
  };
  rows = refl;
  current = refl;
  lookup = refl;
  digests = (refl, tt);
}

abbrev changed : Outcome PlanError PlanRevision × PlanTables
changed = append_revision functions (fresh "v2" 2) "p" "two" "one" "model" none written

append_revision-refines_example :
    (seen "p" changed ≡ append functions "two" "one" (view "p" written))
    × IsLogged functions "p" changed.1
unfolding create
append_revision-refines_example =
    append_revision-refines functions (fresh "v2" 2) "p" "two" "model" none written written-IsLogged
      refl "one"

-- an earlier content cannot be written again
earlier_content :
    append_revision functions (fresh "v3" 3) "p" "one" "two" "model" none changed.1
    ≡ (raise integrity, changed.1)
unfolding create append_revision
earlier_content = refl

abbrev submitted : PlanTables
submitted = replay functions (submitting (fresh "q" 3) "p" "one" none none ∷ []) written

abbrev request : PlanRequest
request = record {
  id = "q";
  session_id = "s";
  plan_id = some "p";
  revision_id = some "p";
  kind = PlanRequestKind.submit;
  status = PlanRequestStatus.pending;
  run_id = none;
  invocation_id = none;
  objective = none;
  choice = none;
  feedback = none;
  created_at = 3;
  decided_at = none;
}

abbrev awaiting : PlanRecord
awaiting = record {
  id = "p";
  session_id = "s";
  objective = "goal";
  status = PlanStatus.awaiting_approval;
  entry_source = "slash";
  base_permission_mode = "approve_for_me";
  current_revision_id = some "p";
  parent_plan_id = none;
  created_at = 1;
  updated_at = 3;
}

decide-cancel_example :
    (q : PlanRecord) × (first
        (has_plan_id "p")
        (decide functions
          (fresh "y" 5)
          "q"
          implement
          none
          "approve_for_me"
          (cancel (fresh "x" 4) "p" submitted).1).1.plans
      ≡ some q)
    × (q.status ≡ approved)
unfolding create replay
decide-cancel_example =
    decide-cancel functions (fresh "x" 4) (fresh "y" 5) "q" "p" "approve_for_me" none submitted
      request awaiting refl refl refl refl
