-- ===== src/Plans/Store.antt =====
-- `PlanRepository` of capslock/storage/repositories/plans.py. A call that raises inside of its transaction
-- leaves the tables as they were. The primary key of the requests is checked; the other drawn ids
-- are new to their tables. Drawn ids and the time are the argument `Fresh`; SHA-256 and
-- str.strip are the argument `Functions`.
use caps_lock.Prelude.{
  ℕ, Bool, Option, none, some, [], ◌∷◌, ◌++◌, String, if◌then◌else◌, first, ◌==◌, string_eq,
  Outcome, return, raise, Exec,
}
use caps_lock.Plans.Record.{draft, PlanRecord, PlanRevision, PlanRequest, PlanTables}

-- the ValueErrors, by their message, and the IntegrityError of SQLite
pub data PlanError : Type 0 where
  no_plan no_revision foreign_revision not_draft plan_changed empty_plan no_request not_pending
        invalid_choice no_active_plan not_approved no_implementation integrity :
      PlanError

pub record Functions : Type 0 where
  pub digest : String → String
  pub strip : String → String
  -- _initial_content and _implementation_prompt, which paste texts together
  pub initial_content : String → String
  pub implementation_prompt : (objective content digest : String) → String

pub record Fresh : Type 0 where
  pub plan_id : String
  pub revision_id : String
  pub request_id : String
  pub work_id : String
  pub now : ℕ

abbrev pub Planned : Type 0 → Type 0
Planned A = Exec PlanError PlanTables A

abbrev pub has_plan_id : String → PlanRecord → Bool
has_plan_id id r = r.id == id

abbrev pub has_revision_id : String → PlanRevision → Bool
has_revision_id id r = r.id == id

abbrev pub has_request_id : String → PlanRequest → Bool
has_request_id id r = r.id == id

abbrev pub of_plan : String → PlanRevision → Bool
of_plan plan r = r.plan_id == plan

abbrev pub or_raise : {A : Type 0} → PlanError → Option A → Outcome PlanError A
or_raise e none = raise e
or_raise e (some a) = return a

-- `require` and its like
unfoldable pub require : String → PlanTables → Outcome PlanError PlanRecord
require id s = or_raise no_plan (first (has_plan_id id) s.plans)

unfoldable pub require_revision : String → PlanTables → Outcome PlanError PlanRevision
require_revision id s = or_raise no_revision (first (has_revision_id id) s.revisions)

unfoldable pub require_request : String → PlanTables → Outcome PlanError PlanRequest
require_request id s = or_raise no_request (first (has_request_id id) s.requests)

abbrev pub owned : String → Option PlanRevision → Outcome PlanError PlanRevision
owned plan none = raise no_revision
owned plan (some r) = if r.plan_id == plan then return r else raise foreign_revision

unfoldable pub current_revision : PlanRecord → PlanTables → Outcome PlanError PlanRevision
current_revision plan s = elim plan.current_revision_id [
  | none ↦ raise no_revision
  | some id ↦ owned plan.id (first (has_revision_id id) s.revisions)
]

abbrev pub new_plan :
    Fresh → (session objective entry_source mode : String) (parent : Option String) → PlanRecord
new_plan f session objective entry_source mode parent = record {
  id = f.plan_id;
  session_id = session;
  objective = objective;
  status = draft;
  entry_source = entry_source;
  base_permission_mode = mode;
  current_revision_id = some f.revision_id;
  parent_plan_id = parent;
  created_at = f.now;
  updated_at = f.now;
}

abbrev pub initial_revision : Functions → Fresh → (content source : String) → PlanRevision
initial_revision fs f content source = record {
  id = f.revision_id;
  plan_id = f.plan_id;
  ordinal = 1;
  content = content;
  sha256 = fs.digest content;
  source = source;
  created_by_run_id = none;
  created_at = f.now;
}

-- the two rows of a new plan
abbrev pub insert_plan : PlanRecord → PlanRevision → PlanTables → PlanTables
insert_plan plan revision s = record s {
  plans = s.plans ++ plan ∷ [];
  revisions = s.revisions ++ revision ∷ [];
}

unfoldable pub create :
    Functions
    → Fresh
    → (session objective entry_source mode content : String) (parent : Option String)
      (source : String)
    → PlanTables
    → PlanTables
create fs f session objective entry_source mode content parent source s =
    insert_plan (new_plan f session objective entry_source mode parent)
      (initial_revision fs f content source) s
