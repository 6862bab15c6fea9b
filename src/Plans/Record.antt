-- ===== src/Plans/Record.antt =====
-- The rows of the plan tables (capslock/domain/plans.py, and the tables of capslock/storage/schema.py).
use caps_lock.Prelude.{ℕ, Bool, true, false, Option, List, String}

pub data PlanStatus : Type 0 where
  draft awaiting_approval approved implementing implemented implementation_failed rejected
        cancelled :
      PlanStatus

pub data PlanRequestKind : Type 0 where
  enter submit : PlanRequestKind

pub data PlanRequestStatus : Type 0 where
  pending approved feedback rejected cancelled : PlanRequestStatus

pub data PlanApprovalChoice : Type 0 where
  enter implement feedback reject : PlanApprovalChoice

pub data ImplementationStatus : Type 0 where
  queued running completed failed cancelled : ImplementationStatus

-- the final statuses of a run
pub data RunOutcome : Type 0 where
  completed failed cancelled interrupted stopped other : RunOutcome

pub record PlanRecord : Type 0 where
  pub id : String
  pub session_id : String
  pub objective : String
  pub status : PlanStatus
  pub entry_source : String
  pub base_permission_mode : String
  pub current_revision_id : Option String
  pub parent_plan_id : Option String
  pub created_at : ℕ
  pub updated_at : ℕ

pub record PlanRevision : Type 0 where
  pub id : String
  pub plan_id : String
  pub ordinal : ℕ
  pub content : String
  pub sha256 : String
  pub source : String
  pub created_by_run_id : Option String
  pub created_at : ℕ

pub record PlanRequest : Type 0 where
  pub id : String
  pub session_id : String
  pub plan_id : Option String
  pub revision_id : Option String
  pub kind : PlanRequestKind
  pub status : PlanRequestStatus
  pub run_id : Option String
  pub invocation_id : Option String
  pub objective : Option String
  pub choice : Option PlanApprovalChoice
  pub feedback : Option String
  pub created_at : ℕ
  pub decided_at : Option ℕ

pub record PlanImplementation : Type 0 where
  pub plan_id : String
  pub revision_id : String
  pub request_id : String
  pub work_item_id : String
  pub run_id : Option String
  pub status : ImplementationStatus
  pub created_at : ℕ
  pub updated_at : ℕ

-- a row of work_items, as ensure_implementation writes it
pub record QueuedItem : Type 0 where
  pub id : String
  pub session_id : String
  pub question : String
  pub is_queued : Bool
  pub position : ℕ
  pub created_at : ℕ

pub record PlanTables : Type 0 where
  pub plans : List PlanRecord
  pub revisions : List PlanRevision
  pub requests : List PlanRequest
  pub implementations : List PlanImplementation
  pub work_items : List QueuedItem

abbrev pub is_draft : PlanStatus → Bool
is_draft draft = true
is_draft _ = false

-- PlanRecord.active
abbrev pub is_active : PlanStatus → Bool
is_active draft = true
is_active awaiting_approval = true
is_active _ = false

abbrev pub is_pending : PlanRequestStatus → Bool
is_pending pending = true
is_pending _ = false

-- kind='submit' AND status='approved' AND choice='implement'
abbrev pub is_submit : PlanRequestKind → Bool
is_submit submit = true
is_submit enter = false

abbrev pub is_approved : PlanRequestStatus → Bool
is_approved PlanRequestStatus.approved = true
is_approved _ = false

abbrev pub is_implement : Option PlanApprovalChoice → Bool
is_implement (Option.some implement) = true
is_implement _ = false
