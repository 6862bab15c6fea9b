-- ===== src/Permissions/Middleware.antt =====
-- The two middlewares in front of a tool: the boundary of Plan Mode (capslock/tooling/planning.py)
-- and the permission adapter (capslock/tooling/permission_policy/middleware.py). The events that the
-- adapter emits are not modelled.
pub mod Boundary
use caps_lock.Prelude.{
  ℕ, Bool, true, false, not, ◌&&◌, ◌||◌, Option, none, some, List, [], ◌∷◌, String, if◌then◌else◌,
  mem, ◌==◌, string_eq, Outcome, return, raise,
}
use caps_lock.Permissions.Rules.{PermissionBehavior, allow, ask, deny, ToolPolicy}
use caps_lock.Permissions.Journal.{
  Journal, DecisionRow, Subject, record_permission_decision, create_permission_request,
}
use caps_lock.Permissions.Engine.{Specs, Files, Context, Decision, EngineError, decide}

pub data PlanVisibility : Type 0 where
  hidden local_read control : PlanVisibility

-- class ToolDefinition, and whether its name starts with "plugin__" or "mcp__"
pub record Tool : Type 0 where
  pub name : String
  pub visibility : PlanVisibility
  pub is_external : Bool

-- runtime_state, the keys that the middlewares use
pub record RuntimeState : Type 0 where
  pub planning_control_authorized : Bool
  pub force_manual_approval : Bool
  pub permission_decision : Option Decision

-- What a middleware answers: nothing, an outcome with an error code, or a pause for a request.
pub data Answer : Type 0 where
  proceed : Answer
  denied : (error_code : String) → Answer
  paused : (request_id : String) → Answer

abbrev pub passes : Answer → Bool
passes proceed = true
passes _ = false

abbrev pub plan_denied : Answer
plan_denied = denied "plan_mode_read_only"

abbrev pub plan_tools : List String
plan_tools = "get_plan" ∷ "update_plan" ∷ "submit_plan" ∷ "ask_user" ∷ []

abbrev pub control_allowed : String → Bool → Bool
control_allowed name active =
    (name == "enter_plan_mode" && not active) || (active && mem name plan_tools)

-- PlanningBoundaryMiddleware.pre_authorize
unfoldable pub pre_authorize : Tool → (active : Bool) → Answer
pre_authorize tool active = elim tool.visibility [
  | hidden ↦ if active then plan_denied else proceed
  | control ↦ if not (control_allowed tool.name active) then plan_denied else proceed
  | local_read ↦ proceed
]

abbrev is_local : PlanVisibility → Bool
is_local local_read = true
is_local _ = false

abbrev pub is_deterministic_read : ToolPolicy → Bool
is_deterministic_read policy = not (
    not policy.read_only
    || policy.destructive
    || policy.external_side_effects
    || policy.open_world
    || policy.context_mutation)

abbrev planned : PlanVisibility → ToolPolicy → (active : Bool) → Answer
planned visibility policy active =
    if not active
    then proceed
    else if not (is_local visibility)
    then plan_denied
    else if not (is_deterministic_read policy)
    then plan_denied
    else proceed

-- PlanningBoundaryMiddleware.authorize
unfoldable pub plan_authorize :
    Tool → ToolPolicy → (active : Bool) → RuntimeState → Answer × RuntimeState
plan_authorize tool policy active r = elim tool.visibility [
  | control ↦
      if control_allowed tool.name active
      then (proceed, record r { planning_control_authorized = true })
      else (plan_denied, r)
  | hidden ↦ (planned hidden policy active, r)
  | local_read ↦ (planned local_read policy active, r)
]

-- _ACTION_TOOLS
abbrev action_tools : List String
action_tools =
    "edit_file" ∷ "create_file" ∷ "shell" ∷ "run_check" ∷ "web_search" ∷ "web_fetch" ∷ "write_file"
    ∷ "edit_notebook" ∷ "create_worktree" ∷ "exit_worktree" ∷ []

abbrev pub pauses_itself : Tool → Bool
pauses_itself tool = mem tool.name action_tools || tool.is_external

-- the ids that the journal draws, and the clock
pub record Fresh : Type 0 where
  pub decision_id : String
  pub request_id : String
  pub now : ℕ

abbrev decision_row : Fresh → String → Decision → DecisionRow
decision_row fresh invocation d = record {
  id = fresh.decision_id;
  invocation_id = invocation;
  behavior = d.behavior;
  source = d.source;
  reason_code = d.reason_code;
  mode = d.mode;
  arguments_sha256 = d.digest;
  rule = d.rule;
  decided_by = some d.decided_by;
  created_at = fresh.now;
}

abbrev pub record_if : Fresh → Option String → Decision → Journal → Journal
record_if fresh none d s = s
record_if fresh (some invocation) d s =
    (record_permission_decision (decision_row fresh invocation d) s).1

abbrev subject_of : Context → String → String → Decision → Subject
subject_of context invocation tool d = record {
  session_id = context.session_id;
  run_id = context.run_id;
  invocation_id = invocation;
  tool = tool;
  arguments_sha256 = d.digest;
}

pub data MiddlewareError : Type 0 where
  no_target id_in_use : MiddlewareError

-- the state of an authorization: the runtime state and the journal
pub record Session : Type 0 where
  pub runtime : RuntimeState
  pub journal : Journal

abbrev pub asked :
    Fresh
    → Context
    → Tool
    → Decision
    → Option String
    → Session
    → Outcome MiddlewareError Answer × Session
asked fresh context tool d none s = (return (paused tool.name), s)
asked fresh context tool d (some invocation) s =
    let (created, j) =
      create_permission_request fresh.request_id (subject_of context invocation tool.name d)
        d.reason_code "" fresh.now s.journal in
    (
      elim created [ return i ↦ return (paused i) | raise e ↦ raise id_in_use ],
      record s { journal = j },
    )

abbrev pub answer :
    Fresh
    → Context
    → Tool
    → Decision
    → PermissionBehavior
    → Session
    → Outcome MiddlewareError Answer × Session
answer fresh context tool d deny s = (return (denied "permission_denied"), s)
answer fresh context tool d ask s =
    if pauses_itself tool
    then (
      return proceed,
      record s { runtime = record (s.runtime) { force_manual_approval = true } },
    )
    else asked fresh context tool d context.invocation_id s
answer fresh context tool d allow s = (return proceed, s)

module _ {A : Type 0} (specs : Specs A) (files : Files) where
  abbrev pub permission_decided :
      Fresh
      → Context
      → Tool
      → Outcome EngineError Decision
      → Session
      → Outcome MiddlewareError Answer × Session
  permission_decided fresh context tool (raise e) s = (raise no_target, s)
  permission_decided fresh context tool (return d) s =
      answer fresh context tool d d.behavior (record {
        runtime = record (s.runtime) { permission_decision = some d };
        journal = record_if fresh context.invocation_id d s.journal;
      })

  -- PermissionMiddleware.authorize
  unfoldable pub permission_authorize :
      Fresh → Tool → A → ToolPolicy → Context → Session → Outcome MiddlewareError Answer × Session
  unfolding decide record_permission_decision create_permission_request
  permission_authorize fresh tool arguments policy context s =
      let cleared = record (s.runtime) { planning_control_authorized = false } in
      let (d, j) = decide specs files tool.name arguments policy context s.journal in
      if s.runtime.planning_control_authorized
      then (return proceed, record s { runtime = cleared })
      else permission_decided fresh context tool d (record { runtime = cleared; journal = j })

  -- the order in which the executor asks them; an answer other than `proceed` ends the authorization
  unfoldable pub authorize :
      Fresh
      → Tool
      → A
      → ToolPolicy
      → Context
      → (active : Bool) → Session
      → Outcome MiddlewareError Answer × Session
  unfolding pre_authorize plan_authorize permission_authorize
  authorize fresh tool arguments policy context active s =
      let (first, r) = plan_authorize tool policy active s.runtime in
      if not (passes (pre_authorize tool active))
      then (return (pre_authorize tool active), s)
      else if passes first
      then permission_authorize fresh tool arguments policy context (record s { runtime = r })
      else (return first, record s { runtime = r })
