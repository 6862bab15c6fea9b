-- ===== src/Permissions/Engine.antt =====
-- capslock/tooling/permission_policy/engine.py: `PermissionEngine.decide`. The strategies of specs.py
-- and the routing of Agent tools are behind the interface `Specs`, as the engine has them behind
-- the protocol of ports.py; the permission files are read before, into `Files`.
pub mod Allowing
use caps_lock.Prelude.{
  ℕ, Bool, true, false, not, ◌&&◌, ◌||◌, Option, none, some, List, [], ◌∷◌, ◌++◌, String, map,
  if◌then◌else◌, nat_eq, any, keep, ◌==◌, string_eq, Outcome, return, raise, Exec,
}
use caps_lock.Permissions.Rules.{
  PermissionMode, approve_for_me, PermissionBehavior, allow, ask, deny, PermissionRule, Specificity,
  ToolPolicy, same_behavior, select_rule, default_behavior,
}
use caps_lock.Permissions.Journal.{
  Journal, RuleRow, Subject, session_permission_rules, permission_setting, consume_permission_grant,
}
use caps_lock.Permissions.Journal.Grants.{is_yes}

-- What the engine asks of a tool's arguments `A`, by the name of the tool.
pub record Specs (A : Type 0) : Type 0 where
  pub normalize : String → A → A
  pub hard_check : String → A → ToolPolicy → Option (PermissionBehavior × String × String)
  pub matches : PermissionRule → String → A → Bool
  -- permission_arguments_digest
  pub digest : A → String
  -- operation_identity, which raises on arguments that name no target
  pub operation_identity : String → A → Option (String × A)
  -- arguments.get("expected_sha256") is None, and arguments.get("task_id") is not None
  pub without_sha256 : A → Bool
  pub with_task_id : A → Bool
  -- the shell command is in the read-only list, in the default sandbox, offline and in the foreground
  pub deterministic_shell : A → Bool

-- the rules of the permission files, and the digest of the project's file
pub record Files : Type 0 where
  pub rules : List PermissionRule
  pub project_digest : Option String

-- class ExecutionContext, the fields that the engine reads
pub record Context : Type 0 where
  pub session_id : String
  pub run_id : String
  pub invocation_id : Option String
  pub permission_mode : PermissionMode
  -- runtime_state["shell_deterministic_behavior"] == "allow"
  pub shell_allowed : Bool

pub record Decision : Type 0 where
  pub behavior : PermissionBehavior
  pub source : String
  pub reason_code : String
  pub mode : PermissionMode
  pub rule : Option PermissionRule
  pub digest : String
  pub decided_by : String

pub data EngineError : Type 0 where
  no_target : EngineError

abbrev same_identifier : Option String → Option String → Bool
same_identifier none none = true
same_identifier (some a) (some b) = a == b
same_identifier _ _ = false

abbrev same_rule : PermissionRule → PermissionRule → Bool
same_rule a b =
    same_behavior a.behavior b.behavior
    && a.tool == b.tool
    && a.constraints == b.constraints
    && a.source == b.source
    && same_identifier a.identifier b.identifier
    && nat_eq a.matcher_version b.matcher_version

-- matching.extend(rule for rule in rules if wanted(rule) and rule not in matching)
unfoldable pub extend :
    (PermissionRule → Bool) → List PermissionRule → List PermissionRule → List PermissionRule
extend wanted [] matching = matching
extend wanted (r ∷ rules) matching =
    extend wanted rules
      (if wanted r && not (any (same_rule r) matching) then matching ++ r ∷ [] else matching)

-- a rule that the session's journal keeps
abbrev pub session_rule : RuleRow → PermissionRule
session_rule row = record (row.rule) { source = "session"; matcher_version = 2 }

unfoldable pub rules : Files → String → Journal → List PermissionRule
unfolding session_permission_rules
rules files session s = files.rules ++ map session_rule (session_permission_rules session s)

abbrev same_digest : Option String → Option String → Bool
same_digest none stored = false
same_digest (some d) none = false
same_digest (some d) (some stored) = stored == d

unfoldable pub project_allow_is_trusted : Files → Journal → Bool
unfolding permission_setting
project_allow_is_trusted files s =
    same_digest files.project_digest (permission_setting "project_permissions_sha256" s)

abbrev pub is_untrusted : Files → Journal → PermissionRule → Bool
is_untrusted files s r =
    same_behavior r.behavior allow
    && r.source == "project"
    && not (project_allow_is_trusted files s)

abbrev explicit_code : PermissionBehavior → String
explicit_code allow = "explicit_allow"
explicit_code ask = "explicit_ask"
explicit_code deny = "explicit_deny"

abbrev pub is_deny : PermissionRule → Bool
is_deny r = same_behavior r.behavior deny

module _ {A : Type 0} (specs : Specs A) where
  abbrev pub related : (operation tool : String) → A → List String
  related operation tool arguments =
      (if operation == tool then [] else tool ∷ [])
      ++ ((if tool == "write_file" && specs.without_sha256 arguments
            then "create_file" ∷ []
            else [])
          ++ (if tool == "list_tasks" && specs.with_task_id arguments then "get_task" ∷ [] else []))

  abbrev pub restricts : String → A → PermissionRule → Bool
  restricts name arguments r =
      not (same_behavior r.behavior allow) && specs.matches r name arguments

  unfoldable pub extend_all :
      List String → A → List PermissionRule → List PermissionRule → List PermissionRule
  unfolding extend
  extend_all [] arguments rules matching = matching
  extend_all (name ∷ names) arguments rules matching =
      extend_all names arguments rules (extend (restricts name arguments) rules matching)

  unfoldable pub matching_rules : List PermissionRule → String → A → Option (List PermissionRule)
  unfolding extend_all
  matching_rules rules tool arguments = elim (specs.operation_identity tool arguments) [
    | none ↦ none
    | some (operation, routed) ↦ some (
        extend_all (related operation tool arguments) arguments rules
          (keep (λ r. specs.matches r operation routed) rules))
  ]

  unfoldable pub consume_grant : Context → String → A → Journal → Bool × Journal
  unfolding consume_permission_grant
  consume_grant context tool arguments s = elim context.invocation_id [
    | none ↦ (false, s)
    | some invocation ↦
        let subject : Subject = record {
          session_id = context.session_id;
          run_id = context.run_id;
          invocation_id = invocation;
          tool = tool;
          arguments_sha256 = specs.digest arguments;
        } in
        let (used, t) = consume_permission_grant subject 0 s in (is_yes used, t)
  ]

  abbrev deterministic : Context → String → A → Bool
  deterministic context tool arguments = elim context.permission_mode [
    | approve_for_me ↦
        tool == "shell" && context.shell_allowed && specs.deterministic_shell arguments
    | _ ↦ false
  ]

  abbrev pub decided :
      Context
      → A
      → PermissionBehavior
      → (source reason_code decided_by : String) → Option PermissionRule
      → Decision
  decided context arguments behavior source reason_code decided_by rule = record {
    behavior = behavior;
    source = source;
    reason_code = reason_code;
    mode = context.permission_mode;
    rule = rule;
    digest = specs.digest arguments;
    decided_by = decided_by;
  }

  -- what the rules and the mode say
  abbrev pub decide_by_rule :
      Files → Context → String → A → ToolPolicy → Journal → Option PermissionRule → Decision
  decide_by_rule files context tool arguments policy s none =
      decided context arguments
        (default_behavior context.permission_mode policy (deterministic context tool arguments)
          (tool == "shell"))
        "permission_mode" "mode_default" "mode" none
  decide_by_rule files context tool arguments policy s (some r) =
      if is_untrusted files s r
      then decided context arguments ask "project" "project_allow_untrusted" "trust_boundary"
          (some r)
      else decided context arguments r.behavior r.source (explicit_code r.behavior) "rule" (some r)

  abbrev pub granted : Context → A → Decision
  granted context arguments =
      decided context arguments allow "one_time_grant" "one_time_grant" "user" none

  abbrev pub decide_matching :
      Files → Context → String → A → ToolPolicy → List PermissionRule → Journal → Decision × Journal
  decide_matching files context tool arguments policy matching s =
      let (used, t) = consume_grant context tool arguments s in
      let by_rule = λ (j : Journal).
        decide_by_rule files context tool arguments policy j (select_rule matching) in
      if any is_deny matching
      then (by_rule s, s)
      else if used
      then (granted context arguments, t)
      else (by_rule t, t)

  abbrev pub decide_checked :
      Files → Context → String → A → ToolPolicy → Journal → Outcome EngineError Decision × Journal
  decide_checked files context tool arguments policy s =
      elim (matching_rules (rules files context.session_id s) tool arguments) [
        | none ↦ (raise no_target, s)
        | some matching ↦
            let (decision, t) = decide_matching files context tool arguments policy matching s in
            (return decision, t)
      ]

  unfoldable pub decide :
      Files → String → A → ToolPolicy → Context → Journal → Outcome EngineError Decision × Journal
  unfolding rules project_allow_is_trusted matching_rules consume_grant select_rule default_behavior
  decide files tool arguments policy context s =
      let normalized = specs.normalize tool arguments in
      elim (specs.hard_check tool normalized policy) [
        | some (behavior, code, reason) ↦
            (return (decided context normalized behavior "safety_boundary" code "safety" none), s)
        | none ↦ decide_checked files context tool normalized policy s
      ]

  -- PermissionEngine.verify_explicit_allow
  unfoldable pub verify_explicit_allow : Files → String → String → A → Journal → Option Bool
  unfolding rules matching_rules
  verify_explicit_allow files session tool arguments s =
      elim (matching_rules (rules files session s) tool arguments) [
        | none ↦ none
        | some matching ↦ some (
            if any is_deny matching
            then false
            else if any (λ (r : PermissionRule). same_behavior r.behavior ask) matching
            then false
            else any (λ (r : PermissionRule). same_behavior r.behavior allow) matching)
      ]
