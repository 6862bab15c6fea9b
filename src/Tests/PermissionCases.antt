-- ===== src/Tests/PermissionCases.antt =====
-- capslock/tooling/permission_policy: rules of two behaviours, a one-time grant, and the two
-- middlewares at them.
use caps_lock.Prelude.{
  ◌≡◌, ◌⊎◌, ◌+◌, refl, true, false, none, some, List, [], ◌∷◌, String, arith, return, any, ◌==◌,
  string_eq, mem,
}
use caps_lock.Table.{row_count}
use caps_lock.Permissions.Rules.{
  PermissionRule, PermissionBehavior, allow, ask, deny, approve_for_me, ToolPolicy, select_rule,
}
use caps_lock.Permissions.Rules.Selection.{IsVerdict, select_rule-some, has_behavior}
use caps_lock.Permissions.Journal.{Journal, Subject, approve_once}
use caps_lock.Permissions.Journal.Grants.{
  JournalCall, create_request, decide_request, consume_grant, uses, usable, approvals, replay,
  IsKeyed,
}
use caps_lock.Permissions.Journal.Balance.{uses_balance}
use caps_lock.Permissions.Engine.{
  Specs, Files, Context, Decision, is_deny, decide, consume_grant as engine_consume, matching_rules,
  rules,
}
use caps_lock.Permissions.Engine.Allowing.{IsAllowed, decide-deny, decide-allow}
use caps_lock.Permissions.Middleware.{
  Tool, control, local_read, Session, Fresh, proceed, authorize, permission_authorize, plan_tools,
  is_deterministic_read,
}
use caps_lock.Permissions.Middleware.Boundary.{
  IsPermitted, authorize-active, permission_authorize-proceed,
}

abbrev rule : PermissionBehavior → String → PermissionRule
rule behavior tool = record {
  behavior = behavior;
  tool = tool;
  constraints = "{}";
  specificity = record { exact = 0; constraint_count = 0; literal = 0 };
  source = "user";
  identifier = none;
  matcher_version = 2;
}

abbrev both : List PermissionRule
both = rule allow "shell" ∷ rule deny "shell" ∷ []

select_rule-some_example : IsVerdict both (rule deny "shell")
unfolding select_rule
select_rule-some_example = select_rule-some both (rule deny "shell") refl

abbrev subject : Subject
subject = record {
  session_id = "s";
  run_id = "r";
  invocation_id = "i";
  tool = "shell";
  arguments_sha256 = "d";
}

abbrev journal : Journal
journal = record { requests = []; grants = []; rules = []; settings = λ key. none; decisions = [] }

journal-IsKeyed : IsKeyed journal
unfolding row_count
journal-IsKeyed = record { request_key = λ i. omega arith; grant_key = λ i. omega arith }

abbrev calls : List JournalCall
calls =
    create_request "q" subject "why" "[]" 1
    ∷ decide_request "q" "s" approve_once none none "g" 2
    ∷ consume_grant subject 3
    ∷ consume_grant subject 4
    ∷ []

uses_balance_example :
    uses subject calls journal + usable subject (replay calls journal) + approvals subject journal
    ≡ usable subject journal + approvals subject (replay calls journal)
uses_balance_example = uses_balance subject calls journal journal-IsKeyed

-- of the two calls that ask for the grant, one gets it
used_once : uses subject calls journal ≡ 1
unfolding uses
used_once = refl

-- arguments are texts here; a rule matches the tool that it names
abbrev specs : Specs String
specs = record {
  normalize = λ tool arguments. arguments;
  hard_check = λ tool arguments policy. none;
  matches = λ r tool arguments. r.tool == tool;
  digest = λ arguments. arguments;
  operation_identity = λ tool arguments. some (tool, arguments);
  without_sha256 = λ arguments. true;
  with_task_id = λ arguments. false;
  deterministic_shell = λ arguments. arguments == "git status";
}

abbrev files : List PermissionRule → Files
files rules = record { rules = rules; project_digest = none }

abbrev context : Context
context = record {
  session_id = "s";
  run_id = "r";
  invocation_id = some "i";
  permission_mode = approve_for_me;
  shell_allowed = true;
}

abbrev policy : ToolPolicy
policy = record {
  read_only = true;
  destructive = false;
  external_side_effects = false;
  open_world = false;
  context_mutation = false;
}

decide-deny_example :
    (d : Decision) × (decide specs (files both) "shell" "ls" policy context journal
      ≡ (return d, journal))
    × (d.behavior ≡ deny)
unfolding matching_rules rules
decide-deny_example =
    decide-deny specs (files both) "shell" "ls" policy context journal both refl refl refl

abbrev allowing : List PermissionRule
allowing = rule allow "shell" ∷ []

abbrev by_the_rule : Decision
by_the_rule = record {
  behavior = allow;
  source = "user";
  reason_code = "explicit_allow";
  mode = approve_for_me;
  rule = some (rule allow "shell");
  digest = "ls";
  decided_by = "rule";
}

decide-allow_example :
    (any is_deny allowing ≡ false)
    × ((engine_consume specs context "shell" "ls" journal ≡ (true, journal))
        ⊎ ((any (has_behavior ask) allowing ≡ false)
            × IsAllowed specs
                (files allowing)
                "shell"
                "ls"
                policy
                context
                journal
                allowing
                journal))
unfolding matching_rules rules decide
decide-allow_example =
    decide-allow specs (files allowing) "shell" "ls" policy context journal allowing by_the_rule
      journal refl refl refl refl

abbrev reader : Tool
reader = record { name = "read_file"; visibility = local_read; is_external = false }

abbrev fresh : Fresh
fresh = record { decision_id = "p"; request_id = "q"; now = 5 }

abbrev session : Session
session = record {
  runtime = record {
    planning_control_authorized = false;
    force_manual_approval = false;
    permission_decision = none;
  };
  journal = journal;
}

abbrev reading : Session
reading = (permission_authorize specs (files []) fresh reader "a.txt" policy context session).1

reading-passes :
    permission_authorize specs (files []) fresh reader "a.txt" policy context session
    ≡ (return proceed, reading)
unfolding permission_authorize
reading-passes = refl

permission_authorize-proceed_example :
    IsPermitted specs (files []) fresh reader "a.txt" policy context session reading
permission_authorize-proceed_example =
    permission_authorize-proceed specs (files []) fresh reader "a.txt" policy context session
      reading refl reading-passes

authorize-active_example :
    ((reader.visibility ≡ control) × (mem reader.name plan_tools ≡ true))
    ⊎ ((reader.visibility ≡ local_read) × (is_deterministic_read policy ≡ true))
unfolding authorize permission_authorize
authorize-active_example =
    authorize-active specs (files []) fresh reader "a.txt" policy context session reading refl
