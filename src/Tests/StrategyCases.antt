-- ===== src/Tests/StrategyCases.antt =====
-- Path patterns, public names of MCP tools, and a denied subtree, on concrete texts.
use caps_lock.Prelude.{
  ◌≡◌, ◌↔◌, refl, true, false, none, some, [], ◌∷◌, ◌++◌, String, arith, return, all, ◌==◌,
  string_eq,
}
use caps_lock.Permissions.Rules.{PermissionRule, allow, deny, approve_for_me, ToolPolicy}
use caps_lock.Permissions.Journal.{Journal}
use caps_lock.Permissions.Engine.{Files, Context, Decision, decide}
use caps_lock.Permissions.Patterns.{
  Text, slash, codes, normalized, has_parent, translate, on_line, path_glob_match,
}
use caps_lock.Permissions.Patterns.Translating.{slashes, translate_fuel}
use caps_lock.Permissions.Patterns.Subtree.{
  subtree, IsDirectory, path_glob_match-subtree, path_glob_match-slashes,
}
use caps_lock.Permissions.McpNames.{name, public_name, identity, identity-public_name}
use caps_lock.Permissions.Strategies.{Libraries, Fields, text, get}
use caps_lock.Permissions.Strategies.Routing.{resolve_agent_operation}
use caps_lock.Permissions.Strategies.Denying.{strategies, decide-deny_subtree}

two_levels : path_glob_match (codes "src/a/b.py") (codes "src/**/*.p?") ≡ true
unfolding path_glob_match
two_levels = refl

one_level : path_glob_match (codes "src/a/b.py") (codes "src/*.py") ≡ false
unfolding path_glob_match
one_level = refl

climbs : path_glob_match (codes "a") (codes "x/../a") ≡ false
unfolding path_glob_match
climbs = refl

abbrev secret : Text
secret = codes "secret"

secret-IsDirectory : IsDirectory secret
unfolding has_parent
secret-IsDirectory = record {
  plain = refl;
  relative = refl;
  no_parent = refl;
  no_dot = refl;
  named = omega arith;
}

path_glob_match-subtree_example :
    (path_glob_match (codes "secret/key") (secret ++ subtree) ≡ true) ↔ (
      (below : Text) × (normalized (codes "secret/key") ≡ secret ++ (slash ∷ below))
      × (all on_line below ≡ true))
path_glob_match-subtree_example =
    path_glob_match-subtree (codes "secret/key") secret secret-IsDirectory

path_glob_match-slashes_example :
    slashes (normalized (codes "src/a.py")) ≡ slashes (normalized (codes "src/*.py"))
unfolding path_glob_match normalized
path_glob_match-slashes_example =
    path_glob_match-slashes (codes "src/a.py") (codes "src/*.py") refl refl

translate_fuel_example : translate 9 (codes "src/**") ≡ translate 6 (codes "src/**")
translate_fuel_example = translate_fuel 9 6 (codes "src/**") (omega arith) (omega arith)

identity-public_name_example :
    identity (public_name (codes "git-hub") (codes "get__issue"))
    ≡ (name (codes "git-hub"), name (codes "get__issue"))
unfolding name
identity-public_name_example = identity-public_name (codes "git-hub") (codes "get__issue") refl

-- a server whose name has two dashes is read back as another server
dashes : identity (public_name (codes "a--b") (codes "run")) ≡ (codes "a", codes "b__run")
unfolding identity public_name
dashes = refl

stops_task :
    resolve_agent_operation "stop_agent"
      (("target_type", text "task") ∷ ("target_id", text "t1") ∷ [])
    ≡ some ("stop_agent_task", ("task_id", text "t1") ∷ [])
unfolding resolve_agent_operation
stops_task = refl

abbrev libraries : Libraries
libraries = record {
  fnmatchcase = λ name pattern. name == pattern;
  strip = λ s. s;
  split_operators = λ command. command ∷ [];
  words = λ command. some (command ∷ []);
  is_redirect = λ word. false;
  quoted = λ words. "quoted";
  has_expansion = λ command. false;
  url_host = λ url. none;
  idna = λ host. host;
  wildcard_suffix = λ host. none;
  ends_with_dot = λ host suffix. false;
  refusal = λ path. none;
  constraints = λ json. ("path", text json) ∷ [];
}

abbrev deny_secret : PermissionRule
deny_secret = record {
  behavior = deny;
  tool = "read_file";
  constraints = "secret/**";
  specificity = record { exact = 0; constraint_count = 1; literal = 7 };
  source = "user";
  identifier = some "r1";
  matcher_version = 2;
}

abbrev allow_all : PermissionRule
allow_all = record deny_secret { behavior = allow; constraints = "**" }

abbrev reading : Fields
reading = ("path", text "secret/key") ∷ []

abbrev files : Files
files = record { rules = allow_all ∷ deny_secret ∷ []; project_digest = none }

abbrev policy : ToolPolicy
policy = record {
  read_only = true;
  destructive = false;
  external_side_effects = false;
  open_world = false;
  context_mutation = false;
}

abbrev context : Context
context = record {
  session_id = "s";
  run_id = "r";
  invocation_id = some "i";
  permission_mode = approve_for_me;
  shell_allowed = false;
}

abbrev journal : Journal
journal = record { requests = []; grants = []; rules = []; settings = λ key. none; decisions = [] }

abbrev as_given : String → Fields → Fields
as_given tool arguments = arguments

decide-deny_subtree_example :
    (d : Decision) × (decide
        (strategies libraries as_given (λ a. "digest") (λ a. false))
        files
        "read_file"
        reading
        policy
        context
        journal
      ≡ (return d, journal))
    × (d.behavior ≡ deny)
unfolding normalized get
decide-deny_subtree_example =
    decide-deny_subtree libraries as_given (λ a. "digest") (λ a. false) files "read_file" reading
      policy context journal (allow_all ∷ []) deny_secret [] "secret/**" "secret/key" secret
      (codes "key") refl refl refl (record { version = refl; same_tool = refl; path = refl }) refl
      secret-IsDirectory refl refl refl
