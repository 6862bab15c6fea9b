-- ===== src/Permissions/Strategies.antt =====
-- capslock/tooling/permission_policy/specs.py: which rules match a call, by the kind of its tool, and
-- the boundaries that no rule moves; with PermissionEngine.spec_for and the routing of Agent tools
-- (resolve_agent_operation of capslock/tooling/tools/collaboration.py).
-- JSON values are texts, lists of texts and flags. What the strategies take from fnmatch, re, shlex,
-- urllib, the IDNA codec and the file system is the parameter `Libraries`.
pub mod Routing
pub mod Denying
use caps_lock.Prelude.{
  ℕ, Bool, true, false, not, ◌&&◌, ◌||◌, Option, none, some, List, [], ◌∷◌, ◌++◌, map, String,
  if◌then◌else◌, nat_eq, length, take, any, all, first, mem, ◌==◌, Eq, string_eq, same_bool, ◌≡◌,
  ◌↔◌, eq_iff, arith,
}
use caps_lock.Permissions.Rules.{
  PermissionBehavior, allow, ask, deny, PermissionRule, ToolPolicy, same_behavior,
}
use caps_lock.Permissions.Patterns.{Text, codes, path_glob_match}
use caps_lock.Permissions.McpNames.{identity}

pub data Value : Type 0 where
  text : String → Value
  texts : List String → Value
  flag : Bool → Value

-- a JSON object, by its items
abbrev pub Fields : Type 0
Fields = List (String × Value)

abbrev field : String → (String × Value) → Option Value → Option Value
field key (k, v) rest = if k == key then some v else rest

-- arguments.get(key)
unfoldable pub get : String → Fields → Option Value
get key [] = none
get key (item ∷ items) = field key item (get key items)

abbrev pub same_texts : List String → List String → Bool
same_texts [] [] = true
same_texts (a ∷ xs) (b ∷ ys) = a == b && same_texts xs ys
same_texts _ _ = false

abbrev pub same_value : Value → Value → Bool
same_value (text a) (text b) = a == b
same_value (texts a) (texts b) = same_texts a b
same_value (flag a) (flag b) = same_bool a b
same_value _ _ = false

abbrev pub is_value : Value → Option Value → Bool
is_value v none = false
is_value v (some w) = same_value v w

abbrev python_bool : Bool → String
python_bool true = "True"
python_bool false = "False"

-- value if isinstance(value, list) else [value], as texts
abbrev pub values : Value → List String
values (text a) = a ∷ []
values (texts xs) = xs
values (flag b) = python_bool b ∷ []

-- str(arguments.get(key, default)), where the tool's schema admits no list
abbrev pub text_or : String → Option Value → String
text_or default none = default
text_or default (some (text a)) = a
text_or default (some (flag b)) = python_bool b
text_or default (some (texts xs)) = default

abbrev pub texts_of : Option Value → List String
texts_of none = []
texts_of (some v) = values v

pub record Libraries : Type 0 where
  -- fnmatch.fnmatchcase(name, pattern)
  pub fnmatchcase : String → String → Bool
  pub strip : String → String
  -- re.split(r"\s*(?:&&|\|\||;|\|)\s*", command)
  pub split_operators : String → List String
  -- shlex.split(text, posix=True), which raises on an open quote
  pub words : String → Option (List String)
  -- re.search(r"(?:^|\d)[<>]|[<>](?:&|\|)?", word)
  pub is_redirect : String → Bool
  -- " ".join(shlex.quote(item) for item in words)
  pub quoted : List String → String
  -- any(marker in command for marker in ("$(", "`", "${", "\n", "\x00"))
  pub has_expansion : String → Bool
  -- urlsplit(value).hostname in IDNA and lower case
  pub url_host : String → Option String
  -- pattern.encode("idna").decode("ascii").lower()
  pub idna : String → String
  -- normalized.startswith("*.") with what follows it
  pub wildcard_suffix : String → Option String
  -- host.endswith("." + suffix)
  pub ends_with_dot : String → String → Bool
  -- the text of the exception that context.policy.resolve(path) raises
  pub refusal : String → Option String
  -- json.loads of the stored text of a rule's constraints
  pub constraints : String → Fields

abbrev pub file_tools : List String
file_tools =
    "list_files" ∷ "glob_files" ∷ "read_file" ∷ "read_image" ∷ "search_files" ∷ "edit_file"
    ∷ "create_file" ∷ "write_file" ∷ "edit_notebook" ∷ "read_pdf" ∷ "read_notebook"
    ∷ "read_tool_artifact" ∷ []

pub data Strategy : Type 0 where
  default_spec file_spec shell_spec web_spec mcp_spec : Strategy

-- tool.name.startswith("mcp__")
abbrev pub is_mcp : Text → Bool
is_mcp (a ∷ b ∷ c ∷ d ∷ e ∷ rest) =
    nat_eq a b'm' && nat_eq b b'c' && nat_eq c b'p' && nat_eq d b'_' && nat_eq e b'_'
is_mcp _ = false

-- PermissionEngine.spec_for
unfoldable pub spec_for : String → Strategy
spec_for tool =
    if mem tool file_tools
    then file_spec
    else if mem tool ("shell" ∷ "run_check" ∷ [])
    then shell_spec
    else if mem tool ("web_search" ∷ "web_fetch" ∷ [])
    then web_spec
    else if is_mcp (codes tool)
    then mcp_spec
    else default_spec

abbrev pub is_empty : Fields → Bool
is_empty [] = true
is_empty _ = false

abbrev text_equal : Text → Text → Bool
text_equal [] [] = true
text_equal (a ∷ xs) (b ∷ ys) = nat_eq a b && text_equal xs ys
text_equal _ _ = false

-- constraints.get(key, expected) == expected
abbrev is_or_missing : Option Value → Text → Bool
is_or_missing none expected = true
is_or_missing (some (text a)) expected = text_equal (codes a) expected
is_or_missing (some _) expected = false

module _ (libraries : Libraries) where
  abbrev pub tool_matches : PermissionRule → String → Bool
  tool_matches r name =
      if nat_eq r.matcher_version 1 then libraries.fnmatchcase name r.tool else name == r.tool

  abbrev pub fields : PermissionRule → Fields
  fields r = libraries.constraints r.constraints

  unfoldable pub default_matches : PermissionRule → String → Fields → Bool
  unfolding get
  default_matches r name arguments =
      if not (tool_matches r name)
      then false
      else all (λ (item : String × Value). is_value item.1 (get item.0 arguments)) (fields r)

  abbrev pub path_matches : Option Value → Value → Bool
  path_matches (some (text actual)) expected =
      any (λ pattern. path_glob_match (codes actual) (codes pattern)) (values expected)
  path_matches _ expected = false

  unfoldable pub file_matches : PermissionRule → String → Fields → Bool
  unfolding get path_glob_match
  file_matches r name arguments =
      if not (tool_matches r name) then false else elim (get "path" (fields r)) [
        | none ↦ is_empty (fields r)
        | some expected ↦ path_matches (get "path" arguments) expected
      ]

  -- the words of the segments, quoted again, up to one that cannot be read
  unfoldable pub read_segments : List String → Option (List String)
  read_segments [] = some []
  read_segments (raw ∷ rest) =
      let others = read_segments rest in
      elim (libraries.words raw) [
        | none ↦ none
        | some [] ↦ none
        | some (word ∷ words) ↦
            if any libraries.is_redirect (word ∷ words) then none else elim others [
              | none ↦ none
              | some segments ↦ some (libraries.quoted (word ∷ words) ∷ segments)
            ]
      ]

  unfoldable pub shell_segments : String → Option (List String)
  unfolding read_segments
  shell_segments command =
      if libraries.has_expansion command
      then none
      else read_segments (libraries.split_operators command)

  abbrev is_prefix : Option (List String) → Option (List String) → Bool
  is_prefix (some command) (some (word ∷ prefix)) =
      same_texts (take (length (word ∷ prefix)) command) (word ∷ prefix)
  is_prefix _ _ = false

  unfoldable pub command_prefix_match : String → String → Bool
  command_prefix_match command prefix =
      is_prefix (libraries.words command) (libraries.words (libraries.strip prefix))

  abbrev is_single : Option (List String) → Bool
  is_single (some (segment ∷ [])) = true
  is_single _ = false

  -- the test of a `command` constraint
  abbrev pub command_allows :
      PermissionBehavior → String → Option (List String) → Option Value → Bool
  command_allows behavior command segments none = true
  command_allows behavior command segments (some expected) =
      mem command (map libraries.strip (values expected))
      && (if same_behavior behavior allow then is_single segments else true)

  -- the test of a `command_prefix` constraint
  abbrev pub prefix_allows : PermissionBehavior → Option (List String) → Option Value → Bool
  prefix_allows behavior segments none = true
  prefix_allows behavior none (some expected) = false
  prefix_allows behavior (some segments) (some expected) =
      let begins = λ (segment : String). any (command_prefix_match segment) (values expected) in
      if same_behavior behavior allow then all begins segments else any begins segments

  abbrev pub cwd_allows : String → Option Value → Bool
  cwd_allows cwd none = true
  cwd_allows cwd (some patterns) =
      any (λ pattern. path_glob_match (codes cwd) (codes pattern)) (values patterns)

  abbrev pub sandbox_allows : Option Value → Option Value → Bool
  sandbox_allows actual none = true
  sandbox_allows actual (some expected) = is_value expected actual

  abbrev pub network_allows : List String → Option Value → Bool
  network_allows requested none = true
  network_allows requested (some allowed) = all (λ host. mem host (values allowed)) requested

  abbrev is_unread : PermissionBehavior → Option (List String) → Bool
  is_unread allow none = true
  is_unread _ _ = false

  unfoldable pub shell_matches : PermissionRule → String → Fields → Bool
  unfolding get shell_segments command_prefix_match path_glob_match
  shell_matches r name arguments =
      if not (tool_matches r name)
      then false
      else let command = text_or "" (get "command" arguments) in
        let segments = shell_segments command in
        not (is_unread r.behavior segments)
        && command_allows r.behavior command segments (get "command" (fields r))
        && prefix_allows r.behavior segments (get "command_prefix" (fields r))
        && cwd_allows (text_or "." (get "cwd" arguments)) (get "cwd" (fields r))
        && sandbox_allows (get "sandbox" arguments) (get "sandbox" (fields r))
        && network_allows (texts_of (get "network" arguments)) (get "network" (fields r))

  unfoldable pub host_match : String → String → Bool
  host_match host pattern = elim (libraries.wildcard_suffix (libraries.idna pattern)) [
    | some suffix ↦ libraries.ends_with_dot host suffix && not (host == suffix)
    | none ↦ host == libraries.idna pattern
  ]

  abbrev url_host : Option Value → Option String
  url_host (some (text url)) = libraries.url_host url
  url_host _ = none

  abbrev host_allows : Option String → Value → Bool
  host_allows none patterns = false
  host_allows (some host) patterns = any (host_match host) (values patterns)

  abbrev operation_differs : String → Option Value → Bool
  operation_differs name none = false
  operation_differs name (some expected) = not (same_value expected (text name))

  unfoldable pub web_matches : PermissionRule → String → Fields → Bool
  unfolding get host_match
  web_matches r name arguments =
      if not (tool_matches r name)
      then false
      else if operation_differs name (get "operation" (fields r))
      then false
      else elim (get "host" (fields r)) [
        | none ↦ all (λ (item : String × Value). item.0 == "operation") (fields r)
        | some patterns ↦ host_allows (url_host (get "url" arguments)) patterns
      ]

  unfoldable pub mcp_matches : PermissionRule → String → Fields → Bool
  unfolding get identity
  mcp_matches r name arguments =
      if not (tool_matches r name)
      then false
      else let (server, tool) = identity (codes name) in
        is_or_missing (get "server" (fields r)) server
        && is_or_missing (get "mcp_tool" (fields r)) tool

  abbrev pub matches_by : Strategy → PermissionRule → String → Fields → Bool
  matches_by default_spec = default_matches
  matches_by file_spec = file_matches
  matches_by shell_spec = shell_matches
  matches_by web_spec = web_matches
  matches_by mcp_spec = mcp_matches

  unfoldable pub strategy_matches : PermissionRule → String → Fields → Bool
  unfolding spec_for default_matches file_matches shell_matches web_matches mcp_matches
  strategy_matches r name arguments = matches_by (spec_for name) r name arguments

  abbrev pub Boundary : Type 0
  Boundary = Option (PermissionBehavior × String × String)

  abbrev pub file_hard_check : Option Value → Boundary
  file_hard_check (some (text path)) = elim (libraries.refusal path) [
    | none ↦ none
    | some reason ↦ some (deny, "workspace_boundary", reason)
  ]
  file_hard_check _ = none

  abbrev is_enforceable : Option Value → Bool
  is_enforceable none = true
  is_enforceable (some (texts [])) = true
  is_enforceable (some (texts (host ∷ []))) = host == "*"
  is_enforceable (some _) = false

  abbrev has_command : Option Value → Bool
  has_command (some (text command)) = not (command == "")
  has_command _ = false

  unfoldable pub shell_hard_check : Fields → ToolPolicy → Boundary
  unfolding get
  shell_hard_check arguments policy =
      if policy.destructive
      then some
          (deny, "dangerous_shell_command", "deterministic shell analysis rejected the command")
      else if not (is_value (text "default") (get "sandbox" arguments))
      then some (
        deny, "host_execution_forbidden",
        "host shell execution is outside the automatic permission boundary",
      )
      else if not (is_enforceable (get "network" arguments))
      then some (
        deny, "unenforceable_network_scope",
        "the sandbox can enforce only no network or unrestricted network",
      )
      else if not (has_command (get "command" arguments))
      then some (ask, "shell_unparseable", "shell command is empty")
      else if is_value (flag true) (get "background" arguments)
      then some (
        ask, "background_process_confirmation", "background processes require an explicit approval",
      )
      else none

  abbrev pub hard_check_by : Strategy → Fields → ToolPolicy → Boundary
  hard_check_by file_spec arguments policy = file_hard_check (get "path" arguments)
  hard_check_by shell_spec arguments policy = shell_hard_check arguments policy
  hard_check_by _ arguments policy = none

  unfoldable pub hard_check : String → Fields → ToolPolicy → Boundary
  unfolding get spec_for shell_hard_check
  hard_check name arguments policy = hard_check_by (spec_for name) arguments policy
