-- ===== src/Agents/Store.antt =====
-- `CollaborationRepository` of capslock/storage/repositories/collaboration.py: teams, workers and the
-- making of tasks. A call that raises inside of its transaction leaves the tables as they were.
-- The primary keys of the tasks and the uniqueness of names are checked; the drawn ids are new to
-- their tables. str.strip, the length of a name and the id of a default team are the argument
-- `Naming`. The workspaces of tasks are left out.
use caps_lock.Prelude.{
  ℕ, Bool, true, not, ◌&&◌, ◌||◌, Option, none, [], ◌∷◌, ◌++◌, String, if◌then◌else◌, leb, nat_eq,
  any, ◌==◌, string_eq, return, raise, Exec,
}
use caps_lock.Agents.Record.{
  idle, AgentTeam, AgentWorker, AgentTask, AgentAttempt, ParentRun, AgentTables,
}

-- the ValueErrors, by their message, and the IntegrityError of SQLite
pub data AgentError : Type 0 where
  bad_team_name bad_mode bad_agent_name no_team no_parent foreign_team foreign_worker
        foreign_plan_task foreign_dependency cycle no_child invalid_transition changed_concurrently
        no_worker no_task not_claimable not_completed no_attempt not_startable invalid_terminal
        not_suspended no_interrupted foreign_attempt not_interrupted worker_not_interrupted
        contract_changed not_resumable resume_changed integrity :
      AgentError

pub record Naming : Type 0 where
  pub strip : String → String
  pub size : String → ℕ
  pub default_team : String → String

abbrev pub Collaborating : Type 0 → Type 0
Collaborating A = Exec AgentError AgentTables A

abbrev pub has_team_id : String → AgentTeam → Bool
has_team_id id r = r.id == id

abbrev pub has_worker_id : String → AgentWorker → Bool
has_worker_id id r = r.id == id

abbrev pub has_task_id : String → AgentTask → Bool
has_task_id id r = r.id == id

abbrev pub has_attempt_id : String → AgentAttempt → Bool
has_attempt_id id r = r.id == id

abbrev pub has_run_id : String → ParentRun → Bool
has_run_id id r = r.id == id

abbrev pub is_named : (session name : String) → AgentTeam → Bool
is_named session name r = r.session_id == session && r.name == name

abbrev new_team : (id session name : String) → Option String → ℕ → AgentTeam
new_team id session name run now = record {
  id = id;
  session_id = session;
  name = name;
  is_active = true;
  created_by_run_id = run;
  created_at = now;
}

-- INSERT OR IGNORE
unfoldable pub ensure_default_team :
    Naming → (session : String) → Option String → ℕ → AgentTables → String × AgentTables
ensure_default_team names session run now s =
    let id = names.default_team session in
    if any (λ r. has_team_id id r || is_named session "default" r) s.teams
    then (id, s)
    else (id, record s { teams = s.teams ++ new_team id session "default" run now ∷ [] })

-- `not normalized or len(normalized) > 64`
abbrev is_bad_name : Naming → String → Bool
is_bad_name names name = nat_eq (names.size name) 0 || not (leb (names.size name) 64)

unfoldable pub create_team :
    Naming → (id : String) → ℕ → (session name : String) → Option String → Collaborating AgentTeam
create_team names id now session name run s =
    let normalized = names.strip name in
    if is_bad_name names normalized
    then (raise bad_team_name, s)
    else if any (is_named session normalized) s.teams
    then (raise integrity, s)
    else let team = new_team id session normalized run now in
      (return team, record s { teams = s.teams ++ team ∷ [] })

abbrev is_mode : String → Bool
is_mode mode = mode == "snapshot" || mode == "worktree" || mode == "shared_read"

abbrev new_worker : (id : String) → ℕ → (team name profile mode : String) → Bool → AgentWorker
new_worker id now team name profile mode persistent = record {
  id = id;
  team_id = team;
  name = name;
  profile = profile;
  workspace_mode = mode;
  state = idle;
  persistent = persistent;
  child_session_id = none;
  created_at = now;
  updated_at = now;
  stopped_at = none;
}

-- create_worker; `profile` is the text of the redacted profile
unfoldable pub create_worker :
    Naming
    → (id : String) → ℕ
    → (team name profile mode : String) → Bool
    → Collaborating AgentWorker
create_worker names id now team name profile mode persistent s =
    let normalized = names.strip name in
    if not (is_mode mode)
    then (raise bad_mode, s)
    else if is_bad_name names normalized
    then (raise bad_agent_name, s)
    else if not (any (λ r. has_team_id team r && r.is_active) s.teams)
    then (raise no_team, s)
    else if any (λ r. r.team_id == team && r.name == normalized) s.workers
    then (raise integrity, s)
    else let worker = new_worker id now team normalized profile mode persistent in
      (return worker, record s { workers = s.workers ++ worker ∷ [] })
