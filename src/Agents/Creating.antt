-- ===== src/Agents/Creating.antt =====
-- `CollaborationRepository.create_task` and `_dependency_cycle` of
-- capslock/storage/repositories/collaboration.py.
use caps_lock.Prelude.{
  ℕ, zero, suc, Bool, true, false, not, ◌&&◌, ◌||◌, Option, none, some, List, [], ◌∷◌, ◌++◌, map,
  String, if◌then◌else◌, first, keep, any, all, length, ◌==◌, string_eq, return, raise,
}
use caps_lock.Agents.Record.{
  AgentTaskState, AgentTask, Dependency, ParentRun, PlanTask, AgentTables, is_stopped,
}
use caps_lock.Agents.Store.{
  Naming, Collaborating, has_team_id, has_worker_id, has_task_id, has_run_id, ensure_default_team,
  no_parent, foreign_team, foreign_worker, foreign_plan_task, foreign_dependency, cycle, integrity,
}

-- the columns of a task's contract
pub record AgentTaskContract : Type 0 where
  pub task_id : String
  pub parent_run_id : String
  pub objective : String
  pub json : String
  pub sha256 : String

-- a team id that is missing or empty is `none`
pub record TaskOptions : Type 0 where
  pub team_id : Option String
  pub worker_id : Option String
  pub plan_task_id : Option String
  pub priority : ℕ
  pub depends_on : List String

-- the next set of the recursive query: what blocks the task, or one that is already in the set
abbrev pub blockers : String → List Dependency → List String → List String
blockers task rows ids =
    map (λ (d : Dependency). d.blocked_by_task_id)
      (keep (λ (d : Dependency). d.task_id == task || any (λ id. d.task_id == id) ids) rows)

-- the set after a number of rounds; each round that is not the last adds a row
unfoldable pub ancestors : ℕ → String → List Dependency → List String
ancestors zero task rows = []
ancestors (suc n) task rows = blockers task rows (ancestors n task rows)

unfoldable pub dependency_cycle : String → List Dependency → Bool
dependency_cycle task rows = any (λ id. task == id) (ancestors (length rows) task rows)

abbrev of_session : String → String → PlanTask → Bool
of_session id session r = r.id == id && r.session_id == session

abbrev is_foreign_plan : Option String → String → AgentTables → Bool
is_foreign_plan none session s = false
is_foreign_plan (some id) session s = not (any (of_session id session) s.plan_tasks)

abbrev is_foreign_worker : Option String → String → AgentTables → Bool
is_foreign_worker none team s = false
is_foreign_worker (some id) team s =
    not (any (λ r. has_worker_id id r && not (is_stopped r.state) && r.team_id == team) s.workers)

abbrev pub is_dependency : AgentTables → String → String → Bool
is_dependency s team id = any (λ r. has_task_id id r && r.team_id == team) s.tasks

abbrev pub new_task : AgentTaskContract → TaskOptions → (session team : String) → ℕ → AgentTask
new_task c o session team now = record {
  id = c.task_id;
  parent_run_id = c.parent_run_id;
  owner_session_id = session;
  team_id = team;
  assigned_worker_id = o.worker_id;
  plan_task_id = o.plan_task_id;
  objective = c.objective;
  contract = c.json;
  contract_sha256 = c.sha256;
  priority = o.priority;
  state = AgentTaskState.created;
  child_run_id = none;
  claim_token = none;
  attempt_count = 0;
  error = none;
  created_at = now;
  started_at = none;
  finished_at = none;
}

abbrev pub edges : String → List String → List Dependency
edges task [] = []
edges task (id ∷ ids) = record { task_id = task; blocked_by_task_id = id } ∷ edges task ids

abbrev has_repeats : List String → Bool
has_repeats [] = false
has_repeats (id ∷ ids) = any (λ other. id == other) ids || has_repeats ids

-- the rows of the transaction
abbrev pub insert_task : AgentTask → List String → AgentTables → AgentTables
insert_task task ids s = record s {
  tasks = s.tasks ++ task ∷ [];
  dependencies = s.dependencies ++ edges task.id ids;
}

-- the deletion, which takes the task's dependencies with it
abbrev pub delete_task : String → AgentTables → AgentTables
delete_task id s = record s {
  tasks = keep (λ r. not (has_task_id id r)) s.tasks;
  dependencies =
      keep (λ (d : Dependency). not (d.task_id == id || d.blocked_by_task_id == id)) s.dependencies;
}

abbrev pub checked : AgentTask → List String → Collaborating Unit
checked task ids s =
    if any (λ id. true) ids && dependency_cycle task.id s.dependencies
    then (raise cycle, delete_task task.id s)
    else (return tt, s)

abbrev pub create_in :
    AgentTaskContract → TaskOptions → ℕ → (session team : String) → Collaborating Unit
create_in c o now session team s =
    if not (any (λ r. has_team_id team r && r.is_active && r.session_id == session) s.teams)
    then (raise foreign_team, s)
    else if is_foreign_worker o.worker_id team s
    then (raise foreign_worker, s)
    else if is_foreign_plan o.plan_task_id session s
    then (raise foreign_plan_task, s)
    else if not (all (is_dependency s team) o.depends_on)
    then (raise foreign_dependency, s)
    else if any (has_task_id c.task_id) s.tasks || has_repeats o.depends_on
    then (raise integrity, s)
    else let task = new_task c o session team now in
      checked task o.depends_on (insert_task task o.depends_on s)

abbrev pub create_owned :
    Naming
    → AgentTaskContract
    → TaskOptions
    → ℕ
    → (session : String) → Option String
    → Collaborating Unit
create_owned names c o now session (some team) s = create_in c o now session team s
create_owned names c o now session none s =
    let (team, t) = ensure_default_team names session (some c.parent_run_id) now s in
    create_in c o now session team t

abbrev pub create_found :
    Naming → AgentTaskContract → TaskOptions → ℕ → Option ParentRun → Collaborating Unit
create_found names c o now none s = (raise no_parent, s)
create_found names c o now (some run) s = create_owned names c o now run.session_id o.team_id s

unfoldable pub create_task : Naming → AgentTaskContract → TaskOptions → ℕ → Collaborating Unit
unfolding ensure_default_team dependency_cycle
create_task names c o now s =
    create_found names c o now (first (has_run_id c.parent_run_id) s.runs) s
