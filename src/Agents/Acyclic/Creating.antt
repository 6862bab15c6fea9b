-- ===== src/Agents/Acyclic/Creating.antt =====
-- That creating a task keeps the tables acyclic (`create_task` of
-- capslock/storage/repositories/collaboration.py).
use caps_lock.Prelude.{
  ℕ, ◌≡◌, ◌⊎◌, refl, sym, Bool, true, false, Option, none, some, List, String, arith, any, all,
  length, first, inl, inr, string_eq, raise, return, Outcome,
}
use mathlib.Core.Path.{subst}
use caps_lock.Agents.Record.{AgentTask, ParentRun, AgentTables}
use caps_lock.Agents.Store.{Naming, AgentError, cycle, has_task_id, has_run_id, ensure_default_team}
use caps_lock.Agents.Creating.{
  AgentTaskContract, TaskOptions, dependency_cycle, is_dependency, new_task, insert_task, checked,
  create_in, create_owned, create_found, create_task,
}
use caps_lock.Agents.Acyclic.{IsAcyclic, moved_aside, insert_task-IsAcyclic}

abbrev pub is_cycle : {A : Type 0} → Outcome AgentError A → Bool
is_cycle (raise cycle) = true
is_cycle _ = false

-- what a call leaves: acyclic tables, and no report of a cycle
abbrev pub Fine : {A : Type 0} → Outcome AgentError A × AgentTables → Type 0
Fine (r, t) = (is_cycle r ≡ false) × IsAcyclic t

checked-Fine :
    (t : AgentTask) (ids : List String) (v : AgentTables) → IsAcyclic v → Fine (checked t ids v)
unfolding dependency_cycle
checked-Fine t ids v h =
    let none = h.acyclic (length v.dependencies) t.id in
    let same : checked t ids v ≡ (return tt, v) = ground (arith, none) in
    subst Fine (sym same) (refl, h)

create_in-Fine :
    (c : AgentTaskContract) (o : TaskOptions) (now : ℕ) (session team : String) (s : AgentTables)
    → IsAcyclic s
    → Fine (create_in c o now session team s)
create_in-Fine c o now session team s h =
    let t : AgentTask = new_task c o session team now in
    let v : AgentTables = insert_task t o.depends_on s in
    let done : ((is_cycle (create_in c o now session team s).0 ≡ false)
          × ((create_in c o now session team s).1 ≡ s))
        ⊎ ((any (has_task_id c.task_id) s.tasks ≡ false)
            × (all (is_dependency s team) o.depends_on ≡ true)
            × (create_in c o now session team s ≡ checked t o.depends_on v)) =
      ground arith in
    elim done [
      | inl (e, k) ↦ (e, subst IsAcyclic (sym k) h)
      | inr (free, deps, e) ↦
          subst Fine (sym e) (
            checked-Fine t o.depends_on v (insert_task-IsAcyclic t o.depends_on team s h free deps))
    ]

create_owned-Fine :
    (names : Naming) (c : AgentTaskContract) (o : TaskOptions) (now : ℕ) (session : String)
    (team : Option String) (s : AgentTables)
    → IsAcyclic s
    → Fine (create_owned names c o now session team s)
unfolding ensure_default_team
create_owned-Fine names c o now session (some team) s h = create_in-Fine c o now session team s h
create_owned-Fine names c o now session none s h =
    let (team, t) = ensure_default_team names session (some c.parent_run_id) now s in
    create_in-Fine c o now session team t (moved_aside s t h (ground arith) (ground arith))

create_found-Fine :
    (names : Naming) (c : AgentTaskContract) (o : TaskOptions) (now : ℕ) (run : Option ParentRun)
    (s : AgentTables)
    → IsAcyclic s
    → Fine (create_found names c o now run s)
create_found-Fine names c o now none s h = (refl, h)
create_found-Fine names c o now (some run) s h =
    create_owned-Fine names c o now run.session_id o.team_id s h

-- Creating a task never finds a cycle, so it never takes the new task back: where tasks depend on
-- tasks that are there and on no chain that returns, the same holds after the call, whether it
-- returns or raises, and what it raises is another error.
pub create_task-Fine :
    (names : Naming) (c : AgentTaskContract) (o : TaskOptions) (now : ℕ) (s : AgentTables)
    → IsAcyclic s
    → Fine (create_task names c o now s)
unfolding create_task
create_task-Fine names c o now s h =
    create_found-Fine names c o now (first (has_run_id c.parent_run_id) s.runs) s h
