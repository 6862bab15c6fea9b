-- ===== src/Agents/Acyclic.antt =====
-- The dependencies between agent tasks (capslock/storage/repositories/collaboration.py: create_task and
-- _dependency_cycle).
pub mod Creating
use caps_lock.Prelude.{
  ℕ, zero, suc, ◌≡◌, ◌⊎◌, refl, sym, ap, ◌∙◌, Bool, true, false, ◌&&◌, Option, none, some, List, [],
  ◌∷◌, ◌++◌, String, arith, All, any, all, length, first, Bool-cases, inl, inr, ◌==◌, string_eq,
  eq_iff, raise, return, Outcome,
}
use mathlib.Core.Path.{subst}
use caps_lock.Table.{update_where, All-append, All-map}
use caps_lock.Agents.Record.{AgentTask, Dependency, ParentRun, AgentTables}
use caps_lock.Agents.Store.{Naming, AgentError, cycle, has_task_id, has_run_id, ensure_default_team}
use caps_lock.Agents.Creating.{
  AgentTaskContract, TaskOptions, blockers, ancestors, dependency_cycle, edges, is_dependency,
  new_task, insert_task, checked, create_in, create_owned, create_found, create_task,
}

-- nothing is blocked by this task
abbrev Spares : String → Dependency → Type 0
Spares task d = (task == d.blocked_by_task_id) ≡ false

blockers-Spares :
    (task x : String) (rows : List Dependency) (ids : List String)
    → All (Spares task) rows
    → any (λ id. task == id) (blockers x rows ids) ≡ false
blockers-Spares task x [] ids h = refl
blockers-Spares task x (d ∷ rows) ids (h, hs) =
    ground (arith, h, blockers-Spares task x rows ids hs)

-- such a task is in no set of ancestors
ancestors-Spares :
    (n : ℕ) (task x : String) (rows : List Dependency)
    → All (Spares task) rows
    → any (λ id. task == id) (ancestors n x rows) ≡ false
unfolding ancestors
ancestors-Spares zero task x rows h = refl
ancestors-Spares (suc n) task x rows h = blockers-Spares task x rows (ancestors n x rows) h

blockers-edges :
    (task x : String) (ids : List String) (known : List String)
    → (task == x) ≡ false
    → any (λ id. task == id) known ≡ false
    → blockers x (edges task ids) known ≡ []
blockers-edges task x [] known h k = refl
blockers-edges task x (id ∷ ids) known h k = ground (arith, blockers-edges task x ids known h k)

blockers-append :
    (x : String) (rows es : List Dependency) (known : List String)
    → blockers x es known ≡ []
    → blockers x (rows ++ es) known ≡ blockers x rows known
blockers-append x [] es known h = h
blockers-append x (d ∷ rows) es known h = ground (arith, blockers-append x rows es known h)

-- the edges of a new task change no other task's ancestors
ancestors-edges :
    (n : ℕ) (task x : String) (rows : List Dependency) (ids : List String)
    → (task == x) ≡ false
    → All (Spares task) rows
    → ancestors n x (rows ++ edges task ids) ≡ ancestors n x rows
unfolding ancestors
ancestors-edges zero task x rows ids h k = refl
ancestors-edges (suc n) task x rows ids h k = rw (ancestors-edges n task x rows ids h k) (
    blockers-append x rows (edges task ids) (ancestors n x rows)
      (blockers-edges task x ids (ancestors n x rows) h (ancestors-Spares n task x rows k)))

abbrev pub IsTask : List AgentTask → Dependency → Type 0
IsTask tasks d = any (has_task_id d.blocked_by_task_id) tasks ≡ true

-- tasks depend on tasks that are there, and no task on itself, however far the chain
pub record IsAcyclic (s : AgentTables) : Type 0 where
  pub referenced : All (IsTask s.tasks) s.dependencies
  pub acyclic :
      (n : ℕ) (id : String) → any (λ other. id == other) (ancestors n id s.dependencies) ≡ false

spared :
    (task b : String) (tasks : List AgentTask)
    → any (has_task_id task) tasks ≡ false
    → any (has_task_id b) tasks ≡ true
    → (task == b) ≡ false
spared task b tasks h k = elim (Bool-cases (task == b)) [
  | inl e ↦
      let same : task ≡ b = (eq_iff task b).0 e in
      let other : any (has_task_id b) tasks ≡ false =
        subst (λ x. any (has_task_id x) tasks ≡ false) same h in
      cc
  | inr e ↦ e
]

all_spared :
    (task : String) (tasks : List AgentTask) (rows : List Dependency)
    → any (has_task_id task) tasks ≡ false
    → All (IsTask tasks) rows
    → All (Spares task) rows
all_spared task tasks [] h k = tt
all_spared task tasks (d ∷ rows) h (k, ks) =
    (spared task d.blocked_by_task_id tasks h k, all_spared task tasks rows h ks)

dependency_there :
    (team id : String) (s : AgentTables) (tasks : List AgentTask)
    → any (λ r. has_task_id id r && r.team_id == team) tasks ≡ true
    → any (has_task_id id) tasks ≡ true
dependency_there team id s [] h = cc
dependency_there team id s (r ∷ tasks) h = ground (arith, dependency_there team id s tasks)

edges-IsTask :
    (task team : String) (s : AgentTables) (ids : List String)
    → all (is_dependency s team) ids ≡ true
    → All (IsTask s.tasks) (edges task ids)
edges-IsTask task team s [] h = tt
edges-IsTask task team s (id ∷ ids) h =
    (dependency_there team id s s.tasks (ground arith), edges-IsTask task team s ids (ground arith))

any-append :
    (id : String) (tasks : List AgentTask) (r : AgentTask)
    → any (has_task_id id) tasks ≡ true
    → any (has_task_id id) (tasks ++ r ∷ []) ≡ true
any-append id [] r h = cc
any-append id (x ∷ tasks) r h = ground (arith, any-append id tasks r)

pub any-update_where :
    (id : String) (p : AgentTask → Bool) (g : AgentTask → AgentTask)
    → ((r : AgentTask) → (g r).id ≡ r.id)
    → (tasks : List AgentTask)
    → any (has_task_id id) (update_where p g tasks) ≡ any (has_task_id id) tasks
unfolding update_where
any-update_where id p g same [] = refl
any-update_where id p g same (r ∷ tasks) =
    ground (arith, same r, any-update_where id p g same tasks)

-- the invariant, when tasks keep their ids and the dependencies stay
pub kept-IsAcyclic :
    (s t : AgentTables)
    → IsAcyclic s
    → ((id : String) → any (has_task_id id) t.tasks ≡ any (has_task_id id) s.tasks)
    → t.dependencies ≡ s.dependencies
    → IsAcyclic t
kept-IsAcyclic s t h tasks deps = record {
  referenced = rw deps (
      All-map (IsTask s.tasks) (IsTask t.tasks) (λ d e. tasks d.blocked_by_task_id ∙ e)
        s.dependencies h.referenced);
  acyclic = λ n id. rw deps (h.acyclic n id);
}

pub moved_aside :
    (s t : AgentTables)
    → IsAcyclic s
    → t.tasks ≡ s.tasks
    → t.dependencies ≡ s.dependencies
    → IsAcyclic t
moved_aside s t h tasks deps = kept-IsAcyclic s t h (λ id. ap (any (has_task_id id)) tasks) deps

-- the rows of a new task keep the invariant
pub insert_task-IsAcyclic :
    (t : AgentTask) (ids : List String) (team : String) (s : AgentTables)
    → IsAcyclic s
    → any (has_task_id t.id) s.tasks ≡ false
    → all (is_dependency s team) ids ≡ true
    → IsAcyclic (insert_task t ids s)
insert_task-IsAcyclic t ids team s h free deps =
    let there =
      All-append (IsTask s.tasks) s.dependencies (edges t.id ids) h.referenced
        (edges-IsTask t.id team s ids deps) in
    record {
      referenced =
          All-map (IsTask s.tasks) (IsTask (s.tasks ++ t ∷ []))
            (λ d e. any-append d.blocked_by_task_id s.tasks t e) (s.dependencies ++ edges t.id ids)
            there;
      acyclic = λ n id. elim (Bool-cases (t.id == id)) [
        | inl e ↦
            let same : t.id ≡ id = (eq_iff t.id id).0 e in
            subst
              (λ x.
                any (λ other. x == other) (ancestors n x (s.dependencies ++ edges t.id ids))
                ≡ false)
              same
              (ancestors-Spares n t.id t.id (s.dependencies ++ edges t.id ids)
                (all_spared t.id s.tasks _ free there))
        | inr e ↦
            rw
              (ancestors-edges n t.id id s.dependencies ids e
                (all_spared t.id s.tasks s.dependencies free h.referenced))
              (h.acyclic n id)
      ];
    }
