-- ===== src/Agents/Claims.antt =====
-- What a claim of a task finds and leaves (`CollaborationRepository.claim_task` of
-- capslock/storage/repositories/collaboration.py).
use mathlib.Core.Path.{subst}
use caps_lock.Prelude.{
  ℕ, suc, ◌≡◌, refl, sym, ap, ◌∙◌, Bool, true, false, Option, none, some, List, [], ◌∷◌, ◌++◌,
  String, arith, any, first, ==_self, string_eq, eq_iff, Outcome, return, raise,
}
use caps_lock.Table.{update_where, row_count-first, first-update_where}
use caps_lock.Agents.Record.{
  AgentTaskState, Reservation, AgentTask, AgentTables, is_claimable, eq_task,
}
use caps_lock.Agents.Store.{AgentError, has_task_id}
use caps_lock.Agents.States.{in_state}
use caps_lock.Agents.Attempts.{
  Claim, claim_task, claim_found, claim_row, claim_rows, new_attempt, incomplete, is_member,
}

abbrev pub is_return : {A : Type 0} → Outcome AgentError A → Bool
is_return (return a) = true
is_return (raise e) = false

-- the row of the task when it is claimed, and what the claim makes of it
pub record IsClaimed (c : Claim) (task worker : String) (reservation : Option Reservation)
    (account : Bool) (s t : AgentTables) (row : AgentTask) : Type 0 where
  pub found : first (has_task_id task) s.tasks ≡ some row
  pub claimable : is_claimable row.state ≡ true
  pub member : is_member s worker row.team_id ≡ true
  pub complete : any (incomplete s task) s.dependencies ≡ false
  pub attempt :
      t.attempts
      ≡ s.attempts ++ new_attempt c task worker (suc row.attempt_count) reservation account ∷ []
  pub claimed :
      first (has_task_id task) t.tasks ≡ some (claim_row c worker (suc row.attempt_count) row)

self_task : (x : AgentTaskState) → eq_task x x ≡ true
self_task x = ground arith

claimed_row :
    (c : Claim) (worker : String) (row : AgentTask) (tasks : List AgentTask)
    → first (has_task_id row.id) tasks ≡ some row
    → first (has_task_id row.id) (
        update_where (in_state row.id row.state) (claim_row c worker (suc row.attempt_count)) tasks)
      ≡ some (claim_row c worker (suc row.attempt_count) row)
claimed_row c worker row tasks found =
    let g : AgentTask → AgentTask = claim_row c worker (suc row.attempt_count) in
    let met : in_state row.id row.state row ≡ true =
      ground (arith, ==_self row.id, self_task row.state) in
    first-update_where (has_task_id row.id) (in_state row.id row.state) g (λ r. refl) tasks
    ∙ rw (found, met) refl

claim_found-return :
    (c : Claim) (worker : String) (reservation : Option Reservation) (account : Bool)
    (s : AgentTables) (row : AgentTask)
    → first (has_task_id row.id) s.tasks ≡ some row
    → is_return (claim_found c worker reservation account (some row) s).0 ≡ true
    → IsClaimed c row.id worker reservation account s
        (claim_found c worker reservation account (some row) s).1
        row
claim_found-return c worker reservation account s row found h =
    let done : (claim_found c worker reservation account (some row) s).1
        ≡ claim_rows c worker reservation account row s =
      ground arith in
    subst (λ t. IsClaimed c row.id worker reservation account s t row) (sym done)
      (record {
        found = found;
        claimable = ground arith;
        member = ground arith;
        complete = ground arith;
        attempt = refl;
        claimed = claimed_row c worker row s.tasks found;
      })

-- a claimed task is not claimable
claimed_refused :
    (c d : Claim) (other : String) (reservation : Option Reservation) (account : Bool)
    (worker : String) (n : ℕ) (row : AgentTask) (t : AgentTables)
    → (is_return (claim_found d other reservation account (some (claim_row c worker n row)) t).0
        ≡ false)
      × ((claim_found d other reservation account (some (claim_row c worker n row)) t).1 ≡ t)
claimed_refused c d other reservation account worker n row t = (ground arith, ground arith)

-- the second claim, by the row that the first one found
found_once :
    (c d : Claim) (task worker other : String) (reservation kept : Option Reservation)
    (account counted : Bool) (s : AgentTables) (o : Option AgentTask)
    → first (has_task_id task) s.tasks ≡ o
    → is_return (claim_found c worker reservation account o s).0 ≡ true
    → let t = (claim_found c worker reservation account o s).1 in
      (row : AgentTask) × IsClaimed c task worker reservation account s t row
      × (is_return (claim_task d task other kept counted t).0 ≡ false)
      × ((claim_task d task other kept counted t).1 ≡ t)
unfolding claim_task
found_once c d task worker other reservation kept account counted s none e h = cc
found_once c d task worker other reservation kept account counted s (some row) e h =
    let same : row.id ≡ task =
      (eq_iff row.id task).0 (row_count-first (has_task_id task) s.tasks row e) in
    let t = (claim_found c worker reservation account (some row) s).1 in
    let claimed : IsClaimed c task worker reservation account s t row =
      subst (λ id. IsClaimed c id worker reservation account s t row) same
        (claim_found-return c worker reservation account s row
          (ap (λ id. first (has_task_id id) s.tasks) same ∙ e) h) in
    let refused = claimed_refused c d other kept counted worker (suc row.attempt_count) row t in
    (row, claimed, rw claimed.claimed refused.0, rw claimed.claimed refused.1)

-- A claim that returns took a task that was claimable, by a worker of its team that is not stopped,
-- when all its dependencies were completed; it leaves the task claimed by that worker, with a new
-- attempt of the next number at the end of the table. A second claim of the task on these tables,
-- by whichever worker, raises and writes nothing.
pub claim_task_once :
    (c d : Claim) (task worker other : String) (reservation kept : Option Reservation)
    (account counted : Bool) (s : AgentTables)
    → is_return (claim_task c task worker reservation account s).0 ≡ true
    → let t = (claim_task c task worker reservation account s).1 in
      (row : AgentTask) × IsClaimed c task worker reservation account s t row
      × (is_return (claim_task d task other kept counted t).0 ≡ false)
      × ((claim_task d task other kept counted t).1 ≡ t)
unfolding claim_task
claim_task_once c d task worker other reservation kept account counted s h =
    found_once c d task worker other reservation kept account counted s
      (first (has_task_id task) s.tasks) refl h
