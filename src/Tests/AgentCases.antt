-- ===== src/Tests/AgentCases.antt =====
-- capslock/storage/repositories/collaboration.py: a team of one worker with two tasks, of which the second
-- waits for the first, and the attempts at the first.
use caps_lock.Prelude.{
  ℕ, zero, suc, ◌++◌, ◌≡◌, refl, true, false, none, some, List, [], ◌∷◌, String, arith, raise, any,
  string_eq, ◌==◌,
}
use caps_lock.Table.{row_count}
use caps_lock.Governance.Limits.{Usage}
use caps_lock.Agents.Record.{completed, AgentTask, AgentCheckpoint, AgentTables}
use caps_lock.Agents.Store.{Naming, not_completed, foreign_team}
use caps_lock.Agents.Creating.{
  AgentTaskContract, TaskOptions, create_task, ancestors, dependency_cycle,
}
use caps_lock.Agents.Attempts.{Claim, claim_task}
use caps_lock.Agents.Finishing.{Finish}
use caps_lock.Agents.Accounts.{IsKeyed, Charges, input_meter, spent}
use caps_lock.Agents.Acyclic.{IsAcyclic}
use caps_lock.Agents.Claims.{claim_task_once, IsClaimed, is_return}
use caps_lock.Agents.Histories.{
  AgentCall, making_team, making_worker, making_task, claiming, starting, finishing, restarting,
  checkpointing, reopening, replay, replay-Charges,
}
use caps_lock.Agents.Dependencies.{replay-dependency_cycle}

abbrev names : Naming
names = record { strip = λ name. name; size = λ name. 4; default_team = λ session. "d" }

abbrev empty : AgentTables
empty = record {
  runs =
      record { id = "r"; session_id = "s"; input_tokens = 10; output_tokens = 0; cost_usd = 0 }
      ∷ [];
  plan_tasks = [];
  teams = [];
  workers = [];
  tasks = [];
  dependencies = [];
  attempts = [];
  checkpoints = [];
  ledger = [];
}

abbrev contract : String → AgentTaskContract
contract id = record {
  task_id = id;
  parent_run_id = "r";
  objective = "goal";
  json = "json";
  sha256 = "digest";
}

abbrev options : List String → TaskOptions
options ids = record {
  team_id = none;
  worker_id = none;
  plan_task_id = none;
  priority = 0;
  depends_on = ids;
}

abbrev usage : ℕ → Usage
usage n = record {
  input_tokens = n;
  output_tokens = 1;
  cost_usd = 2;
  tool_rounds = 0;
  tool_calls = 0;
}

abbrev claim : Claim
claim = record { token = "c"; attempt_id = "a"; budget_id = "b"; key = "reserve:a"; now = 4 }

abbrev checkpoint : AgentCheckpoint
checkpoint = record {
  attempt_id = "a";
  contract_sha256 = "digest";
  child_session_id = some "child";
  child_run_id = none;
  checkpoint = "json";
  resumable = true;
  updated_at = 6;
}

abbrev finish : String → ℕ → Finish
finish id now = record { budget_id = id; key = "finish:a"; now = now }

abbrev set_up : List AgentCall
set_up =
    making_task (contract "one") (options []) 1
    ∷ making_task (contract "two") (options ("one" ∷ [])) 2
    ∷ making_worker "w" 3 "d" "name" "profile" "snapshot" true
    ∷ []

-- suspended, interrupted by a restart, reopened, and completed
abbrev work : List AgentCall
work =
    claiming claim "one" "w" none true
    ∷ starting 5 "a" none
    ∷ checkpointing checkpoint
    ∷ restarting 7
    ∷ reopening 8 "one" "w" "digest"
    ∷ starting 9 "a" none
    ∷ finishing (finish "f" 10) "a" completed (some (usage 5)) none
    ∷ finishing (finish "g" 11) "a" completed (some (usage 5)) none
    ∷ []

empty-IsKeyed : IsKeyed empty
unfolding row_count
empty-IsKeyed = record { keyed = λ id. omega arith; owned = tt }

abbrev history : List AgentCall
history = set_up ++ work

replay-Charges_example : Charges empty (replay names history empty)
replay-Charges_example = replay-Charges names history empty empty-IsKeyed

-- finished twice, the attempt is charged once
charged_once : spent input_meter "r" (replay names history empty) ≡ 15
unfolding replay spent ancestors
charged_once = refl

empty-IsAcyclic : IsAcyclic empty
unfolding ancestors
empty-IsAcyclic = record { referenced = tt; acyclic = go }
  where
    go : (n : ℕ) (id : String) → any (λ other. id == other) (ancestors n id []) ≡ false
    go zero id = refl
    go (suc n) id = refl

replay-dependency_cycle_example :
    (dependency_cycle "two" (replay names history empty).dependencies ≡ false)
    × (any (λ other. "two" == other) (ancestors 3 "two" (replay names history empty).dependencies)
        ≡ false)
replay-dependency_cycle_example =
    replay-dependency_cycle names history empty "two" 3 empty-IsAcyclic

abbrev ready : AgentTables
ready = replay names set_up empty

other_claim : Claim
other_claim = record {
  token = "c2";
  attempt_id = "a2";
  budget_id = "b2";
  key = "reserve:a2";
  now = 5;
}

-- the second task waits for the first
not_yet : (claim_task claim "two" "w" none true ready).0 ≡ raise not_completed
unfolding replay claim_task ancestors
not_yet = refl

first_claimed : is_return (claim_task claim "one" "w" none true ready).0 ≡ true
unfolding replay claim_task ancestors
first_claimed = refl

claim_task_once_example :
    let t = (claim_task claim "one" "w" none true ready).1 in
    (row : AgentTask) × IsClaimed claim "one" "w" none true ready t row
    × (is_return (claim_task other_claim "one" "w" none false t).0 ≡ false)
    × ((claim_task other_claim "one" "w" none false t).1 ≡ t)
claim_task_once_example =
    claim_task_once claim other_claim "one" "w" "w" none none true false ready first_claimed

-- a team that is named like the default one keeps the default one from being made
default_blocked :
    (create_task names
      (contract "one")
      (options [])
      2
      (replay names (making_team "t" 1 "s" "default" none ∷ []) empty)).0
    ≡ raise foreign_team
unfolding replay create_task
default_blocked = refl
