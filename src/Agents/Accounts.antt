-- ===== src/Agents/Accounts.antt =====
-- What the parent runs are charged for the attempts at their tasks
-- (capslock/storage/repositories/collaboration.py).
pub mod Keeping
pub mod Settling
pub mod Stepping
use mathlib.Core.Path.{subst}
use mathlib.Core.Option
use caps_lock.Prelude.{
  ℕ, zero, suc, ◌+◌, ◌≤◌, ◌≡◌, refl, sym, ap, ◌∙◌, Bool, true, false, Option, none, some, List, [],
  ◌∷◌, ◌++◌, map, String, if◌then◌else◌, arith, All, any, first, keep, Bool-cases, inl, inr, ◌==◌,
  string_eq, Option-cases,
}
use caps_lock.Table.{
  update_where, row_count, first-update_where, row_count-update_where, All-update_where, All-append,
  row_count-append, row_count-absent, first-append,
}
use caps_lock.Governance.Limits.{Usage}
use caps_lock.Agents.Record.{
  AgentAttemptState, completed, AgentTask, AgentAttempt, ParentRun, AgentTables,
}
use caps_lock.Agents.Store.{has_task_id, has_attempt_id, has_run_id}
use caps_lock.Agents.Finishing.{add_usage}

module _ {R : Type 0} where
  -- sum(f(r) for r in rows)
  unfoldable pub total : (R → ℕ) → List R → ℕ
  total f [] = 0
  total f (r ∷ rows) = f r + total f rows

  pub total-append :
      (f : R → ℕ) (rows : List R) (r : R) → total f (rows ++ r ∷ []) ≡ total f rows + f r
  unfolding total
  total-append f [] r = omega arith
  total-append f (x ∷ rows) r = omega (arith, total-append f rows r)

  pub total-same :
      (f g : R → ℕ) (P : R → Type 0)
      → ((r : R) → P r → f r ≡ g r)
      → (rows : List R) → All P rows
      → total f rows ≡ total g rows
  unfolding total
  total-same f g P same [] h = refl
  total-same f g P same (r ∷ rows) (h, hs) = omega (arith, same r h, total-same f g P same rows hs)

  -- an update that keeps the value of every row that it writes
  pub total-kept :
      (f : R → ℕ) (p : R → Bool) (g : R → R)
      → ((r : R) → p r ≡ true → f (g r) ≡ f r)
      → (rows : List R) → total f (update_where p g rows) ≡ total f rows
  unfolding total update_where
  total-kept f p g same [] = refl
  total-kept f p g same (r ∷ rows) = ground (arith, same r, total-kept f p g same rows)

  total-none :
      (f : R → ℕ) (p : R → Bool) (g : R → R) (rows : List R)
      → row_count p rows ≡ 0
      → total f (update_where p g rows) ≡ total f rows
  unfolding total update_where row_count
  total-none f p g [] h = refl
  total-none f p g (r ∷ rows) h = ground (arith, total-none f p g rows)

  -- an update of the one row of a key
  pub total-update_where :
      (f : R → ℕ) (p : R → Bool) (g : R → R) (rows : List R) (a : R)
      → first p rows ≡ some a
      → row_count p rows ≤ 1
      → total f (update_where p g rows) + f a ≡ total f rows + f (g a)
  unfolding total update_where row_count
  total-update_where f p g [] a h u = cc
  total-update_where f p g (r ∷ rows) a h u =
      ground (arith, total-none f p g rows, total-update_where f p g rows a)

-- the three amounts that a run is charged
pub data Meter : Type 0 where
  input_meter output_meter cost_meter : Meter

abbrev pub metered : Meter → Usage → ℕ
metered input_meter u = u.input_tokens
metered output_meter u = u.output_tokens
metered cost_meter u = u.cost_usd

abbrev pub on_run : Meter → ParentRun → ℕ
on_run input_meter r = r.input_tokens
on_run output_meter r = r.output_tokens
on_run cost_meter r = r.cost_usd

pub on_run-add_usage :
    (m : Meter) (u : Usage) (r : ParentRun) → on_run m (add_usage u r) ≡ on_run m r + metered m u
on_run-add_usage input_meter u r = refl
on_run-add_usage output_meter u r = refl
on_run-add_usage cost_meter u r = refl

-- the run of a task
unfoldable pub parent_run : List AgentTask → String → Option String
parent_run tasks id = Option.map (λ (t : AgentTask). t.parent_run_id) (first (has_task_id id) tasks)

-- what a completed attempt costs its parent run, when it is accounted there
abbrev pub charge_of : Meter → AgentAttemptState → Bool → Option Usage → ℕ
charge_of m completed true (some u) = metered m u
charge_of m _ _ _ = 0

abbrev pub is_run : String → Option String → Bool
is_run run none = false
is_run run (some id) = id == run

abbrev pub charge : Meter → (run : String) → List AgentTask → AgentAttempt → ℕ
charge m run tasks a =
    if is_run run (parent_run tasks a.task_id)
    then charge_of m a.state a.account_usage a.usage
    else 0

-- the charges of the attempts at the tasks of a run
unfoldable pub charged : Meter → (run : String) → AgentTables → ℕ
charged m run s = total (charge m run s.tasks) s.attempts

abbrev pub amount_of : Meter → Option ParentRun → ℕ
amount_of m none = 0
amount_of m (some r) = on_run m r

-- the amount on the run's row
unfoldable pub spent : Meter → (run : String) → AgentTables → ℕ
spent m run s = amount_of m (first (has_run_id run) s.runs)

abbrev pub is_some : {A : Type 0} → Option A → Bool
is_some none = false
is_some (some a) = true

-- attempts have ids of their own, and are attempts at a task of the table
pub record IsKeyed (s : AgentTables) : Type 0 where
  pub keyed : (id : String) → row_count (has_attempt_id id) s.attempts ≤ 1
  pub owned : All (λ (a : AgentAttempt). is_some (parent_run s.tasks a.task_id) ≡ true) s.attempts

-- no task of `t` is lost or goes to another run
abbrev pub Extends : List AgentTask → List AgentTask → Type 0
Extends t u = (id run : String) → parent_run t id ≡ some run → parent_run u id ≡ some run

-- a run that is there stays
abbrev pub has_run : String → AgentTables → Bool
has_run run s = is_some (first (has_run_id run) s.runs)

-- from one state to another, the run's amount grows by what it is charged for
pub record Charges (s t : AgentTables) : Type 0 where
  pub keyed : IsKeyed t
  pub present : (run : String) → has_run run s ≡ true → has_run run t ≡ true
  pub balance :
      (m : Meter) (run : String)
      → has_run run s ≡ true
      → spent m run t + charged m run s ≡ spent m run s + charged m run t
