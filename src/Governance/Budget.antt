-- ===== src/Governance/Budget.antt =====
-- `RunGovernor` of capslock/runtime/governance.py: what a run has used, and when it is stopped. What the
-- calls find outside (the clock since the start, the model journal and the children's usage) is the
-- argument `reads`: the n-th reading is that of the n-th call of `current`. The fingerprint of a
-- tool call, a digest of its redacted arguments, is given to `before_tool`. A call is one step:
-- before_tool and finish_tool hold the lock of tool attempts; the other calls wait for their
-- readings without it, and what another call does meanwhile is not modelled.
pub mod Charging
pub mod Admitting
use caps_lock.Prelude.{
  ℕ, zero, suc, ◌+◌, ◌-◌, ◌*◌, Bool, true, false, not, ◌&&◌, ◌||◌, Option, none, some, List, [],
  ◌∷◌, ◌++◌, map, String, if◌then◌else◌, nat_eq, leb, ◌==◌, string_eq, Outcome, return, raise, Exec,
  pure, gets, writes, continue, ◌>>=◌, ◌>>◌,
}
use mathlib.Core.List.{reverse}
use caps_lock.Governance.Loops.{
  Attempt, Detail, failed_retry, process_stalled, LoopSettings, loop_detail,
}
use caps_lock.Governance.Limits.{
  RunMode, interactive, exec, StopReason, max_tool_rounds, max_tool_calls, max_duration, max_tokens,
  max_budget_usd, repeated_tool_call, RunLimits, BudgetSnapshot, Remaining, remaining, Usage,
  Reserved, GovernanceRow, AttemptRow, save, reserve_attempt, finish_attempt,
}

-- what one call of `current` finds
pub record Reading : Type 0 where
  -- milliseconds since the governor was made
  pub elapsed_ms : ℕ
  -- models.usage(run_id)
  pub input_tokens : ℕ
  pub output_tokens : ℕ
  pub cost_usd : ℕ
  -- parent_budget(run_id): settled and reserved
  pub settled : Usage
  pub reserved : Reserved

pub record Governor : Type 0 where
  pub run_id : String
  pub snapshot : BudgetSnapshot
  pub history : List Attempt
  pub loop_settings : LoopSettings
  pub base_duration_ms : ℕ
  pub base_input_tokens : ℕ
  pub base_output_tokens : ℕ
  pub base_cost_usd : ℕ
  pub observed_input_tokens : ℕ
  pub observed_output_tokens : ℕ
  -- `_collaboration_budget is not None`
  pub attached : Bool
  -- `_child_usage` and `_child_reserved`, which are empty until they are read
  pub child_usage : Option Usage
  pub child_reserved : Reserved
  pub readings : ℕ
  pub rows : List GovernanceRow
  pub attempts : List AttemptRow

pub record RunStopped : Type 0 where
  pub reason : StopReason
  pub snapshot : BudgetSnapshot
  pub detail : Option Detail
  pub summarize : Bool

abbrev pub Governed : Type 0 → Type 0
Governed A = Exec RunStopped Governor A

abbrev no_usage : Usage
no_usage = record {
  input_tokens = 0;
  output_tokens = 0;
  cost_usd = 0;
  tool_rounds = 0;
  tool_calls = 0;
}

abbrev pub no_reserve : Reserved
no_reserve = record { tokens = 0; budget_usd = 0; tool_rounds = 0; tool_calls = 0 }

abbrev pub usage_or_none : Option Usage → Usage
usage_or_none none = no_usage
usage_or_none (some u) = u

abbrev accounted_to : String → Option (String × Usage) → Option Usage
accounted_to run none = none
accounted_to run (some (owner, usage)) = if owner == run then some usage else none

-- RunGovernor.__init__ over a row of the repository
unfoldable pub governor :
    String → LoopSettings → GovernanceRow → List GovernanceRow → List AttemptRow → Governor
governor run settings row rows attempts =
    let child = accounted_to run row.accounted in
    let used = usage_or_none child in
    record {
      run_id = run;
      snapshot = row.snapshot;
      history = row.history;
      loop_settings = settings;
      base_duration_ms = row.snapshot.duration_ms;
      base_input_tokens = row.snapshot.input_tokens - used.input_tokens;
      base_output_tokens = row.snapshot.output_tokens - used.output_tokens;
      base_cost_usd = row.snapshot.cost_usd - used.cost_usd;
      observed_input_tokens = 0;
      observed_output_tokens = 0;
      attached = false;
      child_usage = child;
      child_reserved = no_reserve;
      readings = 0;
      rows = rows;
      attempts = attempts;
    }

-- attach_collaboration_budget
unfoldable pub attach : Governor → Governor
attach g = record g { attached = true }

abbrev pub minus_reserved : Option ℕ → ℕ → Option ℕ
minus_reserved none reserved = none
minus_reserved (some n) reserved = some (n - reserved)

unfoldable pub available_remaining : Governor → Remaining
unfolding remaining
available_remaining g =
    let left = remaining g.snapshot in
    record {
      tool_rounds = left.tool_rounds - g.child_reserved.tool_rounds;
      tool_calls = minus_reserved left.tool_calls g.child_reserved.tool_calls;
      tokens = minus_reserved left.tokens g.child_reserved.tokens;
      budget_usd = minus_reserved left.budget_usd g.child_reserved.budget_usd;
    }

abbrev accounting : String → Option Usage → Option (String × Usage)
accounting run none = none
accounting run (some usage) = some (run, usage)

-- _save
unfoldable pub saved : Governor → Governor
unfolding save
saved g = record g {
  rows = save g.run_id g.snapshot g.history (accounting g.run_id g.child_usage) g.rows;
}

abbrev max_ℕ : ℕ → ℕ → ℕ
max_ℕ a b = if leb a b then b else a

abbrev pub charge : (rounds calls : ℕ) → Governor → Governor
charge rounds calls g = record g {
  snapshot = record (g.snapshot) {
    tool_rounds = g.snapshot.tool_rounds + rounds;
    tool_calls = g.snapshot.tool_calls + calls;
  };
}

abbrev summarizes : RunMode → StopReason → Bool
summarizes interactive max_tool_rounds = true
summarizes _ _ = false

abbrev pub at_limit : Option ℕ → ℕ → Bool
at_limit none used = false
at_limit (some limit) used = leb limit used

abbrev pub is_spent : Option ℕ → Bool
is_spent none = false
is_spent (some left) = nat_eq left 0

abbrev pub over_duration : Governor → Bool
over_duration g = at_limit g.snapshot.limits.duration_ms g.snapshot.duration_ms

abbrev pub out_of_tokens : Governor → Bool
out_of_tokens g = is_spent (available_remaining g).tokens

abbrev pub out_of_budget : Governor → Bool
out_of_budget g = is_spent (available_remaining g).budget_usd

abbrev pub out_of_rounds : Governor → Bool
out_of_rounds g = nat_eq (available_remaining g).tool_rounds 0

abbrev pub out_of_calls : Governor → Bool
out_of_calls g = is_spent (available_remaining g).tool_calls

abbrev pub common_limits : List ((Governor → Bool) × StopReason)
common_limits =
    (over_duration, max_duration)
    ∷ (out_of_tokens, max_tokens)
    ∷ (out_of_budget, max_budget_usd)
    ∷ []

abbrev pub round_limit : List ((Governor → Bool) × StopReason)
round_limit = (out_of_rounds, max_tool_rounds) ∷ []

-- the status of a polled process is "running", and the seconds since its last progress
abbrev pub Poll : Type 0
Poll = Option (Bool × ℕ)

abbrev pub is_running : Poll → Bool
is_running none = false
is_running (some (running, stalled)) = running

abbrev keeps_detail : Option Detail → Bool
keeps_detail (some (failed_retry repetitions fingerprint)) = true
keeps_detail _ = false

-- a poll of a running process is no loop while the process makes progress
abbrev pub poll_detail : Poll → Option Detail → Option Detail
poll_detail none detail = detail
poll_detail (some (running, stalled)) detail =
    if running && not (keeps_detail detail)
    then if leb 120 stalled then some (process_stalled stalled) else none
    else detail

abbrev pub detail_of : String → Poll → Governor → Option Detail
detail_of fingerprint poll g = poll_detail poll (loop_detail g.loop_settings g.history fingerprint)

abbrev pub item : ℕ → String → Poll → Attempt
item id fingerprint poll = record {
  attempt_id = id;
  fingerprint = fingerprint;
  ok = none;
  running_poll = is_running poll;
}

-- the reservation, the new item of the history, and the charge
abbrev pub admit : (name fingerprint : String) → Poll → Governor → ℕ × Governor
admit name fingerprint poll g =
    let (id, attempts) =
      reserve_attempt g.run_id (max_ℕ 1 g.snapshot.tool_rounds) name fingerprint g.attempts in
    (
      id,
      saved (
          charge 0 1 (record g {
            attempts = attempts;
            history = g.history ++ item id fingerprint poll ∷ [];
          })),
    )

abbrev pub admitting : (name fingerprint : String) → Poll → Governed ℕ
admitting name fingerprint poll g = let (id, t) = admit name fingerprint poll g in (return id, t)

abbrev pub call_limit : List ((Governor → Bool) × StopReason)
call_limit = (out_of_calls, max_tool_calls) ∷ []

-- the newest item of the attempt, in the reversed history
abbrev settle : ℕ → Bool → List Attempt → List Attempt
settle id ok [] = []
settle id ok (a ∷ rest) =
    let others = settle id ok rest in
    if nat_eq a.attempt_id id then record a { ok = some ok } ∷ rest else a ∷ others

module _ (reads : ℕ → Reading) where
  -- the children's settled usage, where the governor has been given their budget
  abbrev settled : Governor → Option Usage
  settled g = if g.attached then some (reads g.readings).settled else none

  abbrev pub with_usage : Option Usage → Governor → Governor
  with_usage usage g =
      let r = reads g.readings in
      let children = usage_or_none usage in
      let before = usage_or_none g.child_usage in
      record g {
        snapshot = record (g.snapshot) {
          duration_ms = g.base_duration_ms + r.elapsed_ms;
          input_tokens =
              g.base_input_tokens
              + max_ℕ r.input_tokens g.observed_input_tokens
              + children.input_tokens;
          output_tokens =
              g.base_output_tokens
              + max_ℕ r.output_tokens g.observed_output_tokens
              + children.output_tokens;
          cost_usd = g.base_cost_usd + r.cost_usd + children.cost_usd;
          tool_rounds = g.snapshot.tool_rounds + children.tool_rounds - before.tool_rounds;
          tool_calls = g.snapshot.tool_calls + children.tool_calls - before.tool_calls;
        };
        child_usage = usage;
        child_reserved = if g.attached then r.reserved else g.child_reserved;
        readings = suc g.readings;
      }

  -- `current`, by the governor that it leaves; what it returns is the snapshot of that
  unfoldable pub current : Governor → Governor
  unfolding saved
  current g = saved (with_usage (settled g) g)

  unfoldable pub record_model_usage : ℕ → ℕ → Governor → Governor
  unfolding current
  record_model_usage input output g = current (record g {
    observed_input_tokens = g.observed_input_tokens + input;
    observed_output_tokens = g.observed_output_tokens + output;
  })

  unfoldable pub record_external_usage : Usage → Governor → Governor
  unfolding current saved
  record_external_usage usage g = saved (
      charge usage.tool_rounds usage.tool_calls (
        current (record g {
          observed_input_tokens = g.observed_input_tokens + usage.input_tokens;
          observed_output_tokens = g.observed_output_tokens + usage.output_tokens;
          base_cost_usd = g.base_cost_usd + usage.cost_usd;
        })))

  unfoldable pub record_round : Governor → Governor
  unfolding current saved
  record_round g = saved (charge 1 0 (current g))

  unfoldable pub extend_tool_rounds : ℕ → Governor → Governor
  unfolding current saved
  extend_tool_rounds increment g =
      let c = current g in
      saved (record c {
        snapshot = record (c.snapshot) {
          limits = record (c.snapshot.limits) {
            tool_rounds = c.snapshot.limits.tool_rounds + increment;
          };
          extensions = c.snapshot.extensions + 1;
          stop_reason = none;
        };
      })

  abbrev pub stopped : StopReason → Governor → Governor
  stopped reason g =
      let c = current g in
      saved (record c { snapshot = record (c.snapshot) { stop_reason = some reason } })

  -- `stop`, which always raises
  unfoldable pub stop : {A : Type 0} → StopReason → Option Detail → Governed A
  unfolding current saved
  stop reason detail g =
      let s = stopped reason g in
      (
        raise (record {
          reason = reason;
          snapshot = s.snapshot;
          detail = detail;
          summarize = summarizes s.snapshot.mode reason;
        }),
        s,
      )

  -- limits in the order in which they are tested: the first that is reached raises
  unfoldable pub checks : List ((Governor → Bool) × StopReason) → Governed (Unit {0})
  unfolding stop
  checks [] g = (return tt, g)
  checks ((reached, reason) ∷ limits) g =
      let rest = checks limits g in if reached g then stop reason none g else rest

  -- _check_common
  unfoldable pub check_common : Governed (Unit {0})
  unfolding current checks available_remaining
  check_common g = checks common_limits (current g)

  unfoldable pub before_model : Governed (Unit {0})
  unfolding check_common
  before_model = do check_common; checks round_limit

  abbrev pub judged : (name fingerprint : String) → Poll → Option Detail → Governed ℕ
  judged name fingerprint poll none g = admitting name fingerprint poll g
  judged name fingerprint poll (some detail) g = stop repeated_tool_call (some detail) g

  -- a call that ends a loop raises, and any other is let through
  unfoldable pub judge : (name fingerprint : String) → Poll → Governed ℕ
  unfolding stop loop_detail reserve_attempt saved
  judge name fingerprint poll g = judged name fingerprint poll (detail_of fingerprint poll g) g

  unfoldable pub before_tool : (name fingerprint : String) → Poll → Governed ℕ
  unfolding check_common judge
  before_tool name fingerprint poll = do
    check_common
    checks call_limit
    judge name fingerprint poll

  unfoldable pub finish_tool : (id : ℕ) (ok : Bool) (duration_ms : ℕ) → Governor → Governor
  unfolding finish_attempt current
  finish_tool id ok duration_ms g = current (record g {
    attempts = finish_attempt id ok duration_ms g.attempts;
    history = reverse (settle id ok (reverse g.history));
  })

  -- remaining_seconds, in milliseconds
  unfoldable pub remaining_time : Governor → Option ℕ
  remaining_time g = elim g.snapshot.limits.duration_ms [
    | none ↦ none
    | some limit ↦ some (limit - (g.base_duration_ms + (reads g.readings).elapsed_ms))
  ]
