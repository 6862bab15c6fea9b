-- ===== src/Governance/Limits.antt =====
-- capslock/domain/governance.py and capslock/storage/repositories/governance.py: limits, snapshots of
-- a run's budget, and the tables that keep them. Costs, which the code counts in dollars, are whole
-- millionths here, and durations are milliseconds.
use caps_lock.Prelude.{
  ℕ, suc, ◌+◌, ◌-◌, Bool, true, false, not, ◌&&◌, Option, none, some, List, [], ◌∷◌, ◌++◌, map,
  String, if◌then◌else◌, nat_eq, leb, length, drop, first, keep, ◌==◌, string_eq,
}
use caps_lock.Table.{update_where}
use caps_lock.Governance.Loops.{Attempt}

pub data RunMode : Type 0 where
  interactive exec : RunMode

pub data StopReason : Type 0 where
  max_tool_rounds max_tool_calls max_duration max_tokens max_budget_usd repeated_tool_call :
      StopReason

pub record RunLimits : Type 0 where
  pub tool_rounds : ℕ
  pub tool_calls : Option ℕ
  pub duration_ms : Option ℕ
  pub tokens : Option ℕ
  pub budget_usd : Option ℕ

abbrev is_positive : Option ℕ → Bool
is_positive none = true
is_positive (some n) = not (nat_eq n 0)

-- RunLimits.__post_init__, which raises otherwise
unfoldable pub is_valid_limits : RunLimits → Bool
is_valid_limits l =
    is_positive (some l.tool_rounds)
    && is_positive l.tool_calls
    && is_positive l.duration_ms
    && is_positive l.tokens
    && is_positive l.budget_usd

pub record BudgetSnapshot : Type 0 where
  pub mode : RunMode
  pub root_run_id : String
  pub limits : RunLimits
  pub tool_rounds : ℕ
  pub tool_calls : ℕ
  pub duration_ms : ℕ
  pub input_tokens : ℕ
  pub output_tokens : ℕ
  pub cost_usd : ℕ
  pub extensions : ℕ
  pub stop_reason : Option StopReason

-- the items of as_dict()["remaining"] that a governor looks at
pub record Remaining : Type 0 where
  pub tool_rounds : ℕ
  pub tool_calls : Option ℕ
  pub tokens : Option ℕ
  pub budget_usd : Option ℕ

-- _remaining, _remaining_float
abbrev pub remaining_of : Option ℕ → ℕ → Option ℕ
remaining_of none used = none
remaining_of (some limit) used = some (limit - used)

unfoldable pub remaining : BudgetSnapshot → Remaining
remaining s = record {
  tool_rounds = s.limits.tool_rounds - s.tool_rounds;
  tool_calls = remaining_of s.limits.tool_calls s.tool_calls;
  tokens = remaining_of s.limits.tokens (s.input_tokens + s.output_tokens);
  budget_usd = remaining_of s.limits.budget_usd s.cost_usd;
}

-- what the attempts of child tasks have used, and what they still may use
pub record Usage : Type 0 where
  pub input_tokens : ℕ
  pub output_tokens : ℕ
  pub cost_usd : ℕ
  pub tool_rounds : ℕ
  pub tool_calls : ℕ

pub record Reserved : Type 0 where
  pub tokens : ℕ
  pub budget_usd : ℕ
  pub tool_rounds : ℕ
  pub tool_calls : ℕ

-- A row of run_governance. The item `_collaboration_accounted` of the stored history stands apart,
-- with the run that it names.
pub record GovernanceRow : Type 0 where
  pub run_id : String
  pub snapshot : BudgetSnapshot
  pub history : List Attempt
  pub accounted : Option (String × Usage)

-- a row of tool_call_attempts
pub record AttemptRow : Type 0 where
  pub id : ℕ
  pub run_id : String
  pub sequence : ℕ
  pub round_index : ℕ
  pub name : String
  pub fingerprint : String
  pub ok : Option Bool
  pub duration_ms : ℕ

abbrev pub of_run : String → GovernanceRow → Bool
of_run run row = row.run_id == run

-- history[-n:]
abbrev pub newest : ℕ → List Attempt → List Attempt
newest n history = drop (length history - n) history

abbrev written :
    BudgetSnapshot → List Attempt → Option (String × Usage) → GovernanceRow → GovernanceRow
written snapshot history accounted row = record row {
  snapshot = record snapshot { mode = row.snapshot.mode; root_run_id = row.snapshot.root_run_id };
  history = history;
  accounted = accounted;
}

-- GovernanceRepository.save, for the history that RunGovernor._save hands over: an item of
-- accounting takes the last of the 64 places
unfoldable pub save :
    String
    → BudgetSnapshot
    → List Attempt
    → Option (String × Usage)
    → List GovernanceRow
    → List GovernanceRow
unfolding update_where
save run snapshot history none rows =
    update_where (of_run run) (written snapshot (newest 64 history) none) rows
save run snapshot history (some accounted) rows =
    update_where (of_run run) (written snapshot (newest 63 history) (some accounted)) rows

abbrev max_ℕ : ℕ → ℕ → ℕ
max_ℕ a b = if leb a b then b else a

abbrev expanded : Option ℕ → Option ℕ → Option ℕ
expanded none new = new
expanded (some old) none = some old
expanded (some old) (some new) = some (max_ℕ old new)

-- _expanded_limits
unfoldable pub expanded_limits : RunLimits → RunLimits → RunLimits
expanded_limits previous requested = record {
  tool_rounds = max_ℕ previous.tool_rounds requested.tool_rounds;
  tool_calls = expanded previous.tool_calls requested.tool_calls;
  duration_ms = expanded previous.duration_ms requested.duration_ms;
  tokens = expanded previous.tokens requested.tokens;
  budget_usd = expanded previous.budget_usd requested.budget_usd;
}

abbrev fresh_row : String → RunMode → RunLimits → GovernanceRow
fresh_row run mode limits = record {
  run_id = run;
  snapshot = record {
    mode = mode;
    root_run_id = run;
    limits = limits;
    tool_rounds = 0;
    tool_calls = 0;
    duration_ms = 0;
    input_tokens = 0;
    output_tokens = 0;
    cost_usd = 0;
    extensions = 0;
    stop_reason = none;
  };
  history = [];
  accounted = none;
}

-- the 64 newest items of the parent's stored history
abbrev inherited : String → RunMode → RunLimits → GovernanceRow → GovernanceRow
inherited run mode limits parent = record {
  run_id = run;
  snapshot = record (parent.snapshot) {
    mode = mode;
    limits = expanded_limits parent.snapshot.limits limits;
    stop_reason = none;
  };
  history = newest 64 parent.history;
  accounted = parent.accounted;
}

abbrev row_of : Option String → List GovernanceRow → Option GovernanceRow
row_of none rows = none
row_of (some run) rows = first (of_run run) rows

abbrev started : String → RunMode → RunLimits → Option GovernanceRow → GovernanceRow
started run mode limits none = fresh_row run mode limits
started run mode limits (some parent) = inherited run mode limits parent

-- GovernanceRepository.start: the row that it returns, and the table
unfoldable pub start :
    (run : String) (parent : Option String) (mode : RunMode) (limits : RunLimits)
    → List GovernanceRow
    → GovernanceRow × List GovernanceRow
unfolding expanded_limits
start run parent mode limits rows = elim (first (of_run run) rows) [
  | some row ↦ (record row { snapshot = record (row.snapshot) { mode = mode } }, rows)
  | none ↦ let row = started run mode limits (row_of parent rows) in (row, rows ++ row ∷ [])
]

abbrev largest : List ℕ → ℕ
largest [] = 0
largest (n ∷ ns) = max_ℕ n (largest ns)

abbrev pub of_attempts : String → AttemptRow → Bool
of_attempts run row = row.run_id == run

-- GovernanceRepository.reserve_attempt, with the row's own id
unfoldable pub reserve_attempt :
    (run : String) (round_index : ℕ) (name fingerprint : String)
    → List AttemptRow
    → ℕ × List AttemptRow
reserve_attempt run round_index name fingerprint rows =
    let id = suc (largest (map (λ (r : AttemptRow). r.id) rows)) in
    let sequence =
      suc (largest (map (λ (r : AttemptRow). r.sequence) (keep (of_attempts run) rows))) in
    let row : AttemptRow = record {
      id = id;
      run_id = run;
      sequence = sequence;
      round_index = round_index;
      name = name;
      fingerprint = fingerprint;
      ok = none;
      duration_ms = 0;
    } in
    (id, rows ++ row ∷ [])

abbrev unfinished : ℕ → AttemptRow → Bool
unfinished id row = nat_eq row.id id && (elim row.ok [ none ↦ true | some ok ↦ false ])

-- GovernanceRepository.finish_attempt
unfoldable pub finish_attempt :
    (id : ℕ) (ok : Bool) (duration_ms : ℕ) → List AttemptRow → List AttemptRow
unfolding update_where
finish_attempt id ok duration_ms rows =
    update_where (unfinished id) (λ row. record row { ok = some ok; duration_ms = duration_ms })
      rows
