-- ===== src/Tests/GovernorCases.antt =====
-- capslock/runtime/governance.py: a run with a limit of two tool calls and one child.
use caps_lock.Prelude.{ℕ, ◌+◌, ◌≡◌, refl, true, none, some, List, [], ◌∷◌, arith, string_eq}
use caps_lock.Governance.Loops.{LoopSettings}
use caps_lock.Governance.Limits.{exec, RunLimits, start}
use caps_lock.Governance.Budget.{Reading, Governor, governor, before_tool}
use caps_lock.Governance.Budget.Charging.{
  GovernorCall, attach_budget, read, tool, finish, round, replay, Counts, replay-Counts,
}
use caps_lock.Governance.Budget.Admitting.{IsAdmitted, before_tool-return}

abbrev limits : RunLimits
limits = record {
  tool_rounds = 8;
  tool_calls = some 4;
  duration_ms = none;
  tokens = some 1000;
  budget_usd = none;
}

abbrev settings : LoopSettings
settings = record {
  consecutive_repeats = 3;
  failed_retries = 3;
  cycle_repetitions = 2;
  max_cycle_length = 4;
}

-- the child has settled two tool calls at each reading
abbrev reads : ℕ → Reading
reads n = record {
  elapsed_ms = 10 + n;
  input_tokens = 100;
  output_tokens = 20;
  cost_usd = 0;
  settled = record {
    input_tokens = 5;
    output_tokens = 5;
    cost_usd = 0;
    tool_rounds = 1;
    tool_calls = 2;
  };
  reserved = record { tokens = 50; budget_usd = 0; tool_rounds = 0; tool_calls = 0 };
}

abbrev fresh : Governor
fresh = let (row, rows) = start "r" none exec limits [] in governor "r" settings row rows []

abbrev history : List GovernorCall
history =
    attach_budget
    ∷ read
    ∷ tool "read_file" "f1" none
    ∷ round
    ∷ tool "shell" "f2" none
    ∷ tool "shell" "f3" none
    ∷ finish 1 true 7
    ∷ []

replay-Counts_example : Counts fresh (replay reads history fresh).1 (replay reads history fresh).0
unfolding start governor
replay-Counts_example = replay-Counts reads history fresh (omega arith)

-- two attempts are let through, and the third one is stopped: the child's calls count too
two_let_through : (replay reads history fresh).0 ≡ 2
unfolding replay start governor
two_let_through = refl

abbrev after_first : Governor
after_first = (before_tool reads "read_file" "f1" none fresh).1

before_tool-return_example : IsAdmitted reads "read_file" "f1" none fresh after_first 1
unfolding start governor before_tool
before_tool-return_example = before_tool-return reads "read_file" "f1" none fresh refl
