-- ===== src/Tests/LoopCases.antt =====
-- capslock/runtime/governance.py: histories of tool calls under the default settings.
use caps_lock.Prelude.{
  ℕ, ◌≤◌, ◌≡◌, ◌↔◌, refl, true, false, none, some, List, [], ◌∷◌, String, arith,
}
use caps_lock.Governance.Loops.{
  LoopSettings, IsValidSettings, Attempt, loop_detail, failed_retry, consecutive, cycle,
}
use caps_lock.Governance.Loops.Detection.{
  EndsInFailures, EndsInRepeats, EndsInCycle, Explains, loop_detail_sound, loop_detail-none,
}

-- capslock/behavior_defaults.py
abbrev defaults : LoopSettings
defaults = record {
  consecutive_repeats = 3;
  failed_retries = 3;
  cycle_repetitions = 3;
  max_cycle_length = 4;
}

defaults-IsValid : IsValidSettings defaults
defaults-IsValid = omega arith

abbrev done : ℕ → String → Attempt
done id fp = record { attempt_id = id; fingerprint = fp; ok = some true; running_poll = false }

abbrev polled : ℕ → String → Attempt
polled id fp = record { attempt_id = id; fingerprint = fp; ok = some true; running_poll = true }

abbrev failing : ℕ → String → Attempt
failing id fp = record { attempt_id = id; fingerprint = fp; ok = some false; running_poll = false }

abbrev alternating : List Attempt
alternating = done 1 "a" ∷ done 2 "b" ∷ done 3 "a" ∷ done 4 "b" ∷ done 5 "a" ∷ []

third_repeat : loop_detail defaults (done 1 "a" ∷ done 2 "a" ∷ []) "a" ≡ some (consecutive 3 "a")
unfolding loop_detail
third_repeat = refl

third_failure :
    loop_detail defaults (failing 1 "a" ∷ failing 2 "a" ∷ []) "a" ≡ some (failed_retry 3 "a")
unfolding loop_detail
third_failure = refl

third_round : loop_detail defaults alternating "b" ≡ some (cycle 2 3 "b")
unfolding loop_detail
third_round = refl

-- successful polls of a running process are told apart by their attempts
polls_pass : loop_detail defaults (polled 1 "a" ∷ polled 2 "a" ∷ polled 3 "a" ∷ []) "a" ≡ none
unfolding loop_detail
polls_pass = refl

loop_detail_sound_example : Explains defaults defaults-IsValid alternating "b" (cycle 2 3 "b")
loop_detail_sound_example =
    loop_detail_sound defaults defaults-IsValid alternating "b" (cycle 2 3 "b") third_round

loop_detail-none_example : (loop_detail defaults alternating "a" ≡ none) ↔ (
    (¬ EndsInFailures "a" 2 alternating)
    × (¬ EndsInRepeats "a" 3 alternating)
    × ((p : ℕ) → 2 ≤ p → p ≤ 4 → ¬ EndsInCycle "a" 3 p alternating))
loop_detail-none_example = loop_detail-none defaults defaults-IsValid alternating "a"
