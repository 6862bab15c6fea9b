-- ===== src/Governance/Loops.antt =====
-- `RunGovernor._loop_detail` of capslock/runtime/governance.py: the detection of repeated tool calls
-- in the history of attempts, before one more call.
mod Tails
pub mod Detection
use Tails.{last_items, repeated, distinct, list_beq}
use mathlib.Core.List.{reverse}
use caps_lock.Prelude.{
  ℕ, zero, suc, ◌+◌, ◌-◌, ◌*◌, ◌≤◌, ◌≡◌, ◌↔◌, refl, Bool, true, false, not, ◌&&◌, ◌||◌, Option,
  none, some, List, [], ◌∷◌, ◌++◌, String, arith, if◌then◌else◌, Eq, ◌==◌, mem, string_eq,
  number_eq, eq_iff, leb, ltb, nat_eq, length, drop, all, map,
}

-- class LoopDetectionSettings; `__post_init__` refuses a field below 2
pub record LoopSettings : Type 0 where
  pub consecutive_repeats : ℕ
  pub failed_retries : ℕ
  pub cycle_repetitions : ℕ
  pub max_cycle_length : ℕ

pub record IsValidSettings (s : LoopSettings) : Type 0 where
  pub repeats : 2 ≤ s.consecutive_repeats
  pub retries : 2 ≤ s.failed_retries
  pub repetitions : 2 ≤ s.cycle_repetitions
  pub cycle : 2 ≤ s.max_cycle_length

-- an item of `history`; `ok` is None until the attempt is finished
pub record Attempt : Type 0 where
  pub attempt_id : ℕ
  pub fingerprint : String
  pub ok : Option Bool
  pub running_poll : Bool

-- The entries of the list `fingerprints`: the text `running_poll:<id>`, or a fingerprint, which is
-- a SHA-256 digest in hexadecimal and so never that text.
pub data Key : Type 0 where
  poll : ℕ → Key
  print : String → Key

abbrev key_beq : Key → Key → Bool
key_beq (poll a) (poll b) = nat_eq a b
key_beq (print s) (print t) = s == t
key_beq _ _ = false

pub key_beq_iff : (a b : Key) → (key_beq a b ≡ true) ↔ (a ≡ b)
key_beq_iff (poll a) (poll b) = ground arith
key_beq_iff (print s) (print t) = ground (arith, eq_iff s t)
key_beq_iff (poll a) (print t) = ground arith
key_beq_iff (print s) (poll b) = ground arith

instance abbrev pub key_eq : Eq Key
key_eq = record { equal = key_beq; equal_iff = key_beq_iff }

-- `item.get("ok") is True`
abbrev pub has_succeeded : Option Bool → Bool
has_succeeded (some true) = true
has_succeeded _ = false

abbrev pub key : Attempt → Key
key item =
    if item.running_poll && has_succeeded item.ok
    then poll item.attempt_id
    else print item.fingerprint

-- `item.get("ok") is False`
abbrev pub has_failed : Option Bool → Bool
has_failed (some false) = true
has_failed _ = false

-- a failed attempt of the call with this fingerprint
abbrev pub failed_call : String → Attempt → Bool
failed_call fingerprint item = item.fingerprint == fingerprint && has_failed item.ok

-- the `for item in reversed(self.history)` loop, over the reversed history
unfoldable pub count_failed : String → List Attempt → ℕ
count_failed fingerprint [] = 0
count_failed fingerprint (item ∷ rest) =
    let more = count_failed fingerprint rest in
    if not (failed_call fingerprint item) then 0 else suc more

-- the dictionary that `_loop_detail` returns
pub data Detail : Type 0 where
  failed_retry : (repetitions : ℕ) (fingerprint : String) → Detail
  consecutive : (repetitions : ℕ) (fingerprint : String) → Detail
  cycle : (cycle_length repetitions : ℕ) (fingerprint : String) → Detail
  process_stalled : (seconds : ℕ) → Detail

unfoldable pub prospective : List Attempt → String → List Key
prospective history fingerprint = map key history ++ print fingerprint ∷ []

-- the test in the body of the loop over periods
unfoldable pub is_cycle : (repetitions period : ℕ) → List Key → Bool
unfolding last_items repeated list_beq
is_cycle repetitions period keys =
    if ltb (length keys) (period * repetitions)
    then false
    else list_beq (last_items (period * repetitions) keys)
        (repeated repetitions (last_items period keys))

-- `for period in range(period, period + rounds)`
unfoldable pub find_cycle : (repetitions : ℕ) → List Key → (rounds period : ℕ) → Option ℕ
find_cycle repetitions keys zero period = none
find_cycle repetitions keys (suc rounds) period =
    let rest = find_cycle repetitions keys rounds (period + 1) in
    if is_cycle repetitions period keys then some period else rest

unfoldable pub is_consecutive : ℕ → List Key → Bool
unfolding last_items distinct
is_consecutive repeats keys =
    leb repeats (length keys) && nat_eq (distinct (last_items repeats keys)) 1

abbrev cycle_detail : LoopSettings → String → Option ℕ → Option Detail
cycle_detail settings fingerprint none = none
cycle_detail settings fingerprint (some period) =
    some (cycle period settings.cycle_repetitions fingerprint)

unfoldable pub loop_detail : LoopSettings → List Attempt → String → Option Detail
unfolding count_failed prospective is_cycle find_cycle is_consecutive
loop_detail settings history fingerprint =
    let keys = prospective history fingerprint in
    let failures = count_failed fingerprint (reverse history) in
    if leb settings.failed_retries (failures + 1)
    then some (failed_retry (failures + 1) fingerprint)
    else if is_consecutive settings.consecutive_repeats keys
    then some (consecutive settings.consecutive_repeats fingerprint)
    else cycle_detail settings fingerprint
        (find_cycle settings.cycle_repetitions keys (settings.max_cycle_length + 1 - 2) 2)
