-- ===== src/Tests/SendingCases.antt =====
-- send_mailbox of capslock/storage/repositories/collaboration.py: a question of a task to its parent, and the
-- answer.
use mathlib.Core.Path.{subst}
use caps_lock.Prelude.{
  false, ◌++◌, ◌==◌, ◌&&◌, bool_eq, Bool-cases, inl, inr, eq_iff, true, All, ◌≤◌, mem, arith,
  String, string_eq, ℕ, ◌≡◌, refl, none, some, List, [], ◌∷◌, return,
}
use caps_lock.Table.{row_count}
use caps_lock.Mailbox.Store.{Message, has_message_id, MessageKind, question, response, instruction}
use caps_lock.Agents.Record.{AgentTaskState, AgentTables}
use caps_lock.Agents.Sending.{Party, parent, child, Addresses, Letter, new_message, send_mailbox}
use caps_lock.Agents.Messages.{AgentMessage, IsNumbered, upto, record_all, record_all-IsNumbered}
use caps_lock.Mailbox.Store.Draining.{is_long}
use caps_lock.Mailbox.Store.Returning.{IsSane}
use caps_lock.Mailbox.Store.Rounds.{Round, IsLater, waiting, polls}
use caps_lock.Agents.Sending.Routes.{IsSent, send_mailbox-IsSent, send_mailbox-delivered}

abbrev addresses : Addresses
addresses = record { session = λ id. "s:"; worker = λ id. "w:"; task = λ id. "t:" }

abbrev tables : AgentTables
tables = record {
  runs =
      record { id = "r"; session_id = "s"; input_tokens = 0; output_tokens = 0; cost_usd = 0 } ∷ [];
  plan_tasks = [];
  teams = [];
  workers = [];
  tasks =
      record {
        id = "one";
        parent_run_id = "r";
        owner_session_id = "s";
        team_id = "d";
        assigned_worker_id = none;
        plan_task_id = none;
        objective = "goal";
        contract = "json";
        contract_sha256 = "digest";
        priority = 0;
        state = AgentTaskState.running;
        child_run_id = none;
        claim_token = none;
        attempt_count = 0;
        error = none;
        created_at = 1;
        started_at = none;
        finished_at = none;
      }
      ∷ [];
  dependencies = [];
  attempts = [];
  checkpoints = [];
  ledger = [];
}

abbrev letter : (sender recipient : Party) → MessageKind → Letter
letter sender recipient kind = record {
  task_id = some "one";
  parent_run_id = "r";
  sender = sender;
  recipient = recipient;
  kind = kind;
  payload = "text";
  payload_bytes = 4;
  sender_address = none;
  recipient_address = none;
  reply_to_message_id = none;
  worker_id = none;
  owner_session_id = none;
}

abbrev asked : Message
asked = new_message (letter child parent question) "m" 1 "t:" "s:"

abbrev answer : Letter
answer = record (letter parent child response) { reply_to_message_id = some "m" }

abbrev answered : Message
answered = new_message answer "n" 2 "s:" "t:"

asked_sent :
    send_mailbox addresses (letter child parent question) "m" 1 tables []
    ≡ (return asked, asked ∷ [])
unfolding send_mailbox
asked_sent = refl

abbrev both : List Message
both = asked ∷ answered ∷ []

answered_sent : send_mailbox addresses answer "n" 2 tables (asked ∷ []) ≡ (return answered, both)
unfolding send_mailbox
answered_sent = refl

send_mailbox-IsSent_example : IsSent answered (asked ∷ []) both
send_mailbox-IsSent_example =
    send_mailbox-IsSent addresses answer "n" 2 tables (asked ∷ []) answered both answered_sent

-- an older request waits too, and a younger one arrives
abbrev older : Message
older = new_message (letter parent child instruction) "k" 1 "s:" "t:"

abbrev younger : Message
younger = new_message answer "z" 5 "s:" "t:"

abbrev waiting_rows : List Message
waiting_rows = older ∷ asked ∷ []

abbrev all_rows : List Message
all_rows = older ∷ asked ∷ answered ∷ []

answered_again :
    send_mailbox addresses answer "n" 2 tables waiting_rows ≡ (return answered, all_rows)
unfolding send_mailbox
answered_again = refl

abbrev rounds : List Round
rounds =
    record { arrivals = younger ∷ []; limit = 1; now = 6 }
    ∷ record { arrivals = []; limit = 1; now = 7 }
    ∷ []

not_both : (a b x : String) → b == a ≡ false → (a == x && b == x) ≡ false
not_both a b x apart = elim (Bool-cases (a == x)) [
  | inl e ↦
      let same : b == x ≡ false = subst (λ y. b == y ≡ false) ((eq_iff a x).0 e) apart in
      ground (arith, same)
  | inr f ↦ ground (arith, f)
]

one_each : (x : String) → row_count (has_message_id x) (all_rows ++ younger ∷ []) ≤ 1
unfolding row_count
one_each x = ground (
  arith,
  not_both "k" "m" x refl,
  not_both "k" "n" x refl,
  not_both "k" "z" x refl,
  not_both "m" "n" x refl,
  not_both "m" "z" x refl,
  not_both "n" "z" x refl,
)

rows-IsSane : IsSane all_rows rounds
unfolding row_count
rows-IsSane = record { keyed = one_each; digests = refl }

rows_short : row_count is_long waiting_rows ≡ 0
unfolding row_count
rows_short = refl

two_wait : row_count (waiting "t:" 2) all_rows ≤ 2
unfolding row_count
two_wait = ground arith

rounds-IsLater : All (IsLater 2) rounds
unfolding row_count
rounds-IsLater = ((refl, refl), ((refl, refl), tt))

send_mailbox-delivered_example :
    (delivered : List String) × (polls "t:" rounds all_rows ≡ return delivered)
    × (mem {A = String} "n" delivered ≡ true)
send_mailbox-delivered_example =
    send_mailbox-delivered addresses answer "n" 2 tables waiting_rows answered all_rows rounds
      rows_short answered_again refl rows-IsSane rounds-IsLater two_wait

abbrev message : (id : String) → ℕ → AgentMessage
message id n = record {
  message_id = id;
  task_id = "one";
  parent_run_id = "r";
  sender = "child";
  recipient = "parent";
  sequence = n;
  kind = "progress";
  payload = "text";
  payload_digest = "digest";
  created_at = n;
}

-- the second message is replayed, and the fourth leaves a gap
abbrev messages : List AgentMessage
messages = message "a" 1 ∷ message "b" 1 ∷ message "c" 2 ∷ message "d" 4 ∷ []

nothing_recorded : IsNumbered []
unfolding upto
nothing_recorded task = refl

record_all-IsNumbered_example : IsNumbered (record_all messages [])
record_all-IsNumbered_example = record_all-IsNumbered messages [] nothing_recorded

two_recorded : record_all messages [] ≡ message "a" 1 ∷ message "c" 2 ∷ []
unfolding record_all
two_recorded = refl
