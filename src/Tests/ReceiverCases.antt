-- ===== src/Tests/ReceiverCases.antt =====
-- capslock/runtime/mailbox.py: a receiver with one message in its mailbox.
use caps_lock.Prelude.{return, ◌⊎◌, ◌≡◌, refl, true, false, none, some, List, [], ◌∷◌, arith}
use caps_lock.Table.{row_count}
use caps_lock.Mailbox.Wakeup.{empty, snapshot}
use caps_lock.Mailbox.Receiver.Finishing.{try_finish-true}
use caps_lock.Mailbox.Receiver.{Receiver, Reading}
use caps_lock.Mailbox.Polling.{try_finish, poll, actionable_count}
use caps_lock.Mailbox.Receiver.Ids.{occurrences}
use caps_lock.Mailbox.Receiver.Once.{IsOnce}
use caps_lock.Mailbox.Receiver.Histories.{
  Event, started, polled, tool_received, confirmed, finished, happens, history, history-IsOnce,
}
use caps_lock.Tests.MailboxCases.{message}
use caps_lock.Mailbox.Store.{instruction, read_mailbox_batch}

abbrev receiver : Receiver
receiver = record {
  address = "agent:a";
  session_id = "s";
  run_id = "r";
  task_ids = none;
  version = none;
  pending = [];
  has_more = false;
  manual = [];
  unacked = [];
  delivered_ids = [];
  historical_ids = [];
  closed = false;
  last_check = 0;
  query_count = 0;
  empty_reads = 0;
  ack_retries = 0;
  background_error = false;
  mailbox = message "n" instruction ∷ [];
  commits = [];
  checkpoint = [];
  historical = [];
  run_session = some "s";
  registry = empty;
  context = [];
}

abbrev reading : Reading
reading = record { now = 10; read_at = 11; scope = none }

abbrev events : List Event
events =
    started reading
    ∷ tool_received reading none none
    ∷ confirmed 12 []
    ∷ polled reading true true none
    ∷ finished reading none
    ∷ []

receiver-IsOnce : IsOnce receiver
unfolding occurrences row_count
receiver-IsOnce = record {
  once = λ i. omega arith;
  handed = λ i. omega arith;
  known = λ i. refl;
  owed = λ i h. ground arith;
  acked = (λ h. ground arith, tt);
  key = λ i. ground arith;
}

history-IsOnce_example : IsOnce (history events receiver)
history-IsOnce_example = history-IsOnce events receiver receiver-IsOnce

-- the message is handed to the tool call and committed once
delivered_once : (history events receiver).commits ≡ "n" ∷ []
unfolding history happens read_mailbox_batch snapshot
delivered_once = refl

-- the receiver when it has started, and when the message is delivered
abbrev emptied : Receiver
emptied = history (started reading ∷ polled reading false true none ∷ []) receiver

abbrev at_the_end : Receiver
at_the_end = (try_finish reading none emptied).1

ends : try_finish reading none emptied ≡ (return true, at_the_end)
unfolding try_finish history happens read_mailbox_batch snapshot
ends = refl

try_finish-true_example :
    ((poll reading true true none emptied).0 ≡ return 0)
    × (actionable_count at_the_end ≡ 0)
    × ((snapshot emptied.address emptied.registry ≡ none) ⊎ (at_the_end.closed ≡ true))
try_finish-true_example = try_finish-true reading none emptied at_the_end ends
