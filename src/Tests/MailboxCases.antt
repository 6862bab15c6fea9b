-- ===== src/Tests/MailboxCases.antt =====
-- capslock/collaboration/wakeup.py and capslock/storage/repositories/collaboration.py: a mailbox that
-- is registered and notified, and a table of two messages.
use caps_lock.Prelude.{
  zero, suc, ◌≡◌, ◌≢◌, ◌↔◌, ◌≤◌, refl, true, false, none, some, List, [], ◌∷◌, String, arith,
  return, length,
}
use caps_lock.Table.{row_count}
use caps_lock.Mailbox.Wakeup.{
  MailboxSnapshot, Registry, empty, register, snapshot, notify, close, register_call, notify_call,
  Call, replay, after, wait_since,
}
use caps_lock.Mailbox.Wakeup.Revisions.{IsValid, empty-IsValid, after-IsValid, close-notify}
use caps_lock.Mailbox.Wakeup.Waiting.{concerned, wait_since_exact}
use caps_lock.Mailbox.Store.{
  Message, MessageKind, instruction, progress, queued, Batch, has_message_id, read_mailbox_batch,
}
use caps_lock.Mailbox.Store.Batches.{
  payload_total, row_count-read_mailbox_batch, read_mailbox_batch_bounds,
  read_mailbox_batch_progress,
}

abbrev registry : Registry
registry = (register "agent:a" empty).1

abbrev seen : MailboxSnapshot
seen = record { revision = 0; actionable_revision = 0; closed = false; generation = 1 }

registry-IsValid : IsValid registry
unfolding after
registry-IsValid = after-IsValid (register_call "agent:a") empty empty-IsValid

registry-snapshot : snapshot "agent:a" registry ≡ some seen
unfolding snapshot register
registry-snapshot = refl

registry-key : registry.table "agent:a" ≡ some 1
unfolding register
registry-key = refl

-- one notification that does not count, and one that does while the task waits
abbrev before : List Call
before = notify_call "agent:a" false ∷ []

abbrev during : List Call
during = notify_call "agent:b" true ∷ notify_call "agent:a" true ∷ []

before_key : (replay before registry).table "agent:a" ≡ some 1
unfolding replay register after
before_key = refl

wait_since_exact_example :
    (wait_since "agent:a" seen true during (replay before registry) ≡ none) ↔ (
      (seen.generation ≡ suc zero)
      × (seen.closed ≡ false)
      × (concerned 1 true before registry ≡ false)
      × (concerned 1 true during (replay before registry) ≡ false))
wait_since_exact_example =
    wait_since_exact "agent:a" registry seen true before during 1 registry-IsValid registry-snapshot
      before_key

-- the notification ends the wait
wait_ends : wait_since "agent:a" seen true (notify_call "agent:a" true ∷ []) registry ≢ none
unfolding wait_since register
wait_ends e = ground arith

close-notify_example :
    close "agent:a" (some 0) (notify "agent:a" true registry).1
    ≡ (false, (notify "agent:a" true registry).1)
unfolding notify register replay
close-notify_example =
    close-notify "agent:a" registry seen [] [] true registry-IsValid registry-snapshot refl
      registry-key refl

abbrev pub message : String → MessageKind → Message
message id kind = record {
  id = id;
  task_id = none;
  sender_address = "agent:b";
  recipient_address = "agent:a";
  reply_to_message_id = none;
  kind = kind;
  payload = "{}";
  payload_bytes = 2;
  intact = true;
  delivery_suspended = false;
  status = queued;
  created_at = 1;
  delivered_at = none;
  acknowledged_at = none;
}

abbrev table : List Message
table = message "m" progress ∷ message "n" instruction ∷ []

abbrev batch : Batch
batch = record { messages = message "n" instruction ∷ []; has_more = true }

batch-read : read_mailbox_batch "agent:a" none 1 100 table ≡ return batch
unfolding read_mailbox_batch
batch-read = refl

row_count-read_mailbox_batch_example :
    row_count (has_message_id "n") batch.messages ≤ row_count (has_message_id "n") table
row_count-read_mailbox_batch_example =
    row_count-read_mailbox_batch "agent:a" none 1 100 table batch batch-read (has_message_id "n")

read_mailbox_batch_bounds_example :
    (length batch.messages ≤ 32)
    × (1 ≤ 1 → length batch.messages ≤ 1)
    × (payload_total batch.messages ≤ 100)
    × (payload_total batch.messages ≤ 65536)
read_mailbox_batch_bounds_example =
    read_mailbox_batch_bounds "agent:a" none 1 100 table batch batch-read

read_mailbox_batch_progress_example : batch.messages ≢ []
unfolding row_count
read_mailbox_batch_progress_example =
    read_mailbox_batch_progress "agent:a" none 1 100 table batch batch-read (ground arith) refl
