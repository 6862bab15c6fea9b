-- ===== src/Mailbox/Receiver/Histories.antt =====
-- A receiver's history: any sequence of its calls, of the arrival of mail and of notifications.
use caps_lock.Prelude.{
  ℕ, ◌≤◌, ◌≡◌, refl, Bool, true, false, Option, List, [], ◌∷◌, ◌++◌, String, arith, if◌then◌else◌,
  string_eq, Bool-cases, inl, inr, eq_iff, any, nat_eq, Outcome, return, raise, gets,
}
use caps_lock.Table.{row_count, All-append}
use caps_lock.Mailbox.Wakeup.{Call, after}
use caps_lock.Mailbox.Store.{Message, queued, MailboxError, has_message_id}
use caps_lock.Mailbox.Store.Batches.{row_count-append}
use caps_lock.Mailbox.Receiver.{Receiver, Reading, Entry, receive}
use caps_lock.Mailbox.Polling.{
  Budget, poll, receive_messages, confirm_manual, try_finish, start, close_receiver, reconcile,
  wait_round, answers, ended,
}
use caps_lock.Mailbox.Receiver.Once.{WasCommitted, IsOnce, Preserves, Preserves-bind}
use caps_lock.Mailbox.Receiver.Receiving.{receive-IsOnce}
use caps_lock.Mailbox.Receiver.Delivery.{
  poll-IsOnce, receive_messages-IsOnce, confirm-IsOnce, try_finish-IsOnce, start-IsOnce,
}

-- What happens to a receiver, with what each call reads.
pub data Event : Type 0 where
  started : Reading → Event
  reconciled : Reading → Event
  awaited : Reading → (reply_to : Option String) → Event
  polled : Reading → (actionable_only force : Bool) → Budget → Event
  tool_received : Reading → (task_id reply_to : Option String) → Event
  confirmed : ℕ → List Entry → Event
  finished : Reading → Budget → Event
  released : Event
  -- a sender's INSERT, that the primary key lets through, and another task's use of the registry
  arrived : Message → Event
  notified : Call → Event

abbrev insert : Message → List Message → List Message
insert m rows =
    if nat_eq (row_count (has_message_id m.id) rows) 0
    then rows ++ record m { status = queued } ∷ []
    else rows

unfoldable pub happens : Event → Receiver → Receiver
unfolding start reconcile wait_round poll receive_messages confirm_manual try_finish close_receiver
    after
happens (started reading) s = (start reading s).1
happens (reconciled reading) s = reconcile reading s
happens (awaited reading reply_to) s = (wait_round reading reply_to s).1
happens (polled reading actionable_only force budget) s =
    (poll reading actionable_only force budget s).1
happens (tool_received reading task_id reply_to) s = (receive_messages reading task_id reply_to s).1
happens (confirmed now messages) s = (confirm_manual now messages s).1
happens (finished reading budget) s = (try_finish reading budget s).1
happens released s = close_receiver s
happens (arrived m) s = record s { mailbox = insert m s.mailbox }
happens (notified call) s = record s { registry = after call s.registry }

unfoldable pub history : List Event → Receiver → Receiver
unfolding happens
history [] s = s
history (e ∷ events) s = history events (happens e s)

arrived-IsOnce : (m : Message) (s : Receiver) → IsOnce s → IsOnce (happens (arrived m) s)
unfolding happens row_count
arrived-IsOnce m s h = elim (Bool-cases (nat_eq (row_count (has_message_id m.id) s.mailbox) 0)) [
  | inl e ↦ rw e (record {
    once = h.once;
    handed = h.handed;
    known = h.known;
    owed = h.owed;
    acked =
        All-append (WasCommitted s.address s.commits) s.mailbox (record m { status = queued } ∷ [])
          h.acked (λ p. ground arith, tt);
    key = λ i. fresh_key i e;
  })
  | inr e ↦ rw e h
]
  where
    fresh_key :
        (i : String)
        → nat_eq (row_count (has_message_id m.id) s.mailbox) 0 ≡ true
        → row_count (has_message_id i) (s.mailbox ++ record m { status = queued } ∷ []) ≤ 1
    fresh_key i e = ground (
      arith,
      h.key i,
      eq_iff m.id i,
      row_count-append (has_message_id i) s.mailbox (record m { status = queued } ∷ []),
    )

reconcile-IsOnce : (reading : Reading) (s : Receiver) → IsOnce s → IsOnce (reconcile reading s)
unfolding reconcile
reconcile-IsOnce reading s h = go (receive reading true s) (receive-IsOnce reading true s h)
  where
    go : (r : Outcome MailboxError Unit × Receiver) → IsOnce r.1 → IsOnce (ended r)
    go (return u, t) k = k
    go (raise e, t) k = k

wait_round-IsOnce :
    (reading : Reading) (reply_to : Option String) → Preserves (wait_round reading reply_to)
unfolding wait_round
wait_round-IsOnce reading reply_to =
    Preserves-bind (receive reading false) (λ _. gets (λ s. any (answers reply_to) s.pending))
      (receive-IsOnce reading false) (λ _ s h. h)

happens-IsOnce : (e : Event) (s : Receiver) → IsOnce s → IsOnce (happens e s)
unfolding happens confirm_manual close_receiver
happens-IsOnce (started reading) s h = start-IsOnce reading s h
happens-IsOnce (reconciled reading) s h = reconcile-IsOnce reading s h
happens-IsOnce (awaited reading reply_to) s h = wait_round-IsOnce reading reply_to s h
happens-IsOnce (polled reading actionable_only force budget) s h =
    poll-IsOnce reading actionable_only force budget s h
happens-IsOnce (tool_received reading task_id reply_to) s h =
    receive_messages-IsOnce reading task_id reply_to s h
happens-IsOnce (confirmed now messages) s h = confirm-IsOnce now messages s.manual s refl h
happens-IsOnce (finished reading budget) s h = try_finish-IsOnce reading budget s h
happens-IsOnce released s h = h
happens-IsOnce (arrived m) s h = arrived-IsOnce m s h
happens-IsOnce (notified call) s h = h

-- Whatever happens to a receiver, and in whatever order, with any step raising or not: no message is
-- committed to the session's context twice, and an acknowledged message of the receiver is one that
-- was committed. The invariant that gives this holds at the end where it holds at the start.
pub history-IsOnce : (events : List Event) (s : Receiver) → IsOnce s → IsOnce (history events s)
unfolding history
history-IsOnce [] s h = h
history-IsOnce (e ∷ events) s h = history-IsOnce events (happens e s) (happens-IsOnce e s h)
