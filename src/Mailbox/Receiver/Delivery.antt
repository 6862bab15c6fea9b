-- ===== src/Mailbox/Receiver/Delivery.antt =====
-- Delivery, the tool calls and the end of a receiver keep its invariant.
use caps_lock.Prelude.{
  ℕ, zero, suc, ◌+◌, ◌≤◌, ◌≡◌, refl, Bool, true, not, ◌&&◌, Option, none, some, List, [], ◌∷◌, ◌++◌,
  String, arith, mem, string_eq, keep, All, Bool-cases, inl, inr, ltb, length, eq_iff, ◌>>=◌,
  writes, pure, gets,
}
use caps_lock.Table.{row_count}
use caps_lock.Mailbox.Wakeup.{MailboxSnapshot, snapshot, register}
use caps_lock.Mailbox.Store.{Message, has_message_id, message_ids, unique}
use caps_lock.Mailbox.Receiver.Ids.{
  occurrences, occurrences-append, mem-append, absent→none, mem-keep, occurrences-unique-le,
  mem-unique, row_count-has_message_id,
}
use caps_lock.Mailbox.Receiver.{
  Receiver, Reading, Entry, refresh_pending, load_historical, ack, receive,
}
use caps_lock.Mailbox.Polling.{
  Budget, select, render, owns_run, commit_delivery, after_commit, deliver, poll, for_tool, wanted,
  receive_messages, confirm, actionable_count, finish_at, finish, try_finish, start,
}
use caps_lock.Mailbox.Receiver.Once.{
  WasCommitted, Once, IsOnce, row_count-keep-le, row_count-keep-none, row_count-keep, Preserves,
  Preserves-bind, refresh_pending-IsOnce, load_historical-IsOnce, ack-IsOnce,
}
use caps_lock.Mailbox.Receiver.Receiving.{receive-IsOnce}

-- what `poll` selects: pending messages, each once, and none that a tool call holds
select-ids :
    (manual : List String) (actionable_only : Bool) (budget : Budget) (i : String)
    (proposed : List Entry) (rows : List Message)
    → let ids = (select manual actionable_only budget proposed rows).1 in
      (occurrences i ids ≤ row_count (has_message_id i) rows)
      × (mem i manual ≡ true → occurrences i ids ≡ 0)
unfolding select occurrences row_count
select-ids manual actionable_only budget i proposed [] = (omega arith, λ e. refl)
select-ids manual actionable_only budget i proposed (m ∷ rows) = ground (
  arith,
  eq_iff m.id i,
  select-ids manual actionable_only budget i proposed rows,
  select-ids manual actionable_only budget i (proposed ++ render m ∷ []) rows,
)

-- committed messages stay committed
WasCommitted-append :
    (address : String) (commits more : List String) (rows : List Message)
    → All (WasCommitted address commits) rows
    → All (WasCommitted address (commits ++ more)) rows
WasCommitted-append address commits more [] h = tt
WasCommitted-append address commits more (m ∷ rows) (h, hs) = (
  λ e. ground (arith, h e, mem-append m.id commits more),
  WasCommitted-append address commits more rows hs,
)

-- the state after a commit of ids that are new, with the tool calls' ids that remain
delivered-Once :
    (s : Receiver) (ids manual historical : List String)
    → ((i : String) → (occurrences i s.commits + occurrences i ids) + occurrences i manual ≤ 1)
    → IsOnce s
    → Once s.address
        (s.commits ++ unique ids)
        (keep (λ m. not (mem m.id (s.delivered_ids ++ ids))) s.pending)
        manual
        (s.delivered_ids ++ ids)
        (s.unacked ++ keep (λ i. not (mem i historical)) ids)
        s.mailbox
delivered-Once s ids manual historical new h = record {
  once = λ i. ground (
    arith,
    new i,
    h.once i,
    h.known i,
    occurrences-append i s.commits (unique ids),
    occurrences-unique-le i ids,
    row_count-keep (λ j. not (mem j (s.delivered_ids ++ ids))) i s.pending,
    mem-append i s.delivered_ids ids,
    absent→none i ids,
  );
  handed = λ i.
      omega
        (arith, new i, occurrences-append i s.commits (unique ids), occurrences-unique-le i ids);
  known = λ i. ground (
    arith,
    h.known i,
    mem-append i s.delivered_ids ids,
    mem-append i s.commits (unique ids),
    mem-unique i ids,
  );
  owed = λ i p. ground (
    arith,
    h.owed i,
    mem-append i s.unacked (keep (λ j. not (mem j historical)) ids),
    mem-keep i (λ j. not (mem j historical)) ids,
    mem-append i s.commits (unique ids),
    mem-unique i ids,
  );
  acked = WasCommitted-append s.address s.commits (unique ids) s.mailbox h.acked;
  key = h.key;
}

poll-new :
    (s : Receiver) (actionable_only : Bool) (budget : Budget) (i : String)
    → IsOnce s
    → (occurrences i s.commits
          + occurrences i (select s.manual actionable_only budget s.context s.pending).1)
        + occurrences i s.manual
      ≤ 1
poll-new s actionable_only budget i h = ground (
  arith,
  h.once i,
  h.handed i,
  select-ids s.manual actionable_only budget i s.context s.pending,
  absent→none i s.manual,
)

deliver-IsOnce :
    (now : ℕ) (proposed : List Entry) (ids : List String) (s : Receiver)
    → ((i : String) → (occurrences i s.commits + occurrences i ids) + occurrences i s.manual ≤ 1)
    → IsOnce s
    → IsOnce (deliver now (proposed, ids) s).1
unfolding commit_delivery after_commit refresh_pending
deliver-IsOnce now proposed [] s new h = h
deliver-IsOnce now proposed (i ∷ ids) s new h =
    elim (Bool-cases (owns_run s.run_session s.session_id)) [
      | inl e ↦ rw e (
          Preserves-bind (ack now) (λ _. pure (length (i ∷ ids))) (ack-IsOnce now) (λ _ t k. k) _
            (delivered-Once s (i ∷ ids) s.manual s.historical_ids new h))
      | inr e ↦ rw e h
    ]

pub poll-IsOnce :
    (reading : Reading) (actionable_only force : Bool) (budget : Budget)
    → Preserves (poll reading actionable_only force budget)
unfolding poll
poll-IsOnce reading actionable_only force budget =
    Preserves-bind (receive reading force)
      (λ _.
        gets (λ s. select s.manual actionable_only budget s.context s.pending)
        >>= deliver reading.read_at)
      (receive-IsOnce reading force)
      (λ _ s h.
        let chosen = select s.manual actionable_only budget s.context s.pending in
        deliver-IsOnce reading.read_at chosen.0 chosen.1 s
          (λ i. poll-new s actionable_only budget i h) h)

hand-IsOnce :
    (task_id reply_to : Option String) (s : Receiver)
    → IsOnce s
    → IsOnce (record s { manual = s.manual ++ message_ids (for_tool task_id reply_to s) })
hand-IsOnce task_id reply_to s h = record {
  once = h.once;
  handed = λ i.
      let chosen = λ (m : Message).
        wanted task_id m.task_id
        && wanted reply_to m.reply_to_message_id
        && not (mem m.id s.manual) in
      ground (
        arith,
        h.once i,
        h.handed i,
        occurrences-append i s.manual (message_ids (for_tool task_id reply_to s)),
        row_count-has_message_id i (for_tool task_id reply_to s),
        row_count-keep-le (has_message_id i) chosen s.pending,
        absent→none i s.manual,
        λ (e : mem i s.manual ≡ true).
            row_count-keep-none (has_message_id i) chosen (λ m. ground (arith, eq_iff m.id i))
              s.pending,
      );
  known = h.known;
  owed = h.owed;
  acked = h.acked;
  key = h.key;
}

pub receive_messages-IsOnce :
    (reading : Reading) (task_id reply_to : Option String)
    → Preserves (receive_messages reading task_id reply_to)
unfolding receive_messages
receive_messages-IsOnce reading task_id reply_to =
    Preserves-bind (receive reading true)
      (λ _.
        gets (for_tool task_id reply_to)
        >>= (λ values. writes (λ s. record s { manual = s.manual ++ message_ids values }) values))
      (receive-IsOnce reading true) (λ _ s h. hand-IsOnce task_id reply_to s h)

nothing-held :
    (s : Receiver)
    → IsOnce s
    → (i : String) → (occurrences i s.commits + occurrences i s.manual) + occurrences i [] ≤ 1
unfolding occurrences
nothing-held s h i = omega (arith, h.handed i)

pub confirm-IsOnce :
    (now : ℕ) (messages : List Entry) (ids : List String) (s : Receiver)
    → ids ≡ s.manual
    → IsOnce s
    → IsOnce (confirm now messages ids s).1
unfolding commit_delivery after_commit refresh_pending
confirm-IsOnce now messages [] s same h = h
confirm-IsOnce now messages (i ∷ ids) s same h =
    elim (Bool-cases (owns_run s.run_session s.session_id)) [
      | inl e ↦ rw e (
          ack-IsOnce now _
            (delivered-Once s (i ∷ ids) [] s.historical_ids (λ j. rw same (nothing-held s h j)) h))
      | inr e ↦ rw e h
    ]

finish-IsOnce : (version : Option MailboxSnapshot) (n : ℕ) → Preserves (finish version n)
finish-IsOnce version (suc n) s h = h
finish-IsOnce version zero s h = elim (Bool-cases (ltb 0 (actionable_count s))) [
  | inl e ↦ rw e h
  | inr e ↦ rw e (at version)
]
  where
    at : (v : Option MailboxSnapshot) → IsOnce (finish_at v s).1
    at none = h
    at (some v) = h

pub try_finish-IsOnce :
    (reading : Reading) (budget : Budget) → Preserves (try_finish reading budget)
unfolding try_finish
try_finish-IsOnce reading budget s h =
    Preserves-bind (poll reading true true budget) (finish (snapshot s.address s.registry))
      (poll-IsOnce reading true true budget) (finish-IsOnce (snapshot s.address s.registry)) s h

pub start-IsOnce : (reading : Reading) → Preserves (start reading)
unfolding start
start-IsOnce reading s h =
    let t = record s { delivered_ids = s.commits } in
    let u = record t {
      version = some (register s.address s.registry).0;
      registry = (register s.address s.registry).1;
    } in
    Preserves-bind load_historical (λ _. receive reading true) load_historical-IsOnce
      (λ _. receive-IsOnce reading true) (refresh_pending u)
      (refresh_pending-IsOnce u (record {
        once = h.once;
        handed = h.handed;
        known = λ i. refl;
        owed = h.owed;
        acked = h.acked;
        key = h.key;
      }))
