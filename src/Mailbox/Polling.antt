-- ===== src/Mailbox/Polling.antt =====
-- capslock/runtime/mailbox.py: the calls on a receiver. `poll` and `confirm_manual` deliver what
-- `_receive` brought, `receive_messages` and `wait_for_message` serve the tools, and `try_finish` and
-- `close` end it.
use caps_lock.Prelude.{
  ℕ, zero, suc, Bool, true, false, not, ◌&&◌, ◌||◌, Option, none, some, List, [], ◌∷◌, ◌++◌, String,
  if◌then◌else◌, ◌==◌, mem, string_eq, number_eq, bool_eq, ltb, length, keep, any, Outcome, return,
  raise, pure, gets, writes, ◌>>=◌, ◌>>◌,
}
use caps_lock.Mailbox.Wakeup.{MailboxSnapshot, register, snapshot, close, unregister, notify}
use caps_lock.Mailbox.Store.{
  Message, MailboxError, no_messages, wrong_session, over_budget, message_ids, unique,
}
use caps_lock.Mailbox.Receiver.{
  Entry, Receiver, Step, Reading, actionable, refresh_pending, clear_historical, load_historical,
  ack, receive, mail,
}

unfoldable pub render : Message → Entry
render m = mail (record {
  id = m.id;
  sender_address = m.sender_address;
  kind = m.kind;
  task_id = m.task_id;
  reply_to_message_id = m.reply_to_message_id;
  payload = m.payload;
})

-- whether the context still fits its budget, where the receiver has one
abbrev pub Budget : Type 0
Budget = Option (List Entry → Bool)

abbrev pub fits : Budget → List Entry → Bool
fits none entries = true
fits (some test) entries = test entries

-- The loop of `poll`: the context that it proposes and the ids that it selects.
unfoldable pub select :
    (manual : List String)
    → (actionable_only : Bool) → Budget
    → List Entry
    → List Message
    → List Entry × List String
unfolding render
select manual actionable_only budget proposed [] = (proposed, [])
select manual actionable_only budget proposed (m ∷ rows) =
    let skipped = select manual actionable_only budget proposed rows in
    let (entries, ids) = select manual actionable_only budget (proposed ++ render m ∷ []) rows in
    if mem m.id manual || (actionable_only && not (actionable m.kind))
    then skipped
    else if not (fits budget (proposed ++ render m ∷ []))
    then (proposed, [])
    else (entries, m.id ∷ ids)

abbrev pub owns_run : Option String → String → Bool
owns_run none session = false
owns_run (some s) session = s == session

-- MailboxCheckpointRepository.commit_delivery
unfoldable pub commit_delivery : List String → List Entry → Step Unit
unfolding unique
commit_delivery [] messages s = (raise no_messages, s)
commit_delivery (i ∷ ids) messages s =
    if owns_run s.run_session s.session_id
    then (return tt, record s { commits = s.commits ++ unique (i ∷ ids); checkpoint = messages })
    else (raise wrong_session, s)

-- what `poll` and `confirm_manual` do once the delivery is committed
unfoldable pub after_commit : List String → Receiver → Receiver
unfolding refresh_pending clear_historical
after_commit ids s =
    let t = refresh_pending (record s { delivered_ids = s.delivered_ids ++ ids }) in
    let u = clear_historical (keep (λ i. mem i s.historical_ids) ids) t in
    record u { unacked = u.unacked ++ keep (λ i. not (mem i s.historical_ids)) ids }

abbrev pub deliver : ℕ → List Entry × List String → Step ℕ
deliver now (proposed, []) = pure 0
deliver now (proposed, i ∷ ids) = do
  commit_delivery (i ∷ ids) proposed
  writes (λ s. after_commit (i ∷ ids) (record s { context = proposed })) tt
  ack now
  pure (length (i ∷ ids))

unfoldable pub poll : Reading → (actionable_only force : Bool) → Budget → Step ℕ
unfolding receive select commit_delivery after_commit ack
poll reading actionable_only force budget = do
  receive reading force
  chosen ← gets (λ s. select s.manual actionable_only budget s.context s.pending)
  deliver reading.read_at chosen

abbrev pub wanted : Option String → Option String → Bool
wanted none value = true
wanted (some i) none = false
wanted (some i) (some j) = j == i

abbrev pub for_tool : Option String → Option String → Receiver → List Message
for_tool task_id reply_to s =
    keep
      (λ (m : Message).
        wanted task_id m.task_id
        && wanted reply_to m.reply_to_message_id
        && not (mem m.id s.manual))
      s.pending

unfoldable pub receive_messages : Reading → (task_id reply_to : Option String) → Step (List Message)
unfolding receive
receive_messages reading task_id reply_to = do
  receive reading true
  values ← gets (for_tool task_id reply_to)
  writes (λ s. record s { manual = s.manual ++ message_ids values }) values

abbrev pub confirm : ℕ → List Entry → List String → Step Unit
confirm now messages [] = pure tt
confirm now messages (i ∷ ids) = do
  commit_delivery (i ∷ ids) messages
  writes (λ s. let t = after_commit (i ∷ ids) s in record t { manual = [] }) tt
  ack now

-- `confirm_manual`; the order in which it commits the ids is that of their texts, and is not
-- modelled: no reader of the mailbox steps depends on it
unfoldable pub confirm_manual : ℕ → List Entry → Step Unit
unfolding commit_delivery after_commit ack
confirm_manual now messages s = confirm now messages s.manual s

abbrev pub actionable_count : Receiver → ℕ
actionable_count s = length (keep (λ (m : Message). actionable m.kind) s.pending)

abbrev pub finish_at : Option MailboxSnapshot → Step Bool
finish_at none s = (return true, s)
finish_at (some version) s =
    let (closed, r) = close s.address (some version.revision) s.registry in
    (return closed, record s { registry = r; closed = closed || s.closed })

abbrev finish_idle : Option MailboxSnapshot → Step Bool
finish_idle version s =
    if ltb 0 (actionable_count s) then (raise over_budget, s) else finish_at version s

abbrev pub finish : Option MailboxSnapshot → ℕ → Step Bool
finish version zero = finish_idle version
finish version (suc n) = pure false

unfoldable pub try_finish : Reading → Budget → Step Bool
unfolding poll
try_finish reading budget = do
  version ← gets (λ s. snapshot s.address s.registry)
  delivered ← poll reading true true budget
  finish version delivered

unfoldable pub start : Reading → Step Unit
unfolding refresh_pending load_historical receive
start reading = do
  writes (λ s. record s { delivered_ids = s.commits }) tt
  writes
      (λ s.
        let (version, r) = register s.address s.registry in
        refresh_pending (record s { version = some version; registry = r }))
      tt
  load_historical
  receive reading true

unfoldable pub close_receiver : Receiver → Receiver
close_receiver s = record s {
  closed = true;
  registry = unregister s.address (close s.address none s.registry).1;
}

abbrev pub ended : Outcome MailboxError Unit × Receiver → Receiver
ended (return u, s) = s
ended (raise e, s) = record s {
  background_error = true;
  registry = (notify s.address true s.registry).1;
}

-- one round of the loop of `_reconcile`, which ends at an exception
unfoldable pub reconcile : Reading → Receiver → Receiver
unfolding receive
reconcile reading s = ended (receive reading true s)

abbrev pub answers : Option String → Message → Bool
answers reply_to m = actionable m.kind && wanted reply_to m.reply_to_message_id

-- what a round of the loop of `wait_for_message` does under the lock: whether it has a message
unfoldable pub wait_round : Reading → Option String → Step Bool
unfolding receive
wait_round reading reply_to = do receive reading false; gets (λ s. any (answers reply_to) s.pending)
