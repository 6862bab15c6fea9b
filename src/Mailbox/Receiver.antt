-- ===== src/Mailbox/Receiver.antt =====
-- capslock/runtime/mailbox.py: `MailboxReceiver`. One state holds the receiver's own fields, the
-- rows that its repositories keep for its address and session, the registry, and the list of
-- messages that its caller passes in and that `poll` extends. Sets of ids are lists.
pub mod Ids
pub mod Once
pub mod Receiving
pub mod Delivery
pub mod Histories
pub mod Finishing
use caps_lock.Prelude.{
  ℕ, zero, suc, ◌+◌, ◌-◌, Bool, true, false, not, ◌&&◌, ◌||◌, Option, none, some, List, [], ◌∷◌,
  ◌++◌, String, map, if◌then◌else◌, Eq, ◌==◌, mem, string_eq, number_eq, bool_eq, nat_eq, leb, ltb,
  length, take, drop, keep, any, all, Outcome, return, raise, Exec, pure, throw, gets, writes,
  ◌>>=◌, ◌>>◌,
}
use caps_lock.Mailbox.Wakeup.{
  MailboxSnapshot, Registry, register, snapshot, close, unregister, notify,
}
use caps_lock.Mailbox.Store.{
  Message, MessageKind, MailboxError, Batch, instruction, question, response, digest_mismatch,
  no_messages, wrong_session, over_budget, background_failure, message_ids, sorted,
  read_mailbox_batch, unique, acknowledge_mailbox_batch,
}

-- the message that `render` makes of a row, and the other messages of the context
pub record Envelope : Type 0 where
  pub id : String
  pub sender_address : String
  pub kind : MessageKind
  pub task_id : Option String
  pub reply_to_message_id : Option String
  pub payload : String

pub data Entry : Type 0 where
  other : String → Entry
  mail : Envelope → Entry

pub record Receiver : Type 0 where
  pub address : String
  pub session_id : String
  pub run_id : String
  pub task_ids : Option (List String)
  pub version : Option MailboxSnapshot
  pub pending : List Message
  pub has_more : Bool
  pub manual : List String
  pub unacked : List String
  pub delivered_ids : List String
  pub historical_ids : List String
  pub closed : Bool
  pub last_check : ℕ
  pub query_count : ℕ
  pub empty_reads : ℕ
  pub ack_retries : ℕ
  pub background_error : Bool
  -- agent_mailbox
  pub mailbox : List Message
  -- the ids of the mailbox steps of the session's runs, in the order of their commits
  pub commits : List String
  -- the messages of the last such step
  pub checkpoint : List Entry
  -- the receipts of older versions that the session still holds
  pub historical : List Message
  -- the session of the run, if the run is there
  pub run_session : Option String
  pub registry : Registry
  -- the caller's `messages`
  pub context : List Entry

abbrev pub Step : Type 0 → Type 0
Step = Exec MailboxError Receiver

-- What a call of `_receive` reads: the clock, twice, in milliseconds, the answer of
-- `scope_loader` where one is set, and the time for the acknowledgements.
pub record Reading : Type 0 where
  pub now : ℕ
  pub read_at : ℕ
  pub scope : Option (Option (List String))

-- ACTIONABLE
abbrev pub actionable : MessageKind → Bool
actionable instruction = true
actionable question = true
actionable response = true
actionable _ = false

unfoldable pub refresh_pending : Receiver → Receiver
refresh_pending s = record s {
  pending = keep (λ (m : Message). not (mem m.id s.delivered_ids)) s.pending;
}

-- MailboxCheckpointRepository.clear_historical
unfoldable pub clear_historical : List String → Receiver → Receiver
clear_historical ids s = record s {
  historical = keep (λ (m : Message). not (mem m.id ids)) s.historical;
}

-- the body of the loop of `_load_historical`; `known` follows the ids of `_pending`
unfoldable pub load_one : Message → Receiver → Receiver
unfolding clear_historical
load_one m s =
    let t = record s { historical_ids = s.historical_ids ++ m.id ∷ [] } in
    if mem m.id t.delivered_ids
    then clear_historical (m.id ∷ []) t
    else if not (mem m.id (message_ids t.pending))
    then record t { pending = t.pending ++ m ∷ [] }
    else t

unfoldable pub load_all : List Message → Receiver → Receiver
load_all [] s = s
load_all (m ∷ rows) s = load_all rows (load_one m s)

-- MailboxCheckpointRepository.historical_pending, which raises on a row with a wrong digest
unfoldable pub historical_pending : Step (List Message)
historical_pending s =
    let rows = take 32 s.historical in
    if all (λ (m : Message). m.intact) rows then (return rows, s) else (raise digest_mismatch, s)

unfoldable pub load_historical : Step Unit
unfolding historical_pending load_all
load_historical = do rows ← historical_pending; writes (load_all rows) tt

abbrev ack_result : List String → Outcome MailboxError (List Message) → Step Unit
ack_result ids (return rows) s =
    (return tt, record s { mailbox = rows; unacked = keep (λ i. not (mem i ids)) s.unacked })
ack_result ids (raise e) s = (raise e, s)

unfoldable pub ack : ℕ → Step Unit
unfolding acknowledge_mailbox_batch
ack now s = ack_result s.unacked (acknowledge_mailbox_batch s.unacked s.address now s.mailbox) s

abbrev is_empty {ℓ} : {A : Type ℓ} → List A → Bool
is_empty [] = true
is_empty (x ∷ xs) = false

-- more than 32 pending messages: the oldest, of which the passive ones keep eight places
unfoldable pub trim : Receiver → Receiver
trim s =
    let urgent = sorted (keep (λ (m : Message). actionable m.kind) s.pending) in
    let passive = sorted (keep (λ (m : Message). not (actionable m.kind)) s.pending) in
    let priority = if is_empty passive then 32 else 24 in
    if ltb 32 (length s.pending)
    then record s {
      pending = take 32 (take priority urgent ++ (passive ++ drop priority urgent));
      has_more = true;
    }
    else s

unfoldable pub extend_pending : List Message → Receiver → Receiver
extend_pending incoming s = record s {
  pending =
      s.pending
      ++ keep (λ (m : Message). not (mem m.id (message_ids s.pending) || mem m.id s.delivered_ids))
          incoming;
}

-- mail whose notification was lost
abbrev renotify : Bool → List Message → Receiver → Receiver
renotify changed incoming s =
    if any (λ (m : Message). actionable m.kind) incoming && not changed
    then (let r = (notify s.address true s.registry).1 in
        record s { registry = r; version = snapshot s.address r })
    else s

-- the ids of `incoming` that were delivered before and are still to be acknowledged
abbrev again : List Message → Receiver → Receiver
again incoming s = record s {
  unacked = s.unacked ++ keep (λ i. mem i s.delivered_ids) (message_ids incoming);
}

abbrev take_batch : Reading → Option MailboxSnapshot → Bool → Batch → Receiver → Receiver
take_batch reading version changed batch s = record s {
  has_more = batch.has_more;
  last_check = reading.read_at;
  version = version;
}

-- the part of `_receive` behind the read
unfoldable pub accept : Reading → Bool → List Message → Step Unit
unfolding ack extend_pending trim
accept reading changed [] = writes (λ s. record s { empty_reads = s.empty_reads + 1 }) tt
accept reading changed (m ∷ rows) = do
  writes (again (m ∷ rows)) tt
  ack reading.read_at
  writes (λ s. renotify changed (m ∷ rows) (trim (extend_pending (m ∷ rows) s))) tt

abbrev scoped : Option (Option (List String)) → Receiver → Receiver
scoped none s = s
scoped (some tasks) s = record s { task_ids = tasks }

abbrev read_step : Step Batch
read_step s = (read_mailbox_batch s.address s.task_ids 32 65536 s.mailbox, s)

unfoldable pub read_source : Reading → Option MailboxSnapshot → Bool → Step Unit
unfolding accept
read_source reading version changed = do
  writes (λ s. scoped reading.scope (record s { query_count = s.query_count + 1 })) tt
  batch ← read_step
  writes (take_batch reading version changed batch) tt
  accept reading changed batch.messages

abbrev same_version : Option MailboxSnapshot → Option MailboxSnapshot → Bool
same_version none none = true
same_version (some a) (some b) =
    nat_eq a.revision b.revision
    && nat_eq a.actionable_revision b.actionable_revision
    && (a.closed == b.closed)
    && nat_eq a.generation b.generation
same_version _ _ = false

-- `if self._unacked: self.ack_retries += 1; await self._ack()`
abbrev retry_ack : ℕ → Step Unit
retry_ack now s =
    if is_empty s.unacked
    then (return tt, s)
    else ack now (record s { ack_retries = s.ack_retries + 1 })

abbrev load_if_empty : Step Unit
load_if_empty s = if is_empty s.pending then load_historical s else (return tt, s)

-- the two early returns in front of the read
unfoldable pub wants_read : (force changed due : Bool) → Receiver → Bool
wants_read force changed due s =
    (force || changed || due || (s.has_more && is_empty s.pending))
    && not (not (is_empty s.pending) && not (force || changed))

abbrev read_if_wanted : Reading → Option MailboxSnapshot → (force changed due : Bool) → Step Unit
read_if_wanted reading version force changed due s =
    if wants_read force changed due s then read_source reading version changed s else (return tt, s)

abbrev receive_open : Reading → Bool → Option MailboxSnapshot → (changed due : Bool) → Step Unit
receive_open reading force version changed due = do
  retry_ack reading.now
  load_if_empty
  read_if_wanted reading version force changed due

-- `_receive`; RECONCILE_SECONDS is 30 s
unfoldable pub receive : Reading → Bool → Step Unit
unfolding ack load_historical wants_read read_source
receive reading force s =
    let version = snapshot s.address s.registry in
    let changed = not (same_version version s.version) in
    let due = leb 30000 (reading.now - s.last_check) in
    if s.background_error
    then (raise background_failure, s)
    else if s.closed
    then (return tt, s)
    else receive_open reading force version changed due s
