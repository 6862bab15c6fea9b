-- ===== src/Agents/Sending.antt =====
-- `CollaborationRepository.send_mailbox` of capslock/storage/repositories/collaboration.py. A message is a
-- row of Mailbox.Store, which has neither its run, team, worker and attempt nor the parties and the
-- time of expiry: delivery reads none of these. The three addresses,
-- which are texts pasted together, are the argument `Addresses`; an id that is missing or empty is
-- `none`. The payload is given redacted and encoded.
pub mod Routes
use caps_lock.Prelude.{
  ℕ, Bool, true, false, not, ◌&&◌, ◌||◌, Option, none, some, List, [], ◌∷◌, ◌++◌, String,
  if◌then◌else◌, leb, first, any, ◌==◌, string_eq, Outcome, return, raise, Exec,
}
use caps_lock.Mailbox.Store.{Message, MessageKind, MessageStatus, has_message_id}
use caps_lock.Agents.Record.{AgentTask, AgentWorker, AgentTeam, ParentRun, AgentTables}
use caps_lock.Agents.Store.{has_task_id, has_team_id, has_worker_id, has_run_id}

pub data Party : Type 0 where
  parent child system : Party

-- the ValueErrors, by their message
pub data SendError : Type 0 where
  bad_route too_long foreign_run foreign_child foreign_worker bad_recipient bad_reply
        digest_mismatch :
      SendError

pub record Addresses : Type 0 where
  pub session : String → String
  pub worker : String → String
  pub task : Option String → String

-- the arguments of send_mailbox
pub record Letter : Type 0 where
  pub task_id : Option String
  pub parent_run_id : String
  pub sender : Party
  pub recipient : Party
  pub kind : MessageKind
  pub payload : String
  pub payload_bytes : ℕ
  pub sender_address : Option String
  pub recipient_address : Option String
  pub reply_to_message_id : Option String
  pub worker_id : Option String
  pub owner_session_id : Option String

abbrev pub Sending : Type 0
Sending = Exec SendError (List Message) Message

abbrev pub is_route : (sender recipient : Party) → Bool
is_route parent child = true
is_route child parent = true
is_route system parent = true
is_route system child = true
is_route _ _ = false

-- `is not None and != value`
abbrev pub differs : Option String → String → Bool
differs none value = false
differs (some given) value = not (given == value)

abbrev of_team : AgentTables → (session : String) → AgentWorker → Bool
of_team s session w =
    any (λ (t : AgentTeam). has_team_id w.team_id t && t.session_id == session) s.teams

abbrev of_worker :
    AgentTables → (session : String) → Option String → Outcome SendError (Option String)
of_worker s session none = raise foreign_worker
of_worker s session (some id) =
    if any (λ w. has_worker_id id w && of_team s session w) s.workers
    then return (some id)
    else raise foreign_worker

abbrev of_task : (session : String) → Option AgentTask → Outcome SendError (Option String)
of_task session none = raise foreign_child
of_task session (some t) =
    if t.owner_session_id == session then return t.assigned_worker_id else raise foreign_child

-- the worker that the child's address names, if any
abbrev pub child_worker :
    Letter → (session : String) → AgentTables → Outcome SendError (Option String)
child_worker l session s = elim l.task_id [
  | none ↦ of_worker s session l.worker_id
  | some id ↦ of_task session (first (has_task_id id) s.tasks)
]

abbrev pub child_address : Addresses → Option String → Option String → String
child_address a task none = a.task task
child_address a task (some worker) = a.worker worker

abbrev pub address_of : Addresses → Party → (parent_address child_address : String) → String
address_of a parent p c = p
address_of a child p c = c
address_of a system p c = "system"

-- `parent_address if recipient == "parent" else child_address`
abbrev pub expected_recipient : Party → (parent_address child_address : String) → String
expected_recipient parent p c = p
expected_recipient _ p c = c

abbrev pub given_or : Option String → String → String
given_or none value = value
given_or (some given) value = given

-- the message that is replied to went from the recipient to the sender
abbrev pub answers : (sender recipient : String) → Option Message → Outcome SendError Unit
answers sender recipient none = raise bad_reply
answers sender recipient (some o) =
    if not o.intact
    then raise digest_mismatch
    else if not (o.recipient_address == sender) || not (o.sender_address == recipient)
    then raise bad_reply
    else return tt

abbrev pub check_reply :
    (sender recipient : String) → Option String → List Message → Outcome SendError Unit
check_reply sender recipient none rows = return tt
check_reply sender recipient (some id) rows =
    answers sender recipient (first (has_message_id id) rows)

abbrev pub new_message : Letter → (id : String) → ℕ → (sender recipient : String) → Message
new_message l id now sender recipient = record {
  id = id;
  task_id = l.task_id;
  sender_address = sender;
  recipient_address = recipient;
  reply_to_message_id = l.reply_to_message_id;
  kind = l.kind;
  payload = l.payload;
  payload_bytes = l.payload_bytes;
  intact = true;
  delivery_suspended = false;
  status = MessageStatus.queued;
  created_at = now;
  delivered_at = none;
  acknowledged_at = none;
}

abbrev pub insert_checked : Outcome SendError Unit → Message → Sending
insert_checked (raise e) m rows = (raise e, rows)
insert_checked (return u) m rows = (return m, rows ++ m ∷ [])

abbrev pub post :
    Addresses
    → Letter
    → (id : String) → ℕ
    → (session : String) → Outcome SendError (Option String)
    → Sending
post a l id now session (raise e) rows = (raise e, rows)
post a l id now session (return worker) rows =
    let here = a.session session in
    let there = child_address a l.task_id worker in
    let recipient = expected_recipient l.recipient here there in
    let sender = given_or l.sender_address (address_of a l.sender here there) in
    if differs l.recipient_address recipient
    then (raise bad_recipient, rows)
    else insert_checked (check_reply sender recipient l.reply_to_message_id rows)
        (new_message l id now sender recipient) rows

abbrev pub send_owned :
    Addresses → Letter → (id : String) → ℕ → AgentTables → Option ParentRun → Sending
send_owned a l id now s none rows = (raise foreign_run, rows)
send_owned a l id now s (some run) rows =
    if differs l.owner_session_id run.session_id
    then (raise foreign_run, rows)
    else post a l id now run.session_id (child_worker l run.session_id s) rows

unfoldable pub send_mailbox : Addresses → Letter → (id : String) → ℕ → AgentTables → Sending
send_mailbox a l id now s rows =
    if not (is_route l.sender l.recipient)
    then (raise bad_route, rows)
    else if not (leb l.payload_bytes 32000)
    then (raise too_long, rows)
    else send_owned a l id now s (first (has_run_id l.parent_run_id) s.runs) rows
